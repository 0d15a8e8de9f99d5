-- ===== src/Results/Counts.antt =====
-- What `persist_pending_results` reports.
use mathlib.Core.Path.{subst}
use mineru_gateway.Base.{
  ℕ, ◌+◌, ◌≡◌, Bool, String, List, [], ◌∷◌, ◌&&◌, nonempty, arith, inl, inr, Bool-cases,
}
use mineru_gateway.Base.Action.{
  Answer, returned, raised, pure, try_except, ◌>>=◌, ◌>>◌, rescue, proceed,
}
use mineru_gateway.Base.Table.{count_where}
use mineru_gateway.Config.{GatewaySettings}
use mineru_gateway.Models.{Task}
use mineru_gateway.Payload.{Bytes}
use mineru_gateway.Objects.{Failure, StorageProvider, commit}
use mineru_gateway.Cache.Entries.{CacheState}
use mineru_gateway.Queue.Rows.{defer_task_poll}
use mineru_gateway.Results.{persist, persist_each, persist_pending_results}

-- A task whose result can be fetched.
abbrev pub is_fetchable : Task → Bool
is_fetchable task = nonempty task.upstream_task_id && nonempty task.upstream_base_url

-- Counts are returned, and they sum to `n`.
abbrev pub Sums : ℕ → Answer Failure (ℕ × ℕ) → Type 0
Sums n (returned (stored, failed)) = stored + failed ≡ n
Sums n (raised e) = ⊥

module _ {S : Type 0} (cfg : GatewaySettings) (store : StorageProvider S) (has_cache : Bool)
    (download : Task → Answer Failure Bytes) (generation : String → String) (now : ℕ) where
  fetched-Sums :
      (task : Task) (stored failed : ℕ) (r : Answer Failure (String × Bytes) × CacheState S)
      → Sums
          (stored + failed + 1)
          (rescue
            (λ e. (commit (defer_task_poll task.task_id now) >> pure (stored, failed + 1)))
            (proceed (λ _. pure (stored + 1, failed)) r)).0
  unfolding pure ◌>>◌ commit
  fetched-Sums task stored failed (returned _, after) = omega arith
  fetched-Sums task stored failed (raised e, after) = omega arith

  -- The rest of the tasks adds to the counts.
  abbrev Adds : List Task → Type 0
  Adds tasks =
      (stored failed : ℕ) (state : CacheState S)
      → Sums (stored + failed + count_where is_fetchable tasks)
          (persist_each cfg store has_cache download generation now tasks (stored, failed) state).0

  after_persist :
      (tasks : List Task) (before one : ℕ) (r : Answer Failure (ℕ × ℕ) × CacheState S)
      → Adds tasks
      → Sums (before + one) r.0
      → Sums
          (before + (one + count_where is_fetchable tasks))
          (proceed
            (λ more. persist_each cfg store has_cache download generation now tasks more)
            r).0
  after_persist tasks before one (returned (stored, failed), after) rest h =
      let total : stored + failed + count_where is_fetchable tasks
          ≡ before + (one + count_where is_fetchable tasks) =
        omega arith in
      subst
        (λ n.
          Sums n
            (persist_each cfg store has_cache download generation now tasks (stored, failed)
              after).0)
        total (rest stored failed after)
  after_persist tasks before one (raised e, after) rest h = h

  persist_each-Adds : (tasks : List Task) → Adds tasks
  unfolding persist_each ◌>>=◌ persist try_except pure count_where
  persist_each-Adds [] stored failed state = omega arith
  persist_each-Adds (task ∷ tasks) stored failed state = elim (Bool-cases (is_fetchable task)) [
    | inl q ↦ rw q (
        after_persist tasks (stored + failed) 1 _ (persist_each-Adds tasks)
          (fetched-Sums task stored failed _))
    | inr q ↦ rw q (
        after_persist tasks (stored + failed) 0 (returned (stored, failed), state)
          (persist_each-Adds tasks) (omega arith))
  ]

-- The storing of pending results never raises, whatever the downloads and the store answer, and it
-- counts each task that has an upstream id and a base URL once, as stored or as failed.
pub persist_pending_results_counts :
    {S : Type 0} (cfg : GatewaySettings) (store : StorageProvider S) (has_cache : Bool)
    → (download : Task → Answer Failure Bytes) (generation : String → String) (now : ℕ)
    → (tasks : List Task) (state : CacheState S)
    → Sums
        (count_where is_fetchable tasks)
        (persist_pending_results cfg store has_cache download generation now tasks state).0
persist_pending_results_counts cfg store has_cache download generation now tasks state =
    let all : 0 + 0 + count_where is_fetchable tasks ≡ count_where is_fetchable tasks =
      omega arith in
    subst
      (λ n. Sums n (persist_each cfg store has_cache download generation now tasks (0, 0) state).0)
      all (persist_each-Adds cfg store has_cache download generation now tasks 0 0 state)
