-- ===== src/Queue/Picks.antt =====
-- What `_claim_next_dispatch` picks: the oldest queued task and the least loaded worker, whenever
-- there are such.
use mineru_gateway.Base.{
  ℕ, ◌<◌, ◌≤◌, ◌≡◌, ◌⊎◌, true, not, List, [], Option, none, some, inl, inr, arith, Option-cases,
  ◌&&◌, eq_refl,
}
use mineru_gateway.Base.Table.{All, count_where, select_where}
use mineru_gateway.Base.Table.Laws.{All-select_where, select_where-holds, first_by-All}
use mineru_gateway.Base.Table.Keys.{All-mono, All-count_self}
use mineru_gateway.Base.Table.First.{All-of_select, Respects, first_by-minimises}
use mineru_gateway.Config.{GatewaySettings}
use mineru_gateway.Models.{Worker, Task, Db, has_task_id}
use mineru_gateway.Workers.Clauses.{active_count, dispatchable_clause}
use mineru_gateway.Workers.Queries.{find_dispatchable, dispatch_less, contains}
use mineru_gateway.Workers.Commits.{acquire_dispatchable}
use mineru_gateway.Workers.Choice.{IsChosen, stamped, after_choice, find_dispatchable-IsChosen}
use mineru_gateway.Queue.Rows.{write_tasks}
use mineru_gateway.Queue.Claim.{
  claimed_row, claim_next_dispatch, next_queued, claimable, task_created_less,
}

-- What a claim picks from the database.
pub record IsPick (cfg : GatewaySettings) (db : Db) (task : Task) (worker : Worker) : Type 0 where
  pub is_claimable : claimable task ≡ true
  pub stored : 0 < count_where (has_task_id task.task_id) db.tasks
  pub oldest : All (λ t. claimable t ≡ true → task.created_at ≤ t.created_at) db.tasks
  pub chosen : IsChosen cfg [] db worker
  pub least_loaded :
      All
        (λ w.
          dispatchable_clause cfg db.tasks w ≡ true
          → active_count db.tasks worker.id ≤ active_count db.tasks w.id)
        db.workers

created_Respects : Respects task_created_less (λ t. t.created_at)
created_Respects = record { first = λ a b h. ground arith; not_first = λ a b h. ground arith }

load_Respects : (tasks : List Task) → Respects (dispatch_less tasks) (λ w. active_count tasks w.id)
unfolding dispatch_less
load_Respects tasks = record { first = λ a b h. ground arith; not_first = λ a b h. ground arith }

module _ (cfg : GatewaySettings) (db : Db) where
  least_loaded-of_find :
      {w : Worker}
      → find_dispatchable cfg [] db ≡ some w
      → All
          (λ v.
            dispatchable_clause cfg db.tasks v ≡ true
            → active_count db.tasks w.id ≤ active_count db.tasks v.id)
          db.workers
  unfolding find_dispatchable
  least_loaded-of_find {w} e =
      let p = λ (v : Worker). dispatchable_clause cfg db.tasks v && not (contains [] v.id) in
      let least =
        first_by-minimises (dispatch_less db.tasks) (λ v. active_count db.tasks v.id)
          (select_where p db.workers) (load_Respects db.tasks) e in
      All-mono db.workers (λ v h d. h (free v d))
        (All-of_select (λ v. active_count db.tasks w.id ≤ active_count db.tasks v.id) p db.workers
          least)
    where
      free :
          (v : Worker)
          → dispatchable_clause cfg db.tasks v ≡ true
          → (dispatchable_clause cfg db.tasks v && not (contains [] v.id)) ≡ true
      free v d = rw d

  IsPick-of_finds :
      {task : Task} {w : Worker}
      → next_queued db ≡ some task
      → find_dispatchable cfg [] db ≡ some w
      → IsPick cfg db task w
  unfolding next_queued
  IsPick-of_finds {task} {w} e f = record {
    is_claimable =
        first_by-All (λ t. claimable t ≡ true) task_created_less (select_where claimable db.tasks)
          (select_where-holds claimable db.tasks) e;
    stored =
        first_by-All (λ t. 0 < count_where (has_task_id t.task_id) db.tasks) task_created_less
          (select_where claimable db.tasks)
          (All-select_where (λ t. 0 < count_where (has_task_id t.task_id) db.tasks) claimable
            db.tasks
            (All-count_self (λ t. has_task_id t.task_id) db.tasks (λ t. eq_refl t.task_id)))
          e;
    oldest =
        All-of_select (λ t. task.created_at ≤ t.created_at) claimable db.tasks
          (first_by-minimises task_created_less (λ t. t.created_at)
            (select_where claimable db.tasks) created_Respects e);
    chosen = find_dispatchable-IsChosen cfg [] db f;
    least_loaded = least_loaded-of_find f;
  }

-- The row that a claim returns, and the database after it.
abbrev pub claimed : ℕ → Task → Worker → Task
claimed now task w = let t = claimed_row w.id now task in record t { updated_at = now }

abbrev pub after_claim : ℕ → Task → Worker → Db → Db
after_claim now task w db =
    write_tasks (has_task_id task.task_id) now (claimed_row w.id now) (after_choice now w db)

module _ (cfg : GatewaySettings) (now : ℕ) (deferred_since : Option ℕ) (db : Db) where
  -- A claim picks a task and a worker, or there is no queued task or no worker for it and nothing
  -- is written.
  pub claim-cases :
      ((task : Task) × (w : Worker) × IsPick cfg db task w
        × ((claim_next_dispatch cfg now deferred_since db).picked
            ≡ some (claimed now task w, stamped now w))
        × ((claim_next_dispatch cfg now deferred_since db).db ≡ after_claim now task w db))
      ⊎ (((next_queued db ≡ none) ⊎ (find_dispatchable cfg [] db ≡ none))
          × ((claim_next_dispatch cfg now deferred_since db).picked ≡ none)
          × ((claim_next_dispatch cfg now deferred_since db).db ≡ db))
  unfolding claim_next_dispatch claimed_row acquire_dispatchable
  claim-cases = elim (Option-cases (next_queued db)) [
    | inl e ↦ inr (inl e, rw (e, claim_next_dispatch), rw (e, claim_next_dispatch))
    | inr (task, e) ↦ elim (Option-cases (find_dispatchable cfg [] db)) [
      | inl f ↦ inr (
        inr f,
        rw (e, claim_next_dispatch, none_acquired f),
        rw (e, claim_next_dispatch, none_acquired f),
      )
      | inr (w, f) ↦ inl (
        task,
        w,
        IsPick-of_finds cfg db e f,
        rw (e, claim_next_dispatch, acquired f),
        rw (e, claim_next_dispatch, acquired f),
      )
    ]
  ]
    where
      none_acquired :
          find_dispatchable cfg [] db ≡ none → acquire_dispatchable cfg now [] db ≡ (none, db)
      none_acquired f = rw (f, acquire_dispatchable)

      acquired :
          {w : Worker}
          → find_dispatchable cfg [] db ≡ some w
          → acquire_dispatchable cfg now [] db ≡ (some (stamped now w), after_choice now w db)
      acquired f = rw (f, acquire_dispatchable)
