-- ===== src/Queue/Dispatch.antt =====
-- The claim of one task, and the dispatch of the queue in one tick.
use mineru_gateway.Base.{
  ℕ, zero, suc, ◌≡◌, ◌⊎◌, refl, false, not, [], ◌∷◌, Option, none, some, inl, inr, arith, ◌&&◌,
}
use mineru_gateway.Base.Table.{All, select_where}
use mineru_gateway.Base.Table.Laws.{count_where-le-length}
use mineru_gateway.Base.Table.Keys.{All-mono}
use mineru_gateway.Base.Table.First.{select_where-nil, first_by-none, find_where-of_count}
use mineru_gateway.Config.{GatewaySettings}
use mineru_gateway.Models.{Worker, Task, Db, has_task_id}
use mineru_gateway.Workers.Clauses.{dispatchable_clause}
use mineru_gateway.Workers.Queries.{find_dispatchable, dispatch_less, contains}
use mineru_gateway.Workers.Commits.{commit_fields}
use mineru_gateway.Workers.Choice.{stamped, after_choice}
use mineru_gateway.Queue.Rows.{get_task}
use mineru_gateway.Queue.Claim.{
  Claim, claimed_row, claim_next_dispatch, next_queued, claimable, task_created_less,
}
use mineru_gateway.Queue.Submit.{
  Outside, Dispatch, dispatched, requeued, failed, aborted, DispatchRun, submit_claim, enough_fuel,
  dispatch_rounds, dispatch_queued_tasks, after_outcome,
}
use mineru_gateway.Queue.Settles.{IsClaimed, get_task-write, submit_claimed_task_settles}
use mineru_gateway.Queue.Capacity.{WithinCapacity, assign-WithinCapacity}
use mineru_gateway.Queue.Slots.{after_choice-WithinCapacity, submit_claimed_task-WithinCapacity}
use mineru_gateway.Queue.Picks.{IsPick, claim-cases, claimed, after_claim}

nothing_to_pick :
    (cfg : GatewaySettings) (db : Db)
    → (next_queued db ≡ none) ⊎ (find_dispatchable cfg [] db ≡ none)
    → All (λ t. claimable t ≡ false) db.tasks
      ⊎ All (λ w. dispatchable_clause cfg db.tasks w ≡ false) db.workers
unfolding next_queued find_dispatchable
nothing_to_pick cfg db (inl e) = inl (
    select_where-nil claimable db.tasks
      (first_by-none task_created_less (select_where claimable db.tasks) e))
nothing_to_pick cfg db (inr e) =
    let p = λ (v : Worker). dispatchable_clause cfg db.tasks v && not (contains [] v.id) in
    inr (
      All-mono db.workers (λ v h. free v h)
        (select_where-nil p db.workers
          (first_by-none (dispatch_less db.tasks) (select_where p db.workers) e)))
  where
    free :
        (v : Worker)
        → (dispatchable_clause cfg db.tasks v && not (contains [] v.id)) ≡ false
        → dispatchable_clause cfg db.tasks v ≡ false
    free v h = ground arith

module _ (cfg : GatewaySettings) (now : ℕ) where
  after_claim-IsClaimed :
      (db : Db) (task : Task) (w : Worker)
      → IsPick cfg db task w
      → IsClaimed task.task_id w.id (after_claim now task w db)
  unfolding commit_fields get_task claimed_row
  after_claim-IsClaimed db task w p =
      let (row, found) = find_where-of_count (has_task_id task.task_id) db.tasks p.stored in
      record {
        row = claimed now row w;
        found =
            get_task-write task.task_id now (claimed_row w.id now) (after_choice now w db)
              (λ t. refl) found;
        claiming = refl;
        holder = refl;
      }

  after_claim-WithinCapacity :
      (db : Db) (task : Task) (w : Worker)
      → IsPick cfg db task w
      → WithinCapacity cfg db
      → WithinCapacity cfg (after_claim now task w db)
  unfolding commit_fields claimed_row
  after_claim-WithinCapacity db task w p v =
      assign-WithinCapacity cfg task.task_id w.id now (claimed_row w.id now) (after_choice now w db)
        (λ t. refl) (λ t. refl) p.chosen.has_slot (after_choice-WithinCapacity cfg now w db v)

  -- The claim picks a task and a worker: an oldest claimable task and a least loaded dispatchable
  -- worker. The task is then claimed for the worker, and every worker is within its slots.
  abbrev pub Picks : (db : Db) → Claim → Type 0
  Picks db claim =
      (task : Task) × (w : Worker) × IsPick cfg db task w
      × (claim.picked ≡ some (claimed now task w, stamped now w))
      × IsClaimed task.task_id w.id claim.db
      × WithinCapacity cfg claim.db

  -- The claim picks nothing and writes nothing, as no task is claimable or no worker dispatchable.
  abbrev pub PicksNothing : (db : Db) → Claim → Type 0
  PicksNothing db claim =
      (claim.picked ≡ none)
      × (claim.db ≡ db)
      × (All (λ t. claimable t ≡ false) db.tasks
          ⊎ All (λ w. dispatchable_clause cfg db.tasks w ≡ false) db.workers)

  -- Where task ids are unique and every worker is within its slots, a claim picks an oldest
  -- claimable task and a least loaded dispatchable worker; the task is then claimed for the worker,
  -- and every worker is still within its slots. Else it picks and writes nothing, and then no task
  -- is claimable or no worker is dispatchable.
  pub claim_next_dispatch-Picks :
      (deferred_since : Option ℕ) (db : Db)
      → WithinCapacity cfg db
      → Picks db (claim_next_dispatch cfg now deferred_since db)
        ⊎ PicksNothing db (claim_next_dispatch cfg now deferred_since db)
  claim_next_dispatch-Picks deferred_since db v = elim (claim-cases cfg now deferred_since db) [
    | inl (task, w, p, picked, after) ↦ inl (
      task,
      w,
      p,
      picked,
      rw after (after_claim-IsClaimed db task w p),
      rw after (after_claim-WithinCapacity db task w p v),
    )
    | inr (why, picked, after) ↦ inr (picked, after, nothing_to_pick cfg db why)
  ]

module _ (cfg : GatewaySettings) (outside : (rounds_left : ℕ) → Outside) (now : ℕ) where
  -- The fuel of a dispatch is never used up.
  submit_claim-Settles :
      (rounds : ℕ) (task : Task) (w : Worker) (db : Db)
      → IsClaimed task.task_id w.id db
      → (outcome : Dispatch) × (after : Db) × (submit_claim cfg outside now rounds task w db
          ≡ some (outcome, after))
  submit_claim-Settles rounds task w db c =
      let (outcome, after, _, e, _, _, _) =
        submit_claimed_task_settles cfg (outside rounds) now task (enough_fuel cfg outside now db) 0
          w [] db c
          (omega
            (arith, count_where-le-length (λ v. not (contains (w.id ∷ []) v.id)) db.workers)) in
      (outcome, after, e)

  after_outcome-WithinCapacity :
      (deferred_since : Option ℕ) (db : Db) (next_round : Db → DispatchRun)
      → (result : Option (Dispatch × Db))
      → ((after : Db) → WithinCapacity cfg after → WithinCapacity cfg (next_round after).db)
      → WithinCapacity cfg db
      → ((outcome : Dispatch) (after : Db)
          → result ≡ some (outcome, after)
          → WithinCapacity cfg after)
      → WithinCapacity cfg (after_outcome cfg outside now deferred_since db next_round result).db
  after_outcome-WithinCapacity deferred_since db next_round none ih v h = v
  after_outcome-WithinCapacity deferred_since db next_round (some (aborted, after)) ih v h =
      h aborted after refl
  after_outcome-WithinCapacity deferred_since db next_round (some (dispatched, after)) ih v h =
      ih after (h dispatched after refl)
  after_outcome-WithinCapacity deferred_since db next_round (some (requeued, after)) ih v h =
      ih after (h requeued after refl)
  after_outcome-WithinCapacity deferred_since db next_round (some (failed, after)) ih v h =
      ih after (h failed after refl)

  dispatch_rounds-WithinCapacity :
      (rounds : ℕ) (deferred_since : Option ℕ) (db : Db)
      → WithinCapacity cfg db
      → WithinCapacity cfg (dispatch_rounds cfg outside now rounds deferred_since db).db
  unfolding dispatch_rounds claimed_row
  dispatch_rounds-WithinCapacity zero deferred_since db v = v
  dispatch_rounds-WithinCapacity (suc rounds) deferred_since db v =
      let claim = claim_next_dispatch cfg now deferred_since db in
      elim (claim_next_dispatch-Picks cfg now deferred_since db v) [
        | inr (picked, same, _) ↦ rw picked (rw same v)
        | inl (task, w, p, picked, c, within) ↦ rw picked (
            after_outcome-WithinCapacity claim.deferred_since claim.db
              (λ after. dispatch_rounds cfg outside now rounds claim.deferred_since after)
              (submit_claim cfg outside now rounds (claimed now task w) (stamped now w) claim.db)
              (λ after k. dispatch_rounds-WithinCapacity rounds claim.deferred_since after k) within
              (λ outcome after e.
                submit_claimed_task-WithinCapacity cfg now (outside rounds) (claimed now task w)
                  (enough_fuel cfg outside now claim.db) 0 (stamped now w) [] claim.db c within
                  outcome after e))
      ]

  -- Where task ids are unique and every worker is within its slots, the same holds after a whole
  -- tick of dispatching: whatever the workers and the object store answer, no worker ever has more
  -- than `target_per_worker` tasks dispatching or processing.
  pub dispatch_queued_tasks-WithinCapacity :
      (max_per_tick : ℕ) (deferred_since : Option ℕ) (db : Db)
      → WithinCapacity cfg db
      → WithinCapacity cfg (dispatch_queued_tasks cfg outside now max_per_tick deferred_since db).db
  unfolding dispatch_queued_tasks
  dispatch_queued_tasks-WithinCapacity max_per_tick deferred_since db v =
      dispatch_rounds-WithinCapacity max_per_tick deferred_since db v
