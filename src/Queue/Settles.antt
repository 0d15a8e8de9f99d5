-- ===== src/Queue/Settles.antt =====
-- The dispatch of a claimed task comes to an end, and leaves the task settled.
use mineru_gateway.Base.{
  ℕ, zero, suc, ◌+◌, ◌<◌, ◌≡◌, ◌≢◌, ◌⊎◌, refl, true, String, List, ◌∷◌, Option, none, some, inl,
  inr, arith, Bool-cases, nonempty, is_some,
}
use mineru_gateway.Base.Table.Keys.{find_where-update}
use mineru_gateway.Config.{GatewaySettings}
use mineru_gateway.Models.{Worker, Task, Db, has_task_id}
use mineru_gateway.Tasks.Status.{TaskStatus}
use mineru_gateway.Tasks.Status.Laws.{normalize_upstream_status-ne-queued}
use mineru_gateway.Tasks.Errors.{should_retry}
use mineru_gateway.Payload.{Rebuilt, rebuilt, unavailable, raised}
use mineru_gateway.Workers.Commits.{commit_fields}
use mineru_gateway.Workers.Choice.{
  IsChosen, stamped, after_choice, remaining, acquire_dispatchable-cases, remaining-after_choice,
  remaining-lt,
}
use mineru_gateway.Queue.Rows.{
  get_task, write_tasks, requeued_row, processing_row, failed_task_row, mark_processing,
  mark_failed,
}
use mineru_gateway.Queue.Claim.{reassign_dispatch_worker}
use mineru_gateway.Queue.Causes.{Cause, HasCause, with_payload-HasCause}
use mineru_gateway.Queue.Submit.{
  Reply, accepted, refused, malformed, Outside, Dispatch, dispatched, requeued, failed, aborted,
  Round, ended, retry, exclude_and_reassign, after_reply, with_payload, submit_claimed_task,
}

-- The task is claimed for the worker, and not yet handed to it.
pub record IsClaimed (task_id worker_id : String) (db : Db) : Type 0 where
  pub row : Task
  pub found : get_task task_id db ≡ some row
  pub claiming : row.status ≡ TaskStatus.dispatching
  pub holder : row.worker_id ≡ some worker_id

-- What the end of a dispatch says of the task's row.
abbrev pub Settled : Dispatch → Task → Type 0
Settled dispatched t =
    (t.status ≢ TaskStatus.queued)
    × (t.status ≢ TaskStatus.dispatching)
    × (is_some t.upstream_task_id ≡ true)
    × (is_some t.upstream_base_url ≡ true)
    × (is_some t.worker_id ≡ true)
Settled requeued t =
    (t.status ≡ TaskStatus.queued) × (t.worker_id ≡ none) × (t.dispatch_started_at ≡ none)
Settled failed t =
    (t.status ≡ TaskStatus.failed) × (is_some t.error ≡ true) × (is_some t.completed_at ≡ true)
Settled aborted t = t.status ≡ TaskStatus.dispatching

-- A write to the task's row is what is read back.
pub get_task-write :
    (task_id : String) (now : ℕ) (f : Task → Task) (db : Db) {row : Task}
    → ((t : Task) → (f t).task_id ≡ t.task_id)
    → get_task task_id db ≡ some row
    → get_task task_id (write_tasks (has_task_id task_id) now f db)
      ≡ some (let u = f row in record u { updated_at = now })
unfolding get_task
get_task-write task_id now f db keep e =
    find_where-update (has_task_id task_id) (λ t. let u = f t in record u { updated_at = now })
      db.tasks (λ t. rw (keep t)) e

module _ (cfg : GatewaySettings) (now : ℕ) (task_id : String) where
  -- A reassignment of a claimed task finds another worker for it, or sends it back to the queue.
  pub reassign-cases :
      (excluded : List String) (db : Db) {worker_id : String}
      → IsClaimed task_id worker_id db
      → (reassign_dispatch_worker cfg task_id excluded now db
          ≡ (none, write_tasks (has_task_id task_id) now requeued_row db))
        ⊎ ((w : Worker) × IsChosen cfg excluded db w
            × (reassign_dispatch_worker cfg task_id excluded now db ≡ (
              some (stamped now w),
              write_tasks
                  (has_task_id task_id)
                  now
                  (λ t. record t { worker_id = some w.id })
                  (after_choice now w db),
            )))
  unfolding reassign_dispatch_worker
  reassign-cases excluded db c = elim (acquire_dispatchable-cases cfg now excluded db) [
    | inl e ↦ inl (rw (c.found, reassign_dispatch_worker, c.claiming, e))
    | inr (w, chosen, e) ↦ inr (w, chosen, rw (c.found, reassign_dispatch_worker, c.claiming, e))
  ]

  -- The next round has the claim on another worker, and fewer workers left.
  after_choice-IsClaimed :
      (db : Db) (w : Worker) {worker_id : String}
      → IsClaimed task_id worker_id db
      → IsClaimed task_id w.id (
          write_tasks
            (has_task_id task_id)
            now
            (λ t. record t { worker_id = some w.id })
            (after_choice now w db))
  unfolding commit_fields get_task
  after_choice-IsClaimed db w c = record {
    row = let t = c.row in record t { worker_id = some w.id; updated_at = now };
    found =
        get_task-write task_id now (λ t. record t { worker_id = some w.id }) (after_choice now w db)
          (λ t. refl) c.found;
    claiming = c.claiming;
    holder = refl;
  }

-- What one round may do, when the workers of `excluded` have been tried.
abbrev pub RoundOk : (task_id : String) (excluded : List String) → Db → Round → Type 0
RoundOk task_id excluded db (ended outcome after) =
    (row : Task) × (get_task task_id after ≡ some row) × Settled outcome row
RoundOk task_id excluded db (retry other more after) =
    (more ≡ excluded)
    × (remaining (other.id ∷ more) after < remaining excluded db)
    × IsClaimed task_id other.id after

-- The row of a task that a worker accepted.
processing_row-Settled :
    (now : ℕ) (worker_id upstream_task_id base_url : String) (status : Option String) (t : Task)
    → Settled dispatched (
        let u = processing_row worker_id upstream_task_id base_url status now t in
        record u { updated_at = now })
unfolding processing_row
processing_row-Settled now worker_id upstream_task_id base_url status t =
    let facts = normalize_upstream_status-ne-queued status TaskStatus.processing refl in
    let not_queued = facts.0 in let not_dispatching = facts.1 in ground arith

pub processing_row_keeps_id :
    (now : ℕ) (worker_id upstream_task_id base_url : String) (status : Option String) (t : Task)
    → (processing_row worker_id upstream_task_id base_url status now t).task_id ≡ t.task_id
unfolding processing_row
processing_row_keeps_id now worker_id upstream_task_id base_url status t = ground arith

-- It is with the worker that accepted it.
pub processing_row_holder :
    (now : ℕ) (worker_id upstream_task_id base_url : String) (status : Option String) (t : Task)
    → (processing_row worker_id upstream_task_id base_url status now t).worker_id ≡ some worker_id
unfolding processing_row
processing_row_holder now worker_id upstream_task_id base_url status t = ground arith

module _ (cfg : GatewaySettings) (outside : Outside) (now : ℕ) (task : Task) where
  pub exclude_and_reassign-RoundOk :
      (worker : Worker) (excluded : List String) (db : Db)
      → IsClaimed task.task_id worker.id db
      → RoundOk task.task_id
          (worker.id ∷ excluded)
          db
          (exclude_and_reassign cfg outside task worker excluded now db)
  unfolding exclude_and_reassign requeued_row
  exclude_and_reassign-RoundOk worker excluded db c =
      elim (reassign-cases cfg now task.task_id (worker.id ∷ excluded) db c) [
        | inl e ↦ rw e (
          (let t = requeued_row c.row in record t { updated_at = now }),
          get_task-write task.task_id now requeued_row db requeued_keeps_id c.found,
          (refl, refl, refl),
        )
        | inr (w, chosen, e) ↦ rw e (
          refl,
          fewer w worker excluded db chosen,
          after_choice-IsClaimed cfg now task.task_id db w c,
        )
      ]
    where
      requeued_keeps_id : (t : Task) → (requeued_row t).task_id ≡ t.task_id
      requeued_keeps_id t = refl

      fewer :
          (w worker : Worker) (excluded : List String) (db : Db)
          → IsChosen cfg (worker.id ∷ excluded) db w
          → remaining (w.id ∷ worker.id ∷ excluded) (after_choice now w db)
            < remaining (worker.id ∷ excluded) db
      fewer w worker excluded db chosen = omega (
        arith,
        remaining-after_choice now w (w.id ∷ worker.id ∷ excluded) db,
        remaining-lt cfg (worker.id ∷ excluded) db w chosen,
      )

  failed-RoundOk :
      (error : String) (excluded : List String) (db : Db) {worker_id : String}
      → IsClaimed task.task_id worker_id db
      → RoundOk task.task_id excluded db (ended failed (mark_failed task.task_id error now db))
  unfolding mark_failed failed_task_row
  failed-RoundOk error excluded db c = (
    (let t = failed_task_row error now c.row in record t { updated_at = now }),
    get_task-write task.task_id now (failed_task_row error now) db (λ t. refl) c.found,
    (refl, refl, refl),
  )

  after_reply-RoundOk :
      (worker : Worker) (excluded : List String) (base_url : String) (db : Db) (reply : Reply)
      → IsClaimed task.task_id worker.id db
      → RoundOk task.task_id
          (worker.id ∷ excluded)
          db
          (after_reply cfg outside task worker excluded base_url now db reply)
  unfolding after_reply mark_processing
  after_reply-RoundOk worker excluded base_url db (accepted upstream_task_id status) c = (
    (let t = processing_row worker.id upstream_task_id base_url status now c.row in
        record t { updated_at = now }),
    get_task-write task.task_id now (processing_row worker.id upstream_task_id base_url status now)
        db (processing_row_keeps_id now worker.id upstream_task_id base_url status) c.found,
    processing_row-Settled now worker.id upstream_task_id base_url status c.row,
  )
  after_reply-RoundOk worker excluded base_url db (refused failure) c =
      elim (Bool-cases (should_retry failure)) [
        | inl e ↦ rw e (exclude_and_reassign-RoundOk worker excluded db c)
        | inr e ↦ rw e (failed-RoundOk _ (worker.id ∷ excluded) db c)
      ]
  after_reply-RoundOk worker excluded base_url db malformed c = (c.row, c.found, c.claiming)

  pub with_payload-RoundOk :
      (worker : Worker) (excluded : List String) (attempt : ℕ) (db : Db) (r : Rebuilt)
      → IsClaimed task.task_id worker.id db
      → RoundOk task.task_id
          (worker.id ∷ excluded)
          db
          (with_payload cfg outside task worker excluded attempt now db r)
  unfolding with_payload
  with_payload-RoundOk worker excluded attempt db unavailable c =
      failed-RoundOk _ (worker.id ∷ excluded) db c
  with_payload-RoundOk worker excluded attempt db raised c = (c.row, c.found, c.claiming)
  with_payload-RoundOk worker excluded attempt db (rebuilt payload) c =
      elim (Bool-cases (nonempty worker.base_url)) [
        | inl e ↦ rw e (after_reply-RoundOk worker excluded _ db _ c)
        | inr e ↦ rw e (exclude_and_reassign-RoundOk worker excluded db c)
      ]

  -- The loop from a round that is decided.
  abbrev pub Finishes : Option (Dispatch × Db) → Type 0
  Finishes result =
      (outcome : Dispatch) × (after : Db) × (row : Task) × (result ≡ some (outcome, after))
      × (get_task task.task_id after ≡ some row)
      × Settled outcome row
      × Cause outside task outcome

  -- With more fuel than workers that have not been tried, the dispatch of a claimed task ends. Either
  -- a worker accepted a submission of its payload, and the task names a worker and an upstream task and
  -- is neither `queued` nor `dispatching`; or it is back in the queue with no worker; or the payload was
  -- unavailable or a worker refused it for good, and the task failed with an error and a completion
  -- time; or it is still `dispatching`, and reading the payload raised or a worker answered its
  -- submission without a task id or a status.
  pub submit_claimed_task_settles :
      (fuel attempt : ℕ) (worker : Worker) (excluded : List String) (db : Db)
      → IsClaimed task.task_id worker.id db
      → remaining (worker.id ∷ excluded) db < fuel
      → Finishes (submit_claimed_task cfg outside fuel attempt task worker excluded now db)
  unfolding submit_claimed_task
  submit_claimed_task_settles zero attempt worker excluded db c h = elim h [ ]
  submit_claimed_task_settles (suc fuel) attempt worker excluded db c h =
      decide
        (with_payload cfg outside task worker excluded attempt now db
          (outside.rebuild attempt task))
        (with_payload-RoundOk worker excluded attempt db (outside.rebuild attempt task) c)
        (with_payload-HasCause cfg outside now task worker excluded attempt db
          (outside.rebuild attempt task) refl)
        (λ other more after claimed fewer.
          submit_claimed_task_settles fuel (attempt + 1) other more after claimed fewer)
    where
      decide :
          (round : Round)
          → RoundOk task.task_id (worker.id ∷ excluded) db round
          → HasCause outside task round
          → ((other : Worker) (more : List String) (after : Db)
              → IsClaimed task.task_id other.id after
              → remaining (other.id ∷ more) after < fuel
              → Finishes
                  (submit_claimed_task cfg outside fuel (attempt + 1) task other more now after))
          → Finishes (elim round [
            | ended outcome after ↦ some (outcome, after)
            | retry other more after ↦
                submit_claimed_task cfg outside fuel (attempt + 1) task other more now after
          ])
      decide (ended outcome after) (row, found, settled) why again =
          (outcome, after, row, refl, found, settled, why)
      decide (retry other more after) (same, fewer, claimed) why again =
          again other more after claimed (omega arith)
