-- ===== src/Queue/Slots.antt =====
-- The claim of a task and its dispatch keep every worker within its slots.
use mathlib.Core.Bool.{true≢false}
use mineru_gateway.Base.{
  ℕ, zero, suc, ◌+◌, ◌≡◌, refl, sym, ◌∙◌, true, String, List, ◌∷◌, Option, some, inl, inr, arith,
  Bool-cases, nonempty, ◌==◌,
}
use mineru_gateway.Base.Table.Keys.{All-mono, find_where-only, count_where-le_update-All}
use mineru_gateway.Config.{GatewaySettings}
use mineru_gateway.Models.{Worker, Task, Db, has_task_id}
use mineru_gateway.Tasks.Status.{TaskStatus}
use mineru_gateway.Tasks.Errors.{should_retry}
use mineru_gateway.Payload.{Rebuilt, rebuilt, unavailable, raised}
use mineru_gateway.Workers.Clauses.{active_count, computing_on}
use mineru_gateway.Workers.Choice.{IsChosen, after_choice}
use mineru_gateway.Workers.Commits.{commit_fields}
use mineru_gateway.Queue.Rows.{
  get_task, write_tasks, requeued_row, processing_row, failed_task_row, mark_processing,
  mark_failed,
}
use mineru_gateway.Queue.Submit.{
  Reply, accepted, refused, malformed, Outside, Dispatch, Round, ended, retry, exclude_and_reassign,
  after_reply, with_payload, submit_claimed_task,
}
use mineru_gateway.Queue.Settles.{
  IsClaimed, RoundOk, reassign-cases, with_payload-RoundOk, processing_row_keeps_id,
  processing_row_holder,
}
use mineru_gateway.Queue.Capacity.{
  WithinCapacity, write-WithinCapacity, assign-WithinCapacity, not-computing_on, unique-write,
}

-- The database that a round leaves, whether it ends the loop or not.
abbrev pub db_of : Round → Db
db_of (ended _ after) = after
db_of (retry _ _ after) = after

computing_of_claimed :
    (w worker_id : String) (t : Task)
    → t.worker_id ≡ some worker_id
    → t.status ≡ TaskStatus.dispatching
    → computing_on w t ≡ (worker_id == w)
unfolding computing_on
computing_of_claimed w worker_id t h s = elim (Bool-cases (worker_id == w)) [
  | inl e ↦ rw (h, e, s)
  | inr e ↦ rw (h, e)
]

module _ (cfg : GatewaySettings) (now : ℕ) where
  pub after_choice-WithinCapacity :
      (w : Worker) (db : Db) → WithinCapacity cfg db → WithinCapacity cfg (after_choice now w db)
  unfolding commit_fields
  after_choice-WithinCapacity w db v = record { unique = v.unique; slots = v.slots }

  requeue-WithinCapacity :
      (task_id : String) (db : Db)
      → WithinCapacity cfg db
      → WithinCapacity cfg (write_tasks (has_task_id task_id) now requeued_row db)
  unfolding requeued_row computing_on
  requeue-WithinCapacity task_id db =
      write-WithinCapacity cfg (has_task_id task_id) now requeued_row db (λ t. refl)
        (λ w t h e. absurd (true≢false (sym e)))

  failed-WithinCapacity :
      (task_id error : String) (db : Db)
      → WithinCapacity cfg db
      → WithinCapacity cfg (mark_failed task_id error now db)
  unfolding mark_failed failed_task_row computing_on
  failed-WithinCapacity task_id error db =
      write-WithinCapacity cfg (has_task_id task_id) now (failed_task_row error now) db (λ t. refl)
        (λ w t h e. absurd (failed_is_idle w t e))
    where
      failed_is_idle :
          (w : String) (t : Task) → computing_on w (failed_task_row error now t) ≡ true → ⊥
      failed_is_idle w t e = ground arith

  -- A reassignment gives the task to a worker with a free slot, or to none.
  reassign-WithinCapacity :
      (task_id : String) (excluded : List String) (db : Db) (w : Worker)
      → IsChosen cfg excluded db w
      → WithinCapacity cfg db
      → WithinCapacity cfg (
          write_tasks
            (has_task_id task_id)
            now
            (λ t. record t { worker_id = some w.id })
            (after_choice now w db))
  unfolding commit_fields
  reassign-WithinCapacity task_id excluded db w chosen v =
      assign-WithinCapacity cfg task_id w.id now (λ t. record t { worker_id = some w.id })
        (after_choice now w db) (λ t. refl) (λ t. refl) chosen.has_slot
        (after_choice-WithinCapacity w db v)

  -- The task that a worker accepted was counted for it already.
  processing-WithinCapacity :
      (task_id worker_id upstream_task_id base_url : String) (status : Option String) (db : Db)
      → IsClaimed task_id worker_id db
      → WithinCapacity cfg db
      → WithinCapacity cfg
          (mark_processing task_id worker_id upstream_task_id base_url status now db)
  unfolding mark_processing active_count get_task
  processing-WithinCapacity task_id worker_id upstream_task_id base_url status db c v = record {
    unique =
        unique-write cfg (has_task_id task_id) now
          (processing_row worker_id upstream_task_id base_url status now) db
          (processing_row_keeps_id now worker_id upstream_task_id base_url status) v.unique;
    slots = λ w. omega (
      arith,
      count_where-le_update-All (computing_on w) (has_task_id task_id)
          (λ t.
            let u = processing_row worker_id upstream_task_id base_url status now t in
            record u { updated_at = now })
          db.tasks
          (All-mono db.tasks (λ t only h e. counted w t (only h) e)
            (find_where-only (has_task_id task_id) db.tasks (v.unique task_id) c.found)),
      v.slots w,
    );
  }
    where
      counted :
          (w : String) (t : Task)
          → t ≡ c.row
          → computing_on w (processing_row worker_id upstream_task_id base_url status now t) ≡ true
          → computing_on w t ≡ true
      counted w t same e = elim (Bool-cases (worker_id == w)) [
        | inl q ↦ rw (same, computing_of_claimed w worker_id c.row c.holder c.claiming) q
        | inr q ↦
            let holder = processing_row_holder now worker_id upstream_task_id base_url status t in
            let after = processing_row worker_id upstream_task_id base_url status now t in
            absurd (true≢false (sym e ∙ not-computing_on w worker_id after holder q))
      ]

  module _ (outside : Outside) (task : Task) where
    exclude-WithinCapacity :
        (worker : Worker) (excluded : List String) (db : Db)
        → IsClaimed task.task_id worker.id db
        → WithinCapacity cfg db
        → WithinCapacity cfg (db_of (exclude_and_reassign cfg outside task worker excluded now db))
    unfolding exclude_and_reassign
    exclude-WithinCapacity worker excluded db c v =
        elim (reassign-cases cfg now task.task_id (worker.id ∷ excluded) db c) [
          | inl e ↦ rw e (requeue-WithinCapacity task.task_id db v)
          | inr (w, chosen, e) ↦
              rw e (reassign-WithinCapacity task.task_id (worker.id ∷ excluded) db w chosen v)
        ]

    after_reply-WithinCapacity :
        (worker : Worker) (excluded : List String) (base_url : String) (db : Db) (reply : Reply)
        → IsClaimed task.task_id worker.id db
        → WithinCapacity cfg db
        → WithinCapacity cfg
            (db_of (after_reply cfg outside task worker excluded base_url now db reply))
    unfolding after_reply
    after_reply-WithinCapacity worker excluded base_url db (accepted upstream_task_id status) c v =
        processing-WithinCapacity task.task_id worker.id upstream_task_id base_url status db c v
    after_reply-WithinCapacity worker excluded base_url db (refused failure) c v =
        elim (Bool-cases (should_retry failure)) [
          | inl e ↦ rw e (exclude-WithinCapacity worker excluded db c v)
          | inr e ↦ rw e (failed-WithinCapacity task.task_id _ db v)
        ]
    after_reply-WithinCapacity worker excluded base_url db malformed c v = v

    with_payload-WithinCapacity :
        (worker : Worker) (excluded : List String) (attempt : ℕ) (db : Db) (r : Rebuilt)
        → IsClaimed task.task_id worker.id db
        → WithinCapacity cfg db
        → WithinCapacity cfg
            (db_of (with_payload cfg outside task worker excluded attempt now db r))
    unfolding with_payload
    with_payload-WithinCapacity worker excluded attempt db unavailable c v =
        failed-WithinCapacity task.task_id _ db v
    with_payload-WithinCapacity worker excluded attempt db raised c v = v
    with_payload-WithinCapacity worker excluded attempt db (rebuilt payload) c v =
        elim (Bool-cases (nonempty worker.base_url)) [
          | inl e ↦ rw e (after_reply-WithinCapacity worker excluded _ db _ c v)
          | inr e ↦ rw e (exclude-WithinCapacity worker excluded db c v)
        ]

    -- Whatever the object store and the workers answer, and however often the task changes its
    -- worker, its dispatch leaves no worker with more tasks than it has slots.
    pub submit_claimed_task-WithinCapacity :
        (fuel attempt : ℕ) (worker : Worker) (excluded : List String) (db : Db)
        → IsClaimed task.task_id worker.id db
        → WithinCapacity cfg db
        → (outcome : Dispatch) (after : Db)
        → submit_claimed_task cfg outside fuel attempt task worker excluded now db
          ≡ some (outcome, after)
        → WithinCapacity cfg after
    unfolding submit_claimed_task
    submit_claimed_task-WithinCapacity zero attempt worker excluded db c v outcome after e =
        absurd (ground arith)
    submit_claimed_task-WithinCapacity (suc fuel) attempt worker excluded db c v outcome after e =
        let r = outside.rebuild attempt task in
        decide (with_payload cfg outside task worker excluded attempt now db r)
          (with_payload-RoundOk cfg outside now task worker excluded attempt db r c)
          (with_payload-WithinCapacity worker excluded attempt db r c v)
          (λ other more next claimed within.
            submit_claimed_task-WithinCapacity fuel (attempt + 1) other more next claimed within
              outcome after)
          e
      where
        decide :
            (round : Round)
            → RoundOk task.task_id (worker.id ∷ excluded) db round
            → WithinCapacity cfg (db_of round)
            → ((other : Worker) (more : List String) (next : Db)
                → IsClaimed task.task_id other.id next
                → WithinCapacity cfg next
                → submit_claimed_task cfg outside fuel (attempt + 1) task other more now next
                  ≡ some (outcome, after)
                → WithinCapacity cfg after)
            → (elim round as (λ _. Option (Dispatch × Db)) [
              | ended o d ↦ some (o, d)
              | retry other more d ↦
                  submit_claimed_task cfg outside fuel (attempt + 1) task other more now d
            ])
              ≡ some (outcome, after)
            → WithinCapacity cfg after
        decide (ended o d) ok within again q = let same : d ≡ after = cc in rw (← same) within
        decide (retry other more d) (_, _, claimed) within again q =
            again other more d claimed within q
