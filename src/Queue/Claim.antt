-- ===== src/Queue/Claim.antt =====
-- The claim of one queued task with a worker, and the assignment of another worker to it.
use mineru_gateway.Base.{
  ℕ, Bool, String, List, [], Option, none, some, ◌&&◌, ltb, is_none, if◌then◌else◌,
}
use mineru_gateway.Base.Table.{select_where, first_by}
use mineru_gateway.Config.{GatewaySettings}
use mineru_gateway.Models.{Worker, Task, Db, has_task_id}
use mineru_gateway.Tasks.Status.{TaskStatus, same_status}
use mineru_gateway.Workers.Commits.{acquire_dispatchable}
use mineru_gateway.Queue.Rows.{get_task, write_tasks, requeued_row}

-- The rows that a claim may take.
unfoldable pub claimable : Task → Bool
claimable t =
    same_status t.status TaskStatus.queued
    && is_none t.upstream_task_id
    && is_none t.upstream_base_url

abbrev pub task_created_less : Task → Task → Bool
task_created_less a b = ltb a.created_at b.created_at

unfoldable pub next_queued : Db → Option Task
unfolding claimable
next_queued db = first_by task_created_less (select_where claimable db.tasks)

-- The row that a claim writes.
unfoldable pub claimed_row : (worker_id : String) (now : ℕ) → Task → Task
claimed_row worker_id now t = record t {
  status = TaskStatus.dispatching;
  dispatch_started_at = some now;
  worker_id = some worker_id;
}

-- How a claim ends. `deferred_since` is the field of the repository that remembers since when no
-- worker could be found.
pub record Claim : Type 0 where
  pub picked : Option (Task × Worker)
  pub deferred_since : Option ℕ
  pub db : Db

module _ (cfg : GatewaySettings) where
  unfoldable pub claim_task :
      Task → (now : ℕ) (deferred_since : Option ℕ) → Option Worker × Db → Claim
  unfolding claimed_row
  claim_task candidate now deferred_since (none, db) = record {
    picked = none;
    deferred_since = if is_none deferred_since then some now else deferred_since;
    db = db;
  }
  claim_task candidate now deferred_since (some worker, db) = record {
    picked =
        some (let t = claimed_row worker.id now candidate in record t { updated_at = now }, worker);
    deferred_since = none;
    db = write_tasks (has_task_id candidate.task_id) now (claimed_row worker.id now) db;
  }

  unfoldable pub claim_next_dispatch : (now : ℕ) (deferred_since : Option ℕ) → Db → Claim
  unfolding claim_task
  claim_next_dispatch now deferred_since db = elim (next_queued db) [
    | none ↦ record { picked = none; deferred_since = deferred_since; db = db }
    | some candidate ↦ claim_task candidate now deferred_since (acquire_dispatchable cfg now [] db)
  ]

  unfoldable pub reassign_to :
      (task_id : String) (now : ℕ) → Option Worker × Db → Option Worker × Db
  unfolding requeued_row
  reassign_to task_id now (none, db) = (none, write_tasks (has_task_id task_id) now requeued_row db)
  reassign_to task_id now (some worker, db) = (
    some worker,
    write_tasks (has_task_id task_id) now (λ t. record t { worker_id = some worker.id }) db,
  )

  -- `_reassign_dispatch_worker`: another worker for the task, or the task back in the queue.
  unfoldable pub reassign_dispatch_worker :
      (task_id : String) (excluded_ids : List String) (now : ℕ) → Db → Option Worker × Db
  unfolding reassign_to
  reassign_dispatch_worker task_id excluded_ids now db = elim (get_task task_id db) [
    | none ↦ (none, db)
    | some row ↦
        let chosen = reassign_to task_id now (acquire_dispatchable cfg now excluded_ids db) in
        if same_status row.status TaskStatus.dispatching then chosen else (none, db)
  ]
