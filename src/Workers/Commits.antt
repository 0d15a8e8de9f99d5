-- ===== src/Workers/Commits.antt =====
-- The writes of `WorkerRepository`. Each is one transaction, and reads the clock once as `now`.
use mineru_gateway.Base.{
  ℕ, zero, suc, ◌+◌, Bool, true, false, String, List, [], ◌∷◌, ◌++◌, Option, none, some, ◌&&◌, leb,
  is_none, is_some, if◌then◌else◌, seconds,
}
use mineru_gateway.Base.Table.{length, update_where}
use mineru_gateway.Config.{GatewaySettings}
use mineru_gateway.Cloud.{CloudState, same_state}
use mineru_gateway.Models.{Worker, Db, has_id}
use mineru_gateway.Workers.Clauses.{replaces}
use mineru_gateway.Workers.Queries.{get_row, find_dispatchable}

-- `_RETRY_SECONDS`
abbrev retry_seconds : List ℕ
retry_seconds = 5 ∷ 15 ∷ 30 ∷ 60 ∷ 120 ∷ []

abbrev item : List ℕ → ℕ → ℕ
item [] i = 0
item (x ∷ xs) zero = x
item (x ∷ xs) (suc i) = item xs i

-- The index -1 of a count of zero is the last item.
unfoldable pub retry_delay : ℕ → ℕ
retry_delay zero = 120
retry_delay (suc i) = if leb (suc i) (length retry_seconds) then item retry_seconds i else 300

-- The rows of the table after a write to one of them, which also sets `updated_at`.
abbrev pub write_row : String → ℕ → (Worker → Worker) → List Worker → List Worker
write_row worker_id now f =
    update_where (has_id worker_id) (λ w. let v = f w in record v { updated_at = now })

-- `commit_fields(worker_id, **fields)`, the fields as a function on the row.
unfoldable pub commit_fields : String → (now : ℕ) → (Worker → Worker) → Db → Db
commit_fields worker_id now f db = record db { workers = write_row worker_id now f db.workers }

-- `acquire_dispatchable`: the chosen worker, with the time of its choice written to its row.
unfoldable pub acquire_dispatchable :
    GatewaySettings → (now : ℕ) → (excluded_ids : List String) → Db → Option Worker × Db
acquire_dispatchable cfg now excluded_ids db = elim (find_dispatchable cfg excluded_ids db) [
  | none ↦ (none, db)
  | some worker ↦ (
    some (record worker { last_active_at = some now; updated_at = now }),
    commit_fields worker.id now (λ w. record w { last_active_at = some now }) db,
  )
]

-- `_record_scaling_event`
unfoldable pub record_scaling_event :
    (action reason : String) (worker_id : Option String) (triggered_by : String)
    → (requester : Option String) (now : ℕ) → Db
    → Db
record_scaling_event action reason worker_id triggered_by requester now db = record db {
  events =
      db.events
      ++ record {
        worker_id = worker_id;
        action = action;
        reason = reason;
        triggered_by = triggered_by;
        requester = requester;
        created_at = now;
      }
        ∷ [];
}

-- The row that `record_failure` writes.
unfoldable pub failed_row :
    GatewaySettings → (error : String) (retryable : Bool) (now : ℕ) → Worker → Worker
unfolding retry_delay
failed_row cfg error retryable now w =
    let counted = record w { failure_count = w.failure_count + 1; last_error = some error } in
    if leb cfg.max_failure_count (w.failure_count + 1)
    then record counted {
      healthy = false;
      retry_after = none;
      stalled_at = if is_none w.stalled_at then some now else w.stalled_at;
      draining = true;
      drain_target = some CloudState.terminated;
    }
    else (if retryable
        then record counted {
          retry_after = some (now + seconds (retry_delay (w.failure_count + 1)));
        }
        else counted)

unfoldable pub record_failure :
    GatewaySettings → (worker_id error : String) (retryable : Bool) (now : ℕ) → Db → Db
unfolding failed_row commit_fields
record_failure cfg worker_id error retryable now db =
    commit_fields worker_id now (failed_row cfg error retryable now) db

-- One result of a health check: `(worker, ok, error, provisioning)`.
pub record HealthResult : Type 0 where
  pub worker_id : String
  pub ok : Bool
  pub error : Option String
  pub provisioning : Bool

-- The row that `apply_health_checks` writes for one result.
unfoldable pub checked_row : HealthResult → (now : ℕ) → Worker → Worker
checked_row r now w =
    if r.ok
    then (let seen = record w {
      last_health_checked_at = some now;
      healthy = true;
      last_error = none;
      provisioning_detail = none;
    } in
        if same_state w.desired_state CloudState.running
          && same_state w.cloud_state CloudState.running
          && is_none w.ready_at
        then record seen { ready_at = some now; start_requested_at = none }
        else seen)
    else (let seen = record w { last_health_checked_at = some now; healthy = false } in
        if r.provisioning
        then record seen { provisioning_detail = r.error }
        else record seen { last_error = r.error })

-- The count of healthy workers, and the database.
unfoldable pub apply_health_checks : List HealthResult → (now : ℕ) → Db → ℕ × Db
unfolding get_row commit_fields checked_row
apply_health_checks [] now db = (0, db)
apply_health_checks (r ∷ results) now db =
    let (healthy, after) =
      apply_health_checks results now (commit_fields r.worker_id now (checked_row r now) db) in
    (if is_some (get_row r.worker_id db) && r.ok then healthy + 1 else healthy, after)

-- A new row with the defaults of the table.
abbrev pub new_worker : GatewaySettings → (id : String) (now : ℕ) → Worker
new_worker cfg id now = record {
  id = id;
  provider = cfg.provider;
  deployment_id = cfg.deployment_id;
  instance_id = none;
  base_url = none;
  generation = 0;
  desired_state = CloudState.running;
  cloud_state = CloudState.pending;
  healthy = false;
  draining = false;
  drain_target = none;
  replacement_for = none;
  rotation_requested = false;
  failure_count = 0;
  retry_after = none;
  stalled_at = none;
  last_error = none;
  provisioning_detail = none;
  ready_at = none;
  start_requested_at = some now;
  last_active_at = none;
  last_health_checked_at = none;
  terminated_at = none;
  created_at = now;
  updated_at = now;
}

-- `new_worker_id` is the fresh id that `worker_id()` draws.
unfoldable pub create_cloud_worker : GatewaySettings → (new_worker_id : String) (now : ℕ) → Db → Db
create_cloud_worker cfg new_worker_id now db = record db {
  workers = db.workers ++ new_worker cfg new_worker_id now ∷ [];
}

unfoldable pub reset_cloud_failures : (worker_id : String) (now : ℕ) → Db → Db
unfolding commit_fields
reset_cloud_failures worker_id now db =
    commit_fields worker_id now
      (λ w. record w {
        failure_count = 0;
        retry_after = none;
        last_error = if w.healthy then none else w.last_error;
      })
      db

unfoldable pub finalize_disappeared_instance : (worker_id reason : String) (now : ℕ) → Db → Db
unfolding commit_fields
finalize_disappeared_instance worker_id reason now db =
    commit_fields worker_id now
      (λ w. record w {
        desired_state = CloudState.terminated;
        cloud_state = CloudState.terminated;
        instance_id = none;
        base_url = none;
        ready_at = none;
        healthy = false;
        retry_after = none;
        last_error = some reason;
        terminated_at = some now;
      })
      db

-- The replacements of the worker lose their link to it, and its row is closed.
unfoldable pub finalize_terminated_worker : (worker_id : String) (now : ℕ) → Db → Db
unfolding commit_fields
finalize_terminated_worker worker_id now db =
    commit_fields worker_id now (λ w. record w { terminated_at = some now })
      (record db {
        workers =
            update_where (replaces worker_id)
              (λ w. record w { replacement_for = none; updated_at = now }) db.workers;
      })

-- `replacement_id` is the fresh id of the new row.
unfoldable pub start_rotation_replacement :
    GatewaySettings → (replacement_id : String) (old : Worker) (now : ℕ) → Db → Db
unfolding commit_fields
start_rotation_replacement cfg replacement_id old now db =
    commit_fields old.id now (λ w. record w { rotation_requested = false })
      (record db {
        workers =
            db.workers
            ++ (let fresh = new_worker cfg replacement_id now in
                record fresh { replacement_for = some old.id; generation = old.generation + 1 })
              ∷ [];
      })
