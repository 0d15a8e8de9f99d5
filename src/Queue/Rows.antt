-- ===== src/Queue/Rows.antt =====
-- The writes of `TaskRepository` to single rows and to selections of rows. Each is one
-- transaction, and reads the clock once as `now`.
use mineru_gateway.Base.{
  ℕ, ◌+◌, ◌-◌, Bool, true, false, String, List, [], ◌∷◌, ◌++◌, Option, none, some, ◌==◌, ◌&&◌, ◌||◌,
  leb, is_none, is_some, if◌then◌else◌, seconds, before, or_else,
}
use mineru_gateway.Base.Table.{
  length, update_where, delete_where, find_where, select_where, sort_by, take,
}
use mineru_gateway.Models.{Task, OptionValue, texts, Db, has_task_id}
use mineru_gateway.Tasks.Status.{
  TaskStatus, StatusPayload, is_terminal, is_drain_blocker, same_status, normalize_upstream_status,
  apply_upstream_payload,
}

-- `_DISPATCH_CLAIM_TIMEOUT_SECONDS`
abbrev pub dispatch_claim_timeout_seconds : ℕ
dispatch_claim_timeout_seconds = 120

-- `_POLL_RETRY_DELAY_SECONDS`
abbrev pub poll_retry_delay_seconds : ℕ
poll_retry_delay_seconds = 30

unfoldable pub get_task : String → Db → Option Task
get_task task_id db = find_where (has_task_id task_id) db.tasks

-- An update of the rows that satisfy a condition, which also sets `updated_at`.
abbrev pub write_tasks : (Task → Bool) → ℕ → (Task → Task) → Db → Db
write_tasks p now f db = record db {
  tasks = update_where p (λ t. let u = f t in record u { updated_at = now }) db.tasks;
}

-- `{**options, key: value}`
abbrev pub with_option :
    String → OptionValue → List (String × OptionValue) → List (String × OptionValue)
with_option key value [] = (key, value) ∷ []
with_option key value ((k, v) ∷ options) =
    let rest = with_option key value options in
    if k == key then (k, value) ∷ options else (k, v) ∷ rest

abbrev pub new_task :
    (task_id : String) (file_names : List String) (backend parse_method : String)
    → (options : List (String × OptionValue)) (payload_key : Option String) (source : String)
    → (cache_key : Option String) (now : ℕ) → Task
new_task task_id file_names backend parse_method options payload_key source cache_key now = record {
  task_id = task_id;
  worker_id = none;
  upstream_task_id = none;
  upstream_base_url = none;
  backend = backend;
  parse_method = parse_method;
  file_names = file_names;
  source = source;
  status = TaskStatus.queued;
  payload_key = payload_key;
  result_key = none;
  result_format = none;
  cache_key = cache_key;
  error = none;
  options_blob = some (with_option "file_names" (texts file_names) options);
  dispatch_started_at = none;
  next_poll_at = none;
  client_expired_at = none;
  created_at = now;
  started_at = none;
  completed_at = none;
  updated_at = now;
}

unfoldable pub create_queued_task :
    (task_id : String) (file_names : List String) (backend parse_method : String)
    → (options : List (String × OptionValue)) (payload_key : Option String) (source : String)
    → (cache_key : Option String) (now : ℕ) → Db
    → Db
create_queued_task task_id file_names backend parse_method options payload_key source cache_key now
      db =
    record db {
      tasks =
          db.tasks
          ++ new_task task_id file_names backend parse_method options payload_key source cache_key
              now
            ∷ [];
    }

unfoldable pub clear_cache_key : (task_id : String) (now : ℕ) → Db → Db
clear_cache_key task_id now =
    write_tasks (has_task_id task_id) now (λ t. record t { cache_key = none })

-- The rows that `expire_client_sla_tasks` selects.
unfoldable pub sla_expired : (sla_seconds now : ℕ) → Task → Bool
sla_expired sla_seconds now t =
    is_drain_blocker t.status
    && is_none t.client_expired_at
    && is_some t.dispatch_started_at
    && before t.dispatch_started_at (now - seconds sla_seconds)

unfoldable pub expire_client_sla_tasks : (sla_seconds now : ℕ) → Db → ℕ × Db
unfolding sla_expired
expire_client_sla_tasks sla_seconds now db = (
  length (select_where (sla_expired sla_seconds now) db.tasks),
  write_tasks (sla_expired sla_seconds now) now (λ t. record t { client_expired_at = some now }) db,
)

-- The row that `complete_with_result` writes.
unfoldable pub completed_row : (result_key result_format : String) (now : ℕ) → Task → Task
completed_row result_key result_format now t = record t {
  result_key = some result_key;
  result_format = some result_format;
  status = TaskStatus.completed;
  completed_at = some (or_else t.completed_at now);
}

-- `none` is the `KeyError` of a missing row; else the row's cache key.
unfoldable pub complete_with_result :
    (task_id result_key result_format : String) (now : ℕ) → Db → Option (Option String) × Db
complete_with_result task_id result_key result_format now db = elim (get_task task_id db) [
  | none ↦ (none, db)
  | some row ↦ (
    some row.cache_key,
    write_tasks (has_task_id task_id) now (completed_row result_key result_format now) db,
  )
]

-- The claims that `recover_stale_dispatch_claims` selects.
unfoldable pub stale_claim : (now : ℕ) → Task → Bool
stale_claim now t =
    same_status t.status TaskStatus.dispatching
    && is_none t.upstream_task_id
    && is_some t.dispatch_started_at
    && before t.dispatch_started_at (now - seconds dispatch_claim_timeout_seconds)

-- Back to the queue, with no worker.
unfoldable pub requeued_row : Task → Task
requeued_row t = record t {
  status = TaskStatus.queued;
  dispatch_started_at = none;
  worker_id = none;
}

unfoldable pub recover_stale_dispatch_claims : (now : ℕ) → Db → ℕ × Db
unfolding stale_claim requeued_row
recover_stale_dispatch_claims now db = (
  length (select_where (stale_claim now) db.tasks),
  write_tasks (stale_claim now) now requeued_row db,
)

-- The row that `_mark_processing` writes.
unfoldable pub processing_row :
    (worker_id upstream_task_id upstream_base_url : String) (upstream_status : Option String)
    (now : ℕ)
    → Task
    → Task
unfolding normalize_upstream_status
processing_row worker_id upstream_task_id upstream_base_url upstream_status now t =
    let normalized = normalize_upstream_status upstream_status TaskStatus.processing in
    let bound = record t {
      worker_id = some worker_id;
      upstream_task_id = some upstream_task_id;
      upstream_base_url = some upstream_base_url;
      started_at = some (or_else t.started_at now);
    } in
    if same_status normalized TaskStatus.completed
    then record bound { status = TaskStatus.storing_result }
    else (if is_terminal normalized
        then record bound { status = normalized; completed_at = some now }
        else record bound { status = normalized })

unfoldable pub mark_processing :
    (task_id worker_id upstream_task_id upstream_base_url : String)
    → (upstream_status : Option String) (now : ℕ) → Db
    → Db
unfolding processing_row
mark_processing task_id worker_id upstream_task_id upstream_base_url upstream_status now =
    write_tasks (has_task_id task_id) now
      (processing_row worker_id upstream_task_id upstream_base_url upstream_status now)

unfoldable pub failed_task_row : (error : String) (now : ℕ) → Task → Task
failed_task_row error now t = record t {
  status = TaskStatus.failed;
  error = some error;
  completed_at = some now;
}

unfoldable pub mark_failed : (task_id error : String) (now : ℕ) → Db → Db
unfolding failed_task_row
mark_failed task_id error now = write_tasks (has_task_id task_id) now (failed_task_row error now)

-- The status that `TaskRepository.apply_upstream_payload` writes for a new status: a completed task
-- still has to store its result.
abbrev pub stored_status : TaskStatus → TaskStatus
stored_status TaskStatus.completed = TaskStatus.storing_result
stored_status s = s

-- The row that `TaskRepository.apply_upstream_payload` writes.
unfoldable pub updated_row : StatusPayload → (now : ℕ) → Task → Task
unfolding apply_upstream_payload
updated_row payload now t =
    let updates = apply_upstream_payload t.status payload in
    let ended : Bool = elim updates.status [
      | none ↦ false
      | some s ↦ same_status s TaskStatus.failed || same_status s TaskStatus.expired
    ] in
    record t {
      status = elim updates.status [ none ↦ t.status | some s ↦ stored_status s ];
      backend = or_else updates.backend t.backend;
      file_names = or_else updates.file_names t.file_names;
      error = or_else updates.error t.error;
      completed_at = if ended && is_none t.completed_at then some now else t.completed_at;
    }

unfoldable pub apply_payload :
    (task_id : String) → StatusPayload → (now : ℕ) → Db → Option Task × Db
apply_payload task_id payload now db =
    let written = write_tasks (has_task_id task_id) now (updated_row payload now) db in
    elim (get_task task_id db) [ none ↦ (none, db) | some _ ↦ (get_task task_id written, written) ]

unfoldable pub defer_task_poll : (task_id : String) (now : ℕ) → Db → Db
defer_task_poll task_id now =
    write_tasks (has_task_id task_id) now
      (λ t. record t { next_poll_at = some (now + seconds poll_retry_delay_seconds) })

-- `_pollable_clause`
unfoldable pub pollable_clause : (now : ℕ) → Task → Bool
pollable_clause now t = elim t.next_poll_at [ none ↦ true | some at ↦ leb at now ]

-- `ORDER BY completed_at`
abbrev completed_less : Task → Task → Bool
completed_less a b = elim b.completed_at [ none ↦ false | some t ↦ before a.completed_at t ]

-- The rows that `list_retention_expired_tasks` selects.
unfoldable pub retention_expired : (cutoff : ℕ) → Task → Bool
retention_expired cutoff t =
    is_terminal t.status && is_some t.completed_at && before t.completed_at cutoff

unfoldable pub list_retention_expired_tasks : (cutoff limit : ℕ) → Db → List Task
unfolding retention_expired
list_retention_expired_tasks cutoff limit db =
    take limit (sort_by completed_less (select_where (retention_expired cutoff) db.tasks))

unfoldable pub delete_task : (task_id : String) → Db → Bool × Db
unfolding get_task
delete_task task_id db = elim (get_task task_id db) [
  | none ↦ (false, db)
  | some _ ↦ (true, record db { tasks = delete_where (has_task_id task_id) db.tasks })
]
