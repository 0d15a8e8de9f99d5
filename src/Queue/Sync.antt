-- ===== src/Queue/Sync.antt =====
-- The refresh of dispatched tasks from the workers that run them.
use mineru_gateway.Base.{
  ℕ, ◌+◌, Bool, true, false, String, List, [], ◌∷◌, Option, none, some, ◌&&◌, ◌||◌, not, ltb,
  is_none, is_some, nonempty, if◌then◌else◌, or_else,
}
use mineru_gateway.Base.Table.{select_where, sort_by, take}
use mineru_gateway.Models.{Task, Db, has_task_id}
use mineru_gateway.Tasks.Status.{TaskStatus, StatusPayload, is_terminal, is_computing, same_status}
use mineru_gateway.Workers.Queries.{nulls_first_less}
use mineru_gateway.Workers.Commits.{commit_fields}
use mineru_gateway.Queue.Rows.{
  get_task, write_tasks, apply_payload, defer_task_poll, pollable_clause,
}

-- `ORDER BY next_poll_at NULLS FIRST, updated_at`
abbrev pub poll_less : Task → Task → Bool
poll_less a b =
    nulls_first_less a.next_poll_at b.next_poll_at
    || not (nulls_first_less b.next_poll_at a.next_poll_at) && ltb a.updated_at b.updated_at

-- The rows that `sync_dispatched_task_statuses` selects.
unfoldable pub sync_candidate : (now : ℕ) → Task → Bool
unfolding pollable_clause
sync_candidate now t =
    is_computing t.status
    && is_some t.upstream_task_id
    && is_some t.upstream_base_url
    && pollable_clause now t

-- The rows that `list_unstored_completed` selects.
unfoldable pub unstored_completed : (now : ℕ) → Task → Bool
unfolding pollable_clause
unstored_completed now t =
    same_status t.status TaskStatus.storing_result
    && is_none t.result_key
    && is_some t.upstream_task_id
    && is_some t.upstream_base_url
    && pollable_clause now t

unfoldable pub list_unstored_completed : (now limit : ℕ) → Db → List Task
unfolding unstored_completed
list_unstored_completed now limit db =
    take limit (sort_by poll_less (select_where (unstored_completed now) db.tasks))

-- The second write of a refresh: a poll that was deferred is due again.
unfoldable pub clear_next_poll : (task_id : String) (now : ℕ) → Db → Db
unfolding get_task
clear_next_poll task_id now db = elim (get_task task_id db) [
  | none ↦ db
  | some row ↦
      if is_some row.next_poll_at
      then write_tasks (has_task_id task_id) now (λ t. record t { next_poll_at = none }) db
      else db
]

-- What a worker answers to `GET {base_url}/tasks/{upstream_task_id}` through `worker_json_get`.
module _ (poll : (base_url upstream_task_id : String) → Option StatusPayload) where
  unfoldable pub after_poll :
      (task_id : String) (now : ℕ) → Task → Option StatusPayload → Db → Option Task × Db
  unfolding apply_payload clear_next_poll defer_task_poll
  after_poll task_id now row none db = (some row, defer_task_poll task_id now db)
  after_poll task_id now row (some payload) db =
      let (updated, after) = apply_payload task_id payload now db in
      elim updated [ none ↦ (none, after) | some u ↦ (some u, clear_next_poll task_id now after) ]

  unfoldable pub refresh_task_from_upstream : (task_id : String) (now : ℕ) → Db → Option Task × Db
  unfolding get_task after_poll
  refresh_task_from_upstream task_id now db = elim (get_task task_id db) [
    | none ↦ (none, db)
    | some row ↦
        if is_terminal row.status
        then (some row, db)
        else (if not (nonempty row.upstream_task_id && nonempty row.upstream_base_url)
            then (some row, db)
            else after_poll task_id now row
                (poll (or_else row.upstream_base_url "") (or_else row.upstream_task_id "")) db)
  ]

  -- `_sync_one`: whether the status changed, and the worker's time of last activity.
  unfoldable pub record_activity : (now : ℕ) (before : TaskStatus) → Option Task × Db → Bool × Db
  unfolding commit_fields
  record_activity now before (none, db) = (false, db)
  record_activity now before (some updated, db) =
      if same_status updated.status before
      then (false, db)
      else (if is_terminal updated.status && nonempty updated.worker_id
          then (
            true,
            commit_fields (or_else updated.worker_id "") now
                (λ w. record w { last_active_at = some now }) db,
          )
          else (true, db))

  -- The snapshot of tasks is refreshed one after another; the code runs four at a time, each on a
  -- row of its own.
  unfoldable pub sync_each : (now : ℕ) → List Task → Db → ℕ × Db
  unfolding refresh_task_from_upstream record_activity
  sync_each now [] db = (0, db)
  sync_each now (t ∷ tasks) db =
      let (changed, after) =
        record_activity now t.status (refresh_task_from_upstream t.task_id now db) in
      let (count, final) = sync_each now tasks after in
      (if changed then count + 1 else count, final)

  unfoldable pub sync_dispatched_task_statuses : (now max_per_tick : ℕ) → Db → ℕ × Db
  unfolding sync_candidate sync_each
  sync_dispatched_task_statuses now max_per_tick db =
      sync_each now
        (take max_per_tick (sort_by poll_less (select_where (sync_candidate now) db.tasks))) db
