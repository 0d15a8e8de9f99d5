-- ===== src/TaskFlow.antt =====
-- src/mineru_gateway/gateway/task_flow.py and the routes of src/mineru_gateway/gateway/api/tasks.py
-- that read tasks: the polls of a synchronous request, and the answers.
pub mod Polls
pub mod Routes
use mineru_gateway.Base.{
  ℕ, zero, suc, ◌+◌, Bool, true, false, String, List, Option, none, some, ◌&&◌, ◌||◌, not, is_some,
  nonempty, if◌then◌else◌,
}
use Prim.Native.String.{◌++◌}
use mineru_gateway.Base.Action.{Answer, returned, raised, Action, pure, raise, try_except, ◌>>=◌}
use mineru_gateway.Config.{GatewaySettings}
use mineru_gateway.Models.{Task}
use mineru_gateway.Objects.{Failure, key_error, failure, StorageProvider}
use mineru_gateway.Tasks.Status.{TaskStatus, same_status}
use mineru_gateway.Cache.Entries.{CacheState}
use mineru_gateway.Queue.Rows.{get_task}
use mineru_gateway.Payload.{Bytes, MultipartPayload, HeaderCodec}
use mineru_gateway.Ingest.{Outside, ingest_payload}
use mineru_gateway.Results.{Run, read_result}

-- `_POLL_ITERATIONS`
abbrev pub poll_iterations : ℕ
poll_iterations = 300

-- `_FAILURE_STATUSES`
abbrev pub is_failure : TaskStatus → Bool
is_failure status = same_status status TaskStatus.failed || same_status status TaskStatus.expired

-- The answers, with what they tell of the task: `detail` and `message` are the texts of the JSON
-- body, and `attachment` is the file name of the content-disposition header. The codes are 200, 404,
-- 409, 202, 202, 404 and 503. The other texts are the same wherever an answer is given.
pub data TaskAnswer : Type 0 where
  delivered : (body : Bytes) (attachment : Option String) → TaskAnswer
  not_found : TaskAnswer
  conflict : (detail : String) (error : Option String) → TaskAnswer
  sla_expired : (status : TaskStatus) → TaskAnswer
  not_ready : (message : String) (status : TaskStatus) → TaskAnswer
  not_stored : TaskAnswer
  no_store : TaskAnswer

-- A completed row that names a result.
abbrev pub has_result : Task → Bool
has_result row = same_status row.status TaskStatus.completed && nonempty row.result_key

unfoldable pub is_poll_complete : Task → Bool
is_poll_complete row = has_result row || is_failure row.status || is_some row.client_expired_at

-- `poll_task_until_terminal`, from poll `i` on: `rows i` is the row that this poll reads.
unfoldable pub poll_from : (rows : ℕ → Option Task) (left i : ℕ) (last : Option Task) → Option Task
poll_from rows zero i last = last
poll_from rows (suc left) i last =
    let rest = poll_from rows left (i + 1) (rows i) in
    elim (rows i) [ none ↦ none | some row ↦ if is_poll_complete row then some row else rest ]

unfoldable pub poll_task_until_terminal : (rows : ℕ → Option Task) → Option Task
poll_task_until_terminal rows = poll_from rows poll_iterations 0 none

-- The end of `resolve_sync_result`, after the result was looked for.
unfoldable pub resolve_fetched : Task → Option Bytes → TaskAnswer
resolve_fetched row (some body) = delivered body none
resolve_fetched row none =
    if is_some row.client_expired_at
    then sla_expired row.status
    else (if is_poll_complete row
        then not_stored
        else not_ready "Result is not ready yet" row.status)

abbrev pub zip_name : (task_id : String) → String
zip_name task_id = task_id ++ ".zip"

abbrev pub answer_fetched : (task_id : String) → Option Bytes → TaskAnswer
answer_fetched task_id (some body) = delivered body (some (zip_name task_id))
answer_fetched task_id none = not_stored

module _ {S : Type 0} (cfg : GatewaySettings) where
  abbrev pub absent_result : Failure → Run S (Option Bytes)
  absent_result key_error = pure none
  absent_result (failure text) = raise (failure text)

  unfoldable pub fetch_result_or_none :
      (task_id : String) → StorageProvider S → Run S (Option Bytes)
  fetch_result_or_none task_id store =
      try_except (read_result cfg store task_id >>= λ found. pure (some found.0)) absent_result

  unfoldable pub try_fetch_result_bytes :
      (task_id : String) → Task → Option (StorageProvider S) → Run S (Option Bytes)
  try_fetch_result_bytes task_id row none = pure none
  try_fetch_result_bytes task_id row (some store) =
      if has_result row then fetch_result_or_none task_id store else pure none

  unfoldable pub resolve_sync_result :
      (task_id : String) → Option Task → Option (StorageProvider S) → Run S TaskAnswer
  resolve_sync_result task_id none store =
      pure (conflict "Processing failed" (some "task disappeared"))
  resolve_sync_result task_id (some row) store =
      if is_failure row.status
      then pure (conflict "Processing failed" row.error)
      else (try_fetch_result_bytes task_id row store >>= λ fetched.
          pure (resolve_fetched row fetched))

  -- `get_task_status`: the row that is shown, or 404.
  unfoldable pub get_task_status : (task_id : String) → CacheState S → Option Task
  get_task_status task_id state = get_task task_id state.db

  abbrev pub answer_stored : (task_id : String) → Option (StorageProvider S) → Run S TaskAnswer
  answer_stored task_id none = pure not_stored
  answer_stored task_id (some store) =
      fetch_result_or_none task_id store >>= λ fetched. pure (answer_fetched task_id fetched)

  abbrev pub answer_row :
      (task_id : String) → Option Task → Option (StorageProvider S) → Run S TaskAnswer
  answer_row task_id none store = pure not_found
  answer_row task_id (some row) store =
      if is_failure row.status
      then pure (conflict "Task execution failed" row.error)
      else (if has_result row
          then answer_stored task_id store
          else pure (not_ready "Task result is not ready yet" row.status))

  -- `get_task_result`
  unfoldable pub get_task_result :
      (task_id : String) → Option (StorageProvider S) → Run S TaskAnswer
  get_task_result task_id store state = answer_row task_id (get_task task_id state.db) store state

  -- `file_parse`, after its task was ingested: `rows` is what its polls read, and the result is read
  -- in the state that the last poll left.
  unfoldable pub after_polls :
      (task_id : String) (rows : ℕ → Option Task) → StorageProvider S → Run S TaskAnswer
  after_polls task_id rows store =
      resolve_sync_result task_id (poll_task_until_terminal rows) (some store)

  abbrev pub after_hit :
      (task_id : String) (rows : ℕ → Option Task)
      → StorageProvider S
      → Option Bytes
      → Run S TaskAnswer
  after_hit task_id rows store (some body) = pure (delivered body none)
  after_hit task_id rows store none = after_polls task_id rows store

  unfoldable pub file_parse_ingested :
      (task_id : String) (cache_hit : Bool) (rows : ℕ → Option Task)
      → StorageProvider S
      → Run S TaskAnswer
  file_parse_ingested task_id cache_hit rows store =
      if cache_hit
      then (fetch_result_or_none task_id store >>= λ fetched. after_hit task_id rows store fetched)
      else after_polls task_id rows store

  abbrev pub file_parse_stored :
      (codec : HeaderCodec) (outside : Outside) (now : ℕ) (rows : ℕ → Option Task)
      → MultipartPayload
      → (skip_cache : Bool) → StorageProvider S
      → Run S TaskAnswer
  file_parse_stored codec outside now rows payload skip_cache store =
      ingest_payload cfg codec outside now payload "tasks" skip_cache (some store) >>= λ r.
      file_parse_ingested r.task_id r.cache_hit rows store

  -- `file_parse` of a staged payload that is admitted.
  unfoldable pub file_parse :
      (codec : HeaderCodec) (outside : Outside) (now : ℕ) (rows : ℕ → Option Task)
      → MultipartPayload
      → (skip_cache : Bool) → Option (StorageProvider S)
      → Run S TaskAnswer
  file_parse codec outside now rows payload skip_cache none = pure no_store
  file_parse codec outside now rows payload skip_cache (some store) =
      file_parse_stored codec outside now rows payload skip_cache store
