-- ===== src/Results.antt =====
-- src/mineru_gateway/tasks/results.py, and `persist_pending_results` of
-- src/mineru_gateway/scheduler/task_repository.py: the result of a task is downloaded from its
-- worker, put in the object store, and then named in the row of the task.
pub mod Populates
pub mod Stored
pub mod Counts
use mineru_gateway.Base.{
  ℕ, ◌+◌, Bool, true, false, String, List, [], ◌∷◌, Option, none, some, ◌&&◌, nonempty, or_else,
  if◌then◌else◌,
}
use mineru_gateway.Base.Action.{
  Answer, returned, raised, Action, pure, raise, try_except, ◌>>=◌, ◌>>◌,
}
use mineru_gateway.Config.{GatewaySettings}
use mineru_gateway.Models.{Task, Db}
use mineru_gateway.Payload.{Bytes}
use mineru_gateway.Objects.{Failure, key_error, StorageProvider, commit, in_store, discard}
use mineru_gateway.Tasks.Storage.{result_key, result_format_zip}
use mineru_gateway.Cache.Entries.{CacheState, populate_from_task}
use mineru_gateway.Queue.Rows.{get_task, complete_with_result, defer_task_poll}

abbrev pub Run : (S A : Type 0) → Type 0
Run S A = Action Failure (CacheState S) A

module _ {S : Type 0} where
  -- `complete_with_result`, which raises `KeyError` where the row is gone.
  abbrev pub completing :
      S → Option (Option String) × Db → Answer Failure (Option String) × CacheState S
  completing objects (none, db) = (raised key_error, record { db = db; objects = objects })
  completing objects (some cache_key, db) =
      (returned cache_key, record { db = db; objects = objects })

  unfoldable pub complete : (task_id key result_format : String) (now : ℕ) → Run S (Option String)
  complete task_id key result_format now state =
      completing state.objects (complete_with_result task_id key result_format now state.db)

  -- What an outer call answered.
  unfoldable pub answered : {A : Type 0} → Answer Failure A → Run S A
  answered answer state = (answer, state)

module _ {S : Type 0} (cfg : GatewaySettings) (store : StorageProvider S) where
  unfoldable pub store_result :
      (task_id : String) (body : Bytes) (result_format : String) → Run S String
  store_result task_id body result_format =
      let key = result_key task_id result_format in in_store (store.put key body) >> pure key

  -- The populating of the cache, by a service that is there or not, with the fresh text that it draws.
  unfoldable pub populate :
      (has_cache : Bool) (task_id generation : String) → Option String → Run S (Unit {0})
  populate has_cache task_id generation cache_key state =
      if has_cache && nonempty cache_key
      then (
        returned tt,
        populate_from_task cfg store.objects task_id (or_else cache_key "") result_format_zip
            generation state,
      )
      else (returned tt, state)

  -- The row is completed; where that raises, the object is deleted.
  unfoldable pub complete_or_discard : (task_id key : String) (now : ℕ) → Run S (Option String)
  complete_or_discard task_id key now =
      try_except (complete task_id key result_format_zip now)
        (λ e. (discard cfg store key >> raise e))

  -- `fetch_and_store_result`, after what the worker's `/result` answered.
  unfoldable pub fetch_and_store_result :
      (has_cache : Bool) (task_id generation : String) (downloaded : Answer Failure Bytes) (now : ℕ)
      → Run S (String × Bytes)
  fetch_and_store_result has_cache task_id generation downloaded now =
      answered downloaded >>= λ body.
      (store_result task_id body result_format_zip >>= λ key.
      (complete_or_discard task_id key now >>= λ cache_key.
      (populate has_cache task_id generation cache_key >> pure (key, body))))

  -- `read_result`
  abbrev pub read_row : Option Task → Run S (Bytes × Option String)
  read_row none = raise key_error
  read_row (some row) = elim row.result_key [
    | none ↦ raise key_error
    | some key ↦ in_store (store.get key) >>= λ body. pure (body, row.result_format)
  ]

  unfoldable pub read_result : (task_id : String) → Run S (Bytes × Option String)
  read_result task_id state = read_row (get_task task_id state.db) state

  -- `_persist`, with the counts of stored and failed results.
  unfoldable pub persist :
      (has_cache : Bool) (download : Task → Answer Failure Bytes) (generation : String → String)
      (now : ℕ)
      → Task
      → ℕ × ℕ
      → Run S (ℕ × ℕ)
  persist has_cache download generation now task (stored, failed) =
      if nonempty task.upstream_task_id && nonempty task.upstream_base_url
      then try_except
          (fetch_and_store_result has_cache task.task_id (generation task.task_id) (download task)
              now
            >>= λ _. pure (stored + 1, failed))
          (λ e. (commit (defer_task_poll task.task_id now) >> pure (stored, failed + 1)))
      else pure (stored, failed)

  -- `persist_pending_results`, one task after another.
  unfoldable pub persist_each :
      (has_cache : Bool) (download : Task → Answer Failure Bytes) (generation : String → String)
      (now : ℕ)
      → List Task
      → ℕ × ℕ
      → Run S (ℕ × ℕ)
  persist_each has_cache download generation now [] counts = pure counts
  persist_each has_cache download generation now (task ∷ tasks) counts =
      persist has_cache download generation now task counts >>= λ more.
      persist_each has_cache download generation now tasks more

  abbrev pub persist_pending_results :
      (has_cache : Bool) (download : Task → Answer Failure Bytes) (generation : String → String)
      (now : ℕ)
      → List Task
      → Run S (ℕ × ℕ)
  persist_pending_results has_cache download generation now tasks =
      persist_each has_cache download generation now tasks (0, 0)
