-- ===== src/Results/Stored.antt =====
-- What the storing of a result leaves: the row names an object only once it is in the store.
use mineru_gateway.Base.{ℕ, ◌≡◌, inl, inr, refl, ◌∙◌, Bool, String, none, some, arith, Option-cases}
use mineru_gateway.Base.Action.{
  Answer, returned, raised, pure, raise, try_except, ◌>>=◌, ◌>>◌, proceed,
}
use mineru_gateway.Config.{GatewaySettings}
use mineru_gateway.Models.{Task, Db, has_task_id}
use mineru_gateway.Payload.{Bytes}
use mineru_gateway.Tasks.Status.{TaskStatus}
use mineru_gateway.Objects.{
  Failure, key_error, StorageProvider, IsKeyed, in_store, discard, with_objects,
}
use mineru_gateway.Tasks.Storage.{result_key, result_format_zip}
use mineru_gateway.Cache.Entries.{CacheState}
use mineru_gateway.Queue.Rows.{get_task, complete_with_result, completed_row, write_tasks}
use mineru_gateway.Queue.Settles.{get_task-write}
use mineru_gateway.Results.{
  complete, answered, store_result, populate, complete_or_discard, fetch_and_store_result,
  read_result,
}
use mineru_gateway.Results.Populates.{populate-returns, populate-Leaves}

module _ {S : Type 0} (cfg : GatewaySettings) (store : StorageProvider S) (has_cache : Bool)
    (task_id generation : String) (downloaded : Answer Failure Bytes) (before : CacheState S) where
  -- How `fetch_and_store_result` ends: the row is completed and its result is what was downloaded, or
  -- the database is as before.
  abbrev pub IsStored : Answer Failure (String × Bytes) × CacheState S → Type 0
  IsStored (returned (key, body), after) =
      (downloaded ≡ returned body)
      × ((row : Task) × (get_task task_id after.db ≡ some row)
          × (row.status ≡ TaskStatus.completed)
          × (row.result_key ≡ some (result_key task_id result_format_zip)))
      × ((read_result cfg store task_id after).0 ≡ returned (body, some result_format_zip))
  IsStored (raised e, after) = after.db ≡ before.db

  module _ (keyed : IsKeyed store) (now : ℕ) where
    get_task-tasks :
        (after db : Db) → after.tasks ≡ db.tasks → get_task task_id after ≡ get_task task_id db
    unfolding get_task
    get_task-tasks after db e = rw e refl

    -- A row that names the object is read back.
    read_named :
        (body : Bytes) (row : Task) (state : CacheState S)
        → get_task task_id state.db ≡ some row
        → row.result_key ≡ some (result_key task_id result_format_zip)
        → row.result_format ≡ some result_format_zip
        → (store.get (result_key task_id result_format_zip) state.objects).0 ≡ returned body
        → (read_result cfg store task_id state).0 ≡ returned (body, some result_format_zip)
    unfolding read_result in_store ◌>>=◌ pure
    read_named body row state found named format got = rw (found, named, got, format) refl

    complete-gone :
        (key : String) (state : CacheState S)
        → get_task task_id state.db ≡ none
        → complete task_id key result_format_zip now state ≡ (raised key_error, state)
    unfolding complete complete_with_result
    complete-gone key state gone = rw (gone, complete, complete_with_result) refl

    complete-found :
        (key : String) (state : CacheState S) (row : Task)
        → get_task task_id state.db ≡ some row
        → complete task_id key result_format_zip now state ≡ (
          returned row.cache_key,
          record state {
            db =
                write_tasks
                  (has_task_id task_id)
                  now
                  (completed_row key result_format_zip now)
                  state.db;
          },
        )
    unfolding complete complete_with_result
    complete-found key state row found = rw (found, complete, complete_with_result) refl

    -- After the cache was populated: the task's row names the result, and it is in the store.
    after_populate :
        (body : Bytes) (row : Task) (r : Answer Failure (Unit {0}) × CacheState S)
        → r.0 ≡ returned tt
        → get_task task_id r.1.db ≡ some row
        → row.status ≡ TaskStatus.completed
        → row.result_key ≡ some (result_key task_id result_format_zip)
        → (read_result cfg store task_id r.1).0 ≡ returned (body, some result_format_zip)
        → downloaded ≡ returned body
        → IsStored (proceed (λ _. pure (result_key task_id result_format_zip, body)) r)
    unfolding pure
    after_populate body row (returned _, after) e found done named read d =
        (d, (row, found, done, named), read)
    after_populate body row (raised x, after) e found done named read d = absurd (ground arith)

    -- After the row was completed.
    completed_state :
        (body : Bytes) (row final : Task) (written : CacheState S)
        → get_task task_id written.db ≡ some final
        → final.status ≡ TaskStatus.completed
        → final.result_key ≡ some (result_key task_id result_format_zip)
        → final.result_format ≡ some result_format_zip
        → (store.get (result_key task_id result_format_zip) written.objects).0 ≡ returned body
        → downloaded ≡ returned body
        → IsStored (
            (populate cfg store has_cache task_id generation row.cache_key
                >> pure (result_key task_id result_format_zip, body))
              written)
    unfolding ◌>>◌
    completed_state body row final written found done named format got d =
        let r = populate cfg store has_cache task_id generation row.cache_key written in
        let kept =
          populate-Leaves cfg store keyed has_cache task_id generation row.cache_key written in
        let still : get_task task_id r.1.db ≡ some final =
          rw (get_task-tasks r.1.db written.db kept.0) found in
        after_populate body final r
          (populate-returns cfg store keyed has_cache task_id generation row.cache_key written)
          still done named (read_named body final r.1 still named format (kept.1 task_id ∙ got)) d

    -- After the object was put.
    kept_or_completed :
        (body : Bytes) (objects : S)
        → (store.get (result_key task_id result_format_zip) objects).0 ≡ returned body
        → downloaded ≡ returned body
        → let key = result_key task_id result_format_zip in
          IsStored (
            proceed
              (λ cache_key.
                (populate cfg store has_cache task_id generation cache_key >> pure (key, body)))
              (complete_or_discard cfg store task_id key now
                (record { db = before.db; objects = objects })))
    unfolding complete_or_discard try_except discard raise ◌>>◌ pure completed_row
    kept_or_completed body objects got d =
        let key = result_key task_id result_format_zip in
        let state : CacheState S = record { db = before.db; objects = objects } in
        elim (Option-cases (get_task task_id before.db)) [
          | inl gone ↦ rw (complete-gone key state gone) refl
          | inr (row, found) ↦ rw (complete-found key state row found) (
              completed_state body row _ (record state { db = _ })
                (get_task-write task_id now (completed_row key result_format_zip now) before.db
                  (λ t. refl) found)
                refl refl refl got d)
        ]

    -- After the call of `put`.
    put_row :
        (body : Bytes) (r : Answer Failure (Unit {0}) × S)
        → store.put (result_key task_id result_format_zip) body before.objects ≡ r
        → downloaded ≡ returned body
        → let key = result_key task_id result_format_zip in
          IsStored (
            proceed
              (λ named.
                (complete_or_discard cfg store task_id named now >>= λ cache_key.
                (populate cfg store has_cache task_id generation cache_key >> pure (named, body))))
              (proceed (λ _. pure key) (with_objects before.db r)))
    unfolding ◌>>=◌ pure
    put_row body (returned tt, objects) e d =
        kept_or_completed body objects (keyed.put_get _ body before.objects objects e) d
    put_row body (raised x, objects) e d = refl

    from_answer :
        (answer : Answer Failure Bytes)
        → downloaded ≡ answer
        → IsStored (fetch_and_store_result cfg store has_cache task_id generation answer now before)
    unfolding fetch_and_store_result ◌>>=◌ answered store_result ◌>>◌ in_store
    from_answer (returned body) d = put_row body _ refl d
    from_answer (raised e) d = refl

    -- Where the store keeps its objects by key, the storing of a result either returns, and then the
    -- row is completed and its result reads back as what was downloaded, whatever the populating of
    -- the cache did; or it raises, and the database is as before.
    pub fetch_and_store_result-IsStored :
        IsStored
          (fetch_and_store_result cfg store has_cache task_id generation downloaded now before)
    fetch_and_store_result-IsStored = from_answer downloaded refl
