-- ===== src/TaskFlow/Routes.antt =====
-- What the routes answer.
use mineru_gateway.Base.{
  ℕ, ◌≡◌, ◌≤◌, ◌⊎◌, inl, inr, refl, ap, Bool, true, false, String, Option, none, some, is_some,
  arith, Bool-cases, if◌then◌else◌,
}
use mineru_gateway.Base.Action.{Answer, returned, raised, pure, try_except, ◌>>=◌, rescue, proceed}
use mineru_gateway.Config.{GatewaySettings}
use mineru_gateway.Models.{Task}
use mineru_gateway.Payload.{Bytes}
use mineru_gateway.Tasks.Status.{TaskStatus}
use mineru_gateway.Tasks.Storage.{result_key, result_format_zip}
use mineru_gateway.Tasks.Keys.{result_key_nonempty}
use mineru_gateway.Objects.{Failure, StorageProvider, IsKeyed}
use mineru_gateway.Cache.Entries.{CacheState}
use mineru_gateway.Queue.Rows.{get_task}
use mineru_gateway.Results.{read_result, fetch_and_store_result}
use mineru_gateway.Results.Stored.{IsStored, fetch_and_store_result-IsStored}
use mineru_gateway.TaskFlow.{
  TaskAnswer, delivered, not_found, conflict, sla_expired, not_ready, not_stored, no_store,
  zip_name, is_failure, has_result, is_poll_complete, poll_task_until_terminal,
  fetch_result_or_none, try_fetch_result_bytes, resolve_fetched, resolve_sync_result,
  answer_fetched, answer_stored, absent_result, get_task_result,
}

abbrev map_answer : {A B : Type 0} → (A → B) → Answer Failure A → Answer Failure B
map_answer f (returned a) = returned (f a)
map_answer f (raised e) = raised e

-- An answer without the wording: its kind, and so its code, the result's bytes, the task's error and
-- its status.
abbrev pub plain : TaskAnswer → TaskAnswer
plain (delivered body attachment) = delivered body none
plain (conflict detail error) = conflict "" error
plain (not_ready message status) = not_ready "" status
plain not_found = not_found
plain (sla_expired status) = sla_expired status
plain not_stored = not_stored
plain no_store = no_store

-- Two runs answer alike, or raise the same, and leave the same state.
abbrev pub Agree :
    {S : Type 0}
    → Answer Failure TaskAnswer × CacheState S
    → Answer Failure TaskAnswer × CacheState S
    → Type 0
Agree r t = (map_answer plain r.0 ≡ map_answer plain t.0) × (r.1 ≡ t.1)

resolve_present :
    (row : Task) (body : Bytes) → resolve_fetched row (some body) ≡ delivered body none
unfolding resolve_fetched
resolve_present row body = refl

module _ (row : Task) (fresh : is_some row.client_expired_at ≡ false)
    (active : is_failure row.status ≡ false) where
  is_poll_complete-result : is_poll_complete row ≡ has_result row
  unfolding is_poll_complete
  is_poll_complete-result = ground (arith, fresh, active)

  resolve_absent :
      resolve_fetched row none
      ≡ (if has_result row then not_stored else not_ready "Result is not ready yet" row.status)
  unfolding resolve_fetched
  resolve_absent = rw (fresh, is_poll_complete-result) refl

  module _ {S : Type 0} (cfg : GatewaySettings) (task_id : String) where
    fetched_same :
        (r : Answer Failure (Option Bytes) × CacheState S)
        → has_result row ≡ true
        → Agree
            (proceed (λ fetched. pure (resolve_fetched row fetched)) r)
            (proceed (λ fetched. pure (answer_fetched task_id fetched)) r)
    unfolding pure
    fetched_same (returned none, after) done = rw (resolve_absent, done) (refl, refl)
    fetched_same (returned (some body), after) done = rw (resolve_present row body) (refl, refl)
    fetched_same (raised e, after) done = (refl, refl)

    resolved_same :
        (store : Option (StorageProvider S)) (state : CacheState S)
        → Agree
            ((try_fetch_result_bytes cfg task_id row store >>= λ fetched.
                pure (resolve_fetched row fetched))
              state)
            ((if has_result row
                then answer_stored cfg task_id store
                else pure (not_ready "Task result is not ready yet" row.status))
              state)
    unfolding try_fetch_result_bytes ◌>>=◌ pure
    resolved_same none state = elim (Bool-cases (has_result row)) [
      | inl q ↦ rw (q, resolve_absent, q) (refl, refl)
      | inr q ↦ rw (q, resolve_absent, q) (refl, refl)
    ]
    resolved_same (some store) state = elim (Bool-cases (has_result row)) [
      | inl q ↦ rw q (fetched_same _ q)
      | inr q ↦ rw (q, resolve_absent, q) (refl, refl)
    ]

-- For a task whose client's time limit did not expire, a synchronous request that read its row and
-- `GET /tasks/{id}/result` on the same state answer with the same code, the same bytes, the same error
-- and the same status of the task, or raise the same, and leave the same state. They may differ in
-- the texts `detail` and `message` and in the header with the file name.
pub resolve_sync_result-get_task_result :
    {S : Type 0} (cfg : GatewaySettings) (task_id : String) (row : Task)
    (store : Option (StorageProvider S))
    → (state : CacheState S) → get_task task_id state.db ≡ some row
    → row.client_expired_at ≡ none
    → Agree
        (resolve_sync_result cfg task_id (some row) store state)
        (get_task_result cfg task_id store state)
unfolding resolve_sync_result get_task_result pure
resolve_sync_result-get_task_result cfg task_id row store state found fresh =
    elim (Bool-cases (is_failure row.status)) [
      | inl q ↦ rw (found, q) (refl, refl)
      | inr q ↦ rw (found, q) (resolved_same row (ap is_some fresh) q cfg task_id store state)
    ]

-- What a synchronous request may answer of a complete row: the result, or that its object is not
-- there, of a completed row that names one; the error of a failed one; the status of one whose client's
-- time limit expired.
abbrev pub Answers : Task → TaskAnswer → Type 0
Answers row (delivered body attachment) = has_result row ≡ true
Answers row (conflict detail error) = (is_failure row.status ≡ true) × (error ≡ row.error)
Answers row (sla_expired status) = (is_some row.client_expired_at ≡ true) × (status ≡ row.status)
Answers row not_stored = has_result row ≡ true
Answers row (not_ready message status) = ⊥
Answers row not_found = ⊥
Answers row no_store = ⊥

-- The answer of a synchronous request: the bytes that a hit of the cache has, or what the complete
-- row of the poll `i` or an earlier one has to be answered with.
abbrev pub IsAnswer : (cache_hit : Bool) (rows : ℕ → Option Task) (i : ℕ) → TaskAnswer → Type 0
IsAnswer cache_hit rows i a =
    ((cache_hit ≡ true) × ((body : Bytes) × (a ≡ delivered body none)))
    ⊎ ((k : ℕ) × (found : Task) × (k ≤ i)
        × (rows k ≡ some found)
        × (is_poll_complete found ≡ true)
        × Answers found a)

-- A complete row that the polls read at the poll `i` or earlier.
abbrev Completes : (rows : ℕ → Option Task) (i : ℕ) → Type 0
Completes rows i =
    (k : ℕ) × (found : Task) × (k ≤ i)
    × (rows k ≡ some found)
    × (poll_task_until_terminal rows ≡ some found)
    × (is_poll_complete found ≡ true)

-- What was stored is delivered.
fetch_stored :
    {S : Type 0} (cfg : GatewaySettings) (task_id : String) (store : StorageProvider S)
    → (body : Bytes) (format : Option String) (state : CacheState S)
    → (read_result cfg store task_id state).0 ≡ returned (body, format)
    → (fetch_result_or_none cfg task_id store state).0 ≡ returned (some body)
unfolding fetch_result_or_none try_except ◌>>=◌ pure
fetch_stored {S} cfg task_id store body format state read =
    go (read_result cfg store task_id state) read
  where
    go :
        (r : Answer Failure (Bytes × Option String) × CacheState S)
        → r.0 ≡ returned (body, format)
        → (rescue (absent_result cfg) (proceed (λ found. pure (some found.0)) r)).0
          ≡ returned (some body)
    go (returned (other, f), after) e = ap (map_answer (λ p. some p.0)) e
    go (raised x, after) e = absurd (ground arith)

answer_delivered :
    {S : Type 0} (task_id : String) (body : Bytes)
    → (r : Answer Failure (Option Bytes) × CacheState S) → r.0 ≡ returned (some body)
    → (proceed (λ fetched. pure (answer_fetched task_id fetched)) r).0
      ≡ returned (delivered body (some (zip_name task_id)))
unfolding pure
answer_delivered task_id body (returned o, after) e = ap (map_answer (answer_fetched task_id)) e
answer_delivered task_id body (raised x, after) e = absurd (ground arith)

answers_stored :
    {S : Type 0} (cfg : GatewaySettings) (task_id : String) (store : StorageProvider S) (row : Task)
    → (body : Bytes) (format : Option String) (state : CacheState S)
    → get_task task_id state.db ≡ some row
    → row.status ≡ TaskStatus.completed
    → row.result_key ≡ some (result_key task_id result_format_zip)
    → (read_result cfg store task_id state).0 ≡ returned (body, format)
    → (get_task_result cfg task_id (some store) state).0
      ≡ returned (delivered body (some (zip_name task_id)))
unfolding get_task_result ◌>>=◌
answers_stored cfg task_id store row body format state found done named read =
    rw (found, done, named, result_key_nonempty task_id)
      (answer_delivered task_id body _ (fetch_stored cfg task_id store body format state read))

-- What the route delivers after a storing that returned: the bytes that were downloaded.
abbrev pub DeliversStored :
    {S : Type 0} (cfg : GatewaySettings) (task_id : String) (store : StorageProvider S)
    → (downloaded : Answer Failure Bytes) → Answer Failure (String × Bytes) × CacheState S
    → Type 0
DeliversStored cfg task_id store downloaded (returned _, after) =
    (body : Bytes) × (downloaded ≡ returned body)
    × ((get_task_result cfg task_id (some store) after).0
        ≡ returned (delivered body (some (zip_name task_id))))
DeliversStored cfg task_id store downloaded (raised e, after) = Unit

-- Where the store keeps its objects by key and the scheduler's storing of a result returned, the
-- worker had answered with some bytes, and the result route of the gateway delivers these.
pub get_task_result-DeliversStored :
    {S : Type 0} (cfg : GatewaySettings) (store : StorageProvider S) (keyed : IsKeyed store)
    (has_cache : Bool)
    → (task_id generation : String) (downloaded : Answer Failure Bytes) (now : ℕ)
      (state : CacheState S)
    → DeliversStored cfg task_id store downloaded
        (fetch_and_store_result cfg store has_cache task_id generation downloaded now state)
get_task_result-DeliversStored {S} cfg store keyed has_cache task_id generation downloaded now
      state =
    go _ (
      fetch_and_store_result-IsStored cfg store has_cache task_id generation downloaded state keyed
        now)
  where
    go :
        (r : Answer Failure (String × Bytes) × CacheState S)
        → IsStored cfg store has_cache task_id generation downloaded state r
        → DeliversStored cfg task_id store downloaded r
    go (returned (key, body), after) (d, (row, found, done, named), read) = (
      body,
      d,
      answers_stored cfg task_id store row body (some result_format_zip) after found done named
          read,
    )
    go (raised e, after) h = tt
