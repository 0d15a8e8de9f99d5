-- ===== src/Ingest/Accepted.antt =====
-- What `ingest_payload` leaves.
use mineru_gateway.Base.{
  ℕ, ◌≡◌, ◌⊎◌, inl, inr, refl, ap, ◌∙◌, Bool, true, false, String, List, Option, none, some,
  nonempty, or_else, ◌||◌, not, Bool-cases, Option-cases,
}
use mineru_gateway.Base.Action.{Answer, returned, raised, pure, raise, ◌>>=◌, ◌>>◌, proceed}
use mineru_gateway.Config.{GatewaySettings}
use mineru_gateway.Models.{CacheEntry, Task, Db}
use mineru_gateway.Tasks.Status.{TaskStatus}
use mineru_gateway.Tasks.Storage.{result_key, payload_key, result_format_zip}
use mineru_gateway.Payload.{MultipartPayload, HeaderCodec, header_of, rebuild_blob, rebuilt}
use mineru_gateway.Payload.RoundTrip.{AllSafe}
use mineru_gateway.Objects.{Failure, StorageProvider, IsKeyed}
use mineru_gateway.Cache.Entries.{
  CacheState, Hit, hit_row, no_object, not_inserted, get_entry, row_is_expired,
}
use mineru_gateway.Cache.TaskRows.{
  lookup-tasks, IsFound, lookup-IsFound, create_placeholder-tasks, IsHit, create_hit_task-IsHit,
}
use mineru_gateway.Cache.Digests.{Records, compute_file_records, build_cache_options}
use mineru_gateway.Queue.Rows.{get_task}
use mineru_gateway.Ingest.{
  IngestResult, Intake, Outside, refresh_of, intake_of, hit_answer, build_cache_hit, placed,
  with_placeholder, looked_up, resolve_cache, after_cache, ingest_payload,
}
use mineru_gateway.Ingest.Queued.{IsQueued, create_task_with_payload-IsQueued}

module _ {S : Type 0} (cfg : GatewaySettings) (codec : HeaderCodec) (outside : Outside) (now : ℕ)
    (store : StorageProvider S) (payload : MultipartPayload) (before : CacheState S) where
  -- The result of a hit: the cache had a live row of the key of this payload's files and options, and
  -- the task's own key holds the bytes of that row's object.
  abbrev pub HasCachedResult : CacheState S → Type 0
  HasCachedResult after =
      (records : Records) × (entry : CacheEntry) × (body : List ℕ) × (compute_file_records cfg
          outside.hashes payload.uploads
        ≡ some records)
      × (get_entry (outside.hashes.key_digest records (build_cache_options payload.fields))
            before.db
          ≡ some entry)
      × (row_is_expired now entry ≡ false)
      × ((store.get (or_else entry.object_key "") before.objects).0 ≡ returned body)
      × ((store.get (result_key outside.fresh_id result_format_zip) after.objects).0
          ≡ returned body)

  -- How the intake ends. A hit is a completed task whose result is that of the cache. A miss is a queued task
  -- whose payload is in the store, from which the scheduler rebuilds it. An exception leaves the
  -- tasks as they were.
  abbrev pub IsAccepted : Answer Failure IngestResult × CacheState S → Type 0
  IsAccepted (returned r, after) =
      (r.task_id ≡ outside.fresh_id)
      × ((row : Task) × (get_task outside.fresh_id after.db ≡ some row)
          × (((r.cache_hit ≡ true)
                × (row.status ≡ TaskStatus.completed)
                × (row.result_key ≡ some (result_key outside.fresh_id result_format_zip))
                × HasCachedResult after)
              ⊎ ((r.cache_hit ≡ false)
                  × (row.status ≡ TaskStatus.queued)
                  × (row.payload_key ≡ some (payload_key outside.fresh_id))
                  × ((blob : List ℕ) × ((store.get (payload_key outside.fresh_id) after.objects).0
                        ≡ returned blob)
                      × (rebuild_blob codec blob ≡ rebuilt payload)))))
  IsAccepted (raised e, after) = after.db.tasks ≡ before.db.tasks

  -- After the cache was asked.
  abbrev IsResolved : Answer Failure (Option String × Option IngestResult) × CacheState S → Type 0
  IsResolved (returned (cache_key, none), state) = state.db.tasks ≡ before.db.tasks
  IsResolved (returned (cache_key, some hit), state) = IsAccepted (returned hit, state)
  IsResolved (raised e, state) = state.db.tasks ≡ before.db.tasks

  get_task-tasks :
      (after db : Db)
      → after.tasks ≡ db.tasks
      → get_task outside.fresh_id after ≡ get_task outside.fresh_id db
  unfolding get_task
  get_task-tasks after db e = rw e refl

  module _ (keyed : IsKeyed store)
      (lossless : codec.loads (codec.dumps (header_of payload)) ≡ some (header_of payload))
      (names : AllSafe payload.uploads) (fresh : get_task outside.fresh_id before.db ≡ none) where
    with_placeholder-IsResolved :
        (cache_key : String) (records : Records) (intake : Intake) (state : CacheState S)
        → state.db.tasks ≡ before.db.tasks
        → IsResolved (with_placeholder cfg codec outside now cache_key records intake store state)
    unfolding with_placeholder
    with_placeholder-IsResolved cache_key records intake state e = go outside.placeholder
      where
        go :
            (answer : Answer Failure (Unit {0}))
            → IsResolved (
                placed cfg codec outside now cache_key
                  (refresh_of cfg outside.hashes records intake)
                  store
                  answer
                  state)
        go (raised x) = e
        go (returned _) =
            create_placeholder-tasks cfg store.objects now cache_key
              (refresh_of cfg outside.hashes records intake) state
            ∙ e

    module _ (records : Records)
        (hashed : compute_file_records cfg outside.hashes payload.uploads ≡ some records) where
      abbrev own_key : String
      own_key = outside.hashes.key_digest records (build_cache_options payload.fields)

      hit-IsResolved :
          (entry : CacheEntry) (state : CacheState S) (r : Hit × CacheState S)
          → state.db.tasks ≡ before.db.tasks
          → IsFound cfg store.objects now own_key before (some entry, state)
          → IsHit cfg store.objects now outside.fresh_id entry state r
          → IsResolved
              (proceed (λ hit. pure (some own_key, hit)) (hit_answer cfg codec outside now r))
      unfolding pure
      hit-IsResolved entry state (no_object, after) e found h = h ∙ e
      hit-IsResolved entry state (not_inserted, after) e found h = h ∙ e
      hit-IsResolved entry state (hit_row task, after) e (row, at, live, key, same) h =
          let (written, done, named, copied) = h in
          let (body, source, dest) = keyed.copy_copied _ _ state.objects after.objects copied in
          let from : (store.get (or_else row.object_key "") before.objects).0 ≡ returned body =
            rw (key, ← same) source in
          (
            refl,
            (
              task,
              written,
              inl (refl, done, named, (records, row, body, hashed, at, live, from, dest)),
            ),
          )

      looked_up-IsResolved :
          (intake : Intake) (r : Option CacheEntry × CacheState S)
          → r.1.db.tasks ≡ before.db.tasks
          → IsFound cfg store.objects now own_key before r
          → IsResolved (looked_up cfg codec outside now own_key records intake store r)
      unfolding ◌>>=◌ build_cache_hit
      looked_up-IsResolved intake (none, state) e found =
          with_placeholder-IsResolved own_key records intake state e
      looked_up-IsResolved intake (some entry, state) e found =
          elim (Bool-cases (nonempty entry.object_key)) [
            | inl q ↦ rw q (
                hit-IsResolved entry state _ e found (
                  create_hit_task-IsHit cfg store.objects now outside.fresh_id entry
                    intake.file_names _ state (get_task-tasks state.db before.db e ∙ fresh) q))
            | inr q ↦ rw q (with_placeholder-IsResolved own_key records intake state e)
          ]

      resolve_cache-IsResolved :
          (source : String) (skip_cache : Bool)
          → IsResolved (
              resolve_cache cfg codec outside now records
                (intake_of payload source)
                skip_cache
                (some store)
                before)
      unfolding resolve_cache pure
      resolve_cache-IsResolved source skip_cache =
          elim (Bool-cases (skip_cache || not cfg.cache_enabled)) [
            | inl q ↦ rw q refl
            | inr q ↦ rw q (
                looked_up-IsResolved (intake_of payload source) _
                  (lookup-tasks cfg store.objects now own_key before)
                  (lookup-IsFound cfg store.objects now own_key before))
          ]

    created-IsAccepted :
        (source : String) (cache_key : Option String) (state : CacheState S)
        → state.db.tasks ≡ before.db.tasks
        → (r : Answer Failure (Unit {0}) × CacheState S)
        → IsQueued cfg codec store outside.fresh_id (intake_of payload source) cache_key now state r
        → IsAccepted
            (proceed (λ _. pure (record { task_id = outside.fresh_id; cache_hit = false })) r)
    unfolding pure
    created-IsAccepted source cache_key state e (returned _, after) (found, stored) =
        (refl, (_, found, inr (refl, refl, refl, stored)))
    created-IsAccepted source cache_key state e (raised x, after) (same, _) =
        ap (λ d. d.tasks) same ∙ e

    resolved-IsAccepted :
        (source : String) (r : Answer Failure (Option String × Option IngestResult) × CacheState S)
        → IsResolved r
        → IsAccepted
            (proceed (after_cache cfg codec outside now (intake_of payload source) (some store)) r)
    unfolding pure ◌>>◌
    resolved-IsAccepted source (returned (cache_key, some hit), state) h = h
    resolved-IsAccepted source (returned (cache_key, none), state) h =
        created-IsAccepted source cache_key state h _ (
          create_task_with_payload-IsQueued cfg codec store outside.fresh_id
            (intake_of payload source) cache_key now state keyed lossless names
            (get_task-tasks state.db before.db h ∙ fresh) outside.inserted)
    resolved-IsAccepted source (raised e, state) h = h

    accepted :
        (source : String) (skip_cache : Bool)
        → IsAccepted
            (ingest_payload cfg codec outside now payload source skip_cache (some store) before)
    unfolding ingest_payload ◌>>=◌ pure raise
    accepted source skip_cache =
        elim (Option-cases (compute_file_records cfg outside.hashes payload.uploads)) [
          | inl q ↦ rw q refl
          | inr (records, q) ↦
              rw q (
                resolved-IsAccepted source _ (resolve_cache-IsResolved records q source skip_cache))
        ]

-- Where the store keeps its objects by key, JSON loads the header as it was dumped, the sanitiser
-- accepts the upload names and the fresh id is not in use: the intake of a payload either returns,
-- and then the task is completed, and under its own result key the store has the object of a live
-- row of the cache for the files and options of this payload, or it is queued with its payload in
-- the store, from which the scheduler rebuilds the same fields and files; or it raises, and the
-- tasks are as before.
pub ingest_payload-IsAccepted :
    {S : Type 0} (cfg : GatewaySettings) (codec : HeaderCodec) (outside : Outside) (now : ℕ)
    → (store : StorageProvider S) (payload : MultipartPayload) (before : CacheState S)
    → (source : String) (skip_cache : Bool) → IsKeyed store
    → codec.loads (codec.dumps (header_of payload)) ≡ some (header_of payload)
    → AllSafe payload.uploads
    → get_task outside.fresh_id before.db ≡ none
    → IsAccepted cfg codec outside now store payload before
        (ingest_payload cfg codec outside now payload source skip_cache (some store) before)
ingest_payload-IsAccepted cfg codec outside now store payload before source skip_cache keyed
      lossless names fresh =
    accepted cfg codec outside now store payload before keyed lossless names fresh source skip_cache
