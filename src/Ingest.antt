-- ===== src/Ingest.antt =====
-- src/mineru_gateway/gateway/ingest.py: a staged payload becomes a queued task, or a task that the
-- cache answers at once. A fresh task id is an argument, as are the hashes, JSON, and how the
-- database answers the insert.
pub mod Staging
pub mod Limits
pub mod Queued
pub mod Accepted
use mineru_gateway.Base.{
  ℕ, Bool, true, false, String, List, [], ◌∷◌, Option, none, some, ◌==◌, ◌&&◌, ◌||◌, not, is_some,
  nonempty, or_else, map, if◌then◌else◌,
}
use mineru_gateway.Base.Action.{
  Answer, returned, raised, Action, pure, raise, try_except, ◌>>=◌, ◌>>◌,
}
use mineru_gateway.Config.{GatewaySettings}
use mineru_gateway.Models.{CacheEntry, Task, Db}
use mineru_gateway.Payload.{Bytes, StagedUpload, MultipartPayload, HeaderCodec, pack_payload}
use mineru_gateway.Objects.{Failure, key_error, failure, StorageProvider, commit, in_store, discard}
use mineru_gateway.Tasks.Storage.{payload_key}
use mineru_gateway.Cache.Entries.{
  CacheState, Refresh, lookup, create_placeholder, Hit, hit_row, no_object, not_inserted,
  create_hit_task,
}
use mineru_gateway.Cache.Digests.{
  Options, Records, Hashes, compute_file_records, get_option, option_or, build_cache_options,
}
use mineru_gateway.Queue.Rows.{create_queued_task}
use mineru_gateway.Results.{Run, answered}

-- `IngestResult`, less the response.
pub record IngestResult : Type 0 where
  pub task_id : String
  pub cache_hit : Bool

-- `_should_skip_cache`, of the texts in lower case, and whether the second one contains `no-cache`.
unfoldable pub should_skip_cache : (force : String) (no_cache : Bool) → Bool
should_skip_cache force no_cache = force == "true" || force == "1" || force == "yes" || no_cache

-- What a task is created with.
pub record Intake : Type 0 where
  pub payload : MultipartPayload
  pub file_names : List String
  pub backend : String
  pub parse_method : String
  pub options : Options
  pub source : String

abbrev pub or_raise : {A S : Type 0} → Failure → Option A → Run S A
or_raise e none = raise e
or_raise e (some a) = pure a

module _ {S : Type 0} (cfg : GatewaySettings) (codec : HeaderCodec) where
  -- `_store_payload`
  unfoldable pub store_payload :
      (task_id : String) → MultipartPayload → Option (StorageProvider S) → Run S (Option String)
  store_payload task_id payload none = pure none
  store_payload task_id payload (some store) =
      or_raise (failure "payload") (pack_payload codec cfg payload) >>= λ blob.
      (in_store (store.put (payload_key task_id) blob) >> pure (some (payload_key task_id)))

  -- The insert of the row, as the database answers it.
  abbrev pub insert_task :
      (task_id : String)
      → Intake
      → (key cache_key : Option String) (inserted : Answer Failure (Unit {0})) (now : ℕ)
      → Run S (Unit {0})
  insert_task task_id intake key cache_key inserted now =
      answered inserted
      >> commit (
          create_queued_task task_id intake.file_names intake.backend intake.parse_method
            intake.options key intake.source cache_key now)

  abbrev pub discard_payload : Option (StorageProvider S) → Option String → Run S (Unit {0})
  discard_payload none key = pure tt
  discard_payload (some store) none = pure tt
  discard_payload (some store) (some key) = discard cfg store key

  -- `_create_task_with_payload`: the payload is stored, and the row inserted; where that raises, the
  -- object is deleted.
  unfoldable pub create_task_with_payload :
      (task_id : String)
      → Intake
      → (cache_key : Option String) → Option (StorageProvider S)
      → (inserted : Answer Failure (Unit {0})) (now : ℕ) → Run S (Unit {0})
  create_task_with_payload task_id intake cache_key store inserted now =
      store_payload task_id intake.payload store >>= λ key.
      (try_except (insert_task task_id intake key cache_key inserted now)
        (λ e. (discard_payload store key >> raise e)))

-- The default of a field that the request does not name.
abbrev pub option_text : String → String → Options → String
option_text name fallback options = option_or (get_option name options) fallback

-- The outside of one request: the hashes, the fresh id, and how the database answers the insert of
-- the task and that of the placeholder.
pub record Outside : Type 0 where
  pub hashes : Hashes
  pub fresh_id : String
  pub inserted : Answer Failure (Unit {0})
  pub placeholder : Answer Failure (Unit {0})

abbrev pub refresh_of : GatewaySettings → Hashes → Records → Intake → Refresh
refresh_of cfg hashes records intake = record {
  content_sha256 = hashes.records_digest records;
  options_hash = hashes.options_digest intake.options;
  backend = intake.backend;
  parse_method = intake.parse_method;
  effort = option_text "effort" "medium" intake.options;
  result_format = "zip";
  ttl_seconds = some cfg.cache_ttl_seconds;
}

abbrev pub intake_of : MultipartPayload → (source : String) → Intake
intake_of payload source =
    let options = build_cache_options payload.fields in
    record {
      payload = payload;
      file_names = map (λ u. u.upload_name) payload.uploads;
      backend = option_text "backend" "hybrid-engine" options;
      parse_method = option_text "parse_method" "auto" options;
      options = options;
      source = source;
    }

abbrev pub is_returned : Answer Failure (Unit {0}) → Bool
is_returned (returned _) = true
is_returned (raised e) = false

-- The exception of the insert.
abbrev pub insert_error : Answer Failure (Unit {0}) → Failure
insert_error (returned _) = key_error
insert_error (raised e) = e

module _ {S : Type 0} (cfg : GatewaySettings) (codec : HeaderCodec) (outside : Outside)
    (now : ℕ) where
  open outside use {hashes, fresh_id, inserted, placeholder}

  -- The task of a hit, which raises where the object of the cache is gone or the insert raises.
  abbrev pub hit_answer : Hit × CacheState S → Answer Failure (Option IngestResult) × CacheState S
  hit_answer (no_object, after) = (raised key_error, after)
  hit_answer (not_inserted, after) = (raised (insert_error inserted), after)
  hit_answer (hit_row task, after) =
      (returned (some (record { task_id = fresh_id; cache_hit = true })), after)

  unfoldable pub build_cache_hit :
      CacheEntry → (file_names : List String) → StorageProvider S → Run S (Option IngestResult)
  build_cache_hit entry file_names store state =
      hit_answer (
        create_hit_task cfg store.objects fresh_id entry file_names (is_returned inserted) now
          state)

  -- A placeholder that could not be written is passed over: the task has no cache key then.
  abbrev pub placed :
      (cache_key : String)
      → Refresh
      → StorageProvider S
      → Answer Failure (Unit {0})
      → Run S (Option String × Option IngestResult)
  placed cache_key refresh store (raised e) state = (returned (none, none), state)
  placed cache_key refresh store (returned _) state = (
    returned (some cache_key, none),
    (create_placeholder cfg store.objects cache_key refresh now state).1,
  )

  unfoldable pub with_placeholder :
      (cache_key : String)
      → Records
      → Intake
      → StorageProvider S
      → Run S (Option String × Option IngestResult)
  with_placeholder cache_key records intake store =
      placed cache_key (refresh_of cfg hashes records intake) store placeholder

  abbrev pub looked_up :
      (cache_key : String)
      → Records
      → Intake
      → StorageProvider S
      → Option CacheEntry × CacheState S
      → Answer Failure (Option String × Option IngestResult) × CacheState S
  looked_up cache_key records intake store (some entry, state) =
      if nonempty entry.object_key
      then (build_cache_hit entry intake.file_names store >>= λ hit. pure (some cache_key, hit))
          state
      else with_placeholder cache_key records intake store state
  looked_up cache_key records intake store (none, state) =
      with_placeholder cache_key records intake store state

  -- `_resolve_cache`: the cache key for the task, and the result of a hit.
  unfoldable pub resolve_cache :
      Records
      → Intake
      → (skip_cache : Bool) → Option (StorageProvider S)
      → Run S (Option String × Option IngestResult)
  resolve_cache records intake skip_cache none = pure (none, none)
  resolve_cache records intake skip_cache (some store) =
      if skip_cache || not cfg.cache_enabled then pure (none, none) else (λ state.
        let cache_key = hashes.key_digest records intake.options in
        looked_up cache_key records intake store (lookup cfg store.objects cache_key now state))

  -- After the cache: a hit is the result, and else the task is created.
  abbrev pub after_cache :
      Intake → Option (StorageProvider S) → Option String × Option IngestResult → Run S IngestResult
  after_cache intake store (cache_key, some hit) = pure hit
  after_cache intake store (cache_key, none) =
      create_task_with_payload cfg codec fresh_id intake cache_key store inserted now
      >> pure (record { task_id = fresh_id; cache_hit = false })

  -- `ingest_payload`, of a payload that `_validate_http_client_policy` lets pass.
  unfoldable pub ingest_payload :
      MultipartPayload
      → (source : String) (skip_cache : Bool) → Option (StorageProvider S)
      → Run S IngestResult
  ingest_payload payload source skip_cache store =
      let intake = intake_of payload source in
      or_raise (failure "multipart upload") (compute_file_records cfg hashes payload.uploads)
      >>= λ records.
          (resolve_cache records intake skip_cache store >>= λ found.
          after_cache intake store found)
