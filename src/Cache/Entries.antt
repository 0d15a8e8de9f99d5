-- ===== src/Cache/Entries.antt =====
-- The operations of `CacheService` on the rows of the cache and on the object store. Each reads the
-- clock once as `now`.
use mineru_gateway.Base.{
  ℕ, ◌+◌, Bool, true, false, String, List, [], ◌∷◌, ◌++◌, Option, none, some, ◌==◌, ◌&&◌, not, ltb,
  eqb, nonempty, or_else, before, if◌then◌else◌, seconds,
}
use mineru_gateway.Base.Table.{
  count_where, find_where, update_where, delete_where, select_where, take,
}
use mineru_gateway.Config.{GatewaySettings}
use mineru_gateway.Models.{CacheEntry, Task, Db}
use mineru_gateway.Tasks.Status.{TaskStatus}
use mineru_gateway.Tasks.Storage.{result_key, cache_object_key, result_format_zip}

-- What the cache uses of the object store: `copy`, where `none` is the `KeyError` of a missing
-- source, and `delete`, which tells whether it raised.
pub record ObjectStore (S : Type 0) : Type 0 where
  pub copy : (src dest : String) → S → Option S
  pub delete : (key : String) → S → Bool × S

-- The rows and the objects.
pub record CacheState (S : Type 0) : Type 0 where
  pub db : Db
  pub objects : S

abbrev pub has_cache_key : String → CacheEntry → Bool
has_cache_key k e = e.cache_key == k

unfoldable pub get_entry : String → Db → Option CacheEntry
get_entry cache_key db = find_where (has_cache_key cache_key) db.cache

-- An update of the rows that satisfy a condition.
abbrev pub write_cache : (CacheEntry → Bool) → (CacheEntry → CacheEntry) → Db → Db
write_cache p f db = record db { cache = update_where p f db.cache }

-- `_row_is_expired`
unfoldable pub row_is_expired : (now : ℕ) → CacheEntry → Bool
row_is_expired now e = before e.expires_at now

-- The arguments of `create_placeholder`.
pub record Refresh : Type 0 where
  pub content_sha256 : String
  pub options_hash : String
  pub backend : String
  pub parse_method : String
  pub effort : String
  pub result_format : String
  pub ttl_seconds : Option ℕ

-- `now + ttl if ttl else None`
abbrev pub expiry : (now ttl : ℕ) → Option ℕ
expiry now ttl = if eqb ttl 0 then none else some (now + seconds ttl)

-- `new or old` on texts.
abbrev pub text_or : String → String → String
text_or new old = if nonempty (some new) then new else old

-- The row that `_reset_expired_row` writes; `none` is a call without arguments.
unfoldable pub reset_row : GatewaySettings → (now : ℕ) → Option Refresh → CacheEntry → CacheEntry
reset_row cfg now none e = record e {
  object_key = some "";
  object_generation = e.object_generation + 1;
  hit_count = 0;
}
reset_row cfg now (some r) e = record e {
  object_key = some "";
  object_generation = e.object_generation + 1;
  hit_count = 0;
  content_sha256 = r.content_sha256;
  options_hash = text_or r.options_hash e.options_hash;
  backend = text_or r.backend e.backend;
  parse_method = text_or r.parse_method e.parse_method;
  effort = text_or r.effort e.effort;
  result_format = if nonempty (some r.result_format) then some r.result_format else e.result_format;
  expires_at = expiry now (or_else r.ttl_seconds cfg.cache_ttl_seconds);
}

-- `_build_placeholder_row`: here a time to live of zero means that of the settings.
unfoldable pub placeholder_row :
    GatewaySettings → (cache_key : String) → Refresh → (now : ℕ) → CacheEntry
placeholder_row cfg cache_key r now = record {
  cache_key = cache_key;
  content_sha256 = r.content_sha256;
  options_hash = r.options_hash;
  backend = r.backend;
  parse_method = r.parse_method;
  effort = r.effort;
  object_key = some "";
  object_generation = 0;
  result_format = some r.result_format;
  size_bytes = none;
  hit_count = 0;
  expires_at =
      expiry now
        (let ttl = or_else r.ttl_seconds 0 in if eqb ttl 0 then cfg.cache_ttl_seconds else ttl);
  created_at = now;
}

-- The rows of the generation with no object, of the WHERE clauses of `populate_from_task` and
-- `invalidate`.
unfoldable pub empty_generation : (cache_key : String) (generation : ℕ) → CacheEntry → Bool
empty_generation cache_key generation e =
    e.cache_key == cache_key && eqb e.object_generation generation && not (nonempty e.object_key)

unfoldable pub at_generation : (cache_key : String) (generation : ℕ) → CacheEntry → Bool
at_generation cache_key generation e =
    e.cache_key == cache_key && eqb e.object_generation generation

-- How `create_hit_task` ends: with its row, with the `KeyError` of a missing cache object, or with the
-- exception of the insert.
pub data Hit : Type 0 where
  hit_row : Task → Hit
  no_object : Hit
  not_inserted : Hit

module _ {S : Type 0} (cfg : GatewaySettings) (store : ObjectStore S) where
  open store use {copy, delete}

  -- `safe_delete`: no key is a success.
  unfoldable pub safe_delete : Option String → S → Bool × S
  safe_delete key objects =
      if nonempty key then delete (or_else key "") objects else (true, objects)

  -- An expired row gives up its object, and the object is deleted.
  unfoldable pub expire_entry :
      CacheEntry → Option Refresh → (now : ℕ) → CacheState S → CacheState S
  unfolding reset_row safe_delete
  expire_entry row refresh now state = record {
    db = write_cache (has_cache_key row.cache_key) (reset_row cfg now refresh) state.db;
    objects = (safe_delete row.object_key state.objects).1;
  }

  -- `lookup` for the row that is found.
  unfoldable pub lookup_row :
      CacheEntry → (now : ℕ) → CacheState S → Option CacheEntry × CacheState S
  unfolding expire_entry
  lookup_row row now state =
      if row_is_expired now row
      then (none, expire_entry row none now state)
      else (if nonempty row.object_key
          then (
            some (record row { hit_count = row.hit_count + 1 }),
            record state {
              db =
                  write_cache (has_cache_key row.cache_key)
                    (λ e. record e { hit_count = e.hit_count + 1 }) state.db;
            },
          )
          else (none, state))

  unfoldable pub lookup :
      (cache_key : String) (now : ℕ) → CacheState S → Option CacheEntry × CacheState S
  lookup cache_key now state = elim (get_entry cache_key state.db) [
    | none ↦ (none, state)
    | some row ↦ lookup_row row now state
  ]

  -- `create_placeholder`, without the race of two inserts of one key, which the primary key decides.
  unfoldable pub create_placeholder :
      (cache_key : String) → Refresh → (now : ℕ) → CacheState S → Option CacheEntry × CacheState S
  unfolding expire_entry placeholder_row
  create_placeholder cache_key refresh now state = elim (get_entry cache_key state.db) [
    | none ↦
        let row = placeholder_row cfg cache_key refresh now in
        let db = state.db in
        (some row, record state { db = record db { cache = db.cache ++ row ∷ [] } })
    | some row ↦
        let reset = expire_entry row (some refresh) now state in
        if row_is_expired now row then (get_entry cache_key reset.db, reset) else (some row, state)
  ]

  -- The conditional UPDATE of `populate_from_task`, with the generation that it read: whether a row
  -- matched, and the rows after it.
  unfoldable pub claim_object :
      (cache_key dest result_format : String) (expected_generation : ℕ) → Db → Bool × Db
  claim_object cache_key dest result_format expected_generation db = (
    ltb 0 (count_where (empty_generation cache_key expected_generation) db.cache),
    write_cache (empty_generation cache_key expected_generation)
        (λ e. record e {
          object_key = some dest;
          result_format = some result_format;
          object_generation = expected_generation + 1;
        })
        db,
  )

  -- A populate that lost deletes its copy.
  abbrev pub after_claim_object : (dest : String) → Bool × Db → S → CacheState S
  after_claim_object dest (true, db) objects = record { db = db; objects = objects }
  after_claim_object dest (false, db) objects = record {
    db = db;
    objects = (safe_delete (some dest) objects).1;
  }

  unfoldable pub populate_copied :
      (cache_key dest result_format : String)
      → Option CacheEntry
      → (objects : S) → Db
      → CacheState S
  populate_copied cache_key dest result_format none objects db = record {
    db = db;
    objects = (safe_delete (some dest) objects).1;
  }
  populate_copied cache_key dest result_format (some row) objects db =
      after_claim_object dest (claim_object cache_key dest result_format row.object_generation db)
        objects

  -- `populate_from_task`, with the fresh text that it draws for the object's key.
  unfoldable pub populate_from_task :
      (task_id cache_key result_format generation : String) → CacheState S → CacheState S
  populate_from_task task_id cache_key result_format generation state =
      let dest = cache_object_key cache_key generation in
      elim (copy (result_key task_id result_format_zip) dest state.objects) [
        | none ↦ state
        | some objects ↦
            populate_copied cache_key dest result_format (get_entry cache_key state.db) objects
              state.db
      ]

  -- The task of `create_hit_task`.
  unfoldable pub hit_task :
      (task_id : String)
      → CacheEntry
      → (file_names : List String) (dest_key : String) (now : ℕ) → Task
  hit_task task_id cache file_names dest_key now = record {
    task_id = task_id;
    worker_id = none;
    upstream_task_id = none;
    upstream_base_url = none;
    backend = cache.backend;
    parse_method = cache.parse_method;
    file_names = file_names;
    source = "cache";
    status = TaskStatus.completed;
    payload_key = none;
    result_key = some dest_key;
    result_format = cache.result_format;
    cache_key = some cache.cache_key;
    error = none;
    options_blob = none;
    dispatch_started_at = none;
    next_poll_at = none;
    client_expired_at = none;
    created_at = now;
    started_at = none;
    completed_at = some now;
    updated_at = now;
  }

  abbrev add_task : Task → Db → Db
  add_task t db = record db { tasks = db.tasks ++ t ∷ [] }

  -- The insert of a hit's row, as the database answers it; where it raises, the copied object is
  -- deleted.
  abbrev pub insert_hit :
      Task → (copied : Option String) (inserted : Bool) → CacheState S → Hit × CacheState S
  insert_hit task copied true state =
      (hit_row task, record { db = add_task task state.db; objects = state.objects })
  insert_hit task copied false state =
      (not_inserted, record state { objects = (safe_delete copied state.objects).1 })

  unfoldable pub create_hit_task :
      (task_id : String)
      → CacheEntry
      → (file_names : List String) (inserted : Bool) (now : ℕ) → CacheState S
      → Hit × CacheState S
  unfolding hit_task
  create_hit_task task_id cache file_names inserted now state =
      let dest_key = result_key task_id result_format_zip in
      let task = hit_task task_id cache file_names dest_key now in
      let copied = copy (or_else cache.object_key "") dest_key state.objects in
      if nonempty cache.object_key
      then (elim copied [
        | none ↦ (no_object, state)
        | some objects ↦
            insert_hit task (some dest_key) inserted (record { db = state.db; objects = objects })
      ])
      else insert_hit task none inserted state

  -- The first transaction of `invalidate`: the row gives up its object.
  unfoldable pub claim_invalidation : (cache_key : String) (generation : ℕ) → Db → Db
  claim_invalidation cache_key generation =
      write_cache (at_generation cache_key generation)
        (λ e. record e { object_key = some ""; object_generation = generation + 1 })

  -- The last transaction of `invalidate`: the row goes, if it still has the generation.
  unfoldable pub remove_generation : (cache_key : String) (generation : ℕ) → Db → Bool × Db
  remove_generation cache_key generation db = (
    ltb 0 (count_where (empty_generation cache_key generation) db.cache),
    record db { cache = delete_where (empty_generation cache_key generation) db.cache },
  )

  abbrev pub after_delete :
      (cache_key : String) (generation : ℕ) → Db → Bool × S → Bool × CacheState S
  after_delete cache_key generation db (false, objects) =
      (false, record { db = db; objects = objects })
  after_delete cache_key generation db (true, objects) =
      let (removed, after) = remove_generation cache_key generation db in
      (removed, record { db = after; objects = objects })

  -- `invalidate`, with no other writer between its transactions; the row was read in the first of
  -- them, so its claim finds it.
  unfoldable pub invalidate : (cache_key : String) → CacheState S → Bool × CacheState S
  invalidate cache_key state = elim (get_entry cache_key state.db) [
    | none ↦ (false, state)
    | some row ↦
        after_delete cache_key (row.object_generation + 1)
          (claim_invalidation cache_key row.object_generation state.db)
          (safe_delete row.object_key state.objects)
  ]

  -- One row of `sweep_expired`: whether it was removed.
  abbrev pub sweep_deleted : CacheEntry → Db → Bool × S → Bool × CacheState S
  sweep_deleted row db (false, objects) = (false, record { db = db; objects = objects })
  sweep_deleted row db (true, objects) =
      elim (get_entry row.cache_key db) as (λ _. Bool × CacheState S) [
        | none ↦ (false, record { db = db; objects = objects })
        | some db_row ↦
            if eqb db_row.object_generation row.object_generation
            then (
              true,
              record {
                db = record db { cache = delete_where (has_cache_key row.cache_key) db.cache };
                objects = objects;
              },
            )
            else (false, record { db = db; objects = objects })
      ]

  unfoldable pub sweep_each : List CacheEntry → CacheState S → ℕ × CacheState S
  sweep_each [] state = (0, state)
  sweep_each (row ∷ rows) state =
      let (removed, after) =
        sweep_deleted row state.db (safe_delete row.object_key state.objects) in
      let (count, final) = sweep_each rows after in (if removed then count + 1 else count, final)

  -- `sweep_expired`
  unfoldable pub sweep_expired : (now : ℕ) → CacheState S → ℕ × CacheState S
  sweep_expired now state =
      let db = state.db in
      sweep_each (take 100 (select_where (λ e. before e.expires_at now) db.cache)) state
