-- ===== src/Tests/CacheTests.antt =====
-- Runs of the cache, with an object store that is a list of keys.
use mineru_gateway.Base.{
  ◌≤◌, ◌≡◌, ◌⊎◌, refl, true, false, String, List, [], ◌∷◌, none, some, ◌==◌, arith,
}
use mineru_gateway.Base.Table.{count_where, find_where, delete_where, update_where}
use mineru_gateway.Models.{CacheEntry, Db}
use mineru_gateway.Cache.Entries.{
  ObjectStore, CacheState, has_cache_key, get_entry, lookup, invalidate, claim_object,
  claim_invalidation, remove_generation, empty_generation, at_generation, safe_delete,
}
use mineru_gateway.Cache.Hits.{Outcome, lookup_serves, invalidate_removes}
use mineru_gateway.Cache.Races.{
  populate_after_invalidation, populate_after_populate, remove_after_populate,
}
use mineru_gateway.Tests.Data.{settings}

-- The store as the list of the keys that it holds; a delete always succeeds.
abbrev key_store : ObjectStore (List String)
key_store = record {
  copy = λ src dest keys. (elim (find_where (λ k. k == src) keys) [
    | none ↦ none
    | some _ ↦ some (dest ∷ keys)
  ]);
  delete = λ key keys. (true, delete_where (λ k. k == key) keys);
}

abbrev filled_entry : CacheEntry
filled_entry = record {
  cache_key = "k";
  content_sha256 = "c";
  options_hash = "o";
  backend = "pipeline";
  parse_method = "auto";
  effort = "";
  object_key = some "cache/k/1";
  object_generation = 1;
  result_format = some "zip";
  size_bytes = none;
  hit_count = 0;
  expires_at = some 100;
  created_at = 0;
}

abbrev empty_entry : CacheEntry
empty_entry = let e = filled_entry in record e { object_key = some ""; object_generation = 0 }

abbrev cache_db : CacheEntry → Db
cache_db e = record { workers = []; tasks = []; cache = e ∷ []; events = [] }

abbrev filled_state : CacheState (List String)
filled_state = record { db = cache_db filled_entry; objects = "cache/k/1" ∷ [] }

lookup_serves_example :
    ((get_entry "k" filled_state.db ≡ none)
      × (lookup settings key_store "k" 10 filled_state ≡ (none, filled_state)))
    ⊎ ((row : CacheEntry) × (get_entry "k" filled_state.db ≡ some row)
        × Outcome settings key_store 10 "k" row filled_state
            (lookup settings key_store "k" 10 filled_state))
lookup_serves_example = lookup_serves settings key_store 10 "k" filled_state

one_entry : count_where (has_cache_key "k") (filled_entry ∷ []) ≤ 1
unfolding count_where
one_entry = omega arith

reports_success : (invalidate settings key_store "k" filled_state).0 ≡ true
unfolding invalidate get_entry find_where claim_invalidation remove_generation update_where
    count_where safe_delete empty_generation at_generation
reports_success = refl

invalidate_removes_example :
    get_entry "k" (invalidate settings key_store "k" filled_state).1.db ≡ none
invalidate_removes_example =
    invalidate_removes settings key_store "k" filled_state one_entry reports_success

populate_after_invalidation_example :
    claim_object settings key_store "k" "cache/k/2" "zip" 0
      (claim_invalidation settings key_store "k" 0 (cache_db empty_entry))
    ≡ (false, claim_invalidation settings key_store "k" 0 (cache_db empty_entry))
populate_after_invalidation_example =
    populate_after_invalidation settings key_store "k" "cache/k/2" "zip" 0 (cache_db empty_entry)

populate_after_populate_example :
    let (_, after) =
      claim_object settings key_store "k" "cache/k/2" "zip" 0 (cache_db empty_entry) in
    claim_object settings key_store "k" "cache/k/3" "zip" 0 after ≡ (false, after)
populate_after_populate_example =
    populate_after_populate settings key_store "k" "cache/k/2" "cache/k/3" "zip" 0
      (cache_db empty_entry)

remove_after_populate_example :
    let (_, after) =
      claim_object settings key_store "k" "cache/k/2" "zip" 0 (cache_db empty_entry) in
    remove_generation settings key_store "k" 0 after ≡ (false, after)
remove_after_populate_example =
    remove_after_populate settings key_store "k" "cache/k/2" "zip" 0 (cache_db empty_entry)
