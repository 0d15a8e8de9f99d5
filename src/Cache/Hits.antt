-- ===== src/Cache/Hits.antt =====
-- What a lookup serves, and what an invalidation leaves.
use mineru_gateway.Base.{
  ℕ, ◌+◌, ◌≤◌, ◌≡◌, ◌⊎◌, inl, inr, refl, ap, Bool, true, false, String, Option, none, some, ◌==◌,
  nonempty, arith, Bool-cases, Option-cases, eq_iff,
}
use mineru_gateway.Base.Table.{All, count_where}
use mineru_gateway.Base.Table.Laws.{find_where-All, All-intro}
use mineru_gateway.Base.Table.Keys.{find_where-update, find_where-only, All-mono}
use mineru_gateway.Base.Table.Idle.{All-after_update-All, find_where-deleted}
use mineru_gateway.Config.{GatewaySettings}
use mineru_gateway.Models.{CacheEntry, Db}
use mineru_gateway.Cache.Entries.{
  ObjectStore, CacheState, has_cache_key, get_entry, row_is_expired, reset_row, lookup, lookup_row,
  expire_entry, safe_delete, invalidate, after_delete, claim_invalidation, remove_generation,
  empty_generation, at_generation, write_cache,
}

module _ {S : Type 0} (cfg : GatewaySettings) (store : ObjectStore S) (now : ℕ) where
  found_key :
      (k : String) (db : Db) {row : CacheEntry} → get_entry k db ≡ some row → row.cache_key ≡ k
  unfolding get_entry
  found_key k db {row} e =
      (eq_iff row.cache_key k).0
        (find_where-All {0, 0} (λ _. Unit) (has_cache_key k) db.cache {r = row}
          (All-intro (λ _. Unit) db.cache (λ _. tt)) e).1

  -- A served row, and the state after it: the row is live, counted, and stored as it is served.
  pub record IsServed (k : String) (state : CacheState S) (e : CacheEntry) (after : CacheState S)
      : Type 0 where
    pub key : e.cache_key ≡ k
    pub filled : nonempty e.object_key ≡ true
    pub live : row_is_expired now e ≡ false
    pub stored : get_entry k after.db ≡ some e
    pub objects : after.objects ≡ state.objects

  -- What a row that is not served is: expired, and then reset with its object deleted, or empty.
  pub record IsReset (k : String) (row : CacheEntry) (state after : CacheState S) : Type 0 where
    pub expired : row_is_expired now row ≡ true
    pub stored : get_entry k after.db ≡ some (reset_row cfg now none row)
    pub objects : after.objects ≡ (safe_delete cfg store row.object_key state.objects).1

  -- What a lookup makes of the row that it finds.
  abbrev pub Outcome :
      (k : String) (row : CacheEntry) (state : CacheState S)
      → Option CacheEntry × CacheState S
      → Type 0
  Outcome k row state (served, after) =
      ((e : CacheEntry) × (served ≡ some e) × IsServed k state e after)
      ⊎ ((served ≡ none) × IsReset k row state after)
      ⊎ ((served ≡ none) × (nonempty row.object_key ≡ false) × (after ≡ state))

  update_found :
      (k j : String) (f : CacheEntry → CacheEntry) (db : Db) {row : CacheEntry}
      → j ≡ k
      → ((e : CacheEntry) → (f e).cache_key ≡ e.cache_key)
      → get_entry k db ≡ some row
      → get_entry k (write_cache (has_cache_key j) f db) ≡ some (f row)
  unfolding get_entry
  update_found k j f db same keep e =
      rw same (find_where-update (has_cache_key k) f db.cache (λ v. ap (λ x. x == k) (keep v)) e)

  lookup_row-Outcome :
      (k : String) (row : CacheEntry) (state : CacheState S)
      → get_entry k state.db ≡ some row
      → Outcome k row state (lookup_row cfg store row now state)
  unfolding lookup_row expire_entry get_entry row_is_expired reset_row
  lookup_row-Outcome k row state e =
      let same = found_key k state.db e in
      elim (Bool-cases (row_is_expired now row)) [
        | inl x ↦ rw x (
            inr (
              inl (
                refl,
                record {
                  expired = x;
                  stored =
                      update_found k row.cache_key (reset_row cfg now none) state.db same
                        (λ v. refl) e;
                  objects = refl;
                },
              )))
        | inr x ↦ rw x (elim (Bool-cases (nonempty row.object_key)) [
          | inr y ↦ rw y (inr (inr (refl, refl, refl)))
          | inl y ↦ rw y (
              inl (
                record row { hit_count = row.hit_count + 1 },
                refl,
                record {
                  key = same;
                  filled = y;
                  live = x;
                  stored =
                      update_found k row.cache_key (λ v. record v { hit_count = v.hit_count + 1 })
                        state.db same (λ v. refl) e;
                  objects = refl;
                },
              ))
        ])
      ]

  -- A lookup of a key with no row is a miss and changes nothing. Else it serves the row as it is then
  -- stored, and only with an object and before its expiry; or the row is expired, and it is emptied
  -- with its generation raised, and its object deleted; or the row has no object, and nothing changes.
  pub lookup_serves :
      (k : String) (state : CacheState S)
      → ((get_entry k state.db ≡ none) × (lookup cfg store k now state ≡ (none, state)))
        ⊎ ((row : CacheEntry) × (get_entry k state.db ≡ some row)
            × Outcome k row state (lookup cfg store k now state))
  unfolding lookup
  lookup_serves k state = elim (Option-cases (get_entry k state.db)) [
    | inl e ↦ inl (e, rw (e, lookup))
    | inr (row, e) ↦ inr (row, e, rw (e, lookup) (lookup_row-Outcome k row state e))
  ]

module _ {S : Type 0} (cfg : GatewaySettings) (store : ObjectStore S) where
  -- After the claim of an invalidation the rows with the key are those that it removes.
  claimed_empty :
      (k : String) (g : ℕ) (db : Db)
      → All (λ e. has_cache_key k e ≡ true → e.object_generation ≡ g) db.cache
      → All
          (λ e. has_cache_key k e ≡ true → empty_generation k (g + 1) e ≡ true)
          (claim_invalidation cfg store k g db).cache
  unfolding claim_invalidation at_generation empty_generation
  claimed_empty k g db h =
      All-after_update-All (λ e. has_cache_key k e ≡ true → empty_generation k (g + 1) e ≡ true)
        (at_generation k g) (λ e. record e { object_key = some ""; object_generation = g + 1 })
        db.cache (λ e m c. ground arith)
        (All-mono db.cache (λ e same m c. absurd (ground (arith, same c))) h)

  after_delete-removes :
      (k : String) (g : ℕ) (db : Db) (result : Bool × S)
      → All (λ e. has_cache_key k e ≡ true → empty_generation k g e ≡ true) db.cache
      → (after_delete cfg store k g db result).0 ≡ true
      → get_entry k (after_delete cfg store k g db result).1.db ≡ none
  unfolding get_entry remove_generation
  after_delete-removes k g db (false, objects) h done = absurd (ground arith)
  after_delete-removes k g db (true, objects) h done =
      find_where-deleted (has_cache_key k) (empty_generation k g) db.cache h

  generation_of_key :
      (k : String) (db : Db) {row : CacheEntry}
      → count_where (has_cache_key k) db.cache ≤ 1
      → get_entry k db ≡ some row
      → All (λ e. has_cache_key k e ≡ true → e.object_generation ≡ row.object_generation) db.cache
  unfolding get_entry
  generation_of_key k db {row} unique e =
      All-mono db.cache (λ x same c. rw (same c))
        (find_where-only (has_cache_key k) db.cache {r = row} unique e)

  -- An invalidation that reports success has removed the row, where no two rows have the key.
  pub invalidate_removes :
      (k : String) (state : CacheState S)
      → count_where (has_cache_key k) state.db.cache ≤ 1
      → (invalidate cfg store k state).0 ≡ true
      → get_entry k (invalidate cfg store k state).1.db ≡ none
  unfolding invalidate
  invalidate_removes k state unique done = elim (Option-cases (get_entry k state.db)) [
    | inl e ↦ rw (e, invalidate) e
    | inr (row, e) ↦
        let g = row.object_generation in
        let claimed = claim_invalidation cfg store k g state.db in
        let deleted = safe_delete cfg store row.object_key state.objects in
        let reported : (after_delete cfg store k (g + 1) claimed deleted).0 ≡ true =
          rw (e, invalidate) at done in
        rw (e, invalidate)
          (after_delete-removes k (g + 1) claimed deleted
            (claimed_empty k g state.db (generation_of_key k state.db unique e)) reported)
  ]
