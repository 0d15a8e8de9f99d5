-- ===== src/Cache/Races.antt =====
-- Writers of one cache row that overlap: each conditional write names the generation that it read,
-- and matches no row once another writer has moved the generation.
use mineru_gateway.Base.{ℕ, ◌+◌, ◌≡◌, false, String, some, arith}
use mineru_gateway.Base.Table.{All}
use mineru_gateway.Base.Table.Laws.{count_where-eq_zero}
use mineru_gateway.Base.Table.Idle.{update_where-idle, delete_where-idle, All-after_update}
use mineru_gateway.Config.{GatewaySettings}
use mineru_gateway.Models.{Db}
use mineru_gateway.Cache.Entries.{
  ObjectStore, empty_generation, at_generation, claim_object, claim_invalidation, remove_generation,
}

module _ {S : Type 0} (cfg : GatewaySettings) (store : ObjectStore S) where
  claim_object-idle :
      (cache_key dest result_format : String) (g : ℕ) (db : Db)
      → All (λ e. empty_generation cache_key g e ≡ false) db.cache
      → claim_object cfg store cache_key dest result_format g db ≡ (false, db)
  unfolding claim_object
  claim_object-idle cache_key dest result_format g db h = rw (
    count_where-eq_zero (empty_generation cache_key g) db.cache h,
    update_where-idle (empty_generation cache_key g) _ db.cache h,
  )

  remove_generation-idle :
      (cache_key : String) (g : ℕ) (db : Db)
      → All (λ e. empty_generation cache_key g e ≡ false) db.cache
      → remove_generation cfg store cache_key g db ≡ (false, db)
  unfolding remove_generation
  remove_generation-idle cache_key g db h = rw (
    count_where-eq_zero (empty_generation cache_key g) db.cache h,
    delete_where-idle (empty_generation cache_key g) db.cache h,
  )

  -- A populate that read the generation before an invalidation claimed it writes nothing: it
  -- cannot bring an object back into the invalidated row.
  pub populate_after_invalidation :
      (cache_key dest result_format : String) (g : ℕ) (db : Db)
      → claim_object cfg store cache_key dest result_format g
          (claim_invalidation cfg store cache_key g db)
        ≡ (false, claim_invalidation cfg store cache_key g db)
  unfolding claim_invalidation empty_generation at_generation
  populate_after_invalidation cache_key dest result_format g db =
      claim_object-idle cache_key dest result_format g (claim_invalidation cfg store cache_key g db)
        (All-after_update (λ e. empty_generation cache_key g e ≡ false) (at_generation cache_key g)
          (λ e. record e { object_key = some ""; object_generation = g + 1 }) db.cache
          (λ e h. ground arith) (λ e h. ground arith))

  -- Of two populates that read the same generation, the second writes nothing.
  pub populate_after_populate :
      (cache_key dest other result_format : String) (g : ℕ) (db : Db)
      → let (_, after) = claim_object cfg store cache_key dest result_format g db in
        claim_object cfg store cache_key other result_format g after ≡ (false, after)
  unfolding claim_object empty_generation
  populate_after_populate cache_key dest other result_format g db =
      claim_object-idle cache_key other result_format g
        (claim_object cfg store cache_key dest result_format g db).1
        (All-after_update (λ e. empty_generation cache_key g e ≡ false)
          (empty_generation cache_key g)
          (λ e. record e {
            object_key = some dest;
            result_format = some result_format;
            object_generation = g + 1;
          })
          db.cache (λ e h. ground arith) (λ e h. h))

  -- An invalidation does not remove a row that a populate of the later generation has filled.
  pub remove_after_populate :
      (cache_key dest result_format : String) (g : ℕ) (db : Db)
      → let (_, after) = claim_object cfg store cache_key dest result_format g db in
        remove_generation cfg store cache_key g after ≡ (false, after)
  unfolding claim_object empty_generation
  remove_after_populate cache_key dest result_format g db =
      remove_generation-idle cache_key g
        (claim_object cfg store cache_key dest result_format g db).1
        (All-after_update (λ e. empty_generation cache_key g e ≡ false)
          (empty_generation cache_key g)
          (λ e. record e {
            object_key = some dest;
            result_format = some result_format;
            object_generation = g + 1;
          })
          db.cache (λ e h. ground arith) (λ e h. h))
