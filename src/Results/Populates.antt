-- ===== src/Results/Populates.antt =====
-- The populating of the cache returns, and leaves the tasks and every result.
use mineru_gateway.Base.{
  ◌≡◌, inl, inr, refl, ◌&&◌, ◌∙◌, Bool, true, false, String, Option, none, some, nonempty, or_else,
  Bool-cases, Option-cases,
}
use mineru_gateway.Tasks.Keys.{result_key-ne-cache_object_key}
use mineru_gateway.Base.Action.{returned}
use mineru_gateway.Config.{GatewaySettings}
use mineru_gateway.Models.{Db, CacheEntry}
use mineru_gateway.Objects.{StorageProvider, IsKeyed}
use mineru_gateway.Tasks.Storage.{result_key, cache_object_key, result_format_zip}
use mineru_gateway.Cache.Entries.{
  CacheState, populate_from_task, populate_copied, after_claim_object, safe_delete, claim_object,
  get_entry,
}
use mineru_gateway.Results.{populate}

module _ {S : Type 0} (cfg : GatewaySettings) (store : StorageProvider S)
    (keyed : IsKeyed store) where
  -- Deleting a cached object leaves every result.
  safe_delete-get :
      (task_id cache_key generation : String) (s : S)
      → let key = result_key task_id result_format_zip in
        (store.get key
          (safe_delete cfg store.objects (some (cache_object_key cache_key generation)) s).1).0
        ≡ (store.get key s).0
  unfolding safe_delete
  safe_delete-get task_id cache_key generation s =
      elim (Bool-cases (nonempty (some (cache_object_key cache_key generation)))) [
        | inl q ↦
            rw q
              (keyed.delete_get _ _ s (result_key-ne-cache_object_key task_id cache_key generation))
        | inr q ↦ rw q refl
      ]

  -- Populating the cache leaves the tasks and every result.
  abbrev pub Leaves : CacheState S → CacheState S → Type 0
  Leaves before after =
      (after.db.tasks ≡ before.db.tasks)
      × ((task_id : String)
          → (let key = result_key task_id result_format_zip in
              (store.get key after.objects).0 ≡ (store.get key before.objects).0))

  after_claim_object-Leaves :
      (cache_key generation : String) (db after : Db) (objects : S) (won : Bool)
      → after.tasks ≡ db.tasks
      → Leaves
          (record { db = db; objects = objects })
          (after_claim_object cfg store.objects
            (cache_object_key cache_key generation)
            (won, after)
            objects)
  after_claim_object-Leaves cache_key generation db after objects true e = (e, λ task_id. refl)
  after_claim_object-Leaves cache_key generation db after objects false e =
      (e, λ task_id. safe_delete-get task_id cache_key generation objects)

  populate_copied-Leaves :
      (cache_key generation result_format : String) (row : Option CacheEntry) (objects : S)
      (db : Db)
      → Leaves
          (record { db = db; objects = objects })
          (populate_copied cfg store.objects cache_key
            (cache_object_key cache_key generation)
            result_format
            row
            objects
            db)
  unfolding populate_copied claim_object
  populate_copied-Leaves cache_key generation result_format none objects db =
      (refl, λ task_id. safe_delete-get task_id cache_key generation objects)
  populate_copied-Leaves cache_key generation result_format (some row) objects db =
      after_claim_object-Leaves cache_key generation db _ objects _ refl

  populate_from_task-Leaves :
      (task_id cache_key generation : String) (before : CacheState S)
      → Leaves before (
          populate_from_task cfg store.objects task_id cache_key result_format_zip generation
            before)
  unfolding populate_from_task
  populate_from_task-Leaves task_id cache_key generation before =
      let dest = cache_object_key cache_key generation in
      elim (Option-cases
        (store.objects.copy (result_key task_id result_format_zip) dest before.objects)) [
          | inl none_yet ↦ rw (none_yet, populate_from_task) (refl, λ _. refl)
          | inr (objects, copied) ↦
              let more =
                populate_copied-Leaves cache_key generation result_format_zip
                  (get_entry cache_key before.db) objects before.db in
              rw (copied, populate_from_task)
                (
                  more.0,
                  λ other.
                      more.1 other
                      ∙ keyed.copy_get _ dest _ before.objects objects copied
                          (result_key-ne-cache_object_key other cache_key generation),
                )
        ]

  pub populate-returns :
      (has_cache : Bool) (task_id generation : String) (cache_key : Option String)
      (before : CacheState S)
      → (populate cfg store has_cache task_id generation cache_key before).0 ≡ returned tt
  unfolding populate
  populate-returns has_cache task_id generation cache_key before =
      elim (Bool-cases (has_cache && nonempty cache_key)) [ inl q ↦ rw q refl | inr q ↦ rw q refl ]

  pub populate-Leaves :
      (has_cache : Bool) (task_id generation : String) (cache_key : Option String)
      (before : CacheState S)
      → Leaves before (populate cfg store has_cache task_id generation cache_key before).1
  unfolding populate
  populate-Leaves has_cache task_id generation cache_key before =
      elim (Bool-cases (has_cache && nonempty cache_key)) [
        | inl q ↦ rw q (populate_from_task-Leaves task_id (or_else cache_key "") generation before)
        | inr q ↦ rw q (refl, λ _. refl)
      ]
