-- ===== src/Objects.antt =====
-- The object store (`CloudStorageProvider` of src/mineru_gateway/cloud/base.py) as the gateway and
-- the scheduler use it, next to the database.
use mineru_gateway.Base.{true, String, some, ◌≡◌, ◌≢◌}
use mineru_gateway.Base.Action.{Answer, returned, raised, Action}
use mineru_gateway.Payload.{Bytes}
use mineru_gateway.Config.{GatewaySettings}
use mineru_gateway.Models.{Db}
use mineru_gateway.Cache.Entries.{ObjectStore, CacheState, safe_delete}

-- An exception: a `KeyError`, or another one with its text.
pub data Failure : Type 0 where
  key_error : Failure
  failure : (text : String) → Failure

-- The store, with the part of it that the cache uses.
pub record StorageProvider (S : Type 0) : Type 0 where
  pub objects : ObjectStore S
  pub put : (key : String) → Bytes → Action Failure S (Unit {0})
  pub get : (key : String) → Action Failure S Bytes

-- What the store documents: an object that was put is read back, a copy is read as its source, an
-- object that was deleted is missing, and no other call changes an object.
pub record IsKeyed {S : Type 0} (store : StorageProvider S) : Type 0 where
  pub put_get :
      (key : String) (body : Bytes) (s t : S)
      → store.put key body s ≡ (returned tt, t)
      → (store.get key t).0 ≡ returned body
  pub copy_get :
      (src dest key : String) (s t : S)
      → store.objects.copy src dest s ≡ some t
      → key ≢ dest
      → (store.get key t).0 ≡ (store.get key s).0
  pub copy_copied :
      (src dest : String) (s t : S)
      → store.objects.copy src dest s ≡ some t
      → (body : Bytes) × ((store.get src s).0 ≡ returned body)
        × ((store.get dest t).0 ≡ returned body)
  pub delete_get :
      (key other : String) (s : S)
      → key ≢ other
      → (store.get key (store.objects.delete other s).1).0 ≡ (store.get key s).0
  pub delete_gone :
      (key : String) (s : S)
      → (store.objects.delete key s).0 ≡ true
      → (store.get key (store.objects.delete key s).1).0 ≡ raised key_error

module _ {S : Type 0} where
  -- A transaction.
  unfoldable pub commit : (Db → Db) → Action Failure (CacheState S) (Unit {0})
  commit f state = (returned tt, record state { db = f state.db })

  abbrev pub with_objects :
      {A : Type 0} → Db → Answer Failure A × S → Answer Failure A × CacheState S
  with_objects db (answer, objects) = (answer, record { db = db; objects = objects })

  unfoldable pub in_store : {A : Type 0} → Action Failure S A → Action Failure (CacheState S) A
  in_store m state = with_objects state.db (m state.objects)

  -- `safe_delete`, whose failures are logged only.
  unfoldable pub discard :
      GatewaySettings
      → StorageProvider S
      → (key : String) → Action Failure (CacheState S) (Unit {0})
  unfolding safe_delete
  discard cfg store key state = (
    returned tt,
    record state { objects = (safe_delete cfg store.objects (some key) state.objects).1 },
  )
