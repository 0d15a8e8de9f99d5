-- ===== src/Ingest/Queued.antt =====
-- What the creating of a task leaves: a queued task whose payload is in the store and can be
-- rebuilt, or nothing.
use mineru_gateway.Base.{
  ℕ, ◌≡◌, ◌⊎◌, inl, inr, refl, ap, false, String, Option, none, some, Bool-cases, Option-cases,
  eq_refl,
}
use mineru_gateway.Base.Action.{
  Answer, returned, raised, pure, raise, try_except, ◌>>=◌, ◌>>◌, proceed,
}
use mineru_gateway.Config.{GatewaySettings}
use mineru_gateway.Models.{Task, has_task_id}
use mineru_gateway.Payload.{Bytes, HeaderCodec, header_of, pack_payload, rebuild_blob, rebuilt}
use mineru_gateway.Payload.RoundTrip.{AllSafe, rebuild-pack_payload}
use mineru_gateway.Objects.{
  Failure, key_error, StorageProvider, IsKeyed, commit, in_store, discard, with_objects,
}
use mineru_gateway.Tasks.Storage.{payload_key}
use mineru_gateway.Tasks.Keys.{payload_key_nonempty}
use mineru_gateway.Base.Table.Laws.{find_where-last}
use mineru_gateway.Cache.Entries.{CacheState, safe_delete}
use mineru_gateway.Queue.Rows.{get_task, new_task, create_queued_task}
use mineru_gateway.Results.{answered}
use mineru_gateway.Ingest.{
  Intake, store_payload, insert_task, discard_payload, create_task_with_payload,
}

module _ {S : Type 0} (cfg : GatewaySettings) (codec : HeaderCodec) (store : StorageProvider S)
    (task_id : String) (intake : Intake) (cache_key : Option String) (now : ℕ)
    (before : CacheState S) where
  -- The row that the scheduler will read.
  abbrev pub queued : Task
  queued =
      new_task task_id intake.file_names intake.backend intake.parse_method intake.options
        (some (payload_key task_id)) intake.source cache_key now

  -- How the creation ends: the row is there, and the payload that it names rebuilds; or the database
  -- is as before, and no object was put, or the object is
  -- gone again, unless the store could not delete it.
  abbrev pub IsQueued : Answer Failure (Unit {0}) × CacheState S → Type 0
  IsQueued (returned _, after) =
      (get_task task_id after.db ≡ some queued)
      × ((blob : Bytes) × ((store.get (payload_key task_id) after.objects).0 ≡ returned blob)
          × (rebuild_blob codec blob ≡ rebuilt intake.payload))
  IsQueued (raised e, after) =
      (after.db ≡ before.db)
      × (((pack_payload codec cfg intake.payload ≡ none) × (after.objects ≡ before.objects))
          ⊎ ((blob : Bytes) × (store.put (payload_key task_id) blob before.objects
                ≡ (raised e, after.objects)))
          ⊎ ((store.get (payload_key task_id) after.objects).0 ≡ raised key_error)
          ⊎ ((s : S) × (store.objects.delete (payload_key task_id) s ≡ (false, after.objects))))

  module _ (keyed : IsKeyed store)
      (lossless : codec.loads (codec.dumps (header_of intake.payload))
        ≡ some (header_of intake.payload))
      (names : AllSafe intake.payload.uploads) (fresh : get_task task_id before.db ≡ none) where
    found_new :
        get_task task_id (
          create_queued_task task_id intake.file_names intake.backend intake.parse_method
            intake.options
            (some (payload_key task_id))
            intake.source
            cache_key
            now
            before.db)
        ≡ some queued
    unfolding get_task create_queued_task
    found_new = find_where-last (has_task_id task_id) before.db.tasks queued fresh (eq_refl task_id)

    -- Discarding the object.
    discarded :
        (e : Failure) (objects : S)
        → IsQueued (
            (discard cfg store (payload_key task_id) >> raise e)
              (record { db = before.db; objects = objects }))
    unfolding ◌>>◌ discard raise safe_delete
    discarded e objects =
        let key = payload_key task_id in
        rw (payload_key_nonempty task_id) (
          refl,
          (elim (Bool-cases (store.objects.delete key objects).0) [
            | inl q ↦ inr (inr (inl (keyed.delete_gone key objects q)))
            | inr q ↦
                inr (inr (inr (objects, ap (λ b. (b, (store.objects.delete key objects).1)) q)))
          ]),
        )

    -- After the insert, of an object that was put.
    inserted-IsQueued :
        (blob : Bytes) (objects : S) (inserted : Answer Failure (Unit {0}))
        → pack_payload codec cfg intake.payload ≡ some blob
        → (store.get (payload_key task_id) objects).0 ≡ returned blob
        → IsQueued (
            try_except
              (insert_task cfg codec task_id intake
                (some (payload_key task_id))
                cache_key
                inserted
                now)
              (λ e.
                (discard_payload cfg codec (some store) (some (payload_key task_id)) >> raise e))
              (record { db = before.db; objects = objects }))
    unfolding try_except ◌>>◌ answered commit
    inserted-IsQueued blob objects (returned _) packed got = (
      found_new,
      (blob, got, rebuild-pack_payload codec cfg intake.payload blob lossless names packed),
    )
    inserted-IsQueued blob objects (raised e) packed got = discarded e objects

    -- After the call of `put`.
    put-IsQueued :
        (blob : Bytes) (inserted : Answer Failure (Unit {0})) (r : Answer Failure (Unit {0}) × S)
        → pack_payload codec cfg intake.payload ≡ some blob
        → store.put (payload_key task_id) blob before.objects ≡ r
        → IsQueued (
            proceed
              (λ key.
                try_except
                  (insert_task cfg codec task_id intake key cache_key inserted now)
                  (λ e. (discard_payload cfg codec (some store) key >> raise e)))
              (proceed (λ _. pure (some (payload_key task_id))) (with_objects before.db r)))
    unfolding pure
    put-IsQueued blob inserted (returned _, objects) packed put =
        inserted-IsQueued blob objects inserted packed
          (keyed.put_get (payload_key task_id) blob before.objects objects put)
    put-IsQueued blob inserted (raised e, objects) packed put = (refl, inr (inl (blob, put)))

    -- Where the store keeps its objects by key, JSON loads the header as it was dumped, the sanitiser
    -- accepts the upload names and the task id is not in use: the creation of a task either returns,
    -- and then the row is queued and the payload that it names is in the store, from which the
    -- scheduler rebuilds it; or it raises, and the database is as before and no payload is left
    -- behind, unless the store raised in its put or could not delete the object.
    pub create_task_with_payload-IsQueued :
        (inserted : Answer Failure (Unit {0}))
        → IsQueued (
            create_task_with_payload cfg codec task_id intake cache_key
              (some store)
              inserted
              now
              before)
    unfolding create_task_with_payload store_payload ◌>>=◌ ◌>>◌ in_store raise pure
    create_task_with_payload-IsQueued inserted =
        elim (Option-cases (pack_payload codec cfg intake.payload)) [
          | inl q ↦ rw q (refl, inl (q, refl))
          | inr (blob, q) ↦ rw q (put-IsQueued blob inserted _ q refl)
        ]
