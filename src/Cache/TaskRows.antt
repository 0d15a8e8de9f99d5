-- ===== src/Cache/TaskRows.antt =====
-- What the operations of the cache do to the tasks.
use mineru_gateway.Base.{
  ℕ, ◌≡◌, inl, inr, refl, Bool, true, false, String, List, Option, none, some, nonempty, or_else,
  eq_refl, Bool-cases, Option-cases,
}
use mineru_gateway.Base.Table.Laws.{find_where-last}
use mineru_gateway.Config.{GatewaySettings}
use mineru_gateway.Models.{CacheEntry, has_task_id}
use mineru_gateway.Tasks.Status.{TaskStatus}
use mineru_gateway.Tasks.Storage.{result_key, result_format_zip}
use mineru_gateway.Queue.Rows.{get_task}
use mineru_gateway.Cache.Entries.{
  ObjectStore, CacheState, Refresh, get_entry, row_is_expired, lookup, lookup_row,
  create_placeholder, Hit, hit_row, no_object, not_inserted, insert_hit, create_hit_task, hit_task,
}

module _ {S : Type 0} (cfg : GatewaySettings) (store : ObjectStore S) (now : ℕ) where
  pub lookup_row-tasks :
      (row : CacheEntry) (state : CacheState S)
      → (lookup_row cfg store row now state).1.db.tasks ≡ state.db.tasks
  unfolding lookup_row
  lookup_row-tasks row state = elim (Bool-cases (row_is_expired now row)) [
    | inl q ↦ rw q refl
    | inr q ↦ elim (Bool-cases (nonempty row.object_key)) [
      | inl p ↦ rw (q, p) refl
      | inr p ↦ rw (q, p) refl
    ]
  ]

  pub lookup-tasks :
      (cache_key : String) (state : CacheState S)
      → (lookup cfg store cache_key now state).1.db.tasks ≡ state.db.tasks
  unfolding lookup
  lookup-tasks cache_key state = elim (Option-cases (get_entry cache_key state.db)) [
    | inl q ↦ rw (q, lookup) refl
    | inr (row, q) ↦ rw (q, lookup) (lookup_row-tasks row state)
  ]

  -- An entry that is served is the live row of the key, with its object, and no object has changed.
  abbrev pub IsFound :
      (cache_key : String) → CacheState S → Option CacheEntry × CacheState S → Type 0
  IsFound cache_key state (none, after) = Unit
  IsFound cache_key state (some entry, after) =
      (row : CacheEntry) × (get_entry cache_key state.db ≡ some row)
      × (row_is_expired now row ≡ false)
      × (row.object_key ≡ entry.object_key)
      × (after.objects ≡ state.objects)

  pub lookup-IsFound :
      (cache_key : String) (state : CacheState S)
      → IsFound cache_key state (lookup cfg store cache_key now state)
  unfolding lookup lookup_row
  lookup-IsFound cache_key state = elim (Option-cases (get_entry cache_key state.db)) [
    | inl q ↦ rw (q, lookup) tt
    | inr (row, q) ↦
        rw (q, lookup)
          (elim (Bool-cases (row_is_expired now row)) [
            | inl x ↦ rw x tt
            | inr x ↦ rw x (elim (Bool-cases (nonempty row.object_key)) [
              | inr y ↦ rw y tt
              | inl y ↦ rw y (row, q, x, refl, refl)
            ])
          ])
  ]

  pub create_placeholder-tasks :
      (cache_key : String) (refresh : Refresh) (state : CacheState S)
      → (create_placeholder cfg store cache_key refresh now state).1.db.tasks ≡ state.db.tasks
  unfolding create_placeholder
  create_placeholder-tasks cache_key refresh state =
      elim (Option-cases (get_entry cache_key state.db)) [
        | inl q ↦ rw (q, create_placeholder) refl
        | inr (row, q) ↦ elim (Bool-cases (row_is_expired now row)) [
          | inl p ↦ rw (q, create_placeholder, p) refl
          | inr p ↦ rw (q, create_placeholder, p) refl
        ]
      ]

  -- A hit's task is there, completed, with the key of its own result, to which the object of the
  -- entry was copied; or the call raised, and no task has changed.
  abbrev pub IsHit : (task_id : String) → CacheEntry → CacheState S → Hit × CacheState S → Type 0
  IsHit task_id entry state (hit_row task, after) =
      (get_task task_id after.db ≡ some task)
      × (task.status ≡ TaskStatus.completed)
      × (task.result_key ≡ some (result_key task_id result_format_zip))
      × (store.copy (or_else entry.object_key "") (result_key task_id result_format_zip)
            state.objects
          ≡ some after.objects)
  IsHit task_id entry state (no_object, after) = after.db.tasks ≡ state.db.tasks
  IsHit task_id entry state (not_inserted, after) = after.db.tasks ≡ state.db.tasks

  pub create_hit_task-IsHit :
      (task_id : String) (entry : CacheEntry) (file_names : List String) (inserted : Bool)
      → (state : CacheState S) → get_task task_id state.db ≡ none
      → nonempty entry.object_key ≡ true
      → IsHit task_id entry state
          (create_hit_task cfg store task_id entry file_names inserted now state)
  unfolding create_hit_task get_task hit_task
  create_hit_task-IsHit task_id entry file_names inserted state fresh filled =
      elim (Option-cases (
        store.copy (or_else entry.object_key "") (result_key task_id result_format_zip)
          state.objects)) [
            | inl p ↦ rw (filled, p) refl
            | inr (objects, p) ↦ rw (filled, p) (inserting inserted objects p)
          ]
    where
      inserting :
          (answer : Bool) (objects : S)
          → store.copy
              (or_else entry.object_key "")
              (result_key task_id result_format_zip)
              state.objects
            ≡ some objects
          → IsHit task_id entry state (
              insert_hit cfg store
                (hit_task cfg store task_id entry file_names
                  (result_key task_id result_format_zip)
                  now)
                (some (result_key task_id result_format_zip))
                answer
                (record { db = state.db; objects = objects }))
      inserting true objects p = (
        find_where-last (has_task_id task_id) state.db.tasks
            (hit_task cfg store task_id entry file_names (result_key task_id result_format_zip) now)
            fresh (eq_refl task_id),
        refl,
        refl,
        p,
      )
      inserting false objects p = refl
