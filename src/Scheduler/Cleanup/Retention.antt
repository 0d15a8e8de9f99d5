-- ===== src/Scheduler/Cleanup/Retention.antt =====
-- Which tasks the cleanup removes.
use mathlib.Core.List.{Memᴰ}
use mineru_gateway.Base.{
  ℕ, ◌≡◌, ◌⊎◌, inl, inr, refl, Bool, true, false, String, List, [], ◌∷◌, Option, nonempty, or_else,
  arith, Bool-cases, Option-cases,
}
use mineru_gateway.Base.Table.{All}
use mineru_gateway.Base.Table.Members.{
  All-Memᴰ, All-selected, All-take, All-sort_by, delete_where-member,
}
use mineru_gateway.Config.{GatewaySettings}
use mineru_gateway.Models.{Task, Db, has_task_id}
use mineru_gateway.Cache.Entries.{ObjectStore, CacheState, safe_delete}
use mineru_gateway.Queue.Rows.{
  get_task, delete_task, retention_expired, list_retention_expired_tasks,
}
use mineru_gateway.Scheduler.Cleanup.{
  delete_object_keys, delete_after, cleanup_each, cleanup_expired_tasks, retention_cutoff,
}

module _ {S : Type 0} (cfg : GatewaySettings) (store : ObjectStore S) where
  -- There is no such object, or the store confirmed its deletion.
  abbrev pub IsDeleted : Option String → Type 0
  IsDeleted key =
      (nonempty key ≡ false) ⊎ ((objects : S) × ((store.delete (or_else key "") objects).0 ≡ true))

  safe_delete-IsDeleted :
      (key : Option String) (objects : S)
      → (safe_delete cfg store key objects).0 ≡ true
      → IsDeleted key
  unfolding safe_delete
  safe_delete-IsDeleted key objects h = elim (Bool-cases (nonempty key)) [
    | inl q ↦ inr (objects, ground (arith, q, h))
    | inr q ↦ inl q
  ]

  delete_object_keys-IsDeleted :
      (keys : List (Option String)) (objects : S)
      → (delete_object_keys cfg store keys objects).0 ≡ true
      → All IsDeleted keys
  unfolding delete_object_keys
  delete_object_keys-IsDeleted [] objects h = tt
  delete_object_keys-IsDeleted (key ∷ keys) objects h =
      elim (Bool-cases (safe_delete cfg store key objects).0) [
        | inl q ↦
            (safe_delete-IsDeleted key objects q, delete_object_keys-IsDeleted keys _ (rw q at h))
        | inr q ↦ absurd (ground arith)
      ]

  -- A row with the id of a row that satisfies `P`, of which all objects are deleted.
  abbrev pub IsRemoved : (P : Task → Type 0) → Task → Type 0
  IsRemoved P t =
      (e : Task) × P e
      × (has_task_id e.task_id t ≡ true)
      × All IsDeleted (e.payload_key ∷ e.result_key ∷ [])

  delete_after-member :
      (P : Task → Type 0) (e t : Task) (db : Db) (r : Bool × S)
      → P e
      → (r.0 ≡ true → All IsDeleted (e.payload_key ∷ e.result_key ∷ []))
      → Memᴰ t db.tasks
      → Memᴰ t (delete_after cfg store e db r).db.tasks ⊎ IsRemoved P t
  unfolding delete_task
  delete_after-member P e t db (false, objects) h deleted m = inl m
  delete_after-member P e t db (true, objects) h deleted m =
      elim (Option-cases (get_task e.task_id db)) [
        | inl q ↦ inl (rw (q, delete_task) m)
        | inr (row, q) ↦ elim (Bool-cases (has_task_id e.task_id t)) [
          | inl same ↦ inr (e, h, same, deleted refl)
          | inr other ↦
              inl
                (rw (q, delete_task) (delete_where-member (has_task_id e.task_id) db.tasks other m))
        ]
      ]

  cleanup_each-member :
      (P : Task → Type 0) (tasks : List Task) (t : Task) (state : CacheState S)
      → All P tasks
      → Memᴰ t state.db.tasks
      → Memᴰ t (cleanup_each cfg store tasks state).db.tasks ⊎ IsRemoved P t
  unfolding cleanup_each
  cleanup_each-member P [] t state h m = inl m
  cleanup_each-member P (e ∷ tasks) t state h m =
      elim (delete_after-member P e t state.db
        (delete_object_keys cfg store (e.payload_key ∷ e.result_key ∷ []) state.objects) h.0
        (delete_object_keys-IsDeleted (e.payload_key ∷ e.result_key ∷ []) state.objects) m) [
          | inl still ↦ cleanup_each-member P tasks t _ h.1 still
          | inr removed ↦ inr removed
        ]

  -- A row that is removed is of a task that had ended before the cutoff.
  abbrev pub IsExpiredRow : (now : ℕ) → Db → Task → Type 0
  IsExpiredRow now db e =
      Memᴰ e db.tasks × (retention_expired (retention_cutoff cfg store now) e ≡ true)

  expired_rows :
      (now : ℕ) (db : Db)
      → All
          (IsExpiredRow now db)
          (list_retention_expired_tasks (retention_cutoff cfg store now) 100 db)
  unfolding list_retention_expired_tasks
  expired_rows now db = All-take (IsExpiredRow now db) 100 _ (
      All-sort_by (IsExpiredRow now db) _ _ (
        All-selected (λ e. Memᴰ e db.tasks) (retention_expired (retention_cutoff cfg store now))
          db.tasks (All-Memᴰ db.tasks)))

-- The cleanup keeps the row of every task but those that ended before the retention cutoff and of
-- which the store confirmed the deletion of the payload and of the result, where they had them.
pub cleanup_expired_tasks_keeps :
    {S : Type 0} (cfg : GatewaySettings) (store : ObjectStore S) (now : ℕ) (state : CacheState S)
    (t : Task)
    → Memᴰ t state.db.tasks
    → Memᴰ t (cleanup_expired_tasks cfg store now state).db.tasks
      ⊎ IsRemoved cfg store (IsExpiredRow cfg store now state.db) t
unfolding cleanup_expired_tasks
cleanup_expired_tasks_keeps cfg store now state t m =
    cleanup_each-member cfg store (IsExpiredRow cfg store now state.db) _ t state
      (expired_rows cfg store now state.db) m
