-- ===== src/Scheduler/Cleanup.antt =====
-- `_cleanup_if_due` and what it calls: the tasks whose retention is over, and the expired cache.
pub mod Retention
use mineru_gateway.Base.{
  ℕ, ◌+◌, ◌-◌, ◌*◌, Bool, true, false, String, List, [], ◌∷◌, Option, none, some, not, is_none, ltb,
  if◌then◌else◌, ◌||◌, seconds,
}
use mineru_gateway.Config.{GatewaySettings}
use mineru_gateway.Models.{Task, Db}
use mineru_gateway.Cache.Entries.{ObjectStore, CacheState, safe_delete, sweep_expired}
use mineru_gateway.Queue.Rows.{list_retention_expired_tasks, delete_task}
use mineru_gateway.Scheduler.Rotations.{due}

-- `_next_cleanup_at` and `_next_cache_sweep_at`.
pub record CleanupTimes : Type 0 where
  pub next_cleanup_at : Option ℕ
  pub next_cache_sweep_at : Option ℕ

module _ {S : Type 0} (cfg : GatewaySettings) (store : ObjectStore S) where
  -- `_delete_object_keys`: it stops at the first object that cannot be deleted.
  unfoldable pub delete_object_keys : List (Option String) → S → Bool × S
  delete_object_keys [] objects = (true, objects)
  delete_object_keys (key ∷ keys) objects =
      let (ok, after) = safe_delete cfg store key objects in
      let rest = delete_object_keys keys after in if ok then rest else (false, after)

  -- The row of a task goes after its objects.
  abbrev pub delete_after : Task → Db → Bool × S → CacheState S
  delete_after task db (true, objects) = record {
    db = (delete_task task.task_id db).1;
    objects = objects;
  }
  delete_after task db (false, objects) = record { db = db; objects = objects }

  unfoldable pub cleanup_each : List Task → CacheState S → CacheState S
  cleanup_each [] state = state
  cleanup_each (task ∷ tasks) state = cleanup_each tasks (
      delete_after task state.db
        (delete_object_keys (task.payload_key ∷ task.result_key ∷ []) state.objects))

  -- `now - timedelta(days=retention_days)`
  abbrev pub retention_cutoff : (now : ℕ) → ℕ
  retention_cutoff now = now - seconds (cfg.retention_days * 86400)

  -- `_cleanup_expired_tasks`
  unfoldable pub cleanup_expired_tasks : (now : ℕ) → CacheState S → CacheState S
  cleanup_expired_tasks now state =
      cleanup_each (list_retention_expired_tasks (retention_cutoff now) 100 state.db) state

  -- `_cleanup_if_due`
  unfoldable pub cleanup_if_due :
      (now : ℕ) → CleanupTimes → CacheState S → CleanupTimes × CacheState S
  cleanup_if_due now times state =
      let next_cleanup = some (now + seconds cfg.cleanup_interval_seconds) in
      let cleaned = cleanup_expired_tasks now state in
      if due cfg times.next_cleanup_at now
      then (if due cfg times.next_cache_sweep_at now
          then (
            record {
              next_cleanup_at = next_cleanup;
              next_cache_sweep_at = some (now + seconds cfg.sweeper_interval_seconds);
            },
            (sweep_expired cfg store now cleaned).1,
          )
          else (record times { next_cleanup_at = next_cleanup }, cleaned))
      else (times, state)
