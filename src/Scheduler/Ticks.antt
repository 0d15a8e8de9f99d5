-- ===== src/Scheduler/Ticks.antt =====
-- The ticks of the scheduler: what they call, in which order, and only while the lock is verified.
pub mod Stopped
use mineru_gateway.Base.{
  ℕ, Bool, true, false, String, List, [], ◌∷◌, Option, none, some, if◌then◌else◌,
}
use mineru_gateway.Base.Action.{Answer, returned, raised, Action, pure, raise, modify, ◌>>=◌, ◌>>◌}
use mineru_gateway.Config.{GatewaySettings}
use mineru_gateway.Models.{Task, Db}
use mineru_gateway.Payload.{Bytes}
use mineru_gateway.Tasks.Status.{StatusPayload}
use mineru_gateway.Objects.{Failure, failure, StorageProvider}
use mineru_gateway.Cache.Entries.{CacheState}
use mineru_gateway.Queue.Rows.{recover_stale_dispatch_claims, expire_client_sla_tasks}
use mineru_gateway.Queue.Submit.{Outside, DispatchRun, dispatch_queued_tasks}
use mineru_gateway.Queue.Sync.{sync_dispatched_task_statuses, list_unstored_completed}
use mineru_gateway.Results.{persist_pending_results}
use mineru_gateway.Scheduler.Provider.{CloudFailure, ComputeProvider, Command, World}
use mineru_gateway.Scheduler.Reconcile.Pass.{reconcile_workers}
use mineru_gateway.Scheduler.Autoscale.{apply_autoscaling}
use mineru_gateway.Scheduler.Drains.{converge_stalled_workers}
use mineru_gateway.Scheduler.Rotations.{advance_drains_and_rotations}
use mineru_gateway.Scheduler.Health.{Probes, refresh_worker_health}
use mineru_gateway.Scheduler.Cleanup.{CleanupTimes, cleanup_if_due}
use mineru_gateway.Scheduler.Lock.{Lock, is_held, verify}

-- The scheduler with all that its ticks write.
pub record Service (S C : Type 0) : Type 0 where
  pub db : Db
  pub objects : S
  pub cloud : C
  pub sent : List Command
  pub lock : Lock
  pub last_scale_up : Option ℕ
  pub next_rotation_check_at : Option ℕ
  pub cleanup_times : CleanupTimes
  pub deferred_since : Option ℕ

-- The outside of one tick: the providers, the workers' answers, fresh ids and texts, whether the
-- lock's connection is alive at each check, and the clock at each step.
pub record TickOutside (S C : Type 0) : Type 0 where
  pub provider : Option (ComputeProvider C)
  pub store : StorageProvider S
  pub poll : (base_url upstream_task_id : String) → Option StatusPayload
  pub download : Task → Answer Failure Bytes
  pub generation : String → String
  pub dispatch : (rounds_left : ℕ) → Outside
  pub probes : Probes
  pub new_worker_id : String
  pub replacement_id : String
  pub alive : (check : ℕ) → Bool
  pub time_of : (step : ℕ) → ℕ

module _ {S C : Type 0} (cfg : GatewaySettings) (outside : TickOutside S C) where
  open outside use {
    provider, store, poll, download, generation, dispatch, probes, new_worker_id, replacement_id,
    alive, time_of,
  }

  abbrev pub Step : (A : Type 0) → Type 0
  Step A = Action Failure (Service S C) A

  abbrev pub on_db : (Db → Db) → Step (Unit {0})
  on_db f = modify (λ service. record service { db = f service.db })

  abbrev pub with_state :
      {A : Type 0} → Service S C → Answer Failure A × CacheState S → Answer Failure A × Service S C
  with_state service (answer, state) =
      (answer, record service { db = state.db; objects = state.objects })

  -- `_verify_lock`. Where the lock is lost, the assignment to the property `held` raises.
  abbrev pub after_verify : Service S C → Bool × Lock → Answer Failure Bool × Service S C
  after_verify service (true, lock) = (returned true, record service { lock = lock })
  after_verify service (false, lock) =
      (raised (failure "property 'held' has no setter"), record service { lock = lock })

  unfoldable pub verify_lock : (check : ℕ) → Step Bool
  verify_lock check service = after_verify service (verify (alive check) service.lock)

  -- `_synchronize_tasks_and_results`
  abbrev pub counted : {A : Type 0} → Answer Failure A → Answer Failure (Unit {0})
  counted (returned _) = returned tt
  counted (raised e) = raised e

  abbrev pub persisted :
      Service S C → Answer Failure (ℕ × ℕ) × CacheState S → Answer Failure (Unit {0}) × Service S C
  persisted service (answer, state) = with_state service (counted answer, state)

  unfoldable pub persist_unstored : (now : ℕ) → Step (Unit {0})
  persist_unstored now service = persisted service (
      persist_pending_results cfg store true download generation now
        (list_unstored_completed now 32 service.db)
        (record { db = service.db; objects = service.objects }))

  unfoldable pub synchronize_tasks_and_results : Step (Unit {0})
  synchronize_tasks_and_results =
      on_db (λ db. (sync_dispatched_task_statuses poll (time_of 1) 32 db).1)
      >> persist_unstored (time_of 2)

  -- `_dispatch_queued_tasks`; an exception ends the tick.
  abbrev pub after_dispatch : Service S C → DispatchRun → Answer Failure (Unit {0}) × Service S C
  after_dispatch service run = (
    (if run.aborted_by_error then raised (failure "dispatch") else returned tt),
    record service { db = run.db; deferred_since = run.deferred_since },
  )

  unfoldable pub dispatch_queue : Step (Unit {0})
  dispatch_queue service =
      after_dispatch service
        (dispatch_queued_tasks cfg dispatch (time_of 4) 32 service.deferred_since service.db)

  -- `_fast_tick`
  unfoldable pub fast_tick : Step (Unit {0})
  fast_tick = verify_lock 0 >>= λ held.
      (if held
        then on_db (λ db. (recover_stale_dispatch_claims (time_of 0) db).1)
          >> synchronize_tasks_and_results
          >> on_db (λ db. (expire_client_sla_tasks cfg.task_sla_seconds (time_of 3) db).1)
          >> dispatch_queue
        else pure tt)

  -- `_reconcile_workers`, which verifies the lock once more.
  abbrev pub after_reconcile :
      Service S C
      → Answer CloudFailure (Unit {0}) × World C
      → Answer Failure (Unit {0}) × Service S C
  after_reconcile service (returned _, w) =
      (returned tt, record service { db = w.db; cloud = w.cloud; sent = w.sent })
  after_reconcile service (raised e, w) =
      (raised (failure e.message), record service { db = w.db; cloud = w.cloud; sent = w.sent })

  unfoldable pub reconcile_with : ComputeProvider C → (now : ℕ) → Step (Unit {0})
  reconcile_with provider now service = after_reconcile service (
      reconcile_workers cfg provider now
        (record { db = service.db; cloud = service.cloud; sent = service.sent }))

  abbrev pub reconcile_step : Option (ComputeProvider C) → Step (Unit {0})
  reconcile_step none = pure tt
  reconcile_step (some provider) =
      verify_lock 2 >>= λ held. (if held then reconcile_with provider (time_of 5) else pure tt)

  unfoldable pub autoscale_step : Step (Unit {0})
  autoscale_step service =
      let (last, db) =
        apply_autoscaling cfg new_worker_id (time_of 8) service.last_scale_up service.db in
      (returned tt, record service { db = db; last_scale_up = last })

  unfoldable pub rotation_step : Step (Unit {0})
  rotation_step service =
      let (next, db) =
        advance_drains_and_rotations cfg replacement_id (time_of 9) service.next_rotation_check_at
          service.db in
      (returned tt, record service { db = db; next_rotation_check_at = next })

  unfoldable pub cleanup_step : Step (Unit {0})
  cleanup_step service =
      let (times, state) =
        cleanup_if_due cfg store.objects (time_of 10) service.cleanup_times
          (record { db = service.db; objects = service.objects }) in
      (
        returned tt,
        record service { db = state.db; objects = state.objects; cleanup_times = times },
      )

  -- `_slow_tick`
  unfoldable pub slow_tick : Step (Unit {0})
  slow_tick = verify_lock 1 >>= λ held.
      (if held
        then reconcile_step provider
          >> on_db (converge_stalled_workers cfg (time_of 6))
          >> on_db (refresh_worker_health cfg probes (time_of 7))
          >> autoscale_step
          >> rotation_step
          >> cleanup_step
        else pure tt)

  -- `tick`
  unfoldable pub tick : Step (Unit {0})
  tick = slow_tick >> fast_tick

-- `_run_loop`: ticks while the lock is held; an exception of a tick is logged.
unfoldable pub run_loop :
    {S C : Type 0} → List (Action Failure (Service S C) (Unit {0})) → Service S C → Service S C
run_loop [] service = service
run_loop (tick_fn ∷ later) service =
    let rest = run_loop later (tick_fn service).1 in if is_held service.lock then rest else service
