-- ===== src/Scheduler/Autoscale.antt =====
-- `_apply_autoscaling` and `_scale_up`: one step of the autoscaler.
use mineru_gateway.Base.{
  ℕ, ◌+◌, ◌-◌, Bool, true, false, String, Option, none, some, ◌&&◌, not, ltb, eqb, if◌then◌else◌,
  seconds,
}
use mineru_gateway.Config.{GatewaySettings}
use mineru_gateway.Cloud.{CloudState}
use mineru_gateway.Models.{Worker, Db}
use mineru_gateway.Scaling.{
  ScalingSignal, compute_scaling_signal, should_scale_up, should_scale_down,
}
use mineru_gateway.Workers.Queries.{
  find_stopped_worker, count_workers, count_stalled_workers, count_serviceable_workers,
  find_idle_worker, collect_scaling_inputs,
}
use mineru_gateway.Workers.Commits.{commit_fields, create_cloud_worker, record_scaling_event}

-- The row of a stopped worker that is started again.
unfoldable pub restarted_row : (now : ℕ) → Worker → Worker
restarted_row now w = record w {
  desired_state = CloudState.running;
  failure_count = 0;
  retry_after = none;
  start_requested_at = some now;
  ready_at = none;
}

module _ (cfg : GatewaySettings) where
  -- `_compute_scaling_signal`
  unfoldable pub scaling_signal : Db → ScalingSignal
  unfolding collect_scaling_inputs compute_scaling_signal
  scaling_signal db =
      compute_scaling_signal (collect_scaling_inputs cfg db) cfg.target_per_worker cfg.min_workers
        cfg.max_workers

  -- The branch of `_scale_up` for no stopped worker. A second worker past the maximum is allowed
  -- only where some worker is stalled and none is serviceable.
  unfoldable pub create_if_room : (new_worker_id : String) (now : ℕ) → Db → Bool × Db
  create_if_room new_worker_id now db =
      if ltb (count_workers cfg db) cfg.max_workers
      then (true, create_cloud_worker cfg new_worker_id now db)
      else (if ltb 0 (count_stalled_workers cfg db)
            && eqb (count_serviceable_workers cfg db) 0
            && ltb (count_workers cfg db) (cfg.max_workers + 1)
          then (true, create_cloud_worker cfg new_worker_id now db)
          else (false, db))

  -- `_scale_up`, with the fresh id that it draws.
  unfoldable pub scale_up : (new_worker_id : String) (now : ℕ) → Db → Bool × Db
  scale_up new_worker_id now db = elim (find_stopped_worker cfg db) [
    | some stopped ↦ (true, commit_fields stopped.id now (restarted_row now) db)
    | none ↦ create_if_room new_worker_id now db
  ]

  -- The answer of `_scale_up`: a start is remembered and recorded.
  abbrev pub after_scale_up : (last_scale_up : Option ℕ) (now : ℕ) → Bool × Db → Option ℕ × Db
  after_scale_up last_scale_up now (true, db) =
      (some now, record_scaling_event "start" "desired > provisioned" none "autoscaler" none now db)
  after_scale_up last_scale_up now (false, db) = (last_scale_up, db)

  unfoldable pub drain_idle : (now : ℕ) → Option Worker → Db → Db
  drain_idle now none db = db
  drain_idle now (some idle) db =
      record_scaling_event "stop" "serviceable exceeds desired" (some idle.id) "autoscaler" none now
        (commit_fields idle.id now
          (λ w. record w { draining = true; drain_target = some CloudState.stopped }) db)

  -- `now - last_scale_up < cooldown`
  abbrev pub cooling_down : (last_scale_up : Option ℕ) (now : ℕ) → Bool
  cooling_down none now = false
  cooling_down (some last) now = ltb now (last + seconds cfg.scale_up_cooldown_seconds)

  -- `_apply_autoscaling`, where a provider is configured; the field `_last_scale_up` is passed on.
  unfoldable pub apply_autoscaling :
      (new_worker_id : String) (now : ℕ) (last_scale_up : Option ℕ) → Db → Option ℕ × Db
  apply_autoscaling new_worker_id now last_scale_up db =
      let signal = scaling_signal db in
      let provisioned = signal.serviceable_workers + signal.starting_workers in
      let zero_recovery = eqb provisioned 0 && ltb 0 signal.desired_workers in
      let idle = find_idle_worker cfg (now - seconds cfg.idle_cooldown_seconds) db in
      if should_scale_up signal
      then (if not zero_recovery && cooling_down last_scale_up now
          then (last_scale_up, db)
          else after_scale_up last_scale_up now (scale_up new_worker_id now db))
      else (if should_scale_down signal
          then (last_scale_up, drain_idle now idle db)
          else (last_scale_up, db))
