-- ===== src/Scheduler/Rotations.antt =====
-- `_progress_rotations` and `_start_new_rotations`: the replacement of old workers.
use mineru_gateway.Base.{
  ℕ, ◌+◌, ◌-◌, Bool, true, false, String, List, [], ◌∷◌, Option, none, some, ◌&&◌, not, ltb, leb,
  is_none, is_some, if◌then◌else◌, seconds,
}
use mineru_gateway.Config.{GatewaySettings}
use mineru_gateway.Cloud.{CloudState, same_state}
use mineru_gateway.Models.{Worker, Db}
use mineru_gateway.Workers.Queries.{
  get_worker, find_replacement_workers, count_active_replacements, count_workers,
  find_emergency_rotation_target, find_scheduled_rotation_target,
}
use mineru_gateway.Workers.Commits.{commit_fields, start_rotation_replacement}
use mineru_gateway.Scheduler.Drains.{want_terminated, advance_drains, finalize_terminations}

-- `_worker_is_ready`
unfoldable pub worker_is_ready : Worker → Bool
worker_is_ready w =
    same_state w.desired_state CloudState.running
    && same_state w.cloud_state CloudState.running
    && w.healthy
    && is_some w.ready_at
    && is_some w.base_url

module _ (cfg : GatewaySettings) where
  -- A replacement that missed its deadline: `age > readiness_timeout` since its start.
  unfoldable pub missed_readiness : Worker → (now : ℕ) → Bool
  unfolding worker_is_ready
  missed_readiness replacement now =
      not (same_state replacement.desired_state CloudState.terminated)
      && not (worker_is_ready replacement)
      && is_some replacement.start_requested_at
      && (elim replacement.start_requested_at [
        | none ↦ false
        | some t ↦ ltb (t + seconds cfg.readiness_timeout_seconds) now
      ])

  -- The old worker is drained once its replacement is ready.
  unfoldable pub drain_old : Worker → Option Worker → (now : ℕ) → Db → Db
  drain_old replacement none now db = db
  drain_old replacement (some old) now db =
      if worker_is_ready replacement && not old.draining && is_none old.terminated_at
      then commit_fields old.id now (λ w. record w { draining = true }) db
      else db

  -- The body of the loop of `_progress_rotations`.
  unfoldable pub progress_rotation : Worker → (now : ℕ) → Db → Db
  progress_rotation replacement now db = elim replacement.replacement_for [
    | none ↦ db
    | some old_id ↦
        let old = get_worker cfg old_id db in
        if missed_readiness replacement now
        then want_terminated replacement.id now db
        else drain_old replacement old now db
  ]

  unfoldable pub progress_each : List Worker → (now : ℕ) → Db → Db
  progress_each [] now db = db
  progress_each (worker ∷ workers) now db =
      progress_each workers now (progress_rotation worker now db)

  -- `_progress_rotations`
  unfoldable pub progress_rotations : (now : ℕ) → Db → Db
  progress_rotations now db = progress_each (find_replacement_workers cfg db) now db

  -- The worker to replace: one whose rotation was requested, else one that is old enough.
  unfoldable pub rotation_target : (now : ℕ) → Db → Option Worker
  rotation_target now db = elim (find_emergency_rotation_target cfg db) [
    | some target ↦ some target
    | none ↦ find_scheduled_rotation_target cfg (now - seconds cfg.rotation_interval_seconds) db
  ]

  abbrev pub replace_target : (replacement_id : String) (now : ℕ) → Option Worker → Db → Db
  replace_target replacement_id now none db = db
  replace_target replacement_id now (some target) db =
      start_rotation_replacement cfg replacement_id target now db

  -- `_start_new_rotations`, where a provider is configured, with the fresh id that it draws.
  unfoldable pub start_new_rotations : (replacement_id : String) (now : ℕ) → Db → Db
  start_new_rotations replacement_id now db =
      if ltb 0 (count_active_replacements cfg db)
      then db
      else (if leb (cfg.max_workers + 1) (count_workers cfg db)
          then db
          else replace_target replacement_id now (rotation_target now db) db)

  -- `now is None or now >= next`
  abbrev pub due : Option ℕ → (now : ℕ) → Bool
  due none now = true
  due (some next) now = leb next now

  -- `_advance_drains_and_rotations`; the field `_next_rotation_check_at` is passed on.
  unfoldable pub advance_drains_and_rotations :
      (replacement_id : String) (now : ℕ) (next_rotation_check_at : Option ℕ) → Db → Option ℕ × Db
  advance_drains_and_rotations replacement_id now next_rotation_check_at db =
      let advanced =
        finalize_terminations cfg now (advance_drains cfg now (progress_rotations now db)) in
      if due next_rotation_check_at now
      then (
        some (now + seconds cfg.rotation_interval_seconds),
        start_new_rotations replacement_id now advanced,
      )
      else (next_rotation_check_at, advanced)
