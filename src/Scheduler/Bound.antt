-- ===== src/Scheduler/Bound.antt =====
-- The size of the fleet under drains, rotations and the autoscaler.
use mineru_gateway.Base.{
  ℕ, suc, ◌+◌, ◌≤◌, ◌≡◌, inl, inr, Bool, true, false, String, List, [], ◌∷◌, ◌++◌, Option, none,
  some, ◌&&◌, not, ltb, leb, is_none, arith, Bool-cases, Option-cases, if◌then◌else◌,
}
use mineru_gateway.Base.Table.{update_where}
use mineru_gateway.Base.Table.Laws.{count_where-le_update}
use mineru_gateway.Config.{GatewaySettings}
use mineru_gateway.Cloud.{CloudState}
use mineru_gateway.Models.{Worker, Db}
use mineru_gateway.Workers.Clauses.{deployment_clause, replaces}
use mineru_gateway.Workers.Queries.{
  count_workers, count_active_replacements, has_active_replacement_for, get_ready_replacement_for,
  get_worker, find_replacement_workers, find_draining_workers,
  find_workers_pending_termination_finalize,
}
use mineru_gateway.Workers.Commits.{
  commit_fields, start_rotation_replacement, new_worker, finalize_terminated_worker,
}
use mineru_gateway.Scheduler.Drains.{
  want_terminated, want_stopped, has_active_work, drains_to_terminated, advance_drain, advance_each,
  advance_drains, finalize_each, finalize_terminations,
}
use mineru_gateway.Scheduler.Rotations.{
  progress_rotation, progress_each, progress_rotations, drain_old, missed_readiness,
  worker_is_ready, start_new_rotations, replace_target, rotation_target,
  advance_drains_and_rotations, due,
}
use mineru_gateway.Scheduler.Fleet.{count-commit_fields, count-append_one}

module _ (cfg : GatewaySettings) (now : ℕ) where
  -- A step that adds no worker to the deployment.
  record Shrinks (before after : Db) : Type 0 where
    pub shrinks : count_workers cfg after ≤ count_workers cfg before

  same : (db : Db) → Shrinks db db
  same db = record { shrinks = omega arith }

  chain : {a b c : Db} → Shrinks a b → Shrinks b c → Shrinks a c
  chain h k = record { shrinks = omega (arith, h.shrinks, k.shrinks) }

  if-Shrinks :
      (b : Bool) (db : Db) {x y : Db}
      → Shrinks db x
      → Shrinks db y
      → Shrinks db (if b then x else y)
  if-Shrinks true db h k = h
  if-Shrinks false db h k = k

  commit_fields-Shrinks :
      (k : String) (f : Worker → Worker) (db : Db)
      → ((w : Worker)
          → deployment_clause cfg (let v = f w in record v { updated_at = now }) ≡ true
          → deployment_clause cfg w ≡ true)
      → Shrinks db (commit_fields k now f db)
  unfolding count_workers
  commit_fields-Shrinks k f db keep = record {
    shrinks = count-commit_fields (deployment_clause cfg) k now f db keep;
  }

  want_terminated-Shrinks : (k : String) (db : Db) → Shrinks db (want_terminated k now db)
  unfolding want_terminated deployment_clause
  want_terminated-Shrinks k db =
      commit_fields-Shrinks k (λ w. record w { desired_state = CloudState.terminated }) db
        (λ v h. h)

  want_stopped-Shrinks : (k : String) (db : Db) → Shrinks db (want_stopped k now db)
  unfolding want_stopped deployment_clause
  want_stopped-Shrinks k db =
      commit_fields-Shrinks k
        (λ w. record w {
          desired_state = CloudState.stopped;
          draining = false;
          drain_target = none;
        })
        db (λ v h. h)

  advance_drain-Shrinks : (w : Worker) (db : Db) → Shrinks db (advance_drain cfg w now db)
  unfolding advance_drain
  advance_drain-Shrinks w db = if-Shrinks (has_active_work w.id db) db (same db) (
      if-Shrinks (has_active_replacement_for cfg w.id db) db
        (if-Shrinks (is_none (get_ready_replacement_for cfg w.id db)) db (same db)
          (want_terminated-Shrinks w.id db))
        (if-Shrinks (drains_to_terminated w) db (want_terminated-Shrinks w.id db)
          (want_stopped-Shrinks w.id db)))

  advance_each-Shrinks :
      (workers : List Worker) (db : Db) → Shrinks db (advance_each cfg workers now db)
  unfolding advance_each
  advance_each-Shrinks [] db = same db
  advance_each-Shrinks (w ∷ workers) db =
      chain (advance_drain-Shrinks w db) (advance_each-Shrinks workers (advance_drain cfg w now db))

  finalize_terminated_worker-Shrinks :
      (k : String) (db : Db) → Shrinks db (finalize_terminated_worker k now db)
  unfolding finalize_terminated_worker deployment_clause count_workers
  finalize_terminated_worker-Shrinks k db =
      let unlinked : Db = record db {
        workers =
            update_where (replaces k) (λ w. record w { replacement_for = none; updated_at = now })
              db.workers;
      } in
      let first =
        count_where-le_update (deployment_clause cfg) (replaces k)
          (λ w. record w { replacement_for = none; updated_at = now }) db.workers (λ r _ h. h) in
      let second =
        commit_fields-Shrinks k (λ w. record w { terminated_at = some now }) unlinked
          (λ v h. ground arith) in
      record { shrinks = omega (arith, first, second.shrinks) }

  finalize_each-Shrinks :
      (workers : List Worker) (db : Db) → Shrinks db (finalize_each cfg workers now db)
  unfolding finalize_each
  finalize_each-Shrinks [] db = same db
  finalize_each-Shrinks (w ∷ workers) db =
      chain (finalize_terminated_worker-Shrinks w.id db)
        (finalize_each-Shrinks workers (finalize_terminated_worker w.id now db))

  drain_old-Shrinks :
      (w : Worker) (old : Option Worker) (db : Db) → Shrinks db (drain_old cfg w old now db)
  unfolding drain_old deployment_clause
  drain_old-Shrinks w none db = same db
  drain_old-Shrinks w (some old) db =
      if-Shrinks (worker_is_ready w && not old.draining && is_none old.terminated_at) db
        (commit_fields-Shrinks old.id (λ v. record v { draining = true }) db (λ v h. h)) (same db)

  progress_rotation-Shrinks : (w : Worker) (db : Db) → Shrinks db (progress_rotation cfg w now db)
  unfolding progress_rotation
  progress_rotation-Shrinks w db = elim (Option-cases w.replacement_for) [
    | inl e ↦ rw (e, progress_rotation) (same db)
    | inr (old_id, e) ↦
        rw (e, progress_rotation)
          (if-Shrinks (missed_readiness cfg w now) db (want_terminated-Shrinks w.id db)
            (drain_old-Shrinks w (get_worker cfg old_id db) db))
  ]

  progress_each-Shrinks :
      (workers : List Worker) (db : Db) → Shrinks db (progress_each cfg workers now db)
  unfolding progress_each
  progress_each-Shrinks [] db = same db
  progress_each-Shrinks (w ∷ workers) db =
      chain (progress_rotation-Shrinks w db)
        (progress_each-Shrinks workers (progress_rotation cfg w now db))

  replace_target-Grows :
      (replacement_id : String) (target : Option Worker) (db : Db)
      → count_workers cfg (replace_target cfg replacement_id now target db)
        ≤ suc (count_workers cfg db)
  unfolding start_rotation_replacement deployment_clause count_workers
  replace_target-Grows replacement_id none db = omega arith
  replace_target-Grows replacement_id (some old) db =
      let fresh : Worker =
        let w = new_worker cfg replacement_id now in
        record w { replacement_for = some old.id; generation = old.generation + 1 } in
      let added : Db = record db { workers = db.workers ++ fresh ∷ [] } in
      let more = count-append_one (deployment_clause cfg) fresh db.workers in
      let kept =
        commit_fields-Shrinks old.id (λ w. record w { rotation_requested = false }) added
          (λ v h. h) in
      omega (arith, more, kept.shrinks)

  -- A rotation is started only below one worker more than the maximum.
  start_new_rotations-bound :
      (replacement_id : String) (db : Db)
      → count_workers cfg db ≤ cfg.max_workers + 1
      → count_workers cfg (start_new_rotations cfg replacement_id now db) ≤ cfg.max_workers + 1
  unfolding start_new_rotations
  start_new_rotations-bound replacement_id db h =
      elim (Bool-cases (ltb 0 (count_active_replacements cfg db))) [
        | inl e ↦ rw e h
        | inr e ↦ rw e (elim (Bool-cases (leb (cfg.max_workers + 1) (count_workers cfg db))) [
          | inl f ↦ rw f h
          | inr f ↦
              rw f (
                ground (arith, replace_target-Grows replacement_id (rotation_target cfg now db) db))
        ])
      ]

  -- A deployment of at most one worker more than the configured maximum has at most that many after
  -- the drains and rotations of a tick, whether or not the check for new rotations is due.
  pub advance_drains_and_rotations-bound :
      (replacement_id : String) (next_rotation_check_at : Option ℕ) (db : Db)
      → count_workers cfg db ≤ cfg.max_workers + 1
      → count_workers cfg
          (advance_drains_and_rotations cfg replacement_id now next_rotation_check_at db).1
        ≤ cfg.max_workers + 1
  unfolding advance_drains_and_rotations progress_rotations advance_drains finalize_terminations
  advance_drains_and_rotations-bound replacement_id next_rotation_check_at db h =
      let progressed = progress_rotations cfg now db in
      let advanced = advance_drains cfg now progressed in
      let first = progress_each-Shrinks (find_replacement_workers cfg db) db in
      let second = advance_each-Shrinks (find_draining_workers cfg progressed) progressed in
      let third =
        finalize_each-Shrinks (find_workers_pending_termination_finalize cfg advanced) advanced in
      let all = chain first (chain second third) in
      elim (Bool-cases (due cfg next_rotation_check_at now)) [
        | inl e ↦ rw e (
            start_new_rotations-bound replacement_id (finalize_terminations cfg now advanced)
              (omega (arith, all.shrinks)))
        | inr e ↦ rw e (omega (arith, all.shrinks))
      ]
