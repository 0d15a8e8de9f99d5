-- ===== src/Scheduler/Busy.antt =====
-- A worker that still has work is left alone while it drains, and while it is stalled for less than
-- the grace period.
use mineru_gateway.Base.{
  ℕ, ◌+◌, ◌<◌, ◌≡◌, refl, ◌∙◌, Bool, true, false, String, List, [], ◌∷◌, none, some, ◌==◌, ◌&&◌,
  not, leb, is_none, inl, inr, arith, eq_iff, Bool-cases, if◌then◌else◌, or_else, seconds,
}
use mineru_gateway.Base.Table.{All}
use mineru_gateway.Base.Table.Keys.{find_where-update_other}
use mineru_gateway.Config.{GatewaySettings}
use mineru_gateway.Cloud.{CloudState, same_state}
use mineru_gateway.Models.{Worker, Db, has_id}
use mineru_gateway.Workers.Queries.{
  get_row, count_inflight_tasks, count_unstored_results, has_active_replacement_for,
  get_ready_replacement_for, find_draining_workers, find_stalled_workers,
}
use mineru_gateway.Workers.Commits.{commit_fields, record_scaling_event}
use mineru_gateway.Scheduler.Drains.{
  has_active_work, want_terminated, want_stopped, drains_to_terminated, advance_drain, advance_each,
  advance_drains, converge_stalled, converge_each, converge_by_grace, stamp_stalled,
  converge_stalled_workers,
}

-- The tasks, and the row of the worker, are as before.
pub record Untouched (k : String) (before after : Db) : Type 0 where
  pub tasks : after.tasks ≡ before.tasks
  pub row : get_row k after ≡ get_row k before

Untouched-refl : (k : String) (db : Db) → Untouched k db db
Untouched-refl k db = record { tasks = refl; row = refl }

Untouched-chain : {k : String} {a b c : Db} → Untouched k a b → Untouched k b c → Untouched k a c
Untouched-chain h g = record { tasks = g.tasks ∙ h.tasks; row = g.row ∙ h.row }

if-Untouched :
    {k : String} (b : Bool) (db : Db) {x y : Db}
    → Untouched k db x
    → Untouched k db y
    → Untouched k db (if b then x else y)
if-Untouched true db h g = h
if-Untouched false db h g = g

-- A write to another row that keeps the id.
commit_fields-Untouched :
    (k j : String) (now : ℕ) (f : Worker → Worker) (db : Db)
    → (j == k) ≡ false
    → ((w : Worker) → (f w).id ≡ w.id)
    → Untouched k db (commit_fields j now f db)
unfolding commit_fields get_row
commit_fields-Untouched k j now f db apart keep = record {
  tasks = refl;
  row =
      find_where-update_other (has_id k) (has_id j)
        (λ w. let v = f w in record v { updated_at = now }) db.workers
        (λ w e. (rw ((eq_iff w.id j).0 e) apart, rw (keep w) (rw ((eq_iff w.id j).0 e) apart)));
}

has_active_work-Untouched :
    (k : String) (before after : Db)
    → Untouched k before after
    → has_active_work k after ≡ has_active_work k before
unfolding has_active_work count_inflight_tasks count_unstored_results
has_active_work-Untouched k before after u = rw u.tasks

module _ (cfg : GatewaySettings) (now : ℕ) (k : String) where
  advance_drain-other :
      (w : Worker) (db : Db) → (w.id == k) ≡ false → Untouched k db (advance_drain cfg w now db)
  unfolding advance_drain want_terminated want_stopped
  advance_drain-other w db apart =
      let same = Untouched-refl k db in
      let terminated =
        commit_fields-Untouched k w.id now (λ v. record v { desired_state = CloudState.terminated })
          db apart (λ v. refl) in
      let stopped =
        commit_fields-Untouched k w.id now
          (λ v. record v {
            desired_state = CloudState.stopped;
            draining = false;
            drain_target = none;
          })
          db apart (λ v. refl) in
      if-Untouched (has_active_work w.id db) db same (
        if-Untouched (has_active_replacement_for cfg w.id db) db
          (if-Untouched (is_none (get_ready_replacement_for cfg w.id db)) db same terminated)
          (if-Untouched (drains_to_terminated w) db terminated stopped))

  advance_drain-idle :
      (w : Worker) (db : Db)
      → has_active_work k db ≡ true
      → w.id ≡ k
      → advance_drain cfg w now db ≡ db
  unfolding advance_drain
  advance_drain-idle w db busy e = rw (e, busy)

  advance_drain-busy :
      (w : Worker) (db : Db)
      → has_active_work k db ≡ true
      → Untouched k db (advance_drain cfg w now db)
  advance_drain-busy w db busy = elim (Bool-cases (w.id == k)) [
    | inr apart ↦ advance_drain-other w db apart
    | inl e ↦ rw (advance_drain-idle w db busy ((eq_iff w.id k).0 e)) (Untouched-refl k db)
  ]

  advance_each-busy :
      (workers : List Worker) (db : Db)
      → has_active_work k db ≡ true
      → Untouched k db (advance_each cfg workers now db)
  unfolding advance_each
  advance_each-busy [] db busy = Untouched-refl k db
  advance_each-busy (w ∷ workers) db busy =
      let first = advance_drain-busy w db busy in
      Untouched-chain first (
        advance_each-busy workers (advance_drain cfg w now db)
          (has_active_work-Untouched k db (advance_drain cfg w now db) first ∙ busy))

  -- A worker with a task in flight or a result that is not stored is not touched by the advance of
  -- drains, so it is neither stopped nor terminated.
  pub advance_drains_keeps_busy :
      (db : Db) → has_active_work k db ≡ true → Untouched k db (advance_drains cfg now db)
  unfolding advance_drains
  advance_drains_keeps_busy db busy = advance_each-busy (find_draining_workers cfg db) db busy

  -- The time of stalling is known, and the grace period is not over.
  pub record IsInGrace (w : Worker) : Type 0 where
    pub since : ℕ
    pub stalled : w.stalled_at ≡ some since
    pub early : now < since + seconds cfg.stalled_worker_grace_seconds

  terminate-other :
      (w : Worker) (reason : String) (db : Db)
      → (w.id == k) ≡ false
      → Untouched k db (
          record_scaling_event "terminate" reason
            (some w.id)
            "reconciliation"
            none
            now
            (want_terminated w.id now db))
  unfolding record_scaling_event want_terminated get_row
  terminate-other w reason db apart =
      let written =
        commit_fields-Untouched k w.id now (λ v. record v { desired_state = CloudState.terminated })
          db apart (λ v. refl) in
      record { tasks = written.tasks; row = written.row }

  stamp_stalled-other :
      (w : Worker) (db : Db) → (w.id == k) ≡ false → Untouched k db (stamp_stalled cfg w now db)
  unfolding stamp_stalled
  stamp_stalled-other w db apart =
      if-Untouched (is_none w.stalled_at) db
        (commit_fields-Untouched k w.id now (λ v. record v { stalled_at = some now }) db apart
          (λ v. refl))
        (Untouched-refl k db)

  converge_by_grace-other :
      (w : Worker) (since : ℕ) (db : Db)
      → (w.id == k) ≡ false
      → Untouched k db (converge_by_grace cfg w since now db)
  unfolding converge_by_grace
  converge_by_grace-other w since db apart =
      if-Untouched
        (leb (since + seconds cfg.stalled_worker_grace_seconds) now
          && not (same_state w.desired_state CloudState.terminated))
        db (terminate-other w "stalled worker grace period expired" db apart) (Untouched-refl k db)

  converge_stalled-other :
      (w : Worker) (db : Db) → (w.id == k) ≡ false → Untouched k db (converge_stalled cfg w now db)
  unfolding converge_stalled
  converge_stalled-other w db apart =
      if-Untouched (not (has_active_work w.id db)) db
        (if-Untouched (not (same_state w.desired_state CloudState.terminated)) db
          (terminate-other w "stalled worker with no active upstream work" db apart)
          (Untouched-refl k db))
        (Untouched-chain (stamp_stalled-other w db apart)
          (converge_by_grace-other w (or_else w.stalled_at now) (stamp_stalled cfg w now db) apart))

  converge_stalled-in_grace :
      (w : Worker) (db : Db)
      → has_active_work k db ≡ true
      → w.id ≡ k
      → IsInGrace w
      → converge_stalled cfg w now db ≡ db
  unfolding converge_stalled stamp_stalled converge_by_grace
  converge_stalled-in_grace w db busy e g =
      let early : leb (g.since + seconds cfg.stalled_worker_grace_seconds) now ≡ false =
        ground (arith, g.early) in
      rw (e, busy, g.stalled, early)

  converge_each-busy :
      (workers : List Worker) (db : Db)
      → has_active_work k db ≡ true
      → All (λ w. (w.id == k) ≡ true → IsInGrace w) workers
      → Untouched k db (converge_each cfg workers now db)
  unfolding converge_each
  converge_each-busy [] db busy h = Untouched-refl k db
  converge_each-busy (w ∷ workers) db busy h =
      let first : Untouched k db (converge_stalled cfg w now db) = elim (Bool-cases (w.id == k)) [
        | inr apart ↦ converge_stalled-other w db apart
        | inl e ↦
            rw (converge_stalled-in_grace w db busy ((eq_iff w.id k).0 e) (h.0 e))
              (Untouched-refl k db)
      ] in
      Untouched-chain first (
        converge_each-busy workers (converge_stalled cfg w now db)
          (has_active_work-Untouched k db (converge_stalled cfg w now db) first ∙ busy) h.1)

  -- A worker with a task in flight or a result that is not stored, of which every stalled row is
  -- still in its grace period, is not touched by the convergence of stalled workers.
  pub converge_stalled_workers_keeps_busy :
      (db : Db)
      → has_active_work k db ≡ true
      → All (λ w. (w.id == k) ≡ true → IsInGrace w) (find_stalled_workers cfg db)
      → Untouched k db (converge_stalled_workers cfg now db)
  unfolding converge_stalled_workers
  converge_stalled_workers_keeps_busy db busy h =
      converge_each-busy (find_stalled_workers cfg db) db busy h
