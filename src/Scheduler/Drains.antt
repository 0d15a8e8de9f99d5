-- ===== src/Scheduler/Drains.antt =====
-- `_advance_drains`, `_converge_stalled_workers` and `_finalize_terminations`: how drained and
-- stalled workers end.
use mineru_gateway.Base.{
  ℕ, ◌+◌, Bool, false, String, List, [], ◌∷◌, none, some, ◌&&◌, ◌||◌, not, ltb, leb, is_none,
  if◌then◌else◌, seconds, or_else,
}
use mineru_gateway.Config.{GatewaySettings}
use mineru_gateway.Cloud.{CloudState, same_state}
use mineru_gateway.Models.{Worker, Db}
use mineru_gateway.Workers.Queries.{
  count_inflight_tasks, count_unstored_results, find_draining_workers, find_stalled_workers,
  has_active_replacement_for, get_ready_replacement_for, find_workers_pending_termination_finalize,
}
use mineru_gateway.Workers.Commits.{commit_fields, record_scaling_event, finalize_terminated_worker}

-- `inflight > 0 or unstored > 0`
unfoldable pub has_active_work : String → Db → Bool
has_active_work k db = ltb 0 (count_inflight_tasks k db) || ltb 0 (count_unstored_results k db)

-- `commit_fields(worker.id, desired_state="terminated")`
unfoldable pub want_terminated : String → (now : ℕ) → Db → Db
want_terminated k now =
    commit_fields k now (λ w. record w { desired_state = CloudState.terminated })

unfoldable pub want_stopped : String → (now : ℕ) → Db → Db
want_stopped k now =
    commit_fields k now
      (λ w. record w { desired_state = CloudState.stopped; draining = false; drain_target = none })

-- `drain_target == "terminated"`
abbrev pub drains_to_terminated : Worker → Bool
drains_to_terminated w = elim w.drain_target [
  | none ↦ false
  | some s ↦ same_state s CloudState.terminated
]

module _ (cfg : GatewaySettings) where
  -- The body of the loop of `_advance_drains`.
  unfoldable pub advance_drain : Worker → (now : ℕ) → Db → Db
  advance_drain worker now db =
      if has_active_work worker.id db
      then db
      else (if has_active_replacement_for cfg worker.id db
          then (if is_none (get_ready_replacement_for cfg worker.id db)
              then db
              else want_terminated worker.id now db)
          else (if drains_to_terminated worker
              then want_terminated worker.id now db
              else want_stopped worker.id now db))

  unfoldable pub advance_each : List Worker → (now : ℕ) → Db → Db
  advance_each [] now db = db
  advance_each (worker ∷ workers) now db = advance_each workers now (advance_drain worker now db)

  -- `_advance_drains`
  unfoldable pub advance_drains : (now : ℕ) → Db → Db
  advance_drains now db = advance_each (find_draining_workers cfg db) now db

  -- A stalled worker with a known time of stalling, which still has work.
  unfoldable pub converge_by_grace : Worker → (stalled_at now : ℕ) → Db → Db
  converge_by_grace worker stalled_at now db =
      if leb (stalled_at + seconds cfg.stalled_worker_grace_seconds) now
        && not (same_state worker.desired_state CloudState.terminated)
      then record_scaling_event "terminate" "stalled worker grace period expired" (some worker.id)
          "reconciliation" none now (want_terminated worker.id now db)
      else db

  -- `stalled_at = now` where the row has none.
  unfoldable pub stamp_stalled : Worker → (now : ℕ) → Db → Db
  stamp_stalled worker now db =
      if is_none worker.stalled_at
      then commit_fields worker.id now (λ w. record w { stalled_at = some now }) db
      else db

  -- The body of the loop of `_converge_stalled_workers`.
  unfoldable pub converge_stalled : Worker → (now : ℕ) → Db → Db
  converge_stalled worker now db =
      if not (has_active_work worker.id db)
      then (if not (same_state worker.desired_state CloudState.terminated)
          then record_scaling_event "terminate" "stalled worker with no active upstream work"
              (some worker.id) "reconciliation" none now (want_terminated worker.id now db)
          else db)
      else converge_by_grace worker (or_else worker.stalled_at now) now
          (stamp_stalled worker now db)

  unfoldable pub converge_each : List Worker → (now : ℕ) → Db → Db
  converge_each [] now db = db
  converge_each (worker ∷ workers) now db =
      converge_each workers now (converge_stalled worker now db)

  -- `_converge_stalled_workers`
  unfoldable pub converge_stalled_workers : (now : ℕ) → Db → Db
  converge_stalled_workers now db = converge_each (find_stalled_workers cfg db) now db

  unfoldable pub finalize_each : List Worker → (now : ℕ) → Db → Db
  finalize_each [] now db = db
  finalize_each (worker ∷ workers) now db =
      finalize_each workers now (finalize_terminated_worker worker.id now db)

  -- `_finalize_terminations`
  unfoldable pub finalize_terminations : (now : ℕ) → Db → Db
  finalize_terminations now db =
      finalize_each (find_workers_pending_termination_finalize cfg db) now db
