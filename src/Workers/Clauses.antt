-- ===== src/Workers/Clauses.antt =====
-- The WHERE clauses of `WorkerRepository` over one worker row.
use mineru_gateway.Base.{
  ℕ, Bool, String, List, none, some, ◌==◌, ◌&&◌, ◌||◌, not, ltb, leb, is_none, is_some, before,
}
use mineru_gateway.Base.Table.{count_where}
use mineru_gateway.Config.{GatewaySettings}
use mineru_gateway.Cloud.{CloudState, same_state}
use mineru_gateway.Models.{Worker, Task}
use mineru_gateway.Tasks.Status.{is_computing, is_drain_blocker}

-- `Task.worker_id == w`
abbrev pub assigned_to : String → Task → Bool
assigned_to w t = elim t.worker_id [ none ↦ Bool.false | some v ↦ v == w ]

-- `_compute_capacity_subquery`: the tasks that occupy a compute slot of the worker.
unfoldable pub computing_on : String → Task → Bool
computing_on w t = assigned_to w t && is_computing t.status

unfoldable pub active_count : List Task → String → ℕ
unfolding computing_on
active_count tasks w = count_where (computing_on w) tasks

-- `_drain_blocker_subquery` and the query of `count_inflight_tasks`.
unfoldable pub blocking_drain : String → Task → Bool
blocking_drain w t = assigned_to w t && is_drain_blocker t.status

-- `Worker.replacement_for == worker_id`
abbrev pub replaces : String → Worker → Bool
replaces worker_id w = elim w.replacement_for [ none ↦ Bool.false | some v ↦ v == worker_id ]

module _ (cfg : GatewaySettings) where
  unfoldable pub deployment_clause : Worker → Bool
  deployment_clause w =
      w.deployment_id == cfg.deployment_id && w.provider == cfg.provider && is_none w.terminated_at

  unfoldable pub stalled_clause : Worker → Bool
  stalled_clause w = leb cfg.max_failure_count w.failure_count

  unfoldable pub serviceable_clause : Worker → Bool
  unfolding deployment_clause
  serviceable_clause w =
      deployment_clause w
      && same_state w.desired_state CloudState.running
      && same_state w.cloud_state CloudState.running
      && w.healthy
      && is_some w.base_url
      && not w.draining
      && ltb w.failure_count cfg.max_failure_count

  unfoldable pub health_check_clause : Worker → Bool
  unfolding deployment_clause
  health_check_clause w =
      deployment_clause w
      && is_none w.terminated_at
      && is_some w.base_url
      && same_state w.desired_state CloudState.running
      && (same_state w.cloud_state CloudState.running
          || same_state w.cloud_state CloudState.pending)
      && not w.draining

  unfoldable pub ready_serviceable_clause : Worker → Bool
  unfolding serviceable_clause
  ready_serviceable_clause w = serviceable_clause w && is_some w.ready_at

  unfoldable pub dispatchable_clause : List Task → Worker → Bool
  unfolding serviceable_clause
  dispatchable_clause tasks w =
      serviceable_clause w && ltb (active_count tasks w.id) cfg.target_per_worker

  unfoldable pub provisioning_clause : Worker → Bool
  unfolding deployment_clause
  provisioning_clause w =
      deployment_clause w
      && (same_state w.desired_state CloudState.running
            && (same_state w.cloud_state CloudState.pending
                || same_state w.cloud_state CloudState.unknown
                || same_state w.cloud_state CloudState.starting)
          || same_state w.desired_state CloudState.running
            && same_state w.cloud_state CloudState.running
            && not w.healthy
            && is_none w.ready_at)
      && not w.draining
      && ltb w.failure_count cfg.max_failure_count

  unfoldable pub draining_clause : Worker → Bool
  unfolding deployment_clause
  draining_clause w =
      deployment_clause w
      && w.draining
      && not (same_state w.desired_state CloudState.terminated)
      && is_none w.terminated_at

  unfoldable pub stopping_clause : Worker → Bool
  unfolding deployment_clause
  stopping_clause w =
      deployment_clause w
      && is_none w.terminated_at
      && (same_state w.cloud_state CloudState.stopping
          || same_state w.cloud_state CloudState.terminating
          || (same_state w.desired_state CloudState.stopped
              || same_state w.desired_state CloudState.terminated)
            && not (
                same_state w.cloud_state CloudState.stopped
                || same_state w.cloud_state CloudState.terminated))

  unfoldable pub stalled_and_active_clause : Worker → Bool
  unfolding deployment_clause stalled_clause
  stalled_and_active_clause w =
      deployment_clause w
      && stalled_clause w
      && not (same_state w.desired_state CloudState.terminated)

  -- The conditions of `find_stopped_worker`.
  unfoldable pub stopped_clause : Worker → Bool
  unfolding deployment_clause
  stopped_clause w =
      deployment_clause w
      && same_state w.desired_state CloudState.stopped
      && same_state w.cloud_state CloudState.stopped
      && is_some w.instance_id
      && not w.draining

  -- The conditions of `find_idle_worker`.
  unfoldable pub idle_clause : List Task → (idle_before : ℕ) → Worker → Bool
  unfolding deployment_clause blocking_drain
  idle_clause tasks idle_before w =
      deployment_clause w
      && same_state w.desired_state CloudState.running
      && same_state w.cloud_state CloudState.running
      && w.healthy
      && not w.draining
      && is_none w.replacement_for
      && is_some w.ready_at
      && before w.ready_at idle_before
      && leb (count_where (blocking_drain w.id) tasks) 0
      && (is_none w.last_active_at || before w.last_active_at idle_before)

  unfoldable pub active_replacement_clause : Worker → Bool
  unfolding deployment_clause
  active_replacement_clause w =
      deployment_clause w
      && is_some w.replacement_for
      && not (same_state w.desired_state CloudState.terminated)

  unfoldable pub rotation_eligible_clause : Worker → Bool
  unfolding deployment_clause
  rotation_eligible_clause w =
      deployment_clause w
      && same_state w.desired_state CloudState.running
      && same_state w.cloud_state CloudState.running
      && w.healthy
      && not w.draining
      && is_none w.replacement_for
      && is_some w.instance_id

  -- The conditions of `find_workers_pending_termination_finalize`.
  unfoldable pub pending_finalize_clause : Worker → Bool
  unfolding deployment_clause
  pending_finalize_clause w =
      deployment_clause w
      && same_state w.desired_state CloudState.terminated
      && same_state w.cloud_state CloudState.terminated
