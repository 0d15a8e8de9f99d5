-- ===== src/Scheduler/Reconcile.antt =====
-- `_reconcile_workers` and what it calls: the cloud is aligned with the rows. A `Worker` argument is
-- the object that the code read at the start of the pass; its attributes that the code assigns are
-- assigned here too, and the others keep the values that were read.
pub mod Pass
pub mod Commands
pub mod Justified
use mineru_gateway.Base.{
  ℕ, zero, suc, ◌+◌, Bool, true, false, String, List, [], ◌∷◌, Option, none, some, ◌==◌, ◌&&◌, ◌||◌,
  not, leb, ltb, is_none, is_some, nonempty, or_else, if◌then◌else◌, seconds,
}
use Prim.Native.String.{◌++◌}
use mineru_gateway.Base.Action.{
  Answer, returned, raised, Action, pure, try_except, for_each, ◌>>=◌, ◌>>◌,
}
use mineru_gateway.Base.Table.{update_where, select_where, find_where, first_by}
use mineru_gateway.Config.{GatewaySettings}
use mineru_gateway.Cloud.{
  CloudState, same_state, InstanceState, cloud_state_from_instance, DiscoveredInstance,
}
use mineru_gateway.Models.{Worker, Db, has_id}
use mineru_gateway.Workers.Queries.{text_less, contains, list_deployment_workers}
use mineru_gateway.Workers.Commits.{
  commit_fields, record_failure, reset_cloud_failures, finalize_disappeared_instance,
  record_scaling_event,
}
use mineru_gateway.Scheduler.Provider.{
  CloudFailure, ComputeProvider, Command, launch_vm, start_vm, stop_vm, terminate_vm, World, Run,
  ask, order, commit, commit_vm,
}

-- `_ReconcileResult`
pub record ReconcileResult : Type 0 where
  pub reset_cloud_retries : Bool
  pub failure_recorded : Bool

abbrev pub quiet : ReconcileResult
quiet = record { reset_cloud_retries = true; failure_recorded = false }

-- `worker.instance_id == instance_id`
abbrev pub is_instance : String → Option String → Bool
is_instance i none = false
is_instance i (some j) = j == i

-- `_should_skip_reconcile`
unfoldable pub should_skip_reconcile : GatewaySettings → Worker → (now : ℕ) → Bool
should_skip_reconcile cfg w now =
    leb cfg.max_failure_count w.failure_count
      && not (same_state w.desired_state CloudState.terminated)
    || ltb w.failure_count cfg.max_failure_count
      && (elim w.retry_after [ none ↦ false | some t ↦ ltb now t ])

module _ {S : Type 0} (cfg : GatewaySettings) (provider : ComputeProvider S) (now : ℕ) where
  open provider use {discover, launch, start, stop, terminate, get_state, get_private_ip}

  abbrev pub write : Worker → (Worker → Worker) → Run S (Unit {0})
  write worker f = commit (commit_fields worker.id now f)

  abbrev pub write_vm : Worker → (instance_id : String) → (Worker → Worker) → Run S (Unit {0})
  write_vm worker instance_id f = commit_vm worker.id instance_id (commit_fields worker.id now f)

  -- `_sync_discovered_state`: the worker with what the assignments leave in it.
  unfoldable pub sync_instance_id : Worker → DiscoveredInstance → Run S Worker
  sync_instance_id worker found =
      if is_instance found.instance_id worker.instance_id
      then pure worker
      else write_vm worker found.instance_id
          (λ w. record w { instance_id = some found.instance_id })
        >> pure (record worker { instance_id = some found.instance_id })

  unfoldable pub sync_cloud_state : CloudState → Worker → Run S Worker
  sync_cloud_state state worker =
      if not (same_state state CloudState.unknown) && not (same_state worker.cloud_state state)
      then write worker (λ w. record w { cloud_state = state })
        >> pure (record worker { cloud_state = state })
      else pure worker

  unfoldable pub sync_discovered_state : Worker → DiscoveredInstance → Run S Worker
  sync_discovered_state worker found =
      sync_instance_id worker found >>= sync_cloud_state (cloud_state_from_instance found.state)

  -- `if discovered is not None: …`
  unfoldable pub sync_discovered : Worker → Option DiscoveredInstance → Run S Worker
  sync_discovered worker none = pure worker
  sync_discovered worker (some found) = sync_discovered_state worker found

  unfoldable pub launch_missing_instance :
      Worker → Option DiscoveredInstance → Run S ReconcileResult
  launch_missing_instance worker (some found) =
      write_vm worker found.instance_id (λ w. record w {
        instance_id = some found.instance_id;
        cloud_state = cloud_state_from_instance found.state;
      })
      >> pure quiet
  launch_missing_instance worker none =
      order (launch_vm worker.id) (launch worker.id worker.deployment_id worker.generation)
      >>= λ instance_id.
          (write_vm worker instance_id
              (λ w. record w { instance_id = some instance_id; cloud_state = CloudState.pending })
            >> pure quiet)

  -- `_transition_power_state`; `none` is a state that asks for no command.
  unfoldable pub transition_power_state :
      Worker → (instance_id : String) (cloud_state : CloudState) → Run S (Option ReconcileResult)
  transition_power_state worker instance_id cloud_state =
      if same_state worker.desired_state CloudState.running
        && same_state cloud_state CloudState.stopped
      then order (start_vm instance_id) (start instance_id)
        >> write worker (λ w. record w {
          cloud_state = CloudState.pending;
          failure_count = 0;
          retry_after = none;
          start_requested_at = some now;
          ready_at = none;
        })
        >> pure (some quiet)
      else (if same_state worker.desired_state CloudState.stopped
            && same_state cloud_state CloudState.running
          then order (stop_vm instance_id) (stop instance_id)
            >> write worker (λ w. record w { cloud_state = CloudState.stopping })
            >> pure (some quiet)
          else (if same_state worker.desired_state CloudState.terminated
                && not (same_state cloud_state CloudState.terminated)
              then order (terminate_vm instance_id) (terminate instance_id)
                >> write worker (λ w. record w { cloud_state = CloudState.terminating })
                >> pure (some quiet)
              else pure none))

  -- The age of a start that is over the timeout, of a worker that never was ready nor healthy.
  unfoldable pub missed_launch_deadline : Worker → Bool
  missed_launch_deadline worker =
      is_none worker.ready_at
      && ltb
          (or_else worker.start_requested_at worker.created_at
            + seconds cfg.launch_readiness_timeout_seconds)
          now
      && not worker.healthy

  unfoldable pub sync_base_url : Worker → Option String → Run S (Unit {0})
  sync_base_url worker none = pure tt
  sync_base_url worker (some ip) =
      let url = "http://" ++ ip ++ ":8000" in
      if nonempty (some ip) && not (is_instance url worker.base_url)
      then write worker (λ w. record w { base_url = some url })
      else pure tt

  -- `_check_running_readiness`: whether a failure was recorded.
  unfoldable pub check_running_readiness : Worker → (instance_id : String) → Run S Bool
  check_running_readiness worker instance_id = ask (get_private_ip instance_id) >>= λ ip.
      (sync_base_url worker ip
        >> (if missed_launch_deadline worker
            then commit (record_failure cfg worker.id "launch readiness timeout" true now)
              >> pure true
            else pure false))

  -- `cloud_state != worker.cloud_state`: the row follows, and a VM that is gone or stopped takes the
  -- address and the readiness of its worker with it.
  unfoldable pub follow_cloud_state : Worker → CloudState → Run S Worker
  follow_cloud_state worker cloud_state =
      if same_state cloud_state worker.cloud_state
      then pure worker
      else write worker (λ w. record w { cloud_state = cloud_state })
        >> (if same_state cloud_state CloudState.stopped
              || same_state cloud_state CloudState.terminated
            then write worker (λ w. record w {
              base_url = none;
              ready_at = none;
              healthy = false;
              last_health_checked_at = some now;
            })
            else pure tt)
        >> pure (record worker { cloud_state = cloud_state })

  abbrev pub readiness_result : Bool → ReconcileResult
  readiness_result failed = record { reset_cloud_retries = not failed; failure_recorded = failed }

  -- After the power transition: the readiness of a worker that runs as desired.
  unfoldable pub after_transition :
      Worker
      → (instance_id : String) (cloud_state : CloudState) → Option ReconcileResult
      → Run S ReconcileResult
  after_transition worker instance_id cloud_state (some result) = pure result
  after_transition worker instance_id cloud_state none =
      if same_state worker.desired_state CloudState.running
        && same_state cloud_state CloudState.running
      then (check_running_readiness worker instance_id >>= λ failed. pure (readiness_result failed))
      else pure quiet

  -- A worker with a VM.
  unfoldable pub reconcile_instance : Worker → (instance_id : String) → Run S ReconcileResult
  reconcile_instance worker instance_id = ask (get_state instance_id) >>= λ state.
      (let cloud_state = cloud_state_from_instance state in
        if same_state cloud_state CloudState.terminated
          && (same_state worker.desired_state CloudState.running
              || same_state worker.desired_state CloudState.stopped)
        then commit
            (finalize_disappeared_instance worker.id "cloud instance terminated or missing" now)
          >> pure quiet
        else follow_cloud_state worker cloud_state >>= λ followed.
            (transition_power_state followed instance_id cloud_state >>= λ result.
            after_transition followed instance_id cloud_state result))

  -- A worker with no VM.
  unfoldable pub reconcile_missing : Worker → Option DiscoveredInstance → Run S ReconcileResult
  reconcile_missing worker discovered =
      if same_state worker.desired_state CloudState.running
      then launch_missing_instance worker discovered
      else (if same_state worker.desired_state CloudState.terminated
          then write worker
              (λ w. record w { cloud_state = CloudState.terminated; terminated_at = some now })
          else pure tt)
        >> pure quiet

  abbrev pub reconcile_synced :
      Option DiscoveredInstance → Worker → Option String → Run S ReconcileResult
  reconcile_synced discovered worker none = reconcile_missing worker discovered
  reconcile_synced discovered worker (some instance_id) = reconcile_instance worker instance_id

  -- `_reconcile_one_worker`
  unfoldable pub reconcile_one_worker : Worker → Option DiscoveredInstance → Run S ReconcileResult
  reconcile_one_worker worker discovered = sync_discovered worker discovered >>= λ synced.
      reconcile_synced discovered synced synced.instance_id
