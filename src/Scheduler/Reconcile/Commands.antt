-- ===== src/Scheduler/Reconcile/Commands.antt =====
-- The commands that a reconciliation of one worker may send.
use mathlib.Core.Path.{subst}
use mineru_gateway.Base.{
  ℕ, ◌≡◌, refl, ◌∙◌, true, false, String, ◌∷◌, Option, none, some, ◌&&◌, ◌||◌, not, arith, nonempty,
  Bool-cases, inl, inr,
}
use Prim.Native.String.{◌++◌}
use mineru_gateway.Base.Action.{
  Answer, returned, raised, Action, Keeps, Yields, Anything, pure-Keeps, bind-Keeps, then-Keeps,
  if-Keeps,
}
use mineru_gateway.Base.Table.{All}
use mineru_gateway.Config.{GatewaySettings}
use mineru_gateway.Cloud.{CloudState, same_state, cloud_state_from_instance, DiscoveredInstance}
use mineru_gateway.Models.{Worker, Db}
use mineru_gateway.Scheduler.Provider.{
  CloudFailure, ComputeProvider, Command, launch_vm, start_vm, stop_vm, terminate_vm, World, ask,
  order, commit, is_vm_taken, commit_vm, in_world,
}
use mineru_gateway.Scheduler.Reconcile.{
  ReconcileResult, quiet, is_instance, sync_instance_id, sync_cloud_state, sync_discovered_state,
  sync_discovered, launch_missing_instance, transition_power_state, missed_launch_deadline,
  sync_base_url, check_running_readiness, follow_cloud_state, after_transition, reconcile_instance,
  reconcile_missing, reconcile_synced, reconcile_one_worker,
}

-- What a command needs of the worker that it serves, where `Owns i` says that the VM `i` is the
-- worker's: a VM is launched only for a worker that shall run, and its own VM is started only if it shall
-- run, stopped only if it shall be stopped, and terminated only if it shall be terminated.
abbrev pub IsDue : (Owns : String → Type 0) → Worker → Command → Type 0
IsDue Owns w (launch_vm k) = (k ≡ w.id) × (same_state w.desired_state CloudState.running ≡ true)
IsDue Owns w (start_vm i) = Owns i × (same_state w.desired_state CloudState.running ≡ true)
IsDue Owns w (stop_vm i) = Owns i × (same_state w.desired_state CloudState.stopped ≡ true)
IsDue Owns w (terminate_vm i) = Owns i × (same_state w.desired_state CloudState.terminated ≡ true)

-- The same worker with the same intent, and a VM that is its own.
pub record IsSame (Owns : String → Type 0) (w v : Worker) : Type 0 where
  pub id : v.id ≡ w.id
  pub desired : v.desired_state ≡ w.desired_state
  pub owned : (i : String) → v.instance_id ≡ some i → Owns i

pub IsDue-same :
    (Owns : String → Type 0) (w v : Worker) (c : Command)
    → IsSame Owns w v
    → IsDue Owns v c
    → IsDue Owns w c
IsDue-same Owns w v (launch_vm k) s h = (h.0 ∙ s.id, rw (← s.desired) h.1)
IsDue-same Owns w v (start_vm i) s h = (h.0, rw (← s.desired) h.1)
IsDue-same Owns w v (stop_vm i) s h = (h.0, rw (← s.desired) h.1)
IsDue-same Owns w v (terminate_vm i) s h = (h.0, rw (← s.desired) h.1)

-- Every command that was sent has the property.
abbrev pub AllSent : {S : Type 0} → (Command → Type 0) → World S → Type 0
AllSent P w = All P w.sent

module _ {S : Type 0} {P : Command → Type 0} where
  pub commit-AllSent : (f : Db → Db) → Keeps (AllSent P) Anything (commit {S = S} f)
  unfolding commit
  commit-AllSent f = record { run = λ w h. (h, tt) }

  pub commit_vm-AllSent :
      (k i : String) (f : Db → Db) → Keeps (AllSent P) Anything (commit_vm {S = S} k i f)
  unfolding commit_vm commit
  commit_vm-AllSent k i f = record {
    run = λ w h. elim (Bool-cases (is_vm_taken k i w.db)) [
      | inl q ↦ rw q (h, tt)
      | inr q ↦ rw q (h, tt)
    ];
  }

  pub ask-AllSent : {A : Type 0} (m : Action CloudFailure S A) → Keeps (AllSent P) Anything (ask m)
  unfolding ask
  ask-AllSent {A} m = record { run = λ w h. go w h (m w.cloud) }
    where
      go :
          (w : World S)
          → AllSent P w
          → (r : Answer CloudFailure A × S)
          → AllSent P (in_world w r).1 × Yields Anything (in_world w r).0
      go w h (returned a, cloud) = (h, tt)
      go w h (raised e, cloud) = (h, tt)

  pub order-AllSent :
      {A : Type 0} (c : Command) (m : Action CloudFailure S A)
      → P c
      → Keeps (AllSent P) Anything (order c m)
  unfolding order
  order-AllSent {A} c m p = record { run = λ w h. go w h (m w.cloud) }
    where
      go :
          (w : World S)
          → AllSent P w
          → (r : Answer CloudFailure A × S)
          → AllSent P (in_world (record w { sent = c ∷ w.sent }) r).1
            × Yields Anything (in_world (record w { sent = c ∷ w.sent }) r).0
      go w h (returned a, cloud) = ((p, h), tt)
      go w h (raised e, cloud) = ((p, h), tt)

-- The operations of the reconciliation, for a property that every due command of the worker has.
module _ {S : Type 0} (cfg : GatewaySettings) (provider : ComputeProvider S) (now : ℕ) where
  module _ (P : Command → Type 0) (Owns : String → Type 0) (worker : Worker)
      (due : (c : Command) → IsDue Owns worker c → P c) where
    sync_discovered-Keeps :
        (discovered : Option DiscoveredInstance)
        → ((i : String) → worker.instance_id ≡ some i → Owns i)
        → ((d : DiscoveredInstance) → discovered ≡ some d → Owns d.instance_id)
        → Keeps
            (AllSent P)
            (IsSame Owns worker)
            (sync_discovered cfg provider now worker discovered)
    unfolding sync_discovered sync_discovered_state sync_instance_id sync_cloud_state
    sync_discovered-Keeps none own shown =
        pure-Keeps (IsSame Owns worker) worker (record { id = refl; desired = refl; owned = own })
    sync_discovered-Keeps (some found) own shown =
        let state = cloud_state_from_instance found.state in
        bind-Keeps
          (if-Keeps (is_instance found.instance_id worker.instance_id)
            (λ _.
              pure-Keeps (IsSame Owns worker) worker
                (record { id = refl; desired = refl; owned = own }))
            (λ _. then-Keeps (commit_vm-AllSent _ _ _) (
              pure-Keeps (IsSame Owns worker) _ (record {
                id = refl;
                desired = refl;
                owned = λ i e.
                    (let same : found.instance_id ≡ i = ground (arith, e) in
                      subst Owns same (shown found refl));
              }))))
          (λ v s.
            if-Keeps
              (not (same_state state CloudState.unknown) && not (same_state v.cloud_state state))
              (λ _. then-Keeps (commit-AllSent _) (
                pure-Keeps (IsSame Owns worker) _
                  (record { id = s.id; desired = s.desired; owned = s.owned })))
              (λ _. pure-Keeps (IsSame Owns worker) v s))

    launch_missing_instance-Keeps :
        (discovered : Option DiscoveredInstance)
        → same_state worker.desired_state CloudState.running ≡ true
        → Keeps (AllSent P) Anything (launch_missing_instance cfg provider now worker discovered)
    unfolding launch_missing_instance
    launch_missing_instance-Keeps (some found) h =
        then-Keeps (commit_vm-AllSent _ _ _) (pure-Keeps Anything quiet tt)
    launch_missing_instance-Keeps none h =
        bind-Keeps (order-AllSent (launch_vm worker.id) _ (due (launch_vm worker.id) (refl, h)))
          (λ id _. then-Keeps (commit_vm-AllSent _ _ _) (pure-Keeps Anything quiet tt))

    transition_power_state-Keeps :
        (i : String) (state : CloudState)
        → Owns i
        → Keeps (AllSent P) Anything (transition_power_state cfg provider now worker i state)
    unfolding transition_power_state
    transition_power_state-Keeps i state own =
        let desired = worker.desired_state in
        if-Keeps (same_state desired CloudState.running && same_state state CloudState.stopped)
          (λ h.
            then-Keeps
              (then-Keeps (order-AllSent (start_vm i) _ (due (start_vm i) (own, ground (arith, h))))
                (commit-AllSent _))
              (pure-Keeps Anything _ tt))
          (λ _.
            if-Keeps (same_state desired CloudState.stopped && same_state state CloudState.running)
              (λ h.
                then-Keeps
                  (then-Keeps
                    (order-AllSent (stop_vm i) _ (due (stop_vm i) (own, ground (arith, h))))
                    (commit-AllSent _))
                  (pure-Keeps Anything _ tt))
              (λ _.
                if-Keeps
                  (same_state desired CloudState.terminated
                    && not (same_state state CloudState.terminated))
                  (λ h.
                    then-Keeps
                      (then-Keeps
                        (order-AllSent (terminate_vm i) _
                          (due (terminate_vm i) (own, ground (arith, h))))
                        (commit-AllSent _))
                      (pure-Keeps Anything _ tt))
                  (λ _. pure-Keeps Anything none tt)))

    sync_base_url-Keeps :
        (ip : Option String) → Keeps (AllSent P) Anything (sync_base_url cfg provider now worker ip)
    unfolding sync_base_url
    sync_base_url-Keeps none = pure-Keeps Anything tt tt
    sync_base_url-Keeps (some ip) =
        let url = "http://" ++ ip ++ ":8000" in
        if-Keeps (nonempty (some ip) && not (is_instance url worker.base_url))
          (λ _. commit-AllSent _) (λ _. pure-Keeps Anything tt tt)

    check_running_readiness-Keeps :
        (i : String)
        → Keeps (AllSent P) Anything (check_running_readiness cfg provider now worker i)
    unfolding check_running_readiness
    check_running_readiness-Keeps i = bind-Keeps (ask-AllSent (provider.get_private_ip i)) (λ ip _.
        then-Keeps (sync_base_url-Keeps ip) (
          if-Keeps (missed_launch_deadline cfg provider now worker)
            (λ _. then-Keeps (commit-AllSent _) (pure-Keeps Anything true tt))
            (λ _. pure-Keeps Anything false tt)))

    follow_cloud_state-Keeps :
        (state : CloudState)
        → ((i : String) → worker.instance_id ≡ some i → Owns i)
        → Keeps (AllSent P) (IsSame Owns worker) (follow_cloud_state cfg provider now worker state)
    unfolding follow_cloud_state
    follow_cloud_state-Keeps state own =
        if-Keeps (same_state state worker.cloud_state)
          (λ _.
            pure-Keeps (IsSame Owns worker) worker
              (record { id = refl; desired = refl; owned = own }))
          (λ _.
            then-Keeps
              (then-Keeps (commit-AllSent _) (
                if-Keeps
                  (same_state state CloudState.stopped || same_state state CloudState.terminated)
                  (λ _. commit-AllSent _) (λ _. pure-Keeps Anything tt tt)))
              (pure-Keeps (IsSame Owns worker) _
                (record { id = refl; desired = refl; owned = own })))

    after_transition-Keeps :
        (i : String) (state : CloudState) (result : Option ReconcileResult)
        → Keeps (AllSent P) Anything (after_transition cfg provider now worker i state result)
    unfolding after_transition
    after_transition-Keeps i state (some result) = pure-Keeps Anything result tt
    after_transition-Keeps i state none =
        if-Keeps
          (same_state worker.desired_state CloudState.running
            && same_state state CloudState.running)
          (λ _. bind-Keeps (check_running_readiness-Keeps i) (λ failed _. pure-Keeps Anything _ tt))
          (λ _. pure-Keeps Anything quiet tt)

    reconcile_missing-Keeps :
        (discovered : Option DiscoveredInstance)
        → Keeps (AllSent P) Anything (reconcile_missing cfg provider now worker discovered)
    unfolding reconcile_missing
    reconcile_missing-Keeps discovered =
        if-Keeps (same_state worker.desired_state CloudState.running)
          (λ h. launch_missing_instance-Keeps discovered h)
          (λ _.
            then-Keeps
              (if-Keeps (same_state worker.desired_state CloudState.terminated)
                (λ _. commit-AllSent _) (λ _. pure-Keeps Anything tt tt))
              (pure-Keeps Anything quiet tt))

  module _ (P : Command → Type 0) (Owns : String → Type 0) (worker : Worker)
      (due : (c : Command) → IsDue Owns worker c → P c) where
    due_for : (v : Worker) → IsSame Owns worker v → (c : Command) → IsDue Owns v c → P c
    due_for v s c d = due c (IsDue-same Owns worker v c s d)

    reconcile_instance-Keeps :
        (i : String)
        → Owns i
        → ((i : String) → worker.instance_id ≡ some i → Owns i)
        → Keeps (AllSent P) Anything (reconcile_instance cfg provider now worker i)
    unfolding reconcile_instance
    reconcile_instance-Keeps i mine own = bind-Keeps (ask-AllSent (provider.get_state i)) (λ vm _.
        let state = cloud_state_from_instance vm in
        if-Keeps
          (same_state state CloudState.terminated
            && (same_state worker.desired_state CloudState.running
                || same_state worker.desired_state CloudState.stopped))
          (λ _. then-Keeps (commit-AllSent _) (pure-Keeps Anything quiet tt))
          (λ _. bind-Keeps (follow_cloud_state-Keeps P Owns worker due state own) (λ v s.
            bind-Keeps (transition_power_state-Keeps P Owns v (due_for v s) i state mine)
              (λ result _. after_transition-Keeps P Owns v (due_for v s) i state result))))

  -- The reconciliation of one worker, with or without a discovered VM, sends only commands that are
  -- due to the worker and about its own VM: a property that every due command has holds of every
  -- command sent, if it did before, also where a call of the provider raises.
  pub reconcile_one_worker-Keeps :
      (P : Command → Type 0) (Owns : String → Type 0) (worker : Worker)
      (discovered : Option DiscoveredInstance)
      → ((i : String) → worker.instance_id ≡ some i → Owns i)
      → ((d : DiscoveredInstance) → discovered ≡ some d → Owns d.instance_id)
      → ((c : Command) → IsDue Owns worker c → P c)
      → Keeps (AllSent P) Anything (reconcile_one_worker cfg provider now worker discovered)
  unfolding reconcile_one_worker
  reconcile_one_worker-Keeps P Owns worker discovered own shown due =
      bind-Keeps (sync_discovered-Keeps P Owns worker due discovered own shown) (λ v s.
        synced v (λ c d. due c (IsDue-same Owns worker v c s d)) s.owned v.instance_id s.owned)
    where
      synced :
          (v : Worker)
          → ((c : Command) → IsDue Owns v c → P c)
          → ((i : String) → v.instance_id ≡ some i → Owns i)
          → (o : Option String) → ((i : String) → o ≡ some i → Owns i)
          → Keeps (AllSent P) Anything (reconcile_synced cfg provider now discovered v o)
      synced v d own none mine = reconcile_missing-Keeps P Owns v d discovered
      synced v d own (some i) mine = reconcile_instance-Keeps P Owns v d i (mine i refl) own
