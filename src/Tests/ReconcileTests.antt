-- ===== src/Tests/ReconcileTests.antt =====
-- Runs of the reconciliation over a cloud that is a list of VMs.
use mineru_gateway.Base.{refl, String, List, [], ◌∷◌, Option, none, some, ◌==◌, false}
use mineru_gateway.Base.Action.{Answer, returned, raised, Action}
use mineru_gateway.Base.Table.{All, update_where, find_where}
use mineru_gateway.Cloud.{InstanceState, DiscoveredInstance}
use mineru_gateway.Workers.Queries.{list_deployment_workers}
use mineru_gateway.Scheduler.Provider.{CloudFailure, ComputeProvider, World}
use mineru_gateway.Scheduler.Reconcile.Pass.{reconcile_workers}
use mineru_gateway.Scheduler.Reconcile.Justified.{IsJustified, reconcile_workers-IsJustified}
use mineru_gateway.Tests.Data.{settings, waiting_db}

abbrev Vms : Type 0
Vms = List DiscoveredInstance

abbrev managed_tags : List (String × String)
managed_tags = ("mineru-gateway-managed", "true") ∷ ("mineru-gateway-role", "worker") ∷ []

abbrev in_state : InstanceState → String → Action CloudFailure Vms (Unit {0})
in_state state i vms =
    (returned tt, update_where (λ vm. vm.instance_id == i) (λ vm. record vm { state = state }) vms)

abbrev found_state : Option DiscoveredInstance → Vms → Answer CloudFailure InstanceState × Vms
found_state none vms = (raised (record { message = "no such instance"; retryable = false }), vms)
found_state (some vm) vms = (returned vm.state, vms)

-- A provider that obeys at once.
abbrev vm_list : ComputeProvider Vms
vm_list = record {
  discover = λ deployment vms. (returned vms, vms);
  launch = λ worker deployment generation vms. (
    returned worker,
    record {
      instance_id = worker;
      worker_id = some worker;
      state = InstanceState.running;
      tags = managed_tags;
    }
        ∷ vms,
  );
  start = in_state InstanceState.running;
  stop = in_state InstanceState.suspended;
  terminate = in_state InstanceState.terminated;
  get_state = λ i vms. found_state (find_where (λ vm. vm.instance_id == i) vms) vms;
  get_private_ip = λ i vms. (returned (some "10.0.0.1"), vms);
}

abbrev vm : String → String → DiscoveredInstance
vm i worker = record {
  instance_id = i;
  worker_id = some worker;
  state = InstanceState.running;
  tags = managed_tags;
}

-- Two VMs of the worker, and one of a worker that is not known.
abbrev vms : Vms
vms = vm "i-1" "w1" ∷ vm "i-2" "w1" ∷ vm "i-3" "w9" ∷ []

abbrev world : World Vms
world = record { db = waiting_db; cloud = vms; sent = [] }

abbrev after_pass : World Vms
after_pass = (reconcile_workers settings vm_list 10 world).1

reconcile_workers-IsJustified_example :
    All (IsJustified settings 10 (list_deployment_workers settings waiting_db) vms) after_pass.sent
reconcile_workers-IsJustified_example =
    reconcile_workers-IsJustified settings vm_list 10 world vms vms refl refl
