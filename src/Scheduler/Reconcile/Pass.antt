-- ===== src/Scheduler/Reconcile/Pass.antt =====
-- One pass of the reconciliation: the discovered VMs are sorted by worker, each worker is reconciled,
-- and VMs of no known worker are terminated.
use mineru_gateway.Base.{
  ℕ, Bool, true, false, String, List, [], ◌∷◌, Option, none, some, ◌==◌, ◌&&◌, not, is_some,
  nonempty, or_else, map, if◌then◌else◌,
}
use mineru_gateway.Base.Action.{pure, gets, try_except, for_each, ◌>>=◌, ◌>>◌}
use mineru_gateway.Base.Table.{update_where, select_where, find_where, first_by}
use mineru_gateway.Config.{GatewaySettings}
use mineru_gateway.Cloud.{InstanceState, cloud_state_from_instance, DiscoveredInstance}
use mineru_gateway.Models.{Worker, has_id}
use mineru_gateway.Workers.Queries.{text_less, contains, list_deployment_workers}
use mineru_gateway.Workers.Commits.{
  commit_fields, record_failure, reset_cloud_failures, record_scaling_event,
}
use mineru_gateway.Scheduler.Provider.{
  ComputeProvider, terminate_vm, Run, ask, order, commit, commit_vm,
}
use mineru_gateway.Scheduler.Reconcile.{
  ReconcileResult, is_instance, should_skip_reconcile, reconcile_one_worker,
}

-- `inst.tags.get(key)`
unfoldable pub get_tag : String → List (String × String) → Option String
get_tag key [] = none
get_tag key ((k, v) ∷ tags) = let rest = get_tag key tags in if k == key then some v else rest

-- `inst.tags.get(TAG_MANAGED) == "true"` and `inst.tags.get(TAG_ROLE) == TAG_ROLE_WORKER`
unfoldable pub is_managed : DiscoveredInstance → Bool
unfolding get_tag
is_managed i =
    is_instance "true" (get_tag "mineru-gateway-managed" i.tags)
    && is_instance "worker" (get_tag "mineru-gateway-role" i.tags)

-- The VMs of one worker.
abbrev pub belongs_to : String → DiscoveredInstance → Bool
belongs_to k i = is_instance k i.worker_id

-- The keys of `discovered_by_worker`, in the order of their first VMs.
unfoldable pub worker_ids : (seen : List String) → List DiscoveredInstance → List String
worker_ids seen [] = []
worker_ids seen (i ∷ instances) =
    let k = or_else i.worker_id "" in
    let more = worker_ids (k ∷ seen) instances in
    let rest = worker_ids seen instances in
    if nonempty i.worker_id && not (contains seen k) then k ∷ more else rest

abbrev pub has_instance_id : String → DiscoveredInstance → Bool
has_instance_id k i = i.instance_id == k

-- `sorted(discovered_ids)[0]`; the list is never empty where it is called.
unfoldable pub least_instance_id : List DiscoveredInstance → String
least_instance_id instances = or_else (first_by text_less (map (λ i. i.instance_id) instances)) ""

-- The worker's own VM where it is among those discovered, else the least id.
unfoldable pub canonical_id : Option Worker → List DiscoveredInstance → String
unfolding least_instance_id
canonical_id none instances = least_instance_id instances
canonical_id (some worker) instances =
    if nonempty worker.instance_id
      && is_some (find_where (has_instance_id (or_else worker.instance_id "")) instances)
    then or_else worker.instance_id ""
    else least_instance_id instances

abbrev pub is_ending : InstanceState → Bool
is_ending InstanceState.terminating = true
is_ending InstanceState.terminated = true
is_ending _ = false

-- `discovered_primary.get(worker_id)`
unfoldable pub primary_of : String → List (String × DiscoveredInstance) → Option DiscoveredInstance
primary_of k [] = none
primary_of k ((j, i) ∷ rest) = let later = primary_of k rest in if j == k then some i else later

module _ {S : Type 0} (cfg : GatewaySettings) (provider : ComputeProvider S) (now : ℕ) where
  open provider use {discover, terminate}

  -- `_terminate_unowned_vm`: exceptions are logged and passed over.
  unfoldable pub terminate_unowned_vm : (reason : String) → DiscoveredInstance → Run S (Unit {0})
  terminate_unowned_vm reason i =
      if is_ending i.state
      then pure tt
      else try_except
          (order (terminate_vm i.instance_id) (terminate i.instance_id)
            >> commit (record_scaling_event "terminate" reason none "reconciliation" none now))
          (λ _. pure tt)

  -- The row of the worker takes the canonical VM; `none` is a VM with an unknown worker.
  unfoldable pub adopt : Option Worker → DiscoveredInstance → Run S (Unit {0})
  adopt none primary = pure tt
  adopt (some worker) primary =
      if is_instance primary.instance_id worker.instance_id
      then pure tt
      else commit_vm worker.id primary.instance_id (
          commit_fields worker.id now (λ w. record w {
            instance_id = some primary.instance_id;
            cloud_state = cloud_state_from_instance primary.state;
          }))

  -- The VMs of the worker that are not the canonical one.
  abbrev pub spare : (canonical : String) → DiscoveredInstance → Bool
  spare canonical i = not (has_instance_id canonical i)

  -- `_resolve_duplicate_vms`, and the same for a single VM, which is its worker's primary one.
  unfoldable pub resolve_duplicate_vms :
      Option Worker → List DiscoveredInstance → DiscoveredInstance → Run S (Unit {0})
  resolve_duplicate_vms worker instances primary =
      adopt worker primary
      >> for_each (select_where (spare primary.instance_id) instances)
          (terminate_unowned_vm "duplicate vm for worker")

  -- The primary VM of a worker, `next(inst for inst in instances if …)`.
  unfoldable pub primary_among : Option Worker → List DiscoveredInstance → Option DiscoveredInstance
  primary_among worker [] = none
  primary_among worker (i ∷ []) = some i
  primary_among worker (i ∷ j ∷ more) =
      find_where (has_instance_id (canonical_id worker (i ∷ j ∷ more))) (i ∷ j ∷ more)

  -- One worker of `_discover_and_dedupe`.
  abbrev pub dedupe_worker :
      String
      → Option Worker
      → List DiscoveredInstance
      → Option DiscoveredInstance
      → Run S (Unit {0})
  dedupe_worker k worker (i ∷ j ∷ more) (some primary) =
      resolve_duplicate_vms worker (i ∷ j ∷ more) primary
  dedupe_worker k worker _ _ = pure tt

  -- The object in `workers` takes the canonical id too, as `worker.instance_id = canonical_id` does.
  abbrev pub adopt_id :
      String → List DiscoveredInstance → Option DiscoveredInstance → List Worker → List Worker
  adopt_id k (i ∷ j ∷ more) (some primary) workers =
      update_where (has_id k) (λ w. record w { instance_id = some primary.instance_id }) workers
  adopt_id k _ _ workers = workers

  -- What the pass knows: the worker objects, and the primary VMs.
  pub record Known : Type 0 where
    pub workers : List Worker
    pub primary : List (String × DiscoveredInstance)

  abbrev pub with_primary :
      String
      → Option DiscoveredInstance
      → List (String × DiscoveredInstance)
      → List (String × DiscoveredInstance)
  with_primary k none primary = primary
  with_primary k (some i) primary = (k, i) ∷ primary

  -- The loop of `_discover_and_dedupe`.
  unfoldable pub dedupe_each : List DiscoveredInstance → (ids : List String) → Known → Run S Known
  dedupe_each managed [] known = pure known
  dedupe_each managed (k ∷ ids) known =
      let instances = select_where (belongs_to k) managed in
      let worker = find_where (has_id k) known.workers in
      let primary = primary_among worker instances in
      dedupe_worker k worker instances primary
      >> dedupe_each managed ids (record {
        workers = adopt_id k instances primary known.workers;
        primary = with_primary k primary known.primary;
      })

  unfoldable pub discover_and_dedupe :
      List DiscoveredInstance → (workers : List Worker) → Run S Known
  discover_and_dedupe discovered workers =
      let managed = select_where is_managed discovered in
      dedupe_each managed (worker_ids [] managed) (record { workers = workers; primary = [] })

  -- The result of one worker, and its retries.
  abbrev pub settle_retries : Worker → ReconcileResult → Run S (Unit {0})
  settle_retries worker result =
      if result.reset_cloud_retries && not result.failure_recorded
      then commit (reset_cloud_failures worker.id now)
      else pure tt

  -- One round of the loop over the workers: an exception is recorded as a failure of the worker.
  unfoldable pub reconcile_worker : List (String × DiscoveredInstance) → Worker → Run S (Unit {0})
  reconcile_worker primary worker =
      if should_skip_reconcile cfg worker now
      then pure tt
      else try_except
          (reconcile_one_worker cfg provider now worker (primary_of worker.id primary)
            >>= settle_retries worker)
          (λ e. commit (record_failure cfg worker.id e.message e.retryable now))

  -- `inst.worker_id and inst.worker_id in worker_ids`
  abbrev pub is_orphan : List Worker → DiscoveredInstance → Bool
  is_orphan workers i =
      not (nonempty i.worker_id && is_some (find_where (has_id (or_else i.worker_id "")) workers))

  -- `_terminate_orphan_vms`
  unfoldable pub terminate_orphan_vms : List Worker → List DiscoveredInstance → Run S (Unit {0})
  terminate_orphan_vms workers managed =
      for_each (select_where (is_orphan workers) managed)
        (terminate_unowned_vm "orphan vm for unknown worker")

  -- `_reconcile_workers`, where a provider is configured and the lock is held.
  unfoldable pub reconcile_workers : Run S (Unit {0})
  reconcile_workers = gets (λ w. list_deployment_workers cfg w.db) >>= λ workers.
      (ask (discover cfg.deployment_id) >>= λ discovered.
      (discover_and_dedupe discovered workers >>= λ known.
      (for_each known.workers (reconcile_worker known.primary)
        >> terminate_orphan_vms workers (select_where is_managed discovered))))
