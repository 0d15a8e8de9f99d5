-- ===== src/Scheduler/Reconcile/Justified.antt =====
-- The commands that a whole pass of the reconciliation sends, and why each of them may be sent.
use mathlib.Core.List.{Memᴰ}
use mathlib.Core.Path.{subst}
use mineru_gateway.Base.{
  ℕ, ◌≡◌, ◌⊎◌, inl, inr, refl, true, false, String, List, [], ◌∷◌, Option, none, some, ◌==◌, ◌&&◌,
  not, arith, Bool-cases, nonempty, or_else, Option-cases, eq_iff, sym, ◌∙◌,
}
use mineru_gateway.Base.Action.{
  returned, gets, for_each, Keeps, Anything, pure-Keeps, bind-Keeps, then-Keeps, if-Keeps,
  try_except-Keeps, for_each-Keeps, ◌>>=◌, ◌>>◌,
}
use mineru_gateway.Base.Table.{All, select_where, find_where}
use mineru_gateway.Base.Table.Laws.{All-update_where, find_where-All, find_where-none}
use mineru_gateway.Base.Table.Keys.{All-mono}
use mineru_gateway.Base.Table.Members.{All-Memᴰ, All-selected, All-member}
use mineru_gateway.Config.{GatewaySettings}
use mineru_gateway.Cloud.{DiscoveredInstance}
use mineru_gateway.Models.{Worker, has_id}
use mineru_gateway.Workers.Queries.{list_deployment_workers}
use mineru_gateway.Scheduler.Provider.{ComputeProvider, Command, terminate_vm, World, ask}
use mineru_gateway.Scheduler.Reconcile.{should_skip_reconcile, is_instance}
use mineru_gateway.Scheduler.Reconcile.Pass.{
  is_managed, worker_ids, belongs_to, is_ending, primary_of, terminate_unowned_vm, adopt, spare,
  resolve_duplicate_vms, primary_among, dedupe_worker, adopt_id, with_primary, Known, dedupe_each,
  discover_and_dedupe, reconcile_worker, is_orphan, terminate_orphan_vms, reconcile_workers,
}
use mineru_gateway.Scheduler.Reconcile.Commands.{
  IsDue, AllSent, commit-AllSent, commit_vm-AllSent, order-AllSent, reconcile_one_worker-Keeps,
}

module _ (cfg : GatewaySettings) (now : ℕ) (listed : List Worker)
    (discovered : List DiscoveredInstance) where
  abbrev pub managed : List DiscoveredInstance
  managed = select_where is_managed discovered

  -- The VM of a listed worker: the one that its row names, or a managed one with the worker's id in
  -- its tags.
  abbrev pub OwnsVm : (origin : Worker) (i : String) → Type 0
  OwnsVm origin i =
      (origin.instance_id ≡ some i)
      ⊎ ((vm : DiscoveredInstance) × Memᴰ vm managed
          × (belongs_to origin.id vm ≡ true)
          × (vm.instance_id ≡ i))

  -- A worker object of the pass: a listed worker, with its intent, its failures and its backoff; only
  -- its VM may have been assigned, to one of its own.
  pub record IsListed (w : Worker) : Type 0 where
    pub origin : Worker
    pub member : Memᴰ origin listed
    pub id : w.id ≡ origin.id
    pub desired : w.desired_state ≡ origin.desired_state
    pub failures : w.failure_count ≡ origin.failure_count
    pub backoff : w.retry_after ≡ origin.retry_after
    pub owned : (i : String) → w.instance_id ≡ some i → OwnsVm origin i

  -- Why a command may be sent: it is due to a listed worker that is neither stalled nor in its
  -- backoff, and launches its VM or is about its own VM; or it terminates a managed VM of no listed worker; or it terminates a managed VM of a
  -- worker that keeps another one.
  pub data IsJustified : Command → Type 0 where
    due_command :
        (c : Command) (w : Worker) (v : IsListed w)
        → should_skip_reconcile cfg w now ≡ false
        → IsDue (OwnsVm v.origin) w c
        → IsJustified c
    orphan_vm :
        (i : DiscoveredInstance)
        → Memᴰ i managed
        → ((w : Worker)
            → Memᴰ w listed
            → (has_id (or_else i.worker_id "") w ≡ false) ⊎ (nonempty i.worker_id ≡ false))
        → IsJustified (terminate_vm i.instance_id)
    duplicate_vm :
        (k : String) (i kept : DiscoveredInstance)
        → Memᴰ i managed
        → Memᴰ kept managed
        → belongs_to k i ≡ true
        → belongs_to k kept ≡ true
        → (i.instance_id == kept.instance_id) ≡ false
        → IsJustified (terminate_vm i.instance_id)

  listed_self : (w : Worker) → Memᴰ w listed → IsListed w
  listed_self w m = record {
    origin = w;
    member = m;
    id = refl;
    desired = refl;
    failures = refl;
    backoff = refl;
    owned = λ i e. inl e;
  }

  module _ {S : Type 0} (provider : ComputeProvider S) where
    terminate_unowned_vm-Keeps :
        (reason : String) (i : DiscoveredInstance)
        → IsJustified (terminate_vm i.instance_id)
        → Keeps (AllSent IsJustified) Anything (terminate_unowned_vm cfg provider now reason i)
    unfolding terminate_unowned_vm
    terminate_unowned_vm-Keeps reason i j =
        if-Keeps (is_ending i.state) (λ _. pure-Keeps Anything tt tt)
          (λ _.
            try_except-Keeps
              (then-Keeps (order-AllSent (terminate_vm i.instance_id) _ j) (commit-AllSent _))
              (λ e. pure-Keeps Anything tt tt))

    adopt-Keeps :
        (worker : Option Worker) (primary : DiscoveredInstance)
        → Keeps (AllSent IsJustified) Anything (adopt cfg provider now worker primary)
    unfolding adopt
    adopt-Keeps none primary = pure-Keeps Anything tt tt
    adopt-Keeps (some worker) primary =
        if-Keeps (is_instance primary.instance_id worker.instance_id)
          (λ _. pure-Keeps Anything tt tt) (λ _. commit_vm-AllSent _ _ _)

    -- A VM of the worker `k`.
    abbrev IsVm : String → DiscoveredInstance → Type 0
    IsVm k i = Memᴰ i managed × (belongs_to k i ≡ true)

    resolve_duplicate_vms-Keeps :
        (k : String) (worker : Option Worker) (instances : List DiscoveredInstance)
        (primary : DiscoveredInstance)
        → All (IsVm k) instances
        → IsVm k primary
        → Keeps
            (AllSent IsJustified)
            Anything
            (resolve_duplicate_vms cfg provider now worker instances primary)
    unfolding resolve_duplicate_vms
    resolve_duplicate_vms-Keeps k worker instances primary h p =
        let others = spare cfg provider now primary.instance_id in
        then-Keeps (adopt-Keeps worker primary) (
          for_each-Keeps (λ i. IsVm k i × (others i ≡ true)) (select_where others instances)
            (All-selected (IsVm k) others instances h)
            (λ i v.
              terminate_unowned_vm-Keeps "duplicate vm for worker" i
                (duplicate_vm k i primary v.0.0 p.0 v.0.1 p.1 (ground (arith, v.1)))))

    dedupe_worker-Keeps :
        (k : String) (worker : Option Worker) (instances : List DiscoveredInstance)
        → (primary : Option DiscoveredInstance) → All (IsVm k) instances
        → ((i : DiscoveredInstance) → primary ≡ some i → IsVm k i)
        → Keeps
            (AllSent IsJustified)
            Anything
            (dedupe_worker cfg provider now k worker instances primary)
    dedupe_worker-Keeps k worker [] primary h p = pure-Keeps Anything tt tt
    dedupe_worker-Keeps k worker (i ∷ []) primary h p = pure-Keeps Anything tt tt
    dedupe_worker-Keeps k worker (i ∷ j ∷ more) none h p = pure-Keeps Anything tt tt
    dedupe_worker-Keeps k worker (i ∷ j ∷ more) (some primary) h p =
        resolve_duplicate_vms-Keeps k worker (i ∷ j ∷ more) primary h (p primary refl)

    primary_among-IsVm :
        (k : String) (worker : Option Worker) (instances : List DiscoveredInstance)
        → All (IsVm k) instances
        → (i : DiscoveredInstance) → primary_among cfg provider now worker instances ≡ some i
        → IsVm k i
    unfolding primary_among
    primary_among-IsVm k worker [] h i e = absurd (ground arith)
    primary_among-IsVm k worker (j ∷ []) h i e =
        let same : j ≡ i = ground (arith, e) in rw (← same) h.0
    primary_among-IsVm k worker (j ∷ l ∷ more) h i e =
        (find_where-All (IsVm k) _ (j ∷ l ∷ more) {r = i} h e).0

    -- What the pass knows: listed workers, and for each of their ids a VM of it.
    abbrev IsPrimary : String × DiscoveredInstance → Type 0
    IsPrimary (k, i) = IsVm k i

    abbrev IsKnown : Known cfg provider now → Type 0
    IsKnown known = All IsListed known.workers × All IsPrimary known.primary

    primary_of-IsVm :
        (k : String) (primary : List (String × DiscoveredInstance))
        → All IsPrimary primary
        → (d : DiscoveredInstance) → primary_of k primary ≡ some d
        → IsVm k d
    unfolding primary_of
    primary_of-IsVm k [] h d e = absurd (ground arith)
    primary_of-IsVm k ((j, i) ∷ rest) h d e = elim (Bool-cases (j == k)) [
      | inl q ↦
          (let found : some i ≡ some d = rw q at e in
            let same : i ≡ d = ground (arith, found) in
            subst (λ x. IsVm k x) same (subst (λ x. IsVm x i) ((eq_iff j k).0 q) h.0))
      | inr q ↦ primary_of-IsVm k rest h.1 d (rw q at e)
    ]

    with_primary-IsPrimary :
        (k : String) (o : Option DiscoveredInstance) (primary : List (String × DiscoveredInstance))
        → ((i : DiscoveredInstance) → o ≡ some i → IsVm k i)
        → All IsPrimary primary
        → All IsPrimary (with_primary cfg provider now k o primary)
    with_primary-IsPrimary k none primary own h = h
    with_primary-IsPrimary k (some i) primary own h = (own i refl, h)

    adopt_id-IsKnown :
        (k : String) (instances : List DiscoveredInstance) (primary : Option DiscoveredInstance)
        → (workers : List Worker) → ((i : DiscoveredInstance) → primary ≡ some i → IsVm k i)
        → All IsListed workers
        → All IsListed (adopt_id cfg provider now k instances primary workers)
    adopt_id-IsKnown k [] primary workers own h = h
    adopt_id-IsKnown k (i ∷ []) primary workers own h = h
    adopt_id-IsKnown k (i ∷ j ∷ more) none workers own h = h
    adopt_id-IsKnown k (i ∷ j ∷ more) (some primary) workers own h =
        All-update_where IsListed (has_id k)
          (λ w. record w { instance_id = some primary.instance_id }) workers
          (λ w named v. record {
            origin = v.origin;
            member = v.member;
            id = v.id;
            desired = v.desired;
            failures = v.failures;
            backoff = v.backoff;
            owned = λ x e.
                (let same : primary.instance_id ≡ x = ground (arith, e) in
                  let (member, belongs) = own primary refl in
                  let origin_id : v.origin.id ≡ k = sym v.id ∙ (eq_iff w.id k).0 named in
                  inr (primary, member, rw origin_id belongs, same));
          })
          h

    dedupe_each-Keeps :
        (ids : List String) (known : Known cfg provider now)
        → IsKnown known
        → Keeps (AllSent IsJustified) IsKnown (dedupe_each cfg provider now managed ids known)
    unfolding dedupe_each
    dedupe_each-Keeps [] known v = pure-Keeps IsKnown known v
    dedupe_each-Keeps (k ∷ ids) known v =
        let instances = select_where (belongs_to k) managed in
        let worker = find_where (has_id k) known.workers in
        let own = All-selected (λ i. Memᴰ i managed) (belongs_to k) managed (All-Memᴰ managed) in
        let primary = primary_among cfg provider now worker instances in
        let among = primary_among-IsVm k worker instances own in
        then-Keeps (dedupe_worker-Keeps k worker instances primary own among) (
          dedupe_each-Keeps ids _ (
            adopt_id-IsKnown k instances primary known.workers among v.0,
            with_primary-IsPrimary k primary known.primary among v.1,
          ))

    reconcile_worker-Keeps :
        (primary : List (String × DiscoveredInstance)) (worker : Worker)
        → All IsPrimary primary
        → IsListed worker
        → Keeps (AllSent IsJustified) Anything (reconcile_worker cfg provider now primary worker)
    unfolding reconcile_worker
    reconcile_worker-Keeps primary worker known v =
        if-Keeps (should_skip_reconcile cfg worker now) (λ _. pure-Keeps Anything tt tt)
          (λ active.
            try_except-Keeps
              (bind-Keeps
                (reconcile_one_worker-Keeps cfg provider now IsJustified (OwnsVm v.origin) worker
                  (primary_of worker.id primary) v.owned
                  (λ d e.
                    (let (member, belongs) = primary_of-IsVm worker.id primary known d e in
                      inr (d, member, rw (← v.id) belongs, refl)))
                  (λ c d. due_command c worker v active d))
                (λ result _.
                  if-Keeps (result.reset_cloud_retries && not result.failure_recorded)
                    (λ _. commit-AllSent _) (λ _. pure-Keeps Anything tt tt)))
              (λ e. commit-AllSent _))

    is_orphan-unlisted :
        (i : DiscoveredInstance) (w : Worker)
        → is_orphan cfg provider now listed i ≡ true
        → Memᴰ w listed
        → (has_id (or_else i.worker_id "") w ≡ false) ⊎ (nonempty i.worker_id ≡ false)
    is_orphan-unlisted i w h m =
        let named = has_id (or_else i.worker_id "") in
        elim (Bool-cases (nonempty i.worker_id)) [
          | inr e ↦ inr e
          | inl e ↦ elim (Option-cases (find_where named listed)) [
            | inl absent ↦
                inl
                  (All-member (λ r. named r ≡ false) listed (find_where-none named listed absent) m)
            | inr (_, found) ↦ absurd (ground arith)
          ]
        ]

    terminate_orphan_vms-Keeps :
        Keeps (AllSent IsJustified) Anything (terminate_orphan_vms cfg provider now listed managed)
    unfolding terminate_orphan_vms
    terminate_orphan_vms-Keeps =
        let orphan = is_orphan cfg provider now listed in
        for_each-Keeps (λ i. Memᴰ i managed × (orphan i ≡ true)) (select_where orphan managed)
          (All-selected (λ i. Memᴰ i managed) orphan managed (All-Memᴰ managed))
          (λ i v.
            terminate_unowned_vm-Keeps "orphan vm for unknown worker" i
              (orphan_vm i v.0 (λ w m. is_orphan-unlisted i w v.1 m)))

    -- A pass that began with no command sent sends only justified ones.
    after_discover-Keeps : Keeps (AllSent IsJustified) Anything (
        discover_and_dedupe cfg provider now discovered listed >>= λ known.
        (for_each known.workers (reconcile_worker cfg provider now known.primary)
          >> terminate_orphan_vms cfg provider now listed managed))
    unfolding discover_and_dedupe
    after_discover-Keeps =
        bind-Keeps
          (dedupe_each-Keeps (worker_ids [] managed) _
            (All-mono listed listed_self (All-Memᴰ listed), tt))
          (λ known v.
            then-Keeps
              (for_each-Keeps IsListed known.workers v.0
                (λ worker u. reconcile_worker-Keeps known.primary worker v.1 u))
              terminate_orphan_vms-Keeps)

-- Every command that a pass sends is justified by the workers that it listed and the VMs that it
-- discovered: it is due to a listed worker that is neither stalled nor in its backoff, as its launch
-- or about its own VM, which is the one that its row names or a managed one with its id; or it
-- terminates a managed VM of no listed worker, or a managed VM of a worker that keeps another.
pub reconcile_workers-IsJustified :
    {S : Type 0} (cfg : GatewaySettings) (provider : ComputeProvider S) (now : ℕ) (w : World S)
    → (discovered : List DiscoveredInstance) (cloud : S)
    → provider.discover cfg.deployment_id w.cloud ≡ (returned discovered, cloud)
    → w.sent ≡ []
    → All
        (IsJustified cfg now (list_deployment_workers cfg w.db) discovered)
        (reconcile_workers cfg provider now w).1.sent
unfolding reconcile_workers gets ask ◌>>=◌
reconcile_workers-IsJustified cfg provider now w discovered cloud found fresh =
    let listed = list_deployment_workers cfg w.db in
    rw found
      ((after_discover-Keeps cfg now listed discovered provider).run (record w { cloud = cloud })
        (rw fresh tt)).0
