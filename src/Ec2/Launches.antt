-- ===== src/Ec2/Launches.antt =====
-- A VM that was launched for a worker is discovered as that worker's.
use mathlib.Core.List.{Memᴰ}
use mathlib.Core.Path.{subst}
use mineru_gateway.Base.{
  ℕ, ◌≡◌, refl, ap, ◌∙◌, true, String, List, [], ◌∷◌, Option, none, some, nonempty, map, arith,
  eq_refl, Bool-cases, inl, inr,
}
use mineru_gateway.Base.Action.{Answer, returned, raised, pure, raise, ◌>>=◌}
use mineru_gateway.Base.Table.{All}
use mineru_gateway.Cloud.{DiscoveredInstance}
use mineru_gateway.Cloud.Tags.{build_worker_tags}
use mineru_gateway.Scheduler.Reconcile.Pass.{get_tag, is_managed, belongs_to}
use mineru_gateway.Ec2.{
  ClientError, Ec2Instance, Ec2, LaunchRequest, LaunchTemplate, set_tag, tags_of, discovered_of,
  caught, calling, raise_ec2_error, launch, filters_of, discover, aws_ec2,
}

-- The VM is the worker's, and managed.
abbrev pub IsVmOf : (worker_id instance_id : String) → DiscoveredInstance → Type 0
IsVmOf worker_id instance_id vm =
    (vm.instance_id ≡ instance_id) × (belongs_to worker_id vm ≡ true) × (is_managed vm ≡ true)

discovered_tags :
    (show : ℕ → String) (worker_id deployment_id : String) (generation : ℕ) (instance : Ec2Instance)
    → instance.tags ≡ build_worker_tags show worker_id deployment_id generation
    → IsVmOf worker_id instance.instance_id (discovered_of instance)
unfolding discovered_of tags_of set_tag get_tag is_managed build_worker_tags
discovered_tags show worker_id deployment_id generation instance e =
    rw (e, eq_refl worker_id) (refl, refl, refl)

module _ {S : Type 0} (show : ℕ → String) (ec2 : Ec2 S) where
  uncaught :
      {A : Type 0} (r : Answer ClientError A × S) (a : A) (t : S)
      → caught raise_ec2_error r ≡ (returned a, t)
      → r ≡ (returned a, t)
  unfolding raise_ec2_error raise
  uncaught (returned b, u) a t e = cc
  uncaught (raised x, u) a t e = (let answers = ap (λ p. p.0) e in absurd (ground arith))

  -- The request of a launch that returned.
  abbrev IsRequest : (worker_id deployment_id : String) (generation : ℕ) → LaunchRequest → Type 0
  IsRequest worker_id deployment_id generation request =
      (request.tags ≡ build_worker_tags show worker_id deployment_id generation)
      × (request.client_token ≡ worker_id)

  launch_request :
      (cloud : Option LaunchTemplate) (worker_id deployment_id : String) (generation : ℕ)
      (id : String) (s t : S)
      → launch show cloud ec2 worker_id deployment_id generation s ≡ (returned id, t)
      → (request : LaunchRequest) × IsRequest worker_id deployment_id generation request
        × (ec2.run_instances request s ≡ (returned id, t))
  unfolding launch calling raise
  launch_request none worker_id deployment_id generation id s t e =
      (let answers = ap (λ p. p.0) e in absurd (ground arith))
  launch_request (some template) worker_id deployment_id generation id s t e =
      elim (Bool-cases (nonempty template.template_id)) [
        | inl q ↦ (_, (refl, refl), uncaught _ id t (rw q at e))
        | inr q ↦ (let answers = ap (λ p. p.0) (rw q at e) in absurd (ground arith))
      ]

  map-member :
      (instances : List Ec2Instance) (i : Ec2Instance)
      → Memᴰ i instances
      → Memᴰ (discovered_of i) (map discovered_of instances)
  map-member [] i m = elim m [ ]
  map-member (x ∷ instances) i (Memᴰ.head e) = Memᴰ.head (ap discovered_of e)
  map-member (x ∷ instances) i (Memᴰ.tail n) = Memᴰ.tail (map-member instances i n)

  discover_found :
      (cloud : Option LaunchTemplate) (deployment_id : String) (instances : List Ec2Instance)
      (s t : S)
      → ec2.describe_tagged (filters_of show cloud ec2 deployment_id) s ≡ (returned instances, t)
      → discover show cloud ec2 deployment_id s ≡ (returned (map discovered_of instances), t)
  unfolding discover calling ◌>>=◌ pure
  discover_found cloud deployment_id instances s t e = rw e refl

-- What EC2 documents of `describe_instances` with filters on tags, in a state where an instance is:
-- it shows the instance, with its id and its tags, where each filter names a tag of it and the tag's
-- value.
abbrev pub Matches : (filters tags : List (String × String)) → Type 0
Matches filters tags = All (λ f. get_tag f.0 tags ≡ some f.1) filters

abbrev pub ShowsTagged :
    {S : Type 0} → Ec2 S → S → (instance_id : String) (tags : List (String × String)) → Type 0
ShowsTagged {S} ec2 later id tags =
    (filters : List (String × String)) (found : List Ec2Instance) (after : S)
    → ec2.describe_tagged filters later ≡ (returned found, after)
    → Matches filters tags
    → (i : Ec2Instance) × Memᴰ i found × (i.instance_id ≡ id) × (i.tags ≡ tags)

-- The tags of a worker's VM match the filters of the discovery of its deployment.
launched_tags_match :
    {S : Type 0} (show : ℕ → String) (cloud : Option LaunchTemplate) (ec2 : Ec2 S)
    (worker_id deployment_id : String) (generation : ℕ)
    → Matches
        (filters_of show cloud ec2 deployment_id)
        (build_worker_tags show worker_id deployment_id generation)
unfolding build_worker_tags get_tag
launched_tags_match show cloud ec2 worker_id deployment_id generation = (refl, (refl, (refl, tt)))

-- Where a launch of the EC2 provider returned an id, and later EC2 shows the launched instance, with
-- the tags of the request, to those who filter by tags that it has: the provider discovers a managed
-- VM with this id, which belongs to the worker that it was launched for.
pub discover-launch :
    {S : Type 0} (show : ℕ → String) (cloud : Option LaunchTemplate) (ec2 : Ec2 S)
    → (worker_id deployment_id : String) (generation : ℕ) (id : String) (s t later after : S)
    → (instances : List Ec2Instance)
    → (aws_ec2 show cloud ec2).launch worker_id deployment_id generation s ≡ (returned id, t)
    → ec2.describe_tagged (filters_of show cloud ec2 deployment_id) later
      ≡ (returned instances, after)
    → ((request : LaunchRequest)
        → ec2.run_instances request s ≡ (returned id, t)
        → ShowsTagged ec2 later id request.tags)
    → (found : List DiscoveredInstance) × ((aws_ec2 show cloud ec2).discover deployment_id later
        ≡ (returned found, after))
      × ((vm : DiscoveredInstance) × Memᴰ vm found × IsVmOf worker_id id vm)
discover-launch show cloud ec2 worker_id deployment_id generation id s t later after instances
      launched described shown =
    let (request, (tags, token), run) =
      launch_request show ec2 cloud worker_id deployment_id generation id s t launched in
    let matching : Matches (filters_of show cloud ec2 deployment_id) request.tags =
      rw tags (launched_tags_match show cloud ec2 worker_id deployment_id generation) in
    let (i, member, same_id, same_tags) =
      shown request run (filters_of show cloud ec2 deployment_id) instances after described
        matching in
    (
      map discovered_of instances,
      discover_found show ec2 cloud deployment_id instances later after described,
      (
        discovered_of i,
        map-member show ec2 instances i member,
        subst (λ k. IsVmOf worker_id k (discovered_of i)) same_id
            (discovered_tags show worker_id deployment_id generation i (same_tags ∙ tags)),
      ),
    )
