-- ===== src/Tests/Ec2Tests.antt =====
-- Runs of the EC2 provider, and of the scheduler's cleanup and loops.
use mathlib.Core.List.{Memᴰ}
use mathlib.Core.Path.{subst}
use mineru_gateway.Base.{
  ℕ, ◌≡◌, refl, String, List, [], ◌∷◌, Option, none, some, true, false, Bool, ap, sym, ◌∙◌, ◌==◌,
  ◌&&◌, eq_refl,
}
use mineru_gateway.Base.Action.{Answer, returned, raised}
use mineru_gateway.Cloud.{InstanceState, DiscoveredInstance}
use mineru_gateway.Base.Table.{select_where}
use mineru_gateway.Scheduler.Reconcile.Pass.{get_tag}
use mineru_gateway.Cloud.Tags.{build_worker_tags}
use mineru_gateway.Ec2.{
  ClientError, Ec2Instance, Ec2, LaunchTemplate, normalize_ec2_state, aws_ec2, launch, calling,
  filters_of,
}
use mineru_gateway.Ec2.Launches.{Matches, ShowsTagged, IsVmOf, discover-launch}
use mineru_gateway.Ec2.Refines.{
  VmStates, set_state, can_start, can_stop, can_end, Describes, IsEc2, RefinesStates,
  aws_ec2-RefinesStates,
}

abbrev show : ℕ → String
show n = "n"

abbrev template : Option LaunchTemplate
template = some (record { template_id = some "lt-1"; version = none })

-- EC2 as the states of its instances.
abbrev name_of : InstanceState → String
name_of InstanceState.running = "running"
name_of InstanceState.suspended = "stopped"
name_of InstanceState.starting = "pending"
name_of InstanceState.stopping = "stopping"
name_of InstanceState.terminating = "shutting-down"
name_of InstanceState.terminated = "terminated"
name_of InstanceState.unknown = "?"

abbrev instance_of : String → InstanceState → Ec2Instance
instance_of i state = record {
  instance_id = i;
  state_name = name_of state;
  private_ip = none;
  tags = [];
}

abbrev refused : ClientError
refused = record { code = "IncorrectInstanceState"; message = "" }

abbrev missing : ClientError
missing = record { code = "InvalidInstanceID.NotFound"; message = "" }

abbrev refusal : Option InstanceState → ClientError
refusal none = missing
refusal (some state) = refused

abbrev described : String → Option InstanceState → Answer ClientError (List (List Ec2Instance))
described i none = raised missing
described i (some state) = returned ((instance_of i state ∷ []) ∷ [])

abbrev moved :
    Bool
    → ClientError
    → String
    → InstanceState
    → VmStates
    → Answer ClientError (Unit {0}) × VmStates
moved true e i state vms = (returned tt, set_state i state vms)
moved false e i state vms = (raised e, vms)

abbrev state_ec2 : Ec2 VmStates
state_ec2 = record {
  describe_instances = λ i vms. (described i (vms i), vms);
  start_instances =
      λ i vms. moved (can_start (vms i)) (refusal (vms i)) i InstanceState.starting vms;
  stop_instances = λ i vms. moved (can_stop (vms i)) refused i InstanceState.stopping vms;
  terminate_instances =
      λ i vms. moved (can_end (vms i)) (refusal (vms i)) i InstanceState.terminating vms;
  run_instances = λ request vms. (raised refused, vms);
  describe_tagged = λ filters vms. (returned [], vms);
}

name_back : (state : InstanceState) → normalize_ec2_state (name_of state) ≡ state
unfolding normalize_ec2_state
name_back InstanceState.running = refl
name_back InstanceState.suspended = refl
name_back InstanceState.starting = refl
name_back InstanceState.stopping = refl
name_back InstanceState.terminating = refl
name_back InstanceState.terminated = refl
name_back InstanceState.unknown = refl

state_ec2-Describes :
    (i : String) (vms : VmStates) → Describes (vms i) (described i (vms i), vms) vms
state_ec2-Describes i vms = go (vms i)
  where
    go : (o : Option InstanceState) → Describes o (described i o, vms) vms
    go none = (missing, refl, refl)
    go (some state) =
        ((instance_of i state ∷ []) ∷ [], instance_of i state, refl, refl, name_back state)

state_ec2-IsEc2 : IsEc2 (λ vms. vms) state_ec2
state_ec2-IsEc2 = record {
  describes = state_ec2-Describes;
  starts = λ i vms h. rw h (refl, λ j. refl);
  refuses_start = λ i vms state at h k. rw at (rw h (refused, refl, refl));
  misses_start = λ i vms at. rw at (missing, refl, refl);
  stops = λ i vms h. rw h (refl, λ j. refl);
  refuses_stop = λ i vms state at h k. rw at (rw h (refused, refl, refl));
  terminates = λ i vms h. rw h (refl, λ j. refl);
}

aws_ec2-RefinesStates_example : RefinesStates (λ vms. vms) (aws_ec2 show template state_ec2)
aws_ec2-RefinesStates_example =
    aws_ec2-RefinesStates (λ vms. vms) show template state_ec2 state_ec2-IsEc2

-- Whether an instance has the tags.
abbrev value_is : String → Option String → Bool
value_is value none = false
value_is value (some v) = v == value

abbrev has_tag : List (String × String) → String × String → Bool
has_tag tags (key, value) = value_is value (get_tag key tags)

has_tags : (filters tags : List (String × String)) → Bool
has_tags [] tags = true
has_tags (f ∷ filters) tags = has_tag tags f && has_tags filters tags

Matches-has_tags :
    (filters tags : List (String × String)) → Matches filters tags → has_tags filters tags ≡ true
unfolding has_tags
Matches-has_tags [] tags h = refl
Matches-has_tags ((key, value) ∷ filters) tags (named, rest) =
    rw (named, eq_refl value, Matches-has_tags filters tags rest) refl

-- EC2 as the list of its instances, of which only launches and filters are run.
abbrev list_ec2 : Ec2 (List Ec2Instance)
list_ec2 = record {
  describe_instances = λ i vms. (returned [], vms);
  start_instances = λ i vms. (raised refused, vms);
  stop_instances = λ i vms. (raised refused, vms);
  terminate_instances = λ i vms. (raised refused, vms);
  run_instances = λ request vms. (
    returned "i-1",
    record { instance_id = "i-1"; state_name = "pending"; private_ip = none; tags = request.tags }
        ∷ vms,
  );
  describe_tagged =
      λ filters vms. (returned (select_where (λ i. has_tags filters i.tags) vms), vms);
}

abbrev launched : Ec2Instance
launched = record {
  instance_id = "i-1";
  state_name = "pending";
  private_ip = none;
  tags = build_worker_tags show "w1" "d" 0;
}

launch_returned :
    (aws_ec2 show template list_ec2).launch "w1" "d" 0 [] ≡ (returned "i-1", launched ∷ [])
unfolding launch calling
launch_returned = refl

abbrev first_tags : List Ec2Instance → List (String × String)
first_tags [] = []
first_tags (i ∷ _) = i.tags

abbrev answer_of : {A : Type 0} → A → Answer ClientError A → A
answer_of a (returned b) = b
answer_of a (raised e) = a

launched_described :
    list_ec2.describe_tagged (filters_of show template list_ec2 "d") (launched ∷ [])
    ≡ (returned (launched ∷ []), launched ∷ [])
unfolding has_tags select_where build_worker_tags get_tag
launched_described = refl

launched_shown : ShowsTagged list_ec2 (launched ∷ []) "i-1" launched.tags
unfolding select_where
launched_shown filters found after described match =
    let shown : select_where (λ i. has_tags filters i.tags) (launched ∷ []) ≡ launched ∷ [] =
      rw (Matches-has_tags filters launched.tags match) refl in
    let same : launched ∷ [] ≡ found = sym shown ∙ ap (λ r. answer_of [] r.0) described in
    subst (λ l. (i : Ec2Instance) × Memᴰ i l × (i.instance_id ≡ "i-1") × (i.tags ≡ launched.tags))
      same (launched, Memᴰ.head refl, refl, refl)

discover-launch_example :
    (found : List DiscoveredInstance) × ((aws_ec2 show template list_ec2).discover "d"
        (launched ∷ [])
      ≡ (returned found, launched ∷ []))
    × ((vm : DiscoveredInstance) × Memᴰ vm found × IsVmOf "w1" "i-1" vm)
discover-launch_example =
    discover-launch show template list_ec2 "w1" "d" 0 "i-1" [] (launched ∷ []) (launched ∷ [])
      (launched ∷ []) (launched ∷ []) launch_returned launched_described
      (λ request run.
        subst (λ tags. ShowsTagged list_ec2 (launched ∷ []) "i-1" tags)
          (ap (λ r. first_tags r.1) (sym run)) launched_shown)
