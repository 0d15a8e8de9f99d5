-- ===== src/Ec2/Refines.antt =====
-- The provider of EC2 against a plain map of VM states.
use mineru_gateway.Base.{
  ℕ, ◌≡◌, refl, ap, ◌∙◌, Bool, true, false, String, List, Option, none, some, ◌==◌, arith,
  Bool-cases, inl, inr, if◌then◌else◌,
}
use mineru_gateway.Base.Action.{Answer, returned, raised, Action, pure, raise, ◌>>=◌}
use mineru_gateway.Cloud.{InstanceState}
use mineru_gateway.Scheduler.Provider.{CloudFailure, ComputeProvider}
use mineru_gateway.Ec2.{
  ClientError, Ec2Instance, Ec2, LaunchTemplate, is_started, is_stopped, is_terminated,
  normalize_ec2_state, first_instance, caught, calling, unless, raise_ec2_error, classify_ec2_error,
  classify_code, describe_instance, get_state, start, stop, terminate, aws_ec2,
}

-- The states of all VMs that EC2 has, where `none` is one that it does not have.
abbrev pub VmStates : Type 0
VmStates = String → Option InstanceState

abbrev pub set_state : String → InstanceState → VmStates → VmStates
set_state i state vms j = if i == j then some state else vms j

-- A VM that is missing counts as terminated.
abbrev pub seen : Option InstanceState → InstanceState
seen none = InstanceState.terminated
seen (some state) = state

abbrev pub is_suspended : InstanceState → Bool
is_suspended InstanceState.suspended = true
is_suspended _ = false

abbrev pub is_running : InstanceState → Bool
is_running InstanceState.running = true
is_running _ = false

abbrev pub can_start : Option InstanceState → Bool
can_start o = is_suspended (seen o)

abbrev pub can_stop : Option InstanceState → Bool
can_stop o = is_running (seen o)

abbrev pub can_end : Option InstanceState → Bool
can_end o = if is_terminated (seen o) then false else true

-- What the commands promise: a suspended VM starts, a running one stops, and one that is not
-- terminated yet goes down; otherwise nothing happens.
abbrev pub start_spec : String → VmStates → VmStates
start_spec i vms = if can_start (vms i) then set_state i InstanceState.starting vms else vms

abbrev pub stop_spec : String → VmStates → VmStates
stop_spec i vms = if can_stop (vms i) then set_state i InstanceState.stopping vms else vms

abbrev pub terminate_spec : String → VmStates → VmStates
terminate_spec i vms = if can_end (vms i) then set_state i InstanceState.terminating vms else vms

-- The call is refused with the code.
abbrev pub IsRefused : {S A : Type 0} (code : String) → Answer ClientError A × S → (s : S) → Type 0
IsRefused code r s = (e : ClientError) × (r ≡ (raised e, s)) × (e.code ≡ code)

-- An instance is described in its state, and one that is missing is not found.
abbrev pub Describes :
    {S : Type 0}
    → Option InstanceState
    → Answer ClientError (List (List Ec2Instance)) × S
    → (s : S) → Type 0
Describes none r s = IsRefused "InvalidInstanceID.NotFound" r s
Describes (some state) r s =
    (reservations : List (List Ec2Instance)) × (instance : Ec2Instance) × (r
      ≡ (returned reservations, s))
    × (first_instance reservations ≡ some instance)
    × (normalize_ec2_state instance.state_name ≡ state)

module _ {S : Type 0} (view : S → VmStates) where
  -- The call returns, and the states are as given.
  abbrev pub Moves : {E : Type 0} → Action E S (Unit {0}) → S → VmStates → Type 0
  Moves m s vms = ((m s).0 ≡ returned tt) × ((j : String) → view (m s).1 j ≡ vms j)

  -- What EC2 documents of its calls: an instance is described in its state, and a missing one is not
  -- found; a command moves an instance in the state that it is for, is refused in the others, and
  -- does not find a missing one.
  pub record IsEc2 (ec2 : Ec2 S) : Type 0 where
    pub describes : (i : String) (s : S) → Describes (view s i) (ec2.describe_instances i s) s
    pub starts :
        (i : String) (s : S)
        → can_start (view s i) ≡ true
        → Moves (ec2.start_instances i) s (set_state i InstanceState.starting (view s))
    pub refuses_start :
        (i : String) (s : S) (state : InstanceState)
        → view s i ≡ some state
        → is_suspended state ≡ false
        → is_started state ≡ false
        → IsRefused "IncorrectInstanceState" (ec2.start_instances i s) s
    pub misses_start :
        (i : String) (s : S)
        → view s i ≡ none
        → IsRefused "InvalidInstanceID.NotFound" (ec2.start_instances i s) s
    pub stops :
        (i : String) (s : S)
        → can_stop (view s i) ≡ true
        → Moves (ec2.stop_instances i) s (set_state i InstanceState.stopping (view s))
    pub refuses_stop :
        (i : String) (s : S) (state : InstanceState)
        → view s i ≡ some state
        → is_running state ≡ false
        → is_stopped state ≡ false
        → IsRefused "IncorrectInstanceState" (ec2.stop_instances i s) s
    pub terminates :
        (i : String) (s : S)
        → can_end (view s i) ≡ true
        → Moves (ec2.terminate_instances i) s (set_state i InstanceState.terminating (view s))

-- What a start does of a VM: one that is missing is an error that is not worth a retry.
abbrev pub Starts :
    {S : Type 0} (view : S → VmStates) (provider : ComputeProvider S) (i : String) (s : S)
    → Option InstanceState
    → Type 0
Starts view provider i s none =
    (e : CloudFailure) × (provider.start i s ≡ (raised e, s)) × (e.retryable ≡ false)
Starts view provider i s (some state) = Moves view (provider.start i) s (start_spec i (view s))

-- A started VM is not suspended, and a stopped one is not running.
started_not_suspended :
    (state : InstanceState) → is_started state ≡ true → is_suspended state ≡ false
started_not_suspended InstanceState.running h = refl
started_not_suspended InstanceState.starting h = refl
started_not_suspended InstanceState.suspended h = absurd (ground arith)
started_not_suspended InstanceState.stopping h = refl
started_not_suspended InstanceState.terminating h = refl
started_not_suspended InstanceState.terminated h = refl
started_not_suspended InstanceState.unknown h = refl

stopped_not_running : (state : InstanceState) → is_stopped state ≡ true → is_running state ≡ false
stopped_not_running InstanceState.running h = absurd (ground arith)
stopped_not_running InstanceState.starting h = refl
stopped_not_running InstanceState.suspended h = refl
stopped_not_running InstanceState.stopping h = refl
stopped_not_running InstanceState.terminating h = refl
stopped_not_running InstanceState.terminated h = refl
stopped_not_running InstanceState.unknown h = refl

module _ {S : Type 0} (view : S → VmStates) (show : ℕ → String) (cloud : Option LaunchTemplate)
    (ec2 : Ec2 S) (documented : IsEc2 view ec2) where
  get_state_view :
      (i : String) (s : S) → get_state show cloud ec2 i s ≡ (returned (seen (view s i)), s)
  unfolding get_state describe_instance calling ◌>>=◌ pure
  get_state_view i s = go (view s i) (documented.describes i s)
    where
      go :
          (o : Option InstanceState)
          → Describes o (ec2.describe_instances i s) s
          → get_state show cloud ec2 i s ≡ (returned (seen o), s)
      go none (e, refused, code) = rw (refused, code) refl
      go (some state) (reservations, instance, shown, first, same) = rw (shown, first, same) refl

  -- A call that moves goes through.
  calling-Moves :
      (m : Action ClientError S (Unit {0}))
      (handler : ClientError → Action CloudFailure S (Unit {0})) (s : S)
      → (vms : VmStates) → Moves view m s vms
      → Moves view (calling m handler) s vms
  unfolding calling
  calling-Moves m handler s vms h = go (m s) h.0 h.1
    where
      go :
          (r : Answer ClientError (Unit {0}) × S)
          → r.0 ≡ returned tt
          → ((j : String) → view r.1 j ≡ vms j)
          → ((caught handler r).0 ≡ returned tt)
            × ((j : String) → view (caught handler r).1 j ≡ vms j)
      go (returned _, t) e v = (refl, v)
      go (raised x, t) e v = absurd (ground arith)

  -- A refused call is passed over where the handler returns.
  calling-refused :
      (m : Action ClientError S (Unit {0}))
      (handler : ClientError → Action CloudFailure S (Unit {0})) (s : S)
      → IsRefused "IncorrectInstanceState" (m s) s
      → ((e : ClientError) → e.code ≡ "IncorrectInstanceState" → handler e s ≡ (returned tt, s))
      → Moves view (calling m handler) s (view s)
  unfolding calling
  calling-refused m handler s (e, refused, code) passed =
      rw (refused, passed e code) (refl, λ j. refl)

  -- A call that does not find the VM raises.
  calling-missing :
      (m : Action ClientError S (Unit {0})) (ignored : ClientError → Bool) (s : S)
      → IsRefused "InvalidInstanceID.NotFound" (m s) s
      → ((e : ClientError) → e.code ≡ "InvalidInstanceID.NotFound" → ignored e ≡ false)
      → (e : CloudFailure) × (calling m (λ x. unless (ignored x) x) s ≡ (raised e, s))
        × (e.retryable ≡ false)
  unfolding calling raise_ec2_error raise classify_ec2_error classify_code
  calling-missing m ignored s (e, refused, code) passed =
      (classify_ec2_error e, rw (refused, passed e code) refl, rw code refl)

  start_refines : (i : String) (s : S) → Starts view (aws_ec2 show cloud ec2) i s (view s i)
  unfolding start ◌>>=◌ pure
  start_refines i s = go (view s i) refl
    where
      go : (o : Option InstanceState) → view s i ≡ o → Starts view (aws_ec2 show cloud ec2) i s o
      go none at =
          rw (get_state_view i s, at)
            (calling-missing (ec2.start_instances i) (λ e. e.code == "IncorrectInstanceState") s
              (documented.misses_start i s at) (λ e code. rw code refl))
      go (some state) at = elim (Bool-cases (is_started state)) [
        | inl q ↦ rw (get_state_view i s, at, q, started_not_suspended state q) (refl, λ j. refl)
        | inr q ↦ elim (Bool-cases (is_suspended state)) [
          | inl p ↦
              rw (get_state_view i s, at, q, p)
                (calling-Moves _ _ s _ (documented.starts i s (ap can_start at ∙ p)))
          | inr p ↦
              rw (get_state_view i s, at, q, p)
                (calling-refused _ _ s (documented.refuses_start i s state at p q)
                  (λ e code. rw code refl))
        ]
      ]

  stop_refines : (i : String) (s : S) → Moves view (stop show cloud ec2 i) s (stop_spec i (view s))
  unfolding stop ◌>>=◌ pure
  stop_refines i s = go (view s i) refl
    where
      go :
          (o : Option InstanceState)
          → view s i ≡ o
          → Moves view (stop show cloud ec2 i) s (stop_spec i (view s))
      go none at = rw (get_state_view i s, at) (refl, λ j. refl)
      go (some state) at = elim (Bool-cases (is_stopped state)) [
        | inl q ↦ rw (get_state_view i s, at, q, stopped_not_running state q) (refl, λ j. refl)
        | inr q ↦ elim (Bool-cases (is_running state)) [
          | inl p ↦
              rw (get_state_view i s, at, q, p)
                (calling-Moves _ _ s _ (documented.stops i s (ap can_stop at ∙ p)))
          | inr p ↦
              rw (get_state_view i s, at, q, p)
                (calling-refused _ _ s (documented.refuses_stop i s state at p q)
                  (λ e code. rw code refl))
        ]
      ]

  terminate_refines :
      (i : String) (s : S) → Moves view (terminate show cloud ec2 i) s (terminate_spec i (view s))
  unfolding terminate ◌>>=◌ pure
  terminate_refines i s = elim (Bool-cases (is_terminated (seen (view s i)))) [
    | inl q ↦ rw (get_state_view i s, q) (refl, λ j. refl)
    | inr q ↦
        rw (get_state_view i s, q) (calling-Moves _ _ s _ (documented.terminates i s (rw q refl)))
  ]

-- A provider over the states of its VMs: it tells them, and its commands do what they promise.
pub record RefinesStates {S : Type 0} (view : S → VmStates) (provider : ComputeProvider S)
    : Type 0 where
  pub tells : (i : String) (s : S) → provider.get_state i s ≡ (returned (seen (view s i)), s)
  pub starts : (i : String) (s : S) → Starts view provider i s (view s i)
  pub stops : (i : String) (s : S) → Moves view (provider.stop i) s (stop_spec i (view s))
  pub terminates :
      (i : String) (s : S) → Moves view (provider.terminate i) s (terminate_spec i (view s))

-- Over an EC2 that describes an instance in its state and answers InvalidInstanceID.NotFound for a
-- missing one, moves an instance by the commands that its state allows, refuses the others, and does
-- not find a missing one to start: the provider refines the plain map of VM states. `get_state` tells
-- the state, terminated where the VM is missing. `stop` and `terminate` always return, `start` returns
-- of every VM that is there, and they change the state of the one VM from running to stopping, from
-- all but terminated to terminating, and from suspended to starting, and else nothing. `start` of a
-- missing VM raises an error that is not worth a retry, and changes nothing.
pub aws_ec2-RefinesStates :
    {S : Type 0} (view : S → VmStates) (show : ℕ → String) (cloud : Option LaunchTemplate)
    (ec2 : Ec2 S)
    → IsEc2 view ec2
    → RefinesStates view (aws_ec2 show cloud ec2)
aws_ec2-RefinesStates view show cloud ec2 documented = record {
  tells = get_state_view view show cloud ec2 documented;
  starts = start_refines view show cloud ec2 documented;
  stops = stop_refines view show cloud ec2 documented;
  terminates = terminate_refines view show cloud ec2 documented;
}
