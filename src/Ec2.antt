-- ===== src/Ec2.antt =====
-- src/mineru_gateway/cloud/aws/ec2.py: the provider of EC2, over EC2's API as a parameter.
pub mod Launches
pub mod Refines
use mineru_gateway.Base.{
  ℕ, Bool, true, false, String, List, [], ◌∷◌, Option, none, some, ◌==◌, ◌||◌, map, nonempty,
  or_else, if◌then◌else◌,
}
use Prim.Native.String.{◌++◌}
use mineru_gateway.Base.Action.{
  Answer, returned, raised, Action, pure, raise, try_except, ◌>>=◌, ◌>>◌,
}
use mineru_gateway.Cloud.{InstanceState, DiscoveredInstance}
use mineru_gateway.Cloud.Tags.{build_worker_tags}
use mineru_gateway.Scheduler.Provider.{CloudFailure, ComputeProvider}
use mineru_gateway.Scheduler.Reconcile.Pass.{get_tag}

-- A `ClientError` of boto3.
pub record ClientError : Type 0 where
  pub code : String
  pub message : String

-- What the API tells of an instance.
pub record Ec2Instance : Type 0 where
  pub instance_id : String
  pub state_name : String
  pub private_ip : Option String
  pub tags : List (String × String)

-- The parameters of `run_instances`, besides the two counts, which are one.
pub record LaunchRequest : Type 0 where
  pub template_id : String
  pub version : Option String
  pub client_token : String
  pub tags : List (String × String)

-- The calls of the API: the reservations of one instance, the three commands, the launch, and the
-- instances of all pages that have the tags.
pub record Ec2 (S : Type 0) : Type 0 where
  pub describe_instances : (instance_id : String) → Action ClientError S (List (List Ec2Instance))
  pub start_instances : (instance_id : String) → Action ClientError S (Unit {0})
  pub stop_instances : (instance_id : String) → Action ClientError S (Unit {0})
  pub terminate_instances : (instance_id : String) → Action ClientError S (Unit {0})
  pub run_instances : LaunchRequest → Action ClientError S String
  pub describe_tagged : (filters : List (String × String)) → Action ClientError S (List Ec2Instance)

-- `_EC2_STATE_MAP`, and `unknown` for another state.
unfoldable pub normalize_ec2_state : String → InstanceState
normalize_ec2_state name =
    if name == "running"
    then InstanceState.running
    else (if name == "stopped"
        then InstanceState.suspended
        else (if name == "pending"
            then InstanceState.starting
            else (if name == "stopping"
                then InstanceState.stopping
                else (if name == "shutting-down"
                    then InstanceState.terminating
                    else (if name == "terminated"
                        then InstanceState.terminated
                        else InstanceState.unknown)))))

-- `_EC2_ERROR_CLASSIFICATION`: the categories, and whether an error is worth a retry.
pub data CloudErrorCategory : Type 0 where
  retryable not_found auth quota invalid_id terminal unknown : CloudErrorCategory

abbrev pub category_text : CloudErrorCategory → String
category_text CloudErrorCategory.retryable = "retryable"
category_text CloudErrorCategory.not_found = "not_found"
category_text CloudErrorCategory.auth = "auth"
category_text CloudErrorCategory.quota = "quota"
category_text CloudErrorCategory.invalid_id = "invalid_id"
category_text CloudErrorCategory.terminal = "terminal"
category_text CloudErrorCategory.unknown = "unknown"

abbrev pub is_missing_code : String → Bool
is_missing_code code =
    code == "InvalidInstanceID.NotFound"
    || code == "InvalidInstanceID.Malformed"
    || code == "InvalidInstanceID"

unfoldable pub classify_code : String → CloudErrorCategory
classify_code code =
    if code == "InvalidInstanceID.NotFound"
    then CloudErrorCategory.not_found
    else (if code == "InvalidInstanceID.Malformed" || code == "InvalidInstanceID"
        then CloudErrorCategory.invalid_id
        else (if code == "UnauthorizedOperation" || code == "AccessDenied"
            then CloudErrorCategory.auth
            else (if code == "RequestLimitExceeded"
                  || code == "Throttling"
                  || code == "ThrottlingException"
                  || code == "ServiceUnavailable"
                  || code == "InternalError"
                then CloudErrorCategory.retryable
                else (if code == "InsufficientInstanceCapacity"
                      || code == "VcpuLimitExceeded"
                      || code == "InstanceLimitExceeded"
                      || code == "VolumeLimitExceeded"
                    then CloudErrorCategory.quota
                    else CloudErrorCategory.unknown))))

-- Only the category `retryable` of the table is worth a retry.
abbrev pub is_retryable : CloudErrorCategory → Bool
is_retryable CloudErrorCategory.retryable = true
is_retryable _ = false

-- `CloudError.__str__`
abbrev pub cloud_error : CloudErrorCategory → (code message : String) → CloudFailure
cloud_error category code message = record {
  message = category_text category ++ ":" ++ code ++ ": " ++ message;
  retryable = is_retryable category;
}

-- `_classify_ec2_error`
unfoldable pub classify_ec2_error : ClientError → CloudFailure
classify_ec2_error e = cloud_error (classify_code e.code) e.code e.message

-- `_tags_from_instance`: of a key that is there twice the later value stays.
unfoldable pub set_tag : String → String → List (String × String) → List (String × String)
set_tag key value [] = (key, value) ∷ []
set_tag key value ((k, v) ∷ tags) =
    let rest = set_tag key value tags in if k == key then (k, value) ∷ tags else (k, v) ∷ rest

unfoldable pub tags_of :
    (tags : List (String × String)) (so_far : List (String × String)) → List (String × String)
tags_of [] so_far = so_far
tags_of ((k, v) ∷ tags) so_far = tags_of tags (set_tag k v so_far)

unfoldable pub discovered_of : Ec2Instance → DiscoveredInstance
discovered_of instance =
    let tags = tags_of instance.tags [] in
    record {
      instance_id = instance.instance_id;
      worker_id = get_tag "mineru-gateway-worker-id" tags;
      state = normalize_ec2_state instance.state_name;
      tags = tags;
    }

-- `cloud`: the launch template of the configuration.
pub record LaunchTemplate : Type 0 where
  pub template_id : Option String
  pub version : Option String

-- The states in which a command is not needed.
abbrev pub is_started : InstanceState → Bool
is_started InstanceState.running = true
is_started InstanceState.starting = true
is_started _ = false

abbrev pub is_stopped : InstanceState → Bool
is_stopped InstanceState.suspended = true
is_stopped InstanceState.stopping = true
is_stopped InstanceState.terminated = true
is_stopped _ = false

abbrev pub is_terminated : InstanceState → Bool
is_terminated InstanceState.terminated = true
is_terminated _ = false

-- `reservations[0]["Instances"][0]`
abbrev pub first_instance : List (List Ec2Instance) → Option Ec2Instance
first_instance ((instance ∷ _) ∷ _) = some instance
first_instance _ = none

module _ {S : Type 0} where
  -- `try … except ClientError`
  abbrev pub caught :
      {A : Type 0}
      → (ClientError → Action CloudFailure S A)
      → Answer ClientError A × S
      → Answer CloudFailure A × S
  caught handler (returned a, s) = (returned a, s)
  caught handler (raised e, s) = handler e s

  unfoldable pub calling :
      {A : Type 0}
      → Action ClientError S A
      → (ClientError → Action CloudFailure S A)
      → Action CloudFailure S A
  calling m handler s = caught handler (m s)

  -- `_raise_ec2_error`
  unfoldable pub raise_ec2_error : {A : Type 0} → ClientError → Action CloudFailure S A
  raise_ec2_error e = raise (classify_ec2_error e)

  -- Errors that a command passes over.
  abbrev pub unless : (ignored : Bool) → ClientError → Action CloudFailure S (Unit {0})
  unless ignored e = if ignored then pure tt else raise_ec2_error e

module _ {S : Type 0} (show : ℕ → String) (cloud : Option LaunchTemplate) (ec2 : Ec2 S) where
  open ec2 use {
    describe_instances, start_instances, stop_instances, terminate_instances, run_instances,
    describe_tagged,
  }

  -- `_describe_instance`
  unfoldable pub describe_instance : String → Action CloudFailure S (Option Ec2Instance)
  describe_instance instance_id =
      calling
        (describe_instances instance_id >>= λ reservations. pure (first_instance reservations))
        (λ e. (if is_missing_code e.code then pure none else raise_ec2_error e))

  abbrev pub state_of : Option Ec2Instance → InstanceState
  state_of none = InstanceState.terminated
  state_of (some instance) = normalize_ec2_state instance.state_name

  unfoldable pub get_state : String → Action CloudFailure S InstanceState
  get_state instance_id = describe_instance instance_id >>= λ found. pure (state_of found)

  abbrev pub ip_of : Option Ec2Instance → Option String
  ip_of none = none
  ip_of (some instance) = instance.private_ip

  unfoldable pub get_private_ip : String → Action CloudFailure S (Option String)
  get_private_ip instance_id = describe_instance instance_id >>= λ found. pure (ip_of found)

  unfoldable pub start : String → Action CloudFailure S (Unit {0})
  start instance_id = get_state instance_id >>= λ state.
      (if is_started state
        then pure tt
        else calling (start_instances instance_id)
            (λ e. unless (e.code == "IncorrectInstanceState") e))

  unfoldable pub stop : String → Action CloudFailure S (Unit {0})
  stop instance_id = get_state instance_id >>= λ state.
      (if is_stopped state
        then pure tt
        else calling (stop_instances instance_id)
            (λ e. unless (e.code == "IncorrectInstanceState") e))

  unfoldable pub terminate : String → Action CloudFailure S (Unit {0})
  terminate instance_id = get_state instance_id >>= λ state.
      (if is_terminated state
        then pure tt
        else calling (terminate_instances instance_id)
            (λ e. unless (is_missing_code e.code || e.code == "IncorrectInstanceState") e))

  -- `launch`, where a launch template is configured.
  abbrev pub launch_from :
      Option LaunchTemplate
      → (worker_id deployment_id : String) (generation : ℕ) → Action CloudFailure S String
  launch_from none worker_id deployment_id generation = raise (
      cloud_error CloudErrorCategory.invalid_id "MissingCloudConfig"
        "AwsEc2Provider requires cloud config at construction")
  launch_from (some template) worker_id deployment_id generation =
      if nonempty template.template_id
      then calling
          (run_instances (record {
            template_id = or_else template.template_id "";
            version = template.version;
            client_token = worker_id;
            tags = build_worker_tags show worker_id deployment_id generation;
          }))
          raise_ec2_error
      else raise (
          cloud_error CloudErrorCategory.invalid_id "MissingLaunchTemplate"
            "cloud.aws.launch_template_id is required")

  unfoldable pub launch :
      (worker_id deployment_id : String) (generation : ℕ) → Action CloudFailure S String
  launch worker_id deployment_id generation = launch_from cloud worker_id deployment_id generation

  abbrev pub filters_of : (deployment_id : String) → List (String × String)
  filters_of deployment_id =
      ("mineru-gateway-managed", "true")
      ∷ ("mineru-gateway-deployment", deployment_id)
      ∷ ("mineru-gateway-role", "worker")
      ∷ []

  unfoldable pub discover :
      (deployment_id : String) → Action CloudFailure S (List DiscoveredInstance)
  discover deployment_id =
      calling
        (describe_tagged (filters_of deployment_id) >>= λ instances.
          pure (map discovered_of instances))
        raise_ec2_error

  -- `AwsEc2Provider` is a `ComputeProvider`.
  abbrev pub aws_ec2 : ComputeProvider S
  aws_ec2 = record {
    discover = discover;
    launch = launch;
    start = start;
    stop = stop;
    terminate = terminate;
    get_state = get_state;
    get_private_ip = get_private_ip;
  }
