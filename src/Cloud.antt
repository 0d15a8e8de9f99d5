-- ===== src/Cloud.antt =====
-- src/mineru_gateway/cloud/types.py: the states of a worker and of its VM, and discovered VMs.
pub mod Tags
use mineru_gateway.Base.{Bool, true, false, Option, String, List}

-- `InstanceState`: what a provider reports of a VM.
pub data InstanceState : Type 0 where
  running suspended starting stopping terminating terminated unknown : InstanceState

-- The texts that `Worker.cloud_state`, `desired_state` and `drain_target` hold. `starting` is
-- written by no constant, but one clause of the repository compares with it.
pub data CloudState : Type 0 where
  pending running stopping terminating stopped terminated unknown starting : CloudState

unfoldable pub cloud_state_from_instance : InstanceState → CloudState
cloud_state_from_instance InstanceState.running = CloudState.running
cloud_state_from_instance InstanceState.suspended = CloudState.stopped
cloud_state_from_instance InstanceState.starting = CloudState.pending
cloud_state_from_instance InstanceState.stopping = CloudState.stopping
cloud_state_from_instance InstanceState.terminating = CloudState.terminating
cloud_state_from_instance InstanceState.terminated = CloudState.terminated
cloud_state_from_instance InstanceState.unknown = CloudState.unknown

-- Equality of two states.
abbrev pub same_state : CloudState → CloudState → Bool
same_state CloudState.pending CloudState.pending = true
same_state CloudState.running CloudState.running = true
same_state CloudState.stopping CloudState.stopping = true
same_state CloudState.terminating CloudState.terminating = true
same_state CloudState.stopped CloudState.stopped = true
same_state CloudState.terminated CloudState.terminated = true
same_state CloudState.unknown CloudState.unknown = true
same_state CloudState.starting CloudState.starting = true
same_state _ _ = false

-- `DiscoveredInstance`. Of its tags the program reads two, and `worker_id` repeats a third.
pub record DiscoveredInstance : Type 0 where
  pub instance_id : String
  pub worker_id : Option String
  pub state : InstanceState
  pub tags : List (String × String)
