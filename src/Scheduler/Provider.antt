-- ===== src/Scheduler/Provider.antt =====
-- The compute provider (src/mineru_gateway/cloud/base.py) as the reconciliation uses it, over a
-- state of the cloud, and the world of one reconciliation: the database, the cloud, and the commands
-- sent so far, the last one first.
use mineru_gateway.Base.{
  ℕ, Bool, true, false, String, List, ◌∷◌, Option, none, some, ◌==◌, ◌&&◌, not, is_some,
  if◌then◌else◌,
}
use mineru_gateway.Base.Table.{find_where}
use mineru_gateway.Base.Action.{Answer, returned, raised, Action}
use mineru_gateway.Cloud.{InstanceState, DiscoveredInstance}
use mineru_gateway.Models.{Worker, Db, has_id}

-- An exception of a call: its text, and whether it is worth a retry. A `CloudError` says so itself;
-- the code takes every other exception for worth a retry.
pub record CloudFailure : Type 0 where
  pub message : String
  pub retryable : Bool

pub record ComputeProvider (S : Type 0) : Type 0 where
  pub discover : (deployment_id : String) → Action CloudFailure S (List DiscoveredInstance)
  pub launch : (worker_id deployment_id : String) (generation : ℕ) → Action CloudFailure S String
  pub start : (instance_id : String) → Action CloudFailure S (Unit {0})
  pub stop : (instance_id : String) → Action CloudFailure S (Unit {0})
  pub terminate : (instance_id : String) → Action CloudFailure S (Unit {0})
  pub get_state : (instance_id : String) → Action CloudFailure S InstanceState
  pub get_private_ip : (instance_id : String) → Action CloudFailure S (Option String)

-- The calls that change the cloud.
pub data Command : Type 0 where
  launch_vm : (worker_id : String) → Command
  start_vm stop_vm terminate_vm : (instance_id : String) → Command

pub record World (S : Type 0) : Type 0 where
  pub db : Db
  pub cloud : S
  pub sent : List Command

abbrev pub Run : (S A : Type 0) → Type 0
Run S A = Action CloudFailure (World S) A

-- The row of another worker names the VM.
abbrev pub names_vm : (instance_id : String) → Option String → Bool
names_vm i none = false
names_vm i (some j) = j == i

abbrev pub of_other : (worker_id instance_id : String) → Worker → Bool
of_other k i w = not (has_id k w) && names_vm i w.instance_id

-- The constraint that `Worker.instance_id` is unique refuses the VM to a worker that has a row.
unfoldable pub is_vm_taken : (worker_id instance_id : String) → Db → Bool
is_vm_taken k i db =
    is_some (find_where (has_id k) db.workers) && is_some (find_where (of_other k i) db.workers)

module _ {S : Type 0} where
  abbrev pub in_world :
      {A : Type 0} → World S → Answer CloudFailure A × S → Answer CloudFailure A × World S
  in_world w (answer, cloud) = (answer, record w { cloud = cloud })

  -- A call of the provider that only reads.
  unfoldable pub ask : {A : Type 0} → Action CloudFailure S A → Run S A
  ask m w = in_world w (m w.cloud)

  -- A call that changes the cloud.
  unfoldable pub order : {A : Type 0} → Command → Action CloudFailure S A → Run S A
  order c m w = in_world (record w { sent = c ∷ w.sent }) (m w.cloud)

  -- A transaction on the database.
  unfoldable pub commit : (Db → Db) → Run S (Unit {0})
  commit f w = (returned tt, record w { db = f w.db })

  -- A transaction that writes a VM to a worker: where another worker has the VM, it raises an
  -- `IntegrityError`, whose text is not modelled further.
  unfoldable pub commit_vm : (worker_id instance_id : String) → (Db → Db) → Run S (Unit {0})
  commit_vm k i f w =
      if is_vm_taken k i w.db
      then (raised (record { message = "IntegrityError"; retryable = true }), w)
      else commit f w
