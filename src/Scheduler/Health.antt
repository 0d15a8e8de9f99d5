-- ===== src/Scheduler/Health.antt =====
-- `_refresh_worker_health` and what it calls: the health of the workers, as they answer.
use mineru_gateway.Base.{
  ℕ, Bool, true, false, String, Option, none, some, ◌==◌, ◌||◌, is_none, nonempty, or_else, map,
  eqb, if◌then◌else◌,
}
use Prim.Native.String.{◌++◌}
use mineru_gateway.Config.{GatewaySettings}
use mineru_gateway.Models.{Worker, Db}
use mineru_gateway.Workers.Queries.{list_health_check_candidates}
use mineru_gateway.Workers.Commits.{HealthResult, apply_health_checks}

-- The answer to a `GET /health`: an exception with its text, or a code and the fields `status`, in
-- lower case, `stage` and `detail` of its body.
pub data HealthReply : Type 0 where
  no_answer : (error : String) → HealthReply
  replied : (code : ℕ) (status : String) (stage detail : Option String) → HealthReply

-- `_poll_provisioning_status`: whether it is ready, and else where the provisioning stands.
abbrev pub stage_error : (status : String) → Option String → String
stage_error status stage =
    if nonempty stage then "stage=" ++ or_else stage "" else "status=" ++ status

unfoldable pub poll_provisioning_status : HealthReply → Bool × Option String
poll_provisioning_status (no_answer error) = (false, some error)
poll_provisioning_status (replied code status stage detail) =
    if status == "ready" then (true, none) else (
      false,
      some (
          if nonempty detail
          then stage_error status stage ++ " detail=" ++ or_else detail ""
          else stage_error status stage),
    )

-- `_poll_health`, with the text of a code.
unfoldable pub poll_health : (show : ℕ → String) → HealthReply → Bool × Option String
poll_health show (no_answer error) = (false, some error)
poll_health show (replied code status stage detail) =
    if eqb code 200
    then (if status == "healthy" || status == "ok"
        then (true, none)
        else (false, some ("status=" ++ status)))
    else (false, some ("HTTP " ++ show code))

-- The outside: what the two endpoints of a worker answer.
pub record Probes : Type 0 where
  pub status_port : Worker → HealthReply
  pub health : Worker → HealthReply
  pub show : ℕ → String

abbrev pub result_of : Worker → (provisioning : Bool) → Bool × Option String → HealthResult
result_of worker provisioning (ok, error) = record {
  worker_id = worker.id;
  ok = ok;
  error = error;
  provisioning = provisioning;
}

-- `_check_worker_health`
unfoldable pub check_worker_health : Probes → Worker → HealthResult
check_worker_health probes worker = result_of worker (is_none worker.ready_at) (
    if is_none worker.ready_at
    then poll_provisioning_status (probes.status_port worker)
    else poll_health probes.show (probes.health worker))

-- `_refresh_worker_health`
unfoldable pub refresh_worker_health : GatewaySettings → Probes → (now : ℕ) → Db → Db
refresh_worker_health cfg probes now db =
    (apply_health_checks (map (check_worker_health probes) (list_health_check_candidates cfg 32 db))
      now db).1
