-- ===== src/Tasks/Status.antt =====
-- src/mineru_gateway/tasks/status.py: internal task statuses and what an upstream status means.
pub mod Laws
use mineru_gateway.Base.{
  Bool, true, false, Option, none, some, String, List, ◌==◌, ◌||◌, ◌&&◌, if◌then◌else◌,
}

pub data TaskStatus : Type 0 where
  queued dispatching processing storing_result completed failed expired : TaskStatus

-- `TASK_STATUSES_TERMINAL`
abbrev pub is_terminal : TaskStatus → Bool
is_terminal TaskStatus.completed = true
is_terminal TaskStatus.failed = true
is_terminal TaskStatus.expired = true
is_terminal _ = false

-- `TASK_STATUSES_AUTOSCALE_DEMAND`
abbrev pub is_demand : TaskStatus → Bool
is_demand TaskStatus.queued = true
is_demand TaskStatus.dispatching = true
is_demand TaskStatus.processing = true
is_demand _ = false

-- `TASK_STATUSES_COMPUTE_CAPACITY`
abbrev pub is_computing : TaskStatus → Bool
is_computing TaskStatus.dispatching = true
is_computing TaskStatus.processing = true
is_computing _ = false

-- `TASK_STATUSES_DRAIN_BLOCKERS`
abbrev pub is_drain_blocker : TaskStatus → Bool
is_drain_blocker TaskStatus.dispatching = true
is_drain_blocker TaskStatus.processing = true
is_drain_blocker TaskStatus.storing_result = true
is_drain_blocker _ = false

-- Equality of two statuses.
abbrev pub same_status : TaskStatus → TaskStatus → Bool
same_status TaskStatus.queued TaskStatus.queued = true
same_status TaskStatus.dispatching TaskStatus.dispatching = true
same_status TaskStatus.processing TaskStatus.processing = true
same_status TaskStatus.storing_result TaskStatus.storing_result = true
same_status TaskStatus.completed TaskStatus.completed = true
same_status TaskStatus.failed TaskStatus.failed = true
same_status TaskStatus.expired TaskStatus.expired = true
same_status _ _ = false

-- `_UPSTREAM_ACCEPTED_NONTERMINAL`
abbrev pub upstream_accepted_nonterminal : String → Bool
upstream_accepted_nonterminal s = s == "queued" || s == "pending" || s == "processing"

-- `_UPSTREAM_TO_INTERNAL.get`
unfoldable pub upstream_to_internal : String → Option TaskStatus
upstream_to_internal s =
    if s == "completed"
    then some TaskStatus.completed
    else (if s == "failed"
        then some TaskStatus.failed
        else (if s == "expired"
            then some TaskStatus.expired
            else (if s == "dispatching"
                then some TaskStatus.dispatching
                else (if s == "processing"
                    then some TaskStatus.processing
                    else (if s == "storing_result"
                        then some TaskStatus.storing_result
                        else none)))))

-- `current in (PROCESSING, DISPATCHING, STORING_RESULT) and mapped in (QUEUED, DISPATCHING)`
abbrev keep_claimed : (current mapped : TaskStatus) → TaskStatus
keep_claimed current mapped =
    if is_drain_blocker current
      && (same_status mapped TaskStatus.queued || same_status mapped TaskStatus.dispatching)
    then current
    else mapped

unfoldable pub normalize_upstream_status : Option String → TaskStatus → TaskStatus
unfolding upstream_to_internal
normalize_upstream_status none current = current
normalize_upstream_status (some s) current =
    if upstream_accepted_nonterminal s
    then keep_claimed current TaskStatus.processing
    else (elim (upstream_to_internal s) [
      | none ↦ current
      | some mapped ↦ keep_claimed current mapped
    ])

-- The JSON body of an upstream status answer. The outer `none` of a field is a missing key.
pub record StatusPayload : Type 0 where
  pub status : Option (Option String)
  pub backend : Option String
  pub file_names : Option (List String)
  pub error : Option (Option String)

-- The dictionary of field updates that `apply_upstream_payload` returns.
pub record Updates : Type 0 where
  pub status : Option TaskStatus
  pub backend : Option String
  pub file_names : Option (List String)
  pub error : Option (Option String)

abbrev normalized : TaskStatus → Option (Option String) → Option TaskStatus
normalized row_status none = none
normalized row_status (some s) = some (normalize_upstream_status s row_status)

unfoldable pub apply_upstream_payload : TaskStatus → StatusPayload → Updates
unfolding normalize_upstream_status
apply_upstream_payload row_status payload = record {
  status = normalized row_status payload.status;
  backend = payload.backend;
  file_names = payload.file_names;
  error = payload.error;
}
