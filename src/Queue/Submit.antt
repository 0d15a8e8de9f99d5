-- ===== src/Queue/Submit.antt =====
-- The dispatch of a claimed task: `_submit_claimed_task` and the loop of `dispatch_queued_tasks`.
use Prim.Native.String.{◌++◌}
use mineru_gateway.Base.{
  ℕ, zero, suc, ◌+◌, Bool, true, false, String, List, [], ◌∷◌, Option, none, some, nonempty,
  if◌then◌else◌, or_else,
}
use mineru_gateway.Base.Table.{length}
use mineru_gateway.Config.{GatewaySettings}
use mineru_gateway.Models.{Worker, Task, Db}
use mineru_gateway.Tasks.Errors.{Failure, should_retry}
use mineru_gateway.Payload.{MultipartPayload, Rebuilt, rebuilt, unavailable, raised}
use mineru_gateway.Queue.Rows.{mark_processing, mark_failed}
use mineru_gateway.Queue.Claim.{reassign_dispatch_worker, claim_next_dispatch}

-- What `submit_payload_to_upstream` returns or raises; an answer without a task id or a status is
-- malformed, and reading them raises `KeyError` after the submission.
pub data Reply : Type 0 where
  accepted : (upstream_task_id : String) (status : Option String) → Reply
  refused : Failure → Reply
  malformed : Reply

-- The outside of one dispatch: reading the stored payload of a task (`_rebuild_payload`, with what
-- the object store answers), and the worker's reply, each at the n-th attempt.
pub record Outside : Type 0 where
  pub rebuild : (attempt : ℕ) → Task → Rebuilt
  pub submit : (attempt : ℕ) (base_url : String) → MultipartPayload → Reply
  pub message : Failure → String

-- How a dispatch ends: success, back in the queue, failed for good, or an exception that ends the
-- tick and leaves the claim to `recover_stale_dispatch_claims`.
pub data Dispatch : Type 0 where
  dispatched requeued failed aborted : Dispatch

-- What one round of the `while True` loop decides: an end, or a round with another worker and
-- one more excluded.
pub data Round : Type 0 where
  ended : Dispatch → Db → Round
  retry : Worker → (excluded : List String) → Db → Round

module _ (cfg : GatewaySettings) (outside : Outside) where
  open outside use {rebuild, submit, message}

  -- The end of the loop when no worker is left, or a round with the next one.
  abbrev pub continue_with : (excluded : List String) → Option Worker × Db → Round
  continue_with excluded (none, after) = ended requeued after
  continue_with excluded (some other, after) = retry other excluded after

  -- `_reassign_after_exclusion`, and what the loop makes of its answer.
  unfoldable pub exclude_and_reassign :
      Task → Worker → (excluded : List String) (now : ℕ) → Db → Round
  exclude_and_reassign task worker excluded now db =
      continue_with (worker.id ∷ excluded)
        (reassign_dispatch_worker cfg task.task_id (worker.id ∷ excluded) now db)

  unfoldable pub after_reply :
      Task → Worker → (excluded : List String) (base_url : String) (now : ℕ) → Db → Reply → Round
  after_reply task worker excluded base_url now db (accepted upstream_task_id status) =
      ended dispatched
        (mark_processing task.task_id worker.id upstream_task_id base_url status now db)
  after_reply task worker excluded base_url now db (refused failure) =
      if should_retry failure
      then exclude_and_reassign task worker excluded now db
      else ended failed (mark_failed task.task_id ("Content error: " ++ message failure) now db)
  after_reply task worker excluded base_url now db malformed = ended aborted db

  unfoldable pub with_payload :
      Task → Worker → (excluded : List String) (attempt now : ℕ) → Db → Rebuilt → Round
  with_payload task worker excluded attempt now db unavailable =
      ended failed (mark_failed task.task_id "Payload unavailable in object storage" now db)
  with_payload task worker excluded attempt now db raised = ended aborted db
  with_payload task worker excluded attempt now db (rebuilt payload) =
      if nonempty worker.base_url
      then (let base_url = or_else worker.base_url "" in
          after_reply task worker excluded base_url now db (submit attempt base_url payload))
      else exclude_and_reassign task worker excluded now db

  -- The loop on fuel; `none` means that the fuel ran out.
  unfoldable pub submit_claimed_task :
      (fuel attempt : ℕ)
      → Task
      → Worker
      → (excluded : List String) (now : ℕ) → Db
      → Option (Dispatch × Db)
  submit_claimed_task zero attempt task worker excluded now db = none
  submit_claimed_task (suc fuel) attempt task worker excluded now db =
      elim (with_payload task worker excluded attempt now db (rebuild attempt task)) [
        | ended outcome after ↦ some (outcome, after)
        | retry other more after ↦ submit_claimed_task fuel (attempt + 1) task other more now after
      ]

-- One call of `dispatch_queued_tasks`: how many tasks were dispatched, and whether an exception
-- ended the call.
pub record DispatchRun : Type 0 where
  pub dispatched_count : ℕ
  pub deferred_since : Option ℕ
  pub db : Db
  pub aborted_by_error : Bool

-- The outside of each round of the loop of `dispatch_queued_tasks`.
module _ (cfg : GatewaySettings) (outside : (rounds_left : ℕ) → Outside) (now : ℕ) where
  -- The fuel that `submit_claimed_task` needs at most: one round for each worker, and the last.
  abbrev pub enough_fuel : Db → ℕ
  enough_fuel db = suc (length db.workers)

  abbrev pub submit_claim : (rounds_left : ℕ) → Task → Worker → Db → Option (Dispatch × Db)
  submit_claim rounds_left task worker db =
      submit_claimed_task cfg (outside rounds_left) (enough_fuel db) 0 task worker [] now db

  -- The round after the outcome of a dispatch: an exception ends the call.
  abbrev pub after_outcome :
      (deferred_since : Option ℕ) (before : Db) (next_round : Db → DispatchRun)
      → Option (Dispatch × Db)
      → DispatchRun
  after_outcome deferred_since before next_round none = record {
    dispatched_count = 0;
    deferred_since = deferred_since;
    db = before;
    aborted_by_error = true;
  }
  after_outcome deferred_since before next_round (some (aborted, after)) = record {
    dispatched_count = 0;
    deferred_since = deferred_since;
    db = after;
    aborted_by_error = true;
  }
  after_outcome deferred_since before next_round (some (dispatched, after)) =
      let run = next_round after in record run { dispatched_count = run.dispatched_count + 1 }
  after_outcome deferred_since before next_round (some (requeued, after)) = next_round after
  after_outcome deferred_since before next_round (some (failed, after)) = next_round after

  -- The round after a claim: nothing picked ends the call.
  abbrev pub after_picked :
      (deferred_since : Option ℕ)
      → Db
      → (submit : Task → Worker → Option (Dispatch × Db)) (next_round : Db → DispatchRun)
      → Option (Task × Worker)
      → DispatchRun
  after_picked deferred_since db submit next_round none = record {
    dispatched_count = 0;
    deferred_since = deferred_since;
    db = db;
    aborted_by_error = false;
  }
  after_picked deferred_since db submit next_round (some (task, worker)) =
      after_outcome deferred_since db next_round (submit task worker)

  unfoldable pub dispatch_rounds : (rounds : ℕ) (deferred_since : Option ℕ) → Db → DispatchRun
  dispatch_rounds zero deferred_since db = record {
    dispatched_count = 0;
    deferred_since = deferred_since;
    db = db;
    aborted_by_error = false;
  }
  dispatch_rounds (suc rounds) deferred_since db =
      let claim = claim_next_dispatch cfg now deferred_since db in
      after_picked claim.deferred_since claim.db
        (λ task worker. submit_claim rounds task worker claim.db)
        (λ after. dispatch_rounds rounds claim.deferred_since after) claim.picked

  -- `max_per_tick` is 32 where the scheduler calls it.
  unfoldable pub dispatch_queued_tasks :
      (max_per_tick : ℕ) (deferred_since : Option ℕ) → Db → DispatchRun
  dispatch_queued_tasks max_per_tick deferred_since db =
      dispatch_rounds max_per_tick deferred_since db
