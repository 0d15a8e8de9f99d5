-- ===== src/Queue/Lifecycle.antt =====
-- The life of a task: what its row holds at each status, under every operation of the repository.
use mineru_gateway.Base.{
  ℕ, ◌≡◌, refl, true, false, String, Option, none, some, arith, ◌||◌, is_none, is_some, or_else,
  if◌then◌else◌,
}
use mineru_gateway.Models.{Task}
use mineru_gateway.Tasks.Status.{
  TaskStatus, StatusPayload, is_terminal, normalize_upstream_status, apply_upstream_payload,
  same_status,
}
use mineru_gateway.Tasks.Status.Laws.{normalize_upstream_status-ne-queued}
use mineru_gateway.Queue.Rows.{
  completed_row, requeued_row, processing_row, failed_task_row, updated_row, stored_status,
}
use mineru_gateway.Queue.Claim.{claimed_row}

-- A completed task has a result, an ended one a time of its end, and a queued one neither a worker
-- nor a time of dispatch.
pub record IsConsistent (t : Task) : Type 0 where
  pub stored : t.status ≡ TaskStatus.completed → is_some t.result_key ≡ true
  pub ended : is_terminal t.status ≡ true → is_some t.completed_at ≡ true
  pub unassigned :
      t.status ≡ TaskStatus.queued
      → (is_none t.worker_id ≡ true) × (is_none t.dispatch_started_at ≡ true)

-- A row of a status that is neither an end nor `queued` is consistent.
active-IsConsistent :
    (u : Task) → is_terminal u.status ≡ false → (u.status ≡ TaskStatus.queued → ⊥) → IsConsistent u
active-IsConsistent u active apart = record {
  stored = λ e. absurd (ground (arith, e));
  ended = λ e. absurd (ground (arith, e));
  unassigned = λ e. absurd (apart e);
}

-- A row that ends otherwise than completed is consistent with a time of its end.
ended-IsConsistent :
    (u : Task)
    → is_terminal u.status ≡ true
    → (u.status ≡ TaskStatus.completed → ⊥)
    → is_some u.completed_at ≡ true
    → IsConsistent u
ended-IsConsistent u terminal apart at = record {
  stored = λ e. absurd (apart e);
  ended = λ _. at;
  unassigned = λ e. absurd (ground (arith, e));
}

normalize-queued :
    (s : Option String) (current : TaskStatus)
    → normalize_upstream_status s current ≡ TaskStatus.queued
    → current ≡ TaskStatus.queued
unfolding normalize_upstream_status
normalize-queued none current h = h
normalize-queued (some s) current h = ground arith

module _ (now : ℕ) (t : Task) (v : IsConsistent t) where
  pub completed_row-IsConsistent :
      (result_key result_format : String)
      → IsConsistent (completed_row result_key result_format now t)
  unfolding completed_row
  completed_row-IsConsistent result_key result_format = record {
    stored = λ _. refl;
    ended = λ _. refl;
    unassigned = λ e. absurd (ground arith);
  }

  pub requeued_row-IsConsistent : IsConsistent (requeued_row t)
  unfolding requeued_row
  requeued_row-IsConsistent = record {
    stored = λ e. absurd (ground arith);
    ended = λ e. absurd (ground arith);
    unassigned = λ _. (refl, refl);
  }

  pub failed_task_row-IsConsistent : (error : String) → IsConsistent (failed_task_row error now t)
  unfolding failed_task_row
  failed_task_row-IsConsistent error = ended-IsConsistent _ refl (λ e. ground arith) refl

  pub claimed_row-IsConsistent : (worker_id : String) → IsConsistent (claimed_row worker_id now t)
  unfolding claimed_row
  claimed_row-IsConsistent worker_id = active-IsConsistent _ refl (λ e. ground arith)

  pub processing_row-IsConsistent :
      (worker_id upstream_task_id base_url : String) (status : Option String)
      → IsConsistent (processing_row worker_id upstream_task_id base_url status now t)
  unfolding processing_row
  processing_row-IsConsistent worker_id upstream_task_id base_url status =
      by_status (normalize_upstream_status status TaskStatus.processing)
        (normalize_upstream_status-ne-queued status TaskStatus.processing refl).0
    where
      by_status :
          (s : TaskStatus)
          → (s ≡ TaskStatus.queued → ⊥)
          → IsConsistent (
              let bound = record t {
                worker_id = some worker_id;
                upstream_task_id = some upstream_task_id;
                upstream_base_url = some base_url;
                started_at = some (or_else t.started_at now);
              } in
              if same_status s TaskStatus.completed
              then record bound { status = TaskStatus.storing_result }
              else (if is_terminal s
                  then record bound { status = s; completed_at = some now }
                  else record bound { status = s }))
      by_status TaskStatus.queued apart = absurd (apart refl)
      by_status TaskStatus.dispatching apart = active-IsConsistent _ refl (λ e. ground arith)
      by_status TaskStatus.processing apart = active-IsConsistent _ refl (λ e. ground arith)
      by_status TaskStatus.storing_result apart = active-IsConsistent _ refl (λ e. ground arith)
      by_status TaskStatus.completed apart = active-IsConsistent _ refl (λ e. ground arith)
      by_status TaskStatus.failed apart = ended-IsConsistent _ refl (λ e. ground arith) refl
      by_status TaskStatus.expired apart = ended-IsConsistent _ refl (λ e. ground arith) refl

  pub updated_row-IsConsistent :
      (payload : StatusPayload) → IsConsistent (updated_row payload now t)
  unfolding updated_row apply_upstream_payload
  updated_row-IsConsistent payload = by_payload payload.status
    where
      by_status :
          (s : TaskStatus) (u : Task)
          → (s ≡ TaskStatus.queued → t.status ≡ TaskStatus.queued)
          → u.status ≡ stored_status s
          → u.worker_id ≡ t.worker_id
          → u.dispatch_started_at ≡ t.dispatch_started_at
          → ((same_status s TaskStatus.failed || same_status s TaskStatus.expired) ≡ true
              → is_some u.completed_at ≡ true)
          → IsConsistent u
      by_status TaskStatus.queued u from e f g h = record {
        stored = λ k. absurd (ground arith);
        ended = λ k. absurd (ground arith);
        unassigned = λ _. (rw f (v.unassigned (from refl)).0, rw g (v.unassigned (from refl)).1);
      }
      by_status TaskStatus.dispatching u from e f g h =
          active-IsConsistent u (rw e) (λ k. ground arith)
      by_status TaskStatus.processing u from e f g h =
          active-IsConsistent u (rw e) (λ k. ground arith)
      by_status TaskStatus.storing_result u from e f g h =
          active-IsConsistent u (rw e) (λ k. ground arith)
      by_status TaskStatus.completed u from e f g h =
          active-IsConsistent u (rw e) (λ k. ground arith)
      by_status TaskStatus.failed u from e f g h =
          ended-IsConsistent u (rw e) (λ k. ground arith) (h refl)
      by_status TaskStatus.expired u from e f g h =
          ended-IsConsistent u (rw e) (λ k. ground arith) (h refl)

      by_payload :
          (o : Option (Option String))
          → IsConsistent (updated_row (record payload { status = o }) now t)
      by_payload none = record { stored = v.stored; ended = v.ended; unassigned = v.unassigned }
      by_payload (some s) =
          by_status (normalize_upstream_status s t.status) _ (normalize-queued s t.status) refl refl
            refl (λ e. ground (arith, e))
