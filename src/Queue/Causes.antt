-- ===== src/Queue/Causes.antt =====
-- Why the dispatch of a claimed task ends as it does.
use mineru_gateway.Base.{
  ℕ, ◌≡◌, ◌⊎◌, refl, false, String, List, ◌∷◌, Option, none, some, inl, inr, Bool-cases, nonempty,
  or_else,
}
use mineru_gateway.Config.{GatewaySettings}
use mineru_gateway.Models.{Worker, Task, Db}
use mineru_gateway.Tasks.Errors.{Failure, should_retry}
use mineru_gateway.Payload.{MultipartPayload, Rebuilt, rebuilt, unavailable, raised}
use mineru_gateway.Queue.Claim.{reassign_dispatch_worker}
use mineru_gateway.Queue.Submit.{
  Reply, accepted, refused, malformed, Outside, Dispatch, dispatched, requeued, failed, aborted,
  Round, ended, retry, continue_with, exclude_and_reassign, after_reply, with_payload,
}

module _ (outside : Outside) (task : Task) where
  -- A worker gave the reply to a submission of the payload that was read.
  abbrev pub IsReply : Reply → Type 0
  IsReply reply =
      (attempt : ℕ) × (base_url : String) × (payload : MultipartPayload) × (outside.rebuild attempt
          task
        ≡ rebuilt payload)
      × (outside.submit attempt base_url payload ≡ reply)

  -- Why a dispatch ended as it did: a worker accepted the task; the payload was unavailable, or a
  -- worker refused it with a failure that is not retried; reading the payload raised, or a worker
  -- answered without a task id or a status.
  abbrev pub Cause : Dispatch → Type 0
  Cause dispatched =
      (upstream_task_id : String) × (status : Option String) × IsReply
        (accepted upstream_task_id status)
  Cause requeued = Unit
  Cause failed =
      ((attempt : ℕ) × (outside.rebuild attempt task ≡ unavailable))
      ⊎ ((failure : Failure) × (should_retry failure ≡ false) × IsReply (refused failure))
  Cause aborted = ((attempt : ℕ) × (outside.rebuild attempt task ≡ raised)) ⊎ IsReply malformed

  abbrev pub HasCause : Round → Type 0
  HasCause (ended outcome after) = Cause outcome
  HasCause (retry other more after) = Unit

module _ (cfg : GatewaySettings) (outside : Outside) (now : ℕ) (task : Task) where
  exclude_and_reassign-HasCause :
      (worker : Worker) (excluded : List String) (db : Db)
      → HasCause outside task (exclude_and_reassign cfg outside task worker excluded now db)
  unfolding exclude_and_reassign
  exclude_and_reassign-HasCause worker excluded db =
      go (reassign_dispatch_worker cfg task.task_id (worker.id ∷ excluded) now db)
    where
      go :
          (r : Option Worker × Db)
          → HasCause outside task (continue_with cfg outside (worker.id ∷ excluded) r)
      go (none, after) = tt
      go (some other, after) = tt

  after_reply-HasCause :
      (worker : Worker) (excluded : List String) (base_url : String) (db : Db) (reply : Reply)
      → IsReply outside task reply
      → HasCause outside task (after_reply cfg outside task worker excluded base_url now db reply)
  unfolding after_reply
  after_reply-HasCause worker excluded base_url db (accepted id status) given = (id, status, given)
  after_reply-HasCause worker excluded base_url db malformed given = inr given
  after_reply-HasCause worker excluded base_url db (refused failure) given =
      elim (Bool-cases (should_retry failure)) [
        | inl e ↦ rw e (exclude_and_reassign-HasCause worker excluded db)
        | inr e ↦ rw e (inr (failure, e, given))
      ]

  pub with_payload-HasCause :
      (worker : Worker) (excluded : List String) (attempt : ℕ) (db : Db) (r : Rebuilt)
      → outside.rebuild attempt task ≡ r
      → HasCause outside task (with_payload cfg outside task worker excluded attempt now db r)
  unfolding with_payload
  with_payload-HasCause worker excluded attempt db unavailable read = inl (attempt, read)
  with_payload-HasCause worker excluded attempt db raised read = inl (attempt, read)
  with_payload-HasCause worker excluded attempt db (rebuilt payload) read =
      elim (Bool-cases (nonempty worker.base_url)) [
        | inl e ↦ rw e (
            after_reply-HasCause worker excluded (or_else worker.base_url "") db
              (outside.submit attempt (or_else worker.base_url "") payload)
              (attempt, or_else worker.base_url "", payload, read, refl))
        | inr e ↦ rw e (exclude_and_reassign-HasCause worker excluded db)
      ]
