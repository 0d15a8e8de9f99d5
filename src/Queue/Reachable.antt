-- ===== src/Queue/Reachable.antt =====
-- The databases that the operations of the repository reach, and what holds of all of them.
use mineru_gateway.Base.{
  ℕ, ◌+◌, ◌≡◌, refl, Bool, String, List, [], ◌∷◌, Option, none, some, inl, inr, arith, Option-cases,
  Bool-cases, seconds, is_some, nonempty, or_else, true, false, ◌++◌,
}
use mineru_gateway.Base.Table.{All}
use mineru_gateway.Base.Table.Laws.{All-update_where, All-append, All-delete_where}
use mineru_gateway.Config.{GatewaySettings}
use mineru_gateway.Models.{Task, CacheEntry, OptionValue, Db, has_task_id}
use mineru_gateway.Tasks.Status.{StatusPayload}
use mineru_gateway.Queue.Rows.{
  get_task, write_tasks, new_task, create_queued_task, clear_cache_key, expire_client_sla_tasks,
  sla_expired, complete_with_result, completed_row, recover_stale_dispatch_claims, stale_claim,
  requeued_row, mark_processing, processing_row, mark_failed, failed_task_row, apply_payload,
  updated_row, defer_task_poll, delete_task, poll_retry_delay_seconds,
}
use mineru_gateway.Queue.Claim.{claim_next_dispatch, claimed_row}
use mineru_gateway.Queue.Sync.{clear_next_poll}
use mineru_gateway.Tasks.Storage.{result_key, result_format_zip}
use mineru_gateway.Cache.Entries.{ObjectStore, CacheState, create_hit_task, hit_task, insert_hit}
use mineru_gateway.Workers.Commits.{commit_fields}
use mineru_gateway.Workers.Choice.{after_choice}
use mineru_gateway.Queue.Picks.{claim-cases}
use mineru_gateway.Queue.Lifecycle.{
  IsConsistent, completed_row-IsConsistent, requeued_row-IsConsistent, failed_task_row-IsConsistent,
  claimed_row-IsConsistent, processing_row-IsConsistent, updated_row-IsConsistent,
}

-- One operation on the tasks: of the repository, or a hit of the cache over a store of objects.
pub data Step (Objects : Type 0) (cfg : GatewaySettings) : Db → Db → Type 0 where
  created :
      (task_id : String) (file_names : List String) (backend parse_method : String)
      → (options : List (String × OptionValue)) (payload_key : Option String) (source : String)
      → (cache_key : Option String) (now : ℕ) (db : Db)
      → Step Objects cfg db (
          create_queued_task task_id file_names backend parse_method options payload_key source
            cache_key now db)
  cleared :
      (task_id : String) (now : ℕ) (db : Db) → Step Objects cfg db (clear_cache_key task_id now db)
  sla_passed :
      (sla_seconds now : ℕ) (db : Db)
      → Step Objects cfg db (expire_client_sla_tasks sla_seconds now db).1
  stored :
      (task_id result_key result_format : String) (now : ℕ) (db : Db)
      → Step Objects cfg db (complete_with_result task_id result_key result_format now db).1
  recovered : (now : ℕ) (db : Db) → Step Objects cfg db (recover_stale_dispatch_claims now db).1
  picked :
      (now : ℕ) (deferred_since : Option ℕ) (db : Db)
      → Step Objects cfg db (claim_next_dispatch cfg now deferred_since db).db
  accepted :
      (task_id worker_id upstream_task_id base_url : String) (status : Option String) (now : ℕ)
      → (db : Db)
      → Step Objects cfg db
          (mark_processing task_id worker_id upstream_task_id base_url status now db)
  gave_up :
      (task_id error : String) (now : ℕ) (db : Db)
      → Step Objects cfg db (mark_failed task_id error now db)
  polled :
      (task_id : String) (payload : StatusPayload) (now : ℕ) (db : Db)
      → Step Objects cfg db (apply_payload task_id payload now db).1
  deferred :
      (task_id : String) (now : ℕ) (db : Db) → Step Objects cfg db (defer_task_poll task_id now db)
  poll_cleared :
      (task_id : String) (now : ℕ) (db : Db) → Step Objects cfg db (clear_next_poll task_id now db)
  cache_hit :
      (store : ObjectStore Objects) (task_id : String) (entry : CacheEntry)
      (file_names : List String)
      → (inserted : Bool) (now : ℕ) (objects : Objects) (db : Db)
      → Step Objects cfg db
          (create_hit_task cfg store task_id entry file_names inserted now
            (record { db = db; objects = objects })).1.db
  deleted : (task_id : String) (db : Db) → Step Objects cfg db (delete_task task_id db).1

-- The databases reached from one without tasks.
pub data Reachable (Objects : Type 0) (cfg : GatewaySettings) : Db → Type 0 where
  start : (db : Db) → db.tasks ≡ [] → Reachable Objects cfg db
  next :
      (before after : Db)
      → Reachable Objects cfg before
      → Step Objects cfg before after
      → Reachable Objects cfg after

abbrev pub AllConsistent : Db → Type 0
AllConsistent db = All IsConsistent db.tasks

-- A write to rows that keeps each of them consistent.
write_tasks-AllConsistent :
    (p : Task → Bool) (now : ℕ) (f : Task → Task) (db : Db)
    → ((t : Task) → IsConsistent t → IsConsistent (f t))
    → AllConsistent db
    → AllConsistent (write_tasks p now f db)
write_tasks-AllConsistent p now f db keep h =
    All-update_where IsConsistent p (λ t. let u = f t in record u { updated_at = now }) db.tasks
      (λ t _ v.
        let w = keep t v in
        record { stored = w.stored; ended = w.ended; unassigned = w.unassigned })
      h

complete_with_result-AllConsistent :
    (id key format : String) (now : ℕ) (db : Db)
    → AllConsistent db
    → AllConsistent (complete_with_result id key format now db).1
unfolding complete_with_result
complete_with_result-AllConsistent id key format now db h = elim (Option-cases (get_task id db)) [
  | inl e ↦ rw (e, complete_with_result) h
  | inr (row, e) ↦
      rw (e, complete_with_result)
        (write_tasks-AllConsistent (has_task_id id) now (completed_row key format now) db
          (λ t v. completed_row-IsConsistent now t v key format) h)
]

apply_payload-AllConsistent :
    (id : String) (payload : StatusPayload) (now : ℕ) (db : Db)
    → AllConsistent db
    → AllConsistent (apply_payload id payload now db).1
unfolding apply_payload
apply_payload-AllConsistent id payload now db h = elim (Option-cases (get_task id db)) [
  | inl e ↦ rw (e, apply_payload) h
  | inr (row, e) ↦
      rw (e, apply_payload)
        (write_tasks-AllConsistent (has_task_id id) now (updated_row payload now) db
          (λ t v. updated_row-IsConsistent now t v payload) h)
]

delete_task-AllConsistent :
    (id : String) (db : Db) → AllConsistent db → AllConsistent (delete_task id db).1
unfolding delete_task
delete_task-AllConsistent id db h = elim (Option-cases (get_task id db)) [
  | inl e ↦ rw (e, delete_task) h
  | inr (row, e) ↦ rw (e, delete_task) (All-delete_where IsConsistent (has_task_id id) db.tasks h)
]

claim_next_dispatch-AllConsistent :
    (cfg : GatewaySettings) (now : ℕ) (deferred_since : Option ℕ) (db : Db)
    → AllConsistent db
    → AllConsistent (claim_next_dispatch cfg now deferred_since db).db
unfolding commit_fields
claim_next_dispatch-AllConsistent cfg now deferred_since db h =
    elim (claim-cases cfg now deferred_since db) [
      | inr (_, _, same) ↦ rw same h
      | inl (task, w, _, _, after) ↦ rw after (
          write_tasks-AllConsistent (has_task_id task.task_id) now (claimed_row w.id now)
            (after_choice now w db) (λ t v. claimed_row-IsConsistent now t v w.id) h)
    ]

clear_next_poll-AllConsistent :
    (id : String) (now : ℕ) (db : Db) → AllConsistent db → AllConsistent (clear_next_poll id now db)
unfolding clear_next_poll
clear_next_poll-AllConsistent id now db h = elim (Option-cases (get_task id db)) [
  | inl e ↦ rw (e, clear_next_poll) h
  | inr (row, e) ↦
      rw (e, clear_next_poll)
        (elim (Bool-cases (is_some row.next_poll_at)) [
          | inr q ↦ rw q h
          | inl q ↦ rw q (
              write_tasks-AllConsistent (has_task_id id) now (λ t. record t { next_poll_at = none })
                db (λ t v. record { stored = v.stored; ended = v.ended; unassigned = v.unassigned })
                h)
        ])
]

module _ {Objects : Type 0} (cfg : GatewaySettings) (store : ObjectStore Objects) where
  hit_task-AllConsistent :
      (id : String) (entry : CacheEntry) (names : List String) (dest : String) (now : ℕ) (db : Db)
      → AllConsistent db
      → All IsConsistent (db.tasks ++ hit_task cfg store id entry names dest now ∷ [])
  unfolding hit_task
  hit_task-AllConsistent id entry names dest now db h =
      All-append IsConsistent db.tasks (hit_task cfg store id entry names dest now ∷ []) h (
        record { stored = λ _. refl; ended = λ _. refl; unassigned = λ e. absurd (ground arith) },
        tt,
      )

  create_hit_task-AllConsistent :
      (id : String) (entry : CacheEntry) (names : List String) (inserted : Bool) (now : ℕ)
      → (state : CacheState Objects) → AllConsistent state.db
      → AllConsistent (create_hit_task cfg store id entry names inserted now state).1.db
  unfolding create_hit_task
  create_hit_task-AllConsistent id entry names inserted now state h =
      elim (Bool-cases (nonempty entry.object_key)) [
        | inr q ↦ rw q (inserting none inserted state h)
        | inl q ↦
            elim (Option-cases (
              store.copy (or_else entry.object_key "") (result_key id result_format_zip)
                state.objects)) [
                  | inl p ↦ rw (q, p) h
                  | inr (objects, p) ↦
                      rw (q, p)
                        (inserting (some (result_key id result_format_zip)) inserted
                          (record { db = state.db; objects = objects }) h)
                ]
      ]
    where
      inserting :
          (copied : Option String) (answer : Bool) (s : CacheState Objects)
          → AllConsistent s.db
          → AllConsistent
              (insert_hit cfg store
                (hit_task cfg store id entry names (result_key id result_format_zip) now)
                copied
                answer
                s).1.db
      inserting copied true s v =
          hit_task-AllConsistent id entry names (result_key id result_format_zip) now s.db v
      inserting copied false s v = v

module _ {Objects : Type 0} (cfg : GatewaySettings) where
  Step-AllConsistent :
      {before after : Db}
      → Step Objects cfg before after
      → AllConsistent before
      → AllConsistent after
  unfolding create_queued_task clear_cache_key expire_client_sla_tasks recover_stale_dispatch_claims
      mark_processing mark_failed defer_task_poll
  Step-AllConsistent (created id names backend method options payload source cache now db) h =
      All-append IsConsistent db.tasks
        (new_task id names backend method options payload source cache now ∷ []) h
        (
          record {
            stored = λ e. absurd (ground arith);
            ended = λ e. absurd (ground arith);
            unassigned = λ _. (refl, refl);
          },
          tt,
        )
  Step-AllConsistent (cleared id now db) h =
      write_tasks-AllConsistent (has_task_id id) now (λ t. record t { cache_key = none }) db
        (λ t v. record { stored = v.stored; ended = v.ended; unassigned = v.unassigned }) h
  Step-AllConsistent (sla_passed sla now db) h =
      write_tasks-AllConsistent (sla_expired sla now) now
        (λ t. record t { client_expired_at = some now }) db
        (λ t v. record { stored = v.stored; ended = v.ended; unassigned = v.unassigned }) h
  Step-AllConsistent (stored id key format now db) h =
      complete_with_result-AllConsistent id key format now db h
  Step-AllConsistent (recovered now db) h =
      write_tasks-AllConsistent (stale_claim now) now requeued_row db
        (λ t v. requeued_row-IsConsistent now t v) h
  Step-AllConsistent (picked now since db) h = claim_next_dispatch-AllConsistent cfg now since db h
  Step-AllConsistent (accepted id worker upstream url status now db) h =
      write_tasks-AllConsistent (has_task_id id) now (processing_row worker upstream url status now)
        db (λ t v. processing_row-IsConsistent now t v worker upstream url status) h
  Step-AllConsistent (gave_up id error now db) h =
      write_tasks-AllConsistent (has_task_id id) now (failed_task_row error now) db
        (λ t v. failed_task_row-IsConsistent now t v error) h
  Step-AllConsistent (polled id payload now db) h = apply_payload-AllConsistent id payload now db h
  Step-AllConsistent (deferred id now db) h =
      write_tasks-AllConsistent (has_task_id id) now
        (λ t. record t { next_poll_at = some (now + seconds poll_retry_delay_seconds) }) db
        (λ t v. record { stored = v.stored; ended = v.ended; unassigned = v.unassigned }) h
  Step-AllConsistent (poll_cleared id now db) h = clear_next_poll-AllConsistent id now db h
  Step-AllConsistent (cache_hit store id entry names inserted now objects db) h =
      create_hit_task-AllConsistent cfg store id entry names inserted now
        (record { db = db; objects = objects }) h
  Step-AllConsistent (deleted id db) h = delete_task-AllConsistent id db h

  -- In every database that the operations reach from one without tasks, a completed task has a
  -- result, an ended one a time of its end, and a queued one neither a worker nor a time of
  -- dispatch. The operations are those of `Step`: all writes to tasks, those of a cache hit
  -- included, but the reassignment of a dispatching task.
  pub Reachable-AllConsistent : (db : Db) → Reachable Objects cfg db → AllConsistent db
  Reachable-AllConsistent _ (start db empty) = rw empty tt
  Reachable-AllConsistent _ (next before after r s) =
      Step-AllConsistent s (Reachable-AllConsistent before r)
