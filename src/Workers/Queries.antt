-- ===== src/Workers/Queries.antt =====
-- The reads of `WorkerRepository`: counts, lists, and the one row of an ordered selection. Where
-- the code leaves the order of equal rows to the database, the first row of the table is taken.
use Prim.Native.Nat.{Ordering}
use Prim.Native.String.{compare}
use mineru_gateway.Base.{
  ℕ, ◌+◌, Bool, true, false, String, List, [], ◌∷◌, Option, none, some, ◌==◌, ◌&&◌, ◌||◌, not, ltb,
  is_none, is_some, if◌then◌else◌,
}
use mineru_gateway.Base.Table.{count_where, select_where, find_where, first_by, sort_by, take}
use mineru_gateway.Config.{GatewaySettings}
use mineru_gateway.Cloud.{CloudState, same_state}
use mineru_gateway.Models.{Worker, Task, Db, has_id}
use mineru_gateway.Tasks.Status.{TaskStatus, is_demand, same_status}
use mineru_gateway.Scaling.{ScalingInputs}
use mineru_gateway.Workers.Clauses.{
  assigned_to, active_count, blocking_drain, deployment_clause, serviceable_clause,
  ready_serviceable_clause, dispatchable_clause, provisioning_clause, draining_clause,
  stopping_clause, stalled_and_active_clause, stopped_clause, idle_clause, replaces,
  active_replacement_clause, rotation_eligible_clause, pending_finalize_clause, health_check_clause,
}

-- `ORDER BY t ASC NULLS FIRST` on an optional time.
abbrev pub nulls_first_less : Option ℕ → Option ℕ → Bool
nulls_first_less none (some _) = true
nulls_first_less (some a) (some b) = ltb a b
nulls_first_less _ none = false

abbrev pub text_less : String → String → Bool
text_less a b = elim (compare a b) [ Ordering.lt ↦ true | _ ↦ false ]

-- `ORDER BY active_count, last_active_at NULLS FIRST, id`
unfoldable pub dispatch_less : List Task → Worker → Worker → Bool
dispatch_less tasks a b =
    ltb (active_count tasks a.id) (active_count tasks b.id)
    || not (ltb (active_count tasks b.id) (active_count tasks a.id))
      && (nulls_first_less a.last_active_at b.last_active_at
          || not (nulls_first_less b.last_active_at a.last_active_at) && text_less a.id b.id)

-- `x in excluded_ids`
unfoldable pub contains : List String → String → Bool
contains [] x = false
contains (y ∷ ys) x = y == x || contains ys x

abbrev pub created_less : Worker → Worker → Bool
created_less a b = ltb a.created_at b.created_at

-- `ORDER BY last_health_checked_at NULLS FIRST, id`
abbrev pub health_less : Worker → Worker → Bool
health_less a b =
    nulls_first_less a.last_health_checked_at b.last_health_checked_at
    || not (nulls_first_less b.last_health_checked_at a.last_health_checked_at)
      && text_less a.id b.id

-- `COALESCE(last_active_at, ready_at) ASC`; every row that `find_idle_worker` orders has the latter.
abbrev pub idle_since : Worker → Option ℕ
idle_since w = elim w.last_active_at [ none ↦ w.ready_at | some t ↦ some t ]

abbrev pub idle_less : Worker → Worker → Bool
idle_less a b = nulls_first_less (idle_since a) (idle_since b)

unfoldable pub get_row : String → Db → Option Worker
get_row worker_id db = find_where (has_id worker_id) db.workers

unfoldable pub count_queue_depth : Db → ℕ
count_queue_depth db = count_where (λ t. is_demand t.status) db.tasks

unfoldable pub count_inflight_tasks : String → Db → ℕ
unfolding blocking_drain
count_inflight_tasks worker_id db = count_where (blocking_drain worker_id) db.tasks

-- The results that the worker still holds.
unfoldable pub unstored_on : String → Task → Bool
unstored_on worker_id t =
    assigned_to worker_id t
    && same_status t.status TaskStatus.storing_result
    && (is_none t.result_key || elim t.result_key [ none ↦ false | some k ↦ k == "" ])

unfoldable pub count_unstored_results : String → Db → ℕ
unfolding unstored_on
count_unstored_results worker_id db = count_where (unstored_on worker_id) db.tasks

module _ (cfg : GatewaySettings) where
  -- The selection of `acquire_dispatchable`, without its write.
  unfoldable pub find_dispatchable : List String → Db → Option Worker
  unfolding dispatchable_clause dispatch_less contains
  find_dispatchable excluded db = first_by (dispatch_less db.tasks) (
      select_where (λ w. dispatchable_clause cfg db.tasks w && not (contains excluded w.id))
        db.workers)

  unfoldable pub list_deployment_workers : Db → List Worker
  list_deployment_workers db = select_where (deployment_clause cfg) db.workers

  unfoldable pub count_workers : Db → ℕ
  count_workers db = count_where (deployment_clause cfg) db.workers

  unfoldable pub count_serviceable_workers : Db → ℕ
  count_serviceable_workers db = count_where (serviceable_clause cfg) db.workers

  unfoldable pub count_starting_workers : Db → ℕ
  count_starting_workers db = count_where (provisioning_clause cfg) db.workers

  unfoldable pub count_draining_workers : Db → ℕ
  count_draining_workers db = count_where (draining_clause cfg) db.workers

  unfoldable pub count_stopping_workers : Db → ℕ
  count_stopping_workers db = count_where (stopping_clause cfg) db.workers

  unfoldable pub find_stalled_workers : Db → List Worker
  find_stalled_workers db = select_where (stalled_and_active_clause cfg) db.workers

  unfoldable pub count_stalled_workers : Db → ℕ
  count_stalled_workers db = count_where (stalled_and_active_clause cfg) db.workers

  unfoldable pub count_recoverable_workers : Db → ℕ
  unfolding count_serviceable_workers count_starting_workers
  count_recoverable_workers db = count_serviceable_workers db + count_starting_workers db

  unfoldable pub collect_scaling_inputs : Db → ScalingInputs
  unfolding count_queue_depth count_serviceable_workers count_starting_workers
      count_draining_workers count_stopping_workers
  collect_scaling_inputs db = record {
    queue_depth = count_queue_depth db;
    serviceable_workers = count_serviceable_workers db;
    starting_workers = count_starting_workers db;
    draining_workers = count_draining_workers db;
    stopping_workers = count_stopping_workers db;
  }

  unfoldable pub find_stopped_worker : Db → Option Worker
  find_stopped_worker db = find_where (stopped_clause cfg) db.workers

  unfoldable pub find_idle_worker : (idle_before : ℕ) → Db → Option Worker
  find_idle_worker idle_before db =
      first_by idle_less (select_where (idle_clause cfg db.tasks idle_before) db.workers)

  unfoldable pub find_draining_workers : Db → List Worker
  find_draining_workers db = select_where (draining_clause cfg) db.workers

  unfoldable pub get_ready_replacement_for : String → Db → Option Worker
  get_ready_replacement_for worker_id db =
      first_by created_less
        (select_where (λ w. ready_serviceable_clause cfg w && replaces worker_id w) db.workers)

  unfoldable pub has_active_replacement_for : String → Db → Bool
  has_active_replacement_for worker_id db = ltb 0 (
      count_where
        (λ w.
          deployment_clause cfg w
          && replaces worker_id w
          && not (same_state w.desired_state CloudState.terminated))
        db.workers)

  unfoldable pub count_active_replacements : Db → ℕ
  count_active_replacements db = count_where (active_replacement_clause cfg) db.workers

  unfoldable pub find_replacement_workers : Db → List Worker
  find_replacement_workers db =
      select_where (λ w. deployment_clause cfg w && is_some w.replacement_for) db.workers

  unfoldable pub find_emergency_rotation_target : Db → Option Worker
  find_emergency_rotation_target db =
      first_by created_less
        (select_where (λ w. rotation_eligible_clause cfg w && w.rotation_requested) db.workers)

  unfoldable pub find_scheduled_rotation_target : (created_before : ℕ) → Db → Option Worker
  find_scheduled_rotation_target created_before db = first_by created_less (
      select_where (λ w. rotation_eligible_clause cfg w && ltb w.created_at created_before)
        db.workers)

  unfoldable pub find_workers_pending_termination_finalize : Db → List Worker
  find_workers_pending_termination_finalize db =
      select_where (pending_finalize_clause cfg) db.workers

  -- `get_worker`: a row of this deployment that is not terminated.
  unfoldable pub get_worker : String → Db → Option Worker
  unfolding get_row deployment_clause
  get_worker worker_id db = elim (get_row worker_id db) [
    | none ↦ none
    | some row ↦
        if not (is_none row.terminated_at)
        then none
        else (if not (row.deployment_id == cfg.deployment_id && row.provider == cfg.provider)
            then none
            else some row)
  ]

  unfoldable pub list_health_check_candidates : (limit : ℕ) → Db → List Worker
  list_health_check_candidates limit db =
      take limit (sort_by health_less (select_where (health_check_clause cfg) db.workers))

  unfoldable pub list_workers : Db → List Worker
  list_workers db = sort_by created_less (select_where (deployment_clause cfg) db.workers)
