-- ===== src/Tests/QueueTests.antt =====
-- Runs of the dispatch of tasks.
use mineru_gateway.Base.{zero, suc, ◌<◌, ◌⊎◌, refl, List, [], ◌∷◌, none, some, arith}
use mineru_gateway.Base.Table.{count_where, find_where}
use mineru_gateway.Base.Table.Laws.{count_where-le-length}
use mineru_gateway.Models.{Db, Worker, Task, has_task_id}
use mineru_gateway.Tasks.Errors.{transport}
use mineru_gateway.Payload.{rebuilt}
use mineru_gateway.Workers.Clauses.{active_count, computing_on}
use mineru_gateway.Workers.Queries.{contains}
use mineru_gateway.Workers.Choice.{remaining}
use mineru_gateway.Queue.Rows.{get_task}
use mineru_gateway.Queue.Claim.{claim_next_dispatch}
use mineru_gateway.Queue.Submit.{
  Outside, accepted, refused, submit_claimed_task, dispatch_queued_tasks,
}
use mineru_gateway.Queue.Settles.{IsClaimed, Finishes, submit_claimed_task_settles}
use mineru_gateway.Queue.Capacity.{WithinCapacity}
use mineru_gateway.Queue.Dispatch.{
  Picks, PicksNothing, claim_next_dispatch-Picks, dispatch_queued_tasks-WithinCapacity,
}
use mineru_gateway.Queue.Rows.{create_queued_task, mark_processing}
use mineru_gateway.Queue.Reachable.{
  Step, created, picked, Reachable, start, next, AllConsistent, Reachable-AllConsistent,
}
use mineru_gateway.Tests.Data.{db_of, settings, ready_worker, claimed_task, waiting_db, claimed_db}

-- Every payload is read, the first submission fails in transport, and the later ones are accepted.
abbrev flaky : Outside
flaky = record {
  rebuild = λ attempt task. rebuilt (record { fields = []; uploads = [] });
  submit = λ attempt base_url payload. (elim attempt [
    | zero ↦ refused transport
    | suc _ ↦ accepted "u1" (some "pending")
  ]);
  message = λ failure. "";
}

claimed_db-IsClaimed : IsClaimed "t1" "w1" claimed_db
unfolding get_task find_where
claimed_db-IsClaimed = record { row = claimed_task; found = refl; claiming = refl; holder = refl }

one_task-WithinCapacity :
    (workers : List Worker) (task : Task)
    → WithinCapacity settings
        (record { workers = workers; tasks = task ∷ []; cache = []; events = [] })
unfolding active_count
one_task-WithinCapacity workers task = record {
  unique = λ k. count_where-le-length (has_task_id k) (task ∷ []);
  slots = λ w. omega (arith, count_where-le-length (computing_on w) (task ∷ []));
}

fewer_than_fuel : remaining ("w1" ∷ []) claimed_db < 2
unfolding count_where contains
fewer_than_fuel = omega arith

submit_claimed_task_settles_example :
    Finishes settings flaky 10 claimed_task
      (submit_claimed_task settings flaky 2 0 claimed_task (ready_worker "w1") [] 10 claimed_db)
submit_claimed_task_settles_example =
    submit_claimed_task_settles settings flaky 10 claimed_task 2 0 (ready_worker "w1") [] claimed_db
      claimed_db-IsClaimed fewer_than_fuel

dispatch_queued_tasks-WithinCapacity_example :
    WithinCapacity settings (dispatch_queued_tasks settings (λ _. flaky) 10 32 none waiting_db).db
dispatch_queued_tasks-WithinCapacity_example =
    dispatch_queued_tasks-WithinCapacity settings (λ _. flaky) 10 32 none waiting_db
      (one_task-WithinCapacity _ _)

claim_next_dispatch-Picks_example :
    Picks settings 10 waiting_db (claim_next_dispatch settings 10 none waiting_db)
    ⊎ PicksNothing settings 10 waiting_db (claim_next_dispatch settings 10 none waiting_db)
claim_next_dispatch-Picks_example =
    claim_next_dispatch-Picks settings 10 none waiting_db (one_task-WithinCapacity _ _)

abbrev no_tasks : Db
no_tasks = db_of (ready_worker "w1" ∷ []) []

abbrev created_db : Db
created_db = create_queued_task "t1" [] "pipeline" "auto" [] none "upload" none 0 no_tasks

abbrev claimed_again : Db
claimed_again = (claim_next_dispatch settings 10 none created_db).db

-- A task is created, claimed and accepted by the worker.
abbrev accepted_db : Db
accepted_db = mark_processing "t1" "w1" "u1" "http://10.0.0.1:8000" none 11 claimed_again

accepted_db-Reachable : Reachable (Unit {0}) settings accepted_db
accepted_db-Reachable =
    next claimed_again accepted_db
      (next created_db claimed_again
        (next no_tasks created_db (start no_tasks refl)
          (created "t1" [] "pipeline" "auto" [] none "upload" none 0 no_tasks))
        (picked 10 none created_db))
      (Step.accepted "t1" "w1" "u1" "http://10.0.0.1:8000" none 11 claimed_again)

Reachable-AllConsistent_example : AllConsistent accepted_db
Reachable-AllConsistent_example = Reachable-AllConsistent settings accepted_db accepted_db-Reachable
