-- ===== src/Tests/ResultTests.antt =====
-- Runs of the storing and the reading of results, over a store that is a map.
use mineru_gateway.Base.{ℕ, ◌≡◌, refl, String, [], ◌∷◌, Option, some, true, if◌then◌else◌, ltb}
use mineru_gateway.Base.Action.{Answer, returned, raised}
use mineru_gateway.Base.Table.{count_where, find_where}
use mineru_gateway.Models.{Task}
use mineru_gateway.Payload.{Bytes}
use mineru_gateway.Tasks.Status.{TaskStatus}
use mineru_gateway.Cache.Entries.{CacheState}
use mineru_gateway.Objects.{Failure, failure}
use mineru_gateway.Queue.Rows.{get_task}
use mineru_gateway.Results.{fetch_and_store_result, persist_pending_results}
use mineru_gateway.Results.Stored.{IsStored, fetch_and_store_result-IsStored}
use mineru_gateway.Results.Counts.{Sums, is_fetchable, persist_pending_results_counts}
use mineru_gateway.TaskFlow.{poll_task_until_terminal, resolve_sync_result, get_task_result}
use mineru_gateway.TaskFlow.Polls.{Ends, poll_task_until_terminal-Ends}
use mineru_gateway.TaskFlow.Routes.{
  Agree, DeliversStored, get_task_result-DeliversStored, resolve_sync_result-get_task_result,
}
use mineru_gateway.Tests.Data.{settings, claimed_task, claimed_db}
use mineru_gateway.Tests.StoreMap.{Objects, object_map, object_map-IsKeyed, before_storing}

-- The state after the result of the claimed task was stored.
abbrev stored : Answer Failure (String × Bytes) × CacheState Objects
stored =
    fetch_and_store_result settings object_map true "t1" "g" (returned (1 ∷ 2 ∷ [])) 20
      before_storing

fetch_and_store_result-IsStored_example :
    IsStored settings object_map true "t1" "g" (returned (1 ∷ 2 ∷ [])) before_storing stored
fetch_and_store_result-IsStored_example =
    fetch_and_store_result-IsStored settings object_map true "t1" "g" (returned (1 ∷ 2 ∷ []))
      before_storing object_map-IsKeyed 20

claimed_found : get_task "t1" claimed_db ≡ some claimed_task
unfolding get_task find_where
claimed_found = refl

get_task_result-DeliversStored_example :
    DeliversStored settings "t1" object_map (returned (1 ∷ 2 ∷ [])) stored
get_task_result-DeliversStored_example =
    get_task_result-DeliversStored settings object_map object_map-IsKeyed true "t1" "g"
      (returned (1 ∷ 2 ∷ [])) 20 before_storing

persist_pending_results_counts_example :
    Sums
      (count_where is_fetchable (claimed_task ∷ []))
      (persist_pending_results settings object_map true
        (λ t. raised (failure "timeout"))
        (λ id. "g")
        20
        (claimed_task ∷ [])
        before_storing).0
persist_pending_results_counts_example =
    persist_pending_results_counts settings object_map true (λ t. raised (failure "timeout"))
      (λ id. "g") 20 (claimed_task ∷ []) before_storing

resolve_sync_result-get_task_result_example :
    Agree
      (resolve_sync_result settings "t1" (some claimed_task) (some object_map) before_storing)
      (get_task_result settings "t1" (some object_map) before_storing)
resolve_sync_result-get_task_result_example =
    resolve_sync_result-get_task_result settings "t1" claimed_task (some object_map) before_storing
      claimed_found refl

abbrev finished_task : Task
finished_task =
    let t = claimed_task in
    record t { status = TaskStatus.completed; result_key = some "results/t1.zip" }

-- The task is claimed at the first two polls, and finished at the third.
abbrev rows : ℕ → Option Task
rows i = some (if ltb i 2 then claimed_task else finished_task)

poll_task_until_terminal-Ends_example : Ends rows 299 0 (poll_task_until_terminal rows)
poll_task_until_terminal-Ends_example = poll_task_until_terminal-Ends rows
