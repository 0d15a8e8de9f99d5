-- ===== src/Tests/FleetTests.antt =====
-- Runs of the autoscaler, of drains and of rotations.
use mineru_gateway.Base.{
  some, ℕ, seconds, ◌+◌, ◌-◌, ◌*◌, ◌≤◌, ◌<◌, ◌≡◌, ◌⊎◌, refl, true, false, none, arith,
}
use mineru_gateway.Base.Table.{All, select_where, count_where}
use mineru_gateway.Models.{Worker, has_id}
use mineru_gateway.Scaling.{
  ScalingInputs, compute_scaling_signal, should_scale_up, should_scale_down,
}
use mineru_gateway.Scaling.Laws.{desired_workers-bounds, scale_steps_fit}
use mineru_gateway.Workers.Clauses.{
  stalled_clause, deployment_clause, blocking_drain, stalled_and_active_clause,
}
use mineru_gateway.Workers.Queries.{
  count_workers, count_inflight_tasks, count_unstored_results, unstored_on, find_stalled_workers,
}
use mineru_gateway.Workers.Commits.{retry_delay, failed_row}
use mineru_gateway.Workers.Admin.{recovered_row}
use mineru_gateway.Workers.Failures.{
  IsGivenUp, retry_delay_bounds, failed_row_counts, recovered_row-failed_row,
}
use mineru_gateway.Scheduler.Autoscale.{apply_autoscaling}
use mineru_gateway.Scheduler.Drains.{has_active_work, advance_drains, converge_stalled_workers}
use mineru_gateway.Scheduler.Rotations.{advance_drains_and_rotations}
use mineru_gateway.Scheduler.Fleet.{Growth, apply_autoscaling-Growth}
use mineru_gateway.Scheduler.Bound.{advance_drains_and_rotations-bound}
use mineru_gateway.Scheduler.Busy.{
  Untouched, IsInGrace, advance_drains_keeps_busy, converge_stalled_workers_keeps_busy,
}
use mineru_gateway.Tests.Data.{ready_worker, settings, waiting_db, draining_db, stalled_db}

abbrev busy_queue : ScalingInputs
busy_queue = record {
  queue_depth = 5;
  serviceable_workers = 1;
  starting_workers = 0;
  draining_workers = 0;
  stopping_workers = 0;
}

desired_workers-bounds_example :
    let d = (compute_scaling_signal busy_queue 2 1 4).desired_workers in
    (1 ≤ d)
    × (d ≤ 4)
    × ((busy_queue.queue_depth ≡ 0) ⊎ (◌≡◌ {A = ℕ} 4 0) ⊎ (0 < d))
    × ((5 ≤ d * 2) ⊎ (d ≡ 4))
    × ((d ≡ 1) ⊎ ((d - 1) * 2 < 5))
desired_workers-bounds_example = desired_workers-bounds busy_queue 2 1 4 (omega arith) (omega arith)

scale_steps_fit_example :
    let s = compute_scaling_signal busy_queue 2 1 4 in
    ((should_scale_up s ≡ false) ⊎ ((1 + 0 + 1 ≤ 4) × ((1 + 0 < 1) ⊎ ((1 + 0) * 2 < 5))))
    × ((should_scale_down s ≡ false)
        ⊎ ((busy_queue.starting_workers ≡ 0)
            × (busy_queue.draining_workers ≡ 0)
            × (busy_queue.stopping_workers ≡ 0)
            × (1 ≤ 1 - 1)
            × ((5 ≤ (1 - 1) * 2) ⊎ (4 ≤ 1 - 1))))
scale_steps_fit_example = scale_steps_fit busy_queue 2 1 4 (omega arith) (omega arith)

apply_autoscaling-Growth_example :
    Growth settings "w2" 10 waiting_db (apply_autoscaling settings "w2" 10 none waiting_db).1
apply_autoscaling-Growth_example = apply_autoscaling-Growth settings "w2" 10 none waiting_db

small_fleet : count_workers settings waiting_db ≤ settings.max_workers + 1
unfolding count_workers count_where deployment_clause
small_fleet = omega arith

advance_drains_and_rotations-bound_example :
    count_workers settings (advance_drains_and_rotations settings "w2" 10 none waiting_db).1
    ≤ settings.max_workers + 1
advance_drains_and_rotations-bound_example =
    advance_drains_and_rotations-bound settings 10 "w2" none waiting_db small_fleet

draining_busy : has_active_work "w1" draining_db ≡ true
unfolding has_active_work count_inflight_tasks count_unstored_results count_where blocking_drain
    unstored_on
draining_busy = refl

advance_drains_keeps_busy_example :
    Untouched "w1" draining_db (advance_drains settings 10 draining_db)
advance_drains_keeps_busy_example =
    advance_drains_keeps_busy settings 10 "w1" draining_db draining_busy

stalled_busy : has_active_work "w1" stalled_db ≡ true
unfolding has_active_work count_inflight_tasks count_unstored_results count_where blocking_drain
    unstored_on
stalled_busy = refl

stalled-IsInGrace :
    All
      (λ w. has_id "w1" w ≡ true → IsInGrace settings 10 "w1" w)
      (find_stalled_workers settings stalled_db)
unfolding find_stalled_workers select_where stalled_and_active_clause
stalled-IsInGrace = (λ _. record { since = 5; stalled = refl; early = omega arith }, tt)

converge_stalled_workers_keeps_busy_example :
    Untouched "w1" stalled_db (converge_stalled_workers settings 10 stalled_db)
converge_stalled_workers_keeps_busy_example =
    converge_stalled_workers_keeps_busy settings 10 "w1" stalled_db stalled_busy stalled-IsInGrace

retry_delay_bounds_example :
    (5 ≤ retry_delay 3) × (retry_delay 3 ≤ 300) × (retry_delay 3 ≤ retry_delay 4)
retry_delay_bounds_example = retry_delay_bounds 2

failed_row_counts_example :
    let w = ready_worker "w1" in
    let u = failed_row settings "timeout" true 10 w in
    (u.failure_count ≡ 1)
    × (((5 ≤ 1) × IsGivenUp u)
        ⊎ ((1 < 5)
            × (u ≡ record w {
              failure_count = 1;
              last_error = some "timeout";
              retry_after = some (10 + seconds (retry_delay 1));
            })))
failed_row_counts_example = failed_row_counts settings "timeout" true 10 (ready_worker "w1")

-- The fifth failure gives the worker up.
abbrev failing_worker : Worker
failing_worker = let w = ready_worker "w1" in record w { failure_count = 4 }

recovered_row-failed_row_example :
    let u = recovered_row settings (failed_row settings "timeout" false 10 failing_worker) in
    (u ≡ record failing_worker {
      failure_count = 0;
      retry_after = none;
      last_error = some "timeout";
      healthy = false;
    })
    × (stalled_clause settings u ≡ false)
recovered_row-failed_row_example =
    recovered_row-failed_row settings "timeout" false 10 failing_worker (omega arith) refl refl refl
