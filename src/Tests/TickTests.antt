-- ===== src/Tests/TickTests.antt =====
-- Runs of the scheduler's cleanup and of its loops.
use mathlib.Core.List.{Memᴰ}
use mineru_gateway.Base.{ℕ, ◌≡◌, ◌⊎◌, refl, List, [], ◌∷◌, none, some, true, false}
use mineru_gateway.Base.Action.{raised}
use mineru_gateway.Models.{Task}
use mineru_gateway.Payload.{unavailable}
use mineru_gateway.Objects.{failure}
use mineru_gateway.Tasks.Status.{TaskStatus}
use mineru_gateway.Tasks.Errors.{transport}
use mineru_gateway.Cache.Entries.{CacheState}
use mineru_gateway.Queue.Submit.{refused}
use mineru_gateway.Scheduler.Health.{no_answer}
use mineru_gateway.Scheduler.Lock.{advisory, is_held, verify}
use mineru_gateway.Scheduler.Cleanup.{cleanup_expired_tasks}
use mineru_gateway.Scheduler.Cleanup.Retention.{
  IsRemoved, IsExpiredRow, cleanup_expired_tasks_keeps,
}
use mineru_gateway.Scheduler.Ticks.{Service, TickOutside, fast_tick, slow_tick, run_loop}
use mineru_gateway.Scheduler.Ticks.Stopped.{IsStopped, run_loop-IsStopped}
use mineru_gateway.Tests.Data.{settings, claimed_task, db_of}
use mineru_gateway.Tests.StoreMap.{Objects, object_map}

-- A task that ended at the first second, with both objects.
abbrev old_task : Task
old_task =
    let t = claimed_task in
    record t {
      status = TaskStatus.completed;
      completed_at = some 1000000;
      payload_key = some "payloads/t1.bin";
      result_key = some "results/t1.zip";
    }

abbrev old_state : CacheState Objects
old_state = record { db = db_of [] (old_task ∷ []); objects = λ key. some [] }

cleanup_expired_tasks_keeps_example :
    Memᴰ old_task
      (cleanup_expired_tasks settings object_map.objects 999999999999999 old_state).db.tasks
    ⊎ IsRemoved settings object_map.objects
        (IsExpiredRow settings object_map.objects 999999999999999 old_state.db)
        old_task
cleanup_expired_tasks_keeps_example =
    cleanup_expired_tasks_keeps settings object_map.objects 999999999999999 old_state old_task
      (Memᴰ.head refl)

-- A scheduler that holds the lock, whose connection then dies.
abbrev outside : TickOutside Objects (List ℕ)
outside = record {
  provider = none;
  store = object_map;
  poll = λ url id. none;
  download = λ task. raised (failure "timeout");
  generation = λ id. "g";
  dispatch = λ left. record {
    rebuild = λ attempt task. unavailable;
    submit = λ attempt url payload. refused transport;
    message = λ f. "";
  };
  probes = record {
    status_port = λ worker. no_answer "timeout";
    health = λ worker. no_answer "timeout";
    show = λ n. "";
  };
  new_worker_id = "w2";
  replacement_id = "w3";
  alive = λ check. false;
  time_of = λ step. step;
}

abbrev service : Service Objects (List ℕ)
service = record {
  db = old_state.db;
  objects = old_state.objects;
  cloud = [];
  sent = [];
  lock = advisory true true;
  last_scale_up = none;
  next_rotation_check_at = none;
  cleanup_times = record { next_cleanup_at = none; next_cache_sweep_at = none };
  deferred_since = none;
}

held : is_held service.lock ≡ true
unfolding is_held
held = refl

lost : (verify false service.lock).0 ≡ false
unfolding verify
lost = refl

run_loop-IsStopped_example :
    IsStopped settings outside service
      (run_loop (fast_tick settings outside ∷ fast_tick settings outside ∷ []) service)
    × IsStopped settings outside service
        (run_loop (slow_tick settings outside ∷ fast_tick settings outside ∷ []) service)
run_loop-IsStopped_example =
    run_loop-IsStopped settings outside service (fast_tick settings outside ∷ []) held lost lost
