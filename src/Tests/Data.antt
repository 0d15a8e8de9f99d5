-- ===== src/Tests/Data.antt =====
-- The settings, workers, tasks and databases that the tests share.
use mineru_gateway.Base.{String, List, [], ◌∷◌, none, some, true}
use mineru_gateway.Config.{GatewaySettings}
use mineru_gateway.Cloud.{CloudState}
use mineru_gateway.Models.{Worker, Task, Db}
use mineru_gateway.Tasks.Status.{TaskStatus}
use mineru_gateway.Workers.Commits.{new_worker}
use mineru_gateway.Queue.Rows.{new_task}

abbrev pub settings : GatewaySettings
settings = record {
  deployment_id = "d";
  provider = "aws";
  host = "127.0.0.1";
  target_per_worker = 2;
  min_workers = 0;
  max_workers = 2;
  idle_cooldown_seconds = 600;
  scale_up_cooldown_seconds = 60;
  launch_readiness_timeout_seconds = 900;
  max_failure_count = 5;
  stalled_worker_grace_seconds = 1800;
  retention_days = 7;
  cleanup_interval_seconds = 3600;
  cache_enabled = true;
  cache_ttl_seconds = 60;
  sweeper_interval_seconds = 3600;
  rotation_interval_seconds = 86400;
  readiness_timeout_seconds = 900;
  max_file_size_bytes = 1000;
  task_sla_seconds = 600;
}

-- A worker that can take tasks.
abbrev pub ready_worker : String → Worker
ready_worker id =
    let w = new_worker settings id 0 in
    record w {
      cloud_state = CloudState.running;
      healthy = true;
      base_url = some "http://10.0.0.1:8000";
      ready_at = some 1;
    }

abbrev pub waiting_task : Task
waiting_task = new_task "t1" [] "pipeline" "auto" [] none "upload" none 0

abbrev pub claimed_task : Task
claimed_task =
    let t = waiting_task in
    record t {
      status = TaskStatus.dispatching;
      worker_id = some "w1";
      dispatch_started_at = some 5;
    }

-- A draining worker with one task in flight.
abbrev pub draining_worker : Worker
draining_worker =
    let w = ready_worker "w1" in
    record w { draining = true; drain_target = some CloudState.terminated }

-- A worker that has just been given up, with one task in flight.
abbrev pub stalled_worker : Worker
stalled_worker = let w = draining_worker in record w { failure_count = 5; stalled_at = some 5 }

abbrev pub db_of : List Worker → List Task → Db
db_of workers tasks = record { workers = workers; tasks = tasks; cache = []; events = [] }

abbrev pub waiting_db : Db
waiting_db = db_of (ready_worker "w1" ∷ []) (waiting_task ∷ [])

abbrev pub claimed_db : Db
claimed_db = db_of (ready_worker "w1" ∷ []) (claimed_task ∷ [])

abbrev pub draining_db : Db
draining_db = db_of (draining_worker ∷ []) (claimed_task ∷ [])

abbrev pub stalled_db : Db
stalled_db = db_of (stalled_worker ∷ []) (claimed_task ∷ [])
