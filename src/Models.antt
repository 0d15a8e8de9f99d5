-- ===== src/Models.antt =====
-- src/mineru_gateway/db/models.py: the rows of the four tables, and the database that holds them.
-- A time is a number of microseconds. Ids, keys and error messages are texts.
use mineru_gateway.Base.{ℕ, Bool, String, List, Option, ◌==◌}
use mineru_gateway.Cloud.{CloudState}
use mineru_gateway.Tasks.Status.{TaskStatus}

pub record Worker : Type 0 where
  pub id : String
  pub provider : String
  pub deployment_id : String
  pub instance_id : Option String
  pub base_url : Option String
  pub generation : ℕ
  pub desired_state : CloudState
  pub cloud_state : CloudState
  pub healthy : Bool
  pub draining : Bool
  pub drain_target : Option CloudState
  pub replacement_for : Option String
  pub rotation_requested : Bool
  pub failure_count : ℕ
  pub retry_after : Option ℕ
  pub stalled_at : Option ℕ
  pub last_error : Option String
  pub provisioning_detail : Option String
  pub ready_at : Option ℕ
  pub start_requested_at : Option ℕ
  pub last_active_at : Option ℕ
  pub last_health_checked_at : Option ℕ
  pub terminated_at : Option ℕ
  pub created_at : ℕ
  pub updated_at : ℕ

-- A value of the options of a task: one text, or the list of a repeated field.
pub data OptionValue : Type 0 where
  text : String → OptionValue
  texts : List String → OptionValue

pub record Task : Type 0 where
  pub task_id : String
  pub worker_id : Option String
  pub upstream_task_id : Option String
  pub upstream_base_url : Option String
  pub backend : String
  pub parse_method : String
  pub file_names : List String
  pub source : String
  pub status : TaskStatus
  pub payload_key : Option String
  pub result_key : Option String
  pub result_format : Option String
  pub cache_key : Option String
  pub error : Option String
  pub options_blob : Option (List (String × OptionValue))
  pub dispatch_started_at : Option ℕ
  pub next_poll_at : Option ℕ
  pub client_expired_at : Option ℕ
  pub created_at : ℕ
  pub started_at : Option ℕ
  pub completed_at : Option ℕ
  pub updated_at : ℕ

pub record CacheEntry : Type 0 where
  pub cache_key : String
  pub content_sha256 : String
  pub options_hash : String
  pub backend : String
  pub parse_method : String
  pub effort : String
  pub object_key : Option String
  pub object_generation : ℕ
  pub result_format : Option String
  pub size_bytes : Option ℕ
  pub hit_count : ℕ
  pub expires_at : Option ℕ
  pub created_at : ℕ

pub record ScalingEvent : Type 0 where
  pub worker_id : Option String
  pub action : String
  pub reason : String
  pub triggered_by : String
  pub requester : Option String
  pub created_at : ℕ

pub record Db : Type 0 where
  pub workers : List Worker
  pub tasks : List Task
  pub cache : List CacheEntry
  pub events : List ScalingEvent

abbrev pub has_id : String → Worker → Bool
has_id k w = w.id == k

abbrev pub has_task_id : String → Task → Bool
has_task_id k t = t.task_id == k
