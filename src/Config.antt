-- ===== src/Config.antt =====
-- src/mineru_gateway/config.py: the settings that the modelled parts read. Each count of seconds
-- is a natural number.
pub mod Validation
use mineru_gateway.Base.{ℕ, Bool, String}

pub record GatewaySettings : Type 0 where
  pub deployment_id : String
  pub provider : String
  pub host : String
  pub target_per_worker : ℕ
  pub min_workers : ℕ
  pub max_workers : ℕ
  pub idle_cooldown_seconds : ℕ
  pub scale_up_cooldown_seconds : ℕ
  pub launch_readiness_timeout_seconds : ℕ
  pub max_failure_count : ℕ
  pub stalled_worker_grace_seconds : ℕ
  pub retention_days : ℕ
  pub cleanup_interval_seconds : ℕ
  pub cache_enabled : Bool
  pub cache_ttl_seconds : ℕ
  pub sweeper_interval_seconds : ℕ
  pub rotation_interval_seconds : ℕ
  pub readiness_timeout_seconds : ℕ
  pub max_file_size_bytes : ℕ
  pub task_sla_seconds : ℕ
