-- ===== src/Config/Validation.antt =====
-- The validators of src/mineru_gateway/config.py. The settings of the model are natural numbers, so that
-- the checks for negative numbers hold of themselves.
use mineru_gateway.Base.{◌≡◌, ◌≤◌, Bool, true, ◌&&◌, ltb, leb, arith}
use mineru_gateway.Config.{GatewaySettings}
use mineru_gateway.Scaling.{ScalingInputs, compute_scaling_signal}
use mineru_gateway.Scaling.Laws.{desired_workers-bounds}

module _ (cfg : GatewaySettings) where
  -- `ScalingConfig._validate_bounds`
  unfoldable pub validate_bounds : Bool
  validate_bounds = ltb 0 cfg.target_per_worker && leb cfg.min_workers cfg.max_workers

  -- `ReconciliationConfig._validate_positive`
  unfoldable pub validate_reconciliation : Bool
  validate_reconciliation =
      ltb 0 cfg.launch_readiness_timeout_seconds
      && ltb 0 cfg.max_failure_count
      && ltb 0 cfg.stalled_worker_grace_seconds

  -- `RetentionConfig._validate_positive`
  unfoldable pub validate_retention : Bool
  validate_retention = ltb 0 cfg.retention_days && ltb 0 cfg.cleanup_interval_seconds

  -- `RotationConfig._validate_positive`
  unfoldable pub validate_rotation : Bool
  validate_rotation = ltb 0 cfg.rotation_interval_seconds && ltb 0 cfg.readiness_timeout_seconds

-- With settings that are valid, the desired number of workers lies within their bounds.
pub validate_bounds-desired :
    (cfg : GatewaySettings) (inputs : ScalingInputs)
    → validate_bounds cfg ≡ true
    → let d =
        (compute_scaling_signal inputs cfg.target_per_worker cfg.min_workers
          cfg.max_workers).desired_workers in
      (cfg.min_workers ≤ d) × (d ≤ cfg.max_workers)
unfolding validate_bounds
validate_bounds-desired cfg inputs h =
    let bounds =
      desired_workers-bounds inputs cfg.target_per_worker cfg.min_workers cfg.max_workers
        (ground (arith, h)) (ground (arith, h)) in
    (bounds.0, bounds.1)
