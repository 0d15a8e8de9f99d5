-- ===== src/Scaling.antt =====
-- src/mineru_gateway/scheduler/scaling.py: the desired number of workers for a queue depth.
pub mod Laws
use Prim.Native.Nat.{min, max}
use mineru_gateway.Base.{
  ℕ, ◌+◌, ◌-◌, ◌/◌, Bool, true, false, ◌&&◌, ◌||◌, not, ltb, eqb, if◌then◌else◌,
}

pub record ScalingInputs : Type 0 where
  pub queue_depth : ℕ
  pub serviceable_workers : ℕ
  pub starting_workers : ℕ
  pub draining_workers : ℕ
  pub stopping_workers : ℕ

-- `target`, the float copy of `target_per_worker`, is only reported.
pub record ScalingSignal : Type 0 where
  pub queue_depth : ℕ
  pub serviceable_workers : ℕ
  pub starting_workers : ℕ
  pub draining_workers : ℕ
  pub stopping_workers : ℕ
  pub desired_workers : ℕ
  pub target : ℕ

unfoldable pub scaling_in_progress : ScalingSignal → Bool
scaling_in_progress s =
    ltb 0 s.starting_workers || ltb 0 s.draining_workers || ltb 0 s.stopping_workers

unfoldable pub should_scale_up : ScalingSignal → Bool
should_scale_up s = ltb (s.serviceable_workers + s.starting_workers) s.desired_workers

unfoldable pub should_scale_down : ScalingSignal → Bool
unfolding scaling_in_progress
should_scale_down s = ltb s.desired_workers s.serviceable_workers && not (scaling_in_progress s)

-- `math.ceil(a / b)` for a positive `b`.
unfoldable pub ceil_div : ℕ → ℕ → ℕ
ceil_div a b = (a + b - 1) / b

unfoldable pub desired_workers_for : (queue_depth target min_workers max_workers : ℕ) → ℕ
unfolding ceil_div
desired_workers_for queue_depth target min_workers max_workers =
    let queue_desired = if eqb queue_depth 0 then 0 else ceil_div queue_depth target in
    let floor = max queue_desired (if ltb 0 queue_depth then 1 else 0) in
    max min_workers (min floor max_workers)

unfoldable pub compute_scaling_signal :
    ScalingInputs → (target_per_worker min_workers max_workers : ℕ) → ScalingSignal
unfolding desired_workers_for
compute_scaling_signal inputs target_per_worker min_workers max_workers = record {
  queue_depth = inputs.queue_depth;
  serviceable_workers = inputs.serviceable_workers;
  starting_workers = inputs.starting_workers;
  draining_workers = inputs.draining_workers;
  stopping_workers = inputs.stopping_workers;
  desired_workers =
      desired_workers_for inputs.queue_depth target_per_worker min_workers max_workers;
  target = target_per_worker;
}
