-- ===== src/Scaling/Laws.antt =====
-- The desired number of workers: within the configured bounds, enough for the queue, and no more.
use Prim.Native.Nat.{min, max}
use native.Mathlib.Decide.{dec_lt}
use native.Mathlib.Nat.{div-add-mod', mod-lt}
use mineru_gateway.Base.{
  ℕ, zero, suc, ◌+◌, ◌-◌, ◌*◌, ◌%◌, ◌≤◌, ◌<◌, ◌≡◌, ◌⊎◌, inl, inr, false, arith, eqb, ltb,
  if◌then◌else◌, Bool-cases,
}
use mineru_gateway.Scaling.{
  ScalingInputs, compute_scaling_signal, desired_workers_for, scaling_in_progress, should_scale_up,
  should_scale_down, ceil_div,
}

ceil_of_quotient :
    (a b q r : ℕ) → q * b + r ≡ a + b - 1 → r < b → 0 < a → (a ≤ q * b) × ((q - 1) * b < a)
ceil_of_quotient a b zero r e m h = (omega arith, omega arith)
ceil_of_quotient a b (suc q) r e m h = (omega arith, grind arith)

-- `ceil_div a b` is the least number of workers with `b` tasks each that hold `a` tasks.
ceil_div-covers : (a b : ℕ) → 0 < b → 0 < a → (a ≤ ceil_div a b * b) × ((ceil_div a b - 1) * b < a)
unfolding ceil_div
ceil_div-covers a b hb ha =
    ceil_of_quotient a b _ ((a + b - 1) % b) (div-add-mod' (a + b - 1) b) (mod-lt (a + b - 1) hb) ha

mul_mono : (a b t : ℕ) → a ≤ b → a * t ≤ b * t
mul_mono a b t h = grind arith

pos_of_covers : (q c target : ℕ) → 0 < q → q ≤ c * target → 0 < c
pos_of_covers q zero target h k = omega arith
pos_of_covers q (suc c) target h k = omega arith

-- Without the products: how the result stands to the bounds and to the quotient `c`.
clamp_facts :
    (lo hi c q : ℕ)
    → lo ≤ hi
    → (0 < q → 0 < c)
    → let d = max lo (min (max (if eqb q 0 then 0 else c) (if ltb 0 q then 1 else 0)) hi) in
      (lo ≤ d)
      × (d ≤ hi)
      × (0 < q → 0 < hi → 0 < d)
      × (0 < q → (c ≤ d) ⊎ (d ≡ hi))
      × ((d ≡ lo) ⊎ ((0 < q) × (d ≤ c)))
clamp_facts lo hi c q h k = ground arith

-- With a positive target and a minimum that is at most the maximum, the desired number of workers
-- lies within the bounds. It is positive for a queue with work and room for a worker. It is enough
-- for the queue unless it is the maximum, and one worker less would not be enough unless it is the
-- minimum.
pub desired_workers-bounds :
    (inputs : ScalingInputs) (target lo hi : ℕ)
    → 0 < target
    → lo ≤ hi
    → let d = (compute_scaling_signal inputs target lo hi).desired_workers in
      (lo ≤ d)
      × (d ≤ hi)
      × ((inputs.queue_depth ≡ 0) ⊎ (hi ≡ 0) ⊎ (0 < d))
      × ((inputs.queue_depth ≤ d * target) ⊎ (d ≡ hi))
      × ((d ≡ lo) ⊎ ((d - 1) * target < inputs.queue_depth))
unfolding compute_scaling_signal desired_workers_for
desired_workers-bounds inputs target lo hi ht h =
    let q = inputs.queue_depth in
    let c = ceil_div q target in
    let covers = λ (p : 0 < q). ceil_div-covers q target ht p in
    let d = desired_workers_for q target lo hi in
    let (above, below, positive, enough, least) =
      clamp_facts lo hi c q h (λ p. pos_of_covers q c target p (covers p).0) in
    (
      above,
      below,
      ground (arith, positive),
      elim (dec_lt 0 q) [
        | no e ↦ inl (omega (arith, e))
        | yes e ↦ elim (enough e) [
          | inr top ↦ inr top
          | inl more ↦ inl (omega (arith, (covers e).0, mul_mono c d target more))
        ]
      ],
      elim least [
        | inl low ↦ inl low
        | inr (e, less) ↦
            inr (omega (arith, (covers e).1, mul_mono (d - 1) (c - 1) target (omega arith)))
      ],
    )

-- With a positive target and a minimum that is at most the maximum: growth by one worker is asked only
-- where the workers that serve and that start, and the new one, are at most the maximum, and those
-- without it are fewer than the minimum or too few for the queue. Shrinking is asked only where no
-- worker starts, drains or stops, and where one serving worker less is no fewer than the minimum, and
-- enough for the queue or no fewer than the maximum.
pub scale_steps_fit :
    (inputs : ScalingInputs) (target lo hi : ℕ)
    → 0 < target
    → lo ≤ hi
    → let s = compute_scaling_signal inputs target lo hi in
      let n = inputs.serviceable_workers + inputs.starting_workers in
      let m = inputs.serviceable_workers - 1 in
      ((should_scale_up s ≡ false)
        ⊎ ((n + 1 ≤ hi) × ((n < lo) ⊎ (n * target < inputs.queue_depth))))
      × ((should_scale_down s ≡ false)
          ⊎ ((inputs.starting_workers ≡ 0)
              × (inputs.draining_workers ≡ 0)
              × (inputs.stopping_workers ≡ 0)
              × (lo ≤ m)
              × ((inputs.queue_depth ≤ m * target) ⊎ (hi ≤ m))))
unfolding should_scale_up should_scale_down scaling_in_progress compute_scaling_signal
scale_steps_fit inputs target lo hi ht h =
    let s = compute_scaling_signal inputs target lo hi in
    let d = s.desired_workers in
    let n = inputs.serviceable_workers + inputs.starting_workers in
    let m = inputs.serviceable_workers - 1 in
    let (above, below, _, enough, least) = desired_workers-bounds inputs target lo hi ht h in
    (
      elim (Bool-cases (should_scale_up s)) [
        | inr q ↦ inl q
        | inl q ↦
            (let fewer : n < d = ground (arith, q) in
              inr (
                omega (arith, below),
                elim least [
                  | inl low ↦ inl (omega (arith, low))
                  | inr less ↦
                      inr (omega (arith, less, mul_mono n (d - 1) target (omega (arith, fewer))))
                ],
              ))
      ],
      elim (Bool-cases (should_scale_down s)) [
        | inr q ↦ inl q
        | inl q ↦
            (let more : d < inputs.serviceable_workers = ground (arith, q) in
              inr (
                ground (arith, q),
                ground (arith, q),
                ground (arith, q),
                omega (arith, above, more),
                elim enough [
                  | inl fits ↦ inl (omega (arith, fits, mul_mono d m target (omega (arith, more))))
                  | inr top ↦ inr (omega (arith, top, more))
                ],
              ))
      ],
    )
