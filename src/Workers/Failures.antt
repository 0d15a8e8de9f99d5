-- ===== src/Workers/Failures.antt =====
-- What a recorded failure and a manual recovery make of a worker's row.
use mineru_gateway.Base.{
  ℕ, zero, suc, ◌+◌, ◌≤◌, ◌<◌, ◌≡◌, inl, inr, refl, ◌⊎◌, Bool, true, false, String, Option, none,
  some, leb, is_none, is_some, seconds, if◌then◌else◌, arith, Bool-cases,
}
use mineru_gateway.Config.{GatewaySettings}
use mineru_gateway.Cloud.{CloudState}
use mineru_gateway.Models.{Worker}
use mineru_gateway.Workers.Clauses.{stalled_clause}
use mineru_gateway.Workers.Commits.{retry_delay, failed_row}
use mineru_gateway.Workers.Admin.{recovered_row}

retry_delay-capped : (n : ℕ) → retry_delay (suc (suc (suc (suc (suc (suc n)))))) ≡ 300
unfolding retry_delay
retry_delay-capped n =
    let large : leb (suc (suc (suc (suc (suc (suc n)))))) 5 ≡ false = ground arith in rw large

-- The delays of later retries are never shorter, and lie between five seconds and five minutes.
pub retry_delay_bounds :
    (n : ℕ)
    → (5 ≤ retry_delay (suc n))
      × (retry_delay (suc n) ≤ 300)
      × (retry_delay (suc n) ≤ retry_delay (suc (suc n)))
unfolding retry_delay
retry_delay_bounds zero = (omega arith, omega arith, omega arith)
retry_delay_bounds (suc zero) = (omega arith, omega arith, omega arith)
retry_delay_bounds (suc (suc zero)) = (omega arith, omega arith, omega arith)
retry_delay_bounds (suc (suc (suc zero))) = (omega arith, omega arith, omega arith)
retry_delay_bounds (suc (suc (suc (suc zero)))) = (omega arith, omega arith, omega arith)
retry_delay_bounds (suc (suc (suc (suc (suc n))))) =
    let here = retry_delay-capped n in
    let later = retry_delay-capped (suc n) in
    (omega (arith, here), omega (arith, here), omega (arith, here, later))

-- A worker that has been given up: unhealthy, draining to its end, and never retried.
pub record IsGivenUp (w : Worker) : Type 0 where
  pub unhealthy : w.healthy ≡ false
  pub draining : w.draining ≡ true
  pub ending : w.drain_target ≡ some CloudState.terminated
  pub no_retry : w.retry_after ≡ none
  pub stamped : is_some w.stalled_at ≡ true

stamped_stall : (o : Option ℕ) (now : ℕ) → is_some (if is_none o then some now else o) ≡ true
stamped_stall none now = refl
stamped_stall (some t) now = refl

-- A failure is counted. At the limit the worker is given up: unhealthy, draining to its end, never
-- retried and stamped as stalled. Below it a retryable failure waits for the delay of its count,
-- and nothing else of the row changes but the count and the text of the error.
pub failed_row_counts :
    (cfg : GatewaySettings) (error : String) (retryable : Bool) (now : ℕ) (w : Worker)
    → let u = failed_row cfg error retryable now w in
      (u.failure_count ≡ w.failure_count + 1)
      × (((cfg.max_failure_count ≤ w.failure_count + 1) × IsGivenUp u)
          ⊎ ((w.failure_count + 1 < cfg.max_failure_count)
              × (u ≡ record w {
                failure_count = w.failure_count + 1;
                last_error = some error;
                retry_after =
                    if retryable
                    then some (now + seconds (retry_delay (w.failure_count + 1)))
                    else w.retry_after;
              })))
unfolding failed_row
failed_row_counts cfg error retryable now w =
    elim (Bool-cases (leb cfg.max_failure_count (w.failure_count + 1))) [
      | inl e ↦ rw e (
        refl,
        inl (
          ground arith,
          record {
            unhealthy = refl;
            draining = refl;
            ending = refl;
            no_retry = refl;
            stamped = stamped_stall w.stalled_at now;
          },
        ),
      )
      | inr e ↦ rw e (elim (Bool-cases retryable) [
        | inl q ↦ rw q (refl, inr (ground arith, refl))
        | inr q ↦ rw q (refl, inr (ground arith, refl))
      ])
    ]

-- With a positive limit of failures, of a worker that neither drains nor is stalled: a failure and
-- then a recovery give back the row as it was, drain and stall included, but for an empty count and
-- backoff, the text of the error, and the health, which the failure at the limit has taken; and the
-- worker does not count as stalled.
pub recovered_row-failed_row :
    (cfg : GatewaySettings) (error : String) (retryable : Bool) (now : ℕ) (w : Worker)
    → 0 < cfg.max_failure_count
    → w.draining ≡ false
    → w.drain_target ≡ none
    → w.stalled_at ≡ none
    → let u = recovered_row cfg (failed_row cfg error retryable now w) in
      (u ≡ record w {
        failure_count = 0;
        retry_after = none;
        last_error = some error;
        healthy = if leb cfg.max_failure_count (w.failure_count + 1) then false else w.healthy;
      })
      × (stalled_clause cfg u ≡ false)
unfolding failed_row recovered_row stalled_clause
recovered_row-failed_row cfg error retryable now w limit idle no_target no_stall =
    elim (Bool-cases (leb cfg.max_failure_count (w.failure_count + 1))) [
      | inl e ↦ rw (e, no_stall) (ground arith, ground arith)
      | inr e ↦ rw e (elim (Bool-cases retryable) [
        | inl q ↦ rw (q, no_stall) (ground arith, ground arith)
        | inr q ↦ rw (q, no_stall) (ground arith, ground arith)
      ])
    ]
