-- ===== src/Scheduler/Ticks/Stopped.antt =====
-- A scheduler that lost its lock writes nothing more.
use mineru_gateway.Base.{◌≡◌, refl, Bool, true, false, List, [], ◌∷◌, arith}
use mineru_gateway.Base.Action.{Action, ◌>>=◌, proceed}
use mineru_gateway.Config.{GatewaySettings}
use mineru_gateway.Objects.{Failure}
use mineru_gateway.Scheduler.Lock.{Lock, no_op, advisory, is_held, verify}
use mineru_gateway.Scheduler.Ticks.{
  Service, TickOutside, verify_lock, after_verify, fast_tick, slow_tick, run_loop,
}

-- A verification that fails leaves a lock that is not held.
verify-lost :
    (alive : Bool) (lock : Lock)
    → (verify alive lock).0 ≡ false
    → is_held (verify alive lock).1 ≡ false
unfolding verify is_held
verify-lost alive no_op h = absurd (ground arith)
verify-lost true (advisory true true) h = absurd (ground arith)
verify-lost false (advisory true true) h = refl
verify-lost alive (advisory false true) h = refl
verify-lost alive (advisory connected false) h = refl

module _ {S C : Type 0} (cfg : GatewaySettings) (outside : TickOutside S C)
    (service : Service S C) where
  -- The service is as before but for its lock, which is not held.
  abbrev pub IsStopped : Service S C → Type 0
  IsStopped after = (after ≡ record service { lock = after.lock }) × (is_held after.lock ≡ false)

  verified-IsStopped :
      (k : Bool → Action Failure (Service S C) (Unit {0})) (r : Bool × Lock)
      → r.0 ≡ false
      → is_held r.1 ≡ false
      → IsStopped (proceed k (after_verify cfg outside service r)).1
  verified-IsStopped k (true, lock) h free = absurd (ground arith)
  verified-IsStopped k (false, lock) h free = (refl, free)

  fast_tick-IsStopped :
      (verify (outside.alive 0) service.lock).0 ≡ false
      → IsStopped (fast_tick cfg outside service).1
  unfolding fast_tick ◌>>=◌ verify_lock
  fast_tick-IsStopped h = verified-IsStopped _ _ h (verify-lost (outside.alive 0) service.lock h)

  slow_tick-IsStopped :
      (verify (outside.alive 1) service.lock).0 ≡ false
      → IsStopped (slow_tick cfg outside service).1
  unfolding slow_tick ◌>>=◌ verify_lock
  slow_tick-IsStopped h = verified-IsStopped _ _ h (verify-lost (outside.alive 1) service.lock h)

-- A service whose lock is not held has no more ticks.
run_loop-unheld :
    {S C : Type 0} (ticks : List (Action Failure (Service S C) (Unit {0}))) (service : Service S C)
    → is_held service.lock ≡ false
    → run_loop ticks service ≡ service
unfolding run_loop
run_loop-unheld [] service h = refl
run_loop-unheld (tick_fn ∷ later) service h = rw h refl

module _ {S C : Type 0} (cfg : GatewaySettings) (outside : TickOutside S C)
    (service : Service S C) where
  loop-IsStopped :
      (tick_fn : Action Failure (Service S C) (Unit {0}))
      → (later : List (Action Failure (Service S C) (Unit {0}))) → is_held service.lock ≡ true
      → IsStopped cfg outside service (tick_fn service).1
      → IsStopped cfg outside service (run_loop (tick_fn ∷ later) service)
  unfolding run_loop
  loop-IsStopped tick_fn later held stopped =
      rw (held, run_loop-unheld later (tick_fn service).1 stopped.1) stopped

  -- A loop of the scheduler, fast or slow, whose held lock fails the verification of its next tick
  -- writes nothing more, whatever ticks would come later: the database, the objects, the cloud and
  -- the commands sent stay, and the lock is not held.
  pub run_loop-IsStopped :
      (later : List (Action Failure (Service S C) (Unit {0})))
      → is_held service.lock ≡ true
      → (verify (outside.alive 0) service.lock).0 ≡ false
      → (verify (outside.alive 1) service.lock).0 ≡ false
      → IsStopped cfg outside service (run_loop (fast_tick cfg outside ∷ later) service)
        × IsStopped cfg outside service (run_loop (slow_tick cfg outside ∷ later) service)
  run_loop-IsStopped later held fast slow = (
    loop-IsStopped (fast_tick cfg outside) later held
        (fast_tick-IsStopped cfg outside service fast),
    loop-IsStopped (slow_tick cfg outside) later held
        (slow_tick-IsStopped cfg outside service slow),
  )
