-- ===== src/Api/Breaker/Recovery.antt =====
-- When the circuit opens, and what the failures of a half-open circuit do.
use Prim.Native.Nat.{zero}
use mathlib.Core.List.{[]}
use predict_iq.Api.Breaker.{
  record_failure, breaker_state, allow, CircuitBreaker, suc, new_breaker, CircuitState,
}
use predict_iq.Prelude.{
  List, ℕ, ◌<◌, ◌∷◌, ◌≢◌, ◌≡◌, ◌+◌, ◌^◌, arith, if◌then◌else◌, ◌≤◌, refl, true, leb, replicate,
}

-- The failures of calls at the given times, the first one first.
pub fail_all : List ℕ → CircuitBreaker → CircuitBreaker
fail_all [] b = b
fail_all (t ∷ ts) b = fail_all ts (record_failure t b)

fail_all_opened :
    (ts : List ℕ) (b : CircuitBreaker)
    → b.opened_at_ms ≢ 0
    → ((fail_all ts b).opened_at_ms ≡ b.opened_at_ms)
      × ((fail_all ts b).reset_timeout ≡ b.reset_timeout)
unfolding fail_all record_failure
fail_all_opened [] b h = (refl, refl)
fail_all_opened (t ∷ ts) b h = ground (arith, fail_all_opened ts (record_failure t b))

-- A half-open cache breaker lets a call through at any time that is not before the time at which it
-- was half open, whatever number of failures are recorded in between, at whatever times: failures
-- never open it again.
pub fail_all-allow :
    (ts : List ℕ) (b : CircuitBreaker) (now later : ℕ)
    → breaker_state b now ≡ CircuitState.half_open
    → now ≤ later
    → allow (fail_all ts b) later ≡ true
unfolding breaker_state allow
fail_all-allow ts b now later h le = ground (arith, fail_all_opened ts b)

fail_all_count :
    (n t : ℕ) (b : CircuitBreaker)
    → b.failure_count + n < 2 ^ 32
    → 0 < t
    → b.opened_at_ms ≡ (if leb b.threshold b.failure_count then t else 0)
    → let after = fail_all (replicate n t) b in
      (after.opened_at_ms ≡ (if leb b.threshold (b.failure_count + n) then t else 0))
      × (after.reset_timeout ≡ b.reset_timeout)
unfolding fail_all record_failure
fail_all_count zero t b l p h = ground arith
fail_all_count (suc n) t b l p h = ground (arith, fail_all_count n t (record_failure t b))

-- After n failures at one time, for n below 2 ^ 32, a new breaker with a positive threshold is open
-- within the reset timeout if n has reached the threshold, and closed otherwise.
pub fail_all-breaker_state :
    (n t threshold reset_timeout now : ℕ)
    → 0 < threshold
    → n < 2 ^ 32
    → 0 < t
    → t ≤ now
    → now < t + reset_timeout
    → breaker_state (fail_all (replicate n t) (new_breaker threshold reset_timeout)) now
      ≡ (if leb threshold n then CircuitState.is_open else CircuitState.closed)
unfolding breaker_state
fail_all-breaker_state n t k r now p l q a b = ground (arith, fail_all_count n t (new_breaker k r))
