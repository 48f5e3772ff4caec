-- ===== src/Api/Breaker/Retries.antt =====
-- The retries behind the circuit breaker (exec): how many calls it makes, how long it waits, and what
-- it returns.
use Prim.Native.Nat.{zero}
use predict_iq.Api.Breaker.{
  retry_delay, exec_from, exec, CircuitBreaker, suc, record_failure, record_success, some, allow,
}
use predict_iq.Prelude.{
  ℕ, Option, ◌≤◌, ◌*◌, ◌+◌, arith, min, none, ◌≡◌, is_some, if◌then◌else◌, true,
}

module _ {A : Type 0} (base : ℕ) (op : ℕ → Option A) (clock : ℕ → ℕ) where
  delay_bound : (n : ℕ) → retry_delay base n ≤ base * 16
  unfolding retry_delay
  delay_bound zero = omega arith
  delay_bound (suc zero) = omega arith
  delay_bound (suc (suc zero)) = omega arith
  delay_bound (suc (suc (suc zero))) = omega arith
  delay_bound (suc (suc (suc (suc zero)))) = omega arith
  delay_bound (suc (suc (suc (suc (suc n))))) =
      let full : min (suc (suc (suc (suc n)))) 4 ≡ 4 = omega arith in rw full (omega arith)

  exec_from_bounds :
      (left attempt slept : ℕ) (b : CircuitBreaker)
      → let run = exec_from base op clock left attempt b slept in
        (run.attempts ≤ attempt + left) × (run.slept ≤ slept + left * (base * 16))
  unfolding exec_from
  exec_from_bounds zero attempt slept b = omega arith
  exec_from_bounds (suc left) attempt slept b = ground (
    arith,
    delay_bound attempt,
    exec_from_bounds left (attempt + 1) (slept + retry_delay base attempt)
        (record_failure (clock attempt) b),
  )

  -- One call of exec makes at most retry_attempts + 1 attempts, and sleeps for at most sixteen
  -- times the base delay before each of the retries.
  pub exec_bounds :
      (retry_attempts now : ℕ) (b : CircuitBreaker)
      → let run = exec base op clock retry_attempts b now in
        (run.attempts ≤ retry_attempts + 1) × (run.slept ≤ retry_attempts * (base * 16))
  unfolding exec exec_from retry_delay
  exec_bounds retry_attempts now b =
      ground (arith, exec_from_bounds retry_attempts 1 0 (record_failure (clock 0) b))

  -- The first success among `n` attempts from the given one.
  pub first_success : ℕ → ℕ → Option A
  first_success zero attempt = none
  first_success (suc n) attempt = elim (op attempt) [
    | some v ↦ some v
    | none ↦ first_success n (attempt + 1)
  ]

  exec_from_result :
      (left attempt slept : ℕ) (b : CircuitBreaker)
      → let run = exec_from base op clock left attempt b slept in
        (run.result ≡ first_success left attempt)
        × (is_some run.result ≡ true
            → (run.breaker.failure_count ≡ 0) × (run.breaker.opened_at_ms ≡ 0))
  unfolding exec_from first_success record_success
  exec_from_result zero attempt slept b = ground arith
  exec_from_result (suc left) attempt slept b = ground (
    arith,
    exec_from_result left (attempt + 1) (slept + retry_delay base attempt)
        (record_failure (clock attempt) b),
  )

  -- What exec returns is the result of the first of its retry_attempts + 1 attempts that succeeds,
  -- and a failure if none does or the breaker does not let the call through.
  pub exec-first_success :
      (retry_attempts now : ℕ) (b : CircuitBreaker)
      → (exec base op clock retry_attempts b now).result
        ≡ (if allow b now then first_success (suc retry_attempts) 0 else none)
  unfolding exec
  exec-first_success retry_attempts now b =
      ground (arith, exec_from_result (suc retry_attempts) 0 0 b)
