-- ===== src/Api/Breaker.antt =====
-- services/api/src/cache/mod.rs: the circuit breaker in front of Redis, and the retries behind it.
-- Times are milliseconds. The atomic fields are read and written one call after another; the gauge
-- of the metrics is not kept.
pub mod Recovery
pub mod Retries
use Prim.Native.Nat.{zero}
use predict_iq.Prelude.{
  ℕ, Option, if◌then◌else◌, ◌+◌, Bool, suc, none, ◌==◌, ◌%◌, true, ◌*◌, some, leb, ◌^◌, false, ◌-◌,
  ◌&&◌, min,
}

pub data CircuitState : Type 0 where
  closed is_open half_open : CircuitState

-- `opened_at_ms` is 0 while the circuit is not open.
pub record CircuitBreaker : Type 0 where
  pub failure_count : ℕ
  pub opened_at_ms : ℕ
  pub threshold : ℕ
  pub reset_timeout : ℕ

abbrev pub new_breaker : ℕ → ℕ → CircuitBreaker
new_breaker threshold reset_timeout = record {
  failure_count = 0;
  opened_at_ms = 0;
  threshold = threshold;
  reset_timeout = reset_timeout;
}

unfoldable pub breaker_state : CircuitBreaker → ℕ → CircuitState
breaker_state b now =
    if b.opened_at_ms == 0
    then closed
    else if leb b.reset_timeout (now - b.opened_at_ms)
    then half_open
    else is_open

unfoldable pub record_success : CircuitBreaker → CircuitBreaker
record_success b = record b { failure_count = 0; opened_at_ms = 0 }

-- `fetch_add` wraps around at 2^32; the sum in the test is the same in a release build.
unfoldable pub record_failure : ℕ → CircuitBreaker → CircuitBreaker
record_failure now b =
    let count = (b.failure_count + 1) % 2 ^ 32 in
    record b {
      failure_count = count;
      opened_at_ms = if leb b.threshold count && b.opened_at_ms == 0 then now else b.opened_at_ms;
    }

unfoldable pub allow : CircuitBreaker → ℕ → Bool
unfolding breaker_state
allow b now = elim (breaker_state b now) [ closed ↦ true | half_open ↦ true | is_open ↦ false ]

-- What `exec` returns and what it has done: the attempts that it made, and the milliseconds slept.
pub record Run (A : Type 0) : Type 0 where
  pub result : Option A
  pub breaker : CircuitBreaker
  pub attempts : ℕ
  pub slept : ℕ

-- `retry_base_delay * (1 << (attempt - 1).min(4))`, and nothing before the first attempt.
unfoldable pub retry_delay : ℕ → ℕ → ℕ
retry_delay base zero = 0
retry_delay base (suc n) = base * 2 ^ min n 4

module _ {A : Type 0} (base : ℕ) (op : ℕ → Option A) (clock : ℕ → ℕ) where
  -- The loop over `left` attempts from `attempt`. `op` and `clock` give the outcome and the time of
  -- each; `none` is a connection that was not acquired, or an operation that failed.
  unfoldable pub exec_from : ℕ → ℕ → CircuitBreaker → ℕ → Run A
  unfolding retry_delay
  exec_from zero attempt b slept = record {
    result = none;
    breaker = b;
    attempts = attempt;
    slept = slept;
  }
  exec_from (suc left) attempt b slept = elim (op attempt) [
    | some v ↦ record {
      result = some v;
      breaker = record_success b;
      attempts = attempt + 1;
      slept = slept + retry_delay base attempt;
    }
    | none ↦
        exec_from left (attempt + 1) (record_failure (clock attempt) b)
          (slept + retry_delay base attempt)
  ]

  unfoldable pub exec : ℕ → CircuitBreaker → ℕ → Run A
  unfolding allow exec_from
  exec retry_attempts b now =
      if allow b now
      then exec_from (suc retry_attempts) 0 b 0
      else record { result = none; breaker = b; attempts = 0; slept = 0 }
