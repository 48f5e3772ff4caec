-- ===== src/Monitoring/Trip.antt =====
-- The trip of the circuit breaker by the error counter (track_error), and what follows it.
use predict_iq.Types.{is_open, half_open}
use predict_iq.CircuitBreaker.{maybe_recover, cooldown_seconds}
use predict_iq.Monitoring.{track_error}
use predict_iq.Env.{Host, Env}
use predict_iq.Prelude.{◌≡◌, ◌≤◌, ◌<◌, arith, ℕ, some, none, u32_max}

module _ {host : Host} where
  -- From the eleventh error on, track_error leaves the breaker open, but without a time of opening:
  -- where none was set before and the ledger's time is at least the cool-down period, the recovery
  -- check after it finds it half open at once. Its callers all return an error, so the host discards
  -- what it writes.
  pub track_error-maybe_recover :
      (n : ℕ) (e : Env host)
      → e.monitor.error_count ≡ some n
      → 10 ≤ n
      → n < u32_max
      → e.breaker.opened_at ≡ none
      → cooldown_seconds ≤ e.ledger.timestamp
      → let tripped = (track_error e).1 in
        (tripped.breaker.state ≡ some is_open)
        × ((maybe_recover tripped).1.breaker.state ≡ some half_open)
  unfolding track_error maybe_recover
  track_error-maybe_recover n e a b c o t = (ground arith, ground arith)
