-- ===== src/Monitoring.antt =====
-- contracts/predict-iq/src/modules/monitoring.rs: the error counter, and the trip of the circuit
-- breaker that it makes. The count of storage entries is the host's.
pub mod Trip
use predict_iq.Prelude.{
  ℕ, ◌+◌, Bool, true, false, Option, none, some, ltb, leb, get_or, u32_max, u64_max, if◌then◌else◌,
}
use predict_iq.Types.{
  MarketStatus, resolved, active, pending_resolution, disputed, cancelled, Market, eqb_status,
  CircuitBreakerState, is_open, prune_grace_period,
}
use predict_iq.Env.{
  Host, Env, M, pure, gets, modify, when, now, current_contract, add_within, add_u64, emit,
  breaker_auto, monitoring_state_reset, ◌>>=◌, ◌>>◌,
}
use predict_iq.Admin.{get_admin}

module _ {host : Host} where
  unfoldable pub trip : ℕ → M host (Unit {0})
  unfolding emit
  trip count = do
    modify λ e. record e { breaker = record e.breaker { state = some is_open } }
    emit (breaker_auto count)

  unfoldable pub track_error : M host (Unit {0})
  unfolding trip
  track_error = do
    before ← gets (λ e. get_or e.monitor.error_count 0)
    count ← add_within u32_max before 1
    t ← now
    modify
        λ e. record e { monitor = record { error_count = some count; last_observation = some t } }
    when (ltb 10 count) (trip count)

  unfoldable pub reset_monitoring : M host (Unit {0})
  unfolding get_admin emit
  reset_monitoring = do
    previous_error_count ← gets (λ e. get_or e.monitor.error_count 0)
    previous_last_observation ← gets (λ e. get_or e.monitor.last_observation 0)
    modify λ e. record e { monitor = record { error_count = some 0; last_observation = some 0 } }
    stored ← get_admin
    contract_addr ← current_contract
    emit (
        monitoring_state_reset (get_or stored contract_addr) previous_error_count
          previous_last_observation)
