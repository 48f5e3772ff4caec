-- ===== src/Contract.antt =====
-- contracts/predict-iq/src/lib.rs: the entries of the contract that do more than pass a call on. Those
-- of disputes and of the resolution by the admin stand with disputes.
pub mod Paused
pub mod Initialized
use predict_iq.Types.Error.{market_not_found, already_initialized}
use predict_iq.Prelude.{ℕ, List, ℤ, is_some, some}
use predict_iq.Types.{Address, Guardian, closed}
use predict_iq.Markets.{get_market}
use predict_iq.CircuitBreaker.{require_closed}
use predict_iq.Admin.{set_admin, require_admin}
use predict_iq.Env.{◌>>◌, ◌>>=◌, Host, M, ok_or, gets, fail_if, modify}
use predict_iq.Governance
use predict_iq.Monitoring
use predict_iq.Oracles
use predict_iq.Voting

module _ {host : Host} where
  unfoldable pub initialize : Address → ℤ → M host (Unit {0})
  unfolding set_admin
  initialize admin base_fee = do
    stored ← gets (λ e. e.admins.admin)
    fail_if (is_some stored) already_initialized
    set_admin admin
    modify λ e. record e { fees = record e.fees { base_fee = some base_fee } }
    modify λ e. record e { breaker = record e.breaker { initial_state = some closed } }

  unfoldable pub cast_vote_entry : Address → ℕ → ℕ → ℤ → M host (Unit {0})
  unfolding require_closed
  cast_vote_entry voter market_id outcome weight = do
    require_closed
    Voting.cast_vote voter market_id outcome weight

  unfoldable pub set_oracle_result_entry : ℕ → ℕ → ℕ → M host (Unit {0})
  unfolding require_admin
  set_oracle_result_entry market_id oracle_id outcome = do
    require_admin
    Oracles.set_oracle_result market_id oracle_id outcome

  unfoldable pub validate_oracle_staleness_entry : ℕ → M host (Unit {0})
  unfolding get_market
  validate_oracle_staleness_entry market_id = do
    found ← get_market market_id
    market ← ok_or found market_not_found
    Oracles.validate_oracle_staleness market_id market.oracle_config

  unfoldable pub reset_monitoring_entry : M host (Unit {0})
  unfolding require_admin
  reset_monitoring_entry = do require_admin; Monitoring.reset_monitoring

  unfoldable pub initialize_guardians_entry : List Guardian → M host (Unit {0})
  unfolding require_admin
  initialize_guardians_entry guardians = do require_admin; Governance.initialize_guardians guardians
