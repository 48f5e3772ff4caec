-- ===== src/Sac.antt =====
-- contracts/predict-iq/src/modules/sac.rs: transfers through Stellar asset contracts, and their
-- freezes.
use predict_iq.Monitoring.{track_error}
use predict_iq.Env.{
  Host, emit, M, ok, ◌>>=◌, ◌>>◌, Event, user_frozen, contract_frozen, current_contract, fail,
  client_balance, fail_if,
}
use predict_iq.Prelude.{ℤ, none, some, ltb_ℤ, if◌then◌else◌}
use predict_iq.Types.{Address}
use predict_iq.Types.Error.{transfer_failed, token_frozen, asset_clawed_back}

module _ {host : Host} where
  -- The failure of a transfer, from the call (the outer error) or from the contract (the inner one).
  unfoldable pub report_failure : Address → Address → Address → ℤ → M host (Unit {0})
  unfolding emit track_error
  report_failure token from to amount = do
    emit (Event.transfer_failed from to token amount)
    track_error
    fail transfer_failed

  unfoldable pub safe_transfer : Address → Address → Address → ℤ → M host (Unit {0})
  unfolding report_failure
  safe_transfer token from to amount e = elim (host.token_transfer e.tokens token from to amount) [
    | none ↦ report_failure token from to amount e
    | some t ↦ (ok tt, record e { tokens = t })
  ]

  unfoldable pub check_token_not_frozen : Address → Address → M host (Unit {0})
  unfolding emit
  check_token_not_frozen token user e = elim (host.token_frozen e.tokens token user) [
    | none ↦ (ok tt, e)
    | some frozen ↦
        if frozen then (emit (user_frozen token user) >> fail token_frozen) e else (ok tt, e)
  ]

  unfoldable pub verify_contract_not_frozen : Address → M host (Unit {0})
  unfolding emit
  verify_contract_not_frozen token e =
      elim (host.token_authorized e.tokens token e.ledger.current_contract) [
        | none ↦ (ok tt, e)
        | some authorized ↦
            if authorized then (ok tt, e) else (emit (contract_frozen token) >> fail token_frozen) e
      ]

  unfoldable pub detect_clawback : Address → ℤ → M host (Unit {0})
  detect_clawback token expected_balance = do
    contract_addr ← current_contract
    actual_balance ← client_balance token contract_addr
    fail_if (ltb_ℤ actual_balance expected_balance) asset_clawed_back
