-- ===== src/Disputes.antt =====
-- contracts/predict-iq/src/modules/disputes.rs: the filing of disputes, and resolution by the admin.
pub mod Window
pub mod Change
use predict_iq.Types.Error.{
  market_not_pending_resolution, resolution_not_ready, cannot_change_outcome, dispute_window_closed,
  invalid_outcome,
}
use predict_iq.Types.{
  Address, max_push_payout_winners, ttl_low_threshold, eqb_status, ttl_high_threshold,
  pending_resolution, resolved, cancelled, disputed,
}
use predict_iq.Resolution.Windows.{get_market_dispute_window}
use predict_iq.CircuitBreaker.{require_closed}
use predict_iq.Admin.{require_admin, get_admin}
use predict_iq.Markets.{find_market, get_outcome_stake, update_market}
use predict_iq.Env.{
  Host, M, ◌>>=◌, ◌>>◌, bump_ttl, gets, modify, emit, Entry, require_auth, fail_if, ok_or, add_u64,
  now, dispute_filed, current_contract, resolution_finalized,
}
use predict_iq.Prelude.{
  ℕ, ℤ, pos, Bool, true, false, Option, none, some, List, get_or, not, ◌||◌, leb, length,
  if◌then◌else◌, ltb_ℤ,
}

module _ {host : Host} where
  unfoldable pub file_dispute : Address → ℕ → M host (Unit {0})
  unfolding find_market get_market_dispute_window emit
  file_dispute disciplinarian market_id = do
    require_auth disciplinarian
    market ← find_market market_id
    fail_if (not (eqb_status market.status pending_resolution)) market_not_pending_resolution
    pending_ts ← ok_or market.pending_resolution_timestamp resolution_not_ready
    dispute_window ← get_market_dispute_window market_id
    window_end ← add_u64 pending_ts dispute_window
    current_time ← now
    fail_if (leb window_end current_time) dispute_window_closed
    new_deadline ← add_u64 market.resolution_deadline dispute_window
    update_market (record market {
      status = disputed;
      dispute_timestamp = some current_time;
      resolution_deadline = new_deadline;
    })
    emit (dispute_filed market_id disciplinarian new_deadline)

  unfoldable pub resolve_market : ℕ → ℕ → M host (Unit {0})
  unfolding find_market get_outcome_stake get_admin emit
  resolve_market market_id winning_outcome = do
    market ← find_market market_id
    fail_if (eqb_status market.status resolved || eqb_status market.status cancelled)
        cannot_change_outcome
    fail_if (leb (length market.options) winning_outcome) invalid_outcome
    current_time ← now
    let winning_stake = get_outcome_stake market winning_outcome
    let total_payout = if ltb_ℤ (pos 0) winning_stake then market.total_staked else pos 0
    update_market (record market {
      status = resolved;
      winning_outcome = some winning_outcome;
      resolved_at = some current_time;
    })
    stored ← get_admin
    contract_addr ← current_contract
    emit (resolution_finalized market_id (get_or stored contract_addr) winning_outcome total_payout)

  -- The entry points of lib.rs.
  unfoldable pub resolve_market_entry : ℕ → ℕ → M host (Unit {0})
  unfolding require_admin resolve_market
  resolve_market_entry market_id winning_outcome = do
    require_admin
    resolve_market market_id winning_outcome

  unfoldable pub file_dispute_entry : Address → ℕ → M host (Unit {0})
  unfolding require_closed file_dispute
  file_dispute_entry disciplinarian market_id = do
    require_closed
    file_dispute disciplinarian market_id

  unfoldable pub set_max_push_payout_winners : ℕ → M host (Unit {0})
  unfolding require_admin bump_ttl
  set_max_push_payout_winners threshold = do
    require_admin
    modify λ e. record e { windows = record e.windows { max_push_winners = some threshold } }
    bump_ttl Entry.max_push_payout_winners ttl_low_threshold ttl_high_threshold

  unfoldable pub get_max_push_payout_winners : M host ℕ
  get_max_push_payout_winners = gets λ e. get_or e.windows.max_push_winners max_push_payout_winners
