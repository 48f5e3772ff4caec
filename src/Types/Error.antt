-- ===== src/Types/Error.antt =====
-- The error codes of contracts/predict-iq/src/errors.rs.
-- The variants of `ErrorCode`. The last five are named by the contract's modules and missing from
-- the enum: they have no number.
pub data ErrorCode : Type 0 where
  already_initialized not_authorized market_not_found market_closed market_still_active : ErrorCode
  invalid_outcome invalid_bet_amount insufficient_balance oracle_failure : ErrorCode
  circuit_breaker_open dispute_window_closed voting_not_started voting_ended : ErrorCode
  already_voted fee_too_high market_not_active deadline_passed cannot_change_outcome : ErrorCode
  market_not_disputed market_not_pending_resolution admin_not_set contract_paused : ErrorCode
  guardian_not_set too_many_outcomes too_many_winners payout_mode_not_supported : ErrorCode
  insufficient_deposit timelock_active upgrade_not_initiated insufficient_votes : ErrorCode
  already_voted_on_upgrade invalid_wasm_hash upgrade_failed parent_market_not_resolved : ErrorCode
  parent_market_invalid_outcome resolution_not_ready dispute_window_still_open : ErrorCode
  no_majority_reached stale_price confidence_too_low insufficient_voting_weight : ErrorCode
  market_not_cancelled bet_not_found upgrade_already_pending upgrade_hash_in_cooldown : ErrorCode
  invalid_amount governance_token_not_set market_not_resolved invalid_deadline : ErrorCode
  pending_transfer_not_found not_pending_owner token_frozen migration_validation_error : ErrorCode
  asset_clawed_back arithmetic_overflow already_claimed no_winnings invalid_referrer : ErrorCode
  resolution_deadline_passed overflow invalid_time_range : ErrorCode
  guardian_cannot_vote_on_own_removal below_minimum_guardian_count : ErrorCode
  insufficient_reputation no_votes_cast no_majority transfer_failed invalid_timestamp : ErrorCode
