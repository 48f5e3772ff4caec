-- ===== src/Cancellation.antt =====
-- contracts/predict-iq/src/modules/cancellation.rs: the cancellation of a market by the admin, and
-- by the vote of the community.
pub mod Threshold
use predict_iq.Types.Error.{market_not_disputed, cannot_change_outcome, insufficient_voting_weight}
use Prim.Native.Nat.{zero}
use predict_iq.Types.{eqb_status, resolved, disputed, cancelled, cancel_outcome_index}
use predict_iq.Markets.{find_market, update_market}
use predict_iq.Voting.{get_tally}
use predict_iq.Admin.{require_admin, get_admin}
use predict_iq.Env.{
  Host, M, pure, emit, ◌>>=◌, ◌>>◌, fail_if, i128_or_panic, or_panic, market_cancelled, ok_or,
  current_contract, market_cancelled_vote,
}
use predict_iq.Prelude.{
  ℕ, ℤ, pos, Bool, true, false, Option, none, some, List, suc, ◌+ℤ◌, not, ◌+◌, ◌||◌, length, eqb_ℤ,
  checked_mul, checked_div, ltb_ℤ,
}

abbrev pub failed_market_threshold_bps : ℤ
failed_market_threshold_bps = pos 7500

module _ {host : Host} where
  unfoldable pub cancel_market_admin : ℕ → M host (Unit {0})
  unfolding require_admin find_market get_admin emit
  cancel_market_admin market_id = do
    require_admin
    market ← find_market market_id
    fail_if (eqb_status market.status resolved || eqb_status market.status cancelled)
        cannot_change_outcome
    update_market (record market { status = cancelled })
    stored ← get_admin
    admin_address ← or_panic stored
    emit (market_cancelled market_id admin_address)

  -- The loop over `n` outcomes from `o`.
  unfoldable pub add_tallies : ℕ → ℕ → ℕ → ℤ → M host ℤ
  unfolding get_tally
  add_tallies market_id zero o total = pure total
  add_tallies market_id (suc n) o total = do
    t ← get_tally market_id o
    next_total ← i128_or_panic (total +ℤ t)
    add_tallies market_id n (o + 1) next_total

  unfoldable pub cancel_market_vote : ℕ → M host (Unit {0})
  unfolding find_market get_tally emit
  cancel_market_vote market_id = do
    market ← find_market market_id
    fail_if (not (eqb_status market.status disputed)) market_not_disputed
    cancel_votes ← get_tally market_id cancel_outcome_index
    total_votes ← add_tallies market_id (length market.options) 0 cancel_votes
    fail_if (eqb_ℤ total_votes (pos 0)) insufficient_voting_weight
    scaled ← ok_or (checked_mul cancel_votes (pos 10000)) insufficient_voting_weight
    cancel_pct ← ok_or (checked_div scaled total_votes) insufficient_voting_weight
    fail_if (ltb_ℤ cancel_pct failed_market_threshold_bps) insufficient_voting_weight
    update_market (record market { status = cancelled })
    contract_addr ← current_contract
    emit (market_cancelled_vote market_id contract_addr)
