-- ===== src/Resolution.antt =====
-- contracts/predict-iq/src/modules/resolution.rs: oracle resolution, finalization and the outcome
-- of the vote. `voting::get_market_votes` is not in the repository: it is a parameter.
pub mod Bounds
pub mod Disputed
pub mod Majority
pub mod Windows
pub mod Timing
use predict_iq.Types.Error.{
  arithmetic_overflow, resolution_not_ready, market_not_disputed, no_votes_cast,
  cannot_change_outcome, market_not_active, no_majority, oracle_failure, dispute_window_still_open,
  timelock_active,
}
use predict_iq.Oracles.{validate_oracle_staleness, get_oracle_result}
use mathlib.Core.List.{[]}
use predict_iq.Resolution.Windows.{get_market_dispute_window}
use predict_iq.Markets.{find_market, update_market}
use predict_iq.Env.{
  Host, M, Env, ◌>>=◌, ◌>>◌, fail_if, ok_or, emit, fail, add_u64, now, pure, market_state_changed,
  gets, current_contract, oracle_resolved, market_finalized, Event,
}
use predict_iq.Types.{
  Vote, Market, MarketStatus, eqb_status, active, pending_resolution, disputed, resolved, cancelled,
}
use predict_iq.Prelude.{
  ℕ, ℤ, pos, Bool, true, false, Option, none, some, List, ◌∷◌, if◌then◌else◌, checked_add, ◌==◌,
  ltb_ℤ, eqb_ℤ, not, checked_mul, checked_div, ltb,
}

abbrev pub voting_period_seconds : ℕ
voting_period_seconds = 259200

abbrev pub majority_threshold_bps : ℤ
majority_threshold_bps = pos 6000

-- The running tallies, in the order in which the outcomes first appear.
abbrev pub Tallies : Type 0
Tallies = List (ℕ × ℤ)

-- The inner loop: the tally of the vote's outcome is raised, or a new one is pushed at the end.
-- `none` is an overflow.
unfoldable pub add_vote : Tallies → ℕ → ℤ → Option Tallies
add_vote [] outcome weight = some ((outcome, weight) ∷ [])
add_vote ((o, w) ∷ ts) outcome weight =
    let rest = add_vote ts outcome weight in
    if o == outcome
    then elim (checked_add w weight) [ none ↦ none | some new ↦ some ((o, new) ∷ ts) ]
    else elim rest [ none ↦ none | some ts' ↦ some ((o, w) ∷ ts') ]

-- The loop over the votes: the total and the tallies.
unfoldable pub tally_votes : List Vote → ℤ → Tallies → Option (ℤ × Tallies)
unfolding add_vote
tally_votes [] total ts = some (total, ts)
tally_votes (v ∷ vs) total ts = elim (checked_add total v.weight) [
  | none ↦ none
  | some total' ↦ elim (add_vote ts v.outcome v.weight) [
    | none ↦ none
    | some ts' ↦ tally_votes vs total' ts'
  ]
]

-- The loop for the largest tally: the first one wins a tie.
unfoldable pub find_max : Tallies → ℤ → ℕ → ℤ × ℕ
find_max [] max_votes winning_outcome = (max_votes, winning_outcome)
find_max ((o, w) ∷ ts) max_votes winning_outcome =
    find_max ts (if ltb_ℤ max_votes w then w else max_votes)
      (if ltb_ℤ max_votes w then o else winning_outcome)

module _ {host : Host} where
  -- From the total and the tallies on.
  unfoldable pub decide : ℤ → Tallies → M host ℕ
  unfolding find_max
  decide total_votes tallies = do
    fail_if (eqb_ℤ total_votes (pos 0)) no_votes_cast
    let best = find_max tallies (pos 0) 0
    scaled ← ok_or (checked_mul best.0 (pos 10000)) arithmetic_overflow
    majority_pct ← ok_or (checked_div scaled total_votes) arithmetic_overflow
    fail_if (ltb_ℤ majority_pct majority_threshold_bps) no_majority
    pure best.1

  unfoldable pub calculate_voting_outcome : List Vote → M host ℕ
  unfolding tally_votes decide
  calculate_voting_outcome votes = do
    counted ← ok_or (tally_votes votes (pos 0) []) arithmetic_overflow
    decide counted.0 counted.1

  unfoldable pub attempt_oracle_resolution : ℕ → M host (Unit {0})
  unfolding find_market get_oracle_result emit
  attempt_oracle_resolution market_id = do
    market ← find_market market_id
    fail_if (not (eqb_status market.status active)) market_not_active
    current_time ← now
    fail_if (ltb current_time market.resolution_deadline) resolution_not_ready
    validate_oracle_staleness market_id market.oracle_config
    found ← get_oracle_result market_id 0
    oracle_outcome ← ok_or found oracle_failure
    update_market (record market {
      status = pending_resolution;
      winning_outcome = some oracle_outcome;
      pending_resolution_timestamp = some current_time;
    })
    emit (market_state_changed market_id active pending_resolution current_time)
    contract_addr ← current_contract
    emit (oracle_resolved market_id contract_addr oracle_outcome)

  -- The branch of `finalize_resolution` without a dispute.
  unfoldable pub finalize_pending : ℕ → Market → M host (Unit {0})
  unfolding get_market_dispute_window emit
  finalize_pending market_id market = do
    pending_ts ← ok_or market.pending_resolution_timestamp resolution_not_ready
    dispute_window ← get_market_dispute_window market_id
    window_end ← add_u64 pending_ts dispute_window
    current_time ← now
    fail_if (ltb current_time window_end) dispute_window_still_open
    outcome ← ok_or market.winning_outcome resolution_not_ready
    update_market (record market { status = resolved; resolved_at = some current_time })
    emit (market_state_changed market_id pending_resolution resolved current_time)
    contract_addr ← current_contract
    emit (market_finalized market_id contract_addr outcome)

  -- `finalize_disputed` behind the count of the votes.
  unfoldable pub finish_dispute : ℕ → Market → ℕ → M host (Unit {0})
  unfolding emit
  finish_dispute market_id market outcome = do
    current_time ← now
    update_market (record market {
      status = resolved;
      winning_outcome = some outcome;
      resolved_at = some current_time;
    })
    emit (market_state_changed market_id disputed resolved current_time)
    contract_addr ← current_contract
    emit (Event.dispute_resolved market_id contract_addr outcome)

  unfoldable pub count_and_finish : ℕ → Market → List Vote → M host (Unit {0})
  count_and_finish market_id market votes =
      calculate_voting_outcome votes >>= finish_dispute market_id market

module _ {host : Host} (get_market_votes : Env host → ℕ → List Vote) where
  -- The branch after a dispute.
  unfoldable pub finalize_disputed : ℕ → Market → M host (Unit {0})
  unfolding emit
  finalize_disputed market_id market = do
    dispute_ts ← ok_or market.dispute_timestamp market_not_disputed
    voting_end ← add_u64 dispute_ts voting_period_seconds
    current_time ← now
    fail_if (ltb current_time voting_end) timelock_active
    votes ← gets (λ e. get_market_votes e market.id)
    count_and_finish market_id market votes

  unfoldable pub finalize_by_status : ℕ → Market → MarketStatus → M host (Unit {0})
  finalize_by_status market_id market pending_resolution = finalize_pending market_id market
  finalize_by_status market_id market disputed = finalize_disputed market_id market
  finalize_by_status market_id market resolved = fail cannot_change_outcome
  finalize_by_status market_id market active = fail resolution_not_ready
  finalize_by_status market_id market cancelled = fail resolution_not_ready

  unfoldable pub finalize_resolution : ℕ → M host (Unit {0})
  finalize_resolution market_id = do
    market ← find_market market_id
    finalize_by_status market_id market market.status
