-- ===== src/Markets/Create.antt =====
-- contracts/predict-iq/src/modules/markets.rs: the creation of a market.
pub mod Opened
use predict_iq.Types.Error.{
  invalid_time_range, deadline_passed, insufficient_reputation, too_many_outcomes,
  insufficient_deposit,
}
use predict_iq.Resolution.Windows.{resolve_market_dispute_window}
use predict_iq.CircuitBreaker.{require_not_paused_for_high_risk}
use predict_iq.Markets.{
  validate_parent_market, get_protocol_treasury, get_creator_reputation, write_market, find_market,
  get_creation_deposit, bump_market_ttl, get_creation_fee, write_index,
}
use predict_iq.Env.{
  Host, M, ◌>>=◌, ◌>>◌, client_transfer, now, fail_if, emit, bump_ttl, fee_collected, require_auth,
  modify, when, client_balance, gets, Entry, i128_or_panic, add_u64, market_created, pure,
  current_contract,
}
use predict_iq.Types.{
  Address, CreatorReputation, MarketTier, Market, active, OracleConfig, pull,
  max_outcomes_per_market, ttl_low_threshold, ttl_high_threshold,
}
use predict_iq.Prelude.{
  ℕ, ℤ, pos, Bool, true, false, Option, none, some, List, String, [], leb, ltb, not, ◌-◌, put,
  if◌then◌else◌, get_or, length, ◌+ℤ◌, ltb_ℤ, ◌&&◌,
}

-- The arguments of `create_market_with_dispute_window`.
pub record Request : Type 0 where
  pub creator : Address
  pub description : String
  pub options : List String
  pub deadline : ℕ
  pub resolution_deadline : ℕ
  pub oracle_config : OracleConfig
  pub tier : MarketTier
  pub native_token : Address
  pub parent_id : ℕ
  pub parent_outcome_idx : ℕ
  pub dispute_window_seconds : Option ℕ

abbrev pub min_deadline_gap : ℕ
min_deadline_gap = 86400

unfoldable pub is_pro : CreatorReputation → Bool
is_pro CreatorReputation.pro = true
is_pro CreatorReputation.institutional = true
is_pro CreatorReputation.none = false
is_pro CreatorReputation.basic = false

unfoldable pub is_institutional : CreatorReputation → Bool
is_institutional CreatorReputation.institutional = true
is_institutional CreatorReputation.pro = false
is_institutional CreatorReputation.none = false
is_institutional CreatorReputation.basic = false

unfoldable pub tier_allowed : MarketTier → CreatorReputation → Bool
unfolding is_pro is_institutional
tier_allowed MarketTier.basic reputation = true
tier_allowed MarketTier.pro reputation = is_pro reputation
tier_allowed MarketTier.institutional reputation = is_institutional reputation

-- The record of a new market.
unfoldable pub new_market : Request → ℕ → ℤ → Market
new_market r id deposit = record {
  id = id;
  creator = r.creator;
  description = r.description;
  options = r.options;
  status = active;
  deadline = r.deadline;
  resolution_deadline = r.resolution_deadline;
  winning_outcome = none;
  oracle_config = r.oracle_config;
  total_staked = pos 0;
  payout_mode = pull;
  tier = r.tier;
  creation_deposit = deposit;
  parent_id = r.parent_id;
  parent_outcome_idx = r.parent_outcome_idx;
  resolved_at = none;
  token_address = r.native_token;
  outcome_stakes = [];
  pending_resolution_timestamp = none;
  dispute_snapshot_ledger = none;
  dispute_timestamp = none;
  winner_counts = [];
  total_claimed = pos 0;
}

module _ {host : Host} where
  unfoldable pub check_times : Request → M host (Unit {0})
  check_times r = do
    current_time ← now
    fail_if (leb r.deadline current_time) invalid_time_range
    fail_if (leb r.resolution_deadline r.deadline) invalid_time_range
    fail_if (ltb (r.resolution_deadline - r.deadline) min_deadline_gap) invalid_time_range
    fail_if (ltb max_outcomes_per_market (length r.options)) too_many_outcomes

  unfoldable pub check_parent : Request → M host (Unit {0})
  unfolding validate_parent_market find_market
  check_parent r = do
    validate_parent_market r.parent_id r.parent_outcome_idx
    parent_market ← find_market r.parent_id
    fail_if (ltb parent_market.resolution_deadline r.deadline) deadline_passed

  unfoldable pub collect_creation_fee : Request → ℤ → M host (Unit {0})
  unfolding get_protocol_treasury client_transfer emit
  collect_creation_fee r creation_fee = do
    treasury ← get_protocol_treasury
    client_transfer r.native_token r.creator treasury creation_fee
    emit (fee_collected 0 r.native_token treasury creation_fee)

  -- The two transfers.
  unfoldable pub pay_creation : Request → ℤ → ℤ → M host (Unit {0})
  pay_creation r creation_fee deposit = do
    when (ltb_ℤ (pos 0) creation_fee) (collect_creation_fee r creation_fee)
    contract_addr ← current_contract
    when (ltb_ℤ (pos 0) deposit) (client_transfer r.native_token r.creator contract_addr deposit)

  -- The creation fee and the deposit; the deposit that the market holds.
  unfoldable pub charge : Request → M host ℤ
  unfolding get_creator_reputation tier_allowed is_pro get_creation_deposit get_creation_fee
      collect_creation_fee client_transfer
  charge r = do
    reputation ← get_creator_reputation r.creator
    fail_if (not (tier_allowed r.tier reputation)) insufficient_reputation
    creation_deposit ← get_creation_deposit
    creation_fee ← get_creation_fee
    balance ← client_balance r.native_token r.creator
    let deposit = if is_pro reputation then pos 0 else creation_deposit
    total_required ← i128_or_panic (deposit +ℤ creation_fee)
    fail_if (ltb_ℤ (pos 0) total_required && ltb_ℤ balance total_required) insufficient_deposit
    pay_creation r creation_fee deposit
    pure deposit

  unfoldable pub store_market : ℕ → Market → ℕ → M host (Unit {0})
  unfolding write_market bump_market_ttl bump_ttl write_index
  store_market count market dispute_window = do
    write_market count (some market)
    modify λ e. record e {
      markets = record e.markets {
        market_dispute_window = put e.markets.market_dispute_window count (some dispute_window);
      };
    }
    bump_market_ttl count
    bump_ttl (Entry.market_dispute_window count) ttl_low_threshold ttl_high_threshold
    write_index count active true
    modify λ e. record e { markets = record e.markets { market_count = some count } }

  -- From the new id on.
  unfoldable pub open_market : Request → ℤ → M host ℕ
  unfolding resolve_market_dispute_window
  open_market r deposit = do
    before ← gets (λ e. get_or e.markets.market_count 0)
    count ← add_u64 before 1
    dispute_window ← resolve_market_dispute_window r.dispute_window_seconds
    store_market count (new_market r count deposit) dispute_window
    emit (market_created count r.creator r.description (length r.options) r.deadline)
    pure count

  -- The checks before anything is charged.
  unfoldable pub check_creation : Request → M host (Unit {0})
  unfolding require_not_paused_for_high_risk check_times
  check_creation r = do
    require_auth r.creator
    require_not_paused_for_high_risk
    check_times r
    when (ltb 0 r.parent_id) (check_parent r)

  unfoldable pub create_market_with_dispute_window : Request → M host ℕ
  create_market_with_dispute_window r = check_creation r >> (charge r >>= open_market r)

  unfoldable pub create_market : Request → M host ℕ
  create_market r = create_market_with_dispute_window (record r { dispute_window_seconds = none })
