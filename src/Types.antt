-- ===== src/Types.antt =====
-- contracts/predict-iq/src/types.rs: the data that the modules of the contract share, and its
-- constants. Addresses and hashes are only compared, so they are numbers.
pub mod Error
use predict_iq.Prelude.{ℕ, ℤ, Bool, true, false, String, List, Option, SortedMap}

abbrev pub Address : Type 0
Address = ℕ

abbrev pub Hash : Type 0
Hash = ℕ

pub data MarketStatus : Type 0 where
  active pending_resolution disputed resolved cancelled : MarketStatus

-- `==` on `MarketStatus`.
abbrev pub eqb_status : MarketStatus → MarketStatus → Bool
eqb_status active active = true
eqb_status pending_resolution pending_resolution = true
eqb_status disputed disputed = true
eqb_status resolved resolved = true
eqb_status cancelled cancelled = true
eqb_status _ _ = false

pub data PayoutMode : Type 0 where
  push pull : PayoutMode

pub data MarketTier : Type 0 where
  basic pro institutional : MarketTier

pub data CreatorReputation : Type 0 where
  none basic pro institutional : CreatorReputation

pub record OracleConfig : Type 0 where
  pub oracle_address : Address
  pub feed_id : List ℕ
  pub min_responses : Option ℕ
  pub max_staleness_seconds : ℕ
  pub max_confidence_bps : ℕ
  pub strike_price : Option ℤ

pub record Market : Type 0 where
  pub id : ℕ
  pub creator : Address
  pub description : String
  pub options : List String
  pub status : MarketStatus
  pub deadline : ℕ
  pub resolution_deadline : ℕ
  pub winning_outcome : Option ℕ
  pub oracle_config : OracleConfig
  pub total_staked : ℤ
  pub payout_mode : PayoutMode
  pub tier : MarketTier
  pub creation_deposit : ℤ
  pub parent_id : ℕ
  pub parent_outcome_idx : ℕ
  pub resolved_at : Option ℕ
  pub token_address : Address
  pub outcome_stakes : SortedMap ℤ
  pub pending_resolution_timestamp : Option ℕ
  pub dispute_snapshot_ledger : Option ℕ
  pub dispute_timestamp : Option ℕ
  pub winner_counts : SortedMap ℕ
  pub total_claimed : ℤ

pub record Bet : Type 0 where
  pub market_id : ℕ
  pub bettor : Address
  pub outcome : ℕ
  pub amount : ℤ
  pub fee_paid : ℤ

pub record Vote : Type 0 where
  pub market_id : ℕ
  pub voter : Address
  pub outcome : ℕ
  pub weight : ℤ

pub record LockedTokens : Type 0 where
  pub voter : Address
  pub market_id : ℕ
  pub amount : ℤ
  pub unlock_time : ℕ

pub data CircuitBreakerState : Type 0 where
  closed is_open half_open paused : CircuitBreakerState

pub record Guardian : Type 0 where
  pub address : Address
  pub voting_power : ℕ

pub record PendingUpgrade : Type 0 where
  pub wasm_hash : Hash
  pub initiated_at : ℕ
  pub votes_for : List Address
  pub votes_against : List Address

pub record UpgradeVoteStats : Type 0 where
  pub votes_for : ℕ
  pub votes_against : ℕ

pub record PendingGuardianRemoval : Type 0 where
  pub target_guardian : Address
  pub initiated_at : ℕ
  pub votes_for : List Address
  pub votes_against : List Address

abbrev pub max_push_payout_winners : ℕ
max_push_payout_winners = 50

abbrev pub max_outcomes_per_market : ℕ
max_outcomes_per_market = 100

-- `u32::MAX`.
abbrev pub cancel_outcome_index : ℕ
cancel_outcome_index = 4294967295

abbrev pub timelock_duration : ℕ
timelock_duration = 172800

abbrev pub timelock_min_seconds : ℕ
timelock_min_seconds = 86400

abbrev pub timelock_max_seconds : ℕ
timelock_max_seconds = 604800

abbrev pub majority_threshold_percent : ℕ
majority_threshold_percent = 51

abbrev pub upgrade_cooldown_duration : ℕ
upgrade_cooldown_duration = 604800

abbrev pub guardian_removal_vote_window : ℕ
guardian_removal_vote_window = 604800

abbrev pub ttl_low_threshold : ℕ
ttl_low_threshold = 17280

abbrev pub ttl_high_threshold : ℕ
ttl_high_threshold = 518400

abbrev pub prune_grace_period : ℕ
prune_grace_period = 2592000

abbrev pub bet_ttl_low_threshold : ℕ
bet_ttl_low_threshold = 34560

abbrev pub bet_ttl_high_threshold : ℕ
bet_ttl_high_threshold = 1555200
