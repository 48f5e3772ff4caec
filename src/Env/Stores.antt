-- ===== src/Env/Stores.antt =====
-- The storage of the contract, one record for each module that owns keys, and the environment.
-- `none` is a missing entry.
use predict_iq.Prelude.{ℕ, ℤ, Bool, Option, List, SortedMap}
use predict_iq.Types.{
  Address, Hash, MarketStatus, CreatorReputation, Market, Bet, Vote, LockedTokens,
  CircuitBreakerState, Guardian, PendingUpgrade, PendingGuardianRemoval,
}
use predict_iq.Env.External.{Host}
use predict_iq.Env.Effects.{Effect}

-- `e.ledger()`, the addresses that have authorized the call, and the contract's own address.
pub record Ledger : Type 0 where
  pub timestamp : ℕ
  pub sequence : ℕ
  pub authorized : Address → Bool
  pub current_contract : Address

pub record AdminStore : Type 0 where
  pub admin : Option Address
  pub pending_admin : Option Address
  pub guardian_account : Option Address
  pub governance_token : Option Address

-- `initial_state` is the persistent entry that `initialize` writes; `state` is the one in instance
-- storage that every other function uses.
pub record BreakerStore : Type 0 where
  pub initial_state : Option CircuitBreakerState
  pub state : Option CircuitBreakerState
  pub opened_at : Option ℕ
  pub half_open_ops : Option ℕ
  pub threshold : Option ℤ

pub record MonitorStore : Type 0 where
  pub error_count : Option ℕ
  pub last_observation : Option ℕ

pub record FeeStore : Type 0 where
  pub base_fee : Option ℤ
  pub fee_admin : Option Address
  pub total_fees_collected : Option ℤ
  pub fee_revenue : Address → Option ℤ
  pub referrer_balance : Address → Address → Option ℤ

pub record MarketStore : Type 0 where
  pub market : ℕ → Option Market
  pub market_count : Option ℕ
  pub market_dispute_window : ℕ → Option ℕ
  pub creator_reputation : Address → Option CreatorReputation
  pub status_index : ℕ → MarketStatus → Bool

pub record CreationStore : Type 0 where
  pub creation_deposit : Option ℤ
  pub creation_fee : Option ℤ
  pub protocol_treasury : Option Address

pub record WindowStore : Type 0 where
  pub default_dispute_window : Option ℕ
  pub min_dispute_window : Option ℕ
  pub max_dispute_window : Option ℕ
  pub max_push_winners : Option ℕ

pub record BetStore : Type 0 where
  pub bet : ℕ → Address → ℕ → Option Bet
  pub claimed : ℕ → Address → Bool
  pub bet_referrer : ℕ → Address → ℕ → Option Address

pub record VoteStore : Type 0 where
  pub vote : ℕ → Address → Option Vote
  pub vote_tally : ℕ → ℕ → Option ℤ
  pub locked_tokens : ℕ → Address → Option LockedTokens
  pub locked_balance : ℕ → Address → Option ℤ
  pub dispute_voters : ℕ → Option (List Address)

pub record OracleStore : Type 0 where
  pub result : ℕ → ℕ → Option ℕ
  pub last_update : ℕ → ℕ → Option ℕ
  pub oracle_responses : ℕ → Option (SortedMap ℕ)

pub record GovernanceStore : Type 0 where
  pub guardian_set : Option (List Guardian)
  pub pending_upgrade : Option PendingUpgrade
  pub pending_upgrade_passed_at : Option ℕ
  pub timelock : Option ℕ
  pub pending_guardian_removal : Option PendingGuardianRemoval
  pub pending_guardian_removal_passed_at : Option ℕ
  pub upgrade_rejected_at : Hash → Option ℕ
  pub pending_emergency_pause : Option (List Address)
  pub installed_wasm : Option Hash

pub record ArchiveStore : Type 0 where
  pub archived_market_count : Option ℕ
  pub archived_market : ℕ → Option ℕ

pub record Env (host : Host) : Type 0 where
  pub ledger : Ledger
  pub tokens : host.Tokens
  pub admins : AdminStore
  pub breaker : BreakerStore
  pub monitor : MonitorStore
  pub fees : FeeStore
  pub markets : MarketStore
  pub creation : CreationStore
  pub windows : WindowStore
  pub bets : BetStore
  pub votes : VoteStore
  pub oracles : OracleStore
  pub governance : GovernanceStore
  pub archive : ArchiveStore
  pub effects : List Effect
