-- ===== src/Env/Effects.antt =====
-- What a call publishes, one constructor for each emitter of modules/events.rs and for each event
-- that a module publishes itself, and the extensions of storage lifetimes.
use predict_iq.Prelude.{ℕ, ℤ, Bool, String}
use predict_iq.Types.{Address, Hash, MarketStatus, CircuitBreakerState}

pub data Event : Type 0 where
  market_created : ℕ → Address → String → ℕ → ℕ → Event
  bet_placed : ℕ → Address → ℕ → ℤ → Event
  dispute_filed : ℕ → Address → ℕ → Event
  resolution_finalized : ℕ → Address → ℕ → ℤ → Event
  vote_cast : ℕ → Address → ℕ → ℤ → Event
  circuit_breaker_triggered : Address → CircuitBreakerState → Event
  oracle_result_set : ℕ → ℕ → Address → ℕ → Event
  oracle_resolved : ℕ → Address → ℕ → Event
  market_finalized : ℕ → Address → ℕ → Event
  dispute_resolved : ℕ → Address → ℕ → Event
  market_state_changed : ℕ → MarketStatus → MarketStatus → ℕ → Event
  market_cancelled : ℕ → Address → Event
  market_cancelled_vote : ℕ → Address → Event
  referral_reward : ℕ → Address → ℤ → Event
  referral_claimed : ℕ → Address → ℤ → Event
  referral_distribution : ℕ → Address → Event
  fee_collected : ℕ → Address → Address → ℤ → Event
  circuit_breaker_threshold_set : ℤ → ℤ → Event
  monitoring_state_reset : Address → ℕ → ℕ → Event
  market_pruned : ℕ → ℕ → Event
  upgrade_initiated : Address → Hash → Event
  upgrade_voted : Address → Bool → Event
  upgrade_executed : Address → Hash → Event
  upgrade_rejected : Hash → Event
  breaker_auto : ℕ → Event
  transfer_failed : Address → Address → Address → ℤ → Event
  user_frozen : Address → Address → Event
  contract_frozen : Address → Event
  fees_withdrawn : Address → Address → ℤ → Event
  oracle_ok : ℕ → Address → ℕ → ℤ → ℕ → Event

-- The storage entries whose lifetime is extended.
pub data Entry : Type 0 where
  market market_dispute_window archived_market : ℕ → Entry
  archived_market_count : Entry
  bet bet_referrer : ℕ → Address → ℕ → Entry
  admin pending_admin guardian_account fee_admin base_fee max_push_payout_winners : Entry
  guardian_set pending_guardian_removal pending_guardian_removal_passed_at : Entry
  pending_upgrade pending_upgrade_passed_at timelock_duration pending_emergency_pause : Entry

pub data Effect : Type 0 where
  publish : Event → Effect
  extend_ttl : Entry → ℕ → ℕ → Effect
