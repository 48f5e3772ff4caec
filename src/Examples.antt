-- ===== src/Examples.antt =====
-- The theorems applied to one environment: a market with two outcomes, and a token that every
-- transfer goes through.
pub mod Markets
pub mod Migration
pub mod Redis
pub mod Api
pub mod Mail
pub mod Chain
pub mod Tables
use predict_iq.Monitoring.Trip.{track_error-maybe_recover}
use predict_iq.Disputes.Change.{resolve_market_ok}
use predict_iq.Governance.Upgrade.{execute_upgrade_ok}
use predict_iq.Governance.Guardians.{
  execute_guardian_removal-is_guardian, execute_guardian_removal_ok,
}
use predict_iq.Voting.Cast.{cast_vote_blocked, cast_vote_ok}
use predict_iq.Disputes.Window.{file_dispute_ok}
use predict_iq.Oracles.Staleness.{validate_oracle_staleness_ok}
use predict_iq.Resolution.Bounds.{
  IsBounded, set_dispute_window-IsBounded, set_dispute_window_bounds-IsBounded,
  resolve_market_dispute_window-none,
}
use predict_iq.Resolution.Windows.{
  set_dispute_window, set_dispute_window_bounds, resolve_market_dispute_window,
}
use predict_iq.Governance.{
  execute_guardian_removal, execute_upgrade, decide_upgrade, is_majority_met, install_upgrade,
}
use predict_iq.Monitoring.{track_error}
use predict_iq.CircuitBreaker.{require_closed, maybe_recover, half_open_max_ops, cooldown_seconds}
use predict_iq.CircuitBreaker.Recovery.{accepted, succeeding, accepted-succeeding, IsQuiet}
use predict_iq.Voting.Unlock.{unlock_tokens_ok}
use predict_iq.Voting.{
  cast_vote, unlock_tokens, check_vote, cast_accepted, retract, cast_checked, vote_weight,
  weigh_vote, get_token_decimals, normalize, record_vote, pow_ten,
}
use predict_iq.Markets.Index.{updated}
use predict_iq.Disputes.{file_dispute, resolve_market}
use predict_iq.Resolution.Timing.{
  pending_market, resolved_market, attempt_oracle_resolution_ok, finalize_pending_ok,
}
use predict_iq.Oracles.{validate_oracle_staleness, effective_max_staleness, check_oracles}
use predict_iq.Resolution.{attempt_oracle_resolution, finalize_pending}
use predict_iq.Admin.Transfer.{accept_admin_ok}
use predict_iq.Admin.{accept_admin}
use predict_iq.Bets.Guards.{place_bet_ok}
use predict_iq.Markets.{update_market, bump_market_ttl}
use predict_iq.Sac.{check_token_not_frozen, safe_transfer}
use predict_iq.Fees.Ledgers.{withdraw_protocol_fees_ok, claim_referral_rewards_ok}
use predict_iq.Calls.{Calls-IsSound, later, start, Call, Call-final}
use predict_iq.Markets.Change.{created, create, update}
use predict_iq.Fees.{
  withdraw_protocol_fees, calculate_tiered_fee, collect_fee, tier_multiplier_bps,
  claim_referral_rewards,
}
use predict_iq.Markets.Change.Sound.{IsSound, Change-IsSound}
use predict_iq.Bets.{
  place_bet, check_bet, place_checked, place_charged, credit_bet, credit_net, get_bet, raise_bet,
  raise_stakes, count_bettor, store_bet, write_bet, bump_bet_ttl, reward_referrer,
}
use predict_iq.Types.{
  Market, active, pull, MarketTier, pending_resolution, disputed, cancelled, half_open, is_open,
  PendingGuardianRemoval, closed,
}
use predict_iq.Env.{Host, Env, MarketStore, ok, at_time}
use predict_iq.Prelude.{
  ◌≡◌, refl, ℕ, pos, some, none, true, false, [], ◌∷◌, ◌≢◌, arith, checked, is_i128, ◌+ℤ◌, ◌-ℤ◌,
  ◌*ℤ◌, quot, ◌≤◌, ◌<◌, length, ◌⊎◌, ◌+◌, saturate,
}

abbrev pub test_host : Host
test_host = record {
  Tokens = Unit {0};
  token_balance = λ t token account. pos 1000;
  token_transfer = λ t token from to amount. some tt;
  token_frozen = λ t token account. some false;
  token_authorized = λ t token account. some true;
  token_balance_at = λ t token account ledger. none;
  token_decimals = λ t token. some 7;
  get_price = λ t a feed. none;
}

abbrev pub test_market : Market
test_market = record {
  id = 1;
  creator = 7;
  description = "rain";
  options = "yes" ∷ "no" ∷ [];
  status = active;
  deadline = 100;
  resolution_deadline = 90000;
  winning_outcome = none;
  oracle_config = record {
    oracle_address = 8;
    feed_id = [];
    min_responses = none;
    max_staleness_seconds = 60;
    max_confidence_bps = 100;
    strike_price = none;
  };
  total_staked = pos 0;
  payout_mode = pull;
  tier = MarketTier.basic;
  creation_deposit = pos 0;
  parent_id = 0;
  parent_outcome_idx = 0;
  resolved_at = none;
  token_address = 5;
  outcome_stakes = [];
  pending_resolution_timestamp = none;
  dispute_snapshot_ledger = none;
  dispute_timestamp = none;
  winner_counts = [];
  total_claimed = pos 0;
}

abbrev pub empty_markets : MarketStore
empty_markets = record {
  market = λ i. none;
  market_count = none;
  market_dispute_window = λ i. none;
  creator_reputation = λ a. none;
  status_index = λ i s. false;
}

abbrev pub test_markets : MarketStore
test_markets = created empty_markets test_market 3600

-- Its accounts: 1 is the admin, 2 a bettor, 5 the token, 9 the contract.
abbrev pub test_env : Env test_host
test_env = record {
  ledger = record { timestamp = 10; sequence = 1; authorized = λ a. true; current_contract = 9 };
  tokens = tt;
  admins = record {
    admin = some 1;
    pending_admin = some 3;
    guardian_account = some 4;
    governance_token = some 5;
  };
  breaker = record {
    initial_state = none;
    state = none;
    opened_at = none;
    half_open_ops = none;
    threshold = none;
  };
  monitor = record { error_count = none; last_observation = none };
  fees = record {
    base_fee = some (pos 100);
    fee_admin = none;
    total_fees_collected = none;
    fee_revenue = λ a. some (pos 40);
    referrer_balance = λ a t. some (pos 6);
  };
  markets = test_markets;
  creation = record { creation_deposit = none; creation_fee = none; protocol_treasury = none };
  windows = record {
    default_dispute_window = none;
    min_dispute_window = none;
    max_dispute_window = none;
    max_push_winners = none;
  };
  bets = record { bet = λ i a o. none; claimed = λ i a. false; bet_referrer = λ i a o. none };
  votes = record {
    vote = λ i a. none;
    vote_tally = λ i o. none;
    locked_tokens = λ i a. none;
    locked_balance = λ i a. none;
    dispute_voters = λ i. none;
  };
  oracles = record {
    result = λ i o. none;
    last_update = λ i o. none;
    oracle_responses = λ i. none;
  };
  governance = record {
    guardian_set =
        some (
          record { address = 4; voting_power = 1 } ∷ record { address = 6; voting_power = 1 } ∷ []);
    pending_upgrade = none;
    pending_upgrade_passed_at = none;
    timelock = none;
    pending_guardian_removal =
        some (record {
          target_guardian = 6;
          initiated_at = 0;
          votes_for = 4 ∷ [];
          votes_against = [];
        });
    pending_guardian_removal_passed_at = some 5;
    upgrade_rejected_at = λ h. none;
    pending_emergency_pause = none;
    installed_wasm = none;
  };
  archive = record { archived_market_count = none; archived_market = λ i. none };
  effects = [];
}

-- The environment after a bet of 1000 on outcome 1.
abbrev pub bet_env : Env test_host
bet_env = (place_bet 2 1 1 (pos 1000) 5 none test_env).1

bet_accepted : place_bet 2 1 1 (pos 1000) 5 none test_env ≡ (ok tt, bet_env)
unfolding place_bet check_bet place_checked check_token_not_frozen safe_transfer
    calculate_tiered_fee place_charged credit_bet credit_net get_bet raise_bet raise_stakes
    count_bettor store_bet write_bet bump_bet_ttl update_market bump_market_ttl reward_referrer
    collect_fee checked is_i128 ◌+ℤ◌ ◌-ℤ◌ ◌*ℤ◌ quot tier_multiplier_bps
bet_accepted = refl

empty-IsSound : IsSound empty_markets
empty-IsSound = record {
  keyed = λ i m p. ground arith;
  counted = λ i m p. ground arith;
  balanced = λ i m p. ground arith;
  unvoted = λ i m p. ground arith;
  indexed = λ i m t p. ground arith;
  unindexed = λ i t p. refl;
}

test-IsSound : IsSound test_markets
test-IsSound =
    Change-IsSound
      (create test_market 3600 refl refl refl (record { sorted = tt; conserved = refl }) refl)
      empty-IsSound

Calls-IsSound_example : IsSound bet_env.markets
Calls-IsSound_example =
    Calls-IsSound test_env bet_env
      (later test_env bet_env 10 start (Call.place_bet 2 1 1 (pos 1000) 5 none bet_accepted))
      test-IsSound

place_bet_ok_example : (m : Market) × (test_markets.market 1 ≡ some m) × (m.status ≡ active)
place_bet_ok_example =
    let (m, found, open', _, _, _, _, _, _, _) =
      place_bet_ok 2 1 1 (pos 1000) 5 none test_env bet_env bet_accepted in
    (m, found, open')

abbrev pub paid_env : Env test_host
paid_env = (withdraw_protocol_fees 5 1 test_env).1

withdrawn : withdraw_protocol_fees 5 1 test_env ≡ (ok (pos 40), paid_env)
unfolding withdraw_protocol_fees
withdrawn = refl

withdraw_protocol_fees_ok_example : paid_env.markets ≡ test_env.markets
withdraw_protocol_fees_ok_example =
    let (_, _, _, _, same) = withdraw_protocol_fees_ok 5 1 (pos 40) test_env paid_env withdrawn in
    same

abbrev pub claimed_env : Env test_host
claimed_env = (claim_referral_rewards 2 5 test_env).1

rewards_claimed : claim_referral_rewards 2 5 test_env ≡ (ok (pos 6), claimed_env)
unfolding claim_referral_rewards
rewards_claimed = refl

abbrev pub accepted_env : Env test_host
accepted_env = (accept_admin 3 test_env).1

admin_accepted : accept_admin 3 test_env ≡ (ok tt, accepted_env)
unfolding accept_admin
admin_accepted = refl

accept_admin_ok_example :
    (test_env.admins.pending_admin ≡ some 3)
    × (test_env.ledger.authorized 3 ≡ true)
    × (test_env.admins.guardian_account ≢ some 3)
    × (accepted_env.admins ≡ record test_env.admins { admin = some 3; pending_admin = none })
accept_admin_ok_example = accept_admin_ok 3 test_env accepted_env admin_accepted

-- The market in the other states that it passes through.
abbrev pub with_market : Market → ℕ → Env test_host
with_market m t = record (at_time t test_env) {
  markets = created empty_markets m 3600;
  oracles = record {
    result = λ i o. some 1;
    last_update = λ i o. some t;
    oracle_responses = λ i. none;
  };
}

abbrev pub late_env : Env test_host
late_env = with_market test_market 90000

abbrev pub answered_env : Env test_host
answered_env = (attempt_oracle_resolution 1 late_env).1

answered : attempt_oracle_resolution 1 late_env ≡ (ok tt, answered_env)
unfolding attempt_oracle_resolution validate_oracle_staleness check_oracles effective_max_staleness
    update_market
answered = refl

checked' : validate_oracle_staleness 1 test_market.oracle_config late_env ≡ (ok tt, late_env)
unfolding validate_oracle_staleness check_oracles effective_max_staleness
checked' = refl

abbrev pub pending_env : Env test_host
pending_env = with_market (pending_market test_market 1 90000) 93599

abbrev pub filed_env : Env test_host
filed_env = (file_dispute 2 1 pending_env).1

filed : file_dispute 2 1 pending_env ≡ (ok tt, filed_env)
unfolding file_dispute update_market
filed = refl

file_dispute_ok_example :
    (m : Market) × (pending_env.markets.market 1 ≡ some m) × (m.status ≡ pending_resolution)
file_dispute_ok_example =
    let (m, _, found, pending', _, _, _) = file_dispute_ok 2 1 pending_env filed_env filed in
    (m, found, pending')

abbrev pub final_env : Env test_host
final_env = (finalize_pending 1 (pending_market test_market 1 90000) (at_time 93600 pending_env)).1

finalized :
    finalize_pending 1 (pending_market test_market 1 90000) (at_time 93600 pending_env)
    ≡ (ok tt, final_env)
unfolding finalize_pending update_market
finalized = refl

finalize_pending_ok_example :
    (t outcome : ℕ) × (final_env.markets
      ≡ updated pending_env.markets
          (resolved_market (pending_market test_market 1 90000) outcome 93600))
finalize_pending_ok_example =
    let (t, outcome, _, _, _, shape) =
      finalize_pending_ok 1 (pending_market test_market 1 90000) (at_time 93600 pending_env)
        final_env finalized in
    (t, outcome, shape)

abbrev pub ruled_env : Env test_host
ruled_env = (resolve_market 1 0 pending_env).1

ruled : resolve_market 1 0 pending_env ≡ (ok tt, ruled_env)
unfolding resolve_market update_market
ruled = refl

cast_vote_blocked_example : cast_vote 2 1 0 (pos 5) test_env ≢ (ok tt, test_env)
cast_vote_blocked_example = cast_vote_blocked 2 1 0 (pos 5) test_env test_env test-IsSound

abbrev pub disputed_env : Env test_host
disputed_env =
    with_market (record test_market { status = disputed; dispute_snapshot_ledger = some 1 }) 20

abbrev pub voted_env : Env test_host
voted_env = (cast_vote 2 1 0 (pos 5) disputed_env).1

voted : cast_vote 2 1 0 (pos 5) disputed_env ≡ (ok tt, voted_env)
unfolding cast_vote check_vote cast_accepted retract cast_checked vote_weight weigh_vote
    get_token_decimals normalize record_vote is_i128 ◌+ℤ◌ ◌*ℤ◌ saturate pow_ten
voted = refl

-- The voter's tokens stay locked until the deadline of the market, which is cancelled meanwhile.
abbrev pub locked_env : Env test_host
locked_env = record (with_market (record test_market { status = cancelled }) 90000) {
  votes = voted_env.votes;
}

abbrev pub unlocked_env : Env test_host
unlocked_env = (unlock_tokens 2 1 locked_env).1

unlocked : unlock_tokens 2 1 locked_env ≡ (ok tt, unlocked_env)
unfolding unlock_tokens cast_vote check_vote cast_accepted retract cast_checked vote_weight
    weigh_vote get_token_decimals normalize record_vote is_i128 ◌+ℤ◌ ◌*ℤ◌ saturate pow_ten
unlocked = refl

abbrev pub half_open_env : Env test_host
half_open_env = record test_env {
  breaker = record test_env.breaker { state = some half_open; half_open_ops = some 3 };
}

file_dispute-IsQuiet : (caller id : ℕ) → IsQuiet {host = test_host} (file_dispute caller id)
unfolding file_dispute update_market
file_dispute-IsQuiet caller id e e' h = ground arith

-- A half-open breaker with three probes used, and a market pending resolution.
abbrev pub probing_env : Env test_host
probing_env = record pending_env {
  breaker = record test_env.breaker { state = some half_open; half_open_ops = some 3 };
}

accepted-succeeding_example :
    accepted ((93599, file_dispute 2 1) ∷ (93599, file_dispute 2 1) ∷ []) probing_env
    ≡ succeeding 3 ((93599, file_dispute 2 1) ∷ (93599, file_dispute 2 1) ∷ []) probing_env
accepted-succeeding_example =
    let (same, _, _, _) =
      accepted-succeeding ((93599, file_dispute 2 1) ∷ (93599, file_dispute 2 1) ∷ []) 3 probing_env
        (file_dispute-IsQuiet 2 1, (file_dispute-IsQuiet 2 1, tt)) refl refl (omega arith) in
    same

abbrev pub opened_env : Env test_host
opened_env = record (at_time 21610 test_env) {
  breaker = record test_env.breaker { state = some is_open; opened_at = some 10 };
}

let_through : require_closed opened_env ≡ (ok tt, (require_closed opened_env).1)
unfolding require_closed
let_through = refl

abbrev pub failing_env : Env test_host
failing_env = record (at_time 30000 test_env) {
  monitor = record { error_count = some 10; last_observation = none };
}

abbrev pub guarded_env : Env test_host
guarded_env = at_time 172805 test_env

removed : execute_guardian_removal guarded_env ≡ (ok tt, (execute_guardian_removal guarded_env).1)
unfolding execute_guardian_removal
removed = refl

abbrev pub upgrading_env : Env test_host
upgrading_env = record guarded_env {
  governance = record guarded_env.governance {
    pending_upgrade =
        some
          (record { wasm_hash = 77; initiated_at = 0; votes_for = 4 ∷ 6 ∷ []; votes_against = [] });
    pending_upgrade_passed_at = some 5;
  };
}

upgraded : execute_upgrade upgrading_env ≡ (ok 77, (execute_upgrade upgrading_env).1)
unfolding execute_upgrade decide_upgrade is_majority_met install_upgrade
upgraded = refl

execute_upgrade_ok_example : (execute_upgrade upgrading_env).1.governance.installed_wasm ≡ some 77
execute_upgrade_ok_example =
    let (_, _, _, _, _, installed, _) =
      execute_upgrade_ok 77 upgrading_env (execute_upgrade upgrading_env).1 upgraded in
    installed

window_set : set_dispute_window 7200 test_env ≡ (ok tt, (set_dispute_window 7200 test_env).1)
unfolding set_dispute_window
window_set = refl

bounds_set :
    set_dispute_window_bounds 3600 300000 test_env
    ≡ (ok tt, (set_dispute_window_bounds 3600 300000 test_env).1)
unfolding set_dispute_window_bounds
bounds_set = refl

abbrev pub resolved_markets : MarketStore
resolved_markets = updated test_markets (resolved_market test_market 1 10)

resolved-IsSound : IsSound resolved_markets
resolved-IsSound =
    Change-IsSound
      (update 1 test_market (resolved_market test_market 1 10) refl
        (record {
          status_step = refl;
          frame = refl;
          final = λ q. ground arith;
          balance = λ v. record { sorted = v.sorted; conserved = v.conserved };
        })
        refl)
      test-IsSound

abbrev pub resolved_env : Env test_host
resolved_env = record test_env { markets = resolved_markets }

fees_paid :
    withdraw_protocol_fees 5 1 resolved_env
    ≡ (ok (pos 40), (withdraw_protocol_fees 5 1 resolved_env).1)
unfolding withdraw_protocol_fees
fees_paid = refl

Call-final_example :
    ((m' : Market) × ((withdraw_protocol_fees 5 1 resolved_env).1.markets.market 1 ≡ some m')
      × (m' ≡ record (resolved_market test_market 1 10) { creation_deposit = m'.creation_deposit }))
    ⊎ ((withdraw_protocol_fees 5 1 resolved_env).1.markets.market 1 ≡ none)
Call-final_example =
    Call-final resolved_env (withdraw_protocol_fees 5 1 resolved_env).1 1
      (resolved_market test_market 1 10) (Call.withdraw_protocol_fees 5 1 (pos 40) fees_paid)
      resolved-IsSound refl refl
