-- ===== src/Bets.antt =====
-- contracts/predict-iq/src/modules/bets.rs: the placing of bets. `claim_winnings` and
-- `withdraw_refund`, which lib.rs calls, are not in the repository.
pub mod Stakes
pub mod Guards
use predict_iq.Types.Error.{
  arithmetic_overflow, invalid_amount, invalid_referrer, market_closed, resolution_deadline_passed,
  invalid_outcome, invalid_bet_amount,
}
use predict_iq.Sac.{check_token_not_frozen, safe_transfer}
use predict_iq.Fees.{add_referral_reward, collect_fee, calculate_tiered_fee}
use predict_iq.Markets.{
  get_outcome_stake, increment_outcome_bet_count, update_market, find_market, set_outcome_stake,
  bump_market_ttl, validate_parent_market,
}
use predict_iq.CircuitBreaker.{require_not_paused_for_high_risk}
use predict_iq.Env.{
  Host, bump_ttl, M, Entry, gets, modify, ◌>>=◌, ◌>>◌, pure, ok_or, when, i128_or_panic,
  require_auth, emit, fail_if, current_contract, bet_placed, now,
}
use predict_iq.Types.{
  Address, Bet, Market, bet_ttl_low_threshold, bet_ttl_high_threshold, eqb_status, active,
}
use predict_iq.Prelude.{
  ℕ, ℤ, pos, Bool, true, false, Option, none, some, List, ◌==◌, put₃, if◌then◌else◌, checked_add,
  ltb_ℤ, ◌-ℤ◌, get_or, leb_ℤ, eqb_ℤ, not, ltb, leb, length,
}

-- `Some(ref r)` with `r == &bettor`.
abbrev pub refers_self : Option Address → Address → Bool
refers_self none bettor = false
refers_self (some r) bettor = r == bettor

abbrev pub empty_bet : ℕ → Address → ℕ → Bet
empty_bet market_id bettor outcome = record {
  market_id = market_id;
  bettor = bettor;
  outcome = outcome;
  amount = pos 0;
  fee_paid = pos 0;
}

module _ {host : Host} where
  unfoldable pub bump_bet_ttl : Entry → M host (Unit {0})
  unfolding bump_ttl
  bump_bet_ttl key = bump_ttl key bet_ttl_low_threshold bet_ttl_high_threshold

  unfoldable pub get_bet : ℕ → Address → ℕ → M host (Option Bet)
  get_bet market_id bettor outcome = gets λ e. e.bets.bet market_id bettor outcome

  unfoldable pub write_bet : ℕ → Address → ℕ → Option Bet → M host (Unit {0})
  write_bet market_id bettor outcome bet =
      modify λ e. record e {
        bets = record e.bets { bet = put₃ e.bets.bet market_id bettor outcome bet };
      }

  unfoldable pub get_bet_referrer : ℕ → Address → ℕ → M host (Option Address)
  get_bet_referrer market_id bettor outcome = gets λ e. e.bets.bet_referrer market_id bettor outcome

  unfoldable pub write_referrer : ℕ → Address → ℕ → Option Address → M host (Unit {0})
  write_referrer market_id bettor outcome referrer = modify λ e. record e {
    bets = record e.bets {
      bet_referrer = put₃ e.bets.bet_referrer market_id bettor outcome referrer;
    };
  }

  unfoldable pub remove_bet_referrer : ℕ → Address → ℕ → M host (Unit {0})
  unfolding write_referrer
  remove_bet_referrer market_id bettor outcome = write_referrer market_id bettor outcome none

  -- The checks of `place_bet` up to the token's; the market of the bet.
  unfoldable pub check_bet : Address → ℕ → ℕ → ℤ → Address → Option Address → M host Market
  unfolding require_not_paused_for_high_risk find_market validate_parent_market
  check_bet bettor market_id outcome amount token_address referrer = do
    require_auth bettor
    require_not_paused_for_high_risk
    fail_if (leb_ℤ amount (pos 0)) invalid_amount
    fail_if (refers_self referrer bettor) invalid_referrer
    market ← find_market market_id
    fail_if (not (eqb_status market.status active)) market_closed
    when (ltb 0 market.parent_id)
        (validate_parent_market market.parent_id market.parent_outcome_idx)
    current_time ← now
    fail_if (leb market.deadline current_time) market_closed
    fail_if (leb market.resolution_deadline current_time) resolution_deadline_passed
    fail_if (leb (length market.options) outcome) invalid_outcome
    fail_if (not (token_address == market.token_address)) invalid_bet_amount
    pure market

  -- The bet record after a stake of `net_amount` and a fee.
  unfoldable pub raise_bet : Bet → ℕ → ℤ → ℤ → M host Bet
  raise_bet existing_bet outcome net_amount fee = do
    amount ← ok_or (checked_add existing_bet.amount net_amount) arithmetic_overflow
    fee_paid ← ok_or (checked_add existing_bet.fee_paid fee) arithmetic_overflow
    pure (record existing_bet { amount = amount; fee_paid = fee_paid; outcome = outcome })

  -- The market after it.
  unfoldable pub raise_stakes : Market → ℕ → ℤ → M host Market
  unfolding get_outcome_stake set_outcome_stake
  raise_stakes market outcome net_amount = do
    total_staked ← ok_or (checked_add market.total_staked net_amount) arithmetic_overflow
    outcome_stake ←
        ok_or (checked_add (get_outcome_stake market outcome) net_amount) arithmetic_overflow
    pure (set_outcome_stake (record market { total_staked = total_staked }) outcome outcome_stake)

  -- One more bettor, where the bet is the first one on the outcome.
  unfoldable pub count_bettor : Bool → Market → ℕ → M host Market
  unfolding increment_outcome_bet_count
  count_bettor is_new_bettor market outcome =
      if is_new_bettor then increment_outcome_bet_count market outcome else pure market

  unfoldable pub store_bet : ℕ → Address → ℕ → Bet → Market → M host (Unit {0})
  store_bet market_id bettor outcome bet market = do
    write_bet market_id bettor outcome (some bet)
    bump_bet_ttl (Entry.bet market_id bettor outcome)
    update_market market
    bump_market_ttl market_id

  unfoldable pub reward_referrer :
      ℕ → Address → ℕ → Address → ℤ → Option Address → M host (Unit {0})
  unfolding add_referral_reward write_referrer bump_bet_ttl
  reward_referrer market_id bettor outcome token_address fee none = pure tt
  reward_referrer market_id bettor outcome token_address fee (some r) = do
    when (ltb_ℤ (pos 0) fee) (add_referral_reward r token_address fee)
    write_referrer market_id bettor outcome (some r)
    bump_bet_ttl (Entry.bet_referrer market_id bettor outcome)

  -- The net amount is credited to the bet, the market and the outcome.
  unfoldable pub credit_net : Address → ℕ → ℕ → ℤ → ℤ → Market → M host (Unit {0})
  credit_net bettor market_id outcome net_amount fee market = do
    stored ← get_bet market_id bettor outcome
    bet ← raise_bet (get_or stored (empty_bet market_id bettor outcome)) outcome net_amount fee
    staked ← raise_stakes market outcome net_amount
    counted ← count_bettor (eqb_ℤ bet.amount net_amount) staked outcome
    store_bet market_id bettor outcome bet counted

  -- From the fee on.
  unfoldable pub credit_bet : Address → ℕ → ℕ → ℤ → Address → Market → ℤ → M host (Unit {0})
  credit_bet bettor market_id outcome amount token_address market fee = do
    net_amount ← i128_or_panic (amount -ℤ fee)
    when (ltb_ℤ (pos 0) fee) (collect_fee token_address fee)
    credit_net bettor market_id outcome net_amount fee market

  -- `place_bet` behind the calculation of the fee.
  unfoldable pub place_charged :
      Address → ℕ → ℕ → ℤ → Address → Option Address → Market → ℤ → M host (Unit {0})
  unfolding emit
  place_charged bettor market_id outcome amount token_address referrer market fee = do
    credit_bet bettor market_id outcome amount token_address market fee
    reward_referrer market_id bettor outcome token_address fee referrer
    emit (bet_placed market_id bettor outcome amount)

  -- `place_bet` behind its checks of the market.
  unfoldable pub place_checked :
      Address → ℕ → ℕ → ℤ → Address → Option Address → Market → M host (Unit {0})
  place_checked bettor market_id outcome amount token_address referrer market = do
    check_token_not_frozen token_address bettor
    contract_addr ← current_contract
    safe_transfer token_address bettor contract_addr amount
    fee ← calculate_tiered_fee amount market.tier
    place_charged bettor market_id outcome amount token_address referrer market fee

  unfoldable pub place_bet : Address → ℕ → ℕ → ℤ → Address → Option Address → M host (Unit {0})
  place_bet bettor market_id outcome amount token_address referrer = do
    market ← check_bet bettor market_id outcome amount token_address referrer
    place_checked bettor market_id outcome amount token_address referrer market
