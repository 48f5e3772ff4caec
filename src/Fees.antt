-- ===== src/Fees.antt =====
-- contracts/predict-iq/src/modules/fees.rs: the fee of a bet, the fees collected, and the rewards
-- of referrers.
pub mod Ledgers
use predict_iq.Types.Error.{overflow, arithmetic_overflow, insufficient_balance}
use predict_iq.Admin.{require_admin}
use predict_iq.Env.{
  Host, bump_ttl, M, emit, client_transfer, Entry, gets, modify, pure, referral_distribution, ◌>>=◌,
  ◌>>◌, require_auth, ok_or, fail_if, current_contract, referral_reward, fee_collected,
  fees_withdrawn, referral_claimed,
}
use predict_iq.Types.{
  MarketTier, basic, Address, pro, institutional, ttl_low_threshold, ttl_high_threshold,
}
use predict_iq.Prelude.{
  ℕ, ℤ, pos, Bool, true, false, Option, none, some, get_or, checked_add, checked_mul, quot,
  saturating_sub, eqb_ℤ, put, put₂, is_some, if◌then◌else◌, ◌*◌,
}

abbrev pub bps_denominator : ℕ
bps_denominator = 10000

abbrev pub tier_denominator_bps : ℕ
tier_denominator_bps = 10000

unfoldable pub tier_multiplier_bps : MarketTier → ℤ
tier_multiplier_bps basic = pos tier_denominator_bps
tier_multiplier_bps pro = pos 7500
tier_multiplier_bps institutional = pos 5000

-- `.and_then(|n| n.checked_mul(by))`.
abbrev pub and_mul : Option ℤ → ℤ → Option ℤ
and_mul none by = none
and_mul (some n) by = checked_mul n by

module _ {host : Host} where
  unfoldable pub bump_config_ttl : Entry → M host (Unit {0})
  unfolding bump_ttl
  bump_config_ttl key = bump_ttl key ttl_low_threshold ttl_high_threshold

  unfoldable pub get_base_fee : M host ℤ
  get_base_fee = gets λ e. get_or e.fees.base_fee (pos 0)

  unfoldable pub set_base_fee : ℤ → M host (Unit {0})
  unfolding require_admin bump_config_ttl
  set_base_fee amount = do
    require_admin
    modify λ e. record e { fees = record e.fees { base_fee = some amount } }
    bump_config_ttl Entry.base_fee

  unfoldable pub set_fee_admin : Address → M host (Unit {0})
  unfolding require_admin bump_config_ttl
  set_fee_admin a = do
    require_admin
    modify λ e. record e { fees = record e.fees { fee_admin = some a } }
    bump_config_ttl Entry.fee_admin

  unfoldable pub get_fee_admin : M host (Option Address)
  get_fee_admin = gets λ e. e.fees.fee_admin

  unfoldable pub require_fee_withdraw_auth : M host (Unit {0})
  unfolding get_fee_admin require_admin
  require_fee_withdraw_auth = do
    stored ← get_fee_admin
    elim stored [ none ↦ require_admin | some a ↦ require_auth a ]

  unfoldable pub calculate_fee : ℤ → M host ℤ
  unfolding get_base_fee
  calculate_fee amount = do
    base_fee ← get_base_fee
    numerator ← ok_or (checked_mul amount base_fee) overflow
    pure (quot numerator bps_denominator)

  unfoldable pub calculate_tiered_fee_with_base : ℤ → ℤ → MarketTier → M host ℤ
  calculate_tiered_fee_with_base amount base_fee_bps tier = do
    numerator ←
        ok_or (and_mul (checked_mul amount base_fee_bps) (tier_multiplier_bps tier)) overflow
    pure (quot numerator (bps_denominator * tier_denominator_bps))

  unfoldable pub calculate_tiered_fee : ℤ → MarketTier → M host ℤ
  unfolding get_base_fee calculate_tiered_fee_with_base
  calculate_tiered_fee amount tier = do
    base_fee ← get_base_fee
    calculate_tiered_fee_with_base amount base_fee tier

  unfoldable pub collect_fee : Address → ℤ → M host (Unit {0})
  unfolding emit
  collect_fee token amount = do
    total ← gets (λ e. get_or (e.fees.fee_revenue token) (pos 0))
    new_total ← ok_or (checked_add total amount) arithmetic_overflow
    modify λ e. record e {
      fees = record e.fees { fee_revenue = put e.fees.fee_revenue token (some new_total) };
    }
    overall ← gets (λ e. get_or e.fees.total_fees_collected (pos 0))
    new_overall ← ok_or (checked_add overall amount) arithmetic_overflow
    modify λ e. record e { fees = record e.fees { total_fees_collected = some new_overall } }
    contract_addr ← current_contract
    emit (fee_collected 0 token contract_addr amount)

  unfoldable pub get_revenue : Address → M host ℤ
  get_revenue token = gets λ e. get_or (e.fees.fee_revenue token) (pos 0)

  unfoldable pub withdraw_protocol_fees : Address → Address → M host ℤ
  unfolding require_fee_withdraw_auth client_transfer emit
  withdraw_protocol_fees token recipient = do
    require_fee_withdraw_auth
    balance ← gets (λ e. get_or (e.fees.fee_revenue token) (pos 0))
    fail_if (eqb_ℤ balance (pos 0)) insufficient_balance
    modify λ e. record e {
      fees = record e.fees { fee_revenue = put e.fees.fee_revenue token (some (pos 0)) };
    }
    contract_addr ← current_contract
    client_transfer token contract_addr recipient balance
    emit (fees_withdrawn recipient token balance)
    pure balance

  unfoldable pub set_referrer_balance : Address → Address → ℤ → M host (Unit {0})
  set_referrer_balance referrer token balance = modify λ e. record e {
    fees = record e.fees {
      referrer_balance = put₂ e.fees.referrer_balance referrer token (some balance);
    };
  }

  unfoldable pub add_referral_reward : Address → Address → ℤ → M host (Unit {0})
  unfolding set_referrer_balance emit
  add_referral_reward referrer token fee_amount = do
    scaled ← ok_or (checked_mul fee_amount (pos 10)) overflow
    let reward = quot scaled 100
    balance ← gets (λ e. get_or (e.fees.referrer_balance referrer token) (pos 0))
    new_balance ← ok_or (checked_add balance reward) overflow
    set_referrer_balance referrer token new_balance
    emit (referral_reward 0 referrer reward)

  -- The part of `reverse_referral_reward` behind its first return.
  unfoldable pub reverse_reward : Address → Address → ℤ → M host (Unit {0})
  unfolding set_referrer_balance
  reverse_reward referrer token reward = do
    balance ← gets (λ e. get_or (e.fees.referrer_balance referrer token) (pos 0))
    set_referrer_balance referrer token (saturating_sub balance reward)

  unfoldable pub reverse_referral_reward : Address → Address → ℤ → M host (Unit {0})
  unfolding reverse_reward
  reverse_referral_reward referrer token fee_amount = elim (checked_mul fee_amount (pos 10)) [
    | none ↦ pure tt
    | some scaled ↦
        if eqb_ℤ (quot scaled 100) (pos 0)
        then pure tt
        else reverse_reward referrer token (quot scaled 100)
  ]

  unfoldable pub reverse_fee : Address → ℤ → M host (Unit {0})
  reverse_fee token amount = if eqb_ℤ amount (pos 0) then pure tt else do
    total ← gets (λ e. get_or (e.fees.fee_revenue token) (pos 0))
    modify λ e. record e {
      fees = record e.fees {
        fee_revenue = put e.fees.fee_revenue token (some (saturating_sub total amount));
      };
    }
    overall ← gets (λ e. get_or e.fees.total_fees_collected (pos 0))
    modify λ e. record e {
      fees = record e.fees { total_fees_collected = some (saturating_sub overall amount) };
    }

  unfoldable pub claim_referral_rewards : Address → Address → M host ℤ
  unfolding set_referrer_balance client_transfer emit
  claim_referral_rewards address token = do
    require_auth address
    balance ← gets (λ e. get_or (e.fees.referrer_balance address token) (pos 0))
    fail_if (eqb_ℤ balance (pos 0)) insufficient_balance
    set_referrer_balance address token (pos 0)
    contract_addr ← current_contract
    client_transfer token contract_addr address balance
    emit (referral_claimed 0 address balance)
    pure balance

  unfoldable pub distribute_referral_fees : ℕ → Address → M host (Unit {0})
  unfolding emit
  distribute_referral_fees market_id token = emit (referral_distribution market_id token)
