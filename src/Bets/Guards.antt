-- ===== src/Bets/Guards.antt =====
-- What a bet that is accepted has passed (place_bet), and what it changes.
use predict_iq.Types.Error.{overflow}
use mathlib.Core.Option.{none}
use predict_iq.Markets.Index.{updated}
use predict_iq.Markets.Change.{Change, Edge, update}
use predict_iq.Bets.Stakes.{staked-IsBalanced, raised_bet, staked, counts_after, credit_bet_ok}
use predict_iq.Types.{Address, Bet, Market, MarketTier, active}
use predict_iq.Fees.{calculate_tiered_fee, tier_multiplier_bps}
use predict_iq.Sac.{safe_transfer, check_token_not_frozen}
use predict_iq.Bets.{
  check_bet, reward_referrer, place_charged, some, empty_bet, credit_bet, place_checked, place_bet,
}
use predict_iq.Env.{Host, Env, ok, err, >>=-eq-ok}
use predict_iq.Prelude.{
  ◌≡◌, refl, arith, ℕ, ℤ, checked, Option, some, quot, Option-cases, Bool-cases, get_or, ◌-ℤ◌, put₃,
  ◌*ℤ◌, inl, ◌<◌, ltb_ℤ, pos, inr, length, ◌<ℤ◌, if◌then◌else◌, is_i128, ◌&&◌, subst,
}

module _ {host : Host} where
  check_bet_ok :
      (bettor : Address) (id outcome : ℕ) (amount : ℤ) (token : Address) (r : Option Address)
      (m : Market) (e e' : Env host)
      → check_bet bettor id outcome amount token r e ≡ (ok m, e')
      → (e' ≡ e)
        × (e.markets.market id ≡ some m)
        × (m.status ≡ active)
        × (e.ledger.timestamp < m.deadline)
        × (e.ledger.timestamp < m.resolution_deadline)
        × (outcome < length m.options)
        × (pos 0 <ℤ amount)
        × (m.token_address ≡ token)
  unfolding check_bet
  check_bet_ok bettor id outcome amount token r m e e' h = ground arith

  reward_keeps :
      (id : ℕ) (bettor : Address) (outcome : ℕ) (token : Address) (fee : ℤ) (r : Option Address)
      (e e' : Env host)
      → reward_referrer id bettor outcome token fee r e ≡ (ok tt, e')
      → (e'.markets ≡ e.markets) × (e'.bets.bet ≡ e.bets.bet)
  unfolding reward_referrer
  reward_keeps id bettor outcome token fee none e e' h = ground arith
  reward_keeps id bettor outcome token fee (some x) e e' h = elim (Bool-cases (ltb_ℤ (pos 0) fee)) [
    | inl charged ↦ ground arith
    | inr free ↦ ground arith
  ]

  -- The bet record and the market after a bet of `amount` with a fee.
  abbrev pub bet_after : Env host → Address → ℕ → ℕ → ℤ → ℤ → Bet
  bet_after e bettor id outcome amount fee =
      raised_bet (get_or (e.bets.bet id bettor outcome) (empty_bet id bettor outcome)) outcome
        (amount -ℤ fee) fee

  abbrev pub market_after : Env host → Address → ℕ → ℕ → ℤ → ℤ → Market → Market
  market_after e bettor id outcome amount fee m =
      staked m outcome (amount -ℤ fee)
        (counts_after m (bet_after e bettor id outcome amount fee) outcome (amount -ℤ fee))

  place_charged_ok :
      (bettor : Address) (id outcome : ℕ) (amount : ℤ) (token : Address) (r : Option Address)
      (m : Market) (fee : ℤ) (e e' : Env host)
      → place_charged bettor id outcome amount token r m fee e ≡ (ok tt, e')
      → (e'.markets ≡ updated e.markets (market_after e bettor id outcome amount fee m))
        × (e'.bets.bet
            ≡ put₃ e.bets.bet id bettor outcome (some (bet_after e bettor id outcome amount fee)))
  unfolding place_charged
  place_charged_ok bettor id outcome amount token r m fee e e' h =
      let e1 = (credit_bet bettor id outcome amount token m fee e).1 in
      let e2 = (reward_referrer id bettor outcome token fee r e1).1 in
      ground (
        arith,
        credit_bet_ok bettor id outcome amount token m fee e e1,
        reward_keeps id bettor outcome token fee r e1 e2,
      )

  -- The fee that `calculate_tiered_fee` computes, where nothing overflows.
  abbrev pub fee_of : Env host → ℤ → MarketTier → ℤ
  fee_of e amount tier =
      quot (amount *ℤ get_or e.fees.base_fee (pos 0) *ℤ tier_multiplier_bps tier) 100000000

  transfer_keeps :
      (token from to : Address) (amount : ℤ) (e e' : Env host)
      → safe_transfer token from to amount e ≡ (ok tt, e')
      → (e'.markets ≡ e.markets) × (e'.bets ≡ e.bets) × (e'.fees ≡ e.fees)
  unfolding safe_transfer
  transfer_keeps token from to amount e e' h =
      elim (Option-cases (host.token_transfer e.tokens token from to amount)) [
        | inl failed ↦ ground arith
        | inr (t, moved) ↦ ground arith
      ]

  frozen_keeps :
      (token user : Address) (e e' : Env host)
      → check_token_not_frozen token user e ≡ (ok tt, e')
      → e' ≡ e
  unfolding check_token_not_frozen
  frozen_keeps token user e e' h = elim (Option-cases (host.token_frozen e.tokens token user)) [
    | inl failed ↦ ground arith
    | inr (b, answered) ↦ elim (Bool-cases b) [ inl yes' ↦ ground arith | inr no' ↦ ground arith ]
  ]

  tiered_fee_lem :
      (amount : ℤ) (tier : MarketTier) (e : Env host)
      → let product = amount *ℤ get_or e.fees.base_fee (pos 0) in
        calculate_tiered_fee amount tier e ≡ (
          if is_i128 product && is_i128 (product *ℤ tier_multiplier_bps tier)
              then ok (fee_of e amount tier)
              else err overflow,
          e,
        )
  unfolding calculate_tiered_fee checked
  tiered_fee_lem amount tier e = ground arith

  place_checked_ok :
      (bettor : Address) (id outcome : ℕ) (amount : ℤ) (token : Address) (r : Option Address)
      (m : Market) (e e' : Env host)
      → place_checked bettor id outcome amount token r m e ≡ (ok tt, e')
      → let fee = fee_of e amount m.tier in
        (e'.markets ≡ updated e.markets (market_after e bettor id outcome amount fee m))
        × (e'.bets.bet
            ≡ put₃ e.bets.bet id bettor outcome (some (bet_after e bettor id outcome amount fee)))
  unfolding place_checked
  place_checked_ok bettor id outcome amount token r m e e' h =
      let fee = fee_of e amount m.tier in
      let e1 = (check_token_not_frozen token bettor e).1 in
      let e2 = (safe_transfer token bettor e1.ledger.current_contract amount e1).1 in
      ground (
        arith,
        frozen_keeps token bettor e e1,
        transfer_keeps token bettor e1.ledger.current_contract amount e1 e2,
        tiered_fee_lem amount m.tier e2,
        place_charged_ok bettor id outcome amount token r m fee e2 e',
      )

  -- A bet that is accepted found an active market before both of its deadlines, an outcome of the
  -- market, a positive amount and the market's token. It replaces the market by the one in which
  -- the amount less the fee is added to the outcome's stake and to the total, adds the same to the
  -- bettor's bet, and writes no other bet.
  pub place_bet_ok :
      (bettor : Address) (id outcome : ℕ) (amount : ℤ) (token : Address) (r : Option Address)
      (e e' : Env host)
      → place_bet bettor id outcome amount token r e ≡ (ok tt, e')
      → (m : Market) × (e.markets.market id ≡ some m)
        × (m.status ≡ active)
        × (e.ledger.timestamp < m.deadline)
        × (e.ledger.timestamp < m.resolution_deadline)
        × (outcome < length m.options)
        × (pos 0 <ℤ amount)
        × (m.token_address ≡ token)
        × (e'.markets
            ≡ updated e.markets
                (market_after e bettor id outcome amount (fee_of e amount m.tier) m))
        × (e'.bets.bet
            ≡ put₃ e.bets.bet id bettor outcome
                (some (bet_after e bettor id outcome amount (fee_of e amount m.tier))))
  unfolding place_bet
  place_bet_ok bettor id outcome amount token r e e' h =
      let (m, e1, checked, placed) =
        >>=-eq-ok (check_bet bettor id outcome amount token r)
          (place_checked bettor id outcome amount token r) e h in
      let (same, found, open', before, early, valid, positive, mine) =
        check_bet_ok bettor id outcome amount token r m e e1 checked in
      let done = place_checked_ok bettor id outcome amount token r m e e' (
        subst (λ x. place_checked bettor id outcome amount token r m x ≡ (ok tt, e')) same
          placed) in
      (m, found, open', before, early, valid, positive, mine, done.0, done.1)

  market_after-Edge :
      (e : Env host) (bettor : Address) (id outcome : ℕ) (amount fee : ℤ) (m : Market)
      → m.status ≡ active
      → Edge m (market_after e bettor id outcome amount fee m)
  market_after-Edge e bettor id outcome amount fee m a = record {
    status_step = rw a refl;
    frame = refl;
    final = λ q. ground (arith, a);
    balance = λ v. staked-IsBalanced m outcome (amount -ℤ fee) _ v;
  }

  pub place_bet-Change :
      (bettor : Address) (id outcome : ℕ) (amount : ℤ) (token : Address) (r : Option Address)
      (e e' : Env host)
      → place_bet bettor id outcome amount token r e ≡ (ok tt, e')
      → Change e.markets e'.markets
  place_bet-Change bettor id outcome amount token r e e' h =
      let (m, found, a, _, _, _, _, _, shape, _) =
        place_bet_ok bettor id outcome amount token r e e' h in
      let fee = fee_of e amount m.tier in
      update id m (market_after e bettor id outcome amount fee m) found
        (market_after-Edge e bettor id outcome amount fee m a) shape
