-- ===== src/Bets/Stakes.antt =====
-- Bets keep the stakes of a market balanced, and move one amount into the bet, the outcome and the
-- total.
use predict_iq.Markets.Index.{updated, update_market-updated}
use predict_iq.Markets.{bump_market_ttl}
use predict_iq.Fees.{collect_fee}
use predict_iq.Markets.Change.{IsBalanced}
use predict_iq.Types.{Market, Address, Bet}
use predict_iq.Bets.{
  raise_stakes, count_bettor, store_bet, raise_bet, write_bet, bump_bet_ttl, get_bet, empty_bet,
  credit_net, credit_bet,
}
use predict_iq.Env.{Host, Env, ok, when, Entry}
use predict_iq.Prelude.{
  ◌≡◌, arith, checked, ℕ, ℤ, ◌+ℤ◌, insert, value, lookup, insert-IsSorted, sum-insert, +ℤ_cancel,
  SortedMap, ltb_ℤ, pos, Bool-cases, put₃, inl, some, inr, get_or, if◌then◌else◌, eqb_ℤ, ◌+◌, ◌-ℤ◌,
}

-- The market after a bet of `net` on `outcome`, with its new bettor counts.
abbrev pub staked : Market → ℕ → ℤ → SortedMap ℕ → Market
staked m outcome net counts = record m {
  total_staked = m.total_staked +ℤ net;
  outcome_stakes = insert outcome (value (lookup outcome m.outcome_stakes) +ℤ net) m.outcome_stakes;
  winner_counts = counts;
}

-- The bet record after `net` and a fee.
abbrev pub raised_bet : Bet → ℕ → ℤ → ℤ → Bet
raised_bet bet outcome net fee = record bet {
  amount = bet.amount +ℤ net;
  fee_paid = bet.fee_paid +ℤ fee;
  outcome = outcome;
}

-- The counts of bettors: one more, where the bet now holds exactly `net`.
abbrev pub counts_after : Market → Bet → ℕ → ℤ → SortedMap ℕ
counts_after m bet outcome net =
    if eqb_ℤ bet.amount net
    then insert outcome (get_or (lookup outcome m.winner_counts) 0 + 1) m.winner_counts
    else m.winner_counts

pub staked-IsBalanced :
    (m : Market) (outcome : ℕ) (net : ℤ) (counts : SortedMap ℕ)
    → IsBalanced m
    → IsBalanced (staked m outcome net counts)
staked-IsBalanced m outcome net counts v = record {
  sorted = insert-IsSorted outcome _ m.outcome_stakes v.sorted;
  conserved = rw (← v.conserved) (
      +ℤ_cancel _ (value (lookup outcome m.outcome_stakes)) _ net
        (sum-insert outcome _ m.outcome_stakes v.sorted));
}

module _ {host : Host} where
  fee_keeps :
      (token : Address) (fee : ℤ) (e e' : Env host)
      → when (ltb_ℤ (pos 0) fee) (collect_fee token fee) e ≡ (ok tt, e')
      → (e'.markets ≡ e.markets) × (e'.bets ≡ e.bets)
  unfolding collect_fee
  fee_keeps token fee e e' h = elim (Bool-cases (ltb_ℤ (pos 0) fee)) [
    | inl charged ↦ ground arith
    | inr free ↦ ground arith
  ]

  store_bet_ok :
      (id : ℕ) (bettor : Address) (outcome : ℕ) (bet : Bet) (m : Market) (e e' : Env host)
      → store_bet id bettor outcome bet m e ≡ (ok tt, e')
      → (e'.markets ≡ updated e.markets m)
        × (e'.bets.bet ≡ put₃ e.bets.bet id bettor outcome (some bet))
  unfolding store_bet write_bet bump_bet_ttl bump_market_ttl
  store_bet_ok id bettor outcome bet m e e' h =
      let e1 = (write_bet id bettor outcome (some bet) e).1 in
      let e2 = (bump_bet_ttl (Entry.bet id bettor outcome) e1).1 in
      ground (arith, update_market-updated m e2)

  raise_bet_ok :
      (bet bet' : Bet) (outcome : ℕ) (net fee : ℤ) (e e' : Env host)
      → raise_bet bet outcome net fee e ≡ (ok bet', e')
      → (e' ≡ e)
        × (bet' ≡ record bet {
          amount = bet.amount +ℤ net;
          fee_paid = bet.fee_paid +ℤ fee;
          outcome = outcome;
        })
  unfolding raise_bet checked
  raise_bet_ok bet bet' outcome net fee e e' h = ground arith

  -- A credited bet: the net amount goes to the bet, its outcome and the total alike.
  credit_net_ok :
      (bettor : Address) (id outcome : ℕ) (net fee : ℤ) (m : Market) (e e' : Env host)
      → credit_net bettor id outcome net fee m e ≡ (ok tt, e')
      → let old = get_or (e.bets.bet id bettor outcome) (empty_bet id bettor outcome) in
        let bet = raised_bet old outcome net fee in
        (e'.markets ≡ updated e.markets (staked m outcome net (counts_after m bet outcome net)))
        × (e'.bets.bet ≡ put₃ e.bets.bet id bettor outcome (some bet))
  unfolding credit_net get_bet raise_bet raise_stakes count_bettor checked
  credit_net_ok bettor id outcome net fee m e e' h =
      let old = get_or (e.bets.bet id bettor outcome) (empty_bet id bettor outcome) in
      let bet = raised_bet old outcome net fee in
      let m' = staked m outcome net (counts_after m bet outcome net) in
      ground (arith, store_bet_ok id bettor outcome bet m' e e')

  pub credit_bet_ok :
      (bettor : Address) (id outcome : ℕ) (amount : ℤ) (token : Address) (m : Market) (fee : ℤ)
      (e e' : Env host)
      → credit_bet bettor id outcome amount token m fee e ≡ (ok tt, e')
      → let net = amount -ℤ fee in
        let bet =
          raised_bet
            (get_or (e.bets.bet id bettor outcome) (empty_bet id bettor outcome))
            outcome
            net
            fee in
        (e'.markets ≡ updated e.markets (staked m outcome net (counts_after m bet outcome net)))
        × (e'.bets.bet ≡ put₃ e.bets.bet id bettor outcome (some bet))
  unfolding credit_bet
  credit_bet_ok bettor id outcome amount token m fee e e' h =
      let e1 = (when (ltb_ℤ (pos 0) fee) (collect_fee token fee) e).1 in
      let kept = fee_keeps token fee e e1 in
      let credited = credit_net_ok bettor id outcome (amount -ℤ fee) fee m e1 e' in
      ground (arith, kept, credited)
