-- ===== src/Markets/Create/Opened.antt =====
-- What the creation of a market changes.
use predict_iq.Resolution.Windows.{default_dispute_window_seconds}
use predict_iq.Prelude.{
  ℕ, ℤ, ◌≡◌, Option-cases, get_or, ltb_ℤ, arith, inl, pos, ◌+◌, inr, ◌<◌, ◌≤◌, length, refl,
  if◌then◌else◌,
}
use predict_iq.Types.{Address, Market, max_outcomes_per_market, CreatorReputation}
use predict_iq.Markets.Create.{
  collect_creation_fee, pay_creation, charge, check_parent, store_market, open_market,
  create_market_with_dispute_window, Request, new_market, min_deadline_gap, check_creation, is_pro,
}
use predict_iq.Env.{Host, client_transfer, Env, when, ok, >>=-eq-ok, ◌>>=◌, emit}
use predict_iq.Markets.Change.{Change, create, created}

new_market_id : (r : Request) (id : ℕ) (deposit : ℤ) → (new_market r id deposit).id ≡ id
unfolding new_market
new_market_id r id deposit = refl

module _ {host : Host} where
  transfer_keeps :
      (token from to : Address) (amount : ℤ) (e e' : Env host)
      → client_transfer token from to amount e ≡ (ok tt, e')
      → (e'.markets ≡ e.markets) × (e'.windows ≡ e.windows)
  unfolding client_transfer
  transfer_keeps token from to amount e e' h =
      elim (Option-cases (host.token_transfer e.tokens token from to amount)) [
        | inl failed' ↦ (ground arith, ground arith)
        | inr (t, moved) ↦ (ground arith, ground arith)
      ]

  fee_keeps :
      (r : Request) (fee : ℤ) (e e' : Env host)
      → collect_creation_fee r fee e ≡ (ok tt, e')
      → (e'.markets ≡ e.markets) × (e'.windows ≡ e.windows)
  unfolding collect_creation_fee
  fee_keeps r fee e e' h =
      let treasury = get_or e.creation.protocol_treasury e.ledger.current_contract in
      let e1 = (client_transfer r.native_token r.creator treasury fee e).1 in
      ground (arith, transfer_keeps r.native_token r.creator treasury fee e e1)

  pay_keeps :
      (r : Request) (fee deposit : ℤ) (e e' : Env host)
      → pay_creation r fee deposit e ≡ (ok tt, e')
      → (e'.markets ≡ e.markets) × (e'.windows ≡ e.windows)
  unfolding pay_creation
  pay_keeps r fee deposit e e' h =
      let e1 = (when (ltb_ℤ (pos 0) fee) (collect_creation_fee r fee) e).1 in
      ground (
        arith,
        fee_keeps r fee e e1,
        transfer_keeps r.native_token r.creator e1.ledger.current_contract deposit e1 e',
      )

  charge_keeps :
      (r : Request) (deposit : ℤ) (e e' : Env host)
      → charge r e ≡ (ok deposit, e')
      → (e'.markets ≡ e.markets) × (e'.windows ≡ e.windows)
  unfolding charge
  charge_keeps r deposit e e' h =
      let fee = get_or e.creation.creation_fee (pos 0) in
      let e1 = (pay_creation r fee deposit e).1 in ground (arith, pay_keeps r fee deposit e e1)

  check_creation_ok :
      (r : Request) (e e' : Env host)
      → check_creation r e ≡ (ok tt, e')
      → (e' ≡ e)
        × (e.ledger.timestamp < r.deadline)
        × (r.deadline + min_deadline_gap ≤ r.resolution_deadline)
        × (length r.options ≤ max_outcomes_per_market)
  unfolding check_creation check_parent
  check_creation_ok r e e' h = ground arith

  store_market_ok :
      (count window : ℕ) (m : Market) (e e' : Env host)
      → m.id ≡ count
      → store_market count m window e ≡ (ok tt, e')
      → e'.markets ≡ created e.markets m window
  unfolding store_market
  store_market_ok count window m e e' same h = ground arith

  -- The window that is asked for, or the default one.
  abbrev pub window_of : Request → Env host → ℕ
  window_of r e =
      get_or r.dispute_window_seconds
        (get_or e.windows.default_dispute_window default_dispute_window_seconds)

  -- What the market holds: nothing for a creator of good standing, or the deposit that is set.
  abbrev pub deposit_of : Request → Env host → ℤ
  deposit_of r e =
      if is_pro (get_or (e.markets.creator_reputation r.creator) CreatorReputation.none)
      then pos 0
      else get_or e.creation.creation_deposit (pos 0)

  charge_deposit :
      (r : Request) (deposit : ℤ) (e e' : Env host)
      → charge r e ≡ (ok deposit, e')
      → deposit ≡ deposit_of r e
  unfolding charge
  charge_deposit r deposit e e' h = ground arith

  -- The market is new and open, its id is the next one, and it has the window that was asked for or
  -- the default one.
  open_market_ok :
      (r : Request) (deposit : ℤ) (count : ℕ) (e e' : Env host)
      → open_market r deposit e ≡ (ok count, e')
      → (count ≡ get_or e.markets.market_count 0 + 1)
        × (e'.markets ≡ created e.markets (new_market r count deposit) (window_of r e))
  unfolding open_market emit
  open_market_ok r deposit count e e' h =
      let window = window_of r e in
      let c = get_or e.markets.market_count 0 + 1 in
      let m = new_market r c deposit in
      let e1 = (store_market c m window e).1 in
      let next : count ≡ c = ground arith in
      (next, rw next (ground (arith, store_market_ok c window m e e1 (new_market_id r c deposit))))

  pub create_market_ok :
      (r : Request) (count : ℕ) (e e' : Env host)
      → create_market_with_dispute_window r e ≡ (ok count, e')
      → (count ≡ get_or e.markets.market_count 0 + 1)
        × (e.ledger.timestamp < r.deadline)
        × (r.deadline + min_deadline_gap ≤ r.resolution_deadline)
        × (length r.options ≤ max_outcomes_per_market)
        × (e'.markets ≡ created e.markets (new_market r count (deposit_of r e)) (window_of r e))
  unfolding create_market_with_dispute_window
  create_market_ok r count e e' h =
      let (_, e1, checked', rest) =
        >>=-eq-ok (check_creation r) (λ _. charge r >>= open_market r) e h in
      let (same, early, gap, few) = check_creation_ok r e e1 checked' in
      let (deposit, e2, charged, opened) = >>=-eq-ok (charge r) (open_market r) e1 rest in
      let (next, shape) = open_market_ok r deposit count e2 e' opened in
      let amount = charge_deposit r deposit e1 e2 charged in
      let (kept, kept') = charge_keeps r deposit e1 e2 charged in
      (
        ground (arith, next, kept, same),
        early,
        gap,
        few,
        ground (arith, shape, kept, kept', amount, same),
      )

  pub create_market-Change :
      (r : Request) (count : ℕ) (e e' : Env host)
      → create_market_with_dispute_window r e ≡ (ok count, e')
      → Change e.markets e'.markets
  unfolding new_market
  create_market-Change r count e e' h =
      let (next, _, _, _, shape) = create_market_ok r count e e' h in
      create (new_market r count (deposit_of r e)) (window_of r e) next refl refl
        (record { sorted = tt; conserved = refl }) shape
