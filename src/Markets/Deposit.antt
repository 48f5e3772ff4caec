-- ===== src/Markets/Deposit.antt =====
-- The changes of a market that leave its stakes alone: its payout mode, and the return of its
-- deposit.
use predict_iq.Markets.Index.{updated, update_market-updated}
use predict_iq.Prelude.{
  ◌≡◌, ℕ, true, ap, Option-cases, inl, pos, arith, refl, inr, ◌≢◌, Bool-cases, ltb_ℤ,
}
use predict_iq.Markets.{set_payout_mode, pay_deposit, release_creation_deposit}
use predict_iq.Env.{Host, Env, client_transfer, ok}
use predict_iq.Types.{
  MarketStatus, PayoutMode, Market, Address, active, pending_resolution, disputed, resolved,
  cancelled,
}
use predict_iq.Markets.Change.{Change, update, allowed, keep}

stays : (s : MarketStatus) → allowed s s ≡ true
stays active = refl
stays pending_resolution = refl
stays disputed = refl
stays resolved = refl
stays cancelled = refl

module _ {host : Host} where
  unchanged : (e e' : Env host) → e'.markets ≡ e.markets → Change e.markets e'.markets
  unchanged e e' h =
      keep (ap (λ s. s.market) h) (ap (λ s. s.status_index) h) (ap (λ s. s.market_count) h)

  pub set_payout_mode-Change :
      (id : ℕ) (mode : PayoutMode) (e e' : Env host)
      → set_payout_mode id mode e ≡ (ok tt, e')
      → Change e.markets e'.markets
  unfolding set_payout_mode
  set_payout_mode-Change id mode e e' h = elim (Option-cases (e.markets.market id)) [
    | inl missing ↦ ground arith
    | inr (m, found) ↦
        let m' = record m { payout_mode = mode } in
        let u = update_market-updated m' e in
        let unresolved : m.status ≢ resolved = ground arith in
        update id m m' found
          (record {
            status_step = stays m.status;
            frame = refl;
            final = λ q. absurd (unresolved q);
            balance = λ v. record { sorted = v.sorted; conserved = v.conserved };
          })
          (ground (arith, u))
  ]

  pay_deposit_ok :
      (m : Market) (token : Address) (e e' : Env host)
      → pay_deposit m token e ≡ (ok tt, e')
      → e'.markets ≡ updated e.markets (record m { creation_deposit = pos 0 })
  unfolding pay_deposit client_transfer
  pay_deposit_ok m token e e' h =
      let u = update_market-updated (record m { creation_deposit = pos 0 }) e in
      elim (Option-cases (
        host.token_transfer e.tokens token e.ledger.current_contract m.creator
          m.creation_deposit)) [
            | inl failed' ↦ ground (arith, u)
            | inr (t, moved) ↦ ground (arith, u)
          ]

  -- The deposit of a resolved market is paid out once.
  pub release_creation_deposit-Change :
      (id : ℕ) (token : Address) (e e' : Env host)
      → release_creation_deposit id token e ≡ (ok tt, e')
      → Change e.markets e'.markets
  unfolding release_creation_deposit
  release_creation_deposit-Change id token e e' h = elim (Option-cases (e.markets.market id)) [
    | inl missing ↦ ground arith
    | inr (m, found) ↦ elim (Bool-cases (ltb_ℤ (pos 0) m.creation_deposit)) [
      | inl paid ↦
          let m' = record m { creation_deposit = pos 0 } in
          let p = pay_deposit_ok m token e e' in
          let done : m.status ≡ resolved = ground arith in
          update id m m' found
            (record {
              status_step = stays m.status;
              frame = refl;
              final = λ q. refl;
              balance = λ v. record { sorted = v.sorted; conserved = v.conserved };
            })
            (ground (arith, p))
      | inr nothing' ↦ let same : e'.markets ≡ e.markets = ground arith in unchanged e e' same
    ]
  ]
