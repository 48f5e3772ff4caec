-- ===== src/Cancellation/Threshold.antt =====
-- Cancellation: by the admin at any time before the end, and by a vote of three quarters.
use predict_iq.Markets.Change.{Edge, Change, cancellable, update}
use Prim.Native.Nat.{zero}
use predict_iq.Markets.Index.{updated, update_market-updated}
use predict_iq.Cancellation.{cancel_market_admin, add_tallies, suc, cancel_market_vote}
use predict_iq.Env.{Host, Env, ok}
use predict_iq.Types.{Market, cancelled, resolved, disputed, cancel_outcome_index}
use predict_iq.Prelude.{
  ◌≡◌, Option-cases, inl, inr, arith, ℕ, ℤ, some, ◌≢◌, ◌+◌, ◌+ℤ◌, get_or, pos, checked, refl,
  length,
}

abbrev pub cancelled_market : Market → Market
cancelled_market m = record m { status = cancelled }

cancelled-Edge :
    (m : Market) → m.status ≢ resolved → m.status ≢ cancelled → Edge m (cancelled_market m)
cancelled-Edge m a b = record {
  status_step = cancellable m.status a b;
  frame = refl;
  final = λ q. absurd (a q);
  balance = λ v. record { sorted = v.sorted; conserved = v.conserved };
}

module _ {host : Host} where
  pub cancel_market_admin_ok :
      (id : ℕ) (e e' : Env host)
      → cancel_market_admin id e ≡ (ok tt, e')
      → (m : Market) × (e.markets.market id ≡ some m)
        × (m.status ≢ resolved)
        × (m.status ≢ cancelled)
        × (e'.markets ≡ updated e.markets (cancelled_market m))
  unfolding cancel_market_admin
  cancel_market_admin_ok id e e' h = elim (Option-cases (e.markets.market id)) [
    | inl missing ↦ ground arith
    | inr (m, found) ↦
        let u = update_market-updated (cancelled_market m) e in
        (m, found, ground arith, ground arith, ground (arith, u))
  ]

  add_tallies_keeps : (id n o : ℕ) (total : ℤ) (e : Env host) → (add_tallies id n o total e).1 ≡ e
  unfolding add_tallies
  add_tallies_keeps id zero o total e = refl
  add_tallies_keeps id (suc n) o total e =
      ground (
        arith,
        add_tallies_keeps id n (o + 1) (total +ℤ get_or (e.votes.vote_tally id o) (pos 0)) e,
      )

  pub cancel_market_vote_ok :
      (id : ℕ) (e e' : Env host)
      → cancel_market_vote id e ≡ (ok tt, e')
      → (m : Market) × (e.markets.market id ≡ some m)
        × (m.status ≡ disputed)
        × (e'.markets ≡ updated e.markets (cancelled_market m))
  unfolding cancel_market_vote checked
  cancel_market_vote_ok id e e' h = elim (Option-cases (e.markets.market id)) [
    | inl missing ↦ ground arith
    | inr (m, found) ↦
        let votes = get_or (e.votes.vote_tally id cancel_outcome_index) (pos 0) in
        let kept = add_tallies_keeps id (length m.options) 0 votes e in
        let u = update_market-updated (cancelled_market m) e in
        (m, found, ground arith, ground (arith, kept, u))
  ]

  pub cancel_market_admin-Change :
      (id : ℕ) (e e' : Env host)
      → cancel_market_admin id e ≡ (ok tt, e')
      → Change e.markets e'.markets
  cancel_market_admin-Change id e e' h =
      let (m, found, a, b, shape) = cancel_market_admin_ok id e e' h in
      update id m (cancelled_market m) found (cancelled-Edge m a b) shape

  pub cancel_market_vote-Change :
      (id : ℕ) (e e' : Env host)
      → cancel_market_vote id e ≡ (ok tt, e')
      → Change e.markets e'.markets
  cancel_market_vote-Change id e e' h =
      let (m, found, a, shape) = cancel_market_vote_ok id e e' h in
      update id m (cancelled_market m) found
        (cancelled-Edge m (ground (arith, a)) (ground (arith, a))) shape
