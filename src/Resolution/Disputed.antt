-- ===== src/Resolution/Disputed.antt =====
-- The resolution of a market by the vote after a dispute, and finalization as a whole.
use predict_iq.Markets.Change.{Change, update}
use predict_iq.Markets.Index.{updated, update_market-updated}
use predict_iq.Markets.{find_market}
use predict_iq.Types.{
  Vote, Market, MarketStatus, pending_resolution, disputed, resolved, active, cancelled,
}
use predict_iq.Prelude.{
  ℤ, List, ℕ, ◌≡◌, arith, Option-cases, some, pos, ◌+◌, inl, [], ap, inr, refl, ◌≤◌,
}
use predict_iq.Resolution.{
  decide, calculate_voting_outcome, finish_dispute, count_and_finish, Tallies, finalize_disputed,
  finalize_by_status, finalize_resolution, tally_votes, voting_period_seconds,
}
use predict_iq.Env.{Host, Env, ok, >>=-eq-ok}
use predict_iq.Resolution.Timing.{resolved_market, resolved-Edge, finalize_pending-Change}

module _ {host : Host} where
  decide_keeps : (total : ℤ) (ts : Tallies) (e : Env host) → (decide total ts e).1 ≡ e
  unfolding decide
  decide_keeps total ts e = ground arith

  outcome_keeps : (votes : List Vote) (e : Env host) → (calculate_voting_outcome votes e).1 ≡ e
  unfolding calculate_voting_outcome
  outcome_keeps votes e = elim (Option-cases (tally_votes votes (pos 0) [])) [
    | inl overflow' ↦ rw overflow' refl
    | inr ((total, ts), counted) ↦ rw counted (decide_keeps total ts e)
  ]

  finish_dispute_ok :
      (id outcome : ℕ) (m : Market) (e e' : Env host)
      → finish_dispute id m outcome e ≡ (ok tt, e')
      → e'.markets ≡ updated e.markets (resolved_market m outcome e.ledger.timestamp)
  unfolding finish_dispute
  finish_dispute_ok id outcome m e e' h =
      ground (arith, update_market-updated (resolved_market m outcome e.ledger.timestamp) e)

  count_and_finish_ok :
      (id : ℕ) (m : Market) (votes : List Vote) (e e' : Env host)
      → count_and_finish id m votes e ≡ (ok tt, e')
      → (outcome : ℕ) × ((calculate_voting_outcome votes e).0 ≡ ok outcome)
        × (e'.markets ≡ updated e.markets (resolved_market m outcome e.ledger.timestamp))
  unfolding count_and_finish
  count_and_finish_ok id m votes e e' h =
      let (outcome, e1, counted, rest) =
        >>=-eq-ok (calculate_voting_outcome votes) (finish_dispute id m) e h in
      let shape = finish_dispute_ok id outcome m e1 e' rest in
      let kept = outcome_keeps votes e in
      (outcome, ap (λ r. r.0) counted, ground (arith, counted, kept, shape))

module _ {host : Host} (get_market_votes : Env host → ℕ → List Vote) where
  -- Whatever the stored votes are, a finalization after a dispute that succeeds comes at or after
  -- the end of the voting period since the dispute, and resolves the market to the outcome that the
  -- count of the votes returns, changing no other market.
  pub finalize_disputed_ok :
      (id : ℕ) (m : Market) (e e' : Env host)
      → finalize_disputed get_market_votes id m e ≡ (ok tt, e')
      → (t outcome : ℕ) × (m.dispute_timestamp ≡ some t)
        × (t + voting_period_seconds ≤ e.ledger.timestamp)
        × ((calculate_voting_outcome (get_market_votes e m.id) e).0 ≡ ok outcome)
        × (e'.markets ≡ updated e.markets (resolved_market m outcome e.ledger.timestamp))
  unfolding finalize_disputed
  finalize_disputed_ok id m e e' h = elim (Option-cases m.dispute_timestamp) [
    | inl missing ↦ ground arith
    | inr (t, filed) ↦
        let ended : t + voting_period_seconds ≤ e.ledger.timestamp = ground arith in
        let rest : count_and_finish id m (get_market_votes e m.id) e ≡ (ok tt, e') = ground arith in
        let (outcome, counted, shape) =
          count_and_finish_ok id m (get_market_votes e m.id) e e' rest in
        (t, outcome, filed, ended, counted, shape)
  ]

  by_status-Change :
      (id : ℕ) (m : Market) (status : MarketStatus) (e e' : Env host)
      → e.markets.market id ≡ some m
      → m.status ≡ status
      → finalize_by_status get_market_votes id m status e ≡ (ok tt, e')
      → Change e.markets e'.markets
  unfolding finalize_by_status
  by_status-Change id m pending_resolution e e' found same h =
      finalize_pending-Change id m e e' found same h
  by_status-Change id m disputed e e' found same h =
      let (t, outcome, _, _, _, shape) = finalize_disputed_ok id m e e' h in
      update id m (resolved_market m outcome e.ledger.timestamp) found
        (resolved-Edge m outcome e.ledger.timestamp (ground (arith, same)) (ground (arith, same)))
        shape
  by_status-Change id m resolved e e' found same h = ground arith
  by_status-Change id m active e e' found same h = ground arith
  by_status-Change id m cancelled e e' found same h = ground arith

  pub finalize_resolution-Change :
      (id : ℕ) (e e' : Env host)
      → finalize_resolution get_market_votes id e ≡ (ok tt, e')
      → Change e.markets e'.markets
  unfolding finalize_resolution find_market
  finalize_resolution-Change id e e' h = elim (Option-cases (e.markets.market id)) [
    | inl missing ↦ ground arith
    | inr (m, found) ↦
        let rest : finalize_by_status get_market_votes id m m.status e ≡ (ok tt, e') =
          ground arith in
        by_status-Change id m m.status e e' found refl rest
  ]
