-- ===== src/Markets/Prune/Dropped.antt =====
-- What the pruning of a market changes in the market store.
use predict_iq.Markets.{find_market}
use Prim.Native.Nat.{zero}
use mathlib.Core.List.{[]}
use predict_iq.Types.{Address, Market, resolved, prune_grace_period}
use predict_iq.Prelude.{
  ℕ, List, ◌≡◌, arith, ◌∷◌, suc, put₂, none, some, refl, ◌+◌, ◌≤◌, Option-cases, inl, inr, length,
  put,
}
use predict_iq.Markets.Prune.{prune_market, drop_market, clear_market}
use predict_iq.Voting.{drop_voters, drop_tallies, drop_voter, prune_market_voting_state}
use predict_iq.EventArchive.{archive_market}
use predict_iq.Env.{Host, Env, ok, emit}
use predict_iq.Markets.Change.{Change, prune, dropped}

module _ {host : Host} where
  archive_keeps : (id : ℕ) (e : Env host) → (archive_market id e).1.markets ≡ e.markets
  unfolding archive_market
  archive_keeps id e = ground arith

  voters_keep :
      (id : ℕ) (vs : List Address) (e : Env host) → (drop_voters id vs e).1.markets ≡ e.markets
  unfolding drop_voters
  voters_keep id [] e = refl
  voters_keep id (v ∷ vs) e = let e1 = (drop_voter id v e).1 in ground (arith, voters_keep id vs e1)

  tallies_keep : (id n o : ℕ) (e : Env host) → (drop_tallies id n o e).1.markets ≡ e.markets
  unfolding drop_tallies
  tallies_keep id zero o e = refl
  tallies_keep id (suc n) o e =
      let e1 = record e {
        votes = record e.votes { vote_tally = put₂ e.votes.vote_tally id o none };
      } in
      ground (arith, tallies_keep id n (o + 1) e1)

  voting_keeps :
      (id n : ℕ) (e : Env host) → (prune_market_voting_state id n e).1.markets ≡ e.markets
  unfolding prune_market_voting_state
  voting_keeps id n e = elim (Option-cases (e.votes.dispute_voters id)) [
    | inl nobody ↦
        let e1 = record e {
          votes = record e.votes { dispute_voters = put e.votes.dispute_voters id none };
        } in
        ground (arith, tallies_keep id n 0 e1)
    | inr (vs, registered) ↦
        let e1 = (drop_voters id vs e).1 in
        let e2 = record e1 {
          votes = record e1.votes { dispute_voters = put e1.votes.dispute_voters id none };
        } in
        ground (arith, voters_keep id vs e, tallies_keep id n 0 e2)
  ]

  clear_market_ok :
      (id n : ℕ) (e e' : Env host)
      → clear_market id n e ≡ (ok tt, e')
      → e'.markets ≡ dropped e.markets id
  unfolding clear_market drop_market
  clear_market_ok id n e e' h =
      let e1 = (archive_market id e).1 in ground (arith, archive_keeps id e, voting_keeps id n e1)

  -- A pruning that succeeds found a market resolved at least 30 days before, and removes that
  -- market, its index entry and its window from the market store, and nothing else.
  pub prune_market_ok :
      (id : ℕ) (e e' : Env host)
      → prune_market id e ≡ (ok tt, e')
      → (m : Market) × (t : ℕ) × (e.markets.market id ≡ some m)
        × (m.status ≡ resolved)
        × (m.resolved_at ≡ some t)
        × (t + prune_grace_period ≤ e.ledger.timestamp)
        × (e'.markets ≡ dropped e.markets id)
  unfolding prune_market find_market emit
  prune_market_ok id e e' h = elim (Option-cases (e.markets.market id)) [
    | inl missing ↦ ground arith
    | inr (m, found) ↦ elim (Option-cases m.resolved_at) [
      | inl open' ↦ ground arith
      | inr (t, closed') ↦
          let e1 = (clear_market id (length m.options) e).1 in
          let cleared = clear_market_ok id (length m.options) e e1 in
          (m, t, found, ground arith, closed', ground arith, ground (arith, cleared))
    ]
  ]

  pub prune_market-Change :
      (id : ℕ) (e e' : Env host) → prune_market id e ≡ (ok tt, e') → Change e.markets e'.markets
  prune_market-Change id e e' h =
      let (m, t, found, done, _, _, shape) = prune_market_ok id e e' h in
      prune id m found done shape
