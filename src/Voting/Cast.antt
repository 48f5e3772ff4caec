-- ===== src/Voting/Cast.antt =====
-- Which votes are accepted (cast_vote).
use predict_iq.Types.{Address, Market, disputed, cancel_outcome_index, Vote}
use predict_iq.Voting.{cast_vote, check_vote, cast_checked, cast_accepted, retract}
use predict_iq.Env.{Host, Env, ok, >>=-eq-ok}
use predict_iq.Markets.Change.Sound.{IsSound}
use predict_iq.Prelude.{
  ◌≡◌, ◌≢◌, ◌<◌, ◌⊎◌, arith, ℕ, ℤ, some, length, Option-cases, inl, inr, Option,
}

module _ {host : Host} where
  check_vote_ok :
      (voter : Address) (id outcome : ℕ) (m : Market) (e e' : Env host)
      → check_vote voter id outcome e ≡ (ok m, e')
      → (e' ≡ e)
        × (e.markets.market id ≡ some m)
        × (m.status ≡ disputed)
        × ((outcome < length m.options) ⊎ (outcome ≡ cancel_outcome_index))
  unfolding check_vote
  check_vote_ok voter id outcome m e e' h = ground arith

  cast_checked_ok :
      (voter : Address) (id outcome : ℕ) (weight : ℤ) (m : Market) (old : Option Vote)
      (e e' : Env host)
      → cast_checked voter id outcome weight m old e ≡ (ok tt, e')
      → (ledger : ℕ) × (m.dispute_snapshot_ledger ≡ some ledger)
  unfolding cast_checked
  cast_checked_ok voter id outcome weight m old e e' h =
      elim (Option-cases m.dispute_snapshot_ledger) [
        | inl unset ↦ ground arith
        | inr (s, set) ↦ (s, set)
      ]

  cast_accepted_ok :
      (voter : Address) (id outcome : ℕ) (weight : ℤ) (m : Market) (e e' : Env host)
      → cast_accepted voter id outcome weight m e ≡ (ok tt, e')
      → (ledger : ℕ) × (m.dispute_snapshot_ledger ≡ some ledger)
  unfolding cast_accepted
  cast_accepted_ok voter id outcome weight m e e' h =
      let old = e.votes.vote id voter in
      let e1 = (retract id old e).1 in
      ground (arith, cast_checked_ok voter id outcome weight m old e1 e')

  -- A vote that is accepted is on a disputed market that has a snapshot ledger, for one of its
  -- outcomes or for cancelling it.
  pub cast_vote_ok :
      (voter : Address) (id outcome : ℕ) (weight : ℤ) (e e' : Env host)
      → cast_vote voter id outcome weight e ≡ (ok tt, e')
      → (m : Market) × (ledger : ℕ) × (e.markets.market id ≡ some m)
        × (m.status ≡ disputed)
        × (m.dispute_snapshot_ledger ≡ some ledger)
        × ((outcome < length m.options) ⊎ (outcome ≡ cancel_outcome_index))
  unfolding cast_vote
  cast_vote_ok voter id outcome weight e e' h =
      let (m, e1, p, q) =
        >>=-eq-ok (check_vote voter id outcome) (cast_accepted voter id outcome weight) e h in
      let (_, found, open', valid) = check_vote_ok voter id outcome m e e1 p in
      let (ledger, set) = cast_accepted_ok voter id outcome weight m e1 e' q in
      (m, ledger, found, open', set, valid)

  -- In a sound store, where no market has a snapshot ledger, no vote on a dispute is ever accepted.
  pub cast_vote_blocked :
      (voter : Address) (id outcome : ℕ) (weight : ℤ) (e e' : Env host)
      → IsSound e.markets
      → cast_vote voter id outcome weight e ≢ (ok tt, e')
  cast_vote_blocked voter id outcome weight e e' v h =
      let (m, s, found, _, set, _) = cast_vote_ok voter id outcome weight e e' h in
      ground (arith, v.unvoted id m found)
