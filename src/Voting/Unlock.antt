-- ===== src/Voting/Unlock.antt =====
-- The return of the tokens that a voter has locked (unlock_tokens).
use predict_iq.Types.{Address, Market, LockedTokens, resolved, cancelled}
use predict_iq.Voting.{unlock_tokens}
use predict_iq.Env.{Host, Env, ok, at_time}
use predict_iq.Prelude.{
  ◌≡◌, ◌≢◌, ◌<ℤ◌, ◌⊎◌, ◌≤◌, arith, ℕ, some, pos, get_or, none, Option-cases, inl, inr,
}

module _ {host : Host} where
  -- Locked tokens are returned only on a resolved or cancelled market, at or after their unlock
  -- time, where the locked balance is positive; then the lock and the balance are gone, and no
  -- market has changed.
  pub unlock_tokens_ok :
      (voter : Address) (id : ℕ) (e e' : Env host)
      → unlock_tokens voter id e ≡ (ok tt, e')
      → (m : Market) × (l : LockedTokens) × (e.markets.market id ≡ some m)
        × ((m.status ≡ resolved) ⊎ (m.status ≡ cancelled))
        × (e.votes.locked_tokens id voter ≡ some l)
        × (l.unlock_time ≤ e.ledger.timestamp)
        × (pos 0 <ℤ get_or (e.votes.locked_balance id voter) (pos 0))
        × (e'.votes.locked_tokens id voter ≡ none)
        × (e'.votes.locked_balance id voter ≡ none)
        × (e'.markets ≡ e.markets)
  unfolding unlock_tokens
  unlock_tokens_ok voter id e e' h = elim (Option-cases (e.markets.market id)) [
    | inl missing ↦ ground arith
    | inr (m, found) ↦ elim (Option-cases (e.votes.locked_tokens id voter)) [
      | inl unset ↦ ground arith
      | inr (l, set) ↦ (
        m,
        l,
        found,
        ground arith,
        set,
        ground arith,
        ground arith,
        ground arith,
        ground arith,
        ground arith,
      )
    ]
  ]

  -- After locked tokens have been returned, a second return to the same voter on the same market at
  -- any time is not accepted.
  pub unlock_tokens_once :
      (voter : Address) (id t : ℕ) (e e' e'' : Env host)
      → unlock_tokens voter id e ≡ (ok tt, e')
      → unlock_tokens voter id (at_time t e') ≢ (ok tt, e'')
  unlock_tokens_once voter id t e e' e'' h h' =
      let (_, _, _, _, _, _, _, gone, _, _) = unlock_tokens_ok voter id e e' h in
      let (_, _, _, _, set, _, _, _, _, _) = unlock_tokens_ok voter id (at_time t e') e'' h' in
      ground (arith, gone, set)
