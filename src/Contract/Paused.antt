-- ===== src/Contract/Paused.antt =====
-- What a paused contract refuses.
use predict_iq.Disputes.{file_dispute_entry}
use predict_iq.Contract.{cast_vote_entry}
use predict_iq.CircuitBreaker.{require_closed, require_not_paused_for_high_risk}
use predict_iq.Types.{Address, paused}
use predict_iq.Env.{
  ◌>>=◌, Outcome, ok, err, panic, Host, Env, M, settle, settled, continue, at_time,
}
use predict_iq.Prelude.{
  [], ◌∷◌, some, Bool, ℕ, true, ℤ, false, ◌≡◌, Option, arith, List, ap, ◌∙◌, refl,
}
use predict_iq.Bets
use predict_iq.Voting
use predict_iq.Disputes
use predict_iq.Markets.Create
use predict_iq.Prelude.{Bool-cases, inl, inr}

-- The calls that the circuit breaker guards.
pub data Guarded : Type 0 where
  place_bet : Address → ℕ → ℕ → ℤ → Address → Option Address → Guarded
  create_market : Create.Request → Guarded
  cast_vote : Address → ℕ → ℕ → ℤ → Guarded
  file_dispute : Address → ℕ → Guarded

abbrev pub is_ok : {A : Type 0} → Outcome A → Bool
is_ok (ok a) = true
is_ok (err c) = false
is_ok panic = false

module _ {host : Host} where
  -- The environment after a call, of which the host keeps an accepted one only.
  unfoldable pub after_call : Guarded → Env host → Env host
  after_call (Guarded.place_bet bettor id outcome amount token referrer) e =
      settle (Bets.place_bet bettor id outcome amount token referrer) e
  after_call (Guarded.create_market r) e = settle (Create.create_market_with_dispute_window r) e
  after_call (Guarded.cast_vote voter id outcome weight) e =
      settle (cast_vote_entry voter id outcome weight) e
  after_call (Guarded.file_dispute caller id) e = settle (file_dispute_entry caller id) e

  refused :
      {A B : Type 0} (r : Outcome A × Env host) (f : A → M host B) (e : Env host)
      → is_ok r.0 ≡ false
      → settled e (continue r.0 f r.1) ≡ e
  refused (ok a, e') f e failed = cc
  refused (err c, e') f e failed = refl
  refused (panic, e') f e failed = refl

  breaker_refused :
      (e : Env host) → e.breaker.state ≡ some paused → is_ok (require_closed e).0 ≡ false
  unfolding require_closed
  breaker_refused e is_paused = ground arith

  bet_refused :
      (bettor : Address) (id outcome : ℕ) (amount : ℤ) (token : Address) (referrer : Option Address)
      (e : Env host)
      → e.breaker.state ≡ some paused
      → is_ok (Bets.check_bet bettor id outcome amount token referrer e).0 ≡ false
  unfolding Bets.check_bet require_not_paused_for_high_risk
  bet_refused bettor id outcome amount token referrer e is_paused =
      elim (Bool-cases (e.ledger.authorized bettor)) [
        | inl allowed ↦ rw (allowed, is_paused) refl
        | inr denied ↦ rw denied refl
      ]

  creation_refused :
      (r : Create.Request) (e : Env host)
      → e.breaker.state ≡ some paused
      → is_ok (Create.check_creation r e).0 ≡ false
  unfolding Create.check_creation require_not_paused_for_high_risk
  creation_refused r e is_paused = elim (Bool-cases (e.ledger.authorized r.creator)) [
    | inl allowed ↦ rw (allowed, is_paused) refl
    | inr denied ↦ rw denied refl
  ]

  after_call_lem : (c : Guarded) (e : Env host) → e.breaker.state ≡ some paused → after_call c e ≡ e
  unfolding after_call Bets.place_bet Create.create_market_with_dispute_window cast_vote_entry
      file_dispute_entry
  after_call_lem (Guarded.place_bet bettor id outcome amount token referrer) e is_paused =
      refused (Bets.check_bet bettor id outcome amount token referrer e)
        (λ market. Bets.place_checked bettor id outcome amount token referrer market) e
        (bet_refused bettor id outcome amount token referrer e is_paused)
  after_call_lem (Guarded.create_market r) e is_paused =
      refused (Create.check_creation r e) (λ u. (Create.charge r >>= Create.open_market r)) e
        (creation_refused r e is_paused)
  after_call_lem (Guarded.cast_vote voter id outcome weight) e is_paused =
      refused (require_closed e) (λ u. Voting.cast_vote voter id outcome weight) e
        (breaker_refused e is_paused)
  after_call_lem (Guarded.file_dispute caller id) e is_paused =
      refused (require_closed e) (λ u. Disputes.file_dispute caller id) e
        (breaker_refused e is_paused)

  -- Calls at times of the ledger, the first one first.
  unfoldable pub after_calls : List (ℕ × Guarded) → Env host → Env host
  after_calls [] e = e
  after_calls ((t, c) ∷ cs) e = after_calls cs (after_call c (at_time t e))

  abbrev pub last_time : List (ℕ × Guarded) → Env host → Env host
  last_time [] e = e
  last_time ((t, c) ∷ cs) e = last_time cs (at_time t e)

  -- While the contract is paused, no bet, creation of a market, vote or dispute changes anything,
  -- whoever calls and in whatever number and order: of any of them at any times the host keeps the
  -- passing of time alone.
  pub after_calls_paused :
      (cs : List (ℕ × Guarded)) (e : Env host)
      → e.breaker.state ≡ some paused
      → after_calls cs e ≡ last_time cs e
  unfolding after_calls
  after_calls_paused [] e is_paused = refl
  after_calls_paused ((t, c) ∷ cs) e is_paused =
      ap (after_calls cs) (after_call_lem c (at_time t e) is_paused)
      ∙ after_calls_paused cs (at_time t e) is_paused
