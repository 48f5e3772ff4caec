-- ===== src/CircuitBreaker/Recovery.antt =====
-- What the circuit breaker lets through (require_closed), and how it recovers.
use predict_iq.Types.Error.{contract_paused}
use predict_iq.Prelude.{
  ltb, ap, All, Bool, true, false, Bool-cases, inl, inr, if◌then◌else◌, ◌+◌, ◌≤◌, ◌<◌, ◌≡◌, ◌⊎◌,
  some, arith, get_or, List, ℕ, ◌∷◌, [], suc, dec_lt, refl, ◌∙◌, lt→ltb, sym,
}
use predict_iq.Types.{closed, is_open, half_open}
use predict_iq.Env.{M, settled, ◌>>◌, Host, Env, ok, at_time, err, panic, Outcome, continue}
use predict_iq.CircuitBreaker.{cooldown_seconds, half_open_max_ops, require_closed}

-- An invocation at a time: an action behind the check of the breaker.
abbrev pub Invocation : Host → Type 0
Invocation host = ℕ × M host (Unit {0})

abbrev pub is_accepted : Outcome (Unit {0}) → Bool
is_accepted (ok u) = true
is_accepted (err c) = false
is_accepted panic = false

module _ {host : Host} where
  -- A call passes the breaker in three ways: the breaker is closed and nothing changes; it is half
  -- open with fewer than five probes, and one more is counted; or it has been open for the
  -- cool-down period, and it is half open with one probe counted.
  pub require_closed_ok :
      (e e' : Env host)
      → require_closed e ≡ (ok tt, e')
      → ((get_or e.breaker.state closed ≡ closed) × (e' ≡ e))
        ⊎ ((get_or e.breaker.state closed ≡ half_open)
            × (get_or e.breaker.half_open_ops 0 < half_open_max_ops)
            × (e'.breaker
                ≡ record e.breaker { half_open_ops = some (get_or e.breaker.half_open_ops 0 + 1) }))
        ⊎ ((get_or e.breaker.state closed ≡ is_open)
            × (get_or e.breaker.opened_at 0 + cooldown_seconds ≤ e.ledger.timestamp)
            × (e'.breaker ≡ record e.breaker { state = some half_open; half_open_ops = some 1 }))
  unfolding require_closed
  require_closed_ok e e' h = ground arith

  abbrev pub invoke : Invocation host → Env host → Outcome (Unit {0}) × Env host
  invoke (t, action) e = (require_closed >> action) (at_time t e)

  -- How many of the invocations are accepted, and the environment after them: the host discards
  -- what the others wrote, the probe of the breaker included.
  pub accepted : List (Invocation host) → Env host → ℕ
  accepted [] e = 0
  accepted (c ∷ cs) e =
      let r = invoke c e in
      let rest = accepted cs (settled (at_time c.0 e) r) in
      if is_accepted r.0 then suc rest else rest

  pub after_all : List (Invocation host) → Env host → Env host
  after_all [] e = e
  after_all (c ∷ cs) e = after_all cs (settled (at_time c.0 e) (invoke c e))

  -- An action whose success leaves the breaker as it is.
  abbrev pub IsQuiet : M host (Unit {0}) → Type 0
  IsQuiet action = (e e' : Env host) → action e ≡ (ok tt, e') → e'.breaker ≡ e.breaker

  -- The environment in which the action runs behind the (k + 1)-th probe.
  abbrev pub probed : ℕ → ℕ → Env host → Env host
  probed k t e = record (at_time t e) {
    breaker = record e.breaker { half_open_ops = some (k + 1) };
  }

  -- How many actions succeed, each behind a probe, until the probes are used up.
  pub succeeding : ℕ → List (Invocation host) → Env host → ℕ
  succeeding k [] e = 0
  succeeding k ((t, action) ∷ cs) e =
      if ltb k half_open_max_ops
      then (let r = action (probed k t e) in
          if is_accepted r.0
          then suc (succeeding (k + 1) cs r.1)
          else succeeding k cs (at_time t e))
      else 0

  exhausted_step :
      (t : ℕ) (e : Env host)
      → e.breaker.state ≡ some half_open
      → half_open_max_ops ≤ get_or e.breaker.half_open_ops 0
      → (require_closed (at_time t e)).0 ≡ err contract_paused
  unfolding require_closed
  exhausted_step t e h k = ground arith

  probe_step :
      (t k : ℕ) (e : Env host)
      → e.breaker.state ≡ some half_open
      → e.breaker.half_open_ops ≡ some k
      → k < half_open_max_ops
      → require_closed (at_time t e) ≡ (ok tt, probed k t e)
  unfolding require_closed
  probe_step t k e h o l = ground arith

  ok_lem : (r : Outcome (Unit {0}) × Env host) → is_accepted r.0 ≡ true → r ≡ (ok tt, r.1)
  ok_lem (ok u, e') good = refl
  ok_lem (err c, e') good = cc
  ok_lem (panic, e') good = cc

  -- An accepted action behind a probe.
  quiet_step :
      (t k : ℕ) (action : M host (Unit {0})) (e : Env host)
      → IsQuiet action
      → e.breaker.state ≡ some half_open
      → is_accepted (action (probed k t e)).0 ≡ true
      → ((action (probed k t e)).1.breaker.state ≡ some half_open)
        × ((action (probed k t e)).1.breaker.half_open_ops ≡ some (k + 1))
  quiet_step t k action e quiet h good =
      let r = action (probed k t e) in
      let kept = quiet (probed k t e) r.1 (ok_lem r good) in
      (ap (λ b. b.state) kept ∙ h, ap (λ b. b.half_open_ops) kept)

  settled_ok :
      (e : Env host) (r : Outcome (Unit {0}) × Env host)
      → is_accepted r.0 ≡ true
      → settled e r ≡ r.1
  settled_ok e (ok u, e') good = refl
  settled_ok e (err c, e') good = cc
  settled_ok e (panic, e') good = cc

  settled_rejected :
      (e : Env host) (r : Outcome (Unit {0}) × Env host) → is_accepted r.0 ≡ false → settled e r ≡ e
  settled_rejected e (ok u, e') bad = cc
  settled_rejected e (err c, e') bad = refl
  settled_rejected e (panic, e') bad = refl

  continue_rejected :
      (r : Outcome (Unit {0}) × Env host) (action : M host (Unit {0}))
      → r.0 ≡ err contract_paused
      → is_accepted (continue r.0 (λ _. action) r.1).0 ≡ false
  continue_rejected (ok u, e') action h = cc
  continue_rejected (err c, e') action h = refl
  continue_rejected (panic, e') action h = refl

  -- A breaker without probes left.
  full_step :
      (t : ℕ) (action : M host (Unit {0})) (e : Env host)
      → (require_closed (at_time t e)).0 ≡ err contract_paused
      → is_accepted (invoke (t, action) e).0 ≡ false
  full_step t action e refused = continue_rejected (require_closed (at_time t e)) action refused

  -- An invocation that is not accepted changes the time only.
  skipped :
      (t : ℕ) (action : M host (Unit {0})) (cs : List (Invocation host)) (e : Env host)
      → is_accepted (invoke (t, action) e).0 ≡ false
      → (accepted ((t, action) ∷ cs) e ≡ accepted cs (at_time t e))
        × (after_all ((t, action) ∷ cs) e ≡ after_all cs (at_time t e))
  unfolding accepted after_all
  skipped t action cs e bad =
      let same = settled_rejected (at_time t e) (invoke (t, action) e) bad in
      (rw (bad, same) refl, ap (after_all cs) same)

  full_lem :
      (k : ℕ) (cs : List (Invocation host)) (e : Env host)
      → half_open_max_ops ≤ k
      → succeeding k cs e ≡ 0
  unfolding succeeding
  full_lem k [] e full = refl
  full_lem k ((t, action) ∷ cs) e full = ground (arith, full)

  -- A half-open breaker with k of the five probes used accepts, of any list of later invocations
  -- whose actions leave the breaker as it is when they succeed, and whatever their times, exactly
  -- those whose action succeeds behind the next probe, until five probes are used, so 5 - k at
  -- most. It stays half open, with one probe more for each of them: the host discards what the
  -- others wrote, their probe included, and no cool-down brings the breaker back.
  pub accepted-succeeding :
      (cs : List (Invocation host)) (k : ℕ) (e : Env host)
      → All (λ c. IsQuiet c.1) cs
      → e.breaker.state ≡ some half_open
      → e.breaker.half_open_ops ≡ some k
      → k ≤ half_open_max_ops
      → (accepted cs e ≡ succeeding k cs e)
        × (k + accepted cs e ≤ half_open_max_ops)
        × ((after_all cs e).breaker.state ≡ some half_open)
        × ((after_all cs e).breaker.half_open_ops ≡ some (k + accepted cs e))
  unfolding accepted succeeding after_all
  accepted-succeeding [] k e quiet h o l = (refl, omega (arith, l), h, o ∙ ap some (omega arith))
  accepted-succeeding ((t, action) ∷ cs) k e quiet h o l = elim (dec_lt k half_open_max_ops) [
    | yes less ↦
        let p = probe_step t k e h o less in
        let r = action (probed k t e) in
        elim (Bool-cases (is_accepted r.0)) [
          | inl good ↦
              let (h', o') = quiet_step t k action e quiet.0 h good in
              let (same, few, h'', o'') =
                accepted-succeeding cs (k + 1) r.1 quiet.1 h' o' (omega arith) in
              let run : invoke (t, action) e ≡ r = ap (λ x. continue x.0 (λ _. action) x.1) p in
              let step : settled (at_time t e) (invoke (t, action) e) ≡ r.1 =
                ap (λ x. settled (at_time t e) x) run ∙ settled_ok (at_time t e) r good in
              let counted : accepted ((t, action) ∷ cs) e ≡ suc (accepted cs r.1) =
                rw (p, good, settled_ok (at_time t e) r good) refl in
              let expected : succeeding k ((t, action) ∷ cs) e ≡ suc (succeeding (k + 1) cs r.1) =
                rw (good, lt→ltb k half_open_max_ops less) refl in
              (
                counted ∙ ap suc same ∙ sym expected,
                omega (arith, few, counted),
                ap (λ x. (after_all cs x).breaker.state) step ∙ h'',
                ap (λ x. (after_all cs x).breaker.half_open_ops) step
                    ∙ o''
                    ∙ ap some (omega (arith, counted)),
              )
          | inr bad ↦
              let run : invoke (t, action) e ≡ r = ap (λ x. continue x.0 (λ _. action) x.1) p in
              let (counted, after) = skipped t action cs e (ap (λ x. is_accepted x.0) run ∙ bad) in
              let (same, few, h', o') = accepted-succeeding cs k (at_time t e) quiet.1 h o l in
              let expected : succeeding k ((t, action) ∷ cs) e ≡ succeeding k cs (at_time t e) =
                rw (bad, lt→ltb k half_open_max_ops less) refl in
              (
                counted ∙ same ∙ sym expected,
                omega (arith, few, counted),
                ap (λ x. x.breaker.state) after ∙ h',
                ap (λ x. x.breaker.half_open_ops) after ∙ o' ∙ ap some (omega (arith, counted)),
              )
        ]
    | no full ↦
        let refused = full_step t action e (exhausted_step t e h (ground arith)) in
        let (counted, after) = skipped t action cs e refused in
        let (same, few, h', o') = accepted-succeeding cs k (at_time t e) quiet.1 h o l in
        let none_left = full_lem k cs (at_time t e) (omega arith) in
        let none_left' = full_lem k ((t, action) ∷ cs) e (omega arith) in
        (
          counted ∙ same ∙ none_left ∙ sym none_left',
          omega (arith, few, counted),
          ap (λ x. x.breaker.state) after ∙ h',
          ap (λ x. x.breaker.half_open_ops) after ∙ o' ∙ ap some (omega (arith, counted)),
        )
  ]
