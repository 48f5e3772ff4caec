-- ===== src/Governance/Guardians.antt =====
-- The set of guardians: who is in it after a removal, and when a removal is executed.
use mathlib.Core.List.{[]}
use predict_iq.Types.{Address, Guardian, PendingGuardianRemoval, timelock_duration}
use predict_iq.Env.{Host, Env, ok}
use predict_iq.Governance.{is_guardian, without, execute_guardian_removal, ◌∷◌}
use predict_iq.Prelude.{
  ◌≡◌, ◌≤◌, arith, ℕ, List, some, none, true, get_or, [], ◌-◌, Option-cases, inl, inr, not, ◌==◌,
  ◌&&◌,
}

is_guardian-without :
    (b a : Address) (gs : List Guardian)
    → is_guardian b (without a gs) ≡ not (b == a) && is_guardian b gs
unfolding is_guardian without
is_guardian-without b a [] = ground arith
is_guardian-without b a (g ∷ gs) = ground (arith, is_guardian-without b a gs)

module _ {host : Host} where
  -- A removal that is executed has passed its vote, and the time lock since then; its target was a
  -- guardian, the set after it is the set without the target, and the removal is no longer pending.
  pub execute_guardian_removal_ok :
      (e e' : Env host)
      → execute_guardian_removal e ≡ (ok tt, e')
      → (r : PendingGuardianRemoval) × (passed_at : ℕ) × (e.governance.pending_guardian_removal
          ≡ some r)
        × (e.governance.pending_guardian_removal_passed_at ≡ some passed_at)
        × (get_or e.governance.timelock timelock_duration ≤ e.ledger.timestamp - passed_at)
        × (is_guardian r.target_guardian (get_or e.governance.guardian_set []) ≡ true)
        × (e'.governance.guardian_set
            ≡ some (without r.target_guardian (get_or e.governance.guardian_set [])))
        × (e'.governance.pending_guardian_removal ≡ none)
  unfolding execute_guardian_removal
  execute_guardian_removal_ok e e' h = elim (Option-cases e.governance.pending_guardian_removal) [
    | inl unset ↦ ground arith
    | inr (r, set) ↦ elim (Option-cases e.governance.pending_guardian_removal_passed_at) [
      | inl waiting ↦ ground arith
      | inr (t, passed') ↦
          (r, t, set, passed', ground arith, ground arith, ground arith, ground arith)
    ]
  ]

  -- After an executed removal an address is a guardian exactly if it was one and is not the target
  -- of the pending removal.
  pub execute_guardian_removal-is_guardian :
      (b : Address) (e e' : Env host)
      → execute_guardian_removal e ≡ (ok tt, e')
      → (r : PendingGuardianRemoval) × (e.governance.pending_guardian_removal ≡ some r)
        × (is_guardian b (get_or e'.governance.guardian_set [])
            ≡ not (b == r.target_guardian) && is_guardian b (get_or e.governance.guardian_set []))
  execute_guardian_removal-is_guardian b e e' h =
      let (r, t, pending, _, _, _, shape, _) = execute_guardian_removal_ok e e' h in
      (
        r,
        pending,
        rw shape (is_guardian-without b r.target_guardian (get_or e.governance.guardian_set [])),
      )
