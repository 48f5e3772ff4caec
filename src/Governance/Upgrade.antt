-- ===== src/Governance/Upgrade.antt =====
-- When an upgrade of the contract is executed, and when a vote for one is accepted.
use predict_iq.Types.{
  PendingUpgrade, Hash, timelock_min_seconds, timelock_max_seconds, timelock_duration,
}
use predict_iq.Governance.{
  set_timelock_duration, is_majority_met, execute_upgrade, decide_upgrade, install_upgrade,
  reject_upgrade,
}
use predict_iq.Env.{Host, Env, ok}
use predict_iq.Prelude.{◌≡◌, ◌≤◌, arith, ℕ, some, none, true, get_or, ◌-◌, Option-cases, inl, inr}

module _ {host : Host} where
  pub set_timelock_duration_ok :
      (seconds : ℕ) (e e' : Env host)
      → set_timelock_duration seconds e ≡ (ok tt, e')
      → (timelock_min_seconds ≤ seconds)
        × (seconds ≤ timelock_max_seconds)
        × (e'.governance ≡ record e.governance { timelock = some seconds })
  unfolding set_timelock_duration
  set_timelock_duration_ok seconds e e' h = ground arith

  majority_keeps : (u : PendingUpgrade) (e : Env host) → (is_majority_met u e).1 ≡ e
  unfolding is_majority_met
  majority_keeps u e = ground arith

  decide_upgrade_ok :
      (u : PendingUpgrade) (hash : Hash) (e e' : Env host)
      → decide_upgrade u e ≡ (ok hash, e')
      → ((is_majority_met u e).0 ≡ ok true)
        × (hash ≡ u.wasm_hash)
        × (e'.governance.installed_wasm ≡ some hash)
        × (e'.governance.pending_upgrade ≡ none)
  unfolding decide_upgrade install_upgrade reject_upgrade
  decide_upgrade_ok u hash e e' h = ground (arith, majority_keeps u e)

  -- An upgrade that is executed was pending with a majority, and the time lock has passed since the
  -- majority was recorded, or since the start where it was not. The hash returned is its hash and
  -- is installed, and no upgrade is pending after it.
  pub execute_upgrade_ok :
      (hash : Hash) (e e' : Env host)
      → execute_upgrade e ≡ (ok hash, e')
      → (u : PendingUpgrade) × (e.governance.pending_upgrade ≡ some u)
        × (get_or e.governance.timelock timelock_duration
            ≤ e.ledger.timestamp - get_or e.governance.pending_upgrade_passed_at u.initiated_at)
        × ((is_majority_met u e).0 ≡ ok true)
        × (hash ≡ u.wasm_hash)
        × (e'.governance.installed_wasm ≡ some hash)
        × (e'.governance.pending_upgrade ≡ none)
  unfolding execute_upgrade
  execute_upgrade_ok hash e e' h = elim (Option-cases e.governance.pending_upgrade) [
    | inl unset ↦ ground arith
    | inr (u, set) ↦
        let d = decide_upgrade_ok u hash e e' in
        (
          u,
          set,
          ground arith,
          ground (arith, d),
          ground (arith, d),
          ground (arith, d),
          ground (arith, d),
        )
  ]
