-- ===== src/Oracles/Staleness.antt =====
-- The staleness check before a resolution (validate_oracle_staleness).
use predict_iq.Monitoring.{track_error}
use mathlib.Core.Option.{none}
use Prim.Native.Nat.{zero}
use predict_iq.Types.{OracleConfig}
use predict_iq.Oracles.{
  validate_oracle_staleness, suc, check_oracles, some, effective_max_staleness,
}
use predict_iq.Env.{Host, Env, ok}
use predict_iq.Prelude.{
  ◌≡◌, arith, ℕ, Option, Bool, ◌+◌, false, ◌-◌, is_some, ◌||◌, ◌≤◌, Option-cases, get_or, inl, true,
  inr,
}

module _ {host : Host} (e : Env host) (id max_staleness : ℕ) where
  -- The update is not older than the limit.
  abbrev pub IsFresh : Option ℕ → Type 0
  IsFresh none = Unit {0}
  IsFresh (some update_time) = e.ledger.timestamp - update_time ≤ max_staleness

  -- So is each of the `n` oracles from `idx` that has an update.
  abbrev pub AllFresh : ℕ → ℕ → Type 0
  AllFresh zero idx = Unit {0}
  AllFresh (suc n) idx = IsFresh (e.oracles.last_update id idx) × AllFresh n (idx + 1)

  -- Whether one of them has an update.
  abbrev pub reported : ℕ → ℕ → Bool
  reported zero idx = false
  reported (suc n) idx = is_some (e.oracles.last_update id idx) || reported n (idx + 1)

  pub check_oracles_ok :
      (n idx : ℕ) (before after : Bool) (e' : Env host)
      → check_oracles id max_staleness n idx before e ≡ (ok after, e')
      → (e' ≡ e) × AllFresh n idx × (after ≡ before || reported n idx)
  unfolding check_oracles
  check_oracles_ok zero idx before after e' h = ground arith
  check_oracles_ok (suc n) idx before after e' h =
      elim (Option-cases (e.oracles.last_update id idx)) [
        | inl silent ↦ ground (arith, check_oracles_ok n (idx + 1) before after e')
        | inr (u, found) ↦ ground (arith, check_oracles_ok n (idx + 1) true after e')
      ]

module _ {host : Host} where
  -- Where the staleness check passes nothing is written, at least one of the configured oracles has
  -- reported, and no report of theirs is older than the effective limit, which is at most a minute.
  pub validate_oracle_staleness_ok :
      (id : ℕ) (config : OracleConfig) (e e' : Env host)
      → validate_oracle_staleness id config e ≡ (ok tt, e')
      → (e' ≡ e)
        × AllFresh e id (effective_max_staleness config) (get_or config.min_responses 1) 0
        × (reported e id (effective_max_staleness config) (get_or config.min_responses 1) 0 ≡ true)
        × (effective_max_staleness config ≤ 60)
  unfolding validate_oracle_staleness effective_max_staleness track_error
  validate_oracle_staleness_ok id config e e' h =
      let limit = effective_max_staleness config in
      let n = get_or config.min_responses 1 in
      let e1 = (check_oracles id limit n 0 false e).1 in
      ground (
        arith,
        check_oracles_ok e id limit n 0 false true e1,
        check_oracles_ok e id limit n 0 false false e1,
      )
