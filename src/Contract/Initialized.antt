-- ===== src/Contract/Initialized.antt =====
-- The initialization of the contract.
use predict_iq.Types.Error.{already_initialized}
use predict_iq.Types.{Address, closed}
use predict_iq.Contract.{initialize}
use predict_iq.Env.{Host, Env, ok, at_time, err}
use predict_iq.Prelude.{none, some, ℤ, ℕ, ◌≡◌, Option-cases, inl, arith, inr}

module _ {host : Host} where
  -- An initialization that succeeds found no admin. It sets the admin, the base fee and the
  -- persistent entry of the breaker, without any authorization, and every later one is refused.
  pub initialize_ok :
      (a b : Address) (base_fee other_fee : ℤ) (t : ℕ) (e e' : Env host)
      → initialize a base_fee e ≡ (ok tt, e')
      → (e.admins.admin ≡ none)
        × (e'.admins ≡ record e.admins { admin = some a })
        × (e'.fees ≡ record e.fees { base_fee = some base_fee })
        × (e'.breaker ≡ record e.breaker { initial_state = some closed })
        × (e'.markets ≡ e.markets)
        × (initialize b other_fee (at_time t e') ≡ (err already_initialized, at_time t e'))
  unfolding initialize
  initialize_ok a b base_fee other_fee t e e' h = elim (Option-cases e.admins.admin) [
    | inl free ↦ ground (arith, free)
    | inr (c, taken) ↦ absurd (ground (arith, taken))
  ]
