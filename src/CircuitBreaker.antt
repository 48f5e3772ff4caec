-- ===== src/CircuitBreaker.antt =====
-- contracts/predict-iq/src/modules/circuit_breaker.rs: the circuit breaker of the contract.
pub mod Recovery
use predict_iq.Prelude.{
  ℕ, ◌+◌, ℤ, pos, Bool, true, false, Option, none, some, leb, leb_ℤ, if◌then◌else◌, get_or,
}
use predict_iq.Types.{CircuitBreakerState, closed, is_open, half_open, paused}
use predict_iq.Types.Error.{contract_paused, invalid_amount}
use predict_iq.Env.{
  Host, Env, M, pure, fail, gets, fail_if, modify, when, now, current_contract, add_u64,
  require_auth, emit, circuit_breaker_triggered, circuit_breaker_threshold_set, ◌>>=◌, ◌>>◌,
}
use predict_iq.Admin.{require_admin, get_guardian}

-- Six hours.
abbrev pub cooldown_seconds : ℕ
cooldown_seconds = 21600

abbrev pub half_open_max_ops : ℕ
half_open_max_ops = 5

abbrev pub default_circuit_breaker_threshold : ℤ
default_circuit_breaker_threshold = pos 1000000000

-- `==` on `CircuitBreakerState`.
abbrev pub eqb_breaker : CircuitBreakerState → CircuitBreakerState → Bool
eqb_breaker closed closed = true
eqb_breaker is_open is_open = true
eqb_breaker half_open half_open = true
eqb_breaker paused paused = true
eqb_breaker _ _ = false

module _ {host : Host} where
  -- The entry that a state brings with it.
  unfoldable pub enter_state : CircuitBreakerState → M host (Unit {0})
  enter_state is_open = do
    t ← now
    modify λ e. record e { breaker = record e.breaker { opened_at = some t } }
  enter_state half_open =
      modify λ e. record e { breaker = record e.breaker { half_open_ops = some 0 } }
  enter_state closed = pure tt
  enter_state paused = pure tt

  unfoldable pub set_state_internal : CircuitBreakerState → M host (Unit {0})
  unfolding enter_state emit
  set_state_internal s = do
    enter_state s
    modify λ e. record e { breaker = record e.breaker { state = some s } }
    contract_addr ← current_contract
    emit (circuit_breaker_triggered contract_addr s)

  unfoldable pub set_state : CircuitBreakerState → M host (Unit {0})
  unfolding require_admin set_state_internal
  set_state s = do require_admin; set_state_internal s

  unfoldable pub force_pause : M host (Unit {0})
  unfolding set_state_internal
  force_pause = set_state_internal paused

  unfoldable pub get_state : M host CircuitBreakerState
  get_state = gets λ e. get_or e.breaker.state closed

  -- The part of `maybe_recover` behind its first return.
  unfoldable pub recover_if_cooled : M host (Unit {0})
  unfolding set_state_internal
  recover_if_cooled = do
    opened_at ← gets (λ e. get_or e.breaker.opened_at 0)
    cooled_at ← add_u64 opened_at cooldown_seconds
    t ← now
    when (leb cooled_at t) (set_state_internal half_open)

  unfoldable pub maybe_recover : M host (Unit {0})
  unfolding get_state recover_if_cooled
  maybe_recover = do s ← get_state; when (eqb_breaker s is_open) recover_if_cooled

  -- The probe of the half-open state.
  unfoldable pub probe : ℕ → M host (Unit {0})
  unfolding set_state_internal
  probe ops =
      if leb half_open_max_ops ops
      then (do set_state_internal is_open; fail contract_paused)
      else modify λ e. record e { breaker = record e.breaker { half_open_ops = some (ops + 1) } }

  unfoldable pub require_state : CircuitBreakerState → M host (Unit {0})
  unfolding probe
  require_state closed = pure tt
  require_state is_open = fail contract_paused
  require_state paused = fail contract_paused
  require_state half_open = do ops ← gets (λ e. get_or e.breaker.half_open_ops 0); probe ops

  unfoldable pub require_closed : M host (Unit {0})
  unfolding maybe_recover get_state require_state
  require_closed = do maybe_recover; s ← get_state; require_state s

  -- The guardian's authorization, or the admin's where no guardian is set.
  unfoldable pub require_guardian_or_admin : M host (Unit {0})
  unfolding get_guardian require_admin
  require_guardian_or_admin = do
    stored ← get_guardian
    elim stored [ none ↦ require_admin | some guardian ↦ require_auth guardian ]

  unfoldable pub pause : M host (Unit {0})
  unfolding require_guardian_or_admin set_state_internal
  pause = do require_guardian_or_admin; set_state_internal paused

  unfoldable pub unpause : M host (Unit {0})
  unfolding require_guardian_or_admin set_state_internal
  unpause = do require_guardian_or_admin; set_state_internal closed

  unfoldable pub require_not_paused_for_high_risk : M host (Unit {0})
  unfolding get_state
  require_not_paused_for_high_risk = do
    s ← get_state
    fail_if (eqb_breaker s paused) contract_paused

  unfoldable pub get_threshold : M host ℤ
  get_threshold = gets λ e. get_or e.breaker.threshold default_circuit_breaker_threshold

  unfoldable pub set_threshold : ℤ → M host (Unit {0})
  unfolding require_admin get_threshold emit
  set_threshold threshold = do
    require_admin
    fail_if (leb_ℤ threshold (pos 0)) invalid_amount
    old_threshold ← get_threshold
    modify λ e. record e { breaker = record e.breaker { threshold = some threshold } }
    emit (circuit_breaker_threshold_set old_threshold threshold)
