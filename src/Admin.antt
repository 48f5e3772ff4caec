-- ===== src/Admin.antt =====
-- contracts/predict-iq/src/modules/admin.rs: the roles, and the two-step transfer of the admin's.
pub mod Transfer
use predict_iq.Prelude.{ℕ, Bool, true, false, Option, none, some, ◌==◌, if◌then◌else◌, not, is_none}
use predict_iq.Types.{Address, ttl_low_threshold, ttl_high_threshold}
use predict_iq.Types.Error.{
  ErrorCode, not_authorized, pending_transfer_not_found, not_pending_owner,
}
use predict_iq.Env.{
  Host, Env, Entry, admin, pending_admin, guardian_account, M, pure, gets, ok_or, fail_if, modify,
  require_auth, bump_ttl, ◌>>=◌, ◌>>◌,
}

-- `stored == Some(candidate)`.
abbrev pub is_address : Option Address → Address → Bool
is_address none candidate = false
is_address (some a) candidate = a == candidate

module _ {host : Host} where
  unfoldable pub bump_gov_ttl : Entry → M host (Unit {0})
  unfolding bump_ttl
  bump_gov_ttl key = bump_ttl key ttl_low_threshold ttl_high_threshold

  unfoldable pub set_admin : Address → M host (Unit {0})
  unfolding bump_gov_ttl
  set_admin a = do
    modify λ e. record e { admins = record e.admins { admin = some a } }
    bump_gov_ttl admin

  unfoldable pub get_admin : M host (Option Address)
  get_admin = gets λ e. e.admins.admin

  unfoldable pub require_admin : M host (Unit {0})
  unfolding get_admin
  require_admin = do stored ← get_admin; a ← ok_or stored not_authorized; require_auth a

  unfoldable pub get_guardian : M host (Option Address)
  get_guardian = gets λ e. e.admins.guardian_account

  unfoldable pub ensure_not_guardian : Address → M host (Unit {0})
  unfolding get_guardian
  ensure_not_guardian candidate = do
    stored ← get_guardian
    fail_if (is_address stored candidate) not_authorized

  unfoldable pub propose_admin : Address → M host (Unit {0})
  unfolding require_admin ensure_not_guardian bump_gov_ttl
  propose_admin new_admin = do
    require_admin
    ensure_not_guardian new_admin
    modify λ e. record e { admins = record e.admins { pending_admin = some new_admin } }
    bump_gov_ttl pending_admin

  unfoldable pub accept_admin : Address → M host (Unit {0})
  unfolding ensure_not_guardian set_admin
  accept_admin caller = do
    require_auth caller
    stored ← gets (λ e. e.admins.pending_admin)
    pending ← ok_or stored pending_transfer_not_found
    fail_if (not (pending == caller)) not_pending_owner
    ensure_not_guardian pending
    set_admin pending
    modify λ e. record e { admins = record e.admins { pending_admin = none } }

  unfoldable pub cancel_admin_transfer : M host (Unit {0})
  unfolding require_admin
  cancel_admin_transfer = do
    require_admin
    stored ← gets (λ e. e.admins.pending_admin)
    fail_if (is_none stored) pending_transfer_not_found
    modify λ e. record e { admins = record e.admins { pending_admin = none } }

  unfoldable pub set_guardian : Address → M host (Unit {0})
  unfolding require_admin bump_gov_ttl
  set_guardian guardian = do
    require_admin
    modify λ e. record e { admins = record e.admins { guardian_account = some guardian } }
    bump_gov_ttl guardian_account

  unfoldable pub require_guardian : M host (Unit {0})
  unfolding get_guardian
  require_guardian = do
    stored ← get_guardian
    guardian ← ok_or stored not_authorized
    require_auth guardian

  unfoldable pub set_governance_token : Address → M host (Unit {0})
  unfolding require_admin
  set_governance_token token = do
    require_admin
    modify λ e. record e { admins = record e.admins { governance_token = some token } }
