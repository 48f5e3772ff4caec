-- ===== src/Admin/Transfer.antt =====
-- The transfer of the admin's role (propose_admin, accept_admin, cancel_admin_transfer), and the
-- separation of the admin from the guardian.
use predict_iq.Prelude.{◌≡◌, ◌≢◌, true, none, some, arith}
use predict_iq.Types.{Address}
use predict_iq.Env.{Host, Env, ok}
use predict_iq.Admin.{accept_admin}

module _ {host : Host} where
  -- A transfer of the admin's role completes only for the proposed address, with its own
  -- authorization, if it is not the guardian's account; then it is the admin, nothing stays
  -- pending, and the other roles are as before.
  pub accept_admin_ok :
      (caller : Address) (e e' : Env host)
      → accept_admin caller e ≡ (ok tt, e')
      → (e.admins.pending_admin ≡ some caller)
        × (e.ledger.authorized caller ≡ true)
        × (e.admins.guardian_account ≢ some caller)
        × (e'.admins ≡ record e.admins { admin = some caller; pending_admin = none })
  unfolding accept_admin
  accept_admin_ok caller e e' h = ground arith
