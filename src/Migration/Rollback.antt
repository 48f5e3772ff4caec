-- ===== src/Migration/Rollback.antt =====
-- What a migration that fails leaves behind, and what one that succeeds does.
use predict_iq.Types.{Market}
use predict_iq.Types.Error.{ErrorCode, not_authorized, migration_validation_error}
use predict_iq.Markets.{find_market}
use predict_iq.Prelude.{
  ℕ, ◌≢◌, ◌≡◌, some, arith, Bool-cases, none, is_some, ◌∷◌, ◌&&◌, leb, true, [], inl, ◌<◌, inr, pos,
  false,
}
use predict_iq.Migration.{
  MigrationBackup, roll_back, finish_migration, conclude_migration, execute_migration,
  validate_stake_invariant, restore_storage_state, record_migration, verify_migration_integrity,
  run_migration, sum_stakes, backup_storage_state, reverse_migration, Storage,
}
use predict_iq.Env.{Env, Host, Outcome, err, ok, panic}

module _ {host : Host} where
  roll_back_ok :
      (version : ℕ) (code c : ErrorCode) (b : MigrationBackup) (e e' : Storage host)
      → e.backup version ≡ some b
      → roll_back version code e ≡ (err c, e')
      → (e'.env.admins.admin ≡ b.admin) × (e'.env.governance.guardian_set ≡ b.guardian_set)
  unfolding roll_back restore_storage_state
  roll_back_ok version code c b e e' kept h = ground arith

  conclude_err :
      (from_version to_version : ℕ) (r : Outcome (Unit {0})) (c : ErrorCode) (b : MigrationBackup)
      (e e' : Storage host)
      → e.backup from_version ≡ some b
      → conclude_migration from_version to_version r e ≡ (err c, e')
      → (e'.env.admins.admin ≡ b.admin) × (e'.env.governance.guardian_set ≡ b.guardian_set)
  unfolding conclude_migration verify_migration_integrity
  conclude_err from_version to_version panic c b e e' kept h = ground arith
  conclude_err from_version to_version (err code) c b e e' kept h =
      roll_back_ok from_version code c b e e' kept h
  conclude_err from_version to_version (ok u) c b e e' kept h =
      elim (Bool-cases (is_some e.env.admins.admin && is_some e.env.governance.guardian_set)) [
        | inl sound ↦ ground (arith, sound)
        | inr broken ↦
            roll_back_ok from_version migration_validation_error c b e e' kept
              (ground (arith, broken))
      ]

  -- A migration that ends in an error, of its own or of the checks around it, leaves the
  -- administrator and the guardians as they were before it, if it does not touch the backup of its
  -- starting version.
  pub execute_migration_err :
      (from_version to_version : ℕ)
      (migration_fn : Storage host → Outcome (Unit {0}) × Storage host) (c : ErrorCode)
      (e e' : Storage host)
      → ((e0 : Storage host) → (migration_fn e0).1.backup from_version ≡ e0.backup from_version)
      → execute_migration from_version to_version migration_fn e ≡ (err c, e')
      → (e'.env.admins.admin ≡ e.env.admins.admin)
        × (e'.env.governance.guardian_set ≡ e.env.governance.guardian_set)
  unfolding execute_migration run_migration backup_storage_state
  execute_migration_err from_version to_version migration_fn c e e' keeps h =
      elim (Bool-cases (leb to_version from_version)) [
        | inl backward ↦ ground arith
        | inr forward ↦
            let b : MigrationBackup = record {
              admin = e.env.admins.admin;
              guardian_set = e.env.governance.guardian_set;
            } in
            let e1 = backup_storage_state from_version e in
            let (r, e2) = migration_fn e1 in
            conclude_err from_version to_version r c b e2 e' (ground (arith, keeps e1))
              (ground arith)
      ]

  conclude_ok :
      (from_version to_version : ℕ) (r : Outcome (Unit {0})) (e e' : Storage host)
      → conclude_migration from_version to_version r e ≡ (ok tt, e')
      → (e'.backup from_version ≡ none)
        × (e'.log to_version
            ≡ some (record {
              from_version = from_version;
              to_version = to_version;
              timestamp = e.env.ledger.timestamp;
            }))
        × (is_some e'.env.admins.admin && is_some e'.env.governance.guardian_set ≡ true)
  unfolding conclude_migration verify_migration_integrity finish_migration record_migration
      roll_back restore_storage_state
  conclude_ok from_version to_version panic e e' h = ground arith
  conclude_ok from_version to_version (err code) e e' h = ground arith
  conclude_ok from_version to_version (ok u) e e' h = ground arith

  -- After a migration that succeeds there is an entry for it in the log, and to reverse it is an
  -- error that changes nothing: the backup is gone.
  pub execute_migration-reverse_migration :
      (from_version to_version : ℕ)
      (migration_fn : Storage host → Outcome (Unit {0}) × Storage host) (e e' : Storage host)
      → execute_migration from_version to_version migration_fn e ≡ (ok tt, e')
      → is_some (e'.log to_version) ≡ true
        × (reverse_migration from_version to_version e' ≡ (err not_authorized, e'))
  unfolding execute_migration run_migration reverse_migration restore_storage_state
  execute_migration-reverse_migration from_version to_version migration_fn e e' h =
      let e1 = backup_storage_state from_version e in
      let (r, e2) = migration_fn e1 in
      let done : conclude_migration from_version to_version r e2 ≡ (ok tt, e') = ground arith in
      let (gone, logged, _) = conclude_ok from_version to_version r e2 e' done in
      (ground (arith, logged), ground (arith, gone))

  -- The check of the stakes refuses a market whose stakes lie on one outcome other than the first,
  -- though their sum is its total, if this is not 0: it looks at the keys below the number of
  -- entries only.
  pub validate_stake_invariant_gap :
      (id o : ℕ) (m : Market) (e : Env host)
      → e.markets.market id ≡ some m
      → m.outcome_stakes ≡ (o, m.total_staked) ∷ []
      → 0 < o
      → m.total_staked ≢ pos 0
      → validate_stake_invariant id e ≡ (ok false, e)
  unfolding validate_stake_invariant sum_stakes find_market
  validate_stake_invariant_gap id o m e found one later nonzero = ground arith
