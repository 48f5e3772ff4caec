-- ===== src/Examples/Migration.antt =====
-- A migration that fails, one that succeeds, and the check of a market with one bet.
use predict_iq.Types.Error.{market_not_found, not_authorized}
use predict_iq.Types.{Market}
use predict_iq.Prelude.{◌≡◌, is_some, some, true, pos, ◌∷◌, false, none, [], arith, refl}
use predict_iq.Env.{err, ok, Outcome}
use predict_iq.Examples.{test_host, test_env, test_market, with_market}
use predict_iq.Migration.Rollback.{
  execute_migration_err, execute_migration-reverse_migration, validate_stake_invariant_gap,
}
use predict_iq.Migration.{
  execute_migration, reverse_migration, validate_stake_invariant, Storage, run_migration,
  conclude_migration, backup_storage_state,
}

abbrev test_storage : Storage test_host
test_storage = record { env = test_env; backup = λ v. none; log = λ v. none }

-- It takes the administrator away, and then fails.
abbrev failing_migration : Storage test_host → Outcome (Unit {0}) × Storage test_host
failing_migration e = (
  err market_not_found,
  record e { env = record e.env { admins = record e.env.admins { admin = none } } },
)

abbrev failed_env : Storage test_host
failed_env = (execute_migration 1 2 failing_migration test_storage).1

migration_failed :
    execute_migration 1 2 failing_migration test_storage ≡ (err market_not_found, failed_env)
unfolding execute_migration run_migration conclude_migration backup_storage_state
migration_failed = refl

execute_migration_err_example :
    (failed_env.env.admins.admin ≡ some 1)
    × (failed_env.env.governance.guardian_set ≡ test_env.governance.guardian_set)
execute_migration_err_example =
    execute_migration_err 1 2 failing_migration market_not_found test_storage failed_env (λ e. refl)
      migration_failed

abbrev migration : Storage test_host → Outcome (Unit {0}) × Storage test_host
migration e = (ok tt, e)

abbrev migrated_env : Storage test_host
migrated_env = (execute_migration 1 2 migration test_storage).1

migrated : execute_migration 1 2 migration test_storage ≡ (ok tt, migrated_env)
unfolding execute_migration run_migration conclude_migration backup_storage_state
migrated = refl

execute_migration-reverse_migration_example :
    (is_some (migrated_env.log 2) ≡ true)
    × (reverse_migration 1 2 migrated_env ≡ (err not_authorized, migrated_env))
execute_migration-reverse_migration_example =
    execute_migration-reverse_migration 1 2 migration test_storage migrated_env migrated

-- Ten units on outcome 1.
abbrev one_bet : Market
one_bet = record test_market { total_staked = pos 10; outcome_stakes = (1, pos 10) ∷ [] }

validate_stake_invariant_gap_example :
    validate_stake_invariant 1 (with_market one_bet 20) ≡ (ok false, with_market one_bet 20)
validate_stake_invariant_gap_example =
    validate_stake_invariant_gap 1 1 one_bet (with_market one_bet 20) refl refl (omega arith)
      (λ p. ground arith)
