-- ===== src/Migration.antt =====
-- contracts/predict-iq/src/modules/migration.rs: a migration of the storage, with its rollback, and
-- the checks of stakes. The migration itself is a parameter.
pub mod Rollback
use Prim.Native.Nat.{zero}
use predict_iq.Markets.{find_market}
use predict_iq.Types.{Address, Guardian}
use predict_iq.Env.{
  Host, M, Outcome, modify, ◌>>=◌, ◌>>◌, ok, gets, fail, fail_if, pure, ok_or, err, panic, Env,
}
use predict_iq.Prelude.{
  ℕ, ℤ, SortedMap, Option, Bool, some, put, if◌then◌else◌, suc, is_some, none, leb, true,
  checked_add, ◌&&◌, length, ◌+◌, value, pos, false, lookup, eqb_ℤ, List,
}
use predict_iq.Types.Error.{
  not_authorized, migration_validation_error, arithmetic_overflow, ErrorCode,
}

-- The sum of the stakes at the keys from `outcome_idx` on, `n` of them.
unfoldable pub sum_stakes : ℕ → ℕ → ℤ → SortedMap ℤ → Option ℤ
sum_stakes zero outcome_idx total stakes = some total
sum_stakes (suc n) outcome_idx total stakes = elim (lookup outcome_idx stakes) [
  | none ↦ sum_stakes n (outcome_idx + 1) total stakes
  | some stake ↦ elim (checked_add total stake) [
    | none ↦ none
    | some next ↦ sum_stakes n (outcome_idx + 1) next stakes
  ]
]

pub record MigrationLogEntry : Type 0 where
  pub from_version : ℕ
  pub to_version : ℕ
  pub timestamp : ℕ

pub record MigrationBackup : Type 0 where
  pub admin : Option Address
  pub guardian_set : Option (List Guardian)

-- The storage with the keys of this module beside those of the others.
pub record Storage (host : Host) : Type 0 where
  pub env : Env host
  pub backup : ℕ → Option MigrationBackup
  pub log : ℕ → Option MigrationLogEntry

module _ {host : Host} where
  unfoldable pub backup_storage_state : ℕ → Storage host → Storage host
  backup_storage_state version s = record s {
    backup = put s.backup version (
        some (record { admin = s.env.admins.admin; guardian_set = s.env.governance.guardian_set }));
  }

  unfoldable pub restore_storage_state : ℕ → Storage host → Outcome (Unit {0}) × Storage host
  restore_storage_state version s = elim (s.backup version) [
    | none ↦ (err not_authorized, s)
    | some b ↦ (
      ok tt,
      record s {
        env = record s.env {
          admins = record s.env.admins { admin = b.admin };
          governance = record s.env.governance { guardian_set = b.guardian_set };
        };
        backup = put s.backup version none;
      },
    )
  ]

  unfoldable pub record_migration : ℕ → ℕ → Storage host → Storage host
  record_migration from_version to_version s = record s {
    log = put s.log to_version (
        some (record {
          from_version = from_version;
          to_version = to_version;
          timestamp = s.env.ledger.timestamp;
        }));
  }

  abbrev pub get_migration_log : ℕ → Storage host → Option MigrationLogEntry
  get_migration_log to_version s = s.log to_version

  unfoldable pub verify_migration_integrity : Storage host → Bool
  verify_migration_integrity s = is_some s.env.admins.admin && is_some s.env.governance.guardian_set

  -- After the migration, where the keys are there.
  unfoldable pub finish_migration : ℕ → ℕ → Storage host → Storage host
  unfolding record_migration
  finish_migration from_version to_version s =
      let recorded = record_migration from_version to_version s in
      record recorded { backup = put recorded.backup from_version none }

  -- The error, where the storage can be restored.
  unfoldable pub roll_back : ℕ → ErrorCode → Storage host → Outcome (Unit {0}) × Storage host
  unfolding restore_storage_state
  roll_back from_version code s =
      let (r, restored) = restore_storage_state from_version s in
      elim r [ ok u ↦ (err code, restored) | err c ↦ (err c, restored) | panic ↦ (panic, restored) ]

  -- The two arms of the match on what the migration returns.
  unfoldable pub conclude_migration :
      ℕ → ℕ → Outcome (Unit {0}) → Storage host → Outcome (Unit {0}) × Storage host
  unfolding verify_migration_integrity finish_migration roll_back
  conclude_migration from_version to_version (ok u) s =
      if verify_migration_integrity s
      then (ok tt, finish_migration from_version to_version s)
      else roll_back from_version migration_validation_error s
  conclude_migration from_version to_version (err code) s = roll_back from_version code s
  conclude_migration from_version to_version panic s = (panic, s)

  unfoldable pub run_migration :
      ℕ
      → ℕ
      → (Storage host → Outcome (Unit {0}) × Storage host)
      → Storage host
      → Outcome (Unit {0}) × Storage host
  unfolding conclude_migration
  run_migration from_version to_version migration_fn s =
      let (r, migrated) = migration_fn s in conclude_migration from_version to_version r migrated

  unfoldable pub execute_migration :
      ℕ
      → ℕ
      → (Storage host → Outcome (Unit {0}) × Storage host)
      → Storage host
      → Outcome (Unit {0}) × Storage host
  unfolding backup_storage_state run_migration
  execute_migration from_version to_version migration_fn s =
      if leb to_version from_version
      then (err not_authorized, s)
      else run_migration from_version to_version migration_fn (backup_storage_state from_version s)

  -- After the rollback, the entry of this migration in the log.
  unfoldable pub clear_log :
      ℕ → Outcome (Unit {0}) × Storage host → Outcome (Unit {0}) × Storage host
  clear_log to_version (ok u, s) = (ok tt, record s { log = put s.log to_version none })
  clear_log to_version (err c, s) = (err c, s)
  clear_log to_version (panic, s) = (panic, s)

  unfoldable pub reverse_migration : ℕ → ℕ → Storage host → Outcome (Unit {0}) × Storage host
  unfolding restore_storage_state clear_log
  reverse_migration from_version to_version s =
      if leb to_version from_version
      then (err not_authorized, s)
      else clear_log to_version (restore_storage_state from_version s)

  unfoldable pub validate_stake_invariant : ℕ → M host Bool
  unfolding sum_stakes
  validate_stake_invariant market_id = do
    market ← find_market market_id
    let stakes = market.outcome_stakes
    total ← ok_or (sum_stakes (length stakes) 0 (pos 0) stakes) arithmetic_overflow
    pure (eqb_ℤ market.total_staked total)

  -- `n` markets from the given id on.
  unfoldable pub validate_from : ℕ → ℕ → M host Bool
  unfolding validate_stake_invariant
  validate_from zero market_id = pure true
  validate_from (suc n) market_id = do
    found ← gets λ e. e.markets.market market_id
    valid ← (if is_some found then validate_stake_invariant market_id else pure true)
    (if valid then validate_from n (market_id + 1) else pure false)

  unfoldable pub validate_all_markets_stake_invariant : ℕ → M host Bool
  unfolding validate_from
  validate_all_markets_stake_invariant market_count = validate_from market_count 1
