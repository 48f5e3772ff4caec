-- ===== src/Governance.antt =====
-- contracts/predict-iq/src/modules/governance.rs: the guardians, contract upgrades, the removal of
-- guardians and the emergency pause.
pub mod Guardians
pub mod Upgrade
use predict_iq.Types.Error.{
  guardian_not_set, upgrade_already_pending, upgrade_not_initiated, not_authorized,
  already_initialized, insufficient_votes, upgrade_hash_in_cooldown, already_voted_on_upgrade,
  timelock_active, invalid_amount,
}
use mathlib.Core.List.{[]}
use predict_iq.CircuitBreaker.{force_pause}
use predict_iq.Admin.{get_admin, require_admin, is_address}
use predict_iq.Env.{
  Host, bump_ttl, M, emit, Entry, gets, ◌>>=◌, ◌>>◌, modify, guardian_set, fail_if, now, or_panic,
  when, require_auth, ok_or, pure, current_contract, pending_guardian_removal_passed_at,
  pending_upgrade_passed_at, upgrade_rejected, upgrade_executed, pending_emergency_pause,
  pending_guardian_removal, pending_upgrade, fail, upgrade_initiated, upgrade_voted,
}
use predict_iq.Types.{
  Address, Guardian, PendingGuardianRemoval, PendingUpgrade, Hash, upgrade_cooldown_duration,
  UpgradeVoteStats, majority_threshold_percent, ttl_low_threshold, ttl_high_threshold,
  timelock_duration, timelock_min_seconds, guardian_removal_vote_window, timelock_max_seconds,
}
use predict_iq.Prelude.{
  ℕ, ℤ, pos, Bool, true, false, Option, none, some, List, if◌then◌else◌, leb, ◌∷◌, ◌+◌, ◌*◌,
  push_back, ◌-◌, ◌==◌, u32_max, contains, ltb, ◌||◌, get_or, put, is_empty, ◌&&◌, ◌/◌, is_some,
  not, length, is_none,
}

-- The loop that looks for an address among the guardians.
unfoldable pub is_guardian : Address → List Guardian → Bool
is_guardian a [] = false
is_guardian a (g ∷ gs) = g.address == a || is_guardian a gs

-- The guardians but those at an address, in order.
unfoldable pub without : Address → List Guardian → List Guardian
without a [] = []
without a (g ∷ gs) = if g.address == a then without a gs else g ∷ without a gs

-- A sum of u32; `none` is an overflow.
abbrev pub add_u32 : Option ℕ → ℕ → Option ℕ
add_u32 none b = none
add_u32 (some a) b = if leb (a + b) u32_max then some (a + b) else none

unfoldable pub add_powers : Option ℕ → List Guardian → Option ℕ
add_powers total [] = total
add_powers total (g ∷ gs) = add_powers (add_u32 total g.voting_power) gs

-- The power of the first guardian at an address.
unfoldable pub power_of : Address → List Guardian → Option ℕ
power_of a [] = none
power_of a (g ∷ gs) = if g.address == a then some g.voting_power else power_of a gs

abbrev pub add_found : Option ℕ → Option ℕ → Option ℕ
add_found total none = total
add_found total (some p) = add_u32 total p

-- The loop over the votes in `is_majority_met`.
unfoldable pub add_votes : Option ℕ → List Address → List Guardian → Option ℕ
unfolding power_of
add_votes total [] guardians = total
add_votes total (v ∷ vs) guardians = add_votes (add_found total (power_of v guardians)) vs guardians

-- The percentage test of `is_majority_met`; `none` is an overflow of `power_for * 100`.
unfoldable pub percentage_met : ℕ → ℕ → Option Bool
percentage_met power_for total_power =
    if leb (power_for * 100) u32_max
    then some (leb majority_threshold_percent (power_for * 100 / total_power))
    else none

-- The loop over the guardians in `emergency_pause`: all power, and that of the voters.
unfoldable pub add_both : List Guardian → List Address → Option ℕ → Option ℕ → Option ℕ × Option ℕ
add_both [] votes total power_for = (total, power_for)
add_both (g ∷ gs) votes total power_for =
    add_both gs votes (add_u32 total g.voting_power)
      (if contains g.address votes then add_u32 power_for g.voting_power else power_for)

-- Whether the stored admin is among the guardians.
abbrev pub admin_is_guardian : Option Address → List Guardian → Bool
admin_is_guardian none guardians = false
admin_is_guardian (some a) guardians = is_guardian a guardians

abbrev pub with_vote : PendingGuardianRemoval → Address → Bool → PendingGuardianRemoval
with_vote removal voter true = record removal { votes_for = push_back removal.votes_for voter }
with_vote removal voter false = record removal {
  votes_against = push_back removal.votes_against voter;
}

abbrev pub is_pending : Option PendingUpgrade → Hash → Bool
is_pending none wasm_hash = false
is_pending (some upgrade) wasm_hash = upgrade.wasm_hash == wasm_hash

abbrev pub in_cooldown : Option ℕ → ℕ → Bool
in_cooldown none current_time = false
in_cooldown (some rejected_at) current_time =
    leb (current_time - rejected_at) upgrade_cooldown_duration

abbrev pub with_upgrade_vote : PendingUpgrade → Address → Bool → PendingUpgrade
with_upgrade_vote upgrade voter true = record upgrade {
  votes_for = push_back upgrade.votes_for voter;
}
with_upgrade_vote upgrade voter false = record upgrade {
  votes_against = push_back upgrade.votes_against voter;
}

module _ {host : Host} where
  unfoldable pub bump_gov : Entry → M host (Unit {0})
  unfolding bump_ttl
  bump_gov key = bump_ttl key ttl_low_threshold ttl_high_threshold

  unfoldable pub get_guardians : M host (List Guardian)
  get_guardians = gets λ e. get_or e.governance.guardian_set []

  unfoldable pub write_guardians : List Guardian → M host (Unit {0})
  unfolding bump_gov
  write_guardians guardians = do
    modify λ e. record e { governance = record e.governance { guardian_set = some guardians } }
    bump_gov guardian_set

  unfoldable pub initialize_guardians : List Guardian → M host (Unit {0})
  unfolding get_admin is_guardian write_guardians
  initialize_guardians guardians = do
    stored ← gets (λ e. e.governance.guardian_set)
    fail_if (is_some stored) already_initialized
    fail_if (is_empty guardians) not_authorized
    admin ← get_admin
    fail_if (admin_is_guardian admin guardians) not_authorized
    write_guardians guardians

  unfoldable pub add_guardian : Guardian → M host (Unit {0})
  unfolding require_admin get_admin get_guardians is_guardian write_guardians
  add_guardian guardian = do
    require_admin
    admin ← get_admin
    fail_if (is_address admin guardian.address) not_authorized
    guardians ← get_guardians
    fail_if (is_guardian guardian.address guardians) not_authorized
    write_guardians (push_back guardians guardian)

  unfoldable pub write_removal : Option PendingGuardianRemoval → M host (Unit {0})
  write_removal removal =
      modify
        λ e. record e { governance = record e.governance { pending_guardian_removal = removal } }

  unfoldable pub write_removal_passed_at : Option ℕ → M host (Unit {0})
  write_removal_passed_at t =
      modify λ e. record e {
        governance = record e.governance { pending_guardian_removal_passed_at = t };
      }

  unfoldable pub remove_guardian : Address → M host (Unit {0})
  unfolding require_admin get_guardians is_guardian write_removal write_removal_passed_at bump_gov
  remove_guardian address = do
    require_admin
    guardians ← get_guardians
    fail_if (not (is_guardian address guardians)) guardian_not_set
    t ← now
    write_removal (
        some (record {
          target_guardian = address;
          initiated_at = t;
          votes_for = [];
          votes_against = [];
        }))
    write_removal_passed_at none
    bump_gov pending_guardian_removal

  unfoldable pub clear_removal : M host (Unit {0})
  unfolding write_removal write_removal_passed_at
  clear_removal = write_removal none >> write_removal_passed_at none

  unfoldable pub set_guardian_removal_passed_at : M host (Unit {0})
  unfolding write_removal_passed_at bump_gov
  set_guardian_removal_passed_at = do
    t ← now
    write_removal_passed_at (some t)
    bump_gov pending_guardian_removal_passed_at

  -- The votes that decide a removal: of `len - 1` guardians, where the subtraction panics below 0.
  unfoldable pub votes_needed : ℕ → M host ℕ
  votes_needed guardians_count = do
    or_panic (if guardians_count == 0 then none else some tt)
    scaled ← or_panic (
        if leb ((guardians_count - 1) * majority_threshold_percent) u32_max
        then some ((guardians_count - 1) * majority_threshold_percent)
        else none)
    pure (scaled / 100 + 1)

  -- From the recorded vote on.
  unfoldable pub count_removal_vote : PendingGuardianRemoval → ℕ → M host (Unit {0})
  unfolding set_guardian_removal_passed_at clear_removal write_removal bump_gov
  count_removal_vote removal needed = do
    passed_at ← gets (λ e. e.governance.pending_guardian_removal_passed_at)
    when (leb needed (length removal.votes_for) && is_none passed_at) set_guardian_removal_passed_at
    if leb needed (length removal.votes_against)
        then clear_removal
        else do write_removal (some removal); bump_gov pending_guardian_removal

  unfoldable pub vote_on_guardian_removal : Address → Bool → M host (Unit {0})
  unfolding get_guardians is_guardian clear_removal votes_needed count_removal_vote
  vote_on_guardian_removal voter approve = do
    require_auth voter
    guardians ← get_guardians
    fail_if (not (is_guardian voter guardians)) not_authorized
    stored ← gets (λ e. e.governance.pending_guardian_removal)
    removal ← ok_or stored guardian_not_set
    current_time ← now
    when (ltb guardian_removal_vote_window (current_time - removal.initiated_at))
        (clear_removal >> fail guardian_not_set)
    fail_if (contains voter removal.votes_for) already_voted_on_upgrade
    fail_if (contains voter removal.votes_against) already_voted_on_upgrade
    needed ← votes_needed (length guardians)
    count_removal_vote (with_vote removal voter approve) needed

  unfoldable pub get_timelock_duration : M host ℕ
  get_timelock_duration = gets λ e. get_or e.governance.timelock timelock_duration

  unfoldable pub set_timelock_duration : ℕ → M host (Unit {0})
  unfolding require_admin bump_gov
  set_timelock_duration seconds = do
    require_admin
    fail_if (ltb seconds timelock_min_seconds || ltb timelock_max_seconds seconds) invalid_amount
    modify λ e. record e { governance = record e.governance { timelock = some seconds } }
    bump_gov Entry.timelock_duration

  unfoldable pub execute_guardian_removal : M host (Unit {0})
  unfolding require_admin get_timelock_duration get_guardians is_guardian without write_guardians
      clear_removal
  execute_guardian_removal = do
    require_admin
    stored ← gets (λ e. e.governance.pending_guardian_removal)
    removal ← ok_or stored guardian_not_set
    passed ← gets (λ e. e.governance.pending_guardian_removal_passed_at)
    passed_at ← ok_or passed insufficient_votes
    current_time ← now
    timelock ← get_timelock_duration
    fail_if (ltb (current_time - passed_at) timelock) timelock_active
    guardians ← get_guardians
    fail_if (not (is_guardian removal.target_guardian guardians)) guardian_not_set
    write_guardians (without removal.target_guardian guardians)
    clear_removal

  unfoldable pub get_pending_upgrade : M host (Option PendingUpgrade)
  get_pending_upgrade = gets λ e. e.governance.pending_upgrade

  unfoldable pub write_upgrade : Option PendingUpgrade → M host (Unit {0})
  write_upgrade upgrade =
      modify λ e. record e { governance = record e.governance { pending_upgrade = upgrade } }

  unfoldable pub write_upgrade_passed_at : Option ℕ → M host (Unit {0})
  write_upgrade_passed_at t =
      modify λ e. record e { governance = record e.governance { pending_upgrade_passed_at = t } }

  unfoldable pub write_rejected_at : Hash → Option ℕ → M host (Unit {0})
  write_rejected_at wasm_hash t = modify λ e. record e {
    governance = record e.governance {
      upgrade_rejected_at = put e.governance.upgrade_rejected_at wasm_hash t;
    };
  }

  unfoldable pub require_no_upgrade_collision : Hash → M host (Unit {0})
  unfolding get_pending_upgrade
  require_no_upgrade_collision wasm_hash = do
    pending ← get_pending_upgrade
    fail_if (is_pending pending wasm_hash) upgrade_already_pending
    rejected_at ← gets (λ e. e.governance.upgrade_rejected_at wasm_hash)
    current_time ← now
    fail_if (in_cooldown rejected_at current_time) upgrade_hash_in_cooldown

  unfoldable pub initiate_upgrade : Hash → M host (Unit {0})
  unfolding require_admin require_no_upgrade_collision write_upgrade write_upgrade_passed_at
      bump_gov get_admin emit
  initiate_upgrade wasm_hash = do
    require_admin
    require_no_upgrade_collision wasm_hash
    stored ← gets (λ e. e.governance.pending_upgrade)
    fail_if (is_some stored) not_authorized
    current_time ← now
    write_upgrade (
        some (record {
          wasm_hash = wasm_hash;
          initiated_at = current_time;
          votes_for = [];
          votes_against = [];
        }))
    write_upgrade_passed_at none
    bump_gov pending_upgrade
    admin ← get_admin
    contract_addr ← current_contract
    emit (upgrade_initiated (get_or admin contract_addr) wasm_hash)

  -- From the sum of all power on.
  unfoldable pub majority_of : PendingUpgrade → List Guardian → ℕ → M host Bool
  unfolding add_votes percentage_met
  majority_of upgrade guardians total_power = if total_power == 0 then pure false else do
    power_for ← or_panic (add_votes (some 0) upgrade.votes_for guardians)
    or_panic (percentage_met power_for total_power)

  unfoldable pub is_majority_met : PendingUpgrade → M host Bool
  unfolding get_guardians add_powers majority_of
  is_majority_met upgrade = do
    guardians ← get_guardians
    if is_empty guardians then pure false else do
      total_power ← or_panic (add_powers (some 0) guardians)
      majority_of upgrade guardians total_power

  unfoldable pub set_upgrade_passed_at : M host (Unit {0})
  unfolding write_upgrade_passed_at bump_gov
  set_upgrade_passed_at = do
    t ← now
    write_upgrade_passed_at (some t)
    bump_gov pending_upgrade_passed_at

  unfoldable pub vote_for_upgrade : Address → Bool → M host Bool
  unfolding get_guardians is_guardian get_pending_upgrade is_majority_met set_upgrade_passed_at
      write_upgrade bump_gov emit
  vote_for_upgrade voter vote_for = do
    require_auth voter
    guardians ← get_guardians
    fail_if (not (is_guardian voter guardians)) not_authorized
    stored ← get_pending_upgrade
    upgrade ← ok_or stored upgrade_not_initiated
    fail_if (contains voter upgrade.votes_for) already_voted_on_upgrade
    fail_if (contains voter upgrade.votes_against) already_voted_on_upgrade
    met ← is_majority_met (with_upgrade_vote upgrade voter vote_for)
    passed_at ← gets (λ e. e.governance.pending_upgrade_passed_at)
    when (met && is_none passed_at) set_upgrade_passed_at
    write_upgrade (some (with_upgrade_vote upgrade voter vote_for))
    bump_gov pending_upgrade
    emit (upgrade_voted voter vote_for)
    pure true

  unfoldable pub is_timelock_satisfied : M host Bool
  unfolding get_pending_upgrade get_timelock_duration
  is_timelock_satisfied = do
    stored ← get_pending_upgrade
    upgrade ← ok_or stored upgrade_not_initiated
    passed_at ← gets (λ e. e.governance.pending_upgrade_passed_at)
    current_time ← now
    timelock ← get_timelock_duration
    pure (leb timelock (current_time - get_or passed_at upgrade.initiated_at))

  unfoldable pub clear_upgrade : M host (Unit {0})
  unfolding write_upgrade write_upgrade_passed_at
  clear_upgrade = write_upgrade none >> write_upgrade_passed_at none

  unfoldable pub reject_upgrade : Hash → M host Hash
  unfolding write_rejected_at clear_upgrade emit
  reject_upgrade wasm_hash = do
    t ← now
    write_rejected_at wasm_hash (some t)
    clear_upgrade
    emit (upgrade_rejected wasm_hash)
    fail insufficient_votes

  -- `e.deployer().update_current_contract_wasm(wasm_hash)` installs the code.
  unfoldable pub install_upgrade : Hash → M host Hash
  unfolding clear_upgrade write_rejected_at get_admin emit
  install_upgrade wasm_hash = do
    clear_upgrade
    write_rejected_at wasm_hash none
    admin ← get_admin
    contract_addr ← current_contract
    emit (upgrade_executed (get_or admin contract_addr) wasm_hash)
    modify λ e. record e { governance = record e.governance { installed_wasm = some wasm_hash } }
    pure wasm_hash

  -- From the pending upgrade on.
  unfoldable pub decide_upgrade : PendingUpgrade → M host Hash
  decide_upgrade upgrade = do
    met ← is_majority_met upgrade
    if met then install_upgrade upgrade.wasm_hash else reject_upgrade upgrade.wasm_hash

  unfoldable pub execute_upgrade : M host Hash
  unfolding is_timelock_satisfied get_pending_upgrade
  execute_upgrade = do
    satisfied ← is_timelock_satisfied
    fail_if (not satisfied) timelock_active
    stored ← get_pending_upgrade
    upgrade ← ok_or stored upgrade_not_initiated
    decide_upgrade upgrade

  unfoldable pub get_upgrade_votes : M host UpgradeVoteStats
  unfolding get_pending_upgrade
  get_upgrade_votes = do
    stored ← get_pending_upgrade
    upgrade ← ok_or stored upgrade_not_initiated
    pure (record {
      votes_for = length upgrade.votes_for;
      votes_against = length upgrade.votes_against;
    })

  -- From the sums of power on.
  unfoldable pub pause_if_met : List Address → ℕ → ℕ → M host (Unit {0})
  unfolding force_pause bump_gov
  pause_if_met votes total_power power_for =
      if ltb 0 total_power && leb (total_power * 2) (power_for * 3)
      then (do
        modify λ e. record e { governance = record e.governance { pending_emergency_pause = none } }
        force_pause)
      else (do
        modify λ e. record e {
          governance = record e.governance { pending_emergency_pause = some votes };
        }
        bump_gov pending_emergency_pause)

  unfoldable pub emergency_pause : Address → M host (Unit {0})
  unfolding get_guardians is_guardian add_both pause_if_met
  emergency_pause voter = do
    require_auth voter
    guardians ← get_guardians
    fail_if (is_empty guardians) not_authorized
    fail_if (not (is_guardian voter guardians)) not_authorized
    votes ← gets (λ e. get_or e.governance.pending_emergency_pause [])
    fail_if (contains voter votes) already_voted_on_upgrade
    let sums = add_both guardians (push_back votes voter) (some 0) (some 0)
    total_power ← or_panic sums.0
    power_for ← or_panic sums.1
    pause_if_met (push_back votes voter) total_power power_for
