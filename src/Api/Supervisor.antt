-- ===== src/Api/Supervisor.antt =====
-- src/shutdown.rs and src/worker_supervisor.rs: the restarts of the e-mail worker, by the loop of
-- shutdown.rs and by the counter of worker_supervisor.rs. Delays are milliseconds.
pub mod Restarts
use Prim.Native.Nat.{zero}
use predict_iq.Prelude.{
  ◌%◌, ℕ, Option, ◌*◌, if◌then◌else◌, Bool, min, ltb, get_or, none, ◌+◌, leb, ◌^◌, some, u32_max,
  suc, ◌==◌,
}

abbrev pub max_email_worker_restarts : ℕ
max_email_worker_restarts = 5

abbrev pub email_worker_backoff_base : ℕ
email_worker_backoff_base = 500

-- `EMAIL_WORKER_BACKOFF_BASE * 2u32.saturating_pow(attempt)`.
unfoldable pub email_worker_backoff : ℕ → ℕ
email_worker_backoff attempt = email_worker_backoff_base * min (2 ^ attempt) u32_max

-- `1u32.checked_shl(attempt)`: `none` from 32 bits on.
abbrev pub checked_shl_one : ℕ → Option ℕ
checked_shl_one attempt = if ltb attempt 32 then some (2 ^ attempt) else none

unfoldable pub backoff_for_attempt : ℕ → ℕ
backoff_for_attempt attempt = email_worker_backoff_base * get_or (checked_shl_one attempt) u32_max

pub data SupervisorOutcome : Type 0 where
  completed : SupervisorOutcome
  recovered : ℕ → SupervisorOutcome
  exhausted : ℕ → SupervisorOutcome

-- The outcome, with the crash counter and the milliseconds slept.
pub record Supervised : Type 0 where
  pub outcome : SupervisorOutcome
  pub worker_crash_total : ℕ
  pub slept : ℕ

-- The loop of `supervise` after `attempts` crashes. `worker n` says whether run `n` of the worker
-- ends without a crash; `none` means that the fuel ran out. The counter of attempts is a u32 and
-- that of crashes a u64, which wrap around.
unfoldable pub supervise_from : (ℕ → Bool) → ℕ → ℕ → ℕ → ℕ → ℕ → Option Supervised
unfolding email_worker_backoff
supervise_from worker max_restarts zero attempts crash_total slept = none
supervise_from worker max_restarts (suc fuel) attempts crash_total slept =
    let next = (attempts + 1) % 2 ^ 32 in
    let total = (crash_total + 1) % 2 ^ 64 in
    let again =
      supervise_from worker max_restarts fuel next total (slept + email_worker_backoff attempts) in
    if worker attempts
    then some (record {
      outcome = if attempts == 0 then completed else recovered attempts;
      worker_crash_total = crash_total;
      slept = slept;
    })
    else if ltb max_restarts next
    then some (record { outcome = exhausted next; worker_crash_total = total; slept = slept })
    else again

unfoldable pub supervise : (ℕ → Bool) → ℕ → ℕ → Option Supervised
unfolding supervise_from
supervise worker max_restarts crash_total =
    supervise_from worker max_restarts (max_restarts + 1) 0 crash_total 0

-- `WorkerSupervisor` of worker_supervisor.rs.
pub record WorkerSupervisor : Type 0 where
  pub restarts : ℕ
  pub crashes : ℕ

abbrev pub new_supervisor : WorkerSupervisor
new_supervisor = record { restarts = 0; crashes = 0 }

-- The delay before the next restart, or `none` where the cap has been reached.
unfoldable pub record_crash : WorkerSupervisor → Option ℕ × WorkerSupervisor
unfolding backoff_for_attempt
record_crash s =
    if leb max_email_worker_restarts s.restarts
    then (none, record s { crashes = s.crashes + 1 })
    else (
      some (backoff_for_attempt s.restarts),
      record s { restarts = s.restarts + 1; crashes = s.crashes + 1 },
    )
