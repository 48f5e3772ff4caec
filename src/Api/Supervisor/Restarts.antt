-- ===== src/Api/Supervisor/Restarts.antt =====
-- How often the e-mail worker is restarted, and after which delays.
use native.Mathlib.Nat.{pow-le-pow_right, mod-eq_of_lt}
use Prim.Native.Nat.{zero}
use predict_iq.Api.Supervisor.{
  email_worker_backoff, supervise_from, backoff_for_attempt, SupervisorOutcome, suc, exhausted,
  some, Supervised, completed, recovered, supervise, WorkerSupervisor, record_crash, new_supervisor,
  max_email_worker_restarts,
}
use predict_iq.Prelude.{
  ℕ, ◌^◌, Bool, Option, ◌≤◌, ◌≡◌, none, ◌+◌, arith, dec_lt, ◌<◌, ◌*◌, if◌then◌else◌, ◌==◌,
  Bool-cases, inl, inr, min, ltb, refl, ◌%◌,
}

-- The two implementations of the delay before a restart, the saturating power in shutdown.rs and
-- the checked shift in worker_supervisor.rs, agree at every attempt.
pub email_worker_backoff-backoff_for_attempt :
    (attempt : ℕ) → email_worker_backoff attempt ≡ backoff_for_attempt attempt
unfolding email_worker_backoff backoff_for_attempt
email_worker_backoff-backoff_for_attempt attempt = elim (dec_lt attempt 32) [
  | yes small ↦
      let bound : 2 ^ attempt ≤ 2 ^ 31 =
        pow-le-pow_right {n = 2} (omega arith) {i = attempt} {j = 31} (omega arith) in
      ground (arith, bound)
  | no large ↦
      let bound : 2 ^ 32 ≤ 2 ^ attempt =
        pow-le-pow_right {n = 2} (omega arith) {i = 32} {j = attempt} (omega arith) in
      ground (arith, bound)
]

-- The first run, of `n` from the given one, that does not crash.
pub first_ok : (ℕ → Bool) → ℕ → ℕ → Option ℕ
first_ok worker zero at = none
first_ok worker (suc n) at =
    let rest = first_ok worker n (at + 1) in if worker at then some at else rest

-- What the supervisor reports for it.
pub reported : ℕ → ℕ → Option ℕ → SupervisorOutcome × ℕ
reported max_restarts crash_total none =
    (exhausted (max_restarts + 1), crash_total + max_restarts + 1)
reported max_restarts crash_total (some n) =
    (if n == 0 then completed else recovered n, crash_total + n)

supervise_from_lem :
    (worker : ℕ → Bool) (max_restarts fuel attempts crash_total slept : ℕ)
    → max_restarts + 1 < 2 ^ 32
    → crash_total + max_restarts + 1 < 2 ^ 64
    → attempts + fuel ≡ max_restarts + 1
    → 0 < fuel
    → (s : Supervised) × (supervise_from worker max_restarts fuel attempts
          (crash_total + attempts)
          slept
        ≡ some s)
      × ((s.outcome, s.worker_crash_total)
          ≡ reported max_restarts crash_total (first_ok worker fuel attempts))
unfolding supervise_from first_ok reported
supervise_from_lem worker max_restarts zero attempts crash_total slept small few h p =
    absurd (omega arith)
supervise_from_lem worker max_restarts (suc fuel) attempts crash_total slept small few h p =
    let next : (attempts + 1) % 2 ^ 32 ≡ attempts + 1 = mod-eq_of_lt (omega arith) in
    let total : (crash_total + attempts + 1) % 2 ^ 64 ≡ crash_total + attempts + 1 =
      mod-eq_of_lt (omega arith) in
    let slept' = slept + email_worker_backoff attempts in
    elim (Bool-cases (worker attempts)) [
      | inl fine ↦ (
        record {
          outcome = if attempts == 0 then completed else recovered attempts;
          worker_crash_total = crash_total + attempts;
          slept = slept;
        },
        rw fine,
        rw fine,
      )
      | inr crashed ↦ elim (dec_lt max_restarts (attempts + 1)) [
        | yes last ↦ (
          record {
            outcome = exhausted (attempts + 1);
            worker_crash_total = crash_total + attempts + 1;
            slept = slept;
          },
          ground (arith, next, total),
          let done : fuel ≡ 0 = omega arith in rw done (ground arith),
        )
        | no more ↦
            let (s, run, result) =
              supervise_from_lem worker max_restarts fuel (attempts + 1) crash_total slept' small
                few (omega arith) (omega arith) in
            (s, ground (arith, run, next, total), ground (arith, result))
      ]
    ]

-- For every worker, every cap below 2 ^ 32 - 1 and a crash counter that does not reach 2 ^ 64, the
-- supervisor's loop ends within max_restarts + 1 runs, and reports what the first run among these
-- that does not crash determines: completion, recovery after as many attempts as crashed, or
-- exhaustion where there is none; the crash counter grows by one for each crash.
pub supervise-first_ok :
    (worker : ℕ → Bool) (max_restarts crash_total : ℕ)
    → max_restarts + 1 < 2 ^ 32
    → crash_total + max_restarts + 1 < 2 ^ 64
    → (s : Supervised) × (supervise worker max_restarts crash_total ≡ some s)
      × ((s.outcome, s.worker_crash_total)
          ≡ reported max_restarts crash_total (first_ok worker (max_restarts + 1) 0))
unfolding supervise
supervise-first_ok worker max_restarts crash_total small few =
    let (s, run, result) =
      supervise_from_lem worker max_restarts (max_restarts + 1) 0 crash_total 0 small few
        (omega arith) (omega arith) in
    (s, ground (arith, run), result)

-- The supervisor after `n` crashes, and the answer to the last of them.
pub crash_all : ℕ → WorkerSupervisor
crash_all zero = new_supervisor
crash_all (suc n) = (record_crash (crash_all n)).1

pub crash_all_lem :
    (n : ℕ)
    → ((crash_all n).crashes ≡ n)
      × ((crash_all n).restarts ≡ min n max_email_worker_restarts)
      × ((record_crash (crash_all n)).0
          ≡ (if ltb n max_email_worker_restarts then some (500 * 2 ^ n) else none))
unfolding crash_all record_crash backoff_for_attempt
crash_all_lem zero = (refl, refl, refl)
crash_all_lem (suc n) = (
  ground (arith, crash_all_lem n),
  ground (arith, crash_all_lem n),
  ground (arith, crash_all_lem n),
)
