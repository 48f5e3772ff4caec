-- ===== src/Api/Counter.antt =====
-- services/api/src/cache/mod.rs: the counters of incr_with_ttl, and the limiter of addresses of
-- newsletter.rs that uses them. A key is a number, and a key that has expired is missing.
pub mod Window
use predict_iq.Prelude.{
  [], ◌∷◌, List, ℕ, Option, none, Bool, some, put, if◌then◌else◌, ltb, ◌+◌, leb, false,
}

pub record Counter : Type 0 where
  pub count : ℕ
  pub expires_at : ℕ

abbrev pub Counters : Type 0
Counters = ℕ → Option Counter

-- The script: INCR, and EXPIRE on the first increment.
unfoldable pub incr_script : Counters → ℕ → ℕ → ℕ → ℕ × Counters
incr_script cs key ttl now = elim (cs key) [
  | none ↦ (1, put cs key (some (record { count = 1; expires_at = now + ttl })))
  | some c ↦
      if ltb now c.expires_at
      then (c.count + 1, put cs key (some (record c { count = c.count + 1 })))
      else (1, put cs key (some (record { count = 1; expires_at = now + ttl })))
]

-- What becomes of an attempt: the script does not run, or it runs and its answer is lost, or it
-- answers.
pub data Try : Type 0 where
  not_run answer_lost answered : Try

-- The attempts of `exec`, each with its time: none of them where its breaker does not let the call
-- through. An attempt whose answer is lost is made again, though the script has counted it.
unfoldable pub incr_with_ttl : List (ℕ × Try) → Counters → ℕ → ℕ → Option ℕ × Counters
unfolding incr_script
incr_with_ttl [] cs key ttl = (none, cs)
incr_with_ttl ((now, not_run) ∷ tries) cs key ttl = incr_with_ttl tries cs key ttl
incr_with_ttl ((now, answer_lost) ∷ tries) cs key ttl =
    incr_with_ttl tries (incr_script cs key ttl now).1 key ttl
incr_with_ttl ((now, answered) ∷ tries) cs key ttl =
    let (count, after) = incr_script cs key ttl now in (some count, after)

-- IpRateLimiter::allow, which fails closed where Redis does not answer.
unfoldable pub allow_request : List (ℕ × Try) → Counters → ℕ → ℕ → ℕ → Bool × Counters
unfolding incr_with_ttl
allow_request tries cs key max_requests window =
    let (result, after) = incr_with_ttl tries cs key window in
    (elim result [ none ↦ false | some count ↦ leb count max_requests ], after)
