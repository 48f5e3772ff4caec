-- ===== src/Api/Counter/Window.antt =====
-- How many requests of a window the limiter of addresses lets through.
use predict_iq.Api.Counter.{
  Counters, Try, incr_script, incr_with_ttl, allow_request, Counter, not_run, answer_lost, answered,
}
use mathlib.Core.List.{[]}
use predict_iq.Prelude.{
  refl, ap, ℕ, List, ◌∷◌, ◌≡◌, true, some, none, Option, ◌+◌, Bool, ◌≤◌, All, if◌then◌else◌, false,
  ◌&&◌, ◌-◌, ◌<◌, leb, arith,
}

-- How many of the requests are let through, the first one first.
pub allowed_among : Counters → ℕ → ℕ → ℕ → List (List (ℕ × Try)) → ℕ
allowed_among cs key max_requests window [] = 0
allowed_among cs key max_requests window (q ∷ qs) =
    let (allowed, after) = allow_request q cs key max_requests window in
    (if allowed then 1 else 0) + allowed_among after key max_requests window qs

-- How often the script runs for a request, and whether the request is answered.
pub runs : List (ℕ × Try) → ℕ
runs [] = 0
runs ((t, not_run) ∷ q) = runs q
runs ((t, answer_lost) ∷ q) = runs q + 1
runs ((t, answered) ∷ q) = 1

pub is_answered : List (ℕ × Try) → Bool
is_answered [] = false
is_answered ((t, not_run) ∷ q) = is_answered q
is_answered ((t, answer_lost) ∷ q) = is_answered q
is_answered ((t, answered) ∷ q) = true

-- The answered requests up to which, after `n` runs before, the script has run max_requests times at
-- most.
pub within_runs : ℕ → ℕ → List (List (ℕ × Try)) → ℕ
within_runs max_requests n [] = 0
within_runs max_requests n (q ∷ qs) =
    let m = n + runs q in
    (if is_answered q && leb m max_requests then 1 else 0) + within_runs max_requests m qs

answered_runs : (q : List (ℕ × Try)) → is_answered q ≡ true → 1 ≤ runs q
unfolding is_answered runs
answered_runs [] yes' = cc
answered_runs ((t, not_run) ∷ q) yes' = answered_runs q yes'
answered_runs ((t, answer_lost) ∷ q) yes' = omega arith
answered_runs ((t, answered) ∷ q) yes' = omega arith

within_runs_le :
    (max_requests n : ℕ) (qs : List (List (ℕ × Try)))
    → within_runs max_requests n qs ≤ max_requests - n
unfolding within_runs
within_runs_le max_requests n [] = omega arith
within_runs_le max_requests n (q ∷ qs) =
    ground (arith, answered_runs q, within_runs_le max_requests (n + runs q) qs)

module _ (key window start : ℕ) where
  abbrev pub IsWithin : List (ℕ × Try) → Type 0
  IsWithin q = All (λ u. (start ≤ u.0) × (u.0 < start + window)) q

  abbrev count_of : Option Counter → ℕ
  count_of none = 0
  count_of (some c) = c.count

  -- Whether a counter lasts until the end of the window.
  abbrev lasts : Option Counter → Bool
  lasts none = true
  lasts (some c) = leb (start + window) c.expires_at

  script_ok :
      (n t : ℕ) (cs : Counters)
      → count_of (cs key) ≡ n
      → lasts (cs key) ≡ true
      → start ≤ t
      → t < start + window
      → ((incr_script cs key window t).0 ≡ n + 1)
        × (count_of ((incr_script cs key window t).1 key) ≡ n + 1)
        × (lasts ((incr_script cs key window t).1 key) ≡ true)
  unfolding incr_script
  script_ok n t cs at long late early = ground arith

  incr_ok :
      (n : ℕ) (q : List (ℕ × Try)) (cs : Counters)
      → count_of (cs key) ≡ n
      → lasts (cs key) ≡ true
      → IsWithin q
      → ((incr_with_ttl q cs key window).0 ≡ (if is_answered q then some (n + runs q) else none))
        × (count_of ((incr_with_ttl q cs key window).1 key) ≡ n + runs q)
        × (lasts ((incr_with_ttl q cs key window).1 key) ≡ true)
  unfolding incr_with_ttl runs is_answered
  incr_ok n [] cs at long within = (refl, omega (arith, at), long)
  incr_ok n ((t, not_run) ∷ q) cs at long within = incr_ok n q cs at long within.1
  incr_ok n ((t, answer_lost) ∷ q) cs at long within =
      let (_, at', long') = script_ok n t cs at long within.0.0 within.0.1 in
      ground (arith, incr_ok (n + 1) q (incr_script cs key window t).1 at' long' within.1)
  incr_ok n ((t, answered) ∷ q) cs at long within =
      let (now, at', long') = script_ok n t cs at long within.0.0 within.0.1 in
      (ap some now, at', long')

  among_ok :
      (max_requests n : ℕ) (qs : List (List (ℕ × Try))) (cs : Counters)
      → count_of (cs key) ≡ n
      → lasts (cs key) ≡ true
      → All IsWithin qs
      → allowed_among cs key max_requests window qs ≡ within_runs max_requests n qs
  unfolding allowed_among within_runs allow_request
  among_ok max_requests n [] cs at long within = refl
  among_ok max_requests n (q ∷ qs) cs at long within =
      let (result, at', long') = incr_ok n q cs at long within.0 in
      let after = (incr_with_ttl q cs key window).1 in
      let rest = among_ok max_requests (n + runs q) qs after at' long' within.1 in
      ground (arith, result, rest)

  -- Of requests on a key without a counter, all of whose attempts come within one window from a
  -- start on, the limiter lets through exactly the answered ones up to which the script has run
  -- max_requests times at most, so max_requests of them at most: an attempt whose answer is lost
  -- counts as well, and a request without an answer is denied.
  pub allow_request_window :
      (max_requests : ℕ) (qs : List (List (ℕ × Try))) (cs : Counters)
      → cs key ≡ none
      → All IsWithin qs
      → (allowed_among cs key max_requests window qs ≡ within_runs max_requests 0 qs)
        × (within_runs max_requests 0 qs ≤ max_requests)
  allow_request_window max_requests qs cs fresh within = (
    among_ok max_requests 0 qs cs (ground (arith, fresh)) (ground (arith, fresh)) within,
    omega (arith, within_runs_le max_requests 0 qs),
  )
