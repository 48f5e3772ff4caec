-- ===== src/Api/RateLimit/Window.antt =====
-- What the sliding window counts, over all requests of a client.
use mathlib.Core.List.{[]}
use predict_iq.Api.RateLimit.{
  RateLimitConfig, evict, check_rate_limit, retry_after, allowed_count, Reach, no_connection,
  not_run, answer_lost, answered,
}
use predict_iq.Prelude.{
  ℕ, List, ◌≤◌, length, ◌∷◌, if◌then◌else◌, ◌≡◌, ◌-◌, leb, arith, ◌*◌, suc, refl, ltb, Bool, ap,
  false, true,
}

-- The requests after `start`.
unfoldable pub count_after : ℕ → List ℕ → ℕ
count_after start [] = 0
count_after start (t ∷ ts) =
    let rest = count_after start ts in if leb t start then rest else suc rest

-- Newest first.
abbrev pub IsNewestFirst : List ℕ → Type 0
IsNewestFirst [] = Unit {0}
IsNewestFirst (t ∷ []) = Unit {0}
IsNewestFirst (t ∷ u ∷ ts) = (u ≤ t) × IsNewestFirst (u ∷ ts)

-- Whether the script counts a request.
abbrev pub is_run : Reach → Bool
is_run no_connection = false
is_run not_run = false
is_run answer_lost = true
is_run answered = true

-- The times of the requests that the script has counted.
unfoldable pub recorded : List (ℕ × Reach) → List ℕ
recorded [] = []
recorded ((t, r) ∷ rs) = let rest = recorded rs in if is_run r then t ∷ rest else rest

-- The entries after the given requests, the newest first.
unfoldable pub entries_after : RateLimitConfig → List (ℕ × Reach) → List ℕ
entries_after config [] = []
entries_after config ((t, r) ∷ rs) = (check_rate_limit config r t (entries_after config rs)).1

-- The entries after the requests that the script has counted.
unfoldable counted : RateLimitConfig → List ℕ → List ℕ
counted config [] = []
counted config (t ∷ ts) = evict (t - config.window_seconds * 1000) (t ∷ counted config ts)

entries_after-counted :
    (config : RateLimitConfig) (rs : List (ℕ × Reach))
    → entries_after config rs ≡ counted config (recorded rs)
unfolding entries_after check_rate_limit recorded counted
entries_after-counted config [] = refl
entries_after-counted config ((t, no_connection) ∷ rs) = entries_after-counted config rs
entries_after-counted config ((t, not_run) ∷ rs) = entries_after-counted config rs
entries_after-counted config ((t, answer_lost) ∷ rs) =
    ap (λ ts. evict (t - config.window_seconds * 1000) (t ∷ ts)) (entries_after-counted config rs)
entries_after-counted config ((t, answered) ∷ rs) =
    ap (λ ts. evict (t - config.window_seconds * 1000) (t ∷ ts)) (entries_after-counted config rs)

evict_twice : (a b : ℕ) (ts : List ℕ) → a ≤ b → evict b (evict a ts) ≡ evict b ts
unfolding evict
evict_twice a b [] h = refl
evict_twice a b (t ∷ ts) h = ground (arith, evict_twice a b ts)

length-evict : (a : ℕ) (ts : List ℕ) → length (evict a ts) ≡ count_after a ts
unfolding evict count_after
length-evict a [] = refl
length-evict a (t ∷ ts) = ground (arith, length-evict a ts)

newest_rest : (t : ℕ) (ts : List ℕ) → IsNewestFirst (t ∷ ts) → IsNewestFirst ts
newest_rest t [] h = tt
newest_rest t (u ∷ ts) h = h.1

counted_evict :
    (config : RateLimitConfig) (b : ℕ) (ts : List ℕ)
    → IsNewestFirst ts
    → (t : ℕ) → IsNewestFirst (t ∷ ts)
    → t - config.window_seconds * 1000 ≤ b
    → evict b (counted config ts) ≡ evict b ts
unfolding counted evict
counted_evict config b [] s t s' h = refl
counted_evict config b (u ∷ ts) s t s' h =
    let a = u - config.window_seconds * 1000 in
    ground (
      arith,
      evict_twice a b (u ∷ counted config ts) (omega arith),
      counted_evict config b ts (newest_rest u ts s) u s (omega arith),
    )

-- Over any requests of a client whose times do not go back, some of which may not reach Redis or
-- lose its answer: an answered one is refused exactly if the requests that the script has counted,
-- it included, are more than max_requests later than the start of the window, though the set keeps
-- only what the earlier calls have left; and any other one is refused.
pub check_rate_limit-count_after :
    (config : RateLimitConfig) (t : ℕ) (r : Reach) (rs : List (ℕ × Reach))
    → IsNewestFirst (t ∷ recorded rs)
    → let count = count_after (t - config.window_seconds * 1000) (t ∷ recorded rs) in
      (check_rate_limit config r t (entries_after config rs)).0 ≡ elim r [
        | no_connection ↦ retry_after config.window_seconds
        | not_run ↦ retry_after config.window_seconds
        | answer_lost ↦ retry_after config.window_seconds
        | answered ↦
            if ltb config.max_requests count
            then retry_after config.window_seconds
            else allowed_count count
      ]
unfolding check_rate_limit evict count_after
check_rate_limit-count_after config t no_connection rs s = refl
check_rate_limit-count_after config t not_run rs s = refl
check_rate_limit-count_after config t answer_lost rs s = refl
check_rate_limit-count_after config t answered rs s =
    let a = t - config.window_seconds * 1000 in
    let ts = recorded rs in
    rw (entries_after-counted config rs) (
      ground (
        arith,
        counted_evict config a ts (newest_rest t ts s) t s (omega arith),
        length-evict a ts,
      ))
