-- ===== src/Api/RateLimit.antt =====
-- services/api/src/rate_limit.rs: the sliding window. The sorted set of a key is the list of its
-- scores, one for each request, since every member is unique; its expiry, a second after the window,
-- removes nothing that the next call does not evict.
pub mod Window
use mathlib.Core.List.{[]}
use predict_iq.Prelude.{ℕ, List, ◌∷◌, ◌-◌, if◌then◌else◌, length, ◌*◌, leb, ltb}

pub record RateLimitConfig : Type 0 where
  pub max_requests : ℕ
  pub window_seconds : ℕ

pub data RateLimitResult : Type 0 where
  allowed_count : ℕ → RateLimitResult
  retry_after : ℕ → RateLimitResult

-- `ZREMRANGEBYSCORE key -inf window_start`.
unfoldable pub evict : ℕ → List ℕ → List ℕ
evict window_start [] = []
evict window_start (t ∷ ts) =
    let rest = evict window_start ts in if leb t window_start then rest else t ∷ rest

-- The script, which counts the request before it is judged.
unfoldable pub sliding_window : ℕ → ℕ → List ℕ → ℕ × List ℕ
unfolding evict
sliding_window now_ms window_start_ms entries =
    let kept = evict window_start_ms (now_ms ∷ entries) in (length kept, kept)

-- What becomes of the call of Redis: no connection; a script that does not run, or one that runs and
-- whose answer is lost; or an answer.
pub data Reach : Type 0 where
  no_connection not_run answer_lost answered : Reach

unfoldable pub check_rate_limit : RateLimitConfig → Reach → ℕ → List ℕ → RateLimitResult × List ℕ
unfolding sliding_window
check_rate_limit config no_connection now_ms entries = (retry_after config.window_seconds, entries)
check_rate_limit config not_run now_ms entries = (retry_after config.window_seconds, entries)
check_rate_limit config answer_lost now_ms entries = (
  retry_after config.window_seconds,
  (sliding_window now_ms (now_ms - config.window_seconds * 1000) entries).1,
)
check_rate_limit config answered now_ms entries =
    let (count, kept) = sliding_window now_ms (now_ms - config.window_seconds * 1000) entries in
    (
      if ltb config.max_requests count
          then retry_after config.window_seconds
          else allowed_count count,
      kept,
    )
