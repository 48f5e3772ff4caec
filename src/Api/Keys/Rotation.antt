-- ===== src/Api/Keys/Rotation.antt =====
-- How long a key that has been rotated out stays valid.
use predict_iq.Api.Keys.{ApiKeyRecord, rotate_api_key, overlap_secs}
use predict_iq.Prelude.{◌∷◌, [], ℕ, Option, List, ◌<◌, ◌+◌}

module _ (label : ℕ) (days : Option ℕ) where
  -- Rotations with the label, each to a new hash at a time, the first one first.
  pub rotate_all : List (ℕ × ℕ) → List ApiKeyRecord → List ApiKeyRecord
  rotate_all [] keys = keys
  rotate_all ((h, t) ∷ rs) keys = rotate_all rs (rotate_api_key h label days t keys).1

  -- Each rotation comes before the time, which it moves to the end of its own overlap; and so does
  -- `now`.
  abbrev pub IsFrequent : ℕ → ℕ → List (ℕ × ℕ) → Type 0
  IsFrequent now x [] = now < x
  IsFrequent now x ((h, t) ∷ rs) = (t < x) × IsFrequent now (t + overlap_secs days) rs
