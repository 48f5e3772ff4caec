-- ===== src/Api/EmailQueue/Redis.antt =====
-- What the queue relies on of the sorted sets of Redis, as documented for ZADD, ZREM, ZPOPMIN, ZRANGE
-- and ZRANGEBYSCORE. `score` is ZSCORE.
use mathlib.Core.List.{[]}
use predict_iq.Prelude.{
  ℕ, Bool, Option, ◌==◌, List, ℤ, ◌&&◌, false, ◌≡◌, ◌∷◌, some, if◌then◌else◌, ◌||◌, leb_ℤ, none,
  is_some,
}

abbrev pub eqb_member : ℕ × ℕ → ℕ × ℕ → Bool
eqb_member m n = m.0 == n.0 && m.1 == n.1

module _ {K : Type 0} (eqb : K → K → Bool) where
  abbrev pub among : K → List K → Bool
  among k [] = false
  among k (x ∷ xs) = eqb k x || among k xs

abbrev pub within : Option ℤ → ℤ → Bool
within none bound = false
within (some score) bound = leb_ℤ score bound

pub record SortedSets (K : Type 0) (eqb : K → K → Bool) : Type 1 where
  pub Set : Type 0
  pub score : Set → K → Option ℤ
  pub zadd : Set → K → ℤ → Set
  pub zrem : Set → K → Set
  pub zpopmin : Set → Option (K × Set)
  pub zrange : Set → List K
  pub zrangebyscore : Set → ℤ → List K
  pub score-zadd :
      (s : Set) (k j : K) (v : ℤ) → score (zadd s k v) j ≡ (if eqb j k then some v else score s j)
  pub score-zrem : (s : Set) (k j : K) → score (zrem s k) j ≡ (if eqb j k then none else score s j)
  pub score-zpopmin :
      (s rest : Set) (k j : K)
      → zpopmin s ≡ some (k, rest)
      → score rest j ≡ (if eqb j k then none else score s j)
  pub among-zrange : (s : Set) (k : K) → among eqb k (zrange s) ≡ is_some (score s k)
  pub among-zrangebyscore :
      (s : Set) (k : K) (bound : ℤ) → among eqb k (zrangebyscore s bound) ≡ within (score s k) bound
