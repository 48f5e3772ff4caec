-- ===== src/Prelude/Maps.antt =====
-- Soroban's `Map<u32, V>`: a list of entries in the order of the keys.
use Prim.Native.Nat.{ℕ, ◌+◌, ◌<◌}
use mathlib.Core.Path.{◌≡◌, refl}
use mathlib.Core.Option.{Option, none, some}
use mathlib.Core.List.{List, [], ◌∷◌}
use native.Mathlib.Omega.{arith}
use predict_iq.Prelude.Tests.{ltb, ◌==◌, if◌then◌else◌}
use predict_iq.Prelude.Int.{ℤ, pos, ◌+ℤ◌, int_laws}

abbrev pub SortedMap {ℓ} : Type ℓ → Type ℓ
SortedMap V = List (ℕ × V)

module _ {ℓ} {V : Type ℓ} where
  abbrev pub lookup : ℕ → SortedMap V → Option V
  lookup k [] = none
  lookup k ((j, v) ∷ m) = if j == k then some v else lookup k m

  -- `Map::set`: in place, or inserted before the first larger key.
  abbrev pub insert : ℕ → V → SortedMap V → SortedMap V
  insert k v [] = (k, v) ∷ []
  insert k v ((j, w) ∷ m) =
      let rest = insert k v m in
      if j == k then (k, v) ∷ m else if ltb k j then (k, v) ∷ (j, w) ∷ m else (j, w) ∷ rest

  -- Every key is above `b`, and the keys rise.
  abbrev pub Above : ℕ → SortedMap V → Type 0
  Above b [] = Unit {0}
  Above b ((j, w) ∷ m) = (b < j) × Above j m

  -- The keys rise strictly.
  abbrev pub IsSorted : SortedMap V → Type 0
  IsSorted [] = Unit {0}
  IsSorted ((j, w) ∷ m) = Above j m

  pub lookup-Above : (b k : ℕ) (m : SortedMap V) → Above b m → k < b + 1 → lookup k m ≡ none
  lookup-Above b k [] h l = refl
  lookup-Above b k ((j, w) ∷ m) h l = ground (arith, lookup-Above j k m h.1)

  pub insert-Above :
      (b k : ℕ) (v : V) (m : SortedMap V) → Above b m → b < k → Above b (insert k v m)
  insert-Above b k v [] h l = (l, tt)
  insert-Above b k v ((j, w) ∷ m) h l = ground (arith, insert-Above j k v m h.1)

  pub insert-IsSorted : (k : ℕ) (v : V) (m : SortedMap V) → IsSorted m → IsSorted (insert k v m)
  insert-IsSorted k v [] h = tt
  insert-IsSorted k v ((j, w) ∷ m) h = ground (arith, insert-Above j k v m h)

  pub lookup-insert :
      (k i : ℕ) (v : V) (m : SortedMap V)
      → lookup i (insert k v m) ≡ (if k == i then some v else lookup i m)
  lookup-insert k i v [] = refl
  lookup-insert k i v ((j, w) ∷ m) = ground (arith, lookup-insert k i v m)

-- The sum of the values.
abbrev pub sum : SortedMap ℤ → ℤ
sum [] = pos 0
sum ((j, w) ∷ m) = w +ℤ sum m

abbrev pub value : Option ℤ → ℤ
value none = pos 0
value (some v) = v

-- Writing a key changes the sum by the difference of the new value and the old one.
pub sum-insert_higher :
    (b k : ℕ) (v : ℤ) (m : SortedMap ℤ)
    → Above b m
    → sum (insert k v m) +ℤ value (lookup k m) ≡ sum m +ℤ v
sum-insert_higher b k v [] h = omega int_laws
sum-insert_higher b k v ((j, w) ∷ m) h =
    grind (int_laws, sum-insert_higher j k v m h.1, lookup-Above j k m h.1)

pub sum-insert :
    (k : ℕ) (v : ℤ) (m : SortedMap ℤ)
    → IsSorted m
    → sum (insert k v m) +ℤ value (lookup k m) ≡ sum m +ℤ v
sum-insert k v [] h = omega int_laws
sum-insert k v ((j, w) ∷ m) h = grind (int_laws, sum-insert_higher j k v m h, lookup-Above j k m h)
