-- ===== src/Api/Keys/Table.antt =====
-- The table as a function from a hash to its row: what each operation does to it.
use predict_iq.Api.Keys.{
  ApiKeyRecord, api_key_set_expires, api_key_validate, some, is_active, has_hash, schedule_expiry,
  api_key_list_active, api_key_delete_expired, is_expired,
}
use predict_iq.Prelude.{
  ◌∷◌, [], ℕ, List, Option, ◌≡◌, arith, is_some, none, if◌then◌else◌, ◌==◌, false, Bool, ◌&&◌,
  Bool-cases, ◌||◌, inl, inr,
}

-- The row of a hash.
unfoldable pub row : ℕ → List ApiKeyRecord → Option ApiKeyRecord
row h [] = none
row h (k ∷ keys) = if k.key_hash == h then some k else row h keys

-- The constraint UNIQUE on the hashes.
abbrev pub IsUnique : List ApiKeyRecord → Type 0
IsUnique [] = Unit {0}
IsUnique (k ∷ keys) = (row k.key_hash keys ≡ none) × IsUnique keys

abbrev pub map_row : (ApiKeyRecord → ApiKeyRecord) → Option ApiKeyRecord → Option ApiKeyRecord
map_row f none = none
map_row f (some k) = some (f k)

pub row-api_key_set_expires :
    (h i t : ℕ) (keys : List ApiKeyRecord)
    → row i (api_key_set_expires h t keys) ≡ (
        if i == h then map_row (λ k. record k { expires_at = some t }) (row i keys) else row i keys)
unfolding row api_key_set_expires
row-api_key_set_expires h i t [] = ground arith
row-api_key_set_expires h i t (k ∷ keys) = ground (arith, row-api_key_set_expires h i t keys)

pub api_key_set_expires-IsUnique :
    (h t : ℕ) (keys : List ApiKeyRecord) → IsUnique keys → IsUnique (api_key_set_expires h t keys)
unfolding row api_key_set_expires
api_key_set_expires-IsUnique h t [] u = tt
api_key_set_expires-IsUnique h t (k ∷ keys) u =
    ground (
      arith,
      row-api_key_set_expires h k.key_hash t keys,
      api_key_set_expires-IsUnique h t keys u.1,
    )

pub api_key_validate-row :
    (h now : ℕ) (keys : List ApiKeyRecord)
    → IsUnique keys
    → is_some (api_key_validate h now keys)
      ≡ elim (row h keys) [ none ↦ false | some k ↦ is_active now k ]
unfolding row api_key_validate
api_key_validate-row h now [] u = ground arith
api_key_validate-row h now (k ∷ keys) u = ground (arith, api_key_validate-row h now keys u.1)

pub has_hash-row : (h : ℕ) (keys : List ApiKeyRecord) → has_hash h keys ≡ is_some (row h keys)
unfolding has_hash row
has_hash-row h [] = ground arith
has_hash-row h (k ∷ keys) = ground (arith, has_hash-row h keys)

-- Whether a loop over rows with a label meets the hash.
pub selected : ℕ → ℕ → List ApiKeyRecord → Bool
selected label i [] = false
selected label i (k ∷ ks) = (k.key_hash == i && k.label == label) || selected label i ks

abbrev pub set_expiry : ℕ → ApiKeyRecord → ApiKeyRecord
set_expiry t k = record k { expires_at = some t }

pub row-schedule_expiry :
    (label t i : ℕ) (active keys : List ApiKeyRecord)
    → row i (schedule_expiry label t active keys)
      ≡ (if selected label i active then map_row (set_expiry t) (row i keys) else row i keys)
unfolding schedule_expiry selected
row-schedule_expiry label t i [] keys = ground arith
row-schedule_expiry label t i (k ∷ active) keys = ground (
  arith,
  row-schedule_expiry label t i active keys,
  row-schedule_expiry label t i active (api_key_set_expires k.key_hash t keys),
  row-api_key_set_expires k.key_hash i t keys,
)

pub schedule_expiry-IsUnique :
    (label t : ℕ) (active keys : List ApiKeyRecord)
    → IsUnique keys
    → IsUnique (schedule_expiry label t active keys)
unfolding schedule_expiry
schedule_expiry-IsUnique label t [] keys u = u
schedule_expiry-IsUnique label t (k ∷ active) keys u = elim (Bool-cases (k.label == label)) [
  | inl same ↦ rw same (
      schedule_expiry-IsUnique label t active (api_key_set_expires k.key_hash t keys)
        (api_key_set_expires-IsUnique k.key_hash t keys u))
  | inr other ↦ rw other (schedule_expiry-IsUnique label t active keys u)
]

-- The active row of a hash, with the label.
abbrev pub is_rotated : ℕ → ℕ → Option ApiKeyRecord → Bool
is_rotated label now none = false
is_rotated label now (some k) = is_active now k && k.label == label

pub selected-row :
    (label now i : ℕ) (keys : List ApiKeyRecord)
    → IsUnique keys
    → selected label i (api_key_list_active now keys) ≡ is_rotated label now (row i keys)
unfolding selected api_key_list_active row
selected-row label now i [] u = ground arith
selected-row label now i (k ∷ keys) u = ground (arith, selected-row label now i keys u.1)

pub row-api_key_delete_expired :
    (now i : ℕ) (keys : List ApiKeyRecord)
    → IsUnique keys
    → row i (api_key_delete_expired now keys)
      ≡ elim (row i keys) [ none ↦ none | some k ↦ if is_expired now k then none else some k ]
unfolding row api_key_delete_expired
row-api_key_delete_expired now i [] u = ground arith
row-api_key_delete_expired now i (k ∷ keys) u =
    ground (arith, row-api_key_delete_expired now i keys u.1)

pub api_key_delete_expired-IsUnique :
    (now : ℕ) (keys : List ApiKeyRecord)
    → IsUnique keys
    → IsUnique (api_key_delete_expired now keys)
unfolding api_key_delete_expired
api_key_delete_expired-IsUnique now [] u = tt
api_key_delete_expired-IsUnique now (k ∷ keys) u = ground (
  arith,
  row-api_key_delete_expired now k.key_hash keys u.1,
  api_key_delete_expired-IsUnique now keys u.1,
)
