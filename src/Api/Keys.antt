-- ===== src/Api/Keys.antt =====
-- services/api/src/db.rs, handlers.rs and security.rs: the keys of the administrators, in the table
-- api_keys, their rotation and their test. A key, its hash and a label are numbers, and the hash
-- function is a parameter. The table is a list of rows, the newest first. The numbers of rows that a
-- statement reports are left out: what is modelled here drops them.
pub mod Table
pub mod Refines
pub mod Rotation
use mathlib.Core.List.{[]}
use predict_iq.Prelude.{
  ℕ, Option, Bool, List, not, none, ◌∷◌, max, ◌+◌, contains, if◌then◌else◌, is_some, ◌==◌, false,
  get_or, true, ◌&&◌, some, ◌*◌, ltb, leb, ◌||◌, is_empty,
}

pub record ApiKeyRecord : Type 0 where
  pub key_hash : ℕ
  pub label : ℕ
  pub created_at : ℕ
  pub expires_at : Option ℕ
  pub revoked_at : Option ℕ

-- `revoked_at IS NULL AND (expires_at IS NULL OR expires_at > NOW())`.
abbrev pub is_active : ℕ → ApiKeyRecord → Bool
is_active now k =
    not (is_some k.revoked_at) && elim k.expires_at [ none ↦ true | some t ↦ ltb now t ]

unfoldable pub has_hash : ℕ → List ApiKeyRecord → Bool
has_hash key_hash [] = false
has_hash key_hash (k ∷ keys) = k.key_hash == key_hash || has_hash key_hash keys

-- `none` is the violation of UNIQUE.
unfoldable pub api_key_insert : ℕ → ℕ → ℕ → List ApiKeyRecord → Option (List ApiKeyRecord)
unfolding has_hash
api_key_insert key_hash label now keys =
    if has_hash key_hash keys
    then none
    else some (
        record {
          key_hash = key_hash;
          label = label;
          created_at = now;
          expires_at = none;
          revoked_at = none;
        }
        ∷ keys)

unfoldable pub api_key_set_expires : ℕ → ℕ → List ApiKeyRecord → List ApiKeyRecord
api_key_set_expires key_hash expires_at [] = []
api_key_set_expires key_hash expires_at (k ∷ keys) =
    (if k.key_hash == key_hash then record k { expires_at = some expires_at } else k)
    ∷ api_key_set_expires key_hash expires_at keys

unfoldable pub api_key_validate : ℕ → ℕ → List ApiKeyRecord → Option ApiKeyRecord
api_key_validate key_hash now [] = none
api_key_validate key_hash now (k ∷ keys) =
    let rest = api_key_validate key_hash now keys in
    if k.key_hash == key_hash && is_active now k then some k else rest

-- `expires_at IS NOT NULL AND expires_at <= NOW()`.
abbrev pub is_expired : ℕ → ApiKeyRecord → Bool
is_expired now k = elim k.expires_at [ none ↦ false | some t ↦ leb t now ]

unfoldable pub api_key_delete_expired : ℕ → List ApiKeyRecord → List ApiKeyRecord
api_key_delete_expired now [] = []
api_key_delete_expired now (k ∷ keys) =
    let rest = api_key_delete_expired now keys in if is_expired now k then rest else k ∷ rest

unfoldable pub api_key_list_active : ℕ → List ApiKeyRecord → List ApiKeyRecord
api_key_list_active now [] = []
api_key_list_active now (k ∷ keys) =
    let rest = api_key_list_active now keys in if is_active now k then k ∷ rest else rest

-- The loop of `rotate_api_key` over the active keys.
unfoldable pub schedule_expiry : ℕ → ℕ → List ApiKeyRecord → List ApiKeyRecord → List ApiKeyRecord
schedule_expiry label expires_at [] keys = keys
schedule_expiry label expires_at (k ∷ active) keys =
    schedule_expiry label expires_at active
      (if k.label == label then api_key_set_expires k.key_hash expires_at keys else keys)

abbrev pub overlap_secs : Option ℕ → ℕ
overlap_secs overlap_days = max (get_or overlap_days 7) 1 * 86400

-- Whether it answers with the new key, and the table after it: there is no transaction around the
-- statements.
unfoldable pub rotate_api_key : ℕ → ℕ → Option ℕ → ℕ → List ApiKeyRecord → Bool × List ApiKeyRecord
unfolding api_key_insert api_key_list_active schedule_expiry
rotate_api_key new_hash key_label overlap_days now keys =
    let scheduled =
      schedule_expiry key_label (now + overlap_secs overlap_days) (api_key_list_active now keys)
        keys in
    elim (api_key_insert new_hash key_label now scheduled) [
      | none ↦ (false, scheduled)
      | some inserted ↦ (true, inserted)
    ]

-- ApiKeyAuth::verify, which compares the bytes in constant time.
unfoldable pub verify : List ℕ → ℕ → Bool
verify valid_keys key = not (is_empty valid_keys) && contains key valid_keys

-- The keys of the environment, and then those of the database, if there is one that answers.
unfoldable pub verify_async : (ℕ → ℕ) → List ℕ → Option (List ApiKeyRecord) → ℕ → ℕ → Bool
unfolding verify api_key_validate
verify_async hash_api_key valid_keys db now key = if verify valid_keys key then true else elim db [
  | none ↦ false
  | some keys ↦ is_some (api_key_validate (hash_api_key key) now keys)
]
