-- ===== src/Api/Idempotency.antt =====
-- services/api/src/idempotency.rs: the store of responses by user, route and key. A text is its
-- list of characters; times are instants of a clock that does not go back.
pub mod Replay
use predict_iq.Prelude.{[], ◌∷◌, true, ◌==◌, ◌&&◌, false}
use predict_iq.Prelude.{ℕ, List, Bool, Option, ◌++◌, none, if◌then◌else◌, ◌∷◌, some, not, ltb, ◌-◌}

pub record StoredResponse : Type 0 where
  pub status : ℕ
  pub body : List ℕ
  pub stored_at : ℕ

pub data Found : Type 0 where
  cross_user_collision : Found
  nothing : Found
  response : StoredResponse → Found

-- `==` on texts.
unfoldable pub eqb_text : List ℕ → List ℕ → Bool
eqb_text [] [] = true
eqb_text (c ∷ cs) (d ∷ ds) = let rest = eqb_text cs ds in c == d && rest
eqb_text [] (d ∷ ds) = false
eqb_text (c ∷ cs) [] = false

abbrev pub Entries : Type 0
Entries = List ℕ → Option (List ℕ × StoredResponse)

pub record IdempotencyStore : Type 0 where
  pub inner : Entries
  pub ttl : ℕ

-- `{user_id}:{route_path}:{raw_key}`.
unfoldable pub scoped_key : List ℕ → List ℕ → List ℕ → List ℕ
scoped_key user_id route_path raw_key = user_id ++ (b':' ∷ (route_path ++ (b':' ∷ raw_key)))

unfoldable pub get_response : IdempotencyStore → List ℕ → List ℕ → List ℕ → ℕ → Found
get_response store user_id route_path raw_key now =
    elim (store.inner (scoped_key user_id route_path raw_key)) [
      | none ↦ nothing
      | some (owner, cached) ↦
          if not (eqb_text owner user_id)
          then cross_user_collision
          else if ltb (now - cached.stored_at) store.ttl
          then response cached
          else nothing
    ]

unfoldable pub set_response :
    IdempotencyStore → List ℕ → List ℕ → List ℕ → StoredResponse → IdempotencyStore
set_response store user_id route_path raw_key stored =
    let scoped = scoped_key user_id route_path raw_key in
    record store {
      inner = λ k. if eqb_text k scoped then some (user_id, stored) else store.inner k;
    }

unfoldable pub check_cross_user : IdempotencyStore → List ℕ → List ℕ → Found
check_cross_user store attacker_id victim_key_scoped = elim (store.inner victim_key_scoped) [
  | none ↦ nothing
  | some (owner, cached) ↦
      if not (eqb_text owner attacker_id) then cross_user_collision else nothing
]
