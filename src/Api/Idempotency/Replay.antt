-- ===== src/Api/Idempotency/Replay.antt =====
-- Whose response is replayed, and for how long.
use mathlib.Core.List.{[]}
use predict_iq.Prelude.{List, ℕ, ◌≡◌, true, if◌then◌else◌, ltb, arith, ◌-◌, refl, not}
use predict_iq.Api.Idempotency.{
  eqb_text, get_response, set_response, IdempotencyStore, StoredResponse, ◌∷◌, response, nothing,
  scoped_key, cross_user_collision,
}

eqb_text_self : (cs : List ℕ) → eqb_text cs cs ≡ true
unfolding eqb_text
eqb_text_self [] = refl
eqb_text_self (c ∷ cs) = ground (arith, eqb_text_self cs)

-- A response stored is returned for its user, route and key until its time to live is over. A lookup
-- with another scoped key is answered as before; one with the same scoped key by another user is a
-- collision.
pub get_response-set_response :
    (s : IdempotencyStore) (user route key other other_route other_key : List ℕ)
    (stored : StoredResponse) (now : ℕ)
    → let after = set_response s user route key stored in
      (get_response after user route key now
        ≡ (if ltb (now - stored.stored_at) s.ttl then response stored else nothing))
      × (get_response after other other_route other_key now ≡ (
          if eqb_text (scoped_key other other_route other_key) (scoped_key user route key)
          then (if not (eqb_text user other)
              then cross_user_collision
              else if ltb (now - stored.stored_at) s.ttl
              then response stored
              else nothing)
          else get_response s other other_route other_key now))
unfolding get_response set_response
get_response-set_response s user route key other other_route other_key stored now =
    (ground (arith, eqb_text_self (scoped_key user route key), eqb_text_self user), ground arith)
