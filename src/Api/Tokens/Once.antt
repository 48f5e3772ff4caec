-- ===== src/Api/Tokens/Once.antt =====
-- A token is redeemed once.
use predict_iq.Prelude.{[], ◌∷◌}
use predict_iq.Api.Tokens.{redeem, OpaqueTokenStore, OpaqueEntry, valid_token}
use predict_iq.Prelude.{
  ℕ, List, ◌≡◌, some, is_some, ◌≢◌, true, Option-cases, ℕ_discrete, inl, arith, inr, refl,
}

module _ (hash : ℕ → ℕ) where
  -- The store after attempts to redeem tokens at some times, the first one first.
  pub redeem_all : List (ℕ × ℕ) → OpaqueTokenStore → OpaqueTokenStore
  redeem_all [] s = s
  redeem_all ((raw, t) ∷ rs) s = redeem_all rs (redeem hash raw t s).1

  one_step :
      (raw t : ℕ) (s : OpaqueTokenStore) (h : ℕ) (entry : OpaqueEntry)
      → s.entries h ≡ some entry
      → is_some entry.used_at ≡ true
      → (redeem hash raw t s).1.entries h ≡ some entry
  unfolding redeem
  one_step raw t s h entry found used = elim (ℕ_discrete h (hash raw)) [
    | yes same ↦ let found' : s.entries (hash raw) ≡ some entry = ground arith in ground arith
    | no other ↦ elim (Option-cases (s.entries (hash raw))) [
      | inl missing ↦ ground arith
      | inr (entry', found') ↦ ground arith
    ]
  ]

  -- A used entry stays.
  stays_used :
      (rs : List (ℕ × ℕ)) (s : OpaqueTokenStore) (h : ℕ) (entry : OpaqueEntry)
      → s.entries h ≡ some entry
      → is_some entry.used_at ≡ true
      → (redeem_all rs s).entries h ≡ some entry
  unfolding redeem_all redeem
  stays_used [] s h entry found used = found
  stays_used ((raw, t) ∷ rs) s h entry found used =
      stays_used rs (redeem hash raw t s).1 h entry (one_step raw t s h entry found used) used

  -- After a token has been redeemed, no later attempt at any time redeems it, whatever attempts
  -- come in between.
  pub redeem_once :
      (raw t t' id id' : ℕ) (rs : List (ℕ × ℕ)) (s s' : OpaqueTokenStore)
      → redeem hash raw t s ≡ (valid_token id, s')
      → (redeem hash raw t' (redeem_all rs s')).0 ≢ valid_token id'
  unfolding redeem
  redeem_once raw t t' id id' rs s s' h h' = elim (Option-cases (s.entries (hash raw))) [
    | inl missing ↦ ground arith
    | inr (entry, found) ↦
        let used = record entry { used_at = some t } in
        let marked : s'.entries (hash raw) ≡ some used = ground arith in
        ground (arith, stays_used rs s' (hash raw) used marked refl)
  ]
