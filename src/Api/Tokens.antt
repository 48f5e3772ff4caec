-- ===== src/Api/Tokens.antt =====
-- services/api/src/newsletter.rs: the tokens of subscriptions. A token hash and a subscriber are
-- numbers, the hash function is a parameter, and times are instants.
pub mod Once
use predict_iq.Prelude.{ℕ, Option, put, none, some, ◌+◌, if◌then◌else◌, ltb, is_some}

pub data UnsubscribeTokenResult : Type 0 where
  valid_token : ℕ → UnsubscribeTokenResult
  already_used : UnsubscribeTokenResult
  invalid_or_expired : UnsubscribeTokenResult

pub record OpaqueEntry : Type 0 where
  pub subscriber_id : ℕ
  pub expires_at : ℕ
  pub used_at : Option ℕ

pub record OpaqueTokenStore : Type 0 where
  pub entries : ℕ → Option OpaqueEntry
  pub token_ttl : ℕ

unfoldable pub insert_token : ℕ → ℕ → ℕ → OpaqueTokenStore → OpaqueTokenStore
insert_token token_hash subscriber_id now s = record s {
  entries = put s.entries token_hash (
      some
        (record { subscriber_id = subscriber_id; expires_at = now + s.token_ttl; used_at = none }));
}

module _ (hash_unsubscribe_token : ℕ → ℕ) where
  unfoldable pub redeem : ℕ → ℕ → OpaqueTokenStore → UnsubscribeTokenResult × OpaqueTokenStore
  redeem raw_token now s =
      let hash = hash_unsubscribe_token raw_token in
      elim (s.entries hash) [
        | none ↦ (invalid_or_expired, s)
        | some entry ↦
            if ltb entry.expires_at now
            then (invalid_or_expired, s)
            else if is_some entry.used_at
            then (already_used, s)
            else (
              valid_token entry.subscriber_id,
              record s {
                entries = put s.entries hash (some (record entry { used_at = some now }));
              },
            )
      ]
