-- ===== src/Api/Subscribers.antt =====
-- services/api/src/db.rs: the table newsletter_subscribers, and what the statements on it do. Texts are
-- numbers. The table is the list of its rows, of which an address has one at most.
pub mod Lifecycle
use predict_iq.Prelude.{
  [], ◌∷◌, none, some, ℕ, List, Bool, Option, if◌then◌else◌, false, ◌==◌, true, not, ◌&&◌, ◌||◌,
  is_some, ltb, leb, ◌+◌, ◌-◌,
}

pub record NewsletterSubscriber : Type 0 where
  pub email : ℕ
  pub source : ℕ
  pub confirmed : Bool
  pub confirmation_token : Option ℕ
  pub created_at : ℕ
  pub confirmed_at : Option ℕ
  pub unsubscribed_at : Option ℕ
  pub deleted_at : Option ℕ

abbrev pub Rows : Type 0
Rows = List NewsletterSubscriber

-- UPDATE … SET … WHERE: the rows after it, and whether there was a row to change.
unfoldable pub update_where :
    (NewsletterSubscriber → Bool) → (NewsletterSubscriber → NewsletterSubscriber) → Rows → Rows
update_where p f [] = []
update_where p f (r ∷ rs) = (if p r then f r else r) ∷ update_where p f rs

unfoldable pub any_where : (NewsletterSubscriber → Bool) → Rows → Bool
any_where p [] = false
any_where p (r ∷ rs) = p r || any_where p rs

-- DELETE … WHERE.
unfoldable pub delete_where : (NewsletterSubscriber → Bool) → Rows → Rows
delete_where p [] = []
delete_where p (r ∷ rs) = let rest = delete_where p rs in if p r then rest else r ∷ rest

abbrev pub has_email : ℕ → NewsletterSubscriber → Bool
has_email email r = r.email == email

-- The row of the address that has not been deleted.
abbrev pub is_listed : ℕ → NewsletterSubscriber → Bool
is_listed email r = r.email == email && not (is_some r.deleted_at)

unfoldable pub newsletter_get_by_email : ℕ → Rows → Option NewsletterSubscriber
newsletter_get_by_email email [] = none
newsletter_get_by_email email (r ∷ rs) =
    let rest = newsletter_get_by_email email rs in if is_listed email r then some r else rest

-- The row that INSERT … ON CONFLICT DO UPDATE leaves for an address that has one.
abbrev pub renewed : ℕ → ℕ → ℕ → NewsletterSubscriber → NewsletterSubscriber
renewed source token now r = record r {
  source = source;
  confirmed = false;
  confirmation_token = some token;
  created_at = now;
  confirmed_at = none;
  unsubscribed_at = none;
}

unfoldable pub newsletter_upsert_pending : ℕ → ℕ → ℕ → ℕ → Rows → Rows
unfolding update_where any_where
newsletter_upsert_pending email source confirmation_token now rows =
    if any_where (has_email email) rows
    then update_where (has_email email) (renewed source confirmation_token now) rows
    else record {
      email = email;
      source = source;
      confirmed = false;
      confirmation_token = some confirmation_token;
      created_at = now;
      confirmed_at = none;
      unsubscribed_at = none;
      deleted_at = none;
    }
      ∷ rows

-- `confirmation_token = $1 AND created_at > NOW() - ttl`.
abbrev pub is_confirmable : ℕ → ℕ → ℕ → NewsletterSubscriber → Bool
is_confirmable token token_ttl_secs now r =
    elim r.confirmation_token [ none ↦ false | some t ↦ t == token ]
    && ltb now (r.created_at + token_ttl_secs)

abbrev pub confirm_row : ℕ → NewsletterSubscriber → NewsletterSubscriber
confirm_row now r = record r {
  confirmed = true;
  confirmation_token = none;
  confirmed_at = some now;
  unsubscribed_at = none;
}

unfoldable pub newsletter_confirm_by_token : ℕ → ℕ → ℕ → Rows → Bool × Rows
unfolding update_where any_where
newsletter_confirm_by_token token token_ttl_secs now rows = (
  any_where (is_confirmable token token_ttl_secs now) rows,
  update_where (is_confirmable token token_ttl_secs now) (confirm_row now) rows,
)

-- `confirmed = FALSE AND created_at <= NOW() - ttl`.
abbrev pub is_expired_pending : ℕ → ℕ → NewsletterSubscriber → Bool
is_expired_pending token_ttl_secs now r = not r.confirmed && leb (r.created_at + token_ttl_secs) now

-- LIMIT: the first ones, `batch_size` of them.
unfoldable pub newsletter_delete_expired_pending : ℕ → ℕ → ℕ → Rows → Rows
newsletter_delete_expired_pending token_ttl_secs batch_size now [] = []
newsletter_delete_expired_pending token_ttl_secs batch_size now (r ∷ rs) =
    elim (is_expired_pending token_ttl_secs now r && ltb 0 batch_size) [
      | true ↦ newsletter_delete_expired_pending token_ttl_secs (batch_size - 1) now rs
      | false ↦ r ∷ newsletter_delete_expired_pending token_ttl_secs batch_size now rs
    ]

unfoldable pub newsletter_unsubscribe : ℕ → ℕ → Rows → Bool × Rows
unfolding update_where any_where
newsletter_unsubscribe email now rows = (
  any_where (is_listed email) rows,
  update_where (is_listed email) (λ r. record r { unsubscribed_at = some now; confirmed = false })
      rows,
)

unfoldable pub newsletter_soft_delete : ℕ → ℕ → Rows → Bool × Rows
unfolding update_where any_where
newsletter_soft_delete email now rows = (
  any_where (is_listed email) rows,
  update_where (is_listed email) (λ r. record r { deleted_at = some now }) rows,
)

unfoldable pub newsletter_gdpr_delete : ℕ → Rows → Bool × Rows
unfolding delete_where any_where
newsletter_gdpr_delete email rows =
    (any_where (has_email email) rows, delete_where (has_email email) rows)
