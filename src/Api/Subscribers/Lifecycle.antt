-- ===== src/Api/Subscribers/Lifecycle.antt =====
-- What becomes of a subscription: confirmed, ended, and cleaned up.
use predict_iq.Api.Subscribers.{
  newsletter_get_by_email, Rows, newsletter_upsert_pending, newsletter_confirm_by_token,
  update_where, any_where, newsletter_delete_expired_pending, NewsletterSubscriber, has_email,
  is_listed, is_expired_pending, renewed, is_confirmable, confirm_row, newsletter_unsubscribe,
}
use predict_iq.Prelude.{
  [], ◌∷◌, none, some, ℕ, Bool, ◌≡◌, length, if◌then◌else◌, false, true, ◌≤◌, arith, Bool-cases,
  ◌<◌, refl, inl, ◌+◌, ◌∙◌, inr, ◌-◌,
}

-- A change that keeps the address and the deletion is seen at the row alone.
get-update_where :
    (p : NewsletterSubscriber → Bool) (f : NewsletterSubscriber → NewsletterSubscriber)
    → ((r : NewsletterSubscriber) → (f r).email ≡ r.email)
    → ((r : NewsletterSubscriber) → (f r).deleted_at ≡ r.deleted_at)
    → (email : ℕ) (rows : Rows)
    → newsletter_get_by_email email (update_where p f rows)
      ≡ elim (newsletter_get_by_email email rows) [
        | none ↦ none
        | some r ↦ some (if p r then f r else r)
      ]
unfolding newsletter_get_by_email update_where
get-update_where p f same kept email [] = ground arith
get-update_where p f same kept email (r ∷ rs) =
    ground (arith, same r, kept r, get-update_where p f same kept email rs)

-- The constraint UNIQUE on the addresses.
abbrev pub IsUnique : Rows → Type 0
IsUnique [] = Unit {0}
IsUnique (r ∷ rs) = (any_where (has_email r.email) rs ≡ false) × IsUnique rs

get-none :
    (email : ℕ) (rows : Rows)
    → any_where (has_email email) rows ≡ false
    → newsletter_get_by_email email rows ≡ none
unfolding newsletter_get_by_email any_where
get-none email [] new = refl
get-none email (r ∷ rs) new = ground (arith, get-none email rs)

get-email :
    (email : ℕ) (rows : Rows) (r : NewsletterSubscriber)
    → newsletter_get_by_email email rows ≡ some r
    → is_listed email r ≡ true
unfolding newsletter_get_by_email
get-email email [] r h = cc
get-email email (x ∷ rs) r h = ground (arith, get-email email rs r)

-- The row of an address without a deleted row, after a subscription.
upsert_ok :
    (email source token now : ℕ) (rows : Rows)
    → (any_where (has_email email) rows ≡ true
        → (r : NewsletterSubscriber) × (newsletter_get_by_email email rows ≡ some r))
    → (r : NewsletterSubscriber) × (newsletter_get_by_email email
          (newsletter_upsert_pending email source token now rows)
        ≡ some r)
      × (r.confirmation_token ≡ some token)
      × (r.created_at ≡ now)
unfolding newsletter_upsert_pending
upsert_ok email source token now rows live = elim (Bool-cases (any_where (has_email email) rows)) [
  | inl there ↦
      let (r, found) = live there in
      let listed = get-email email rows r found in
      (
        renewed source token now r,
        rw there (
            get-update_where (has_email email) (renewed source token now) (λ q. refl) (λ q. refl)
              email rows
            ∙ ground (arith, found, listed)),
        refl,
        refl,
      )
  | inr new ↦ (
    record {
      email = email;
      source = source;
      confirmed = false;
      confirmation_token = some token;
      created_at = now;
      confirmed_at = none;
      unsubscribed_at = none;
      deleted_at = none;
    },
    rw new (unfold newsletter_get_by_email in ground arith),
    refl,
    refl,
  )
]

any-get :
    (p : NewsletterSubscriber → Bool) (email : ℕ) (rows : Rows) (r : NewsletterSubscriber)
    → newsletter_get_by_email email rows ≡ some r
    → p r ≡ true
    → any_where p rows ≡ true
unfolding newsletter_get_by_email any_where
any-get p email [] r found holds = cc
any-get p email (x ∷ rs) r found holds = ground (arith, any-get p email rs r)

-- A subscription confirmed with its token before the end of the token's time to live succeeds: the
-- address, if it has no row or one that is not deleted, is then confirmed, without a token and not
-- unsubscribed.
pub newsletter_upsert_pending-newsletter_confirm_by_token :
    (email source token ttl now later : ℕ) (rows : Rows)
    → (any_where (has_email email) rows ≡ true
        → (r : NewsletterSubscriber) × (newsletter_get_by_email email rows ≡ some r))
    → later < now + ttl
    → let (done, after) =
        newsletter_confirm_by_token token ttl later
          (newsletter_upsert_pending email source token now rows) in
      (done ≡ true)
      × ((r : NewsletterSubscriber) × (newsletter_get_by_email email after ≡ some r)
          × (r.confirmed ≡ true)
          × (r.confirmation_token ≡ none)
          × (r.unsubscribed_at ≡ none))
unfolding newsletter_confirm_by_token
newsletter_upsert_pending-newsletter_confirm_by_token email source token ttl now later rows live
      soon =
    let pending = newsletter_upsert_pending email source token now rows in
    let (r, found, with_token, fresh) = upsert_ok email source token now rows live in
    let ready : is_confirmable token ttl later r ≡ true = ground (arith, with_token, fresh) in
    (
      any-get (is_confirmable token ttl later) email pending r found ready,
      (
        confirm_row later r,
        get-update_where (is_confirmable token ttl later) (confirm_row later) (λ q. refl)
              (λ q. refl) email pending
            ∙ ground (arith, found, ready),
        refl,
        refl,
        refl,
      ),
    )

get-delete_none :
    (ttl batch now email : ℕ) (rows : Rows)
    → any_where (has_email email) rows ≡ false
    → newsletter_get_by_email email (newsletter_delete_expired_pending ttl batch now rows) ≡ none
unfolding newsletter_get_by_email newsletter_delete_expired_pending any_where
get-delete_none ttl batch now email [] new = refl
get-delete_none ttl batch now email (x ∷ rs) new =
    ground
      (arith, get-delete_none ttl batch now email rs, get-delete_none ttl (batch - 1) now email rs)

-- A batch that is large enough takes every row that it is for.
get-delete_expired :
    (ttl batch now email : ℕ) (rows : Rows) (r : NewsletterSubscriber)
    → IsUnique rows
    → length rows ≤ batch
    → newsletter_get_by_email email rows ≡ some r
    → newsletter_get_by_email email (newsletter_delete_expired_pending ttl batch now rows)
      ≡ (if is_expired_pending ttl now r then none else some r)
unfolding newsletter_get_by_email newsletter_delete_expired_pending
get-delete_expired ttl batch now email [] r u large found = cc
get-delete_expired ttl batch now email (x ∷ rs) r u large found =
    elim (Bool-cases (is_listed email x)) [
      | inl listed ↦
          let same : x ≡ r = ground (arith, listed, found) in
          let at : x.email ≡ email = ground (arith, listed) in
          let new : any_where (has_email email) rs ≡ false = rw (← at) u.0 in
          rw (← same) (ground (arith, listed, get-delete_none ttl (batch - 1) now email rs new))
      | inr other ↦ ground (
        arith,
        other,
        get-delete_expired ttl batch now email rs r u.1,
        get-delete_expired ttl (batch - 1) now email rs r u.1,
      )
    ]

any-update_where :
    (email : ℕ) (p : NewsletterSubscriber → Bool) (f : NewsletterSubscriber → NewsletterSubscriber)
    → ((r : NewsletterSubscriber) → (f r).email ≡ r.email)
    → (rows : Rows)
    → any_where (has_email email) (update_where p f rows) ≡ any_where (has_email email) rows
unfolding any_where update_where
any-update_where email p f same [] = refl
any-update_where email p f same (r ∷ rs) =
    ground (arith, same r, any-update_where email p f same rs)

update_where-IsUnique :
    (p : NewsletterSubscriber → Bool) (f : NewsletterSubscriber → NewsletterSubscriber)
    → ((r : NewsletterSubscriber) → (f r).email ≡ r.email)
    → (rows : Rows) → IsUnique rows
    → IsUnique (update_where p f rows)
unfolding update_where
update_where-IsUnique p f same [] u = tt
update_where-IsUnique p f same (r ∷ rs) u = (
  ground (arith, same r, any-update_where r.email p f same rs),
  update_where-IsUnique p f same rs u.1,
)

length-update_where :
    (p : NewsletterSubscriber → Bool) (f : NewsletterSubscriber → NewsletterSubscriber)
    (rows : Rows)
    → length (update_where p f rows) ≡ length rows
unfolding update_where
length-update_where p f [] = refl
length-update_where p f (r ∷ rs) = omega (arith, length-update_where p f rs)

-- An address with a row that is older than the time to live is unsubscribed, and then a clean-up large
-- enough for the table removes its row.
pub newsletter_unsubscribe-newsletter_delete_expired_pending :
    (email ttl batch t now : ℕ) (rows : Rows) (r : NewsletterSubscriber)
    → IsUnique rows
    → length rows ≤ batch
    → newsletter_get_by_email email rows ≡ some r
    → r.created_at + ttl ≤ now
    → let (done, after) = newsletter_unsubscribe email t rows in
      (done ≡ true)
      × ((q : NewsletterSubscriber) × (newsletter_get_by_email email after ≡ some q)
          × (q.unsubscribed_at ≡ some t))
      × (newsletter_get_by_email email (newsletter_delete_expired_pending ttl batch now after)
          ≡ none)
unfolding newsletter_unsubscribe
newsletter_unsubscribe-newsletter_delete_expired_pending email ttl batch t now rows r u large found
      old =
    let f : NewsletterSubscriber → NewsletterSubscriber =
      λ q. record q { unsubscribed_at = some t; confirmed = false } in
    let p = is_listed email in
    let listed = get-email email rows r found in
    let at : newsletter_get_by_email email (update_where p f rows) ≡ some (f r) =
      get-update_where p f (λ q. refl) (λ q. refl) email rows ∙ ground (arith, found, listed) in
    let small : length (update_where p f rows) ≤ batch =
      omega (arith, length-update_where p f rows) in
    (
      any-get p email rows r found listed,
      (f r, at, refl),
      get-delete_expired ttl batch now email (update_where p f rows) (f r)
            (update_where-IsUnique p f (λ q. refl) rows u) small at
          ∙ ground arith,
    )
