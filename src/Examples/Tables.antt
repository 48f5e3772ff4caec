-- ===== src/Examples/Tables.antt =====
-- The theorems on the tables of keys, events and subscribers at small inputs.
use predict_iq.Api.Counter.{answered, incr_with_ttl}
use predict_iq.Api.Keys.Refines.{run, insert_key, rotate, delete_expired, run_refines}
use predict_iq.Api.Subscribers.{
  NewsletterSubscriber, newsletter_get_by_email, newsletter_confirm_by_token,
  newsletter_upsert_pending,
}
use predict_iq.Api.Webhook.Delivery.{
  is_recorded, IsSameBut, deliver_all, deliver_all-IsSameBut, deliver_all_lost, nonce_result,
}
use predict_iq.Api.Webhook.{
  SendGridEvent, Statements, Inbox, process_event, bounce, email_event_exists, EventType,
}
use predict_iq.Api.Subscribers.Lifecycle.{newsletter_upsert_pending-newsletter_confirm_by_token}
use predict_iq.Api.Keys.Table.{IsUnique}
use predict_iq.Api.Keys.{ApiKeyRecord}
use predict_iq.Prelude.{[], ◌∷◌, none, some, Option, ◌≡◌, ℕ, true, false, refl, arith, get_or}

-- A key with hash 1 and label 5.
abbrev pub test_key : ApiKeyRecord
test_key = record { key_hash = 1; label = 5; created_at = 0; expires_at = none; revoked_at = none }

run_refines_example :
    IsUnique (run (insert_key 1 5 10 ∷ rotate 2 5 none 20 ∷ delete_expired 604820 ∷ []) [])
run_refines_example =
    let (unique, _) =
      run_refines (insert_key 1 5 10 ∷ rotate 2 5 none 20 ∷ delete_expired 604820 ∷ []) 1 604820 in
    unique

abbrev pub test_nonce : Option ℕ → EventType → ℕ → ℕ
test_nonce id t email = email

abbrev pub bounced : SendGridEvent
bounced = record { email = 3; event = bounce; message_id = some 9 }

abbrev pub no_suppression : Statements
no_suppression = record {
  nonce_tries = (10, answered) ∷ [];
  exists_up = true;
  create_up = true;
  suppress_up = false;
  newsletter_up = true;
  count_up = true;
}

abbrev pub all_up : Statements
all_up = record no_suppression { suppress_up = true }

abbrev pub test_inbox : Inbox
test_inbox = record {
  nonces = λ k. none;
  events = [];
  suppressions = λ a. none;
  analytics = [];
  subscribers = [];
}

abbrev pub seen_inbox : Inbox
seen_inbox = record test_inbox { events = (some 9, bounce, 3) ∷ [] }

seen : is_recorded test_nonce 60 bounced seen_inbox ≡ true
unfolding is_recorded email_event_exists
seen = refl

unseen : is_recorded test_nonce 60 bounced test_inbox ≡ false
unfolding is_recorded email_event_exists
unseen = refl

deliver_all-IsSameBut_example :
    IsSameBut seen_inbox
      (deliver_all test_nonce 60 bounced ((10, all_up) ∷ (500, all_up) ∷ []) seen_inbox)
deliver_all-IsSameBut_example =
    deliver_all-IsSameBut test_nonce 60 bounced ((10, all_up) ∷ (500, all_up) ∷ []) seen_inbox seen

nonce_new : get_or (nonce_result test_nonce 60 bounced no_suppression test_inbox).0 1 ≡ 1
unfolding incr_with_ttl
nonce_new = refl

deliver_all_lost_example :
    ((process_event test_nonce 60 10 no_suppression bounced test_inbox).0 ≡ false)
    × ((deliver_all test_nonce 60 bounced
          ((10, no_suppression) ∷ (500, all_up) ∷ [])
          test_inbox).suppressions
        ≡ (λ a. none))
deliver_all_lost_example =
    deliver_all_lost test_nonce 60 bounced 10 no_suppression ((500, all_up) ∷ []) test_inbox refl
      (omega (arith, nonce_new)) unseen refl refl refl

abbrev pub subscriber : NewsletterSubscriber
subscriber = record {
  email = 3;
  source = 1;
  confirmed = true;
  confirmation_token = none;
  created_at = 0;
  confirmed_at = some 5;
  unsubscribed_at = none;
  deleted_at = none;
}

subscribed : newsletter_get_by_email 3 (subscriber ∷ []) ≡ some subscriber
unfolding newsletter_get_by_email
subscribed = refl

newsletter_upsert_pending-newsletter_confirm_by_token_example :
    (newsletter_confirm_by_token 77 86400 200
      (newsletter_upsert_pending 3 1 77 100 (subscriber ∷ []))).0
    ≡ true
newsletter_upsert_pending-newsletter_confirm_by_token_example =
    let (done, _) =
      newsletter_upsert_pending-newsletter_confirm_by_token 3 1 77 86400 100 200 (subscriber ∷ [])
        (λ there. (subscriber, subscribed)) (omega arith) in
    done
