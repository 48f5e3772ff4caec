-- ===== src/Api/Webhook.antt =====
-- services/api/src/email/webhook.rs: what an event of SendGrid does, and the tables of db.rs that it
-- writes. Addresses and ids are numbers, and the key of the nonce is a parameter.
pub mod Delivery
use mathlib.Core.List.{[]}
use predict_iq.Api.Counter.{Counters, incr_with_ttl, Try}
use predict_iq.Api.Subscribers.{Rows, newsletter_unsubscribe}
use predict_iq.Prelude.{
  none, some, ℕ, Option, List, Bool, put, true, false, if◌then◌else◌, ◌==◌, ◌∷◌, not, ltb, ◌&&◌,
  ◌+◌, ◌||◌, get_or,
}

pub data EventType : Type 0 where
  delivered open_event click bounce dropped spamreport unsubscribe : EventType
  unhandled : ℕ → EventType

pub data SuppressionType : Type 0 where
  bounce_suppression complaint unsubscribe_suppression manual : SuppressionType

pub record SendGridEvent : Type 0 where
  pub email : ℕ
  pub event : EventType
  pub message_id : Option ℕ

-- A row of email_events.
abbrev pub EventRow : Type 0
EventRow = Option ℕ × EventType × ℕ

-- The columns of email_analytics that events raise.
pub data AnalyticsCounter : Type 0 where
  delivered_count opened_count clicked_count bounced_count : AnalyticsCounter
  complained_count unsubscribed_count : AnalyticsCounter

-- The nonces in Redis, the tables, and the log of raised counters.
pub record Inbox : Type 0 where
  pub nonces : Counters
  pub events : List EventRow
  pub suppressions : ℕ → Option SuppressionType
  pub analytics : List AnalyticsCounter
  pub subscribers : Rows

-- What becomes of the attempts at the nonce, and which of the statements of one call succeed.
pub record Statements : Type 0 where
  pub nonce_tries : List (ℕ × Try)
  pub exists_up : Bool
  pub create_up : Bool
  pub suppress_up : Bool
  pub newsletter_up : Bool
  pub count_up : Bool

unfoldable pub eqb_event : EventType → EventType → Bool
eqb_event delivered delivered = true
eqb_event open_event open_event = true
eqb_event click click = true
eqb_event bounce bounce = true
eqb_event dropped dropped = true
eqb_event spamreport spamreport = true
eqb_event unsubscribe unsubscribe = true
eqb_event (unhandled a) (unhandled b) = a == b
eqb_event _ _ = false

-- IS NOT DISTINCT FROM.
abbrev pub same_id : Option ℕ → Option ℕ → Bool
same_id none none = true
same_id (some a) (some b) = a == b
same_id _ _ = false

unfoldable pub email_event_exists : Option ℕ → EventType → ℕ → List EventRow → Bool
unfolding eqb_event
email_event_exists message_id event_type email [] = false
email_event_exists message_id event_type email (r ∷ rs) =
    (same_id r.0 message_id && eqb_event r.1 event_type && r.2 == email)
    || email_event_exists message_id event_type email rs

-- email_increment_analytics_counter: whether it ends in Ok.
unfoldable pub count_event : Statements → AnalyticsCounter → Inbox → Bool × Inbox
count_event up c s =
    if up.count_up then (true, record s { analytics = c ∷ s.analytics }) else (false, s)

unfoldable pub email_add_suppression : ℕ → SuppressionType → Inbox → Inbox
email_add_suppression email t s = record s { suppressions = put s.suppressions email (some t) }

unfoldable pub handle_bounce : Statements → SendGridEvent → Inbox → Bool × Inbox
unfolding count_event email_add_suppression
handle_bounce up e s =
    if up.suppress_up
    then count_event up bounced_count (email_add_suppression e.email bounce_suppression s)
    else (false, s)

unfoldable pub handle_complaint : Statements → SendGridEvent → Inbox → Bool × Inbox
unfolding count_event email_add_suppression
handle_complaint up e s =
    if up.suppress_up
    then count_event up complained_count (email_add_suppression e.email complaint s)
    else (false, s)

-- A failure of newsletter_unsubscribe is dropped.
unfoldable pub handle_unsubscribe : ℕ → Statements → SendGridEvent → Inbox → Bool × Inbox
unfolding count_event email_add_suppression
handle_unsubscribe now up e s =
    if up.suppress_up
    then (let added = email_add_suppression e.email unsubscribe_suppression s in
        let (found, rows) = newsletter_unsubscribe e.email now added.subscribers in
        count_event up unsubscribed_count
          (if up.newsletter_up then record added { subscribers = rows } else added))
    else (false, s)

-- The match on the type of the event.
unfoldable pub dispatch_event : ℕ → Statements → EventType → SendGridEvent → Inbox → Bool × Inbox
unfolding count_event handle_bounce handle_complaint handle_unsubscribe
dispatch_event now up delivered e s = count_event up delivered_count s
dispatch_event now up open_event e s = count_event up opened_count s
dispatch_event now up click e s = count_event up clicked_count s
dispatch_event now up bounce e s = handle_bounce up e s
dispatch_event now up dropped e s = handle_bounce up e s
dispatch_event now up spamreport e s = handle_complaint up e s
dispatch_event now up unsubscribe e s = handle_unsubscribe now up e s
dispatch_event now up (unhandled n) e s = (true, s)

module _ (nonce_key : Option ℕ → EventType → ℕ → ℕ) (replay_window_secs : ℕ) where
  -- After the nonce.
  unfoldable pub record_event : ℕ → Statements → SendGridEvent → Inbox → Bool × Inbox
  unfolding email_event_exists dispatch_event
  record_event now up e s =
      if not up.exists_up
      then (true, s)
      else if email_event_exists e.message_id e.event e.email s.events
      then (true, s)
      else if not up.create_up
      then (false, s)
      else dispatch_event now up e.event e
          (record s { events = (e.message_id, e.event, e.email) ∷ s.events })

  -- A nonce that Redis does not answer for counts as new.
  unfoldable pub process_event : ℕ → Statements → SendGridEvent → Inbox → Bool × Inbox
  unfolding incr_with_ttl record_event
  process_event now up e s =
      let (result, nonces) =
        incr_with_ttl up.nonce_tries s.nonces (nonce_key e.message_id e.event e.email)
          replay_window_secs in
      let counted = record s { nonces = nonces } in
      if ltb 1 (get_or result 1) then (true, counted) else record_event now up e counted
