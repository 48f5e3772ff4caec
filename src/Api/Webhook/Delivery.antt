-- ===== src/Api/Webhook/Delivery.antt =====
-- An event that SendGrid delivers more than once.
use predict_iq.Api.Counter.{incr_with_ttl, Counters}
use mathlib.Core.Option.{none}
use predict_iq.Api.Webhook.{
  eqb_event, Inbox, EventType, same_id, SendGridEvent, unhandled, some, process_event, Statements,
  email_event_exists, record_event, dispatch_event, bounce, handle_bounce, dropped,
  handle_complaint, spamreport, handle_unsubscribe, unsubscribe, delivered, open_event, click,
}
use predict_iq.Prelude.{
  ◌∷◌, [], Option, ℕ, ◌≡◌, true, List, Bool, arith, refl, ◌∙◌, false, get_or, ◌≤◌,
}

eqb_event_self : (a : EventType) → eqb_event a a ≡ true
unfolding eqb_event
eqb_event_self (unhandled n) = ground arith
eqb_event_self _ = refl

same_id_self : (a : Option ℕ) → same_id a a ≡ true
same_id_self none = refl
same_id_self (some a) = ground arith

-- The rows that a reader of the tables sees.
pub record IsSameBut (s s' : Inbox) : Type 0 where
  pub events : s'.events ≡ s.events
  pub suppressions : s'.suppressions ≡ s.suppressions
  pub analytics : s'.analytics ≡ s.analytics
  pub subscribers : s'.subscribers ≡ s.subscribers

module _ (nonce_key : Option ℕ → EventType → ℕ → ℕ) (replay_window_secs : ℕ)
    (e : SendGridEvent) where
  -- Deliveries at times, the first one first.
  pub deliver_all : List (ℕ × Statements) → Inbox → Inbox
  deliver_all [] s = s
  deliver_all ((t, up) ∷ ds) s =
      deliver_all ds (process_event nonce_key replay_window_secs t up e s).1

  unfoldable pub is_recorded : Inbox → Bool
  is_recorded s = email_event_exists e.message_id e.event e.email s.events

  -- What the nonce counts, and the nonces after it.
  abbrev pub nonce_result : Statements → Inbox → Option ℕ × Counters
  nonce_result up s =
      incr_with_ttl up.nonce_tries s.nonces (nonce_key e.message_id e.event e.email)
        replay_window_secs

  repeated :
      (t : ℕ) (up : Statements) (s : Inbox)
      → is_recorded s ≡ true
      → IsSameBut s (process_event nonce_key replay_window_secs t up e s).1
  unfolding process_event record_event is_recorded
  repeated t up s there = ground arith

  -- However often and whenever an event that is recorded is delivered again, whichever statements
  -- fail, neither the events nor the suppressions, the analytics or the subscribers change.
  pub deliver_all-IsSameBut :
      (ds : List (ℕ × Statements)) (s : Inbox)
      → is_recorded s ≡ true
      → IsSameBut s (deliver_all ds s)
  unfolding deliver_all is_recorded
  deliver_all-IsSameBut [] s there = record {
    events = refl;
    suppressions = refl;
    analytics = refl;
    subscribers = refl;
  }
  deliver_all-IsSameBut ((t, up) ∷ ds) s there =
      let after = (process_event nonce_key replay_window_secs t up e s).1 in
      let one = repeated t up s there in
      let rest = deliver_all-IsSameBut ds after (ground (arith, one.events)) in
      record {
        events = rest.events ∙ one.events;
        suppressions = rest.suppressions ∙ one.suppressions;
        analytics = rest.analytics ∙ one.analytics;
        subscribers = rest.subscribers ∙ one.subscribers;
      }

  abbrev pub is_suppressing : EventType → Bool
  is_suppressing bounce = true
  is_suppressing dropped = true
  is_suppressing spamreport = true
  is_suppressing unsubscribe = true
  is_suppressing _ = false

  dispatch_fails :
      (now : ℕ) (up : Statements) (t : EventType) (s : Inbox)
      → is_suppressing t ≡ true
      → up.suppress_up ≡ false
      → dispatch_event now up t e s ≡ (false, s)
  unfolding dispatch_event handle_bounce handle_complaint handle_unsubscribe
  dispatch_fails now up delivered s kind down = cc
  dispatch_fails now up open_event s kind down = cc
  dispatch_fails now up click s kind down = cc
  dispatch_fails now up (unhandled n) s kind down = cc
  dispatch_fails now up bounce s kind down = ground arith
  dispatch_fails now up dropped s kind down = ground arith
  dispatch_fails now up spamreport s kind down = ground arith
  dispatch_fails now up unsubscribe s kind down = ground arith

  recorded_at_once :
      (s : Inbox)
      → is_recorded (record s { events = (e.message_id, e.event, e.email) ∷ s.events }) ≡ true
  unfolding is_recorded email_event_exists
  recorded_at_once s = ground (arith, same_id_self e.message_id, eqb_event_self e.event)

  record_fails :
      (now : ℕ) (up : Statements) (s : Inbox)
      → is_suppressing e.event ≡ true
      → is_recorded s ≡ false
      → up.exists_up ≡ true
      → up.create_up ≡ true
      → up.suppress_up ≡ false
      → record_event nonce_key replay_window_secs now up e s
        ≡ (false, record s { events = (e.message_id, e.event, e.email) ∷ s.events })
  unfolding record_event is_recorded
  record_fails now up s kind new up' up'' down =
      let added = record s { events = (e.message_id, e.event, e.email) ∷ s.events } in
      ground (arith, dispatch_fails now up e.event added kind down)

  first_fails :
      (t : ℕ) (up : Statements) (s : Inbox)
      → is_suppressing e.event ≡ true
      → get_or (nonce_result up s).0 1 ≤ 1
      → is_recorded s ≡ false
      → up.exists_up ≡ true
      → up.create_up ≡ true
      → up.suppress_up ≡ false
      → let (done, after) = process_event nonce_key replay_window_secs t up e s in
        (done ≡ false) × (is_recorded after ≡ true) × (after.suppressions ≡ s.suppressions)
  unfolding process_event is_recorded
  first_fails t up s kind fresh new up' up'' down =
      let counted = record s { nonces = (nonce_result up s).1 } in
      ground
        (arith, fresh, record_fails t up counted kind new up' up'' down, recorded_at_once counted)

  -- A new bounce, drop, complaint or unsubscription whose nonce does not count as a replay, whose
  -- row of events is written, but whose suppression is not, is an error, and no later delivery of
  -- it ever adds the suppression: the row stands, so it counts as a duplicate.
  pub deliver_all_lost :
      (t : ℕ) (up : Statements) (ds : List (ℕ × Statements)) (s : Inbox)
      → is_suppressing e.event ≡ true
      → get_or (nonce_result up s).0 1 ≤ 1
      → is_recorded s ≡ false
      → up.exists_up ≡ true
      → up.create_up ≡ true
      → up.suppress_up ≡ false
      → ((process_event nonce_key replay_window_secs t up e s).0 ≡ false)
        × ((deliver_all ((t, up) ∷ ds) s).suppressions ≡ s.suppressions)
  unfolding deliver_all
  deliver_all_lost t up ds s kind fresh new up' up'' down =
      let (failed, there, same) = first_fails t up s kind fresh new up' up'' down in
      let after = (process_event nonce_key replay_window_secs t up e s).1 in
      (failed, (deliver_all-IsSameBut ds after there).suppressions ∙ same)
