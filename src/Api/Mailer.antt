-- ===== src/Api/Mailer.antt =====
-- services/api/src/email/service.rs: the sending of an e-mail, once for an idempotency key. A text is
-- a number. The functions on texts, the templates and the answers of SendGrid are parameters.
pub mod Once
use Prim.Native.Nat.{zero}
use predict_iq.Api.Counter.{Counters, incr_with_ttl, Try, not_run, answer_lost, answered}
use predict_iq.Prelude.{
  ℕ, Option, Bool, List, leb, false, none, if◌then◌else◌, is_some, some, ◌&&◌, suc, true, ◌==◌, ◌∷◌,
  not, ltb, ◌+◌, put, ◌/◌, ◌||◌,
}

-- A status code with the Retry-After header, or a failure of the connection.
pub data Response : Type 0 where
  answer : ℕ → Option ℕ → Response
  no_answer : Response

pub data SendResult : Type 0 where
  message_id : SendResult
  deduplicated : ℕ → SendResult
  rate_limit_exceeded invalid_recipient not_configured not_rendered : SendResult
  sendgrid_failed redis_failed : SendResult

pub record MailConfig : Type 0 where
  pub has_cache : Bool
  pub hourly_limit : ℕ
  pub idempotency_ttl : ℕ
  pub api_key : Option ℕ
  pub from_email : Option ℕ

-- What the other services do in one call: the attempts at the counter; that at the idempotency
-- key; and the answers of SendGrid.
pub record Backends : Type 0 where
  pub counter_tries : List (ℕ × Try)
  pub nonce_try : Try
  pub respond : ℕ → Response

-- `nonces` has the idempotency keys with the times at which they expire, and `outbox` the messages
-- that SendGrid has answered with a status of success.
pub record Mailbox : Type 0 where
  pub counters : Counters
  pub nonces : ℕ → Option ℕ
  pub outbox : List (ℕ × ℕ)

abbrev pub max_attempts : ℕ
max_attempts = 3

abbrev pub is_success : ℕ → Bool
is_success status = leb 200 status && ltb status 300

abbrev pub is_server_error : ℕ → Bool
is_server_error status = leb 500 status && ltb status 600

-- The loop from an attempt on, `n` of them left: whether SendGrid accepts the message.
unfoldable pub attempt_from : ℕ → ℕ → (ℕ → Response) → Bool
attempt_from zero attempt respond = false
attempt_from (suc n) attempt respond =
    let again = attempt_from n (attempt + 1) respond in
    elim (respond attempt) [
      | no_answer ↦ false
      | answer status retry_after ↦
          if is_success status
          then true
          else if not (status == 429 || is_server_error status)
          then false
          else if attempt + 1 == max_attempts
          then false
          else again
    ]

-- SET NX EX: whether the key was free, and the keys after it.
unfoldable pub set_nx : (ℕ → Option ℕ) → ℕ → ℕ → ℕ → Bool × (ℕ → Option ℕ)
set_nx nonces key ttl now = elim (nonces key) [
  | none ↦ (true, put nonces key (some (now + ttl)))
  | some expires_at ↦
      if ltb now expires_at then (false, nonces) else (true, put nonces key (some (now + ttl)))
]

module _ (trim byte_len : ℕ → ℕ) (validate_email : ℕ → Bool) (render : ℕ → ℕ → Option ℕ)
    (rate_key : ℕ → ℕ → ℕ) where
  unfoldable pub sanitize_email : ℕ → Option ℕ
  sanitize_email raw =
      let trimmed = trim raw in
      if byte_len trimmed == 0
      then none
      else if ltb 254 (byte_len trimmed)
      then none
      else if not (validate_email trimmed)
      then none
      else some trimmed

  -- From the rendering on.
  unfoldable pub post_email : MailConfig → Backends → ℕ → ℕ → ℕ → Mailbox → SendResult × Mailbox
  unfolding attempt_from
  post_email config b recipient template_name template_data s =
      elim (render template_name template_data) [
        | none ↦ (not_rendered, s)
        | some content ↦
            if attempt_from max_attempts 0 b.respond
            then (message_id, record s { outbox = (recipient, template_name) ∷ s.outbox })
            else (sendgrid_failed, s)
      ]

  -- The keys of the configuration, which must be there.
  unfoldable pub configured : MailConfig → Bool
  configured config = is_some config.api_key && is_some config.from_email

  unfoldable pub send_checked : MailConfig → Backends → ℕ → ℕ → ℕ → Mailbox → SendResult × Mailbox
  unfolding sanitize_email configured post_email
  send_checked config b recipient template_name template_data s = elim (sanitize_email recipient) [
    | none ↦ (invalid_recipient, s)
    | some clean ↦
        if configured config
        then post_email config b clean template_name template_data s
        else (not_configured, s)
  ]

  -- From the idempotency check on.
  unfoldable pub send_once :
      MailConfig → Backends → ℕ → ℕ → ℕ → Option ℕ → ℕ → Mailbox → SendResult × Mailbox
  unfolding set_nx send_checked
  send_once config b recipient template_name template_data none now s =
      send_checked config b recipient template_name template_data s
  send_once config b recipient template_name template_data (some key) now s =
      if not config.has_cache
      then send_checked config b recipient template_name template_data s
      else (let (acquired, nonces) = set_nx s.nonces key config.idempotency_ttl now in
          let set = record s { nonces = nonces } in
          elim b.nonce_try [
            | not_run ↦ (redis_failed, s)
            | answer_lost ↦ (redis_failed, set)
            | answered ↦
                if acquired
                then send_checked config b recipient template_name template_data set
                else (deduplicated key, s)
          ])

  unfoldable pub send_email_idempotent :
      MailConfig → Backends → ℕ → ℕ → ℕ → Option ℕ → ℕ → Mailbox → SendResult × Mailbox
  unfolding incr_with_ttl send_once
  send_email_idempotent config b recipient template_name template_data idem_key now s =
      if not config.has_cache
      then send_once config b recipient template_name template_data idem_key now s
      else (let (result, counters) =
            incr_with_ttl b.counter_tries s.counters (rate_key recipient (now / 3600)) 3600 in
          let counted = record s { counters = counters } in
          elim result [
            | none ↦ (redis_failed, counted)
            | some count ↦
                if ltb config.hourly_limit count
                then (rate_limit_exceeded, counted)
                else send_once config b recipient template_name template_data idem_key now counted
          ])
