-- ===== src/Api/Mailer/Once.antt =====
-- What an idempotency key does to the messages that are sent.
use predict_iq.Api.Counter.{incr_with_ttl, Try, not_run, answer_lost, answered}
use predict_iq.Prelude.{
  ◌∷◌, [], none, All, ◌⊎◌, ap, inl, ◌∙◌, ◌/◌, refl, inr, put, Bool-cases, ltb, Option-cases,
}
use predict_iq.Api.Mailer.{
  MailConfig, Backends, send_checked, send_email_idempotent, Mailbox, send_once, SendResult, set_nx,
  sendgrid_failed, deduplicated,
}
use predict_iq.Prelude.{ℕ, Bool, Option, List, ◌≡◌, some, length, true, ◌≤◌, ◌<◌, ◌+◌, arith}

-- A call: when, to whom and with what, and what the other services do in it.
pub record Sending : Type 0 where
  pub now : ℕ
  pub recipient : ℕ
  pub template_name : ℕ
  pub template_data : ℕ
  pub backends : Backends

try_cases : (t : Try) → (t ≡ not_run) ⊎ (t ≡ answer_lost) ⊎ (t ≡ answered)
try_cases not_run = inl refl
try_cases answer_lost = inr (inl refl)
try_cases answered = inr (inr refl)

before_expiry :
    (cs : List Sending) (start t ttl : ℕ)
    → start ≤ t
    → All (λ c. (start ≤ c.now) × (c.now < start + ttl)) cs
    → All (λ c. c.now < t + ttl) cs
before_expiry [] start t ttl h within = tt
before_expiry (c ∷ cs) start t ttl h within =
    (omega (arith, within.0.1), before_expiry cs start t ttl h within.1)

module _ (trim byte_len : ℕ → ℕ) (validate_email : ℕ → Bool) (render : ℕ → ℕ → Option ℕ)
    (rate_key : ℕ → ℕ → ℕ) (config : MailConfig) (key : ℕ) where
  -- One call with the key.
  abbrev pub send_at : Sending → Mailbox → SendResult × Mailbox
  send_at c s =
      send_email_idempotent trim byte_len validate_email render rate_key config c.backends
        c.recipient c.template_name c.template_data (some key) c.now s

  -- Calls with the key, the first one first.
  pub send_all : List Sending → Mailbox → Mailbox
  send_all [] s = s
  send_all (c ∷ cs) s = send_all cs (send_at c s).1

  checked_ok :
      (c : Sending) (s : Mailbox)
      → let after =
          (send_checked trim byte_len validate_email render rate_key config c.backends c.recipient
            c.template_name c.template_data s).1 in
        (after.nonces ≡ s.nonces) × (length after.outbox ≤ length s.outbox + 1)
  unfolding send_checked
  checked_ok c s = ground arith

  checked_failed :
      (c : Sending) (s : Mailbox)
      → (send_checked trim byte_len validate_email render rate_key config c.backends c.recipient
          c.template_name c.template_data s).0
        ≡ sendgrid_failed
      → (send_checked trim byte_len validate_email render rate_key config c.backends c.recipient
          c.template_name c.template_data s).1
        ≡ s
  unfolding send_checked
  checked_failed c s failed = ground arith

  -- While the key is taken nothing is sent.
  sent_nothing :
      (x : ℕ) (c : Sending) (s : Mailbox)
      → config.has_cache ≡ true
      → s.nonces key ≡ some x
      → c.now < x
      → ((send_at c s).1.outbox ≡ s.outbox) × ((send_at c s).1.nonces ≡ s.nonces)
  unfolding send_email_idempotent send_once set_nx
  sent_nothing x c s cached taken early = ground arith

  -- While the key is taken a call that gets as far as the key is a duplicate.
  pub duplicate :
      (x n : ℕ) (c : Sending) (s : Mailbox)
      → config.has_cache ≡ true
      → s.nonces key ≡ some x
      → c.now < x
      → c.backends.nonce_try ≡ answered
      → (incr_with_ttl c.backends.counter_tries s.counters
          (rate_key c.recipient (c.now / 3600))
          3600).0
        ≡ some n
      → n ≤ config.hourly_limit
      → ((send_at c s).0 ≡ deduplicated key) × ((send_at c s).1.outbox ≡ s.outbox)
  unfolding send_email_idempotent send_once set_nx
  duplicate x n c s cached taken early up counted few = ground (arith, counted)

  -- A call sends nothing and takes no key, or it takes the key.
  send_at_cases :
      (c : Sending) (s : Mailbox)
      → config.has_cache ≡ true
      → s.nonces key ≡ none
      → (((send_at c s).1.outbox ≡ s.outbox) × ((send_at c s).1.nonces ≡ s.nonces))
        ⊎ ((length (send_at c s).1.outbox ≤ length s.outbox + 1)
            × ((send_at c s).1.nonces key ≡ some (c.now + config.idempotency_ttl)))
  unfolding send_email_idempotent send_once set_nx
  send_at_cases c s cached free =
      let r =
        incr_with_ttl c.backends.counter_tries s.counters (rate_key c.recipient (c.now / 3600))
          3600 in
      let counted = record s { counters = r.1 } in
      let taken = record counted {
        nonces = put s.nonces key (some (c.now + config.idempotency_ttl));
      } in
      elim (Option-cases r.0) [
        | inl failed ↦ inl (ground (arith, failed))
        | inr (count, found) ↦ elim (Bool-cases (ltb config.hourly_limit count)) [
          | inl refused ↦ inl (ground (arith, found))
          | inr few ↦ elim (try_cases c.backends.nonce_try) [
            | inl down ↦ inl (ground (arith, found, down))
            | inr (inl lost) ↦ inr (ground (arith, found, lost))
            | inr (inr up) ↦ inr (ground (arith, found, up, checked_ok c taken))
          ]
        ]
      ]

  nothing_later :
      (cs : List Sending) (x : ℕ) (s : Mailbox)
      → config.has_cache ≡ true
      → s.nonces key ≡ some x
      → All (λ d. d.now < x) cs
      → (send_all cs s).outbox ≡ s.outbox
  unfolding send_all
  nothing_later [] x s cached taken early = refl
  nothing_later (c ∷ cs) x s cached taken early =
      let (same, kept) = sent_nothing x c s cached taken early.0 in
      let after = (send_at c s).1 in
      nothing_later cs x after cached (ap (λ n. n key) kept ∙ taken) early.1 ∙ same

  -- Where there is a cache, any calls with one idempotency key that is free at first, whatever
  -- their recipients, templates and data, all of them within its time to live from a start on, and
  -- whatever Redis and SendGrid answer, add at most one message to those that SendGrid has answered
  -- with success.
  pub send_all_once :
      (cs : List Sending) (start : ℕ) (s : Mailbox)
      → config.has_cache ≡ true
      → s.nonces key ≡ none
      → All (λ c. (start ≤ c.now) × (c.now < start + config.idempotency_ttl)) cs
      → length (send_all cs s).outbox ≤ length s.outbox + 1
  unfolding send_all
  send_all_once [] start s cached free within = omega arith
  send_all_once (c ∷ cs) start s cached free within =
      let after = (send_at c s).1 in
      elim (send_at_cases c s cached free) [
        | inl (same, kept) ↦
            let rest = send_all_once cs start after cached (ap (λ n. n key) kept ∙ free) within.1 in
            omega (arith, rest, ap length same)
        | inr (one, taken) ↦
            let later = before_expiry cs start c.now config.idempotency_ttl within.0.0 within.1 in
            let rest = nothing_later cs (c.now + config.idempotency_ttl) after cached taken later in
            omega (arith, one, ap length rest)
      ]

  pub failed_takes :
      (c : Sending) (s : Mailbox)
      → config.has_cache ≡ true
      → s.nonces key ≡ none
      → (send_at c s).0 ≡ sendgrid_failed
      → ((send_at c s).1.outbox ≡ s.outbox)
        × ((send_at c s).1.nonces key ≡ some (c.now + config.idempotency_ttl))
  unfolding send_email_idempotent send_once set_nx
  failed_takes c s cached free failed =
      let counted = record s {
        counters =
            (incr_with_ttl c.backends.counter_tries s.counters (rate_key c.recipient (c.now / 3600))
              3600).1;
      } in
      let taken = record counted {
        nonces = put s.nonces key (some (c.now + config.idempotency_ttl));
      } in
      ground (arith, checked_failed c taken)

  -- After a call that takes a free key and fails at SendGrid, no later call with the key within its
  -- time to live sends anything.
  pub send_all_lost :
      (c : Sending) (s : Mailbox) (cs : List Sending)
      → config.has_cache ≡ true
      → s.nonces key ≡ none
      → (send_at c s).0 ≡ sendgrid_failed
      → All (λ d. d.now < c.now + config.idempotency_ttl) cs
      → (send_all cs (send_at c s).1).outbox ≡ s.outbox
  send_all_lost c s cs cached free failed early =
      let (same, taken) = failed_takes c s cached free failed in
      nothing_later cs (c.now + config.idempotency_ttl) (send_at c s).1 cached taken early ∙ same
