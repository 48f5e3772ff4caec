-- ===== src/Api/EmailQueue/Worker/Retry.antt =====
-- What becomes of a job whose first send fails.
use predict_iq.Api.Mailer.Once.{failed_takes, duplicate, Sending}
use predict_iq.Api.Counter.{answered, incr_with_ttl}
use predict_iq.Api.EmailQueue.Worker.{handle_job, Service, process_job, idempotency_key}
use predict_iq.Api.Mailer.{
  MailConfig, Backends, Mailbox, SendResult, send_email_idempotent, sendgrid_failed, deduplicated,
}
use predict_iq.Api.EmailQueue.{
  move_all, perform, Command, Queue, move_retries, update_job_attempts, update_job,
  update_job_status, perform_all, mark_completed, release, Job, remove_processing, completed,
  find_member, processing_status, mark_failed,
}
use predict_iq.Api.EmailQueue.Redis.{SortedSets, eqb_member}
use predict_iq.Prelude.{
  ◌∷◌, [], ℕ, ◌==◌, List, ℤ, ◌≡◌, is_some, refl, ap, arith, Bool, Option, ◌∙◌, map, true, some, ◌/◌,
  Option-cases, inl, false, inr, none, ◌<◌, ◌+◌, ◌≤◌,
}

module _ (redis : SortedSets ℕ ◌==◌) (owners : SortedSets (ℕ × ℕ) eqb_member) where
  jobs-move_all :
      (ks : List ℕ) (now : ℤ) (q : Queue redis owners)
      → (move_all redis owners ks now q).jobs ≡ q.jobs
  unfolding move_all
  jobs-move_all [] now q = refl
  jobs-move_all (k ∷ ks) now q =
      jobs-move_all ks now
        (record q { queue = redis.zadd q.queue k now; retry = redis.zrem q.retry k })

  update_job-is_some :
      (jobs : ℕ → Option Job) (k j : ℕ) (f : Job → Job)
      → is_some (update_job redis owners jobs k f j) ≡ is_some (jobs j)
  unfolding update_job
  update_job-is_some jobs k j f = ground arith

  -- No command takes a job from the table.
  perform-is_some :
      (c : Command redis owners) (q : Queue redis owners) (j : ℕ)
      → is_some ((perform redis owners c q).jobs j) ≡ is_some (q.jobs j)
  unfolding perform
  perform-is_some (move_retries ks now) q j = ap (λ f. is_some (f j)) (jobs-move_all ks now q)
  perform-is_some (update_job_attempts k n) q j =
      update_job-is_some q.jobs k j (λ job. record job { attempts = n })
  perform-is_some (update_job_status k status) q j =
      update_job-is_some q.jobs k j (λ job. record job { status = status })
  perform-is_some _ q j = refl

  perform_all-is_some :
      (cs : List (Command redis owners)) (q : Queue redis owners) (j : ℕ)
      → is_some ((perform_all redis owners cs q).jobs j) ≡ is_some (q.jobs j)
  unfolding perform_all
  perform_all-is_some [] q j = refl
  perform_all-is_some (c ∷ cs) q j =
      perform_all-is_some cs (perform redis owners c q) j ∙ perform-is_some c q j

  jobs-remove_all :
      (ms : List (ℕ × ℕ)) (q : Queue redis owners)
      → (perform_all redis owners (map remove_processing ms) q).jobs ≡ q.jobs
  unfolding perform_all perform
  jobs-remove_all [] q = refl
  jobs-remove_all (m ∷ ms) q =
      jobs-remove_all ms (record q { processing = owners.zrem q.processing m })

  -- A job that is marked as completed is completed.
  mark_completed-status :
      (j : ℕ) (q : Queue redis owners)
      → is_some (q.jobs j) ≡ true
      → (job : Job) × ((perform_all redis owners (mark_completed redis owners j q) q).jobs j
          ≡ some job)
        × (job.status ≡ completed)
  unfolding mark_completed release perform_all perform update_job
  mark_completed-status j q there = elim (Option-cases (q.jobs j)) [
    | inl missing ↦ ground (arith, missing)
    | inr (job, found) ↦
        let q1 = perform redis owners (update_job_status j completed) q in
        let ms = find_member j (owners.zrange q.processing) in
        (
          record job { status = completed },
          ap (λ f. f j) (jobs-remove_all ms q1) ∙ ground (arith, found),
          refl,
        )
  ]

module _ (redis : SortedSets ℕ ◌==◌) (owners : SortedSets (ℕ × ℕ) eqb_member)
    (trim byte_len : ℕ → ℕ) (validate_email : ℕ → Bool) (render : ℕ → ℕ → Option ℕ)
    (rate_key : ℕ → ℕ → ℕ) (config : MailConfig) (hash_key : ℕ → ℕ → ℕ → ℕ)
    (is_suppressed : ℕ → Bool)
    (recipient_email template_name template_data created_at : ℕ → ℕ) where
  -- The service of the worker.
  abbrev pub send_job : ℕ → Option ℕ → ℕ → Backends → Mailbox → SendResult × Mailbox
  send_job j key now b s =
      send_email_idempotent trim byte_len validate_email render rate_key config b
        (recipient_email j) (template_name j) (template_data j) key now s

  abbrev pub key_of : ℕ → ℕ
  key_of j = hash_key (recipient_email j) (template_name j) (created_at j / 3600)

  abbrev pub handle : ℕ → ℕ → Backends → Service redis owners → Service redis owners
  handle j now b s =
      handle_job redis owners send_job hash_key is_suppressed recipient_email template_name
        created_at j now b s

  abbrev sending : ℕ → ℕ → Backends → Sending
  sending j now b = record {
    now = now;
    recipient = recipient_email j;
    template_name = template_name j;
    template_data = template_data j;
    backends = b;
  }

  first_try :
      (j t : ℕ) (b : Backends) (s : Service redis owners)
      → is_some (s.jobs.jobs j) ≡ true
      → is_suppressed (recipient_email j) ≡ false
      → (send_job j (some (key_of j)) t b s.mail).0 ≡ sendgrid_failed
      → ((handle j t b s).mail ≡ (send_job j (some (key_of j)) t b s.mail).1)
        × (is_some ((handle j t b s).jobs.jobs j) ≡ true)
  unfolding handle_job process_job idempotency_key
  first_try j t b s there wanted failed = elim (Option-cases (s.jobs.jobs j)) [
    | inl missing ↦ absurd (ground (arith, missing))
    | inr (job, found) ↦
        let started = perform redis owners (update_job_status j processing_status) s.jobs in
        let kept = perform-is_some redis owners (update_job_status j processing_status) s.jobs j in
        let cs = mark_failed redis owners j t started in
        (ground arith, ground (arith, perform_all-is_some redis owners cs started j, kept))
  ]

  next_try :
      (j t : ℕ) (b : Backends) (s : Service redis owners)
      → is_some (s.jobs.jobs j) ≡ true
      → is_suppressed (recipient_email j) ≡ false
      → (send_job j (some (key_of j)) t b s.mail).0 ≡ deduplicated (key_of j)
      → ((handle j t b s).mail ≡ (send_job j (some (key_of j)) t b s.mail).1)
        × ((job : Job) × ((handle j t b s).jobs.jobs j ≡ some job) × (job.status ≡ completed))
  unfolding handle_job process_job idempotency_key
  next_try j t b s there wanted duplicate' = elim (Option-cases (s.jobs.jobs j)) [
    | inl missing ↦ absurd (ground (arith, missing))
    | inr (job, found) ↦
        let started = perform redis owners (update_job_status j processing_status) s.jobs in
        let kept = perform-is_some redis owners (update_job_status j processing_status) s.jobs j in
        let (job', at, done) = mark_completed-status redis owners j started (kept ∙ there) in
        (ground arith, (job', ground (arith, at), done))
  ]

  -- A job whose first send fails at SendGrid has taken its idempotency key: handled again within
  -- the key's time to live, with Redis up and the recipient's hourly limit not passed, it is marked
  -- as completed, though no message has been sent.
  pub retry_loses :
      (j t t' n : ℕ) (b b' : Backends) (s : Service redis owners)
      → is_some (s.jobs.jobs j) ≡ true
      → is_suppressed (recipient_email j) ≡ false
      → config.has_cache ≡ true
      → s.mail.nonces (key_of j) ≡ none
      → (send_job j (some (key_of j)) t b s.mail).0 ≡ sendgrid_failed
      → t' < t + config.idempotency_ttl
      → b'.nonce_try ≡ answered
      → (incr_with_ttl b'.counter_tries
          (handle j t b s).mail.counters
          (rate_key (recipient_email j) (t' / 3600))
          3600).0
        ≡ some n
      → n ≤ config.hourly_limit
      → let after = handle j t' b' (handle j t b s) in
        (after.mail.outbox ≡ s.mail.outbox)
        × ((job : Job) × (after.jobs.jobs j ≡ some job) × (job.status ≡ completed))
  retry_loses j t t' n b b' s there wanted cached free failed soon up counted few =
      let (mail, stays) = first_try j t b s there wanted failed in
      let (same, taken) =
        failed_takes trim byte_len validate_email render rate_key config (key_of j) (sending j t b)
          s.mail cached free failed in
      let s1 = handle j t b s in
      let taken1 : s1.mail.nonces (key_of j) ≡ some (t + config.idempotency_ttl) =
        ap (λ m. m.nonces (key_of j)) mail ∙ taken in
      let (result, same1) =
        duplicate trim byte_len validate_email render rate_key config (key_of j)
          (t + config.idempotency_ttl) n (sending j t' b') s1.mail cached taken1 soon up counted
          few in
      let (mail2, done) = next_try j t' b' s1 stays wanted result in
      (ap (λ m. m.outbox) mail2 ∙ same1 ∙ ap (λ m. m.outbox) mail ∙ same, done)
