-- ===== src/Examples/Mail.antt =====
-- The theorems on the counters and on the sending of e-mails at small inputs.
use predict_iq.Api.EmailQueue.Worker.Retry.{send_job, retry_loses, handle}
use predict_iq.Examples.Redis.{number_sets, member_sets, test_queue}
use predict_iq.Api.Counter.{answered, answer_lost, incr_with_ttl}
use predict_iq.Api.EmailQueue.Worker.{Service, handle_job, process_job}
use predict_iq.Api.Mailer.Once.{send_all, send_all_once, Sending}
use predict_iq.Api.Mailer.{
  Backends, MailConfig, Mailbox, send_email_idempotent, answer, sendgrid_failed,
}
use predict_iq.Api.Counter.Window.{allowed_among, allow_request_window}
use predict_iq.Prelude.{
  [], ◌∷◌, none, some, ℕ, length, ◌≡◌, true, Bool, Option, ◌+◌, ◌≤◌, arith, false, refl, List,
}

-- Of three requests with a limit of 2, the second takes two attempts, and the third one is refused.
allow_request_window_example :
    allowed_among
      (λ k. none)
      1
      2
      60
      (((10, answered) ∷ [])
        ∷ ((20, answer_lost) ∷ (21, answered) ∷ [])
        ∷ ((69, answered) ∷ [])
        ∷ [])
    ≤ 2
allow_request_window_example =
    let (same, few) =
      allow_request_window 1 60 10 2
        (((10, answered) ∷ [])
          ∷ ((20, answer_lost) ∷ (21, answered) ∷ [])
          ∷ ((69, answered) ∷ [])
          ∷ [])
        (λ k. none) refl
        ((
          ((omega arith, omega arith), tt),
          (
            ((omega arith, omega arith), ((omega arith, omega arith), tt)),
            (((omega arith, omega arith), tt), tt),
          ),
        )) in
    omega (arith, same, few)

-- SendGrid refuses a message with 400, or it accepts it.
abbrev pub refusing : ℕ → Backends
refusing t = record {
  counter_tries = (t, answered) ∷ [];
  nonce_try = answered;
  respond = λ n. answer 400 none;
}

abbrev pub accepting : ℕ → Backends
accepting t = record {
  counter_tries = (t, answered) ∷ [];
  nonce_try = answered;
  respond = λ n. answer 202 none;
}

abbrev pub test_config : MailConfig
test_config = record {
  has_cache = true;
  hourly_limit = 5;
  idempotency_ttl = 86400;
  api_key = some 1;
  from_email = some 2;
}

abbrev pub test_mailbox : Mailbox
test_mailbox = record { counters = λ k. none; nonces = λ k. none; outbox = [] }

abbrev pub test_trim : ℕ → ℕ
test_trim a = a

abbrev pub test_len : ℕ → ℕ
test_len a = 9

abbrev pub test_valid : ℕ → Bool
test_valid a = true

abbrev pub test_render : ℕ → ℕ → Option ℕ
test_render name data' = some 1

abbrev pub test_rate_key : ℕ → ℕ → ℕ
test_rate_key a hour = a + hour

-- Two calls with the key 6, to different recipients.
abbrev pub test_sendings : List Sending
test_sendings =
    record {
      now = 100;
      recipient = 3;
      template_name = 4;
      template_data = 5;
      backends = accepting 100;
    }
    ∷ record {
      now = 200;
      recipient = 8;
      template_name = 4;
      template_data = 7;
      backends = accepting 200;
    }
    ∷ []

send_all_once_example :
    length
      (send_all test_trim test_len test_valid test_render test_rate_key test_config 6 test_sendings
        test_mailbox).outbox
    ≤ 1
send_all_once_example =
    send_all_once test_trim test_len test_valid test_render test_rate_key test_config 6
      test_sendings 100 test_mailbox refl refl
      ((omega arith, omega arith), ((omega arith, omega arith), tt))

abbrev pub test_service : Service number_sets member_sets
test_service = record { jobs = test_queue; mail = test_mailbox }

abbrev pub test_hash : ℕ → ℕ → ℕ → ℕ
test_hash a b c = a + b + c

abbrev pub test_suppressed : ℕ → Bool
test_suppressed a = false

abbrev pub test_column : ℕ → ℕ
test_column j = 3

abbrev pub handled :
    ℕ → ℕ → Backends → Service number_sets member_sets → Service number_sets member_sets
handled =
    handle number_sets member_sets test_trim test_len test_valid test_render test_rate_key
      test_config test_hash test_suppressed test_column test_column test_column test_column

job_refused :
    (send_job number_sets member_sets test_trim test_len test_valid test_render test_rate_key
      test_config test_hash test_suppressed test_column test_column test_column test_column 8
      (some 6)
      100
      (refusing 100)
      test_mailbox).0
    ≡ sendgrid_failed
unfolding send_email_idempotent
job_refused = refl

one_before :
    (incr_with_ttl
      ((220, answered) ∷ [])
      (handled 8 100 (refusing 100) test_service).mail.counters
      (test_rate_key 3 0)
      3600).0
    ≡ some 2
unfolding incr_with_ttl handle_job process_job send_email_idempotent
one_before = refl

retry_loses_example :
    (handled 8 220 (accepting 220) (handled 8 100 (refusing 100) test_service)).mail.outbox ≡ []
retry_loses_example =
    let (nothing_sent, _) =
      retry_loses number_sets member_sets test_trim test_len test_valid test_render test_rate_key
        test_config test_hash test_suppressed test_column test_column test_column test_column 8 100
        220 2 (refusing 100) (accepting 220) test_service refl refl refl refl job_refused
        (omega arith) refl one_before (omega arith) in
    nothing_sent
