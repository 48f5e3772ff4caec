-- ===== src/Examples/Api.antt =====
-- The theorems on the HTTP service at small inputs.
use predict_iq.Api.Shutdown.Completion.{is_complete-reported, reported_count, is_complete_lost}
use predict_iq.Api.Supervisor.Restarts
use predict_iq.Api.Supervisor.Restarts.{
  email_worker_backoff-backoff_for_attempt, first_ok, supervise-first_ok,
}
use predict_iq.Api.Tokens.Once.{redeem_all, redeem_once}
use predict_iq.Api.RateLimit.Window.{
  count_after, entries_after, check_rate_limit-count_after, recorded, IsNewestFirst,
}
use predict_iq.Api.Breaker.Recovery.{fail_all, fail_all-allow}
use predict_iq.Api.Tokens.{OpaqueTokenStore, redeem, valid_token}
use predict_iq.Api.RateLimit.{RateLimitConfig, check_rate_limit, allowed_count, retry_after}
use predict_iq.Api.Shutdown.{
  Coordinator, read_completion, is_complete, new_coordinator, send_completion, Steps, Phase, read,
  send,
}
use predict_iq.Api.Supervisor.{Supervised, supervise}
use predict_iq.Api.RateLimit.{Reach, no_connection, answer_lost, answered}
use predict_iq.Prelude.{
  ℕ, ◌≡◌, Option, if◌then◌else◌, ◌∷◌, none, ltb, put, refl, [], ◌==◌, true, some, arith, false, ◌≢◌,
  List,
}
use predict_iq.Api.Breaker.{CircuitBreaker, breaker_state, allow, CircuitState}

-- Opened at 100 with a timeout of 50: half open from 150 on.
abbrev test_breaker : CircuitBreaker
test_breaker = record { failure_count = 3; opened_at_ms = 100; threshold = 3; reset_timeout = 50 }

half_open_at : breaker_state test_breaker 160 ≡ CircuitState.half_open
unfolding breaker_state
half_open_at = refl

fail_all-allow_example : allow (fail_all (161 ∷ 162 ∷ 163 ∷ []) test_breaker) 170 ≡ true
fail_all-allow_example =
    fail_all-allow (161 ∷ 162 ∷ 163 ∷ []) test_breaker 160 170 half_open_at (omega arith)

-- The second attempt succeeds.
abbrev second_only : ℕ → Option ℕ
second_only attempt = if attempt == 1 then some 42 else none

supervise-first_ok_example :
    (s : Supervised) × (supervise (λ n. n == 2) 5 0 ≡ some s)
    × ((s.outcome, s.worker_crash_total) ≡ Restarts.reported 5 0 (first_ok (λ n. n == 2) 6 0))
supervise-first_ok_example = supervise-first_ok (λ n. n == 2) 5 0 (omega arith) (omega arith)

-- The only worker reports.
abbrev asked_env : Coordinator
asked_env = read_completion 0 (new_coordinator 1)

abbrev done_env : Coordinator
done_env = send_completion 0 0 asked_env

one_reports : Steps (new_coordinator 1) done_env
unfolding read_completion
one_reports =
    Steps.later asked_env done_env
      (Steps.later (new_coordinator 1) asked_env Steps.start (read 0 (omega arith) refl))
      (send 0 0 (omega arith) refl)

one_complete : is_complete done_env ≡ true
unfolding is_complete read_completion send_completion
one_complete = refl

is_complete-reported_example : done_env.worker 0 ≡ Phase.reported
is_complete-reported_example =
    is_complete-reported 1 0 done_env one_reports one_complete (omega arith)

is_complete_lost_example :
    (c : Coordinator) × Steps (new_coordinator 2) c
    × (reported_count 2 c.worker ≡ 2)
    × (c.completion ≡ 1)
    × (is_complete c ≡ false)
is_complete_lost_example = is_complete_lost 2 (omega arith)

abbrev test_config : RateLimitConfig
test_config = record { max_requests = 2; window_seconds = 1 }

-- The answer to the request at 900 is lost, and the one at 950 has no connection.
abbrev test_requests : List (ℕ × Reach)
test_requests = (950, no_connection) ∷ (900, answer_lost) ∷ (400, answered) ∷ []

newest_first : IsNewestFirst (1500 ∷ recorded test_requests)
unfolding recorded
newest_first = omega arith

check_rate_limit-count_after_example :
    (check_rate_limit test_config answered 1500 (entries_after test_config test_requests)).0 ≡ (
      if ltb 2 (count_after 500 (1500 ∷ recorded test_requests))
      then retry_after 1
      else allowed_count (count_after 500 (1500 ∷ recorded test_requests)))
check_rate_limit-count_after_example =
    check_rate_limit-count_after test_config 1500 answered test_requests newest_first

abbrev token_store : OpaqueTokenStore
token_store = record {
  entries =
      put (λ h. none) 9 (some (record { subscriber_id = 3; expires_at = 100; used_at = none }));
  token_ttl = 90;
}

redeemed : redeem (λ r. r) 9 20 token_store ≡ (valid_token 3, (redeem (λ r. r) 9 20 token_store).1)
unfolding redeem
redeemed = refl

redeem_once_example :
    (redeem
      (λ r. r)
      9
      30
      (redeem_all (λ r. r) ((8, 25) ∷ []) (redeem (λ r. r) 9 20 token_store).1)).0
    ≢ valid_token 3
redeem_once_example =
    redeem_once (λ r. r) 9 20 30 3 3 ((8, 25) ∷ []) token_store (redeem (λ r. r) 9 20 token_store).1
      redeemed
