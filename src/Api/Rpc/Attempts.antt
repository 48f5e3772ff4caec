-- ===== src/Api/Rpc/Attempts.antt =====
-- Which of the answers to its attempts a call of the RPC node returns.
use predict_iq.Api.Rpc.{
  is_non_retryable_rpc_error, Reply, RpcResult, on_body, on_reply, rpc_from, rpc_call, replied, inl,
  is_client_error, is_ok_status, inr, transport_failed, transport_error, client_error, http_error,
  parse_error, rpc_error, empty_result,
}
use Prim.Native.Nat.{zero, suc}
use predict_iq.Prelude.{
  refl, none, some, ℕ, Bool, if◌then◌else◌, ◌+◌, ◌-◌, false, ◌||◌, ◌≡◌, ◌&&◌, leb, max, ◌≤◌, not,
  ◌==◌, true, arith, ◌∙◌, Bool-cases,
}

-- Whether an answer ends the call at whatever attempt.
unfoldable pub is_settled : Reply → Bool
unfolding is_non_retryable_rpc_error
is_settled transport_failed = false
is_settled (replied status body) =
    (is_client_error status && not (status == 429))
    || (is_ok_status status && elim body [
      | none ↦ true
      | some (some code, result) ↦ is_non_retryable_rpc_error code
      | some (none, some result) ↦ true
      | some (none, none) ↦ false
    ])

-- What the call returns if an answer is its last one.
unfoldable pub result_of : Reply → RpcResult
result_of transport_failed = inl transport_error
result_of (replied status body) =
    if is_client_error status && not (status == 429)
    then inl client_error
    else if not (is_ok_status status)
    then inl http_error
    else elim body [
      | none ↦ inl parse_error
      | some (some code, result) ↦ inl rpc_error
      | some (none, some result) ↦ inr result
      | some (none, none) ↦ inl empty_result
    ]

-- The first attempt from one on that ends the call, or the last of the `n` attempts.
pub settled_at : (ℕ → Reply) → ℕ → ℕ → ℕ
settled_at reply zero attempt = attempt
settled_at reply (suc n) attempt =
    let later = settled_at reply n (attempt + 1) in
    if is_settled (reply attempt) then attempt else later

-- An attempt returns its own answer if that settles the call or no attempt is left.
reply_ok :
    (retry_attempts attempt : ℕ) (r : Reply) (again : RpcResult × ℕ)
    → on_reply retry_attempts attempt r again
      ≡ (if is_settled r || leb retry_attempts attempt then (result_of r, attempt) else again)
unfolding on_reply on_body is_settled result_of
reply_ok retry_attempts attempt transport_failed again = refl
reply_ok retry_attempts attempt (replied status none) again = ground arith
reply_ok retry_attempts attempt (replied status (some (some code, r))) again = ground arith
reply_ok retry_attempts attempt (replied status (some (none, some r))) again = ground arith
reply_ok retry_attempts attempt (replied status (some (none, none))) again = ground arith

from_ok :
    (n attempt retry_attempts : ℕ) (reply : ℕ → Reply)
    → 1 ≤ attempt
    → attempt + n ≡ max retry_attempts 1
    → rpc_from (suc n) retry_attempts reply attempt
      ≡ (result_of (reply (settled_at reply n attempt)), settled_at reply n attempt)
unfolding rpc_from settled_at
from_ok zero attempt retry_attempts reply late last = ground (
  arith,
  last,
  reply_ok retry_attempts attempt (reply attempt)
      (rpc_from zero retry_attempts reply (attempt + 1)),
)
from_ok (suc n) attempt retry_attempts reply late left =
    let again = rpc_from (suc n) retry_attempts reply (attempt + 1) in
    let rest = from_ok n (attempt + 1) retry_attempts reply (omega arith) (omega (arith, left)) in
    reply_ok retry_attempts attempt (reply attempt) again
    ∙ (elim (Bool-cases (is_settled (reply attempt))) [
      | inl done ↦ rw done refl
      | inr open' ↦
          let more : leb retry_attempts attempt ≡ false = ground (arith, late, left) in
          rw (open', more) rest
    ])

settled_at-bounds :
    (n attempt : ℕ) (reply : ℕ → Reply)
    → (attempt ≤ settled_at reply n attempt) × (settled_at reply n attempt ≤ attempt + n)
unfolding settled_at
settled_at-bounds zero attempt reply = omega arith
settled_at-bounds (suc n) attempt reply = ground (arith, settled_at-bounds n (attempt + 1) reply)

-- A call of the node ends after at most max(retry_attempts, 1) requests, and its result and its
-- number of requests are those of the first attempt whose answer is not to be retried, or of the
-- last one where there is none.
pub rpc_call-settled_at :
    (retry_attempts : ℕ) (reply : ℕ → Reply)
    → let last = settled_at reply (retry_attempts - 1) 1 in
      (rpc_call retry_attempts reply ≡ (result_of (reply last), last))
      × (last ≤ max retry_attempts 1)
unfolding rpc_call
rpc_call-settled_at retry_attempts reply =
    let all : suc (retry_attempts - 1) ≡ max retry_attempts 1 = omega arith in
    (
      rw (← all) (from_ok (retry_attempts - 1) 1 retry_attempts reply (omega arith) (omega arith)),
      omega (arith, settled_at-bounds (retry_attempts - 1) 1 reply),
    )
