-- ===== src/Api/Rpc.antt =====
-- services/api/src/blockchain.rs: a call of the RPC node, with its retries. The delays between the
-- attempts are left out, and what the node answers to each attempt is a parameter.
pub mod Attempts
use Prim.Native.Nat.{zero, suc}
use predict_iq.Prelude.{
  none, some, Option, ℕ, ◌⊎◌, ℤ, Bool, inl, if◌then◌else◌, max, leb, pos, ◌&&◌, false, inr, ◌+◌,
  ltb, negsuc, not, ◌==◌, ◌||◌,
}

-- The body of an answer: none where it does not parse, or else the code of its error and its result.
abbrev pub Envelope : Type 0
Envelope = Option (Option ℤ × Option ℕ)

-- A status with a body, or a failure of the transport.
pub data Reply : Type 0 where
  replied : ℕ → Envelope → Reply
  transport_failed : Reply

-- How rpc_call ends.
pub data RpcError : Type 0 where
  client_error http_error parse_error rpc_error empty_result transport_error : RpcError

abbrev pub RpcResult : Type 0
RpcResult = RpcError ⊎ ℕ

abbrev pub is_client_error : ℕ → Bool
is_client_error status = leb 400 status && ltb status 500

abbrev pub is_ok_status : ℕ → Bool
is_ok_status status = leb 200 status && ltb status 300

unfoldable pub is_non_retryable_rpc_error : ℤ → Bool
is_non_retryable_rpc_error (pos n) = false
is_non_retryable_rpc_error (negsuc n) = n == 32699 || n == 32599 || n == 32600 || n == 32601

-- What an answer of status 200 to 299 comes to: `again` if it is to be retried.
unfoldable pub on_body : ℕ → ℕ → Envelope → RpcResult × ℕ → RpcResult × ℕ
unfolding is_non_retryable_rpc_error
on_body retry_attempts attempt none again = (inl parse_error, attempt)
on_body retry_attempts attempt (some (some code, result)) again =
    if is_non_retryable_rpc_error code
    then (inl rpc_error, attempt)
    else if leb retry_attempts attempt
    then (inl rpc_error, attempt)
    else again
on_body retry_attempts attempt (some (none, some result)) again = (inr result, attempt)
on_body retry_attempts attempt (some (none, none)) again =
    if leb retry_attempts attempt then (inl empty_result, attempt) else again

-- What an attempt comes to.
unfoldable pub on_reply : ℕ → ℕ → Reply → RpcResult × ℕ → RpcResult × ℕ
unfolding on_body
on_reply retry_attempts attempt transport_failed again =
    if leb retry_attempts attempt then (inl transport_error, attempt) else again
on_reply retry_attempts attempt (replied status body) again =
    if is_client_error status && not (status == 429)
    then (inl client_error, attempt)
    else if not (is_ok_status status)
    then (if leb retry_attempts attempt then (inl http_error, attempt) else again)
    else on_body retry_attempts attempt body again

-- The loop at an attempt, `n` attempts left; with the number of requests that it has sent.
unfoldable pub rpc_from : ℕ → ℕ → (ℕ → Reply) → ℕ → RpcResult × ℕ
unfolding on_reply
rpc_from zero retry_attempts reply attempt = (inl transport_error, attempt)
rpc_from (suc n) retry_attempts reply attempt =
    let again = rpc_from n retry_attempts reply (attempt + 1) in
    on_reply retry_attempts attempt (reply attempt) again

unfoldable pub rpc_call : ℕ → (ℕ → Reply) → RpcResult × ℕ
unfolding rpc_from
rpc_call retry_attempts reply = rpc_from (max retry_attempts 1) retry_attempts reply 1
