-- ===== src/Client/Send.antt =====
-- `send` of src/asap/transport/client/_send.py with its handlers, over the circuit breaker that the
-- client shares. What a POST meets is an `Arrival`, given by the network for each attempt together
-- with the time at which the client handles it; logs, metrics and sleeps change no state read here.
use asap_protocol.Prelude.{
  ℕ, zero, suc, ◌+◌, Bool, true, ◌&&◌, Option, none, some, ltb, leb, nat_beq, is_none, not,
  if◌then◌else◌, Result, ok, err,
}
use asap_protocol.Circuit.Breaker.{CircuitBreaker, can_attempt, record_success, record_failure}

-- What a 2xx or 3xx response carries, as `_handle_success_response` tells them apart.
pub data Body : Type 0 where
  -- the body is no JSON, or does not decode
  undecodable : Body
  -- a JSON-RPC error: recoverable or not, with its `retry_after_ms`
  rpc_error : Bool → Option ℕ → Body
  -- a JSON-RPC error whose code is no integer
  bad_rpc_error : Body
  -- a result without an envelope
  missing_envelope : Body
  -- an envelope that fails its validation
  invalid_envelope : Body
  -- an envelope for another request
  unbound : Body
  -- the response envelope of this request
  bound : Body

pub data Arrival : Type 0 where
  response : ℕ → Body → Arrival
  connect_error timeout : Arrival
  -- any other exception
  unexpected : Arrival

pub data SendError : Type 0 where
  circuit_open connection_error timeout_error remote_error remote_rpc correlation : SendError
  -- an exception of the WebSocket that no clause names
  propagated : SendError

-- How one attempt ends: `return`, an exception that leaves the loop, or one to be retried.
pub data Verdict : Type 0 where
  returned : Verdict
  raised again : SendError → Verdict

abbrev pub Breaker : Type 0
Breaker = Option CircuitBreaker

-- `if self._circuit_breaker is not None: ...`
unfoldable pub fail_at : ℕ → Breaker → Breaker
fail_at now none = none
fail_at now (some b) = some (record_failure now b)

unfoldable pub succeed : Breaker → Breaker
succeed none = none
succeed (some b) = some (record_success b)

-- `attempt < self.max_retries - 1`
abbrev pub may_retry : ℕ → ℕ → Bool
may_retry max_retries attempt = ltb (attempt + 1) max_retries

-- `_handle_server_error` and `_handle_rate_limited` end alike.
unfoldable pub handle_retryable : ℕ → ℕ → ℕ → Breaker → Breaker × Verdict
unfolding fail_at
handle_retryable max_retries attempt now b =
    if may_retry max_retries attempt
    then (b, again connection_error)
    else (fail_at now b, raised connection_error)

unfoldable pub handle_client_error : ℕ → Breaker → Breaker × Verdict
unfolding fail_at
handle_client_error now b = (fail_at now b, raised connection_error)

unfoldable pub handle_jsonrpc_error : ℕ → ℕ → Bool → Option ℕ → Breaker → Breaker × Verdict
unfolding succeed
handle_jsonrpc_error max_retries attempt recoverable retry_after_ms b =
    if recoverable && not (is_none retry_after_ms) && may_retry max_retries attempt
    then (succeed b, again remote_rpc)
    else (succeed b, raised remote_rpc)

-- the `except Exception` clause of `send`
unfoldable pub handle_unexpected : ℕ → Breaker → Breaker × Verdict
unfolding fail_at
handle_unexpected now b = (fail_at now b, raised connection_error)

unfoldable pub handle_success_response : ℕ → ℕ → ℕ → Body → Breaker → Breaker × Verdict
unfolding handle_jsonrpc_error handle_unexpected
handle_success_response max_retries attempt now undecodable b = (b, raised remote_error)
handle_success_response max_retries attempt now (rpc_error r ms) b =
    handle_jsonrpc_error max_retries attempt r ms b
handle_success_response max_retries attempt now bad_rpc_error b = handle_unexpected now (succeed b)
handle_success_response max_retries attempt now missing_envelope b = (b, raised remote_error)
handle_success_response max_retries attempt now invalid_envelope b = handle_unexpected now b
handle_success_response max_retries attempt now unbound b = (b, raised correlation)
handle_success_response max_retries attempt now bound b = (succeed b, returned)

unfoldable pub handle_send_response : ℕ → ℕ → ℕ → ℕ → Body → Breaker → Breaker × Verdict
unfolding handle_retryable handle_client_error handle_success_response
handle_send_response max_retries attempt now status body b =
    if leb 500 status
    then handle_retryable max_retries attempt now b
    else if nat_beq status 429
    then handle_retryable max_retries attempt now b
    else if leb 400 status
    then handle_client_error now b
    else handle_success_response max_retries attempt now body b

unfoldable pub handle_send_transport_exception : SendError → ℕ → ℕ → ℕ → Breaker → Breaker × Verdict
unfolding fail_at
handle_send_transport_exception e max_retries attempt now b =
    if may_retry max_retries attempt then (b, again e) else (fail_at now b, raised e)

-- One pass of the loop of `send`. A `BaseException` that is no `Exception`, such as the cancelling of
-- the task, is caught by no handler of the code, and is no arrival here.
unfoldable pub handle : ℕ → ℕ → ℕ × Arrival → Breaker → Breaker × Verdict
unfolding handle_send_response handle_send_transport_exception handle_unexpected
handle max_retries attempt (now, response status body) b =
    handle_send_response max_retries attempt now status body b
handle max_retries attempt (now, connect_error) b =
    handle_send_transport_exception connection_error max_retries attempt now b
handle max_retries attempt (now, timeout) b =
    handle_send_transport_exception timeout_error max_retries attempt now b
handle max_retries attempt (now, unexpected) b = handle_unexpected now b

-- The breaker after a call, the number of POSTs made, and what the caller gets.
pub record Outcome : Type 0 where
  pub breaker : Breaker
  pub posts : ℕ
  pub result : Result SendError (Unit {0})

abbrev pub error_or : Option SendError → SendError
error_or none = connection_error
error_or (some e) = e

-- `for attempt in range(self.max_retries)`, with `rounds` of them left, and the lines behind it
unfoldable pub send_loop : (ℕ → ℕ × Arrival) → ℕ → ℕ → ℕ → Option SendError → Breaker → Outcome
send_loop network max_retries zero attempt last b = record {
  breaker = b;
  posts = attempt;
  result = err (error_or last);
}
send_loop network max_retries (suc rounds) attempt last b =
    let b' = (handle max_retries attempt (network attempt) b).0 in
    elim (handle max_retries attempt (network attempt) b).1 [
      | returned ↦ record { breaker = b'; posts = attempt + 1; result = ok tt }
      | raised e ↦ record { breaker = b'; posts = attempt + 1; result = err e }
      | again e ↦ send_loop network max_retries rounds (attempt + 1) (some e) b'
    ]

-- `if self._circuit_breaker is not None and not self._circuit_breaker.can_attempt()`
unfoldable pub pass_breaker : ℕ → Breaker → Breaker × Bool
pass_breaker now none = (none, true)
pass_breaker now (some b) = let (b', allowed) = can_attempt now b in (some b', allowed)

-- `send` of a connected HTTP client at `now`
unfoldable pub send : (ℕ → ℕ × Arrival) → ℕ → ℕ → Breaker → Outcome
unfolding pass_breaker
send network max_retries now b =
    let (b', allowed) = pass_breaker now b in
    if allowed
    then send_loop network max_retries max_retries 0 none b'
    else record { breaker = b'; posts = 0; result = err circuit_open }

-- How `send_and_receive` of a WebSocket ends.
pub data SocketReply : Type 0 where
  received remote_failure timed_out broken : SocketReply

-- `_send_websocket`
unfoldable pub send_websocket : SocketReply → ℕ → Breaker → Breaker × Result SendError (Unit {0})
unfolding pass_breaker
send_websocket reply now b =
    let (b', allowed) = pass_breaker now b in
    if allowed
    then (
      b',
      elim reply [
        | received ↦ ok tt
        | remote_failure ↦ err remote_rpc
        | timed_out ↦ err timeout_error
        | broken ↦ err propagated
      ],
    )
    else (b', err circuit_open)
