-- ===== src/Client/Probing.antt =====
-- What a send through a half-open circuit leaves behind.
use asap_protocol.Prelude.{
  ℕ, zero, suc, ◌+◌, ◌≤◌, ◌<◌, Bool, true, false, not, Option, none, some, arith, ◌≡◌, ◌≢◌, refl,
  Result, ok, err, List, [], ◌∷◌, map, ap,
}
use asap_protocol.Circuit.Breaker.{
  CircuitBreaker, opened, is_half_open, can_attempt, record_success, record_failure,
}
use asap_protocol.Circuit.Admission.{IsSpent, can_attempt_of_IsSpent}
use asap_protocol.Client.Send.{
  Body, undecodable, missing_envelope, unbound, Arrival, response, Verdict, returned, raised, again,
  SendError, remote_error, correlation, circuit_open, Breaker, handle, send_loop, pass_breaker,
  send, SocketReply, send_websocket,
}

abbrev pub is_probing : Breaker → Bool
is_probing none = false
is_probing (some b) = is_half_open b.state

-- The two errors that `send` raises with no outcome recorded for them.
abbrev pub is_silent : SendError → Bool
is_silent remote_error = true
is_silent correlation = true
is_silent _ = false

abbrev settles : Verdict → Bool
settles returned = true
settles (raised e) = not (is_silent e)
settles (again e) = false

handle-settles :
    (m attempt : ℕ) (x : ℕ × Arrival) (b : Breaker)
    → settles (handle m attempt x b).1 ≡ true
    → is_probing (handle m attempt x b).0 ≡ false
unfolding handle record_success record_failure
handle-settles m attempt (now, response status body) b h = ground arith
handle-settles m attempt (now, x) b h = ground arith

handle_final :
    (m attempt : ℕ) (x : ℕ × Arrival) (b : Breaker) (e : SendError)
    → attempt + 1 ≡ m
    → (handle m attempt x b).1 ≢ again e
unfolding handle
handle_final m attempt (now, response status body) b e h = ground arith
handle_final m attempt (now, x) b e h = ground arith

abbrev pub silent_result : Result SendError (Unit {0}) → Bool
silent_result (ok _) = false
silent_result (err e) = is_silent e

loop_settles :
    (network : ℕ → ℕ × Arrival) (m rounds attempt : ℕ) (last : Option SendError) (b : Breaker)
    → attempt + rounds ≡ m
    → 0 < rounds
    → let out = send_loop network m rounds attempt last b in
      silent_result out.result ≡ false → is_probing out.breaker ≡ false
unfolding send_loop
loop_settles network m zero attempt last b sum some_left h = absurd (omega arith)
loop_settles network m (suc rounds) attempt last b sum some_left h =
    let after = (handle m attempt (network attempt) b).0 in
    let rest = λ (e : SendError). loop_settles network m rounds (attempt + 1) (some e) after in
    let final = λ (e : SendError). handle_final m attempt (network attempt) b e in
    grind (arith, rest, final, handle-settles m attempt (network attempt) b)

-- After a send with at least one attempt that the breaker lets through, and that does not end in
-- `ASAPRemoteError` or `ProtocolCorrelationError`, the circuit is not half open: its outcome has
-- been recorded.
pub send-settles :
    (network : ℕ → ℕ × Arrival) (m now : ℕ) (b : Breaker)
    → 0 < m
    → (pass_breaker now b).1 ≡ true
    → silent_result (send network m now b).result ≡ false
    → is_probing (send network m now b).breaker ≡ false
unfolding send
send-settles network m now b some_left allowed =
    rw allowed (loop_settles network m m 0 none (pass_breaker now b).0 (omega arith) some_left)

-- The answers for which nothing is recorded.
abbrev pub is_silent_body : Body → Bool
is_silent_body undecodable = true
is_silent_body missing_envelope = true
is_silent_body unbound = true
is_silent_body _ = false

handle_silent :
    (m attempt now status : ℕ) (body : Body) (b : Breaker)
    → status < 400
    → is_silent_body body ≡ true
    → (e : SendError) × (handle m attempt (now, response status body) b ≡ (b, raised e))
unfolding handle
handle_silent m attempt now status undecodable b h k = (remote_error, ground arith)
handle_silent m attempt now status missing_envelope b h k = (remote_error, ground arith)
handle_silent m attempt now status unbound b h k = (correlation, ground arith)
handle_silent m attempt now status _ b h k = cc

loop_silent :
    (network : ℕ → ℕ × Arrival) (m at_time status : ℕ) (body : Body) (b : Breaker)
    → network 0 ≡ (at_time, response status body)
    → status < 400
    → is_silent_body body ≡ true
    → (send_loop network (suc m) (suc m) 0 none b).breaker ≡ b
unfolding send_loop
loop_silent network m at_time status body b first below silent =
    let (e, kept) = handle_silent (suc m) 0 at_time status body b below silent in
    ground (arith, first, kept)

-- A call of the client, over HTTP with what its network does, or over a WebSocket.
pub data Call : Type 0 where
  http : (ℕ → ℕ × Arrival) → ℕ → ℕ → Call
  socket : SocketReply → ℕ → Call

unfoldable pub call : Call → Breaker → Breaker × Result SendError (Unit {0})
call (http network m now) b = let out = send network m now b in (out.breaker, out.result)
call (socket reply now) b = send_websocket reply now b

unfoldable pub call_all : List Call → Breaker → List (Result SendError (Unit {0}))
call_all [] b = []
call_all (c ∷ cs) b = let (b', r) = call c b in r ∷ call_all cs b'

call_of_IsSpent :
    (c : Call) (b : CircuitBreaker) → IsSpent b → call c (some b) ≡ (some b, err circuit_open)
unfolding call send send_websocket
call_of_IsSpent (http network m now) b h = rw (can_attempt_of_IsSpent now b h)
call_of_IsSpent (socket reply now) b h = rw (can_attempt_of_IsSpent now b h)

call_all_of_IsSpent :
    (cs : List Call) (b : CircuitBreaker)
    → IsSpent b
    → call_all cs (some b) ≡ map (λ _. err circuit_open) cs
unfolding call_all
call_all_of_IsSpent [] b h = refl
call_all_of_IsSpent (c ∷ cs) b h =
    rw (call_of_IsSpent c b h) (ap (◌∷◌ (err circuit_open)) (call_all_of_IsSpent cs b h))

probe_spends :
    (now t : ℕ) (b : CircuitBreaker)
    → b.state ≡ opened
    → b.last_failure_time ≡ some t
    → t + b.timeout ≤ now
    → IsSpent (can_attempt now b).0 × ((can_attempt now b).1 ≡ true)
unfolding can_attempt
probe_spends now t b h k l = ground arith

-- Where the circuit is open, its timeout has passed, and the probe is answered by a 2xx or 3xx
-- response that does not decode, has no envelope, or has one for another request, every later call
-- is refused, whenever it is made.
pub silent_probe_blocks :
    (network : ℕ → ℕ × Arrival) (m now t at_time status : ℕ) (body : Body) (b : CircuitBreaker)
    (cs : List Call)
    → b.state ≡ opened
    → b.last_failure_time ≡ some t
    → t + b.timeout ≤ now
    → network 0 ≡ (at_time, response status body)
    → status < 400
    → is_silent_body body ≡ true
    → call_all cs (send network (suc m) now (some b)).breaker ≡ map (λ _. err circuit_open) cs
unfolding send
silent_probe_blocks network m now t at_time status body b cs h k l first below silent =
    let (spent, allowed) = probe_spends now t b h k l in
    let kept =
      loop_silent network m at_time status body (some (can_attempt now b).0) first below silent in
    rw (allowed, kept) (call_all_of_IsSpent cs (can_attempt now b).0 spent)

-- After a WebSocket call that probes an open circuit whose timeout has passed, also where it
-- receives its response, every later call is refused, whenever it is made.
pub websocket_probe_blocks :
    (reply : SocketReply) (now t : ℕ) (b : CircuitBreaker) (cs : List Call)
    → b.state ≡ opened
    → b.last_failure_time ≡ some t
    → t + b.timeout ≤ now
    → call_all cs (send_websocket reply now (some b)).0 ≡ map (λ _. err circuit_open) cs
unfolding send_websocket
websocket_probe_blocks reply now t b cs h k l =
    let (spent, allowed) = probe_spends now t b h k l in
    rw allowed (call_all_of_IsSpent cs (can_attempt now b).0 spent)
