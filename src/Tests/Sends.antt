-- ===== src/Tests/Sends.antt =====
-- Calls of a client with three attempts, for src/asap/transport/client/_send.py.
use asap_protocol.Prelude.{
  ℕ, ◌+◌, true, false, some, if◌then◌else◌, nat_beq, [], ◌∷◌, map, ◌≡◌, ◌≢◌, refl, arith, ok, err,
}
use asap_protocol.Circuit.Breaker.{CircuitBreaker, opened, can_attempt}
use asap_protocol.Client.Send.{
  Arrival, response, timeout, connect_error, bound, missing_envelope, circuit_open, fail_at,
  pass_breaker, send, send_loop, handle, received,
}
use asap_protocol.Client.Retries.{send-returns, send-exhausts}
use asap_protocol.Client.Probing.{
  is_probing, send-settles, call_all, silent_probe_blocks, http, socket,
}

-- it opened at 5, and lets a probe through from 15 on
abbrev tripped : CircuitBreaker
tripped = record {
  threshold = 2;
  timeout = 10;
  state = opened;
  consecutive_failures = 2;
  last_failure_time = some 5;
  half_open_permit = true;
}

-- a timeout, a server error, and then the response
abbrev flaky : ℕ → ℕ × Arrival
flaky i =
    if nat_beq i 0
    then (20, timeout)
    else if nat_beq i 1
    then (30, response 503 missing_envelope)
    else (40, response 200 bound)

abbrev down : ℕ → ℕ × Arrival
down i = (20 + i, connect_error)

-- a server that answers with no envelope
abbrev mute : ℕ → ℕ × Arrival
mute i = (20, response 200 missing_envelope)

send-returns_example :
    ((send flaky 3 16 (some tripped)).posts ≡ 3) × ((send flaky 3 16 (some tripped)).result ≡ ok tt)
unfolding pass_breaker can_attempt
send-returns_example =
    send-returns flaky 3 2 16 40 200 (some tripped) refl (λ i h. ground arith) refl (omega arith)
      (omega arith)

send-exhausts_example :
    let out = send down 3 16 (some tripped) in
    (out.posts ≡ 3)
    × (out.breaker ≡ fail_at (down 2).0 (pass_breaker 16 (some tripped)).0)
    × (out.result ≢ ok tt)
unfolding pass_breaker can_attempt
send-exhausts_example = send-exhausts down 2 16 (some tripped) refl (λ i h. refl)

send-settles_example : is_probing (send flaky 3 16 (some tripped)).breaker ≡ false
unfolding pass_breaker can_attempt send send_loop handle
send-settles_example = send-settles flaky 3 16 (some tripped) (omega arith) refl refl

silent_probe_blocks_example :
    call_all (http flaky 3 1000 ∷ socket received 2000 ∷ []) (send mute 3 16 (some tripped)).breaker
    ≡ map (λ _. err circuit_open) (http flaky 3 1000 ∷ socket received 2000 ∷ [])
silent_probe_blocks_example =
    silent_probe_blocks mute 2 16 5 20 200 missing_envelope tripped
      (http flaky 3 1000 ∷ socket received 2000 ∷ []) refl refl (omega arith) refl (omega arith)
      refl
