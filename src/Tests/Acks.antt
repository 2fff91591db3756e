-- ===== src/Tests/Acks.antt =====
-- Pending acknowledgements, for src/asap/transport/ws/_ack.py.
use asap_protocol.Prelude.{
  ℕ, String, true, false, some, [], ◌∷◌, Dict, ◌≡◌, refl, string_eq, lookup, insert, erase, arith,
}
use asap_protocol.Circuit.Breaker.{fresh, record_failure}
use asap_protocol.Websocket.Acks.{Envelope, PendingAck, AckState, acknowledged, Sending, round}
use asap_protocol.Websocket.Rounds.{run_rounds, run_rounds-IsLost}
use asap_protocol.Websocket.Budget.{IsBudgeted}
use asap_protocol.Websocket.Retries.{round-IsBudgeted}

abbrev envelope : String → Envelope
envelope id = record { id = id; requires_ack = true; payload_type = "task.request" }

abbrev pending : ℕ → String → ℕ → PendingAck
pending serial id retries = record {
  serial = serial;
  envelope_id = id;
  sent_at = 100;
  retries = retries;
  original_envelope = envelope id;
}

abbrev state : Dict String PendingAck → ℕ → AckState
state d next = record {
  pending_acks = d;
  next_serial = next;
  ack_timeout = 30;
  max_ack_retries = 3;
  circuit_breaker = some (fresh 5 60);
}

abbrev two : AckState
two = state (("a", pending 0 "a" 1) ∷ ("b", pending 1 "b" 3) ∷ []) 2

abbrev resent : Sending
resent = record { events = acknowledged "b" ∷ []; returns = true; now = 141 }

-- "b" is acknowledged while the retransmission of "a" awaits, and its failure is recorded all the same
late_ack :
    round 140 142 (resent ∷ []) two
    ≡ some (record (state (("a", record (pending 0 "a" 2) { sent_at = 141 }) ∷ []) 2) {
      circuit_breaker = some (record_failure 142 (fresh 5 60));
    })
unfolding round insert erase lookup
late_ack = refl

two-IsBudgeted : IsBudgeted two
unfolding lookup
two-IsBudgeted = record {
  unique = (refl, (refl, tt));
  budget = λ id p at. ground (arith, string_eq.beq_iff "a" id, string_eq.beq_iff "b" id);
}

round-IsBudgeted_example :
    IsBudgeted (record (state (("a", record (pending 0 "a" 2) { sent_at = 141 }) ∷ []) 2) {
      circuit_breaker = some (record_failure 142 (fresh 5 60));
    })
round-IsBudgeted_example = round-IsBudgeted 140 142 (resent ∷ []) two _ two-IsBudgeted late_ack

abbrev one : AckState
one = state (("a", pending 0 "a" 1) ∷ []) 1

abbrev lost : Sending
lost = record { events = []; returns = false; now = 0 }

run_rounds-IsLost_example :
    run_rounds ((140, 141, lost ∷ []) ∷ (1000, 1001, lost ∷ []) ∷ []) one ≡ some one
run_rounds-IsLost_example =
    run_rounds-IsLost ((140, 141, lost ∷ []) ∷ (1000, 1001, lost ∷ []) ∷ []) one
      ((((refl, refl), tt), omega arith), ((((refl, refl), tt), omega arith), tt)) (refl, tt)
