-- ===== src/Websocket/Acks.antt =====
-- `_AckRetransmit` of src/asap/transport/ws/_ack.py, with the acknowledgement branch of
-- src/asap/transport/ws/_recv.py. A pending acknowledgement is an object that a round keeps while it awaits:
-- `serial` says which one it is. The clock, and what a send awaits and comes to, are read through a `Sending`.
use asap_protocol.Prelude.{
  ℕ, suc, ◌+◌, String, Bool, true, Option, none, some, if◌then◌else◌, leb, ltb, nat_beq, List, [],
  ◌∷◌, ◌==◌, string_eq, contains, Dict, lookup, insert, erase,
}
use asap_protocol.Circuit.Breaker.{CircuitBreaker, record_failure}

-- the fields of an envelope that the layer reads; an envelope without an id has the empty one
pub record Envelope : Type 0 where
  pub id : String
  pub requires_ack : Bool
  pub payload_type : String

pub record PendingAck : Type 0 where
  pub serial : ℕ
  pub envelope_id : String
  pub sent_at : ℕ
  pub retries : ℕ
  pub original_envelope : Envelope

pub record AckState : Type 0 where
  pub pending_acks : Dict String PendingAck
  pub next_serial : ℕ
  pub ack_timeout : ℕ
  pub max_ack_retries : ℕ
  pub circuit_breaker : Option CircuitBreaker

abbrev pub payload_types_requiring_ack : List String
payload_types_requiring_ack =
    "TaskRequest" ∷ "task.request" ∷ "TaskCancel" ∷ "task.cancel" ∷ "StateRestore" ∷ "state_restore"
    ∷ "MessageSend" ∷ "message.send" ∷ "message_send" ∷ []

unfoldable pub requires_ack : Envelope → Bool
unfolding contains
requires_ack e =
    if e.requires_ack then true else contains e.payload_type payload_types_requiring_ack

unfoldable pub register_pending_ack : ℕ → Envelope → AckState → AckState
unfolding requires_ack
register_pending_ack now e s =
    if e.id == ""
    then s
    else if requires_ack e
    then record s {
      pending_acks =
          insert e.id
            (record {
              serial = s.next_serial;
              envelope_id = e.id;
              sent_at = now;
              retries = 0;
              original_envelope = e;
            })
            s.pending_acks;
      next_serial = suc s.next_serial;
    }
    else s

-- What other tasks of the client do while a send awaits: an acknowledgement comes in, or an envelope is sent.
pub data Event : Type 0 where
  acknowledged : String → Event
  sent : ℕ → Envelope → Event

unfoldable pub handle_event : Event → AckState → AckState
unfolding register_pending_ack
handle_event (acknowledged id) s = record s { pending_acks = erase id s.pending_acks }
handle_event (sent now e) s = register_pending_ack now e s

unfoldable pub handle_events : List Event → AckState → AckState
unfolding handle_event
handle_events [] s = s
handle_events (e ∷ es) s = handle_events es (handle_event e s)

-- One retransmission: what happens while it awaits, whether the send returns, and the clock after it.
pub record Sending : Type 0 where
  pub events : List Event
  pub returns : Bool
  pub now : ℕ

-- the object with this serial number, where the dict still holds it
unfoldable pub count_retry : ℕ → String → ℕ → Dict String PendingAck → Dict String PendingAck
count_retry now id serial d = elim (lookup id d) [
  | none ↦ d
  | some p ↦
      if nat_beq p.serial serial
      then insert id (record p { sent_at = now; retries = p.retries + 1 }) d
      else d
]

-- what is left to wait for is none where the sendings run out
unfoldable pub run_retransmissions : List (String × ℕ) → List Sending → AckState → Option AckState
unfolding handle_events count_retry
run_retransmissions [] sendings s = some s
run_retransmissions (due ∷ rest) [] s = none
run_retransmissions ((id, serial) ∷ rest) (sending ∷ sendings) s =
    let s' = handle_events sending.events s in
    run_retransmissions rest sendings (
      if sending.returns
      then record s' { pending_acks = count_retry sending.now id serial s'.pending_acks }
      else s')

unfoldable pub expire_pending_ack : ℕ → String → AckState → AckState
unfolding record_failure
expire_pending_ack now id s = record s {
  pending_acks = erase id s.pending_acks;
  circuit_breaker = elim s.circuit_breaker [ none ↦ none | some b ↦ some (record_failure now b) ];
}

unfoldable pub expire_all : ℕ → List String → AckState → AckState
unfolding expire_pending_ack
expire_all now [] s = s
expire_all now (id ∷ ids) s = expire_all now ids (expire_pending_ack now id s)

-- `now - sent_at <= timeout`
abbrev pub is_waiting : ℕ → ℕ → PendingAck → Bool
is_waiting now timeout p = leb now (p.sent_at + timeout)

unfoldable pub due_list : ℕ → ℕ → ℕ → Dict String PendingAck → List (String × ℕ)
due_list now timeout max_retries [] = []
due_list now timeout max_retries ((id, p) ∷ d) =
    let rest = due_list now timeout max_retries d in
    if is_waiting now timeout p
    then rest
    else if ltb p.retries max_retries
    then (id, p.serial) ∷ rest
    else rest

unfoldable pub expired_list : ℕ → ℕ → ℕ → Dict String PendingAck → List String
expired_list now timeout max_retries [] = []
expired_list now timeout max_retries ((id, p) ∷ d) =
    let rest = expired_list now timeout max_retries d in
    if is_waiting now timeout p then rest else if ltb p.retries max_retries then rest else id ∷ rest

-- `_retransmit_or_expire_pending_acks`, with the clock at its start and at the failures that it records
unfoldable pub round : ℕ → ℕ → List Sending → AckState → Option AckState
unfolding due_list expired_list run_retransmissions expire_all
round now later sendings s =
    let expired = expired_list now s.ack_timeout s.max_ack_retries s.pending_acks in
    elim (run_retransmissions (due_list now s.ack_timeout s.max_ack_retries s.pending_acks) sendings
      s) [ none ↦ none | some s' ↦ some (expire_all later expired s') ]
