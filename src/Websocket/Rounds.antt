-- ===== src/Websocket/Rounds.antt =====
-- What the rounds of `_ack_check_loop` in src/asap/transport/ws/_ack.py do where no retransmission goes out.
use asap_protocol.Prelude.{
  ℕ, ◌≤◌, String, true, false, Option, none, some, ltb, length, List, [], ◌∷◌, Dict, All, arith,
  ◌≡◌, refl, Bool-cases, inl, inr,
}
use asap_protocol.Websocket.Acks.{
  PendingAck, AckState, Sending, is_waiting, handle_events, run_retransmissions, due_list,
  expired_list, expire_all, round,
}

-- rounds, each with its clock readings and its sendings
unfoldable pub run_rounds : List (ℕ × ℕ × List Sending) → AckState → Option AckState
unfolding round
run_rounds [] s = some s
run_rounds ((now, later, sendings) ∷ rounds) s = elim (round now later sendings s) [
  | none ↦ none
  | some s' ↦ run_rounds rounds s'
]

-- The send raises, and nothing else happens meanwhile.
abbrev pub IsLost : Sending → Type 0
IsLost x = (x.returns ≡ false) × (x.events ≡ [])

-- Each envelope has a retry left.
abbrev pub IsUnder : ℕ → Dict String PendingAck → Type 0
IsUnder limit d = All (λ e. ltb e.1.retries limit ≡ true) d

run_retransmissions-IsLost :
    (due : List (String × ℕ)) (sendings : List Sending) (s : AckState)
    → All IsLost sendings
    → length due ≤ length sendings
    → run_retransmissions due sendings s ≡ some s
unfolding run_retransmissions handle_events
run_retransmissions-IsLost [] sendings s h k = refl
run_retransmissions-IsLost (d ∷ due) [] s h k = ground (arith, k)
run_retransmissions-IsLost (d ∷ due) (x ∷ sendings) s ((raises, quiet), h) k =
    rw (raises, quiet) (run_retransmissions-IsLost due sendings s h (omega (arith, k)))

length-due_list :
    (now timeout limit : ℕ) (d : Dict String PendingAck)
    → length (due_list now timeout limit d) ≤ length d
unfolding due_list
length-due_list now timeout limit [] = omega arith
length-due_list now timeout limit ((id, p) ∷ d) =
    ground (arith, length-due_list now timeout limit d)

expired_list-IsUnder :
    (now timeout limit : ℕ) (d : Dict String PendingAck)
    → IsUnder limit d
    → expired_list now timeout limit d ≡ []
unfolding expired_list
expired_list-IsUnder now timeout limit [] h = refl
expired_list-IsUnder now timeout limit ((id, p) ∷ d) (under, h) =
    rw under (elim (Bool-cases (is_waiting now timeout p)) [
      | inl waiting ↦ rw waiting (expired_list-IsUnder now timeout limit d h)
      | inr late ↦ rw late (expired_list-IsUnder now timeout limit d h)
    ])

round-IsLost :
    (now later : ℕ) (sendings : List Sending) (s : AckState)
    → All IsLost sendings
    → length s.pending_acks ≤ length sendings
    → IsUnder s.max_ack_retries s.pending_acks
    → round now later sendings s ≡ some s
unfolding round expire_all
round-IsLost now later sendings s lost enough under =
    rw
      (
        round,
        run_retransmissions-IsLost (due_list now s.ack_timeout s.max_ack_retries s.pending_acks)
            sendings s lost
            (omega
              (arith, enough, length-due_list now s.ack_timeout s.max_ack_retries s.pending_acks)),
        expired_list-IsUnder now s.ack_timeout s.max_ack_retries s.pending_acks under,
      )
      refl

-- Rounds in which every retransmission raises, and nothing else happens, change nothing, however many there
-- are and however late: where each envelope had a retry left, none is counted, none expires, and the breaker
-- records no failure.
pub run_rounds-IsLost :
    (rounds : List (ℕ × ℕ × List Sending)) (s : AckState)
    → All (λ r. All IsLost r.2 × (length s.pending_acks ≤ length r.2)) rounds
    → IsUnder s.max_ack_retries s.pending_acks
    → run_rounds rounds s ≡ some s
unfolding run_rounds
run_rounds-IsLost [] s h under = refl
run_rounds-IsLost ((now, later, sendings) ∷ rounds) s ((lost, enough), h) under =
    rw (run_rounds, round-IsLost now later sendings s lost enough under)
      (run_rounds-IsLost rounds s h under)
