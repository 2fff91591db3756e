-- ===== src/Websocket/Budget.antt =====
-- The retry budget of src/asap/transport/ws/_ack.py, whatever comes in or is sent while a round awaits.
use asap_protocol.Prelude.{
  ℕ, suc, ◌+◌, ◌≤◌, ◌<◌, String, Bool, true, false, Option, none, some, if◌then◌else◌, nat_beq,
  nat_beq_iff, List, [], ◌∷◌, Dict, lookup, insert, erase, lookup-insert, lookup-erase, IsUnique,
  insert-IsUnique, erase-IsUnique, arith, ◌≡◌, ◌≢◌, refl, sym, ◌∙◌, ap, subst, Bool-cases, inl, inr,
  ◌⊎◌, string_eq, ◌==◌, some_inj,
}
use asap_protocol.Websocket.Acks.{
  PendingAck, AckState, Envelope, Event, acknowledged, sent, requires_ack, register_pending_ack,
  handle_event, handle_events, count_retry,
}

-- No envelope has been retried more often than is allowed, and the objects are older than the next one.
pub record IsBudgeted (s : AckState) : Type 0 where
  pub unique : IsUnique s.pending_acks
  pub budget :
      (id : String) (p : PendingAck)
      → lookup id s.pending_acks ≡ some p
      → (p.retries ≤ s.max_ack_retries) × (p.serial < s.next_serial)

-- An object that is still to be retransmitted has a retry left for as long as it is pending.
abbrev pub IsReady : AckState → String × ℕ → Type 0
IsReady s (id, serial) =
    (serial < s.next_serial)
    × ((p : PendingAck)
        → lookup id s.pending_acks ≡ some p
        → p.serial ≡ serial
        → p.retries < s.max_ack_retries)

of_insert :
    (i : String) (v : PendingAck) (j : String) (a : PendingAck) (d : Dict String PendingAck)
    → lookup j (insert i v d) ≡ some a
    → ((i ≡ j) × (a ≡ v)) ⊎ (lookup j d ≡ some a)
of_insert i v j a d h = go (i == j) refl (sym (lookup-insert i j v d) ∙ h)
  where
    go :
        (b : Bool)
        → (i == j) ≡ b
        → (if b then some v else lookup j d) ≡ some a
        → ((i ≡ j) × (a ≡ v)) ⊎ (lookup j d ≡ some a)
    go true e k = inl ((string_eq.beq_iff i j).0 e, sym (some_inj k))
    go false e k = inr k

pub of_erase :
    (i j : String) (a : PendingAck) (d : Dict String PendingAck)
    → lookup j (erase i d) ≡ some a
    → lookup j d ≡ some a
of_erase i j a d h = go (i == j) (sym (lookup-erase i j d) ∙ h)
  where
    go : (b : Bool) → (if b then none else lookup j d) ≡ some a → lookup j d ≡ some a
    go true k = cc
    go false k = k

module _ (s : AckState) (h : IsBudgeted s) where
  erase-IsBudgeted :
      (id : String) → IsBudgeted (record s { pending_acks = erase id s.pending_acks })
  erase-IsBudgeted id = record {
    unique = erase-IsUnique id s.pending_acks h.unique;
    budget = λ j p at. h.budget j p (of_erase id j p s.pending_acks at);
  }

  erase-IsReady :
      (id : String) (due : String × ℕ)
      → IsReady s due
      → IsReady (record s { pending_acks = erase id s.pending_acks }) due
  erase-IsReady id (j, serial) (old, left) =
      (old, λ p at. left p (of_erase id j p s.pending_acks at))

  -- an envelope that is sent has a new object
  register-IsBudgeted : (now : ℕ) (e : Envelope) → IsBudgeted (register_pending_ack now e s)
  unfolding register_pending_ack
  register-IsBudgeted now e = elim (Bool-cases (e.id == "")) [
    | inl nameless ↦ rw nameless h
    | inr named ↦ rw named (elim (Bool-cases (requires_ack e)) [
      | inr silent ↦ rw silent h
      | inl wanted ↦ rw wanted (record {
        unique = insert-IsUnique e.id _ s.pending_acks h.unique;
        budget = λ j p at. fresh j p (of_insert e.id _ j p s.pending_acks at);
      })
    ])
  ]
    where
      new : PendingAck
      new = record {
        serial = s.next_serial;
        envelope_id = e.id;
        sent_at = now;
        retries = 0;
        original_envelope = e;
      }

      fresh :
          (j : String) (p : PendingAck)
          → ((e.id ≡ j) × (p ≡ new)) ⊎ (lookup j s.pending_acks ≡ some p)
          → (p.retries ≤ s.max_ack_retries) × (p.serial < suc s.next_serial)
      fresh j p (inl (same, is_new)) =
          (omega (arith, ap (λ x. x.retries) is_new), omega (arith, ap (λ x. x.serial) is_new))
      fresh j p (inr at) = let (a, b) = h.budget j p at in (a, omega (arith, b))

  register-IsReady :
      (now : ℕ) (e : Envelope) (due : String × ℕ)
      → IsReady s due
      → IsReady (register_pending_ack now e s) due
  unfolding register_pending_ack
  register-IsReady now e (j, serial) (old, left) = elim (Bool-cases (e.id == "")) [
    | inl nameless ↦ rw nameless (old, left)
    | inr named ↦ rw named (elim (Bool-cases (requires_ack e)) [
      | inr silent ↦ rw silent (old, left)
      | inl wanted ↦
          rw wanted (omega (arith, old), λ p at. kept p (of_insert e.id _ j p s.pending_acks at))
    ])
  ]
    where
      new : PendingAck
      new = record {
        serial = s.next_serial;
        envelope_id = e.id;
        sent_at = now;
        retries = 0;
        original_envelope = e;
      }

      kept :
          (p : PendingAck)
          → ((e.id ≡ j) × (p ≡ new)) ⊎ (lookup j s.pending_acks ≡ some p)
          → p.serial ≡ serial
          → p.retries < s.max_ack_retries
      kept p (inl (same, is_new)) is_old =
          absurd (omega (arith, old, is_old, ap (λ x. x.serial) is_new))
      kept p (inr at) is_old = left p at is_old

pub handle_events-IsBudgeted :
    (es : List Event) (s : AckState) → IsBudgeted s → IsBudgeted (handle_events es s)
unfolding handle_events handle_event
handle_events-IsBudgeted [] s h = h
handle_events-IsBudgeted (acknowledged id ∷ es) s h =
    handle_events-IsBudgeted es _ (erase-IsBudgeted s h id)
handle_events-IsBudgeted (sent now e ∷ es) s h =
    handle_events-IsBudgeted es _ (register-IsBudgeted s h now e)

pub handle_events-IsReady :
    (es : List Event) (s : AckState)
    → IsBudgeted s
    → (due : String × ℕ) → IsReady s due
    → IsReady (handle_events es s) due
unfolding handle_events handle_event
handle_events-IsReady [] s h due k = k
handle_events-IsReady (acknowledged id ∷ es) s h due k =
    handle_events-IsReady es _ (erase-IsBudgeted s h id) due (erase-IsReady s h id due k)
handle_events-IsReady (sent now e ∷ es) s h due k =
    handle_events-IsReady es _ (register-IsBudgeted s h now e) due
      (register-IsReady s h now e due k)

module _ (s : AckState) (h : IsBudgeted s) (now : ℕ) (id : String) (serial : ℕ)
    (ready : IsReady s (id, serial)) where
  -- the dict is as it was, or the object has one more retry
  count_retry-cases :
      (count_retry now id serial s.pending_acks ≡ s.pending_acks)
      ⊎ ((p : PendingAck) × (lookup id s.pending_acks ≡ some p)
          × (p.serial ≡ serial)
          × (count_retry now id serial s.pending_acks
              ≡ insert id (record p { sent_at = now; retries = p.retries + 1 }) s.pending_acks))
  unfolding count_retry
  count_retry-cases = go (lookup id s.pending_acks) refl
    where
      d : Dict String PendingAck
      d = s.pending_acks

      go :
          (o : Option PendingAck)
          → lookup id d ≡ o
          → let r : Dict String PendingAck = (elim o [
            | none ↦ d
            | some p ↦
                if nat_beq p.serial serial
                then insert id (record p { sent_at = now; retries = p.retries + 1 }) d
                else d
          ]) in
            (r ≡ d)
            ⊎ ((p : PendingAck) × (lookup id d ≡ some p)
                × (p.serial ≡ serial)
                × (r ≡ insert id (record p { sent_at = now; retries = p.retries + 1 }) d))
      go none e = inl refl
      go (some p) e = elim (Bool-cases (nat_beq p.serial serial)) [
        | inl same ↦ rw same (inr (p, e, (nat_beq_iff p.serial serial).0 same, refl))
        | inr other ↦ rw other (inl refl)
      ]

  abbrev pub with_acks : Dict String PendingAck → AckState
  with_acks d = record s { pending_acks = d }

  pub count_retry-IsBudgeted : IsBudgeted (with_acks (count_retry now id serial s.pending_acks))
  count_retry-IsBudgeted = elim count_retry-cases [
    | inl same ↦ subst (λ d. IsBudgeted (with_acks d)) (sym same) h
    | inr (p, at, is_it, wrote) ↦
        subst (λ d. IsBudgeted (with_acks d)) (sym wrote)
          (record {
            unique = insert-IsUnique id _ s.pending_acks h.unique;
            budget = λ j q found. bounded p at is_it j q (of_insert id _ j q s.pending_acks found);
          })
  ]
    where
      bounded :
          (p : PendingAck)
          → lookup id s.pending_acks ≡ some p
          → p.serial ≡ serial
          → (j : String) (q : PendingAck)
          → ((id ≡ j) × (q ≡ record p { sent_at = now; retries = p.retries + 1 }))
            ⊎ (lookup j s.pending_acks ≡ some q)
          → (q.retries ≤ s.max_ack_retries) × (q.serial < s.next_serial)
      bounded p at is_it j q (inl (same, is_p)) = (
        omega (arith, ap (λ x. x.retries) is_p, ready.1 p at is_it),
        omega (arith, ap (λ x. x.serial) is_p, (h.budget id p at).1),
      )
      bounded p at is_it j q (inr found) = h.budget j q found

  pub count_retry-IsReady :
      (due : String × ℕ)
      → id ≢ due.0
      → IsReady s due
      → IsReady (with_acks (count_retry now id serial s.pending_acks)) due
  count_retry-IsReady (j, old) apart (older, left) = elim count_retry-cases [
    | inl same ↦ subst (λ d. IsReady (with_acks d) (j, old)) (sym same) (older, left)
    | inr (p, at, is_it, wrote) ↦
        subst (λ d. IsReady (with_acks d) (j, old)) (sym wrote)
          (older, λ q found. kept q (of_insert id _ j q s.pending_acks found))
  ]
    where
      kept :
          {v : PendingAck} (q : PendingAck)
          → ((id ≡ j) × (q ≡ v)) ⊎ (lookup j s.pending_acks ≡ some q)
          → q.serial ≡ old
          → q.retries < s.max_ack_retries
      kept q (inl (same, _)) = absurd (apart same)
      kept q (inr found) = left q found
