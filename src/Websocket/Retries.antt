-- ===== src/Websocket/Retries.antt =====
-- The retry budget over a whole round of src/asap/transport/ws/_ack.py.
use asap_protocol.Prelude.{
  ℕ, ◌<◌, String, Bool, true, false, Option, none, some, if◌then◌else◌, ltb, List, [], ◌∷◌, Dict,
  lookup, IsUnique, erase-IsUnique, All, arith, ◌≡◌, ◌≢◌, refl, sym, ◌∙◌, ap, subst, Bool-cases,
  inl, inr, string_eq, ◌==◌, some_inj, beq_refl,
}
use asap_protocol.Websocket.Acks.{
  PendingAck, AckState, Sending, is_waiting, handle_events, count_retry, run_retransmissions,
  due_list, expired_list, expire_pending_ack, expire_all, round,
}
use asap_protocol.Websocket.Budget.{
  IsBudgeted, IsReady, of_erase, handle_events-IsBudgeted, handle_events-IsReady,
  count_retry-IsBudgeted, count_retry-IsReady,
}

All-map :
    {A : Type 0} {P Q : A → Type 0} (xs : List A) → ((x : A) → P x → Q x) → All P xs → All Q xs
All-map [] f h = tt
All-map (x ∷ xs) f (p, h) = (f x p, All-map xs f h)

All-zip :
    {A : Type 0} {P Q R : A → Type 0} (xs : List A)
    → ((x : A) → P x → Q x → R x)
    → All P xs
    → All Q xs
    → All R xs
All-zip [] f h k = tt
All-zip (x ∷ xs) f (p, h) (q, k) = (f x p q, All-zip xs f h k)

-- Each id occurs once.
abbrev IsOnce : List (String × ℕ) → Type 0
IsOnce [] = Unit {0}
IsOnce (due ∷ rest) = All (λ d. due.0 ≢ d.0) rest × IsOnce rest

-- one retransmission
unfoldable retransmit : Sending → String → ℕ → AckState → AckState
unfolding handle_events count_retry
retransmit x id serial s =
    let s' = handle_events x.events s in
    if x.returns
    then record s' { pending_acks = count_retry x.now id serial s'.pending_acks }
    else s'

module _ (x : Sending) (id : String) (serial : ℕ) (s : AckState) (h : IsBudgeted s)
    (ready : IsReady s (id, serial)) where
  after : AckState
  after = handle_events x.events s

  retransmit-IsBudgeted : IsBudgeted (retransmit x id serial s)
  unfolding retransmit
  retransmit-IsBudgeted =
      let h' = handle_events-IsBudgeted x.events s h in
      let ready' = handle_events-IsReady x.events s h (id, serial) ready in
      elim (Bool-cases x.returns) [
        | inl returns ↦
            rw returns (count_retry-IsBudgeted (handle_events x.events s) h' x.now id serial ready')
        | inr raises ↦ rw raises h'
      ]

  retransmit-IsReady :
      (due : String × ℕ) → IsReady s due → id ≢ due.0 → IsReady (retransmit x id serial s) due
  unfolding retransmit
  retransmit-IsReady due k apart =
      let h' = handle_events-IsBudgeted x.events s h in
      let ready' = handle_events-IsReady x.events s h (id, serial) ready in
      let k' = handle_events-IsReady x.events s h due k in
      elim (Bool-cases x.returns) [
        | inl returns ↦
            rw returns (
              count_retry-IsReady (handle_events x.events s) h' x.now id serial ready' due apart k')
        | inr raises ↦ rw raises k'
      ]

run_retransmissions-IsBudgeted :
    (due : List (String × ℕ)) (sendings : List Sending) (s s' : AckState)
    → IsBudgeted s
    → All (IsReady s) due
    → IsOnce due
    → run_retransmissions due sendings s ≡ some s'
    → IsBudgeted s'
unfolding run_retransmissions retransmit
run_retransmissions-IsBudgeted [] sendings s s' h k o e = subst IsBudgeted (some_inj e) h
run_retransmissions-IsBudgeted (d ∷ due) [] s s' h k o e = cc
run_retransmissions-IsBudgeted ((id, serial) ∷ due) (x ∷ sendings) s s' h (ready, k) (apart, o) e =
    run_retransmissions-IsBudgeted due sendings (retransmit x id serial s) s'
      (retransmit-IsBudgeted x id serial s h ready)
      (All-zip due (λ d r a. retransmit-IsReady x id serial s h ready d r a) k apart) o e

module _ (now timeout limit : ℕ) where
  due_list-there :
      (d : Dict String PendingAck) → All (λ q. lookup q.0 d ≢ none) (due_list now timeout limit d)
  unfolding due_list lookup
  due_list-there [] = tt
  due_list-there ((id, p) ∷ d) = go (due_list-there d)
    where
      first : (b : Bool) → b ≡ true → (if b then some p else lookup id d) ≢ none
      first true e = λ k. cc
      first false e = cc

      there :
          (q : String × ℕ)
          → lookup q.0 d ≢ none
          → (if id == q.0 then some p else lookup q.0 d) ≢ none
      there q k = here (id == q.0)
        where
          here : (b : Bool) → (if b then some p else lookup q.0 d) ≢ none
          here true = λ e. cc
          here false = k

      go :
          All (λ q. lookup q.0 d ≢ none) (due_list now timeout limit d)
          → All
              (λ q. (if id == q.0 then some p else lookup q.0 d) ≢ none)
              (if is_waiting now timeout p
                then due_list now timeout limit d
                else if ltb p.retries limit
                then (id, p.serial) ∷ due_list now timeout limit d
                else due_list now timeout limit d)
      go h = elim (Bool-cases (is_waiting now timeout p)) [
        | inl waiting ↦ rw waiting (All-map (due_list now timeout limit d) there h)
        | inr late ↦ rw late (elim (Bool-cases (ltb p.retries limit)) [
          | inl left ↦
              rw left
                (first (id == id) (beq_refl id), All-map (due_list now timeout limit d) there h)
          | inr spent ↦ rw spent (All-map (due_list now timeout limit d) there h)
        ])
      ]

  due_list-IsOnce :
      (d : Dict String PendingAck) → IsUnique d → IsOnce (due_list now timeout limit d)
  unfolding due_list
  due_list-IsOnce [] u = tt
  due_list-IsOnce ((id, p) ∷ d) (new, u) = go (due_list-IsOnce d u)
    where
      go :
          IsOnce (due_list now timeout limit d)
          → IsOnce (
              if is_waiting now timeout p
              then due_list now timeout limit d
              else if ltb p.retries limit
              then (id, p.serial) ∷ due_list now timeout limit d
              else due_list now timeout limit d)
      go h = elim (Bool-cases (is_waiting now timeout p)) [
        | inl waiting ↦ rw waiting h
        | inr late ↦ rw late (elim (Bool-cases (ltb p.retries limit)) [
          | inl left ↦ rw left (
            All-map (due_list now timeout limit d)
                (λ q there e. there (ap (λ i. lookup i d) (sym e) ∙ new)) (due_list-there d),
            h,
          )
          | inr spent ↦ rw spent h
        ])
      ]

  -- what is due is in the dict, with a retry left
  due_list-left :
      (d : Dict String PendingAck)
      → IsUnique d
      → All
          (λ q. (p : PendingAck) × (lookup q.0 d ≡ some p) × (p.serial ≡ q.1) × (p.retries < limit))
          (due_list now timeout limit d)
  unfolding due_list lookup
  due_list-left [] u = tt
  due_list-left ((id, p) ∷ d) (new, u) = go (due_list-left d u)
    where
      first : (b : Bool) → b ≡ true → (if b then some p else lookup id d) ≡ some p
      first true e = refl
      first false e = cc

      later :
          (q : String × ℕ)
          → ((r : PendingAck) × (lookup q.0 d ≡ some r) × (r.serial ≡ q.1) × (r.retries < limit))
          → ((r : PendingAck) × ((if id == q.0 then some p else lookup q.0 d) ≡ some r)
              × (r.serial ≡ q.1)
              × (r.retries < limit))
      later q (r, at, same, left) = (r, skip (id == q.0) refl, same, left)
        where
          skip : (b : Bool) → (id == q.0) ≡ b → (if b then some p else lookup q.0 d) ≡ some r
          skip true e =
              let wrong = sym new ∙ ap (λ i. lookup i d) ((string_eq.beq_iff id q.0).0 e) ∙ at in cc
          skip false e = at

      go :
          All
            (λ q.
              (r : PendingAck) × (lookup q.0 d ≡ some r) × (r.serial ≡ q.1) × (r.retries < limit))
            (due_list now timeout limit d)
          → All
              (λ q.
                (r : PendingAck) × ((if id == q.0 then some p else lookup q.0 d) ≡ some r)
                × (r.serial ≡ q.1)
                × (r.retries < limit))
              (if is_waiting now timeout p
                then due_list now timeout limit d
                else if ltb p.retries limit
                then (id, p.serial) ∷ due_list now timeout limit d
                else due_list now timeout limit d)
      go h = elim (Bool-cases (is_waiting now timeout p)) [
        | inl waiting ↦ rw waiting (All-map (due_list now timeout limit d) later h)
        | inr late ↦ rw late (elim (Bool-cases (ltb p.retries limit)) [
          | inl left ↦ rw left (
            (p, first (id == id) (beq_refl id), refl, ground (arith, left)),
            All-map (due_list now timeout limit d) later h,
          )
          | inr spent ↦ rw spent (All-map (due_list now timeout limit d) later h)
        ])
      ]

expire_all-IsBudgeted :
    (later : ℕ) (ids : List String) (s : AckState)
    → IsBudgeted s
    → IsBudgeted (expire_all later ids s)
unfolding expire_all expire_pending_ack
expire_all-IsBudgeted later [] s h = h
expire_all-IsBudgeted later (id ∷ ids) s h =
    expire_all-IsBudgeted later ids (expire_pending_ack later id s) (record {
      unique = erase-IsUnique id s.pending_acks h.unique;
      budget = λ j p at. h.budget j p (of_erase id j p s.pending_acks at);
    })

-- A round that comes to its end leaves no envelope with more retries than are allowed, whatever is
-- acknowledged or sent while it awaits, where none had more before it.
pub round-IsBudgeted :
    (now later : ℕ) (sendings : List Sending) (s s' : AckState)
    → IsBudgeted s
    → round now later sendings s ≡ some s'
    → IsBudgeted s'
unfolding round
round-IsBudgeted now later sendings s s' h e = ended (run_retransmissions due sendings s) refl e
  where
    due : List (String × ℕ)
    due = due_list now s.ack_timeout s.max_ack_retries s.pending_acks

    expired : List String
    expired = expired_list now s.ack_timeout s.max_ack_retries s.pending_acks

    ready :
        (q : String × ℕ)
        → ((p : PendingAck) × (lookup q.0 s.pending_acks ≡ some p)
            × (p.serial ≡ q.1)
            × (p.retries < s.max_ack_retries))
        → IsReady s q
    ready (id, serial) (p, at, same, left) = (
      subst (λ n. n < s.next_serial) same (h.budget id p at).1,
      λ p' at' _. subst (λ x. x.retries < s.max_ack_retries) (some_inj (sym at ∙ at')) left,
    )

    ended :
        (o : Option AckState)
        → run_retransmissions due sendings s ≡ o
        → (elim o as (λ _. Option AckState) [
          | none ↦ none
          | some x ↦ some (expire_all later expired x)
        ])
          ≡ some s'
        → IsBudgeted s'
    ended none r k = cc
    ended (some x) r k = subst IsBudgeted (some_inj k) (
        expire_all-IsBudgeted later expired x (
          run_retransmissions-IsBudgeted due sendings s x h
            (All-map due ready
              (due_list-left now s.ack_timeout s.max_ack_retries s.pending_acks h.unique))
            (due_list-IsOnce now s.ack_timeout s.max_ack_retries s.pending_acks h.unique) r))
