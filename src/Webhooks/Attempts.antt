-- ===== src/Webhooks/Attempts.antt =====
-- How `deliver_with_retry` of src/asap/transport/webhook.py ends, and what reaches the dead letters.
use asap_protocol.Prelude.{
  ℕ, zero, suc, ◌+◌, ◌-◌, ◌*◌, ◌≤◌, String, Bool, true, false, Option, none, some, if◌then◌else◌,
  leb, length, List, [], ◌∷◌, Result, ok, err, arith, ◌≡◌, refl, sym, Bool-cases, inl, inr, ◌⊎◌,
  subst, lookup, insert, string_eq,
}
use asap_protocol.Limits.Bucket.{TokenBucket, consume, missing, new_bucket, refill}
use asap_protocol.Limits.Rates.{missing-consume}
use asap_protocol.Webhooks.Urls.{ParsedUrl, Address}
use asap_protocol.Webhooks.Delivery.{WebhookResult, DeliveryError, bad_rate}
use asap_protocol.Webhooks.Manager.{
  Manager, DeadLetterEntry, Visit, Ending, delivered, raised, waiting, RetryPolicy, backoff_delay,
  append_bounded, wait_loop, is_final, make_room, get_bucket, wait_for_rate_limit,
  send_to_dead_letter, attempt_once, retry_loop, deliver_with_retry,
}

-- `n` delays from the attempt `a` on
abbrev pub backoffs : RetryPolicy → ℕ → ℕ → List ℕ
backoffs policy a zero = []
backoffs policy a (suc n) = backoff_delay policy a ∷ backoffs policy (a + 1) n

consume-kept :
    (now n : ℕ) (b : TokenBucket)
    → let b' = (consume now n b).0 in
      (b'.one ≡ b.one) × (b'.capacity ≡ b.capacity) × (b'.rate ≡ b.rate)
unfolding consume refill
consume-kept now zero b = (refl, refl, refl)
consume-kept now (suc k) b = elim (Bool-cases (leb (suc k * b.one) (refill now b).tokens)) [
  | inl enough ↦ rw enough (refl, refl, refl)
  | inr short ↦ rw short (refl, refl, refl)
]

taken-true :
    (t : Bool) (b : TokenBucket) (rest : TokenBucket × Bool)
    → (t ≡ true) ⊎ (rest.1 ≡ true)
    → (if t then (b, true) else rest).1 ≡ true
taken-true true b rest h = refl
taken-true false b rest (inl h) = cc
taken-true false b rest (inr h) = h

-- A token is let through at the latest in the second pass of the loop, where the second pass reads a clock
-- that has gone on by the wait that the first was told, and the bucket can hold a token.
pub wait_loop-ends :
    (now after later later' : ℕ) (b : TokenBucket)
    → b.one ≤ b.capacity
    → after ≤ later
    → (missing after (consume now 1 b).0).1 ≤ (later - after) * b.rate
    → (wait_loop ((now, after) ∷ (later, later') ∷ []) b).1 ≡ true
unfolding wait_loop
wait_loop-ends now after later later' b room le wait =
    let (same_one, same_capacity, same_rate) = consume-kept now 1 b in
    let b' = (consume now 1 b).0 in
    let enough =
      missing-consume after later b' le (omega (arith, same_one, same_capacity, room))
        (subst (λ r. (missing after b').1 ≤ (later - after) * r) (sym same_rate) wait) in
    let first = consume now 1 b in
    let second = consume later 1 (missing after b').0 in
    let rest = wait_loop [] (missing later' second.0).0 in
    taken-true first.1 first.0 (wait_loop ((later, later') ∷ []) (missing after b').0)
      (inr (taken-true second.1 second.0 rest (inl enough)))

-- What a run of `deliver_with_retry` leaves, by its ending: nothing reaches the dead letters but the result
-- of a last attempt that is not final, once, after all the delays.
module _ {Payload : Type 0} (url : String) (payload : Payload) (policy : RetryPolicy) (limit : ℕ)
    (before : List (DeadLetterEntry Payload)) where
  abbrev pub entry : WebhookResult → DeadLetterEntry Payload
  entry r = record {
    url = url;
    payload = payload;
    last_result = r;
    attempts = 1 + policy.max_retries;
  }

  abbrev pub IsSettled : ℕ → ℕ → Manager Payload × Ending × List ℕ → Type 0
  IsSettled a left (m, delivered r, delays) =
      ((is_final r ≡ true) × (m.dead_letters ≡ before))
      ⊎ ((is_final r ≡ false)
          × (delays ≡ backoffs policy a left)
          × (m.dead_letters ≡ append_bounded limit before (entry r)))
  IsSettled a left (m, raised e, delays) = m.dead_letters ≡ before
  IsSettled a left (m, waiting, delays) = m.dead_letters ≡ before

  -- The manager has the policy, the limit and the dead letters of the section.
  abbrev Has : Manager Payload → Type 0
  Has m = (m.policy ≡ policy) × (m.max_dead_letters ≡ limit) × (m.dead_letters ≡ before)

  make_room-Has : (m : Manager Payload) → Has m → Has (make_room m)
  unfolding make_room
  make_room-Has m h = elim (Bool-cases (leb m.max_buckets (length m.url_buckets))) [
    | inl full ↦ rw full h
    | inr room ↦ rw room h
  ]

  get_bucket-Has : (now : ℕ) (m : Manager Payload) → Has m → Has (get_bucket now url m).0
  unfolding get_bucket
  get_bucket-Has now m h =
      found _ (lookup url m.url_buckets) (made (new_bucket m.policy.one m.policy.rate none now))
    where
      made :
          (o : Option TokenBucket)
          → Has
              (elim o as (λ _. Manager Payload × Option TokenBucket) [
                | none ↦ (make_room m, none)
                | some b ↦ (
                  record (make_room m) { url_buckets = insert url b (make_room m).url_buckets },
                  some b,
                )
              ]).0
      made none = make_room-Has m h
      made (some b) = make_room-Has m h

      found :
          (q : Manager Payload × Option TokenBucket) (o : Option TokenBucket)
          → Has q.0
          → Has
              (elim o as (λ _. Manager Payload × Option TokenBucket) [
                | none ↦ q
                | some b ↦ (m, some b)
              ]).0
      found q none k = k
      found q (some b) k = h

  wait-Has : (visit : Visit) (m : Manager Payload) → Has m → Has (wait_for_rate_limit url visit m).0
  unfolding wait_for_rate_limit
  wait-Has visit m h = waited (get_bucket visit.now url m) (get_bucket-Has visit.now m h)
    where
      waited :
          (q : Manager Payload × Option TokenBucket)
          → Has q.0
          → Has
              (elim q.1 as (λ _. Manager Payload × Result DeliveryError Bool) [
                | none ↦ (q.0, err bad_rate)
                | some b ↦ (
                  record q.0 {
                    url_buckets = insert url (wait_loop visit.times b).0 q.0.url_buckets;
                  },
                  ok (wait_loop visit.times b).1,
                )
              ]).0
      waited (m', none) k = k
      waited (m', some b) k = k

  module _ (urlparse : String → ParsedUrl) (ip_address : String → Option Address) where
    attempt_once-Has :
        (visit : Visit) (m : Manager Payload)
        → Has m
        → Has (attempt_once urlparse ip_address url visit m).0
    unfolding attempt_once
    attempt_once-Has visit m h = wait-Has visit m h

    last-IsSettled :
        (a : ℕ) (m : Manager Payload) (done : Option (Result DeliveryError WebhookResult))
        → Has m
        → IsSettled a 0 (elim done as (λ _. Manager Payload × Ending × List ℕ) [
          | none ↦ (m, waiting, [])
          | some (err e) ↦ (m, raised e, [])
          | some (ok r) ↦
              if is_final r
              then (m, delivered r, [])
              else (send_to_dead_letter url payload r m, delivered r, [])
        ])
    unfolding send_to_dead_letter
    last-IsSettled a m none h = h.2
    last-IsSettled a m (some (err e)) h = h.2
    last-IsSettled a m (some (ok r)) (same, limited, kept) = elim (Bool-cases (is_final r)) [
      | inl final ↦ rw final (inl (final, kept))
      | inr again ↦ rw again (inr (again, refl, sent))
    ]
      where
        sent :
            (send_to_dead_letter url payload r m).dead_letters
            ≡ append_bounded limit before (entry r)
        sent = rw (same, limited, kept) refl

    more-IsSettled :
        (a left : ℕ) (m : Manager Payload) (next : Manager Payload × Ending × List ℕ)
        (p : RetryPolicy) (done : Option (Result DeliveryError WebhookResult))
        → Has m
        → p ≡ policy
        → IsSettled (a + 1) left next
        → IsSettled a (suc left) (elim done as (λ _. Manager Payload × Ending × List ℕ) [
          | none ↦ (m, waiting, [])
          | some (err e) ↦ (m, raised e, [])
          | some (ok r) ↦
              if is_final r
              then (m, delivered r, [])
              else (next.0, next.1, backoff_delay p a ∷ next.2)
        ])
    more-IsSettled a left m next p none h e k = h.2
    more-IsSettled a left m next p (some (err x)) h e k = h.2
    more-IsSettled a left m next p (some (ok r)) h e k = elim (Bool-cases (is_final r)) [
      | inl final ↦ rw final (inl (final, h.2))
      | inr again ↦ rw again (longer next k)
    ]
      where
        longer :
            (q : Manager Payload × Ending × List ℕ)
            → IsSettled (a + 1) left q
            → IsSettled a (suc left) (q.0, q.1, backoff_delay p a ∷ q.2)
        longer (m, delivered r, ds) (inl x) = inl x
        longer (m, delivered r, ds) (inr (x, y, z)) = inr (x, rw (e, y) refl, z)
        longer (m, raised x, ds) y = y
        longer (m, waiting, ds) y = y

    retry_loop-IsSettled :
        (a left : ℕ) (visits : List Visit) (m : Manager Payload)
        → Has m
        → IsSettled a left (retry_loop urlparse ip_address url payload a left visits m)
    unfolding retry_loop
    retry_loop-IsSettled a left [] m h = h.2
    retry_loop-IsSettled a zero (v ∷ vs) m h =
        let once = attempt_once urlparse ip_address url v m in
        last-IsSettled a once.0 once.1 (attempt_once-Has v m h)
    retry_loop-IsSettled a (suc left) (v ∷ vs) m h =
        let once = attempt_once urlparse ip_address url v m in
        let kept = attempt_once-Has v m h in
        more-IsSettled a left once.0
          (retry_loop urlparse ip_address url payload (a + 1) left vs once.0) m.policy once.1 kept
          h.0 (retry_loop-IsSettled (a + 1) left vs once.0 kept)

-- However a run ends, nothing reaches the dead letters but the result of a last attempt that
-- neither succeeds nor is a client error. That result is added once, after all the retries with
-- their delays, with the number of attempts. A final result is returned with the dead letters as
-- before, and so they are where the run raises or still waits.
pub deliver_with_retry-IsSettled :
    {Payload : Type 0} (urlparse : String → ParsedUrl) (ip_address : String → Option Address)
    (url : String) (payload : Payload) (visits : List Visit) (m : Manager Payload)
    → IsSettled url payload m.policy m.max_dead_letters m.dead_letters 0 m.policy.max_retries
        (deliver_with_retry urlparse ip_address url payload visits m)
unfolding deliver_with_retry
deliver_with_retry-IsSettled urlparse ip_address url payload visits m =
    retry_loop-IsSettled url payload m.policy m.max_dead_letters m.dead_letters urlparse ip_address
      0 m.policy.max_retries visits m (refl, refl, refl)
