-- ===== src/Webhooks/Bounds.antt =====
-- The bounds on what `WebhookRetryManager` of src/asap/transport/webhook.py keeps.
use asap_protocol.Prelude.{
  ℕ, zero, suc, ◌+◌, ◌≤◌, String, Bool, Option, none, some, if◌then◌else◌, leb, length,
  length-append, List, [], ◌∷◌, Dict, Result, ok, err, arith, ◌≡◌, refl, Bool-cases, inl, inr,
  lookup, insert, string_eq, lookup-insert, length-insert, length-erase-lt, beq_refl,
}
use asap_protocol.Limits.Bucket.{TokenBucket, new_bucket}
use asap_protocol.Webhooks.Urls.{ParsedUrl, Address}
use asap_protocol.Webhooks.Delivery.{WebhookResult, DeliveryError, bad_rate}
use asap_protocol.Webhooks.Manager.{
  Manager, Visit, Ending, delivered, raised, waiting, backoff_delay, append_bounded, drop_oldest,
  wait_loop, is_final, make_room, get_bucket, wait_for_rate_limit, send_to_dead_letter,
  attempt_once, retry_loop, deliver_with_retry,
}

length-append_bounded :
    {A : Type 0} (n : ℕ) (xs : List A) (x : A) → length xs ≤ n → length (append_bounded n xs x) ≤ n
unfolding append_bounded
length-append_bounded zero xs x h = omega arith
length-append_bounded (suc n) [] x h = omega arith
length-append_bounded (suc n) (y ∷ ys) x h =
    ground (arith, length-append ys (x ∷ []), length-append (y ∷ ys) (x ∷ []))

length-append_limit :
    {A : Type 0} (n limit : ℕ) (xs : List A) (x : A)
    → n ≡ limit
    → length xs ≤ limit
    → length (append_bounded n xs x) ≤ limit
length-append_limit n limit xs x e h =
    omega (arith, e, length-append_bounded n xs x (omega (arith, e, h)))

length-drop_oldest :
    {V : Type 0} (k : String) (v : V) (d : Dict String V)
    → length (drop_oldest ((k, v) ∷ d)) + 1 ≤ length ((k, v) ∷ d)
unfolding drop_oldest lookup
length-drop_oldest k v d = length-erase-lt k v ((k, v) ∷ d) (rw (beq_refl k) refl)

length-insert_again :
    {V : Type 0} (k : String) (v w : V) (d : Dict String V)
    → lookup k d ≡ some w
    → length (insert k v d) ≡ length d
length-insert_again k v w d h = rw (length-insert k v d, h) refl

length-insert-le :
    {V : Type 0} (k : String) (v : V) (d : Dict String V) → length (insert k v d) ≤ length d + 1
length-insert-le k v d = ground (arith, length-insert k v d)

module _ {Payload : Type 0} (limit rooms : ℕ) where
  -- The dead letters are at most `limit`, and the buckets at most `rooms`, which are the manager's bounds.
  abbrev pub IsBounded : Manager Payload → Type 0
  IsBounded m =
      (m.max_dead_letters ≡ limit)
      × (m.max_buckets ≡ rooms)
      × (length m.dead_letters ≤ limit)
      × (length m.url_buckets ≤ rooms)

  make_room-IsBounded :
      (m : Manager Payload)
      → 1 ≤ rooms
      → IsBounded m
      → IsBounded (make_room m) × (length (make_room m).url_buckets + 1 ≤ rooms)
  unfolding make_room
  make_room-IsBounded m some_room h = elim (Bool-cases (leb m.max_buckets (length m.url_buckets))) [
    | inl full ↦
        rw full
          (let less = dropped m.url_buckets h.3 in ((h.0, h.1, h.2, omega (arith, less)), less))
    | inr room ↦ rw room (h, ground (arith, h.1, h.3, room))
  ]
    where
      dropped :
          (d : Dict String TokenBucket) → length d ≤ rooms → length (drop_oldest d) + 1 ≤ rooms
      dropped [] k = some_room
      dropped ((i, b) ∷ d) k = omega (arith, length-drop_oldest i b d, k)

  -- The buckets that a call of `_get_bucket` leaves are bounded, and hold the one that it returns.
  Holds : String → Manager Payload × Option TokenBucket → Type 0
  Holds url (m, o) =
      IsBounded m × ((b : TokenBucket) → o ≡ some b → lookup url m.url_buckets ≡ some b)

  get_bucket-Holds :
      (now : ℕ) (url : String) (m : Manager Payload)
      → 1 ≤ rooms
      → IsBounded m
      → Holds url (get_bucket now url m)
  unfolding get_bucket Holds
  get_bucket-Holds now url m room h =
      found (lookup url m.url_buckets) _ refl
        (made (new_bucket m.policy.one m.policy.rate none now))
    where
      made :
          (o : Option TokenBucket)
          → Holds url (elim o as (λ _. Manager Payload × Option TokenBucket) [
            | none ↦ (make_room m, none)
            | some b ↦ (
              record (make_room m) { url_buckets = insert url b (make_room m).url_buckets },
              some b,
            )
          ])
      made none = ((make_room-IsBounded m room h).0, λ b e. cc)
      made (some b) =
          let ((k0, k1, k2, k3), less) = make_room-IsBounded m room h in
          let d = (make_room m).url_buckets in
          (
            (k0, k1, k2, omega (arith, length-insert-le url b d, less)),
            λ c e. rw (lookup-insert url url b d, beq_refl url) e,
          )

      found :
          (o : Option TokenBucket) (q : Manager Payload × Option TokenBucket)
          → lookup url m.url_buckets ≡ o
          → Holds url q
          → Holds url (elim o as (λ _. Manager Payload × Option TokenBucket) [
            | none ↦ q
            | some b ↦ (m, some b)
          ])
      found none q e k = k
      found (some b) q e k = (h, λ c f. rw e f)

  wait-IsBounded :
      (url : String) (visit : Visit) (m : Manager Payload)
      → 1 ≤ rooms
      → IsBounded m
      → IsBounded (wait_for_rate_limit url visit m).0
  unfolding wait_for_rate_limit Holds
  wait-IsBounded url visit m room h =
      waited (get_bucket visit.now url m) (get_bucket-Holds visit.now url m room h)
    where
      waited :
          (q : Manager Payload × Option TokenBucket)
          → Holds url q
          → IsBounded
              (elim q.1 as (λ _. Manager Payload × Result DeliveryError Bool) [
                | none ↦ (q.0, err bad_rate)
                | some b ↦ (
                  record q.0 {
                    url_buckets = insert url (wait_loop visit.times b).0 q.0.url_buckets;
                  },
                  ok (wait_loop visit.times b).1,
                )
              ]).0
      waited (m', none) k = k.0
      waited (m', some b) ((k0, k1, k2, k3), there) = (
        k0,
        k1,
        k2,
        omega (
          arith,
          k3,
          length-insert_again url (wait_loop visit.times b).0 b m'.url_buckets (there b refl),
        ),
      )

  sent-IsBounded :
      (url : String) (payload : Payload) (r : WebhookResult) (m : Manager Payload)
      → IsBounded m
      → IsBounded (send_to_dead_letter url payload r m)
  unfolding send_to_dead_letter
  sent-IsBounded url payload r m (h0, h1, h2, h3) =
      (h0, h1, length-append_limit m.max_dead_letters limit m.dead_letters _ h0 h2, h3)

  module _ (urlparse : String → ParsedUrl) (ip_address : String → Option Address) (url : String)
      (payload : Payload) where
    next-IsBounded :
        (done : Option (Result DeliveryError WebhookResult)) (m : Manager Payload)
        (next : Manager Payload × Ending × List ℕ) (delay : ℕ)
        → IsBounded m
        → IsBounded next.0
        → IsBounded
            (elim done as (λ _. Manager Payload × Ending × List ℕ) [
              | none ↦ (m, waiting, [])
              | some (err e) ↦ (m, raised e, [])
              | some (ok r) ↦
                  if is_final r then (m, delivered r, []) else (next.0, next.1, delay ∷ next.2)
            ]).0
    next-IsBounded none m next delay h k = h
    next-IsBounded (some (err e)) m next delay h k = h
    next-IsBounded (some (ok r)) m next delay h k = elim (Bool-cases (is_final r)) [
      | inl final ↦ rw final h
      | inr again ↦ rw again k
    ]

    last-IsBounded :
        (done : Option (Result DeliveryError WebhookResult)) (m : Manager Payload)
        → IsBounded m
        → IsBounded
            (elim done as (λ _. Manager Payload × Ending × List ℕ) [
              | none ↦ (m, waiting, [])
              | some (err e) ↦ (m, raised e, [])
              | some (ok r) ↦
                  if is_final r
                  then (m, delivered r, [])
                  else (send_to_dead_letter url payload r m, delivered r, [])
            ]).0
    last-IsBounded none m h = h
    last-IsBounded (some (err e)) m h = h
    last-IsBounded (some (ok r)) m h = elim (Bool-cases (is_final r)) [
      | inl final ↦ rw final h
      | inr again ↦ rw again (sent-IsBounded url payload r m h)
    ]

    retry_loop-IsBounded :
        (a left : ℕ) (visits : List Visit) (m : Manager Payload)
        → 1 ≤ rooms
        → IsBounded m
        → IsBounded (retry_loop urlparse ip_address url payload a left visits m).0
    unfolding retry_loop attempt_once
    retry_loop-IsBounded a left [] m room h = h
    retry_loop-IsBounded a zero (v ∷ vs) m room h =
        let once = attempt_once urlparse ip_address url v m in
        last-IsBounded once.1 once.0 (wait-IsBounded url v m room h)
    retry_loop-IsBounded a (suc left) (v ∷ vs) m room h =
        let once = attempt_once urlparse ip_address url v m in
        let kept = wait-IsBounded url v m room h in
        next-IsBounded once.1 once.0
          (retry_loop urlparse ip_address url payload (a + 1) left vs once.0)
          (backoff_delay m.policy a) kept (retry_loop-IsBounded (a + 1) left vs once.0 room kept)

-- A run leaves at most as many dead letters and buckets as the manager has room for, where it did so
-- before and has room for a bucket.
pub deliver_with_retry-IsBounded :
    {Payload : Type 0} (urlparse : String → ParsedUrl) (ip_address : String → Option Address)
    (url : String) (payload : Payload) (visits : List Visit) (m : Manager Payload)
    → 1 ≤ m.max_buckets
    → IsBounded m.max_dead_letters m.max_buckets m
    → IsBounded m.max_dead_letters m.max_buckets
        (deliver_with_retry urlparse ip_address url payload visits m).0
unfolding deliver_with_retry
deliver_with_retry-IsBounded urlparse ip_address url payload visits m room h =
    retry_loop-IsBounded m.max_dead_letters m.max_buckets urlparse ip_address url payload 0
      m.policy.max_retries visits m room h
