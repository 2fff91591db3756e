-- ===== src/Replay/Envelopes.antt =====
-- `validate_envelope_timestamp` and `validate_envelope_nonce` of src/asap/transport/validators.py,
-- in the order of `_request_handler.py`. Times are microseconds, the resolution of `datetime`.
use asap_protocol.Prelude.{
  ℕ, ◌+◌, ◌*◌, ◌≤◌, String, false, Option, none, some, ltb, if◌then◌else◌, arith, ◌≡◌, ◌≢◌, ◌↔◌,
  ◌⊎◌, inl, inr, All, IsUnique, second, Result, ok, err, List, [], ◌∷◌, string_eq, ◌==◌,
}
use asap_protocol.Replay.Nonces.{
  NonceStore, Reading, check_and_mark, IsHeld, check_and_mark-IsUnique, check_and_mark-IsHeld,
  check_and_mark_held, check_and_mark_fresh,
}

abbrev pub max_envelope_age : ℕ
max_envelope_age = 300 * second

abbrev pub max_future_tolerance : ℕ
max_future_tolerance = 30 * second

abbrev pub nonce_ttl : ℕ
nonce_ttl = max_envelope_age * 2

-- `extensions["nonce"]`, where there is one
pub data Nonce : Type 0 where
  absent not_a_string : Nonce
  text : String → Nonce

pub record Envelope : Type 0 where
  pub id : String
  pub timestamp : Option ℕ
  pub nonce : Nonce

pub data EnvelopeError : Type 0 where
  timestamp_missing timestamp_too_old timestamp_in_future nonce_malformed nonce_duplicate :
      EnvelopeError

-- `age_seconds > MAX_ENVELOPE_AGE_SECONDS` and `future_offset_seconds > MAX_FUTURE_TOLERANCE_SECONDS`,
-- with the subtracted time moved to the other side
unfoldable pub validate_envelope_timestamp : ℕ → Envelope → Result EnvelopeError (Unit {0})
validate_envelope_timestamp now e = elim e.timestamp [
  | none ↦ err timestamp_missing
  | some t ↦
      if ltb (t + max_envelope_age) now
      then err timestamp_too_old
      else if ltb (now + max_future_tolerance) t
      then err timestamp_in_future
      else ok tt
]

-- The store that is left, beside the answer: a refused duplicate may have run the cleanup.
unfoldable pub validate_envelope_nonce :
    Reading → Envelope → Option NonceStore → Option NonceStore × Result EnvelopeError (Unit {0})
validate_envelope_nonce r e none = (none, ok tt)
validate_envelope_nonce r e (some store) = elim e.nonce [
  | absent ↦ (some store, ok tt)
  | not_a_string ↦ (some store, err nonce_malformed)
  | text n ↦
      if n == ""
      then (some store, err nonce_malformed)
      else let (store', used) = check_and_mark r n nonce_ttl store in
        (some store', if used then err nonce_duplicate else ok tt)
]

-- A request: the time of its timestamp check, what its nonce check reads, and its envelope.
pub record Request : Type 0 where
  pub now : ℕ
  pub reading : Reading
  pub envelope : Envelope

unfoldable pub validate :
    Request → Option NonceStore → Option NonceStore × Result EnvelopeError (Unit {0})
validate q store = elim (validate_envelope_timestamp q.now q.envelope) [
  | err x ↦ (store, err x)
  | ok _ ↦ validate_envelope_nonce q.reading q.envelope store
]

-- the store after a sequence of requests
unfoldable pub validate_all : List Request → Option NonceStore → Option NonceStore
validate_all [] store = store
validate_all (q ∷ qs) store = validate_all qs (validate q store).0

-- The timestamp check accepts exactly the envelopes that are at most `max_envelope_age` old and at
-- most `max_future_tolerance` ahead.
pub validate_envelope_timestamp-ok_iff :
    (now t : ℕ) (e : Envelope)
    → e.timestamp ≡ some t
    → (validate_envelope_timestamp now e ≡ ok tt)
      ↔ ((now ≤ t + max_envelope_age) × (t ≤ now + max_future_tolerance))
unfolding validate_envelope_timestamp
validate_envelope_timestamp-ok_iff now t e h = (λ k. ground arith, λ k. ground arith)

abbrev HoldsUntil : String → ℕ → Option NonceStore → Type 0
HoldsUntil n t none = ⊥
HoldsUntil n t (some store) = IsUnique store × IsHeld n t store

-- The clock readings of a request's nonce check come after `low` and before `high`.
abbrev pub ReadsBefore : ℕ → Request → Type 0
ReadsBefore high q = (q.reading.cleanup_at ≤ high) × (q.reading.check_at ≤ high)

abbrev text_of : Nonce → String
text_of (text n) = n
text_of _ = ""

validate_cases :
    (q : Request) (store : NonceStore)
    → ((validate q (some store)).0 ≡ some store)
      ⊎ ((validate q (some store)).0
          ≡ some (check_and_mark q.reading (text_of q.envelope.nonce) nonce_ttl store).0)
unfolding validate validate_envelope_nonce
validate_cases q store = ground arith

validate-HoldsUntil :
    (q : Request) (n : String) (t : ℕ) (store : Option NonceStore)
    → ReadsBefore t q
    → HoldsUntil n t store
    → HoldsUntil n t (validate q store).0
validate-HoldsUntil q n t none b h = absurd h
validate-HoldsUntil q n t (some store) b h = elim (validate_cases q store) [
  | inl same ↦ rw same h
  | inr marked ↦
      let m = text_of q.envelope.nonce in
      rw marked (
        check_and_mark-IsUnique q.reading m nonce_ttl store h.0,
        check_and_mark-IsHeld q.reading n m t nonce_ttl store h.0 b.0 b.1 h.1,
      )
]

validate_all-HoldsUntil :
    (qs : List Request) (n : String) (t : ℕ) (store : Option NonceStore)
    → All (ReadsBefore t) qs
    → HoldsUntil n t store
    → HoldsUntil n t (validate_all qs store)
unfolding validate_all
validate_all-HoldsUntil [] n t store b h = h
validate_all-HoldsUntil (q ∷ qs) n t store b h =
    validate_all-HoldsUntil qs n t (validate q store).0 b.1 (validate-HoldsUntil q n t store b.0 h)

-- An accepted request with a nonce has a timestamp that was in range, and its nonce is recorded for
-- `nonce_ttl` from then on.
validate-ok :
    (q : Request) (n : String) (store : NonceStore)
    → IsUnique store
    → q.envelope.nonce ≡ text n
    → (validate q (some store)).1 ≡ ok tt
    → HoldsUntil n (q.reading.mark_at + nonce_ttl) (validate q (some store)).0
unfolding validate validate_envelope_nonce
validate-ok q n store u e h =
    let marked : (validate q (some store)).0 ≡ some (check_and_mark q.reading n nonce_ttl store).0 =
      ground arith in
    let first : (check_and_mark q.reading n nonce_ttl store).1 ≡ false = ground arith in
    rw marked (
      check_and_mark-IsUnique q.reading n nonce_ttl store u,
      check_and_mark_fresh q.reading n nonce_ttl store first,
    )

-- A request whose nonce is recorded beyond its nonce check is refused.
validate_held :
    (q : Request) (n : String) (t : ℕ) (store : Option NonceStore)
    → q.envelope.nonce ≡ text n
    → ReadsBefore t q
    → HoldsUntil n t store
    → (validate q store).1 ≢ ok tt
unfolding validate validate_envelope_nonce
validate_held q n t none e b h k = h
validate_held q n t (some store) e b h k =
    ground (arith, check_and_mark_held q.reading n t nonce_ttl store h.0 b.0 b.1 h.1, e)

timestamp-of_ok :
    (q : Request) (store : Option NonceStore)
    → (validate q store).1 ≡ ok tt
    → (t : ℕ) × (q.envelope.timestamp ≡ some t)
      × (q.now ≤ t + max_envelope_age)
      × (t ≤ q.now + max_future_tolerance)
unfolding validate validate_envelope_timestamp
timestamp-of_ok q store h = ground arith

All-ReadsBefore :
    {low high : ℕ} (qs : List Request)
    → low ≤ high
    → All (ReadsBefore low) qs
    → All (ReadsBefore high) qs
All-ReadsBefore [] h a = tt
All-ReadsBefore (q ∷ qs) h a = (omega arith, All-ReadsBefore qs h a.1)

-- No replay: once a request with a nonce is accepted, and after any further traffic, a request with
-- the same nonce and the same timestamp is refused, however long the sender waits. The clock is
-- taken not to run backwards from the first request's timestamp check to its mark, the traffic's
-- readings to precede those of the second, and these to come at most 270 seconds after its
-- timestamp check.
pub no_replay :
    (first again : Request) (traffic : List Request) (n : String) (store : NonceStore)
    → IsUnique store
    → first.envelope.nonce ≡ text n
    → again.envelope.nonce ≡ text n
    → again.envelope.timestamp ≡ first.envelope.timestamp
    → (validate first (some store)).1 ≡ ok tt
    → first.now ≤ first.reading.mark_at
    → All (ReadsBefore again.reading.cleanup_at) traffic
    → ReadsBefore (again.now + 270 * second) again
    → (validate again (validate_all traffic (validate first (some store)).0)).1 ≢ ok tt
no_replay first again traffic n store u e e' same accepted clock before soon k =
    let held = validate-ok first n store u e accepted in
    let (t, at, young, ahead) = timestamp-of_ok first (some store) accepted in
    let (t', at', young', ahead') =
      timestamp-of_ok again (validate_all traffic (validate first (some store)).0) k in
    let agree : t' ≡ t = ground arith in
    let limit : again.reading.check_at ≤ first.reading.mark_at + nonce_ttl = omega arith in
    let limit' : again.reading.cleanup_at ≤ first.reading.mark_at + nonce_ttl = omega arith in
    validate_held again n (first.reading.mark_at + nonce_ttl) _ e' (limit', limit)
      (validate_all-HoldsUntil traffic n _ _ (All-ReadsBefore traffic limit' before) held) k
