-- ===== src/Webhooks/Manager.antt =====
-- `RetryPolicy`, `DeadLetterEntry` and `WebhookRetryManager` of src/asap/transport/webhook.py. One
-- delivery runs at a time. The clock, the resolver and the network are read through a `Visit` for each
-- attempt; the dead-letter callback, whose exceptions are caught, changes no state read here.
use asap_protocol.Prelude.{
  ℕ, zero, suc, ◌+◌, ◌*◌, ◌^◌, min, String, Bool, true, false, ◌&&◌, ◌||◌, Option, none, some,
  if◌then◌else◌, leb, ltb, length, List, [], ◌∷◌, ◌++◌, Dict, lookup, insert, erase, string_eq,
  Result, ok, err,
}
use asap_protocol.Limits.Bucket.{TokenBucket, new_bucket, consume, missing}
use asap_protocol.Webhooks.Urls.{ParsedUrl, Address}
use asap_protocol.Webhooks.Delivery.{WebhookResult, DeliveryError, Outcome, bad_rate, deliver}

-- `one` and `rate` are the parts of a token and the parts that come in each microsecond; the delays are
-- in microseconds
pub record RetryPolicy : Type 0 where
  pub max_retries : ℕ
  pub base_delay : ℕ
  pub max_delay : ℕ
  pub one : ℕ
  pub rate : ℕ

unfoldable pub backoff_delay : RetryPolicy → ℕ → ℕ
backoff_delay policy attempt = min (policy.base_delay * 2 ^ attempt) policy.max_delay

pub record DeadLetterEntry (Payload : Type 0) : Type 0 where
  pub url : String
  pub payload : Payload
  pub last_result : WebhookResult
  pub attempts : ℕ

pub record Manager (Payload : Type 0) : Type 0 where
  pub policy : RetryPolicy
  pub require_https : Bool
  pub max_dead_letters : ℕ
  pub max_buckets : ℕ
  pub dead_letters : List (DeadLetterEntry Payload)
  pub url_buckets : Dict String TokenBucket

-- `append` to a `deque(maxlen=n)`: the oldest goes where it is full, and nothing stays where n is 0
unfoldable pub append_bounded {ℓ} : {A : Type ℓ} → ℕ → List A → A → List A
append_bounded zero xs x = []
append_bounded (suc n) [] x = x ∷ []
append_bounded (suc n) (y ∷ ys) x =
    if leb (suc n) (length (y ∷ ys)) then ys ++ x ∷ [] else (y ∷ ys) ++ x ∷ []

-- `next(iter(d))`, and `del` of it
unfoldable pub drop_oldest : {V : Type 0} → Dict String V → Dict String V
drop_oldest [] = []
drop_oldest ((k, v) ∷ d) = erase k ((k, v) ∷ d)

-- the loop of `_wait_for_rate_limit`: for each pass the times that `consume` and, after it,
-- `seconds_until_available` read; true where it ends, false where it waits on after them
unfoldable pub wait_loop : List (ℕ × ℕ) → TokenBucket → TokenBucket × Bool
unfolding consume missing
wait_loop [] b = (b, false)
wait_loop ((now, after) ∷ times) b =
    let (b', taken) = consume now 1 b in
    let rest = wait_loop times (missing after b').0 in if taken then (b', true) else rest

-- what one attempt reads: the clock at a new bucket, the clock in the loop, the resolver, and the network
pub record Visit : Type 0 where
  pub now : ℕ
  pub times : List (ℕ × ℕ)
  pub getaddrinfo : String → Option (List String)
  pub outcome : Outcome

-- how `deliver_with_retry` ends, or that it waits on after the visits
pub data Ending : Type 0 where
  delivered : WebhookResult → Ending
  raised : DeliveryError → Ending
  waiting : Ending

-- `status_code in range(400, 500)`
abbrev pub is_client_error : ℕ → Bool
is_client_error status = leb 400 status && ltb status 500

-- a result after which the loop returns
abbrev pub is_final : WebhookResult → Bool
is_final r = r.success || is_client_error r.status_code

module _ {Payload : Type 0} where
  -- the eviction before a new bucket
  unfoldable pub make_room : Manager Payload → Manager Payload
  unfolding drop_oldest
  make_room m =
      if leb m.max_buckets (length m.url_buckets)
      then record m { url_buckets = drop_oldest m.url_buckets }
      else m

  -- `_get_bucket`; none where the rate is not positive, which raises
  unfoldable pub get_bucket : ℕ → String → Manager Payload → Manager Payload × Option TokenBucket
  unfolding new_bucket make_room
  get_bucket now url m = elim (lookup url m.url_buckets) [
    | some bucket ↦ (m, some bucket)
    | none ↦
        let m' = make_room m in
        elim (new_bucket m.policy.one m.policy.rate none now) [
          | none ↦ (m', none)
          | some bucket ↦
              (record m' { url_buckets = insert url bucket m'.url_buckets }, some bucket)
        ]
  ]

  -- `_wait_for_rate_limit`: whether it ends, and an error where it raises
  unfoldable pub wait_for_rate_limit :
      String → Visit → Manager Payload → Manager Payload × Result DeliveryError Bool
  unfolding get_bucket wait_loop
  wait_for_rate_limit url visit m =
      let (m', got) = get_bucket visit.now url m in
      elim got [
        | none ↦ (m', err bad_rate)
        | some bucket ↦
            let (bucket', ended) = wait_loop visit.times bucket in
            (record m' { url_buckets = insert url bucket' m'.url_buckets }, ok ended)
      ]

  unfoldable pub send_to_dead_letter :
      String → Payload → WebhookResult → Manager Payload → Manager Payload
  unfolding append_bounded
  send_to_dead_letter url payload last_result m = record m {
    dead_letters = append_bounded m.max_dead_letters m.dead_letters (record {
      url = url;
      payload = payload;
      last_result = last_result;
      attempts = 1 + m.policy.max_retries;
    });
  }

  module _ (urlparse : String → ParsedUrl) (ip_address : String → Option Address) where
    -- one pass of the loop up to the result of its delivery
    unfoldable pub attempt_once :
        String
        → Visit
        → Manager Payload
        → Manager Payload × Option (Result DeliveryError WebhookResult)
    unfolding wait_for_rate_limit deliver
    attempt_once url visit m =
        let (m', waited) = wait_for_rate_limit url visit m in
        (
          m',
          elim waited [
            | err e ↦ some (err e)
            | ok true ↦
                some
                  (deliver urlparse ip_address visit.getaddrinfo m.require_https url visit.outcome)
            | ok false ↦ none
          ],
        )

    -- the loop of `deliver_with_retry` from `attempt` on, with `left` attempts after this one: the manager,
    -- the ending, and the delays that it sleeps for
    unfoldable pub retry_loop :
        String → Payload → ℕ → ℕ → List Visit → Manager Payload → Manager Payload × Ending × List ℕ
    unfolding attempt_once send_to_dead_letter backoff_delay
    retry_loop url payload attempt left [] m = (m, waiting, [])
    retry_loop url payload attempt zero (visit ∷ visits) m =
        let (m', done) = attempt_once url visit m in
        elim done [
          | none ↦ (m', waiting, [])
          | some (err e) ↦ (m', raised e, [])
          | some (ok r) ↦
              if is_final r
              then (m', delivered r, [])
              else (send_to_dead_letter url payload r m', delivered r, [])
        ]
    retry_loop url payload attempt (suc left) (visit ∷ visits) m =
        let (m', done) = attempt_once url visit m in
        let (m'', ending, delays) = retry_loop url payload (attempt + 1) left visits m' in
        elim done [
          | none ↦ (m', waiting, [])
          | some (err e) ↦ (m', raised e, [])
          | some (ok r) ↦
              if is_final r
              then (m', delivered r, [])
              else (m'', ending, backoff_delay m.policy attempt ∷ delays)
        ]

    unfoldable pub deliver_with_retry :
        String → Payload → List Visit → Manager Payload → Manager Payload × Ending × List ℕ
    unfolding retry_loop
    deliver_with_retry url payload visits m = retry_loop url payload 0 m.policy.max_retries visits m
