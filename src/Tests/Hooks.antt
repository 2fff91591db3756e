-- ===== src/Tests/Hooks.antt =====
-- Webhooks, for src/asap/transport/webhook.py. A private address starts with "10.".
use asap_protocol.Prelude.{
  ℕ, String, true, false, Option, none, some, if◌then◌else◌, [], ◌∷◌, List, ◌≡◌, ◌↔◌, refl, ok,
  arith, starts_with, contains, string_eq, ◌==◌, lookup, insert, erase,
}
use asap_protocol.Limits.Bucket.{TokenBucket, consume, missing, new_bucket}
use asap_protocol.Webhooks.Urls.{
  ParsedUrl, Address, validate_callback_url, IsOpen, validate_callback_url-ok_iff,
}
use asap_protocol.Webhooks.Delivery.{response, failure, timed_out}
use asap_protocol.Webhooks.Manager.{RetryPolicy, Manager, Visit, wait_loop, deliver_with_retry}
use asap_protocol.Webhooks.Attempts.{IsSettled, wait_loop-ends, deliver_with_retry-IsSettled}

abbrev ip_address : String → Option Address
ip_address s =
    if starts_with "10." s
    then some (record {
      is_private = true;
      is_loopback = false;
      is_link_local = false;
      is_reserved = false;
    })
    else none

abbrev getaddrinfo : String → Option (List String)
getaddrinfo name =
    if name == "inner" then some ("10.0.0.1" ∷ []) else some ("8.8.8.8" ∷ "8.8.8.8" ∷ [])

abbrev url_of : String → ParsedUrl
url_of name = record { scheme = "https"; hostname = some name; rest = "/hook" }

passes : validate_callback_url ip_address getaddrinfo true (url_of "outer") ≡ ok tt
unfolding validate_callback_url starts_with contains
passes = refl

validate_callback_url-ok_iff_example :
    (validate_callback_url ip_address getaddrinfo true (url_of "inner") ≡ ok tt)
    ↔ IsOpen ip_address getaddrinfo true (url_of "inner")
validate_callback_url-ok_iff_example =
    validate_callback_url-ok_iff ip_address getaddrinfo true (url_of "inner")

abbrev empty : TokenBucket
empty = record { one = 10; rate = 2; capacity = 20; tokens = 1; last_refill = 100 }

wait_loop-ends_example : (wait_loop ((101, 102) ∷ (106, 107) ∷ []) empty).1 ≡ true
unfolding consume missing
wait_loop-ends_example =
    wait_loop-ends 101 102 106 107 empty (omega arith) (omega arith) (omega arith)

abbrev policy : RetryPolicy
policy = record { max_retries = 2; base_delay = 1; max_delay = 16; one = 1; rate = 1 }

abbrev manager : Manager String
manager = record {
  policy = policy;
  require_https = true;
  max_dead_letters = 1;
  max_buckets = 1;
  dead_letters =
      record {
        url = "u";
        payload = "p";
        last_result = record { url = "u"; status_code = 500; success = false; error = none };
        attempts = 3;
      }
      ∷ [];
  url_buckets = ("other", empty) ∷ [];
}

abbrev visit : ℕ → Visit
visit t = record { now = t; times = (t, t) ∷ []; getaddrinfo = getaddrinfo; outcome = response 503 }

abbrev visits : List Visit
visits = visit 1 ∷ visit 2 ∷ record (visit 3) { outcome = failure (timed_out "slow") } ∷ []

-- the delays between the three attempts
delays : (deliver_with_retry url_of ip_address "outer" "payload" visits manager).2 ≡ 1 ∷ 2 ∷ []
unfolding deliver_with_retry starts_with contains lookup insert erase new_bucket consume missing
    validate_callback_url
delays = refl

deliver_with_retry-IsSettled_example :
    IsSettled "outer" "payload" policy 1 manager.dead_letters 0 2
      (deliver_with_retry url_of ip_address "outer" "payload" visits manager)
deliver_with_retry-IsSettled_example =
    deliver_with_retry-IsSettled url_of ip_address "outer" "payload" visits manager
