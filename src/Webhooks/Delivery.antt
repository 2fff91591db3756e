-- ===== src/Webhooks/Delivery.antt =====
-- `WebhookDelivery`, its signatures and its results in src/asap/transport/webhook.py. The JSON encoder and
-- HMAC are the standard library's, and parameters here.
use asap_protocol.Prelude.{
  ℕ, String, Bool, false, ◌&&◌, Option, none, some, leb, ltb, List, [], ◌∷◌, ◌==◌, Dict, insert,
  string_eq, Result, ok, err,
}
use asap_protocol.Webhooks.Urls.{ParsedUrl, UrlError, validate_callback_url, Address}
use Prim.Native.String.{◌++◌ as ◌^^◌}

-- what an exception of httpx says, and which of the two clauses catches it
pub data PostError : Type 0 where
  timed_out http_error : String → PostError

-- `elapsed_ms`, which nothing reads, is left out
pub record WebhookResult : Type 0 where
  pub url : String
  pub status_code : ℕ
  pub success : Bool
  pub error : Option PostError

-- What a POST meets; an exception that is not of httpx passes through.
pub data Outcome : Type 0 where
  response : ℕ → Outcome
  failure : PostError → Outcome
  other_exception : Outcome

pub data DeliveryError : Type 0 where
  bad_url : UrlError → DeliveryError
  bad_rate propagated : DeliveryError

pub record Request : Type 0 where
  pub url : String
  pub body : String
  pub headers : Dict String String

abbrev pub signature_header : String
signature_header = "X-ASAP-Signature"

-- headers.update(extra)
unfoldable pub update : Dict String String → Dict String String → Dict String String
update d [] = d
update d ((k, v) ∷ extra) = update (insert k v d) extra

-- `200 <= status_code < 300`
abbrev pub is_success : ℕ → Bool
is_success status = leb 200 status && ltb status 300

-- the end of `deliver`, where the POST has its outcome
unfoldable pub result_of : String → Outcome → Result DeliveryError WebhookResult
result_of url (response status) =
    ok (record { url = url; status_code = status; success = is_success status; error = none })
result_of url (failure e) =
    ok (record { url = url; status_code = 0; success = false; error = some e })
result_of url other_exception = err propagated

module _ (hmac_hex : String → String → String) where
  unfoldable pub compute_signature : String → String → String
  compute_signature body secret = "sha256=" ^^ hmac_hex secret body

  unfoldable pub verify_signature : String → String → String → Bool
  unfolding compute_signature
  verify_signature body secret signature = compute_signature body secret == signature

  -- the body and the headers that `deliver` sends
  unfoldable pub request_for :
      {Payload : Type 0}
      → (Payload → String)
      → Option String
      → String
      → Payload
      → Dict String String
      → Request
  unfolding compute_signature update
  request_for dumps secret url payload extra_headers =
      let body = dumps payload in
      let headers = insert "Content-Type" "application/json" [] in
      record {
        url = url;
        body = body;
        headers =
            update
              (elim secret [
                | none ↦ headers
                | some key ↦ insert signature_header (compute_signature body key) headers
              ])
              extra_headers;
      }

-- `deliver`, where `urlparse`, `ip_address` and the resolver are those of the time of the call
unfoldable pub deliver :
    (String → ParsedUrl)
    → (String → Option Address)
    → (String → Option (List String))
    → Bool
    → String
    → Outcome
    → Result DeliveryError WebhookResult
unfolding result_of
deliver urlparse ip_address getaddrinfo require_https url outcome =
    elim (validate_callback_url ip_address getaddrinfo require_https (urlparse url)) [
      | err e ↦ err (bad_url e)
      | ok _ ↦ result_of url outcome
    ]
