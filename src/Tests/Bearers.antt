-- ===== src/Tests/Bearers.antt =====
-- OAuth2 bearer tokens, for src/asap/auth/middleware.py. A key set is the number of a key, and a token is
-- signed by the key that it starts with.
use asap_protocol.Prelude.{
  String, Bool, true, false, Option, none, some, if◌then◌else◌, [], ◌∷◌, ◌≡◌, ◌⊎◌, refl, ok,
  starts_with, contains, string_eq, lookup, strip, is_blank, is_space,
}
use asap_protocol.Json.{Value, text, number, pos, Fields, field, end, get_field, as_number}
use asap_protocol.OAuth.Scopes.{parse_scope, spaced, join, parse_scope-join}
use asap_protocol.OAuth.Keys.{JwksValidator, validate_jwt, validate_token_claims, fetch_keys}
use asap_protocol.OAuth.Refetch.{validate_token_claims-again}
use asap_protocol.OAuth.Bearer.{OAuth2Middleware, OAuth2Claims, Request, one, dispatch}
use asap_protocol.OAuth.Passing.{IsPassed, dispatch-IsPassed}

parse_scope-join_example : parse_scope (spaced "read write") ≡ "read" ∷ "write" ∷ []
unfolding join is_space
parse_scope-join_example =
    parse_scope-join ("read" ∷ "write" ∷ [])
      ((refl, (refl, (refl, (refl, tt)))), ((refl, (refl, (refl, (refl, (refl, tt))))), tt))

abbrev claims : Fields
claims =
    field "sub" (text "agent")
      (field "scope" (text "asap:read asap:execute") (field "exp" (number (pos 200)) end))

abbrev decode : String → String → Option Fields
decode key token = if starts_with key token then some claims else none

abbrev any_times : Fields → Bool
any_times fs = true

abbrev validator : JwksValidator String
validator = record {
  expected_issuer = none;
  expected_audience = none;
  require_exp = false;
  keys_cache = some ("old", 1000);
}

validate_token_claims-again_example :
    (c : Fields) × ((validate_token_claims decode any_times "new.jwt"
        (5, none)
        (6, some "new")
        validator).1
      ≡ ok c)
    × ((validate_jwt decode any_times validator "new.jwt" "old" ≡ some c) ⊎ (c ≡ claims))
unfolding fetch_keys validate_jwt starts_with
validate_token_claims-again_example =
    validate_token_claims-again decode any_times "new.jwt" (5, none) (6, some "new") validator "old"
      "new" claims refl refl refl

abbrev middleware : OAuth2Middleware
middleware = record {
  required_scope = some "asap:execute";
  path_prefix = some "/asap";
  extra_path_prefixes = "/usage" ∷ [];
  manifest_id = some "m";
  custom_claim_key = "agent_id";
  subject_map = ("m", one "agent") ∷ [];
}

abbrev request : Request String
request = record {
  path = "/asap/call";
  authorization = some "Bearer new.jwt";
  first = (5, none);
  second_fetch = (6, some "new");
  now = 7;
}

abbrev str : Value → String
str v = ""

abbrev passed : OAuth2Claims
passed = record { sub = "agent"; scope = "asap:read" ∷ "asap:execute" ∷ []; exp = pos 200 }

dispatched : (dispatch str decode any_times middleware request validator).1 ≡ ok (some passed)
unfolding dispatch starts_with contains lookup strip is_blank is_space get_field as_number
    parse_scope
dispatched = refl

dispatch-IsPassed_example : IsPassed str decode any_times middleware request validator (some passed)
dispatch-IsPassed_example =
    dispatch-IsPassed str String decode any_times middleware request validator (some passed)
      dispatched
