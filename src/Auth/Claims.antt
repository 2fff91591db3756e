-- ===== src/Auth/Claims.antt =====
-- The claims that host and agent tokens share: src/asap/auth/agent_jwt.py, and the audience of
-- src/asap/auth/jwks.py. Times are microseconds.
use asap_protocol.Prelude.{
  ℕ, ◌+◌, ◌*◌, String, Bool, true, false, not, Option, none, some, if◌then◌else◌, List, [], ◌∷◌,
  string_eq, contains, is_blank, second, Result, ok, err,
}
use asap_protocol.Json.{
  ℤ, pos, int_ltb, Value, text, array, Items, nil, cons, Fields, end, field, get_field,
}
use asap_protocol.Identity.Keys.{Jwk}
use asap_protocol.Identity.Sessions.{AgentSessionStatus}

-- why a token is refused; `raised` is a `KeyError` or `ValueError` of a thumbprint
pub data VerifyError : Type 0 where
  invalid_structure invalid_typ missing_host_key invalid_jwt : VerifyError
  token_expired invalid_iat missing_jti audience_mismatch jti_replay : VerifyError
  wrong_issuer missing_iss unknown_host host_revoked host_mismatch : VerifyError
  missing_sub unknown_agent sub_mismatch agent_revoked agent_expired : VerifyError
  unusable_agent : AgentSessionStatus → VerifyError
  host_changed key_changed session_changed raised : VerifyError

-- `isinstance(v, str) and bool(v.strip())`, with the text where it is so
unfoldable pub text_of : Option Value → Option String
text_of (some (text s)) = if is_blank s then none else some s
text_of _ = none

-- a key of strings as JSON
unfoldable pub json_of : Jwk → Fields
json_of [] = end
json_of ((name, s) ∷ key) = field name (text s) (json_of key)

-- a JSON key as one of strings: other members are in no thumbprint, since the key was imported
unfoldable pub jwk_of : Fields → Jwk
jwk_of end = []
jwk_of (field name (text s) fs) = (name, s) ∷ jwk_of fs
jwk_of (field name _ fs) = jwk_of fs

-- `any(a in expected for a in token_auds)`, where the items that are no text are left out
unfoldable pub any_expected : List String → Items → Bool
any_expected expected nil = false
any_expected expected (cons (text a) xs) =
    if contains a expected then true else any_expected expected xs
any_expected expected (cons _ xs) = any_expected expected xs

-- one expected audience is a list of one
unfoldable pub audience_matches_expected : Fields → List String → Bool
unfolding any_expected
audience_matches_expected claims expected = elim (get_field "aud" claims) [
  | none ↦ false
  | some v ↦ elim v [
    | text a ↦ any_expected expected (cons (text a) nil)
    | array xs ↦ any_expected expected xs
    | _ ↦ false
  ]
]

unfoldable pub is_expected : Option (List String) → Fields → Bool
unfolding audience_matches_expected
is_expected none claims = true
is_expected (some expected) claims = audience_matches_expected claims expected

-- `_IAT_MAX_FUTURE_SKEW_SECONDS`
abbrev pub iat_max_future_skew : ℕ
iat_max_future_skew = 60 * second

-- `float` is Python's, in microseconds: none where it raises, or is not a number
module _ (float : Value → Option ℤ) where
  unfoldable pub iat_not_in_future : Fields → ℕ → Bool
  iat_not_in_future claims now = elim (get_field "iat" claims) [
    | none ↦ true
    | some v ↦ elim v [
      | Value.null ↦ true
      | w ↦ elim (float w) [
        | none ↦ false
        | some iat ↦ not (int_ltb (pos (now + iat_max_future_skew)) iat)
      ]
    ]
  ]

  unfoldable pub exp_valid : Fields → ℕ → Bool
  exp_valid claims now = elim (get_field "exp" claims) [
    | none ↦ false
    | some v ↦ elim v [
      | Value.null ↦ false
      | w ↦ elim (float w) [ none ↦ false | some exp ↦ int_ltb (pos now) exp ]
    ]
  ]

  -- the `jti`, where every claim is sound
  unfoldable pub validate_standard_claims :
      Fields → ℕ → Option (List String) → Result VerifyError String
  unfolding exp_valid iat_not_in_future text_of is_expected
  validate_standard_claims claims now expected_audience =
      if not (exp_valid claims now)
      then err token_expired
      else if not (iat_not_in_future claims now)
      then err invalid_iat
      else elim (text_of (get_field "jti" claims)) [
        | none ↦ err missing_jti
        | some jti ↦ if is_expected expected_audience claims then ok jti else err audience_mismatch
      ]
