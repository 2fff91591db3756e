-- ===== src/OAuth/Bearer.antt =====
-- `OAuth2Middleware` of src/asap/auth/middleware.py and `require_scope` of src/asap/auth/scopes.py. Times are
-- in microseconds; `str` of a JSON value is a parameter.
use asap_protocol.Prelude.{
  ℕ, zero, suc, ◌*◌, String, Bool, true, false, ◌&&◌, ◌||◌, not, Option, none, some, if◌then◌else◌,
  ltb, List, [], ◌∷◌, ◌==◌, string_eq, contains, Dict, lookup, strip, starts_with, Result, ok, err,
  second, ◌>>=◌, ◌>>◌, raise_if,
}
use asap_protocol.Json.{
  ℤ, pos, negsuc, Value, null, text, array, Items, nil, cons, Fields, get_field, or_null, as_number,
}
use asap_protocol.OAuth.Scopes.{ScopeClaim, absent, other, listed, spaced, parse_scope}
use asap_protocol.OAuth.Keys.{
  JwksValidator, TokenError, http_error, jose_error, rstrip_slash, validate_token_claims,
}
use Prim.Native.String.{◌++◌ as ◌^^◌}

pub record OAuth2Claims : Type 0 where
  pub sub : String
  pub scope : List String
  pub exp : ℤ

-- an entry of ASAP_AUTH_SUBJECT_MAP; what is no string in a list equals no subject
pub data Allowed : Type 0 where
  one : String → Allowed
  many : List String → Allowed

pub record OAuth2Middleware : Type 0 where
  pub required_scope : Option String
  pub path_prefix : Option String
  pub extra_path_prefixes : List String
  pub manifest_id : Option String
  pub custom_claim_key : String
  pub subject_map : Dict String Allowed

-- the responses of the middleware, by their status codes
pub data Refusal : Type 0 where
  unauthorized forbidden unavailable : Refusal

-- the first n characters off: `s[n:]`
unfoldable pub drop_chars : ℕ → String → String
drop_chars zero s = s
drop_chars (suc n) String.[] = String.[]
drop_chars (suc n) (String.◌∷◌ c s) = drop_chars n s

-- `s or None`
abbrev pub or_none : String → Option String
or_none s = if s == "" then none else some s

unfoldable pub get_bearer_token : Option String → Option String
unfolding drop_chars
get_bearer_token none = none
get_bearer_token (some auth) =
    if starts_with "Bearer " auth then or_none (strip (drop_chars 7 auth)) else none

-- `/` alone stands for every path
unfoldable pub path_under_prefix : String → String → Bool
unfolding rstrip_slash
path_under_prefix path prefix =
    let normalized = rstrip_slash prefix in
    if normalized == "" then true else path == normalized || starts_with (normalized ^^ "/") path

-- any(path_under_prefix(path, prefix) for prefix in prefixes)
unfoldable pub any_prefix : String → List String → Bool
unfolding path_under_prefix
any_prefix path [] = false
any_prefix path (p ∷ ps) =
    let rest = any_prefix path ps in if path_under_prefix path p then true else rest

abbrev pub agent_identity_route_prefix : String
agent_identity_route_prefix = "/asap/agent/"

unfoldable pub should_validate : OAuth2Middleware → String → Bool
unfolding path_under_prefix any_prefix
should_validate m path =
    if starts_with agent_identity_route_prefix path then false else elim m.path_prefix [
      | none ↦ true
      | some prefix ↦ path_under_prefix path prefix || any_prefix path m.extra_path_prefixes
    ]

unfoldable pub enforces_global_scope : OAuth2Middleware → String → Bool
unfolding path_under_prefix
enforces_global_scope m path = elim m.path_prefix [
  | none ↦ true
  | some prefix ↦ path_under_prefix path prefix
]

unfoldable pub validate_scope : OAuth2Middleware → List String → Bool
validate_scope m scopes = elim m.required_scope [ none ↦ true | some s ↦ contains s scopes ]

-- `isinstance(allowed, str) and allowed == sub or isinstance(allowed, list) and sub in allowed`
unfoldable pub allows : String → Option Allowed → Bool
allows sub none = false
allows sub (some (one s)) = s == sub
allows sub (some (many subs)) = contains sub subs

-- `int(exp) < time.time()`
unfoldable pub has_expired : ℕ → ℤ → Bool
has_expired now (pos e) = ltb (e * second) now
has_expired now (negsuc e) = true

-- `exp`, 0 where there is none; an error where it is no number or has passed
unfoldable pub read_exp : ℕ → Value → Result Refusal ℤ
unfolding has_expired
read_exp now null = ok (pos 0)
read_exp now v = elim (as_number v) [
  | none ↦ err unauthorized
  | some e ↦ if has_expired now e then err unauthorized else ok e
]

-- `not sub or not isinstance(sub, str)`
unfoldable pub read_sub : Value → Result Refusal String
read_sub (text s) = if s == "" then err unauthorized else ok s
read_sub _ = err unauthorized

-- What one request brings: its path, its header, the clock and the downloads of its fetches, and the
-- clock at the check of `exp`.
pub record Request (KeySet : Type 0) : Type 0 where
  pub path : String
  pub authorization : Option String
  pub first : ℕ × Option KeySet
  pub second_fetch : ℕ × Option KeySet
  pub now : ℕ

module _ (str : Value → String) where
  unfoldable pub map_str : Items → List String
  map_str nil = []
  map_str (cons v rest) = str v ∷ map_str rest

  unfoldable pub scope_claim : Value → ScopeClaim
  unfolding map_str
  scope_claim null = absent
  scope_claim (array items) = listed (map_str items)
  scope_claim (text s) = spaced s
  scope_claim _ = other

  unfoldable pub validate_identity_binding : OAuth2Middleware → Fields → String → Bool
  unfolding allows
  validate_identity_binding m claims sub = elim m.manifest_id [
    | none ↦ true
    | some id ↦ elim (or_null (get_field m.custom_claim_key claims)) [
      | null ↦ allows sub (lookup id m.subject_map)
      | v ↦ strip (str v) == id
    ]
  ]

  -- what `validate_bearer_token` does with the claims of a good token
  unfoldable pub check_claims : OAuth2Middleware → ℕ → Bool → Fields → Result Refusal OAuth2Claims
  unfolding read_exp read_sub parse_scope scope_claim validate_scope validate_identity_binding
  check_claims m now enforce claims = do
    exp ← read_exp now (or_null (get_field "exp" claims))
    sub ← read_sub (or_null (get_field "sub" claims))
    raise_if
        (enforce
          && not
              (validate_scope m (parse_scope (scope_claim (or_null (get_field "scope" claims))))))
        forbidden
    raise_if (not (validate_identity_binding m claims sub)) forbidden
    ok (record {
      sub = sub;
      scope = parse_scope (scope_claim (or_null (get_field "scope" claims)));
      exp = exp;
    })

  -- a `TokenError` as its response
  unfoldable pub judge :
      OAuth2Middleware → ℕ → Bool → Result TokenError Fields → Result Refusal OAuth2Claims
  unfolding check_claims
  judge m now enforce (err http_error) = err unavailable
  judge m now enforce (err jose_error) = err unauthorized
  judge m now enforce (ok claims) = check_claims m now enforce claims

  module _ {KeySet : Type 0} (decode : KeySet → String → Option Fields)
      (validate_times : Fields → Bool) where
    -- `validate_bearer_token`
    unfoldable pub validate_bearer_token :
        OAuth2Middleware
        → Request KeySet
        → String
        → JwksValidator KeySet
        → JwksValidator KeySet × Result Refusal OAuth2Claims
    unfolding validate_token_claims judge enforces_global_scope
    validate_bearer_token m r token v =
        let (v', claims) =
          validate_token_claims decode validate_times token r.first r.second_fetch v in
        (v', judge m r.now (enforces_global_scope m r.path) claims)

    -- `dispatch`: the claims that the request is passed on with, none where its path needs none
    unfoldable pub dispatch :
        OAuth2Middleware
        → Request KeySet
        → JwksValidator KeySet
        → JwksValidator KeySet × Result Refusal (Option OAuth2Claims)
    unfolding should_validate get_bearer_token validate_bearer_token
    dispatch m r v =
        if not (should_validate m r.path)
        then (v, ok none)
        else elim (get_bearer_token r.authorization) [
          | none ↦ (v, err unauthorized)
          | some token ↦
              let (v', result) = validate_bearer_token m r token v in
              (v', result >>= λ c. ok (some c))
        ]

-- the dependency that `require_scope` makes
unfoldable pub require_scope : String → Option OAuth2Claims → Result Refusal OAuth2Claims
require_scope scope none = err unauthorized
require_scope scope (some claims) = if contains scope claims.scope then ok claims else err forbidden
