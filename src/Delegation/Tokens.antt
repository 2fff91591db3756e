-- ===== src/Delegation/Tokens.antt =====
-- `scope_includes_action` and `validate_delegation` of src/asap/economics/delegation.py. Parsing,
-- signatures and Python's conversions are parameters. Times are microseconds, claims are in seconds.
use asap_protocol.Prelude.{
  ℕ, zero, suc, ◌*◌, String, Bool, true, false, ◌&&◌, ◌||◌, not, Option, none, some, if◌then◌else◌,
  leb, List, ◌==◌, string_eq, contains, Result, ok, err, ◌>>◌, raise_if, second,
}
use asap_protocol.Json.{
  ℤ, pos, negsuc, int_ltb, Value, text, array, object, Items, nil, cons, Fields, get_field,
  as_number, is_item,
}

-- A list that is not empty holds the wildcard or the action.
unfoldable pub scope_includes_action : Items → String → Bool
scope_includes_action nil action = false
scope_includes_action (cons x xs) action =
    is_item (text "*") (cons x xs) || is_item (text action) (cons x xs)

pub data DelegationError : Type 0 where
  malformed delegator_not_allowed key_not_found invalid_token expired action_not_allowed revoked
        limit_exceeded :
      DelegationError

-- what `ValidationResult` holds on success
pub record ValidationResult : Type 0 where
  pub delegator : String
  pub delegate : Option Value
  pub jti : Option String
  pub scopes : Items

-- an expiry that is no positive number counts as none
unfoldable pub exp_of : Option Value → Option ℕ
unfolding as_number
exp_of none = none
exp_of (some v) = elim (as_number v) [
  | none ↦ none
  | some n ↦ elim n [ pos zero ↦ none | pos (suc m) ↦ some (suc m) | negsuc m ↦ none ]
]

unfoldable pub is_past : ℕ → Option ℕ → Bool
is_past now none = false
is_past now (some exp) = leb (exp * second) now

-- `scp`, an empty list where it is none
unfoldable pub scopes_of : Option Value → Items
scopes_of (some (array xs)) = xs
scopes_of _ = nil

unfoldable pub max_tasks_of : Option Value → Option Value
max_tasks_of (some (object fs)) = elim (get_field "max_tasks" fs) [
  | none ↦ none
  | some v ↦ elim v [ Value.null ↦ none | w ↦ some w ]
]
max_tasks_of _ = none

-- `claims.get(name)` is not None
unfoldable pub claim : String → Fields → Option Value
claim name claims = elim (get_field name claims) [
  | none ↦ none
  | some v ↦ elim v [ Value.null ↦ none | w ↦ some w ]
]

-- The caller's arguments: what is none is not given.
pub record Policy : Type 0 where
  pub allowed_delegators : Option (List String)
  pub is_revoked : Option (String → Bool)
  pub usage_count_for_token : Option (String → ℕ)

unfoldable pub is_allowed_delegator : Option (List String) → String → Bool
is_allowed_delegator none iss = true
is_allowed_delegator (some urns) iss = contains iss urns

-- `jti_str and is_revoked is not None and is_revoked(jti_str)`
unfoldable pub is_revoked_jti : Option (String → Bool) → Option String → Bool
is_revoked_jti (some f) (some jti) = not (jti == "") && f jti
is_revoked_jti _ _ = false

module _ (Key : Type 0) (payload_of : String → Option Value)  -- the payload, unverified: three parts, base64 and JSON
    (decode : Key → String → Option Fields)  -- joserfc: the claims, where the key's signature fits
    (str : Value → String)  -- Python's `str`
    (int : Value → Option ℤ)  -- Python's `int`, none where it raises
  where
    unfoldable pub parse_claim_from_jwt : String → String → Option String
    unfolding claim
    parse_claim_from_jwt token name = elim (payload_of token) [
      | none ↦ none
      | some v ↦ elim v [
        | object claims ↦ elim (claim name claims) [ none ↦ none | some w ↦ some (str w) ]
        | _ ↦ none
      ]
    ]

    unfoldable pub get_jti_from_jwt : String → Option String
    unfolding parse_claim_from_jwt
    get_jti_from_jwt token = parse_claim_from_jwt token "jti"

    unfoldable pub delegate_of : Option Value → Option Value
    delegate_of none = none
    delegate_of (some (array nil)) = none
    delegate_of (some (array (cons x xs))) = some x
    delegate_of (some v) = some (text (str v))

    unfoldable pub jti_of : Fields → Option String
    unfolding claim
    jti_of claims = elim (claim "jti" claims) [ none ↦ none | some v ↦ some (str v) ]

    -- `used >= int(max_tasks)`; a limit that is no number is passed over
    unfoldable pub is_used_up : Policy → Option String → Option Value → Bool
    unfolding max_tasks_of
    is_used_up p none constraints = false
    is_used_up p (some jti) constraints = elim (max_tasks_of constraints) [
      | none ↦ false
      | some limit ↦ elim p.usage_count_for_token [
        | none ↦ false
        | some used ↦ elim (int limit) [
          | none ↦ false
          | some n ↦ not (jti == "") && not (int_ltb (pos (used jti)) n)
        ]
      ]
    ]

    -- the tests of the claims that the signature covers
    unfoldable pub check_claims :
        Policy → ℕ → String → String → Fields → Result DelegationError ValidationResult
    unfolding exp_of is_past scopes_of scope_includes_action jti_of is_revoked_jti is_used_up
        delegate_of claim
    check_claims p now action iss claims = do
      raise_if (is_past now (exp_of (get_field "exp" claims))) expired
      raise_if (not (scope_includes_action (scopes_of (get_field "scp" claims)) action))
          action_not_allowed
      raise_if (is_revoked_jti p.is_revoked (jti_of claims)) revoked
      raise_if (is_used_up p (jti_of claims) (get_field "x-asap-constraints" claims)) limit_exceeded
      ok (record {
        delegator = iss;
        delegate = delegate_of (claim "aud" claims);
        jti = jti_of claims;
        scopes = scopes_of (get_field "scp" claims);
      })

    -- `resolver` is none where it raises KeyError or ValueError
    unfoldable pub validate_delegation :
        (String → Option Key)
        → Policy
        → ℕ
        → String
        → String
        → Result DelegationError ValidationResult
    unfolding parse_claim_from_jwt is_allowed_delegator check_claims
    validate_delegation resolver p now action token = elim (parse_claim_from_jwt token "iss") [
      | none ↦ err malformed
      | some iss ↦
          if iss == ""
          then err malformed
          else if not (is_allowed_delegator p.allowed_delegators iss)
          then err delegator_not_allowed
          else elim (resolver iss) [
            | none ↦ err key_not_found
            | some key ↦ elim (decode key token) [
              | none ↦ err invalid_token
              | some claims ↦ check_claims p now action iss claims
            ]
          ]
    ]
