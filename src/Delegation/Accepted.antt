-- ===== src/Delegation/Accepted.antt =====
-- Which tokens `validate_delegation` of src/asap/economics/delegation.py accepts, read off the claims.
use asap_protocol.Prelude.{
  ℕ, String, true, Option, none, some, ◌==◌, string_eq, Bool-cases, arith, ◌≡◌, ◌≢◌, ◌↔◌, inl, inr,
  refl, sym, ◌∙◌, ap,
}
use asap_protocol.Json.{ℤ, Value, null, boolean, number, text, array, object, Fields, get_field}
use asap_protocol.Delegation.Tokens.{Policy, claim, parse_claim_from_jwt, validate_delegation}
use asap_protocol.Delegation.Live.{
  IsCurrent, IsScoped, IsKept, IsUnspent, IsAllowed, given, as_text, claim-given, is_past-IsCurrent,
  scope_includes_action-IsScoped, is_allowed_delegator-IsAllowed, is_revoked_jti-IsKept,
  jti_of-as_text, is_used_up-IsUnspent,
}
use asap_protocol.Delegation.Validity.{is_ok, IsThrough, validate_delegation-IsThrough}

module _ (Key : Type 0) (payload_of : String → Option Value) (decode : Key → String → Option Fields)
    (str : Value → String) (int : Value → Option ℤ) where
  -- the token's payload is an object, and what it holds under a name reads as the text
  pub record IsClaimed (token name s : String) : Type 0 where
    pub payload : Fields
    pub read : payload_of token ≡ some (object payload)
    pub shown : as_text str (given (get_field name payload)) ≡ some s

  pub record IsAccepted (resolver : String → Option Key) (p : Policy) (now : ℕ)
      (action token : String) : Type 0 where
    pub iss : String
    pub key : Key
    pub claims : Fields
    pub issuer : IsClaimed token "iss" iss
    pub named : iss ≢ ""
    pub allowed : IsAllowed p.allowed_delegators iss
    pub resolved : resolver iss ≡ some key
    pub signed : decode key token ≡ some claims
    pub current : IsCurrent now (get_field "exp" claims)
    pub scoped : IsScoped action (get_field "scp" claims)
    pub kept : IsKept p.is_revoked (as_text str (given (get_field "jti" claims)))
    pub unspent :
        IsUnspent int
          (as_text str (given (get_field "jti" claims)))
          (get_field "x-asap-constraints" claims)
          p.usage_count_for_token

  claim_text :
      (name : String) (claims : Fields)
      → (elim (claim name claims) as (λ _. Option String) [ none ↦ none | some w ↦ some (str w) ])
        ≡ as_text str (given (get_field name claims))
  claim_text name claims = rw (claim-given name claims) (go (given (get_field name claims)))
    where
      go :
          (o : Option Value)
          → (elim o as (λ _. Option String) [ none ↦ none | some w ↦ some (str w) ]) ≡ as_text str o
      go none = refl
      go (some v) = refl

  -- `parse_claim_from_jwt` once the payload is read
  within : String → Option Value → Option String
  within name (some (object claims)) = elim (claim name claims) [
    | none ↦ none
    | some w ↦ some (str w)
  ]
  within name _ = none

  parse_claim_from_jwt-within :
      (token name : String)
      → parse_claim_from_jwt Key payload_of decode str int token name
        ≡ within name (payload_of token)
  unfolding parse_claim_from_jwt within
  parse_claim_from_jwt-within token name = ground arith

  parse_claim_from_jwt-IsClaimed :
      (token name s : String)
      → (parse_claim_from_jwt Key payload_of decode str int token name ≡ some s)
        ↔ IsClaimed token name s
  unfolding within
  parse_claim_from_jwt-IsClaimed token name s = (
    λ h. go (payload_of token) refl (sym (parse_claim_from_jwt-within token name) ∙ h),
    λ h.
        parse_claim_from_jwt-within token name
        ∙ ap (within name) h.read
        ∙ claim_text name h.payload
        ∙ h.shown,
  )
    where
      go :
          (o : Option Value)
          → payload_of token ≡ o
          → within name o ≡ some s
          → IsClaimed token name s
      go none e h = cc
      go (some (object claims)) e h = record {
        payload = claims;
        read = e;
        shown = sym (claim_text name claims) ∙ h;
      }
      go (some null) e h = cc
      go (some (boolean b)) e h = cc
      go (some (number n)) e h = cc
      go (some (text t)) e h = cc
      go (some (array xs)) e h = cc

  module _ (resolver : String → Option Key) (p : Policy) (now : ℕ) (action token : String) where
    IsThrough-IsAccepted :
        IsThrough Key payload_of decode str int resolver p now action token
        → IsAccepted resolver p now action token
    IsThrough-IsAccepted h = record {
      iss = h.iss;
      key = h.key;
      claims = h.claims;
      issuer = (parse_claim_from_jwt-IsClaimed token "iss" h.iss).0 h.issuer;
      named = λ e. let blank = (string_eq.beq_iff h.iss "").1 e in let clash = h.named in cc;
      allowed = (is_allowed_delegator-IsAllowed p.allowed_delegators h.iss).0 h.allowed;
      resolved = h.resolved;
      signed = h.signed;
      current = (is_past-IsCurrent now (get_field "exp" h.claims)).0 h.live.current;
      scoped = (scope_includes_action-IsScoped action (get_field "scp" h.claims)).0 h.live.scoped;
      kept =
          rw (sym (jti_of-as_text Key payload_of decode str int h.claims))
            ((is_revoked_jti-IsKept p.is_revoked _).0 h.live.kept);
      unspent =
          rw (sym (jti_of-as_text Key payload_of decode str int h.claims))
            ((is_used_up-IsUnspent Key payload_of decode str int p _ _).0 h.live.unspent);
    }

    IsAccepted-IsThrough :
        IsAccepted resolver p now action token
        → IsThrough Key payload_of decode str int resolver p now action token
    IsAccepted-IsThrough h = record {
      iss = h.iss;
      key = h.key;
      claims = h.claims;
      issuer = (parse_claim_from_jwt-IsClaimed token "iss" h.iss).1 h.issuer;
      named = elim (Bool-cases (h.iss == "")) [
        | inl blank ↦ absurd (h.named ((string_eq.beq_iff h.iss "").0 blank))
        | inr other ↦ other
      ];
      allowed = (is_allowed_delegator-IsAllowed p.allowed_delegators h.iss).1 h.allowed;
      resolved = h.resolved;
      signed = h.signed;
      live = record {
        current = (is_past-IsCurrent now (get_field "exp" h.claims)).1 h.current;
        scoped = (scope_includes_action-IsScoped action (get_field "scp" h.claims)).1 h.scoped;
        kept =
            (is_revoked_jti-IsKept p.is_revoked _).1
              (rw (jti_of-as_text Key payload_of decode str int h.claims) h.kept);
        unspent =
            (is_used_up-IsUnspent Key payload_of decode str int p _ _).1
              (rw (jti_of-as_text Key payload_of decode str int h.claims) h.unspent);
      };
    }

  -- A token is accepted exactly where its payload names an issuer, not by the empty name and allowed
  -- where the caller lists the allowed ones; the key that the resolver has of that issuer verifies the
  -- signature; the signed `scp` is a list that holds the action or the wildcard; the signed `exp`, where
  -- it is a positive number, lies ahead; the signed `jti`, where there is one that is not empty, is not
  -- revoked for the caller; and a token with such an id has been used fewer times than its `max_tasks`,
  -- where that is a number and the caller counts. An `exp` that is zero, negative or no number counts
  -- as no expiry.
  pub validate_delegation-ok_iff :
      (resolver : String → Option Key) (p : Policy) (now : ℕ) (action token : String)
      → (is_ok (validate_delegation Key payload_of decode str int resolver p now action token)
          ≡ true)
        ↔ IsAccepted resolver p now action token
  validate_delegation-ok_iff resolver p now action token =
      let tests =
        validate_delegation-IsThrough Key payload_of decode str int resolver p now action token in
      (
        λ h. IsThrough-IsAccepted resolver p now action token (tests.0 h),
        λ h. tests.1 (IsAccepted-IsThrough resolver p now action token h),
      )
