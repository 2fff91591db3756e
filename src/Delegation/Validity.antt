-- ===== src/Delegation/Validity.antt =====
-- The tests that a token comes through in `validate_delegation` of src/asap/economics/delegation.py, and
-- what a cascade takes from the tokens that do.
use asap_protocol.Prelude.{
  ℕ, ◌≤◌, String, Bool, true, false, not, if◌then◌else◌, Option, none, some, length, ◌==◌,
  string_eq, Result, ok, err, arith, ◌≡◌, ◌↔◌, refl, sym, ap, ◌∙◌, inl, inr, Bool-cases,
}
use asap_protocol.Json.{ℤ, Value, Fields, get_field}
use asap_protocol.Delegation.Storage.{Storage, max_cascade_depth, is_revoked, revoke_cascade}
use asap_protocol.Delegation.Cascade.{Reach}
use asap_protocol.Delegation.Revoked.{revoke_cascade_revokes}
use asap_protocol.Delegation.Tokens.{
  DelegationError, ValidationResult, Policy, exp_of, is_past, scopes_of, scope_includes_action,
  is_allowed_delegator, is_revoked_jti, parse_claim_from_jwt, jti_of, is_used_up, check_claims,
  validate_delegation,
}

abbrev pub is_ok : {E A : Type 0} → Result E A → Bool
is_ok (ok _) = true
is_ok (err _) = false

module _ (Key : Type 0) (payload_of : String → Option Value) (decode : Key → String → Option Fields)
    (str : Value → String) (int : Value → Option ℤ) where
  -- the claims that the signature covers let the action through
  pub record IsUnrefused (p : Policy) (now : ℕ) (action : String) (claims : Fields) : Type 0 where
    pub current : is_past now (exp_of (get_field "exp" claims)) ≡ false
    pub scoped : scope_includes_action (scopes_of (get_field "scp" claims)) action ≡ true
    pub kept : is_revoked_jti p.is_revoked (jti_of Key payload_of decode str int claims) ≡ false
    pub unspent :
        is_used_up Key payload_of decode str int p
          (jti_of Key payload_of decode str int claims)
          (get_field "x-asap-constraints" claims)
        ≡ false

  -- the token is one of an allowed issuer, signed with the key that the resolver has of it
  pub record IsThrough (resolver : String → Option Key) (p : Policy) (now : ℕ)
      (action token : String) : Type 0 where
    pub iss : String
    pub key : Key
    pub claims : Fields
    pub issuer : parse_claim_from_jwt Key payload_of decode str int token "iss" ≡ some iss
    pub named : (iss == "") ≡ false
    pub allowed : is_allowed_delegator p.allowed_delegators iss ≡ true
    pub resolved : resolver iss ≡ some key
    pub signed : decode key token ≡ some claims
    pub live : IsUnrefused p now action claims

  check_claims-ok_iff :
      (p : Policy) (now : ℕ) (action iss : String) (claims : Fields)
      → (is_ok (check_claims Key payload_of decode str int p now action iss claims) ≡ true)
        ↔ IsUnrefused p now action claims
  unfolding check_claims
  check_claims-ok_iff p now action iss claims = (
    λ h. record {
      current = ground arith;
      scoped = ground arith;
      kept = ground arith;
      unspent = ground arith;
    },
    λ h. ground (arith, h.current, h.scoped, h.kept, h.unspent),
  )

  -- `validate_delegation` once the issuer, its key and the claims are known
  after_key :
      (String → Option Key)
      → Policy
      → ℕ
      → String
      → String
      → String
      → Option Key
      → Result DelegationError ValidationResult
  after_key resolver p now action token iss o = elim o [
    | none ↦ err DelegationError.key_not_found
    | some key ↦ elim (decode key token) [
      | none ↦ err DelegationError.invalid_token
      | some claims ↦ check_claims Key payload_of decode str int p now action iss claims
    ]
  ]

  after_iss :
      (String → Option Key)
      → Policy
      → ℕ
      → String
      → String
      → Option String
      → Result DelegationError ValidationResult
  unfolding after_key
  after_iss resolver p now action token o = elim o [
    | none ↦ err DelegationError.malformed
    | some iss ↦
        if iss == ""
        then err DelegationError.malformed
        else if not (is_allowed_delegator p.allowed_delegators iss)
        then err DelegationError.delegator_not_allowed
        else after_key resolver p now action token iss (resolver iss)
  ]

  module _ (resolver : String → Option Key) (p : Policy) (now : ℕ) (action token : String) where
    claims-IsThrough :
        (iss : String) (key : Key)
        → parse_claim_from_jwt Key payload_of decode str int token "iss" ≡ some iss
        → (iss == "") ≡ false
        → is_allowed_delegator p.allowed_delegators iss ≡ true
        → resolver iss ≡ some key
        → (o : Option Fields) → decode key token ≡ o
        → is_ok (elim o [
          | none ↦ err DelegationError.invalid_token
          | some claims ↦ check_claims Key payload_of decode str int p now action iss claims
        ])
          ≡ true
        → IsThrough resolver p now action token
    claims-IsThrough iss key i n a r none d h = cc
    claims-IsThrough iss key i n a r (some claims) d h = record {
      iss = iss;
      key = key;
      claims = claims;
      issuer = i;
      named = n;
      allowed = a;
      resolved = r;
      signed = d;
      live = (check_claims-ok_iff p now action iss claims).0 h;
    }

    after_key-IsThrough :
        (iss : String)
        → parse_claim_from_jwt Key payload_of decode str int token "iss" ≡ some iss
        → (iss == "") ≡ false
        → is_allowed_delegator p.allowed_delegators iss ≡ true
        → (o : Option Key) → resolver iss ≡ o
        → is_ok (after_key resolver p now action token iss o) ≡ true
        → IsThrough resolver p now action token
    unfolding after_key
    after_key-IsThrough iss i n a none r h = cc
    after_key-IsThrough iss i n a (some key) r h =
        claims-IsThrough iss key i n a r (decode key token) refl h

    after_iss-IsThrough :
        (o : Option String)
        → parse_claim_from_jwt Key payload_of decode str int token "iss" ≡ o
        → is_ok (after_iss resolver p now action token o) ≡ true
        → IsThrough resolver p now action token
    unfolding after_iss
    after_iss-IsThrough none i h = cc
    after_iss-IsThrough (some iss) i h = elim (Bool-cases (iss == "")) [
      | inl blank ↦ let wrong : false ≡ true = ground (arith, h, blank) in cc
      | inr named ↦ elim (Bool-cases (is_allowed_delegator p.allowed_delegators iss)) [
        | inr banned ↦ let wrong : false ≡ true = ground (arith, h, named, banned) in cc
        | inl allowed ↦
            after_key-IsThrough iss i named allowed (resolver iss) refl
              (ground (arith, h, named, allowed))
      ]
    ]

    after_iss-ok :
        (h : IsThrough resolver p now action token)
        → is_ok (after_iss resolver p now action token (some h.iss)) ≡ true
    unfolding after_iss after_key
    after_iss-ok h = rw h.named (
        rw h.allowed (
          ap (λ o. is_ok (after_key resolver p now action token h.iss o)) h.resolved
          ∙ ap
              (λ o. is_ok (elim o [
                | none ↦ err DelegationError.invalid_token
                | some claims ↦ check_claims Key payload_of decode str int p now action h.iss claims
              ]))
              h.signed
          ∙ ((check_claims-ok_iff p now action h.iss h.claims).1 h.live)))

  -- A token is accepted exactly where it comes through the tests, one after another.
  pub validate_delegation-IsThrough :
      (resolver : String → Option Key) (p : Policy) (now : ℕ) (action token : String)
      → (is_ok (validate_delegation Key payload_of decode str int resolver p now action token)
          ≡ true)
        ↔ IsThrough resolver p now action token
  unfolding validate_delegation after_iss after_key
  validate_delegation-IsThrough resolver p now action token = (
    after_iss-IsThrough resolver p now action token
        (parse_claim_from_jwt Key payload_of decode str int token "iss") refl,
    λ h.
        ap (λ o. is_ok (after_iss resolver p now action token o)) h.issuer
        ∙ (after_iss-ok resolver p now action token h),
  )

  -- Once a cascade from a root is done, in a store of at most 50 tokens, no token that the root leads to
  -- and whose id is not empty is accepted with the store's revocations, for any action, at any time and
  -- from any issuer: a token here is one whose claims, wherever its signature fits, hold that id. A
  -- token under the empty id is left out, since the code does not ask about it.
  pub cascade-refuses :
      (clock : String → ℕ) (reason : Option String) (root : String) (s : Storage)
      → length s.issued ≤ max_cascade_depth
      → (resolver : String → Option Key) (p : Policy) (now : ℕ) (action token jti : String)
      → Reach s root jti
      → (jti == "") ≡ false
      → ((key : Key) (claims : Fields)
          → decode key token ≡ some claims
          → jti_of Key payload_of decode str int claims ≡ some jti)
      → (s' : Storage) × (revoke_cascade clock reason root s ≡ some s')
        × (is_ok (
              validate_delegation Key payload_of decode str int resolver
                (record p { is_revoked = some (λ t. is_revoked t s') })
                now
                action
                token)
            ≡ false)
  unfolding is_revoked_jti
  cascade-refuses clock reason root s few resolver p now action token jti reached named carries =
      let (s', returned, exact) = revoke_cascade_revokes clock reason root s few in
      let asked = record p { is_revoked = some (λ t. is_revoked t s') } in
      (
        s',
        returned,
        elim (Bool-cases (
            is_ok (
              validate_delegation Key payload_of decode str int resolver asked now action token))) [
                | inr refused ↦ refused
                | inl accepted ↦
                    let a =
                      (validate_delegation-IsThrough resolver asked now action token).0 accepted in
                    let gone = (exact jti).1 (inl reached) in
                    let kept : is_revoked_jti (some (λ t. is_revoked t s')) (some jti) ≡ false =
                      ap (is_revoked_jti (some (λ t. is_revoked t s')))
                        (sym (carries a.key a.claims a.signed))
                      ∙ a.live.kept in
                    let wrong : false ≡ true = ground (arith, kept, named, gone) in cc
              ],
      )
