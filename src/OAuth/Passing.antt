-- ===== src/OAuth/Passing.antt =====
-- Which requests `OAuth2Middleware` of src/asap/auth/middleware.py passes on.
use asap_protocol.Prelude.{
  ℕ, String, Bool, true, false, ◌&&◌, not, Option, none, some, if◌then◌else◌, List, ◌==◌, string_eq,
  Result, ok, err, ◌>>=◌, ◌>>◌, raise_if, bind-ok, ◌≡◌, refl, subst, ◌⊎◌, inl, inr,
}
use asap_protocol.Json.{
  ℤ, Value, null, boolean, number, text, array, object, Fields, get_field, or_null, as_number,
}
use asap_protocol.OAuth.Scopes.{parse_scope}
use asap_protocol.OAuth.Keys.{JwksValidator, TokenError, http_error, jose_error}
use asap_protocol.OAuth.Genuine.{IsGenuine, validate_token_claims-IsGenuine}
use asap_protocol.OAuth.Bearer.{
  OAuth2Claims, OAuth2Middleware, Refusal, unauthorized, forbidden, Request, get_bearer_token,
  should_validate, enforces_global_scope, validate_scope, has_expired, read_exp, read_sub,
  scope_claim, validate_identity_binding, check_claims, judge, validate_bearer_token, dispatch,
}

-- An `exp` that is absent or null is read as 0; one that is there is a number, and has not passed.
abbrev pub IsCurrent : ℕ → Value → ℤ → Type 0
IsCurrent now v exp = (v ≡ null) ⊎ ((as_number v ≡ some exp) × (has_expired now exp ≡ false))

number-IsCurrent :
    (now : ℕ) (v : Value) (exp : ℤ) (o : Option ℤ)
    → as_number v ≡ o
    → (elim o as (λ _. Result Refusal ℤ) [
      | none ↦ err unauthorized
      | some e ↦ if has_expired now e then err unauthorized else ok e
    ])
      ≡ ok exp
    → IsCurrent now v exp
number-IsCurrent now v exp none e h = cc
number-IsCurrent now v exp (some n) e h = inr (passed (has_expired now n) refl h)
  where
    passed :
        (b : Bool)
        → has_expired now n ≡ b
        → (if b then err unauthorized else ok n) ≡ ok exp
        → (as_number v ≡ some exp) × (has_expired now exp ≡ false)
    passed true d k = cc
    passed false d k = (cc, cc)

read_exp-IsCurrent : (now : ℕ) (v : Value) (exp : ℤ) → read_exp now v ≡ ok exp → IsCurrent now v exp
unfolding read_exp
read_exp-IsCurrent now null exp h = inl refl
read_exp-IsCurrent now (boolean b) exp h =
    number-IsCurrent now (boolean b) exp (as_number (boolean b)) refl h
read_exp-IsCurrent now (number n) exp h =
    number-IsCurrent now (number n) exp (as_number (number n)) refl h
read_exp-IsCurrent now (text s) exp h =
    number-IsCurrent now (text s) exp (as_number (text s)) refl h
read_exp-IsCurrent now (array vs) exp h =
    number-IsCurrent now (array vs) exp (as_number (array vs)) refl h
read_exp-IsCurrent now (object fs) exp h =
    number-IsCurrent now (object fs) exp (as_number (object fs)) refl h

read_sub-text :
    (v : Value) (sub : String) → read_sub v ≡ ok sub → (v ≡ text sub) × ((sub == "") ≡ false)
unfolding read_sub
read_sub-text (text s) sub h = full (s == "") refl h
  where
    full :
        (b : Bool)
        → (s == "") ≡ b
        → (if b then err unauthorized else ok s) ≡ ok sub
        → (text s ≡ text sub) × ((sub == "") ≡ false)
    full true e k = cc
    full false e k = (cc, cc)
read_sub-text null sub h = cc
read_sub-text (boolean b) sub h = cc
read_sub-text (number n) sub h = cc
read_sub-text (array vs) sub h = cc
read_sub-text (object fs) sub h = cc

module _ (str : Value → String) where
  -- What the claims of a token say of the claims that a request is passed on with.
  pub record IsAdmitted (m : OAuth2Middleware) (now : ℕ) (enforce : Bool) (claims : Fields)
      (c : OAuth2Claims) : Type 0 where
    pub subject : (or_null (get_field "sub" claims) ≡ text c.sub) × ((c.sub == "") ≡ false)
    pub current : IsCurrent now (or_null (get_field "exp" claims)) c.exp
    pub scopes : c.scope ≡ parse_scope (scope_claim str (or_null (get_field "scope" claims)))
    pub in_scope : (enforce && not (validate_scope m c.scope)) ≡ false
    pub bound : validate_identity_binding str m claims c.sub ≡ true

  two_raises :
      (a b : Bool) (x c : OAuth2Claims)
      → (raise_if a forbidden >> (raise_if (not b) forbidden >> ok x)) ≡ ok c
      → (a ≡ false) × (b ≡ true) × (x ≡ c)
  two_raises true b x c h = cc
  two_raises false true x c h = (refl, refl, cc)
  two_raises false false x c h = cc

  check_claims-IsAdmitted :
      (m : OAuth2Middleware) (now : ℕ) (enforce : Bool) (claims : Fields) (c : OAuth2Claims)
      → check_claims str m now enforce claims ≡ ok c
      → IsAdmitted m now enforce claims c
  unfolding check_claims
  check_claims-IsAdmitted m now enforce claims c h =
      let (exp, e, h1) = bind-ok (read_exp now (or_null (get_field "exp" claims))) _ c h in
      let (sub, s, h2) = bind-ok (read_sub (or_null (get_field "sub" claims))) _ c h1 in
      let scopes = parse_scope (scope_claim str (or_null (get_field "scope" claims))) in
      let (i, b, same) =
        two_raises (enforce && not (validate_scope m scopes))
          (validate_identity_binding str m claims sub)
          (record { sub = sub; scope = scopes; exp = exp }) c h2 in
      admitted sub exp scopes refl (read_sub-text (or_null (get_field "sub" claims)) sub s)
        (read_exp-IsCurrent now (or_null (get_field "exp" claims)) exp e) i b same
    where
      admitted :
          (sub : String) (exp : ℤ) (scopes : List String)
          → scopes ≡ parse_scope (scope_claim str (or_null (get_field "scope" claims)))
          → (or_null (get_field "sub" claims) ≡ text sub) × ((sub == "") ≡ false)
          → IsCurrent now (or_null (get_field "exp" claims)) exp
          → (enforce && not (validate_scope m scopes)) ≡ false
          → validate_identity_binding str m claims sub ≡ true
          → record { sub = sub; scope = scopes; exp = exp } ≡ c
          → IsAdmitted m now enforce claims c
      admitted sub exp scopes e s t i b same =
          subst (λ x. IsAdmitted m now enforce claims x) same
            (record { subject = s; current = t; scopes = e; in_scope = i; bound = b })

  judge-ok :
      (m : OAuth2Middleware) (now : ℕ) (enforce : Bool) (r : Result TokenError Fields)
      (c : OAuth2Claims)
      → judge str m now enforce r ≡ ok c
      → (claims : Fields) × (r ≡ ok claims) × IsAdmitted m now enforce claims c
  unfolding judge
  judge-ok m now enforce (err http_error) c h = cc
  judge-ok m now enforce (err jose_error) c h = cc
  judge-ok m now enforce (ok claims) c h =
      (claims, refl, check_claims-IsAdmitted m now enforce claims c h)

  some-ok :
      (r : Result Refusal OAuth2Claims) (c : OAuth2Claims)
      → (r >>= λ x. ok (some x)) ≡ ok (some c)
      → r ≡ ok c
  some-ok (err e) c h = cc
  some-ok (ok x) c h = cc

  absent_claims :
      {P : Type 0} (r : Result Refusal OAuth2Claims) → (r >>= λ x. ok (some x)) ≡ ok none → P
  absent_claims (err e) h = cc
  absent_claims (ok x) h = cc

  -- What it takes for a request to be passed on, with claims and without.
  abbrev pub IsPassed :
      {KeySet : Type 0}
      → (KeySet → String → Option Fields)
      → (Fields → Bool)
      → OAuth2Middleware
      → Request KeySet
      → JwksValidator KeySet
      → Option OAuth2Claims
      → Type 0
  IsPassed decode times m r v none = should_validate m r.path ≡ false
  IsPassed decode times m r v (some c) =
      (token : String) × (claims : Fields) × (get_bearer_token r.authorization ≡ some token)
      × IsGenuine decode times v r.first r.second_fetch token claims
      × IsAdmitted m r.now (enforces_global_scope m r.path) claims c

  -- A request that is passed on with claims carries a bearer token whose claims are signed by a key
  -- set that the validator held or downloaded and pass its checks, have not expired, name the
  -- subject and the scopes that are passed on, hold the required scope where the path asks for it,
  -- and are bound to the agent's identity where one is configured. A request that is passed on
  -- without claims is for a path that needs none.
  pub dispatch-IsPassed :
      (KeySet : Type 0) (decode : KeySet → String → Option Fields) (times : Fields → Bool)
      (m : OAuth2Middleware) (r : Request KeySet) (v : JwksValidator KeySet)
      (c : Option OAuth2Claims)
      → (dispatch str decode times m r v).1 ≡ ok c
      → IsPassed decode times m r v c
  unfolding dispatch validate_bearer_token
  dispatch-IsPassed KeySet decode times m r v c h =
      go (should_validate m r.path) refl (get_bearer_token r.authorization) refl c h
    where
      go :
          (b : Bool)
          → should_validate m r.path ≡ b
          → (o : Option String) → get_bearer_token r.authorization ≡ o
          → (c : Option OAuth2Claims)
          → (if not b
              then (v, ok none)
              else elim o as (λ _. JwksValidator KeySet × Result Refusal (Option OAuth2Claims)) [
                | none ↦ (v, err unauthorized)
                | some token ↦
                    let (v', result) = validate_bearer_token str decode times m r token v in
                    (v', result >>= λ x. ok (some x))
              ]).1
            ≡ ok c
          → IsPassed decode times m r v c
      go false e o d none k = e
      go false e o d (some c') k = cc
      go true e none d c' k = cc
      go true e (some token) d none k = absent_claims _ k
      go true e (some token) d (some c') k =
          let got = (validate_bearer_token str decode times m r token v).1 in
          let (claims, good, admitted) =
            judge-ok m r.now (enforces_global_scope m r.path) _ c' (some-ok got c' k) in
          (
            token,
            claims,
            d,
            validate_token_claims-IsGenuine decode times token r.first r.second_fetch v claims good,
            admitted,
          )
