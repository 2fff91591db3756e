-- ===== src/Auth/HostTokens.antt =====
-- What an accepted host token shows, for `verify_host_jwt` of src/asap/auth/agent_jwt.py.
use asap_protocol.Prelude.{
  ℕ, String, Bool, true, false, not, Option, none, some, if◌then◌else◌, List, Dict, string_eq,
  Result, ok, err, raise_if, bind-ok, raise_if-ok, ◌≡◌, refl, sym, ap, ◌∙◌, subst, Bool-cases, inl,
  inr,
}
use asap_protocol.Json.{ℤ, Value, Fields, get_field}
use asap_protocol.Identity.Keys.{jwk_thumbprint_sha256}
use asap_protocol.Identity.Hosts.{Hosts, HostIdentity, get_by_public_key, is_revoked_host}
use asap_protocol.Replay.Jti.{JtiReplayCache}
use asap_protocol.Auth.Claims.{
  VerifyError, invalid_structure, invalid_typ, missing_host_key, invalid_jwt, wrong_issuer,
  jti_replay, host_revoked, raised, jwk_of, validate_standard_claims,
}
use asap_protocol.Auth.Verify.{
  VerifiedHost, is_text, object_of, require, use_jti, host_claims, resolve_host, verify_host_jwt,
}
use asap_protocol.Auth.Authentic.{require-ok, ok_inj, negated}

-- a stored host that is not revoked, or none
abbrev pub is_live : Option HostIdentity → Bool
is_live none = true
is_live (some host) = not (is_revoked_host host.status)

abbrev answer : Fields → HostIdentity → Result VerifyError VerifiedHost
answer claims host =
    if is_revoked_host host.status
    then err host_revoked
    else ok (record { claims = claims; host = some host })

live_answer :
    (claims : Fields) (host : HostIdentity)
    → is_revoked_host host.status ≡ false
    → answer claims host ≡ ok (record { claims = claims; host = some host })
live_answer claims host live = rw live refl

dead_answer :
    (claims : Fields) (host : HostIdentity)
    → is_revoked_host host.status ≡ true
    → answer claims host ≡ err host_revoked
dead_answer claims host dead = rw dead refl

module _ (digest : Dict String String → String) (float : Value → Option ℤ)
    (unverified : String → Option (Fields × Fields))
    (decode : Fields → String → Option Fields) where
  -- The token is signed with a key whose thumbprint is its issuer, and its claims are sound.
  pub record IsSelfSigned (now : ℕ) (audience : Option (List String)) (token : String)
      (claims : Fields) (iss jti : String) : Type 0 where
    pub key : Fields
    pub signed : decode key token ≡ some claims
    pub standard : validate_standard_claims float claims now audience ≡ ok jti
    pub print : jwk_thumbprint_sha256 digest (jwk_of key) ≡ some iss
    pub issuer : is_text iss (get_field "iss" claims) ≡ true

  decode_at : String → Option Fields → Option Fields
  decode_at token none = none
  decode_at token (some key) = decode key token

  host_claims-IsSelfSigned :
      ((key header payload claims : Fields) (token : String)
        → unverified token ≡ some (header, payload)
        → decode key token ≡ some claims
        → payload ≡ claims)
      → (now : ℕ) (audience : Option (List String)) (token : String) (v : Fields × String × String)
      → host_claims digest float unverified decode now audience token ≡ ok v
      → IsSelfSigned now audience token v.0 v.1 v.2
  unfolding host_claims decode_at
  host_claims-IsSelfSigned one_payload now audience token v h =
      let (parts, e1, h1) = bind-ok (require (unverified token) invalid_structure) _ v h in
      let (_, _, h2) =
        bind-ok (raise_if (not (is_text "host+jwt" (get_field "typ" parts.0))) invalid_typ) _ v
          h1 in
      let (unsigned_key, e3, h3) =
        bind-ok (require (object_of (get_field "host_public_key" parts.1)) missing_host_key) _ v
          h2 in
      let (claims, e4, h4) = bind-ok (require (decode unsigned_key token) invalid_jwt) _ v h3 in
      let (jti, e5, h5) = bind-ok (validate_standard_claims float claims now audience) _ v h4 in
      let (key, e6, h6) =
        bind-ok (require (object_of (get_field "host_public_key" claims)) missing_host_key) _ v
          h5 in
      let (iss, e7, h7) =
        bind-ok (require (jwk_thumbprint_sha256 digest (jwk_of key)) raised) _ v h6 in
      let (u8, e8, h8) =
        bind-ok (raise_if (not (is_text iss (get_field "iss" claims))) wrong_issuer) _ v h7 in
      let signed = require-ok (decode unsigned_key token) invalid_jwt claims e4 in
      let payload =
        one_payload unsigned_key parts.0 parts.1 claims token
          (require-ok (unverified token) invalid_structure parts e1) signed in
      let one_key : some unsigned_key ≡ some key =
        sym (
          require-ok (object_of (get_field "host_public_key" parts.1)) missing_host_key unsigned_key
            e3)
        ∙ ap (λ p. object_of (get_field "host_public_key" p)) payload
        ∙ require-ok (object_of (get_field "host_public_key" claims)) missing_host_key key e6 in
      subst (λ w. IsSelfSigned now audience token w.0 w.1 w.2) (ok_inj h8)
        (record {
          key = key;
          signed = ap (decode_at token) (sym one_key) ∙ signed;
          standard = e5;
          print = require-ok (jwk_thumbprint_sha256 digest (jwk_of key)) raised iss e7;
          issuer =
              negated (raise_if-ok (not (is_text iss (get_field "iss" claims))) wrong_issuer u8 e8);
        })

  after_err :
      (now recorded_at : ℕ) (audience : Option (List String)) (record_jti : Bool) (token : String)
      (hosts : Hosts) (cache : Option JtiReplayCache) (e : VerifyError)
      → host_claims digest float unverified decode now audience token ≡ err e
      → (verify_host_jwt digest float unverified decode now recorded_at audience record_jti token
          hosts cache).1
        ≡ err e
  unfolding verify_host_jwt
  after_err now recorded_at audience record_jti token hosts cache e p = rw (p, verify_host_jwt) refl

  after_ok :
      (now recorded_at : ℕ) (audience : Option (List String)) (record_jti : Bool) (token : String)
      (hosts : Hosts) (cache : Option JtiReplayCache) (claims : Fields) (iss jti : String)
      → host_claims digest float unverified decode now audience token ≡ ok (claims, iss, jti)
      → (verify_host_jwt digest float unverified decode now recorded_at audience record_jti token
          hosts cache).1
        ≡ (if (use_jti recorded_at record_jti iss jti cache).1
            then resolve_host digest float unverified decode hosts claims iss
            else err jti_replay)
  unfolding verify_host_jwt
  after_ok now recorded_at audience record_jti token hosts cache claims iss jti p =
      rw (p, verify_host_jwt) refl

  resolved :
      (hosts : Hosts) (claims : Fields) (iss : String) (v : VerifiedHost) (fresh : Bool)
      → (if fresh
          then resolve_host digest float unverified decode hosts claims iss
          else err jti_replay)
        ≡ ok v
      → (fresh ≡ true)
        × (v.claims ≡ claims)
        × (v.host ≡ get_by_public_key iss hosts)
        × (is_live v.host ≡ true)
  unfolding resolve_host
  resolved hosts claims iss v false k = cc
  resolved hosts claims iss v true k = go (get_by_public_key iss hosts) refl k
    where
      go :
          (o : Option HostIdentity)
          → get_by_public_key iss hosts ≡ o
          → (elim o [
            | none ↦ ok (record { claims = claims; host = none })
            | some host ↦ answer claims host
          ])
            ≡ ok v
          → (true ≡ true)
            × (v.claims ≡ claims)
            × (v.host ≡ get_by_public_key iss hosts)
            × (is_live v.host ≡ true)
      go none p k =
          let same = ok_inj k in
          (
            refl,
            ap (λ w. w.claims) (sym same),
            ap (λ w. w.host) (sym same) ∙ sym p,
            ap (λ w. is_live w.host) (sym same),
          )
      go (some host) p k = elim (Bool-cases (is_revoked_host host.status)) [
        | inl dead ↦ let wrong = sym k ∙ dead_answer claims host dead in cc
        | inr live ↦
            let same = ok_inj (sym (live_answer claims host live) ∙ k) in
            (
              refl,
              ap (λ w. w.claims) (sym same),
              ap (λ w. w.host) (sym same) ∙ sym p,
              ap (λ w. is_live w.host) (sym same) ∙ rw live refl,
            )
      ]

  -- An accepted host token is signed with a key whose thumbprint is its issuer, holds sound claims and a
  -- `jti` that the cache did not refuse, and the host that is stored under the issuer, if there is one, is
  -- the one returned and is not revoked. The payload that joserfc reads unverified is the one it verifies.
  pub verify_host_jwt-IsSelfSigned :
      ((key header payload claims : Fields) (token : String)
        → unverified token ≡ some (header, payload)
        → decode key token ≡ some claims
        → payload ≡ claims)
      → (now recorded_at : ℕ) (audience : Option (List String)) (record_jti : Bool) (token : String)
        (hosts : Hosts) (cache : Option JtiReplayCache) (v : VerifiedHost)
      → (verify_host_jwt digest float unverified decode now recorded_at audience record_jti token
          hosts cache).1
        ≡ ok v
      → (iss : String) × (jti : String) × IsSelfSigned now audience token v.claims iss jti
        × ((use_jti recorded_at record_jti iss jti cache).1 ≡ true)
        × (v.host ≡ get_by_public_key iss hosts)
        × (is_live v.host ≡ true)
  verify_host_jwt-IsSelfSigned one_payload now recorded_at audience record_jti token hosts cache v
        h =
      go (host_claims digest float unverified decode now audience token) refl
    where
      go :
          (r : Result VerifyError (Fields × String × String))
          → host_claims digest float unverified decode now audience token ≡ r
          → (iss : String) × (jti : String) × IsSelfSigned now audience token v.claims iss jti
            × ((use_jti recorded_at record_jti iss jti cache).1 ≡ true)
            × (v.host ≡ get_by_public_key iss hosts)
            × (is_live v.host ≡ true)
      go (err e) p =
          let wrong = sym h ∙ after_err now recorded_at audience record_jti token hosts cache e p in
          cc
      go (ok (claims, iss, jti)) p =
          let k =
            sym (after_ok now recorded_at audience record_jti token hosts cache claims iss jti p)
            ∙ h in
          let (fresh, same, found, live) =
            resolved hosts claims iss v (use_jti recorded_at record_jti iss jti cache).1 k in
          (
            iss,
            jti,
            subst (λ c. IsSelfSigned now audience token c iss jti) (sym same)
                (host_claims-IsSelfSigned one_payload now audience token (claims, iss, jti) p),
            fresh,
            found,
            live,
          )
