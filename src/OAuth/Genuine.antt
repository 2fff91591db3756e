-- ===== src/OAuth/Genuine.antt =====
-- Whose claims `_validate_token_claims` of src/asap/auth/middleware.py returns, over the key sets of
-- src/asap/auth/jwks.py.
use asap_protocol.Prelude.{
  ℕ, String, Bool, true, false, Option, none, some, if◌then◌else◌, leb, string_eq, Result, ok, err,
  ◌≡◌, refl, sym, ◌∙◌, ap, ◌⊎◌, inl, inr, Bool-cases, some_inj, if-some,
}
use asap_protocol.Json.{Fields}
use asap_protocol.OAuth.Keys.{
  JwksValidator, TokenError, http_error, jose_error, claims_pass, validate_jwt, store_keys,
  fetch_keys, invalidate_cache, retry_token, validate_token_claims,
}

module _ {KeySet : Type 0} (decode : KeySet → String → Option Fields)
    (validate_times : Fields → Bool) where
  -- A key set that the validator holds at a time.
  abbrev pub IsHeld : JwksValidator KeySet → ℕ → KeySet → Type 0
  IsHeld v now keys = (t : ℕ) × (v.keys_cache ≡ some (keys, t)) × (leb t now ≡ false)

  -- The claims are those of the token, as signed by a key set that was held or is downloaded, and pass the
  -- checks of the validator.
  pub record IsGenuine (v : JwksValidator KeySet) (first again : ℕ × Option KeySet) (token : String)
      (claims : Fields) : Type 0 where
    pub keys : KeySet
    pub source : IsHeld v first.0 keys ⊎ ((first.1 ≡ some keys) ⊎ (again.1 ≡ some keys))
    pub signed : decode keys token ≡ some claims
    pub passed : claims_pass decode validate_times v claims ≡ true

  validate_jwt-some :
      (v : JwksValidator KeySet) (token : String) (keys : KeySet) (claims : Fields)
      → validate_jwt decode validate_times v token keys ≡ some claims
      → (decode keys token ≡ some claims) × (claims_pass decode validate_times v claims ≡ true)
  unfolding validate_jwt
  validate_jwt-some v token keys claims h =
      if-some (claims_pass decode validate_times v) (decode keys token) claims h

  fetch_keys-source :
      (now : ℕ) (download : Option KeySet) (v : JwksValidator KeySet) (keys : KeySet)
      → (fetch_keys decode validate_times now download v).1 ≡ some keys
      → IsHeld v now keys ⊎ (download ≡ some keys)
  unfolding fetch_keys store_keys
  fetch_keys-source now download v keys h = cached v.keys_cache refl h
    where
      stored :
          (o : Option KeySet)
          → (store_keys decode validate_times now o v).1 ≡ some keys
          → o ≡ some keys
      stored none k = cc
      stored (some ks) k = k

      cached :
          (o : Option (KeySet × ℕ))
          → v.keys_cache ≡ o
          → (elim o as (λ _. JwksValidator KeySet × Option KeySet) [
            | none ↦ store_keys decode validate_times now download v
            | some (ks, t) ↦
                if leb t now then store_keys decode validate_times now download v else (v, some ks)
          ]).1
            ≡ some keys
          → IsHeld v now keys ⊎ (download ≡ some keys)
      cached none e k = inr (stored download k)
      cached (some (ks, t)) e k = held (leb t now) refl k
        where
          held :
              (b : Bool)
              → leb t now ≡ b
              → (if b then store_keys decode validate_times now download v else (v, some ks)).1
                ≡ some keys
              → IsHeld v now keys ⊎ (download ≡ some keys)
          held true d k' = inr (stored download k')
          held false d k' = inl (t, e ∙ ap (λ x. some (x, t)) (some_inj k'), d)

  -- What the validator expects of claims is left as it is.
  abbrev pub Agrees : JwksValidator KeySet → JwksValidator KeySet → Type 0
  Agrees v w =
      (w.expected_issuer ≡ v.expected_issuer)
      × (w.expected_audience ≡ v.expected_audience)
      × (w.require_exp ≡ v.require_exp)

  pub fetch_keys-Agrees :
      (now : ℕ) (download : Option KeySet) (v : JwksValidator KeySet)
      → Agrees v (fetch_keys decode validate_times now download v).0
  unfolding fetch_keys store_keys
  fetch_keys-Agrees now download v = cached v.keys_cache (stored download)
    where
      stored : (o : Option KeySet) → Agrees v (store_keys decode validate_times now o v).0
      stored none = (refl, refl, refl)
      stored (some ks) = (refl, refl, refl)

      cached :
          (o : Option (KeySet × ℕ))
          → Agrees v (store_keys decode validate_times now download v).0
          → Agrees v
              (elim o as (λ _. JwksValidator KeySet × Option KeySet) [
                | none ↦ store_keys decode validate_times now download v
                | some (ks, t) ↦
                    if leb t now
                    then store_keys decode validate_times now download v
                    else (v, some ks)
              ]).0
      cached none k = k
      cached (some (ks, t)) k = elim (Bool-cases (leb t now)) [
        | inl late ↦ rw late k
        | inr early ↦ rw early (refl, refl, refl)
      ]

  pub claims_pass-Agrees :
      (v w : JwksValidator KeySet) (claims : Fields)
      → Agrees v w
      → claims_pass decode validate_times w claims ≡ claims_pass decode validate_times v claims
  unfolding claims_pass
  claims_pass-Agrees v w claims (e0, e1, e2) = rw (e0, e1, e2) refl

  -- the fetch after the invalidation always downloads
  pub retry_token-again :
      (token : String) (later : ℕ) (again : Option KeySet) (v : JwksValidator KeySet)
      → (retry_token decode validate_times token later again v).1
        ≡ (elim again as (λ _. Result TokenError Fields) [
          | none ↦ err http_error
          | some ks ↦ elim (validate_jwt decode validate_times v token ks) [
            | none ↦ err jose_error
            | some claims ↦ ok claims
          ]
        ])
  unfolding retry_token fetch_keys store_keys invalidate_cache validate_jwt claims_pass
  retry_token-again token later none v = refl
  retry_token-again token later (some ks) v = refl

  retry_token-source :
      (token : String) (later : ℕ) (again : Option KeySet) (v : JwksValidator KeySet)
      (claims : Fields)
      → (retry_token decode validate_times token later again v).1 ≡ ok claims
      → (keys : KeySet) × (again ≡ some keys)
        × (validate_jwt decode validate_times v token keys ≡ some claims)
  retry_token-source token later again v claims h =
      from again (sym (retry_token-again token later again v) ∙ h)
    where
      judged :
          (o : Option Fields)
          → (elim o as (λ _. Result TokenError Fields) [ none ↦ err jose_error | some c ↦ ok c ])
            ≡ ok claims
          → o ≡ some claims
      judged none k = cc
      judged (some c) k = cc

      from :
          (o : Option KeySet)
          → (elim o as (λ _. Result TokenError Fields) [
            | none ↦ err http_error
            | some ks ↦ elim (validate_jwt decode validate_times v token ks) [
              | none ↦ err jose_error
              | some c ↦ ok c
            ]
          ])
            ≡ ok claims
          → (keys : KeySet) × (o ≡ some keys)
            × (validate_jwt decode validate_times v token keys ≡ some claims)
      from none k = cc
      from (some ks) k = (ks, refl, judged (validate_jwt decode validate_times v token ks) k)

  pub validate_token_claims-IsGenuine :
      (token : String) (first again : ℕ × Option KeySet) (v : JwksValidator KeySet)
      (claims : Fields)
      → (validate_token_claims decode validate_times token first again v).1 ≡ ok claims
      → IsGenuine v first again token claims
  unfolding validate_token_claims
  validate_token_claims-IsGenuine token (now, download) (later, again) v claims h =
      fetched (fetch_keys decode validate_times now download v).1 refl h
    where
      w : JwksValidator KeySet
      w = (fetch_keys decode validate_times now download v).0

      same : claims_pass decode validate_times w claims ≡ claims_pass decode validate_times v claims
      same = claims_pass-Agrees v w claims (fetch_keys-Agrees now download v)

      genuine :
          (keys : KeySet)
          → IsHeld v now keys ⊎ ((download ≡ some keys) ⊎ (again ≡ some keys))
          → validate_jwt decode validate_times w token keys ≡ some claims
          → IsGenuine v (now, download) (later, again) token claims
      genuine keys from k =
          let (signed, passed) = validate_jwt-some w token keys claims k in
          record { keys = keys; source = from; signed = signed; passed = sym same ∙ passed }

      judged :
          (keys : KeySet) (o : Option Fields)
          → (fetch_keys decode validate_times now download v).1 ≡ some keys
          → validate_jwt decode validate_times w token keys ≡ o
          → (elim o as (λ _. JwksValidator KeySet × Result TokenError Fields) [
            | none ↦ retry_token decode validate_times token later again w
            | some c ↦ (w, ok c)
          ]).1
            ≡ ok claims
          → IsGenuine v (now, download) (later, again) token claims
      judged keys none e d k =
          let (keys', there, good) = retry_token-source token later again w claims k in
          genuine keys' (inr (inr there)) good
      judged keys (some c) e d k = elim (fetch_keys-source now download v keys e) [
        | inl held ↦ genuine keys (inl held) cc
        | inr loaded ↦ genuine keys (inr (inl loaded)) cc
      ]

      fetched :
          (o : Option KeySet)
          → (fetch_keys decode validate_times now download v).1 ≡ o
          → (elim o as (λ _. JwksValidator KeySet × Result TokenError Fields) [
            | none ↦ (w, err http_error)
            | some ks ↦ elim (validate_jwt decode validate_times w token ks) [
              | none ↦ retry_token decode validate_times token later again w
              | some c ↦ (w, ok c)
            ]
          ]).1
            ≡ ok claims
          → IsGenuine v (now, download) (later, again) token claims
      fetched none e k = cc
      fetched (some ks) e k = judged ks (validate_jwt decode validate_times w token ks) e refl k
