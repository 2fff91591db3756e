-- ===== src/OAuth/Refetch.antt =====
-- The key set that is fetched again, for `_validate_token_claims` of src/asap/auth/middleware.py.
use asap_protocol.Prelude.{
  ℕ, String, Bool, Option, none, some, if◌then◌else◌, string_eq, Result, ok, ◌≡◌, refl, sym, ◌∙◌,
  ◌⊎◌, inl, inr,
}
use asap_protocol.Json.{Fields}
use asap_protocol.OAuth.Keys.{
  JwksValidator, TokenError, claims_pass, validate_jwt, fetch_keys, retry_token,
  validate_token_claims,
}
use asap_protocol.OAuth.Genuine.{retry_token-again, fetch_keys-Agrees, claims_pass-Agrees}

module _ {KeySet : Type 0} (decode : KeySet → String → Option Fields)
    (validate_times : Fields → Bool) where
  -- A token that passes with the keys as they are downloaded anew is accepted whatever keys the
  -- first fetch gives, with its claims under those or under the new ones.
  pub validate_token_claims-again :
      (token : String) (first again : ℕ × Option KeySet) (v : JwksValidator KeySet)
      (held keys : KeySet) (claims : Fields)
      → (fetch_keys decode validate_times first.0 first.1 v).1 ≡ some held
      → again.1 ≡ some keys
      → validate_jwt decode validate_times v token keys ≡ some claims
      → (c : Fields) × ((validate_token_claims decode validate_times token first again v).1 ≡ ok c)
        × ((validate_jwt decode validate_times v token held ≡ some c) ⊎ (c ≡ claims))
  unfolding validate_token_claims validate_jwt
  validate_token_claims-again token (now, download) (later, again) v held keys claims h k good =
      rw (validate_token_claims, h) (judged (validate_jwt decode validate_times w token held) refl)
    where
      w : JwksValidator KeySet
      w = (fetch_keys decode validate_times now download v).0

      same :
          (ks : KeySet)
          → validate_jwt decode validate_times w token ks
            ≡ validate_jwt decode validate_times v token ks
      same ks = of_claims (decode ks token)
        where
          of_claims :
              (o : Option Fields)
              → (elim o as (λ _. Option Fields) [
                | none ↦ none
                | some c ↦ if claims_pass decode validate_times w c then some c else none
              ])
                ≡ (elim o as (λ _. Option Fields) [
                  | none ↦ none
                  | some c ↦ if claims_pass decode validate_times v c then some c else none
                ])
          of_claims none = refl
          of_claims (some c) =
              rw
                (claims_pass-Agrees decode validate_times v w c
                  (fetch_keys-Agrees decode validate_times now download v))
                refl

      judged :
          (o : Option Fields)
          → validate_jwt decode validate_times w token held ≡ o
          → (c : Fields) × ((elim o as (λ _. JwksValidator KeySet × Result TokenError Fields) [
            | none ↦ retry_token decode validate_times token later again w
            | some c' ↦ (w, ok c')
          ]).1
              ≡ ok c)
            × ((validate_jwt decode validate_times v token held ≡ some c) ⊎ (c ≡ claims))
      judged none e = (
        claims,
        retry_token-again decode validate_times token later again w ∙ rw (k, same keys ∙ good) refl,
        inr refl,
      )
      judged (some c) e = (c, refl, inl (sym (same held) ∙ e))
