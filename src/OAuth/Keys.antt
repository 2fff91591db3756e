-- ===== src/OAuth/Keys.antt =====
-- `JWKSValidator` of src/asap/auth/jwks.py and the retry of `_validate_token_claims` in
-- src/asap/auth/middleware.py. The key sets, their download, and the check of a signature are joserfc's and
-- httpx's: parameters here. The cache's lock is held for no await, and one request runs at a time.
use asap_protocol.Prelude.{
  ℕ, ◌+◌, ◌*◌, String, Bool, true, false, ◌&&◌, ◌||◌, not, Option, none, some, if◌then◌else◌, leb,
  List, [], ◌∷◌, ◌==◌, string_eq, contains, is_blank, Result, ok, err, second,
}
use asap_protocol.Json.{Value, text, array, Items, nil, cons, Fields, get_field}

-- `httpx.HTTPError` and `JoseError`
pub data TokenError : Type 0 where
  http_error jose_error : TokenError

pub record JwksValidator (KeySet : Type 0) : Type 0 where
  pub expected_issuer : Option String
  pub expected_audience : Option (List String)
  pub require_exp : Bool
  -- the cached key set, and when it expires
  pub keys_cache : Option (KeySet × ℕ)

abbrev pub jwks_cache_ttl : ℕ
jwks_cache_ttl = 86400 * second

-- `s.rstrip("/")`
unfoldable pub rstrip_slash : String → String
rstrip_slash String.[] = String.[]
rstrip_slash (String.◌∷◌ c s) =
    let rest = rstrip_slash s in
    if rest == "" && String.◌∷◌ c String.[] == "/" then String.[] else String.◌∷◌ c rest

-- the strings of a JSON list
unfoldable pub strings : Items → List String
strings nil = []
strings (cons (text s) rest) = s ∷ strings rest
strings (cons _ rest) = strings rest

-- any(a in expected for a in auds)
unfoldable pub any_in : List String → List String → Bool
any_in expected [] = false
any_in expected (a ∷ auds) =
    let rest = any_in expected auds in if contains a expected then true else rest

-- an expected audience that is one string is a list of it
unfoldable pub audience_matches_expected : Fields → List String → Bool
unfolding any_in strings
audience_matches_expected claims expected = elim (get_field "aud" claims) [
  | some (text aud) ↦ any_in expected (aud ∷ [])
  | some (array auds) ↦ any_in expected (strings auds)
  | _ ↦ false
]

unfoldable pub issuer_matches_expected : Fields → String → Bool
unfolding rstrip_slash
issuer_matches_expected claims expected = elim (get_field "iss" claims) [
  | some (text iss) ↦ if is_blank iss then false else rstrip_slash iss == rstrip_slash expected
  | _ ↦ false
]

-- `x is not None and not p(x)` of a check that raises
abbrev pub meets : {A : Type 0} → (A → Bool) → Option A → Bool
meets p none = true
meets p (some a) = p a

-- `"exp" in claims`
abbrev pub is_there : Option Value → Bool
is_there none = false
is_there (some v) = true

module _ {KeySet : Type 0} (decode : KeySet → String → Option Fields)
    (validate_times : Fields → Bool) where
  -- what `validate_jwt` asks of the claims of a token whose signature is good
  unfoldable pub claims_pass : JwksValidator KeySet → Fields → Bool
  unfolding issuer_matches_expected audience_matches_expected
  claims_pass v claims =
      (not v.require_exp || is_there (get_field "exp" claims) && validate_times claims)
      && meets (issuer_matches_expected claims) v.expected_issuer
      && meets (audience_matches_expected claims) v.expected_audience

  -- none where it raises a `JoseError`
  unfoldable pub validate_jwt : JwksValidator KeySet → String → KeySet → Option Fields
  unfolding claims_pass
  validate_jwt v token keys = elim (decode keys token) [
    | none ↦ none
    | some claims ↦ if claims_pass v claims then some claims else none
  ]

  -- the download of `fetch_keys`, which gives none where it raises
  unfoldable pub store_keys :
      ℕ → Option KeySet → JwksValidator KeySet → JwksValidator KeySet × Option KeySet
  store_keys now none v = (v, none)
  store_keys now (some keys) v =
      (record v { keys_cache = some (keys, now + jwks_cache_ttl) }, some keys)

  -- `fetch_keys`, for the validator's own URI
  unfoldable pub fetch_keys :
      ℕ → Option KeySet → JwksValidator KeySet → JwksValidator KeySet × Option KeySet
  unfolding store_keys
  fetch_keys now download v = elim v.keys_cache [
    | none ↦ store_keys now download v
    | some (keys, expires_at) ↦
        if leb expires_at now then store_keys now download v else (v, some keys)
  ]

  unfoldable pub invalidate_cache : JwksValidator KeySet → JwksValidator KeySet
  invalidate_cache v = record v { keys_cache = none }

  -- the second fetch and check, after a `JoseError`
  unfoldable pub retry_token :
      String
      → ℕ
      → Option KeySet
      → JwksValidator KeySet
      → JwksValidator KeySet × Result TokenError Fields
  unfolding fetch_keys invalidate_cache validate_jwt
  retry_token token now download v =
      let (v', keys) = fetch_keys now download (invalidate_cache v) in
      (
        v',
        elim keys [
          | none ↦ err http_error
          | some ks ↦ elim (validate_jwt v' token ks) [
            | none ↦ err jose_error
            | some claims ↦ ok claims
          ]
        ],
      )

  -- `_validate_token_claims`, with the time and the download of each of its two fetches
  unfoldable pub validate_token_claims :
      String
      → ℕ × Option KeySet
      → ℕ × Option KeySet
      → JwksValidator KeySet
      → JwksValidator KeySet × Result TokenError Fields
  unfolding fetch_keys validate_jwt retry_token
  validate_token_claims token (now, download) (later, again) v =
      let (v', keys) = fetch_keys now download v in
      elim keys [
        | none ↦ (v', err http_error)
        | some ks ↦ elim (validate_jwt v' token ks) [
          | none ↦ retry_token token later again v'
          | some claims ↦ (v', ok claims)
        ]
      ]
