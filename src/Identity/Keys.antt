-- ===== src/Identity/Keys.antt =====
-- `jwk_thumbprint_sha256` of src/asap/auth/identity.py. A JWK is a dict of strings; `digest` is the
-- library's canonical JSON, SHA-256 and base64url, of the required members in their order.
use asap_protocol.Prelude.{
  String, Option, none, some, if◌then◌else◌, List, [], ◌∷◌, Dict, lookup, ◌==◌, string_eq,
}

abbrev pub Jwk : Type 0
Jwk = Dict String String

-- `{k: public_key[k] for k in names}`, with none for a `KeyError`
unfoldable pub members : List String → Jwk → Option (Dict String String)
members [] key = some []
members (name ∷ names) key = elim (lookup name key) [
  | none ↦ none
  | some value ↦ elim (members names key) [ none ↦ none | some rest ↦ some ((name, value) ∷ rest) ]
]

-- the required members of a key type, sorted by name
unfoldable pub required_names : String → Option (List String)
required_names kty =
    if kty == "OKP"
    then some ("crv" ∷ "kty" ∷ "x" ∷ [])
    else if kty == "EC"
    then some ("crv" ∷ "kty" ∷ "x" ∷ "y" ∷ [])
    else if kty == "RSA"
    then some ("e" ∷ "kty" ∷ "n" ∷ [])
    else if kty == "oct"
    then some ("k" ∷ "kty" ∷ [])
    else none

-- none where the code raises `KeyError` or `ValueError`
unfoldable pub jwk_thumbprint_sha256 : (Dict String String → String) → Jwk → Option String
unfolding members required_names
jwk_thumbprint_sha256 digest key = elim (lookup "kty" key) [
  | none ↦ none
  | some kty ↦ elim (required_names kty) [
    | none ↦ none
    | some names ↦ elim (members names key) [ none ↦ none | some ms ↦ some (digest ms) ]
  ]
]
