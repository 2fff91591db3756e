-- ===== src/Tests/HostTokens.antt =====
-- Host tokens, for src/asap/auth/agent_jwt.py. The digest of a key is its members in a row.
use Prim.Native.String.{◌++◌ as ◌<>◌}
use asap_protocol.Prelude.{
  String, Bool, true, false, some, none, if◌then◌else◌, [], ◌∷◌, Dict, lookup, ◌≡◌, refl, sym, ap,
  ◌∙◌, ok, Option, string_eq, ◌==◌, is_blank, prune, erase_all, keys_where,
}
use asap_protocol.Json.{
  pos, int_ltb, text, number, object, Fields, end, field, get_field, as_number,
}
use asap_protocol.Identity.Keys.{jwk_thumbprint_sha256}
use asap_protocol.Identity.Hosts.{Hosts, get_by_public_key}
use asap_protocol.Replay.Jti.{JtiReplayCache, check_and_record}
use asap_protocol.Auth.Verify.{verify_host_jwt, use_jti, is_text}
use asap_protocol.Auth.HostTokens.{IsSelfSigned, is_live, verify_host_jwt-IsSelfSigned}

abbrev digest : Dict String String → String
digest [] = ""
digest ((name, value) ∷ ms) = value <> "," <> digest ms

abbrev key : Fields
key = field "kty" (text "OKP") (field "crv" (text "Ed25519") (field "x" (text "hx") end))

abbrev claims : Fields
claims = field "host_public_key" (object key) (
    field "iss" (text "Ed25519,OKP,hx,")
      (field "jti" (text "j1") (field "exp" (number (pos 200)) end)))

abbrev known : Bool → Option (Fields × Fields)
known b = if b then some (field "typ" (text "host+jwt") end, claims) else none

abbrev unverified : String → Option (Fields × Fields)
unverified token = known (token == "jwt")

abbrev signed : Bool → Bool → Option Fields
signed fits b = if fits then (if b then some claims else none) else none

abbrev decode : Fields → String → Option Fields
decode k token = signed (is_text "hx" (get_field "x" k)) (token == "jwt")

one_payload :
    (k header payload cs : Fields) (token : String)
    → unverified token ≡ some (header, payload)
    → decode k token ≡ some cs
    → payload ≡ cs
one_payload k header payload cs token p q = go (is_text "hx" (get_field "x" k)) (token == "jwt") p q
  where
    second_of : Option (Fields × Fields) → Fields
    second_of none = end
    second_of (some (h, b)) = b

    fields_of : Option Fields → Fields
    fields_of none = end
    fields_of (some b) = b

    go : (fits b : Bool) → known b ≡ some (header, payload) → signed fits b ≡ some cs → payload ≡ cs
    go true true u v = sym (ap second_of u) ∙ ap fields_of v
    go true false u v = cc
    go false b u v = cc

-- no host is stored
abbrev nobody : Hosts
nobody = record { hosts = []; thumb_to_host_id = []; agents = [] }

abbrev cache : JtiReplayCache
cache = record { ttl = 90; max_size = 10; expiry_by_key = [] }

accepted :
    (verify_host_jwt digest as_number unverified decode 120 121 none true "jwt" nobody
      (some cache)).1
    ≡ ok (record { claims = claims; host = none })
unfolding verify_host_jwt get_field as_number int_ltb is_blank jwk_thumbprint_sha256 lookup
    check_and_record prune erase_all keys_where get_by_public_key
accepted = refl

verify_host_jwt-IsSelfSigned_example :
    (iss : String) × (jti : String) × IsSelfSigned digest as_number unverified decode 120 none "jwt"
      claims iss jti
    × ((use_jti 121 true iss jti (some cache)).1 ≡ true)
    × (none ≡ get_by_public_key iss nobody)
    × (is_live none ≡ true)
verify_host_jwt-IsSelfSigned_example =
    verify_host_jwt-IsSelfSigned digest as_number unverified decode one_payload 120 121 none true
      "jwt" nobody (some cache) (record { claims = claims; host = none }) accepted
