-- ===== src/Tests/Tokens.antt =====
-- Agent tokens, for src/asap/auth/agent_jwt.py. The digest of a key is its members in a row, and the key
-- "old" signs.
use Prim.Native.String.{◌++◌ as ◌<>◌}
use asap_protocol.Prelude.{
  String, true, some, none, if◌then◌else◌, [], ◌∷◌, Dict, lookup, insert, ◌≡◌, ◌≢◌, refl, ok,
  Option, string_eq, ◌==◌, arith, is_blank, prune, erase_all, keys_where,
}
use asap_protocol.Json.{pos, int_ltb, text, number, Fields, end, field, get_field, as_number}
use asap_protocol.Identity.Keys.{Jwk, jwk_thumbprint_sha256}
use asap_protocol.Identity.Sessions.{
  AgentSession, AgentMode, AgentSessionStatus, check_agent_expiry,
}
use asap_protocol.Identity.Agents.{Store, same_thumbprint, touch_if_current}
use asap_protocol.Identity.Revocation.{saving, run}
use asap_protocol.Identity.Hosts.{Hosts, HostIdentity, HostStatus, get_by_public_key, revoke_host}
use asap_protocol.Replay.Jti.{JtiReplayCache, check_and_record}
use asap_protocol.Replay.Jti.Uses.{use_all}
use asap_protocol.Auth.Claims.{text_of}
use asap_protocol.Auth.Slide.{Clock}
use asap_protocol.Auth.Verify.{VerifiedAgent, verify_agent_jwt, is_text}
use asap_protocol.Auth.Authentic.{IsAuthentic}
use asap_protocol.Auth.Guarantees.{
  verify_agent_jwt-IsAuthentic, revoke_host-refuses, verify_agent_jwt-once,
}

abbrev digest : Dict String String → String
digest [] = ""
digest ((name, value) ∷ ms) = value <> "," <> digest ms

abbrev key_of : String → Jwk
key_of x = ("kty", "OKP") ∷ ("crv", "Ed25519") ∷ ("x", x) ∷ []

abbrev agent : AgentSession
agent = record {
  agent_id = "a1";
  host_id = "h1";
  public_key = key_of "old";
  mode = AgentMode.delegated;
  status = AgentSessionStatus.active;
  session_ttl = some 60;
  max_lifetime = none;
  absolute_lifetime = some 1000;
  activated_at = some 100;
  last_used_at = some 100;
  created_at = 100;
}

abbrev agents : Store
agents = ("a1", agent) ∷ []

abbrev host : HostIdentity
host = record {
  host_id = "h1";
  name = none;
  public_key = key_of "h";
  user_id = none;
  default_capabilities = [];
  status = HostStatus.active;
  created_at = 1;
  updated_at = 1;
}

abbrev hosts : Hosts
hosts = record { hosts = ("h1", host) ∷ []; thumb_to_host_id = ("tp", "h1") ∷ []; agents = agents }

abbrev header : Fields
header = field "typ" (text "agent+jwt") end

abbrev claims : Fields
claims =
    field "sub" (text "a1")
      (field "iss" (text "tp") (field "jti" (text "j1") (field "exp" (number (pos 200)) end)))

abbrev unverified : String → Option (Fields × Fields)
unverified token = if token == "jwt" then some (header, claims) else none

abbrev decode : Fields → String → Option Fields
decode key token =
    if is_text "old" (get_field "x" key)
    then (if token == "jwt" then some claims else none)
    else none

abbrev clock : Clock
clock = record {
  claims_at = 120;
  recorded_at = 121;
  checked_at = 122;
  reread_at = 123;
  used_at = 124;
  touched_at = 125;
}

abbrev again : Clock
again = record {
  claims_at = 130;
  recorded_at = 131;
  checked_at = 132;
  reread_at = 133;
  used_at = 134;
  touched_at = 135;
}

abbrev cache : JtiReplayCache
cache = record { ttl = 90; max_size = 10; expiry_by_key = [] }

abbrev verified : VerifiedAgent
verified = record {
  claims = claims;
  host = host;
  agent = record agent { last_used_at = some 124 };
  jti = "j1";
}

accepted :
    (verify_agent_jwt digest as_number unverified decode clock none "jwt" hosts agents agents
      (some cache)).2
    ≡ ok verified
unfolding verify_agent_jwt get_field is_blank lookup as_number int_ltb get_by_public_key
    check_and_record prune erase_all keys_where jwk_thumbprint_sha256 touch_if_current
accepted = refl

verify_agent_jwt-IsAuthentic_example :
    (v : VerifiedAgent) × (current : AgentSession) × (verified
      ≡ record v { agent = record current { last_used_at = some 124 } })
    × IsAuthentic digest as_number unverified decode 120 none "jwt" hosts agents v
    × (lookup v.agent.agent_id agents ≡ some current)
    × (current.status ≡ AgentSessionStatus.active)
    × (current.host_id ≡ v.agent.host_id)
    × (same_thumbprint digest v.agent.public_key current.public_key ≡ true)
    × (check_agent_expiry 125 current ≡ AgentSessionStatus.active)
verify_agent_jwt-IsAuthentic_example =
    verify_agent_jwt-IsAuthentic digest as_number unverified decode clock none "jwt" hosts agents
      agents (some cache) verified accepted

revoke_host-refuses_example :
    (verify_agent_jwt digest as_number unverified decode clock none "jwt" hosts
      (run digest (saving agent none ∷ []) (revoke_host 110 "h1" hosts).agents)
      agents
      (some cache)).2
    ≢ ok verified
unfolding lookup get_field text_of is_blank
revoke_host-refuses_example =
    revoke_host-refuses digest as_number unverified decode 110 "h1" "a1" hosts host agent
      (saving agent none ∷ []) clock none "jwt" header claims hosts agents (some cache) verified
      ((refl, tt), (refl, tt)) refl refl refl refl refl refl

abbrev recorded : JtiReplayCache
recorded = record cache { expiry_by_key = (("a1", "j1"), 211) ∷ [] }

verify_agent_jwt-once_example :
    (verify_agent_jwt digest as_number unverified decode again none "jwt" hosts agents agents
      (some (use_all (record { at_time = 126; partition = "a2"; jti = "j9" } ∷ []) recorded))).2
    ≢ ok verified
unfolding verify_agent_jwt lookup get_field is_blank as_number int_ltb get_by_public_key
    check_and_record prune erase_all keys_where insert
verify_agent_jwt-once_example =
    verify_agent_jwt-once digest as_number unverified decode clock again none "jwt" "jwt" hosts
      hosts agents agents agents agents cache recorded
      (record { at_time = 126; partition = "a2"; jti = "j9" } ∷ []) verified verified
      ((refl, tt), (refl, tt)) ((refl, tt), (refl, tt)) tt (omega arith) (omega arith)
      (omega arith, tt) accepted refl refl refl
