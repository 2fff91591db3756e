-- ===== src/Tests/Identities.antt =====
-- Agents of two hosts, for src/asap/auth/identity.py. The digest of a key here is its members in a row.
use Prim.Native.String.{◌++◌ as ◌<>◌}
use asap_protocol.Prelude.{
  String, true, some, none, List, [], ◌∷◌, Dict, lookup, insert, erase, ◌≡◌, refl, string_eq,
}
use asap_protocol.Identity.Keys.{Jwk, jwk_thumbprint_sha256}
use asap_protocol.Identity.Sessions.{AgentSession, AgentMode, active, revoked}
use asap_protocol.Identity.Agents.{Store}
use asap_protocol.Identity.Revocation.{touching, run, is_dead, revoked_stays}
use asap_protocol.Identity.Hosts.{
  HostIdentity, HostStatus, save_host, revoke_host, get_by_public_key,
}
use asap_protocol.Identity.Found.{HostOp, saving, revoking, after, apply, no_hosts}
use asap_protocol.Identity.Revocation

abbrev digest : Dict String String → String
digest [] = ""
digest ((name, value) ∷ ms) = value <> "," <> digest ms

abbrev key_of : String → Jwk
key_of x = ("kty", "OKP") ∷ ("crv", "Ed25519") ∷ ("x", x) ∷ []

abbrev agent : AgentSession
agent = record {
  agent_id = "a1";
  host_id = "h1";
  public_key = key_of "old";
  mode = AgentMode.delegated;
  status = active;
  session_ttl = some 60;
  max_lifetime = none;
  absolute_lifetime = some 1000;
  activated_at = some 100;
  last_used_at = some 100;
  created_at = 100;
}

abbrev rotated : AgentSession
rotated = record agent { public_key = key_of "new" }

abbrev ended : AgentSession
ended = record agent { status = revoked }

abbrev rotated_store : Store
rotated_store = ("a1", rotated) ∷ []

abbrev store : Store
store = ("a1", agent) ∷ []

revoked_stays_example :
    is_dead (
      lookup "a1" (
        run digest
          (Revocation.saving agent none ∷ touching 120 "a1" (key_of "old") 120 "h1" ∷ [])
          (("a1", ended) ∷ [])))
    ≡ true
unfolding lookup
revoked_stays_example =
    revoked_stays digest
      (Revocation.saving agent none ∷ touching 120 "a1" (key_of "old") 120 "h1" ∷ []) "a1"
      (("a1", ended) ∷ []) refl

abbrev host : HostIdentity
host = record {
  host_id = "h1";
  name = none;
  public_key = key_of "h-old";
  user_id = none;
  default_capabilities = [];
  status = HostStatus.active;
  created_at = 1;
  updated_at = 1;
}

abbrev new_host : HostIdentity
new_host = record host { public_key = key_of "h-new" }

abbrev host_ops : List HostOp
host_ops = saving host ∷ saving new_host ∷ revoking 5 "h1" ∷ []

abbrev gone : HostIdentity
gone = record new_host { status = HostStatus.revoked; updated_at = 5 }

abbrev back : HostIdentity
back = record host { public_key = key_of "h-third" }

-- the replaced key finds no host
old_key_finds_none :
    get_by_public_key "Ed25519,OKP,h-old," (after digest host_ops (no_hosts store)) ≡ none
unfolding after apply save_host get_by_public_key revoke_host lookup insert erase
    jwk_thumbprint_sha256
old_key_finds_none = refl
