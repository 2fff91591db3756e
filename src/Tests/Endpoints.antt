-- ===== src/Tests/Endpoints.antt =====
-- The agent identity endpoints, for src/asap/transport/agent_routes.py. The thumbprint of a key is its members
-- in a row.
use Prim.Native.String.{◌++◌ as ◌<>◌}
use asap_protocol.Prelude.{
  String, Bool, true, ◌&&◌, none, some, if◌then◌else◌, [], ◌∷◌, ◌≡◌, ◌↔◌, refl, ok, string_eq,
  lookup, insert, Dict, arith,
}
use asap_protocol.Json.{text, Fields, field, end, get_field, as_number}
use asap_protocol.Identity.Keys.{Jwk, jwk_thumbprint_sha256}
use asap_protocol.Identity.Sessions.{AgentSession, AgentMode, AgentSessionStatus}
use asap_protocol.Identity.Agents.{Store}
use asap_protocol.Identity.Revocation.{revoked_row}
use asap_protocol.Approval.Requests.{ApprovalRequestState, Method, Status, Kind}
use asap_protocol.Auth.Verify.{VerifiedHost}
use asap_protocol.Routes.Lifecycle.{handle_revoke, handle_rotate_key}
use asap_protocol.Routes.Owners.{IsOwner, is_ok, handle_revoke_exact}
use asap_protocol.Routes.Status.{Agents, World, handle_status}
use asap_protocol.Routes.Licence.{IsLicensed, handle_status-IsLicensed}
use asap_protocol.Routes.Distinct.{IsDistinct, IsKeyed}
use asap_protocol.Routes.Rotating.{alone, handle_rotate_key-IsDistinct}

abbrev digest : Dict String String → String
digest [] = ""
digest ((name, value) ∷ ms) = value <> "," <> digest ms

abbrev key_of : String → Jwk
key_of x = ("kty", "OKP") ∷ ("crv", "Ed25519") ∷ ("x", x) ∷ []

abbrev agent : String → String → AgentSession
agent id x = record {
  agent_id = id;
  host_id = "urn:asap:host:tp";
  public_key = key_of x;
  mode = AgentMode.delegated;
  status = AgentSessionStatus.pending;
  session_ttl = none;
  max_lifetime = none;
  absolute_lifetime = none;
  activated_at = none;
  last_used_at = none;
  created_at = 100;
}

abbrev agents : Store
agents = ("a1", agent "a1" "k1") ∷ []

abbrev caller : VerifiedHost
caller = record { claims = field "iss" (text "tp") end; host = none }

revoked : (handle_revoke caller "a1" agents agents).1 ≡ ok tt
unfolding handle_revoke get_field lookup
revoked = refl

handle_revoke_exact_example :
    let (later', result) = handle_revoke caller "a1" agents agents in
    ((result ≡ ok tt) ↔ ((own : String × AgentSession) × IsOwner caller "a1" agents own))
    × (lookup "a1" later' ≡ (
        if is_ok result && string_eq.beq "a1" "a1"
        then revoked_row (lookup "a1" agents)
        else lookup "a1" agents))
handle_revoke_exact_example = handle_revoke_exact caller "a1" agents agents "a1"

abbrev request : ApprovalRequestState Fields
request = record {
  agent_id = "a1";
  method = Method.ciba;
  capabilities = [];
  capability_specs = [];
  approval_kind = Kind.registration;
  status = Status.approved;
  user_code = none;
  verification_uri = none;
  verification_uri_complete = none;
  binding_message = none;
  expires_in = 300;
  interval = 5;
  created_at = 100;
  approved_by = some "u";
  deny_reason = none;
}

abbrev readings : Agents
readings = record { at_get = agents; at_reread = agents; at_save = agents }

abbrev world : World
world = record { approvals = some (("a1", request) ∷ []); registry = none }

activated :
    lookup "a1" (handle_status digest as_number 200 none caller "a1" readings world).0
    ≡ some
        (record (agent "a1" "k1") { status = AgentSessionStatus.active; activated_at = some 200 })
unfolding handle_status get_field lookup jwk_thumbprint_sha256 insert
activated = refl

handle_status-IsLicensed_example :
    let r = handle_status digest as_number 200 none caller "a1" readings world in
    IsLicensed digest 200 caller "a1" readings world r.0 r.1
handle_status-IsLicensed_example =
    handle_status-IsLicensed digest as_number 200 none caller "a1" readings world

abbrev import_key : Jwk → Bool
import_key key = true

rotates :
    handle_rotate_key digest import_key caller "a1" (key_of "k2") (alone agents)
    ≡ (("a1", agent "a1" "k2") ∷ [], ok AgentSessionStatus.pending)
unfolding handle_rotate_key get_field lookup jwk_thumbprint_sha256 insert
rotates = refl

keyed : IsKeyed digest agents
unfolding lookup
keyed i a h = ground (arith, string_eq.beq_iff "a1" i)

distinct : IsDistinct digest agents
unfolding lookup
distinct i j a b t at at' host key key' =
    ground (arith, string_eq.beq_iff "a1" i, string_eq.beq_iff "a1" j)

handle_rotate_key-IsDistinct_example :
    IsDistinct digest
      (handle_rotate_key digest import_key caller "a1" (key_of "k2") (alone agents)).0
handle_rotate_key-IsDistinct_example =
    handle_rotate_key-IsDistinct digest import_key caller "a1" (key_of "k2") agents keyed distinct

-- two rotations to one key of which both list the agents before either saves
abbrev pair : Store
pair = ("a1", agent "a1" "k1") ∷ ("a2", agent "a2" "k2") ∷ []

raced :
    let first = handle_rotate_key digest import_key caller "a1" (key_of "k3") (alone pair) in
    (handle_rotate_key digest import_key caller "a2"
      (key_of "k3")
      (record (alone pair) { at_save = first.0 })).0
    ≡ ("a1", agent "a1" "k3") ∷ ("a2", agent "a2" "k3") ∷ []
unfolding handle_rotate_key get_field lookup jwk_thumbprint_sha256 insert
raced = refl
