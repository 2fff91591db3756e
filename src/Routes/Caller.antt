-- ===== src/Routes/Caller.antt =====
-- Who calls an endpoint of src/asap/transport/agent_routes.py, and whose agent it names: `verify_host_bearer`
-- of src/asap/transport/_auth_helpers.py and what the handlers do first.
use asap_protocol.Prelude.{
  ℕ, String, Bool, Option, none, some, if◌then◌else◌, List, Dict, lookup, ◌==◌, string_eq, is_blank,
  Result, ok, err,
}
use asap_protocol.Json.{ℤ, Value, text, Fields, get_field}
use asap_protocol.Identity.Sessions.{AgentSession}
use asap_protocol.Identity.Agents.{Store}
use asap_protocol.Identity.Hosts.{Hosts, is_revoked_host}
use asap_protocol.Replay.Jti.{JtiReplayCache}
use asap_protocol.Auth.Claims.{VerifyError, host_revoked, raised}
use asap_protocol.Auth.Verify.{VerifiedHost, verify_host_jwt}
use asap_protocol.OAuth.Bearer.{get_bearer_token}
use Prim.Native.String.{◌++◌ as ◌^^◌}

-- The error responses, and an exception that leaves the handler.
pub data Refusal : Type 0 where
  authentication_required revoked_caller missing_issuer : Refusal
  invalid_token : VerifyError → Refusal
  no_agent foreign_agent revoked_agent : Refusal
  invalid_key key_in_use key_changed stale_session invalid_webauthn : Refusal
  server_error : Refusal

unfoldable pub refusal_of : VerifyError → Refusal
refusal_of host_revoked = revoked_caller
refusal_of raised = server_error
refusal_of e = invalid_token e

-- what follows a token that is good: `iss` is a text that is not blank, and the host, if known, not revoked
unfoldable pub check_caller : VerifiedHost → Result Refusal VerifiedHost
check_caller v = elim (get_field "iss" v.claims) [
  | some (text iss) ↦ if is_blank iss then err missing_issuer else elim v.host [
    | none ↦ ok v
    | some host ↦ if is_revoked_host host.status then err revoked_caller else ok v
  ]
  | _ ↦ err missing_issuer
]

-- `_effective_identity_host_id`; none where it raises
unfoldable pub effective_host_id : VerifiedHost → Option String
effective_host_id v = elim (get_field "iss" v.claims) [
  | some (text iss) ↦ elim v.host [
    | none ↦ some ("urn:asap:host:" ^^ iss)
    | some host ↦ some host.host_id
  ]
  | _ ↦ none
]

-- What the check of a bearer token reads.
pub record Call : Type 0 where
  pub authorization : Option String
  pub now : ℕ
  pub recorded_at : ℕ
  pub audience : Option (List String)
  pub hosts : Hosts

module _ (digest : Dict String String → String) (float : Value → Option ℤ)
    (unverified : String → Option (Fields × Fields))
    (decode : Fields → String → Option Fields) where
  unfoldable pub verify_host_bearer :
      Bool → Call → Option JtiReplayCache → Option JtiReplayCache × Result Refusal VerifiedHost
  unfolding get_bearer_token verify_host_jwt refusal_of check_caller
  verify_host_bearer record_jti c cache = elim (get_bearer_token c.authorization) [
    | none ↦ (cache, err authentication_required)
    | some token ↦
        let (cache', result) =
          verify_host_jwt digest float unverified decode c.now c.recorded_at c.audience record_jti
            token c.hosts cache in
        (cache', elim result [ err e ↦ err (refusal_of e) | ok v ↦ check_caller v ])
  ]

-- the id of the calling host, and the agent where it is that host's
unfoldable pub own_agent : VerifiedHost → String → Store → Result Refusal (String × AgentSession)
unfolding effective_host_id
own_agent v agent_id agents = elim (effective_host_id v) [
  | none ↦ err server_error
  | some host_id ↦ elim (lookup agent_id agents) [
    | none ↦ err no_agent
    | some session ↦ if session.host_id == host_id then ok (host_id, session) else err foreign_agent
  ]
]
