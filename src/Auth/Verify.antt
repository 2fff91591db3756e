-- ===== src/Auth/Verify.antt =====
-- `verify_host_jwt` and `verify_agent_jwt` of src/asap/auth/agent_jwt.py. The compact form and the
-- signatures are joserfc's work, and parameters here.
use asap_protocol.Prelude.{
  ℕ, String, Bool, true, false, not, Option, none, some, if◌then◌else◌, List, Dict, lookup, ◌==◌,
  string_eq, Result, ok, err, ◌>>=◌, ◌>>◌, raise_if,
}
use asap_protocol.Json.{ℤ, Value, text, object, Fields, get_field}
use asap_protocol.Identity.Keys.{jwk_thumbprint_sha256}
use asap_protocol.Identity.Sessions.{AgentSession}
use asap_protocol.Identity.Agents.{Store}
use asap_protocol.Identity.Hosts.{Hosts, HostIdentity, get_by_public_key, is_revoked_host}
use asap_protocol.Replay.Jti.{JtiReplayCache, check_and_record, contains_jti}
use asap_protocol.Auth.Claims.{
  VerifyError, invalid_structure, invalid_typ, missing_host_key, invalid_jwt, wrong_issuer,
  jti_replay, host_revoked, missing_sub, unknown_agent, sub_mismatch, missing_iss, unknown_host,
  host_mismatch, raised, text_of, json_of, jwk_of, validate_standard_claims,
}
use asap_protocol.Auth.Slide.{
  Clock, unusable_agent_error, expired_agent_error, slide_session_if_still_current,
}

-- `v == s` for a text `s`
unfoldable pub is_text : String → Option Value → Bool
is_text s (some (text t)) = t == s
is_text s _ = false

-- `isinstance(v, dict)`, with the dict where it is so
abbrev pub object_of : Option Value → Option Fields
object_of (some (object fs)) = some fs
object_of _ = none

abbrev pub require : {A : Type 0} → Option A → VerifyError → Result VerifyError A
require none e = err e
require (some a) e = ok a

-- what `JwtVerifyResult` holds of a host token, and of an agent token
pub record VerifiedHost : Type 0 where
  pub claims : Fields
  pub host : Option HostIdentity

pub record VerifiedAgent : Type 0 where
  pub claims : Fields
  pub host : HostIdentity
  pub agent : AgentSession
  pub jti : String

-- `check_and_record`, or a look where `record_jti` is false; no cache refuses nothing
unfoldable pub use_jti :
    ℕ → Bool → String → String → Option JtiReplayCache → Option JtiReplayCache × Bool
use_jti now record_jti partition jti none = (none, true)
use_jti now true partition jti (some c) =
    let (c', fresh) = check_and_record now partition jti c in (some c', fresh)
use_jti now false partition jti (some c) =
    let (c', seen) = contains_jti now partition jti c in (some c', not seen)

module _ (digest : Dict String String → String) (float : Value → Option ℤ)
    (unverified : String → Option (Fields × Fields))  -- header and payload
    (decode : Fields → String → Option Fields)  -- the claims, where the key is one and its signature fits
  where
    -- the claims of a host token and its issuer, before the cache is asked
    unfoldable pub host_claims :
        ℕ → Option (List String) → String → Result VerifyError (Fields × String × String)
    unfolding validate_standard_claims is_text jwk_of
    host_claims now audience token = do
      (header, payload) ← require (unverified token) invalid_structure
      raise_if (not (is_text "host+jwt" (get_field "typ" header))) invalid_typ
      unsigned_key ← require (object_of (get_field "host_public_key" payload)) missing_host_key
      claims ← require (decode unsigned_key token) invalid_jwt
      jti ← validate_standard_claims float claims now audience
      key ← require (object_of (get_field "host_public_key" claims)) missing_host_key
      iss ← require (jwk_thumbprint_sha256 digest (jwk_of key)) raised
      raise_if (not (is_text iss (get_field "iss" claims))) wrong_issuer
      ok (claims, iss, jti)

    -- the host of the issuer: none where it is to be registered
    unfoldable pub resolve_host : Hosts → Fields → String → Result VerifyError VerifiedHost
    resolve_host hosts claims iss = elim (get_by_public_key iss hosts) [
      | none ↦ ok (record { claims = claims; host = none })
      | some host ↦
          if is_revoked_host host.status
          then err host_revoked
          else ok (record { claims = claims; host = some host })
    ]

    unfoldable pub verify_host_jwt :
        ℕ
        → ℕ
        → Option (List String)
        → Bool
        → String
        → Hosts
        → Option JtiReplayCache
        → Option JtiReplayCache × Result VerifyError VerifiedHost
    unfolding host_claims use_jti resolve_host
    verify_host_jwt now recorded_at audience record_jti token hosts cache =
        elim (host_claims now audience token) [
          | err e ↦ (cache, err e)
          | ok (claims, iss, jti) ↦
              let (cache', fresh) = use_jti recorded_at record_jti iss jti cache in
              (cache', if fresh then resolve_host hosts claims iss else err jti_replay)
        ]

    -- the row, the claims and the host of an agent token, before the cache is asked
    unfoldable pub agent_claims :
        ℕ → Option (List String) → String → Hosts → Store → Result VerifyError VerifiedAgent
    unfolding validate_standard_claims is_text json_of text_of unusable_agent_error
    agent_claims now audience token hosts agents = do
      (header, payload) ← require (unverified token) invalid_structure
      raise_if (not (is_text "agent+jwt" (get_field "typ" header))) invalid_typ
      sub ← require (text_of (get_field "sub" payload)) missing_sub
      agent ← require (lookup sub agents) unknown_agent
      unusable_agent_error agent
      claims ← require (decode (json_of agent.public_key) token) invalid_jwt
      jti ← validate_standard_claims float claims now audience
      raise_if (not (is_text agent.agent_id (get_field "sub" claims))) sub_mismatch
      iss ← require (text_of (get_field "iss" claims)) missing_iss
      host ← require (get_by_public_key iss hosts) unknown_host
      raise_if (is_revoked_host host.status) host_revoked
      raise_if (not (host.host_id == agent.host_id)) host_mismatch
      ok (record { claims = claims; host = host; agent = agent; jti = jti })

    -- the session that is slid takes the place of the row that was verified
    unfoldable pub slide : Clock → VerifiedAgent → Store → Store × Result VerifyError VerifiedAgent
    unfolding slide_session_if_still_current expired_agent_error
    slide clock v later = elim (expired_agent_error clock.checked_at v.agent) [
      | err e ↦ (later, err e)
      | ok _ ↦
          let (later', slid) = slide_session_if_still_current digest clock v.agent later in
          (later', slid >>= λ session. ok (record v { agent = session }))
    ]

    -- `agents` is the agent store as the row is looked up, `later` the one that other requests leave by the
    -- time that it is read again
    unfoldable pub verify_agent_jwt :
        Clock
        → Option (List String)
        → String
        → Hosts
        → Store
        → Store
        → Option JtiReplayCache
        → Option JtiReplayCache × Store × Result VerifyError VerifiedAgent
    unfolding agent_claims use_jti slide
    verify_agent_jwt clock audience token hosts agents later cache =
        elim (agent_claims clock.claims_at audience token hosts agents) [
          | err e ↦ (cache, later, err e)
          | ok v ↦
              let (cache', fresh) = use_jti clock.recorded_at true v.agent.agent_id v.jti cache in
              let (later', answer) = slide clock v later in
              if fresh then (cache', later', answer) else (cache', later, err jti_replay)
        ]
