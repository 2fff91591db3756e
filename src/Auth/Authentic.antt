-- ===== src/Auth/Authentic.antt =====
-- What the tests of `verify_agent_jwt` in src/asap/auth/agent_jwt.py establish before the replay cache
-- is asked.
use asap_protocol.Prelude.{
  ℕ, String, Bool, true, false, not, Option, none, some, List, Dict, lookup, ◌==◌, string_eq,
  Result, ok, raise_if, bind-ok, raise_if-ok, arith, ◌≡◌, refl, subst,
}
use asap_protocol.Json.{ℤ, Value, Fields, get_field}
use asap_protocol.Identity.Sessions.{AgentSession, AgentSessionStatus, is_active}
use asap_protocol.Identity.Agents.{Store}
use asap_protocol.Identity.Hosts.{Hosts, get_by_public_key, is_revoked_host}
use asap_protocol.Auth.Claims.{
  VerifyError, invalid_structure, invalid_typ, invalid_jwt, host_revoked, missing_sub,
  unknown_agent, sub_mismatch, missing_iss, unknown_host, host_mismatch, text_of, json_of,
  validate_standard_claims, unusable_agent,
}
use asap_protocol.Auth.Slide.{unusable_agent_error}
use asap_protocol.Auth.Verify.{VerifiedAgent, is_text, require, agent_claims}

pub require-ok :
    {A : Type 0} (o : Option A) (e : VerifyError) (a : A) → require o e ≡ ok a → o ≡ some a
require-ok none e a h = cc
require-ok (some b) e a h = cc

pub ok_inj : {A : Type 0} {a b : A} → (let x : Result VerifyError A = ok a in x ≡ ok b) → a ≡ b
ok_inj e = cc

pub negated : {b : Bool} → not b ≡ false → b ≡ true
negated {b = true} e = refl
negated {b = false} e = cc

module _ (digest : Dict String String → String) (float : Value → Option ℤ)
    (unverified : String → Option (Fields × Fields))
    (decode : Fields → String → Option Fields) where
  -- The token names a stored and active agent, is signed with that agent's key, holds sound claims of
  -- that agent, and its issuer is a stored host that is not revoked and that the agent belongs to.
  pub record IsAuthentic (now : ℕ) (audience : Option (List String)) (token : String)
      (hosts : Hosts) (agents : Store) (v : VerifiedAgent) : Type 0 where
    pub header : Fields
    pub payload : Fields
    pub sub : String
    pub iss : String
    pub parsed : unverified token ≡ some (header, payload)
    pub named : text_of (get_field "sub" payload) ≡ some sub
    pub stored : lookup sub agents ≡ some v.agent
    pub usable : v.agent.status ≡ AgentSessionStatus.active
    pub signed : decode (json_of v.agent.public_key) token ≡ some v.claims
    pub standard : validate_standard_claims float v.claims now audience ≡ ok v.jti
    pub own : is_text v.agent.agent_id (get_field "sub" v.claims) ≡ true
    pub issuer : text_of (get_field "iss" v.claims) ≡ some iss
    pub found : get_by_public_key iss hosts ≡ some v.host
    pub trusted : is_revoked_host v.host.status ≡ false
    pub hosted : v.host.host_id ≡ v.agent.host_id

  usable_of :
      (agent : AgentSession) (u : Unit {0})
      → unusable_agent_error agent ≡ ok u
      → agent.status ≡ AgentSessionStatus.active
  unfolding unusable_agent_error
  usable_of agent u h =
      let live = raise_if-ok (not (is_active agent.status)) (unusable_agent agent.status) u h in
      ground arith

  pub agent_claims-IsAuthentic :
      (now : ℕ) (audience : Option (List String)) (token : String) (hosts : Hosts) (agents : Store)
      (v : VerifiedAgent)
      → agent_claims digest float unverified decode now audience token hosts agents ≡ ok v
      → IsAuthentic now audience token hosts agents v
  unfolding agent_claims
  agent_claims-IsAuthentic now audience token hosts agents v h =
      let (parts, e1, h1) = bind-ok (require (unverified token) invalid_structure) _ v h in
      let (_, _, h2) =
        bind-ok (raise_if (not (is_text "agent+jwt" (get_field "typ" parts.0))) invalid_typ) _ v
          h1 in
      let (sub, e3, h3) =
        bind-ok (require (text_of (get_field "sub" parts.1)) missing_sub) _ v h2 in
      let (agent, e4, h4) = bind-ok (require (lookup sub agents) unknown_agent) _ v h3 in
      let (u5, e5, h5) = bind-ok (unusable_agent_error agent) _ v h4 in
      let (claims, e6, h6) =
        bind-ok (require (decode (json_of agent.public_key) token) invalid_jwt) _ v h5 in
      let (jti, e7, h7) = bind-ok (validate_standard_claims float claims now audience) _ v h6 in
      let (u8, e8, h8) =
        bind-ok (raise_if (not (is_text agent.agent_id (get_field "sub" claims))) sub_mismatch) _ v
          h7 in
      let (iss, e9, h9) = bind-ok (require (text_of (get_field "iss" claims)) missing_iss) _ v h8 in
      let (host, e10, h10) = bind-ok (require (get_by_public_key iss hosts) unknown_host) _ v h9 in
      let (u11, e11, h11) = bind-ok (raise_if (is_revoked_host host.status) host_revoked) _ v h10 in
      let (u12, e12, h12) =
        bind-ok (raise_if (not (host.host_id == agent.host_id)) host_mismatch) _ v h11 in
      let known : VerifiedAgent = record {
        claims = claims;
        host = host;
        agent = agent;
        jti = jti;
      } in
      let same : known ≡ v = ok_inj h12 in
      subst (IsAuthentic now audience token hosts agents) same (record {
        header = parts.0;
        payload = parts.1;
        sub = sub;
        iss = iss;
        parsed = require-ok (unverified token) invalid_structure parts e1;
        named = require-ok (text_of (get_field "sub" parts.1)) missing_sub sub e3;
        stored = require-ok (lookup sub agents) unknown_agent agent e4;
        usable = usable_of agent u5 e5;
        signed = require-ok (decode (json_of agent.public_key) token) invalid_jwt claims e6;
        standard = e7;
        own = negated (
            raise_if-ok (not (is_text agent.agent_id (get_field "sub" claims))) sub_mismatch u8 e8);
        issuer = require-ok (text_of (get_field "iss" claims)) missing_iss iss e9;
        found = require-ok (get_by_public_key iss hosts) unknown_host host e10;
        trusted = raise_if-ok (is_revoked_host host.status) host_revoked u11 e11;
        hosted =
            (string_eq.beq_iff host.host_id agent.host_id).0
              (negated (raise_if-ok (not (host.host_id == agent.host_id)) host_mismatch u12 e12));
      })
