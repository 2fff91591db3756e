-- ===== src/Routes/Owners.antt =====
-- What the callers of src/asap/transport/agent_routes.py may touch: `own_agent` and the revocation.
use asap_protocol.Prelude.{
  String, Bool, true, false, ◌&&◌, Option, none, some, if◌then◌else◌, lookup, ◌==◌, string_eq,
  Result, ok, err, ◌≡◌, refl, ◌↔◌,
}
use asap_protocol.Identity.Sessions.{AgentSession}
use asap_protocol.Identity.Agents.{Store, revoke}
use asap_protocol.Identity.Revocation.{revoked_row, lookup-revoke}
use asap_protocol.Auth.Verify.{VerifiedHost}
use asap_protocol.Routes.Caller.{
  Refusal, no_agent, foreign_agent, server_error, effective_host_id, own_agent,
}
use asap_protocol.Routes.Lifecycle.{handle_revoke}

-- The caller is the host of the agent's row.
abbrev pub IsOwner : VerifiedHost → String → Store → String × AgentSession → Type 0
IsOwner v agent_id agents (host_id, session) =
    (effective_host_id v ≡ some host_id)
    × (lookup agent_id agents ≡ some session)
    × (session.host_id ≡ host_id)

pub own_agent-IsOwner :
    (v : VerifiedHost) (agent_id : String) (agents : Store) (own : String × AgentSession)
    → (own_agent v agent_id agents ≡ ok own) ↔ IsOwner v agent_id agents own
unfolding own_agent
own_agent-IsOwner v agent_id agents (host_id, session) =
    go (effective_host_id v) (lookup agent_id agents)
  where
    looked : Option String → Option AgentSession → Result Refusal (String × AgentSession)
    looked o p = elim o [
      | none ↦ err server_error
      | some h ↦ elim p [
        | none ↦ err no_agent
        | some s ↦ if s.host_id == h then ok (h, s) else err foreign_agent
      ]
    ]

    same :
        (h : String) (s : AgentSession) (b : Bool)
        → (s.host_id == h) ≡ b
        → (if◌then◌else◌ {A = Result Refusal (String × AgentSession)} b
              (ok (h, s))
              (err foreign_agent)
            ≡ ok (host_id, session))
          ↔ ((some h ≡ some host_id) × (some s ≡ some session) × (session.host_id ≡ host_id))
    same h s true e = (
      λ k.
          let hs : h ≡ host_id = cc in
          let ss : s ≡ session = cc in
          (cc, cc, rw⁻¹ (hs, ss) ((string_eq.beq_iff s.host_id h).0 e)),
      λ (a, b, c). cc,
    )
    same h s false e = (
      λ k. cc,
      λ (a, b, c).
          let same_host : (s.host_id == h) ≡ true = (string_eq.beq_iff s.host_id h).1 cc in cc,
    )

    go :
        (o : Option String) (p : Option AgentSession)
        → (looked o p ≡ ok (host_id, session))
          ↔ ((o ≡ some host_id) × (p ≡ some session) × (session.host_id ≡ host_id))
    go none p = (λ k. cc, λ (a, b, c). cc)
    go (some h) none = (λ k. cc, λ (a, b, c). cc)
    go (some h) (some s) = same h s (s.host_id == h) refl

abbrev pub is_ok : {E A : Type 0} → Result E A → Bool
is_ok (ok a) = true
is_ok (err e) = false

-- A revocation succeeds exactly where the caller is the host of the agent's row, as it was read. It then
-- revokes that agent's row, if there is one by then, and leaves every other row as it is; where it is
-- refused, every row is as it was.
pub handle_revoke_exact :
    (v : VerifiedHost) (agent_id : String) (now later : Store) (id : String)
    → let (later', result) = handle_revoke v agent_id now later in
      ((result ≡ ok tt) ↔ ((own : String × AgentSession) × IsOwner v agent_id now own))
      × (lookup id later' ≡ (
          if is_ok result && agent_id == id
          then revoked_row (lookup id later)
          else lookup id later))
unfolding handle_revoke
handle_revoke_exact v agent_id now later id =
    go (own_agent v agent_id now) (λ own. own_agent-IsOwner v agent_id now own)
  where
    go :
        (r : Result Refusal (String × AgentSession))
        → ((own : String × AgentSession) → (r ≡ ok own) ↔ IsOwner v agent_id now own)
        → let after : Store × Result Refusal (Unit {0}) = (elim r [
          | err e ↦ (later, err e)
          | ok _ ↦ (revoke agent_id later, ok tt)
        ]) in
          ((after.1 ≡ ok tt) ↔ ((own : String × AgentSession) × IsOwner v agent_id now own))
          × (lookup id after.0 ≡ (
              if is_ok after.1 && agent_id == id
              then revoked_row (lookup id later)
              else lookup id later))
    go (err e) own = ((λ h. cc, λ (o, k). let wrong = (own o).1 k in cc), refl)
    go (ok o) own = ((λ h. (o, (own o).0 refl), λ k. refl), lookup-revoke agent_id id later)
