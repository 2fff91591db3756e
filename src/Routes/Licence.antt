-- ===== src/Routes/Licence.antt =====
-- What `_handle_agent_status` of src/asap/transport/agent_routes.py may change: a poll acts on a decision of
-- the approval store, and on no other.
use asap_protocol.Prelude.{
  ℕ, String, Bool, true, false, Option, none, some, if◌then◌else◌, Dict, lookup, string_eq, Result,
  ok, err, ◌≡◌, refl, sym, ◌∙◌, ◌⊎◌, inl, inr,
}
use asap_protocol.Json.{ℤ, Value}
use asap_protocol.Identity.Sessions.{AgentSession}
use asap_protocol.Identity.Agents.{Store}
use asap_protocol.Capability.Escalation.{GrantError}
use asap_protocol.Auth.Verify.{VerifiedHost}
use asap_protocol.Routes.Caller.{Refusal, stale_session, server_error, own_agent}
use asap_protocol.Routes.Owners.{IsOwner, own_agent-IsOwner}
use asap_protocol.Routes.Status.{
  Request, World, Agents, get_request, settle, is_refused_poll, handle_status,
}
use asap_protocol.Routes.Granted.{IsGranted, get_request-registry}
use asap_protocol.Routes.Decided.{IsDecided, settle-IsDecided}

abbrev pub IsLicensed :
    (Dict String String → String)
    → ℕ
    → VerifiedHost
    → String
    → Agents
    → World
    → Store
    → World
    → Type 0
IsLicensed digest now v agent_id a w agents w' =
    ((agents ≡ a.at_save) × (w'.registry ≡ w.registry))
    ⊎ ((own : String × AgentSession) × (appr : Request) × IsOwner v agent_id a.at_get own
        × ((get_request now agent_id w).1 ≡ some appr)
        × IsDecided agent_id own.0 appr digest now a agents
        × IsGranted agent_id own.0 appr w w')

-- A poll of an agent's status changes the agents and the registry only for the host that the agent belongs
-- to, and only as the approval store has decided: a row that is still pending becomes active after an
-- approval and rejected after a denial, and the approved capabilities are applied.
pub handle_status-IsLicensed :
    (digest : Dict String String → String) (float : Value → Option ℤ) (now : ℕ) (window : Option ℕ)
    (v : VerifiedHost) (agent_id : String) (a : Agents) (w : World)
    → let (agents, w', result) = handle_status digest float now window v agent_id a w in
      IsLicensed digest now v agent_id a w agents w'
unfolding handle_status settle
handle_status-IsLicensed digest float now window v agent_id a w =
    go (own_agent v agent_id a.at_get) (λ own. (own_agent-IsOwner v agent_id a.at_get own).0)
  where
    w1 : World
    w1 = (get_request now agent_id w).0

    same : w1.registry ≡ w.registry
    same = get_request-registry now agent_id w

    ending :
        AgentSession
        → Store × World × Result GrantError (Option Request)
        → Store × World × Result Refusal (AgentSession × Option Request)
    ending session (agents, w2, done) = (
      agents,
      w2,
      elim done [
        | err e ↦ err server_error
        | ok appr' ↦ ok (elim (lookup agent_id agents) [ none ↦ session | some s ↦ s ], appr')
      ],
    )

    granted :
        (host_id : String) (appr : Request) (w2 : World)
        → IsGranted agent_id host_id appr w1 w2
        → IsGranted agent_id host_id appr w w2
    granted host_id appr w2 (inl k) = inl (k ∙ same)
    granted host_id appr w2 (inr (k, (r, e, f))) = inr (k, (r, sym same ∙ e, f))

    settled :
        (own : String × AgentSession)
        → IsOwner v agent_id a.at_get own
        → (appr : Option Request) → (get_request now agent_id w).1 ≡ appr
        → let r = settle digest now agent_id own.0 own.1 appr a w1 in
          IsLicensed digest now v agent_id a w r.0 r.1
    settled own mine none e = inl (refl, same)
    settled own mine (some appr) e =
        let (decided, applied) = settle-IsDecided agent_id own.0 appr digest now own.1 a w1 in
        inr (
          own,
          appr,
          mine,
          e,
          decided,
          granted own.0 appr (settle digest now agent_id own.0 own.1 (some appr) a w1).1 applied,
        )

    polled :
        (own : String × AgentSession)
        → IsOwner v agent_id a.at_get own
        → (b : Bool)
        → let r = settle digest now agent_id own.0 own.1 (get_request now agent_id w).1 a w1 in
          let s : Store × World × Result Refusal (AgentSession × Option Request) =
            (if b then (a.at_save, w1, err stale_session) else ending own.1 r) in
          IsLicensed digest now v agent_id a w s.0 s.1
    polled own mine true = inl (refl, same)
    polled own mine false = settled own mine (get_request now agent_id w).1 refl

    go :
        (o : Result Refusal (String × AgentSession))
        → ((own : String × AgentSession) → o ≡ ok own → IsOwner v agent_id a.at_get own)
        → let s : Store × World × Result Refusal (AgentSession × Option Request) = (elim o [
          | err e ↦ (a.at_save, w, err e)
          | ok (host_id, session) ↦
              if is_refused_poll float now window session (get_request now agent_id w).1 v.claims
              then (a.at_save, w1, err stale_session)
              else ending session
                  (settle digest now agent_id host_id session (get_request now agent_id w).1 a w1)
        ]) in
          IsLicensed digest now v agent_id a w s.0 s.1
    go (err e) own = inl (refl, refl)
    go (ok (host_id, session)) own =
        polled (host_id, session) (own (host_id, session) refl)
          (is_refused_poll float now window session (get_request now agent_id w).1 v.claims)
