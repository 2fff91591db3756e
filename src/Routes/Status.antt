-- ===== src/Routes/Status.antt =====
-- `_handle_agent_status` of src/asap/transport/agent_routes.py, with the fresh-session policy of
-- src/asap/auth/self_auth.py. A capability spec is a JSON object. The response's text is left out: it is
-- written of the session and the request that the handler returns.
use asap_protocol.Prelude.{
  ℕ, ◌+◌, ◌*◌, String, Bool, true, false, ◌&&◌, Option, none, some, if◌then◌else◌, ltb, List, [],
  ◌∷◌, Dict, lookup, string_eq, Result, ok, err, second,
}
use asap_protocol.Json.{ℤ, pos, negsuc, Value, Fields, get_field}
use asap_protocol.Identity.Sessions.{AgentSession, AgentSessionStatus, active, rejected, is_active}
use asap_protocol.Identity.Agents.{Store, save}
use asap_protocol.Approval.Requests.{
  ApprovalRequestState, Status, approved, denied, expired, Kind, escalation, get, remove,
}
use asap_protocol.Approval.Requests as Approval
use asap_protocol.Capability.Registry.{CapabilityRegistry}
use asap_protocol.Capability.Escalation.{GrantError, apply_capability_specs_to_registry}
use asap_protocol.Auth.Verify.{VerifiedHost}
use asap_protocol.Routes.Caller.{Refusal, stale_session, server_error, own_agent}

abbrev pub Request : Type 0
Request = ApprovalRequestState Fields

abbrev pub is_pending_agent : AgentSessionStatus → Bool
is_pending_agent AgentSessionStatus.pending = true
is_pending_agent _ = false

abbrev pub is_escalation : Kind → Bool
is_escalation escalation = true
is_escalation _ = false

abbrev pub is_empty : List Fields → Bool
is_empty [] = true
is_empty (s ∷ ss) = false

-- `fresh_session_violation_detail(...) is not None`: an `iat` that is no number is a violation, and
-- `now - iat <= window` over the integers is `now <= iat + window`. The clock, the window and what
-- `float` gives are seconds here.
unfoldable pub is_stale : (Value → Option ℤ) → ℕ → ℕ → Fields → Bool
is_stale float now window claims = elim (get_field "iat" claims) [
  | none ↦ true
  | some v ↦ elim (float v) [
    | none ↦ true
    | some (pos t) ↦ ltb ((t + window) * second) now
    | some (negsuc t) ↦ ltb (window * second) (now + (t + 1) * second)
  ]
]

-- What the handler reads and writes, apart from the agents: the requests and the registry, each where one
-- is configured.
pub record World : Type 0 where
  pub approvals : Option (Approval.Store Fields)
  pub registry : Option CapabilityRegistry

-- the request of the agent, where there is a store
unfoldable pub get_request : ℕ → String → World → World × Option Request
unfolding get
get_request now agent_id w = elim w.approvals [
  | none ↦ (w, none)
  | some store ↦
      let (store', appr) = get now agent_id store in (record w { approvals = some store' }, appr)
]

unfoldable pub remove_request : String → World → World
unfolding remove
remove_request agent_id w = elim w.approvals [
  | none ↦ w
  | some store ↦ record w { approvals = some (remove agent_id store) }
]

-- `if registry is not None and appr.capability_specs: ...`, with whether it raises
unfoldable pub apply_request :
    String → String → List Fields → World → World × Result GrantError (Unit {0})
unfolding apply_capability_specs_to_registry
apply_request agent_id host_id specs w = elim w.registry [
  | none ↦ (w, ok tt)
  | some registry ↦
      let (registry', done) = apply_capability_specs_to_registry agent_id host_id specs registry in
      if is_empty specs then (w, ok tt) else (record w { registry = some registry' }, done)
]

-- the branch of an active session: the request goes where it is decided
unfoldable pub settle_escalation :
    String → String → Request → World → World × Result GrantError (Option Request)
unfolding apply_request remove_request
settle_escalation agent_id host_id appr w =
    let (w', done) = apply_request agent_id host_id appr.capability_specs w in
    elim appr.status [
      | approved ↦ elim done [ err e ↦ (w', err e) | ok _ ↦ (remove_request agent_id w', ok none) ]
      | denied ↦ (remove_request agent_id w, ok none)
      | expired ↦ (remove_request agent_id w, ok none)
      | Status.pending ↦ (w, ok (some appr))
    ]

-- both are pending and the policy is violated
unfoldable pub is_refused_poll :
    (Value → Option ℤ) → ℕ → Option ℕ → AgentSession → Option Request → Fields → Bool
unfolding is_stale
is_refused_poll float now none session appr claims = false
is_refused_poll float now (some window) session none claims = false
is_refused_poll float now (some window) session (some appr) claims =
    is_pending_agent session.status
    && Approval.is_pending appr.status
    && is_stale float now window claims

-- the agents at the first reading, at the second one, and at the save
pub record Agents : Type 0 where
  pub at_get : Store
  pub at_reread : Store
  pub at_save : Store

module _ (digest : Dict String String → String) where
  -- `save_agent_unless_revoked` over the row that was read again, where that is still pending: none where
  -- nothing is saved
  unfoldable pub save_pending :
      (AgentSession → AgentSession) → String → Store → Store → Option Store
  unfolding save
  save_pending change agent_id reread later = elim (lookup agent_id reread) [
    | none ↦ none
    | some fresh ↦
        if is_pending_agent fresh.status
        then elim (save digest (change fresh) (some fresh.public_key) later) [
          | err e ↦ none
          | ok later' ↦ some later'
        ]
        else none
  ]

  unfoldable pub activate : ℕ → AgentSession → AgentSession
  activate now s = record s { status = active; activated_at = some now }

  unfoldable pub reject : AgentSession → AgentSession
  reject s = record s { status = rejected }

  -- the branch of a pending session
  unfoldable pub settle_registration :
      ℕ → String → String → Request → Agents → World → Store × World × Result GrantError (Unit {0})
  unfolding save_pending activate reject apply_request
  settle_registration now agent_id host_id appr a w = elim appr.status [
    | approved ↦ elim (save_pending (activate now) agent_id a.at_reread a.at_save) [
      | none ↦ (a.at_save, w, ok tt)
      | some later ↦
          let (w', done) = apply_request agent_id host_id appr.capability_specs w in
          (later, w', done)
    ]
    | denied ↦ elim (save_pending reject agent_id a.at_reread a.at_save) [
      | none ↦ (a.at_save, w, ok tt)
      | some later ↦ (later, w, ok tt)
    ]
    | _ ↦ (a.at_save, w, ok tt)
  ]

  -- the two branches, of the session as it was read first
  unfoldable pub settle :
      ℕ
      → String
      → String
      → AgentSession
      → Option Request
      → Agents
      → World
      → Store × World × Result GrantError (Option Request)
  unfolding settle_escalation settle_registration
  settle now agent_id host_id session none a w = (a.at_save, w, ok none)
  settle now agent_id host_id session (some appr) a w =
      if is_active session.status && is_escalation appr.approval_kind
      then (let (w', done) = settle_escalation agent_id host_id appr w in (a.at_save, w', done))
      else if is_pending_agent session.status
      then (let (agents, w', done) = settle_registration now agent_id host_id appr a w in
          (agents, w', elim done [ err e ↦ err e | ok _ ↦ ok (some appr) ]))
      else (a.at_save, w, ok (some appr))

  -- the session is read once more for the response
  unfoldable pub handle_status :
      (Value → Option ℤ)
      → ℕ
      → Option ℕ
      → VerifiedHost
      → String
      → Agents
      → World
      → Store × World × Result Refusal (AgentSession × Option Request)
  unfolding own_agent get_request is_refused_poll settle
  handle_status float now window v agent_id a w = elim (own_agent v agent_id a.at_get) [
    | err e ↦ (a.at_save, w, err e)
    | ok (host_id, session) ↦
        let (w', appr) = get_request now agent_id w in
        let (agents, w'', done) = settle now agent_id host_id session appr a w' in
        if is_refused_poll float now window session appr v.claims
        then (a.at_save, w', err stale_session)
        else (
          agents,
          w'',
          elim done [
            | err e ↦ err server_error
            | ok appr' ↦ ok (elim (lookup agent_id agents) [ none ↦ session | some s ↦ s ], appr')
          ],
        )
  ]
