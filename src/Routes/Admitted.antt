-- ===== src/Routes/Admitted.antt =====
-- What `_handle_agent_register` of src/asap/transport/agent_routes.py does with a new agent.
use asap_protocol.Prelude.{
  String, Bool, true, false, ◌&&◌, not, Option, none, some, if◌then◌else◌, List, Dict, lookup,
  insert, lookup-insert, ◌==◌, string_eq, Eq, Result, ok, err, ◌≡◌, refl, sym, ◌∙◌, ap, subst, ◌⊎◌,
  inl, inr,
}
use asap_protocol.Json.{ℤ, Value, Fields}
use asap_protocol.Identity.Keys.{Jwk}
use asap_protocol.Identity.Sessions.{AgentSession, AgentSessionStatus, active, is_revoked}
use asap_protocol.Identity.Agents.{Store, SaveError, row_to_save, save}
use asap_protocol.Identity.Hosts.{HostIdentity}
use asap_protocol.Approval.Requests.{ApprovalObject}
use asap_protocol.Approval.Requests as Approval
use asap_protocol.Capability.Escalation.{GrantError, escalation_requires_user_consent}
use asap_protocol.Capability.Defaults.{
  IsPreapproved, escalation_requires_user_consent-IsPreapproved,
}
use asap_protocol.Routes.Caller.{Refusal, server_error}
use asap_protocol.Routes.Status.{World, apply_request}
use asap_protocol.Routes.Registration.{
  parse_capability_registration_body, Settings, State, Call, new_session, gate,
}
use asap_protocol.Routes.Register.{store_session, activate_now, ask, request_approval, admit_agent}

-- a save without an expected key leaves the store, or writes the row under its id
save-row :
    (digest : Dict String String → String) (a : AgentSession) (store : Store) (j : String)
    (store' : Store)
    → save digest a none store ≡ ok store'
    → (lookup j store' ≡ lookup j store) ⊎ ((a.agent_id ≡ j) × (lookup j store' ≡ some a))
unfolding save row_to_save
save-row digest a store j store' h = go (lookup a.agent_id store) h
  where
    wrote :
        insert a.agent_id a store ≡ store'
        → (lookup j store' ≡ lookup j store) ⊎ ((a.agent_id ≡ j) × (lookup j store' ≡ some a))
    wrote e = at (a.agent_id == j) refl (sym (ap (lookup j) e) ∙ lookup-insert a.agent_id j a store)
      where
        at :
            (b : Bool)
            → (a.agent_id == j) ≡ b
            → lookup j store' ≡ (if b then some a else lookup j store)
            → (lookup j store' ≡ lookup j store) ⊎ ((a.agent_id ≡ j) × (lookup j store' ≡ some a))
        at true d k = inr ((string_eq.beq_iff a.agent_id j).0 d, k)
        at false d k = inl k

    returned :
        (r : Result SaveError AgentSession)
        → (r ≡ ok a) ⊎ ((x : SaveError) × (r ≡ err x))
        → (elim r as (λ _. Result SaveError Store) [
          | err x ↦ err x
          | ok row ↦ ok (insert a.agent_id row store)
        ])
          ≡ ok store'
        → (lookup j store' ≡ lookup j store) ⊎ ((a.agent_id ≡ j) × (lookup j store' ≡ some a))
    returned (ok row) (inl e) k =
        let same : row ≡ a = cc in wrote (ap (λ x. insert a.agent_id x store) (sym same) ∙ cc)
    returned (ok row) (inr (x, e)) k = cc
    returned (err x) c k = cc

    guarded :
        (b : Bool)
        → (elim (if b then err SaveError.revoked_overwrite else ok a)
            as (λ _. Result SaveError Store) [
              | err x ↦ err x
              | ok row ↦ ok (insert a.agent_id row store)
            ])
          ≡ ok store'
        → (lookup j store' ≡ lookup j store) ⊎ ((a.agent_id ≡ j) × (lookup j store' ≡ some a))
    guarded true k = cc
    guarded false k = returned (ok a) (inl refl) k

    go :
        (o : Option AgentSession)
        → (elim (row_to_save digest o a none) as (λ _. Result SaveError Store) [
          | err x ↦ err x
          | ok row ↦ ok (insert a.agent_id row store)
        ])
          ≡ ok store'
        → (lookup j store' ≡ lookup j store) ⊎ ((a.agent_id ≡ j) × (lookup j store' ≡ some a))
    go none k = returned (ok a) (inl refl) k
    go (some x) k = guarded (is_revoked x.status && not (is_revoked a.status)) k

module _ (digest : Dict String String → String) (float : Value → Option ℤ) ⦃e : Eq Fields⦄
    (settings : Settings) (c : Call) (j : String) where
  -- The row of an agent is as it was, or it is the new agent's: of this host, and pending, or active where
  -- the host is active and its defaults have every capability that the body asks for.
  abbrev pub IsConsented : HostIdentity → State → State → Type 0
  IsConsented host s s' =
      (lookup j s'.agents ≡ lookup j s.agents)
      ⊎ ((c.agent_id ≡ j)
          × ((row : AgentSession) × (lookup j s'.agents ≡ some row)
              × (row.host_id ≡ host.host_id)
              × ((row.status ≡ AgentSessionStatus.pending)
                  ⊎ ((row.status ≡ active)
                      × IsPreapproved host (parse_capability_registration_body c.body).0))))

  store_session-row :
      (session : AgentSession) (s : State)
      → (lookup j (store_session digest float session s).0.agents ≡ lookup j s.agents)
        ⊎ ((session.agent_id ≡ j)
            × (lookup j (store_session digest float session s).0.agents ≡ some session))
  unfolding store_session
  store_session-row session s = go (save digest session none s.agents) refl
    where
      go :
          (r : Result SaveError Store)
          → save digest session none s.agents ≡ r
          → let t : State × Result Refusal (Unit {0}) = (elim r [
            | err x ↦ (s, err server_error)
            | ok agents ↦ (record s { agents = agents }, ok tt)
          ]) in
            (lookup j t.0.agents ≡ lookup j s.agents)
            ⊎ ((session.agent_id ≡ j) × (lookup j t.0.agents ≡ some session))
      go (err x) d = inl refl
      go (ok agents) d = save-row digest session s.agents j agents d

  module _ (host : HostIdentity) (key : Jwk) (s : State) where
    pending-IsConsented :
        IsConsented host s (store_session digest float (new_session c host.host_id key) s).0
    unfolding new_session
    pending-IsConsented = elim (store_session-row (new_session c host.host_id key) s) [
      | inl same ↦ inl same
      | inr (is_new, at) ↦ inr (is_new, (new_session c host.host_id key, at, refl, inl refl))
    ]

    activate_now-IsConsented :
        (specs : List Fields) (s' : State)
        → IsConsented host s s'
        → escalation_requires_user_consent host (parse_capability_registration_body c.body).0
          ≡ false
        → IsConsented host s
            (activate_now digest float c (new_session c host.host_id key) specs s').0
    unfolding activate_now new_session
    activate_now-IsConsented specs s' h free =
        go (apply_request c.agent_id host.host_id specs s'.world)
      where
        go :
            (p : World × Result GrantError (Unit {0}))
            → let activated : AgentSession = record (new_session c host.host_id key) {
              status = active;
              activated_at = some c.now;
            } in
              let t = store_session digest float activated (record s' { world = p.0 }) in
              let r : State × Result Refusal AgentSession = (elim p.1 [
                | err x ↦ (record s' { world = p.0 }, err server_error)
                | ok _ ↦ (t.0, elim t.1 [ err x ↦ err x | ok _ ↦ ok activated ])
              ]) in
              IsConsented host s r.0
        go (w, err x) = h
        go (w, ok _) =
            elim (store_session-row
              (record (new_session c host.host_id key) {
                status = active;
                activated_at = some c.now;
              })
              (record s' { world = w })) [
                | inl same ↦ elim h [
                  | inl k ↦ inl (same ∙ k)
                  | inr (is_new, (row, at, mine, status)) ↦
                      inr (is_new, (row, same ∙ at, mine, status))
                ]
                | inr (is_new, at) ↦ inr (
                  is_new,
                  (
                    record (new_session c host.host_id key) {
                      status = active;
                      activated_at = some c.now;
                    },
                    at,
                    refl,
                    inr (
                      refl,
                      escalation_requires_user_consent-IsPreapproved host
                          (parse_capability_registration_body c.body).0 free,
                    ),
                  ),
                )
              ]

    request_approval-agents :
        (session : AgentSession) (names : List String) (specs : List Fields) (s' : State)
        → (request_approval digest float settings c host session names specs s').0.agents
          ≡ s'.agents
    unfolding request_approval
    request_approval-agents session names specs s' = go s'.world.approvals
      where
        go :
            (o : Option (Approval.Store Fields))
            → (elim o as (λ _. State × Result Refusal AgentSession) [
              | none ↦ (s', err server_error)
              | some store ↦
                  let (store', asked) = ask digest float settings c host names specs store in
                  (
                    record s' { world = record s'.world { approvals = some store' } },
                    elim asked [ err x ↦ err server_error | ok _ ↦ ok session ],
                  )
            ]).0.agents
              ≡ s'.agents
        go none = refl
        go (some store) = refl

    pub admit_agent-IsConsented :
        (claims : Fields)
        → IsConsented host s (admit_agent digest float settings c claims host key s).0
    unfolding admit_agent
    admit_agent-IsConsented claims =
        go needs refl
          (if needs then gate float settings c claims names host.host_id s.world else none) stored.1
      where
        names : List String
        names = (parse_capability_registration_body c.body).0

        specs : List Fields
        specs = (parse_capability_registration_body c.body).1

        needs : Bool
        needs = escalation_requires_user_consent host names

        session : AgentSession
        session = new_session c host.host_id key

        stored : State × Result Refusal (Unit {0})
        stored = store_session digest float session s

        branch : Bool → State × Result Refusal AgentSession
        branch b =
            if b
            then request_approval digest float settings c host session names specs stored.0
            else activate_now digest float c session specs stored.0

        branched : (b : Bool) → needs ≡ b → IsConsented host s (branch b).0
        branched true d =
            subst (λ a. IsConsented host s (record stored.0 { agents = a }))
              (sym (request_approval-agents session names specs stored.0)) pending-IsConsented
        branched false d = activate_now-IsConsented specs stored.0 pending-IsConsented d

        go :
            (b : Bool)
            → needs ≡ b
            → (refused : Option Refusal) (saved : Result Refusal (Unit {0}))
            → let r : State × Result Refusal AgentSession = (elim refused [
              | some x ↦ (s, err x)
              | none ↦ elim saved [ err x ↦ (stored.0, err x) | ok _ ↦ branch b ]
            ]) in
              IsConsented host s r.0
        go b d (some x) saved = inl refl
        go b d none (err x) = pending-IsConsented
        go b d none (ok _) = branched b d
