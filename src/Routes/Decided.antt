-- ===== src/Routes/Decided.antt =====
-- What `_handle_agent_status` of src/asap/transport/agent_routes.py makes of an agent with a request.
use asap_protocol.Prelude.{
  ℕ, String, Bool, true, false, ◌&&◌, Option, none, some, if◌then◌else◌, Dict, lookup, string_eq,
  Result, ok, err, ◌≡◌, refl, ◌⊎◌, inl, inr, Bool-cases,
}
use asap_protocol.Identity.Sessions.{AgentSession, is_active}
use asap_protocol.Identity.Agents.{Store, SaveError, save}
use asap_protocol.Approval.Requests.{Status, approved, denied, expired}
use asap_protocol.Capability.Escalation.{GrantError}
use asap_protocol.Routes.Status.{
  Request, World, Agents, is_pending_agent, is_escalation, apply_request, save_pending, activate,
  reject, settle_registration, settle,
}
use asap_protocol.Routes.Granted.{IsGranted, apply_request-IsGranted, settle_escalation-IsGranted}

module _ (agent_id host_id : String) (appr : Request) where
  module _ (digest : Dict String String → String) (now : ℕ) where
    -- The agents are as they were at the save, or the row that was pending when it was read again is saved
    -- as active, where the request is approved, or as rejected, where it is denied.
    abbrev pub IsDecided : Agents → Store → Type 0
    IsDecided a agents =
        (agents ≡ a.at_save)
        ⊎ ((fresh : AgentSession) × (lookup agent_id a.at_reread ≡ some fresh)
            × (is_pending_agent fresh.status ≡ true)
            × (((appr.status ≡ approved)
                  × (save digest (activate digest now fresh) (some fresh.public_key) a.at_save
                      ≡ ok agents))
                ⊎ ((appr.status ≡ denied)
                    × (save digest (reject digest fresh) (some fresh.public_key) a.at_save
                        ≡ ok agents))))

    save_pending-some :
        (change : AgentSession → AgentSession) (reread later agents : Store)
        → save_pending digest change agent_id reread later ≡ some agents
        → (fresh : AgentSession) × (lookup agent_id reread ≡ some fresh)
          × (is_pending_agent fresh.status ≡ true)
          × (save digest (change fresh) (some fresh.public_key) later ≡ ok agents)
    unfolding save_pending
    save_pending-some change reread later agents h = go (lookup agent_id reread) h
      where
        saved :
            (r : Result SaveError Store)
            → (elim r as (λ _. Option Store) [ err e ↦ none | ok s ↦ some s ]) ≡ some agents
            → r ≡ ok agents
        saved (err e) k = cc
        saved (ok s) k = cc

        go :
            (o : Option AgentSession)
            → (elim o as (λ _. Option Store) [
              | none ↦ none
              | some fresh ↦
                  if is_pending_agent fresh.status
                  then elim (save digest (change fresh) (some fresh.public_key) later) [
                    | err e ↦ none
                    | ok s ↦ some s
                  ]
                  else none
            ])
              ≡ some agents
            → (fresh : AgentSession) × (o ≡ some fresh)
              × (is_pending_agent fresh.status ≡ true)
              × (save digest (change fresh) (some fresh.public_key) later ≡ ok agents)
        go none k = cc
        go (some fresh) k = pending (is_pending_agent fresh.status) refl k
          where
            pending :
                (b : Bool)
                → is_pending_agent fresh.status ≡ b
                → (if b
                    then (elim (save digest (change fresh) (some fresh.public_key) later)
                        as (λ _. Option Store) [ err e ↦ none | ok s ↦ some s ])
                    else none)
                  ≡ some agents
                → (f : AgentSession) × (some fresh ≡ some f)
                  × (is_pending_agent f.status ≡ true)
                  × (save digest (change f) (some f.public_key) later ≡ ok agents)
            pending true e k' = (
              fresh,
              refl,
              e,
              saved (save digest (change fresh) (some fresh.public_key) later) k',
            )
            pending false e k' = cc

    registration-IsDecided :
        (a : Agents) (w : World)
        → let (agents, w', done) = settle_registration digest now agent_id host_id appr a w in
          IsDecided a agents × IsGranted agent_id host_id appr w w'
    unfolding settle_registration
    registration-IsDecided a w = go appr.status refl
      where
        applied : World × Result GrantError (Unit {0})
        applied = apply_request agent_id host_id appr.capability_specs w

        accept :
            (o : Option Store)
            → save_pending digest (activate digest now) agent_id a.at_reread a.at_save ≡ o
            → appr.status ≡ approved
            → let r : Store × World × Result GrantError (Unit {0}) = (elim o [
              | none ↦ (a.at_save, w, ok tt)
              | some later ↦ (later, applied.0, applied.1)
            ]) in
              IsDecided a r.0 × IsGranted agent_id host_id appr w r.1
        accept none e h = (inl refl, inl refl)
        accept (some later) e h =
            let (fresh, there, is_pending, saved) =
              save_pending-some (activate digest now) a.at_reread a.at_save later e in
            (
              inr (fresh, there, is_pending, inl (h, saved)),
              apply_request-IsGranted agent_id host_id appr w h,
            )

        refuse :
            (o : Option Store)
            → save_pending digest (reject digest) agent_id a.at_reread a.at_save ≡ o
            → appr.status ≡ denied
            → let r : Store × World × Result GrantError (Unit {0}) = (elim o [
              | none ↦ (a.at_save, w, ok tt)
              | some later ↦ (later, w, ok tt)
            ]) in
              IsDecided a r.0 × IsGranted agent_id host_id appr w r.1
        refuse none e h = (inl refl, inl refl)
        refuse (some later) e h =
            let (fresh, there, is_pending, saved) =
              save_pending-some (reject digest) a.at_reread a.at_save later e in
            (inr (fresh, there, is_pending, inr (h, saved)), inl refl)

        go :
            (s : Status)
            → appr.status ≡ s
            → let r : Store × World × Result GrantError (Unit {0}) = (elim s [
              | approved ↦
                  elim (save_pending digest (activate digest now) agent_id a.at_reread a.at_save) [
                    | none ↦ (a.at_save, w, ok tt)
                    | some later ↦ (later, applied.0, applied.1)
                  ]
              | denied ↦ elim (save_pending digest (reject digest) agent_id a.at_reread a.at_save) [
                | none ↦ (a.at_save, w, ok tt)
                | some later ↦ (later, w, ok tt)
              ]
              | _ ↦ (a.at_save, w, ok tt)
            ]) in
              IsDecided a r.0 × IsGranted agent_id host_id appr w r.1
        go approved e =
            accept (save_pending digest (activate digest now) agent_id a.at_reread a.at_save) refl e
        go denied e =
            refuse (save_pending digest (reject digest) agent_id a.at_reread a.at_save) refl e
        go expired e = (inl refl, inl refl)
        go Status.pending e = (inl refl, inl refl)

    pub settle-IsDecided :
        (session : AgentSession) (a : Agents) (w : World)
        → let (agents, w', done) = settle digest now agent_id host_id session (some appr) a w in
          IsDecided a agents × IsGranted agent_id host_id appr w w'
    unfolding settle
    settle-IsDecided session a w =
        elim (Bool-cases (is_active session.status && is_escalation appr.approval_kind)) [
          | inl escalating ↦
              rw escalating (inl refl, settle_escalation-IsGranted agent_id host_id appr w)
          | inr other ↦ rw other (elim (Bool-cases (is_pending_agent session.status)) [
            | inl registering ↦ rw registering (registration-IsDecided a w)
            | inr settled ↦ rw settled (inl refl, inl refl)
          ])
        ]

-- What a poll leaves: all as it was at the save, or, for an agent of the calling host with a request in the
-- store, what the decision on that request allows.
