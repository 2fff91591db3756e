-- ===== src/Routes/Granted.antt =====
-- What `_handle_agent_status` of src/asap/transport/agent_routes.py may change in the capability registry.
use asap_protocol.Prelude.{
  ℕ, String, Option, none, some, if◌then◌else◌, string_eq, Result, ok, err, ◌≡◌, refl, ◌∙◌, ◌⊎◌,
  inl, inr, Bool-cases,
}
use asap_protocol.Json.{Fields}
use asap_protocol.Approval.Requests.{Status, approved, denied, expired, get, remove}
use asap_protocol.Approval.Requests as Approval
use asap_protocol.Capability.Registry.{CapabilityRegistry}
use asap_protocol.Capability.Escalation.{GrantError, apply_capability_specs_to_registry}
use asap_protocol.Routes.Status.{
  Request, World, is_empty, get_request, remove_request, apply_request, settle_escalation,
}

pub get_request-registry :
    (now : ℕ) (agent_id : String) (w : World) → (get_request now agent_id w).0.registry ≡ w.registry
unfolding get_request
get_request-registry now agent_id w = go w.approvals
  where
    go :
        (o : Option (Approval.Store Fields))
        → (elim o as (λ _. World × Option Request) [
          | none ↦ (w, none)
          | some store ↦
              (record w { approvals = some (get now agent_id store).0 }, (get now agent_id store).1)
        ]).0.registry
          ≡ w.registry
    go none = refl
    go (some store) = refl

remove_request-registry :
    (agent_id : String) (w : World) → (remove_request agent_id w).registry ≡ w.registry
unfolding remove_request
remove_request-registry agent_id w = go w.approvals
  where
    go :
        (o : Option (Approval.Store Fields))
        → (elim o as (λ _. World) [
          | none ↦ w
          | some store ↦ record w { approvals = some (remove agent_id store) }
        ]).registry
          ≡ w.registry
    go none = refl
    go (some store) = refl

module _ (agent_id host_id : String) (appr : Request) where
  -- The registry is as it was, or the specs of the request, which is approved, are applied to it.
  abbrev pub IsGranted : World → World → Type 0
  IsGranted w w' =
      (w'.registry ≡ w.registry)
      ⊎ ((appr.status ≡ approved)
          × ((registry : CapabilityRegistry) × (w.registry ≡ some registry)
              × (w'.registry
                  ≡ some
                      (apply_capability_specs_to_registry agent_id host_id appr.capability_specs
                        registry).0)))

  pub apply_request-IsGranted :
      (w : World)
      → appr.status ≡ approved
      → IsGranted w (apply_request agent_id host_id appr.capability_specs w).0
  unfolding apply_request
  apply_request-IsGranted w h = go w.registry refl
    where
      go :
          (o : Option CapabilityRegistry)
          → w.registry ≡ o
          → IsGranted w
              (elim o as (λ _. World × Result GrantError (Unit {0})) [
                | none ↦ (w, ok tt)
                | some registry ↦
                    let (registry', done) =
                      apply_capability_specs_to_registry agent_id host_id appr.capability_specs
                        registry in
                    if is_empty appr.capability_specs
                    then (w, ok tt)
                    else (record w { registry = some registry' }, done)
              ]).0
      go none e = inl refl
      go (some registry) e = elim (Bool-cases (is_empty appr.capability_specs)) [
        | inl nothing ↦ rw nothing (inl refl)
        | inr something ↦ rw something (inr (h, (registry, e, refl)))
      ]

  pub settle_escalation-IsGranted :
      (w : World) → IsGranted w (settle_escalation agent_id host_id appr w).0
  unfolding settle_escalation
  settle_escalation-IsGranted w = go appr.status refl
    where
      applied : World × Result GrantError (Unit {0})
      applied = apply_request agent_id host_id appr.capability_specs w

      removed :
          (r : Result GrantError (Unit {0}))
          → appr.status ≡ approved
          → IsGranted w
              (elim r as (λ _. World × Result GrantError (Option Request)) [
                | err e ↦ (applied.0, err e)
                | ok _ ↦ (remove_request agent_id applied.0, ok none)
              ]).0
      removed (err e) h = apply_request-IsGranted w h
      removed (ok _) h = elim (apply_request-IsGranted w h) [
        | inl same ↦ inl (remove_request-registry agent_id applied.0 ∙ same)
        | inr (a, (r, e, f)) ↦ inr (a, (r, e, remove_request-registry agent_id applied.0 ∙ f))
      ]

      go :
          (s : Status)
          → appr.status ≡ s
          → IsGranted w
              (elim s as (λ _. World × Result GrantError (Option Request)) [
                | approved ↦ elim applied.1 [
                  | err e ↦ (applied.0, err e)
                  | ok _ ↦ (remove_request agent_id applied.0, ok none)
                ]
                | denied ↦ (remove_request agent_id w, ok none)
                | expired ↦ (remove_request agent_id w, ok none)
                | Status.pending ↦ (w, ok (some appr))
              ]).0
      go approved e = removed applied.1 e
      go denied e = inl (remove_request-registry agent_id w)
      go expired e = inl (remove_request-registry agent_id w)
      go Status.pending e = inl refl
