-- ===== src/Capability/Keeping.antt =====
-- What granting at once may change: src/asap/auth/capabilities.py with
-- src/asap/transport/agent_routes.py.
use asap_protocol.Prelude.{
  String, true, false, ◌||◌, Option, none, some, List, [], ◌∷◌, ◌==◌, string_eq, contains, strip,
  lookup, Result, ok, err, All, arith, ◌≡◌, refl, ap, sym, ◌∙◌, ◌⊎◌, inl, inr, Bool-cases, subst,
}
use asap_protocol.Json.{Value, null, boolean, number, text, array, object, Fields}
use asap_protocol.Identity.Hosts.{HostIdentity}
use asap_protocol.Capability.Registry.{
  CapabilityGrant, CapabilityRegistry, Grants, values, grants_of, get_grants, grant,
}
use asap_protocol.Capability.Escalation.{
  escalation_requires_user_consent, auto_grant_would_replace_existing_grant, by_name, name_of,
  constraints_of, partition_specs, partition_escalation_capability_specs, GrantError, row_for,
  is_kept, apply_specs, apply_capability_specs_to_registry,
}
use asap_protocol.Capability.Granting.{IsValid, lookup-by_name, row_for-capability, lookup-grant}

-- what the policy saw of a spec that it grants at once, by the name as it stands
abbrev IsHarmless : HostIdentity → Grants → Fields → Type 0
IsHarmless host granted spec =
    (auto_grant_would_replace_existing_grant (lookup (strip (name_of spec)) granted)
        (constraints_of spec)
      ≡ false)
    × (escalation_requires_user_consent host (strip (name_of spec) ∷ []) ≡ false)

partition-IsHarmless :
    (host : HostIdentity) (granted : Grants) (specs : List Value)
    → All (IsHarmless host granted) (partition_specs host granted specs).1
unfolding partition_specs
partition-IsHarmless host granted [] = tt
partition-IsHarmless host granted (null ∷ specs) = partition-IsHarmless host granted specs
partition-IsHarmless host granted (boolean _ ∷ specs) = partition-IsHarmless host granted specs
partition-IsHarmless host granted (number _ ∷ specs) = partition-IsHarmless host granted specs
partition-IsHarmless host granted (text _ ∷ specs) = partition-IsHarmless host granted specs
partition-IsHarmless host granted (array _ ∷ specs) = partition-IsHarmless host granted specs
partition-IsHarmless host granted (object spec ∷ specs) =
    ground (arith, partition-IsHarmless host granted specs)

module _ (agent host_id : String) (existing : Grants) (cap : String) where
  abbrev after : List Fields → CapabilityRegistry → Option CapabilityGrant
  after specs r = lookup cap (grants_of agent (apply_specs agent host_id existing specs r).0)

  -- One spec's step: it is left, it raises, or it writes a row under its name, which had none or may
  -- be replaced.
  apply_step :
      (spec : Fields) (specs : List Fields) (r : CapabilityRegistry)
      → (after (spec ∷ specs) r ≡ after specs r)
        ⊎ (after (spec ∷ specs) r ≡ lookup cap (grants_of agent r))
        ⊎ ((g : CapabilityGrant) × (g.capability ≡ name_of spec)
            × (is_kept existing spec ≡ false)
            × (after (spec ∷ specs) r ≡ after specs (grant agent g r)))
  unfolding apply_specs
  apply_step spec specs r = elim (Bool-cases (name_of spec == "" || is_kept existing spec)) [
    | inl h ↦ inl (rw h refl)
    | inr h ↦ go h (row_for r host_id spec) refl
  ]
    where
      go :
          (name_of spec == "" || is_kept existing spec) ≡ false
          → (o : Result GrantError CapabilityGrant) → row_for r host_id spec ≡ o
          → (after (spec ∷ specs) r ≡ after specs r)
            ⊎ (after (spec ∷ specs) r ≡ lookup cap (grants_of agent r))
            ⊎ ((g : CapabilityGrant) × (g.capability ≡ name_of spec)
                × (is_kept existing spec ≡ false)
                × (after (spec ∷ specs) r ≡ after specs (grant agent g r)))
      go h (err e) p = inr (inl (rw h (rw p refl)))
      go h (ok g) p =
          inr (inr (g, row_for-capability r host_id spec g p, ground arith, rw h (rw p refl)))

  other_name :
      (spec : Fields) (row g : CapabilityGrant)
      → auto_grant_would_replace_existing_grant
          (lookup (name_of spec) existing)
          (constraints_of spec)
        ≡ false
      → lookup cap existing ≡ some g
      → row.capability ≡ name_of spec
      → is_kept existing spec ≡ false
      → (row.capability == cap) ≡ false
  unfolding is_kept
  other_name spec row g free at named open_row = elim (Bool-cases (row.capability == cap)) [
    | inr h ↦ h
    | inl h ↦
        let found : lookup (name_of spec) existing ≡ some g =
          ap (λ n. lookup n existing) (sym named ∙ (string_eq.beq_iff row.capability cap).0 h)
          ∙ at in
        ground arith
  ]

  -- A grant that was there is left as it is, where no spec is to replace one.
  apply_specs-keeps :
      (specs : List Fields) (r : CapabilityRegistry) (g : CapabilityGrant)
      → All
          (λ spec.
            auto_grant_would_replace_existing_grant
              (lookup (name_of spec) existing)
              (constraints_of spec)
            ≡ false)
          specs
      → lookup cap existing ≡ some g
      → after specs r ≡ lookup cap (grants_of agent r)
  unfolding apply_specs
  apply_specs-keeps [] r g h at = refl
  apply_specs-keeps (spec ∷ specs) r g h at = elim (apply_step spec specs r) [
    | inl e ↦ e ∙ apply_specs-keeps specs r g h.1 at
    | inr (inl e) ↦ e
    | inr (inr (row, named, open_row, e)) ↦
        e
        ∙ apply_specs-keeps specs (grant agent row r) g h.1 at
        ∙ lookup-grant agent cap row r
        ∙ rw (other_name spec row g h.0 at named open_row) refl
  ]

  -- Each row that changes stands under the name of a spec.
  apply_specs-within :
      (Q : String → Type 0) (specs : List Fields) (r : CapabilityRegistry)
      → All (λ spec. Q (name_of spec)) specs
      → (after specs r ≡ lookup cap (grants_of agent r)) ⊎ Q cap
  unfolding apply_specs
  apply_specs-within Q [] r h = inl refl
  apply_specs-within Q (spec ∷ specs) r h = elim (apply_step spec specs r) [
    | inl e ↦ elim (apply_specs-within Q specs r h.1) [ inl x ↦ inl (e ∙ x) | inr q ↦ inr q ]
    | inr (inl e) ↦ inl e
    | inr (inr (row, named, open_row, e)) ↦
        elim (apply_specs-within Q specs (grant agent row r) h.1) [
          | inr q ↦ inr q
          | inl x ↦ elim (Bool-cases (row.capability == cap)) [
            | inl same ↦
                inr (subst Q (sym named ∙ (string_eq.beq_iff row.capability cap).0 same) h.0)
            | inr other ↦ inl (e ∙ x ∙ lookup-grant agent cap row r ∙ rw other refl)
          ]
        ]
  ]

stripped :
    (P : String → Type 0) (Q : Fields → Type 0) (specs : List Fields)
    → ((spec : Fields) → Q spec → P (strip (name_of spec)))
    → All Q specs
    → All (λ spec. strip (name_of spec) ≡ name_of spec) specs
    → All (λ spec. P (name_of spec)) specs
stripped P Q [] f h e = tt
stripped P Q (spec ∷ specs) f h e = (subst P e.0 (f spec h.0), stripped P Q specs f h.1 e.1)

harmless_named :
    (host : HostIdentity) (granted : Grants) (specs : List Fields)
    → All (IsHarmless host granted) specs
    → All (λ spec. strip (name_of spec) ≡ name_of spec) specs
    → All
        (λ spec.
          auto_grant_would_replace_existing_grant
            (lookup (name_of spec) granted)
            (constraints_of spec)
          ≡ false)
        specs
harmless_named host granted [] h e = tt
harmless_named host granted (spec ∷ specs) h e = (
  subst
      (λ n.
        auto_grant_would_replace_existing_grant (lookup n granted) (constraints_of spec) ≡ false)
      e.0 h.0.0,
  harmless_named host granted specs h.1 e.1,
)

default_of_no_consent :
    (host : HostIdentity) (n : String)
    → escalation_requires_user_consent host (n ∷ []) ≡ false
    → contains n host.default_capabilities ≡ true
unfolding escalation_requires_user_consent
default_of_no_consent host n h = ground arith

none_or : (o : Option CapabilityGrant) → (o ≡ none) ⊎ ((g : CapabilityGrant) × (o ≡ some g))
none_or none = inl refl
none_or (some g) = inr (g, refl)

-- Granting at once what the policy sorts out as free of consent, where the names have no space around
-- them, changes no grant that the agent has, whatever the specs ask, and a grant that it adds is of one
-- of the host's default capabilities.
pub auto_grant-keeps :
    (host : HostIdentity) (specs : List Value) (agent host_id cap : String) (r : CapabilityRegistry)
    → IsValid r
    → All
        (λ spec. strip (name_of spec) ≡ name_of spec)
        (partition_escalation_capability_specs host specs (get_grants agent r)).1
    → let auto = (partition_escalation_capability_specs host specs (get_grants agent r)).1 in
      let r' = (apply_capability_specs_to_registry agent host_id auto r).0 in
      (lookup cap (grants_of agent r') ≡ lookup cap (grants_of agent r))
      ⊎ ((lookup cap (grants_of agent r) ≡ none) × (contains cap host.default_capabilities ≡ true))
unfolding partition_escalation_capability_specs apply_capability_specs_to_registry get_grants
auto_grant-keeps host specs agent host_id cap r valid names =
    let d = grants_of agent r in
    let granted = by_name (values d) [] in
    let auto = (partition_specs host granted specs).1 in
    let harmless = partition-IsHarmless host granted specs in
    let same = lookup-by_name cap d [] (valid.keyed agent) (valid.unique agent) in
    elim (none_or (lookup cap d)) [
      | inr (g, at) ↦ inl (
          apply_specs-keeps agent host_id granted cap auto r g
            (harmless_named host granted auto harmless names) (same ∙ rw at refl))
      | inl new ↦
          elim (apply_specs-within agent host_id granted cap
            (λ n. contains n host.default_capabilities ≡ true) auto r
            (stripped (λ n. contains n host.default_capabilities ≡ true) (IsHarmless host granted)
              auto (λ spec h. default_of_no_consent host (strip (name_of spec)) h.1) harmless
              names)) [ inl kept ↦ inl kept | inr default ↦ inr (new, default) ]
    ]
