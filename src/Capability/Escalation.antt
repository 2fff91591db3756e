-- ===== src/Capability/Escalation.antt =====
-- Escalation of grants: the policy of src/asap/auth/capabilities.py, and the granting of
-- src/asap/transport/agent_routes.py.
use asap_protocol.Prelude.{
  String, Bool, true, false, ◌&&◌, ◌||◌, not, Option, none, some, if◌then◌else◌, List, [], ◌∷◌,
  ◌==◌, string_eq, contains, strip, is_none, lookup, insert, Result, ok, err,
}
use asap_protocol.Json.{Value, null, text, object, Fields, get_field, same_value, or_null}
use asap_protocol.Identity.Hosts.{HostIdentity, HostStatus}
use asap_protocol.Capability.Registry.{
  CapabilityGrant, CapabilityRegistry, active, denied, is_active, Grants, get_grants, grant,
  describe,
}

abbrev is_active_host : HostStatus → Bool
is_active_host HostStatus.active = true
is_active_host _ = false

-- `set(xs).issubset(ys)`
unfoldable pub is_subset : List String → List String → Bool
is_subset [] ys = true
is_subset (x ∷ xs) ys = contains x ys && is_subset xs ys

unfoldable pub escalation_requires_user_consent : HostIdentity → List String → Bool
unfolding is_subset
escalation_requires_user_consent host names =
    if is_active_host host.status then not (is_subset names host.default_capabilities) else true

-- an optional dict as the value that it is compared by
abbrev pub as_value : Option Fields → Value
as_value none = null
as_value (some fs) = object fs

unfoldable pub auto_grant_would_replace_existing_grant : Option CapabilityGrant → Value → Bool
auto_grant_would_replace_existing_grant none requested = false
auto_grant_would_replace_existing_grant (some existing) requested =
    not (is_active existing.status)
    || not (same_value (as_value existing.constraints) requested)
    || not (is_none existing.expires_at)

-- `{g.capability: g for g in grants}`
unfoldable pub by_name : List CapabilityGrant → Grants → Grants
by_name [] d = d
by_name (g ∷ gs) d = by_name gs (insert g.capability g d)

-- a name that is no text counts as empty
abbrev pub text_or_empty : Value → String
text_or_empty (text s) = s
text_or_empty _ = ""

unfoldable pub name_of : Fields → String
name_of spec = text_or_empty (or_null (get_field "name" spec))

unfoldable pub constraints_of : Fields → Value
constraints_of spec = or_null (get_field "constraints" spec)

abbrev pub put_first : {A B : Type 0} → A → List A × B → List A × B
put_first a (xs, b) = (a ∷ xs, b)

abbrev pub put_second : {A B : Type 0} → B → A × List B → A × List B
put_second b (a, ys) = (a, b ∷ ys)

-- the loop over the specs, with what `grant_by_name` and the host's policy say of a name
unfoldable pub partition_specs : HostIdentity → Grants → List Value → List Fields × List Fields
unfolding escalation_requires_user_consent auto_grant_would_replace_existing_grant name_of
    constraints_of
partition_specs host granted [] = ([], [])
partition_specs host granted (object spec ∷ specs) =
    let rest = partition_specs host granted specs in
    let name = strip (name_of spec) in
    if name == ""
    then rest
    else if escalation_requires_user_consent host (name ∷ [])
        || auto_grant_would_replace_existing_grant (lookup name granted) (constraints_of spec)
    then put_first spec rest
    else put_second spec rest
partition_specs host granted (_ ∷ specs) = partition_specs host granted specs

-- the specs that need consent, and those to grant at once
unfoldable pub partition_escalation_capability_specs :
    HostIdentity → List Value → List CapabilityGrant → List Fields × List Fields
unfolding partition_specs by_name
partition_escalation_capability_specs host specs existing =
    partition_specs host (by_name existing []) specs

-- `CapabilityGrant(constraints=...)` refuses what is neither a dict nor None
pub data GrantError : Type 0 where
  invalid_constraints : GrantError

abbrev pub as_constraints : Value → Result GrantError (Option Fields)
as_constraints null = ok none
as_constraints (object fs) = ok (some fs)
as_constraints _ = err invalid_constraints

-- The row that is written: the Boolean is whether the registry describes the capability. The reason's
-- text names the capability in the code.
unfoldable pub granted_row : Bool → String → String → Option Fields → CapabilityGrant
granted_row true name host_id constraints = record {
  capability = name;
  status = active;
  constraints = constraints;
  granted_by = some host_id;
  reason = none;
  expires_at = none;
}
granted_row false name host_id constraints = record {
  capability = name;
  status = denied;
  constraints = none;
  granted_by = some host_id;
  reason = some "capability not found";
  expires_at = none;
}

-- the row that a spec leads to, where the registry is to be written
unfoldable pub row_for : CapabilityRegistry → String → Fields → Result GrantError CapabilityGrant
unfolding granted_row name_of constraints_of
row_for r host_id spec =
    if is_none (describe (name_of spec) r)
    then ok (granted_row false (name_of spec) host_id none)
    else elim (as_constraints (constraints_of spec)) [
      | err e ↦ err e
      | ok cs ↦ ok (granted_row true (name_of spec) host_id cs)
    ]

-- whether the spec's grant is left as it is
unfoldable pub is_kept : Grants → Fields → Bool
unfolding auto_grant_would_replace_existing_grant
is_kept existing spec =
    not (is_none (lookup (name_of spec) existing))
    && not (
        auto_grant_would_replace_existing_grant (lookup (name_of spec) existing)
          (constraints_of spec))

-- The registry that the loop leaves, and whether it came to its end; the payloads that it lists for the
-- response are left out. `existing` is read once, before
-- the loop.
unfoldable pub apply_specs :
    String
    → String
    → Grants
    → List Fields
    → CapabilityRegistry
    → CapabilityRegistry × Result GrantError (Unit {0})
unfolding row_for is_kept
apply_specs agent_id host_id existing [] r = (r, ok tt)
apply_specs agent_id host_id existing (spec ∷ specs) r =
    let skipped = apply_specs agent_id host_id existing specs r in
    if name_of spec == "" || is_kept existing spec then skipped else elim (row_for r host_id spec) [
      | err e ↦ (r, err e)
      | ok g ↦ apply_specs agent_id host_id existing specs (grant agent_id g r)
    ]

unfoldable pub apply_capability_specs_to_registry :
    String
    → String
    → List Fields
    → CapabilityRegistry
    → CapabilityRegistry × Result GrantError (Unit {0})
unfolding apply_specs by_name
apply_capability_specs_to_registry agent_id host_id specs r =
    apply_specs agent_id host_id (by_name (get_grants agent_id r) []) specs r
