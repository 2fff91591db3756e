-- ===== src/Capability/Registry.antt =====
-- `CapabilityGrant` and `CapabilityRegistry` of src/asap/auth/capabilities.py.
use asap_protocol.Prelude.{
  ℕ, String, Bool, true, false, not, Option, none, some, if◌then◌else◌, ltb, List, [], ◌∷◌, map,
  Dict, lookup, insert, string_eq, ok, ◌>>=◌,
}
use asap_protocol.Json.{Fields, end, is_end}
use asap_protocol.Capability.Constraints.{ConstraintViolation, IsChecked, validate_constraints}

pub data GrantStatus : Type 0 where
  active pending denied : GrantStatus

pub record CapabilityGrant : Type 0 where
  pub capability : String
  pub status : GrantStatus
  pub constraints : Option Fields
  pub granted_by : Option String
  pub reason : Option String
  pub expires_at : Option ℕ

pub record CapabilityDefinition : Type 0 where
  pub name : String
  pub description : String
  pub input_schema : Option Fields
  pub output_schema : Option Fields
  pub location : Option String

abbrev pub Grants : Type 0
Grants = Dict String CapabilityGrant

pub record CapabilityRegistry : Type 0 where
  pub definitions : Dict String CapabilityDefinition
  pub grants : Dict String Grants

unfoldable pub register : CapabilityDefinition → CapabilityRegistry → CapabilityRegistry
register d r = record r { definitions = insert d.name d r.definitions }

unfoldable pub describe : String → CapabilityRegistry → Option CapabilityDefinition
describe name r = lookup name r.definitions

-- `list(d.values())`
unfoldable pub values : {V : Type 0} → Dict String V → List V
values d = map (λ e. e.1) d

unfoldable pub list_capabilities : CapabilityRegistry → List CapabilityDefinition
unfolding values
list_capabilities r = values r.definitions

abbrev pub or_no_grants : Option Grants → Grants
or_no_grants none = []
or_no_grants (some gs) = gs

unfoldable pub grants_of : String → CapabilityRegistry → Grants
grants_of agent_id r = or_no_grants (lookup agent_id r.grants)

-- the row that the keyword arguments make is the argument `g`
unfoldable pub grant : String → CapabilityGrant → CapabilityRegistry → CapabilityRegistry
unfolding grants_of
grant agent_id g r = record r {
  grants = insert agent_id (insert g.capability g (grants_of agent_id r)) r.grants;
}

unfoldable pub get_grants : String → CapabilityRegistry → List CapabilityGrant
unfolding grants_of values
get_grants agent_id r = values (grants_of agent_id r)

pub record GrantCheckResult : Type 0 where
  pub allowed : Bool
  pub violations : List ConstraintViolation
  pub found : Option CapabilityGrant

abbrev pub is_active : GrantStatus → Bool
is_active active = true
is_active _ = false

-- `expires_at is not None and now > expires_at`
unfoldable pub has_expired : ℕ → Option ℕ → Bool
has_expired now none = false
has_expired now (some t) = ltb t now

abbrev pub refusal : List ConstraintViolation → Option CapabilityGrant → GrantCheckResult
refusal vs g = record { allowed = false; violations = vs; found = g }

abbrev pub or_end : Option Fields → Fields
or_end none = end
or_end (some fs) = fs

abbrev pub is_empty : {A : Type 0} → List A → Bool
is_empty [] = true
is_empty (_ ∷ _) = false

-- an empty dict of constraints checks as none does
unfoldable pub check_constraints : CapabilityGrant → Option Fields → IsChecked GrantCheckResult
check_constraints g arguments =
    if is_end (or_end g.constraints)
    then ok (record { allowed = true; violations = []; found = some g })
    else (do
      vs ← validate_constraints (or_end g.constraints) (or_end arguments)
      ok (
          if is_empty vs
          then record { allowed = true; violations = []; found = some g }
          else refusal vs (some g)))

unfoldable pub check_grant :
    ℕ → String → String → Option Fields → CapabilityRegistry → IsChecked GrantCheckResult
unfolding grants_of has_expired check_constraints
check_grant now agent_id capability arguments r = elim (lookup capability (grants_of agent_id r)) [
  | none ↦ ok (refusal [] none)
  | some g ↦
      if not (is_active g.status)
      then ok (refusal [] (some g))
      else if has_expired now g.expires_at
      then ok (refusal [] (some g))
      else check_constraints g arguments
]
