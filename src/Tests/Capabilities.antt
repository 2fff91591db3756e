-- ===== src/Tests/Capabilities.antt =====
-- Grants, their constraints and their escalation, for src/asap/auth/capabilities.py and
-- src/asap/transport/agent_routes.py.
use asap_protocol.Prelude.{
  true, false, none, some, [], ◌∷◌, ◌≡◌, ◌↔◌, ◌⊎◌, refl, lookup, insert, contains, string_eq, strip,
  List,
}
use asap_protocol.Json.{
  pos, Value, text, number, array, object, nil, cons, Fields, end, field, get_field, as_number,
  int_ltb, is_item, same_value,
}
use asap_protocol.Identity.Hosts.{HostIdentity, HostStatus}
use asap_protocol.Capability.Constraints.{validate_constraints}
use asap_protocol.Capability.Registry.{
  CapabilityGrant, CapabilityRegistry, GrantStatus, check_grant, get_grants, grants_of, grant,
}
use asap_protocol.Capability.Soundness.{is_allowed, IsGranted, check_grant-allowed_iff}
use asap_protocol.Capability.Escalation.{
  partition_escalation_capability_specs, apply_capability_specs_to_registry,
}
use asap_protocol.Capability.Granting.{IsValid, grant-IsValid}
use asap_protocol.Capability.Keeping.{auto_grant-keeps}

-- at most 100, in one of two currencies
abbrev limits : Fields
limits = field "amount" (object (field "max" (number (pos 100)) end)) (
    field "currency" (object (field "in" (array (cons (text "EUR") (cons (text "USD") nil))) end))
      end)

abbrev payment : Fields
payment = field "amount" (number (pos 80)) (field "currency" (text "USD") end)

abbrev pay : CapabilityGrant
pay = record {
  capability = "pay";
  status = GrantStatus.active;
  constraints = some limits;
  granted_by = some "h1";
  reason = none;
  expires_at = some 500;
}

abbrev registry : CapabilityRegistry
registry = record {
  definitions =
      (
        "pay",
        record {
          name = "pay";
          description = "";
          input_schema = none;
          output_schema = none;
          location = none;
        },
      )
      ∷ (
        "read",
        record {
          name = "read";
          description = "";
          input_schema = none;
          output_schema = none;
          location = none;
        },
      )
      ∷ [];
  grants = ("a1", ("pay", pay) ∷ []) ∷ [];
}

check_grant-allowed_iff_example :
    (is_allowed (check_grant 400 "a1" "pay" (some payment) registry) ≡ true)
    ↔ ((g : CapabilityGrant) × IsGranted 400 "a1" "pay" payment registry g)
check_grant-allowed_iff_example = check_grant-allowed_iff 400 "a1" "pay" (some payment) registry

paying_is_allowed : is_allowed (check_grant 400 "a1" "pay" (some payment) registry) ≡ true
unfolding check_grant lookup validate_constraints get_field as_number int_ltb is_item
paying_is_allowed = refl

-- the expiry has passed
paying_is_refused : is_allowed (check_grant 501 "a1" "pay" (some payment) registry) ≡ false
unfolding check_grant lookup
paying_is_refused = refl

abbrev host : HostIdentity
host = record {
  host_id = "h1";
  name = none;
  public_key = [];
  user_id = none;
  default_capabilities = "pay" ∷ "read" ∷ [];
  status = HostStatus.active;
  created_at = 0;
  updated_at = 0;
}

-- a bid for unlimited payments, and one for a capability that is new
abbrev bids : List Value
bids = object (field "name" (text "pay") end) ∷ object (field "name" (text "read") end) ∷ []

abbrev undescribed : CapabilityRegistry
undescribed = record { definitions = registry.definitions; grants = [] }

undescribed-IsValid : IsValid undescribed
unfolding lookup grants_of
undescribed-IsValid = record { keyed = λ a. tt; unique = λ a. tt }

abbrev granted : CapabilityRegistry
granted = grant "a1" pay undescribed

auto_grant-keeps_example :
    let auto = (partition_escalation_capability_specs host bids (get_grants "a1" granted)).1 in
    let after = (apply_capability_specs_to_registry "a1" "h1" auto granted).0 in
    (lookup "read" (grants_of "a1" after) ≡ lookup "read" (grants_of "a1" granted))
    ⊎ ((lookup "read" (grants_of "a1" granted) ≡ none)
        × (contains "read" host.default_capabilities ≡ true))
unfolding partition_escalation_capability_specs get_grants lookup grant strip get_field contains
    insert same_value
auto_grant-keeps_example =
    auto_grant-keeps host bids "a1" "h1" "read" granted
      (grant-IsValid "a1" pay undescribed undescribed-IsValid) (refl, tt)
