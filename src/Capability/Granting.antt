-- ===== src/Capability/Granting.antt =====
-- What granting one spec after another does to the grants of an agent, for src/asap/auth/capabilities.py
-- and src/asap/transport/agent_routes.py.
use asap_protocol.Prelude.{
  String, none, some, if◌then◌else◌, [], ◌∷◌, ◌==◌, string_eq, lookup, insert, lookup-insert,
  IsUnique, insert-IsUnique, ok, arith, ◌≡◌, refl, beq_refl,
}
use asap_protocol.Json.{Fields}
use asap_protocol.Capability.Registry.{
  CapabilityGrant, CapabilityRegistry, Grants, or_no_grants, values, grants_of, grant,
}
use asap_protocol.Capability.Escalation.{by_name, name_of, granted_row, row_for}

-- each grant stands under its capability
abbrev pub IsKeyed : Grants → Type 0
IsKeyed [] = Unit {0}
IsKeyed ((name, g) ∷ d) = (g.capability ≡ name) × IsKeyed d

-- Every agent's grants are a dict under the capabilities' names.
pub record IsValid (r : CapabilityRegistry) : Type 0 where
  pub keyed : (agent : String) → IsKeyed (grants_of agent r)
  pub unique : (agent : String) → IsUnique (grants_of agent r)

pub insert-IsKeyed :
    (name : String) (g : CapabilityGrant) (d : Grants)
    → g.capability ≡ name
    → IsKeyed d
    → IsKeyed (insert name g d)
unfolding insert
insert-IsKeyed name g [] e h = (e, tt)
insert-IsKeyed name g ((j, k) ∷ d) e h =
    ground (arith, insert-IsKeyed name g d, string_eq.beq_iff j name)

pub grants_of-grant :
    (agent other : String) (g : CapabilityGrant) (r : CapabilityRegistry)
    → grants_of other (grant agent g r)
      ≡ (if agent == other then insert g.capability g (grants_of other r) else grants_of other r)
unfolding grants_of grant
grants_of-grant agent other g r = ground (
  arith,
  lookup-insert agent other (insert g.capability g (or_no_grants (lookup agent r.grants))) r.grants,
  string_eq.beq_iff agent other,
)

-- Granting keeps every agent's grants a dict under the capabilities' names.
pub grant-IsValid :
    (agent : String) (g : CapabilityGrant) (r : CapabilityRegistry)
    → IsValid r
    → IsValid (grant agent g r)
grant-IsValid agent g r h = record {
  keyed = λ other. ground (
    arith,
    grants_of-grant agent other g r,
    insert-IsKeyed g.capability g (grants_of other r) refl,
    h.keyed other,
  );
  unique = λ other. ground (
    arith,
    grants_of-grant agent other g r,
    insert-IsUnique g.capability g (grants_of other r),
    h.unique other,
  );
}

pub lookup-by_name :
    (n : String) (d acc : Grants)
    → IsKeyed d
    → IsUnique d
    → lookup n (by_name (values d) acc)
      ≡ (elim (lookup n d) [ none ↦ lookup n acc | some g ↦ some g ])
unfolding values by_name lookup
lookup-by_name n [] acc k u = refl
lookup-by_name n ((j, g) ∷ d) acc k u = ground (
  arith,
  lookup-by_name n d (insert g.capability g acc) k.1 u.1,
  lookup-insert g.capability n g acc,
  string_eq.beq_iff j n,
)

pub row_for-capability :
    (r : CapabilityRegistry) (host_id : String) (spec : Fields) (g : CapabilityGrant)
    → row_for r host_id spec ≡ ok g
    → g.capability ≡ name_of spec
unfolding row_for granted_row
row_for-capability r host_id spec g e = ground arith

pub lookup-grant :
    (agent cap : String) (g : CapabilityGrant) (r : CapabilityRegistry)
    → lookup cap (grants_of agent (grant agent g r))
      ≡ (if g.capability == cap then some g else lookup cap (grants_of agent r))
lookup-grant agent cap g r =
    rw (grants_of-grant agent agent g r)
      (rw (beq_refl agent) (lookup-insert g.capability cap g (grants_of agent r)))
