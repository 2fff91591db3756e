-- ===== src/Tests/Registrations.antt =====
-- The registration of an agent, for src/asap/transport/agent_routes.py.
use Prim.Native.String.{◌++◌ as ◌<>◌}
use asap_protocol.Prelude.{
  String, Bool, true, false, none, some, [], ◌∷◌, ◌≡◌, ◌⊎◌, ◌↔◌, refl, string_eq, ◌==◌, Eq, lookup,
  insert, Dict, is_blank, contains,
}
use native.Mathlib.Decide.{ℕ_discrete}
use asap_protocol.Json.{ℤ, text, object, array, cons, nil, Fields, field, end, get_field, as_number}
use asap_protocol.Identity.Keys.{Jwk, jwk_thumbprint_sha256}
use asap_protocol.Identity.Sessions.{delegated, AgentSessionStatus}
use asap_protocol.Identity.Hosts.{Hosts, HostIdentity, HostStatus}
use asap_protocol.Auth.Claims.{jwk_of}
use asap_protocol.Auth.Verify.{VerifiedHost}
use asap_protocol.Routes.Registration.{Settings, State, Call}
use asap_protocol.Routes.Register.{handle_register, find_host}
use asap_protocol.Routes.Admitted.{IsConsented}
use asap_protocol.Routes.Consented.{handle_register-IsConsented}

string_discrete : Discrete String
string_discrete a b = decided (a == b) (string_eq.beq_iff a b)
  where
    decided : (c : Bool) → (c ≡ true) ↔ (a ≡ b) → Dec (a ≡ b)
    decided true i = yes (i.0 (λ _. true))
    decided false i = no (λ e. let w = i.1 e in cc)

int_discrete : Discrete ℤ
int_discrete = hlevel ℕ_discrete

fields_discrete : Discrete Fields
fields_discrete = hlevel (ℕ_discrete, string_discrete, int_discrete)

decided_iff :
    {P : Type 0} (d : Dec P) → ((elim d as (λ _. Bool) [ yes _ ↦ true | no _ ↦ false ]) ≡ true) ↔ P
decided_iff (yes p) = (λ _. p, λ _. refl)
decided_iff (no q) = (λ h. cc, λ p. absurd (q p))

abbrev fields_eq : Eq Fields
fields_eq = record {
  beq = λ a b. elim (fields_discrete a b) as (λ _. Bool) [ yes _ ↦ true | no _ ↦ false ];
  beq_iff = λ a b. decided_iff (fields_discrete a b);
}

abbrev digest : Dict String String → String
digest [] = ""
digest ((name, value) ∷ ms) = value <> "," <> digest ms

abbrev key_of : String → Fields
key_of x = field "kty" (text "OKP") (field "crv" (text "Ed25519") (field "x" (text x) end))

abbrev host : HostIdentity
host = record {
  host_id = "h1";
  name = none;
  public_key = ("kty", "OKP") ∷ ("crv", "Ed25519") ∷ ("x", "h") ∷ [];
  user_id = none;
  default_capabilities = "read" ∷ [];
  status = HostStatus.active;
  created_at = 1;
  updated_at = 1;
}

abbrev caller : VerifiedHost
caller = record {
  claims =
      field "agent_public_key" (object (key_of "k"))
        (field "host_public_key" (object (key_of "h")) end);
  host = some host;
}

abbrev state : State
state = record {
  hosts = record { hosts = ("h1", host) ∷ []; thumb_to_host_id = []; agents = [] };
  agents = [];
  world = record { approvals = some []; registry = none };
}

abbrev settings : Settings
settings = record {
  fresh = none;
  verify = λ _ _ _ _. false;
  is_real_verifier = false;
  host_supports_ciba = true;
}

abbrev call_for : String → Call
call_for capability = record {
  body = field "capabilities" (array (cons (text capability) nil)) end;
  now = 100;
  clocks = record { get_at = 101; object_at = 102; create_at = 103; fresh_at = 104 };
  agent_id = "a1";
  user_code = "CODE";
}

abbrev any_key : Jwk → Bool
any_key key = true

-- a default capability needs no consent
registers :
    (handle_register digest as_number ⦃e = fields_eq⦄ any_key settings
      (call_for "read")
      caller
      state).0.agents
    ≡ (
      "a1",
      record {
        agent_id = "a1";
        host_id = "h1";
        public_key = ("kty", "OKP") ∷ ("crv", "Ed25519") ∷ ("x", "k") ∷ [];
        mode = delegated;
        status = AgentSessionStatus.active;
        session_ttl = none;
        max_lifetime = none;
        absolute_lifetime = none;
        activated_at = some 100;
        last_used_at = none;
        created_at = 100;
      },
    )
      ∷ []
unfolding handle_register get_field lookup insert jwk_thumbprint_sha256 is_blank contains jwk_of
registers = refl

handle_register-IsConsented_example :
    let s' =
      (handle_register digest as_number ⦃e = fields_eq⦄ any_key settings
        (call_for "write")
        caller
        state).0 in
    (lookup "a1" s'.agents ≡ lookup "a1" state.agents)
    ⊎ ((host_pub : Jwk) × (owner : HostIdentity) × (hosts : Hosts) × (find_host digest as_number
            ⦃e = fields_eq⦄ caller host_pub 100 state.hosts
          ≡ some (owner, hosts))
        × IsConsented digest as_number ⦃e = fields_eq⦄ settings
            (call_for "write")
            "a1"
            owner
            state
            s')
handle_register-IsConsented_example =
    handle_register-IsConsented digest as_number ⦃e = fields_eq⦄ any_key settings (call_for "write")
      caller state "a1"
