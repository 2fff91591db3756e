-- ===== src/Routes/Consented.antt =====
-- The rows that `_handle_agent_register` of src/asap/transport/agent_routes.py writes.
use asap_protocol.Prelude.{
  String, Bool, Option, none, some, Dict, lookup, string_eq, Eq, Result, ok, err, ◌≡◌, refl, ◌⊎◌,
  inl, inr,
}
use asap_protocol.Json.{ℤ, Value, Fields}
use asap_protocol.Identity.Keys.{Jwk, jwk_thumbprint_sha256}
use asap_protocol.Identity.Sessions.{AgentSession}
use asap_protocol.Identity.Hosts.{Hosts, HostIdentity}
use asap_protocol.Auth.Verify.{VerifiedHost}
use asap_protocol.Routes.Caller.{Refusal, server_error}
use asap_protocol.Routes.Registration.{Settings, State, Call}
use asap_protocol.Routes.Register.{read_keys, find_host, find_agent, admit_agent, handle_register}
use asap_protocol.Routes.Admitted.{IsConsented, admit_agent-IsConsented}

-- A registration, which no other request interrupts, writes no row but that of the new agent's id. That row
-- is of the caller's host, and it is pending, or else it is active, the host is active too, and every
-- capability that the body asks for is among the host's defaults.
pub handle_register-IsConsented :
    (digest : Dict String String → String) (float : Value → Option ℤ) ⦃e : Eq Fields⦄
    (import_key : Jwk → Bool) (settings : Settings) (c : Call) (v : VerifiedHost) (s : State)
    (j : String)
    → let s' = (handle_register digest float import_key settings c v s).0 in
      (lookup j s'.agents ≡ lookup j s.agents)
      ⊎ ((host_pub : Jwk) × (host : HostIdentity) × (hosts : Hosts) × (find_host digest float v
              host_pub c.now s.hosts
            ≡ some (host, hosts))
          × IsConsented digest float settings c j host s s')
unfolding handle_register
handle_register-IsConsented digest float import_key settings c v s j = go (read_keys import_key v)
  where
    Kept : State → Type 0
    Kept s' =
        (lookup j s'.agents ≡ lookup j s.agents)
        ⊎ ((host_pub : Jwk) × (host : HostIdentity) × (hosts : Hosts) × (find_host digest float v
                host_pub c.now s.hosts
              ≡ some (host, hosts))
            × IsConsented digest float settings c j host s s')

    with_hosts : Hosts → State
    with_hosts hosts = record s { hosts = hosts }

    found :
        (agent_pub host_pub : Jwk) (host : HostIdentity) (hosts : Hosts)
        → find_host digest float v host_pub c.now s.hosts ≡ some (host, hosts)
        → (o : Option (Option AgentSession))
        → Kept
            (elim o as (λ _. State × Result Refusal AgentSession) [
              | none ↦ (with_hosts hosts, err server_error)
              | some (some existing) ↦ (with_hosts hosts, ok existing)
              | some none ↦
                  admit_agent digest float settings c v.claims host agent_pub (with_hosts hosts)
            ]).0
    found agent_pub host_pub host hosts d none = inl refl
    found agent_pub host_pub host hosts d (some (some existing)) = inl refl
    found agent_pub host_pub host hosts d (some none) = inr (
      host_pub,
      host,
      hosts,
      d,
      admit_agent-IsConsented digest float settings c j host agent_pub (with_hosts hosts) v.claims,
    )

    thumbed :
        (agent_pub host_pub : Jwk) (host : HostIdentity) (hosts : Hosts)
        → find_host digest float v host_pub c.now s.hosts ≡ some (host, hosts)
        → (o : Option String)
        → Kept
            (elim o as (λ _. State × Result Refusal AgentSession) [
              | none ↦ (with_hosts hosts, err server_error)
              | some tp ↦ elim (find_agent digest float host.host_id tp s.agents) [
                | none ↦ (with_hosts hosts, err server_error)
                | some (some existing) ↦ (with_hosts hosts, ok existing)
                | some none ↦
                    admit_agent digest float settings c v.claims host agent_pub (with_hosts hosts)
              ]
            ]).0
    thumbed agent_pub host_pub host hosts d none = inl refl
    thumbed agent_pub host_pub host hosts d (some tp) =
        found agent_pub host_pub host hosts d (find_agent digest float host.host_id tp s.agents)

    hosted :
        (agent_pub host_pub : Jwk) (o : Option (HostIdentity × Hosts))
        → find_host digest float v host_pub c.now s.hosts ≡ o
        → Kept
            (elim o as (λ _. State × Result Refusal AgentSession) [
              | none ↦ (s, err server_error)
              | some (host, hosts) ↦ elim (jwk_thumbprint_sha256 digest agent_pub) [
                | none ↦ (with_hosts hosts, err server_error)
                | some tp ↦ elim (find_agent digest float host.host_id tp s.agents) [
                  | none ↦ (with_hosts hosts, err server_error)
                  | some (some existing) ↦ (with_hosts hosts, ok existing)
                  | some none ↦
                      admit_agent digest float settings c v.claims host agent_pub (with_hosts hosts)
                ]
              ]
            ]).0
    hosted agent_pub host_pub none d = inl refl
    hosted agent_pub host_pub (some (host, hosts)) d =
        thumbed agent_pub host_pub host hosts d (jwk_thumbprint_sha256 digest agent_pub)

    go :
        (r : Result Refusal (Jwk × Jwk))
        → Kept
            (elim r as (λ _. State × Result Refusal AgentSession) [
              | err x ↦ (s, err x)
              | ok (agent_pub, host_pub) ↦ elim (find_host digest float v host_pub c.now s.hosts) [
                | none ↦ (s, err server_error)
                | some (host, hosts) ↦ elim (jwk_thumbprint_sha256 digest agent_pub) [
                  | none ↦ (with_hosts hosts, err server_error)
                  | some tp ↦ elim (find_agent digest float host.host_id tp s.agents) [
                    | none ↦ (with_hosts hosts, err server_error)
                    | some (some existing) ↦ (with_hosts hosts, ok existing)
                    | some none ↦
                        admit_agent digest float settings c v.claims host agent_pub
                          (with_hosts hosts)
                  ]
                ]
              ]
            ]).0
    go (err x) = inl refl
    go (ok (agent_pub, host_pub)) =
        hosted agent_pub host_pub (find_host digest float v host_pub c.now s.hosts) refl
