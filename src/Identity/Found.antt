-- ===== src/Identity/Found.antt =====
-- Which host `get_by_public_key` of `InMemoryHostStore` in src/asap/auth/identity.py finds.
use asap_protocol.Prelude.{ℕ, String, none, some, List, [], ◌∷◌, Dict}
use asap_protocol.Identity.Agents.{Store}
use asap_protocol.Identity.Hosts.{Hosts, HostIdentity, save_host, revoke_host}

-- the calls of the store that write a host
pub data HostOp : Type 0 where
  saving : HostIdentity → HostOp
  revoking : ℕ → String → HostOp

-- a store without hosts, with the agents that there are
abbrev pub no_hosts : Store → Hosts
no_hosts agents = record { hosts = []; thumb_to_host_id = []; agents = agents }

module _ (digest : Dict String String → String) where
  -- a save that raises leaves the store as it is
  unfoldable pub apply : HostOp → Hosts → Hosts
  apply (saving host) hs = elim (save_host digest host hs) [ none ↦ hs | some hs' ↦ hs' ]
  apply (revoking now host_id) hs = revoke_host now host_id hs

  unfoldable pub after : List HostOp → Hosts → Hosts
  after [] hs = hs
  after (op ∷ ops) hs = after ops (apply op hs)
