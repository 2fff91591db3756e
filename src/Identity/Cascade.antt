-- ===== src/Identity/Cascade.antt =====
-- The cascade of a host's revocation in src/asap/auth/identity.py, and the invariant of the agent
-- store that it relies on.
use asap_protocol.Prelude.{
  ℕ, String, Bool, true, false, Option, none, some, if◌then◌else◌, arith, ◌≡◌, refl, ap, List, [],
  ◌∷◌, Dict, lookup, insert, ◌==◌, string_eq, Result, ok, err, IsUnique, insert-IsUnique,
  keys_where, contains-keys_where, holds_at,
}
use asap_protocol.Identity.Keys.{Jwk}
use asap_protocol.Identity.Sessions.{AgentSession, AgentSessionStatus, is_revoked}
use asap_protocol.Identity.Agents.{
  Store, SaveError, revoke, revoke_all, ids_of_host, revoke_by_host, cas_public_key_row,
  row_to_save, save, is_current, touch_if_current,
}
use asap_protocol.Identity.Revocation.{
  Op, saving, touching, revoking, revoking_host, apply, run, revoked_row, lookup-revoke_all,
}
use asap_protocol.Identity.Hosts.{Hosts, HostIdentity, is_revoked_host, revoke_host}

-- each agent is stored under its own id
abbrev pub IsKeyed : Store → Type 0
IsKeyed [] = Unit
IsKeyed ((key, agent) ∷ store) = (agent.agent_id ≡ key) × IsKeyed store

abbrev pub IsValid : Store → Type 0
IsValid store = IsKeyed store × IsUnique store

insert-IsValid :
    (key : String) (agent : AgentSession) (store : Store)
    → agent.agent_id ≡ key
    → IsValid store
    → IsValid (insert key agent store)
unfolding insert
insert-IsValid key agent store e (keyed, unique) =
    (go store keyed, insert-IsUnique key agent store unique)
  where
    go : (d : Store) → IsKeyed d → IsKeyed (insert key agent d)
    go [] h = (e, tt)
    go ((j, a) ∷ d) h = ground (arith, go d, string_eq.beq_iff j key)

id_or : String → Option AgentSession → String
id_or key none = key
id_or key (some agent) = agent.agent_id

pub lookup-IsKeyed :
    (key : String) (agent : AgentSession) (store : Store)
    → IsKeyed store
    → lookup key store ≡ some agent
    → agent.agent_id ≡ key
unfolding lookup
lookup-IsKeyed key agent [] h k = cc
lookup-IsKeyed key agent ((j, a) ∷ d) h k =
    ground (arith, lookup-IsKeyed key agent d, string_eq.beq_iff j key, ap (id_or key) k)

ids_of_host_keys :
    (host : String) (store : Store)
    → IsKeyed store
    → ids_of_host host store ≡ keys_where (λ a. a.host_id == host) store
unfolding ids_of_host keys_where
ids_of_host_keys host [] h = refl
ids_of_host_keys host ((j, a) ∷ d) h = ground (arith, ids_of_host_keys host d)

revoke-IsValid : (key : String) (store : Store) → IsValid store → IsValid (revoke key store)
unfolding revoke
revoke-IsValid key store h = go (lookup key store) refl
  where
    put :
        (b : Bool) (agent : AgentSession)
        → lookup key store ≡ some agent
        → IsValid (
            if b
            then store
            else insert key (record agent { status = AgentSessionStatus.revoked }) store)
    put true agent e = h
    put false agent e =
        insert-IsValid key (record agent { status = AgentSessionStatus.revoked }) store
          (lookup-IsKeyed key agent store h.0 e) h

    go : (o : Option AgentSession) → lookup key store ≡ o → IsValid (revoke key store)
    go none e = rw (e, revoke) h
    go (some agent) e = rw (e, revoke) (put (is_revoked agent.status) agent e)

revoke_all-IsValid :
    (ids : List String) (store : Store) → IsValid store → IsValid (revoke_all ids store)
unfolding revoke_all
revoke_all-IsValid [] store h = h
revoke_all-IsValid (k ∷ ids) store h =
    revoke_all-IsValid ids (revoke k store) (revoke-IsValid k store h)

module _ (digest : Dict String String → String) where
  row_to_save-id :
      (s agent row : AgentSession) (expected : Option Jwk)
      → s.agent_id ≡ agent.agent_id
      → row_to_save digest (some s) agent expected ≡ ok row
      → row.agent_id ≡ agent.agent_id
  unfolding row_to_save cas_public_key_row
  row_to_save-id s agent row none e k = ground arith
  row_to_save-id s agent row (some key) e k = ground arith

  save-IsValid :
      (agent : AgentSession) (expected : Option Jwk) (store : Store)
      → IsValid store
      → IsValid (apply digest (saving agent expected) store)
  unfolding apply save
  save-IsValid agent expected store h =
      go (row_to_save digest (lookup agent.agent_id store) agent expected) refl
    where
      kept :
          (o : Option AgentSession) (row : AgentSession)
          → lookup agent.agent_id store ≡ o
          → row_to_save digest o agent expected ≡ ok row
          → row.agent_id ≡ agent.agent_id
      kept none row e k = ground arith
      kept (some s) row e k =
          row_to_save-id s agent row expected (lookup-IsKeyed agent.agent_id s store h.0 e) k

      go :
          (r : Result SaveError AgentSession)
          → row_to_save digest (lookup agent.agent_id store) agent expected ≡ r
          → IsValid (apply digest (saving agent expected) store)
      go (err e) p = rw (p, apply, save) h
      go (ok row) p =
          rw (p, apply, save)
            (insert-IsValid agent.agent_id row store (kept (lookup agent.agent_id store) row refl p)
              h)

  touch-IsValid :
      (now : ℕ) (k : String) (key : Jwk) (ts : ℕ) (host : String) (store : Store)
      → IsValid store
      → IsValid (apply digest (touching now k key ts host) store)
  unfolding apply touch_if_current
  touch-IsValid now k key ts host store h = go (lookup k store) refl
    where
      put :
          (a : AgentSession) (b : Bool)
          → lookup k store ≡ some a
          → let t : AgentSession = record a { last_used_at = some ts } in
            let result : Store × Option AgentSession =
              (if b then (insert k t store, some t) else (store, none)) in
            IsValid result.0
      put a false p = h
      put a true p =
          insert-IsValid k (record a { last_used_at = some ts }) store
            (lookup-IsKeyed k a store h.0 p) h

      go :
          (o : Option AgentSession)
          → lookup k store ≡ o
          → IsValid (apply digest (touching now k key ts host) store)
      go none p = rw (p, apply, touch_if_current) h
      go (some a) p = rw (p, apply, touch_if_current) (put a (is_current digest now key host a) p)

  -- The store's methods keep it a dictionary in which each agent is stored under its own id.
  pub run-IsValid : (ops : List Op) (store : Store) → IsValid store → IsValid (run digest ops store)
  unfolding run apply revoke_by_host
  run-IsValid [] store h = h
  run-IsValid (saving agent expected ∷ ops) store h =
      run-IsValid ops (apply digest (saving agent expected) store)
        (save-IsValid agent expected store h)
  run-IsValid (touching now k key ts host ∷ ops) store h =
      run-IsValid ops (apply digest (touching now k key ts host) store)
        (touch-IsValid now k key ts host store h)
  run-IsValid (revoking k ∷ ops) store h =
      run-IsValid ops (revoke k store) (revoke-IsValid k store h)
  run-IsValid (revoking_host host ∷ ops) store h =
      run-IsValid ops (revoke_by_host host store)
        (revoke_all-IsValid (ids_of_host host store) store h)

-- Where each agent is stored once and under its own id, revoking a host that is stored and not yet
-- revoked revokes each of its agents and leaves every other agent's row as it was.
pub revoke_host_cascades :
    (now : ℕ) (host_id : String) (hs : Hosts) (host : HostIdentity) (agent_id : String)
    → lookup host_id hs.hosts ≡ some host
    → is_revoked_host host.status ≡ false
    → IsValid hs.agents
    → lookup agent_id (revoke_host now host_id hs).agents ≡ (
        if holds_at (λ a. a.host_id == host_id) (lookup agent_id hs.agents)
        then revoked_row (lookup agent_id hs.agents)
        else lookup agent_id hs.agents)
unfolding revoke_host revoke_by_host
revoke_host_cascades now host_id hs host agent_id at live (keyed, unique) =
    rw (at, revoke_host)
      (rw live (
        rw (lookup-revoke_all (ids_of_host host_id hs.agents) agent_id hs.agents) (
          rw (ids_of_host_keys host_id hs.agents keyed)
            (rw (contains-keys_where (λ a. a.host_id == host_id) agent_id hs.agents unique) refl))))
