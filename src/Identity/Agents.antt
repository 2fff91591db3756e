-- ===== src/Identity/Agents.antt =====
-- `InMemoryAgentStore` of src/asap/auth/identity.py: each method has no await between its test and
-- its write, so it is one step. `digest` is the hash of a key's members.
use asap_protocol.Prelude.{
  ℕ, String, Bool, false, ◌&&◌, not, Option, none, some, if◌then◌else◌, List, [], ◌∷◌, Dict, lookup,
  insert, ◌==◌, string_eq, Result, ok, err,
}
use asap_protocol.Identity.Keys.{Jwk, jwk_thumbprint_sha256}
use asap_protocol.Identity.Sessions.{
  AgentSession, revoked, is_active, is_revoked, check_agent_expiry,
}

abbrev pub Store : Type 0
Store = Dict String AgentSession

pub data SaveError : Type 0 where
  revoked_overwrite stale_key : SaveError

unfoldable pub revoke : String → Store → Store
revoke agent_id store = elim (lookup agent_id store) [
  | none ↦ store
  | some agent ↦
      if is_revoked agent.status
      then store
      else insert agent_id (record agent { status = revoked }) store
]

unfoldable pub revoke_all : List String → Store → Store
revoke_all [] store = store
revoke_all (agent_id ∷ ids) store = revoke_all ids (revoke agent_id store)

-- `[a.agent_id for a in agents.values() if a.host_id == host_id]`
unfoldable pub ids_of_host : String → Store → List String
ids_of_host host_id [] = []
ids_of_host host_id ((key, agent) ∷ store) =
    let rest = ids_of_host host_id store in
    if agent.host_id == host_id then agent.agent_id ∷ rest else rest

unfoldable pub revoke_by_host : String → Store → Store
revoke_by_host host_id store = revoke_all (ids_of_host host_id store) store

module _ (digest : Dict String String → String) where
  -- `_cas_public_key_row`
  unfoldable pub cas_public_key_row :
      AgentSession → AgentSession → Jwk → Result SaveError AgentSession
  cas_public_key_row existing agent expected =
      elim (jwk_thumbprint_sha256 digest existing.public_key) [
        | none ↦ err stale_key
        | some stored_tp ↦ elim (jwk_thumbprint_sha256 digest agent.public_key) [
          | none ↦ err stale_key
          | some incoming_tp ↦ elim (jwk_thumbprint_sha256 digest expected) [
            | none ↦ err stale_key
            | some expected_tp ↦
                if not (stored_tp == expected_tp)
                then err stale_key
                else if not (incoming_tp == expected_tp)
                then ok (record existing { public_key = agent.public_key })
                else ok agent
          ]
        ]
      ]

  -- the row that `save` writes over the one that it finds
  unfoldable pub row_to_save :
      Option AgentSession → AgentSession → Option Jwk → Result SaveError AgentSession
  unfolding cas_public_key_row
  row_to_save none agent expected = ok agent
  row_to_save (some existing) agent expected =
      if is_revoked existing.status && not (is_revoked agent.status)
      then err revoked_overwrite
      else elim expected [ none ↦ ok agent | some key ↦ cas_public_key_row existing agent key ]

  unfoldable pub save : AgentSession → Option Jwk → Store → Result SaveError Store
  unfolding row_to_save
  save agent expected store = elim (row_to_save (lookup agent.agent_id store) agent expected) [
    | err e ↦ err e
    | ok row ↦ ok (insert agent.agent_id row store)
  ]

  -- the thumbprints are computed and agree
  unfoldable pub same_thumbprint : Jwk → Jwk → Bool
  same_thumbprint expected current = elim (jwk_thumbprint_sha256 digest expected) [
    | none ↦ false
    | some expected_tp ↦ elim (jwk_thumbprint_sha256 digest current) [
      | none ↦ false
      | some current_tp ↦ current_tp == expected_tp
    ]
  ]

  -- the predicate of `touch_if_current`; `now` is the clock of `check_agent_expiry`
  unfoldable pub is_current : ℕ → Jwk → String → AgentSession → Bool
  unfolding same_thumbprint
  is_current now expected expected_host current =
      is_active current.status
      && current.host_id == expected_host
      && same_thumbprint expected current.public_key
      && is_active (check_agent_expiry now current)

  unfoldable pub touch_if_current :
      ℕ → String → Jwk → ℕ → String → Store → Store × Option AgentSession
  unfolding is_current
  touch_if_current now agent_id expected last_used_at expected_host store =
      elim (lookup agent_id store) [
        | none ↦ (store, none)
        | some current ↦
            let updated = record current { last_used_at = some last_used_at } in
            if is_current now expected expected_host current
            then (insert agent_id updated store, some updated)
            else (store, none)
      ]
