-- ===== src/Routes/Lifecycle.antt =====
-- `_handle_agent_revoke` and `_handle_agent_rotate_key` of src/asap/transport/agent_routes.py. Between two
-- awaits other requests run: each store that a handler reads or writes after an await is an argument, the
-- one that they leave. `import_key` is joserfc's check of a key.
use asap_protocol.Prelude.{
  String, Bool, true, false, ◌&&◌, not, Option, none, some, if◌then◌else◌, [], ◌∷◌, Dict, lookup,
  ◌==◌, string_eq, Result, ok, err,
}
use asap_protocol.Identity.Keys.{Jwk, jwk_thumbprint_sha256}
use asap_protocol.Identity.Sessions.{AgentSession, AgentSessionStatus, is_revoked}
use asap_protocol.Identity.Agents.{Store, revoked_overwrite, stale_key, revoke, save}
use asap_protocol.Auth.Verify.{VerifiedHost}
use asap_protocol.Routes.Caller.{
  Refusal, no_agent, revoked_agent, invalid_key, key_in_use, key_changed, server_error, own_agent,
}

-- what the code does once the caller is verified: `now` is the store at `get`, `later` the one at `revoke`
unfoldable pub handle_revoke :
    VerifiedHost → String → Store → Store → Store × Result Refusal (Unit {0})
unfolding own_agent revoke
handle_revoke v agent_id now later = elim (own_agent v agent_id now) [
  | err e ↦ (later, err e)
  | ok _ ↦ (revoke agent_id later, ok tt)
]

-- The stores of a rotation: at `get`, at `list_by_host`, at the second `get`, and at `save`.
pub record Readings : Type 0 where
  pub at_get : Store
  pub at_list : Store
  pub at_reread : Store
  pub at_save : Store

module _ (digest : Dict String String → String) where
  -- whether another agent of the host has the key, with none where a thumbprint raises; the code goes
  -- through them by their ids, which only decides whether a key in use is found before one that raises
  unfoldable pub key_is_used : String → String → String → Store → Option Bool
  key_is_used host_id agent_id new_tp [] = some false
  key_is_used host_id agent_id new_tp ((key, other) ∷ agents) =
      let rest = key_is_used host_id agent_id new_tp agents in
      if other.host_id == host_id && not (other.agent_id == agent_id)
      then elim (jwk_thumbprint_sha256 digest other.public_key) [
        | none ↦ none
        | some tp ↦ if tp == new_tp then some true else rest
      ]
      else rest

  -- the re-reading and the save
  unfoldable pub write_key :
      String → Jwk → Store → Store → Store × Result Refusal AgentSessionStatus
  unfolding save
  write_key agent_id new_pub reread later = elim (lookup agent_id reread) [
    | none ↦ (later, err no_agent)
    | some fresh ↦
        if is_revoked fresh.status
        then (later, err revoked_agent)
        else elim (save digest (record fresh { public_key = new_pub }) (some fresh.public_key)
            later) [
              | err revoked_overwrite ↦ (later, err revoked_agent)
              | err stale_key ↦ (later, err key_changed)
              | ok later' ↦ (later', ok fresh.status)
            ]
  ]

  -- the check of the new key against the session's and the other agents'
  unfoldable pub rotate_to :
      String
      → String
      → AgentSession
      → String
      → Jwk
      → Readings
      → Store × Result Refusal AgentSessionStatus
  unfolding key_is_used write_key
  rotate_to host_id agent_id session new_tp new_pub r =
      elim (jwk_thumbprint_sha256 digest session.public_key) [
        | none ↦ (r.at_save, err server_error)
        | some tp ↦
            if new_tp == tp
            then (r.at_save, ok session.status)
            else elim (key_is_used host_id session.agent_id new_tp r.at_list) [
              | none ↦ (r.at_save, err server_error)
              | some true ↦ (r.at_save, err key_in_use)
              | some false ↦ write_key agent_id new_pub r.at_reread r.at_save
            ]
      ]

  unfoldable pub handle_rotate_key :
      (Jwk → Bool)
      → VerifiedHost
      → String
      → Jwk
      → Readings
      → Store × Result Refusal AgentSessionStatus
  unfolding own_agent rotate_to
  handle_rotate_key import_key v agent_id new_pub r = elim (own_agent v agent_id r.at_get) [
    | err e ↦ (r.at_save, err e)
    | ok (host_id, session) ↦
        if is_revoked session.status
        then (r.at_save, err revoked_agent)
        else if not (import_key new_pub)
        then (r.at_save, err invalid_key)
        else elim (jwk_thumbprint_sha256 digest new_pub) [
          | none ↦ (r.at_save, err server_error)
          | some new_tp ↦ rotate_to host_id agent_id session new_tp new_pub r
        ]
  ]
