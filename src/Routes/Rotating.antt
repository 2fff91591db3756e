-- ===== src/Routes/Rotating.antt =====
-- `_handle_agent_rotate_key` of src/asap/transport/agent_routes.py as a whole, where no other request writes
-- the store meanwhile.
use asap_protocol.Prelude.{
  String, insert, ap, Bool, true, false, not, Option, none, some, if◌then◌else◌, Dict, lookup, ◌==◌,
  string_eq, Result, ok, err, ◌≡◌, refl, sym, ◌∙◌, subst, inl, inr, Bool-cases, some_inj,
}
use asap_protocol.Identity.Keys.{Jwk, jwk_thumbprint_sha256}
use asap_protocol.Identity.Sessions.{AgentSession, AgentSessionStatus, is_revoked}
use asap_protocol.Identity.Agents.{Store, SaveError, revoked_overwrite, stale_key, save}
use asap_protocol.Auth.Verify.{VerifiedHost}
use asap_protocol.Routes.Caller.{
  no_agent, key_changed, Refusal, revoked_agent, invalid_key, key_in_use, server_error, own_agent,
}
use asap_protocol.Routes.Owners.{IsOwner, own_agent-IsOwner}
use asap_protocol.Routes.Lifecycle.{Readings, key_is_used, write_key, rotate_to, handle_rotate_key}
use asap_protocol.Routes.Distinct.{IsDistinct, IsKeyed, rotated, insert-IsDistinct}

module _ (digest : Dict String String → String) where
  write_key-IsDistinct :
      (agent_id host_id tp : String) (new_pub : Jwk) (agents : Store)
      → IsKeyed digest agents
      → IsDistinct digest agents
      → ((fresh : AgentSession) → lookup agent_id agents ≡ some fresh → fresh.host_id ≡ host_id)
      → jwk_thumbprint_sha256 digest new_pub ≡ some tp
      → key_is_used digest host_id agent_id tp agents ≡ some false
      → IsDistinct digest (write_key digest agent_id new_pub agents agents).0
  unfolding write_key
  write_key-IsDistinct agent_id host_id tp new_pub agents keyed distinct hosted key unused =
      go (lookup agent_id agents) refl
    where
      after : AgentSession → Result SaveError Store → Store × Result Refusal AgentSessionStatus
      after fresh r = elim r [
        | err revoked_overwrite ↦ (agents, err revoked_agent)
        | err stale_key ↦ (agents, err key_changed)
        | ok agents' ↦ (agents', ok fresh.status)
      ]

      wrote :
          (fresh : AgentSession)
          → lookup agent_id agents ≡ some fresh
          → (r : Result SaveError Store)
          → save digest (record fresh { public_key = new_pub }) (some fresh.public_key) agents ≡ r
          → IsDistinct digest (after fresh r).0
      wrote fresh at (err revoked_overwrite) e = distinct
      wrote fresh at (err stale_key) e = distinct
      wrote fresh at (ok agents') e =
          let is_id = keyed agent_id fresh at in
          let written =
            rotated digest fresh new_pub agents agents' (ap (λ x. lookup x agents) is_id ∙ at) e in
          subst (IsDistinct digest)
            (sym
              (written ∙ ap (λ x. insert x (record fresh { public_key = new_pub }) agents) is_id))
            (insert-IsDistinct digest agent_id fresh new_pub tp agents keyed distinct at key (
              subst (λ x. key_is_used digest x agent_id tp agents ≡ some false)
                (sym (hosted fresh at)) unused))

      go :
          (o : Option AgentSession)
          → lookup agent_id agents ≡ o
          → IsDistinct digest
              (elim o as (λ _. Store × Result Refusal AgentSessionStatus) [
                | none ↦ (agents, err no_agent)
                | some fresh ↦
                    if is_revoked fresh.status
                    then (agents, err revoked_agent)
                    else after fresh (
                        save digest
                          (record fresh { public_key = new_pub })
                          (some fresh.public_key)
                          agents)
              ]).0
      go none e = distinct
      go (some fresh) e = elim (Bool-cases (is_revoked fresh.status)) [
        | inl gone ↦ rw gone distinct
        | inr there ↦ rw there (
            wrote fresh e
              (save digest (record fresh { public_key = new_pub }) (some fresh.public_key) agents)
              refl)
      ]

-- the readings where no other request runs
abbrev pub alone : Store → Readings
alone agents = record { at_get = agents; at_list = agents; at_reread = agents; at_save = agents }

module _ (digest : Dict String String → String) (agents : Store) (keyed : IsKeyed digest agents)
    (distinct : IsDistinct digest agents) (agent_id : String) (new_pub : Jwk) where
  rotate_to-IsDistinct :
      (host_id : String) (session : AgentSession) (tp : String)
      → lookup agent_id agents ≡ some session
      → session.host_id ≡ host_id
      → jwk_thumbprint_sha256 digest new_pub ≡ some tp
      → IsDistinct digest (rotate_to digest host_id agent_id session tp new_pub (alone agents)).0
  unfolding rotate_to
  rotate_to-IsDistinct host_id session tp at host key =
      go (jwk_thumbprint_sha256 digest session.public_key)
    where
      looked :
          (o : Option Bool)
          → key_is_used digest host_id session.agent_id tp agents ≡ o
          → IsDistinct digest
              (elim o as (λ _. Store × Result Refusal AgentSessionStatus) [
                | none ↦ (agents, err server_error)
                | some true ↦ (agents, err key_in_use)
                | some false ↦ write_key digest agent_id new_pub agents agents
              ]).0
      looked none e = distinct
      looked (some true) e = distinct
      looked (some false) e =
          write_key-IsDistinct digest agent_id host_id tp new_pub agents keyed distinct
            (λ fresh f. subst (λ x. x.host_id ≡ host_id) (some_inj (sym at ∙ f)) host) key
            (subst (λ x. key_is_used digest host_id x tp agents ≡ some false)
              (keyed agent_id session at) e)

      go :
          (o : Option String)
          → IsDistinct digest
              (elim o as (λ _. Store × Result Refusal AgentSessionStatus) [
                | none ↦ (agents, err server_error)
                | some t ↦
                    if tp == t
                    then (agents, ok session.status)
                    else elim (key_is_used digest host_id session.agent_id tp agents) [
                      | none ↦ (agents, err server_error)
                      | some true ↦ (agents, err key_in_use)
                      | some false ↦ write_key digest agent_id new_pub agents agents
                    ]
              ]).0
      go none = distinct
      go (some t) = elim (Bool-cases (tp == t)) [
        | inl same ↦ rw same distinct
        | inr new ↦ rw new (looked (key_is_used digest host_id session.agent_id tp agents) refl)
      ]

-- A rotation that no other request interrupts keeps the agents of each host apart by their keys,
-- whether it is refused or not: where no two agents of a host have keys of one thumbprint and each
-- row stands under its agent's id, none have after it.
pub handle_rotate_key-IsDistinct :
    (digest : Dict String String → String) (import_key : Jwk → Bool) (v : VerifiedHost)
    (agent_id : String) (new_pub : Jwk) (agents : Store)
    → IsKeyed digest agents
    → IsDistinct digest agents
    → IsDistinct digest (handle_rotate_key digest import_key v agent_id new_pub (alone agents)).0
unfolding handle_rotate_key
handle_rotate_key-IsDistinct digest import_key v agent_id new_pub agents keyed distinct =
    go (own_agent v agent_id agents) (λ own. (own_agent-IsOwner v agent_id agents own).0)
  where
    thumbed :
        (host_id : String) (session : AgentSession)
        → IsOwner v agent_id agents (host_id, session)
        → (o : Option String) → jwk_thumbprint_sha256 digest new_pub ≡ o
        → IsDistinct digest
            (elim o as (λ _. Store × Result Refusal AgentSessionStatus) [
              | none ↦ (agents, err server_error)
              | some tp ↦ rotate_to digest host_id agent_id session tp new_pub (alone agents)
            ]).0
    thumbed host_id session own none e = distinct
    thumbed host_id session (_, at, host) (some tp) e =
        rotate_to-IsDistinct digest agents keyed distinct agent_id new_pub host_id session tp at
          host e

    guarded :
        (b c : Bool) (e e' : Refusal) (p : Store × Result Refusal AgentSessionStatus)
        → IsDistinct digest p.0
        → IsDistinct digest
            (if◌then◌else◌ {A = Store × Result Refusal AgentSessionStatus} b
              (agents, err e)
              (if c then (agents, err e') else p)).0
    guarded true c e e' p k = distinct
    guarded false true e e' p k = distinct
    guarded false false e e' p k = k

    go :
        (r : Result Refusal (String × AgentSession))
        → ((own : String × AgentSession) → r ≡ ok own → IsOwner v agent_id agents own)
        → IsDistinct digest
            (elim r as (λ _. Store × Result Refusal AgentSessionStatus) [
              | err e ↦ (agents, err e)
              | ok (host_id, session) ↦
                  if is_revoked session.status
                  then (agents, err revoked_agent)
                  else if not (import_key new_pub)
                  then (agents, err invalid_key)
                  else elim (jwk_thumbprint_sha256 digest new_pub) [
                    | none ↦ (agents, err server_error)
                    | some tp ↦ rotate_to digest host_id agent_id session tp new_pub (alone agents)
                  ]
            ]).0
    go (err e) own = distinct
    go (ok (host_id, session)) own =
        guarded (is_revoked session.status) (not (import_key new_pub)) revoked_agent invalid_key _ (
          thumbed host_id session (own (host_id, session) refl)
            (jwk_thumbprint_sha256 digest new_pub) refl)
