-- ===== src/Identity/Hosts.antt =====
-- `InMemoryHostStore` of src/asap/auth/identity.py, with the agent store that it cascades to.
use asap_protocol.Prelude.{
  ℕ, String, Bool, true, false, ◌&&◌, not, Option, none, some, if◌then◌else◌, List, Dict, lookup,
  insert, erase, ◌==◌, string_eq,
}
use asap_protocol.Identity.Keys.{Jwk, jwk_thumbprint_sha256}
use asap_protocol.Identity.Agents.{Store, revoke_by_host}

pub data HostStatus : Type 0 where
  active pending revoked : HostStatus

pub record HostIdentity : Type 0 where
  pub host_id : String
  pub name : Option String
  pub public_key : Jwk
  pub user_id : Option String
  pub default_capabilities : List String
  pub status : HostStatus
  pub created_at : ℕ
  pub updated_at : ℕ

abbrev pub is_revoked_host : HostStatus → Bool
is_revoked_host revoked = true
is_revoked_host _ = false

pub record Hosts : Type 0 where
  pub hosts : Dict String HostIdentity
  pub thumb_to_host_id : Dict String String
  pub agents : Store

-- the index without the thumbprint of a key that is being replaced
unfoldable pub unindex : String → String → String → Dict String String → Dict String String
unindex host_id old_tp new_tp index =
    if not (old_tp == new_tp)
      && (elim (lookup old_tp index) [ none ↦ false | some h ↦ h == host_id ])
    then erase old_tp index
    else index

unfoldable pub get : String → Hosts → Option HostIdentity
get host_id hs = lookup host_id hs.hosts

unfoldable pub get_by_public_key : String → Hosts → Option HostIdentity
get_by_public_key thumb hs = elim (lookup thumb hs.thumb_to_host_id) [
  | none ↦ none
  | some host_id ↦ lookup host_id hs.hosts
]

-- the agents are those of the `agent_store` given at construction
unfoldable pub revoke_host : ℕ → String → Hosts → Hosts
revoke_host now host_id hs = elim (lookup host_id hs.hosts) [
  | none ↦ hs
  | some host ↦ if is_revoked_host host.status then hs else record hs {
    hosts = insert host_id (record host { status = revoked; updated_at = now }) hs.hosts;
    agents = revoke_by_host host_id hs.agents;
  }
]

module _ (digest : Dict String String → String) where
  -- the index once the key of the host found is out of it, with none where its thumbprint raises
  unfoldable pub index_without :
      String → Option HostIdentity → String → Dict String String → Option (Dict String String)
  unfolding unindex
  index_without host_id none thumb index = some index
  index_without host_id (some previous) thumb index =
      elim (jwk_thumbprint_sha256 digest previous.public_key) [
        | none ↦ none
        | some old_tp ↦ some (unindex host_id old_tp thumb index)
      ]

  -- none where a thumbprint raises: nothing is written before both are computed
  unfoldable pub save_host : HostIdentity → Hosts → Option Hosts
  unfolding index_without
  save_host host hs = elim (jwk_thumbprint_sha256 digest host.public_key) [
    | none ↦ none
    | some thumb ↦
        elim (index_without host.host_id (lookup host.host_id hs.hosts) thumb hs.thumb_to_host_id) [
          | none ↦ none
          | some index ↦ some (record hs {
            hosts = insert host.host_id host hs.hosts;
            thumb_to_host_id = insert thumb host.host_id index;
          })
        ]
  ]
