-- ===== src/Routes/Distinct.antt =====
-- The keys of a host's agents under `_handle_agent_rotate_key` of src/asap/transport/agent_routes.py, where no
-- other request writes the store meanwhile.
use asap_protocol.Prelude.{
  String, Bool, true, false, ◌&&◌, not, Option, none, some, if◌then◌else◌, [], ◌∷◌, Dict, lookup,
  insert, lookup-insert, ◌==◌, string_eq, beq_refl, Result, ok, err, ◌≡◌, ◌≢◌, refl, sym, ◌∙◌, ap,
  subst, ◌⊎◌, inl, inr, arith, some_inj,
}
use asap_protocol.Identity.Keys.{Jwk, jwk_thumbprint_sha256}
use asap_protocol.Identity.Sessions.{AgentSession}
use asap_protocol.Identity.Agents.{Store, SaveError, row_to_save, save, same_thumbprint}
use asap_protocol.Identity.Rotation.{save-rotates}
use asap_protocol.Routes.Lifecycle.{key_is_used}

module _ (digest : Dict String String → String) where
  -- No two agents of one host have keys of one thumbprint, and each row stands under its agent's id.
  abbrev pub IsDistinct : Store → Type 0
  IsDistinct agents =
      (i j : String) (a b : AgentSession) (t : String)
      → lookup i agents ≡ some a
      → lookup j agents ≡ some b
      → a.host_id ≡ b.host_id
      → jwk_thumbprint_sha256 digest a.public_key ≡ some t
      → jwk_thumbprint_sha256 digest b.public_key ≡ some t
      → i ≡ j

  abbrev pub IsKeyed : Store → Type 0
  IsKeyed agents = (i : String) (a : AgentSession) → lookup i agents ≡ some a → a.agent_id ≡ i

  -- an agent that is looked up is one that the loop passes
  key_is_used-false :
      (host_id agent_id tp i : String) (agents : Store) (a : AgentSession)
      → key_is_used digest host_id agent_id tp agents ≡ some false
      → lookup i agents ≡ some a
      → a.host_id ≡ host_id
      → jwk_thumbprint_sha256 digest a.public_key ≡ some tp
      → a.agent_id ≡ agent_id
  unfolding key_is_used lookup
  key_is_used-false host_id agent_id tp i [] a unused at host key = cc
  key_is_used-false host_id agent_id tp i ((j, other) ∷ agents) a unused at host key =
      here (j == i) refl at
        (λ rest found. key_is_used-false host_id agent_id tp i agents a rest found host key)
    where
      is_other : Bool
      is_other = other.host_id == host_id && not (other.agent_id == agent_id)

      found :
          (b : Bool)
          → is_other ≡ b
          → (o : Option String) → jwk_thumbprint_sha256 digest other.public_key ≡ o
          → (if b
              then (elim o as (λ _. Option Bool) [
                | none ↦ none
                | some t ↦
                    if t == tp then some true else key_is_used digest host_id agent_id tp agents
              ])
              else key_is_used digest host_id agent_id tp agents)
            ≡ some false
          → (key_is_used digest host_id agent_id tp agents ≡ some false)
            × ((b ≡ false) ⊎ (jwk_thumbprint_sha256 digest other.public_key ≢ some tp))
      found true e none d k = cc
      found true e (some t) d k = differs (t == tp) refl k
        where
          differs :
              (c : Bool)
              → (t == tp) ≡ c
              → (if c then some true else key_is_used digest host_id agent_id tp agents)
                ≡ some false
              → (key_is_used digest host_id agent_id tp agents ≡ some false)
                × ((true ≡ false) ⊎ (jwk_thumbprint_sha256 digest other.public_key ≢ some tp))
          differs true f k' = cc
          differs false f k' =
              (k', inr (λ q. let same : (t == tp) ≡ true = (string_eq.beq_iff t tp).1 cc in cc))
      found false e o d k = (k, inl refl)

      skipped :
          (key_is_used digest host_id agent_id tp agents ≡ some false)
          × ((is_other ≡ false) ⊎ (jwk_thumbprint_sha256 digest other.public_key ≢ some tp))
      skipped = found is_other refl (jwk_thumbprint_sha256 digest other.public_key) refl unused

      mine : other.host_id ≡ host_id → is_other ≡ false → other.agent_id ≡ agent_id
      mine h e = ground (
        arith,
        string_eq.beq_iff other.host_id host_id,
        string_eq.beq_iff other.agent_id agent_id,
      )

      here :
          (b : Bool)
          → (j == i) ≡ b
          → (if b then some other else lookup i agents) ≡ some a
          → (key_is_used digest host_id agent_id tp agents ≡ some false
              → lookup i agents ≡ some a
              → a.agent_id ≡ agent_id)
          → a.agent_id ≡ agent_id
      here true e k later =
          let same = some_inj k in
          subst (λ x. x.agent_id ≡ agent_id) same
            (elim skipped.1 [
              | inl self ↦ mine (subst (λ x. x.host_id ≡ host_id) (sym same) host) self
              | inr unlike ↦ absurd (
                  unlike (
                    subst (λ x. jwk_thumbprint_sha256 digest x.public_key ≡ some tp) (sym same)
                      key))
            ])
      here false e k later = later skipped.0 k

  -- a save that returns has written one row
  saved :
      (agent : AgentSession) (key : Option Jwk) (agents agents' : Store)
      → save digest agent key agents ≡ ok agents'
      → (row : AgentSession) × (agents' ≡ insert agent.agent_id row agents)
  unfolding save
  saved agent key agents agents' h =
      go (row_to_save digest (lookup agent.agent_id agents) agent key) h
    where
      go :
          (r : Result SaveError AgentSession)
          → (elim r as (λ _. Result SaveError Store) [
            | err e ↦ err e
            | ok row ↦ ok (insert agent.agent_id row agents)
          ])
            ≡ ok agents'
          → (row : AgentSession) × (agents' ≡ insert agent.agent_id row agents)
      go (err e) k = cc
      go (ok row) k = (row, cc)

  either_way : (b : Bool) (x : AgentSession) → (if b then x else x) ≡ x
  either_way true x = refl
  either_way false x = refl

  pub rotated :
      (fresh : AgentSession) (new_pub : Jwk) (agents agents' : Store)
      → lookup fresh.agent_id agents ≡ some fresh
      → save digest (record fresh { public_key = new_pub }) (some fresh.public_key) agents
        ≡ ok agents'
      → agents' ≡ insert fresh.agent_id (record fresh { public_key = new_pub }) agents
  rotated fresh new_pub agents agents' at h =
      let agent : AgentSession = record fresh { public_key = new_pub } in
      let (row, wrote) = saved agent (some fresh.public_key) agents agents' h in
      let (same, there) = save-rotates digest agent fresh fresh.public_key agents agents' at h in
      let b = same_thumbprint digest fresh.public_key new_pub in
      let found : lookup fresh.agent_id agents' ≡ some row =
        ap (lookup fresh.agent_id) wrote
        ∙ lookup-insert fresh.agent_id fresh.agent_id row agents
        ∙ rw (beq_refl fresh.agent_id) refl in
      let is_row : row ≡ agent = some_inj (sym found ∙ there ∙ ap some (either_way b agent)) in
      wrote ∙ ap (λ x. insert fresh.agent_id x agents) is_row

  of_insert :
      (i : String) (row : AgentSession) (j : String) (a : AgentSession) (agents : Store)
      → lookup j (insert i row agents) ≡ some a
      → ((i ≡ j) × (a ≡ row)) ⊎ (lookup j agents ≡ some a)
  of_insert i row j a agents h = go (i == j) refl (sym (lookup-insert i j row agents) ∙ h)
    where
      go :
          (b : Bool)
          → (i == j) ≡ b
          → (if b then some row else lookup j agents) ≡ some a
          → ((i ≡ j) × (a ≡ row)) ⊎ (lookup j agents ≡ some a)
      go true e k = inl ((string_eq.beq_iff i j).0 e, sym (some_inj k))
      go false e k = inr k

  -- a key that no other agent of the host has
  pub insert-IsDistinct :
      (i : String) (fresh : AgentSession) (new_pub : Jwk) (tp : String) (agents : Store)
      → IsKeyed agents
      → IsDistinct agents
      → lookup i agents ≡ some fresh
      → jwk_thumbprint_sha256 digest new_pub ≡ some tp
      → key_is_used digest fresh.host_id i tp agents ≡ some false
      → IsDistinct (insert i (record fresh { public_key = new_pub }) agents)
  insert-IsDistinct i fresh new_pub tp agents keyed distinct at key unused j k a b t ja kb same_host
        ta tb =
      cases (of_insert i row j a agents ja) (of_insert i row k b agents kb)
    where
      row : AgentSession
      row = record fresh { public_key = new_pub }

      -- an old row with the new key is the agent's own
      own :
          (l : String) (c : AgentSession)
          → lookup l agents ≡ some c
          → c.host_id ≡ fresh.host_id
          → jwk_thumbprint_sha256 digest c.public_key ≡ some tp
          → i ≡ l
      own l c lc host tc =
          sym (key_is_used-false fresh.host_id i tp l agents c unused lc host tc) ∙ keyed l c lc

      is_tp :
          (c : AgentSession) → c ≡ row → jwk_thumbprint_sha256 digest c.public_key ≡ some t → t ≡ tp
      is_tp c e tc = some_inj (sym tc ∙ ap (λ x. jwk_thumbprint_sha256 digest x.public_key) e ∙ key)

      cases :
          ((i ≡ j) × (a ≡ row)) ⊎ (lookup j agents ≡ some a)
          → ((i ≡ k) × (b ≡ row)) ⊎ (lookup k agents ≡ some b)
          → j ≡ k
      cases (inl (ij, ar)) (inl (ik, br)) = sym ij ∙ ik
      cases (inl (ij, ar)) (inr old) =
          sym ij
          ∙ own k b old (sym same_host ∙ ap (λ x. x.host_id) ar) (tb ∙ ap some (is_tp a ar ta))
      cases (inr old) (inl (ik, br)) =
          sym (own j a old (same_host ∙ ap (λ x. x.host_id) br) (ta ∙ ap some (is_tp b br tb))) ∙ ik
      cases (inr old) (inr old') = distinct j k a b t old old' same_host ta tb
