-- ===== src/Identity/Rotation.antt =====
-- The compare-and-set of `InMemoryAgentStore` in src/asap/auth/identity.py: which key a save and a
-- touch may write over.
use asap_protocol.Prelude.{
  ℕ, String, Bool, true, false, ◌&&◌, not, Option, none, some, if◌then◌else◌, arith, ◌≡◌, refl, ap,
  ◌∙◌, subst, ◌↔◌, Dict, lookup, insert, lookup-insert, string_eq, Result, ok, err, beq_refl,
}
use asap_protocol.Identity.Keys.{Jwk}
use asap_protocol.Identity.Sessions.{
  AgentSession, AgentSessionStatus, active, is_active, is_revoked, check_agent_expiry,
}
use asap_protocol.Identity.Agents.{
  Store, SaveError, cas_public_key_row, row_to_save, save, same_thumbprint, is_current,
  touch_if_current,
}

is_active_iff : (s : AgentSessionStatus) → (is_active s ≡ true) ↔ (s ≡ active)
is_active_iff s = (λ h. ground arith, λ h. ground arith)

module _ (digest : Dict String String → String) where
  cas-ok :
      (s agent row : AgentSession) (key : Jwk)
      → cas_public_key_row digest s agent key ≡ ok row
      → (same_thumbprint digest key s.public_key ≡ true)
        × (row ≡ (
            if same_thumbprint digest key agent.public_key
            then agent
            else record s { public_key = agent.public_key }))
  unfolding cas_public_key_row same_thumbprint
  cas-ok s agent row key h = ground arith

  -- A save that names the key it expects and succeeds over a row found that row's key to have the
  -- expected thumbprint, and writes the new key: with the agent's other fields where its key is still
  -- the expected one, and with the row's other fields where the save rotates the key.
  pub save-rotates :
      (agent s : AgentSession) (key : Jwk) (store store' : Store)
      → lookup agent.agent_id store ≡ some s
      → save digest agent (some key) store ≡ ok store'
      → (same_thumbprint digest key s.public_key ≡ true)
        × (lookup agent.agent_id store'
            ≡ some (
                if same_thumbprint digest key agent.public_key
                then agent
                else record s { public_key = agent.public_key }))
  unfolding save row_to_save
  save-rotates agent s key store store' at h =
      go (cas_public_key_row digest s agent key) refl
        (is_revoked s.status && not (is_revoked agent.status))
        (subst (λ r. r ≡ ok store') (rw (at, save) refl) h)
    where
      after : Bool → Result SaveError AgentSession → Result SaveError Store
      after b r = elim (if b then err SaveError.revoked_overwrite else r) [
        | err e ↦ err e
        | ok row ↦ ok (insert agent.agent_id row store)
      ]

      go :
          (r : Result SaveError AgentSession)
          → cas_public_key_row digest s agent key ≡ r
          → (b : Bool) → after b r ≡ ok store'
          → (same_thumbprint digest key s.public_key ≡ true)
            × (lookup agent.agent_id store'
                ≡ some (
                    if same_thumbprint digest key agent.public_key
                    then agent
                    else record s { public_key = agent.public_key }))
      go r c true k = cc
      go (err e) c false k = cc
      go (ok row) c false k =
          let wrote : insert agent.agent_id row store ≡ store' = cc in
          let (found, same) = cas-ok s agent row key c in
          (
            found,
            subst
                (λ st.
                  lookup agent.agent_id st
                  ≡ some (
                      if same_thumbprint digest key agent.public_key
                      then agent
                      else record s { public_key = agent.public_key }))
                wrote
                (lookup-insert agent.agent_id agent.agent_id row store
                  ∙ rw (beq_refl agent.agent_id) (ap some same)),
          )

  pub is_current_iff :
      (now : ℕ) (key : Jwk) (host : String) (s : AgentSession)
      → (is_current digest now key host s ≡ true) ↔ (
          (s.status ≡ active)
          × (s.host_id ≡ host)
          × (same_thumbprint digest key s.public_key ≡ true)
          × (check_agent_expiry now s ≡ active))
  unfolding is_current
  is_current_iff now key host s = (
    λ h. ground (
      arith,
      string_eq.beq_iff s.host_id host,
      is_active_iff s.status,
      is_active_iff (check_agent_expiry now s),
    ),
    λ h. ground (
      arith,
      string_eq.beq_iff s.host_id host,
      is_active_iff s.status,
      is_active_iff (check_agent_expiry now s),
    ),
  )

  -- A touch of an agent that has a row writes and returns the row with the new time of use exactly
  -- where the row is active, of the expected host and key, and not expired by the clock; where it
  -- returns none, it writes nothing.
  pub touch_if_current_exact :
      (now : ℕ) (id : String) (key : Jwk) (ts : ℕ) (host : String) (store : Store)
      (s : AgentSession)
      → lookup id store ≡ some s
      → let (store', result) = touch_if_current digest now id key ts host store in
        let t : AgentSession = record s { last_used_at = some ts } in
        (((store' ≡ insert id t store) × (result ≡ some t)) ↔ (
          (s.status ≡ active)
          × (s.host_id ≡ host)
          × (same_thumbprint digest key s.public_key ≡ true)
          × (check_agent_expiry now s ≡ active)))
        × ((result ≡ none) → store' ≡ store)
  unfolding touch_if_current is_current
  touch_if_current_exact now id key ts host store s at =
      rw (at, touch_if_current)
        (go (is_current digest now key host s) (is_current_iff now key host s))
    where
      t : AgentSession
      t = record s { last_used_at = some ts }

      go :
          {P : Type 0} (b : Bool)
          → ((b ≡ true) ↔ P)
          → let result : Store × Option AgentSession =
              (if b then (insert id t store, some t) else (store, none)) in
            (((result.0 ≡ insert id t store) × (result.1 ≡ some t)) ↔ P)
            × ((result.1 ≡ none) → result.0 ≡ store)
      go true iff = ((λ h. iff.0 refl, λ h. (refl, refl)), λ h. cc)
      go false iff = ((λ h. cc, λ h. let wrong = iff.1 h in cc), λ h. refl)
