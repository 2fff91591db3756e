-- ===== src/Identity/Revocation.antt =====
-- Revocation and key rotation in the agent store of src/asap/auth/identity.py: an `Op` is a call of
-- one of the store's methods that write.
use asap_protocol.Prelude.{
  ℕ, String, Bool, true, false, Option, none, some, if◌then◌else◌, arith, ◌≡◌, refl, sym, List, [],
  ◌∷◌, Dict, lookup, insert, lookup-insert, ◌==◌, string_eq, Result, ok, err, contains, Bool-cases,
  subst, inl, inr,
}
use asap_protocol.Identity.Keys.{Jwk}
use asap_protocol.Identity.Sessions.{AgentSession, revoked, is_revoked}
use asap_protocol.Identity.Agents.{
  Store, SaveError, revoke, revoke_all, ids_of_host, revoke_by_host, cas_public_key_row,
  row_to_save, save, is_current, touch_if_current,
}

pub data Op : Type 0 where
  saving : AgentSession → Option Jwk → Op
  touching : ℕ → String → Jwk → ℕ → String → Op
  revoking : String → Op
  revoking_host : String → Op

-- a row that is there and revoked
abbrev pub is_dead : Option AgentSession → Bool
is_dead none = false
is_dead (some s) = is_revoked s.status

-- what `revoke` makes of the row found
abbrev pub revoked_row : Option AgentSession → Option AgentSession
revoked_row none = none
revoked_row (some a) = some (if is_revoked a.status then a else record a { status = revoked })

revoked_row-dead : (o : Option AgentSession) → is_dead o ≡ true → is_dead (revoked_row o) ≡ true
revoked_row-dead none h = h
revoked_row-dead (some a) h = ground arith

revoked_row_again : (o : Option AgentSession) → revoked_row (revoked_row o) ≡ revoked_row o
revoked_row_again none = refl
revoked_row_again (some a) = ground arith

pub lookup-revoke :
    (k id : String) (store : Store)
    → lookup id (revoke k store)
      ≡ (if k == id then revoked_row (lookup id store) else lookup id store)
unfolding revoke
lookup-revoke k id store = go (lookup k store) refl
  where
    go :
        (o : Option AgentSession)
        → lookup k store ≡ o
        → lookup id (revoke k store)
          ≡ (if k == id then revoked_row (lookup id store) else lookup id store)
    go none h = rw (h, revoke) (ground (arith, string_eq.beq_iff k id))
    go (some a) h =
        rw (h, revoke)
          (ground (
            arith,
            string_eq.beq_iff k id,
            lookup-insert k id (record a { status = revoked }) store,
          ))

pub lookup-revoke_all :
    (ids : List String) (id : String) (store : Store)
    → lookup id (revoke_all ids store)
      ≡ (if contains id ids then revoked_row (lookup id store) else lookup id store)
unfolding revoke_all contains
lookup-revoke_all [] id store = refl
lookup-revoke_all (k ∷ ids) id store = ground (
  arith,
  lookup-revoke_all ids id (revoke k store),
  lookup-revoke k id store,
  revoked_row_again (lookup id store),
)

revoke_by_host-dead :
    (id host : String) (store : Store)
    → is_dead (lookup id store) ≡ true
    → is_dead (lookup id (revoke_by_host host store)) ≡ true
unfolding revoke_by_host
revoke_by_host-dead id host store h =
    ground (
      arith,
      lookup-revoke_all (ids_of_host host store) id store,
      revoked_row-dead (lookup id store),
    )

module _ (digest : Dict String String → String) where
  -- a method's effect on the rows; a call that raises changes nothing
  unfoldable pub apply : Op → Store → Store
  unfolding save touch_if_current revoke revoke_by_host
  apply (saving agent expected) store = elim (save digest agent expected store) [
    | ok store' ↦ store'
    | err _ ↦ store
  ]
  apply (touching now id key ts host) store = (touch_if_current digest now id key ts host store).0
  apply (revoking id) store = revoke id store
  apply (revoking_host host) store = revoke_by_host host store

  unfoldable pub run : List Op → Store → Store
  unfolding apply
  run [] store = store
  run (op ∷ ops) store = run ops (apply op store)

  row_to_save-dead :
      (s agent row : AgentSession) (expected : Option Jwk)
      → is_revoked s.status ≡ true
      → row_to_save digest (some s) agent expected ≡ ok row
      → is_revoked row.status ≡ true
  unfolding row_to_save cas_public_key_row
  row_to_save-dead s agent row none h k = ground arith
  row_to_save-dead s agent row (some key) h k = ground arith

  -- the row that `save` finds, if it was revoked, is replaced by a revoked one
  insert-dead :
      (k id : String) (row : AgentSession) (store : Store)
      → is_dead (lookup id store) ≡ true
      → (is_dead (lookup k store) ≡ true → is_revoked row.status ≡ true)
      → is_dead (lookup id (insert k row store)) ≡ true
  insert-dead k id row store h keep = elim (Bool-cases (k == id)) [
    | inl same ↦ rw (lookup-insert k id row store) (
        rw same (
          keep (
            subst (λ i. is_dead (lookup i store) ≡ true) (sym ((string_eq.beq_iff k id).0 same))
              h)))
    | inr apart ↦ rw (lookup-insert k id row store) (rw apart h)
  ]

  save-dead :
      (id : String) (agent : AgentSession) (expected : Option Jwk) (store : Store)
      → is_dead (lookup id store) ≡ true
      → is_dead (lookup id (apply (saving agent expected) store)) ≡ true
  unfolding apply save
  save-dead id agent expected store h =
      go (row_to_save digest (lookup agent.agent_id store) agent expected) refl
    where
      keep :
          (o : Option AgentSession) (row : AgentSession)
          → row_to_save digest o agent expected ≡ ok row
          → is_dead o ≡ true
          → is_revoked row.status ≡ true
      keep none row p d = cc
      keep (some s) row p d = row_to_save-dead s agent row expected d p

      go :
          (r : Result SaveError AgentSession)
          → row_to_save digest (lookup agent.agent_id store) agent expected ≡ r
          → is_dead (lookup id (apply (saving agent expected) store)) ≡ true
      go (err e) p = rw (p, apply, save) h
      go (ok row) p =
          rw (p, apply, save)
            (insert-dead agent.agent_id id row store h (keep (lookup agent.agent_id store) row p))

  touch-dead :
      (now : ℕ) (id k : String) (key : Jwk) (ts : ℕ) (host : String) (store : Store)
      → is_dead (lookup id store) ≡ true
      → is_dead (lookup id (apply (touching now k key ts host) store)) ≡ true
  unfolding apply touch_if_current
  touch-dead now id k key ts host store h = go (lookup k store) refl
    where
      put :
          (a : AgentSession) (b : Bool)
          → lookup k store ≡ some a
          → let t : AgentSession = record a { last_used_at = some ts } in
            let result : Store × Option AgentSession =
              (if b then (insert k t store, some t) else (store, none)) in
            is_dead (lookup id result.0) ≡ true
      put a false p = h
      put a true p =
          insert-dead k id (record a { last_used_at = some ts }) store h
            (λ d. subst (λ o. is_dead o ≡ true) p d)

      go :
          (o : Option AgentSession)
          → lookup k store ≡ o
          → is_dead (lookup id (apply (touching now k key ts host) store)) ≡ true
      go none p = rw (p, apply, touch_if_current) h
      go (some a) p = rw (p, apply, touch_if_current) (put a (is_current digest now key host a) p)

  revoke-dead :
      (k id : String) (store : Store)
      → is_dead (lookup id store) ≡ true
      → is_dead (lookup id (revoke k store)) ≡ true
  revoke-dead k id store h =
      ground (arith, lookup-revoke k id store, revoked_row-dead (lookup id store))

  apply-dead :
      (id : String) (op : Op) (store : Store)
      → is_dead (lookup id store) ≡ true
      → is_dead (lookup id (apply op store)) ≡ true
  unfolding apply
  apply-dead id (saving agent expected) store h = save-dead id agent expected store h
  apply-dead id (touching now k key ts host) store h = touch-dead now id k key ts host store h
  apply-dead id (revoking k) store h = revoke-dead k id store h
  apply-dead id (revoking_host host) store h = revoke_by_host-dead id host store h

  -- Revocation is final: once an agent's row is revoked, the row is there and revoked after any
  -- sequence of saves, touches and revocations, those that raise included.
  pub revoked_stays :
      (ops : List Op) (id : String) (store : Store)
      → is_dead (lookup id store) ≡ true
      → is_dead (lookup id (run ops store)) ≡ true
  unfolding run
  revoked_stays [] id store h = h
  revoked_stays (op ∷ ops) id store h =
      revoked_stays ops id (apply op store) (apply-dead id op store h)
