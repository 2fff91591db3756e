-- ===== src/Approval/History.antt =====
-- Sequences of the store's methods, between two calls of `create` or `remove` for an agent.
use asap_protocol.Prelude.{
  ℕ, ◌<◌, String, false, Option, none, some, if◌then◌else◌, ◌≡◌, ◌≢◌, refl, inl, inr, List, [], ◌∷◌,
  lookup, insert, lookup-insert, beq_refl, string_eq, ◌==◌, ◌∙◌, ap, sym, Bool-cases, subst,
}
use asap_protocol.Approval.Requests.{
  pending, approved, denied, expired, ApprovalRequestState, Store, deadline, has_lapsed,
  refresh_expired, get, resolve, approve, deny,
}
use asap_protocol.Approval.Decisions.{refresh_cases, resolve_cases}

pub data Op : Type 0 where
  look : ℕ → String → Op
  accept refuse : ℕ → String → String → Op

pub pending≢approved : pending ≢ approved
pending≢approved h = cc

pub expired≢approved : expired ≢ approved
expired≢approved h = cc

pub denied≢approved : denied ≢ approved
denied≢approved h = cc

module _ {Spec : Type 0} where
  unfoldable pub apply : Op → Store Spec → Store Spec
  apply (look now agent) store = (get now agent store).0
  apply (accept now agent user) store = (approve now agent user store).0
  apply (refuse now agent reason) store = (deny now agent reason store).0

  unfoldable pub run : List Op → Store Spec → Store Spec
  run [] store = store
  run (op ∷ ops) store = run ops (apply op store)

  abbrev pub expired_row : ApprovalRequestState Spec → ApprovalRequestState Spec
  expired_row s = record s { status = expired }

  abbrev pub approve_row : String → ApprovalRequestState Spec → ApprovalRequestState Spec
  approve_row user s = record s { status = approved; approved_by = some user }

  abbrev pub deny_row : String → ApprovalRequestState Spec → ApprovalRequestState Spec
  deny_row reason s = record s { status = denied; deny_reason = some reason }

  -- What an operation makes of the row of an agent.
  pub data Move (agent : String) (op : Op) (s : ApprovalRequestState Spec) (store : Store Spec)
      : Type 0 where
    stay : lookup agent store ≡ some s → Move agent op s store
    lapse :
        s.status ≡ pending
        → lookup agent store ≡ some (record s { status = expired })
        → Move agent op s store
    grant :
        (now : ℕ) (user : String)
        → s.status ≡ pending
        → op ≡ accept now agent user
        → now < deadline s
        → lookup agent store ≡ some (approve_row user s)
        → Move agent op s store
    reject :
        (reason : String)
        → s.status ≡ pending
        → lookup agent store ≡ some (deny_row reason s)
        → Move agent op s store

  lookup-insert_self :
      (agent : String) (s : ApprovalRequestState Spec) (store : Store Spec)
      → lookup agent (insert agent s store) ≡ some s
  lookup-insert_self agent s store = rw lookup-insert (rw (beq_refl agent))

  lookup-insert_ne :
      (a b : String) (s : ApprovalRequestState Spec) (store : Store Spec)
      → (a == b) ≡ false
      → lookup b (insert a s store) ≡ lookup b store
  lookup-insert_ne a b s store h = rw lookup-insert (rw h)

  pub get_at :
      (now : ℕ) (agent : String) (s : ApprovalRequestState Spec) (store : Store Spec)
      → lookup agent store ≡ some s
      → (get now agent store).0
        ≡ (if has_lapsed now s then insert agent (refresh_expired now s) store else store)
  unfolding get
  get_at now agent s store at = rw (at, get)

  get_row :
      (now : ℕ) (agent : String) (s : ApprovalRequestState Spec) (store : Store Spec)
      → lookup agent store ≡ some s
      → Move agent (look now agent) s (get now agent store).0
  get_row now agent s store at = elim (refresh_cases now s) [
    | inl (p, late, lapsed, e) ↦
        lapse p (rw (get_at now agent s store at, lapsed, e) (lookup-insert_self agent _ store))
    | inr (early, fresh, e) ↦ stay (rw (get_at now agent s store at, fresh) at)
  ]

  resolve_row :
      (change : ApprovalRequestState Spec → ApprovalRequestState Spec) (op : Op) (now : ℕ)
      (agent : String) (s : ApprovalRequestState Spec) (store : Store Spec)
      → lookup agent store ≡ some s
      → (s.status ≡ pending
          → now < deadline s
          → (store' : Store Spec) → lookup agent store' ≡ some (change s)
          → Move agent op s store')
      → Move agent op s (resolve change now agent store).0
  resolve_row change op now agent s store at decide =
      elim (resolve_cases change now agent store s at) [
        | inl (p, early, w) ↦
            decide p early _
              (ap (λ r. lookup agent r.0) w ∙ lookup-insert_self agent (change s) store)
        | inr (inl (p, late, w)) ↦
            lapse p (ap (λ r. lookup agent r.0) w ∙ lookup-insert_self agent _ store)
        | inr (inr (inl (x, w))) ↦
            stay (ap (λ r. lookup agent r.0) w ∙ lookup-insert_self agent s store)
        | inr (inr (inr (np, nx, w))) ↦ stay (ap (λ r. lookup agent r.0) w ∙ at)
      ]

  get_absent :
      (now : ℕ) (a : String) (store : Store Spec)
      → lookup a store ≡ none
      → (get now a store).0 ≡ store
  unfolding get
  get_absent now a store e = rw (e, get)

  resolve_absent :
      (change : ApprovalRequestState Spec → ApprovalRequestState Spec) (now : ℕ) (a : String)
      (store : Store Spec)
      → lookup a store ≡ none
      → (resolve change now a store).0 ≡ store
  unfolding resolve
  resolve_absent change now a store e = rw (e, resolve)

  -- Operations on other agents' rows leave this one.
  get_other :
      (now : ℕ) (a b : String) (s : ApprovalRequestState Spec) (store : Store Spec)
      → (a == b) ≡ false
      → lookup b store ≡ some s
      → lookup b (get now a store).0 ≡ some s
  get_other now a b s store h at = go (lookup a store) refl
    where
      go :
          (o : Option (ApprovalRequestState Spec))
          → lookup a store ≡ o
          → lookup b (get now a store).0 ≡ some s
      go none e = rw (get_absent now a store e) at
      go (some raw) e = elim (Bool-cases (has_lapsed now raw)) [
        | inl lapsed ↦ rw (get_at now a raw store e, lapsed) (lookup-insert_ne a b _ store h ∙ at)
        | inr fresh ↦ rw (get_at now a raw store e, fresh) at
      ]

  resolve_other :
      (change : ApprovalRequestState Spec → ApprovalRequestState Spec) (now : ℕ) (a b : String)
      (s : ApprovalRequestState Spec) (store : Store Spec)
      → (a == b) ≡ false
      → lookup b store ≡ some s
      → lookup b (resolve change now a store).0 ≡ some s
  resolve_other change now a b s store h at = go (lookup a store) refl
    where
      go :
          (o : Option (ApprovalRequestState Spec))
          → lookup a store ≡ o
          → lookup b (resolve change now a store).0 ≡ some s
      go none e = rw (resolve_absent change now a store e) at
      go (some raw) e = elim (resolve_cases change now a store raw e) [
        | inl (p, early, w) ↦ rw w (lookup-insert_ne a b _ store h ∙ at)
        | inr (inl (p, late, w)) ↦ rw w (lookup-insert_ne a b _ store h ∙ at)
        | inr (inr (inl (x, w))) ↦ rw w (lookup-insert_ne a b _ store h ∙ at)
        | inr (inr (inr (np, nx, w))) ↦ rw w at
      ]

  pub apply-Move :
      (op : Op) (agent : String) (s : ApprovalRequestState Spec) (store : Store Spec)
      → lookup agent store ≡ some s
      → Move agent op s (apply op store)
  unfolding apply approve deny
  apply-Move (look now a) agent s store at = elim (Bool-cases (a == agent)) [
    | inl e ↦
        let same = (string_eq.beq_iff a agent).0 e in
        subst (λ b. Move agent (look now b) s (get now b store).0) (sym same)
          (get_row now agent s store at)
    | inr e ↦ stay (get_other now a agent s store e at)
  ]
  apply-Move (accept now a user) agent s store at = elim (Bool-cases (a == agent)) [
    | inl e ↦
        let same = (string_eq.beq_iff a agent).0 e in
        subst (λ b. Move agent (accept now b user) s (resolve (approve_row user) now b store).0)
          (sym same)
          (resolve_row (approve_row user) _ now agent s store at
            (λ p early store' at'. grant now user p refl early at'))
    | inr e ↦ stay (resolve_other (approve_row user) now a agent s store e at)
  ]
  apply-Move (refuse now a reason) agent s store at = elim (Bool-cases (a == agent)) [
    | inl e ↦
        let same = (string_eq.beq_iff a agent).0 e in
        subst (λ b. Move agent (refuse now b reason) s (resolve (deny_row reason) now b store).0)
          (sym same)
          (resolve_row (deny_row reason) _ now agent s store at
            (λ p early store' at'. reject reason p at'))
    | inr e ↦ stay (resolve_other (deny_row reason) now a agent s store e at)
  ]
