-- ===== src/Approval/Consent.antt =====
-- What a human's answer can grant, and what a code stands for.
use mathlib.Core.List.{Memᴰ}
use mathlib.Core.List.Memᴰ
use asap_protocol.Prelude.{
  ℕ, String, Bool, true, false, Option, some, if◌then◌else◌, arith, ◌≡◌, refl, inl, inr, List, [],
  ◌∷◌, list_beq_iff, Eq, list_eq, string_eq, lookup, ◌∙◌, ap, sym, Bool-cases, subst,
}
use asap_protocol.Approval.Requests.{
  pending, approved, ApprovalRequestState, Store, get, approve, deny, refresh_expired,
}
use asap_protocol.Approval.History.{Op, look, accept, refuse, run, apply, approve_row}
use asap_protocol.Approval.Outcomes.{approved_was_asked}
use asap_protocol.Approval.Flows.{resolve_via_a2h, pending_matches_expected, or_default}

not_in_look : {n m : ℕ} {a b u : String} → Memᴰ (accept n a u) (look m b ∷ []) → ⊥
not_in_look (Memᴰ.head h) = cc
not_in_look (Memᴰ.tail m) = Memᴰ.not-nil m

not_in_refuse :
    {n m l : ℕ} {a b c u r : String} → Memᴰ (accept n a u) (look m b ∷ refuse l c r ∷ []) → ⊥
not_in_refuse (Memᴰ.head h) = cc
not_in_refuse (Memᴰ.tail (Memᴰ.head h)) = cc
not_in_refuse (Memᴰ.tail (Memᴰ.tail m)) = Memᴰ.not-nil m

in_accept :
    {n m l : ℕ} {a b c u v : String} → Memᴰ (accept n a u) (look m b ∷ accept l c v ∷ []) → u ≡ v
in_accept (Memᴰ.head h) = cc
in_accept (Memᴰ.tail (Memᴰ.head h)) = cc
in_accept (Memᴰ.tail (Memᴰ.tail m)) = absurd (Memᴰ.not-nil m)

module _ {Spec : Type 0} ⦃e : Eq Spec⦄ (spec_name : Spec → String) where
  get_value :
      (now : ℕ) (agent : String) (s : ApprovalRequestState Spec) (store : Store Spec)
      → lookup agent store ≡ some s
      → (get now agent store).1 ≡ some (refresh_expired now s)
  unfolding get
  get_value now agent s store at = rw (at, get)

  refresh-specs :
      (now : ℕ) (s : ApprovalRequestState Spec)
      → (refresh_expired now s).capability_specs ≡ s.capability_specs
  unfolding refresh_expired
  refresh-specs now s = ground arith

  matches-specs :
      (r : ApprovalRequestState Spec) (expected : List Spec)
      → pending_matches_expected spec_name (some r) expected ≡ true
      → r.capability_specs ≡ expected
  unfolding pending_matches_expected
  matches-specs r expected h = ground (arith, list_beq_iff r.capability_specs expected)

  -- the store's methods that a resolution calls
  abbrev calls : ℕ → ℕ → String → String → Bool → Option String → Bool → List Op
  calls now later agent principal approves reason matches =
      look now agent
      ∷ (if matches
          then (if approves
              then accept later agent principal
              else refuse later agent (or_default "declined" reason))
            ∷ []
          else [])

  a2h-calls :
      (now later : ℕ) (agent principal : String) (approves : Bool) (reason : Option String)
      (expected : List Spec) (store : Store Spec)
      → (resolve_via_a2h spec_name now later agent principal approves reason
          (some expected)
          store).0
        ≡ run
            (calls now later agent principal approves reason
              (pending_matches_expected spec_name (get now agent store).1 expected))
            store
  unfolding resolve_via_a2h run apply
  a2h-calls now later agent principal approves reason expected store =
      elim (Bool-cases (pending_matches_expected spec_name (get now agent store).1 expected)) [
        | inl h ↦ rw h (go approves)
        | inr h ↦ rw h
      ]
    where
      go :
          (b : Bool)
          → (if b
              then approve later agent principal (get now agent store).0
              else deny later agent (or_default "declined" reason) (get now agent store).0).0
            ≡ run
                ((if b
                    then accept later agent principal
                    else refuse later agent (or_default "declined" reason))
                  ∷ [])
                (get now agent store).0
      go true = refl
      go false = refl

  -- Where an A2H answer turns a pending request into an approved one, and the caller named the
  -- specs that the human saw, the row's specs are those, the human's decision was to approve, and
  -- the row is the pending one, approved by that principal.
  pub a2h_grants_what_was_seen :
      (now later : ℕ) (agent principal : String) (approves : Bool) (reason : Option String)
      (expected : List Spec) (store : Store Spec) (s t : ApprovalRequestState Spec)
      → lookup agent store ≡ some s
      → s.status ≡ pending
      → lookup agent
          (resolve_via_a2h spec_name now later agent principal approves reason
            (some expected)
            store).0
        ≡ some t
      → t.status ≡ approved
      → (s.capability_specs ≡ expected) × (approves ≡ true) × (t ≡ approve_row principal s)
  a2h_grants_what_was_seen now later agent principal approves reason expected store s t at p fin
        ok' =
      let test = pending_matches_expected spec_name (get now agent store).1 expected in
      let called = a2h-calls now later agent principal approves reason expected store in
      let (n, user, asked, early, same) =
        approved_was_asked (calls now later agent principal approves reason test) agent s t store at
          p (ap (λ st. lookup agent st) (sym called) ∙ fin) ok' in
      elim (Bool-cases test) [
        | inr h ↦ absurd (
            not_in_look (
              subst
                (λ b.
                  Memᴰ (accept n agent user) (calls now later agent principal approves reason b))
                h asked))
        | inl h ↦
            let asked' =
              subst
                (λ b.
                  Memᴰ (accept n agent user) (calls now later agent principal approves reason b))
                h asked in
            let seen =
              subst (λ o. pending_matches_expected spec_name o expected ≡ true)
                (get_value now agent s store at) h in
            (
              sym (refresh-specs now s) ∙ matches-specs (refresh_expired now s) expected seen,
              decided approves asked',
              same ∙ ap (λ u. approve_row u s) (who approves asked'),
            )
      ]
    where
      decided :
          {n : ℕ} {user : String} (b : Bool)
          → Memᴰ (accept n agent user) (calls now later agent principal b reason true)
          → b ≡ true
      decided true m = refl
      decided false m = absurd (not_in_refuse m)

      who :
          {n : ℕ} {user : String} (b : Bool)
          → Memᴰ (accept n agent user) (calls now later agent principal b reason true)
          → user ≡ principal
      who true m = in_accept m
      who false m = absurd (not_in_refuse m)
