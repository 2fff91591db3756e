-- ===== src/Approval/Outcomes.antt =====
-- What a sequence of the methods of src/asap/auth/approval.py makes of a request in the end.
use mathlib.Core.List.{Memᴰ}
use asap_protocol.Prelude.{
  ℕ, ◌<◌, String, some, ◌≡◌, ◌≢◌, List, [], ◌∷◌, lookup, string_eq, ◌∙◌, ap, sym,
}
use asap_protocol.Approval.Requests.{pending, approved, ApprovalRequestState, Store, deadline}
use asap_protocol.Approval.History.{
  Op, accept, apply, run, expired_row, approve_row, deny_row, apply-Move, pending≢approved,
  expired≢approved, denied≢approved,
}
use asap_protocol.Approval.History.{stay, lapse, grant, reject}

module _ {Spec : Type 0} where
  -- A request that is approved, denied or expired keeps its row, whatever is asked of the store,
  -- until its agent's row is created anew or removed.
  pub decided_stays :
      (ops : List Op) (agent : String) (s : ApprovalRequestState Spec) (store : Store Spec)
      → lookup agent store ≡ some s
      → s.status ≢ pending
      → lookup agent (run ops store) ≡ some s
  unfolding run
  decided_stays [] agent s store at decided = at
  decided_stays (op ∷ ops) agent s store at decided = elim (apply-Move op agent s store at) [
    | stay at' ↦ decided_stays ops agent s (apply op store) at' decided
    | lapse p at' ↦ absurd (decided p)
    | grant now user p e early at' ↦ absurd (decided p)
    | reject reason p at' ↦ absurd (decided p)
  ]

  same_row :
      {s t : ApprovalRequestState Spec} (agent : String) (store : Store Spec)
      → lookup agent store ≡ some s
      → lookup agent store ≡ some t
      → s ≡ t
  same_row agent store p q = cc

  -- the row that a decision leaves is the one that is found in the end
  final_row :
      (ops : List Op) (agent : String) (r t : ApprovalRequestState Spec) (store : Store Spec)
      → lookup agent store ≡ some r
      → r.status ≢ pending
      → lookup agent (run ops store) ≡ some t
      → r ≡ t
  final_row ops agent r t store at decided fin =
      same_row agent (run ops store) (decided_stays ops agent r store at decided) fin

  -- A pending request that is found approved later was approved by a call of `approve` for its agent
  -- before its deadline, and its row is the one that was asked for, with the user who approved it.
  pub approved_was_asked :
      (ops : List Op) (agent : String) (s t : ApprovalRequestState Spec) (store : Store Spec)
      → lookup agent store ≡ some s
      → s.status ≡ pending
      → lookup agent (run ops store) ≡ some t
      → t.status ≡ approved
      → (now : ℕ) × (user : String) × Memᴰ (accept now agent user) ops
        × (now < deadline s)
        × (t ≡ approve_row user s)
  unfolding run
  approved_was_asked [] agent s t store at p fin ok' =
      absurd (pending≢approved (sym p ∙ ap (λ r. r.status) (same_row agent store at fin) ∙ ok'))
  approved_was_asked (op ∷ ops) agent s t store at p fin ok' =
      elim (apply-Move op agent s store at) [
        | stay at' ↦
            let (now, user, m, early, e) =
              approved_was_asked ops agent s t (apply op store) at' p fin ok' in
            (now, user, Memᴰ.tail m, early, e)
        | lapse _ at' ↦ absurd (
            expired≢approved (
              ap (λ r. r.status)
                (final_row ops agent (expired_row s) t (apply op store) at' (λ q. cc) fin)
              ∙ ok'))
        | grant now user _ e early at' ↦ (
          now,
          user,
          Memᴰ.head (sym e),
          early,
          sym (final_row ops agent (approve_row user s) t (apply op store) at' (λ q. cc) fin),
        )
        | reject reason _ at' ↦ absurd (
            denied≢approved (
              ap (λ r. r.status)
                (final_row ops agent (deny_row reason s) t (apply op store) at' (λ q. cc) fin)
              ∙ ok'))
      ]
