-- ===== src/Approval/Decisions.antt =====
-- When a request is decided, and that its decision stays.
use asap_protocol.Prelude.{
  ℕ, ◌≤◌, ◌<◌, String, true, false, some, arith, ◌≡◌, ◌≢◌, refl, ◌↔◌, ◌⊎◌, inl, inr, lookup, insert,
  string_eq, ok, err, ◌∙◌, ap,
}
use asap_protocol.Approval.Requests.{
  Status, pending, approved, denied, expired, ApprovalRequestState, has_expired, not_pending, Store,
  deadline, has_lapsed, refresh_expired, settle, resolve, approve, deny,
}

module _ {Spec : Type 0} where
  pub refresh_cases :
      (now : ℕ) (s : ApprovalRequestState Spec)
      → ((s.status ≡ pending)
          × (deadline s ≤ now)
          × (has_lapsed now s ≡ true)
          × (refresh_expired now s ≡ record s { status = expired }))
        ⊎ ((s.status ≡ pending → now < deadline s)
            × (has_lapsed now s ≡ false)
            × (refresh_expired now s ≡ s))
  unfolding refresh_expired has_lapsed
  refresh_cases now s = ground arith

  resolve_at :
      (change : ApprovalRequestState Spec → ApprovalRequestState Spec) (now : ℕ) (agent : String)
      (store : Store Spec) (s : ApprovalRequestState Spec)
      → lookup agent store ≡ some s
      → resolve change now agent store ≡ settle change agent store (refresh_expired now s)
  unfolding resolve
  resolve_at change now agent store s at = rw (at, resolve)

  settle_cases :
      (change : ApprovalRequestState Spec → ApprovalRequestState Spec) (agent : String)
      (store : Store Spec) (s : ApprovalRequestState Spec)
      → ((s.status ≡ pending)
          × (settle change agent store s ≡ (insert agent (change s) store, ok tt)))
        ⊎ (((s.status ≡ expired)
              × (settle change agent store s ≡ (insert agent s store, err has_expired)))
            ⊎ ((s.status ≢ pending)
                × (s.status ≢ expired)
                × (settle change agent store s ≡ (store, err not_pending))))
  unfolding settle
  settle_cases change agent store s = go s.status refl
    where
      go :
          (k : Status)
          → s.status ≡ k
          → ((s.status ≡ pending)
              × (settle change agent store s ≡ (insert agent (change s) store, ok tt)))
            ⊎ (((s.status ≡ expired)
                  × (settle change agent store s ≡ (insert agent s store, err has_expired)))
                ⊎ ((s.status ≢ pending)
                    × (s.status ≢ expired)
                    × (settle change agent store s ≡ (store, err not_pending))))
      go pending e = inl (e, rw e)
      go expired e = inr (inl (e, rw e))
      go approved e = inr (inr (λ p. cc, λ p. cc, rw e))
      go denied e = inr (inr (λ p. cc, λ p. cc, rw e))

  settle_expired :
      (change : ApprovalRequestState Spec → ApprovalRequestState Spec) (agent : String)
      (store : Store Spec) (s : ApprovalRequestState Spec)
      → settle change agent store (record s { status = expired })
        ≡ (insert agent (record s { status = expired }) store, err has_expired)
  unfolding settle
  settle_expired change agent store s = refl

  -- The four ways in which `approve` and `deny` end on a stored row.
  pub resolve_cases :
      (change : ApprovalRequestState Spec → ApprovalRequestState Spec) (now : ℕ) (agent : String)
      (store : Store Spec) (s : ApprovalRequestState Spec)
      → lookup agent store ≡ some s
      → ((s.status ≡ pending)
          × (now < deadline s)
          × (resolve change now agent store ≡ (insert agent (change s) store, ok tt)))
        ⊎ (((s.status ≡ pending)
              × (deadline s ≤ now)
              × (resolve change now agent store
                  ≡ (insert agent (record s { status = expired }) store, err has_expired)))
            ⊎ (((s.status ≡ expired)
                  × (resolve change now agent store ≡ (insert agent s store, err has_expired)))
                ⊎ ((s.status ≢ pending)
                    × (s.status ≢ expired)
                    × (resolve change now agent store ≡ (store, err not_pending)))))
  resolve_cases change now agent store s at = elim (refresh_cases now s) [
    | inl (p, late, lapsed, e) ↦ inr (
        inl (
          p,
          late,
          resolve_at change now agent store s at
              ∙ ap (settle change agent store) e
              ∙ settle_expired change agent store s,
        ))
    | inr (early, fresh, e) ↦
        let r = resolve_at change now agent store s at ∙ ap (settle change agent store) e in
        elim (settle_cases change agent store s) [
          | inl (p, w) ↦ inl (p, early p, r ∙ w)
          | inr (inl (x, w)) ↦ inr (inr (inl (x, r ∙ w)))
          | inr (inr (np, nx, w)) ↦ inr (inr (inr (np, nx, r ∙ w)))
        ]
  ]

  -- What `approve` and `deny` return on a stored row.
  resolve-ok_iff :
      (change : ApprovalRequestState Spec → ApprovalRequestState Spec) (now : ℕ) (agent : String)
      (store : Store Spec) (s : ApprovalRequestState Spec)
      → lookup agent store ≡ some s
      → ((resolve change now agent store).1 ≡ ok tt) ↔ ((s.status ≡ pending) × (now < deadline s))
  resolve-ok_iff change now agent store s at = elim (resolve_cases change now agent store s at) [
    | inl (p, early, w) ↦ (λ h. (p, early), λ q. ap (λ r. r.1) w)
    | inr (inl (p, late, w)) ↦ (λ h. cc (h, ap (λ r. r.1) w), λ q. absurd (omega arith))
    | inr (inr (inl (x, w))) ↦ (λ h. cc (h, ap (λ r. r.1) w), λ q. cc (q.0, x))
    | inr (inr (inr (np, nx, w))) ↦ (λ h. cc (h, ap (λ r. r.1) w), λ q. absurd (np q.0))
  ]

  -- A stored request can be approved, or denied, exactly while it is pending and its deadline is
  -- ahead.
  pub approve-ok_iff :
      (now : ℕ) (agent user reason : String) (store : Store Spec) (s : ApprovalRequestState Spec)
      → lookup agent store ≡ some s
      → (((approve now agent user store).1 ≡ ok tt) ↔ ((s.status ≡ pending) × (now < deadline s)))
        × (((deny now agent reason store).1 ≡ ok tt) ↔ ((s.status ≡ pending) × (now < deadline s)))
  approve-ok_iff now agent user reason store s at =
      unfold approve deny in
      (
        resolve-ok_iff (λ s. record s { status = approved; approved_by = some user }) now agent
            store s at,
        resolve-ok_iff (λ s. record s { status = denied; deny_reason = some reason }) now agent
            store s at,
      )
