-- ===== src/Capability/Soundness.antt =====
-- Whom `check_grant` of src/asap/auth/capabilities.py lets through.
use asap_protocol.Prelude.{
  ℕ, String, Bool, true, false, not, Option, none, some, if◌then◌else◌, arith, ◌≡◌, ◌↔◌, refl, sym,
  ◌∙◌, List, [], ◌∷◌, lookup, string_eq, ok, err, ◌>>=◌, Bool-cases, inl, inr, subst,
}
use asap_protocol.Json.{Fields, end, field, is_end}
use asap_protocol.Capability.Constraints.{ConstraintViolation, IsChecked, validate_constraints}
use asap_protocol.Capability.Registry.{
  CapabilityGrant, CapabilityRegistry, GrantCheckResult, GrantStatus, active, is_active,
  has_expired, grants_of, check_grant, check_constraints, or_end, refusal, is_empty,
}
use asap_protocol.Capability.Meets.{Meets, validate_constraints-ok_iff}

-- the check ends and allows
abbrev pub is_allowed : IsChecked GrantCheckResult → Bool
is_allowed (ok r) = r.allowed
is_allowed (err _) = false

-- the rows that let a call through
abbrev pub IsGranted : ℕ → String → String → Fields → CapabilityRegistry → CapabilityGrant → Type 0
IsGranted now agent capability arguments r g =
    (lookup capability (grants_of agent r) ≡ some g)
    × (g.status ≡ active)
    × (has_expired now g.expires_at ≡ false)
    × Meets (or_end g.constraints) arguments

check_constraints-allowed :
    (g : CapabilityGrant) (arguments : Option Fields)
    → (is_allowed (check_constraints g arguments) ≡ true)
      ↔ Meets (or_end g.constraints) (or_end arguments)
unfolding check_constraints
check_constraints-allowed g arguments =
    go (or_end g.constraints)
      (validate_constraints-ok_iff (or_end g.constraints) (or_end arguments))
  where
    checked : Fields → IsChecked (List ConstraintViolation) → IsChecked GrantCheckResult
    checked fs vs =
        if is_end fs
        then ok (record { allowed = true; violations = []; found = some g })
        else (vs >>= λ ws. ok (
            if is_empty ws
            then record { allowed = true; violations = []; found = some g }
            else refusal ws (some g)))

    by_result :
        (fs : Fields) (vs : IsChecked (List ConstraintViolation)) (P : Type 0)
        → is_end fs ≡ false
        → ((vs ≡ ok []) ↔ P)
        → (is_allowed (checked fs vs) ≡ true) ↔ P
    by_result end vs P e h = (λ k. cc, λ k. cc)
    by_result (field n s fs) (err x) P e h = (λ k. cc, λ p. let wrong = h.1 p in cc)
    by_result (field n s fs) (ok []) P e h = (λ k. h.0 refl, λ p. refl)
    by_result (field n s fs) (ok (v ∷ vs)) P e h = (λ k. cc, λ p. let wrong = h.1 p in cc)

    go :
        (fs : Fields)
        → ((validate_constraints fs (or_end arguments) ≡ ok []) ↔ Meets fs (or_end arguments))
        → (is_allowed (checked fs (validate_constraints fs (or_end arguments))) ≡ true)
          ↔ Meets fs (or_end arguments)
    go end h = (λ k. tt, λ k. refl)
    go (field n s fs) h =
        by_result (field n s fs) (validate_constraints (field n s fs) (or_end arguments))
          (Meets (field n s fs) (or_end arguments)) refl h

abbrev LetsThrough : ℕ → Fields → CapabilityGrant → Type 0
LetsThrough now arguments g =
    (g.status ≡ active)
    × (has_expired now g.expires_at ≡ false)
    × Meets (or_end g.constraints) arguments

abbrev LetsThroughIfAny : ℕ → Fields → Option CapabilityGrant → Type 0
LetsThroughIfAny now arguments none = ⊥
LetsThroughIfAny now arguments (some g) = LetsThrough now arguments g

is_active_iff : (s : GrantStatus) → (is_active s ≡ true) ↔ (s ≡ active)
is_active_iff s = (λ h. ground arith, λ h. ground arith)

-- the tests of `check_grant` on the row that it finds
row_checked : ℕ → Option Fields → CapabilityGrant → IsChecked GrantCheckResult
row_checked now arguments g =
    if not (is_active g.status)
    then ok (refusal [] (some g))
    else if has_expired now g.expires_at
    then ok (refusal [] (some g))
    else check_constraints g arguments

row_checked-allowed :
    (now : ℕ) (arguments : Option Fields) (g : CapabilityGrant)
    → (is_allowed (row_checked now arguments g) ≡ true) ↔ LetsThrough now (or_end arguments) g
unfolding row_checked
row_checked-allowed now arguments g = elim (Bool-cases (is_active g.status)) [
  | inr idle ↦ rw idle (
    λ h. cc,
    λ (a, e, m). let wrong = (is_active_iff g.status).1 a in let both = sym idle ∙ wrong in cc,
  )
  | inl a ↦ elim (Bool-cases (has_expired now g.expires_at)) [
    | inl late ↦ rw a (rw late (λ h. cc, λ (b, e, m). cc))
    | inr fresh ↦
        let answer = check_constraints-allowed g arguments in
        rw a (
          rw fresh (λ h. ((is_active_iff g.status).0 a, refl, answer.0 h), λ (b, e, m). answer.1 m))
  ]
]

-- A call is allowed exactly where the agent has a grant of the capability that is active, has not
-- expired, and whose constraints the arguments meet, missing arguments counting as an empty object.
pub check_grant-allowed_iff :
    (now : ℕ) (agent capability : String) (arguments : Option Fields) (r : CapabilityRegistry)
    → (is_allowed (check_grant now agent capability arguments r) ≡ true)
      ↔ ((g : CapabilityGrant) × IsGranted now agent capability (or_end arguments) r g)
unfolding check_grant row_checked
check_grant-allowed_iff now agent capability arguments r =
    go (lookup capability (grants_of agent r)) refl
  where
    go :
        (o : Option CapabilityGrant)
        → lookup capability (grants_of agent r) ≡ o
        → (is_allowed (check_grant now agent capability arguments r) ≡ true)
          ↔ ((g : CapabilityGrant) × IsGranted now agent capability (or_end arguments) r g)
    go none p = rw (p, check_grant) (λ h. cc, λ (g, (at, a, e, m)). cc)
    go (some g) p =
        let (to, back) = row_checked-allowed now arguments g in
        rw (p, check_grant)
          (
            λ h. let (a, e, m) = to h in (g, (refl, a, e, m)),
            λ (h, (same, a, e, m)).
                back (subst (LetsThroughIfAny now (or_end arguments)) (sym same) (a, e, m)),
          )
