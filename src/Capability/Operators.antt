-- ===== src/Capability/Operators.antt =====
-- What it means that an argument obeys an operator, apart from `_check_operator` of
-- src/asap/auth/capabilities.py, and that `_check_operator` decides it.
use asap_protocol.Prelude.{
  String, Bool, true, false, not, Option, none, some, if◌then◌else◌, ◌==◌, string_eq, ok, err,
  ◌>>=◌, arith, ◌≡◌, refl, ◌∙◌, ◌↔◌, Bool-cases, inl, inr, subst,
}
use asap_protocol.Json.{ℤ, int_ltb, Value, as_number}
use asap_protocol.Capability.Constraints.{
  ConstraintViolation, TypeError, IsChecked, is_operator, below, above, is_in, violation_if,
  check_bound, check_operator,
}

-- Both are numbers, and the argument is no more than the bound.
abbrev pub IsAtMost : Value → Value → Type 0
IsAtMost expected actual =
    (n : ℤ) × (m : ℤ) × (as_number actual ≡ some n)
    × (as_number expected ≡ some m)
    × (int_ltb m n ≡ false)

abbrev pub IsAtLeast : Value → Value → Type 0
IsAtLeast expected actual =
    (n : ℤ) × (m : ℤ) × (as_number actual ≡ some n)
    × (as_number expected ≡ some m)
    × (int_ltb n m ≡ false)

abbrev pub Obeys : String → Value → Value → Type 0
Obeys op expected actual =
    if op == "max"
    then IsAtMost expected actual
    else if op == "min"
    then IsAtLeast expected actual
    else if op == "in"
    then is_in actual expected ≡ ok true
    else if op == "not_in"
    then is_in actual expected ≡ ok false
    else Unit {0}

pub same_some : {A : Type 0} {a b : A} → some a ≡ some b → a ≡ b
same_some e = cc

abbrev pub clear : IsChecked (Option ConstraintViolation)
clear = ok none

-- `max` and `min` at once: `out` says whether the argument is out of the bound
pub check_bound-clear :
    (out : ℤ → Value → IsChecked Bool) (test : ℤ → ℤ → Bool)
    → ((n : ℤ) (v : Value)
        → out n v
          ≡ (elim (as_number v) [ none ↦ err TypeError.type_error | some m ↦ ok (test n m) ]))
    → (name op : String) (e a : Value)
    → (check_bound out name op e a ≡ clear)
      ↔ ((n : ℤ) × (m : ℤ) × (as_number a ≡ some n) × (as_number e ≡ some m) × (test n m ≡ false))
unfolding check_bound violation_if
check_bound-clear out test is_out name op e a = go (as_number a) refl (as_number e) refl
  where
    P : Type 0
    P = (n : ℤ) × (m : ℤ) × (as_number a ≡ some n) × (as_number e ≡ some m) × (test n m ≡ false)

    known :
        (n m : ℤ) (b : Bool)
        → test n m ≡ b
        → let checked : IsChecked (Option ConstraintViolation) = ok (violation_if b name op e a) in
          (checked ≡ clear)
          ↔ ((x : ℤ) × (y : ℤ) × (some n ≡ some x) × (some m ≡ some y) × (test x y ≡ false))
    known n m true t =
        (λ h. cc, λ (n', m', p', q', r). let x = same_some p' in let y = same_some q' in cc)
    known n m false t = (λ h. (n, m, refl, refl, t), λ h. refl)

    go :
        (n : Option ℤ)
        → as_number a ≡ n
        → (m : Option ℤ) → as_number e ≡ m
        → (check_bound out name op e a ≡ clear) ↔ P
    go none p m q = rw (p, check_bound) (λ h. cc, λ (n', m', p', q', r). cc)
    go (some n) p none q =
        rw (p, check_bound) (rw (is_out n e) (rw q (λ h. cc, λ (n', m', p', q', r). cc)))
    go (some n) p (some m) q =
        rw (p, check_bound) (rw (is_out n e) (rw q (known n m (test n m) refl)))

pub is_in-clear :
    (name op : String) (flip : Bool) (e a : Value)
    → ((is_in a e >>= λ b. ok (violation_if (if flip then not b else b) name op e a)) ≡ clear)
      ↔ (is_in a e ≡ ok flip)
unfolding violation_if
is_in-clear name op flip e a = go (is_in a e)
  where
    go :
        (r : IsChecked Bool)
        → let checked : IsChecked (Option ConstraintViolation) =
            (r >>= λ b. ok (violation_if (if flip then not b else b) name op e a)) in
          (checked ≡ clear) ↔ (r ≡ ok flip)
    go (err x) = (λ h. cc, λ h. cc)
    go (ok b) = (λ h. ground arith, λ h. ground arith)

pub above_lem :
    (n : ℤ) (v : Value)
    → above n v
      ≡ (elim (as_number v) [ none ↦ err TypeError.type_error | some m ↦ ok (int_ltb m n) ])
unfolding above
above_lem n v = refl

pub below_lem :
    (n : ℤ) (v : Value)
    → below n v
      ≡ (elim (as_number v) [ none ↦ err TypeError.type_error | some m ↦ ok (int_ltb n m) ])
unfolding below
below_lem n v = refl

pub check_operator-clear :
    (name op : String) (e a : Value) → (check_operator name op e a ≡ clear) ↔ Obeys op e a
unfolding check_operator
check_operator-clear name op e a = go (op == "max") (op == "min") (op == "in") (op == "not_in")
  where
    go :
        (x y z w : Bool)
        → let checked : IsChecked (Option ConstraintViolation) =
            (if x
              then check_bound above name op e a
              else if y
              then check_bound below name op e a
              else if z
              then (is_in a e >>= λ b. ok (violation_if (not b) name op e a))
              else if w
              then (is_in a e >>= λ b. ok (violation_if b name op e a))
              else ok none) in
          (checked ≡ clear) ↔ (
            if x
            then IsAtMost e a
            else if y
            then IsAtLeast e a
            else if z
            then is_in a e ≡ ok true
            else if w
            then is_in a e ≡ ok false
            else Unit {0})
    go true y z w = check_bound-clear above (λ n m. int_ltb m n) above_lem name op e a
    go false true z w = check_bound-clear below (λ n m. int_ltb n m) below_lem name op e a
    go false false true w = is_in-clear name op true e a
    go false false false true = is_in-clear name op false e a
    go false false false false = (λ h. tt, λ h. refl)

pub no_operator :
    (name op : String) (e a : Value) → is_operator op ≡ false → check_operator name op e a ≡ ok none
unfolding is_operator check_operator
no_operator name op e a h = ground arith

pub guarded-clear :
    (name op : String) (e a : Value)
    → ((if is_operator op then check_operator name op e a else ok none) ≡ clear) ↔ Obeys op e a
guarded-clear name op e a = elim (Bool-cases (is_operator op)) [
  | inl h ↦ rw h (check_operator-clear name op e a)
  | inr h ↦
      subst (λ m. (m ≡ clear) ↔ Obeys op e a) (no_operator name op e a h ∙ rw h refl)
        (check_operator-clear name op e a)
]
