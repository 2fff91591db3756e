-- ===== src/Capability/Meets.antt =====
-- What it means that arguments meet constraints, apart from the loops of
-- src/asap/auth/capabilities.py, and that the loops decide it.
use asap_protocol.Prelude.{
  String, true, false, Option, none, some, if◌then◌else◌, List, [], ◌∷◌, ◌++◌, string_eq, ok, err,
  ◌>>=◌, arith, ◌≡◌, refl, ◌↔◌, Bool-cases, inl, inr,
}
use asap_protocol.Json.{
  Value, null, object, boolean, number, text, array, Fields, end, field, get_field, same_value,
  or_null,
}
use asap_protocol.Capability.Constraints.{
  ConstraintViolation, IsChecked, is_operator, violation_if, check_operator, to_list, has_operator,
  check_operators, is_null, check_exact, check_field, check_argument, validate_constraints,
}
use asap_protocol.Capability.Operators.{Obeys, clear, guarded-clear}

abbrev pub ObeysAll : Fields → Value → Type 0
ObeysAll end actual = Unit {0}
ObeysAll (field op expected fs) actual = Obeys op expected actual × ObeysAll fs actual

-- An object with an operator in it is a list of operators, and any other value stands for itself.
abbrev pub Fits : Value → Value → Type 0
Fits (object spec) actual =
    if has_operator spec then ObeysAll spec actual else same_value actual (object spec) ≡ true
Fits spec actual = same_value actual spec ≡ true

-- Every constrained field has an argument that is not null, and it fits.
abbrev pub Meets : Fields → Fields → Type 0
Meets end arguments = Unit {0}
Meets (field name spec fs) arguments =
    ((is_null (or_null (get_field name arguments)) ≡ false)
      × Fits spec (or_null (get_field name arguments)))
    × Meets fs arguments

-- Two steps find nothing exactly where each does.
one_then-clear :
    (m : IsChecked (Option ConstraintViolation)) (k : IsChecked (List ConstraintViolation))
    → ((m >>= λ v. k >>= λ vs. ok (to_list v ++ vs)) ≡ ok []) ↔ ((m ≡ clear) × (k ≡ ok []))
one_then-clear (err x) k = (λ h. cc, λ h. cc)
one_then-clear (ok none) (err x) = (λ h. cc, λ h. cc)
one_then-clear (ok none) (ok vs) = (λ h. (refl, h), λ h. h.1)
one_then-clear (ok (some v)) (err x) = (λ h. cc, λ h. cc)
one_then-clear (ok (some v)) (ok vs) = (λ h. cc, λ h. cc)

some_then-clear :
    (m k : IsChecked (List ConstraintViolation))
    → ((m >>= λ vs. k >>= λ ws. ok (vs ++ ws)) ≡ ok []) ↔ ((m ≡ ok []) × (k ≡ ok []))
some_then-clear (err x) k = (λ h. cc, λ h. cc)
some_then-clear (ok []) (err x) = (λ h. cc, λ h. cc)
some_then-clear (ok []) (ok ws) = (λ h. (refl, h), λ h. h.1)
some_then-clear (ok (v ∷ vs)) (err x) = (λ h. cc, λ h. cc)
some_then-clear (ok (v ∷ vs)) (ok ws) = (λ h. cc, λ h. cc)

check_operators-clear :
    (name : String) (spec : Fields) (a : Value)
    → (check_operators name spec a ≡ ok []) ↔ ObeysAll spec a
unfolding check_operators
check_operators-clear name end a = (λ h. tt, λ h. refl)
check_operators-clear name (field op e fs) a =
    let first = guarded-clear name op e a in
    let rest = check_operators-clear name fs a in
    let both =
      one_then-clear (if is_operator op then check_operator name op e a else ok none)
        (check_operators name fs a) in
    (λ h. let (x, y) = both.0 h in (first.0 x, rest.0 y), λ (x, y). both.1 (first.1 x, rest.1 y))

check_exact-clear :
    (name : String) (spec a : Value)
    → (check_exact name spec a ≡ ok []) ↔ (same_value a spec ≡ true)
unfolding check_exact violation_if
check_exact-clear name spec a = (λ h. ground arith, λ h. ground arith)

check_field-clear :
    (name : String) (spec a : Value) → (check_field name spec a ≡ ok []) ↔ Fits spec a
unfolding check_field
check_field-clear name null a = check_exact-clear name null a
check_field-clear name (boolean b) a = check_exact-clear name (boolean b) a
check_field-clear name (number n) a = check_exact-clear name (number n) a
check_field-clear name (text s) a = check_exact-clear name (text s) a
check_field-clear name (array xs) a = check_exact-clear name (array xs) a
check_field-clear name (object spec) a = elim (Bool-cases (has_operator spec)) [
  | inl h ↦ rw h (check_operators-clear name spec a)
  | inr h ↦ rw h (check_exact-clear name (object spec) a)
]

check_argument-clear :
    (name : String) (spec a : Value)
    → (check_argument name spec a ≡ ok []) ↔ ((is_null a ≡ false) × Fits spec a)
unfolding check_argument violation_if
check_argument-clear name spec a = elim (Bool-cases (is_null a)) [
  | inl h ↦ rw h (λ k. cc, λ k. cc)
  | inr h ↦
      rw h (
        λ k. (refl, (check_field-clear name spec a).0 k),
        λ k. (check_field-clear name spec a).1 k.1,
      )
]

-- The loops find no violation, and raise nothing, exactly where the arguments meet the constraints.
pub validate_constraints-ok_iff :
    (constraints arguments : Fields)
    → (validate_constraints constraints arguments ≡ ok []) ↔ Meets constraints arguments
unfolding validate_constraints
validate_constraints-ok_iff end arguments = (λ h. tt, λ h. refl)
validate_constraints-ok_iff (field name spec fs) arguments =
    let a = or_null (get_field name arguments) in
    let first = check_argument-clear name spec a in
    let rest = validate_constraints-ok_iff fs arguments in
    let both = some_then-clear (check_argument name spec a) (validate_constraints fs arguments) in
    (λ h. let (x, y) = both.0 h in (first.0 x, rest.0 y), λ (x, y). both.1 (first.1 x, rest.1 y))
