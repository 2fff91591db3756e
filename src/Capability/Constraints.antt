-- ===== src/Capability/Constraints.antt =====
-- `_check_operator` and `validate_constraints` of src/asap/auth/capabilities.py. Constraints and
-- arguments are JSON objects. A violation's message is left out.
use asap_protocol.Prelude.{
  String, Bool, true, false, ◌||◌, not, Option, none, some, if◌then◌else◌, List, [], ◌∷◌, ◌++◌,
  ◌==◌, string_eq, is_infix, Result, ok, err, ◌>>=◌, is_none,
}
use asap_protocol.Json.{
  ℤ, int_ltb, Value, null, boolean, number, text, array, object, Fields, end, field, get_field,
  as_number, same_value, is_item, or_null,
}

pub record ConstraintViolation : Type 0 where
  pub field_name : String
  pub operator : String
  pub expected : Value
  pub actual : Value

-- Python's `TypeError`: numbers compared with other values, `in` on what holds nothing
pub data TypeError : Type 0 where
  type_error : TypeError

abbrev pub IsChecked : Type 0 → Type 0
IsChecked A = Result TypeError A

unfoldable pub is_operator : String → Bool
is_operator op = op == "max" || op == "min" || op == "in" || op == "not_in"

-- `actual < bound`, where `actual` is a number
unfoldable pub below : ℤ → Value → IsChecked Bool
below n v = elim (as_number v) [ none ↦ err type_error | some m ↦ ok (int_ltb n m) ]

unfoldable pub above : ℤ → Value → IsChecked Bool
above n v = elim (as_number v) [ none ↦ err type_error | some m ↦ ok (int_ltb m n) ]

-- `actual in expected`
unfoldable pub is_in : Value → Value → IsChecked Bool
is_in v (array xs) = ok (is_item v xs)
is_in (text s) (text t) = ok (is_infix s t)
is_in (text s) (object fs) = ok (not (is_none (get_field s fs)))
is_in null (object fs) = ok false
is_in (boolean b) (object fs) = ok false
is_in (number n) (object fs) = ok false
is_in _ _ = err type_error

unfoldable pub violation_if : Bool → String → String → Value → Value → Option ConstraintViolation
violation_if b name op expected actual =
    if b
    then some (record { field_name = name; operator = op; expected = expected; actual = actual })
    else none

-- `max` and `min`: what is no number is a violation before the bound is read
unfoldable pub check_bound :
    (ℤ → Value → IsChecked Bool)
    → String
    → String
    → Value
    → Value
    → IsChecked (Option ConstraintViolation)
unfolding violation_if
check_bound out_of name op expected actual = elim (as_number actual) [
  | none ↦ ok (violation_if true name op expected actual)
  | some n ↦ do b ← out_of n expected; ok (violation_if b name op expected actual)
]

unfoldable pub check_operator :
    String → String → Value → Value → IsChecked (Option ConstraintViolation)
unfolding check_bound above below is_in
check_operator name op expected actual =
    if op == "max"
    then check_bound above name op expected actual
    else if op == "min"
    then check_bound below name op expected actual
    else if op == "in"
    then (do b ← is_in actual expected; ok (violation_if (not b) name op expected actual))
    else if op == "not_in"
    then (do b ← is_in actual expected; ok (violation_if b name op expected actual))
    else ok none

abbrev pub to_list : {A : Type 0} → Option A → List A
to_list none = []
to_list (some a) = a ∷ []

-- `OPERATOR_KEYS & spec.keys()`
unfoldable pub has_operator : Fields → Bool
unfolding is_operator
has_operator end = false
has_operator (field op _ fs) = if is_operator op then true else has_operator fs

-- `for op, expected in spec.items()`
unfoldable pub check_operators : String → Fields → Value → IsChecked (List ConstraintViolation)
unfolding check_operator
check_operators name end actual = ok []
check_operators name (field op expected fs) actual =
    let here = if is_operator op then check_operator name op expected actual else ok none in
    do v ← here; vs ← check_operators name fs actual; ok (to_list v ++ vs)

abbrev pub is_null : Value → Bool
is_null null = true
is_null _ = false

unfoldable pub check_exact : String → Value → Value → IsChecked (List ConstraintViolation)
unfolding violation_if
check_exact name spec actual =
    ok (to_list (violation_if (not (same_value actual spec)) name "eq" spec actual))

-- one field, whose argument is there
unfoldable pub check_field : String → Value → Value → IsChecked (List ConstraintViolation)
unfolding check_operators check_exact has_operator
check_field name (object spec) actual =
    if has_operator spec
    then check_operators name spec actual
    else check_exact name (object spec) actual
check_field name spec actual = check_exact name spec actual

unfoldable pub check_argument : String → Value → Value → IsChecked (List ConstraintViolation)
unfolding check_field violation_if
check_argument name spec actual =
    if is_null actual
    then ok (to_list (violation_if true name "required" spec null))
    else check_field name spec actual

unfoldable pub validate_constraints : Fields → Fields → IsChecked (List ConstraintViolation)
unfolding check_argument
validate_constraints end arguments = ok []
validate_constraints (field name spec fs) arguments = do
  vs ← check_argument name spec (or_null (get_field name arguments))
  ws ← validate_constraints fs arguments
  ok (vs ++ ws)
