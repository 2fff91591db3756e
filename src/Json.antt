-- ===== src/Json.antt =====
-- JSON values as Python holds them, with `==`, `in` and the order of numbers. Numbers are integers.
use asap_protocol.Prelude.{
  ℕ, suc, String, Bool, true, false, ◌&&◌, Option, none, some, if◌then◌else◌, ltb, nat_beq, ◌==◌,
  string_eq,
}

-- `negsuc n` is -(n + 1)
pub data ℤ : Type 0 where
  pos negsuc : ℕ → ℤ

unfoldable pub int_ltb : ℤ → ℤ → Bool
int_ltb (pos a) (pos b) = ltb a b
int_ltb (pos a) (negsuc b) = false
int_ltb (negsuc a) (pos b) = true
int_ltb (negsuc a) (negsuc b) = ltb b a

unfoldable pub int_beq : ℤ → ℤ → Bool
int_beq (pos a) (pos b) = nat_beq a b
int_beq (negsuc a) (negsuc b) = nat_beq a b
int_beq _ _ = false

mutual
  pub data Value : Type 0 where
    null : Value
    boolean : Bool → Value
    number : ℤ → Value
    text : String → Value
    array : Items → Value
    object : Fields → Value

  pub data Items : Type 0 where
    nil : Items
    cons : Value → Items → Items

  -- a dict, in its order
  pub data Fields : Type 0 where
    end : Fields
    field : String → Value → Fields → Fields

unfoldable pub get_field : String → Fields → Option Value
get_field k end = none
get_field k (field j v fs) = if j == k then some v else get_field k fs

abbrev pub or_null : Option Value → Value
or_null none = null
or_null (some v) = v

abbrev pub is_end : Fields → Bool
is_end end = true
is_end (field _ _ _) = false

unfoldable pub size : Fields → ℕ
size end = 0
size (field _ _ fs) = suc (size fs)

-- `isinstance(v, (int, float))`: a bool is an int
unfoldable pub as_number : Value → Option ℤ
as_number (number n) = some n
as_number (boolean true) = some (pos 1)
as_number (boolean false) = some (pos 0)
as_number _ = none

abbrev pub maybe_beq : Option ℤ → Option ℤ → Bool
maybe_beq (some a) (some b) = int_beq a b
maybe_beq _ _ = false

-- Python's `==`: `True == 1`, lists item by item, dicts whatever their order
unfoldable mutual
  unfolding as_number int_beq get_field size

  pub same_value : Value → Value → Bool
  same_value null null = true
  same_value (text s) (text t) = s == t
  same_value (array xs) (array ys) = same_items xs ys
  same_value (object fs) (object gs) = nat_beq (size fs) (size gs) && fields_in fs gs
  same_value v w = maybe_beq (as_number v) (as_number w)

  pub same_items : Items → Items → Bool
  same_items nil nil = true
  same_items (cons x xs) (cons y ys) = same_value x y && same_items xs ys
  same_items _ _ = false

  -- each field of the first is one of the second
  pub fields_in : Fields → Fields → Bool
  fields_in end gs = true
  fields_in (field k v fs) gs =
      (elim (get_field k gs) [ none ↦ false | some w ↦ same_value v w ]) && fields_in fs gs

unfoldable pub is_item : Value → Items → Bool
unfolding same_value
is_item v nil = false
is_item v (cons x xs) = if same_value x v then true else is_item v xs
