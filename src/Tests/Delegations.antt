-- ===== src/Tests/Delegations.antt =====
-- Delegation tokens and cascades, for src/asap/economics/delegation_storage.py and
-- src/asap/economics/delegation.py.
use asap_protocol.Prelude.{
  ℕ, String, Bool, true, false, Option, none, some, if◌then◌else◌, List, [], ◌∷◌, ◌≡◌, ◌↔◌, ◌⊎◌,
  ◌*◌, refl, sym, ap, arith, Dict, lookup, insert, contains, keys_where, ◌==◌, string_eq, nat_eq,
  second,
}
use asap_protocol.Json.{
  pos, Value, text, number, array, object, nil, cons, Fields, end, field, as_number, get_field,
  is_item,
}
use asap_protocol.Delegation.Storage.{
  Issued, Storage, is_revoked, register_issued, empty, revoke_cascade, children, push,
}
use asap_protocol.Delegation.Cascade.{Reach, here, there}
use asap_protocol.Delegation.Revoked.{revoke_cascade-returns, revoke_cascade-exact}
use asap_protocol.Delegation.Tokens.{Policy, validate_delegation, jti_of}
use asap_protocol.Delegation.Validity.{is_ok, cascade-refuses}
use asap_protocol.Delegation.Accepted.{IsAccepted, validate_delegation-ok_iff}

-- two tokens whose delegates issue to each other, and one beside them
abbrev storage : Storage
storage =
    register_issued 1 "t1" "A" (some "B")
      (register_issued 2 "t2" "B" (some "A") (register_issued 3 "t3" "C" none empty))

abbrev at_ten : String → ℕ
at_ten _ = 10

revoke_cascade-returns_example : (s : Storage) × (revoke_cascade at_ten none "t1" storage ≡ some s)
revoke_cascade-returns_example = revoke_cascade-returns at_ten none "t1" storage

revoke_cascade-exact_example :
    (s : Storage) × (revoke_cascade at_ten none "t1" storage ≡ some s)
    × ((is_revoked "t2" s ≡ true) ↔ (Reach storage "t1" "t2" ⊎ (is_revoked "t2" storage ≡ true)))
unfolding register_issued insert empty
revoke_cascade-exact_example = revoke_cascade-exact at_ten none "t1" storage "t2" (omega arith)

-- each token is issued by the one before, and the last delegates to `last`
abbrev chain : String → String → List String → Dict String Issued
chain prev last [] = ("end", record { delegator = prev; delegate = some last; created_at = 0 }) ∷ []
chain prev last (t ∷ ts) =
    (t, record { delegator = prev; delegate = some t; created_at = 0 }) ∷ chain t last ts

abbrev issued_by : String → String → String → String × Issued
issued_by delegator t delegate =
    (t, record { delegator = delegator; delegate = some delegate; created_at = 0 })

-- The root issues `short` and the chain of 49, whose delegates both issue `x`, which issues `y`.
abbrev two_ways : Storage
two_ways = record {
  revoked = [];
  issued =
      issued_by "o" "root" "root"
      ∷ issued_by "root" "short" "shared"
      ∷ issued_by "shared" "x" "x"
      ∷ issued_by "x" "y" "y"
      ∷ chain "root" "shared" (
          "t1" ∷ "t2" ∷ "t3" ∷ "t4" ∷ "t5" ∷ "t6" ∷ "t7" ∷ "t8" ∷ "t9" ∷ "t10" ∷ "t11" ∷ "t12"
          ∷ "t13" ∷ "t14" ∷ "t15" ∷ "t16" ∷ "t17" ∷ "t18" ∷ "t19" ∷ "t20" ∷ "t21" ∷ "t22" ∷ "t23"
          ∷ "t24" ∷ "t25" ∷ "t26" ∷ "t27" ∷ "t28" ∷ "t29" ∷ "t30" ∷ "t31" ∷ "t32" ∷ "t33" ∷ "t34"
          ∷ "t35" ∷ "t36" ∷ "t37" ∷ "t38" ∷ "t39" ∷ "t40" ∷ "t41" ∷ "t42" ∷ "t43" ∷ "t44" ∷ "t45"
          ∷ "t46" ∷ "t47" ∷ "t48" ∷ []);
}

abbrev revoked_in : String → Option Storage → Bool
revoked_in t none = false
revoked_in t (some s) = is_revoked t s

-- `y` is three steps from the root, and a cascade that comes to `x` by the chain first leaves it valid.
cascade_misses :
    (revoked_in "x" (revoke_cascade at_ten none "root" two_ways) ≡ true)
    × (revoked_in "y" (revoke_cascade at_ten none "root" two_ways) ≡ false)
unfolding revoke_cascade is_revoked lookup insert contains keys_where children push
cascade_misses = (refl, refl)

three_steps : Reach two_ways "root" "y"
unfolding children lookup keys_where contains
three_steps = there (there (there here "short" refl) "x" refl) "y" refl

abbrev claims : Fields
claims = field "iss" (text "B") (
    field "jti" (text "t2")
      (field "exp" (number (pos 100)) (field "scp" (array (cons (text "data.read") nil)) end)))

abbrev payload_of : String → Option Value
payload_of token = if token == "jwt" then some (object claims) else none

-- the key 7 signs
abbrev decode : ℕ → String → Option Fields
decode key token = if key == 7 then (if token == "jwt" then some claims else none) else none

abbrev str : Value → String
str (text s) = s
str _ = "?"

abbrev key_of : String → Option ℕ
key_of iss = if iss == "B" then some 7 else none

abbrev open_policy : Policy
open_policy = record { allowed_delegators = none; is_revoked = none; usage_count_for_token = none }

validate_delegation-ok_iff_example :
    (is_ok (
        validate_delegation ℕ payload_of decode str as_number key_of open_policy
          (50 * second)
          "data.read"
          "jwt")
      ≡ true)
    ↔ IsAccepted ℕ payload_of decode str as_number key_of open_policy
        (50 * second)
        "data.read"
        "jwt"
validate_delegation-ok_iff_example =
    validate_delegation-ok_iff ℕ payload_of decode str as_number key_of open_policy (50 * second)
      "data.read" "jwt"

token_is_accepted :
    is_ok (
      validate_delegation ℕ payload_of decode str as_number key_of open_policy 50000000 "data.read"
        "jwt")
    ≡ true
unfolding validate_delegation as_number get_field is_item
token_is_accepted = refl

carries_jti :
    (key : ℕ) (c : Fields)
    → decode key "jwt" ≡ some c
    → jti_of ℕ payload_of decode str as_number c ≡ some "t2"
unfolding jti_of get_field
carries_jti key c h = go (key == 7) h
  where
    jti_in : Option Fields → Option String
    jti_in none = some "t2"
    jti_in (some c) = jti_of ℕ payload_of decode str as_number c

    go :
        (b : Bool)
        → (if b then some claims else none) ≡ some c
        → jti_of ℕ payload_of decode str as_number c ≡ some "t2"
    go true e = sym (ap jti_in e)
    go false e = sym (ap jti_in e)

cascade-refuses_example :
    (s : Storage) × (revoke_cascade at_ten none "t1" storage ≡ some s)
    × (is_ok (
          validate_delegation ℕ payload_of decode str as_number key_of
            (record open_policy { is_revoked = some (λ t. is_revoked t s) })
            (50 * second)
            "data.read"
            "jwt")
        ≡ false)
unfolding register_issued insert empty children lookup keys_where contains
cascade-refuses_example =
    cascade-refuses ℕ payload_of decode str as_number at_ten none "t1" storage (omega arith) key_of
      open_policy (50 * second) "data.read" "jwt" "t2" (there here "t2" refl) refl carries_jti
