-- ===== src/Delegation/Live.antt =====
-- What the claims of a token have to hold, read off the raw claims, for `validate_delegation` of
-- src/asap/economics/delegation.py. Times are microseconds, claims are in seconds.
use mathlib.Core.List.{Mem}
use asap_protocol.Prelude.{
  List, contains-Mem, ℕ, zero, suc, ◌*◌, ◌<◌, String, Bool, true, false, not, ◌&&◌, Option, none,
  some, ◌==◌, string_eq, arith, ◌≡◌, ◌↔◌, ◌⊎◌, inl, inr, refl, second,
}
use asap_protocol.Json.{
  ℤ, pos, negsuc, int_ltb, Value, null, boolean, number, text, array, object, Items, nil, cons,
  Fields, get_field, as_number, is_item, same_value,
}
use asap_protocol.Delegation.Tokens.{
  Policy, exp_of, is_past, scopes_of, scope_includes_action, is_allowed_delegator, is_revoked_jti,
  jti_of, is_used_up, max_tasks_of, claim,
}

-- An `exp` that is a positive number lies ahead; any other is no expiry. True counts as one.
abbrev pub IsCurrent : ℕ → Option Value → Type 0
IsCurrent now (some (number (pos (suc m)))) = now < suc m * second
IsCurrent now (some (boolean true)) = now < 1 * second
IsCurrent now _ = Unit

-- the text is an item of the list
abbrev pub HasText : String → Items → Type 0
HasText t nil = ⊥
HasText t (cons x xs) = (x ≡ text t) ⊎ HasText t xs

-- `scp` is a list with the wildcard or the action
abbrev pub IsScoped : String → Option Value → Type 0
IsScoped action (some (array xs)) = HasText "*" xs ⊎ HasText action xs
IsScoped action _ = ⊥

-- the count is below the limit
abbrev pub IsBelow : ℕ → ℤ → Type 0
IsBelow n (pos m) = n < m
IsBelow n (negsuc m) = ⊥

pub is_past-IsCurrent :
    (now : ℕ) (o : Option Value) → (is_past now (exp_of o) ≡ false) ↔ IsCurrent now o
unfolding is_past exp_of as_number
is_past-IsCurrent now none = (λ h. tt, λ h. refl)
is_past-IsCurrent now (some (number (pos zero))) = (λ h. tt, λ h. refl)
is_past-IsCurrent now (some (number (pos (suc m)))) = (λ h. ground arith, λ h. ground arith)
is_past-IsCurrent now (some (number (negsuc m))) = (λ h. tt, λ h. refl)
is_past-IsCurrent now (some (boolean true)) = (λ h. ground arith, λ h. ground arith)
is_past-IsCurrent now (some (boolean false)) = (λ h. tt, λ h. refl)
is_past-IsCurrent now (some null) = (λ h. tt, λ h. refl)
is_past-IsCurrent now (some (text s)) = (λ h. tt, λ h. refl)
is_past-IsCurrent now (some (array xs)) = (λ h. tt, λ h. refl)
is_past-IsCurrent now (some (object fs)) = (λ h. tt, λ h. refl)

same_value-text : (v : Value) (t : String) → (same_value v (text t) ≡ true) ↔ (v ≡ text t)
unfolding same_value as_number
same_value-text (text s) t =
    (λ h. let e = (string_eq.beq_iff s t).0 h in cc, λ e. (string_eq.beq_iff s t).1 cc)
same_value-text null t = (λ h. cc, λ e. cc)
same_value-text (boolean true) t = (λ h. cc, λ e. cc)
same_value-text (boolean false) t = (λ h. cc, λ e. cc)
same_value-text (number n) t = (λ h. cc, λ e. cc)
same_value-text (array xs) t = (λ h. cc, λ e. cc)
same_value-text (object fs) t = (λ h. cc, λ e. cc)

is_item-HasText : (t : String) (xs : Items) → (is_item (text t) xs ≡ true) ↔ HasText t xs
unfolding is_item
is_item-HasText t nil = (λ h. cc, λ h. absurd h)
is_item-HasText t (cons x xs) = (
  λ h. ground (arith, same_value-text x t, is_item-HasText t xs),
  λ h. ground (arith, same_value-text x t, is_item-HasText t xs),
)

pub scope_includes_action-IsScoped :
    (action : String) (o : Option Value)
    → (scope_includes_action (scopes_of o) action ≡ true) ↔ IsScoped action o
unfolding scope_includes_action scopes_of
scope_includes_action-IsScoped action none = (λ h. cc, λ h. absurd h)
scope_includes_action-IsScoped action (some null) = (λ h. cc, λ h. absurd h)
scope_includes_action-IsScoped action (some (boolean b)) = (λ h. cc, λ h. absurd h)
scope_includes_action-IsScoped action (some (number n)) = (λ h. cc, λ h. absurd h)
scope_includes_action-IsScoped action (some (text s)) = (λ h. cc, λ h. absurd h)
scope_includes_action-IsScoped action (some (object fs)) = (λ h. cc, λ h. absurd h)
scope_includes_action-IsScoped action (some (array nil)) =
    (λ h. cc, λ h. absurd (elim h [ inl x ↦ x | inr x ↦ x ]))
scope_includes_action-IsScoped action (some (array (cons x xs))) = (
  λ h. ground (arith, is_item-HasText "*" (cons x xs), is_item-HasText action (cons x xs)),
  λ h. ground (arith, is_item-HasText "*" (cons x xs), is_item-HasText action (cons x xs)),
)

int_ltb-IsBelow : (n : ℕ) (m : ℤ) → (int_ltb (pos n) m ≡ true) ↔ IsBelow n m
unfolding int_ltb
int_ltb-IsBelow n (pos m) = (λ h. ground arith, λ h. ground arith)
int_ltb-IsBelow n (negsuc m) = (λ h. cc, λ h. absurd h)

-- a claim that is null counts as none
abbrev pub given : Option Value → Option Value
given (some null) = none
given o = o

abbrev pub as_text : (Value → String) → Option Value → Option String
as_text str none = none
as_text str (some v) = some (str v)

-- The id is not one that the caller knows as revoked. An empty id is not asked about.
abbrev pub IsKept : Option (String → Bool) → Option String → Type 0
IsKept (some revoked) (some jti) = (jti ≡ "") ⊎ (revoked jti ≡ false)
IsKept _ _ = Unit

-- a limit that is no number limits nothing
abbrev pub IsUnder : ℕ → Option ℤ → Type 0
IsUnder n none = Unit
IsUnder n (some limit) = IsBelow n limit

abbrev pub HasRoom : (Value → Option ℤ) → String → Option Value → Option (String → ℕ) → Type 0
HasRoom int jti (some limit) (some used) = IsUnder (used jti) (int limit)
HasRoom int jti _ _ = Unit

-- The token has been used fewer times than its `max_tasks`, where it has an id and the caller counts.
abbrev pub IsUnspent :
    (Value → Option ℤ) → Option String → Option Value → Option (String → ℕ) → Type 0
IsUnspent int (some jti) (some (object fs)) used =
    (jti ≡ "") ⊎ HasRoom int jti (given (get_field "max_tasks" fs)) used
IsUnspent int _ _ _ = Unit

-- the issuer is one of the delegators that the caller allows, where it names some
abbrev pub IsAllowed : Option (List String) → String → Type 0
IsAllowed none iss = Unit
IsAllowed (some urns) iss = Mem iss urns

pub is_allowed_delegator-IsAllowed :
    (o : Option (List String)) (iss : String)
    → (is_allowed_delegator o iss ≡ true) ↔ IsAllowed o iss
unfolding is_allowed_delegator
is_allowed_delegator-IsAllowed none iss = (λ h. tt, λ h. refl)
is_allowed_delegator-IsAllowed (some urns) iss = contains-Mem iss urns

pub is_revoked_jti-IsKept :
    (revoked : Option (String → Bool)) (jti : Option String)
    → (is_revoked_jti revoked jti ≡ false) ↔ IsKept revoked jti
unfolding is_revoked_jti
is_revoked_jti-IsKept none jti = (λ h. tt, λ h. refl)
is_revoked_jti-IsKept (some f) none = (λ h. tt, λ h. refl)
is_revoked_jti-IsKept (some f) (some jti) =
    (λ h. ground (arith, string_eq.beq_iff jti ""), λ h. ground (arith, string_eq.beq_iff jti ""))

pub claim-given :
    (name : String) (claims : Fields) → claim name claims ≡ given (get_field name claims)
unfolding claim
claim-given name claims = ground arith

max_tasks_of-given :
    (fs : Fields) → max_tasks_of (some (object fs)) ≡ given (get_field "max_tasks" fs)
unfolding max_tasks_of
max_tasks_of-given fs = ground arith

module _ (Key : Type 0) (payload_of : String → Option Value) (decode : Key → String → Option Fields)
    (str : Value → String) (int : Value → Option ℤ) where
  pub jti_of-as_text :
      (claims : Fields)
      → jti_of Key payload_of decode str int claims ≡ as_text str (given (get_field "jti" claims))
  unfolding jti_of
  jti_of-as_text claims = rw (claim-given "jti" claims) (go (given (get_field "jti" claims)))
    where
      go :
          (o : Option Value)
          → (elim o as (λ _. Option String) [ none ↦ none | some v ↦ some (str v) ]) ≡ as_text str o
      go none = refl
      go (some v) = refl

  pub is_used_up-IsUnspent :
      (p : Policy) (jti : Option String) (o : Option Value)
      → (is_used_up Key payload_of decode str int p jti o ≡ false)
        ↔ IsUnspent int jti o p.usage_count_for_token
  unfolding is_used_up max_tasks_of
  is_used_up-IsUnspent p none o = (λ h. tt, λ h. refl)
  is_used_up-IsUnspent p (some jti) none = (λ h. tt, λ h. refl)
  is_used_up-IsUnspent p (some jti) (some null) = (λ h. tt, λ h. refl)
  is_used_up-IsUnspent p (some jti) (some (boolean b)) = (λ h. tt, λ h. refl)
  is_used_up-IsUnspent p (some jti) (some (number n)) = (λ h. tt, λ h. refl)
  is_used_up-IsUnspent p (some jti) (some (text s)) = (λ h. tt, λ h. refl)
  is_used_up-IsUnspent p (some jti) (some (array xs)) = (λ h. tt, λ h. refl)
  is_used_up-IsUnspent p (some jti) (some (object fs)) =
      rw (max_tasks_of-given fs) (go (given (get_field "max_tasks" fs)) p.usage_count_for_token)
    where
      counted :
          (n : ℕ) (limit : Option ℤ)
          → ((elim limit as (λ _. Bool) [
            | none ↦ false
            | some m ↦ not (jti == "") && not (int_ltb (pos n) m)
          ])
              ≡ false)
            ↔ ((jti ≡ "") ⊎ IsUnder n limit)
      counted n none = (λ h. inr tt, λ h. refl)
      counted n (some m) = (
        λ h. ground (arith, int_ltb-IsBelow n m, string_eq.beq_iff jti ""),
        λ h. ground (arith, int_ltb-IsBelow n m, string_eq.beq_iff jti ""),
      )

      go :
          (o : Option Value) (used : Option (String → ℕ))
          → ((elim o as (λ _. Bool) [
            | none ↦ false
            | some limit ↦ elim used as (λ _. Bool) [
              | none ↦ false
              | some f ↦ elim (int limit) as (λ _. Bool) [
                | none ↦ false
                | some n ↦ not (jti == "") && not (int_ltb (pos (f jti)) n)
              ]
            ]
          ])
              ≡ false)
            ↔ ((jti ≡ "") ⊎ HasRoom int jti o used)
      go none used = (λ h. inr tt, λ h. refl)
      go (some v) none = (λ h. inr tt, λ h. refl)
      go (some v) (some f) = counted (f jti) (int v)
