-- ===== src/Prelude/Dicts.antt =====
-- Python's `dict` and `OrderedDict`: an association list in insertion order.
use Prim.Native.Nat.{◌+◌, ◌≤◌}
use mathlib.Core.Path.{◌≡◌, refl, sym}
use mathlib.Core.Bool.{Bool, true, false}
use mathlib.Core.Option.{Option, none, some}
use mathlib.Core.List.{List, [], ◌∷◌, Mem, mem-cons, mem-cons_self, not-mem-nil}
use mathlib.Core.Logic.{◌↔◌, inl, inr}
use mathlib.Core.Logic.Or
use native.Mathlib.Omega.{arith}
use asap_protocol.Prelude.Tests.{if◌then◌else◌, Eq, ◌==◌, Bool-cases}
use asap_protocol.Prelude.Lists.{length}

abbrev pub Dict {ℓ} : Type 0 → Type ℓ → Type ℓ
Dict K V = List (K × V)

-- a test on `d.get(k)`, where the key is there
abbrev pub holds_at {ℓ} : {V : Type ℓ} → (V → Bool) → Option V → Bool
holds_at p none = false
holds_at p (some v) = p v

module _ {K : Type 0} ⦃e : Eq K⦄ where
  -- k in ks
  unfoldable pub contains : K → List K → Bool
  contains k [] = false
  contains k (j ∷ js) = if j == k then true else contains k js

  pub contains-Mem : (k : K) (ks : List K) → (contains k ks ≡ true) ↔ Mem k ks
  unfolding contains
  contains-Mem k [] = (λ h. cc, λ m. absurd (not-mem-nil m))
  contains-Mem k (j ∷ js) = (
    λ h. elim (Bool-cases (j == k)) [
      | inl same ↦ let path = (e.beq_iff j k).0 same in rw path mem-cons_self
      | inr apart ↦ mem-cons.1 ∣ inr ((contains-Mem k js).0 (ground (arith, h, apart))) ∣₁
    ],
    λ m.
        let goal : IsProp (contains k (j ∷ js) ≡ true) = hlevel in
        Or.elim goal (mem-cons.0 m) (λ same. ground (arith, (e.beq_iff j k).1 (sym same)))
          (λ later. ground (arith, (contains-Mem k js).1 later)),
  )

  pub beq_refl : (k : K) → (k == k) ≡ true
  beq_refl k = (e.beq_iff k k).1 refl

module _ {ℓ} {K : Type 0} {V : Type ℓ} ⦃e : Eq K⦄ where
  -- d.get(k)
  unfoldable pub lookup : K → Dict K V → Option V
  lookup k [] = none
  lookup k ((j, v) ∷ d) = if j == k then some v else lookup k d

  -- d[k] = v: in place where the key is there, at the end where it is not
  unfoldable pub insert : K → V → Dict K V → Dict K V
  insert k v [] = (k, v) ∷ []
  insert k v ((j, w) ∷ d) = if j == k then (j, v) ∷ d else (j, w) ∷ insert k v d

  -- d.pop(k, None), and del d[k] where the key is there
  unfoldable pub erase : K → Dict K V → Dict K V
  erase k [] = []
  erase k ((j, v) ∷ d) = let rest = erase k d in if j == k then rest else (j, v) ∷ rest

  -- for k in ks: d.pop(k, None)
  unfoldable pub erase_all : List K → Dict K V → Dict K V
  erase_all [] d = d
  erase_all (k ∷ ks) d = erase_all ks (erase k d)

  pub lookup-insert :
      (k j : K) (v : V) (d : Dict K V)
      → lookup j (insert k v d) ≡ (if k == j then some v else lookup j d)
  unfolding lookup insert
  lookup-insert k j v [] = refl
  lookup-insert k j v ((i, w) ∷ d) =
      ground (arith, e.beq_iff k j, e.beq_iff i k, e.beq_iff i j, lookup-insert k j v d)

  pub lookup-erase :
      (k j : K) (d : Dict K V) → lookup j (erase k d) ≡ (if k == j then none else lookup j d)
  unfolding lookup erase
  lookup-erase k j [] = ground arith
  lookup-erase k j ((i, w) ∷ d) =
      ground (arith, e.beq_iff k j, e.beq_iff i k, e.beq_iff i j, lookup-erase k j d)

  pub lookup-erase_all :
      (ks : List K) (j : K) (d : Dict K V)
      → lookup j (erase_all ks d) ≡ (if contains j ks then none else lookup j d)
  unfolding erase_all contains
  lookup-erase_all [] j d = refl
  lookup-erase_all (k ∷ ks) j d =
      ground (arith, lookup-erase_all ks j (erase k d), lookup-erase k j d)

  pub length-erase-le : (k : K) (d : Dict K V) → length (erase k d) ≤ length d
  unfolding erase
  length-erase-le k [] = omega arith
  length-erase-le k ((i, w) ∷ d) = ground (arith, length-erase-le k d)

  pub length-erase-lt :
      (k : K) (v : V) (d : Dict K V) → lookup k d ≡ some v → length (erase k d) + 1 ≤ length d
  unfolding lookup erase
  length-erase-lt k v [] h = ground arith
  length-erase-lt k v ((i, w) ∷ d) h = ground (arith, length-erase-le k d, length-erase-lt k v d)

  pub length-insert :
      (k : K) (v : V) (d : Dict K V)
      → length (insert k v d) ≡ (elim (lookup k d) [ none ↦ length d + 1 | some _ ↦ length d ])
  unfolding lookup insert
  length-insert k v [] = omega arith
  length-insert k v ((i, w) ∷ d) = ground (arith, length-insert k v d)

  -- each key occurs once
  abbrev pub IsUnique : Dict K V → Type ℓ
  IsUnique [] = Unit
  IsUnique ((k, v) ∷ d) = (lookup k d ≡ none) × IsUnique d

  pub erase-IsUnique : (k : K) (d : Dict K V) → IsUnique d → IsUnique (erase k d)
  unfolding erase
  erase-IsUnique k [] h = h
  erase-IsUnique k ((i, w) ∷ d) h = ground (arith, erase-IsUnique k d h.1, lookup-erase k i d)

  pub erase_all-IsUnique : (ks : List K) (d : Dict K V) → IsUnique d → IsUnique (erase_all ks d)
  unfolding erase_all
  erase_all-IsUnique [] d h = h
  erase_all-IsUnique (k ∷ ks) d h = erase_all-IsUnique ks (erase k d) (erase-IsUnique k d h)

  pub insert-IsUnique : (k : K) (v : V) (d : Dict K V) → IsUnique d → IsUnique (insert k v d)
  unfolding lookup insert
  insert-IsUnique k v [] h = (refl, tt)
  insert-IsUnique k v ((i, w) ∷ d) h =
      ground (arith, insert-IsUnique k v d h.1, lookup-insert k i v d, e.beq_iff i k, e.beq_iff k i)

  -- [k for k, v in d.items() if p(v)]
  unfoldable pub keys_where : (V → Bool) → Dict K V → List K
  keys_where p [] = []
  keys_where p ((k, v) ∷ d) = let rest = keys_where p d in if p v then k ∷ rest else rest

  contains-keys_where_absent :
      (p : V → Bool) (k : K) (d : Dict K V)
      → lookup k d ≡ none
      → contains k (keys_where p d) ≡ false
  unfolding lookup keys_where contains
  contains-keys_where_absent p k [] h = refl
  contains-keys_where_absent p k ((j, v) ∷ d) h =
      ground (arith, contains-keys_where_absent p k d, e.beq_iff j k)

  pub contains-keys_where :
      (p : V → Bool) (k : K) (d : Dict K V)
      → IsUnique d
      → contains k (keys_where p d) ≡ holds_at p (lookup k d)
  unfolding lookup keys_where contains
  contains-keys_where p k [] h = refl
  contains-keys_where p k ((j, v) ∷ d) h =
      ground (arith, contains-keys_where p k d h.1, e.beq_iff j k, contains-keys_where_absent p k d)

  -- dead = [k for k, v in d.items() if p(v)]; for k in dead: del d[k]
  unfoldable pub prune : (V → Bool) → Dict K V → Dict K V
  prune p d = erase_all (keys_where p d) d

  pub lookup-prune :
      (p : V → Bool) (k : K) (d : Dict K V)
      → IsUnique d
      → lookup k (prune p d) ≡ (if holds_at p (lookup k d) then none else lookup k d)
  unfolding prune
  lookup-prune p k d h = rw lookup-erase_all (rw (contains-keys_where p k d h) refl)

  pub prune-IsUnique : (p : V → Bool) (d : Dict K V) → IsUnique d → IsUnique (prune p d)
  unfolding prune
  prune-IsUnique p d h = erase_all-IsUnique (keys_where p d) d h

  length-erase_all-le : (ks : List K) (d : Dict K V) → length (erase_all ks d) ≤ length d
  unfolding erase_all
  length-erase_all-le [] d = omega arith
  length-erase_all-le (k ∷ ks) d =
      omega (arith, length-erase_all-le ks (erase k d), length-erase-le k d)

  pub length-prune-le : (p : V → Bool) (d : Dict K V) → length (prune p d) ≤ length d
  unfolding prune
  length-prune-le p d = length-erase_all-le (keys_where p d) d
