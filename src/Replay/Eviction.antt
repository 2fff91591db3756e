-- ===== src/Replay/Eviction.antt =====
-- Eviction of the entries that expire first, for any type of keys.
use native.Mathlib.Nat.{le_refl}
use asap_protocol.Prelude.{
  ℕ, zero, suc, ◌≤◌, true, false, none, some, ltb, if◌then◌else◌, arith, ◌≡◌, refl, Dict, lookup,
  erase, length, IsUnique, Eq, lookup-erase, erase-IsUnique, [], ◌∷◌, ◌⊎◌, inl, inr, Bool-cases,
  length-erase-lt,
}

module _ {K : Type 0} ⦃e : Eq K⦄ where
  -- `min(d, key=lambda k: d[k])`: the first key of the least expiry, and that expiry
  unfoldable pub oldest_from : K → ℕ → Dict K ℕ → K × ℕ
  oldest_from k x [] = (k, x)
  oldest_from k x ((j, y) ∷ d) = oldest_from (if ltb y x then j else k) (if ltb y x then y else x) d

  -- `while len(d) > max_size`, with fuel for the rounds
  unfoldable pub evict : ℕ → ℕ → Dict K ℕ → Dict K ℕ
  evict zero max_size d = d
  evict (suc fuel) max_size [] = []
  evict (suc fuel) max_size ((k, x) ∷ d) =
      let rest = evict fuel max_size (erase (oldest_from k x d).0 ((k, x) ∷ d)) in
      if ltb max_size (length ((k, x) ∷ d)) then rest else (k, x) ∷ d

  unfoldable pub evict_to_max_size : ℕ → Dict K ℕ → Dict K ℕ
  unfolding evict
  evict_to_max_size max_size d = evict (length d) max_size d

  oldest_from_lt :
      (k j : K) (x y : ℕ) (d : Dict K ℕ)
      → ltb y x ≡ true
      → oldest_from k x ((j, y) ∷ d) ≡ oldest_from j y d
  unfolding oldest_from
  oldest_from_lt k j x y d h = rw (h, oldest_from)

  oldest_from_ge :
      (k j : K) (x y : ℕ) (d : Dict K ℕ)
      → ltb y x ≡ false
      → oldest_from k x ((j, y) ∷ d) ≡ oldest_from k x d
  unfolding oldest_from
  oldest_from_ge k j x y d h = rw (h, oldest_from)

  oldest_from-there :
      (k : K) (x : ℕ) (d : Dict K ℕ)
      → IsUnique d
      → let (o, m) = oldest_from k x d in ((o ≡ k) × (m ≡ x)) ⊎ (lookup o d ≡ some m)
  unfolding lookup
  oldest_from-there k x [] u = inl (unfold oldest_from in (refl, refl))
  oldest_from-there k x ((j, y) ∷ d) u =
      let below = oldest_from-there j y d u.1 in
      let above = oldest_from-there k x d u.1 in
      elim (Bool-cases (ltb y x)) [
        | inl less ↦
            ground (arith, below, oldest_from_lt k j x y d less, e.beq_iff j (oldest_from j y d).0)
        | inr more ↦
            ground (arith, above, oldest_from_ge k j x y d more, e.beq_iff j (oldest_from k x d).0)
      ]

  oldest_from-least :
      (k : K) (x : ℕ) (d : Dict K ℕ)
      → let m = (oldest_from k x d).1 in (m ≤ x) × ((j : K) (y : ℕ) → lookup j d ≡ some y → m ≤ y)
  unfolding lookup
  oldest_from-least k x [] = (unfold oldest_from in omega arith, λ j y h. ground arith)
  oldest_from-least k x ((j, y) ∷ d) = elim (Bool-cases (ltb y x)) [
    | inl less ↦
        let (le, all) = oldest_from-least j y d in
        rw (oldest_from_lt k j x y d less) (ground arith, λ i z h. ground (arith, all i z))
    | inr more ↦
        let (le, all) = oldest_from-least k x d in
        rw (oldest_from_ge k j x y d more) (ground arith, λ i z h. ground (arith, all i z))
  ]

  -- The entry that is removed from a dict that is not empty is one of its least.
  abbrev oldest : K → ℕ → Dict K ℕ → K
  oldest k x d = (oldest_from k x d).0

  oldest_found :
      (k : K) (x : ℕ) (d : Dict K ℕ)
      → IsUnique ((k, x) ∷ d)
      → lookup (oldest k x d) ((k, x) ∷ d) ≡ some (oldest_from k x d).1
  unfolding lookup
  oldest_found k x d u = ground (arith, oldest_from-there k x d u.1, e.beq_iff k (oldest k x d))

  oldest_least :
      (k : K) (x : ℕ) (d : Dict K ℕ) (j : K) (y : ℕ)
      → lookup j ((k, x) ∷ d) ≡ some y
      → (oldest_from k x d).1 ≤ y
  unfolding lookup
  oldest_least k x d j y h = let (le, all) = oldest_from-least k x d in ground (arith, all j y)

  evict-length :
      (fuel m : ℕ) (d : Dict K ℕ) → IsUnique d → length d ≤ fuel → length (evict fuel m d) ≤ m
  unfolding evict
  evict-length zero m [] u h = omega arith
  evict-length zero m (p ∷ d) u h = absurd (omega arith)
  evict-length (suc fuel) m [] u h = omega arith
  evict-length (suc fuel) m ((k, x) ∷ d) u h =
      let o = oldest k x d in
      let shorter = length-erase-lt o (oldest_from k x d).1 ((k, x) ∷ d) (oldest_found k x d u) in
      ground (
        arith,
        shorter,
        erase-IsUnique o ((k, x) ∷ d) u,
        evict-length fuel m (erase o ((k, x) ∷ d)),
      )

  pub evict-lookup :
      (fuel m : ℕ) (d : Dict K ℕ) (j : K) (y : ℕ)
      → lookup j (evict fuel m d) ≡ some y
      → lookup j d ≡ some y
  unfolding evict
  evict-lookup zero m d j y h = h
  evict-lookup (suc fuel) m [] j y h = h
  evict-lookup (suc fuel) m ((k, z) ∷ d) j y h =
      let o = oldest k z d in
      ground (arith, evict-lookup fuel m (erase o ((k, z) ∷ d)) j y, lookup-erase o j ((k, z) ∷ d))

  -- What eviction removes had an expiry no later than anything it keeps.
  evict-least :
      (fuel m : ℕ) (d : Dict K ℕ) (i j : K) (x y : ℕ)
      → IsUnique d
      → lookup i d ≡ some x
      → lookup i (evict fuel m d) ≡ none
      → lookup j (evict fuel m d) ≡ some y
      → x ≤ y
  unfolding evict
  evict-least zero m d i j x y u at gone kept = absurd (ground arith)
  evict-least (suc fuel) m [] i j x y u at gone kept = absurd (ground arith)
  evict-least (suc fuel) m ((k, z) ∷ d) i j x y u at gone kept =
      let o = oldest k z d in
      let rest = erase o ((k, z) ∷ d) in
      ground (
        arith,
        evict-least fuel m rest i j x y (erase-IsUnique o ((k, z) ∷ d) u),
        evict-lookup fuel m rest j y,
        lookup-erase o j ((k, z) ∷ d),
        lookup-erase o i ((k, z) ∷ d),
        oldest_least k z d j y,
        oldest_found k z d u,
        e.beq_iff o i,
      )

  pub evict_to_max_size-length :
      (m : ℕ) (d : Dict K ℕ) → IsUnique d → length (evict_to_max_size m d) ≤ m
  unfolding evict_to_max_size
  evict_to_max_size-length m d u = evict-length (length d) m d u (le_refl _)

  evict_fits : (fuel m : ℕ) (d : Dict K ℕ) → length d ≤ m → evict fuel m d ≡ d
  unfolding evict
  evict_fits zero m d h = refl
  evict_fits (suc fuel) m [] h = refl
  evict_fits (suc fuel) m ((k, x) ∷ d) h = ground arith

  pub evict_to_max_size_fits : (m : ℕ) (d : Dict K ℕ) → length d ≤ m → evict_to_max_size m d ≡ d
  unfolding evict_to_max_size
  evict_to_max_size_fits m d h = evict_fits (length d) m d h

  evict-IsUnique : (fuel m : ℕ) (d : Dict K ℕ) → IsUnique d → IsUnique (evict fuel m d)
  unfolding evict
  evict-IsUnique zero m d u = u
  evict-IsUnique (suc fuel) m [] u = u
  evict-IsUnique (suc fuel) m ((k, z) ∷ d) u =
      let o = oldest k z d in
      ground (arith, evict-IsUnique fuel m (erase o ((k, z) ∷ d)) (erase-IsUnique o ((k, z) ∷ d) u))

  pub evict_to_max_size-IsUnique :
      (m : ℕ) (d : Dict K ℕ) → IsUnique d → IsUnique (evict_to_max_size m d)
  unfolding evict_to_max_size
  evict_to_max_size-IsUnique m d u = evict-IsUnique (length d) m d u

  -- Eviction from a dict down to `m` entries keeps the entries that expire last: what it removes
  -- expires no later than anything that it keeps, and what it keeps has the expiry that it had.
  pub evict_to_max_size-least :
      (m : ℕ) (d : Dict K ℕ) (i j : K) (x y : ℕ)
      → IsUnique d
      → lookup i d ≡ some x
      → lookup i (evict_to_max_size m d) ≡ none
      → lookup j (evict_to_max_size m d) ≡ some y
      → (x ≤ y) × (lookup j d ≡ some y)
  unfolding evict_to_max_size
  evict_to_max_size-least m d i j x y u at gone kept =
      (evict-least (length d) m d i j x y u at gone kept, evict-lookup (length d) m d j y kept)
