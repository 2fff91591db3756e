-- ===== src/Audit/Chain.antt =====
-- What the hash chain of src/asap/economics/audit.py keeps, and what its last hash commits to.
use Prim.Native.String.{◌++◌ as ◌<>◌}
use asap_protocol.Prelude.{
  ℕ, Option, none, some, not, String, true, false, ◌&&◌, if◌then◌else◌, List, [], ◌∷◌, ◌++◌, length,
  ◌==◌, string_eq, arith, ◌≡◌, ◌≢◌, refl, sym, ◌∙◌, ◌⊎◌, inl, inr, Bool-cases, beq_refl,
}
use asap_protocol.Audit.Bars.{has_no_bar, bar_splits}
use asap_protocol.Audit.Log.{
  AuditEntry, Library, last_hash, content, canonical, compute_entry_hash, append, verify_from,
  verify_chain,
}

module _ {D : Type 0} (lib : Library D) where
  verify_from-append :
      (prev : String) (xs ys : List (AuditEntry D))
      → verify_from lib prev (xs ++ ys)
        ≡ (verify_from lib prev xs && verify_from lib (last_hash prev xs) ys)
  unfolding verify_from last_hash
  verify_from-append prev [] ys = refl
  verify_from-append prev (x ∷ xs) ys = ground (arith, verify_from-append x.hash xs ys)

  -- Appending an entry keeps the chain as sound as it was: the longer log verifies exactly where the
  -- log did, and every first part of a log that verifies does too.
  pub verify_chain-append :
      (entries more : List (AuditEntry D)) (entry : AuditEntry D)
      → (verify_chain lib (append lib entry entries).0 ≡ verify_chain lib entries)
        × (verify_chain lib (entries ++ more) ≡ true → verify_chain lib entries ≡ true)
  unfolding verify_chain append compute_entry_hash canonical content
  verify_chain-append entries more entry = (
    verify_from-append "" entries (sealed ∷ [])
        ∙ ground (
          arith,
          beq_refl (compute_entry_hash lib (last_hash "" entries) entry),
          beq_refl (last_hash "" entries),
        ),
    λ h. ground (arith, verify_from-append "" entries more),
  )
    where
      sealed : AuditEntry D
      sealed = record entry {
        prev_hash = last_hash "" entries;
        hash = compute_entry_hash lib (last_hash "" entries) entry;
      }

  -- two different texts with one digest
  abbrev pub IsCollision : Option (String × String) → Type 0
  IsCollision none = ⊥
  IsCollision (some (a, b)) = (a ≢ b) × (lib.sha256 a ≡ lib.sha256 b)

  -- The first place where the texts that two logs hash differ and their digests do not.
  unfoldable pub find_collision :
      String → String → List (AuditEntry D) → List (AuditEntry D) → Option (String × String)
  find_collision p q (x ∷ xs) (y ∷ ys) =
      let rest = find_collision x.hash y.hash xs ys in
      let a = canonical lib p x in
      let b = canonical lib q y in
      if not (a == b) && lib.sha256 a == lib.sha256 b then some (a, b) else rest
  find_collision _ _ _ _ = none

  -- entry by entry, the timestamps, as they are printed, the operations and the details are the same
  abbrev pub AreAlike : List (AuditEntry D) → List (AuditEntry D) → Type 0
  AreAlike [] [] = Unit
  AreAlike (x ∷ xs) (y ∷ ys) =
      (lib.isoformat x.timestamp ≡ lib.isoformat y.timestamp)
      × (x.operation ≡ y.operation)
      × (lib.dumps x.details ≡ lib.dumps y.details)
      × AreAlike xs ys
  AreAlike _ _ = ⊥

  -- no operation has a bar
  abbrev pub HasNoBars : List (AuditEntry D) → Type 0
  HasNoBars [] = Unit
  HasNoBars (x ∷ xs) = (has_no_bar x.operation ≡ true) × HasNoBars xs

  verified_step :
      (p : String) (x : AuditEntry D) (xs : List (AuditEntry D))
      → verify_from lib p (x ∷ xs) ≡ true
      → (x.hash ≡ compute_entry_hash lib p x) × (verify_from lib x.hash xs ≡ true)
  unfolding verify_from
  verified_step p x xs h = ground (arith, string_eq.beq_iff x.hash (compute_entry_hash lib p x))

  differ : (a b : String) → (a == b) ≡ false → a ≢ b
  differ a b apart same = let both = (string_eq.beq_iff a b).1 same in cc

  here-IsCollision :
      (a b : String) (rest : Option (String × String))
      → (a == b) ≡ false
      → lib.sha256 a ≡ lib.sha256 b
      → IsCollision (if not (a == b) && lib.sha256 a == lib.sha256 b then some (a, b) else rest)
  here-IsCollision a b rest apart same =
      rw (apart, (string_eq.beq_iff (lib.sha256 a) (lib.sha256 b)).1 same) (differ a b apart, same)

  later-IsCollision :
      (a b : String) (rest : Option (String × String))
      → IsCollision rest
      → IsCollision (if not (a == b) && lib.sha256 a == lib.sha256 b then some (a, b) else rest)
  later-IsCollision a b rest c = elim (Bool-cases (a == b)) [
    | inl same ↦ rw same c
    | inr apart ↦ elim (Bool-cases (lib.sha256 a == lib.sha256 b)) [
      | inl one ↦
          here-IsCollision a b rest apart ((string_eq.beq_iff (lib.sha256 a) (lib.sha256 b)).0 one)
      | inr two ↦ rw (apart, two) c
    ]
  ]

  module _ (hex : (t : String) → has_no_bar (lib.sha256 t) ≡ true)
      (dated : (t : ℕ) → has_no_bar (lib.isoformat t) ≡ true) where
    canonical_splits :
        (p q : String) (x y : AuditEntry D)
        → has_no_bar p ≡ true
        → has_no_bar q ≡ true
        → has_no_bar x.operation ≡ true
        → has_no_bar y.operation ≡ true
        → canonical lib p x ≡ canonical lib q y
        → (p ≡ q)
          × (lib.isoformat x.timestamp ≡ lib.isoformat y.timestamp)
          × (x.operation ≡ y.operation)
          × (lib.dumps x.details ≡ lib.dumps y.details)
    unfolding canonical content
    canonical_splits p q x y h k hx hy e =
        let (prev, rest) = bar_splits p q (content lib x) (content lib y) h k e in
        let (time, body) =
          bar_splits (lib.isoformat x.timestamp) (lib.isoformat y.timestamp)
            (x.operation <> ("|" <> lib.dumps x.details))
            (y.operation <> ("|" <> lib.dumps y.details)) (dated x.timestamp) (dated y.timestamp)
            rest in
        let (operation, details) =
          bar_splits x.operation y.operation (lib.dumps x.details) (lib.dumps y.details) hx hy
            body in
        (prev, time, operation, details)

    sealed-has_no_bar :
        (r : String) (z : AuditEntry D)
        → z.hash ≡ compute_entry_hash lib r z
        → has_no_bar z.hash ≡ true
    unfolding compute_entry_hash
    sealed-has_no_bar r z eq = rw eq (hex (canonical lib r z))

    verify_from-commits :
        (p q : String) (xs ys : List (AuditEntry D))
        → has_no_bar p ≡ true
        → has_no_bar q ≡ true
        → HasNoBars xs
        → HasNoBars ys
        → length xs ≡ length ys
        → verify_from lib p xs ≡ true
        → verify_from lib q ys ≡ true
        → last_hash p xs ≡ last_hash q ys
        → IsCollision (find_collision p q xs ys) ⊎ ((p ≡ q) × AreAlike xs ys)
    unfolding verify_from last_hash compute_entry_hash find_collision
    verify_from-commits p q [] [] h k bx by n v w e = inr (e, tt)
    verify_from-commits p q [] (y ∷ ys) h k bx by n v w e = absurd (omega (arith, n))
    verify_from-commits p q (x ∷ xs) [] h k bx by n v w e = absurd (omega (arith, n))
    verify_from-commits p q (x ∷ xs) (y ∷ ys) h k (ox, bx) (oy, by) n v w e =
        let (hx, v') = verified_step p x xs v in
        let (hy, w') = verified_step q y ys w in
        let a = canonical lib p x in
        let b = canonical lib q y in
        let later = find_collision x.hash y.hash xs ys in
        elim (verify_from-commits x.hash y.hash xs ys (sealed-has_no_bar p x hx)
          (sealed-has_no_bar q y hy) bx by (omega (arith, n)) v' w' e) [
            | inl c ↦ inl (later-IsCollision a b later c)
            | inr (same, rest) ↦ elim (Bool-cases (a == b)) [
              | inl equal ↦
                  let (prev, time, operation, details) =
                    canonical_splits p q x y h k ox oy ((string_eq.beq_iff a b).0 equal) in
                  inr (prev, (time, operation, details, rest))
              | inr apart ↦ inl (here-IsCollision a b later apart (sym hx ∙ same ∙ hy))
            ]
          ]

    -- The last hash commits to the log: where digests, printed timestamps and the operations are free of
    -- `|`, two logs of one length that both verify and end in one hash have, entry by entry, the same
    -- printed timestamp, the same operation and the same printed details, or else the first place where
    -- the texts that they hash differ and the digests do not is a collision of the digest.
    pub verify_chain-commits :
        (xs ys : List (AuditEntry D))
        → HasNoBars xs
        → HasNoBars ys
        → length xs ≡ length ys
        → verify_chain lib xs ≡ true
        → verify_chain lib ys ≡ true
        → last_hash "" xs ≡ last_hash "" ys
        → IsCollision (find_collision "" "" xs ys) ⊎ AreAlike xs ys
    unfolding verify_chain has_no_bar
    verify_chain-commits xs ys bx by n v w e =
        elim (verify_from-commits "" "" xs ys refl refl bx by n v w e) [
          | inl c ↦ inl c
          | inr (_, same) ↦ inr same
        ]
