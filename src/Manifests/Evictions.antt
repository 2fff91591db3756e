-- ===== src/Manifests/Evictions.antt =====
-- What each operation of the cache of src/asap/transport/cache.py leaves of the entries.
use asap_protocol.Prelude.{
  ℕ, ◌+◌, ◌≤◌, String, true, false, Option, none, some, ltb, is_none, [], ◌∷◌, length, Dict, lookup,
  insert, erase, string_eq, IsUnique, erase-IsUnique, insert-IsUnique, prune-IsUnique,
  length-insert, length-erase-le, length-erase-lt, length-prune-le, arith, ◌≡◌, refl, Bool-cases,
  inl, inr,
}
use asap_protocol.Manifests.Cache.{
  CacheEntry, ManifestCache, is_expired, get, move_to_end, trim, with_room, set, invalidate,
  clear_all, cleanup_expired, or_else,
}

abbrev pub Entries : Type 0 → Type 0
Entries V = Dict String (CacheEntry V)

module _ {V : Type 0} where
  length-insert-le :
      (u : String) (e : CacheEntry V) (d : Entries V) → length (insert u e d) ≤ length d + 1
  length-insert-le u e d = ground (arith, length-insert u e d)

  lookup-trim-absent :
      (m : ℕ) (u : String) (d : Entries V) → lookup u d ≡ none → lookup u (trim m d) ≡ none
  unfolding trim lookup
  lookup-trim-absent m u [] h = refl
  lookup-trim-absent m u ((k, e) ∷ d) h = ground (arith, lookup-trim-absent m u d)

  -- what a trim leaves was there
  pub lookup-trim :
      (m : ℕ) (u : String) (e : CacheEntry V) (d : Entries V)
      → IsUnique d
      → lookup u (trim m d) ≡ some e
      → lookup u d ≡ some e
  unfolding trim lookup
  lookup-trim m u e [] h k = k
  lookup-trim m u e ((j, f) ∷ d) h k =
      ground (arith, lookup-trim m u e d h.1, lookup-trim-absent m u d, string_eq.beq_iff j u)

  pub trim-IsUnique : (m : ℕ) (d : Entries V) → IsUnique d → IsUnique (trim m d)
  unfolding trim
  trim-IsUnique m [] h = h
  trim-IsUnique m ((j, f) ∷ d) h = ground (arith, trim-IsUnique m d h.1)

  pub length-trim-lt : (m : ℕ) (d : Entries V) → 1 ≤ m → length (trim m d) + 1 ≤ m
  unfolding trim
  length-trim-lt m [] h = omega (arith, h)
  length-trim-lt m ((j, f) ∷ d) h = ground (arith, length-trim-lt m d)

  pub trim_fits : (m : ℕ) (d : Entries V) → length d + 1 ≤ m → trim m d ≡ d
  unfolding trim
  trim_fits m [] h = refl
  trim_fits m ((j, f) ∷ d) h = ground arith

  -- Each url once, and no more entries than the cache may hold.
  pub record IsValid (c : ManifestCache V) : Type 0 where
    pub unique : IsUnique c.entries
    pub bounded : ltb 0 c.max_size ≡ true → length c.entries ≤ c.max_size

  pub get-IsValid :
      (now : ℕ) (url : String) (c : ManifestCache V) → IsValid c → IsValid (get now url c).0
  unfolding get move_to_end
  get-IsValid now url c h = go (lookup url c.entries) refl
    where
      go : (o : Option (CacheEntry V)) → lookup url c.entries ≡ o → IsValid (get now url c).0
      go none p = rw (p, get) h
      go (some e) p = elim (Bool-cases (is_expired now e)) [
        | inl old ↦
            rw (p, get)
              (rw old (record {
                unique = erase-IsUnique url c.entries h.unique;
                bounded = λ m. omega (arith, h.bounded m, length-erase-le url c.entries);
              }))
        | inr new ↦
            rw (p, get)
              (rw new (record {
                unique =
                    insert-IsUnique url e (erase url c.entries)
                      (erase-IsUnique url c.entries h.unique);
                bounded = λ m. omega (
                  arith,
                  h.bounded m,
                  length-insert-le url e (erase url c.entries),
                  length-erase-lt url e c.entries p,
                );
              }))
      ]

  pub set-IsValid :
      (now : ℕ) (url : String) (v : V) (ttl : Option ℕ) (c : ManifestCache V)
      → IsValid c
      → IsValid (set now url v ttl c)
  unfolding set with_room
  set-IsValid now url v ttl c h = elim (Bool-cases (is_none (lookup url c.entries))) [
    | inr there ↦
        let (e, p) = found (lookup url c.entries) there in
        rw there (record {
          unique =
              insert-IsUnique url row (erase url c.entries) (erase-IsUnique url c.entries h.unique);
          bounded = λ m. omega (
            arith,
            h.bounded m,
            length-insert-le url row (erase url c.entries),
            length-erase-lt url e c.entries p,
          );
        })
    | inl absent ↦ elim (Bool-cases (ltb 0 c.max_size)) [
      | inl some_room ↦ rw absent (
          rw some_room (record {
            unique =
                insert-IsUnique url row (trim c.max_size c.entries)
                  (trim-IsUnique c.max_size c.entries h.unique);
            bounded = λ m. omega (
              arith,
              length-insert-le url row (trim c.max_size c.entries),
              length-trim-lt c.max_size c.entries (ground (arith, some_room)),
            );
          }))
      | inr unlimited ↦ rw absent (
          rw unlimited
            (record { unique = insert-IsUnique url row c.entries h.unique; bounded = λ m. cc }))
    ]
  ]
    where
      row : CacheEntry V
      row = record { manifest = v; expires_at = now + or_else ttl c.default_ttl }

      found : (o : Option (CacheEntry V)) → is_none o ≡ false → (e : CacheEntry V) × (o ≡ some e)
      found none e = cc
      found (some f) e = (f, refl)

  pub invalidate-IsValid :
      (url : String) (c : ManifestCache V) → IsValid c → IsValid (invalidate url c)
  unfolding invalidate
  invalidate-IsValid url c h = record {
    unique = erase-IsUnique url c.entries h.unique;
    bounded = λ m. omega (arith, h.bounded m, length-erase-le url c.entries);
  }

  pub clear_all-IsValid : (c : ManifestCache V) → IsValid (clear_all c)
  unfolding clear_all
  clear_all-IsValid c = record { unique = tt; bounded = λ m. ground arith }

  pub cleanup-IsValid :
      (now : ℕ) (c : ManifestCache V) → IsValid c → IsValid (cleanup_expired now c).0
  unfolding cleanup_expired
  cleanup-IsValid now c h = record {
    unique = prune-IsUnique (is_expired now) c.entries h.unique;
    bounded = λ m. omega (arith, h.bounded m, length-prune-le (is_expired now) c.entries);
  }
