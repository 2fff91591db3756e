-- ===== src/Manifests/Maps.antt =====
-- The abstract view of the cache of src/asap/transport/cache.py: a map with expiry that forgets the
-- order of use, and how each operation of the cache follows it.
use asap_protocol.Prelude.{
  ℕ, ◌+◌, String, Option, none, some, if◌then◌else◌, lookup, erase, string_eq, ◌==◌, IsUnique,
  lookup-insert, lookup-erase, lookup-prune, arith, ◌≡◌, ◌⊎◌, refl, ap, ◌∙◌, sym, Bool-cases, inl,
  inr,
}
use asap_protocol.Manifests.Cache.{
  CacheEntry, ManifestCache, is_expired, get, move_to_end, with_room, set, invalidate,
  cleanup_expired, or_else,
}
use asap_protocol.Manifests.Evictions.{Entries, IsValid, lookup-trim}

abbrev pub Spec : Type 0 → Type 0
Spec V = String → Option (CacheEntry V)

module _ {V : Type 0} where
  abbrev pub spec_get : ℕ → String → Spec V → Option V
  spec_get now url m = elim (m url) [
    | none ↦ none
    | some e ↦ if is_expired now e then none else some e.manifest
  ]

  abbrev pub spec_set : ℕ → String → V → ℕ → Spec V → Spec V
  spec_set now url v ttl m =
      λ u. if url == u then some (record { manifest = v; expires_at = now + ttl }) else m u

  abbrev pub spec_invalidate : String → Spec V → Spec V
  spec_invalidate url m = λ u. if url == u then none else m u

  -- Every entry is one of the map.
  abbrev pub IsWithin : Entries V → Spec V → Type 0
  IsWithin d m = (u : String) (e : CacheEntry V) → lookup u d ≡ some e → m u ≡ some e

  pub get-IsWithin :
      (now : ℕ) (url : String) (c : ManifestCache V) (m : Spec V)
      → IsWithin c.entries m
      → IsWithin (get now url c).0.entries m
        × (((get now url c).1 ≡ none) ⊎ ((get now url c).1 ≡ spec_get now url m))
  unfolding get move_to_end
  get-IsWithin now url c m h = go (lookup url c.entries) refl
    where
      go :
          (o : Option (CacheEntry V))
          → lookup url c.entries ≡ o
          → IsWithin (get now url c).0.entries m
            × (((get now url c).1 ≡ none) ⊎ ((get now url c).1 ≡ spec_get now url m))
      go none p = rw (p, get) (h, inl refl)
      go (some e) p = elim (Bool-cases (is_expired now e)) [
        | inl old ↦
            rw (p, get)
              (rw old ((λ u f at. ground (arith, lookup-erase url u c.entries, h u f)), inl refl))
        | inr new ↦
            rw (p, get)
              (rw new (
                (λ u f at. ground (arith, moved u, h u f, h url e p, string_eq.beq_iff url u, at)),
                inr (
                    sym (
                      ap
                        (λ o. elim o [
                          | none ↦ none
                          | some x ↦ if is_expired now x then none else some x.manifest
                        ])
                        (h url e p)
                      ∙ rw new refl)),
              ))
      ]
        where
          moved :
              (u : String)
              → lookup u (move_to_end url e c.entries)
                ≡ (if url == u then some e else lookup u c.entries)
          moved u =
              lookup-insert url u e (erase url c.entries)
              ∙ ground (arith, lookup-erase url u c.entries)

  lookup-with_room :
      (url : String) (c : ManifestCache V) (u : String) (e : CacheEntry V)
      → IsUnique c.entries
      → lookup u (with_room url c) ≡ some e
      → lookup u c.entries ≡ some e
  unfolding with_room
  lookup-with_room url c u e valid at =
      ground (arith, lookup-erase url u c.entries, lookup-trim c.max_size u e c.entries valid)

  pub set-IsWithin :
      (now : ℕ) (url : String) (v : V) (ttl : Option ℕ) (c : ManifestCache V) (m : Spec V)
      → IsValid c
      → IsWithin c.entries m
      → IsWithin (set now url v ttl c).entries (spec_set now url v (or_else ttl c.default_ttl) m)
  unfolding set with_room
  set-IsWithin now url v ttl c m valid h = λ u e at.
      let row : CacheEntry V = record {
        manifest = v;
        expires_at = now + or_else ttl c.default_ttl;
      } in
      ground (
        arith,
        sym (lookup-insert url u row (with_room url c)) ∙ at,
        h u e,
        lookup-with_room url c u e valid.unique,
      )

  pub invalidate-IsWithin :
      (url : String) (c : ManifestCache V) (m : Spec V)
      → IsWithin c.entries m
      → IsWithin (invalidate url c).entries (spec_invalidate url m)
  unfolding invalidate
  invalidate-IsWithin url c m h = λ u e at. ground (arith, lookup-erase url u c.entries, h u e)

  pub cleanup-IsWithin :
      (now : ℕ) (c : ManifestCache V) (m : Spec V)
      → IsValid c
      → IsWithin c.entries m
      → IsWithin (cleanup_expired now c).0.entries m
  unfolding cleanup_expired
  cleanup-IsWithin now c m valid h =
      λ u e at. ground (arith, lookup-prune (is_expired now) u c.entries valid.unique, h u e)
