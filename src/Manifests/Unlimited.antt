-- ===== src/Manifests/Unlimited.antt =====
-- The cache of src/asap/transport/cache.py with `max_size` zero, which stands for no limit.
use asap_protocol.Prelude.{
  ℕ, ◌+◌, ◌≤◌, String, true, false, Option, none, some, if◌then◌else◌, ltb, List, [], ◌∷◌, lookup,
  erase, string_eq, ◌==◌, lookup-insert, lookup-erase, lookup-prune, holds_at, arith, ◌≡◌, ◌⊎◌,
  refl, ap, ◌∙◌, sym, subst, Bool-cases, inl, inr,
}
use asap_protocol.Manifests.Cache.{
  CacheEntry, ManifestCache, is_expired, get, move_to_end, with_room, set, invalidate, clear_all,
  cleanup_expired, or_else,
}
use asap_protocol.Manifests.Evictions.{
  Entries, IsValid, get-IsValid, set-IsValid, invalidate-IsValid, clear_all-IsValid,
  cleanup-IsValid,
}
use asap_protocol.Manifests.Maps.{Spec, spec_get, spec_set, spec_invalidate}
use asap_protocol.Manifests.Runs.{
  Op, getting, setting, invalidating, clearing, cleaning, run, spec_run, get-default_ttl,
}

cons_both : {A : Type 0} {a b : A} {xs ys : List A} → a ≡ b → xs ≡ ys → (a ∷ xs) ≡ (b ∷ ys)
cons_both p q = cc

module _ {V : Type 0} where
  -- The clock does not run backwards.
  abbrev pub IsOrdered : ℕ → List (Op V) → Type 0
  IsOrdered t [] = Unit {0}
  IsOrdered t (getting now url ∷ ops) = (t ≤ now) × IsOrdered now ops
  IsOrdered t (setting now url v ttl ∷ ops) = (t ≤ now) × IsOrdered now ops
  IsOrdered t (invalidating url ∷ ops) = IsOrdered t ops
  IsOrdered t (clearing ∷ ops) = IsOrdered t ops
  IsOrdered t (cleaning now ∷ ops) = (t ≤ now) × IsOrdered now ops

  -- An entry is the map's, or the map's has expired and the entry is gone.
  abbrev Agree : ℕ → Option (CacheEntry V) → Option (CacheEntry V) → Type 0
  Agree t a b = (a ≡ b) ⊎ ((a ≡ none) × (holds_at (is_expired t) b ≡ true))

  abbrev IsExact : ℕ → Entries V → Spec V → Type 0
  IsExact t d m = (u : String) → Agree t (lookup u d) (m u)

  gone_later :
      (t now : ℕ) (o : Option (CacheEntry V))
      → t ≤ now
      → holds_at (is_expired t) o ≡ true
      → holds_at (is_expired now) o ≡ true
  unfolding is_expired
  gone_later t now none le h = h
  gone_later t now (some e) le h = ground arith

  later : (t now : ℕ) (d : Entries V) (m : Spec V) → t ≤ now → IsExact t d m → IsExact now d m
  later t now d m le h u = elim (h u) [
    | inl same ↦ inl same
    | inr (absent, gone) ↦ inr (absent, gone_later t now (m u) le gone)
  ]

  -- a change at one url
  at_url :
      (now : ℕ) (url u : String) (o : Option (CacheEntry V)) (d : Entries V) (m : Spec V)
      → Agree now o (m url)
      → IsExact now d m
      → Agree now (if url == u then o else lookup u d) (m u)
  at_url now url u o d m k h = elim (Bool-cases (url == u)) [
    | inl same ↦ rw same (subst (λ x. Agree now o (m x)) ((string_eq.beq_iff url u).0 same) k)
    | inr other ↦ rw other (h u)
  ]

  expired_agrees :
      (now : ℕ) (e : CacheEntry V) (o : Option (CacheEntry V))
      → is_expired now e ≡ true
      → Agree now (some e) o
      → Agree now none o
  expired_agrees now e none old h = inl refl
  expired_agrees now e (some f) old (inl same) =
      inr (refl, ap (holds_at (is_expired now)) (sym same) ∙ old)
  expired_agrees now e (some f) old (inr (wrong, gone)) = cc

  answer_agrees :
      (now : ℕ) (a b : Option (CacheEntry V))
      → Agree now a b
      → let f : Option (CacheEntry V) → Option V = (λ o. elim o [
        | none ↦ none
        | some e ↦ if is_expired now e then none else some e.manifest
      ]) in
        f a ≡ f b
  answer_agrees now a b (inl same) =
      ap (λ o. elim o [ none ↦ none | some e ↦ if is_expired now e then none else some e.manifest ])
        same
  answer_agrees now none none (inr h) = refl
  answer_agrees now none (some e) (inr (absent, gone)) = rw gone refl
  answer_agrees now (some e) b (inr (absent, gone)) = cc

  get-IsExact :
      (now : ℕ) (url : String) (c : ManifestCache V) (m : Spec V)
      → IsExact now c.entries m
      → IsExact now (get now url c).0.entries m × ((get now url c).1 ≡ spec_get now url m)
  unfolding get move_to_end
  get-IsExact now url c m h = go (lookup url c.entries) refl
    where
      go :
          (o : Option (CacheEntry V))
          → lookup url c.entries ≡ o
          → IsExact now (get now url c).0.entries m × ((get now url c).1 ≡ spec_get now url m)
      go none p =
          rw (p, get)
            (h, answer_agrees now none (m url) (subst (λ o. Agree now o (m url)) p (h url)))
      go (some e) p = elim (Bool-cases (is_expired now e)) [
        | inl old ↦
            rw (p, get)
              (rw old (
                (λ u.
                    subst (λ o. Agree now o (m u)) (sym (lookup-erase url u c.entries))
                      (at_url now url u none c.entries m (expired_agrees now e (m url) old agrees)
                        h)),
                answer_agrees now none (m url) (expired_agrees now e (m url) old agrees),
              ))
        | inr new ↦
            rw (p, get)
              (rw new (
                (λ u.
                    subst (λ o. Agree now o (m u)) (sym (moved u))
                      (at_url now url u (some e) c.entries m agrees h)),
                rw⁻¹ (answer_agrees now (some e) (m url) agrees) (rw new refl),
              ))
      ]
        where
          agrees : Agree now (some e) (m url)
          agrees = subst (λ o. Agree now o (m url)) p (h url)

          moved :
              (u : String)
              → lookup u (move_to_end url e c.entries)
                ≡ (if url == u then some e else lookup u c.entries)
          moved u =
              lookup-insert url u e (erase url c.entries)
              ∙ ground (arith, lookup-erase url u c.entries)

  lookup-with_room :
      (url : String) (c : ManifestCache V) (u : String)
      → ltb 0 c.max_size ≡ false
      → (url == u) ≡ false
      → lookup u (with_room url c) ≡ lookup u c.entries
  unfolding with_room
  lookup-with_room url c u unlimited other = ground (arith, lookup-erase url u c.entries)

  set-IsExact :
      (now : ℕ) (url : String) (v : V) (own : Option ℕ) (c : ManifestCache V) (m : Spec V)
      → ltb 0 c.max_size ≡ false
      → IsExact now c.entries m
      → IsExact now (set now url v own c).entries (spec_set now url v (or_else own c.default_ttl) m)
  unfolding set
  set-IsExact now url v own c m unlimited h u =
      let row : CacheEntry V = record {
        manifest = v;
        expires_at = now + or_else own c.default_ttl;
      } in
      rw (lookup-insert url u row (with_room url c)) (elim (Bool-cases (url == u)) [
        | inl same ↦ rw same (inl refl)
        | inr other ↦
            rw other (
              subst (λ o. Agree now o (m u)) (sym (lookup-with_room url c u unlimited other)) (h u))
      ])

  invalidate-IsExact :
      (now : ℕ) (url : String) (c : ManifestCache V) (m : Spec V)
      → IsExact now c.entries m
      → IsExact now (invalidate url c).entries (spec_invalidate url m)
  unfolding invalidate
  invalidate-IsExact now url c m h u =
      rw (lookup-erase url u c.entries) (elim (Bool-cases (url == u)) [
        | inl same ↦ rw same (inl refl)
        | inr other ↦ rw other (h u)
      ])

  pruned :
      (now : ℕ) (a b : Option (CacheEntry V))
      → Agree now a b
      → Agree now (if holds_at (is_expired now) a then none else a) b
  pruned now none b h = h
  pruned now (some e) b h = elim (Bool-cases (is_expired now e)) [
    | inl old ↦ rw old (expired_agrees now e b old h)
    | inr new ↦ rw new h
  ]

  cleanup-IsExact :
      (now : ℕ) (c : ManifestCache V) (m : Spec V)
      → IsValid c
      → IsExact now c.entries m
      → IsExact now (cleanup_expired now c).0.entries m
  unfolding cleanup_expired
  cleanup-IsExact now c m valid h u =
      rw (lookup-prune (is_expired now) u c.entries valid.unique)
        (pruned now (lookup u c.entries) (m u) (h u))

  get-max_size :
      (now : ℕ) (url : String) (c : ManifestCache V) → (get now url c).0.max_size ≡ c.max_size
  unfolding get
  get-max_size now url c = ground arith

  run-IsExact :
      (ops : List (Op V)) (t : ℕ) (c : ManifestCache V) (m : Spec V) (ttl : ℕ)
      → c.default_ttl ≡ ttl
      → ltb 0 c.max_size ≡ false
      → IsValid c
      → IsOrdered t ops
      → IsExact t c.entries m
      → run ops c ≡ spec_run ttl ops m
  unfolding run spec_run set invalidate clear_all cleanup_expired lookup
  run-IsExact [] t c m ttl d l v o h = refl
  run-IsExact (getting now url ∷ ops) t c m ttl d l v (le, o) h =
      let (kept, answer) = get-IsExact now url c m (later t now c.entries m le h) in
      cons_both answer (
        run-IsExact ops now (get now url c).0 m ttl (get-default_ttl now url c ∙ d)
          (ap (ltb 0) (get-max_size now url c) ∙ l) (get-IsValid now url c v) o kept)
  run-IsExact (setting now url x own ∷ ops) t c m ttl d l v (le, o) h =
      run-IsExact ops now (set now url x own c) (spec_set now url x (or_else own ttl) m) ttl d l
        (set-IsValid now url x own c v) o
        (subst
          (λ n. IsExact now (set now url x own c).entries (spec_set now url x (or_else own n) m)) d
          (set-IsExact now url x own c m l (later t now c.entries m le h)))
  run-IsExact (invalidating url ∷ ops) t c m ttl d l v o h =
      run-IsExact ops t (invalidate url c) (spec_invalidate url m) ttl d l
        (invalidate-IsValid url c v) o (invalidate-IsExact t url c m h)
  run-IsExact (clearing ∷ ops) t c m ttl d l v o h =
      run-IsExact ops t (clear_all c) (λ _. none) ttl d l (clear_all-IsValid c) o (λ u. inl refl)
  run-IsExact (cleaning now ∷ ops) t c m ttl d l v (le, o) h =
      run-IsExact ops now (cleanup_expired now c).0 m ttl d l (cleanup-IsValid now c v) o
        (cleanup-IsExact now c m v (later t now c.entries m le h))

  -- A cache without a limit answers as the map with expiry does, whatever calls are made, where the
  -- clock does not run backwards and the cache holds each url once.
  pub run-spec_run :
      (ops : List (Op V)) (c : ManifestCache V) (t : ℕ)
      → IsValid c
      → ltb 0 c.max_size ≡ false
      → IsOrdered t ops
      → run ops c ≡ spec_run c.default_ttl ops (λ u. lookup u c.entries)
  run-spec_run ops c t v l o =
      run-IsExact ops t c (λ u. lookup u c.entries) c.default_ttl refl l v o (λ u. inl refl)
