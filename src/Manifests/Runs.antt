-- ===== src/Manifests/Runs.antt =====
-- Sequences of operations on the cache of src/asap/transport/cache.py, and on the map that it stands for.
use asap_protocol.Prelude.{
  ℕ, String, Option, none, List, [], ◌∷◌, lookup, string_eq, arith, ◌≡◌, ◌⊎◌, refl, ◌∙◌, subst,
}
use asap_protocol.Manifests.Cache.{
  ManifestCache, get, set, invalidate, clear_all, cleanup_expired, or_else,
}
use asap_protocol.Manifests.Evictions.{
  IsValid, get-IsValid, set-IsValid, invalidate-IsValid, clear_all-IsValid, cleanup-IsValid,
}
use asap_protocol.Manifests.Maps.{
  Spec, spec_get, spec_set, spec_invalidate, IsWithin, get-IsWithin, set-IsWithin,
  invalidate-IsWithin, cleanup-IsWithin,
}

-- A call of the cache, with its reading of the clock.
pub data Op (V : Type 0) : Type 0 where
  getting : ℕ → String → Op V
  setting : ℕ → String → V → Option ℕ → Op V
  invalidating : String → Op V
  clearing : Op V
  cleaning : ℕ → Op V

module _ {V : Type 0} where
  -- what the calls of `get` answer
  unfoldable pub run : List (Op V) → ManifestCache V → List (Option V)
  run [] c = []
  run (getting now url ∷ ops) c = let (c', answer) = get now url c in answer ∷ run ops c'
  run (setting now url v ttl ∷ ops) c = run ops (set now url v ttl c)
  run (invalidating url ∷ ops) c = run ops (invalidate url c)
  run (clearing ∷ ops) c = run ops (clear_all c)
  run (cleaning now ∷ ops) c = run ops (cleanup_expired now c).0

  -- the cache that the calls leave
  unfoldable pub cached_after : List (Op V) → ManifestCache V → ManifestCache V
  cached_after [] c = c
  cached_after (getting now url ∷ ops) c = cached_after ops (get now url c).0
  cached_after (setting now url v ttl ∷ ops) c = cached_after ops (set now url v ttl c)
  cached_after (invalidating url ∷ ops) c = cached_after ops (invalidate url c)
  cached_after (clearing ∷ ops) c = cached_after ops (clear_all c)
  cached_after (cleaning now ∷ ops) c = cached_after ops (cleanup_expired now c).0

  -- what a map with expiry answers, that holds any number of entries
  unfoldable pub spec_run : ℕ → List (Op V) → Spec V → List (Option V)
  spec_run ttl [] m = []
  spec_run ttl (getting now url ∷ ops) m = spec_get now url m ∷ spec_run ttl ops m
  spec_run ttl (setting now url v own ∷ ops) m =
      spec_run ttl ops (spec_set now url v (or_else own ttl) m)
  spec_run ttl (invalidating url ∷ ops) m = spec_run ttl ops (spec_invalidate url m)
  spec_run ttl (clearing ∷ ops) m = spec_run ttl ops (λ _. none)
  spec_run ttl (cleaning now ∷ ops) m = spec_run ttl ops m

  -- One list of answers is the other, but for answers that are none.
  abbrev pub IsPart : List (Option V) → List (Option V) → Type 0
  IsPart [] [] = Unit {0}
  IsPart (a ∷ as_) (b ∷ bs) = ((a ≡ none) ⊎ (a ≡ b)) × IsPart as_ bs
  IsPart _ _ = ⊥

  pub get-default_ttl :
      (now : ℕ) (url : String) (c : ManifestCache V) → (get now url c).0.default_ttl ≡ c.default_ttl
  unfolding get
  get-default_ttl now url c = ground arith

  pub set-default_ttl :
      (now : ℕ) (url : String) (v : V) (own : Option ℕ) (c : ManifestCache V)
      → (set now url v own c).default_ttl ≡ c.default_ttl
  unfolding set
  set-default_ttl now url v own c = refl

  run-IsPart :
      (ops : List (Op V)) (c : ManifestCache V) (m : Spec V) (ttl : ℕ)
      → c.default_ttl ≡ ttl
      → IsValid c
      → IsWithin c.entries m
      → IsPart (run ops c) (spec_run ttl ops m)
  unfolding run spec_run invalidate clear_all cleanup_expired lookup
  run-IsPart [] c m ttl t v h = tt
  run-IsPart (getting now url ∷ ops) c m ttl t v h =
      let (kept, answer) = get-IsWithin now url c m h in
      (
        answer,
        run-IsPart ops (get now url c).0 m ttl (get-default_ttl now url c ∙ t)
            (get-IsValid now url c v) kept,
      )
  run-IsPart (setting now url x own ∷ ops) c m ttl t v h =
      run-IsPart ops (set now url x own c) (spec_set now url x (or_else own ttl) m) ttl
        (set-default_ttl now url x own c ∙ t) (set-IsValid now url x own c v)
        (subst (λ n. IsWithin (set now url x own c).entries (spec_set now url x (or_else own n) m))
          t (set-IsWithin now url x own c m v h))
  run-IsPart (invalidating url ∷ ops) c m ttl t v h =
      run-IsPart ops (invalidate url c) (spec_invalidate url m) ttl t (invalidate-IsValid url c v)
        (invalidate-IsWithin url c m h)
  run-IsPart (clearing ∷ ops) c m ttl t v h =
      run-IsPart ops (clear_all c) (λ _. none) ttl t (clear_all-IsValid c) (λ u e a. cc)
  run-IsPart (cleaning now ∷ ops) c m ttl t v h =
      run-IsPart ops (cleanup_expired now c).0 m ttl t (cleanup-IsValid now c v)
        (cleanup-IsWithin now c m v h)

  -- The cache refines a map with expiry that forgets nothing: whatever calls are made of a cache that
  -- holds each url once and is within its size, each answer of `get` is the map's or none.
  pub run-refines :
      (ops : List (Op V)) (c : ManifestCache V)
      → IsValid c
      → IsPart (run ops c) (spec_run c.default_ttl ops (λ u. lookup u c.entries))
  run-refines ops c v = run-IsPart ops c (λ u. lookup u c.entries) c.default_ttl refl v (λ u e h. h)

  -- Any calls keep each url once and the cache within its size.
  pub cached_after-IsValid :
      (ops : List (Op V)) (c : ManifestCache V) → IsValid c → IsValid (cached_after ops c)
  unfolding cached_after
  cached_after-IsValid [] c v = v
  cached_after-IsValid (getting now url ∷ ops) c v =
      cached_after-IsValid ops (get now url c).0 (get-IsValid now url c v)
  cached_after-IsValid (setting now url x own ∷ ops) c v =
      cached_after-IsValid ops (set now url x own c) (set-IsValid now url x own c v)
  cached_after-IsValid (invalidating url ∷ ops) c v =
      cached_after-IsValid ops (invalidate url c) (invalidate-IsValid url c v)
  cached_after-IsValid (clearing ∷ ops) c v =
      cached_after-IsValid ops (clear_all c) (clear_all-IsValid c)
  cached_after-IsValid (cleaning now ∷ ops) c v =
      cached_after-IsValid ops (cleanup_expired now c).0 (cleanup-IsValid now c v)
