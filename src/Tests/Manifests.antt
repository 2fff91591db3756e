-- ===== src/Tests/Manifests.antt =====
-- A cache of manifests, for src/asap/transport/cache.py. A manifest is a number here.
use asap_protocol.Prelude.{
  ℕ, some, none, List, [], ◌∷◌, lookup, insert, erase, prune, erase_all, keys_where, ◌≡◌, refl,
  arith, string_eq,
}
use asap_protocol.Manifests.Cache.{ManifestCache, empty, get, set, invalidate, cleanup_expired}
use asap_protocol.Manifests.Evictions.{IsValid}
use asap_protocol.Manifests.Runs.{
  Op, getting, setting, invalidating, cleaning, run, spec_run, IsPart, run-refines,
}

-- two entries at most
abbrev small : ManifestCache ℕ
small = empty 100 2

abbrev unlimited : ManifestCache ℕ
unlimited = empty 100 0

-- a third url comes after the first was read again
abbrev ops : List (Op ℕ)
ops =
    setting 1 "a" 7 none
    ∷ setting 2 "b" 8 (some 10)
    ∷ getting 3 "a"
    ∷ setting 4 "c" 9 none
    ∷ getting 5 "b"
    ∷ getting 6 "a"
    ∷ cleaning 20
    ∷ invalidating "c"
    ∷ getting 30 "c"
    ∷ []

small-IsValid : IsValid small
unfolding empty
small-IsValid = record { unique = tt; bounded = λ h. omega arith }

unlimited-IsValid : IsValid unlimited
unfolding empty
unlimited-IsValid = record { unique = tt; bounded = λ h. omega arith }

-- the least recently used url is the one that went
answers : run ops small ≡ some 7 ∷ none ∷ some 7 ∷ none ∷ []
unfolding run get lookup set insert empty erase invalidate cleanup_expired prune erase_all
    keys_where
answers = refl

run-refines_example : IsPart (run ops small) (spec_run 100 ops (λ u. lookup u small.entries))
unfolding empty
run-refines_example = run-refines ops small small-IsValid
