-- ===== src/Approval/Merge.antt =====
-- `_merge_capability_specs` of src/asap/auth/approval.py, over the name that the code reads in a spec.
use asap_protocol.Prelude.{
  String, false, Option, none, some, if◌then◌else◌, arith, List, [], ◌∷◌, ◌++◌, ◌≡◌, refl, Dict,
  lookup, insert, lookup-insert, insert-IsUnique, IsUnique, is_none, string_eq, ◌==◌, ap, ◌∙◌, sym,
  subst, contains, beq_refl,
}

module _ {Spec : Type 0} (spec_name : Spec → String) where
  -- the loop over `[*existing, *incoming]`, with `by_name` and `order`
  unfoldable pub collect :
      List Spec → Dict String Spec → List String → Dict String Spec × List String
  collect [] by_name order = (by_name, order)
  collect (spec ∷ specs) by_name order =
      collect specs (insert (spec_name spec) spec by_name)
        (if is_none (lookup (spec_name spec) by_name) then order ++ spec_name spec ∷ [] else order)

  -- `[by_name[name] for name in order]`; every name of `order` is a key
  unfoldable pub pick_all : List String → Dict String Spec → List Spec
  pick_all [] by_name = []
  pick_all (name ∷ order) by_name =
      let rest = pick_all order by_name in
      elim (lookup name by_name) [ none ↦ rest | some spec ↦ spec ∷ rest ]

  unfoldable pub merge_capability_specs : List Spec → List Spec → List Spec
  unfolding collect pick_all
  merge_capability_specs existing incoming =
      let (by_name, order) = collect (existing ++ incoming) [] [] in pick_all order by_name

  -- The spec that a list of them gives a name: the last that has it.
  abbrev pub last_named : String → List Spec → Option Spec
  last_named n [] = none
  last_named n (spec ∷ specs) = elim (last_named n specs) [
    | some later ↦ some later
    | none ↦ if spec_name spec == n then some spec else none
  ]

  -- The first spec of that name.
  abbrev pub first_named : String → List Spec → Option Spec
  first_named n [] = none
  first_named n (spec ∷ specs) = if spec_name spec == n then some spec else first_named n specs

  keys : Dict String Spec → List String
  keys [] = []
  keys ((k, v) ∷ d) = k ∷ keys d

  values : Dict String Spec → List Spec
  values [] = []
  values ((k, v) ∷ d) = v ∷ values d

  keys-insert :
      (k : String) (v : Spec) (d : Dict String Spec)
      → keys (insert k v d) ≡ (if is_none (lookup k d) then keys d ++ k ∷ [] else keys d)
  unfolding keys insert lookup
  keys-insert k v [] = refl
  keys-insert k v ((j, w) ∷ d) = ground (arith, keys-insert k v d)

  lookup_head : (k : String) (v : Spec) (d : Dict String Spec) → lookup k ((k, v) ∷ d) ≡ some v
  unfolding lookup
  lookup_head k v d = rw (beq_refl k)

  -- `order` holds the keys of `by_name` in their order
  collect-keys :
      (specs : List Spec) (d : Dict String Spec) (order : List String)
      → order ≡ keys d
      → (collect specs d order).1 ≡ keys (collect specs d order).0
  unfolding collect
  collect-keys [] d order h = h
  collect-keys (spec ∷ specs) d order h =
      collect-keys specs (insert (spec_name spec) spec d) _
        (rw h (sym (keys-insert (spec_name spec) spec d)))

  collect-lookup :
      (specs : List Spec) (d : Dict String Spec) (order : List String) (n : String)
      → lookup n (collect specs d order).0
        ≡ (elim (last_named n specs) [ none ↦ lookup n d | some s ↦ some s ])
  unfolding collect
  collect-lookup [] d order n = refl
  collect-lookup (spec ∷ specs) d order n = ground (
    arith,
    collect-lookup specs (insert (spec_name spec) spec d)
        (if is_none (lookup (spec_name spec) d) then order ++ spec_name spec ∷ [] else order) n,
    lookup-insert (spec_name spec) n spec d,
  )

  collect-IsUnique :
      (specs : List Spec) (d : Dict String Spec) (order : List String)
      → IsUnique d
      → IsUnique (collect specs d order).0
  unfolding collect
  collect-IsUnique [] d order u = u
  collect-IsUnique (spec ∷ specs) d order u =
      collect-IsUnique specs (insert (spec_name spec) spec d) _
        (insert-IsUnique (spec_name spec) spec d u)

  -- each entry stands under its spec's name
  abbrev IsNamed : Dict String Spec → Type 0
  IsNamed [] = Unit
  IsNamed ((k, v) ∷ d) = (spec_name v ≡ k) × IsNamed d

  insert-IsNamed :
      (v : Spec) (d : Dict String Spec) → IsNamed d → IsNamed (insert (spec_name v) v d)
  unfolding insert
  insert-IsNamed v [] h = (refl, tt)
  insert-IsNamed v ((j, w) ∷ d) h =
      ground (arith, insert-IsNamed v d h.1, string_eq.beq_iff j (spec_name v))

  collect-IsNamed :
      (specs : List Spec) (d : Dict String Spec) (order : List String)
      → IsNamed d
      → IsNamed (collect specs d order).0
  unfolding collect
  collect-IsNamed [] d order h = h
  collect-IsNamed (spec ∷ specs) d order h =
      collect-IsNamed specs (insert (spec_name spec) spec d) _ (insert-IsNamed spec d h)

  first_named-values :
      (n : String) (d : Dict String Spec) → IsNamed d → first_named n (values d) ≡ lookup n d
  unfolding values lookup
  first_named-values n [] h = refl
  first_named-values n ((k, v) ∷ d) h = ground (arith, first_named-values n d h.1)

  contains-keys_absent :
      (k : String) (d : Dict String Spec) → lookup k d ≡ none → contains k (keys d) ≡ false
  unfolding keys lookup contains
  contains-keys_absent k [] h = refl
  contains-keys_absent k ((j, w) ∷ d) h =
      ground (arith, contains-keys_absent k d, string_eq.beq_iff j k)

  pick_all_skip :
      (k : String) (v : Spec) (d : Dict String Spec) (order : List String)
      → contains k order ≡ false
      → pick_all order ((k, v) ∷ d) ≡ pick_all order d
  unfolding pick_all lookup contains
  pick_all_skip k v d [] h = refl
  pick_all_skip k v d (j ∷ order) h =
      ground (arith, pick_all_skip k v d order, string_eq.beq_iff j k, string_eq.beq_iff k j)

  pick_all-keys : (d : Dict String Spec) → IsUnique d → pick_all (keys d) d ≡ values d
  unfolding pick_all keys values
  pick_all-keys [] u = refl
  pick_all-keys ((k, v) ∷ d) u = ground (
    arith,
    pick_all-keys d u.1,
    pick_all_skip k v d (keys d),
    contains-keys_absent k d u.0,
    lookup_head k v d,
  )

  -- No two specs of a list have the same name.
  abbrev pub IsOnce : List Spec → Type 0
  IsOnce [] = Unit
  IsOnce (s ∷ ss) = (first_named (spec_name s) ss ≡ none) × IsOnce ss

  values-IsOnce : (d : Dict String Spec) → IsUnique d → IsNamed d → IsOnce (values d)
  unfolding values
  values-IsOnce [] u h = tt
  values-IsOnce ((k, v) ∷ d) u h = (
    first_named-values (spec_name v) d h.1 ∙ ap (λ n. lookup n d) h.0 ∙ u.0,
    values-IsOnce d u.1 h.1,
  )

  -- The merged list is that of the values of one dict.
  merge-values :
      (existing incoming : List Spec)
      → merge_capability_specs existing incoming ≡ values (collect (existing ++ incoming) [] []).0
  unfolding merge_capability_specs
  merge-values existing incoming =
      let specs = existing ++ incoming in
      ap (λ order. pick_all order (collect specs [] []).0)
        (collect-keys specs [] [] (unfold keys in refl))
      ∙ pick_all-keys (collect specs [] []).0 (collect-IsUnique specs [] [] tt)

  -- In the merged list a name has the spec that came last: the incoming one where there is one, and
  -- else the existing one.
  pub merge-first_named :
      (existing incoming : List Spec) (n : String)
      → first_named n (merge_capability_specs existing incoming)
        ≡ last_named n (existing ++ incoming)
  merge-first_named existing incoming n =
      let specs = existing ++ incoming in
      ap (first_named n) (merge-values existing incoming)
      ∙ first_named-values n (collect specs [] []).0 (collect-IsNamed specs [] [] tt)
      ∙ collect-lookup specs [] [] n
      ∙ settle
    where
      settle :
          (elim (last_named n (existing ++ incoming)) [ none ↦ lookup n [] | some s ↦ some s ])
          ≡ last_named n (existing ++ incoming)
      settle = unfold lookup in ground arith

  -- Each name stands once in the merged list.
  pub merge-IsOnce :
      (existing incoming : List Spec) → IsOnce (merge_capability_specs existing incoming)
  merge-IsOnce existing incoming =
      let d = (collect (existing ++ incoming) [] []).0 in
      subst IsOnce (sym (merge-values existing incoming)) (
        values-IsOnce d (collect-IsUnique (existing ++ incoming) [] [] tt)
          (collect-IsNamed (existing ++ incoming) [] [] tt))
