-- ===== src/Delegation/Walks.antt =====
-- The steps of the cascade's loop, for src/asap/economics/delegation_storage.py: what a visit
-- leaves alone, and how many visits are left.
use asap_protocol.Prelude.{
  ℕ, zero, suc, ◌+◌, ◌*◌, ◌≤◌, String, Bool, false, ◌||◌, Option, none, some, if◌then◌else◌, ltb,
  List, [], ◌∷◌, length, Dict, lookup, contains, keys_where, ◌==◌, string_eq, arith, ◌≡◌, refl, ap,
  Bool-cases, inl, inr, subst,
}
use asap_protocol.Delegation.Storage.{
  Issued, Storage, Walk, children, push, visit, walk, revoke, get_delegate,
  list_token_ids_issued_by, max_cascade_depth,
}

-- the issued tokens that were not visited
abbrev pub unvisited : List String → Dict String Issued → ℕ
unvisited seen [] = 0
unvisited seen ((t, e) ∷ d) =
    let rest = unvisited seen d in if contains t seen then rest else suc rest

pub unvisited-more_le :
    (t : String) (seen : List String) (d : Dict String Issued)
    → unvisited (t ∷ seen) d ≤ unvisited seen d
unfolding contains
unvisited-more_le t seen [] = omega arith
unvisited-more_le t seen ((k, e) ∷ d) = ground (arith, unvisited-more_le t seen d)

pub unvisited-more_lt :
    (t : String) (seen : List String) (d : Dict String Issued) (e : Issued)
    → lookup t d ≡ some e
    → contains t seen ≡ false
    → unvisited (t ∷ seen) d + 1 ≤ unvisited seen d
unfolding contains lookup
unvisited-more_lt t seen [] e at new = ground arith
unvisited-more_lt t seen ((k, f) ∷ d) e at new = ground (
  arith,
  unvisited-more_lt t seen d e,
  unvisited-more_le t seen d,
  string_eq.beq_iff k t,
  string_eq.beq_iff t k,
)

pub unvisited-none : (d : Dict String Issued) → unvisited [] d ≡ length d
unfolding contains
unvisited-none [] = refl
unvisited-none ((k, e) ∷ d) = ground (arith, unvisited-none d)

length-keys_where-le :
    {V : Type 0} (p : V → Bool) (d : Dict String V) → length (keys_where p d) ≤ length d
unfolding keys_where
length-keys_where-le p [] = omega arith
length-keys_where-le p ((k, v) ∷ d) = ground (arith, length-keys_where-le p d)

length-push :
    (depth : ℕ) (cs : List String) (stack : List (String × ℕ))
    → length (push depth cs stack) ≡ length cs + length stack
unfolding push
length-push depth [] stack = omega arith
length-push depth (c ∷ cs) stack = ground (arith, length-push depth cs ((c, depth) ∷ stack))

pub length-children-le : (t : String) (s : Storage) → length (children t s) ≤ length s.issued
unfolding children get_delegate list_token_ids_issued_by
length-children-le t s = go (get_delegate t s)
  where
    go :
        (u : Option String)
        → length (elim u [
          | none ↦ []
          | some urn ↦ if urn == "" then [] else keys_where (λ e. e.delegator == urn) s.issued
        ])
          ≤ length s.issued
    go none = omega arith
    go (some urn) = ground (arith, length-keys_where-le (λ e. e.delegator == urn) s.issued)

some_inj : {A : Type 0} {a b : A} → some a ≡ some b → a ≡ b
some_inj e = cc

mul_room : (n c u v : ℕ) → c ≤ n → u + 1 ≤ v → c + n * u ≤ n * v
mul_room n c u zero h k = ground arith
mul_room n c zero (suc v) h k = omega arith
mul_room n c (suc u) (suc v) h k = omega (arith, mul_room n c u v h (omega arith))

mul_le : (n u v : ℕ) → u ≤ v → n * u ≤ n * v
mul_le n zero v k = omega arith
mul_le n (suc u) zero k = ground arith
mul_le n (suc u) (suc v) k = omega (arith, mul_le n u v (omega arith))

-- what is left to pop: the stack, and as many as there are issued tokens for each not yet visited
abbrev pub measure : Walk → ℕ
measure w = length w.stack + length w.storage.issued * unvisited w.visited w.storage.issued

pub unissued-children : (t : String) (s : Storage) → lookup t s.issued ≡ none → children t s ≡ []
unfolding children get_delegate
unissued-children t s h = ground arith

module _ (clock : String → ℕ) (reason : Option String) where
  pub visit-issued :
      (item : String × ℕ) (w : Walk) → (visit clock reason item w).storage.issued ≡ w.storage.issued
  unfolding visit revoke
  visit-issued (t, depth) w = ground arith

  visit-measure :
      (t : String) (depth : ℕ) (rest : List (String × ℕ)) (w : Walk)
      → measure (visit clock reason (t, depth) (record w { stack = rest }))
        ≤ length rest + length w.storage.issued * unvisited w.visited w.storage.issued
  unfolding visit push
  visit-measure t depth rest w =
      elim (Bool-cases (contains t w.visited || ltb max_cascade_depth depth)) [
        | inl seen ↦ rw (visit, seen) (omega arith)
        | inr new ↦ rw (visit, new) (go new (lookup t w.storage.issued) refl)
      ]
    where
      go :
          (contains t w.visited || ltb max_cascade_depth depth) ≡ false
          → (o : Option Issued) → lookup t w.storage.issued ≡ o
          → length (push (suc depth) (children t w.storage) rest)
              + length w.storage.issued * unvisited (t ∷ w.visited) w.storage.issued
            ≤ length rest + length w.storage.issued * unvisited w.visited w.storage.issued
      go new none at = rw (unissued-children t w.storage at) (
          omega (
            arith,
            mul_le (length w.storage.issued) (unvisited (t ∷ w.visited) w.storage.issued)
                (unvisited w.visited w.storage.issued)
                (unvisited-more_le t w.visited w.storage.issued),
          ))
      go new (some e) at = omega (
        arith,
        length-push (suc depth) (children t w.storage) rest,
        mul_room (length w.storage.issued) (length (children t w.storage))
            (unvisited (t ∷ w.visited) w.storage.issued) (unvisited w.visited w.storage.issued)
            (length-children-le t w.storage)
            (unvisited-more_lt t w.visited w.storage.issued e at (ground arith)),
      )

  -- enough fuel is given
  pub walk-returns :
      (n : ℕ) (w : Walk) → measure w ≤ n → (w' : Walk) × (walk clock reason n w ≡ some w')
  unfolding walk
  walk-returns zero w h = go w.stack refl
    where
      go :
          (st : List (String × ℕ))
          → w.stack ≡ st
          → (w' : Walk) × ((elim st [ [] ↦ some w | _ ∷ _ ↦ none ]) ≡ some w')
      go [] p = (w, refl)
      go (item ∷ rest) p = ground (arith, p, ap length p)
  walk-returns (suc n) w h = go (walk-returns n) w.stack refl
    where
      go :
          ((v : Walk) → measure v ≤ n → (w' : Walk) × (walk clock reason n v ≡ some w'))
          → (st : List (String × ℕ)) → w.stack ≡ st
          → (w' : Walk) × ((elim st [
            | [] ↦ some w
            | item ∷ rest ↦
                walk clock reason n (visit clock reason item (record w { stack = rest }))
          ])
              ≡ some w')
      go later [] p = (w, refl)
      go later ((t, depth) ∷ rest) p =
          let (w', e) =
            later (visit clock reason (t, depth) (record w { stack = rest }))
              (omega (arith, visit-measure t depth rest w, h, ap length p)) in
          (w', e)

  -- A property that each visit keeps holds at the end, where the stack is empty.
  pub walk-keeps :
      (P : Walk → Type 0)
      → ((item : String × ℕ) (rest : List (String × ℕ)) (w : Walk)
          → w.stack ≡ item ∷ rest
          → P w
          → P (visit clock reason item (record w { stack = rest })))
      → (n : ℕ) (w w' : Walk) → walk clock reason n w ≡ some w'
      → P w
      → P w' × (w'.stack ≡ [])
  unfolding walk
  walk-keeps P step zero w w' e p = go w.stack refl e
    where
      go :
          (st : List (String × ℕ))
          → w.stack ≡ st
          → (elim st [ [] ↦ some w | _ ∷ _ ↦ none ]) ≡ some w'
          → P w' × (w'.stack ≡ [])
      go [] q f = let same = some_inj f in (subst P same p, subst (λ v. v.stack ≡ []) same q)
      go (item ∷ rest) q f = cc
  walk-keeps P step (suc n) w w' e p = go (walk-keeps P step n) w.stack refl e
    where
      go :
          ((v u : Walk) → walk clock reason n v ≡ some u → P v → P u × (u.stack ≡ []))
          → (st : List (String × ℕ)) → w.stack ≡ st
          → (elim st [
            | [] ↦ some w
            | item ∷ rest ↦
                walk clock reason n (visit clock reason item (record w { stack = rest }))
          ])
            ≡ some w'
          → P w' × (w'.stack ≡ [])
      go later [] q f = let same = some_inj f in (subst P same p, subst (λ v. v.stack ≡ []) same q)
      go later (item ∷ rest) q f =
          later (visit clock reason item (record w { stack = rest })) w' f (step item rest w q p)
