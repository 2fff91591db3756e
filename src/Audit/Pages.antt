-- ===== src/Audit/Pages.antt =====
-- Pages of `query` in src/asap/economics/audit.py.
use asap_protocol.Prelude.{
  ℕ, zero, suc, ◌+◌, String, Option, List, [], ◌∷◌, ◌++◌, keep_if, arith, ◌≡◌, refl, ap, sym, ◌∙◌,
}
use asap_protocol.Audit.Log.{AuditEntry, drop, take, query, of_agent, from_start, until_end}

module _ {A : Type 0} where
  take-nil : (n : ℕ) → take {A = A} n [] ≡ []
  unfolding take
  take-nil zero = refl
  take-nil (suc n) = refl

  drop-nil : (n : ℕ) → drop {A = A} n [] ≡ []
  unfolding drop
  drop-nil zero = refl
  drop-nil (suc n) = refl

  take_split : (l n : ℕ) (xs : List A) → take l xs ++ take n (drop l xs) ≡ take (l + n) xs
  unfolding take drop
  take_split zero n xs = ap (λ k. take k xs) (omega arith)
  take_split (suc l) n [] = take-nil n ∙ sym (take-nil (suc l + n))
  take_split (suc l) n (x ∷ xs) =
      let sum : suc (l + n) ≡ suc l + n = omega arith in
      ap (λ ys. x ∷ ys) (take_split l n xs) ∙ ap (λ k. take k (x ∷ xs)) sum

  drop-drop : (l o : ℕ) (xs : List A) → drop l (drop o xs) ≡ drop (o + l) xs
  unfolding drop
  drop-drop l zero xs = ap (λ k. drop k xs) (omega arith)
  drop-drop l (suc o) [] = drop-nil l ∙ sym (drop-nil (suc o + l))
  drop-drop l (suc o) (x ∷ xs) =
      let sum : suc (o + l) ≡ suc o + l = omega arith in
      drop-drop l o xs ∙ ap (λ k. drop k (x ∷ xs)) sum

-- Pages join up: a page and the page that starts where it ends are the longer page, whatever the
-- filters.
pub query-pages :
    {D : Type 0} (agent_urn : Option String) (start end : Option ℕ) (limit more offset : ℕ)
    (entries : List (AuditEntry D))
    → query agent_urn start end limit offset entries
        ++ query agent_urn start end more (offset + limit) entries
      ≡ query agent_urn start end (limit + more) offset entries
unfolding query
query-pages agent_urn start end limit more offset entries =
    let found =
      keep_if (until_end end) (keep_if (from_start start) (keep_if (of_agent agent_urn) entries)) in
    ap (λ xs. take limit (drop offset found) ++ take more xs) (sym (drop-drop limit offset found))
    ∙ take_split limit more (drop offset found)
