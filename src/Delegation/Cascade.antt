-- ===== src/Delegation/Cascade.antt =====
-- What each visit of a cascade keeps, for src/asap/economics/delegation_storage.py.
use asap_protocol.Prelude.{
  ℕ, suc, ◌+◌, ◌≤◌, String, Bool, true, false, ◌||◌, Option, none, some, if◌then◌else◌, ltb, List,
  [], ◌∷◌, length, lookup, lookup-insert, contains, ◌==◌, string_eq, arith, ◌≡◌, refl, sym, ap, ◌∙◌,
  Bool-cases, inl, inr, subst, All,
}
use asap_protocol.Delegation.Storage.{
  Issued, Storage, Walk, children, push, visit, revoke, get_delegate, list_token_ids_issued_by,
  max_cascade_depth, is_revoked,
}
use asap_protocol.Delegation.Walks.{
  unvisited, unvisited-more_lt, unvisited-more_le, unissued-children,
}

-- A token that the root leads to, by tokens whose delegates issued the next.
pub data Reach (s : Storage) (root : String) : String → Type 0 where
  here : Reach s root root
  there :
      {t : String}
      → Reach s root t
      → (c : String) → contains c (children t s) ≡ true
      → Reach s root c

unfoldable pub queued : String → List (String × ℕ) → Bool
queued t [] = false
queued t ((c, d) ∷ stack) = if c == t then true else queued t stack

queued-push :
    (t : String) (d : ℕ) (cs : List String) (stack : List (String × ℕ))
    → queued t (push d cs stack) ≡ (contains t cs || queued t stack)
unfolding push contains queued
queued-push t d [] stack = refl
queued-push t d (c ∷ cs) stack = ground (arith, queued-push t d cs ((c, d) ∷ stack))

All-push :
    (P : String × ℕ → Type 0) (d : ℕ) (cs : List String) (stack : List (String × ℕ))
    → ((c : String) → contains c cs ≡ true → P (c, d))
    → All P stack
    → All P (push d cs stack)
unfolding push contains
All-push P d [] stack f h = h
All-push P d (c ∷ cs) stack f h =
    All-push P d cs ((c, d) ∷ stack) (λ b e. f b (ground arith))
      (f c (ground (arith, string_eq.beq_iff c c)), h)

pub children_same :
    (t : String) (s s' : Storage) → s.issued ≡ s'.issued → children t s ≡ children t s'
unfolding children get_delegate list_token_ids_issued_by
children_same t s s' e = ap (λ d. children t (record { revoked = []; issued = d })) e

is_revoked-revoke :
    (now : ℕ) (reason : Option String) (t k : String) (s : Storage)
    → is_revoked k (revoke now reason t s) ≡ (if t == k then true else is_revoked k s)
unfolding is_revoked revoke
is_revoked-revoke now reason t k s =
    rw (lookup-insert t k (record { at = now; reason = reason }) s.revoked) (ground arith)

-- what holds of every walk of the cascade
pub record IsSound (s : Storage) (root : String) (w : Walk) : Type 0 where
  pub issued : w.storage.issued ≡ s.issued
  pub stack : All (λ item. Reach s root item.0) w.stack
  pub revoked : (t : String) → is_revoked t w.storage ≡ (contains t w.visited || is_revoked t s)
  pub visited : (t : String) → contains t w.visited ≡ true → Reach s root t

module _ (clock : String → ℕ) (reason : Option String) where
  pub visit-IsSound :
      (s : Storage) (root : String) (item : String × ℕ) (rest : List (String × ℕ)) (w : Walk)
      → w.stack ≡ item ∷ rest
      → IsSound s root w
      → IsSound s root (visit clock reason item (record w { stack = rest }))
  unfolding visit contains
  visit-IsSound s root (t, depth) rest w at h =
      elim (Bool-cases (contains t w.visited || ltb max_cascade_depth depth)) [
        | inl seen ↦ rw seen (record {
          issued = h.issued;
          stack = (subst (All (λ x. Reach s root x.0)) at h.stack).1;
          revoked = h.revoked;
          visited = h.visited;
        })
        | inr new ↦
            let (reached, others) = subst (All (λ x. Reach s root x.0)) at h.stack in
            rw new (record {
              issued = h.issued;
              stack =
                  All-push (λ x. Reach s root x.0) (suc depth) (children t w.storage) rest
                    (λ c e.
                      there reached c (
                        subst (λ cs. contains c cs ≡ true) (children_same t w.storage s h.issued)
                          e))
                    others;
              revoked = λ k.
                  is_revoked-revoke (clock t) reason t k w.storage ∙ ground (arith, h.revoked k);
              visited = λ k e. elim (Bool-cases (t == k)) [
                | inl same ↦ subst (Reach s root) ((string_eq.beq_iff t k).0 same) reached
                | inr other ↦ h.visited k (ground arith)
              ];
            })
      ]

-- what holds besides where no more tokens are issued than the depth limit: nothing is left out
pub record IsFull (s : Storage) (root : String) (w : Walk) : Type 0 where
  pub issued : w.storage.issued ≡ s.issued
  pub bound : All (λ item. item.1 + unvisited w.visited s.issued ≤ length s.issued) w.stack
  pub closed :
      (t c : String)
      → contains t w.visited ≡ true
      → contains c (children t s) ≡ true
      → (contains c w.visited || queued c w.stack) ≡ true
  pub rooted : (contains root w.visited || queued root w.stack) ≡ true

issued_parent :
    (t c : String) (s : Storage)
    → contains c (children t s) ≡ true
    → (e : Issued) × (lookup t s.issued ≡ some e)
unfolding contains children get_delegate
issued_parent t c s h = go (lookup t s.issued) refl
  where
    go : (o : Option Issued) → lookup t s.issued ≡ o → (e : Issued) × (lookup t s.issued ≡ some e)
    go none p =
        let empty = unissued-children t s p in
        let wrong : false ≡ true = ap (contains c) (sym empty) ∙ h in cc
    go (some e) p = (e, p)

All-map :
    {P Q : String × ℕ → Type 0} (xs : List (String × ℕ))
    → ((x : String × ℕ) → P x → Q x)
    → All P xs
    → All Q xs
All-map [] f h = tt
All-map (x ∷ xs) f h = (f x h.0, All-map xs f h.1)

module _ (clock : String → ℕ) (reason : Option String) where
  pub visit-IsFull :
      (s : Storage) (root : String)
      → length s.issued ≤ max_cascade_depth
      → (item : String × ℕ) (rest : List (String × ℕ)) (w : Walk) → w.stack ≡ item ∷ rest
      → IsFull s root w
      → IsFull s root (visit clock reason item (record w { stack = rest }))
  unfolding visit contains queued
  visit-IsFull s root few (t, depth) rest w at h =
      let (low, lows) =
        subst (All (λ x. x.1 + unvisited w.visited s.issued ≤ length s.issued)) at h.bound in
      let on_stack : (c : String) → queued c w.stack ≡ (if t == c then true else queued c rest) =
        λ c. ap (queued c) at in
      elim (Bool-cases (contains t w.visited || ltb max_cascade_depth depth)) [
        | inl seen ↦
            let before : contains t w.visited ≡ true = ground arith in
            rw seen (record {
              issued = h.issued;
              bound = lows;
              closed = λ v c i j.
                  ground (arith, h.closed v c i j, on_stack c, before, string_eq.beq_iff t c);
              rooted = ground (arith, h.rooted, on_stack root, before, string_eq.beq_iff t root);
            })
        | inr new ↦
            let same = children_same t w.storage s h.issued in
            let pushed = λ (c : String).
              queued-push c (suc depth) (children t w.storage) rest
              ∙ ap (λ cs. contains c cs || queued c rest) same in
            rw new (record {
              issued = h.issued;
              bound =
                  All-push (λ x. x.1 + unvisited (t ∷ w.visited) s.issued ≤ length s.issued)
                    (suc depth) (children t w.storage) rest
                    (λ c e.
                      let (entry, found) =
                        issued_parent t c s (subst (λ cs. contains c cs ≡ true) same e) in
                      omega (
                        arith,
                        low,
                        unvisited-more_lt t w.visited s.issued entry found (ground arith),
                      ))
                    (All-map rest
                      (λ x low'. omega (arith, low', unvisited-more_le t w.visited s.issued)) lows);
              closed = λ v c i j. ground (
                arith,
                pushed c,
                h.closed v c,
                on_stack c,
                string_eq.beq_iff t v,
                string_eq.beq_iff t c,
                i,
                j,
              );
              rooted =
                  ground (arith, pushed root, h.rooted, on_stack root, string_eq.beq_iff t root);
            })
      ]
