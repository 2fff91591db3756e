-- ===== src/Audit/Bars.antt =====
-- Texts joined by `|`, as `compute_entry_hash` of src/asap/economics/audit.py joins them.
use Prim.Native.String.append
use Prim.Native.String.{◌++◌ as ◌<>◌}
use Prim.Native.Char.{Char, code}
use asap_protocol.Prelude.{
  String, Bool, true, false, if◌then◌else◌, arith, ◌≡◌, refl, ap, sym, ◌∙◌, nat_beq, subst,
}

-- no `|` in a text
unfoldable pub has_no_bar : String → Bool
has_no_bar String.[] = true
has_no_bar (String.◌∷◌ c s) =
    let rest = has_no_bar s in if nat_beq (code c) 124 then false else rest

no_bar_tail : (c : Char) (s : String) → has_no_bar (String.◌∷◌ c s) ≡ true → has_no_bar s ≡ true
unfolding has_no_bar
no_bar_tail c s h = ground arith

bar : Char
bar = "|"

bar_leads : (r : String) → "|" <> r ≡ String.◌∷◌ bar r
unfolding bar
bar_leads r = append.cons "|" String.[] r ∙ ap (λ t. String.◌∷◌ "|" t) (append.nil r)

same_head : {c d : Char} {s t : String} → String.◌∷◌ c s ≡ String.◌∷◌ d t → c ≡ d
same_head e = cc

same_tail : {c d : Char} {s t : String} → String.◌∷◌ c s ≡ String.◌∷◌ d t → s ≡ t
same_tail e = cc

bar_first :
    (c : Char) (q r s : String)
    → has_no_bar (String.◌∷◌ c q) ≡ true
    → "|" <> r ≡ String.◌∷◌ c q <> ("|" <> s)
    → ⊥
unfolding has_no_bar bar
bar_first c q r s h e =
    let same = same_head (sym (bar_leads r) ∙ e ∙ append.cons c q ("|" <> s)) in
    let wrong : has_no_bar (String.◌∷◌ bar q) ≡ true =
      subst (λ d. has_no_bar (String.◌∷◌ d q) ≡ true) (sym same) h in
    ground arith

-- Two texts without a bar, each followed by a bar, are equal where the whole texts are.
pub bar_splits :
    (p q r s : String)
    → has_no_bar p ≡ true
    → has_no_bar q ≡ true
    → p <> ("|" <> r) ≡ q <> ("|" <> s)
    → (p ≡ q) × (r ≡ s)
bar_splits String.[] String.[] r s h k e = (
  refl,
  same_tail
      (sym (bar_leads r) ∙ sym (append.nil ("|" <> r)) ∙ e ∙ append.nil ("|" <> s) ∙ bar_leads s),
)
bar_splits String.[] (String.◌∷◌ c q) r s h k e =
    absurd (bar_first c q r s k (sym (append.nil ("|" <> r)) ∙ e))
bar_splits (String.◌∷◌ c p) String.[] r s h k e =
    absurd (bar_first c p s r h (sym (append.nil ("|" <> s)) ∙ sym e))
bar_splits (String.◌∷◌ c p) (String.◌∷◌ d q) r s h k e =
    let whole = sym (append.cons c p ("|" <> r)) ∙ e ∙ append.cons d q ("|" <> s) in
    let (x, y) = bar_splits p q r s (no_bar_tail c p h) (no_bar_tail d q k) (same_tail whole) in
    (ap (λ t. String.◌∷◌ c t) x ∙ ap (λ t. String.◌∷◌ t q) (same_head whole), y)
