-- ===== src/OAuth/Scopes.antt =====
-- `parse_scope` of src/asap/auth/_scope_parse.py.
use asap_protocol.Prelude.{
  String, false, if◌then◌else◌, List, [], ◌∷◌, All, is_space, is_blank, strip, strip_left,
  strip_right, ◌≡◌, refl, ap, map, keep_if, not,
}
use Prim.Native.Char.{code}
use Prim.Native.String.{◌++◌ as ◌^^◌}
use text.Mathlib.TextLemmas.{nil-append, cons-append, append-nil}

-- a JSON value, as `parse_scope` tells them apart: an item of a list is given as `str` writes it
pub data ScopeClaim : Type 0 where
  absent other : ScopeClaim
  listed : List String → ScopeClaim
  spaced : String → ScopeClaim

-- a piece before the others, which `split` leaves out where it is empty
unfoldable pub put : String → List String → List String
put String.[] ws = ws
put (String.◌∷◌ c s) ws = String.◌∷◌ c s ∷ ws

-- the piece that a text starts with, and the ones after it
unfoldable pub pieces : String → String × List String
unfolding is_space put
pieces String.[] = (String.[], [])
pieces (String.◌∷◌ c s) =
    let (w, ws) = pieces s in
    if is_space (code c) then (String.[], put w ws) else (String.◌∷◌ c w, ws)

-- s.split()
unfoldable pub split : String → List String
unfolding pieces put
split s = let (w, ws) = pieces s in put w ws

unfoldable pub parse_scope : ScopeClaim → List String
unfolding split strip is_blank
parse_scope absent = []
parse_scope other = []
parse_scope (listed items) = items
parse_scope (spaced s) = map strip (keep_if (λ w. not (is_blank w)) (split s))

-- " ".join(scopes), as RFC 6749 writes them
unfoldable pub join : List String → String
join [] = ""
join (w ∷ []) = w
join (w ∷ v ∷ ws) = w ^^ " " ^^ join (v ∷ ws)

abbrev pub IsSpaceless : String → Type 0
IsSpaceless String.[] = Unit {0}
IsSpaceless (String.◌∷◌ c s) = (is_space (code c) ≡ false) × IsSpaceless s

-- A scope of RFC 6749: not empty, and without white space.
abbrev pub IsWord : String → Type 0
IsWord String.[] = ⊥
IsWord (String.◌∷◌ c s) = IsSpaceless (String.◌∷◌ c s)

pieces-append : (w t : String) → IsSpaceless w → pieces (w ^^ t) ≡ (w ^^ (pieces t).0, (pieces t).1)
unfolding pieces
pieces-append String.[] t h = rw (nil-append t, nil-append (pieces t).0) refl
pieces-append (String.◌∷◌ c w) t (h, k) =
    rw (cons-append c w t, cons-append c w (pieces t).0, h, pieces-append w t k) refl

pieces-IsSpaceless : (w : String) → IsSpaceless w → pieces w ≡ (w, [])
unfolding pieces
pieces-IsSpaceless String.[] h = refl
pieces-IsSpaceless (String.◌∷◌ c w) (h, k) = rw (h, pieces-IsSpaceless w k) refl

put-IsWord : (w : String) (ws : List String) → IsWord w → put w ws ≡ w ∷ ws
unfolding put
put-IsWord String.[] ws h = absurd h
put-IsWord (String.◌∷◌ c w) ws h = refl

IsWord-IsSpaceless : (w : String) → IsWord w → IsSpaceless w
IsWord-IsSpaceless String.[] h = absurd h
IsWord-IsSpaceless (String.◌∷◌ c w) h = h

pieces-space : (t : String) → pieces (" " ^^ t) ≡ (String.[], put (pieces t).0 (pieces t).1)
unfolding pieces is_space
pieces-space t = rw (cons-append " " String.[] t, nil-append t) refl

split-join : (ws : List String) → All IsWord ws → split (join ws) ≡ ws
unfolding split join pieces put
split-join [] h = refl
split-join (w ∷ []) (h, k) = rw (pieces-IsSpaceless w (IsWord-IsSpaceless w h)) (put-IsWord w [] h)
split-join (w ∷ v ∷ ws) (h, k) =
    rw
      (
        pieces-append w (" " ^^ join (v ∷ ws)) (IsWord-IsSpaceless w h),
        pieces-space (join (v ∷ ws)),
        append-nil w,
        put-IsWord w (put (pieces (join (v ∷ ws))).0 (pieces (join (v ∷ ws))).1) h,
      )
      (ap (λ x. w ∷ x) (split-join (v ∷ ws) k))

strip_right-IsSpaceless : (w : String) → IsSpaceless w → strip_right w ≡ w
unfolding strip_right is_blank
strip_right-IsSpaceless String.[] h = refl
strip_right-IsSpaceless (String.◌∷◌ c w) (h, k) = rw (h, strip_right-IsSpaceless w k) refl

strip-IsSpaceless : (w : String) → IsSpaceless w → strip w ≡ w
unfolding strip strip_left
strip-IsSpaceless String.[] h = strip_right-IsSpaceless String.[] h
strip-IsSpaceless (String.◌∷◌ c w) (h, k) = rw h (strip_right-IsSpaceless (String.◌∷◌ c w) (h, k))

is_blank-IsWord : (w : String) → IsWord w → is_blank w ≡ false
unfolding is_blank
is_blank-IsWord String.[] h = absurd h
is_blank-IsWord (String.◌∷◌ c w) (h, k) = rw h refl

strip-All-IsWord :
    (ws : List String) → All IsWord ws → map strip (keep_if (λ w. not (is_blank w)) ws) ≡ ws
strip-All-IsWord [] h = refl
strip-All-IsWord (w ∷ ws) (h, k) =
    rw (is_blank-IsWord w h)
      (rw (strip-IsSpaceless w (IsWord-IsSpaceless w h)) (ap (λ x. w ∷ x) (strip-All-IsWord ws k)))

-- Scopes that are written with a space between them are parsed back as they were, and in their
-- order, where none is empty or has white space in it.
pub parse_scope-join :
    (scopes : List String) → All IsWord scopes → parse_scope (spaced (join scopes)) ≡ scopes
unfolding parse_scope
parse_scope-join scopes h = rw (split-join scopes h) (strip-All-IsWord scopes h)
