-- ===== src/FilePath/Dir.antt =====
-- filepath.Dir and filepath.Base of cleaned absolute paths: the names but the last, and the last.
use cli_toolkit.Base.{
  true, false, List, [], ◌∷◌, ◌++◌, append_assoc, ◌≡◌, refl, sym, ap, ◌∙◌, arith, Bytes, All,
  is_empty, bytes_eq, if◌then◌else◌, append-nil,
}
use mathlib.Core.List.{reverse-reverse}
use cli_toolkit.FilePath.Split.{
  slash, Lacks, split, join_elems, split-append_slash, split-Lacks, split-join_elems,
}
use cli_toolkit.FilePath.{
  is_abs, push, push_all, elems, render, clean, through_slash, last_part, trim_slashes, dir, base,
}
use cli_toolkit.FilePath.Clean.{IsPlain, push_all-append, push_all-IsPlain}

through_slash-Lacks : (x : Bytes) → Lacks slash x → through_slash x ≡ []
unfolding through_slash
through_slash-Lacks [] h = refl
through_slash-Lacks (c ∷ x) (hc, h) = rw (through_slash-Lacks x h, hc)

through_slash-append :
    (a x : Bytes) → Lacks slash x → through_slash (a ++ slash ∷ x) ≡ a ++ slash ∷ []
unfolding through_slash
through_slash-append [] x h = rw (through_slash-Lacks x h)
through_slash-append (c ∷ []) x h = rw (through_slash-append [] x h)
through_slash-append (c ∷ d ∷ a) x h = rw (through_slash-append (d ∷ a) x h)

trim_slashes-Lacks : (x : Bytes) → Lacks slash x → trim_slashes x ≡ x
unfolding trim_slashes
trim_slashes-Lacks [] h = refl
trim_slashes-Lacks (c ∷ x) (hc, h) = ground (arith, trim_slashes-Lacks x h)

trim_slashes-append :
    (a x : Bytes) → is_empty x ≡ false → trim_slashes x ≡ x → trim_slashes (a ++ x) ≡ a ++ x
unfolding trim_slashes
trim_slashes-append [] x hx h = h
trim_slashes-append (c ∷ []) [] hx h = cc
trim_slashes-append (c ∷ []) (d ∷ x) hx h = rw h
trim_slashes-append (c ∷ d ∷ a) x hx h = rw (trim_slashes-append (d ∷ a) x hx h)

last_part-snoc : (ps : List Bytes) (x : Bytes) → last_part (ps ++ x ∷ []) ≡ x
unfolding last_part
last_part-snoc [] x = refl
last_part-snoc (p ∷ []) x = refl
last_part-snoc (p ∷ q ∷ ps) x = last_part-snoc (q ∷ ps) x

-- The text in front of the last separator.
front : List Bytes → Bytes
front [] = []
front (e ∷ es) = slash ∷ join_elems (e ∷ es)

render-snoc : (xs : List Bytes) (x : Bytes) → render true (xs ++ x ∷ []) ≡ front xs ++ slash ∷ x
unfolding render front join_elems
render-snoc [] x = refl
render-snoc (e ∷ []) x = refl
render-snoc (e ∷ f ∷ es) x =
    ap (λ t. slash ∷ (e ++ t)) (render-snoc (f ∷ es) x)
    ∙ ap (λ t. slash ∷ t) (sym (append_assoc e (slash ∷ join_elems (f ∷ es)) (slash ∷ x)))

is_abs-front : (xs : List Bytes) (y : Bytes) → is_abs (front xs ++ slash ∷ y) ≡ true
unfolding front is_abs
is_abs-front [] y = refl
is_abs-front (x ∷ xs) y = refl

Lacks-IsPlain : (xs : List Bytes) → All IsPlain xs → All (Lacks slash) xs
Lacks-IsPlain [] h = tt
Lacks-IsPlain (x ∷ xs) (hx, h) = (hx.3, Lacks-IsPlain xs h)

elems-front : (xs : List Bytes) → All IsPlain xs → elems (front xs ++ slash ∷ []) ≡ xs
unfolding elems split push_all push
elems-front xs h =
    rw
      (
        is_abs-front xs [],
        split-append_slash (front xs) [],
        push_all-append true [] (split (front xs)) (split []),
      )
      (unfold split push_all push in
        rw (parts xs h, push_all-IsPlain true [] xs h, append-nil, reverse-reverse))
  where
    parts :
        (ys : List Bytes)
        → All IsPlain ys
        → push_all true [] (split (front ys)) ≡ push_all true [] ys
    parts [] h = unfold front in refl
    parts (y ∷ ys) h = unfold front in rw (split-join_elems y ys (Lacks-IsPlain (y ∷ ys) h))

-- `Dir` drops the last name.
pub dir-snoc :
    (xs : List Bytes) (x : Bytes)
    → All IsPlain xs
    → IsPlain x
    → dir (render true (xs ++ x ∷ [])) ≡ render true xs
unfolding dir clean
dir-snoc xs x hs hx = rw (
  render-snoc xs x,
  through_slash-append (front xs) x hx.3,
  elems-front xs hs,
  is_abs-front xs [],
)

-- The root is its own directory.
pub dir-root : dir (render true []) ≡ render true []
unfolding dir clean elems render is_abs through_slash split push_all push bytes_eq join_elems
dir-root = refl

last_part-front :
    (xs : List Bytes) (x : Bytes)
    → IsPlain x
    → last_part (split (trim_slashes (front xs ++ slash ∷ x))) ≡ x
last_part-front xs x h =
    rw
      (
        trim_slashes-append (front xs) (slash ∷ x) refl
            (unfold trim_slashes in rw (trim_slashes-Lacks x h.3, h.0)),
        split-append_slash (front xs) x,
        split-Lacks x h.3,
      )
      (last_part-snoc (split (front xs)) x)

base-cons :
    (p : Bytes)
    → is_empty p ≡ false
    → base p ≡ (
        if is_empty (last_part (split (trim_slashes p)))
        then slash ∷ []
        else last_part (split (trim_slashes p)))
unfolding base
base-cons [] h = cc
base-cons (c ∷ p) h = refl

front-not_empty : (xs : List Bytes) (y : Bytes) → is_empty (front xs ++ slash ∷ y) ≡ false
unfolding front
front-not_empty [] y = refl
front-not_empty (x ∷ xs) y = refl

-- `Base` is the last name.
pub base-snoc : (xs : List Bytes) (x : Bytes) → IsPlain x → base (render true (xs ++ x ∷ [])) ≡ x
base-snoc xs x h =
    rw (render-snoc xs x, base-cons _ (front-not_empty xs x), last_part-front xs x h, h.0)
