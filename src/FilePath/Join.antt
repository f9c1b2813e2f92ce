-- ===== src/FilePath/Join.antt =====
-- filepath.Join: the elements of a joined path.
use cli_toolkit.Base.{
  Bool, true, false, List, [], ◌∷◌, ◌++◌, ◌≡◌, refl, Bytes, All, is_empty, reverse,
}
use mathlib.Core.List.{reverse-append, reverse-reverse}
use cli_toolkit.FilePath.Split.{
  slash, Lacks, split, join_elems, split-append_slash, split-join_elems, split-Lacks,
}
use cli_toolkit.FilePath.{is_abs, push, push_all, elems, render, clean, join}
use cli_toolkit.FilePath.Clean.{
  IsPlain, push_all-append, push_all-IsPlain, is_abs-clean, elems-clean, elems-All-IsPlain,
  clean-clean,
}

is_abs-append : (a b : Bytes) → is_empty a ≡ false → is_abs (a ++ b) ≡ is_abs a
unfolding is_abs
is_abs-append [] b h = cc
is_abs-append (c ∷ a) b h = refl

join_two : (a b : Bytes) → is_empty a ≡ false → join (a ∷ b ∷ []) ≡ clean (a ++ slash ∷ b)
unfolding join join_elems
join_two a b h = rw h

-- `Join(a, b)` is absolute exactly when `a` is.
pub is_abs-join : (a b : Bytes) → is_empty a ≡ false → is_abs (join (a ∷ b ∷ [])) ≡ is_abs a
is_abs-join a b h = rw (join_two a b h, is_abs-clean (a ++ slash ∷ b)) (is_abs-append a _ h)

-- `Join(a, b)` runs the elements of `b` against those of `a`.
pub elems-join :
    (a b : Bytes)
    → is_empty a ≡ false
    → elems (join (a ∷ b ∷ [])) ≡ reverse (push_all (is_abs a) (reverse (elems a)) (split b))
elems-join a b h =
    rw (join_two a b h, elems-clean (a ++ slash ∷ b))
      (unfold elems in
        rw (
          is_abs-append a (slash ∷ b) h,
          split-append_slash a b,
          push_all-append (is_abs a) [] (split a) (split b),
          reverse-reverse,
        ))

push_all-split-root :
    (r : Bool) (out : List Bytes) (b : Bytes)
    → is_abs b ≡ true
    → push_all r out (split (clean b)) ≡ push_all r out (elems b)
unfolding clean render split push_all push
push_all-split-root r out b h = rw h (root (elems b) (elems-All-IsPlain b h))
  where
    lacks : (es : List Bytes) → All IsPlain es → All (Lacks slash) es
    lacks [] h = tt
    lacks (e ∷ es) (he, h) = (he.3, lacks es h)

    root :
        (es : List Bytes)
        → All IsPlain es
        → push_all r out (split (slash ∷ join_elems es)) ≡ push_all r out es
    root [] h = unfold join_elems in refl
    root (e ∷ es) h = rw (split-join_elems e es (lacks (e ∷ es) h))

-- Below any directory, a cleaned absolute path adds just its own elements: it cannot climb.
pub elems-join-clean :
    (a b : Bytes)
    → is_empty a ≡ false
    → is_abs b ≡ true
    → elems (join (a ∷ clean b ∷ [])) ≡ elems a ++ elems b
elems-join-clean a b ha hb = rw (
  elems-join a (clean b) ha,
  push_all-split-root (is_abs a) (reverse (elems a)) b hb,
  push_all-IsPlain (is_abs a) (reverse (elems a)) (elems b) (elems-All-IsPlain b hb),
  reverse-append,
  reverse-reverse,
  reverse-reverse,
)

-- One ordinary name below a directory.
pub elems-join-IsPlain :
    (a e : Bytes) → is_empty a ≡ false → IsPlain e → elems (join (a ∷ e ∷ [])) ≡ elems a ++ e ∷ []
elems-join-IsPlain a e ha he = rw (
  elems-join a e ha,
  split-Lacks e he.3,
  push_all-IsPlain (is_abs a) (reverse (elems a)) (e ∷ []) (he, tt),
  reverse-append,
  reverse-reverse,
)

-- A join is already clean.
pub clean-join : (a b : Bytes) → is_empty a ≡ false → clean (join (a ∷ b ∷ [])) ≡ join (a ∷ b ∷ [])
clean-join a b h = rw (join_two a b h, clean-clean (a ++ slash ∷ b))
