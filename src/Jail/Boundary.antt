-- ===== src/Jail/Boundary.antt =====
-- IsInJail and EnsureInJail against the tree of directories: which paths are let through.
use cli_toolkit.Base.{
  Bool, true, false, not, List, [], ◌∷◌, ◌++◌, ◌≡◌, refl, sym, ap, ◌∙◌, arith, Bytes, All,
  All-append_right, inl, inr, Bool-cases, bytes_eq-cases, subst, is_empty, bytes_eq, some,
  HasPrefix, has_prefix, append-nil,
}
use cli_toolkit.FilePath.Split.{slash, join_elems}
use cli_toolkit.FilePath.{dotdot, is_abs, elems, render, clean, join, strip_common, rel}
use cli_toolkit.FilePath.Clean.{IsPlain, elems-All-IsPlain, elems-clean, is_abs-clean, clean-clean}
use cli_toolkit.FilePath.Join.{elems-join-clean, is_abs-join}
use cli_toolkit.FilePath.Rel.{
  ups, rel-is_abs, strip_common-prefix, All-strip_common, strip_common-append,
}
use cli_toolkit.Jail.{is_in_jail, is_below, ensure_in_jail, root}

-- The first name below the jail is spelled with two dots in front, as in `..cache`.
abbrev pub starts_dotdot : List Bytes → Bool
starts_dotdot [] = false
starts_dotdot (e ∷ es) = has_prefix e dotdot

pub is_abs-root : is_abs root ≡ true
unfolding is_abs
is_abs-root = refl

-- An absolute path is not empty, nor is what `Clean` makes of it.
pub is_abs-not_empty : (p : Bytes) → is_abs p ≡ true → is_empty p ≡ false
unfolding is_abs
is_abs-not_empty [] h = cc
is_abs-not_empty (c ∷ p) h = refl

has_prefix-append :
    (e rest : Bytes) → IsPlain e → has_prefix (e ++ slash ∷ rest) dotdot ≡ has_prefix e dotdot
unfolding has_prefix
has_prefix-append [] rest h = cc
has_prefix-append (c ∷ []) rest h = ground arith
has_prefix-append (c ∷ d ∷ e) rest h = refl

-- The textual test sees the first name of a relative path.
has_prefix-render :
    (es : List Bytes) → All IsPlain es → has_prefix (render false es) dotdot ≡ starts_dotdot es
unfolding render join_elems
has_prefix-render [] h = unfold has_prefix in refl
has_prefix-render (e ∷ []) h = refl
has_prefix-render (e ∷ f ∷ es) (he, h) = has_prefix-append e _ he

has_prefix-ups :
    (b : Bytes) (bs ts : List Bytes) → has_prefix (render false (ups (b ∷ bs) ts)) dotdot ≡ true
unfolding render join_elems has_prefix
has_prefix-ups b [] [] = refl
has_prefix-ups b [] (t ∷ ts) = refl
has_prefix-ups b (c ∷ bs) ts = refl

is_below-ups :
    (bs ts : List Bytes)
    → All IsPlain ts
    → is_below (some (render false (ups bs ts))) ≡ true
    → (bs ≡ []) × (starts_dotdot ts ≡ false)
unfolding is_below
is_below-ups [] ts ht h = (refl, ground (arith, has_prefix-render ts ht))
is_below-ups (b ∷ bs) ts ht h = absurd (ground (arith, has_prefix-ups b bs ts))

module _ (j p : Bytes) (hj : is_abs j ≡ true) (hp : is_abs p ≡ true) where
  is_in_jail-is_below : is_in_jail j p ≡ is_below (rel (clean j) (clean p))
  unfolding is_in_jail
  is_in_jail-is_below =
      rw (
        is_abs-not_empty (clean j) (is_abs-clean j ∙ hj),
        is_abs-not_empty j hj,
        is_abs-clean p ∙ hp,
      )

  is_in_jail-ups :
      is_in_jail j p
      ≡ is_below (
          some (
            render false
              (ups (strip_common (elems j) (elems p)).0 (strip_common (elems j) (elems p)).1)))
  is_in_jail-ups = rw (
    is_in_jail-is_below,
    rel-is_abs (clean j) (clean p) (is_abs-clean j ∙ hj) (is_abs-clean p ∙ hp),
    elems-clean j,
    elems-clean p,
  )

  -- An absolute path that is let through has the jail's names first, and then no name that begins
  -- with two dots: nothing outside the jail is ever reported inside.
  pub is_in_jail_sound :
      is_in_jail j p ≡ true
      → (rest : List Bytes) × (elems p ≡ elems j ++ rest) × (starts_dotdot rest ≡ false)
  is_in_jail_sound h =
      let (bs, ts) = strip_common (elems j) (elems p) in
      let parts =
        All-strip_common IsPlain (elems j) (elems p) (elems-All-IsPlain j hj)
          (elems-All-IsPlain p hp) in
      let (all_matched, no_dots) = is_below-ups bs ts parts.1 (sym is_in_jail-ups ∙ h) in
      (ts, strip_common-prefix (elems j) (elems p) all_matched, no_dots)

  -- Every absolute path below the jail is let through unless the first name below it begins with two dots.
  pub is_in_jail_complete :
      (rest : List Bytes) → elems p ≡ elems j ++ rest → is_in_jail j p ≡ not (starts_dotdot rest)
  is_in_jail_complete rest e =
      rw (is_in_jail-ups, e, strip_common-append (elems j) rest)
        (unfold is_below in
          rw (
            has_prefix-render rest (
              All-append_right IsPlain (elems j) rest
                (subst (All IsPlain) e (elems-All-IsPlain p hp)))))

  is_in_jail-clean : is_in_jail (clean j) (clean p) ≡ is_in_jail j p
  unfolding is_in_jail
  is_in_jail-clean = rw (
    clean-clean j,
    clean-clean p,
    is_abs-not_empty (clean j) (is_abs-clean j ∙ hj),
    is_abs-not_empty j hj,
  )

  ensure_in_jail-root : bytes_eq p root ≡ true → ensure_in_jail j p ≡ clean j
  unfolding ensure_in_jail
  ensure_in_jail-root h = rw (is_abs-not_empty j hj, is_abs-not_empty p hp, h)

  ensure_in_jail_inside :
      bytes_eq p root ≡ false → is_in_jail j p ≡ true → ensure_in_jail j p ≡ clean p
  ensure_in_jail_inside h k =
      unfold ensure_in_jail in
      rw (is_abs-not_empty j hj, is_abs-not_empty p hp, h, is_in_jail-clean, k)

  ensure_in_jail-join :
      bytes_eq p root ≡ false
      → is_in_jail j p ≡ false
      → ensure_in_jail j p ≡ join (clean j ∷ clean p ∷ [])
  ensure_in_jail-join h k =
      unfold ensure_in_jail in
      rw (is_abs-not_empty j hj, is_abs-not_empty p hp, h, is_in_jail-clean, k, is_abs-clean p, hp)

  -- A path that is refused is moved below the jail whole, with every one of its names.
  ensure_in_jail_outside :
      bytes_eq p root ≡ false
      → is_in_jail j p ≡ false
      → (is_abs (ensure_in_jail j p) ≡ true) × (elems (ensure_in_jail j p) ≡ elems j ++ elems p)
  ensure_in_jail_outside h out =
      let cj = is_abs-not_empty (clean j) (is_abs-clean j ∙ hj) in
      rw (ensure_in_jail-join h out) (
        is_abs-join (clean j) (clean p) cj ∙ is_abs-clean j ∙ hj,
        elems-join-clean (clean j) p cj hp ∙ ap (λ es. es ++ elems p) (elems-clean j),
      )

  -- Every absolute path is moved to, or left at, the jail or below it.
  ensure_in_jail-HasPrefix : HasPrefix (elems j) (elems (ensure_in_jail j p))
  ensure_in_jail-HasPrefix = elim (Bool-cases (bytes_eq p root)) [
    | inl e ↦ ([], ap elems (ensure_in_jail-root e) ∙ elems-clean j ∙ sym (append-nil (elems j)))
    | inr e ↦ elim (Bool-cases (is_in_jail j p)) [
      | inl k ↦
          let (rest, same, _) = is_in_jail_sound k in
          (rest, ap elems (ensure_in_jail_inside e k) ∙ elems-clean p ∙ same)
      | inr k ↦ (elems p, (ensure_in_jail_outside e k).1)
    ]
  ]

-- A relative path is reported inside every jail, and handed back cleaned, not joined to the jail.
ensure_in_jail_relative :
    (j p : Bytes)
    → is_empty j ≡ false
    → is_empty p ≡ false
    → is_abs p ≡ false
    → (is_in_jail j p ≡ true) × (ensure_in_jail j p ≡ clean p)
ensure_in_jail_relative j p hj hp rel_p = (
  inside j p rel_p,
  elim (bytes_eq-cases p root) [
    | inl (e, _) ↦ cc (e, sym rel_p ∙ ap is_abs e, is_abs-root)
    | inr e ↦
        unfold ensure_in_jail in rw (hj, hp, e, inside (clean j) (clean p) (is_abs-clean p ∙ rel_p))
  ],
)
  where
    inside : (k q : Bytes) → is_abs q ≡ false → is_in_jail k q ≡ true
    inside k q h = unfold is_in_jail in ground (arith, is_abs-clean q)
