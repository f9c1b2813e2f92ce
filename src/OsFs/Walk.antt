-- ===== src/OsFs/Walk.antt =====
-- The walk of resolveHostForCreate: it ends within its fuel, at the nearest ancestor that the host's Lstat finds,
-- or at the root where that finds none.
use cli_toolkit.Base.{
  ℕ, zero, suc, ◌<◌, ◌≤◌, true, false, List, [], ◌∷◌, ◌++◌, ◌≡◌, ◌≢◌, refl, sym, ap, ◌∙◌, subst,
  arith, Bytes, ◌⊎◌, inl, inr, Bool-cases, bytes_eq, bytes_eq_refl, bytes_eq_sound, All, All-append,
  length, length-append, length-reverse, reverse, reverse-cons, append_assoc,
}
use cli_toolkit.FilePath.{elems, render, dir, base}
use cli_toolkit.FilePath.Split.{slash, join_elems}
use cli_toolkit.FilePath.Clean.{IsPlain, elems-render, All-reverse}
use cli_toolkit.FilePath.Dir.{dir-snoc, dir-root, base-snoc}
use cli_toolkit.OsFs.{walk_up}
use cli_toolkit.OsFs.Base.{Host, Lstat, found, missing, failed, Kind, os_error, Result, ok, err}

Lstat-cases : (l : Lstat) → ((k : Kind) × (l ≡ found k)) ⊎ (l ≡ missing) ⊎ (l ≡ failed)
Lstat-cases (found k) = inl (k, refl)
Lstat-cases missing = inr (inl refl)
Lstat-cases failed = inr (inr refl)

snoc-ne {ℓ} : {A : Type ℓ} (xs : List A) (x : A) → xs ≢ xs ++ x ∷ []
snoc-ne [] x e = cc
snoc-ne (y ∷ xs) x e = snoc-ne xs x (cc)

pub parent-ne :
    (xs : List Bytes) (x : Bytes)
    → All IsPlain xs
    → IsPlain x
    → bytes_eq (render true xs) (render true (xs ++ x ∷ [])) ≡ false
parent-ne xs x hs hx = elim (Bool-cases (bytes_eq (render true xs) (render true (xs ++ x ∷ [])))) [
  | inl e ↦ absurd (
      snoc-ne xs x (
        sym (elems-render xs hs)
        ∙ ap elems (bytes_eq_sound (render true xs) (render true (xs ++ x ∷ [])) e)
        ∙ elems-render (xs ++ x ∷ []) (All-append IsPlain xs (x ∷ []) hs (hx, tt))))
  | inr e ↦ e
]

module _ (host : Host) where
  -- Lstat finds the path of these names, or it is the root and Lstat finds none.
  abbrev pub Reached : List Bytes → Type 0
  Reached kept =
      ((k : Kind) × (host.lstat (render true kept) ≡ found k))
      ⊎ ((kept ≡ []) × (host.lstat (render true kept) ≡ missing))

  -- Lstat reports each path between the first names and the whole path as missing.
  abbrev pub Gone : List Bytes → List Bytes → Type 0
  Gone kept [] = Unit {0}
  Gone kept (x ∷ []) = Unit {0}
  Gone kept (x ∷ y ∷ rest) =
      (host.lstat (render true (kept ++ x ∷ [])) ≡ missing) × Gone (kept ++ x ∷ []) (y ∷ rest)

  Gone-cons :
      (kept : List Bytes) (x : Bytes) (names : List Bytes)
      → host.lstat (render true (kept ++ x ∷ [])) ≡ missing
      → Gone (kept ++ x ∷ []) names
      → Gone kept (x ∷ names)
  Gone-cons kept x [] e h = tt
  Gone-cons kept x (y ∷ names) e h = (e, h)

  -- A walk ends at an ancestor that Lstat finds, or at the root, with the names between it and the path, and
  -- Lstat reports what is between as missing. Otherwise Lstat has failed, and the fuel never runs out.
  abbrev pub Walked : List Bytes → Result (Bytes × List Bytes) → Type 0
  Walked whole (err e) = e ≡ os_error
  Walked whole (ok (cur, names)) =
      (kept : List Bytes) × (cur ≡ render true kept)
      × (kept ++ names ≡ whole)
      × All IsPlain kept
      × All IsPlain names
      × Reached kept
      × Gone kept names

  walk_up-found :
      (fuel : ℕ) (cur : Bytes) (names : List Bytes) (k : Kind)
      → host.lstat cur ≡ found k
      → walk_up host (suc fuel) cur names ≡ ok (cur, names)
  walk_up-found fuel cur names k e = unfold walk_up in ground arith

  walk_up-failed :
      (fuel : ℕ) (cur : Bytes) (names : List Bytes)
      → host.lstat cur ≡ failed
      → walk_up host (suc fuel) cur names ≡ err os_error
  walk_up-failed fuel cur names e = unfold walk_up in ground arith

  walk_up-top :
      (fuel : ℕ) (cur : Bytes) (names : List Bytes)
      → host.lstat cur ≡ missing
      → bytes_eq (dir cur) cur ≡ true
      → walk_up host (suc fuel) cur names ≡ ok (cur, names)
  walk_up-top fuel cur names e top = unfold walk_up in ground arith

  walk_up-up :
      (fuel : ℕ) (cur : Bytes) (names : List Bytes)
      → host.lstat cur ≡ missing
      → bytes_eq (dir cur) cur ≡ false
      → walk_up host (suc fuel) cur names ≡ walk_up host fuel (dir cur) (base cur ∷ names)
  walk_up-up fuel cur names e top = unfold walk_up in ground arith

  pub walk_up-Walked :
      (fuel : ℕ) (rev names : List Bytes)
      → All IsPlain rev
      → All IsPlain names
      → length rev < fuel
      → Gone (reverse rev) names
      → Walked (reverse rev ++ names) (walk_up host fuel (render true (reverse rev)) names)
  walk_up-Walked zero rev names hr hn h g = absurd (omega arith)
  walk_up-Walked (suc fuel) [] names hr hn h g = elim (Lstat-cases (host.lstat (render true []))) [
    | inl (k, e) ↦
        rw (walk_up-found fuel (render true []) names k e) ([], refl, refl, tt, hn, inl (k, e), g)
    | inr (inr e) ↦ rw (walk_up-failed fuel (render true []) names e) refl
    | inr (inl e) ↦
        rw
          (walk_up-top fuel (render true []) names e
            (ap (λ d. bytes_eq d (render true [])) dir-root ∙ bytes_eq_refl (render true [])))
          ([], refl, refl, tt, hn, inr (refl, e), g)
  ]
  walk_up-Walked (suc fuel) (x ∷ xs) names (hx, hs) hn h g =
      let cur = render true (reverse xs ++ x ∷ []) in
      let plain = All-reverse IsPlain xs hs in
      let up = dir-snoc (reverse xs) x plain hx in
      let gone = subst (λ es. Gone es names) (reverse-cons xs x) g in
      rw (reverse-cons xs x) (elim (Lstat-cases (host.lstat cur)) [
        | inl (k, e) ↦ rw (walk_up-found fuel cur names k e) (
          reverse xs ++ x ∷ [],
          refl,
          refl,
          All-append IsPlain (reverse xs) (x ∷ []) plain (hx, tt),
          hn,
          inl (k, e),
          gone,
        )
        | inr (inr e) ↦ rw (walk_up-failed fuel cur names e) refl
        | inr (inl e) ↦
            rw
              (
                walk_up-up fuel cur names e
                    (ap (λ d. bytes_eq d cur) up ∙ parent-ne (reverse xs) x plain hx),
                up,
                base-snoc (reverse xs) x hx,
                append_assoc (reverse xs) (x ∷ []) names,
              )
              (walk_up-Walked fuel xs (x ∷ names) hs (hx, hn) (omega arith)
                (Gone-cons (reverse xs) x names e gone))
      ])

-- A path has at least as many bytes as names.
pub length-le-render : (es : List Bytes) → length es ≤ length (render true es)
unfolding render join_elems
length-le-render [] = omega arith
length-le-render (e ∷ []) = omega arith
length-le-render (e ∷ f ∷ es) =
    omega (arith, length-le-render (f ∷ es), length-append e (slash ∷ join_elems (f ∷ es)))

module _ (host : Host) where
  -- The start of the walk, at the directory of a path that is not the root.
  pub walk_from :
      (full : Bytes) (rev : List Bytes) (x : Bytes)
      → full ≡ render true (reverse (x ∷ rev))
      → All IsPlain (x ∷ rev)
      → Walked host (elems full) (walk_up host (suc (length full)) (dir full) (base full ∷ []))
  walk_from full rev x e (hx, hr) =
      let plain = All-reverse IsPlain rev hr in
      let e' = e ∙ ap (render true) (reverse-cons rev x) in
      let known =
        ap elems e'
        ∙ elems-render (reverse rev ++ x ∷ [])
            (All-append IsPlain (reverse rev) (x ∷ []) plain (hx, tt)) in
      rw
        (
          known,
          ap dir e' ∙ dir-snoc (reverse rev) x plain hx,
          ap base e' ∙ base-snoc (reverse rev) x hx,
        )
        (walk_up-Walked host (suc (length full)) rev (x ∷ []) hr (hx, tt)
          (omega (
            arith,
            length-le-render (reverse rev ++ x ∷ []),
            ap length e',
            length-append (reverse rev) (x ∷ []),
            length-reverse rev,
          ))
          tt)
