-- ===== src/OsFs/Create.antt =====
-- resolveHostForCreate, from the host's form of a path on: what it hands to the host (toolkit/filesystem/os_fs.go).
use cli_toolkit.Base.{
  suc, true, false, List, [], ◌∷◌, ◌++◌, ◌≡◌, ◌≢◌, refl, sym, ap, ◌∙◌, subst, arith, Bytes, ◌⊎◌,
  inl, inr, Bool-cases, Option-cases, is_blank, bytes_eq, bytes_eq_refl, bytes_eq_sound, All,
  length, reverse, append_assoc, append-nil,
}
use mathlib.Core.List.{reverse-reverse}
use cli_toolkit.FilePath.{is_abs, elems, render, clean, join, dir, base}
use cli_toolkit.FilePath.Clean.{
  IsPlain, elems-All-IsPlain, elems-clean, is_abs-clean, clean-eq, clean-render, All-reverse,
}
use cli_toolkit.FilePath.Join.{elems-join-IsPlain, is_abs-join}
use cli_toolkit.Jail.{is_in_jail}
use cli_toolkit.Jail.Boundary.{is_abs-not_empty, is_in_jail_sound}
use cli_toolkit.OsFs.{
  canonical_jail, canonical_ancestor, reattach, walk_up, attach_in_jail, create_in_jail,
}
use cli_toolkit.OsFs.Base.{Host, Error, stuck, Result, ok, err}
use cli_toolkit.OsFs.Virtual.{IsAbsolute, is_abs-canonical_jail}
use cli_toolkit.OsFs.Walk.{Walked, Reached, Gone, walk_from}

-- Putting plain names back adds just those names.
elems-reattach :
    (out : Bytes) (names : List Bytes)
    → is_abs out ≡ true
    → All IsPlain names
    → (is_abs (reattach out names) ≡ true) × (elems (reattach out names) ≡ elems out ++ names)
unfolding reattach
elems-reattach out [] ho h = (ho, sym (append-nil (elems out)))
elems-reattach out (x ∷ names) ho (hx, h) =
    let full = is_abs-not_empty out ho in
    let (a, e) = elems-reattach (join (out ∷ x ∷ [])) names (is_abs-join out x full ∙ ho) h in
    (
      a,
      e
          ∙ ap (λ es. es ++ names) (elems-join-IsPlain out x full hx)
          ∙ append_assoc (elems out) (x ∷ []) names,
    )

is_abs-render_root : (es : List Bytes) → is_abs (render true es) ≡ true
unfolding render is_abs
is_abs-render_root es = refl

attach_in_jail-eq-ok :
    (host : Host) (jail h cur : Bytes) (names : List Bytes)
    → attach_in_jail host jail (cur, names) ≡ ok h
    → (is_in_jail (canonical_jail host jail) (canonical_ancestor host cur) ≡ true)
      × (h ≡ clean (reattach (canonical_ancestor host cur) names))
unfolding attach_in_jail
attach_in_jail-eq-ok host jail h cur names e = ground arith

append-nil_left : (xs ys : List Bytes) → xs ++ ys ≡ [] → xs ≡ []
append-nil_left [] ys e = refl
append-nil_left (x ∷ xs) ys e = cc

append_self : (xs ys : List Bytes) → xs ++ ys ≡ xs → ys ≡ []
append_self [] ys e = e
append_self (x ∷ xs) ys e = append_self xs ys (cc)

Result-cases {ℓ} :
    {A : Type ℓ} (r : Result A) → ((e : Error) × (r ≡ err e)) ⊎ ((a : A) × (r ≡ ok a))
Result-cases (err e) = inl (e, refl)
Result-cases (ok a) = inr (a, refl)

module _ (host : Host) (jail full : Bytes) (set : is_blank jail ≡ false) where
  create_in_jail-eq-ok :
      (h : Bytes)
      → create_in_jail host jail full ≡ ok h
      → ((h ≡ full) × (bytes_eq (clean full) (clean jail) ≡ true))
        ⊎ ((bytes_eq (clean full) (clean jail) ≡ false)
            × (there : Bytes × List Bytes) × (walk_up host
                  (suc (length full))
                  (dir full)
                  (base full ∷ [])
                ≡ ok there)
            × (attach_in_jail host jail there ≡ ok h))
  unfolding create_in_jail
  create_in_jail-eq-ok h done = elim (Bool-cases (bytes_eq (clean full) (clean jail))) [
    | inl eq ↦ inl (ground arith, eq)
    | inr ne ↦ elim (Result-cases (walk_up host (suc (length full)) (dir full) (base full ∷ []))) [
      | inl (e, w) ↦ absurd (ground arith)
      | inr (there, w) ↦ inr (ne, there, w, ground arith)
    ]
  ]

  attach_in_jail-ne-stuck :
      (there : Bytes × List Bytes) → attach_in_jail host jail there ≢ err stuck
  unfolding attach_in_jail
  attach_in_jail-ne-stuck (cur, names) e = ground arith

  create_in_jail-stuck :
      create_in_jail host jail full ≡ err stuck
      → (bytes_eq (clean full) (clean jail) ≡ false)
        × (walk_up host (suc (length full)) (dir full) (base full ∷ []) ≡ err stuck)
  unfolding create_in_jail
  create_in_jail-stuck done =
      elim (Result-cases (walk_up host (suc (length full)) (dir full) (base full ∷ []))) [
        | inl (e, w) ↦ ground arith
        | inr (there, w) ↦ absurd (ground (arith, attach_in_jail-ne-stuck there))
      ]

-- What resolveHostForCreate hands out: the nearest ancestor of the path that Lstat finds (or the root), link-free
-- and in the canonical jail, with the names below it behind it.
abbrev pub Created : Host → Bytes → Bytes → Bytes → Type 0
Created host jail full h =
    (kept : List Bytes) × (names : List Bytes) × (rest : List Bytes) × (kept ++ names ≡ elems full)
    × Reached host kept
    × Gone host kept names
    × (elems (canonical_ancestor host (render true kept))
        ≡ elems (canonical_jail host jail) ++ rest)
    × (is_abs h ≡ true)
    × (elems h ≡ elems (canonical_jail host jail) ++ (rest ++ names))

module _ (host : Host) (ha : IsAbsolute host) where
  is_abs-canonical_ancestor :
      (cur : Bytes) → is_abs cur ≡ true → is_abs (canonical_ancestor host cur) ≡ true
  unfolding canonical_ancestor
  is_abs-canonical_ancestor cur hc = elim (Option-cases (host.eval_symlinks cur)) [
    | inl e ↦ rw (e, canonical_ancestor) hc
    | inr (q, e) ↦ rw (e, canonical_ancestor) (ha.eval_abs cur q hc e)
  ]

  attach_in_jail-Created :
      (jail full h cur : Bytes) (names : List Bytes)
      → is_abs jail ≡ true
      → Walked host (elems full) (ok (cur, names))
      → attach_in_jail host jail (cur, names) ≡ ok h
      → Created host jail full h
  attach_in_jail-Created jail full h cur names hj (kept, at, whole, hk, hn, ex, gone) done =
      let (inside, same) = attach_in_jail-eq-ok host jail h cur names done in
      let ca = is_abs-canonical_ancestor cur (ap is_abs at ∙ is_abs-render_root kept) in
      let (rest, below, _) =
        is_in_jail_sound (canonical_jail host jail) (canonical_ancestor host cur)
          (is_abs-canonical_jail host ha jail hj) ca inside in
      let (out_abs, out) = elems-reattach (canonical_ancestor host cur) names ca hn in
      (
        kept,
        names,
        rest,
        whole,
        ex,
        gone,
        ap (λ c. elems (canonical_ancestor host c)) (sym at) ∙ below,
        ap is_abs same ∙ is_abs-clean _ ∙ out_abs,
        ap elems same
            ∙ elems-clean _
            ∙ out
            ∙ ap (λ es. es ++ names) below
            ∙ append_assoc (elems (canonical_jail host jail)) rest names,
      )

  module _ (jail full : Bytes) (v : List Bytes) (hj : is_abs jail ≡ true) (hf : is_abs full ≡ true)
      (cf : clean full ≡ full) (below : elems full ≡ elems jail ++ v)
      (set : is_blank jail ≡ false) where
    walked :
        bytes_eq (clean full) (clean jail) ≡ false
        → Walked host (elems full) (walk_up host (suc (length full)) (dir full) (base full ∷ []))
    walked ne = start (reverse (elems full)) refl
      where
        start :
            (rev : List Bytes)
            → reverse (elems full) ≡ rev
            → Walked host
                (elems full)
                (walk_up host (suc (length full)) (dir full) (base full ∷ []))
        start [] e =
            let none_left = sym (reverse-reverse (elems full)) ∙ ap reverse e in
            let same =
              clean-eq full jail (hf ∙ sym hj)
                (none_left ∙ sym (append-nil_left (elems jail) v (sym below ∙ none_left))) in
            cc (ne, bytes_eq_refl (clean jail), ap (λ c. bytes_eq c (clean jail)) same)
        start (x ∷ rev) e =
            let back = sym (reverse-reverse (elems full)) ∙ ap reverse e in
            let plain =
              subst (All IsPlain) e
                (All-reverse IsPlain (elems full) (elems-All-IsPlain full hf)) in
            walk_from host full rev x (sym cf ∙ clean-render full hf ∙ ap (render true) back) plain

    pub create_in_jail_sound :
        (h : Bytes)
        → create_in_jail host jail full ≡ ok h
        → ((h ≡ full) × (v ≡ [])) ⊎ Created host jail full h
    create_in_jail_sound h done = elim (create_in_jail-eq-ok host jail full set h done) [
      | inl (same, eq) ↦ inl (
        same,
        append_self (elems jail) v (
            sym below
            ∙ sym (elems-clean full)
            ∙ ap elems (bytes_eq_sound (clean full) (clean jail) eq)
            ∙ elems-clean jail),
      )
      | inr (ne, (cur, names), e, rest) ↦ inr (
          attach_in_jail-Created jail full h cur names hj
            (subst (Walked host (elems full)) e (walked ne)) rest)
    ]

    -- For such a path the length of the path is fuel enough: the walk upwards always ends.
    pub create_in_jail-ne-stuck : create_in_jail host jail full ≢ err stuck
    create_in_jail-ne-stuck done =
        let (ne, e) = create_in_jail-stuck host jail full set done in
        cc (subst (Walked host (elems full)) e (walked ne))
