-- ===== src/OsFs/Virtual.antt =====
-- resolveVirtual: which paths it refuses, and what it returns, with links followed and without.
use cli_toolkit.Base.{
  Bool, true, false, not, List, [], ◌∷◌, ◌++◌, some, ◌≡◌, refl, sym, ap, ◌∙◌, arith, Bytes,
  if◌then◌else◌, ◌⊎◌, inl, inr, Bool-cases, Option-cases, is_empty,
}
use cli_toolkit.FilePath.{is_abs, elems, clean, join, strip_common}
use cli_toolkit.FilePath.Clean.{elems-clean, is_abs-clean, clean-clean}
use cli_toolkit.FilePath.Join.{elems-join-clean, is_abs-join}
use cli_toolkit.FilePath.Rel.{strip_common-append}
use cli_toolkit.Jail.{root, remove_jail_prefix, is_in_jail}
use cli_toolkit.Jail.Boundary.{
  starts_dotdot, is_abs-not_empty, is_abs-root, is_in_jail_sound, is_in_jail_complete,
}
use cli_toolkit.Jail.Prefix.{elems-remove_jail_prefix}
use cli_toolkit.OsFs.{canonical_jail, lexical, follow_in_jail, resolve_in}
use cli_toolkit.OsFs.Base.{Host, escape_attempt, ok, err}

-- os.Getwd and filepath.EvalSymlinks, of an absolute path, return absolute paths.
pub record IsAbsolute (host : Host) : Type 0 where
  pub getwd_abs : (cwd : Bytes) → host.getwd ≡ some cwd → is_abs cwd ≡ true
  pub eval_abs : (p q : Bytes) → is_abs p ≡ true → host.eval_symlinks p ≡ some q → is_abs q ≡ true

-- A working directory: none yet, or an absolute one.
abbrev pub IsWd : Bytes → Type 0
IsWd wd = (is_empty wd ≡ true) ⊎ (is_abs wd ≡ true)

is_abs-here : (wd : Bytes) → IsWd wd → is_abs (if is_empty wd then root else wd) ≡ true
is_abs-here [] h = is_abs-root
is_abs-here (c ∷ wd) (inl h) = cc
is_abs-here (c ∷ wd) (inr h) = h

is_abs-chosen :
    (here wanted : Bytes)
    → is_abs here ≡ true
    → is_abs (clean (if is_abs wanted then wanted else join (here ∷ wanted ∷ []))) ≡ true
is_abs-chosen here wanted h = elim (Bool-cases (is_abs wanted)) [
  | inl e ↦ rw (is_abs-clean _, e) e
  | inr e ↦ rw (is_abs-clean _, e) (is_abs-join here wanted (is_abs-not_empty here h) ∙ h)
]

-- Whatever text it is given, the resolver works on an absolute clean path.
pub is_abs-lexical : (wd path : Bytes) → IsWd wd → is_abs (lexical wd path) ≡ true
unfolding lexical
is_abs-lexical wd path h = is_abs-chosen _ _ (is_abs-here wd h)

pub clean-lexical : (wd path : Bytes) → clean (lexical wd path) ≡ lexical wd path
unfolding lexical
clean-lexical wd path = clean-clean _

module _ (jail v : Bytes) (hj : is_abs jail ≡ true) (hv : is_abs v ≡ true) (cv : clean v ≡ v) where
  -- The host's path has the jail's names, then those of the virtual path.
  pub elems-host_path :
      (is_abs (clean (join (jail ∷ v ∷ []))) ≡ true)
      × (elems (clean (join (jail ∷ v ∷ []))) ≡ elems jail ++ elems v)
  elems-host_path =
      let full = is_abs-not_empty jail hj in
      (
        is_abs-clean _ ∙ is_abs-join jail v full ∙ hj,
        elems-clean _
            ∙ ap (λ x. elems (join (jail ∷ x ∷ []))) (sym cv)
            ∙ elems-join-clean jail v full hv,
      )

  is_in_jail-host_path :
      is_in_jail jail (clean (join (jail ∷ v ∷ []))) ≡ not (starts_dotdot (elems v))
  is_in_jail-host_path =
      is_in_jail_complete jail (clean (join (jail ∷ v ∷ []))) hj elems-host_path.0 (elems v)
        elems-host_path.1

-- In an absolute jail, with a working directory that is empty or absolute and without following links,
-- just one kind of path is refused: one whose lexical form has a first name that begins with two dots.
-- Every other path comes to its lexical form.
pub resolve_in-lexical :
    (host : Host) (jail wd path : Bytes)
    → is_abs jail ≡ true
    → IsWd wd
    → resolve_in host jail wd path false ≡ (
        if starts_dotdot (elems (lexical wd path))
        then err (escape_attempt (clean (join (jail ∷ lexical wd path ∷ []))))
        else ok (lexical wd path))
unfolding resolve_in
resolve_in-lexical host jail wd path hj hw =
    rw
      (
        is_abs-not_empty jail hj,
        is_in_jail-host_path jail (lexical wd path) hj (is_abs-lexical wd path hw)
            (clean-lexical wd path),
      )
      (unify (starts_dotdot (elems (lexical wd path))))
  where
    unify :
        (b : Bool)
        → (if not (not b)
            then err (escape_attempt (clean (join (jail ∷ lexical wd path ∷ []))))
            else ok (lexical wd path))
          ≡ (if b
              then err (escape_attempt (clean (join (jail ∷ lexical wd path ∷ []))))
              else ok (lexical wd path))
    unify true = refl
    unify false = refl

follow_in_jail-eq-ok :
    (host : Host) (jail full v : Bytes)
    → follow_in_jail host jail full ≡ ok v
    → (resolved : Bytes) × (host.eval_symlinks full ≡ some resolved)
      × (is_in_jail (canonical_jail host jail) resolved ≡ true)
      × (v ≡ clean (remove_jail_prefix (canonical_jail host jail) resolved))
unfolding follow_in_jail
follow_in_jail-eq-ok host jail full v h = elim (Option-cases (host.eval_symlinks full)) [
  | inl e ↦ absurd (ground arith)
  | inr (resolved, e) ↦ (resolved, e, ground arith, ground arith)
]

pub resolve_in_outside :
    (host : Host) (jail wd path : Bytes) (follow : Bool)
    → is_empty jail ≡ false
    → is_in_jail jail (clean (join (jail ∷ lexical wd path ∷ []))) ≡ false
    → resolve_in host jail wd path follow
      ≡ err (escape_attempt (clean (join (jail ∷ lexical wd path ∷ []))))
resolve_in_outside host jail wd path follow hj e = unfold resolve_in in rw (hj, e)

pub resolve_in_inside :
    (host : Host) (jail wd path : Bytes)
    → is_empty jail ≡ false
    → is_in_jail jail (clean (join (jail ∷ lexical wd path ∷ []))) ≡ true
    → resolve_in host jail wd path true
      ≡ follow_in_jail host jail (clean (join (jail ∷ lexical wd path ∷ [])))
resolve_in_inside host jail wd path hj e = unfold resolve_in in rw (hj, e)

resolve_in-follow :
    (host : Host) (jail wd path v : Bytes)
    → is_empty jail ≡ false
    → resolve_in host jail wd path true ≡ ok v
    → follow_in_jail host jail (clean (join (jail ∷ lexical wd path ∷ []))) ≡ ok v
resolve_in-follow host jail wd path v hj h =
    elim (Bool-cases (is_in_jail jail (clean (join (jail ∷ lexical wd path ∷ []))))) [
      | inl e ↦ sym (resolve_in_inside host jail wd path hj e) ∙ h
      | inr e ↦ absurd (cc (sym (resolve_in_outside host jail wd path true hj e) ∙ h))
    ]

strip_common-rest : (xs ys rest : List Bytes) → ys ≡ xs ++ rest → (strip_common xs ys).1 ≡ rest
strip_common-rest xs ys rest e =
    ap (λ zs. (strip_common xs zs).1) e ∙ ap (λ s. s.1) (strip_common-append xs rest)

-- What a followed path comes to: the host's canonical path, inside the canonical jail, with the
-- jail's names taken off.
abbrev pub Followed : Host → Bytes → Bytes → Bytes → Type 0
Followed host jail full v =
    (resolved : Bytes) × (host.eval_symlinks full ≡ some resolved)
    × (is_abs v ≡ true)
    × (clean v ≡ v)
    × (elems resolved ≡ elems (canonical_jail host jail) ++ elems v)

module _ (host : Host) (ha : IsAbsolute host) where
  pub is_abs-canonical_jail :
      (jail : Bytes) → is_abs jail ≡ true → is_abs (canonical_jail host jail) ≡ true
  unfolding canonical_jail
  is_abs-canonical_jail jail hj = elim (Option-cases (host.eval_symlinks jail)) [
    | inl e ↦ rw (e, canonical_jail) hj
    | inr (q, e) ↦ rw (e, canonical_jail) (ha.eval_abs jail q hj e)
  ]

  pub follow_in_jail_sound :
      (jail full v : Bytes)
      → is_abs jail ≡ true
      → is_abs full ≡ true
      → follow_in_jail host jail full ≡ ok v
      → Followed host jail full v
  unfolding follow_in_jail
  follow_in_jail_sound jail full v hj hf h =
      let (resolved, e, inside, same) = follow_in_jail-eq-ok host jail full v h in
      let cj = is_abs-canonical_jail jail hj in
      let rj = ha.eval_abs full resolved hf e in
      let (rest, below, _) = is_in_jail_sound (canonical_jail host jail) resolved cj rj inside in
      let (back_abs, back) = elems-remove_jail_prefix (canonical_jail host jail) resolved cj rj in
      let stripped =
        strip_common-rest (elems (canonical_jail host jail)) (elems resolved) rest below in
      (
        resolved,
        e,
        ap is_abs same ∙ is_abs-clean _ ∙ back_abs,
        ap clean same ∙ clean-clean _ ∙ sym same,
        below
            ∙ ap (λ es. elems (canonical_jail host jail) ++ es)
                (sym (ap elems same ∙ elems-clean _ ∙ back ∙ stripped)),
      )

  -- Where a path is followed in an absolute jail with success, the path that the host gives for it lies
  -- in the canonical jail, and what is returned is that path as seen from the jail, absolute and clean.
  pub resolve_in-Followed :
      (jail wd path v : Bytes)
      → is_abs jail ≡ true
      → IsWd wd
      → resolve_in host jail wd path true ≡ ok v
      → Followed host jail (clean (join (jail ∷ lexical wd path ∷ []))) v
  resolve_in-Followed jail wd path v hj hw h =
      let places =
        elems-host_path jail (lexical wd path) hj (is_abs-lexical wd path hw)
          (clean-lexical wd path) in
      follow_in_jail_sound jail (clean (join (jail ∷ lexical wd path ∷ []))) v hj places.0
        (resolve_in-follow host jail wd path v (is_abs-not_empty jail hj) h)
