-- ===== src/OsFs/Prefix.antt =====
-- What Glob has looked at before it asks the host: the directory in front of the first meta-character of the pattern
-- (toolkit/filesystem/os_fs.go).
use cli_toolkit.Base.{
  not, if◌then◌else◌, Bool, true, false, [], ◌∷◌, none, some, ◌≡◌, refl, ap, sym, subst, Bytes, ◌⊎◌,
  inl, inr, Bool-cases, Option-cases, is_empty, bytes_eq, ◌||◌, HasPrefix,
}
use cli_toolkit.FilePath.{is_abs, elems, clean, join}
use cli_toolkit.Jail.{root, is_in_jail, remove_jail_prefix}
use cli_toolkit.Jail.Boundary.{is_abs-not_empty, is_in_jail_sound}
use cli_toolkit.OsFs.{
  canonical_jail, lexical, follow_in_jail, resolve_in, resolve_host, get_jail, host_path,
}
use cli_toolkit.OsFs.Base.{
  Host, OsFs, Result, ok, err, escape_attempt, os_error, not_a_directory, stuck, bind_result, ◌>>=◌,
  pure,
}
use cli_toolkit.OsFs.Virtual.{
  IsAbsolute, is_abs-lexical, clean-lexical, elems-host_path, is_abs-canonical_jail,
  resolve_in_outside, resolve_in_inside,
}
use cli_toolkit.OsFs.Confined.{is_abs-not_blank, IsReady, Post, Keeps, resolve_virtual-initialized}
use cli_toolkit.OsFs.Glob.{literal_prefix, only_escape, check_prefix}

-- EvalSymlinks fails on the path, or what it makes of it has the names of the canonical jail in front.
abbrev pub LeadsInside : Host → Bytes → Bytes → Type 0
LeadsInside host jail full =
    (host.eval_symlinks full ≡ none)
    ⊎ (resolved : Bytes) × (host.eval_symlinks full ≡ some resolved)
      × HasPrefix (elems (canonical_jail host jail)) (elems resolved)

-- The directory in front of the pattern is the root or none, or its place below the jail leads into the jail. The
-- working directory counts only where that directory is relative.
abbrev pub PrefixChecked : Host → Bytes → Bytes → Type 0
PrefixChecked host jail pattern =
    ((is_empty (literal_prefix pattern) || bytes_eq (literal_prefix pattern) root) ≡ true)
    ⊎ (wd : Bytes) × (is_abs wd ≡ true)
      × LeadsInside host jail (clean (join (jail ∷ lexical wd (literal_prefix pattern) ∷ [])))

-- The result is no refusal.
abbrev IsLet : Result Bytes → Type 0
IsLet (ok p) = Unit
IsLet (err (escape_attempt p)) = ⊥
IsLet (err os_error) = Unit
IsLet (err not_a_directory) = Unit
IsLet (err stuck) = Unit

module _ (host : Host) (ha : IsAbsolute host) (jail : Bytes) (hj : is_abs jail ≡ true) where
  follow_in_jail_refused :
      (full resolved : Bytes)
      → host.eval_symlinks full ≡ some resolved
      → is_in_jail (canonical_jail host jail) resolved ≡ false
      → follow_in_jail host jail full ≡ err (escape_attempt resolved)
  unfolding follow_in_jail
  follow_in_jail_refused full resolved e outside =
      rw (e, follow_in_jail)
        (ap
          (λ b.
            if not b
            then err (escape_attempt resolved)
            else ok (clean (remove_jail_prefix (canonical_jail host jail) resolved)))
          outside)

  follow_in_jail-LeadsInside :
      (full : Bytes)
      → is_abs full ≡ true
      → IsLet (follow_in_jail host jail full)
      → LeadsInside host jail full
  follow_in_jail-LeadsInside full hf = elim (Option-cases (host.eval_symlinks full)) [
    | inl e ↦ λ h. inl e
    | inr (resolved, e) ↦ elim (Bool-cases (is_in_jail (canonical_jail host jail) resolved)) [
      | inl inside ↦ λ h.
          let (rest, below, _) =
            is_in_jail_sound (canonical_jail host jail) resolved
              (is_abs-canonical_jail host ha jail hj) (ha.eval_abs full resolved hf e) inside in
          inr (resolved, e, (rest, below))
      | inr outside ↦ λ h. absurd (subst IsLet (follow_in_jail_refused full resolved e outside) h)
    ]
  ]

  resolve_in-LeadsInside :
      (wd path : Bytes)
      → is_abs wd ≡ true
      → IsLet (resolve_in host jail wd path true)
      → LeadsInside host jail (clean (join (jail ∷ lexical wd path ∷ [])))
  resolve_in-LeadsInside wd path hw =
      let full = clean (join (jail ∷ lexical wd path ∷ [])) in
      let set = is_abs-not_empty jail hj in
      elim (Bool-cases (is_in_jail jail full)) [
        | inl inside ↦ rw (resolve_in_inside host jail wd path set inside) (
            follow_in_jail-LeadsInside full
              (elems-host_path jail (lexical wd path) hj (is_abs-lexical wd path (inr hw))
                (clean-lexical wd path)).0)
        | inr outside ↦ rw (resolve_in_outside host jail wd path true set outside) (λ h. absurd h)
      ]

  -- The resolved directory is thrown away; of the errors only a refusal is passed on.
  prefix_checked :
      (pattern : Bytes) (fs : OsFs) (r : Result Bytes)
      → IsReady jail fs
      → (IsLet r → PrefixChecked host jail pattern)
      → Post jail
          (λ _. PrefixChecked host jail pattern)
          (only_escape (bind_result (fs, r) (λ v. get_jail >>= (λ j. pure (host_path j v)))))
  unfolding only_escape get_jail
  prefix_checked pattern fs (ok v) ready h = (ready, h tt)
  prefix_checked pattern fs (err (escape_attempt p)) ready h = ready
  prefix_checked pattern fs (err os_error) ready h = (ready, h tt)
  prefix_checked pattern fs (err not_a_directory) ready h = (ready, h tt)
  prefix_checked pattern fs (err stuck) ready h = (ready, h tt)

  only_escape-PrefixChecked :
      (pattern : Bytes) (fs : OsFs)
      → IsReady jail fs
      → Post jail
          (λ _. PrefixChecked host jail pattern)
          (only_escape (resolve_host host (literal_prefix pattern) true fs))
  unfolding resolve_host
  only_escape-PrefixChecked pattern fs ready =
      let q = literal_prefix pattern in
      let (wd, hw, e) = resolve_virtual-initialized host ha jail hj q true fs ready in
      subst
        (λ o.
          Post jail (λ _. PrefixChecked host jail pattern)
            (only_escape (bind_result o (λ v. get_jail >>= (λ j. pure (host_path j v))))))
        (sym e)
        (prefix_checked pattern (record fs { wd = wd }) (resolve_in host fs.jail wd q true)
          (ready.0, inr hw)
          (λ h. inr (
            wd,
            hw,
            resolve_in-LeadsInside wd q hw
                (subst (λ j. IsLet (resolve_in host j wd q true)) ready.0 h),
          )))

  pub check_prefix-PrefixChecked :
      (pattern : Bytes)
      → Keeps jail (λ _. PrefixChecked host jail pattern) (check_prefix host jail pattern)
  unfolding check_prefix
  check_prefix-PrefixChecked pattern fs r =
      rw (is_abs-not_blank jail hj)
        (on_test (is_empty (literal_prefix pattern) || bytes_eq (literal_prefix pattern) root) refl)
    where
      on_test :
          (b : Bool)
          → (is_empty (literal_prefix pattern) || bytes_eq (literal_prefix pattern) root) ≡ b
          → Post jail
              (λ _. PrefixChecked host jail pattern)
              ((if b then pure tt else λ fs.
                  only_escape (resolve_host host (literal_prefix pattern) true fs))
                fs)
      on_test true e = (r, inl e)
      on_test false e = only_escape-PrefixChecked pattern fs r
