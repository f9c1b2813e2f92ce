-- ===== src/OsFs/Start.antt =====
-- NewOsFS: the file system that a program starts with (toolkit/filesystem/os_fs.go).
use cli_toolkit.Base.{
  true, false, [], ◌∷◌, ◌≡◌, refl, ap, ◌∙◌, Bytes, if◌then◌else◌, Bool, Bool-cases, inl, inr,
  is_empty, is_blank, trim_space,
}
use cli_toolkit.FilePath.{is_abs, elems, clean, join}
use cli_toolkit.FilePath.Clean.{is_abs-clean}
use cli_toolkit.Jail.{root}
use cli_toolkit.Jail.Boundary.{is_abs-root, starts_dotdot}
use cli_toolkit.OsFs.{set_jail, get_jail, lexical, ensure_initialized, resolve_virtual, resolve_in}
use cli_toolkit.OsFs.Base.{Host, OsFs, escape_attempt, Result, ok, err}
use cli_toolkit.OsFs.Methods.{initial_wd, start_in, new_os_fs}
use cli_toolkit.OsFs.Virtual.{resolve_in-lexical}
use cli_toolkit.OsFs.Confined.{is_abs-not_blank}

abbrev started : Bytes → Bytes → Bool → Result OsFs
started jail w refused =
    if refused
    then err (escape_attempt (clean (join (jail ∷ lexical root w ∷ []))))
    else ok (record { jail = jail; wd = lexical root w })

-- The file system that starts at `w`, or the refusal of it.
abbrev pub start_of : Bytes → Bytes → Result OsFs
start_of jail w = started jail w (starts_dotdot (elems (lexical root w)))

abbrev entered : Bytes → Result Bytes → Result OsFs
entered jail (err e) = err e
entered jail (ok v) = ok (record { jail = jail; wd = v })

module _ (host : Host) (j : Bytes) (hj : is_abs j ≡ true) where
  start_in-resolve_in :
      (w : Bytes) (r : Result Bytes)
      → resolve_in host j root w false ≡ r
      → (start_in host (ok w) (record { jail = j; wd = [] })).1 ≡ entered j r
  unfolding start_in resolve_virtual ensure_initialized is_blank
  start_in-resolve_in w (ok v) e = rw (is_abs-not_blank j hj, e)
  start_in-resolve_in w (err x) e = rw (is_abs-not_blank j hj, e)

  start_in_lem :
      (w : Bytes) → (start_in host (ok w) (record { jail = j; wd = [] })).1 ≡ start_of j w
  start_in_lem w =
      start_in-resolve_in w _ (resolve_in-lexical host j root w hj (inr is_abs-root))
      ∙ branches (starts_dotdot (elems (lexical root w)))
    where
      branches :
          (b : Bool)
          → entered j (
              if b
              then err (escape_attempt (clean (join (j ∷ lexical root w ∷ []))))
              else ok (lexical root w))
            ≡ started j w b
      branches true = refl
      branches false = refl

  initial_wd-jailed :
      (wd : Bytes)
      → initial_wd host j wd ≡ ok (if is_empty (trim_space wd) then root else trim_space wd)
  unfolding initial_wd
  initial_wd-jailed wd = elim (Bool-cases (is_empty (trim_space wd))) [
    | inl e ↦ rw (e, is_abs-not_blank j hj)
    | inr e ↦ rw e
  ]

-- With an absolute jail NewOsFS needs nothing of the host: it starts in the jail, cleaned, at the
-- directory given with the white space around it cut off, or at the root where that is empty, taken from
-- the root and cleaned; it is refused just where the first name of that directory begins with two dots.
pub new_os_fs_lem :
    (host : Host) (jail_path wd : Bytes)
    → is_abs jail_path ≡ true
    → (new_os_fs host jail_path wd).1
      ≡ start_of (clean jail_path) (if is_empty (trim_space wd) then root else trim_space wd)
new_os_fs_lem host jail_path wd h =
    let hj = is_abs-clean jail_path ∙ h in
    start_at
    ∙ ap (λ r. (start_in host r (record { jail = clean jail_path; wd = [] })).1)
        (initial_wd-jailed host (clean jail_path) hj wd)
    ∙ start_in_lem host (clean jail_path) hj
        (if is_empty (trim_space wd) then root else trim_space wd)
  where
    start_at :
        (new_os_fs host jail_path wd).1
        ≡ (start_in host
            (initial_wd host (clean jail_path) wd)
            (record { jail = clean jail_path; wd = [] })).1
    start_at = unfold new_os_fs set_jail get_jail in rw (is_abs-not_blank jail_path h)
