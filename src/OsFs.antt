-- ===== src/OsFs.antt =====
-- toolkit/filesystem/os_fs.go: the state of `OsFS` and its path resolution. What the host's
-- operating system answers is the parameter `Host`; the mutex is dropped, since each method is one step.
mod Tests
pub mod Base
pub mod Calls
pub mod Methods
pub mod Virtual
pub mod Walk
pub mod Create
pub mod Confined
pub mod Checked
pub mod Escape
pub mod Start
pub mod Glob
pub mod Prefix
pub mod Matches
use cli_toolkit.Base.{
  ℕ, zero, suc, Bool, true, false, not, ◌||◌, List, [], ◌∷◌, Option, none, some, Bytes,
  if◌then◌else◌, is_empty, is_blank, bytes_eq, length,
}
use cli_toolkit.FilePath.{dot, is_abs, clean, join, dir, base}
use cli_toolkit.Jail.{root, remove_jail_prefix, is_in_jail}
use Base.{
  Lstat, found, missing, failed, is_symlink, Host, OsFs, Error, escape_attempt, os_error,
  not_a_directory, stuck, Result, ok, err, M, ◌>>=◌, ◌>>◌, pure, throw, gets,
}

unfoldable pub get_jail : M Bytes
get_jail = gets (λ fs. fs.jail)

-- OsFS.SetJail
unfoldable pub set_jail : Bytes → M (Unit {0})
set_jail jail_path fs =
    (record fs { jail = if is_blank jail_path then [] else clean jail_path }, ok tt)

-- The path that resolveVirtual works on, absolute and clean.
unfoldable pub lexical : Bytes → Bytes → Bytes
lexical wd path =
    let here = if is_empty wd then root else wd in
    let wanted = if is_blank path || bytes_eq path dot then here else path in
    clean (if is_abs wanted then wanted else join (here ∷ wanted ∷ []))

-- OsFS.hostPath
unfoldable pub host_path : Bytes → Bytes → Bytes
host_path jail path = if is_empty jail then clean path else clean (join (jail ∷ path ∷ []))

-- The loop that puts the missing names back.
unfoldable pub reattach : Bytes → List Bytes → Bytes
reattach out [] = out
reattach out (seg ∷ segs) = reattach (join (out ∷ seg ∷ [])) segs

module _ (host : Host) where
  open host use {getwd as os_getwd, lstat, stat, eval_symlinks}

  -- ensureInitializedLocked: a working directory that was never set is found on first use.
  unfoldable pub ensure_initialized : M (Unit {0})
  ensure_initialized fs =
      if not (is_blank fs.wd)
      then (fs, ok tt)
      else if not (is_blank fs.jail)
      then (record fs { wd = root }, ok tt)
      else elim os_getwd [
        | none ↦ (fs, err os_error)
        | some cwd ↦ (record fs { wd = clean cwd }, ok tt)
      ]

  -- The jail as the host spells it, or as it was given where the host cannot tell.
  unfoldable pub canonical_jail : Bytes → Bytes
  canonical_jail jail = elim (eval_symlinks jail) [ none ↦ jail | some evaled ↦ evaled ]

  -- The end of resolveVirtual with a jail, where links are followed.
  unfoldable pub follow_in_jail : Bytes → Bytes → Result Bytes
  follow_in_jail jail host_path = elim (eval_symlinks host_path) [
    | none ↦ err os_error
    | some resolved ↦
        let canonical = canonical_jail jail in
        if not (is_in_jail canonical resolved)
        then err (escape_attempt resolved)
        else ok (clean (remove_jail_prefix canonical resolved))
  ]

  unfoldable pub follow_free : Bytes → Result Bytes
  follow_free virtual = elim (eval_symlinks virtual) [
    | none ↦ err os_error
    | some resolved ↦ ok (clean resolved)
  ]

  -- resolveVirtual, behind its initialisation.
  unfoldable pub resolve_in : Bytes → Bytes → Bytes → Bool → Result Bytes
  resolve_in jail wd path follow =
      let virtual = lexical wd path in
      let host_path = clean (join (jail ∷ virtual ∷ [])) in
      if is_empty jail
      then (if not follow then ok virtual else follow_free virtual)
      else if not (is_in_jail jail host_path)
      then err (escape_attempt host_path)
      else if not follow
      then ok virtual
      else follow_in_jail jail host_path

  -- OsFS.resolveVirtual, which is also OsFS.ResolvePath
  unfoldable pub resolve_virtual : Bytes → Bool → M Bytes
  resolve_virtual path follow = do
    ensure_initialized
    λ fs. (fs, resolve_in fs.jail fs.wd path follow)

  -- OsFS.resolveHost
  unfoldable pub resolve_host : Bytes → Bool → M Bytes
  resolve_host path follow = do
    resolved ← resolve_virtual path follow
    jail ← get_jail
    pure (host_path jail resolved)

  -- The walk of resolveHostForCreate to the nearest ancestor that exists, with the names below it.
  unfoldable pub walk_up : ℕ → Bytes → List Bytes → Result (Bytes × List Bytes)
  walk_up zero cur names = err stuck
  walk_up (suc fuel) cur names = elim (lstat cur) [
    | found k ↦ ok (cur, names)
    | failed ↦ err os_error
    | missing ↦ elim (bytes_eq (dir cur) cur) [
      | true ↦ ok (cur, names)
      | false ↦ walk_up fuel (dir cur) (base cur ∷ names)
    ]
  ]

  unfoldable pub canonical_ancestor : Bytes → Bytes
  canonical_ancestor cur = elim (eval_symlinks cur) [ none ↦ cur | some evaled ↦ evaled ]

  -- The end of resolveHostForCreate, from the ancestor that was found.
  unfoldable pub attach_in_jail : Bytes → Bytes × List Bytes → Result Bytes
  attach_in_jail jail (cur, names) =
      let ancestor = canonical_ancestor cur in
      if not (is_in_jail (canonical_jail jail) ancestor)
      then err (escape_attempt ancestor)
      else ok (clean (reattach ancestor names))

  -- Each round of the walk takes a name off, so the length of the path is fuel enough.
  unfoldable pub create_in_jail : Bytes → Bytes → Result Bytes
  create_in_jail jail full =
      if is_blank jail
      then ok full
      else if bytes_eq (clean full) (clean jail)
      then ok full
      else elim (walk_up (suc (length full)) (dir full) (base full ∷ [])) [
        | err e ↦ err e
        | ok there ↦ attach_in_jail jail there
      ]

  -- OsFS.resolveHostForCreate
  unfoldable pub resolve_host_for_create : Bytes → M Bytes
  resolve_host_for_create path = do
    resolved ← resolve_virtual path false
    jail ← get_jail
    λ fs. (fs, create_in_jail jail (host_path jail resolved))

  -- The end of resolveHostForOpen, where the last name is a link that the call would follow.
  unfoldable pub open_link : Bytes → Bytes → Result Bytes
  open_link jail full = elim (eval_symlinks full) [
    | none ↦ err os_error
    | some resolved ↦
        if not (is_in_jail (canonical_jail jail) resolved)
        then err (escape_attempt resolved)
        else ok resolved
  ]

  unfoldable pub open_in_jail : Bytes → Bytes → Result Bytes
  open_in_jail jail full = if is_blank jail then ok full else elim (lstat full) [
    | missing ↦ ok full
    | failed ↦ ok full
    | found k ↦ if not (is_symlink k) then ok full else open_link jail full
  ]

  -- OsFS.resolveHostForOpen
  unfoldable pub resolve_host_for_open : Bytes → M Bytes
  resolve_host_for_open path = do
    full ← resolve_host_for_create path
    jail ← get_jail
    λ fs. (fs, open_in_jail jail full)
