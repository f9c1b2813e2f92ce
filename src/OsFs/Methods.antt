-- ===== src/OsFs/Methods.antt =====
-- The methods of `OsFS` that act on files: each resolves its paths and makes one call of the host,
-- which is returned here as a value (toolkit/filesystem/os_fs.go).
use cli_toolkit.Base.{
  ℕ, Bool, true, false, not, [], some, none, Bytes, if◌then◌else◌, is_empty, is_blank, trim_space,
}
use cli_toolkit.FilePath.{rel}
use cli_toolkit.Jail.{root}
use cli_toolkit.OsFs.{
  get_jail, set_jail, host_path, ensure_initialized, resolve_virtual, resolve_host,
  resolve_host_for_create, resolve_host_for_open,
}
use cli_toolkit.OsFs.Base.{
  Lstat, found, missing, failed, Host, is_dir, OsFs, os_error, not_a_directory, Result, ok, err, M,
  ◌>>=◌, ◌>>◌, pure, gets,
}
use cli_toolkit.OsFs.Calls.{
  Call, os_read_file, os_write_file, os_mkdir, os_mkdir_all, os_remove, os_remove_all, os_rename,
  os_stat, os_lstat, os_read_dir, os_symlink, os_append_file, os_open_file, os_chmod, os_chown,
  os_lchown, os_chtimes, os_atomic_write,
}

-- The methods, with their arguments; the last argument of `Mkdir` and `Remove` is `all`, of `Stat`
-- `followSymlinks`.
pub data Method : Type 0 where
  do_read_file : Bytes → Method
  do_write_file : Bytes → Bytes → ℕ → Method
  do_mkdir : Bytes → ℕ → Bool → Method
  do_remove : Bytes → Bool → Method
  do_rename : Bytes → Bytes → Method
  do_stat : Bytes → Bool → Method
  do_read_dir : Bytes → Method
  do_symlink : Bytes → Bytes → Method
  do_append_file : Bytes → Bytes → ℕ → Method
  do_open_file : Bytes → ℕ → ℕ → Method
  do_chmod : Bytes → ℕ → Method
  do_chown : Bytes → ℕ → ℕ → Method
  do_lchown : Bytes → ℕ → ℕ → Method
  do_chtimes : Bytes → ℕ → ℕ → Method
  do_atomic_write : Bytes → Bytes → ℕ → Method

module _ (host : Host) where
  abbrev pub read_file : Bytes → M Call
  read_file p = do h ← resolve_host host p true; pure (os_read_file h)

  abbrev pub write_file : Bytes → Bytes → ℕ → M Call
  write_file p bytes perm = do h ← resolve_host_for_open host p; pure (os_write_file h bytes perm)

  abbrev pub mkdir : Bytes → ℕ → Bool → M Call
  mkdir p perm true = do h ← resolve_host_for_create host p; pure (os_mkdir_all h perm)
  mkdir p perm false = do h ← resolve_host_for_create host p; pure (os_mkdir h perm)

  abbrev pub remove : Bytes → Bool → M Call
  remove p true = do h ← resolve_host_for_create host p; pure (os_remove_all h)
  remove p false = do h ← resolve_host_for_create host p; pure (os_remove h)

  abbrev pub rename : Bytes → Bytes → M Call
  rename src dst = do
    src_host ← resolve_host_for_create host src
    dst_host ← resolve_host_for_create host dst
    pure (os_rename src_host dst_host)

  -- OsFS.Stat
  abbrev pub stat_at : Bytes → Bool → M Call
  stat_at p true = do h ← resolve_host host p true; pure (os_stat h)
  stat_at p false = do h ← resolve_host_for_create host p; pure (os_lstat h)

  abbrev pub read_dir : Bytes → M Call
  read_dir p = do h ← resolve_host host p true; pure (os_read_dir h)

  -- OsFS.Symlink
  abbrev pub symlink_at : Bytes → Bytes → M Call
  symlink_at old_name new_name = do
    old_host ← resolve_host host old_name false
    new_host ← resolve_host_for_create host new_name
    pure (os_symlink old_host new_host)

  abbrev pub append_file : Bytes → Bytes → ℕ → M Call
  append_file p bytes perm = do h ← resolve_host_for_open host p; pure (os_append_file h bytes perm)

  abbrev pub open_file : Bytes → ℕ → ℕ → M Call
  open_file p flag perm = do h ← resolve_host_for_open host p; pure (os_open_file h flag perm)

  abbrev pub chmod : Bytes → ℕ → M Call
  chmod p mode = do h ← resolve_host host p true; pure (os_chmod h mode)

  abbrev pub chown : Bytes → ℕ → ℕ → M Call
  chown p uid gid = do h ← resolve_host host p true; pure (os_chown h uid gid)

  abbrev pub lchown : Bytes → ℕ → ℕ → M Call
  lchown p uid gid = do h ← resolve_host_for_create host p; pure (os_lchown h uid gid)

  abbrev pub chtimes : Bytes → ℕ → ℕ → M Call
  chtimes p atime mtime = do h ← resolve_host host p true; pure (os_chtimes h atime mtime)

  abbrev pub atomic_write_file : Bytes → Bytes → ℕ → M Call
  atomic_write_file p bytes perm = do
    h ← resolve_host_for_open host p
    pure (os_atomic_write h bytes perm)

  unfoldable pub perform : Method → M Call
  perform (do_read_file p) = read_file p
  perform (do_write_file p bytes perm) = write_file p bytes perm
  perform (do_mkdir p perm all) = mkdir p perm all
  perform (do_remove p all) = remove p all
  perform (do_rename src dst) = rename src dst
  perform (do_stat p follow) = stat_at p follow
  perform (do_read_dir p) = read_dir p
  perform (do_symlink old_name new_name) = symlink_at old_name new_name
  perform (do_append_file p bytes perm) = append_file p bytes perm
  perform (do_open_file p flag perm) = open_file p flag perm
  perform (do_chmod p mode) = chmod p mode
  perform (do_chown p uid gid) = chown p uid gid
  perform (do_lchown p uid gid) = lchown p uid gid
  perform (do_chtimes p atime mtime) = chtimes p atime mtime
  perform (do_atomic_write p bytes perm) = atomic_write_file p bytes perm

  -- The end of Setwd: a directory, or a path that does not exist yet, becomes the working directory.
  unfoldable pub enter : Bytes → Lstat → M (Unit {0})
  enter resolved failed fs = (fs, err os_error)
  enter resolved missing fs = (record fs { wd = resolved }, ok tt)
  enter resolved (found k) fs = elim (is_dir k) [
    | true ↦ (record fs { wd = resolved }, ok tt)
    | false ↦ (fs, err not_a_directory)
  ]

  -- OsFS.Setwd
  unfoldable pub setwd : Bytes → M (Unit {0})
  setwd path = do
    resolved ← resolve_virtual host path false
    jail ← get_jail
    enter resolved (host.stat (host_path jail resolved))

  -- OsFS.Getwd
  unfoldable pub getwd : M Bytes
  getwd = do ensure_initialized host; gets (λ fs. fs.wd)

  -- OsFS.Rel
  unfoldable pub rel_between : Bytes → Bytes → M Bytes
  rel_between base_path target_path = do
    base_resolved ← resolve_virtual host base_path false
    target_resolved ← resolve_virtual host target_path false
    λ fs. (fs, elim (rel base_resolved target_resolved) [ none ↦ err os_error | some r ↦ ok r ])

  -- The working directory that NewOsFS starts from, with the jail already set.
  unfoldable pub initial_wd : Bytes → Bytes → Result Bytes
  initial_wd jail wd =
      let given = trim_space wd in
      if not (is_empty given)
      then ok given
      else if not (is_blank jail)
      then ok root
      else elim host.getwd [ none ↦ err os_error | some cwd ↦ ok cwd ]

  unfoldable pub start_in : Result Bytes → M OsFs
  start_in (err e) fs = (fs, err e)
  start_in (ok wd) fs =
      (do
        resolved ← resolve_virtual host wd false
        λ s. (record s { wd = resolved }, ok (record s { wd = resolved })))
        fs

  -- NewOsFS, from the zero value of the struct.
  unfoldable pub new_os_fs : Bytes → Bytes → OsFs × Result OsFs
  unfolding set_jail get_jail
  new_os_fs jail_path wd =
      (do set_jail jail_path; jail ← get_jail; start_in (initial_wd jail wd))
        (record { jail = []; wd = [] })
