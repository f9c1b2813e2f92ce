-- ===== src/OsFs/Checked.antt =====
-- Which checks a path has passed that OsFS hands the host, by the call that it is for (toolkit/filesystem/os_fs.go).
use cli_toolkit.Base.{Bytes, ◌++◌, List, some, ◌≡◌, ◌≢◌, ◌⊎◌, HasPrefix, All}
use cli_toolkit.FilePath.{elems}
use cli_toolkit.OsFs.{canonical_jail}
use cli_toolkit.OsFs.Base.{Host, found, symlink}
use cli_toolkit.OsFs.Calls.{
  Call, os_read_file, os_write_file, os_mkdir, os_mkdir_all, os_remove, os_remove_all, os_rename,
  os_stat, os_lstat, os_read_dir, os_symlink, os_append_file, os_open_file, os_chmod, os_chown,
  os_lchown, os_chtimes, os_atomic_write, targets,
}
use cli_toolkit.OsFs.Confined.{Inside}
use cli_toolkit.OsFs.Create.{Created}

module _ (host : Host) (jail : Bytes) where
  -- A path of which EvalSymlinks has followed every link: what a path below the jail leads to lies in the canonical
  -- jail, and this path has the names of that, behind those of the jail.
  abbrev pub Linkless : Bytes → Type 0
  Linkless h =
      (full : Bytes) × (resolved : Bytes) × (rest : List Bytes) × HasPrefix (elems jail)
        (elems full)
      × (host.eval_symlinks full ≡ some resolved)
      × (elems resolved ≡ elems (canonical_jail host jail) ++ rest)
      × (elems h ≡ elems jail ++ rest)

  -- The jail itself, or a path of which the directories above it have been followed, into the canonical jail.
  abbrev pub Attached : Bytes → Type 0
  Attached h =
      (full : Bytes) × HasPrefix (elems jail) (elems full)
      × (((h ≡ full) × (elems full ≡ elems jail)) ⊎ Created host jail full h)

  -- Such a path that is no link; or where such a path is a link, what it leads to, in the canonical jail.
  abbrev pub Opened : Bytes → Type 0
  Opened h =
      (made : Bytes) × Attached made
      × (((host.lstat made ≢ found symlink) × (h ≡ made))
          ⊎ ((host.lstat made ≡ found symlink)
              × (host.eval_symlinks made ≡ some h)
              × HasPrefix (elems (canonical_jail host jail)) (elems h)))

  -- A call that follows the last name of its path is given a path without links, or one whose last name has been
  -- looked at; the others are given a path whose directories have been looked at. Only the old name of a link
  -- is not looked at.
  abbrev pub Checked : Call → Type 0
  Checked (os_read_file h) = Linkless h
  Checked (os_write_file h bytes perm) = Opened h
  Checked (os_mkdir h perm) = Attached h
  Checked (os_mkdir_all h perm) = Attached h
  Checked (os_remove h) = Attached h
  Checked (os_remove_all h) = Attached h
  Checked (os_rename p q) = Attached p × Attached q
  Checked (os_stat h) = Linkless h
  Checked (os_lstat h) = Attached h
  Checked (os_read_dir h) = Linkless h
  Checked (os_symlink p q) = Attached q
  Checked (os_append_file h bytes perm) = Opened h
  Checked (os_open_file h flag perm) = Opened h
  Checked (os_chmod h mode) = Linkless h
  Checked (os_chown h uid gid) = Linkless h
  Checked (os_lchown h uid gid) = Attached h
  Checked (os_chtimes h atime mtime) = Linkless h
  Checked (os_atomic_write h bytes perm) = Opened h

  -- Each path of the call has the names of the jail in front, and has passed the checks.
  abbrev pub Safe : Call → Type 0
  Safe call = All (Inside host jail) (targets call) × Checked call
