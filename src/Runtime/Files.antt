-- ===== src/Runtime/Files.antt =====
-- The methods of `Runtime` on files (toolkit/runtime.go): each resolves its paths in the runtime and has
-- the file system ask the host. `reply` says whether the host's call succeeds, from the calls before it.
use cli_toolkit.Base.{
  ℕ, Bool, true, false, List, [], ◌∷◌, ◌++◌, Option, none, some, Bytes, if◌then◌else◌,
}
use cli_toolkit.FilePath.{dir}
use cli_toolkit.OsFs.Base.{Result, ok, err}
use cli_toolkit.OsFs.Calls.{Call}
use cli_toolkit.OsFs.Methods.{
  Method, do_read_file, do_write_file, do_mkdir, do_remove, do_rename, do_stat, do_read_dir,
  do_symlink, do_append_file, do_open_file, do_chmod, do_chown, do_lchown, do_chtimes,
  do_atomic_write,
}
use cli_toolkit.Runtime.{validate, resolve_path}
use cli_toolkit.Runtime.Base.{
  Environment, FileSystem, nil_fs, fs_failed, call_failed, Outcome, done, fail, Runtime, M, ◌>>=◌,
  ◌>>◌, on_fs,
}

abbrev pub Reply : Type 0
Reply = List (Bytes × Call) → Call → Bool

module _ (E : Environment) (F : FileSystem) (reply : Reply) where
  -- The call that the file system ends in is made.
  abbrev pub answer : Runtime E F → F.State × Result Call → Runtime E F × Outcome Call
  answer rt (s, err e) = (record rt { fs = some s }, fail (fs_failed e))
  answer rt (s, ok c) = (
    record rt { fs = some s; calls = rt.calls ++ (rt.jail, c) ∷ [] },
    (if reply rt.calls c then done c else fail (call_failed c)),
  )

  abbrev pub act_on : Method → Option F.State → M (Runtime E F) Call
  act_on m none rt = (rt, fail nil_fs)
  act_on m (some s) rt = answer rt (F.act m rt.calls s)

  unfoldable pub act : Method → M (Runtime E F) Call
  act m rt = act_on m rt.fs rt

  -- A method that resolves one path and makes one call.
  unfoldable pub act_at : Bytes → Bool → (Bytes → Method) → M (Runtime E F) Call
  unfolding act
  act_at path follow m = do validate E F; p ← resolve_path E F path follow; act (m p)

  -- One that makes the directory above the path first, with the mode 0o755.
  unfoldable pub act_below : Bytes → (Bytes → Method) → M (Runtime E F) Call
  unfolding act
  act_below path m = do
    validate E F
    p ← resolve_path E F path false
    c ← act (do_mkdir (dir p) 493 true)
    act (m p)

  -- One that resolves two paths.
  unfoldable pub act_between : Bytes → Bytes → (Bytes → Bytes → Method) → M (Runtime E F) Call
  unfolding act
  act_between path path' m = do
    validate E F
    p ← resolve_path E F path false
    q ← resolve_path E F path' false
    act (m p q)

  unfoldable pub read_file : Bytes → M (Runtime E F) Call
  unfolding act_at
  read_file path = act_at path false do_read_file

  unfoldable pub write_file : Bytes → Bytes → ℕ → M (Runtime E F) Call
  unfolding act_below
  write_file path bytes perm = act_below path (λ p. do_write_file p bytes perm)

  unfoldable pub append_file : Bytes → Bytes → ℕ → M (Runtime E F) Call
  unfolding act_below
  append_file path bytes perm = act_below path (λ p. do_append_file p bytes perm)

  unfoldable pub open_file : Bytes → ℕ → ℕ → M (Runtime E F) Call
  unfolding act_below
  open_file path flag perm = act_below path (λ p. do_open_file p flag perm)

  unfoldable pub mkdir : Bytes → ℕ → Bool → M (Runtime E F) Call
  unfolding act_at
  mkdir path perm all = act_at path false (λ p. do_mkdir p perm all)

  unfoldable pub remove : Bytes → Bool → M (Runtime E F) Call
  unfolding act_at
  remove path all = act_at path false (λ p. do_remove p all)

  unfoldable pub rename : Bytes → Bytes → M (Runtime E F) Call
  unfolding act_between
  rename src dst = act_between src dst do_rename

  unfoldable pub stat : Bytes → Bool → M (Runtime E F) Call
  unfolding act_at
  stat path follow = act_at path follow (λ p. do_stat p follow)

  unfoldable pub read_dir : Bytes → M (Runtime E F) Call
  unfolding act_at
  read_dir path = act_at path false do_read_dir

  unfoldable pub symlink : Bytes → Bytes → M (Runtime E F) Call
  unfolding act_between
  symlink old_name new_name = act_between old_name new_name do_symlink

  unfoldable pub chmod : Bytes → ℕ → M (Runtime E F) Call
  unfolding act_at
  chmod path mode = act_at path false (λ p. do_chmod p mode)

  unfoldable pub chown : Bytes → ℕ → ℕ → M (Runtime E F) Call
  unfolding act_at
  chown path uid gid = act_at path false (λ p. do_chown p uid gid)

  unfoldable pub lchown : Bytes → ℕ → ℕ → M (Runtime E F) Call
  unfolding act_at
  lchown path uid gid = act_at path false (λ p. do_lchown p uid gid)

  unfoldable pub chtimes : Bytes → ℕ → ℕ → M (Runtime E F) Call
  unfolding act_at
  chtimes path atime mtime = act_at path false (λ p. do_chtimes p atime mtime)

  unfoldable pub atomic_write_file : Bytes → Bytes → ℕ → M (Runtime E F) Call
  unfolding act_at
  atomic_write_file path bytes perm = act_at path false (λ p. do_atomic_write p bytes perm)

  -- Runtime.Rel
  unfoldable pub rel_between : Bytes → Bytes → M (Runtime E F) Bytes
  rel_between base_path target_path = do
    validate E F
    p ← resolve_path E F base_path false
    q ← resolve_path E F target_path false
    on_fs (F.rel p q)
