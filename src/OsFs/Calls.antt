-- ===== src/OsFs/Calls.antt =====
-- What the methods of `OsFS` ask of the host: the calls of package os (toolkit/filesystem/os_fs.go).
use cli_toolkit.Base.{ℕ, List, [], ◌∷◌, Bytes}

-- The calls of package os that reach the host, with the host's paths; `os_append_file` is the OpenFile
-- with O_APPEND|O_CREATE|O_WRONLY and the Write behind it, `os_atomic_write` is atomicWriteFile.
pub data Call : Type 0 where
  os_read_file : Bytes → Call
  os_write_file : Bytes → Bytes → ℕ → Call
  os_mkdir : Bytes → ℕ → Call
  os_mkdir_all : Bytes → ℕ → Call
  os_remove : Bytes → Call
  os_remove_all : Bytes → Call
  os_rename : Bytes → Bytes → Call
  os_stat : Bytes → Call
  os_lstat : Bytes → Call
  os_read_dir : Bytes → Call
  os_symlink : Bytes → Bytes → Call
  os_append_file : Bytes → Bytes → ℕ → Call
  os_open_file : Bytes → ℕ → ℕ → Call
  os_chmod : Bytes → ℕ → Call
  os_chown : Bytes → ℕ → ℕ → Call
  os_lchown : Bytes → ℕ → ℕ → Call
  os_chtimes : Bytes → ℕ → ℕ → Call
  os_atomic_write : Bytes → Bytes → ℕ → Call

-- The paths that a call names.
abbrev pub targets : Call → List Bytes
targets (os_read_file p) = p ∷ []
targets (os_write_file p bytes perm) = p ∷ []
targets (os_mkdir p perm) = p ∷ []
targets (os_mkdir_all p perm) = p ∷ []
targets (os_remove p) = p ∷ []
targets (os_remove_all p) = p ∷ []
targets (os_rename p q) = p ∷ q ∷ []
targets (os_stat p) = p ∷ []
targets (os_lstat p) = p ∷ []
targets (os_read_dir p) = p ∷ []
targets (os_symlink p q) = p ∷ q ∷ []
targets (os_append_file p bytes perm) = p ∷ []
targets (os_open_file p flag perm) = p ∷ []
targets (os_chmod p mode) = p ∷ []
targets (os_chown p uid gid) = p ∷ []
targets (os_lchown p uid gid) = p ∷ []
targets (os_chtimes p atime mtime) = p ∷ []
targets (os_atomic_write p bytes perm) = p ∷ []
