-- ===== src/Runtime.antt =====
-- toolkit/runtime.go: `Runtime`, which keeps one jail and one working directory for an environment and a
-- file system, over any implementation of the two. A method on a nil runtime is not modelled beyond
-- the error of `Validate`.
mod Tests
pub mod Base
pub mod Files
pub mod Options
pub mod Contract
pub mod Kept
pub mod Confined
pub mod Sync
pub mod Reach
pub mod Host
pub mod Sandbox
pub mod Start
pub mod Glob
pub mod Paths
use cli_toolkit.Base.{
  Bool, true, false, ◌||◌, [], ◌∷◌, Option, none, some, Bytes, if◌then◌else◌, is_empty, is_blank,
  bytes_eq,
}
use cli_toolkit.FilePath.{dot, is_abs, clean, join, rel}
use cli_toolkit.Jail.{root, clean_jail}
use cli_toolkit.Expand.{expand_env}
use cli_toolkit.User
use cli_toolkit.User.{expand_user_path}
use Base.{
  Environment, FileSystem, Fault, nil_runtime, nil_env, nil_fs, nil_clock, nil_logger, nil_stream,
  nil_hasher, env_failed, Outcome, done, fail, Runtime, M, ◌>>=◌, ◌>>◌, pure, throw, gets, modify,
  attempt, need, on_fs, on_env, ask_env,
}

abbrev pub is_set {ℓ} : {A : Type ℓ} → Option A → Bool
is_set none = false
is_set (some a) = true

abbrev pub or_else : Option Bytes → Bytes → Bytes
or_else none other = other
or_else (some p) other = p

-- normalizePath
unfoldable pub normalize_path : Bytes → Bytes
normalize_path path = if is_blank path then root else clean path

-- The path that Getwd gives, cleaned, unless it fails or gives white space.
unfoldable pub usable : Outcome Bytes → Option Bytes
usable (done wd) = if is_blank wd then none else some (clean wd)
usable (fail e) = none

module _ (E : Environment) (F : FileSystem) where
  -- Runtime.Validate on a runtime that is not nil.
  unfoldable pub validate : M (Runtime E F) (Unit {0})
  validate = do
    need (λ rt. is_set rt.env) nil_env
    need (λ rt. is_set rt.fs) nil_fs
    need (λ rt. is_set rt.clock) nil_clock
    need (λ rt. is_set rt.logger) nil_logger
    need (λ rt. is_set rt.stream) nil_stream
    need (λ rt. is_set rt.hasher) nil_hasher

  -- Runtime.Validate
  unfoldable pub validate_pointer : Option (Runtime E F) → Outcome (Unit {0})
  unfolding validate
  validate_pointer none = fail nil_runtime
  validate_pointer (some rt) = (validate rt).1

  unfoldable pub put_wd : Bytes → M (Runtime E F) (Unit {0})
  put_wd wd = modify (λ rt. record rt { wd = wd })

  -- Runtime.applyWorkingDir
  unfoldable pub apply_working_dir : Bytes → M (Runtime E F) (Unit {0})
  unfolding put_wd
  apply_working_dir dir = do
    on_fs (F.setwd (normalize_path dir))
    on_env (E.setwd (normalize_path dir))
    attempt (on_fs F.getwd) (λ r. put_wd (or_else (usable r) (normalize_path dir)))

  abbrev pub env_jail : Option E.State → Bytes
  env_jail none = []
  env_jail (some s) = E.get_jail s

  abbrev pub fs_jail : Option F.State → Bytes
  fs_jail none = []
  fs_jail (some s) = F.get_jail s

  -- The jail that normalizeState takes over where the runtime has none.
  unfoldable pub found_jail : Runtime E F → Bytes
  found_jail rt =
      if is_empty rt.jail
      then (if is_empty (clean_jail (env_jail rt.env))
          then clean_jail (fs_jail rt.fs)
          else clean_jail (env_jail rt.env))
      else rt.jail

  -- The jail of the runtime is handed to the file system and to the environment.
  unfoldable pub push_jail : Bytes → M (Runtime E F) (Unit {0})
  push_jail jail = do on_fs (F.set_jail jail); on_env (E.set_jail jail)

  unfoldable pub put_jail : Bytes → M (Runtime E F) (Unit {0})
  put_jail jail = modify (λ rt. record rt { jail = jail })

  -- The working directory that normalizeState takes over where the runtime has none.
  unfoldable pub wd_from_fs : Option Bytes → M (Runtime E F) (Unit {0})
  wd_from_fs (some wd) = put_wd wd
  wd_from_fs none = attempt (on_fs F.getwd) (λ r. put_wd (or_else (usable r) root))

  unfoldable pub find_wd : M (Runtime E F) (Unit {0})
  unfolding wd_from_fs
  find_wd = attempt (ask_env E.getwd) (λ r. wd_from_fs (usable r))

  abbrev pub if_no_wd : M (Runtime E F) (Unit {0}) → M (Runtime E F) (Unit {0})
  if_no_wd m rt = elim (is_blank rt.wd) [ true ↦ m rt | false ↦ (rt, done tt) ]

  -- Runtime.normalizeState
  unfoldable pub normalize_state : M (Runtime E F) (Unit {0})
  unfolding found_jail put_jail push_jail find_wd apply_working_dir
  normalize_state = do
    need (λ rt. is_set rt.env) nil_env
    need (λ rt. is_set rt.fs) nil_fs
    jail ← gets found_jail
    put_jail jail
    push_jail jail
    if_no_wd find_wd
    wd ← gets (λ rt. rt.wd)
    apply_working_dir wd

  -- Runtime.Getwd
  unfoldable pub getwd : M (Runtime E F) Bytes
  unfolding normalize_state validate
  getwd = do validate; if_no_wd normalize_state; gets (λ rt. rt.wd)

  abbrev pub get_from : Option E.State → Bytes → Bytes
  get_from none key = []
  get_from (some s) key = E.get s key

  -- Runtime.Get
  abbrev pub get : Runtime E F → Bytes → Bytes
  get rt key = get_from rt.env key

  abbrev has_from : Option E.State → Bytes → Bool
  has_from none key = false
  has_from (some s) key = E.has s key

  -- Runtime.Has
  abbrev pub has : Runtime E F → Bytes → Bool
  has rt key = has_from rt.env key

  abbrev temp_dir_from : Bytes → Option E.State → Bytes
  temp_dir_from os_temp_dir none = os_temp_dir
  temp_dir_from os_temp_dir (some s) = E.get_temp_dir s

  -- Runtime.GetTempDir; os.TempDir is a parameter.
  abbrev pub get_temp_dir : Bytes → Runtime E F → Bytes
  get_temp_dir os_temp_dir rt = temp_dir_from os_temp_dir rt.env

  -- Runtime.GetHome
  unfoldable pub get_home : M (Runtime E F) Bytes
  unfolding validate
  get_home = do validate; ask_env E.get_home

  abbrev pub value_of : Runtime E F × Outcome Bytes → Option Bytes
  value_of (rt, done p) = some p
  value_of (rt, fail e) = none

  -- The runtime as the Env that ExpandEnv and ExpandPath are given.
  abbrev pub as_env : Runtime E F → User.Env
  as_env rt = record { get = get rt; get_home = value_of (get_home rt) }

  abbrev pub or_fault : Option Bytes → Outcome Bytes
  or_fault none = fail env_failed
  or_fault (some p) = done p

  -- ExpandEnv and then ExpandPath, over the runtime.
  unfoldable pub expanded : Bytes → M (Runtime E F) Bytes
  unfolding get_home
  expanded path rt = (rt, or_fault (expand_user_path (as_env rt) (expand_env (get rt) path)))

  -- A path below the working directory where it is relative.
  unfoldable pub absolute : Bytes → M (Runtime E F) Bytes
  unfolding getwd
  absolute p = elim (is_abs p) [
    | true ↦ pure p
    | false ↦ do cwd ← getwd; pure (join (cwd ∷ p ∷ []))
  ]

  -- The path that resolveWorkingDir, AbsPath and ResolvePath work on.
  unfoldable pub located : Bytes → M (Runtime E F) Bytes
  unfolding expanded absolute
  located path = do p ← expanded path; absolute p

  -- Runtime.resolveWorkingDir
  unfoldable pub resolve_working_dir : Bytes → M (Runtime E F) Bytes
  unfolding getwd located
  resolve_working_dir dir = elim (is_blank dir || bytes_eq dir dot) [
    | true ↦ getwd
    | false ↦ do
      p ← located dir
      resolved ← on_fs (F.resolve_path (clean p) false)
      pure (clean resolved)
  ]

  -- Runtime.Setwd
  unfoldable pub setwd : Bytes → M (Runtime E F) (Unit {0})
  unfolding validate resolve_working_dir apply_working_dir
  setwd dir = do validate; resolved ← resolve_working_dir dir; apply_working_dir resolved

  -- The end of SetJail: where the working directory cannot be kept, the root is tried.
  unfoldable pub fall_back : Outcome (Unit {0}) → M (Runtime E F) (Unit {0})
  unfolding apply_working_dir
  fall_back (done u) = pure tt
  fall_back (fail e) =
      attempt (apply_working_dir root) (λ r. elim r [ done u ↦ pure tt | fail e' ↦ throw e ])

  -- Runtime.SetJail
  unfoldable pub set_jail : Bytes → M (Runtime E F) (Unit {0})
  unfolding validate put_jail push_jail put_wd apply_working_dir fall_back
  set_jail jail_path = do
    validate
    put_jail (clean_jail jail_path)
    push_jail (clean_jail jail_path)
    if_no_wd (put_wd root)
    wd ← gets (λ rt. rt.wd)
    attempt (apply_working_dir wd) fall_back

  -- Runtime.AbsPath
  unfoldable pub abs_path : Bytes → M (Runtime E F) Bytes
  unfolding validate located
  abs_path path = elim (is_blank path) [
    | true ↦ pure []
    | false ↦ do validate; p ← located path; pure (clean p)
  ]

  -- Runtime.ResolvePath
  unfoldable pub resolve_path : Bytes → Bool → M (Runtime E F) Bytes
  unfolding validate getwd located
  resolve_path path follow = do
    validate
    p ← elim (is_blank path || bytes_eq path dot) [ true ↦ getwd | false ↦ located path ]
    on_fs (F.resolve_path (clean p) follow)

  abbrev pub path_or : Outcome Bytes → Bytes → Bytes
  path_or (done p) other = p
  path_or (fail e) other = other

  -- Runtime.RelativePath
  unfoldable pub relative_path : Bytes → Bytes → M (Runtime E F) Bytes
  unfolding abs_path
  relative_path basepath path = attempt (abs_path basepath) (λ b.
      attempt (abs_path path)
        (λ t. pure (or_else (rel (path_or b basepath) (path_or t path)) (path_or t path))))

  -- Runtime.Set
  unfoldable pub set : Bytes → Bytes → M (Runtime E F) (Unit {0})
  unfolding validate setwd
  set key value = do
    validate
    elim (bytes_eq key (b'P' ∷ b'W' ∷ b'D' ∷ [])) [
      | true ↦ setwd value
      | false ↦ on_env (E.set key value)
    ]

  -- Runtime.SetHome
  unfoldable pub set_home : Bytes → M (Runtime E F) (Unit {0})
  unfolding validate
  set_home home = do validate; on_env (E.set_home home)

  -- Runtime.SetUser
  unfoldable pub set_user : Bytes → M (Runtime E F) (Unit {0})
  unfolding validate
  set_user user = do validate; on_env (E.set_user user)

  -- Runtime.GetUser
  unfoldable pub get_user : M (Runtime E F) Bytes
  unfolding validate
  get_user = do validate; ask_env E.get_user

  -- Runtime.Unset
  unfoldable pub unset : Bytes → M (Runtime E F) (Unit {0})
  unset key rt = elim rt.env [
    | none ↦ (rt, done tt)
    | some s ↦ (record rt { env = some (E.unset key s) }, done tt)
  ]
