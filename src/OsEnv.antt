-- ===== src/OsEnv.antt =====
-- toolkit/env/os_env.go: the environment of the process, on Unix. Of package os, the variables are an association list
-- with one entry per key; the user, the working directory that is reported, and what a change of directory comes
-- to are the parameter `System`. An error is `none`.
mod Tests
pub mod Lookup
pub mod Whole
pub mod Dump
use cli_toolkit.Base.{
  ℕ, Bool, true, false, not, ◌||◌, ◌&&◌, List, [], ◌∷◌, Option, none, some, Bytes, codes, ◌==◌,
  if◌then◌else◌, is_empty, bytes_eq, has_prefix,
}
use cli_toolkit.FilePath.{is_abs, clean, join}
use cli_toolkit.Jail.{root, clean_jail}
use cli_toolkit.TestEnv.{Vars, lookup, has_key, insert, delete}

-- user.Current with its Username and Name, os.Getwd, and os.Chdir from a directory to a path.
pub record System : Type 0 where
  pub current_user : Option (Bytes × Bytes)
  pub getwd : Vars → Bytes → Option Bytes
  pub chdir : Bytes → Bytes → Option Bytes

-- OsEnv with the process that it stands in: its variables and its directory.
pub record OsEnv : Type 0 where
  pub jail : Bytes
  pub vars : Vars
  pub cwd : Bytes

-- Whether a text has a byte.
unfoldable pub has_byte : ℕ → Bytes → Bool
has_byte b [] = false
has_byte b (c ∷ s) = let rest = has_byte b s in if c == b then true else rest

-- What os.Setenv accepts: a key that is not empty and has no `=` and no zero byte, and a value with no zero byte.
unfoldable pub is_settable : Bytes → Bytes → Bool
unfolding has_byte
is_settable key value =
    not (is_empty key || (has_byte 61 key || (has_byte 0 key || has_byte 0 value)))

-- OsEnv.SetJail
unfoldable pub set_jail : Bytes → OsEnv → OsEnv
set_jail jail_path env = record env { jail = clean_jail jail_path }

-- OsEnv.Get
unfoldable pub get : OsEnv → Bytes → Bytes
get env key = lookup env.vars key

-- OsEnv.Set
unfoldable pub set : Bytes → Bytes → OsEnv → Option OsEnv
unfolding is_settable
set key value env =
    if is_settable key value then some (record env { vars = insert env.vars key value }) else none

-- OsEnv.Has
unfoldable pub has : OsEnv → Bytes → Bool
has env key = has_key env.vars key

-- OsEnv.Unset; of a key that cannot be set there is nothing to remove.
unfoldable pub unset : Bytes → OsEnv → OsEnv
unset key env = record env { vars = delete env.vars key }

-- OsEnv.GetHome
unfoldable pub get_home : OsEnv → Option Bytes
get_home env =
    let home = lookup env.vars (codes "HOME") in if is_empty home then none else some home

-- OsEnv.SetHome
unfoldable pub set_home : Bytes → OsEnv → Option OsEnv
unfolding set
set_home home env = set (codes "HOME") home env

-- OsEnv.SetUser
unfoldable pub set_user : Bytes → OsEnv → Option OsEnv
unfolding set
set_user username env = set (codes "USER") username env

-- OsEnv.GetTempDir
unfoldable pub get_temp_dir : OsEnv → Bytes
get_temp_dir env =
    let tmp = lookup env.vars (codes "TMPDIR") in if is_empty tmp then codes "/tmp" else tmp

abbrev pub home_or_empty : Option Bytes → Bytes
home_or_empty none = []
home_or_empty (some home) = home

-- OsEnv.ExpandPath
unfoldable pub expand_path : OsEnv → Bytes → Bytes
unfolding get_home
expand_path env [] = []
expand_path env (c ∷ []) =
    if bytes_eq (c ∷ []) (codes "~") then clean (home_or_empty (get_home env)) else c ∷ []
expand_path env (c ∷ d ∷ rest) =
    if has_prefix (c ∷ d ∷ rest) (codes "~/") || has_prefix (c ∷ d ∷ rest) (codes "~\\")
    then join (home_or_empty (get_home env) ∷ rest ∷ [])
    else c ∷ d ∷ rest

module _ (system : System) where
  -- OsEnv.GetUser
  unfoldable pub get_user : OsEnv → Option Bytes
  get_user env = elim system.current_user [
    | none ↦ none
    | some (username, name) ↦ some (if is_empty username then name else username)
  ]

  -- OsEnv.Getwd
  unfoldable pub getwd : OsEnv → Option Bytes
  getwd env = system.getwd env.vars env.cwd

  -- filepath.Abs, with the empty text where it fails.
  unfoldable pub absolute : OsEnv → Bytes → Bytes
  unfolding getwd
  absolute env dir =
      if is_abs dir
      then clean dir
      else elim (getwd env) [ none ↦ [] | some wd ↦ join (wd ∷ dir ∷ []) ]

  -- OsEnv.Setwd
  unfoldable pub setwd : Bytes → OsEnv → Option OsEnv
  unfolding absolute
  setwd dir env = elim (system.chdir env.cwd (absolute env dir)) [
    | none ↦ none
    | some cwd ↦ some (record env { cwd = cwd })
  ]
