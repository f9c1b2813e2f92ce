-- ===== src/TestEnv.antt =====
-- toolkit/env/test_env.go: the in-memory environment of a test, on Unix. The map of the variables is an
-- association list with one entry per key; a nil map and an empty one are the same list, since no
-- method tells them apart. An error is `none`, and leaves the environment as it was.
mod Tests
pub mod Vars
pub mod Paths
pub mod Homes
pub mod Invariant
pub mod Kept
pub mod Reach
pub mod Environ
use cli_toolkit.Base.{
  Bool, true, false, ◌&&◌, ◌||◌, not, List, [], ◌∷◌, ◌++◌, Option, none, some, Bytes, codes,
  if◌then◌else◌, is_empty, bytes_eq, has_prefix,
}
use cli_toolkit.FilePath.{dot, is_abs, clean, join}
use cli_toolkit.Jail.{root, clean_jail, remove_jail_prefix, is_in_jail}

abbrev pub Vars : Type 0
Vars = List (Bytes × Bytes)

-- The value of a key, or the empty text.
unfoldable pub lookup : Vars → Bytes → Bytes
lookup [] key = []
lookup ((k, v) ∷ vars) key = if bytes_eq k key then v else lookup vars key

unfoldable pub has_key : Vars → Bytes → Bool
has_key [] key = false
has_key ((k, v) ∷ vars) key = if bytes_eq k key then true else has_key vars key

unfoldable pub insert : Vars → Bytes → Bytes → Vars
insert [] key value = (key, value) ∷ []
insert ((k, v) ∷ vars) key value =
    if bytes_eq k key then (k, value) ∷ vars else (k, v) ∷ insert vars key value

unfoldable pub delete : Vars → Bytes → Vars
delete [] key = []
delete ((k, v) ∷ vars) key =
    let rest = delete vars key in if bytes_eq k key then rest else (k, v) ∷ rest

pub record TestEnv : Type 0 where
  pub jail : Bytes
  pub home : Bytes
  pub user : Bytes
  pub vars : Vars

-- NewTestEnv: the home, and the working directory, that the arguments stand for.
unfoldable pub default_home : Bytes → Bytes → Bytes × Bytes
default_home home user =
    if is_empty home && bytes_eq user (codes "root")
    then (join (root ∷ codes ".root" ∷ []), root)
    else if is_empty home
    then (join (root ∷ codes "home" ∷ user ∷ []), join (root ∷ codes "home" ∷ user ∷ []))
    else (home, home)

-- NewTestEnv, where runtime.GOOS is not "windows".
unfoldable pub new_test_env : Bytes → Bytes → Bytes → TestEnv
unfolding default_home
new_test_env jail_path given_home username =
    let user = if is_empty username then codes "testuser" else username in
    let (home, cwd) = default_home given_home user in
    let vars =
      insert (insert (insert [] (codes "HOME") home) (codes "USER") user) (codes "PWD") cwd in
    let vars = insert vars (codes "XDG_CONFIG_HOME") (join (home ∷ codes ".config" ∷ [])) in
    let vars = insert vars (codes "XDG_CACHE_HOME") (join (home ∷ codes ".cache" ∷ [])) in
    let vars =
      insert vars (codes "XDG_DATA_HOME") (join (home ∷ codes ".local" ∷ codes "share" ∷ [])) in
    let vars =
      insert vars (codes "XDG_STATE_HOME") (join (home ∷ codes ".local" ∷ codes "state" ∷ [])) in
    let vars = insert vars (codes "TMPDIR") (join (jail_path ∷ codes "tmp" ∷ [])) in
    record { jail = jail_path; home = home; user = user; vars = vars }

-- A path of the old jail as a path of the new one.
unfoldable pub rejail : Bytes → Bytes → Bytes → Bytes
rejail old_jail new_jail path =
    let virtual = remove_jail_prefix old_jail path in
    if is_empty new_jail then clean virtual else join (new_jail ∷ virtual ∷ [])

-- The part of SetJail on the home.
unfoldable pub move_home : Bytes → TestEnv → TestEnv
unfolding rejail
move_home old_jail env =
    let home = rejail old_jail env.jail env.home in
    if is_empty env.home
    then env
    else record env { home = home; vars = insert env.vars (codes "HOME") home }

-- The part of SetJail on the directory for temporary files.
unfoldable pub move_tmp : Bytes → TestEnv → TestEnv
unfolding rejail
move_tmp old_jail env =
    let tmp = lookup env.vars (codes "TMPDIR") in
    if not (is_empty tmp) && (not (is_empty old_jail) && is_in_jail old_jail tmp)
    then record env { vars = insert env.vars (codes "TMPDIR") (rejail old_jail env.jail tmp) }
    else env

-- TestEnv.SetJail
unfoldable pub set_jail : Bytes → TestEnv → TestEnv
unfolding move_home move_tmp
set_jail jail_path env =
    move_tmp env.jail (move_home env.jail (record env { jail = clean_jail jail_path }))

-- TestEnv.GetHome
unfoldable pub get_home : TestEnv → Option Bytes
get_home env = if is_empty env.home then none else some (remove_jail_prefix env.jail env.home)

-- TestEnv.GetUser
unfoldable pub get_user : TestEnv → Option Bytes
get_user env = if is_empty env.user then none else some env.user

-- TestEnv.Getwd
unfoldable pub getwd : TestEnv → Option Bytes
getwd env = let wd = lookup env.vars (codes "PWD") in if is_empty wd then none else some wd

-- The home that ExpandPath puts in: the empty text where GetHome has an error.
unfoldable pub home_or_empty : TestEnv → Bytes
unfolding get_home
home_or_empty env = elim (get_home env) [ none ↦ [] | some h ↦ h ]

-- TestEnv.ExpandPath
unfoldable pub expand_path : TestEnv → Bytes → Bytes
unfolding home_or_empty
expand_path env [] = []
expand_path env (c ∷ []) =
    if bytes_eq (c ∷ []) (codes "~") then clean (home_or_empty env) else c ∷ []
expand_path env (c ∷ d ∷ rest) =
    if has_prefix (c ∷ d ∷ rest) (codes "~/") || has_prefix (c ∷ d ∷ rest) (codes "~\\")
    then join (home_or_empty env ∷ rest ∷ [])
    else c ∷ d ∷ rest

-- The path that ResolvePath works on: an absolute path, or one below the working directory.
unfoldable pub absolute : TestEnv → Bytes → Option Bytes
unfolding getwd
absolute env expanded =
    if is_abs expanded
    then some expanded
    else elim (getwd env) [ none ↦ none | some wd ↦ some (join (wd ∷ expanded ∷ [])) ]

-- The end of ResolvePath, where links are followed on the host.
unfoldable pub follow_on_host : (Bytes → Option Bytes) → Bytes → Bytes → Option Bytes
follow_on_host eval_symlinks jail path = elim (eval_symlinks (join (jail ∷ path ∷ []))) [
  | none ↦ none
  | some resolved ↦ some (remove_jail_prefix jail resolved)
]

-- TestEnv.ResolvePath; filepath.EvalSymlinks of the host is a parameter.
unfoldable pub resolve_path : (Bytes → Option Bytes) → TestEnv → Bytes → Bool → Option Bytes
unfolding getwd absolute expand_path
resolve_path eval_symlinks env rel follow =
    let p = clean rel in
    if bytes_eq p dot || is_empty p then getwd env else elim (absolute env (expand_path env rel)) [
      | none ↦ none
      | some path ↦
          if not follow then some (clean path) else follow_on_host eval_symlinks env.jail path
    ]

module _ (eval_symlinks : Bytes → Option Bytes) where
  -- TestEnv.SetHome
  unfoldable pub set_home : Bytes → TestEnv → Option TestEnv
  set_home rel env = elim (resolve_path eval_symlinks env rel false) [
    | none ↦ none
    | some path ↦
        let home = join (env.jail ∷ path ∷ []) in
        some (record env { home = home; vars = insert env.vars (codes "HOME") home })
  ]

  -- TestEnv.Setwd
  unfoldable pub setwd : Bytes → TestEnv → Option TestEnv
  setwd dir env = elim (resolve_path eval_symlinks env dir false) [
    | none ↦ none
    | some path ↦ some (record env { vars = insert env.vars (codes "PWD") path })
  ]

  -- TestEnv.SetUser
  unfoldable pub set_user : Bytes → TestEnv → TestEnv
  set_user username env = record env {
    user = username;
    vars = insert env.vars (codes "USER") username;
  }

  -- TestEnv.Set
  unfoldable pub set : Bytes → Bytes → TestEnv → Option TestEnv
  set key value env =
      if bytes_eq key (codes "HOME")
      then set_home value env
      else if bytes_eq key (codes "USER")
      then some (set_user value env)
      else if bytes_eq key (codes "PWD")
      then setwd value env
      else some (record env { vars = insert env.vars key value })

-- TestEnv.Get
unfoldable pub get : TestEnv → Bytes → Bytes
get env key =
    if bytes_eq key (codes "HOME")
    then env.home
    else if bytes_eq key (codes "USER")
    then env.user
    else lookup env.vars key

-- TestEnv.Unset
unfoldable pub unset : Bytes → TestEnv → TestEnv
unset key env =
    if bytes_eq key (codes "HOME")
    then record env { home = []; vars = delete env.vars (codes "HOME") }
    else if bytes_eq key (codes "USER")
    then record env { user = []; vars = delete env.vars (codes "USER") }
    else record env { vars = delete env.vars key }

-- TestEnv.GetTempDir, where runtime.GOOS is not "windows".
unfoldable pub get_temp_dir : TestEnv → Bytes
get_temp_dir env =
    if not (is_empty (lookup env.vars (codes "TMPDIR")))
    then lookup env.vars (codes "TMPDIR")
    else if not (is_empty (lookup env.vars (codes "TEMP")))
    then lookup env.vars (codes "TEMP")
    else if not (is_empty (lookup env.vars (codes "TMP")))
    then lookup env.vars (codes "TMP")
    else join (root ∷ codes "tmp" ∷ [])

abbrev pub keys_of : Vars → List Bytes
keys_of [] = []
keys_of ((k, v) ∷ vars) = k ∷ keys_of vars

-- A key of a dedicated field that is set joins the keys where the map does not hold it.
unfoldable pub with_field : Vars → Bytes → Bytes → List Bytes → List Bytes
with_field vars key value keys =
    if not (is_empty value) && not (has_key vars key) then keys ++ key ∷ [] else keys

abbrev pub entries_of : TestEnv → List Bytes → List Bytes
entries_of env [] = []
entries_of env (k ∷ keys) = (k ++ codes "=" ++ get env k) ∷ entries_of env keys

-- TestEnv.Environ; sort.Strings is a parameter.
unfoldable pub environ : (List Bytes → List Bytes) → TestEnv → List Bytes
unfolding with_field
environ sort env = entries_of env (
    sort (
      with_field env.vars (codes "USER") env.user
        (with_field env.vars (codes "HOME") env.home (keys_of env.vars))))
