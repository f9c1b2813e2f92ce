-- ===== src/User.antt =====
-- toolkit/user.go and appctx/context.go: the paths of a user and of an application, on Unix, over any
-- environment. An error is `none`.
mod Tests
pub mod Paths
use cli_toolkit.Base.{
  true, false, not, ◌||◌, [], ◌∷◌, ◌++◌, List, Option, none, some, Bytes, codes, if◌then◌else◌,
  is_empty, bytes_eq, has_prefix,
}
use cli_toolkit.FilePath.{clean, join}

-- What these functions call of an Env: Get, and GetHome with its error.
pub record Env : Type 0 where
  pub get : Bytes → Bytes
  pub get_home : Option Bytes

-- The end of each path: names below the home, or the error of GetHome.
unfoldable pub below_home : Env → List Bytes → Option Bytes
below_home env names = elim env.get_home [ none ↦ none | some home ↦ some (join (home ∷ names)) ]

-- UserConfigPath
unfoldable pub user_config_path : Env → Option Bytes
unfolding below_home
user_config_path env =
    if not (is_empty (env.get (codes "XDG_CONFIG_HOME")))
    then some (clean (env.get (codes "XDG_CONFIG_HOME")))
    else if not (is_empty (env.get (codes "APPDATA")))
    then some (clean (env.get (codes "APPDATA")))
    else below_home env (codes ".config" ∷ [])

-- UserCachePath
unfoldable pub user_cache_path : Env → Option Bytes
unfolding below_home
user_cache_path env =
    if not (is_empty (env.get (codes "XDG_CACHE_HOME")))
    then some (clean (env.get (codes "XDG_CACHE_HOME")))
    else if not (is_empty (env.get (codes "LOCALAPPDATA")))
    then some (clean (env.get (codes "LOCALAPPDATA")))
    else below_home env (codes ".cache" ∷ [])

-- UserDataPath, where runtime.GOOS is not "windows".
unfoldable pub user_data_path : Env → Option Bytes
unfolding below_home
user_data_path env =
    if not (is_empty (env.get (codes "XDG_DATA_HOME")))
    then some (clean (env.get (codes "XDG_DATA_HOME")))
    else below_home env (codes ".local" ∷ codes "share" ∷ [])

-- UserStatePath, where runtime.GOOS is not "windows": the variable is returned as it is.
unfoldable pub user_state_path : Env → Option Bytes
unfolding below_home
user_state_path env =
    if not (is_empty (env.get (codes "XDG_STATE_HOME")))
    then some (env.get (codes "XDG_STATE_HOME"))
    else below_home env (codes ".local" ∷ codes "state" ∷ [])

-- ExpandPath
unfoldable pub expand_user_path : Env → Bytes → Option Bytes
expand_user_path env [] = some []
expand_user_path env (c ∷ []) =
    if bytes_eq (c ∷ []) (codes "~")
    then elim env.get_home [ none ↦ none | some home ↦ some (clean home) ]
    else some (c ∷ [])
expand_user_path env (c ∷ d ∷ rest) =
    if has_prefix (c ∷ d ∷ rest) (codes "~/") || has_prefix (c ∷ d ∷ rest) (codes "~\\")
    then elim env.get_home [ none ↦ none | some home ↦ some (join (home ∷ rest ∷ [])) ]
    else some (c ∷ d ∷ rest)

-- AppPaths
pub record AppPaths : Type 0 where
  pub appname : Bytes
  pub root : Bytes
  pub config_root : Bytes
  pub state_root : Bytes
  pub data_root : Bytes
  pub cache_root : Bytes
  pub local_config_root : Bytes

-- NewAppPaths, from the results of the four paths.
abbrev pub app_paths_of :
    Bytes → Bytes → Option Bytes → Option Bytes → Option Bytes → Option Bytes → Option AppPaths
app_paths_of root appname none data_path state cache = none
app_paths_of root appname (some config) none state cache = none
app_paths_of root appname (some config) (some data_path) none cache = none
app_paths_of root appname (some config) (some data_path) (some state) none = none
app_paths_of root appname (some config) (some data_path) (some state) (some cache) = some (record {
  appname = appname;
  root = clean root;
  config_root = join (config ∷ appname ∷ []);
  state_root = join (state ∷ appname ∷ []);
  data_root = join (data_path ∷ appname ∷ []);
  cache_root = join (cache ∷ appname ∷ []);
  local_config_root = join (clean root ∷ (codes "." ++ appname) ∷ []);
})

-- NewAppPaths
unfoldable pub new_app_paths : Env → Bytes → Bytes → Option AppPaths
unfolding user_config_path user_data_path user_state_path user_cache_path
new_app_paths env root appname =
    app_paths_of root appname (user_config_path env) (user_data_path env) (user_state_path env)
      (user_cache_path env)

-- GetDefault of toolkit/env/env.go; `none` is a nil Env.
unfoldable pub get_default : Option Env → Bytes → Bytes → Bytes
get_default none key other = other
get_default (some env) key other = if is_empty (env.get key) then other else env.get key
