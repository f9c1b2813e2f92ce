-- ===== src/User/Paths.antt =====
-- The paths of a user: when they exist, and in which form they come.
use cli_toolkit.Base.{
  false, [], ◌∷◌, ◌++◌, List, Option, some, Bytes, codes, is_empty, ◌≡◌, refl, sym, ap, ◌∙◌,
  Bool-cases, inl, inr, arith, Option-cases,
}
use cli_toolkit.FilePath.{clean, join}
use cli_toolkit.FilePath.Clean.{clean-clean}
use cli_toolkit.User.{
  Env, below_home, user_config_path, user_cache_path, user_data_path, user_state_path, AppPaths,
  new_app_paths,
}

clean-join :
    (h n : Bytes) (names : List Bytes)
    → is_empty n ≡ false
    → clean (join (h ∷ n ∷ names)) ≡ join (h ∷ n ∷ names)
unfolding join
clean-join h n names e = elim (Bool-cases (is_empty h)) [
  | inl a ↦ rw (a, e) (clean-clean _)
  | inr a ↦ rw a (clean-clean _)
]

below_home-clean :
    (env : Env) (n p : Bytes) (names : List Bytes)
    → is_empty n ≡ false
    → below_home env (n ∷ names) ≡ some p
    → clean p ≡ p
unfolding below_home
below_home-clean env n p names e h = elim (Option-cases env.get_home) [
  | inl none_set ↦ absurd (ground arith)
  | inr (home, known) ↦
      let same : join (home ∷ n ∷ names) ≡ p = ground arith in
      ap clean (sym same) ∙ clean-join home n names e ∙ same
]

cleaned : (x p : Bytes) → ◌≡◌ {A = Option Bytes} (some (clean x)) (some p) → clean p ≡ p
cleaned x p h = let same : clean x ≡ p = cc in ap clean (sym same) ∙ clean-clean x ∙ same

-- The path for configuration, where there is one, is clean.
user_config_path-clean : (env : Env) (p : Bytes) → user_config_path env ≡ some p → clean p ≡ p
unfolding user_config_path
user_config_path-clean env p h = elim (Bool-cases (is_empty (env.get (codes "XDG_CONFIG_HOME")))) [
  | inr a ↦ cleaned (env.get (codes "XDG_CONFIG_HOME")) p (ground arith)
  | inl a ↦ elim (Bool-cases (is_empty (env.get (codes "APPDATA")))) [
    | inr b ↦ cleaned (env.get (codes "APPDATA")) p (ground arith)
    | inl b ↦ below_home-clean env (codes ".config") p [] refl (ground arith)
  ]
]

module _ (env : Env) (home : Bytes) (known : env.get_home ≡ some home) where
  below_home-known : (names : List Bytes) → below_home env names ≡ some (join (home ∷ names))
  unfolding below_home
  below_home-known names = rw known

  config_known : (p : Bytes) × (user_config_path env ≡ some p)
  unfolding user_config_path
  config_known = elim (Bool-cases (is_empty (env.get (codes "XDG_CONFIG_HOME")))) [
    | inr a ↦ (clean (env.get (codes "XDG_CONFIG_HOME")), rw a)
    | inl a ↦ elim (Bool-cases (is_empty (env.get (codes "APPDATA")))) [
      | inr b ↦ (clean (env.get (codes "APPDATA")), rw (a, b))
      | inl b ↦
          (join (home ∷ codes ".config" ∷ []), rw (a, b) (below_home-known (codes ".config" ∷ [])))
    ]
  ]

  cache_known : (p : Bytes) × (user_cache_path env ≡ some p)
  unfolding user_cache_path
  cache_known = elim (Bool-cases (is_empty (env.get (codes "XDG_CACHE_HOME")))) [
    | inr a ↦ (clean (env.get (codes "XDG_CACHE_HOME")), rw a)
    | inl a ↦ elim (Bool-cases (is_empty (env.get (codes "LOCALAPPDATA")))) [
      | inr b ↦ (clean (env.get (codes "LOCALAPPDATA")), rw (a, b))
      | inl b ↦
          (join (home ∷ codes ".cache" ∷ []), rw (a, b) (below_home-known (codes ".cache" ∷ [])))
    ]
  ]

  data_known : (p : Bytes) × (user_data_path env ≡ some p)
  unfolding user_data_path
  data_known = elim (Bool-cases (is_empty (env.get (codes "XDG_DATA_HOME")))) [
    | inr a ↦ (clean (env.get (codes "XDG_DATA_HOME")), rw a)
    | inl a ↦ (
      join (home ∷ codes ".local" ∷ codes "share" ∷ []),
      rw a (below_home-known (codes ".local" ∷ codes "share" ∷ [])),
    )
  ]

  state_known : (p : Bytes) × (user_state_path env ≡ some p)
  unfolding user_state_path
  state_known = elim (Bool-cases (is_empty (env.get (codes "XDG_STATE_HOME")))) [
    | inr a ↦ (env.get (codes "XDG_STATE_HOME"), rw a)
    | inl a ↦ (
      join (home ∷ codes ".local" ∷ codes "state" ∷ []),
      rw a (below_home-known (codes ".local" ∷ codes "state" ∷ [])),
    )
  ]

  -- Where the home is known NewAppPaths has no error: each of its four roots is the application's name
  -- below the path of the user for that kind, and the local one stands below the given root.
  new_app_paths_lem :
      (root appname : Bytes)
      → (paths : AppPaths) × (config : Bytes) × (data_path : Bytes) × (state : Bytes)
        × (cache : Bytes) × (new_app_paths env root appname ≡ some paths)
        × (user_config_path env ≡ some config)
        × (user_data_path env ≡ some data_path)
        × (user_state_path env ≡ some state)
        × (user_cache_path env ≡ some cache)
        × (paths.config_root ≡ join (config ∷ appname ∷ []))
        × (paths.data_root ≡ join (data_path ∷ appname ∷ []))
        × (paths.state_root ≡ join (state ∷ appname ∷ []))
        × (paths.cache_root ≡ join (cache ∷ appname ∷ []))
        × (paths.local_config_root ≡ join (clean root ∷ (codes "." ++ appname) ∷ []))
  new_app_paths_lem root appname =
      let (c, hc) = config_known in
      let (d, hd) = data_known in
      let (s, hs) = state_known in
      let (k, hk) = cache_known in
      (
        record {
          appname = appname;
          root = clean root;
          config_root = join (c ∷ appname ∷ []);
          state_root = join (s ∷ appname ∷ []);
          data_root = join (d ∷ appname ∷ []);
          cache_root = join (k ∷ appname ∷ []);
          local_config_root = join (clean root ∷ (codes "." ++ appname) ∷ []);
        },
        c,
        d,
        s,
        k,
        unfold new_app_paths in rw (hc, hd, hs, hk),
        hc,
        hd,
        hs,
        hk,
        refl,
        refl,
        refl,
        refl,
        refl,
      )
