-- ===== src/TestEnv/Invariant.antt =====
-- The dedicated fields of a test's environment against its map, over all its methods.
use cli_toolkit.Base.{
  true, false, [], ◌∷◌, Option, some, ◌≡◌, refl, sym, ap, ◌∙◌, subst, arith, Bytes, codes, ◌⊎◌, inl,
  inr, Bool-cases, Option-cases, bytes_eq, bytes_eq_sound,
}
use cli_toolkit.FilePath.{join}
use cli_toolkit.TestEnv.{
  lookup, insert, TestEnv, set, unset, set_home, set_user, setwd, resolve_path,
}
use cli_toolkit.TestEnv.Vars.{lookup-insert, lookup-insert_other}
use cli_toolkit.TestEnv.Paths.{HasRoot, IsVirtual, resolve_path-IsVirtual}

-- The fields home and user are what the map holds, and the working directory is unset, or absolute
-- and clean.
abbrev pub IsSound : TestEnv → Type 0
IsSound env =
    (lookup env.vars (codes "HOME") ≡ env.home)
    × (lookup env.vars (codes "USER") ≡ env.user)
    × HasRoot env

-- A change of one variable, which is not the working directory, with the fields that go with it.
pub IsSound-insert :
    (env env' : TestEnv) (key v : Bytes)
    → IsSound env
    → env'.vars ≡ insert env.vars key v
    → ((bytes_eq key (codes "HOME") ≡ true) × (env'.home ≡ v))
      ⊎ ((bytes_eq key (codes "HOME") ≡ false) × (env'.home ≡ env.home))
    → ((bytes_eq key (codes "USER") ≡ true) × (env'.user ≡ v))
      ⊎ ((bytes_eq key (codes "USER") ≡ false) × (env'.user ≡ env.user))
    → IsVirtual v ⊎ (bytes_eq key (codes "PWD") ≡ false)
    → IsSound env'
IsSound-insert env env' key v (h, u, r) e home user wd = (
  field (codes "HOME") env.home env'.home h home,
  field (codes "USER") env.user env'.user u user,
  directory wd,
)
  where
    field :
        (name old new : Bytes)
        → lookup env.vars name ≡ old
        → ((bytes_eq key name ≡ true) × (new ≡ v)) ⊎ ((bytes_eq key name ≡ false) × (new ≡ old))
        → lookup env'.vars name ≡ new
    field name old new was (inl (same, now)) =
        ap (λ vars. lookup vars name) e
        ∙ ap (lookup (insert env.vars key v)) (sym (bytes_eq_sound key name same))
        ∙ lookup-insert env.vars key v
        ∙ sym now
    field name old new was (inr (other, now)) =
        ap (λ vars. lookup vars name) e
        ∙ lookup-insert_other env.vars key v name other
        ∙ was
        ∙ sym now

    kept : bytes_eq key (codes "PWD") ≡ false → HasRoot env'
    kept other =
        let same =
          ap (λ vars. lookup vars (codes "PWD")) e
          ∙ lookup-insert_other env.vars key v (codes "PWD") other in
        elim r [
          | inl unset ↦ inl (same ∙ unset)
          | inr virtual ↦ inr (subst IsVirtual (sym same) virtual)
        ]

    directory : IsVirtual v ⊎ (bytes_eq key (codes "PWD") ≡ false) → HasRoot env'
    directory (inr other) = kept other
    directory (inl virtual) = elim (Bool-cases (bytes_eq key (codes "PWD"))) [
      | inl same ↦ inr (
          subst IsVirtual
            (sym (
              ap (λ vars. lookup vars (codes "PWD")) e
              ∙ ap (lookup (insert env.vars key v)) (sym (bytes_eq_sound key (codes "PWD") same))
              ∙ lookup-insert env.vars key v))
            virtual)
      | inr other ↦ kept other
    ]

module _ (ev : Bytes → Option Bytes) where
  pub setwd-eq-some :
      (env env' : TestEnv) (dir : Bytes)
      → setwd ev dir env ≡ some env'
      → (path : Bytes) × (resolve_path ev env dir false ≡ some path)
        × (env' ≡ record env { vars = insert env.vars (codes "PWD") path })
  unfolding setwd
  setwd-eq-some env env' dir h = elim (Option-cases (resolve_path ev env dir false)) [
    | inl e ↦ absurd (ground arith)
    | inr (path, e) ↦ (path, e, ground arith)
  ]

  pub set_home-eq-some :
      (env env' : TestEnv) (rel : Bytes)
      → set_home ev rel env ≡ some env'
      → (v : Bytes) × (env' ≡ record env { home = v; vars = insert env.vars (codes "HOME") v })
  unfolding set_home
  set_home-eq-some env env' rel h = elim (Option-cases (resolve_path ev env rel false)) [
    | inl e ↦ absurd (ground arith)
    | inr (path, e) ↦ (join (env.jail ∷ path ∷ []), ground arith)
  ]

  pub setwd-IsSound :
      (env env' : TestEnv) (dir : Bytes) → IsSound env → setwd ev dir env ≡ some env' → IsSound env'
  unfolding bytes_eq
  setwd-IsSound env env' dir s h =
      let (path, found, same) = setwd-eq-some env env' dir h in
      subst IsSound (sym same) (
        IsSound-insert env (record env { vars = insert env.vars (codes "PWD") path }) (codes "PWD")
          path s refl (inr (refl, refl)) (inr (refl, refl))
          (inl (resolve_path-IsVirtual ev env dir path s.2 found)))

  pub set_home-IsSound :
      (env env' : TestEnv) (rel : Bytes)
      → IsSound env
      → set_home ev rel env ≡ some env'
      → IsSound env'
  unfolding bytes_eq
  set_home-IsSound env env' rel s h =
      let (v, same) = set_home-eq-some env env' rel h in
      subst IsSound (sym same) (
        IsSound-insert env (record env { home = v; vars = insert env.vars (codes "HOME") v })
          (codes "HOME") v s refl (inl (refl, refl)) (inr (refl, refl)) (inr refl))

  pub set_user-IsSound :
      (env : TestEnv) (name : Bytes) → IsSound env → IsSound (set_user ev name env)
  unfolding bytes_eq set_user
  set_user-IsSound env name s =
      IsSound-insert env (record env { user = name; vars = insert env.vars (codes "USER") name })
        (codes "USER") name s refl (inr (refl, refl)) (inl (refl, refl)) (inr refl)

  -- The four branches of Set.
  pub set-branches :
      (env env' : TestEnv) (key v : Bytes)
      → set ev key v env ≡ some env'
      → ((bytes_eq key (codes "HOME") ≡ true) × (set_home ev v env ≡ some env'))
        ⊎ (((bytes_eq key (codes "USER") ≡ true) × (env' ≡ set_user ev v env))
            ⊎ (((bytes_eq key (codes "PWD") ≡ true) × (setwd ev v env ≡ some env'))
                ⊎ ((bytes_eq key (codes "HOME") ≡ false)
                    × (bytes_eq key (codes "USER") ≡ false)
                    × (bytes_eq key (codes "PWD") ≡ false)
                    × (env' ≡ record env { vars = insert env.vars key v }))))
  unfolding set
  set-branches env env' key v h = elim (Bool-cases (bytes_eq key (codes "HOME"))) [
    | inl a ↦ inl (a, ground arith)
    | inr a ↦ elim (Bool-cases (bytes_eq key (codes "USER"))) [
      | inl b ↦ inr (inl (b, ground arith))
      | inr b ↦ elim (Bool-cases (bytes_eq key (codes "PWD"))) [
        | inl c ↦ inr (inr (inl (c, ground arith)))
        | inr c ↦ inr (inr (inr (a, b, c, ground arith)))
      ]
    ]
  ]

  pub set-IsSound :
      (env env' : TestEnv) (key v : Bytes)
      → IsSound env
      → set ev key v env ≡ some env'
      → IsSound env'
  set-IsSound env env' key v s h = elim (set-branches env env' key v h) [
    | inl (_, e) ↦ set_home-IsSound env env' v s e
    | inr (inl (_, e)) ↦ subst IsSound (sym e) (set_user-IsSound env v s)
    | inr (inr (inl (_, e))) ↦ setwd-IsSound env env' v s e
    | inr (inr (inr (a, b, c, e))) ↦ subst IsSound (sym e) (
        IsSound-insert env (record env { vars = insert env.vars key v }) key v s refl
          (inr (a, refl)) (inr (b, refl)) (inr c))
  ]
