-- ===== src/TestEnv/Paths.antt =====
-- ResolvePath of a test's environment, and the homes: what SetHome and SetJail leave to GetHome.
use cli_toolkit.Base.{
  true, false, [], ◌∷◌, Option, some, ◌≡◌, sym, ap, ◌∙◌, subst, arith, Bytes, codes, ◌⊎◌, inl, inr,
  Bool-cases, Option-cases, is_empty, bytes_eq, ◌||◌,
}
use cli_toolkit.FilePath.{dot, is_abs, clean, join}
use cli_toolkit.FilePath.Clean.{is_abs-clean, clean-clean}
use cli_toolkit.FilePath.Join.{is_abs-join}
use cli_toolkit.Jail.Boundary.{is_abs-not_empty}
use cli_toolkit.TestEnv.{lookup, TestEnv, getwd, expand_path, absolute, resolve_path}

-- An absolute path in its clean form.
abbrev pub IsVirtual : Bytes → Type 0
IsVirtual p = (is_abs p ≡ true) × (clean p ≡ p)

-- The working directory is unset, or absolute and clean.
abbrev pub HasRoot : TestEnv → Type 0
HasRoot env = (lookup env.vars (codes "PWD") ≡ []) ⊎ IsVirtual (lookup env.vars (codes "PWD"))

getwd-eq-some :
    (env : TestEnv) (wd : Bytes)
    → getwd env ≡ some wd
    → (is_empty (lookup env.vars (codes "PWD")) ≡ false) × (lookup env.vars (codes "PWD") ≡ wd)
unfolding getwd
getwd-eq-some env wd h = ground arith

getwd-HasRoot : (env : TestEnv) (wd : Bytes) → HasRoot env → getwd env ≡ some wd → IsVirtual wd
getwd-HasRoot env wd r h =
    let (full, same) = getwd-eq-some env wd h in
    elim r [ inl e ↦ absurd (cc (full, ap is_empty e)) | inr v ↦ subst IsVirtual same v ]

absolute-eq-some :
    (env : TestEnv) (e p : Bytes)
    → absolute env e ≡ some p
    → ((is_abs e ≡ true) × (p ≡ e))
      ⊎ ((wd : Bytes) × (getwd env ≡ some wd) × (p ≡ join (wd ∷ e ∷ [])))
unfolding absolute
absolute-eq-some env e p h = elim (Bool-cases (is_abs e)) [
  | inl a ↦ inl (a, ground arith)
  | inr a ↦ elim (Option-cases (getwd env)) [
    | inl w ↦ absurd (ground arith)
    | inr (wd, w) ↦ inr (wd, w, ground arith)
  ]
]

absolute-HasRoot :
    (env : TestEnv) (e p : Bytes) → HasRoot env → absolute env e ≡ some p → is_abs p ≡ true
absolute-HasRoot env e p r h = elim (absolute-eq-some env e p h) [
  | inl (a, same) ↦ ap is_abs same ∙ a
  | inr (wd, w, same) ↦
      let (wd_abs, _) = getwd-HasRoot env wd r w in
      ap is_abs same ∙ is_abs-join wd e (is_abs-not_empty wd wd_abs) ∙ wd_abs
]

resolve_path-eq-some :
    (ev : Bytes → Option Bytes) (env : TestEnv) (rel p : Bytes)
    → resolve_path ev env rel false ≡ some p
    → (getwd env ≡ some p)
      ⊎ ((path : Bytes) × (absolute env (expand_path env rel) ≡ some path) × (p ≡ clean path))
unfolding resolve_path
resolve_path-eq-some ev env rel p h =
    elim (Bool-cases (bytes_eq (clean rel) dot || is_empty (clean rel))) [
      | inl here ↦ inl (ground arith)
      | inr there ↦ elim (Option-cases (absolute env (expand_path env rel))) [
        | inl a ↦ absurd (ground arith)
        | inr (path, a) ↦ inr (path, a, ground arith)
      ]
    ]

-- Where the working directory is unset, or absolute and clean, a path that ResolvePath finds without
-- following links is absolute and clean, whatever tildes and climbs it was given by.
pub resolve_path-IsVirtual :
    (ev : Bytes → Option Bytes) (env : TestEnv) (rel p : Bytes)
    → HasRoot env
    → resolve_path ev env rel false ≡ some p
    → IsVirtual p
resolve_path-IsVirtual ev env rel p r h = elim (resolve_path-eq-some ev env rel p h) [
  | inl w ↦ getwd-HasRoot env p r w
  | inr (path, a, same) ↦ (
    ap is_abs same ∙ is_abs-clean path ∙ absolute-HasRoot env (expand_path env rel) path r a,
    ap clean same ∙ clean-clean path ∙ sym same,
  )
]
