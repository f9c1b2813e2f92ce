-- ===== src/Runtime/Paths.antt =====
-- The paths that `Runtime` answers with: AbsPath and Getwd (toolkit/runtime.go).
use cli_toolkit.Base.{Bool, true, false, [], ◌∷◌, Bytes, ◌≡◌, refl, sym, ◌∙◌, subst, is_blank}
use cli_toolkit.FilePath.{is_abs, clean, join}
use cli_toolkit.FilePath.Clean.{is_abs-clean, clean-clean}
use cli_toolkit.FilePath.Join.{is_abs-join}
use cli_toolkit.Jail.Boundary.{is_abs-not_empty}
use cli_toolkit.OsFs.Confined.{is_abs-not_blank}
use cli_toolkit.Runtime.{
  validate, if_no_wd, normalize_state, getwd, expanded, absolute, located, abs_path,
}
use cli_toolkit.Runtime.Base.{
  Environment, FileSystem, Outcome, done, fail, Runtime, M, ◌>>=◌, bind_outcome, pure,
}
use cli_toolkit.Runtime.Sync.{validate-state}

module _ (E : Environment) (F : FileSystem) (rt : Runtime E F) where
  -- The runtime is left as it was, and a result has the property.
  abbrev pub Yields {ℓ} : {A : Type ℓ} → (A → Type 0) → Runtime E F × Outcome A → Type 0
  Yields Q (rt', done a) = (rt' ≡ rt) × Q a
  Yields Q (rt', fail e) = rt' ≡ rt

  pub Yields-bind {ℓ κ} :
      {A : Type ℓ} {B : Type κ} (Q : A → Type 0) (R : B → Type 0) (k : A → M (Runtime E F) B)
      (o : Runtime E F × Outcome A)
      → Yields Q o
      → ((a : A) → Q a → Yields R (k a rt))
      → Yields R (bind_outcome o k)
  Yields-bind Q R k (rt', done a) (same, q) hk = subst (λ r. Yields R (k a r)) (sym same) (hk a q)
  Yields-bind Q R k (rt', fail e) same hk = same

  Yields-any {ℓ} : {A : Type ℓ} (o : Runtime E F × Outcome A) → o.0 ≡ rt → Yields (λ a. Unit {0}) o
  Yields-any (rt', done a) same = (same, tt)
  Yields-any (rt', fail e) same = same

  pub validate-Yields : Yields (λ u. Unit {0}) (validate E F rt)
  validate-Yields = Yields-any (validate E F rt) (validate-state E F rt)

  pub if_set :
      (m : M (Runtime E F) (Unit {0})) → is_abs rt.wd ≡ true → if_no_wd E F m rt ≡ (rt, done tt)
  if_set m h = rw (is_abs-not_blank rt.wd h, if_no_wd) refl

  getwd-Yields : is_abs rt.wd ≡ true → Yields (λ wd. is_abs wd ≡ true) (getwd E F rt)
  unfolding getwd
  getwd-Yields h =
      Yields-bind (λ u. Unit {0}) (λ wd. is_abs wd ≡ true) _ (validate E F rt) validate-Yields
        (λ u _. rw (if_set (normalize_state E F) h) (refl, h))

  expanded-Yields : (path : Bytes) → Yields (λ p. Unit {0}) (expanded E F path rt)
  unfolding expanded
  expanded-Yields path = Yields-any _ refl

  absolute-Yields :
      (p : Bytes) → is_abs rt.wd ≡ true → Yields (λ q. is_abs q ≡ true) (absolute E F p rt)
  unfolding absolute
  absolute-Yields p h = on_test (is_abs p) refl
    where
      on_test :
          (b : Bool)
          → is_abs p ≡ b
          → Yields
              (λ q. is_abs q ≡ true)
              ((elim b as (λ _. M (Runtime E F) Bytes) [
                | true ↦ pure p
                | false ↦ getwd E F >>= λ cwd. pure (join (cwd ∷ p ∷ []))
              ])
                rt)
      on_test true e = (refl, e)
      on_test false e =
          Yields-bind (λ wd. is_abs wd ≡ true) _ (λ cwd. pure (join (cwd ∷ p ∷ []))) (getwd E F rt)
            (getwd-Yields h) (λ cwd hc. (refl, is_abs-join cwd p (is_abs-not_empty cwd hc) ∙ hc))

  located-Yields :
      (path : Bytes) → is_abs rt.wd ≡ true → Yields (λ q. is_abs q ≡ true) (located E F path rt)
  unfolding located
  located-Yields path h =
      Yields-bind (λ q. Unit {0}) (λ q. is_abs q ≡ true) (absolute E F) (expanded E F path rt)
        (expanded-Yields path) (λ p _. absolute-Yields p h)

  -- AbsPath of a path that is not blank, on a runtime with an absolute working directory, leaves the
  -- runtime as it is whether it succeeds or fails; the path that it gives is absolute and clean.
  abs_path-Yields :
      (path : Bytes)
      → is_abs rt.wd ≡ true
      → is_blank path ≡ false
      → Yields (λ p. (is_abs p ≡ true) × (clean p ≡ p)) (abs_path E F path rt)
  unfolding abs_path
  abs_path-Yields path h given = on_test (is_blank path) given
    where
      on_test :
          (b : Bool)
          → b ≡ false
          → Yields
              (λ p. (is_abs p ≡ true) × (clean p ≡ p))
              ((elim b as (λ _. M (Runtime E F) Bytes) [
                | true ↦ pure []
                | false ↦ validate E F >>= λ _. located E F path >>= λ p. pure (clean p)
              ])
                rt)
      on_test true e = absurd cc
      on_test false e =
          Yields-bind (λ u. Unit {0}) _ (λ u. located E F path >>= λ p. pure (clean p))
            (validate E F rt) validate-Yields
            (λ u _.
              Yields-bind (λ q. is_abs q ≡ true) _ (λ p. pure (clean p)) (located E F path rt)
                (located-Yields path h) (λ p hp. (refl, (is_abs-clean p ∙ hp, clean-clean p))))
