-- ===== src/Runtime/Confined.antt =====
-- The methods of `Runtime` on paths, on the environment and on files keep its parts in one jail, and what
-- they ask of the host is inside it.
use cli_toolkit.Base.{
  Bool, true, false, ◌||◌, [], ◌∷◌, Option, none, some, Bytes, ◌≡◌, refl, sym, ◌∙◌, subst, is_blank,
  bytes_eq,
}
use cli_toolkit.FilePath.{dot, is_abs, clean, rel, dir}
use cli_toolkit.OsFs.Base.{Result, ok, err}
use cli_toolkit.OsFs.Calls.{Call}
use cli_toolkit.OsFs.Methods.{Method, do_mkdir}
use cli_toolkit.Runtime.{
  or_else, path_or, resolve_working_dir, setwd, abs_path, resolve_path, relative_path, set,
  set_home, set_user, unset,
}
use cli_toolkit.Runtime.Base.{Environment, FileSystem, Outcome, done, Runtime, M}
use cli_toolkit.Runtime.Files.{
  Reply, answer, act_on, act, act_at, act_below, act_between, rel_between,
}
use cli_toolkit.Runtime.Contract.{
  IsEnvironment, IsFileSystem, Throughout-snoc, FsReady, EnvJail, InJail, Keeps,
}
use cli_toolkit.Runtime.Kept.{
  bind-Keeps, then-Keeps, attempt-Keeps, on_fs-Keeps, on_env-Keeps, validate-Keeps,
  apply_working_dir-Keeps, getwd-Keeps, located-Keeps, pure-Keeps, Keeps_branch,
}

module _ (E : Environment) (F : FileSystem) (lf : IsFileSystem F) (j : Bytes) (le : IsEnvironment E)
    (hj : is_abs j ≡ true) (hc : clean j ≡ j) where
  abbrev Kept {ℓ} : {A : Type ℓ} → M (Runtime E F) A → Type 0
  Kept m = Keeps E F lf j m

  resolve_working_dir-Keeps : (d : Bytes) → Kept (resolve_working_dir E F d)
  unfolding resolve_working_dir
  resolve_working_dir-Keeps d =
      Keeps_branch E F lf j (is_blank d || bytes_eq d dot) _ _ (getwd-Keeps E F lf j le hj hc) (
        bind-Keeps E F lf j _ _ (located-Keeps E F lf j le hj hc d) (λ p.
          bind-Keeps E F lf j _ _
            (on_fs-Keeps E F lf j (F.resolve_path (clean p) false)
              (lf.resolve_path_ready (clean p) false j))
            (λ q. pure-Keeps E F lf j (clean q))))

  pub setwd-Keeps : (d : Bytes) → Kept (setwd E F d)
  unfolding setwd
  setwd-Keeps d =
      then-Keeps E F lf j _ _ (validate-Keeps E F lf j) (
        bind-Keeps E F lf j _ _ (resolve_working_dir-Keeps d) (apply_working_dir-Keeps E F lf j le))

  pub abs_path-Keeps : (path : Bytes) → Kept (abs_path E F path)
  unfolding abs_path
  abs_path-Keeps path = Keeps_branch E F lf j (is_blank path) _ _ (pure-Keeps E F lf j []) (
      then-Keeps E F lf j _ _ (validate-Keeps E F lf j) (
        bind-Keeps E F lf j _ _ (located-Keeps E F lf j le hj hc path)
          (λ p. pure-Keeps E F lf j (clean p))))

  pub resolve_path-Keeps : (path : Bytes) (follow : Bool) → Kept (resolve_path E F path follow)
  unfolding resolve_path
  resolve_path-Keeps path follow = then-Keeps E F lf j _ _ (validate-Keeps E F lf j) (
      bind-Keeps E F lf j _ _
        (Keeps_branch E F lf j (is_blank path || bytes_eq path dot) _ _
          (getwd-Keeps E F lf j le hj hc) (located-Keeps E F lf j le hj hc path))
        (λ p.
          on_fs-Keeps E F lf j (F.resolve_path (clean p) follow)
            (lf.resolve_path_ready (clean p) follow j)))

  pub relative_path-Keeps : (base path : Bytes) → Kept (relative_path E F base path)
  unfolding relative_path
  relative_path-Keeps base path = attempt-Keeps E F lf j _ _ (abs_path-Keeps base) (λ b.
      attempt-Keeps E F lf j _ _ (abs_path-Keeps path) (λ t.
        pure-Keeps E F lf j
          (or_else (rel (path_or E F b base) (path_or E F t path)) (path_or E F t path))))

  pub set-Keeps : (key value : Bytes) → Kept (set E F key value)
  unfolding set
  set-Keeps key value = then-Keeps E F lf j _ _ (validate-Keeps E F lf j) (
      Keeps_branch E F lf j (bytes_eq key (b'P' ∷ b'W' ∷ b'D' ∷ [])) _ _ (setwd-Keeps value)
        (on_env-Keeps E F lf j (E.set key value) (λ s s' hs e. le.jail-set key value s s' e ∙ hs)))

  pub set_home-Keeps : (home : Bytes) → Kept (set_home E F home)
  unfolding set_home
  set_home-Keeps home =
      then-Keeps E F lf j _ _ (validate-Keeps E F lf j)
        (on_env-Keeps E F lf j (E.set_home home) (λ s s' hs e. le.jail-set_home home s s' e ∙ hs))

  pub set_user-Keeps : (user : Bytes) → Kept (set_user E F user)
  unfolding set_user
  set_user-Keeps user =
      then-Keeps E F lf j _ _ (validate-Keeps E F lf j)
        (on_env-Keeps E F lf j (E.set_user user) (λ s s' hs e. le.jail-set_user user s s' e ∙ hs))

  pub unset-Keeps : (key : Bytes) → Kept (unset E F key)
  unfolding Keeps unset
  unset-Keeps key rt h = on_unset rt.env h.2
    where
      on_unset :
          (env : Option E.State)
          → EnvJail E F lf j env
          → InJail E F lf j
              (elim env as (λ _. Runtime E F × Outcome (Unit {0})) [
                | none ↦ (rt, done tt)
                | some s ↦ (record rt { env = some (E.unset key s) }, done tt)
              ]).0
      on_unset none he = absurd he
      on_unset (some s) he = (h.0, h.1, le.jail-unset key s ∙ he, h.3)

  module _ (reply : Reply) where
    pub act-Keeps : (m : Method) → Kept (act E F reply m)
    unfolding Keeps act
    act-Keeps m rt h = on_state rt.fs h.1
      where
        on_answer :
            (s : F.State) (o : F.State × Result Call)
            → F.act m rt.calls s ≡ o
            → lf.Ready j s
            → InJail E F lf j (answer E F reply rt o).0
        on_answer s (s', err e) eq r =
            (h.0, subst (λ p. lf.Ready j p.0) eq (lf.act_ready m j rt.calls s r), h.2, h.3)
        on_answer s (s', ok c) eq r = (
          h.0,
          subst (λ p. lf.Ready j p.0) eq (lf.act_ready m j rt.calls s r),
          h.2,
          Throughout-snoc lf.Inside [] rt.calls rt.jail c h.3 (
              subst (λ i. lf.Inside rt.calls i c) (sym h.0)
                (lf.act_inside m j rt.calls s s' c r eq)),
        )

        on_state :
            (fs : Option F.State)
            → FsReady E F lf j fs
            → InJail E F lf j (act_on E F reply m fs rt).0
        on_state none r = absurd r
        on_state (some s) r = on_answer s (F.act m rt.calls s) refl r

    pub act_at-Keeps :
        (path : Bytes) (follow : Bool) (m : Bytes → Method) → Kept (act_at E F reply path follow m)
    unfolding act_at
    act_at-Keeps path follow m =
        then-Keeps E F lf j _ _ (validate-Keeps E F lf j)
          (bind-Keeps E F lf j _ _ (resolve_path-Keeps path follow) (λ p. act-Keeps (m p)))

    pub act_below-Keeps : (path : Bytes) (m : Bytes → Method) → Kept (act_below E F reply path m)
    unfolding act_below
    act_below-Keeps path m = then-Keeps E F lf j _ _ (validate-Keeps E F lf j) (
        bind-Keeps E F lf j _ _ (resolve_path-Keeps path false) (λ p.
          bind-Keeps E F lf j _ _ (act-Keeps (do_mkdir (dir p) 493 true)) (λ c. act-Keeps (m p))))

    pub act_between-Keeps :
        (path path' : Bytes) (m : Bytes → Bytes → Method)
        → Kept (act_between E F reply path path' m)
    unfolding act_between
    act_between-Keeps path path' m = then-Keeps E F lf j _ _ (validate-Keeps E F lf j) (
        bind-Keeps E F lf j _ _ (resolve_path-Keeps path false)
          (λ p. bind-Keeps E F lf j _ _ (resolve_path-Keeps path' false) (λ q. act-Keeps (m p q))))

    pub rel_between-Keeps : (base target : Bytes) → Kept (rel_between E F reply base target)
    unfolding rel_between
    rel_between-Keeps base target = then-Keeps E F lf j _ _ (validate-Keeps E F lf j) (
        bind-Keeps E F lf j _ _ (resolve_path-Keeps base false) (λ p.
          bind-Keeps E F lf j _ _ (resolve_path-Keeps target false)
            (λ q. on_fs-Keeps E F lf j (F.rel p q) (lf.rel_ready p q j))))
