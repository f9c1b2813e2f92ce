-- ===== src/Runtime/Kept.antt =====
-- The methods of `Runtime` keep its parts in one jail, whether they succeed or fail.
use cli_toolkit.Base.{
  Bool, true, false, [], ◌∷◌, Option, none, some, Bytes, ◌≡◌, refl, sym, ap, ◌∙◌, subst, is_empty,
  is_blank,
}
use cli_toolkit.FilePath.{is_abs, clean, join}
use cli_toolkit.Jail.{root}
use cli_toolkit.Jail.Boundary.{is_abs-not_empty}
use cli_toolkit.OsFs.Base.{Result}
use cli_toolkit.Runtime.{
  is_set, validate, put_wd, put_jail, push_jail, found_jail, apply_working_dir, normalize_state,
  normalize_path, usable, or_else, wd_from_fs, find_wd, if_no_wd, getwd, expanded, absolute,
  located,
}
use cli_toolkit.Runtime.Base.{
  Environment, FileSystem, History, Fault, nil_env, nil_fs, nil_clock, nil_logger, nil_stream,
  nil_hasher, Outcome, done, fail, Runtime, M, ◌>>=◌, ◌>>◌, bind_outcome, attempt, attempt_on, pure,
  throw, gets, need, on_fs, on_env, ask_env, run_fs, put_fs, run_env, put_env,
}
use cli_toolkit.Runtime.Contract.{
  IsEnvironment, IsFileSystem, FsReady, EnvJail, CallsInside, InJail, Keeps,
}

module _ (E : Environment) (F : FileSystem) (lf : IsFileSystem F) (j : Bytes) where
  abbrev In : Runtime E F → Type 0
  In rt = InJail E F lf j rt

  abbrev Kept {ℓ} : {A : Type ℓ} → M (Runtime E F) A → Type 0
  Kept m = Keeps E F lf j m

  pub after_bind {ℓ κ} :
      {A : Type ℓ} {B : Type κ} (k : A → M (Runtime E F) B) (o : Runtime E F × Outcome A)
      → In o.0
      → ((a : A) → Kept (k a))
      → In (bind_outcome o k).0
  unfolding Keeps
  after_bind k (rt, done a) h hk = hk a rt h
  after_bind k (rt, fail e) h hk = h

  pub bind-Keeps {ℓ κ} :
      {A : Type ℓ} {B : Type κ} (m : M (Runtime E F) A) (k : A → M (Runtime E F) B)
      → Kept m
      → ((a : A) → Kept (k a))
      → Kept (m >>= k)
  unfolding Keeps
  bind-Keeps m k hm hk rt h = after_bind k (m rt) (hm rt h) hk

  pub then-Keeps {ℓ κ} :
      {A : Type ℓ} {B : Type κ} (m : M (Runtime E F) A) (k : M (Runtime E F) B)
      → Kept m
      → Kept k
      → Kept (m >> k)
  unfolding Keeps
  then-Keeps m k hm hk rt h = after_bind (λ _. k) (m rt) (hm rt h) (λ _. hk)

  after_attempt {ℓ κ} :
      {A : Type ℓ} {B : Type κ} (k : Outcome A → M (Runtime E F) B) (o : Runtime E F × Outcome A)
      → In o.0
      → ((r : Outcome A) → Kept (k r))
      → In (attempt_on o k).0
  unfolding Keeps
  after_attempt k (rt, r) h hk = hk r rt h

  pub attempt-Keeps {ℓ κ} :
      {A : Type ℓ} {B : Type κ} (m : M (Runtime E F) A) (k : Outcome A → M (Runtime E F) B)
      → Kept m
      → ((r : Outcome A) → Kept (k r))
      → Kept (attempt m k)
  unfolding Keeps
  attempt-Keeps m k hm hk rt h = after_attempt k (m rt) (hm rt h) hk

  pub on_fs-Keeps {ℓ} :
      {A : Type ℓ} (f : History → F.State → F.State × Result A)
      → ((h : History) (s : F.State) → lf.Ready j s → lf.Ready j (f h s).0)
      → Kept (on_fs f)
  unfolding Keeps on_fs
  on_fs-Keeps {A = A} f hf rt h = run rt rt.fs h
    where
      put :
          (rt : Runtime E F) (o : F.State × Result A)
          → (rt.jail ≡ j) × lf.Ready j o.0 × EnvJail E F lf j rt.env × CallsInside E F lf rt.calls
          → In (put_fs rt o).0
      put rt (s, r) h = h

      run :
          (rt : Runtime E F) (fs : Option F.State)
          → (rt.jail ≡ j)
            × FsReady E F lf j fs
            × EnvJail E F lf j rt.env
            × CallsInside E F lf rt.calls
          → In (run_fs (f rt.calls) fs rt).0
      run rt none h = absurd h.1
      run rt (some s) (a, b, c, d) = put rt (f rt.calls s) (a, hf rt.calls s b, c, d)

  -- A change of the environment that leaves it in the jail.
  abbrev pub StaysIn : (E.State → Option E.State) → Type 0
  StaysIn f = (s s' : E.State) → E.get_jail s ≡ j → f s ≡ some s' → E.get_jail s' ≡ j

  pub on_env-Keeps : (f : E.State → Option E.State) → StaysIn f → Kept (on_env f)
  unfolding Keeps on_env
  on_env-Keeps f hf rt h = run rt rt.env h h.2
    where
      put :
          (rt : Runtime E F) (s : E.State) (o : Option E.State)
          → f s ≡ o
          → E.get_jail s ≡ j
          → In rt
          → In (put_env rt o).0
      put rt s none e hs h = h
      put rt s (some s') e hs (a, b, c, d) = (a, b, hf s s' hs e, d)

      run :
          (rt : Runtime E F) (env : Option E.State)
          → In rt
          → EnvJail E F lf j env
          → In (run_env f env rt).0
      run rt none h he = absurd he
      run rt (some s) h he = put rt s (f s) refl he h

  pub put_wd-Keeps : (wd : Bytes) → Kept (put_wd E F wd)
  unfolding Keeps put_wd
  put_wd-Keeps wd rt h = h

  need-Keeps : (test : Runtime E F → Bool) (e : Fault) → Kept (need test e)
  unfolding Keeps
  need-Keeps test e rt h = h

  pub validate-Keeps : Kept (validate E F)
  unfolding validate
  validate-Keeps = then-Keeps _ _ (need-Keeps (λ rt. is_set rt.env) nil_env) (
      then-Keeps _ _ (need-Keeps (λ rt. is_set rt.fs) nil_fs) (
        then-Keeps _ _ (need-Keeps (λ rt. is_set rt.clock) nil_clock) (
          then-Keeps _ _ (need-Keeps (λ rt. is_set rt.logger) nil_logger) (
            then-Keeps _ _ (need-Keeps (λ rt. is_set rt.stream) nil_stream)
              (need-Keeps (λ rt. is_set rt.hasher) nil_hasher)))))

  getwd_call-Keeps : Kept (on_fs F.getwd)
  getwd_call-Keeps = on_fs-Keeps F.getwd (lf.getwd_ready j)

  wd_from_fs-Keeps : (wd : Option Bytes) → Kept (wd_from_fs E F wd)
  unfolding wd_from_fs
  wd_from_fs-Keeps none =
      attempt-Keeps (on_fs F.getwd) _ getwd_call-Keeps (λ r. put_wd-Keeps (or_else (usable r) root))
  wd_from_fs-Keeps (some wd) = put_wd-Keeps wd

  pub ask_env-Keeps {ℓ} : {A : Type ℓ} (f : E.State → Option A) → Kept (ask_env f)
  unfolding Keeps ask_env
  ask_env-Keeps f rt h = h

  pub find_wd-Keeps : Kept (find_wd E F)
  unfolding find_wd
  find_wd-Keeps =
      attempt-Keeps (ask_env E.getwd) _ (ask_env-Keeps E.getwd) (λ r. wd_from_fs-Keeps (usable r))

  pub if_no_wd-Keeps : (m : M (Runtime E F) (Unit {0})) → Kept m → Kept (if_no_wd E F m)
  unfolding Keeps
  if_no_wd-Keeps m hm rt h = on_test (is_blank rt.wd)
    where
      on_test :
          (b : Bool)
          → In
              (elim b as (λ _. Runtime E F × Outcome (Unit {0})) [
                | true ↦ m rt
                | false ↦ (rt, done tt)
              ]).0
      on_test true = hm rt h
      on_test false = h

  pub pure-Keeps {ℓ} : {A : Type ℓ} (a : A) → Kept (pure a)
  unfolding Keeps
  pure-Keeps a rt h = h

  pub Keeps_branch {ℓ} :
      {A : Type ℓ} (b : Bool) (m m' : M (Runtime E F) A)
      → Kept m
      → Kept m'
      → Kept (elim b as (λ _. M (Runtime E F) A) [ true ↦ m | false ↦ m' ])
  Keeps_branch true m m' h h' = h
  Keeps_branch false m m' h h' = h'

  pub throw-Keeps {ℓ} : (A : Type ℓ) (e : Fault) → Kept {ℓ} (throw {A = A} e)
  unfolding Keeps
  throw-Keeps A e rt h = h

  pub gets-Keeps {ℓ} : {A : Type ℓ} (f : Runtime E F → A) → Kept (gets f)
  unfolding Keeps
  gets-Keeps f rt h = h

  pub put_jail-Keeps : Kept (put_jail E F j)
  unfolding Keeps put_jail
  put_jail-Keeps rt h = (refl, h.1, h.2, h.3)

  pub expanded-Keeps : (path : Bytes) → Kept (expanded E F path)
  unfolding Keeps expanded
  expanded-Keeps path rt h = h

  module _ (le : IsEnvironment E) where
    pub apply_working_dir-Keeps : (d : Bytes) → Keeps E F lf j (apply_working_dir E F d)
    unfolding apply_working_dir
    apply_working_dir-Keeps d =
        then-Keeps (on_fs (F.setwd (normalize_path d))) _
          (on_fs-Keeps _ (lf.setwd_ready (normalize_path d) j))
          (then-Keeps (on_env (E.setwd (normalize_path d))) _
            (on_env-Keeps _ (λ s s' hs e. le.jail-setwd (normalize_path d) s s' e ∙ hs))
            (attempt-Keeps (on_fs F.getwd) _ (on_fs-Keeps F.getwd (lf.getwd_ready j))
              (λ r. put_wd-Keeps (or_else (usable r) (normalize_path d)))))

    module _ (hj : is_abs j ≡ true) (hc : clean j ≡ j) where
      pub push_jail-Keeps : Keeps E F lf j (push_jail E F j)
      unfolding push_jail
      push_jail-Keeps =
          then-Keeps (on_fs (F.set_jail j)) _
            (on_fs-Keeps _ (λ h s r. (lf.set_jail_ready j h s (lf.ready_valid j s r) hj hc).0))
            (on_env-Keeps _ (λ s s' hs e. let (s'', e', at) = le.jail-set_jail j s hj hc in cc))

      found_jail_kept : (rt : Runtime E F) → InJail E F lf j rt → found_jail E F rt ≡ j
      unfolding found_jail
      found_jail_kept rt h = rw (ap is_empty h.0 ∙ is_abs-not_empty j hj) h.0

      after_found :
          (k : Bytes → M (Runtime E F) (Unit {0}))
          → Keeps E F lf j (k j)
          → Keeps E F lf j (gets (found_jail E F) >>= k)
      unfolding Keeps
      after_found k hk rt h =
          subst (λ i. InJail E F lf j (k i rt).0) (sym (found_jail_kept rt h)) (hk rt h)

      pub normalize_state-Keeps : Keeps E F lf j (normalize_state E F)
      unfolding normalize_state
      normalize_state-Keeps = then-Keeps _ _ (need-Keeps (λ rt. is_set rt.env) nil_env) (
          then-Keeps _ _ (need-Keeps (λ rt. is_set rt.fs) nil_fs) (
            after_found
              (λ jail. do
                put_jail E F jail
                push_jail E F jail
                if_no_wd E F (find_wd E F)
                wd ← gets (λ rt. rt.wd)
                apply_working_dir E F wd)
              (then-Keeps _ _ put_jail-Keeps (
                then-Keeps _ _ push_jail-Keeps (
                  then-Keeps _ _ (if_no_wd-Keeps _ find_wd-Keeps)
                    (bind-Keeps _ _ (gets-Keeps (λ rt. rt.wd)) apply_working_dir-Keeps))))))

      pub getwd-Keeps : Keeps E F lf j (getwd E F)
      unfolding getwd
      getwd-Keeps =
          then-Keeps _ _ validate-Keeps
            (then-Keeps _ _ (if_no_wd-Keeps _ normalize_state-Keeps) (gets-Keeps (λ rt. rt.wd)))

      absolute-Keeps : (p : Bytes) → Keeps E F lf j (absolute E F p)
      unfolding absolute
      absolute-Keeps p =
          Keeps_branch (is_abs p) _ _ (pure-Keeps p)
            (bind-Keeps _ _ getwd-Keeps (λ cwd. pure-Keeps (join (cwd ∷ p ∷ []))))

      pub located-Keeps : (path : Bytes) → Keeps E F lf j (located E F path)
      unfolding located
      located-Keeps path = bind-Keeps _ _ (expanded-Keeps path) absolute-Keeps
