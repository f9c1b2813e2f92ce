-- ===== src/Runtime/Sync.antt =====
-- SetJail and the end of NewRuntime bring the runtime, its environment and its file system into one jail.
use cli_toolkit.Base.{
  true, List, Option, none, some, Bytes, ◌≡◌, refl, sym, ap, ◌∙◌, arith, ◌⊎◌, inl, inr,
}
use cli_toolkit.FilePath.{is_abs, clean}
use cli_toolkit.FilePath.Clean.{is_abs-clean, clean-clean}
use cli_toolkit.Jail.{root, clean_jail}
use cli_toolkit.OsFs.Base.{Result, ok, err}
use cli_toolkit.OsFs.Confined.{is_abs-not_blank}
use cli_toolkit.Runtime.{
  is_set, validate, put_jail, push_jail, found_jail, normalize_state, fall_back, set_jail,
}
use cli_toolkit.Runtime.Base.{
  Environment, FileSystem, Outcome, done, fail, Runtime, M, ◌>>◌, bind_outcome, pure, throw, on_fs,
  on_env, run_fs, put_fs, run_env,
}
use cli_toolkit.Runtime.Options.{RuntimeOption, apply_options, new_runtime}
use cli_toolkit.Runtime.Contract.{
  IsEnvironment, IsFileSystem, FsReady, FsValid, CallsInside, InJail, Keeps,
}
use cli_toolkit.Runtime.Kept.{
  validate-Keeps, after_bind, throw-Keeps, bind-Keeps, then-Keeps, attempt-Keeps, put_wd-Keeps,
  pure-Keeps, gets-Keeps, if_no_wd-Keeps, find_wd-Keeps, apply_working_dir-Keeps,
}

module _ (E : Environment) (F : FileSystem) where
  pub validate-done :
      (rt : Runtime E F)
      → (validate E F rt).1 ≡ done tt
      → (is_set rt.env ≡ true) × (is_set rt.fs ≡ true) × (validate E F rt ≡ (rt, done tt))
  unfolding validate
  validate-done rt h = ground arith

  pub validate-state : (rt : Runtime E F) → (validate E F rt).0 ≡ rt
  unfolding validate
  validate-state rt = ground arith

  -- A runtime that is not valid is refused by SetJail, and left as it is.
  pub set_jail-branches :
      (p : Bytes) (rt : Runtime E F)
      → ((validate E F rt).1 ≡ done tt) ⊎ ((set_jail E F p rt).0 ≡ rt)
  unfolding set_jail
  set_jail-branches p rt = on_outcome (validate E F rt) refl
    where
      on_outcome :
          (o : Runtime E F × Outcome (Unit {0}))
          → validate E F rt ≡ o
          → ((validate E F rt).1 ≡ done tt) ⊎ ((set_jail E F p rt).0 ≡ rt)
      on_outcome (rt', done u) h = inl (ap (λ o. o.1) h)
      on_outcome (rt', fail e) h = inr (rw h (sym (ap (λ o. o.0) h) ∙ validate-state rt))

  -- normalizeState refuses a runtime with no environment or no file system.
  normalized :
      (rt : Runtime E F)
      → ((normalize_state E F >> validate E F) rt).1 ≡ done tt
      → (is_set rt.env ≡ true) × (is_set rt.fs ≡ true)
  unfolding normalize_state
  normalized rt h = ground arith

  module _ (le : IsEnvironment E) (lf : IsFileSystem F) (j : Bytes) (hj : is_abs j ≡ true)
      (hc : clean j ≡ j) where
    -- The jail reaches the environment, and before it the file system.
    env_moved :
        (rt : Runtime E F)
        → rt.jail ≡ j
        → FsReady E F lf j rt.fs
        → is_set rt.env ≡ true
        → CallsInside E F lf rt.calls
        → InJail E F lf j (on_env (E.set_jail j) rt).0
    unfolding on_env
    env_moved rt same ready env_set made = on_state rt.env env_set
      where
        on_state :
            (env : Option E.State)
            → is_set env ≡ true
            → InJail E F lf j (run_env (E.set_jail j) env rt).0
        on_state none h = absurd cc
        on_state (some s) h =
            let (s', e, at) = le.jail-set_jail j s hj hc in rw e (same, ready, at, made)

    push_jail-InJail :
        (rt : Runtime E F)
        → rt.jail ≡ j
        → FsValid E F lf rt.fs
        → is_set rt.env ≡ true
        → CallsInside E F lf rt.calls
        → InJail E F lf j (push_jail E F j rt).0
    unfolding push_jail on_fs
    push_jail-InJail rt same valid env_set made = on_state rt.fs valid
      where
        on_set :
            (o : F.State × Result (Unit {0}))
            → lf.Ready j o.0
            → o.1 ≡ ok tt
            → InJail E F lf j (bind_outcome (put_fs rt o) (λ _. on_env (E.set_jail j))).0
        on_set (s, ok u) ready h = env_moved (record rt { fs = some s }) same ready env_set made
        on_set (s, err e) ready h = absurd cc

        on_state :
            (fs : Option F.State)
            → FsValid E F lf fs
            → InJail E F lf j
                (bind_outcome (run_fs (F.set_jail j rt.calls) fs rt) (λ _. on_env (E.set_jail j))).0
        on_state none v = absurd v
        on_state (some s) v =
            let (ready, set) = lf.set_jail_ready j rt.calls s v hj hc in
            on_set (F.set_jail j rt.calls s) ready set

    pub fall_back-Keeps : (r : Outcome (Unit {0})) → Keeps E F lf j (fall_back E F r)
    unfolding fall_back
    fall_back-Keeps (done u) = pure-Keeps E F lf j tt
    fall_back-Keeps (fail e) =
        attempt-Keeps E F lf j _ _ (apply_working_dir-Keeps E F lf j le root) retried
      where
        retried :
            (r : Outcome (Unit {0}))
            → Keeps E F lf j (elim r as (λ _. M (Runtime E F) (Unit {0})) [
              | done u ↦ pure tt
              | fail e' ↦ throw e
            ])
        retried (done u) = pure-Keeps E F lf j tt
        retried (fail e') = throw-Keeps E F lf j (Unit {0}) e

    -- normalizeState from a state that has, or takes over, the jail.
    pub normalize_state-InJail :
        (rt : Runtime E F)
        → found_jail E F rt ≡ j
        → is_set rt.env ≡ true
        → is_set rt.fs ≡ true
        → FsValid E F lf rt.fs
        → CallsInside E F lf rt.calls
        → InJail E F lf j (normalize_state E F rt).0
    unfolding normalize_state put_jail
    normalize_state-InJail rt same env_set fs_set valid made =
        let moved = push_jail-InJail (record rt { jail = j }) refl valid env_set made in
        rw (env_set, fs_set, same)
          (after_bind E F lf j _ _ moved (λ u.
            then-Keeps E F lf j _ _ (if_no_wd-Keeps E F lf j _ (find_wd-Keeps E F lf j)) (
              bind-Keeps E F lf j _ _ (gets-Keeps E F lf j (λ rt. rt.wd))
                (apply_working_dir-Keeps E F lf j le))))

  -- Whatever state the parts are in, SetJail of an absolute path on a runtime that is valid leaves the
  -- runtime, its environment and its file system in that one jail, cleaned, also where the working
  -- directory can then not be set and SetJail fails.
  pub set_jail-InJail :
      (le : IsEnvironment E) (lf : IsFileSystem F) (p : Bytes) (rt : Runtime E F)
      → is_abs p ≡ true
      → (validate E F rt).1 ≡ done tt
      → FsValid E F lf rt.fs
      → CallsInside E F lf rt.calls
      → InJail E F lf (clean p) (set_jail E F p rt).0
  unfolding set_jail put_jail
  set_jail-InJail le lf p rt hp ok_rt valid made =
      let (env_set, fs_set, whole) = validate-done rt ok_rt in
      let cleaned : clean_jail p ≡ clean p = unfold clean_jail in rw (is_abs-not_blank p hp) in
      let at : is_abs (clean p) ≡ true = is_abs-clean p ∙ hp in
      let moved =
        push_jail-InJail le lf (clean p) at (clean-clean p) (record rt { jail = clean p }) refl
          valid env_set made in
      rw (whole, cleaned)
        (after_bind E F lf (clean p) _ _ moved (λ u.
          then-Keeps E F lf (clean p) _ _
            (if_no_wd-Keeps E F lf (clean p) _ (put_wd-Keeps E F lf (clean p) root))
            (bind-Keeps E F lf (clean p) _ _ (gets-Keeps E F lf (clean p) (λ rt. rt.wd)) (λ wd.
              attempt-Keeps E F lf (clean p) _ _ (apply_working_dir-Keeps E F lf (clean p) le wd)
                (fall_back-Keeps le lf (clean p) at (clean-clean p))))))

  -- A runtime that NewRuntime makes is in the one jail, with its environment and its file system, that
  -- its options give or else the environment or the file system have already.
  pub new_runtime-InJail :
      (le : IsEnvironment E) (lf : IsFileSystem F) (j : Bytes)
      (opts : List (Option (RuntimeOption E F))) (rt : Runtime E F)
      → is_abs j ≡ true
      → clean j ≡ j
      → found_jail E F (apply_options E F opts rt).0 ≡ j
      → FsValid E F lf (apply_options E F opts rt).0.fs
      → CallsInside E F lf (apply_options E F opts rt).0.calls
      → (new_runtime E F opts rt).1 ≡ done tt
      → InJail E F lf j (new_runtime E F opts rt).0
  unfolding new_runtime
  new_runtime-InJail le lf j opts rt hj hc found valid made ok_rt =
      on_options (apply_options E F opts rt) found valid made ok_rt
    where
      on_options :
          (o : Runtime E F × Outcome (Unit {0}))
          → found_jail E F o.0 ≡ j
          → FsValid E F lf o.0.fs
          → CallsInside E F lf o.0.calls
          → (bind_outcome o (λ _. normalize_state E F >> validate E F)).1 ≡ done tt
          → InJail E F lf j (bind_outcome o (λ _. normalize_state E F >> validate E F)).0
      on_options (rt, fail e) found valid made h = absurd cc
      on_options (rt, done u) found valid made h =
          let (env_set, fs_set) = normalized rt h in
          after_bind E F lf j _ _
            (normalize_state-InJail le lf j hj hc rt found env_set fs_set valid made)
            (λ u. validate-Keeps E F lf j)
