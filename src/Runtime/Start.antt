-- ===== src/Runtime/Start.antt =====
-- NewTestRuntime, the runtime that a sandbox starts from (toolkit/runtime_impl.go).
use cli_toolkit.Base.{
  ℕ, true, List, [], ◌∷◌, ◌++◌, Option, none, some, Bytes, ◌≡◌, refl, sym, ap, ◌∙◌, All, inl, inr,
  Bool-cases,
}
use cli_toolkit.FilePath.{is_abs, elems, clean}
use cli_toolkit.FilePath.Clean.{is_abs-clean, clean-clean}
use cli_toolkit.Jail.{root, clean_jail}
use cli_toolkit.Jail.Boundary.{is_abs-not_empty, is_abs-root, starts_dotdot}
use cli_toolkit.OsFs.{lexical}
use cli_toolkit.OsFs.Base.{Host, OsFs, Result, ok, err}
use cli_toolkit.OsFs.Methods.{new_os_fs}
use cli_toolkit.OsFs.Start.{new_os_fs_lem, start_of}
use cli_toolkit.OsFs.Virtual.{is_abs-lexical}
use cli_toolkit.OsFs.Confined.{is_abs-not_blank}
use cli_toolkit.TestEnv
use cli_toolkit.TestEnv.{TestEnv, new_test_env}
use cli_toolkit.Runtime.{found_jail}
use cli_toolkit.Runtime.Base.{
  Environment, FileSystem, Runtime, Outcome, done, fail, env_failed, fs_failed,
}
use cli_toolkit.Runtime.Options.{
  RuntimeOption, with_env, with_fs, with_clock, with_logger, with_stream, with_hasher, with_process,
  with_jail, apply_option, apply_options, new_runtime,
}
use cli_toolkit.Runtime.Contract.{InJail}
use cli_toolkit.Runtime.Host.{
  World, StaysAbsolute, test_environment, host_file_system, test_environment-IsEnvironment,
  host_file_system-IsFileSystem,
}
use cli_toolkit.Runtime.Sync.{new_runtime-InJail}
use cli_toolkit.Runtime.Sandbox.{SandboxRuntime}

module _ {E : Environment} {F : FileSystem} where
  -- An option that leaves the environment, the file system and the jail alone.
  abbrev pub IsOther : Option (RuntimeOption E F) → Type 0
  IsOther none = Unit
  IsOther (some (with_env e)) = ⊥
  IsOther (some (with_fs f)) = ⊥
  IsOther (some (with_clock c)) = Unit
  IsOther (some (with_logger l)) = Unit
  IsOther (some (with_stream s)) = Unit
  IsOther (some (with_hasher h)) = Unit
  IsOther (some (with_process p)) = Unit
  IsOther (some (with_jail j)) = ⊥

module _ (E : Environment) (F : FileSystem) where
  abbrev pub SameParts : Runtime E F → Runtime E F → Type 0
  SameParts rt rt' =
      (rt'.env ≡ rt.env) × (rt'.fs ≡ rt.fs) × (rt'.jail ≡ rt.jail) × (rt'.calls ≡ rt.calls)

  pub apply_options-SameParts :
      (opts : List (Option (RuntimeOption E F))) (rt : Runtime E F)
      → All IsOther opts
      → SameParts rt (apply_options E F opts rt).0
  unfolding apply_options apply_option
  apply_options-SameParts [] rt h = (refl, refl, refl, refl)
  apply_options-SameParts (none ∷ opts) rt (_, h) = apply_options-SameParts opts rt h
  apply_options-SameParts (some (with_env e) ∷ opts) rt (x, h) = absurd x
  apply_options-SameParts (some (with_fs f) ∷ opts) rt (x, h) = absurd x
  apply_options-SameParts (some (with_jail j) ∷ opts) rt (x, h) = absurd x
  apply_options-SameParts (some (with_clock none) ∷ opts) rt (x, h) = (refl, refl, refl, refl)
  apply_options-SameParts (some (with_clock (some c)) ∷ opts) rt (x, h) =
      apply_options-SameParts opts (record rt { clock = some c }) h
  apply_options-SameParts (some (with_logger none) ∷ opts) rt (x, h) = (refl, refl, refl, refl)
  apply_options-SameParts (some (with_logger (some c)) ∷ opts) rt (x, h) =
      apply_options-SameParts opts (record rt { logger = some c }) h
  apply_options-SameParts (some (with_stream none) ∷ opts) rt (x, h) = (refl, refl, refl, refl)
  apply_options-SameParts (some (with_stream (some c)) ∷ opts) rt (x, h) =
      apply_options-SameParts opts (record rt { stream = some c }) h
  apply_options-SameParts (some (with_hasher none) ∷ opts) rt (x, h) = (refl, refl, refl, refl)
  apply_options-SameParts (some (with_hasher (some c)) ∷ opts) rt (x, h) =
      apply_options-SameParts opts (record rt { hasher = some c }) h
  apply_options-SameParts (some (with_process p) ∷ opts) rt (x, h) =
      apply_options-SameParts opts (record rt { process = some p }) h

module _ (ev : Bytes → Option Bytes) (host : World) (defaults : SandboxRuntime ev host) where
  -- The options of NewTestRuntime, in front of the caller's. The clock, the logger, the stream and the hasher
  -- that it makes are known by the numbers given.
  unfoldable pub base_options :
      ℕ
      → Bytes
      → TestEnv
      → OsFs
      → List (Option (RuntimeOption (test_environment ev) (host_file_system host)))
  base_options made jail env fs =
      some (with_env (some env))
      ∷ some (with_fs (some fs))
      ∷ some (with_clock (some made))
      ∷ some (with_logger (some made))
      ∷ some (with_stream (some made))
      ∷ some (with_hasher (some made))
      ∷ some (with_jail jail)
      ∷ []

  abbrev pub with_file_system :
      ℕ
      → Bytes
      → TestEnv
      → Result OsFs
      → List (Option (RuntimeOption (test_environment ev) (host_file_system host)))
      → SandboxRuntime ev host × Outcome (Unit {0})
  with_file_system made jail env (err e) opts = (defaults, fail (fs_failed e))
  with_file_system made jail env (ok fs) opts =
      new_runtime (test_environment ev) (host_file_system host)
        (base_options made jail env fs ++ opts) defaults

  -- NewTestRuntime, over the defaults of NewRuntime.
  unfoldable pub new_test_runtime :
      ℕ
      → Bytes
      → Bytes
      → Bytes
      → List (Option (RuntimeOption (test_environment ev) (host_file_system host)))
      → SandboxRuntime ev host × Outcome (Unit {0})
  unfolding base_options
  new_test_runtime made jail home user opts =
      let env = new_test_env jail home user in
      elim (TestEnv.getwd env) [
        | none ↦ (defaults, fail env_failed)
        | some wd ↦ with_file_system made jail env (new_os_fs (host defaults.calls) jail wd).1 opts
      ]

start_of-wd : (j w : Bytes) (fs : OsFs) → start_of j w ≡ ok fs → is_abs fs.wd ≡ true
start_of-wd j w fs = elim (Bool-cases (starts_dotdot (elems (lexical root w)))) [
  | inl e ↦ rw e (λ h. absurd cc)
  | inr e ↦ rw e (λ h. ap is_abs (sym (wd_of h)) ∙ is_abs-lexical root w (inr is_abs-root))
]
  where
    wd_of : {start : OsFs} → ok start ≡ ok fs → start.wd ≡ fs.wd
    wd_of {start} h = let same : start ≡ fs = cc h in ap (λ (s : OsFs). s.wd) same

new_os_fs-wd :
    (host : Host) (jail wd : Bytes) (fs : OsFs)
    → is_abs jail ≡ true
    → (new_os_fs host jail wd).1 ≡ ok fs
    → is_abs fs.wd ≡ true
new_os_fs-wd host jail wd fs hj h =
    start_of-wd (clean jail) _ fs (sym (new_os_fs_lem host jail wd hj) ∙ h)

-- What the options of NewTestRuntime and others behind them leave of the parts.
base_options-SameParts :
    (ev : Bytes → Option Bytes) (host : World) (defaults : SandboxRuntime ev host) (made : ℕ)
    (jail : Bytes) (env : TestEnv) (fs : OsFs)
    (opts : List (Option (RuntimeOption (test_environment ev) (host_file_system host))))
    → All IsOther opts
    → SameParts
        (test_environment ev)
        (host_file_system host)
        (record defaults { env = some env; fs = some fs; jail = clean_jail jail })
        (apply_options
          (test_environment ev)
          (host_file_system host)
          (base_options ev host defaults made jail env fs ++ opts)
          defaults).0
unfolding apply_options apply_option base_options
base_options-SameParts ev host defaults made jail env fs opts others =
    apply_options-SameParts (test_environment ev) (host_file_system host) opts
      (record defaults {
        env = some env;
        fs = some fs;
        clock = some made;
        logger = some made;
        stream = some made;
        hasher = some made;
        jail = clean_jail jail;
      })
      others

-- A runtime that NewTestRuntime makes in an absolute jail, with further options that leave the environment, the
-- file system and the jail alone, is with its environment and its file system in that jail, cleaned, whatever
-- home and user are given; and no call of the host has been made through it.
pub new_test_runtime-InJail :
    (ev : Bytes → Option Bytes) (host : World) (absolute : StaysAbsolute host)
    (defaults : SandboxRuntime ev host) (made : ℕ) (jail home user : Bytes)
    (opts : List (Option (RuntimeOption (test_environment ev) (host_file_system host))))
    → is_abs jail ≡ true
    → defaults.calls ≡ []
    → All IsOther opts
    → (new_test_runtime ev host defaults made jail home user opts).1 ≡ done tt
    → InJail
        (test_environment ev)
        (host_file_system host)
        (host_file_system-IsFileSystem host absolute)
        (clean jail)
        (new_test_runtime ev host defaults made jail home user opts).0
unfolding new_test_runtime
new_test_runtime-InJail ev host absolute defaults made jail home user opts hj none_yet others h =
    on_wd (TestEnv.getwd (new_test_env jail home user)) h
  where
    on_fs :
        (r : Result OsFs)
        → ((fs : OsFs) → r ≡ ok fs → is_abs fs.wd ≡ true)
        → (with_file_system ev host defaults made jail (new_test_env jail home user) r opts).1
          ≡ done tt
        → InJail
            (test_environment ev)
            (host_file_system host)
            (host_file_system-IsFileSystem host absolute)
            (clean jail)
            (with_file_system ev host defaults made jail (new_test_env jail home user) r opts).0
    on_fs (err e) settled h = absurd cc
    on_fs (ok fs) settled h =
        let (same_env, same_fs, same_jail, same_calls) =
          base_options-SameParts ev host defaults made jail (new_test_env jail home user) fs opts
            others in
        let at : is_abs (clean jail) ≡ true = is_abs-clean jail ∙ hj in
        let cleaned : clean_jail jail ≡ clean jail =
          unfold clean_jail in rw (is_abs-not_blank jail hj) in
        new_runtime-InJail (test_environment ev) (host_file_system host)
          (test_environment-IsEnvironment ev) (host_file_system-IsFileSystem host absolute)
          (clean jail)
          (base_options ev host defaults made jail (new_test_env jail home user) fs ++ opts)
          defaults at (clean-clean jail)
          (unfold found_jail in rw (same_jail, cleaned, is_abs-not_empty (clean jail) at) refl)
          (unfold host_file_system-IsFileSystem in rw same_fs (inr (settled fs refl)))
          (rw (same_calls, none_yet) tt) h

    on_wd :
        (w : Option Bytes)
        → (elim w as (λ _. SandboxRuntime ev host × Outcome (Unit {0})) [
          | none ↦ (defaults, fail env_failed)
          | some wd ↦
              with_file_system ev host defaults made jail
                (new_test_env jail home user)
                (new_os_fs (host defaults.calls) jail wd).1
                opts
        ]).1
          ≡ done tt
        → InJail
            (test_environment ev)
            (host_file_system host)
            (host_file_system-IsFileSystem host absolute)
            (clean jail)
            (elim w as (λ _. SandboxRuntime ev host × Outcome (Unit {0})) [
              | none ↦ (defaults, fail env_failed)
              | some wd ↦
                  with_file_system ev host defaults made jail
                    (new_test_env jail home user)
                    (new_os_fs (host defaults.calls) jail wd).1
                    opts
            ]).0
    on_wd none h = absurd cc
    on_wd (some wd) h =
        on_fs (new_os_fs (host defaults.calls) jail wd).1
          (λ fs e. new_os_fs-wd (host defaults.calls) jail wd fs hj e) h
