-- ===== src/Sandbox/Whole.antt =====
-- A sandbox from NewSandbox on, through any calls of its methods (sandbox/sandbox.go over toolkit/runtime_impl.go,
-- toolkit/env/test_env.go and toolkit/filesystem/os_fs.go).
use cli_toolkit.Base.{
  ℕ, Bool, true, List, [], ◌∷◌, Option, none, some, false, Bytes, ◌≡◌, refl, ◌∙◌, All,
}
use cli_toolkit.Base.Int.{ℤ}
use cli_toolkit.Clock
use cli_toolkit.Clock.{Scheduler}
use cli_toolkit.FilePath.{is_abs, clean}
use cli_toolkit.FilePath.Clean.{is_abs-clean, clean-clean}
use cli_toolkit.OsFs.Calls.{Call}
use cli_toolkit.OsFs.Methods.{do_read_file, do_write_file, do_mkdir}
use cli_toolkit.Runtime
use cli_toolkit.Runtime.Base.{Environment, FileSystem, Outcome, done, fail}
use cli_toolkit.Runtime.Files
use cli_toolkit.Runtime.Files.{Reply}
use cli_toolkit.Runtime.Contract.{IsEnvironment, IsFileSystem, InJail}
use cli_toolkit.Runtime.Kept.{validate-Keeps, getwd-Keeps, then-Keeps, ask_env-Keeps}
use cli_toolkit.Runtime.Confined.{abs_path-Keeps, act_at-Keeps, act_below-Keeps}
use cli_toolkit.OsFs.Checked.{Safe}
use cli_toolkit.Runtime.Contract.{Throughout}
use cli_toolkit.Runtime.Host.{
  World, StaysAbsolute, test_environment, host_file_system, test_environment-IsEnvironment,
  host_file_system-IsFileSystem,
}
use cli_toolkit.Runtime.Sandbox.{SandboxRuntime}
use cli_toolkit.Runtime.Start.{new_test_runtime, new_test_runtime-InJail}
use cli_toolkit.Sandbox.{
  resolve_path, abs_path, getwd, get_home, setwd, advance, now, read_file, must_read_file,
  write_file, must_write_file, atomic_write_file, mkdir, SandboxOption, apply_option, apply_options,
  TestSandbox, runtime_options, started, new_sandbox,
}
use cli_toolkit.Sandbox.Base.{Answer, returned, fatal, M, bind_answer}
use cli_toolkit.Sandbox.Below.{HasNames, CallBelow}
use cli_toolkit.Sandbox.Embed.{Entries}
use cli_toolkit.Sandbox.Held.{Held, HeldWith, HeldWith-Held}
use cli_toolkit.Sandbox.Confined.{
  stays, must_stay, resolve_path-Holds, setwd-Stays, on_clock-Stays, apply_option-Stays,
  apply_options-Stays, atomic_write_file-Stays,
}

-- The methods of a sandbox with their arguments, and the options, which a test can apply at any time.
pub data Action : Type 0 where
  act_option : SandboxOption → Action
  act_setwd act_abs_path act_resolve_path act_read_file act_must_read_file : Bytes → Action
  act_getwd act_get_home act_now : Action
  act_write_file act_must_write_file act_atomic_write_file : Bytes → Bytes → ℕ → Action
  act_mkdir : Bytes → Bool → Action
  act_advance : ℤ → Action

module _ (ev : Bytes → Option Bytes) (host : World) (reply : Reply)
    (fixture_reply : List Call → Call → Bool) where
  abbrev E : Environment
  E = test_environment ev

  abbrev F : FileSystem
  F = host_file_system host

  abbrev after {ℓ} :
      {A : Type ℓ}
      → M (TestSandbox ev host fixture_reply) A
      → TestSandbox ev host fixture_reply
      → TestSandbox ev host fixture_reply
  after m s = (m s).0

  -- The state that a method leaves.
  unfoldable pub run :
      Action → TestSandbox ev host fixture_reply → TestSandbox ev host fixture_reply
  run (act_option opt) = after (apply_option E F fixture_reply opt)
  run (act_setwd dir) = after (setwd E F dir)
  run (act_abs_path rel) = after (abs_path E F rel)
  run (act_resolve_path rel) = after (resolve_path E F rel)
  run (act_read_file rel) = after (read_file E F reply rel)
  run (act_must_read_file rel) = after (must_read_file E F reply rel)
  run act_getwd = after (getwd E F)
  run act_get_home = after (get_home E F)
  run act_now = after (now E F)
  run (act_write_file rel bytes perm) = after (write_file E F reply rel bytes perm)
  run (act_must_write_file path bytes perm) = after (must_write_file E F reply path bytes perm)
  run (act_atomic_write_file rel bytes perm) = after (atomic_write_file E F reply rel bytes perm)
  run (act_mkdir rel all) = after (mkdir E F reply rel all)
  run (act_advance d) = after (advance E F d)

  abbrev pub run_all :
      List Action → TestSandbox ev host fixture_reply → TestSandbox ev host fixture_reply
  run_all [] s = s
  run_all (a ∷ actions) s = run_all actions (run a s)

  module _ (absolute : StaysAbsolute host) (j : Bytes) (hj : is_abs j ≡ true)
      (hc : clean j ≡ j) where
    abbrev laws : IsFileSystem F
    laws = host_file_system-IsFileSystem host absolute

    abbrev env_laws : IsEnvironment E
    env_laws = test_environment-IsEnvironment ev

    held {ℓ} :
        {A : Type ℓ} (Q : A → Type 0) (m : M (TestSandbox ev host fixture_reply) A)
        (s : TestSandbox ev host fixture_reply)
        → HeldWith ev host absolute j hj hc Q (m s)
        → Held ev host absolute j hj hc (after m s)
    held Q m s h = HeldWith-Held ev host absolute j hj hc Q (m s) h

    now-Held :
        (s : TestSandbox ev host fixture_reply)
        → Held ev host absolute j hj hc s
        → Held ev host absolute j hj hc (now E F s).0
    unfolding now
    now-Held s h = on_state s.clock
      where
        on_state :
            (c : Option Scheduler)
            → Held ev host absolute j hj hc
                (elim c as (λ _. TestSandbox ev host fixture_reply × Answer ℤ) [
                  | none ↦ (s, fatal)
                  | some c ↦ (s, returned c.now)
                ]).0
        on_state none = h
        on_state (some c) = h

    run-Held :
        (a : Action) (s : TestSandbox ev host fixture_reply)
        → Held ev host absolute j hj hc s
        → Held ev host absolute j hj hc (run a s)
    unfolding run abs_path read_file must_read_file getwd get_home Runtime.get_home now write_file
        must_write_file mkdir advance Files.read_file Files.write_file Files.mkdir
    run-Held (act_option opt) s h =
        held _ (apply_option E F fixture_reply opt) s
          (apply_option-Stays ev host reply fixture_reply absolute j hj hc opt s h)
    run-Held (act_setwd dir) s h =
        held _ (setwd E F dir) s (setwd-Stays ev host reply fixture_reply absolute j hj hc dir s h)
    run-Held (act_abs_path rel) s h = held _ (abs_path E F rel) s (
        stays ev host reply fixture_reply absolute j hj hc _
          (abs_path-Keeps E F laws j env_laws hj hc rel) s h)
    run-Held (act_resolve_path rel) s h =
        held _ (resolve_path E F rel) s
          (resolve_path-Holds ev host reply fixture_reply absolute j hj hc rel s h)
    run-Held (act_read_file rel) s h = held _ (read_file E F reply rel) s (
        stays ev host reply fixture_reply absolute j hj hc _
          (act_at-Keeps E F laws j env_laws hj hc reply rel false do_read_file) s h)
    run-Held (act_must_read_file rel) s h = held _ (must_read_file E F reply rel) s (
        must_stay ev host reply fixture_reply absolute j hj hc _
          (act_at-Keeps E F laws j env_laws hj hc reply rel false do_read_file) s h)
    run-Held act_getwd s h = held _ (getwd E F) s (
        stays ev host reply fixture_reply absolute j hj hc _ (getwd-Keeps E F laws j env_laws hj hc)
          s h)
    run-Held act_get_home s h = held _ (get_home E F) s (
        stays ev host reply fixture_reply absolute j hj hc (Runtime.get_home E F)
          (then-Keeps E F laws j _ _ (validate-Keeps E F laws j) (ask_env-Keeps E F laws j _)) s h)
    run-Held act_now s h = now-Held s h
    run-Held (act_write_file rel bytes perm) s h = held _ (write_file E F reply rel bytes perm) s (
        stays ev host reply fixture_reply absolute j hj hc _
          (act_below-Keeps E F laws j env_laws hj hc reply rel (λ p. do_write_file p bytes perm)) s
          h)
    run-Held (act_must_write_file path bytes perm) s h =
        held _ (must_write_file E F reply path bytes perm) s (
          must_stay ev host reply fixture_reply absolute j hj hc _
            (act_below-Keeps E F laws j env_laws hj hc reply path (λ p. do_write_file p bytes perm))
            s h)
    run-Held (act_atomic_write_file rel bytes perm) s h =
        held _ (atomic_write_file E F reply rel bytes perm) s
          (atomic_write_file-Stays ev host reply fixture_reply absolute j hj hc rel bytes perm s h)
    run-Held (act_mkdir rel all) s h = held _ (mkdir E F reply rel all) s (
        stays ev host reply fixture_reply absolute j hj hc _
          (act_at-Keeps E F laws j env_laws hj hc reply rel false (λ p. do_mkdir p 493 all)) s h)
    run-Held (act_advance d) s h =
        held _ (advance E F d) s
          (on_clock-Stays ev host reply fixture_reply absolute j hj hc (λ c. Clock.advance c d) s h)

    run_all-Held :
        (actions : List Action) (s : TestSandbox ev host fixture_reply)
        → Held ev host absolute j hj hc s
        → Held ev host absolute j hj hc (run_all actions s)
    run_all-Held [] s h = h
    run_all-Held (a ∷ actions) s h = run_all-Held actions (run a s) (run-Held a s h)

    -- NewSandbox behind its runtime.
    started-Held :
        (fixtures : Entries) (opts : List SandboxOption)
        (o : SandboxRuntime ev host × Outcome (Unit {0}))
        → HasNames fixtures
        → (o.1 ≡ done tt → InJail E F (host_file_system-IsFileSystem host absolute) j o.0)
        → (bind_answer
            (started ev host fixture_reply fixtures o)
            (λ _. apply_options E F fixture_reply opts)).1
          ≡ returned tt
        → Held ev host absolute j hj hc
            (bind_answer
              (started ev host fixture_reply fixtures o)
              (λ _. apply_options E F fixture_reply opts)).0
    started-Held fixtures opts (rt, done u) names jailed h =
        held (λ _. Unit {0}) (apply_options E F fixture_reply opts) _
          (apply_options-Stays ev host reply fixture_reply absolute j hj hc opts _
            (jailed refl, tt, names))
    started-Held fixtures opts (rt, fail e) names jailed h = absurd cc

pub sandbox_confined :
    (ev : Bytes → Option Bytes) (host : World) (reply : Reply)
    (fixture_reply : List Call → Call → Bool) (defaults : SandboxRuntime ev host) (made : ℕ)
    (jail home user : Bytes) (fixtures : Entries) (opts : List SandboxOption)
    (actions : List Action)
    → StaysAbsolute host
    → is_abs jail ≡ true
    → defaults.calls ≡ []
    → HasNames fixtures
    → (new_sandbox ev host fixture_reply defaults made jail home user fixtures opts).1 ≡ returned tt
    → let s =
        run_all ev host reply fixture_reply actions
          (new_sandbox ev host fixture_reply defaults made jail home user fixtures opts).0 in
      (s.rt.jail ≡ clean jail)
      × Throughout (λ before j c. Safe (host before) j c) [] s.rt.calls
      × All (CallBelow (clean jail)) s.copied
unfolding new_sandbox host_file_system-IsFileSystem runtime_options
sandbox_confined ev host reply fixture_reply defaults made jail home user fixtures opts actions
      absolute hj no_calls names h =
    let at : is_abs (clean jail) ≡ true = is_abs-clean jail ∙ hj in
    let start =
      started-Held ev host reply fixture_reply absolute (clean jail) at (clean-clean jail) fixtures
        opts
        (new_test_runtime ev host defaults made jail home user
          (runtime_options ev host fixture_reply made))
        names
        (new_test_runtime-InJail ev host absolute defaults made jail home user
          (runtime_options ev host fixture_reply made) hj no_calls (tt, (tt, (tt, (tt, tt)))))
        h in
    let (jailed, copied, _) =
      run_all-Held ev host reply fixture_reply absolute (clean jail) at (clean-clean jail) actions _
        start in
    (jailed.0, jailed.3, copied)
