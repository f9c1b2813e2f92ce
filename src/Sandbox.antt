-- ===== src/Sandbox.antt =====
-- sandbox/sandbox.go: the test sandbox, a runtime with a test clock and fixtures. Of the methods those that only
-- hand on a field, and DumpJailTree, are left out; where the code calls Fatalf, the test ends there.
mod Tests
pub mod Base
pub mod Embed
pub mod Copied
pub mod Below
pub mod Held
pub mod Confined
pub mod Whole
use cli_toolkit.Base.{
  ℕ, Bool, true, false, List, [], ◌∷◌, Option, none, some, Bytes, codes, is_empty, if◌then◌else◌,
}
use cli_toolkit.Base.Int.{ℤ, pos}
use cli_toolkit.FilePath.{join, elems}
use cli_toolkit.Clock.{Scheduler, set_time, new_test_clock}
use cli_toolkit.Clock
use cli_toolkit.OsFs.Calls.{Call}
use cli_toolkit.Runtime
use cli_toolkit.Runtime.Base.{Environment, FileSystem, Outcome, done, fail}
use cli_toolkit.Runtime.Files
use cli_toolkit.Runtime.Files.{Reply}
use cli_toolkit.Runtime.Options.{RuntimeOption}
use cli_toolkit.Runtime.Options
use cli_toolkit.Runtime.Host.{World, StaysAbsolute, test_environment, host_file_system}
use cli_toolkit.Runtime.Sandbox.{SandboxRuntime}
use cli_toolkit.Runtime.Start.{new_test_runtime}
use Embed.{Entries, Node, plain, folder, below, copy_embed_dir}
use Base.{
  Sandbox, Answer, returned, no_jail, fatal, stuck, M, bind_answer, ◌>>=◌, ◌>>◌, or_fatal, must,
  from_outcome, on_runtime,
}

module _ (E : Environment) (F : FileSystem) where
  -- Sandbox.ResolvePath
  unfoldable pub resolve_path : Bytes → M (Sandbox E F) Bytes
  resolve_path rel = on_runtime (Runtime.resolve_path E F rel false)

  -- Sandbox.AbsPath
  unfoldable pub abs_path : Bytes → M (Sandbox E F) Bytes
  abs_path rel = on_runtime (Runtime.abs_path E F rel)

  -- Sandbox.Getwd
  unfoldable pub getwd : M (Sandbox E F) Bytes
  getwd = on_runtime (Runtime.getwd E F)

  -- Sandbox.GetHome
  unfoldable pub get_home : M (Sandbox E F) Bytes
  get_home = on_runtime (Runtime.get_home E F)

  -- Sandbox.Setwd
  unfoldable pub setwd : Bytes → M (Sandbox E F) (Unit {0})
  unfolding resolve_path
  setwd dir = do path ← resolve_path dir; on_runtime (Runtime.setwd E F path)

  -- WithWd
  unfoldable pub with_wd : Bytes → M (Sandbox E F) (Unit {0})
  unfolding resolve_path
  with_wd rel = do path ← must (resolve_path rel); must (on_runtime (Runtime.setwd E F path))

  -- WithEnv
  unfoldable pub with_env : Bytes → Bytes → M (Sandbox E F) (Unit {0})
  with_env key value = must (on_runtime (Runtime.set E F key value))

  -- WithEnvMap, of a map whose entries come in the order of the list.
  unfoldable pub with_env_map : List (Bytes × Bytes) → M (Sandbox E F) (Unit {0})
  with_env_map [] s = (s, returned tt)
  with_env_map ((key, value) ∷ entries) s =
      (must (on_runtime (Runtime.set E F key value)) >> with_env_map entries) s

  abbrev pub put_clock : Sandbox E F → Option Scheduler → Sandbox E F × Answer (Unit {0})
  put_clock s none = (s, stuck)
  put_clock s (some c) = (record s { clock = some c }, returned tt)

  -- A method of the test clock, which must be there.
  abbrev pub on_clock : (Scheduler → Option Scheduler) → M (Sandbox E F) (Unit {0})
  on_clock f s = elim s.clock [ none ↦ (s, fatal) | some c ↦ put_clock s (f c) ]

  -- WithClock
  unfoldable pub with_clock : ℤ → M (Sandbox E F) (Unit {0})
  with_clock t = on_clock (λ c. some (set_time c t))

  -- Sandbox.Advance
  unfoldable pub advance : ℤ → M (Sandbox E F) (Unit {0})
  advance d = on_clock (λ c. Clock.advance c d)

  -- Sandbox.Now
  unfoldable pub now : M (Sandbox E F) ℤ
  now s = elim s.clock [ none ↦ (s, fatal) | some c ↦ (s, returned c.now) ]

module _ (E : Environment) (F : FileSystem) (reply : Reply) where
  -- Sandbox.ReadFile, and MustReadFile
  unfoldable pub read_file : Bytes → M (Sandbox E F) Call
  read_file rel = on_runtime (Files.read_file E F reply rel)

  unfoldable pub must_read_file : Bytes → M (Sandbox E F) Call
  unfolding read_file
  must_read_file rel = must (read_file rel)

  -- Sandbox.WriteFile, and MustWriteFile
  unfoldable pub write_file : Bytes → Bytes → ℕ → M (Sandbox E F) Call
  write_file rel bytes perm = on_runtime (Files.write_file E F reply rel bytes perm)

  unfoldable pub must_write_file : Bytes → Bytes → ℕ → M (Sandbox E F) Call
  unfolding write_file
  must_write_file path bytes perm = must (write_file path bytes perm)

  -- Sandbox.AtomicWriteFile
  unfoldable pub atomic_write_file : Bytes → Bytes → ℕ → M (Sandbox E F) Call
  atomic_write_file rel bytes perm s = elim (is_empty s.rt.jail) [
    | true ↦ (s, no_jail)
    | false ↦ on_runtime (Files.atomic_write_file E F reply rel bytes perm) s
  ]

  -- Sandbox.Mkdir, with the mode 0o755.
  unfoldable pub mkdir : Bytes → Bool → M (Sandbox E F) Call
  mkdir rel all = on_runtime (Files.mkdir E F reply rel 493 all)

module _ (E : Environment) (F : FileSystem) (fixture_reply : List Call → Call → Bool) where
  abbrev pub copied_on : Sandbox E F → List Call × Bool → Sandbox E F × Answer (Unit {0})
  copied_on s (calls, true) = (record s { copied = calls }, returned tt)
  copied_on s (calls, false) = (record s { copied = calls }, fatal)

  -- The end of WithFixture; a fixture that is a file has no entries to read.
  unfoldable pub copy_fixture : Option Node → Bytes → M (Sandbox E F) (Unit {0})
  copy_fixture none dst s = (s, fatal)
  copy_fixture (some (plain bytes)) dst s = (s, fatal)
  copy_fixture (some (folder entries)) dst s =
      copied_on s (copy_embed_dir fixture_reply entries dst s.copied)

  -- WithFixture; that the source is there is asked before the path is resolved.
  unfoldable pub with_fixture : Bytes → Bytes → M (Sandbox E F) (Unit {0})
  unfolding resolve_path copy_fixture
  with_fixture fixture path s =
      let source = below (folder s.fixtures) (elems (join (codes "data" ∷ fixture ∷ []))) in
      elim source [
        | none ↦ (s, fatal)
        | some node ↦
            (do
              p ← must (resolve_path E F path)
              λ s. copy_fixture (some node) (join (s.rt.jail ∷ p ∷ [])) s)
              s
      ]

-- Option, by the function that makes it.
pub data SandboxOption : Type 0 where
  env_option : Bytes → Bytes → SandboxOption
  env_map_option : List (Bytes × Bytes) → SandboxOption
  wd_option : Bytes → SandboxOption
  clock_option : ℤ → SandboxOption
  fixture_option : Bytes → Bytes → SandboxOption

module _ (E : Environment) (F : FileSystem) (fixture_reply : List Call → Call → Bool) where
  unfoldable pub apply_option : SandboxOption → M (Sandbox E F) (Unit {0})
  apply_option (env_option key value) = with_env E F key value
  apply_option (env_map_option entries) = with_env_map E F entries
  apply_option (wd_option rel) = with_wd E F rel
  apply_option (clock_option t) = with_clock E F t
  apply_option (fixture_option fixture path) = with_fixture E F fixture_reply fixture path

  -- The loop of NewSandbox.
  unfoldable pub apply_options : List SandboxOption → M (Sandbox E F) (Unit {0})
  unfolding apply_option
  apply_options [] s = (s, returned tt)
  apply_options (opt ∷ opts) s = (apply_option opt >> apply_options opts) s

-- 2025-10-15 12:30 UTC in nanoseconds.
abbrev pub start_time : ℤ
start_time = pos 1760531400000000000

module _ (ev : Bytes → Option Bytes) (host : World) (fixture_reply : List Call → Call → Bool) where
  abbrev pub TestSandbox : Type 0
  TestSandbox = Sandbox (test_environment ev) (host_file_system host)

  -- The options that NewSandbox gives to NewTestRuntime, by the number of what it makes.
  unfoldable pub runtime_options :
      ℕ → List (Option (RuntimeOption (test_environment ev) (host_file_system host)))
  runtime_options made =
      some (Options.with_clock (some made))
      ∷ some (Options.with_logger (some made))
      ∷ some (Options.with_stream (some made))
      ∷ some (Options.with_hasher (some made))
      ∷ []

  abbrev pub started :
      Entries → SandboxRuntime ev host × Outcome (Unit {0}) → TestSandbox × Answer (Unit {0})
  started fixtures (rt, r) = (
    record { rt = rt; clock = some (new_test_clock start_time); fixtures = fixtures; copied = [] },
    or_fatal (from_outcome r),
  )

  -- NewSandbox, in the directory that TempDir gives; without Options the home and the user are empty.
  unfoldable pub new_sandbox :
      SandboxRuntime ev host
      → ℕ
      → Bytes
      → Bytes
      → Bytes
      → Entries
      → List SandboxOption
      → TestSandbox × Answer (Unit {0})
  unfolding apply_options runtime_options
  new_sandbox defaults made jail home user fixtures opts =
      bind_answer
        (started fixtures
          (new_test_runtime ev host defaults made jail home user (runtime_options made)))
        (λ _. apply_options (test_environment ev) (host_file_system host) fixture_reply opts)
