-- ===== src/Runtime/Sandbox.antt =====
-- The runtime of a sandbox, over TestEnv and OsFS, as a whole: toolkit/runtime.go over
-- toolkit/env/test_env.go and toolkit/filesystem/os_fs.go.
use cli_toolkit.Base.{true, [], Option, some, Bytes, ◌≡◌, ◌⊎◌, is_blank}
use cli_toolkit.FilePath.{is_abs, clean}
use cli_toolkit.OsFs.Base.{OsFs}
use cli_toolkit.OsFs.Checked.{Safe}
use cli_toolkit.Runtime.Contract.{Throughout}
use cli_toolkit.TestEnv.{TestEnv}
use cli_toolkit.Runtime.Base.{Runtime}
use cli_toolkit.Runtime.Files.{Reply}
use cli_toolkit.Runtime.Host.{
  World, StaysAbsolute, test_environment, host_file_system, test_environment-IsEnvironment,
  host_file_system-IsFileSystem,
}
use cli_toolkit.Runtime.Reach.{Reach, Reach-Together}

abbrev pub SandboxRuntime : (Bytes → Option Bytes) → World → Type 0
SandboxRuntime ev host = Runtime (test_environment ev) (host_file_system host)

-- A runtime over a test environment and a file system that have the one jail `j`, an absolute path in
-- its clean form, and no call of the host yet; the working directory of the file system is unset or
-- absolute.
pub record IsStart (ev : Bytes → Option Bytes) (host : World) (j : Bytes)
    (rt : SandboxRuntime ev host) : Type 0 where
  pub env : TestEnv
  pub fs : OsFs
  pub jail_abs : is_abs j ≡ true
  pub jail_clean : clean j ≡ j
  pub has_env : rt.env ≡ some env
  pub has_fs : rt.fs ≡ some fs
  pub jail_rt : rt.jail ≡ j
  pub jail_env : env.jail ≡ j
  pub jail_fs : fs.jail ≡ j
  pub wd_fs : (is_blank fs.wd ≡ true) ⊎ (is_abs fs.wd ≡ true)
  pub no_calls : rt.calls ≡ []

pub calls_confined :
    (ev : Bytes → Option Bytes) (host : World) (reply : Reply) (j : Bytes)
    {start rt : SandboxRuntime ev host}
    → StaysAbsolute host
    → IsStart ev host j start
    → Reach (test_environment ev) (host_file_system host) reply start rt
    → Throughout (λ before j c. Safe (host before) j c) [] rt.calls
unfolding host_file_system-IsFileSystem
calls_confined ev host reply j absolute st r =
    (Reach-Together (test_environment ev) (host_file_system host) reply
      (test_environment-IsEnvironment ev) (host_file_system-IsFileSystem host absolute) r
      (
        j,
        st.jail_abs,
        st.jail_clean,
        (
          st.jail_rt,
          rw st.has_fs (st.jail_abs, (st.jail_fs, st.wd_fs)),
          rw st.has_env st.jail_env,
          rw st.no_calls tt,
        ),
      )).3.3
