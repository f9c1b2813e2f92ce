-- ===== src/OsEnv/Whole.antt =====
-- A runtime over the process's own environment and the host's file system: NewRuntime of toolkit/runtime.go over
-- toolkit/env/os_env.go and toolkit/filesystem/os_fs.go.
use cli_toolkit.Base.{
  true, List, [], ◌∷◌, Option, none, some, Bytes, codes, ℕ, ◌≡◌, refl, ◌∙◌, All, inl, is_blank,
  arith,
}
use cli_toolkit.FilePath.{is_abs, clean}
use cli_toolkit.FilePath.Clean.{is_abs-clean, clean-clean}
use cli_toolkit.Jail.{clean_jail}
use cli_toolkit.Jail.Boundary.{is_abs-not_empty}
use cli_toolkit.OsFs.Checked.{Safe}
use cli_toolkit.Runtime.Contract.{Throughout}
use cli_toolkit.OsFs.Confined.{is_abs-not_blank}
use cli_toolkit.Runtime.{found_jail}
use cli_toolkit.Runtime.Base.{Environment, Runtime, done}
use cli_toolkit.Runtime.Contract.{IsEnvironment, InJail}
use cli_toolkit.Runtime.Files.{Reply}
use cli_toolkit.Runtime.Host.{World, StaysAbsolute, host_file_system, host_file_system-IsFileSystem}
use cli_toolkit.Runtime.Options.{RuntimeOption, with_jail, apply_option, apply_options, new_runtime}
use cli_toolkit.Runtime.Reach.{Reach, Reach-Together}
use cli_toolkit.Runtime.Start.{IsOther, apply_options-SameParts}
use cli_toolkit.Runtime.Sync.{new_runtime-InJail}
use cli_toolkit.OsEnv
use cli_toolkit.OsEnv.{System, OsEnv, is_settable, set, set_home, set_user}

-- OsEnv behind the interface Env.
abbrev pub os_environment : System → Environment
os_environment system = record {
  State = OsEnv;
  get_jail = λ env. env.jail;
  set_jail = λ j env. some (OsEnv.set_jail j env);
  get = OsEnv.get;
  set = OsEnv.set;
  has = OsEnv.has;
  unset = OsEnv.unset;
  get_home = OsEnv.get_home;
  set_home = OsEnv.set_home;
  get_user = OsEnv.get_user system;
  set_user = OsEnv.set_user;
  getwd = OsEnv.getwd system;
  setwd = OsEnv.setwd system;
  get_temp_dir = OsEnv.get_temp_dir;
}

jail-set : (k v : Bytes) (env env' : OsEnv) → set k v env ≡ some env' → env'.jail ≡ env.jail
unfolding set
jail-set k v env env' h = ground arith

jail-setwd :
    (system : System) (d : Bytes) (env env' : OsEnv)
    → OsEnv.setwd system d env ≡ some env'
    → env'.jail ≡ env.jail
unfolding OsEnv.setwd
jail-setwd system d env env' h = ground arith

-- OsEnv is an environment of the kind that Runtime counts on.
pub os_environment-IsEnvironment : (system : System) → IsEnvironment (os_environment system)
unfolding OsEnv.set_jail OsEnv.set_home OsEnv.set_user OsEnv.unset
os_environment-IsEnvironment system = record {
  jail-set_jail = λ j env hj hc. (
    record env { jail = clean_jail j },
    refl,
    unfold clean_jail in rw (is_abs-not_blank j hj) hc,
  );
  jail-set = jail-set;
  jail-unset = λ k env. refl;
  jail-set_home = λ p. jail-set (codes "HOME") p;
  jail-set_user = λ n. jail-set (codes "USER") n;
  jail-setwd = jail-setwd system;
}

abbrev pub OsRuntime : System → World → Type 0
OsRuntime system host = Runtime (os_environment system) (host_file_system host)

-- The defaults of NewRuntime, in a process with the given variables and directory; what it makes is known by the
-- number given.
abbrev pub os_defaults :
    (system : System) (host : World) → ℕ → List (Bytes × Bytes) → Bytes → OsRuntime system host
os_defaults system host made vars cwd = record {
  env = some (record { jail = []; vars = vars; cwd = cwd });
  fs = some (record { jail = []; wd = [] });
  clock = some made;
  logger = some made;
  stream = some made;
  hasher = some made;
  process = none;
  jail = [];
  wd = [];
  calls = [];
}

module _ (system : System) (host : World) (made : ℕ) (vars : List (Bytes × Bytes))
    (cwd : Bytes) where
  -- A runtime that NewRuntime makes with a jail.
  os_runtime-InJail :
      (absolute : StaysAbsolute host) (jail : Bytes)
      (opts : List (Option (RuntimeOption (os_environment system) (host_file_system host))))
      → is_abs jail ≡ true
      → All IsOther opts
      → (new_runtime
          (os_environment system)
          (host_file_system host)
          (some (with_jail jail) ∷ opts)
          (os_defaults system host made vars cwd)).1
        ≡ done tt
      → InJail
          (os_environment system)
          (host_file_system host)
          (host_file_system-IsFileSystem host absolute)
          (clean jail)
          (new_runtime
            (os_environment system)
            (host_file_system host)
            (some (with_jail jail) ∷ opts)
            (os_defaults system host made vars cwd)).0
  os_runtime-InJail absolute jail opts hj others h =
      let start : OsRuntime system host = record (os_defaults system host made vars cwd) {
        jail = clean_jail jail;
      } in
      let (same_env, same_fs, same_jail, same_calls) =
        apply_options-SameParts (os_environment system) (host_file_system host) opts start others in
      let at : is_abs (clean jail) ≡ true = is_abs-clean jail ∙ hj in
      let cleaned : clean_jail jail ≡ clean jail =
        unfold clean_jail in rw (is_abs-not_blank jail hj) in
      new_runtime-InJail (os_environment system) (host_file_system host)
        (os_environment-IsEnvironment system) (host_file_system-IsFileSystem host absolute)
        (clean jail) (some (with_jail jail) ∷ opts) (os_defaults system host made vars cwd) at
        (clean-clean jail)
        (unfold found_jail apply_options apply_option in
          rw (same_jail, cleaned, is_abs-not_empty (clean jail) at) refl)
        (unfold host_file_system-IsFileSystem apply_options apply_option in
          rw same_fs (inl (unfold is_blank in refl)))
        (unfold apply_options apply_option in rw same_calls tt) h

  pub os_calls_confined :
      (reply : Reply) (jail : Bytes)
      (opts : List (Option (RuntimeOption (os_environment system) (host_file_system host))))
      {rt : OsRuntime system host}
      → StaysAbsolute host
      → is_abs jail ≡ true
      → All IsOther opts
      → (new_runtime
          (os_environment system)
          (host_file_system host)
          (some (with_jail jail) ∷ opts)
          (os_defaults system host made vars cwd)).1
        ≡ done tt
      → Reach
          (os_environment system)
          (host_file_system host)
          reply
          (new_runtime
            (os_environment system)
            (host_file_system host)
            (some (with_jail jail) ∷ opts)
            (os_defaults system host made vars cwd)).0
          rt
      → Throughout (λ before j c. Safe (host before) j c) [] rt.calls
  unfolding host_file_system-IsFileSystem
  os_calls_confined reply jail opts absolute hj others h r =
      (Reach-Together (os_environment system) (host_file_system host) reply
        (os_environment-IsEnvironment system) (host_file_system-IsFileSystem host absolute) r
        (
          clean jail,
          is_abs-clean jail ∙ hj,
          clean-clean jail,
          os_runtime-InJail absolute jail opts hj others h,
        )).3.3
