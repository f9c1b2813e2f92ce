-- ===== src/OsEnv/Tests.antt =====
-- A process in /home whose runtime has the jail /jail, over a host whose link /jail/out leads to /etc.
use cli_toolkit.Base.{
  true, false, List, [], ◌∷◌, Option, some, none, ◌≡◌, refl, arith, Bytes, codes, bytes_eq, ◌⊎◌,
  inl, has_prefix, if◌then◌else◌, is_blank,
}
use cli_toolkit.FilePath.Split.{split, join_elems}
use cli_toolkit.FilePath.{
  is_abs, push, push_all, elems, render, clean, join, rel, strip_common, climb,
}
use cli_toolkit.Jail.{clean_jail, remove_jail_prefix, is_in_jail}
use cli_toolkit.Expand.{expand_env, expand_in}
use cli_toolkit.Expand
use cli_toolkit.User.{expand_user_path}
use cli_toolkit.OsFs
use cli_toolkit.OsFs.Methods
use cli_toolkit.OsFs.Base.{Lstat, found, directory, symlink}
use cli_toolkit.OsFs.Checked.{Safe}
use cli_toolkit.Runtime.Contract.{Throughout}
use cli_toolkit.TestEnv.{TestEnv, environ, lookup, insert}
use cli_toolkit.OsEnv.Dump.{
  split_entry, listed_entries, dump_os_env, dump_test_env, unlines, dump_test_env-environ,
}
use cli_toolkit.Runtime
use cli_toolkit.Runtime.{
  validate, found_jail, put_jail, push_jail, put_wd, apply_working_dir, normalize_path, usable,
  normalize_state, expanded, absolute, located, fall_back, set_jail, wd_from_fs, find_wd,
  resolve_working_dir,
}
use cli_toolkit.Runtime.Base.{done, on_fs, on_env, ask_env}
use cli_toolkit.Runtime.Files.{Reply}
use cli_toolkit.Runtime.Host.{World, StaysAbsolute, host_file_system}
use cli_toolkit.Runtime.Options.{with_jail, apply_option, apply_options, new_runtime}
use cli_toolkit.Runtime.Reach.{op_setwd, op_read_file, run, here, then_step, call_method}
use cli_toolkit.OsEnv
use cli_toolkit.OsEnv.{System, OsEnv, has_byte, is_settable}
use cli_toolkit.OsEnv.Lookup.{set-get-unset}
use cli_toolkit.OsEnv.Whole.{os_environment, OsRuntime, os_defaults, os_calls_confined}

abbrev links : Bytes → Option Bytes
links p = if bytes_eq p (codes "/jail/out") then some (codes "/etc") else some p

abbrev nodes : Bytes → Lstat
nodes p = if bytes_eq p (codes "/jail/out") then found symlink else found directory

abbrev host : World
host calls = record {
  getwd = some (codes "/home");
  lstat = nodes;
  stat = nodes;
  eval_symlinks = links;
  glob = λ p. none;
}

host-IsAbsolute : StaysAbsolute host
unfolding is_abs
host-IsAbsolute calls = record {
  getwd_abs = λ cwd e. ground arith;
  eval_abs = λ p q h e. ground arith;
}

abbrev system : System
system = record {
  current_user = some ([], codes "Bob");
  getwd = λ vars cwd. some cwd;
  chdir = λ cwd path. some path;
}

abbrev env : OsEnv
env = record { jail = []; vars = (codes "HOME", codes "/root") ∷ []; cwd = codes "/home" }

abbrev always : Reply
always calls call = true

abbrev start : OsRuntime system host
start =
    (new_runtime (os_environment system) (host_file_system host)
      (some (with_jail (codes "/jail")) ∷ [])
      (os_defaults system host 1 env.vars (codes "/home"))).0

start_done :
    (new_runtime
      (os_environment system)
      (host_file_system host)
      (some (with_jail (codes "/jail")) ∷ [])
      (os_defaults system host 1 env.vars (codes "/home"))).1
    ≡ done tt
unfolding new_runtime apply_options apply_option normalize_state found_jail wd_from_fs find_wd
    ask_env put_jail push_jail apply_working_dir put_wd normalize_path usable clean_jail on_env
    OsFs.set_jail Methods.setwd Methods.enter Methods.getwd OsEnv.set_jail OsEnv.setwd
    OsEnv.absolute OsEnv.getwd OsEnv.get lookup validate expanded absolute located Runtime.getwd
    on_fs expand_env expand_in Expand.step Expand.finish Expand.has_close Expand.start_name
    Expand.start_output Expand.plain_mode Expand.plain_output expand_user_path OsFs.resolve_virtual
    OsFs.get_jail OsFs.ensure_initialized OsFs.resolve_in OsFs.follow_in_jail OsFs.canonical_jail
    OsFs.lexical OsFs.host_path is_blank is_in_jail remove_jail_prefix rel strip_common climb clean
    elems render is_abs push push_all split join_elems bytes_eq has_prefix join
start_done = refl

abbrev cwd_of : OsRuntime system host → Option Bytes
cwd_of rt = elim rt.env [ none ↦ none | some env ↦ some env.cwd ]

-- The directory of the process becomes the path that the runtime has inside its jail.
process_leaves_jail :
    cwd_of
      (run (os_environment system) (host_file_system host) always (op_setwd (codes "/work")) start)
    ≡ some (codes "/work")
unfolding new_runtime apply_options apply_option normalize_state found_jail wd_from_fs find_wd
    ask_env put_jail push_jail apply_working_dir put_wd normalize_path usable clean_jail on_env
    OsFs.set_jail Methods.setwd Methods.enter Methods.getwd OsEnv.set_jail OsEnv.setwd
    OsEnv.absolute OsEnv.getwd OsEnv.get lookup validate expanded absolute located Runtime.getwd
    on_fs expand_env expand_in Expand.step Expand.finish Expand.has_close Expand.start_name
    Expand.start_output Expand.plain_mode Expand.plain_output expand_user_path OsFs.resolve_virtual
    OsFs.get_jail OsFs.ensure_initialized OsFs.resolve_in OsFs.follow_in_jail OsFs.canonical_jail
    OsFs.lexical OsFs.host_path is_blank is_in_jail remove_jail_prefix rel strip_common climb clean
    elems render is_abs push push_all split join_elems bytes_eq has_prefix join run Runtime.setwd
    resolve_working_dir
process_leaves_jail = refl

os_calls_confined_example :
    Throughout
      (λ before j c. Safe (host before) j c)
      []
      (run
        (os_environment system)
        (host_file_system host)
        always
        (op_read_file (codes "a"))
        start).calls
os_calls_confined_example =
    os_calls_confined system host 1 env.vars (codes "/home") always (codes "/jail") []
      host-IsAbsolute (unfold is_abs in refl) tt start_done
      (then_step here (call_method (op_read_file (codes "a")) tt))

set-get-unset_example :
    ((OsEnv.set (codes "A") (codes "1") env ≡ none) × (is_settable (codes "A") (codes "1") ≡ false))
    ⊎ (set_env : OsEnv) × (is_settable (codes "A") (codes "1") ≡ true)
      × (OsEnv.set (codes "A") (codes "1") env ≡ some set_env)
      × (OsEnv.get set_env (codes "HOME") ≡ (
          if bytes_eq (codes "A") (codes "HOME") then codes "1" else OsEnv.get env (codes "HOME")))
      × (OsEnv.has set_env (codes "HOME")
          ≡ (if bytes_eq (codes "A") (codes "HOME") then true else OsEnv.has env (codes "HOME")))
      × (OsEnv.get (OsEnv.unset (codes "A") set_env) (codes "HOME")
          ≡ (if bytes_eq (codes "A") (codes "HOME") then [] else OsEnv.get env (codes "HOME")))
      × (OsEnv.has (OsEnv.unset (codes "A") set_env) (codes "HOME")
          ≡ (if bytes_eq (codes "A") (codes "HOME") then false else OsEnv.has env (codes "HOME")))
set-get-unset_example = set-get-unset (codes "A") (codes "1") (codes "HOME") env

abbrev test_env : TestEnv
test_env = record {
  jail = [];
  home = codes "/h";
  user = [];
  vars = (codes "A", codes "1") ∷ (codes "HOME", codes "/h") ∷ [];
}

abbrev unsorted : List Bytes → List Bytes
unsorted keys = keys

dumped : dump_os_env unsorted env ≡ codes "HOME=/root\n"
unfolding dump_os_env listed_entries split_entry insert lookup bytes_eq
dumped = refl

dump_test_env-environ_example :
    dump_test_env unsorted test_env ≡ unlines (environ unsorted test_env)
dump_test_env-environ_example =
    dump_test_env-environ unsorted test_env (unfold lookup bytes_eq in (refl, refl, inl refl))
