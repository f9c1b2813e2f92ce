-- ===== src/Runtime/Tests.antt =====
-- A sandbox's runtime in the jail /jail, over a host whose link /jail/out leads to /etc.
use cli_toolkit.Base.{
  true, false, List, [], ◌∷◌, Option, some, none, ◌≡◌, refl, inr, arith, Bytes, codes, bytes_eq,
  has_prefix, if◌then◌else◌, is_blank,
}
use cli_toolkit.FilePath.Split.{split, join_elems}
use cli_toolkit.FilePath.{
  is_abs, push, push_all, elems, render, clean, join, rel, strip_common, climb,
}
use cli_toolkit.Jail.{clean_jail, remove_jail_prefix, is_in_jail}
use cli_toolkit.Expand.{expand_env, expand_in}
use cli_toolkit.Expand
use cli_toolkit.User.{expand_user_path}
use cli_toolkit.OsFs
use cli_toolkit.OsFs.Methods
use cli_toolkit.OsFs.Base.{OsFs, escape_attempt, Lstat, found, missing, directory, symlink}
use cli_toolkit.OsFs.Calls.{Call, os_read_file}
use cli_toolkit.OsFs.Checked.{Safe}
use cli_toolkit.Runtime.Contract.{Throughout}
use cli_toolkit.TestEnv
use cli_toolkit.TestEnv.{TestEnv, lookup, insert}
use cli_toolkit.Runtime.{
  validate, found_jail, put_jail, push_jail, put_wd, apply_working_dir, normalize_path, usable,
  normalize_state, getwd, expanded, absolute, located, fall_back, set_jail, resolve_path,
  wd_from_fs, find_wd,
}
use cli_toolkit.Runtime.Base.{History, done, fail, fs_failed, on_fs, on_env, ask_env}
use cli_toolkit.Runtime.Files.{Reply, act, act_at, read_file}
use cli_toolkit.Runtime.Host.{
  World, StaysAbsolute, test_environment, host_file_system, test_environment-IsEnvironment,
  host_file_system-IsFileSystem,
}
use cli_toolkit.Runtime.Reach.{
  Together, Reach-Together, op_set_jail, op_read_file, op_mkdir, op_write_file, run, call_method,
  here, then_step,
}
use cli_toolkit.Runtime.Contract.{InJail}
use cli_toolkit.Runtime.Options.{
  RuntimeOption, with_env, with_jail, apply_option, apply_options, new_runtime,
}
use cli_toolkit.Runtime.Sync.{set_jail-InJail}
use cli_toolkit.Runtime.Sandbox.{SandboxRuntime, IsStart, calls_confined}

abbrev links : Bytes → Option Bytes
links p = if bytes_eq p (codes "/jail/out") then some (codes "/etc") else some p

-- The directory /jail/new is there behind the first call.
abbrev nodes : History → Bytes → Lstat
nodes calls p =
    if bytes_eq p (codes "/jail/out")
    then found symlink
    else if bytes_eq p (codes "/jail/new")
    then elim calls [ [] ↦ missing | c ∷ rest ↦ found directory ]
    else found directory

abbrev host : World
host calls = record {
  getwd = some (codes "/");
  lstat = nodes calls;
  stat = nodes calls;
  eval_symlinks = links;
  glob = λ p. none;
}

host-IsAbsolute : StaysAbsolute host
unfolding is_abs
host-IsAbsolute calls = record {
  getwd_abs = λ cwd e. ground arith;
  eval_abs = λ p q h e. ground arith;
}

abbrev env : TestEnv
env = record {
  jail = codes "/jail";
  home = codes "/jail/home";
  user = codes "bob";
  vars = (codes "D", codes "docs") ∷ (codes "PWD", codes "/") ∷ [];
}

abbrev fs : OsFs
fs = record { jail = codes "/jail"; wd = codes "/" }

abbrev start : SandboxRuntime links host
start = record {
  env = some env;
  fs = some fs;
  clock = some 0;
  logger = some 0;
  stream = some 0;
  hasher = some 0;
  process = none;
  jail = codes "/jail";
  wd = codes "/";
  calls = [];
}

abbrev always : Reply
always calls call = true

start-IsStart : IsStart links host (codes "/jail") start
unfolding is_abs clean elems render push push_all split join_elems bytes_eq
start-IsStart = record {
  env = env;
  fs = fs;
  jail_abs = refl;
  jail_clean = refl;
  has_env = refl;
  has_fs = refl;
  jail_rt = refl;
  jail_env = refl;
  jail_fs = refl;
  wd_fs = inr refl;
  no_calls = refl;
}

abbrev calls_of : SandboxRuntime links host → List (Bytes × Call)
calls_of rt = rt.calls

-- A variable and the working directory are put in, and the jail in front.
read_below_jail :
    calls_of
      (read_file (test_environment links) (host_file_system host) always (codes "$D/a") start).0
    ≡ (codes "/jail", os_read_file (codes "/jail/docs/a")) ∷ []
unfolding read_file act_at act validate resolve_path located expanded absolute getwd on_fs
    expand_env expand_in Expand.step Expand.finish Expand.has_close Expand.start_name
    Expand.start_output Expand.plain_mode Expand.plain_output expand_user_path Methods.perform
    OsFs.resolve_host OsFs.resolve_virtual OsFs.get_jail OsFs.ensure_initialized OsFs.resolve_in
    OsFs.follow_in_jail OsFs.canonical_jail OsFs.lexical OsFs.host_path is_blank is_in_jail
    remove_jail_prefix rel strip_common climb clean elems render is_abs push push_all split
    join_elems bytes_eq has_prefix join lookup TestEnv.get
read_below_jail = refl

link_out_refused :
    (read_file (test_environment links) (host_file_system host) always (codes "out") start).1
    ≡ fail (fs_failed (escape_attempt (codes "/etc")))
unfolding read_file act_at act validate resolve_path located expanded absolute getwd on_fs
    expand_env expand_in Expand.step Expand.finish Expand.has_close Expand.start_name
    Expand.start_output Expand.plain_mode Expand.plain_output expand_user_path Methods.perform
    OsFs.resolve_host OsFs.resolve_virtual OsFs.get_jail OsFs.ensure_initialized OsFs.resolve_in
    OsFs.follow_in_jail OsFs.canonical_jail OsFs.lexical OsFs.host_path is_blank is_in_jail
    remove_jail_prefix rel strip_common climb clean elems render is_abs push push_all split
    join_elems bytes_eq has_prefix join lookup TestEnv.get
link_out_refused = refl

abbrev moved : SandboxRuntime links host
moved =
    run (test_environment links) (host_file_system host) always (op_set_jail (codes "/srv")) start

read_after_move :
    calls_of
      (run (test_environment links) (host_file_system host) always (op_read_file (codes "a")) moved)
    ≡ (codes "/srv", os_read_file (codes "/srv/a")) ∷ []
unfolding run set_jail put_jail push_jail apply_working_dir put_wd fall_back normalize_path usable
    clean_jail on_env OsFs.set_jail Methods.setwd Methods.enter Methods.getwd TestEnv.set_jail
    TestEnv.setwd TestEnv.resolve_path TestEnv.expand_path TestEnv.absolute TestEnv.getwd
    TestEnv.move_home TestEnv.move_tmp TestEnv.rejail insert read_file act_at act validate
    resolve_path located expanded absolute getwd on_fs expand_env expand_in Expand.step
    Expand.finish Expand.has_close Expand.start_name Expand.start_output Expand.plain_mode
    Expand.plain_output expand_user_path Methods.perform OsFs.resolve_host OsFs.resolve_virtual
    OsFs.get_jail OsFs.ensure_initialized OsFs.resolve_in OsFs.follow_in_jail OsFs.canonical_jail
    OsFs.lexical OsFs.host_path is_blank is_in_jail remove_jail_prefix rel strip_common climb clean
    elems render is_abs push push_all split join_elems bytes_eq has_prefix join lookup TestEnv.get
read_after_move = refl

calls_confined_example :
    Throughout
      (λ before j c. Safe (host before) j c)
      []
      (calls_of (
        run
          (test_environment links)
          (host_file_system host)
          always
          (op_write_file (codes "new/a") (codes "one") 420)
          (run
            (test_environment links)
            (host_file_system host)
            always
            (op_mkdir (codes "new") 493 false)
            start)))
calls_confined_example =
    calls_confined links host always (codes "/jail") host-IsAbsolute start-IsStart (
      then_step (then_step here (call_method (op_mkdir (codes "new") 493 false) tt))
        (call_method (op_write_file (codes "new/a") (codes "one") 420) tt))

start_valid : (validate (test_environment links) (host_file_system host) start).1 ≡ done tt
unfolding validate
start_valid = refl

set_jail-InJail_example :
    InJail
      (test_environment links)
      (host_file_system host)
      (host_file_system-IsFileSystem host host-IsAbsolute)
      (clean (codes "/srv/"))
      (set_jail (test_environment links) (host_file_system host) (codes "/srv/") start).0
unfolding host_file_system-IsFileSystem
set_jail-InJail_example =
    set_jail-InJail (test_environment links) (host_file_system host)
      (test_environment-IsEnvironment links) (host_file_system-IsFileSystem host host-IsAbsolute)
      (codes "/srv/") start (unfold is_abs in refl) start_valid (inr (unfold is_abs in refl)) tt

Reach-Together_example :
    Together
      (test_environment links)
      (host_file_system host)
      always
      (test_environment-IsEnvironment links)
      (host_file_system-IsFileSystem host host-IsAbsolute)
      moved
unfolding host_file_system-IsFileSystem is_abs clean elems render push push_all split join_elems
    bytes_eq
Reach-Together_example =
    Reach-Together (test_environment links) (host_file_system host) always
      (test_environment-IsEnvironment links) (host_file_system-IsFileSystem host host-IsAbsolute)
      (then_step here (call_method (op_set_jail (codes "/srv")) refl))
      (codes "/jail", refl, refl, (refl, (refl, (refl, inr refl)), refl, tt))

-- NewRuntime with options, of which one is nil, from its defaults.
abbrev options : List (Option (RuntimeOption (test_environment links) (host_file_system host)))
options = some (with_env (some env)) ∷ none ∷ some (with_jail (codes "/jail/")) ∷ []

abbrev defaults : SandboxRuntime links host
defaults = record start { env = none; jail = [] }

options_done :
    (new_runtime (test_environment links) (host_file_system host) options defaults).1 ≡ done tt
unfolding new_runtime apply_options apply_option normalize_state found_jail wd_from_fs find_wd
    ask_env run set_jail put_jail push_jail apply_working_dir put_wd fall_back normalize_path usable
    clean_jail on_env OsFs.set_jail Methods.setwd Methods.enter Methods.getwd TestEnv.set_jail
    TestEnv.setwd TestEnv.resolve_path TestEnv.expand_path TestEnv.absolute TestEnv.getwd
    TestEnv.move_home TestEnv.move_tmp TestEnv.rejail insert read_file act_at act validate
    resolve_path located expanded absolute getwd on_fs expand_env expand_in Expand.step
    Expand.finish Expand.has_close Expand.start_name Expand.start_output Expand.plain_mode
    Expand.plain_output expand_user_path Methods.perform OsFs.resolve_host OsFs.resolve_virtual
    OsFs.get_jail OsFs.ensure_initialized OsFs.resolve_in OsFs.follow_in_jail OsFs.canonical_jail
    OsFs.lexical OsFs.host_path is_blank is_in_jail remove_jail_prefix rel strip_common climb clean
    elems render is_abs push push_all split join_elems bytes_eq has_prefix join lookup TestEnv.get
options_done = refl
