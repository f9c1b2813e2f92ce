-- ===== src/Runtime/Glob/Tests.antt =====
-- Glob of a runtime in the jail /jail with the working directory /work, over a host that answers each pattern with
-- one path in the jail and one outside it.
use cli_toolkit.Base.{
  true, List, [], ◌∷◌, Option, some, none, subst, ◌≡◌, refl, inr, All, Bytes, codes, bytes_eq,
  has_prefix, is_blank, arith,
}
use cli_toolkit.FilePath.Split.{split, join_elems}
use cli_toolkit.FilePath.{
  is_abs, push, push_all, elems, render, clean, join, rel, strip_common, climb,
}
use cli_toolkit.Jail.{remove_jail_prefix, is_in_jail}
use cli_toolkit.Expand.{expand_env, expand_in}
use cli_toolkit.Expand
use cli_toolkit.User.{expand_user_path}
use cli_toolkit.OsFs
use cli_toolkit.OsFs.Methods
use cli_toolkit.OsFs.Base.{OsFs, Lstat, found, directory}
use cli_toolkit.OsFs.Glob
use cli_toolkit.TestEnv
use cli_toolkit.TestEnv.{TestEnv, lookup}
use cli_toolkit.Runtime.{validate, getwd, expanded}
use cli_toolkit.Runtime.Base.{Outcome, done, on_fs}
use cli_toolkit.Runtime.Host.{World, StaysAbsolute, test_environment, host_file_system}
use cli_toolkit.Runtime.Sandbox.{SandboxRuntime}
use cli_toolkit.Runtime.Glob.{
  glob, resolved_pattern, from_wd, results, Gives, Found, runtime_glob_sound,
}

abbrev links : Bytes → Option Bytes
links p = some p

abbrev nodes : Bytes → Lstat
nodes p = found directory

abbrev host_glob : Bytes → Option (List Bytes)
host_glob p = some (codes "/jail/work/docs/a" ∷ codes "/other" ∷ [])

abbrev host : World
host calls = record {
  getwd = some (codes "/");
  lstat = nodes;
  stat = nodes;
  eval_symlinks = links;
  glob = host_glob;
}

host-IsAbsolute : StaysAbsolute host
unfolding is_abs
host-IsAbsolute calls = record {
  getwd_abs = λ cwd e. ground arith;
  eval_abs = λ p q h e. ground arith;
}

host_glob-All :
    (p : Bytes) (ms : List Bytes)
    → is_abs p ≡ true
    → host_glob p ≡ some ms
    → All (λ m. is_abs m ≡ true) ms
host_glob-All p ms h e =
    subst (All (λ m. is_abs m ≡ true)) (some_injective e) (unfold is_abs in (refl, (refl, tt)))
  where
    some_injective : {xs ys : List Bytes} → some xs ≡ some ys → xs ≡ ys
    some_injective f = cc f

abbrev env : TestEnv
env = record {
  jail = codes "/jail";
  home = codes "/jail/home";
  user = codes "bob";
  vars = (codes "D", codes "docs") ∷ [];
}

abbrev fs : OsFs
fs = record { jail = codes "/jail"; wd = codes "/work" }

abbrev start : SandboxRuntime links host
start = record {
  env = some env;
  fs = some fs;
  clock = some 0;
  logger = some 0;
  stream = some 0;
  hasher = some 0;
  process = none;
  jail = codes "/jail";
  wd = codes "/work";
  calls = [];
}

abbrev answer : Bytes → Outcome (List Bytes)
answer pattern = (glob (test_environment links) (host_file_system host) pattern start).1

found_from_wd : answer (codes "$D/*") ≡ done (codes "docs/a" ∷ [])
unfolding glob validate expanded getwd on_fs resolved_pattern from_wd results expand_env expand_in
    Expand.step Expand.finish Expand.has_close Expand.start_name Expand.start_output
    Expand.plain_mode Expand.plain_output expand_user_path TestEnv.get lookup Glob.glob
    Glob.check_prefix Glob.visible Glob.shown Glob.virtual_pattern Glob.literal_prefix
    Glob.only_escape Glob.before_meta Glob.before_slash Methods.getwd OsFs.resolve_host
    OsFs.resolve_virtual OsFs.get_jail OsFs.ensure_initialized OsFs.resolve_in OsFs.follow_in_jail
    OsFs.canonical_jail OsFs.lexical OsFs.host_path remove_jail_prefix is_blank is_in_jail rel
    strip_common climb clean elems render is_abs push push_all split join_elems bytes_eq has_prefix
    join
found_from_wd = refl

found_from_root : answer (codes "/work/*/a") ≡ done (codes "/work/docs/a" ∷ [])
unfolding glob validate expanded getwd on_fs resolved_pattern from_wd results expand_env expand_in
    Expand.step Expand.finish Expand.has_close Expand.start_name Expand.start_output
    Expand.plain_mode Expand.plain_output expand_user_path TestEnv.get lookup Glob.glob
    Glob.check_prefix Glob.visible Glob.shown Glob.virtual_pattern Glob.literal_prefix
    Glob.only_escape Glob.before_meta Glob.before_slash Methods.getwd OsFs.resolve_host
    OsFs.resolve_virtual OsFs.get_jail OsFs.ensure_initialized OsFs.resolve_in OsFs.follow_in_jail
    OsFs.canonical_jail OsFs.lexical OsFs.host_path remove_jail_prefix is_blank is_in_jail rel
    strip_common climb clean elems render is_abs push push_all split join_elems bytes_eq has_prefix
    join
found_from_root = refl

runtime_glob_sound_example :
    Gives
      (Found (test_environment links) host (codes "/jail") (codes "$D/*") start)
      (glob (test_environment links) (host_file_system host) (codes "$D/*") start)
runtime_glob_sound_example =
    runtime_glob_sound (test_environment links) host (codes "/jail") (codes "$D/*") fs start
      host-IsAbsolute host_glob-All (unfold is_abs in refl) refl (refl, inr (unfold is_abs in refl))
      (unfold is_abs in refl)
