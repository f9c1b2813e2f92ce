-- ===== src/Sandbox/Tests.antt =====
-- A sandbox in /jail with a fixture, over a host whose link /jail/out leads to /etc.
use cli_toolkit.Base.{
  true, List, [], ◌∷◌, Option, some, none, ◌≡◌, refl, All, arith, Bytes, codes, bytes_eq,
  has_prefix, if◌then◌else◌, is_blank, Bool, false, trim_space,
}
use cli_toolkit.FilePath.Split.{split, join_elems}
use cli_toolkit.FilePath.{
  is_abs, push, push_all, elems, render, clean, join, rel, strip_common, climb,
}
use cli_toolkit.Jail.{clean_jail, remove_jail_prefix, is_in_jail}
use cli_toolkit.Expand.{expand_env, expand_in}
use cli_toolkit.Expand
use cli_toolkit.User.{expand_user_path}
use cli_toolkit.OsFs
use cli_toolkit.OsFs.{reattach}
use cli_toolkit.OsFs.Methods
use cli_toolkit.OsFs.Methods.{new_os_fs, initial_wd, start_in}
use cli_toolkit.OsFs.Base.{Lstat, found, directory, symlink}
use cli_toolkit.OsFs.Calls.{Call, os_mkdir_all, os_write_file}
use cli_toolkit.OsFs.Checked.{Safe}
use cli_toolkit.Runtime.Host.{World, StaysAbsolute}
use cli_toolkit.Runtime.Contract.{Throughout}
use cli_toolkit.TestEnv
use cli_toolkit.TestEnv.{lookup, insert, new_test_env, default_home}
use cli_toolkit.Runtime
use cli_toolkit.Runtime.{
  validate, found_jail, put_jail, push_jail, put_wd, apply_working_dir, normalize_path, usable,
  normalize_state, expanded, absolute, located, fall_back, set_jail, wd_from_fs, find_wd,
  resolve_working_dir,
}
use cli_toolkit.Runtime.Base.{on_fs, on_env, ask_env}
use cli_toolkit.Runtime.Files
use cli_toolkit.Runtime.Files.{Reply, act, act_at}
use cli_toolkit.Runtime.Options
use cli_toolkit.Runtime.Options.{new_runtime}
use cli_toolkit.Runtime.Sandbox.{SandboxRuntime}
use cli_toolkit.Runtime.Start.{new_test_runtime, base_options}
use cli_toolkit.Sandbox
use cli_toolkit.Sandbox.{
  TestSandbox, SandboxOption, fixture_option, wd_option, new_sandbox, runtime_options, with_wd,
  with_fixture, copy_fixture,
}
use cli_toolkit.Sandbox.Base.{Answer, returned}
use cli_toolkit.Sandbox.Embed.{
  Entries, end, file, directory, issue, copy_entries, copy_embed_dir, entry, below,
}
use cli_toolkit.Sandbox.Copied.{
  Before, planned, issue_all, copy_embed_dir_written, copy_embed_dir-issue_all,
}
use cli_toolkit.Sandbox.Below.{HasNames, CallBelow}
use cli_toolkit.Sandbox.Whole.{act_read_file, act_setwd, run_all, sandbox_confined}

abbrev links : Bytes → Option Bytes
links p = if bytes_eq p (codes "/jail/out") then some (codes "/etc") else some p

abbrev nodes : Bytes → Lstat
nodes p = if bytes_eq p (codes "/jail/out") then found symlink else found directory

abbrev host : World
host calls = record {
  getwd = some (codes "/");
  lstat = nodes;
  stat = nodes;
  eval_symlinks = links;
  glob = λ p. none;
}

host-IsAbsolute : StaysAbsolute host
unfolding is_abs
host-IsAbsolute calls = record {
  getwd_abs = λ cwd e. ground arith;
  eval_abs = λ p q h e. ground arith;
}

abbrev defaults : SandboxRuntime links host
defaults = record {
  env = none;
  fs = none;
  clock = none;
  logger = none;
  stream = none;
  hasher = none;
  process = none;
  jail = [];
  wd = [];
  calls = [];
}

abbrev always : Reply
always calls call = true

abbrev copies : List Call → Call → Bool
copies calls call = true

-- proj has a file a and a directory d with a file b.
abbrev project : Entries
project =
    file (codes "a") (codes "one") (directory (codes "d") (file (codes "b") (codes "two") end) end)

abbrev fixtures : Entries
fixtures = directory (codes "data") (directory (codes "proj") project end) end

abbrev options : List SandboxOption
options = fixture_option (codes "proj") (codes "/work") ∷ wd_option (codes "/work") ∷ []

abbrev made : TestSandbox links host copies × Answer (Unit {0})
made = new_sandbox links host copies defaults 7 (codes "/jail") [] [] fixtures options

abbrev copied_of : TestSandbox links host copies → List Call
copied_of s = s.copied

made_done :
    (copied_of made.0
      ≡ os_mkdir_all (codes "/jail/work") 493
        ∷ os_write_file (codes "/jail/work/a") (codes "one") 420
        ∷ os_mkdir_all (codes "/jail/work/d") 493
        ∷ os_write_file (codes "/jail/work/d/b") (codes "two") 420
        ∷ [])
    × (made.1 ≡ returned tt)
unfolding new_runtime Options.apply_options Options.apply_option normalize_state found_jail
    wd_from_fs find_wd ask_env set_jail put_jail push_jail apply_working_dir put_wd fall_back
    normalize_path usable clean_jail on_env OsFs.set_jail Methods.setwd Methods.enter Methods.getwd
    TestEnv.set_jail TestEnv.setwd TestEnv.resolve_path TestEnv.expand_path TestEnv.absolute
    TestEnv.getwd TestEnv.move_home TestEnv.move_tmp TestEnv.rejail insert Files.read_file act_at
    act validate Runtime.resolve_path expanded absolute located Runtime.getwd on_fs expand_env
    expand_in Expand.step Expand.finish Expand.has_close Expand.start_name Expand.start_output
    Expand.plain_mode Expand.plain_output expand_user_path Methods.perform OsFs.resolve_host
    OsFs.resolve_virtual OsFs.get_jail OsFs.ensure_initialized OsFs.resolve_in OsFs.follow_in_jail
    OsFs.canonical_jail OsFs.lexical OsFs.host_path is_blank is_in_jail remove_jail_prefix rel
    strip_common climb clean elems render is_abs push push_all split join_elems bytes_eq has_prefix
    join lookup TestEnv.get new_sandbox Sandbox.apply_options Sandbox.apply_option with_wd
    with_fixture copy_fixture copy_embed_dir copy_entries issue below entry runtime_options
    new_test_runtime base_options new_test_env default_home new_os_fs initial_wd start_in trim_space
    Runtime.setwd resolve_working_dir Sandbox.resolve_path
made_done = (refl, refl)

fixtures-HasNames : HasNames fixtures
unfolding bytes_eq
fixtures-HasNames = (
  (refl, refl, refl, (refl, (refl, (refl, (refl, tt))))),
  (
    (refl, refl, refl, (refl, (refl, (refl, (refl, tt))))),
    (
      (refl, refl, refl, (refl, tt)),
      ((refl, refl, refl, (refl, tt)), ((refl, refl, refl, (refl, tt)), tt), tt),
    ),
    tt,
  ),
  tt,
)

sandbox_confined_example :
    let s =
      run_all links host always copies
        (act_setwd (codes "d") ∷ act_read_file (codes "b") ∷ [])
        made.0 in
    (s.rt.jail ≡ clean (codes "/jail"))
    × Throughout (λ before j c. Safe (host before) j c) [] s.rt.calls
    × All (CallBelow (clean (codes "/jail"))) s.copied
sandbox_confined_example =
    sandbox_confined links host always copies defaults 7 (codes "/jail") [] [] fixtures options
      (act_setwd (codes "d") ∷ act_read_file (codes "b") ∷ []) host-IsAbsolute
      (unfold is_abs in refl) refl fixtures-HasNames (made_done.1)

copied_project :
    copy_embed_dir copies project (codes "/w") []
    ≡ ((copy_embed_dir copies project (codes "/w") []).0, true)
unfolding copy_embed_dir copy_entries issue
copied_project = refl

copy_embed_dir_written_example :
    Before
      (os_mkdir_all (reattach (codes "/w") (codes "d" ∷ [])) 493)
      (os_write_file
        (join (reattach (codes "/w") (codes "d" ∷ []) ∷ codes "b" ∷ []))
        (codes "two")
        420)
      (copy_embed_dir copies project (codes "/w") []).0
copy_embed_dir_written_example =
    copy_embed_dir_written copies project (codes "/w") []
      (copy_embed_dir copies project (codes "/w") []).0 (codes "d" ∷ []) (codes "b") (codes "two")
      copied_project (unfold below entry bytes_eq in refl)

-- A writer that refuses the first file.
abbrev refuses : List Call → Call → Bool
refuses [] call = true
refuses (first ∷ calls) call = false

copy_embed_dir-issue_all_example :
    copy_embed_dir refuses project (codes "/w") []
    ≡ issue_all refuses (os_mkdir_all (codes "/w") 493 ∷ planned project (codes "/w")) []
copy_embed_dir-issue_all_example = copy_embed_dir-issue_all refuses project (codes "/w") []
