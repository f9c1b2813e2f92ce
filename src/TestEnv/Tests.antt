-- ===== src/TestEnv/Tests.antt =====
-- An environment of a test in the jail /jail, for the user bob.
use cli_toolkit.Base.{
  false, [], Option, some, ◌≡◌, refl, inl, inr, Bytes, codes, bytes_eq, has_prefix,
}
use cli_toolkit.FilePath.{
  is_abs, push, push_all, elems, render, clean, join, rel, strip_common, climb,
}
use cli_toolkit.FilePath.Split.{split, join_elems}
use cli_toolkit.Jail.{remove_jail_prefix}
use cli_toolkit.TestEnv.{
  lookup, insert, TestEnv, default_home, new_test_env, set_jail, get_home, getwd, expand_path,
  absolute, resolve_path, set_home, set, get, get_temp_dir,
}
use cli_toolkit.TestEnv.Paths.{HasRoot}
use cli_toolkit.TestEnv.Homes.{get_home-set_home, get_home-set_jail}
use cli_toolkit.TestEnv.Invariant.{IsSound}
use cli_toolkit.TestEnv.Reach.{
  here, then_step, assign, change_jail, Reach-IsSound, get-set, new_test_env-IsSound,
}

abbrev no_links : Bytes → Option Bytes
no_links p = some p

abbrev start : TestEnv
start = new_test_env (codes "/jail") [] (codes "bob")

start_home : start.home ≡ codes "/home/bob"
unfolding new_test_env default_home join clean elems render is_abs push push_all split join_elems
    bytes_eq
start_home = refl

temp_in_jail : get_temp_dir start ≡ codes "/jail/tmp"
unfolding new_test_env default_home join clean elems render is_abs push push_all split join_elems
    bytes_eq insert lookup get_temp_dir
temp_in_jail = refl

tilde_expanded : expand_path start (codes "~/a/../b") ≡ codes "/home/bob/b"
unfolding new_test_env default_home join clean elems render is_abs push push_all split join_elems
    bytes_eq expand_path get_home remove_jail_prefix rel strip_common climb has_prefix
tilde_expanded = refl

backslash_expanded : expand_path start (codes "~\\b") ≡ codes "/home/bob/b"
unfolding new_test_env default_home join clean elems render is_abs push push_all split join_elems
    bytes_eq expand_path get_home remove_jail_prefix rel strip_common climb has_prefix
backslash_expanded = refl

start-HasRoot : HasRoot start
unfolding new_test_env default_home join clean elems render is_abs push push_all split join_elems
    bytes_eq insert lookup
start-HasRoot = inr (refl, refl)

abbrev moved : TestEnv
moved = record start {
  home = codes "/jail/docs";
  vars = insert start.vars (codes "HOME") (codes "/jail/docs");
}

home_set : set_home no_links (codes "/docs") start ≡ some moved
unfolding set_home new_test_env default_home join clean elems render is_abs push push_all split
    join_elems bytes_eq insert lookup resolve_path getwd absolute expand_path has_prefix
home_set = refl

get_home-set_home_example : get_home moved ≡ resolve_path no_links start (codes "/docs") false
get_home-set_home_example =
    get_home-set_home no_links start moved (codes "/docs") (unfold new_test_env is_abs in refl)
      start-HasRoot home_set

get_home-set_jail_example : get_home (set_jail (codes "/srv") start) ≡ get_home start
get_home-set_jail_example =
    get_home-set_jail (codes "/srv") start (unfold new_test_env is_abs in refl)
      (unfold is_abs in refl)
      (unfold new_test_env default_home join clean elems render is_abs push push_all split
          join_elems bytes_eq in
        refl)

abbrev with_editor : TestEnv
with_editor = record start { vars = insert start.vars (codes "EDITOR") (codes "vi") }

editor_set : set no_links (codes "EDITOR") (codes "vi") start ≡ some with_editor
unfolding set bytes_eq
editor_set = refl

Reach-IsSound_example : IsSound (set_jail (codes "/srv") with_editor)
Reach-IsSound_example =
    Reach-IsSound no_links (codes "/jail") [] (codes "bob") (set_jail (codes "/srv") with_editor)
      (inl refl)
      (then_step (then_step here (assign (codes "EDITOR") (codes "vi") editor_set))
        (change_jail (codes "/srv")))

get-set_example : get with_editor (codes "EDITOR") ≡ codes "vi"
unfolding bytes_eq
get-set_example =
    get-set no_links start with_editor (codes "EDITOR") (codes "vi")
      (new_test_env-IsSound (codes "/jail") [] (codes "bob") (inl refl)) refl refl editor_set
