-- ===== src/OsFs/Tests.antt =====
-- A jailed file system over a host with one link that leads out of the jail and one that stays.
use cli_toolkit.Base.{
  ◌≡◌, ◌≢◌, refl, true, codes, [], ◌∷◌, some, bytes_eq, is_blank, has_prefix, Bytes, if◌then◌else◌,
  ◌⊎◌, inr, All, arith, Option, List, map, subst,
}
use cli_toolkit.FilePath.Split.{split, join_elems}
use cli_toolkit.FilePath.{
  is_abs, push, push_all, elems, render, clean, join, rel, strip_common, climb, dir, base,
  last_part, trim_slashes,
}
use cli_toolkit.Jail.{remove_jail_prefix, is_in_jail}
use cli_toolkit.OsFs.{
  set_jail, get_jail, ensure_initialized, canonical_jail, canonical_ancestor, lexical,
  follow_in_jail, resolve_in, resolve_virtual, host_path, resolve_host, walk_up, reattach,
  attach_in_jail, create_in_jail, resolve_host_for_create,
}
use cli_toolkit.OsFs.Base.{
  Host, OsFs, ok, err, escape_attempt, stuck, Lstat, found, missing, directory, symlink,
}
use cli_toolkit.OsFs.Calls.{os_chmod, os_mkdir_all}
use cli_toolkit.OsFs.Start.{new_os_fs_lem, start_of}
use cli_toolkit.Base.{trim_space, is_empty}
use cli_toolkit.Jail.{root}
use cli_toolkit.OsFs.Methods.{new_os_fs, initial_wd, start_in, perform, do_chmod, do_mkdir}
use cli_toolkit.OsFs.Virtual.{IsAbsolute}
use cli_toolkit.OsFs.Create.{create_in_jail_sound, create_in_jail-ne-stuck, Created}
use cli_toolkit.OsFs.Checked.{Safe}
use cli_toolkit.OsFs.Confined.{Post}
use cli_toolkit.OsFs.Glob.{
  glob, check_prefix, visible, shown, virtual_pattern, literal_prefix, only_escape, before_meta,
  before_slash,
}
use cli_toolkit.OsFs.Prefix.{PrefixChecked}
use cli_toolkit.OsFs.Matches.{in_jail, glob_sound}
use cli_toolkit.OsFs.Methods.{getwd}
use cli_toolkit.OsFs.Escape.{perform_confined}

abbrev tree_links : Bytes → Option Bytes
tree_links p =
    if bytes_eq p (codes "/jail/out")
    then some (codes "/etc")
    else if bytes_eq p (codes "/jail/in")
    then some (codes "/jail/lib")
    else some p

abbrev tree_nodes : Bytes → Lstat
tree_nodes p =
    if bytes_eq p (codes "/jail/out")
    then found symlink
    else if bytes_eq p (codes "/jail")
    then found directory
    else missing

abbrev two_matches : Bytes → Option (List Bytes)
two_matches p = some (codes "/jail/out/passwd" ∷ codes "/other" ∷ [])

abbrev host : Host
host = record {
  getwd = some (codes "/");
  lstat = tree_nodes;
  stat = tree_nodes;
  eval_symlinks = tree_links;
  glob = two_matches;
}

host-IsAbsolute : IsAbsolute host
unfolding is_abs
host-IsAbsolute = record { getwd_abs = λ cwd e. ground arith; eval_abs = λ p q h e. ground arith }

abbrev fs : OsFs
fs = record { jail = codes "/jail"; wd = codes "/" }

link_out_refused :
    perform host (do_chmod (codes "/out") 0) fs ≡ (fs, err (escape_attempt (codes "/etc")))
unfolding perform resolve_host resolve_virtual get_jail ensure_initialized resolve_in follow_in_jail
    canonical_jail lexical is_blank is_in_jail rel strip_common climb clean elems render is_abs push
    push_all split join_elems bytes_eq has_prefix join
link_out_refused = refl

link_in_followed :
    perform host (do_chmod (codes "/in") 0) fs ≡ (fs, ok (os_chmod (codes "/jail/lib") 0))
unfolding perform resolve_host resolve_virtual get_jail ensure_initialized resolve_in follow_in_jail
    canonical_jail lexical host_path remove_jail_prefix is_blank is_in_jail rel strip_common climb
    clean elems render is_abs push push_all split join_elems bytes_eq has_prefix join
link_in_followed = refl

made_below_ancestor :
    perform host (do_mkdir (codes "../x/y") 7 true) fs
    ≡ (fs, ok (os_mkdir_all (codes "/jail/x/y") 7))
unfolding perform resolve_host_for_create resolve_virtual get_jail ensure_initialized resolve_in
    create_in_jail walk_up attach_in_jail reattach canonical_ancestor canonical_jail lexical
    host_path is_blank is_in_jail rel strip_common climb clean elems render is_abs push push_all
    split join_elems bytes_eq has_prefix join dir base last_part trim_slashes
made_below_ancestor = refl

perform_confined_example : Safe host (codes "/jail") (os_chmod (codes "/jail/lib") 0)
perform_confined_example =
    perform_confined host (do_chmod (codes "/in") 0) fs host-IsAbsolute (unfold is_abs in refl)
      (inr (unfold is_abs in refl)) link_in_followed

create_in_jail_sound_example :
    ((codes "/jail/x/y" ≡ codes "/jail/x/y") × ((codes "x" ∷ codes "y" ∷ []) ≡ []))
    ⊎ Created host (codes "/jail") (codes "/jail/x/y") (codes "/jail/x/y")
unfolding create_in_jail walk_up attach_in_jail reattach canonical_ancestor canonical_jail is_blank
    is_in_jail rel strip_common climb clean elems render is_abs push push_all split join_elems
    bytes_eq has_prefix join dir base last_part trim_slashes
create_in_jail_sound_example =
    create_in_jail_sound host host-IsAbsolute (codes "/jail") (codes "/jail/x/y")
      (codes "x" ∷ codes "y" ∷ []) refl refl refl refl refl (codes "/jail/x/y") refl

create_in_jail-ne-stuck_example :
    create_in_jail host (codes "/jail") (codes "/jail/x/y") ≢ err stuck
unfolding clean elems render is_abs push push_all split join_elems bytes_eq is_blank
create_in_jail-ne-stuck_example =
    create_in_jail-ne-stuck host host-IsAbsolute (codes "/jail") (codes "/jail/x/y")
      (codes "x" ∷ codes "y" ∷ []) refl refl refl refl refl

started_trimmed :
    (new_os_fs host (codes "/jail/x/..") (codes " home ")).1
    ≡ ok (record { jail = codes "/jail"; wd = codes "/home" })
unfolding new_os_fs initial_wd start_in trim_space set_jail get_jail resolve_virtual
    ensure_initialized resolve_in lexical is_blank is_in_jail rel strip_common climb clean elems
    render is_abs push push_all split join_elems bytes_eq has_prefix join
started_trimmed = refl

new_os_fs_lem_example :
    (new_os_fs host (codes "/jail") (codes " home ")).1
    ≡ start_of
        (clean (codes "/jail"))
        (if is_empty (trim_space (codes " home ")) then root else trim_space (codes " home "))
new_os_fs_lem_example = new_os_fs_lem host (codes "/jail") (codes " home ") (unfold is_abs in refl)

two_matches-All :
    (p : Bytes) (ms : List Bytes)
    → is_abs p ≡ true
    → two_matches p ≡ some ms
    → All (λ m. is_abs m ≡ true) ms
two_matches-All p ms h e =
    subst (All (λ m. is_abs m ≡ true)) (some_injective e) (unfold is_abs in (refl, (refl, tt)))
  where
    some_injective : {xs ys : List Bytes} → some xs ≡ some ys → xs ≡ ys
    some_injective f = cc f

glob_sound_example :
    Post
      (codes "/jail")
      (λ vs.
        PrefixChecked host (codes "/jail") (clean (codes "/*/passwd"))
        × (ms : List Bytes) × (two_matches (host_path (codes "/jail") (clean (codes "/*/passwd")))
            ≡ some ms)
        × (map (host_path (codes "/jail")) vs ≡ map clean (in_jail (codes "/jail") ms)))
      (glob host (codes "/*/passwd") fs)
glob_sound_example =
    glob_sound host (codes "/jail") (codes "/*/passwd") fs host-IsAbsolute two_matches-All
      (unfold is_abs in refl) (unfold is_abs in refl) (refl, inr (unfold is_abs in refl))

-- A link in the pattern's own names is refused, one that a meta-character stands for is not.
prefix_link_refused : (glob host (codes "/out/*") fs).1 ≡ err (escape_attempt (codes "/etc"))
unfolding glob check_prefix getwd visible shown virtual_pattern literal_prefix only_escape
    before_meta before_slash resolve_host resolve_virtual get_jail ensure_initialized resolve_in
    follow_in_jail canonical_jail lexical host_path remove_jail_prefix is_blank is_in_jail rel
    strip_common climb clean elems render is_abs push push_all split join_elems bytes_eq has_prefix
    join
prefix_link_refused = refl

wildcard_link_followed : (glob host (codes "/*/passwd") fs).1 ≡ ok (codes "/out/passwd" ∷ [])
unfolding glob check_prefix getwd visible shown virtual_pattern literal_prefix only_escape
    before_meta before_slash resolve_host resolve_virtual get_jail ensure_initialized resolve_in
    follow_in_jail canonical_jail lexical host_path remove_jail_prefix is_blank is_in_jail rel
    strip_common climb clean elems render is_abs push push_all split join_elems bytes_eq has_prefix
    join
wildcard_link_followed = refl
