-- ===== src/Jail/Tests.antt =====
-- The jail functions at concrete paths, and the theorems about them there.
use cli_toolkit.Base.{
  ◌≡◌, refl, false, not, codes, [], ◌∷◌, ◌++◌, bytes_eq, has_prefix, List, Bytes,
}
use cli_toolkit.FilePath.Split.{split, join_elems}
use cli_toolkit.FilePath.{
  is_abs, push, push_all, elems, render, clean, join, rel, strip_common, climb,
}
use cli_toolkit.Jail.{remove_jail_prefix, is_in_jail}
use cli_toolkit.Jail.Boundary.{starts_dotdot, is_in_jail_sound, is_in_jail_complete}
use cli_toolkit.Jail.Prefix.{remove_jail_prefix-join-clean}

-- What the examples compute with.
abbrev jail : Bytes
jail = codes "/srv/jail"

abbrev inner : Bytes
inner = codes "/srv/jail/home/../tmp"

abbrev outer : Bytes
outer = codes "/srv/other"

-- A name of the jail that begins with two dots is refused.
dotted_refused : is_in_jail jail (codes "/srv/jail/..cache") ≡ false
unfolding is_in_jail rel strip_common climb clean elems render is_abs push push_all split join_elems
    bytes_eq has_prefix
dotted_refused = refl

prefix_is_no_jail : is_in_jail jail (codes "/srv/jailbird") ≡ false
unfolding is_in_jail rel strip_common climb clean elems render is_abs push push_all split join_elems
    bytes_eq has_prefix
prefix_is_no_jail = refl

-- Outside the jail just the shared names go.
shared_names_go : remove_jail_prefix jail outer ≡ codes "/other"
unfolding remove_jail_prefix rel strip_common climb join clean elems render is_abs push push_all
    split join_elems bytes_eq
shared_names_go = refl

is_in_jail_sound_example :
    (rest : List Bytes) × (elems inner ≡ elems jail ++ rest) × (starts_dotdot rest ≡ false)
unfolding is_in_jail rel strip_common climb clean elems render is_abs push push_all split join_elems
    bytes_eq has_prefix
is_in_jail_sound_example = is_in_jail_sound jail inner refl refl refl

is_in_jail_complete_example : is_in_jail jail inner ≡ not (starts_dotdot (codes "tmp" ∷ []))
unfolding clean elems is_abs push push_all split bytes_eq
is_in_jail_complete_example = is_in_jail_complete jail inner refl refl (codes "tmp" ∷ []) refl

remove_jail_prefix-join-clean_example :
    remove_jail_prefix jail (join (jail ∷ clean (codes "/a/../b") ∷ [])) ≡ clean (codes "/a/../b")
remove_jail_prefix-join-clean_example =
    remove_jail_prefix-join-clean jail (codes "/a/../b") (unfold is_abs in refl)
      (unfold is_abs in refl)
