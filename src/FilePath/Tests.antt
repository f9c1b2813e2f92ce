-- ===== src/FilePath/Tests.antt =====
-- Runs of the path functions on inputs that can be followed in Go's own documentation.
use cli_toolkit.Base.{◌≡◌, refl, some, none, codes, [], ◌∷◌, bytes_eq}
use cli_toolkit.FilePath.Split.{split, join_elems}
use cli_toolkit.FilePath.{
  is_abs, push, push_all, elems, render, clean, join, rel, strip_common, climb, dir, base,
  last_part, trim_slashes,
}

clean_up : clean (codes "/a//b/./c/../..") ≡ codes "/a"
unfolding clean elems render is_abs push push_all split join_elems bytes_eq
clean_up = refl

clean_relative : clean (codes "../a/../..") ≡ codes "../.."
unfolding clean elems render is_abs push push_all split join_elems bytes_eq
clean_relative = refl

join_climbs : join (codes "/jail" ∷ codes "../etc" ∷ []) ≡ codes "/etc"
unfolding join clean elems render is_abs push push_all split join_elems bytes_eq
join_climbs = refl

rel_up : rel (codes "/a/b") (codes "/a/c/d") ≡ some (codes "../c/d")
unfolding rel strip_common climb clean elems render is_abs push push_all split join_elems bytes_eq
rel_up = refl

rel_unknown : rel (codes "..") (codes "a") ≡ none
unfolding rel strip_common climb clean elems render is_abs push push_all split join_elems bytes_eq
rel_unknown = refl

dir_and_base :
    (dir (codes "/a/b") ≡ codes "/a")
    × (base (codes "/a/b/") ≡ codes "b")
    × (base (codes "//") ≡ codes "/")
unfolding dir base last_part trim_slashes clean elems render is_abs push push_all split join_elems
    bytes_eq
dir_and_base = (refl, refl, refl)
