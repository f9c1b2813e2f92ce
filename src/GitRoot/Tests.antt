-- ===== src/GitRoot/Tests.antt =====
-- A search from /a/b/f, where /a has a .git entry and f is a file, without git and with it.
use cli_toolkit.Base.{
  ℕ, suc, ◌≤◌, true, [], ◌∷◌, Option, none, some, Bytes, codes, ◌≡◌, refl, if◌then◌else◌, bytes_eq,
  has_prefix, length, reverse, trim_space,
}
use cli_toolkit.Cascade.{to_lower}
use cli_toolkit.FilePath.Split.{split, join_elems}
use cli_toolkit.FilePath.{is_abs, push, push_all, elems, render, clean, join, dir, through_slash}
use cli_toolkit.Log.{debug}
use cli_toolkit.OsFs.Base.{Kind, file, directory}
use cli_toolkit.GitRoot.{
  Logged, GitRun, GitError, printed, failed, contains, is_expected_git_fallback_err, has_git,
  search_up, start_dir, fall_back, find_git_root,
}
use cli_toolkit.GitRoot.Nearest.{nearest, or_nearest, answer_of, search_up_total, find_git_root_lem}

abbrev tree : Bytes → Option Kind
tree p =
    if bytes_eq p (codes "/a/.git")
    then some directory
    else if bytes_eq p (codes "/a/b/f")
    then some file
    else none

abbrev not_found : GitError
not_found = record {
  message = codes "exit status 128";
  exit = some (codes "fatal: Not a git repository", 128);
}

abbrev without_git : Bytes → GitRun
without_git p = failed not_found

found_above :
    find_git_root tree without_git (codes "/a/b/f")
    ≡ some (
      codes "/a",
      (debug, codes "git rev-parse failed, falling back") ∷ (debug, codes "found .git entry") ∷ [],
    )
unfolding find_git_root start_dir fall_back search_up has_git is_expected_git_fallback_err contains
    to_lower trim_space dir through_slash clean elems render is_abs push push_all split join_elems
    bytes_eq has_prefix join
found_above = refl

abbrev with_git : Bytes → GitRun
with_git p = printed (codes " /top\n")

git_asked :
    find_git_root tree with_git (codes "/a/b/f")
    ≡ some (codes "/top", (debug, codes "git rev-parse succeeded") ∷ [])
unfolding find_git_root start_dir fall_back search_up has_git is_expected_git_fallback_err contains
    to_lower trim_space dir through_slash clean elems render is_abs push push_all split join_elems
    bytes_eq has_prefix join
git_asked = refl

abs_start : is_abs (codes "/a/b/f") ≡ true
unfolding is_abs
abs_start = refl

clean_start : clean (codes "/a/b/f") ≡ codes "/a/b/f"
unfolding clean elems render is_abs push push_all split join_elems bytes_eq
clean_start = refl

search_up_total_example :
    (calls : ℕ) × (search_up tree (suc (length (codes "/a/b/f"))) (codes "/a/b/f")
      ≡ some (nearest tree (reverse (elems (codes "/a/b/f"))), calls))
    × (calls ≤ suc (length (elems (codes "/a/b/f"))))
search_up_total_example = search_up_total tree (codes "/a/b/f") abs_start clean_start

find_git_root_lem_example :
    (logged : Logged) × (find_git_root tree without_git (codes "/a/b/f")
      ≡ some (
        or_nearest
            (answer_of (without_git (start_dir tree (codes "/a/b/f"))))
            (nearest tree (reverse (elems (start_dir tree (codes "/a/b/f"))))),
        logged,
      ))
find_git_root_lem_example =
    find_git_root_lem tree without_git (codes "/a/b/f") abs_start clean_start
