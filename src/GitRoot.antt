-- ===== src/GitRoot.antt =====
-- appctx/git.go: FindGitRoot, over what Runtime.Stat reports without following links, and what the program git does;
-- both are parameters. Beside its result it gives what it logs.
mod Tests
pub mod Nearest
use cli_toolkit.Base.{
  ℕ, zero, suc, Bool, true, false, ◌||◌, List, [], ◌∷◌, ◌++◌, Option, none, some, Bytes, codes,
  ◌==◌, if◌then◌else◌, is_empty, bytes_eq, has_prefix, trim_space, length,
}
use cli_toolkit.Cascade.{to_lower}
use cli_toolkit.FilePath.{join, dir}
use cli_toolkit.Log.{Level, debug, warn}
use cli_toolkit.OsFs.Base.{Kind, file, directory, symlink, is_dir}

-- strings.Contains
unfoldable pub contains : Bytes → Bytes → Bool
contains [] part = is_empty part
contains (c ∷ s) part = let rest = contains s part in if has_prefix (c ∷ s) part then true else rest

-- An error of the command: its text, and what an ExitError holds, the text on stderr and the exit code.
pub record GitError : Type 0 where
  pub message : Bytes
  pub exit : Option (Bytes × ℕ)

-- What running git comes to.
pub data GitRun : Type 0 where
  printed : Bytes → GitRun
  failed : GitError → GitRun

abbrev not_a_repository : Bytes
not_a_repository = codes "not a git repository"

abbrev no_such_file : Bytes
no_such_file = codes "no such file or directory"

abbrev is_expected_exit : Option (Bytes × ℕ) → Bool
is_expected_exit none = false
is_expected_exit (some (stderr, code)) =
    let text = to_lower (trim_space stderr) in
    contains text not_a_repository || (contains text no_such_file || (code == 128))

-- isExpectedGitFallbackErr; `none` is the nil error.
unfoldable pub is_expected_git_fallback_err : Option GitError → Bool
unfolding contains
is_expected_git_fallback_err none = false
is_expected_git_fallback_err (some e) =
    let lower = to_lower e.message in
    contains lower not_a_repository || (contains lower no_such_file || is_expected_exit e.exit)

abbrev pub Logged : Type 0
Logged = List (Level × Bytes)

-- A directory or a regular file.
abbrev pub is_git_entry : Option Kind → Bool
is_git_entry none = false
is_git_entry (some directory) = true
is_git_entry (some file) = true
is_git_entry (some symlink) = false

module _ (stat : Bytes → Option Kind) where
  -- Whether a directory has a .git entry.
  unfoldable pub has_git : Bytes → Bool
  has_git p = is_git_entry (stat (join (p ∷ codes ".git" ∷ [])))

  abbrev pub count : Option (Bytes × ℕ) → Option (Bytes × ℕ)
  count none = none
  count (some (root, calls)) = some (root, suc calls)

  -- The loop upwards: the root, or the empty text, with the number of calls of Stat; `none` where the fuel
  -- runs out.
  unfoldable pub search_up : ℕ → Bytes → Option (Bytes × ℕ)
  search_up zero p = none
  search_up (suc fuel) p =
      let rest = count (search_up fuel (dir p)) in
      if has_git p then some (p, 1) else if bytes_eq (dir p) p then some ([], 1) else rest

  abbrev pub not_a_dir : Option Kind → Bool
  not_a_dir none = false
  not_a_dir (some k) = if is_dir k then false else true

  -- The directory to start from, where a file was given.
  unfoldable pub start_dir : Bytes → Bytes
  start_dir start = if not_a_dir (stat start) then dir start else start

  abbrev pub found : Bytes → Logged → Option (Bytes × ℕ) → Option (Bytes × Logged)
  found start logs none = none
  found start logs (some ([], calls)) = some ([], logs ++ (debug, codes "git root not found") ∷ [])
  found start logs (some (c ∷ root, calls)) =
      some (c ∷ root, logs ++ (debug, codes "found .git entry") ∷ [])

  -- The fallback; the length of the path is fuel enough.
  unfoldable pub fall_back : Bytes → Logged → Option (Bytes × Logged)
  unfolding search_up
  fall_back start logs = found start logs (search_up (suc (length start)) start)

  abbrev pub on_git : Bytes → GitRun → Option (Bytes × Logged)
  on_git start (printed out) =
      if is_empty (trim_space out)
      then fall_back start ((debug, codes "git rev-parse returned empty output") ∷ [])
      else some (trim_space out, (debug, codes "git rev-parse succeeded") ∷ [])
  on_git start (failed e) = fall_back start (
      (
        (if is_expected_git_fallback_err (some e) then debug else warn),
        codes "git rev-parse failed, falling back",
      )
      ∷ [])

  -- FindGitRoot of a runtime that is not nil; git is run in the directory to start from.
  unfoldable pub find_git_root : (Bytes → GitRun) → Bytes → Option (Bytes × Logged)
  unfolding start_dir fall_back
  find_git_root git start = on_git (start_dir start) (git (start_dir start))
