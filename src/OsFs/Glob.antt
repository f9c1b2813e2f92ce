-- ===== src/OsFs/Glob.antt =====
-- OsFS.Glob and globLiteralPrefix (toolkit/filesystem/os_fs.go).
use cli_toolkit.Base.{
  ℕ, Bool, true, not, ◌||◌, List, [], ◌∷◌, Option, none, some, Bytes, ◌==◌, if◌then◌else◌, is_empty,
  is_blank, bytes_eq,
}
use cli_toolkit.FilePath.Split.{slash}
use cli_toolkit.FilePath.{is_abs, clean, join, rel, dir}
use cli_toolkit.Jail.{root, is_in_jail, remove_jail_prefix}
use cli_toolkit.OsFs.{get_jail, host_path, resolve_host}
use cli_toolkit.OsFs.Base.{
  Host, OsFs, escape_attempt, os_error, not_a_directory, stuck, Result, ok, err, M, ◌>>=◌, ◌>>◌,
  pure,
}
use cli_toolkit.OsFs.Methods.{getwd}

-- The meta-characters of a pattern: * ? [ and \.
abbrev pub is_meta : ℕ → Bool
is_meta c = (c == 42) || ((c == 63) || ((c == 91) || (c == 92)))

abbrev onto : ℕ → Option Bytes → Option Bytes
onto c none = none
onto c (some q) = some (c ∷ q)

-- The text in front of the first meta-character; `none` where there is no such character.
unfoldable pub before_meta : Bytes → Option Bytes
before_meta [] = none
before_meta (c ∷ p) = let rest = onto c (before_meta p) in if is_meta c then some [] else rest

abbrev pub or_here : ℕ → Option Bytes → Option Bytes
or_here c none = if c == slash then some [] else none
or_here c (some q) = some (c ∷ q)

-- The text in front of the last separator; `none` where there is none.
unfoldable pub before_slash : Bytes → Option Bytes
before_slash [] = none
before_slash (c ∷ p) = or_here c (before_slash p)

abbrev pub or_empty : Option Bytes → Bytes
or_empty none = []
or_empty (some q) = q

-- globLiteralPrefix
unfoldable pub literal_prefix : Bytes → Bytes
unfolding before_meta before_slash
literal_prefix pattern = elim (before_meta pattern) [
  | none ↦ dir pattern
  | some q ↦ or_empty (before_slash q)
]

-- Of the errors of the prefix only an escape is passed on.
unfoldable pub only_escape : OsFs × Result Bytes → OsFs × Result (Unit {0})
only_escape (fs, ok p) = (fs, ok tt)
only_escape (fs, err (escape_attempt p)) = (fs, err (escape_attempt p))
only_escape (fs, err os_error) = (fs, ok tt)
only_escape (fs, err not_a_directory) = (fs, ok tt)
only_escape (fs, err stuck) = (fs, ok tt)

abbrev pub or_self : Option Bytes → Bytes → Bytes
or_self none p = p
or_self (some r) p = r

-- What a match in the jail is shown as.
unfoldable pub shown : Bytes → Bytes → Bool → Bytes → Bytes
shown jail wd relative m =
    let virtual = remove_jail_prefix jail m in
    if relative then or_self (rel wd virtual) virtual else virtual

-- The loop over the matches.
unfoldable pub visible : Bytes → Bytes → Bool → List Bytes → List Bytes
unfolding shown
visible jail wd relative [] = []
visible jail wd relative (m ∷ ms) =
    let rest = visible jail wd relative ms in
    if is_in_jail jail m then shown jail wd relative m ∷ rest else rest

-- The virtual pattern.
unfoldable pub virtual_pattern : Bytes → Bytes → Bytes
virtual_pattern wd pattern = clean (if is_abs pattern then pattern else join (wd ∷ pattern ∷ []))

abbrev pub answered : Option (List Bytes) → Result (List Bytes)
answered none = err os_error
answered (some ms) = ok ms

module _ (host : Host) where
  -- The directory in front of the pattern must not lead out of the jail.
  unfoldable pub check_prefix : Bytes → Bytes → M (Unit {0})
  unfolding literal_prefix only_escape
  check_prefix jail pattern =
      let prefix = literal_prefix pattern in
      if is_blank jail
      then pure tt
      else if is_empty prefix || bytes_eq prefix root
      then pure tt
      else λ fs. only_escape (resolve_host host prefix true fs)

  -- OsFS.Glob
  unfoldable pub glob : Bytes → M (List Bytes)
  unfolding check_prefix visible virtual_pattern
  glob pattern = do
    wd ← getwd host
    jail ← get_jail
    check_prefix jail (virtual_pattern wd pattern)
    ms ← λ fs. (fs, answered (host.glob (host_path jail (virtual_pattern wd pattern))))
    pure (if is_blank jail then ms else visible jail wd (not (is_abs pattern)) ms)
