-- ===== src/Jail.antt =====
-- toolkit/jail: the jail boundary, by lexical paths (toolkit/jail/path.go, toolkit/jail/jail.go).
-- Strings are byte lists, and filepath is the module FilePath.
mod Tests
pub mod Boundary
pub mod Prefix
use cli_toolkit.Base.{
  Bool, true, false, not, List, [], ◌∷◌, Option, none, some, Bytes, codes, if◌then◌else◌, is_empty,
  is_blank, bytes_eq, has_prefix,
}
use cli_toolkit.FilePath.{is_abs, clean, join, rel, dotdot}
use cli_toolkit.FilePath.Split.{slash}

-- filepath.Separator, as a text.
abbrev pub root : Bytes
root = slash ∷ []

-- IsJailed: the receiver is `none` for a nil interface, else the value of its `GetJail`.
unfoldable pub is_jailed : Option Bytes → Bool
is_jailed none = false
is_jailed (some jail) = not (is_blank jail)

-- CleanJail
unfoldable pub clean_jail : Bytes → Bytes
clean_jail jail = if is_blank jail then [] else clean jail

-- The two ends of RemoveJailPrefix: the error of `Rel`, and its result made absolute.
unfoldable pub from_root : Bytes → Option Bytes → Bytes
from_root p none = p
from_root p (some r) = join (root ∷ r ∷ [])

-- RemoveJailPrefix
unfoldable pub remove_jail_prefix : Bytes → Bytes → Bytes
unfolding from_root
remove_jail_prefix jail_path path =
    let j = clean jail_path in let p = clean path in if is_empty j then p else from_root p (rel j p)

-- The last test of IsInJail, on the result of `Rel`.
unfoldable pub is_below : Option Bytes → Bool
is_below none = false
is_below (some r) = not (has_prefix r dotdot)

-- IsInJail
unfoldable pub is_in_jail : Bytes → Bytes → Bool
unfolding is_below
is_in_jail jail_path path =
    let j = clean jail_path in
    let p = clean path in
    if is_empty j
    then true
    else if is_empty jail_path
    then true
    else if not (is_abs p)
    then true
    else is_below (rel j p)

-- EnsureInJail
unfoldable pub ensure_in_jail : Bytes → Bytes → Bytes
ensure_in_jail jail_path p =
    let j = clean jail_path in
    let pp = clean p in
    if is_empty jail_path
    then p
    else if is_empty p
    then j
    else if bytes_eq p root
    then j
    else if is_in_jail j pp
    then pp
    else if not (is_abs pp)
    then join (j ∷ pp ∷ [])
    else join (j ∷ pp ∷ [])

-- EnsureInJailFor: `filepath.FromSlash` is the identity where the separator is `/`.
unfoldable pub ensure_in_jail_for : Bytes → Bytes → Bytes
unfolding ensure_in_jail
ensure_in_jail_for jail_path p = ensure_in_jail jail_path p
