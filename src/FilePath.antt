-- ===== src/FilePath.antt =====
-- Go's path/filepath on Unix, as the toolkit uses it: `Clean`, `IsAbs`, `Join`, `Rel`, `Dir`
-- and `Base`, each on the bytes of a path. A path is cut at its separators, its elements are run
-- against a stack, and the stack is printed.
mod Tests
pub mod Split
pub mod Clean
pub mod Join
pub mod Rel
pub mod Dir
use cli_toolkit.Base.{
  ℕ, Bool, true, false, ◌&&◌, ◌||◌, not, List, [], ◌∷◌, ◌++◌, reverse, Option, none, some, Bytes,
  codes, ◌==◌, if◌then◌else◌, is_empty, bytes_eq, length, replicate,
}
use Split.{slash, split, join_elems}

abbrev pub dot : Bytes
dot = codes "."

abbrev pub dotdot : Bytes
dotdot = codes ".."

unfoldable pub is_abs : Bytes → Bool
is_abs [] = false
is_abs (c ∷ s) = c == slash

-- `..` goes up: at a root it is dropped, above the start of a relative path it stays.
unfoldable pub pop : Bool → List Bytes → List Bytes
pop true [] = []
pop false [] = dotdot ∷ []
pop rooted (t ∷ out) = if bytes_eq t dotdot then dotdot ∷ t ∷ out else out

-- One element of the path against the stack of the elements kept, the last one first.
unfoldable pub push : Bool → List Bytes → Bytes → List Bytes
unfolding pop
push rooted out e =
    if is_empty e || bytes_eq e dot
    then out
    else if bytes_eq e dotdot
    then pop rooted out
    else e ∷ out

unfoldable pub push_all : Bool → List Bytes → List Bytes → List Bytes
push_all rooted out [] = out
push_all rooted out (e ∷ es) = push_all rooted (push rooted out e) es

-- The elements of the cleaned path.
unfoldable pub elems : Bytes → List Bytes
elems p = reverse (push_all (is_abs p) [] (split p))

unfoldable pub render : Bool → List Bytes → Bytes
render true es = slash ∷ join_elems es
render false [] = dot
render false (e ∷ es) = join_elems (e ∷ es)

-- filepath.Clean
unfoldable pub clean : Bytes → Bytes
clean p = render (is_abs p) (elems p)

-- filepath.Join: empty elements in front are dropped, and the rest is joined and cleaned.
unfoldable pub join : List Bytes → Bytes
join [] = []
join (e ∷ es) = let rest = join es in if is_empty e then rest else clean (join_elems (e ∷ es))

-- What is left of two element lists behind their longest common prefix.
unfoldable pub strip_common : List Bytes → List Bytes → List Bytes × List Bytes
strip_common [] ts = ([], ts)
strip_common (b ∷ bs) [] = (b ∷ bs, [])
strip_common (b ∷ bs) (t ∷ ts) =
    let rest = strip_common bs ts in if bytes_eq b t then rest else (b ∷ bs, t ∷ ts)

-- Up from what is left of the base, then down to the target; `none` where that would have to
-- know the name above a `..`.
unfoldable pub climb : List Bytes → List Bytes → Option Bytes
climb [] ts = some (render false ts)
climb (b ∷ bs) ts =
    if bytes_eq b dotdot
    then none
    else some (render false (replicate (length (b ∷ bs)) dotdot ++ ts))

-- filepath.Rel; `none` is its error.
unfoldable pub rel : Bytes → Bytes → Option Bytes
rel base targ =
    if (is_abs base && is_abs targ) || (not (is_abs base) && not (is_abs targ))
    then climb (strip_common (elems base) (elems targ)).0 (strip_common (elems base) (elems targ)).1
    else none

-- The path through its last separator, and what stands behind it.
unfoldable pub through_slash : Bytes → Bytes
through_slash [] = []
through_slash (c ∷ s) =
    let rest = through_slash s in
    if is_empty rest then (if c == slash then c ∷ [] else []) else c ∷ rest

unfoldable pub last_part : List Bytes → Bytes
last_part [] = []
last_part (p ∷ []) = p
last_part (p ∷ q ∷ ps) = last_part (q ∷ ps)

unfoldable pub trim_slashes : Bytes → Bytes
trim_slashes [] = []
trim_slashes (c ∷ s) =
    let rest = trim_slashes s in if is_empty rest && c == slash then [] else c ∷ rest

-- filepath.Dir
unfoldable pub dir : Bytes → Bytes
unfolding through_slash
dir p = clean (through_slash p)

-- filepath.Base
unfoldable pub base : Bytes → Bytes
base [] = dot
base (c ∷ s) =
    let name = last_part (split (trim_slashes (c ∷ s))) in
    if is_empty name then slash ∷ [] else name
