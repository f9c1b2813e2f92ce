-- ===== src/Expand.antt =====
-- ExpandEnv of toolkit/env/env.go, with Go's os.Expand: `$name` and `${name}` in a text are replaced.
-- A text is read once from the left, in a mode that says what has been seen of a variable.
mod Tests
pub mod Braces
use cli_toolkit.Base.{
  ℕ, Bool, true, false, ◌&&◌, ◌||◌, List, [], ◌∷◌, ◌++◌, Bytes, ◌==◌, leb, if◌then◌else◌, is_empty,
}

abbrev pub dollar : ℕ
dollar = b'$'

abbrev pub open_brace : ℕ
open_brace = b'{'

abbrev pub close_brace : ℕ
close_brace = b'}'

-- isShellSpecialVar
abbrev pub is_special : ℕ → Bool
is_special c =
    (c == b'*')
    || ((c == b'#')
        || ((c == b'$')
            || ((c == b'@')
                || ((c == b'!') || ((c == b'?') || ((c == b'-') || (leb 48 c && leb c 57)))))))

-- isAlphaNum
abbrev pub is_alphanum : ℕ → Bool
is_alphanum c =
    (c == b'_') || ((leb 48 c && leb c 57) || ((leb 97 c && leb c 122) || (leb 65 c && leb c 90)))

unfoldable pub has_close : Bytes → Bool
has_close [] = false
has_close (c ∷ s) = if c == close_brace then true else has_close s

-- In the text; behind a dollar; in a name; in a name in braces, of which the end is known to come.
pub data Mode : Type 0 where
  outside after_dollar : Mode
  in_name in_braces : Bytes → Mode

-- The mode that a byte behind a dollar leads to, with what follows it. A brace that is not closed is
-- eaten with its dollar.
unfoldable pub start_name : ℕ → Bytes → Mode
start_name c s =
    if c == open_brace
    then (if has_close s then in_braces [] else outside)
    else if is_special c
    then outside
    else if is_alphanum c
    then in_name (c ∷ [])
    else outside

abbrev pub value_of : (Bytes → Bytes) → Bytes → Bytes
value_of mapping [] = []
value_of mapping (c ∷ name) = mapping (c ∷ name)

-- What a byte behind a dollar puts out: the value of a special variable, or the dollar and the byte
-- where they stand for no variable.
unfoldable pub start_output : (Bytes → Bytes) → ℕ → Bytes
start_output mapping c =
    if c == open_brace
    then []
    else if is_special c
    then mapping (c ∷ [])
    else if is_alphanum c
    then []
    else dollar ∷ c ∷ []

-- The mode behind a byte of the text, and what it puts out.
unfoldable pub plain_mode : ℕ → Mode
plain_mode c = if c == dollar then after_dollar else outside

unfoldable pub plain_output : ℕ → Bytes
plain_output c = if c == dollar then [] else c ∷ []

-- One byte: the next mode, and what is put out before the rest.
unfoldable pub step : (Bytes → Bytes) → Mode → ℕ → Bytes → Mode × Bytes
unfolding start_name start_output plain_mode plain_output
step mapping outside c s = (plain_mode c, plain_output c)
step mapping after_dollar c s = (start_name c s, start_output mapping c)
step mapping (in_name name) c s =
    if is_alphanum c
    then (in_name (name ++ c ∷ []), [])
    else (plain_mode c, mapping name ++ plain_output c)
step mapping (in_braces name) c s =
    if c == close_brace then (outside, value_of mapping name) else (in_braces (name ++ c ∷ []), [])

-- What a mode puts out at the end of the text.
unfoldable pub finish : (Bytes → Bytes) → Mode → Bytes
finish mapping outside = []
finish mapping after_dollar = dollar ∷ []
finish mapping (in_name name) = mapping name
finish mapping (in_braces name) = []

unfoldable pub expand_in : (Bytes → Bytes) → Mode → Bytes → Bytes
unfolding step finish
expand_in mapping mode [] = finish mapping mode
expand_in mapping mode (c ∷ s) =
    let (next, out) = step mapping mode c s in out ++ expand_in mapping next s

-- ExpandEnv of an Env that is not nil: os.Expand of Go's library with the environment's Get.
unfoldable pub expand_env : (Bytes → Bytes) → Bytes → Bytes
unfolding expand_in
expand_env get s = expand_in get outside s
