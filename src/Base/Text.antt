-- ===== src/Base/Text.antt =====
-- Go strings as lists of bytes: literals, equality, prefixes.
use Prim.Native.Nat.{ℕ}
use Prim.Native.Char.{code}
use Prim.Native.String.{String}
use mathlib.Core.Path.{◌≡◌, refl}
use mathlib.Core.Logic.{◌⊎◌}
use mathlib.Core.Bool.{Bool, true, false, ◌&&◌}
use mathlib.Core.List.{List, [], ◌∷◌}
use native.Mathlib.Omega.{arith}
use cli_toolkit.Base.Tests.{◌==◌, if◌then◌else◌}

abbrev pub Bytes : Type 0
Bytes = List ℕ

-- The code points of a literal; these are its bytes when the text is ASCII.
abbrev pub codes : String → Bytes
codes String.[] = []
codes (String.◌∷◌ c s) = code c ∷ codes s

abbrev pub is_empty : Bytes → Bool
is_empty [] = true
is_empty (c ∷ s) = false

-- `a == b` on strings.
unfoldable pub bytes_eq : Bytes → Bytes → Bool
bytes_eq [] [] = true
bytes_eq [] (d ∷ t) = false
bytes_eq (c ∷ s) [] = false
bytes_eq (c ∷ s) (d ∷ t) = c == d && bytes_eq s t

pub bytes_eq_refl : (s : Bytes) → bytes_eq s s ≡ true
unfolding bytes_eq
bytes_eq_refl [] = refl
bytes_eq_refl (c ∷ s) = ground (arith, bytes_eq_refl s)

pub bytes_eq_sound : (s t : Bytes) → bytes_eq s t ≡ true → s ≡ t
unfolding bytes_eq
bytes_eq_sound [] [] h = refl
bytes_eq_sound [] (d ∷ t) h = cc
bytes_eq_sound (c ∷ s) [] h = cc
bytes_eq_sound (c ∷ s) (d ∷ t) h = ground (arith, bytes_eq_sound s t)

pub bytes_eq-cases : (s t : Bytes) → ((s ≡ t) × (bytes_eq s t ≡ true)) ⊎ (bytes_eq s t ≡ false)
bytes_eq-cases s t = ground (arith, bytes_eq_sound s t)

-- strings.HasPrefix(s, p).
unfoldable pub has_prefix : Bytes → Bytes → Bool
has_prefix s [] = true
has_prefix [] (d ∷ p) = false
has_prefix (c ∷ s) (d ∷ p) = c == d && has_prefix s p

-- The white space of `unicode.IsSpace` below 0x80, of which the trims here are made.
abbrev is_space : ℕ → Bool
is_space c =
    if c == 32
    then true
    else if c == 9
    then true
    else if c == 10
    then true
    else if c == 11
    then true
    else if c == 12
    then true
    else c == 13

-- strings.TrimSpace(s) == "": nothing but white space.
unfoldable pub is_blank : Bytes → Bool
is_blank [] = true
is_blank (c ∷ s) = is_space c && is_blank s

abbrev trim_left : Bytes → Bytes
trim_left [] = []
trim_left (c ∷ s) = if is_space c then trim_left s else c ∷ s

abbrev trim_right : Bytes → Bytes
trim_right [] = []
trim_right (c ∷ s) = let rest = trim_right s in if is_empty rest && is_space c then [] else c ∷ rest

-- strings.TrimSpace(s).
unfoldable pub trim_space : Bytes → Bytes
trim_space s = trim_right (trim_left s)
