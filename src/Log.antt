-- ===== src/Log.antt =====
-- mylog/logger.go: the names of levels, and the writer that logs each line it is given.
mod Tests
pub mod Lines
pub mod Handler
pub mod Shared
use cli_toolkit.Base.{
  ℕ, Bool, true, false, ◌||◌, ◌&&◌, List, [], ◌∷◌, Option, none, some, Bytes, codes, if◌then◌else◌,
  ◌==◌, is_empty, bytes_eq, trim_space, length,
}
use cli_toolkit.Cascade.{to_lower}

-- slog.Level, as far as the code names its values.
pub data Level : Type 0 where
  debug info warn error : Level

-- ParseLevel
unfoldable pub parse_level : Bytes → Level
parse_level s =
    let name = to_lower (trim_space s) in
    if bytes_eq name (codes "debug")
    then debug
    else if bytes_eq name (codes "info") || is_empty name
    then info
    else if bytes_eq name (codes "warn") || bytes_eq name (codes "warning")
    then warn
    else if bytes_eq name (codes "error")
    then error
    else info

-- OrDefault
abbrev pub logger_or_default {ℓ} : {A : Type ℓ} → A → Option A → A
logger_or_default default none = default
logger_or_default default (some lg) = lg

abbrev pub newline : ℕ
newline = 10

-- strings.TrimRight of newlines
unfoldable pub trim_newlines : Bytes → Bytes
trim_newlines [] = []
trim_newlines (c ∷ p) =
    let rest = trim_newlines p in if (c == newline) && is_empty rest then [] else c ∷ rest

abbrev pub onto_head : ℕ → List Bytes → List Bytes
onto_head c [] = (c ∷ []) ∷ []
onto_head c (l ∷ ls) = (c ∷ l) ∷ ls

-- strings.SplitSeq at newlines
unfoldable pub split_lines : Bytes → List Bytes
split_lines [] = [] ∷ []
split_lines (c ∷ p) =
    let lines = split_lines p in if c == newline then [] ∷ lines else onto_head c lines

unfoldable pub not_empty : List Bytes → List Bytes
not_empty [] = []
not_empty ([] ∷ ls) = not_empty ls
not_empty ((c ∷ l) ∷ ls) = (c ∷ l) ∷ not_empty ls

-- The lines that Write logs.
unfoldable pub logged : Bytes → List Bytes
unfolding trim_newlines split_lines not_empty
logged p = not_empty (split_lines (trim_newlines p))

-- SlogWriter, without its logger; a depth below 0 acts as 0.
pub record SlogWriter : Type 0 where
  pub level : Level
  pub caller_depth : ℕ

-- What is logged: the level, the caller where there is one, and the message.
pub record LogRecord : Type 0 where
  pub level : Level
  pub caller : Option Bytes
  pub message : Bytes

abbrev pub records : Level → Option Bytes → List Bytes → List LogRecord
records level caller [] = []
records level caller (l ∷ ls) =
    record { level = level; caller = caller; message = l } ∷ records level caller ls

-- SlogWriter.Write; runtime.Caller with its formatting is a parameter.
unfoldable pub write : (ℕ → Option Bytes) → SlogWriter → Bytes → List LogRecord × ℕ
unfolding logged
write caller_at w p =
    let caller = if w.caller_depth == 0 then none else caller_at w.caller_depth in
    (records w.level caller (logged p), length p)
