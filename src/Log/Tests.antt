-- ===== src/Log/Tests.antt =====
-- Names of levels, and a text of several lines.
use cli_toolkit.Base.{
  ℕ, zero, suc, ◌≤◌, Bool, arith, if◌then◌else◌, [], ◌∷◌, ◌++◌, Option, some, none, Bytes, ◌≡◌,
  refl, codes, bytes_eq, trim_space,
}
use cli_toolkit.Cascade.{to_lower}
use cli_toolkit.Log.{
  warn, info, parse_level, newline, trim_newlines, split_lines, not_empty, logged, SlogWriter,
}
use cli_toolkit.Log.Handler.{
  Record, LoggedEntry, Store, handler_at, update_at, root_from, root_of, put_attr, put_attrs,
  entry_of, handle, with_attrs, find_entries,
}
use cli_toolkit.Log.Shared.{IsWellFormed, find_entries-handle-with_attrs}

padded_name : parse_level (codes " Warning ") ≡ warn
unfolding parse_level to_lower trim_space bytes_eq
padded_name = refl

unknown_name : parse_level (codes "loud") ≡ info
unfolding parse_level to_lower trim_space bytes_eq
unknown_name = refl

empty_lines_skipped :
    logged (newline ∷ codes "a" ++ newline ∷ newline ∷ codes "b" ++ newline ∷ [])
    ≡ codes "a" ∷ codes "b" ∷ []
unfolding logged trim_newlines split_lines not_empty
empty_lines_skipped = refl

abbrev plain : SlogWriter
plain = record { level = warn; caller_depth = 0 }

abbrev no_caller : ℕ → Option Bytes
no_caller depth = none

-- A handler for a test, and one with an attribute made from it.
abbrev first_entry : LoggedEntry
first_entry = record { level = 0; message = codes "old"; stamp = 0; attrs = [] }

abbrev store : Store
store = record { entries = first_entry ∷ []; attrs = (codes "app", 1) ∷ []; parent = none } ∷ []

store-IsWellFormed : IsWellFormed store
unfolding handler_at
store-IsWellFormed = record { parent_before = no_parent }
  where
    no_parent : (h p : ℕ) → (handler_at store h).parent ≡ some p → suc p ≤ h
    no_parent zero p e = absurd cc
    no_parent (suc h) p e = absurd cc

abbrev started : Record
started = record { level = 4; message = codes "up"; stamp = 5; attrs = (codes "app", 2) ∷ [] }

abbrev is_up : LoggedEntry → Bool
is_up e = bytes_eq e.message (codes "up")

record_overrides :
    find_entries (handle (with_attrs store 0 ((codes "id", 3) ∷ [])).0 1 started) 0 is_up
    ≡ record {
      level = 4;
      message = codes "up";
      stamp = 5;
      attrs = (codes "app", 2) ∷ (codes "id", 3) ∷ [];
    }
      ∷ []
unfolding find_entries handle with_attrs handler_at update_at root_of root_from entry_of put_attrs
    put_attr bytes_eq
record_overrides = refl

find_entries-handle-with_attrs_example :
    let e : LoggedEntry = record {
      level = 4;
      message = codes "up";
      stamp = 5;
      attrs =
          put_attrs
            (put_attrs [] ((handler_at store 0).attrs ++ (codes "id", 3) ∷ []))
            ((codes "app", 2) ∷ []);
    } in
    find_entries
      (handle
        (with_attrs store 0 ((codes "id", 3) ∷ [])).0
        (with_attrs store 0 ((codes "id", 3) ∷ [])).1
        started)
      (root_of store 0)
      is_up
    ≡ find_entries store (root_of store 0) is_up ++ (if is_up e then e ∷ [] else [])
find_entries-handle-with_attrs_example =
    find_entries-handle-with_attrs store 0 ((codes "id", 3) ∷ []) started is_up store-IsWellFormed
      (omega arith)
