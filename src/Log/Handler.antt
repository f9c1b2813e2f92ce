-- ===== src/Log/Handler.antt =====
-- mylog/logger_testutils.go: `TestHandler`, which keeps what is logged for a test to look at. Handlers
-- point to their parents, so they stand in a store, and a pointer is a place in it. The echo to the
-- test's own log is left out, and so is the mutex.
use cli_toolkit.Base.{
  ℕ, zero, suc, Bool, List, [], ◌∷◌, ◌++◌, Option, none, some, Bytes, if◌then◌else◌, length,
  bytes_eq,
}

-- The attributes of a record or a handler, with their values told apart by numbers.
abbrev pub Attrs : Type 0
Attrs = List (Bytes × ℕ)

-- slog.Record; `stamp` stands for its time, source and program counter.
pub record Record : Type 0 where
  pub level : ℕ
  pub message : Bytes
  pub stamp : ℕ
  pub attrs : Attrs

-- LoggedEntry, with the map of its attributes.
pub record LoggedEntry : Type 0 where
  pub level : ℕ
  pub message : Bytes
  pub stamp : ℕ
  pub attrs : Attrs

-- TestHandler
pub record TestHandler : Type 0 where
  pub entries : List LoggedEntry
  pub attrs : Attrs
  pub parent : Option ℕ

abbrev pub Store : Type 0
Store = List TestHandler

-- NewTestHandler
abbrev pub empty_handler : TestHandler
empty_handler = record { entries = []; attrs = []; parent = none }

unfoldable pub handler_at : Store → ℕ → TestHandler
handler_at [] h = empty_handler
handler_at (t ∷ s) zero = t
handler_at (t ∷ s) (suc h) = handler_at s h

unfoldable pub update_at : Store → ℕ → (TestHandler → TestHandler) → Store
update_at [] h f = []
update_at (t ∷ s) zero f = f t ∷ s
update_at (t ∷ s) (suc h) f = t ∷ update_at s h f

abbrev pub up : Option ℕ → ℕ → (ℕ → ℕ) → ℕ
up none h go = h
up (some p) h go = go p

-- TestHandler.root. The fuel is the handler's own place: a parent was made before.
unfoldable pub root_from : ℕ → Store → ℕ → ℕ
root_from zero s h = h
root_from (suc n) s h = up (handler_at s h).parent h (root_from n s)

unfoldable pub root_of : Store → ℕ → ℕ
unfolding root_from
root_of s h = root_from h s h

-- An assignment to the map of attributes.
unfoldable pub put_attr : Attrs → Bytes → ℕ → Attrs
put_attr [] key v = (key, v) ∷ []
put_attr ((k, u) ∷ attrs) key v =
    if bytes_eq k key then (k, v) ∷ attrs else (k, u) ∷ put_attr attrs key v

unfoldable pub put_attrs : Attrs → Attrs → Attrs
unfolding put_attr
put_attrs into [] = into
put_attrs into ((k, v) ∷ attrs) = put_attrs (put_attr into k v) attrs

-- The entry that Handle makes: the attributes of the handler, and then those of the record.
unfoldable pub entry_of : TestHandler → Record → LoggedEntry
unfolding put_attrs
entry_of t r = record {
  level = r.level;
  message = r.message;
  stamp = r.stamp;
  attrs = put_attrs (put_attrs [] t.attrs) r.attrs;
}

abbrev pub with_entry : LoggedEntry → TestHandler → TestHandler
with_entry e t = record t { entries = t.entries ++ e ∷ [] }

-- TestHandler.Handle
unfoldable pub handle : Store → ℕ → Record → Store
unfolding root_of entry_of update_at
handle s h r = update_at s (root_of s h) (with_entry (entry_of (handler_at s h) r))

-- TestHandler.WithAttrs
unfoldable pub with_attrs : Store → ℕ → Attrs → Store × ℕ
unfolding handler_at
with_attrs s h attrs = (
  s ++ record { entries = []; attrs = (handler_at s h).attrs ++ attrs; parent = some h } ∷ [],
  length s,
)

-- TestHandler.WithGroup
unfoldable pub with_group : Store → ℕ → Bytes → Store × ℕ
unfolding handler_at
with_group s h name =
    (s ++ record { entries = []; attrs = (handler_at s h).attrs; parent = some h } ∷ [], length s)

abbrev pub matching : (LoggedEntry → Bool) → List LoggedEntry → List LoggedEntry
matching pred [] = []
matching pred (e ∷ es) = let rest = matching pred es in if pred e then e ∷ rest else rest

-- FindEntries
unfoldable pub find_entries : Store → ℕ → (LoggedEntry → Bool) → List LoggedEntry
unfolding handler_at
find_entries s h pred = matching pred (handler_at s h).entries
