-- ===== src/OsEnv/Dump.antt =====
-- DumpEnv of toolkit/env/env.go, over a TestEnv and over the process's environment. sort.Strings is a parameter.
use cli_toolkit.Base.{
  ℕ, Bool, true, false, not, List, [], ◌∷◌, ◌++◌, Option, none, some, Bytes, codes, ◌==◌, ◌≡◌, refl,
  sym, ap, ◌∙◌, inl, inr, Bool-cases, if◌then◌else◌, is_empty, bytes_eq, bytes_eq_sound,
}
use cli_toolkit.TestEnv.{
  TestEnv, Vars, lookup, has_key, insert, keys_of, with_field, entries_of, environ,
}
use cli_toolkit.TestEnv
use cli_toolkit.TestEnv.Invariant.{IsSound}
use cli_toolkit.OsEnv.{OsEnv}
use cli_toolkit.OsEnv.Lookup.{has_key-insert, lookup-insert_any}

-- A dedicated field that is set, among the entries.
abbrev pub put_field : Bytes → Bytes → Vars → Vars
put_field key value entries = if not (is_empty value) then insert entries key value else entries

-- The entries of a TestEnv.
unfoldable pub test_entries : TestEnv → Vars
test_entries env = put_field (codes "USER") env.user (put_field (codes "HOME") env.home env.vars)

-- A text in front of its first `=` and behind it; `none` where there is none.
abbrev pub onto_key : ℕ → Option (Bytes × Bytes) → Option (Bytes × Bytes)
onto_key c none = none
onto_key c (some (key, value)) = some (c ∷ key, value)

unfoldable pub split_entry : Bytes → Option (Bytes × Bytes)
split_entry [] = none
split_entry (c ∷ s) =
    let rest = onto_key c (split_entry s) in if c == 61 then some ([], s) else rest

abbrev pub put_entry : Option (Bytes × Bytes) → Vars → Vars
put_entry none entries = entries
put_entry (some (key, value)) entries = insert entries key value

-- The entries of what Environ lists.
unfoldable pub listed_entries : List Bytes → Vars → Vars
unfolding split_entry
listed_entries [] entries = entries
listed_entries (kv ∷ kvs) entries = listed_entries kvs (put_entry (split_entry kv) entries)

-- os.Environ
abbrev pub os_environ : Vars → List Bytes
os_environ [] = []
os_environ ((key, value) ∷ vars) = (key ++ codes "=" ++ value) ∷ os_environ vars

-- The text of the entries, one line for each key.
abbrev pub dump_keys : Vars → List Bytes → Bytes
dump_keys entries [] = []
dump_keys entries (k ∷ keys) =
    k ++ codes "=" ++ lookup entries k ++ codes "\n" ++ dump_keys entries keys

module _ (sort : List Bytes → List Bytes) where
  abbrev pub dump_entries : Vars → Bytes
  dump_entries entries = dump_keys entries (sort (keys_of entries))

  -- DumpEnv of a TestEnv.
  unfoldable pub dump_test_env : TestEnv → Bytes
  unfolding test_entries
  dump_test_env env = dump_entries (test_entries env)

  -- DumpEnv of an OsEnv, and of nil.
  unfoldable pub dump_os_env : OsEnv → Bytes
  unfolding listed_entries
  dump_os_env env = dump_entries (listed_entries (os_environ env.vars) [])

-- Lines, each with its end.
abbrev pub unlines : List Bytes → Bytes
unlines [] = []
unlines (l ∷ ls) = l ++ codes "\n" ++ unlines ls

keys_of-insert :
    (vars : Vars) (a v : Bytes)
    → keys_of (insert vars a v) ≡ (if has_key vars a then keys_of vars else keys_of vars ++ a ∷ [])
unfolding has_key insert
keys_of-insert [] a v = refl
keys_of-insert ((k, w) ∷ vars) a v = elim (Bool-cases (bytes_eq k a)) [
  | inl e ↦ rw e refl
  | inr e ↦ rw (e, keys_of-insert vars a v) (kept (has_key vars a))
]
  where
    kept :
        (b : Bool)
        → k ∷ (if b then keys_of vars else keys_of vars ++ a ∷ [])
          ≡ (if b then k ∷ keys_of vars else k ∷ keys_of vars ++ a ∷ [])
    kept true = refl
    kept false = refl

keys_of-put_field :
    (key value : Bytes) (vars : Vars)
    → keys_of (put_field key value vars) ≡ with_field vars key value (keys_of vars)
unfolding with_field
keys_of-put_field key value vars = elim (Bool-cases (is_empty value)) [
  | inl e ↦ rw e refl
  | inr e ↦ rw e (keys_of-insert vars key value ∙ flipped (has_key vars key))
]
  where
    flipped :
        (b : Bool)
        → (if b then keys_of vars else keys_of vars ++ key ∷ [])
          ≡ (if not b then keys_of vars ++ key ∷ [] else keys_of vars)
    flipped true = refl
    flipped false = refl

has_key-put_field :
    (key value other : Bytes) (vars : Vars)
    → bytes_eq key other ≡ false
    → has_key (put_field key value vars) other ≡ has_key vars other
has_key-put_field key value other vars h = elim (Bool-cases (is_empty value)) [
  | inl e ↦ rw e refl
  | inr e ↦
      rw e
        (has_key-insert vars key value other ∙ ap (λ b. if b then true else has_key vars other) h)
]

-- A field that the map holds already changes no lookup.
lookup-put_field :
    (key value other : Bytes) (vars : Vars)
    → lookup vars key ≡ value
    → lookup (put_field key value vars) other ≡ lookup vars other
lookup-put_field key value other vars h = elim (Bool-cases (is_empty value)) [
  | inl e ↦ rw e refl
  | inr e ↦ rw e (lookup-insert_any vars key value other ∙ on_key (bytes_eq key other) refl)
]
  where
    on_key :
        (b : Bool)
        → bytes_eq key other ≡ b
        → (if b then value else lookup vars other) ≡ lookup vars other
    on_key true e = sym h ∙ ap (lookup vars) (bytes_eq_sound key other e)
    on_key false e = refl

with_field_same :
    (key value : Bytes) (vars vars' : Vars) (keys keys' : List Bytes)
    → has_key vars key ≡ has_key vars' key
    → keys ≡ keys'
    → with_field vars key value keys ≡ with_field vars' key value keys'
unfolding with_field
with_field_same key value vars vars' keys keys' h e = rw (h, e) refl

module _ (env : TestEnv) (s : IsSound env) where
  lookup-test_entries : (key : Bytes) → lookup (test_entries env) key ≡ lookup env.vars key
  unfolding test_entries bytes_eq
  lookup-test_entries key =
      lookup-put_field (codes "USER") env.user key (put_field (codes "HOME") env.home env.vars)
        (lookup-put_field (codes "HOME") env.home (codes "USER") env.vars s.0 ∙ s.1)
      ∙ lookup-put_field (codes "HOME") env.home key env.vars s.0

  get-IsSound : (key : Bytes) → TestEnv.get env key ≡ lookup env.vars key
  unfolding TestEnv.get
  get-IsSound key = elim (Bool-cases (bytes_eq key (codes "HOME"))) [
    | inl e ↦ rw e (sym s.0 ∙ ap (lookup env.vars) (sym (bytes_eq_sound key (codes "HOME") e)))
    | inr e ↦ elim (Bool-cases (bytes_eq key (codes "USER"))) [
      | inl f ↦
          rw (e, f) (sym s.1 ∙ ap (lookup env.vars) (sym (bytes_eq_sound key (codes "USER") f)))
      | inr f ↦ rw (e, f) refl
    ]
  ]

  dump_keys-entries_of :
      (keys : List Bytes) → dump_keys (test_entries env) keys ≡ unlines (entries_of env keys)
  dump_keys-entries_of [] = refl
  dump_keys-entries_of (k ∷ keys) =
      ap (λ v. k ++ codes "=" ++ v ++ codes "\n" ++ dump_keys (test_entries env) keys)
        (lookup-test_entries k ∙ sym (get-IsSound k))
      ∙ ap (λ r. k ++ codes "=" ++ TestEnv.get env k ++ codes "\n" ++ r) (dump_keys-entries_of keys)

  keys_of-test_entries :
      keys_of (test_entries env)
      ≡ with_field env.vars
          (codes "USER")
          env.user
          (with_field env.vars (codes "HOME") env.home (keys_of env.vars))
  unfolding test_entries with_field bytes_eq
  keys_of-test_entries =
      keys_of-put_field (codes "USER") env.user (put_field (codes "HOME") env.home env.vars)
      ∙ with_field_same (codes "USER") env.user _ env.vars _ _
          (has_key-put_field (codes "HOME") env.home (codes "USER") env.vars refl)
          (keys_of-put_field (codes "HOME") env.home env.vars)

-- Of a sound environment DumpEnv gives just the lines of Environ, in the order of the sort, each with a newline.
pub dump_test_env-environ :
    (sort : List Bytes → List Bytes) (env : TestEnv)
    → IsSound env
    → dump_test_env sort env ≡ unlines (environ sort env)
unfolding dump_test_env environ
dump_test_env-environ sort env s =
    ap (λ keys. dump_keys (test_entries env) (sort keys)) (keys_of-test_entries env s)
    ∙ dump_keys-entries_of env s _
