-- ===== src/TestEnv/Environ.antt =====
-- Environ of a test's environment: the home is among the entries.
use cli_toolkit.Base.{
  true, false, [], ◌∷◌, ◌++◌, List, Bytes, codes, ◌≡◌, refl, sym, ap, ◌⊎◌, inl, inr, Bool-cases,
  bytes_eq, bytes_eq_sound, is_empty, not, ◌&&◌,
}
use cli_toolkit.TestEnv.{TestEnv, Vars, has_key, keys_of, with_field, entries_of, environ, get}

abbrev pub Listed : Bytes → List Bytes → Type 0
Listed x [] = ⊥
Listed x (y ∷ ys) = (x ≡ y) ⊎ Listed x ys

Listed-snoc : (x : Bytes) (xs : List Bytes) → Listed x (xs ++ x ∷ [])
Listed-snoc x [] = inl refl
Listed-snoc x (y ∷ xs) = inr (Listed-snoc x xs)

Listed-append : (x : Bytes) (xs ys : List Bytes) → Listed x xs → Listed x (xs ++ ys)
Listed-append x [] ys h = absurd h
Listed-append x (y ∷ xs) ys (inl e) = inl e
Listed-append x (y ∷ xs) ys (inr h) = inr (Listed-append x xs ys h)

Listed-keys_of : (vars : Vars) (key : Bytes) → has_key vars key ≡ true → Listed key (keys_of vars)
unfolding has_key
Listed-keys_of [] key = λ h. cc
Listed-keys_of ((k, v) ∷ vars) key = elim (Bool-cases (bytes_eq k key)) [
  | inl e ↦ λ h. inl (sym (bytes_eq_sound k key e))
  | inr e ↦ rw e (λ h. inr (Listed-keys_of vars key h))
]

Listed-with_field :
    (vars : Vars) (key v : Bytes)
    → is_empty v ≡ false
    → Listed key (with_field vars key v (keys_of vars))
unfolding with_field
Listed-with_field vars key v h = elim (Bool-cases (has_key vars key)) [
  | inl e ↦ rw (h, e) (Listed-keys_of vars key e)
  | inr e ↦ rw (h, e) (Listed-snoc key (keys_of vars))
]

Listed-with_field_kept :
    (vars : Vars) (key v x : Bytes) (keys : List Bytes)
    → Listed x keys
    → Listed x (with_field vars key v keys)
unfolding with_field
Listed-with_field_kept vars key v x keys h =
    elim (Bool-cases (not (is_empty v) && not (has_key vars key))) [
      | inl e ↦ rw e (Listed-append x keys (key ∷ []) h)
      | inr e ↦ rw e h
    ]

Listed-entries_of :
    (env : TestEnv) (k : Bytes) (keys : List Bytes)
    → Listed k keys
    → Listed (k ++ codes "=" ++ get env k) (entries_of env keys)
Listed-entries_of env k [] h = absurd h
Listed-entries_of env k (x ∷ keys) (inl e) = inl (ap (λ y. y ++ codes "=" ++ get env y) e)
Listed-entries_of env k (x ∷ keys) (inr h) = inr (Listed-entries_of env k keys h)

-- A home that is set is among the entries of Environ, whether or not the map holds HOME, where the sort
-- loses no key.
Listed-environ :
    (sort : List Bytes → List Bytes) (env : TestEnv)
    → ((x : Bytes) (xs : List Bytes) → Listed x xs → Listed x (sort xs))
    → is_empty env.home ≡ false
    → Listed (codes "HOME=" ++ env.home) (environ sort env)
unfolding environ get bytes_eq
Listed-environ sort env keeps h = Listed-entries_of env (codes "HOME") _ (
    keeps (codes "HOME") _ (
      Listed-with_field_kept env.vars (codes "USER") env.user (codes "HOME") _
        (Listed-with_field env.vars (codes "HOME") env.home h)))
