-- ===== src/Cascade/EnvKeys.antt =====
-- EnvProvider.Load: which variables of the environment its map holds.
use cli_toolkit.Base.{
  Bool, true, false, List, [], ◌∷◌, ◌++◌, Bytes, ◌≡◌, refl, sym, ap, ◌∙◌, if◌then◌else◌, inl, inr,
  Bool-cases, is_empty, bytes_eq, ◌↔◌, All,
}
use cli_toolkit.TestEnv.{Vars, lookup, insert}
use cli_toolkit.TestEnv.Vars.{lookup-insert, lookup-insert_other}
use cli_toolkit.Base.{bytes_eq_sound}
use cli_toolkit.Cascade.{Getenv, absent, to_lower, collect_keys, found_keys, lookup_or_os, env_load}

abbrev is_nil : Vars → Bool
is_nil [] = true
is_nil (entry ∷ entries) = false

insert-is_nil : (vars : Vars) (a v : Bytes) → is_nil (insert vars a v) ≡ false
unfolding insert
insert-is_nil [] a v = refl
insert-is_nil ((k, w) ∷ vars) a v = elim (Bool-cases (bytes_eq k a)) [ inl e ↦ rw e | inr e ↦ rw e ]

found_keys-absent :
    {E : Type 0} (vars : Vars) → found_keys {E = E} vars ≡ absent → is_nil vars ≡ true
found_keys-absent [] h = refl
found_keys-absent (entry ∷ entries) h = cc

absent-found_keys :
    {E : Type 0} (vars : Vars) → is_nil vars ≡ true → found_keys {E = E} vars ≡ absent
absent-found_keys [] h = refl
absent-found_keys (entry ∷ entries) h = cc

-- The value of the last key that has one and that is spelled `name` in lower case, else `default`.
abbrev pub last_value : (Bytes → Bytes) → Bytes → List Bytes → Bytes → Bytes → Bytes
last_value getenv prefix [] name default = default
last_value getenv prefix (key ∷ keys) name default = last_value getenv prefix keys name (
    if is_empty (getenv (prefix ++ key))
    then default
    else if bytes_eq (to_lower key) name
    then getenv (prefix ++ key)
    else default)

module _ (getenv : Bytes → Bytes) (prefix : Bytes) where
  -- Each name is looked up in the map as the last key that has a value and that name in lower case.
  pub lookup-collect_keys :
      (keys : List Bytes) (vars : Vars) (name : Bytes)
      → lookup (collect_keys getenv prefix keys vars) name
        ≡ last_value getenv prefix keys name (lookup vars name)
  unfolding collect_keys
  lookup-collect_keys [] vars name = refl
  lookup-collect_keys (key ∷ keys) vars name =
      lookup-collect_keys keys _ name
      ∙ ap (last_value getenv prefix keys name)
          (elim (Bool-cases (is_empty (getenv (prefix ++ key)))) [
            | inl e ↦ rw e
            | inr e ↦ elim (Bool-cases (bytes_eq (to_lower key) name)) [
              | inl same ↦
                  rw (e, same)
                    (ap (lookup (insert vars (to_lower key) (getenv (prefix ++ key))))
                        (sym (bytes_eq_sound (to_lower key) name same))
                      ∙ lookup-insert vars (to_lower key) (getenv (prefix ++ key)))
              | inr other ↦
                  rw (e, other)
                    (lookup-insert_other vars (to_lower key) (getenv (prefix ++ key)) name other)
            ]
          ])

  collect_keys-is_nil :
      (keys : List Bytes) (vars : Vars)
      → is_nil vars ≡ false
      → is_nil (collect_keys getenv prefix keys vars) ≡ false
  unfolding collect_keys
  collect_keys-is_nil [] vars h = h
  collect_keys-is_nil (key ∷ keys) vars h = elim (Bool-cases (is_empty (getenv (prefix ++ key)))) [
    | inl e ↦ rw e (collect_keys-is_nil keys vars h)
    | inr e ↦
        rw e
          (collect_keys-is_nil keys _ (insert-is_nil vars (to_lower key) (getenv (prefix ++ key))))
  ]

  abbrev pub IsUnset : Bytes → Type 0
  IsUnset key = is_empty (getenv (prefix ++ key)) ≡ true

  All-IsUnset :
      (keys : List Bytes) → is_nil (collect_keys getenv prefix keys []) ≡ true → All IsUnset keys
  unfolding collect_keys
  All-IsUnset [] = λ h. tt
  All-IsUnset (key ∷ keys) = elim (Bool-cases (is_empty (getenv (prefix ++ key)))) [
    | inl e ↦ rw e (λ h. (refl, All-IsUnset keys h))
    | inr e ↦ rw e (λ h. absurd (
        cc (
          h,
          collect_keys-is_nil keys _ (insert-is_nil [] (to_lower key) (getenv (prefix ++ key))),
        )))
  ]

  none_found :
      (keys : List Bytes) → All IsUnset keys → is_nil (collect_keys getenv prefix keys []) ≡ true
  unfolding collect_keys
  none_found [] h = refl
  none_found (key ∷ keys) (e, h) = rw e (none_found keys h)

-- EnvProvider.Load reports its source absent exactly if every one of its keys is unset or empty.
pub env_load_absent :
    {E : Type 0} (os_getenv : Bytes → Bytes) (prefix : Bytes) (keys : List Bytes) (getenv : Getenv)
    → (env_load {E = E} os_getenv prefix keys getenv ≡ absent)
      ↔ All (IsUnset (lookup_or_os os_getenv getenv) prefix) keys
unfolding env_load
env_load_absent os_getenv prefix keys getenv =
    let look = lookup_or_os os_getenv getenv in
    (
      (λ h. All-IsUnset look prefix keys (found_keys-absent (collect_keys look prefix keys []) h)),
      (λ h. absent-found_keys (collect_keys look prefix keys []) (none_found look prefix keys h)),
    )
