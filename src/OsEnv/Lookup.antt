-- ===== src/OsEnv/Lookup.antt =====
-- What an OsEnv reports behind a Set or an Unset (toolkit/env/os_env.go).
use cli_toolkit.Base.{
  Bool, true, false, [], ◌∷◌, none, some, Bytes, ◌≡◌, refl, ap, ◌∙◌, sym, subst, ◌⊎◌, inl, inr,
  Bool-cases, bytes_eq, bytes_eq_sound, if◌then◌else◌,
}
use cli_toolkit.TestEnv.{Vars, lookup, has_key, insert, delete}
use cli_toolkit.TestEnv.Vars.{
  lookup-insert, lookup-insert_other, lookup-delete, lookup-delete_other,
}
use cli_toolkit.OsEnv.{OsEnv, is_settable, get, set, has, unset}

pub lookup-insert_any :
    (vars : Vars) (a v b : Bytes)
    → lookup (insert vars a v) b ≡ (if bytes_eq a b then v else lookup vars b)
lookup-insert_any vars a v b = elim (Bool-cases (bytes_eq a b)) [
  | inl e ↦
      rw e (
        subst (λ k. lookup (insert vars a v) k ≡ v) (bytes_eq_sound a b e) (lookup-insert vars a v))
  | inr e ↦ rw e (lookup-insert_other vars a v b e)
]

pub has_key-insert :
    (vars : Vars) (a v b : Bytes)
    → has_key (insert vars a v) b ≡ (if bytes_eq a b then true else has_key vars b)
unfolding has_key insert
has_key-insert [] a v b = refl
has_key-insert ((k, w) ∷ vars) a v b = elim (Bool-cases (bytes_eq k a)) [
  | inl e ↦ rw e (
      subst
        (λ x.
          (if bytes_eq k b then true else has_key vars b)
          ≡ (if bytes_eq x b then true else if bytes_eq k b then true else has_key vars b))
        (bytes_eq_sound k a e) (twice (bytes_eq k b) (has_key vars b)))
  | inr e ↦ rw (e, has_key-insert vars a v b) (swap (bytes_eq k b) (bytes_eq a b) (has_key vars b))
]
  where
    twice : (x r : Bool) → (if x then true else r) ≡ (if x then true else if x then true else r)
    twice true r = refl
    twice false r = refl

    swap :
        (x y r : Bool)
        → (if x then true else if y then true else r) ≡ (if y then true else if x then true else r)
    swap true true r = refl
    swap true false r = refl
    swap false true r = refl
    swap false false r = refl

has_key-delete :
    (vars : Vars) (a b : Bytes)
    → has_key (delete vars a) b ≡ (if bytes_eq a b then false else has_key vars b)
unfolding has_key delete
has_key-delete [] a b = elim (Bool-cases (bytes_eq a b)) [ inl f ↦ rw f refl | inr f ↦ rw f refl ]
has_key-delete ((k, w) ∷ vars) a b = elim (Bool-cases (bytes_eq k a)) [
  | inl e ↦ elim (Bool-cases (bytes_eq a b)) [
    | inl f ↦ rw (e, has_key-delete vars a b, f) refl
    | inr f ↦
        let other : bytes_eq k b ≡ false = ap (λ x. bytes_eq x b) (bytes_eq_sound k a e) ∙ f in
        rw (e, has_key-delete vars a b, f, other) refl
  ]
  | inr e ↦ elim (Bool-cases (bytes_eq a b)) [
    | inl f ↦
        let other : bytes_eq k b ≡ false = ap (bytes_eq k) (sym (bytes_eq_sound a b f)) ∙ e in
        rw (e, has_key-delete vars a b, f, other) refl
    | inr f ↦ rw (e, has_key-delete vars a b, f) refl
  ]
]

lookup-delete_any :
    (vars : Vars) (a b : Bytes)
    → lookup (delete vars a) b ≡ (if bytes_eq a b then [] else lookup vars b)
lookup-delete_any vars a b = elim (Bool-cases (bytes_eq a b)) [
  | inl e ↦
      rw e
        (subst (λ k. lookup (delete vars a) k ≡ []) (bytes_eq_sound a b e) (lookup-delete vars a))
  | inr e ↦ rw e (lookup-delete_other vars a b e)
]

within :
    {A : Type 0} (b : Bool) (x y z w : A)
    → y ≡ (if b then z else w)
    → (if b then x else y) ≡ (if b then x else w)
within true x y z w h = refl
within false x y z w h = h

pub set-get-unset :
    (key value other : Bytes) (env : OsEnv)
    → ((set key value env ≡ none) × (is_settable key value ≡ false))
      ⊎ (set_env : OsEnv) × (is_settable key value ≡ true)
        × (set key value env ≡ some set_env)
        × (get set_env other ≡ (if bytes_eq key other then value else get env other))
        × (has set_env other ≡ (if bytes_eq key other then true else has env other))
        × (get (unset key set_env) other ≡ (if bytes_eq key other then [] else get env other))
        × (has (unset key set_env) other ≡ (if bytes_eq key other then false else has env other))
unfolding set get has unset
set-get-unset key value other env = elim (Bool-cases (is_settable key value)) [
  | inl e ↦ inr (
    record env { vars = insert env.vars key value },
    e,
    rw e refl,
    lookup-insert_any env.vars key value other,
    has_key-insert env.vars key value other,
    lookup-delete_any (insert env.vars key value) key other
        ∙ within (bytes_eq key other) [] (lookup (insert env.vars key value) other) value
            (lookup env.vars other) (lookup-insert_any env.vars key value other),
    has_key-delete (insert env.vars key value) key other
        ∙ within (bytes_eq key other) false (has_key (insert env.vars key value) other) true
            (has_key env.vars other) (has_key-insert env.vars key value other),
  )
  | inr e ↦ inl (rw e refl, e)
]
