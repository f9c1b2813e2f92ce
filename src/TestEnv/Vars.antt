-- ===== src/TestEnv/Vars.antt =====
-- The variables of a test's environment as a map: what a lookup sees behind an insertion or a deletion.
use cli_toolkit.Base.{
  false, [], ◌∷◌, ◌≡◌, refl, ap, ◌∙◌, Bytes, inl, inr, Bool-cases, bytes_eq, bytes_eq_refl,
  bytes_eq_sound,
}
use cli_toolkit.TestEnv.{Vars, lookup, insert, delete}

pub lookup-insert : (vars : Vars) (a v : Bytes) → lookup (insert vars a v) a ≡ v
unfolding lookup insert
lookup-insert [] a v = rw (bytes_eq_refl a)
lookup-insert ((k, w) ∷ vars) a v = elim (Bool-cases (bytes_eq k a)) [
  | inl e ↦ rw (e, e)
  | inr e ↦ rw (e, e) (lookup-insert vars a v)
]

pub lookup-insert_other :
    (vars : Vars) (a v b : Bytes)
    → bytes_eq a b ≡ false
    → lookup (insert vars a v) b ≡ lookup vars b
unfolding lookup insert
lookup-insert_other [] a v b h = rw h
lookup-insert_other ((k, w) ∷ vars) a v b h = elim (Bool-cases (bytes_eq k a)) [
  | inl e ↦
      let gone : bytes_eq k b ≡ false = ap (λ x. bytes_eq x b) (bytes_eq_sound k a e) ∙ h in
      rw (e, gone)
  | inr e ↦ rw (e, lookup-insert_other vars a v b h)
]

pub lookup-delete : (vars : Vars) (a : Bytes) → lookup (delete vars a) a ≡ []
unfolding lookup delete
lookup-delete [] a = refl
lookup-delete ((k, w) ∷ vars) a = elim (Bool-cases (bytes_eq k a)) [
  | inl e ↦ rw e (lookup-delete vars a)
  | inr e ↦ rw (e, e) (lookup-delete vars a)
]

pub lookup-delete_other :
    (vars : Vars) (a b : Bytes) → bytes_eq a b ≡ false → lookup (delete vars a) b ≡ lookup vars b
unfolding lookup delete
lookup-delete_other [] a b h = refl
lookup-delete_other ((k, w) ∷ vars) a b h = elim (Bool-cases (bytes_eq k a)) [
  | inl e ↦
      let gone : bytes_eq k b ≡ false = ap (λ x. bytes_eq x b) (bytes_eq_sound k a e) ∙ h in
      rw (e, gone) (lookup-delete_other vars a b h)
  | inr e ↦ rw (e, lookup-delete_other vars a b h)
]
