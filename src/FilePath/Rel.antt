-- ===== src/FilePath/Rel.antt =====
-- filepath.Rel between absolute paths: what is left behind the common elements.
use cli_toolkit.Base.{
  true, false, List, [], ◌∷◌, ◌++◌, ◌≡◌, refl, Bytes, All, inl, inr, Bool-cases, bytes_eq,
  bytes_eq_refl, bytes_eq_sound, some, none, length, replicate,
}
use cli_toolkit.FilePath.{dotdot, is_abs, elems, render, climb, strip_common, rel}
use cli_toolkit.FilePath.Clean.{IsPlain, elems-All-IsPlain}

-- Behind a prefix just the rest of the target is left.
pub strip_common-append : (xs ys : List Bytes) → strip_common xs (xs ++ ys) ≡ ([], ys)
unfolding strip_common
strip_common-append [] ys = refl
strip_common-append (x ∷ xs) ys = rw (bytes_eq_refl x) (strip_common-append xs ys)

-- Where nothing is left of the base, it was a prefix of the target.
pub strip_common-prefix :
    (bs ts : List Bytes) → (strip_common bs ts).0 ≡ [] → ts ≡ bs ++ (strip_common bs ts).1
unfolding strip_common
strip_common-prefix [] ts = λ h. refl
strip_common-prefix (b ∷ bs) [] = λ h. cc
strip_common-prefix (b ∷ bs) (t ∷ ts) = elim (Bool-cases (bytes_eq b t)) [
  | inl e ↦ rw e (λ h. cc (bytes_eq_sound b t e, strip_common-prefix bs ts h))
  | inr e ↦ rw e (λ h. cc)
]

-- What is left of the base are elements of it.
pub All-strip_common {κ} :
    (P : Bytes → Type κ) (bs ts : List Bytes)
    → All P bs
    → All P ts
    → All P (strip_common bs ts).0 × All P (strip_common bs ts).1
unfolding strip_common
All-strip_common P [] ts h k = (tt, k)
All-strip_common P (b ∷ bs) [] h k = (h, tt)
All-strip_common P (b ∷ bs) (t ∷ ts) (hb, h) (kt, k) = elim (Bool-cases (bytes_eq b t)) [
  | inl e ↦ rw e (All-strip_common P bs ts h k)
  | inr e ↦ rw e ((hb, h), (kt, k))
]

-- Up once for each element left of the base, then down the rest of the target.
abbrev pub ups : List Bytes → List Bytes → List Bytes
ups bs ts = replicate (length bs) dotdot ++ ts

climb-IsPlain :
    (bs ts : List Bytes) → All IsPlain bs → climb bs ts ≡ some (render false (ups bs ts))
unfolding climb
climb-IsPlain [] ts h = refl
climb-IsPlain (b ∷ bs) ts (hb, h) = rw (hb.2)

-- Between absolute paths `Rel` has no error.
pub rel-is_abs :
    (b t : Bytes)
    → is_abs b ≡ true
    → is_abs t ≡ true
    → rel b t
      ≡ some (
          render false
            (ups (strip_common (elems b) (elems t)).0 (strip_common (elems b) (elems t)).1))
unfolding rel
rel-is_abs b t hb ht =
    rw (hb, ht)
      (climb-IsPlain _ _
        (All-strip_common IsPlain (elems b) (elems t) (elems-All-IsPlain b hb)
          (elems-All-IsPlain t ht)).0)

-- A relative and an absolute path are not compared.
pub rel_mixed : (b t : Bytes) → is_abs b ≡ false → is_abs t ≡ true → rel b t ≡ none
unfolding rel
rel_mixed b t hb ht = rw (hb, ht)
