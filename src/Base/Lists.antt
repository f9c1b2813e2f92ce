-- ===== src/Base/Lists.antt =====
-- Lists measured by native numbers, predicates on every element, and prefixes.
use Prim.Native.Nat.{ℕ, zero, suc, ◌+◌}
use mathlib.Core.Path.{◌≡◌, refl, ap, ◌∙◌}
use mathlib.Core.List.{List, [], ◌∷◌, ◌++◌, reverse, reverse-append}
use native.Mathlib.Omega.{arith}

module _ {ℓ} {A : Type ℓ} where
  abbrev pub length : List A → ℕ
  length [] = 0
  length (x ∷ xs) = suc (length xs)

  abbrev pub replicate : ℕ → A → List A
  replicate zero a = []
  replicate (suc n) a = a ∷ replicate n a

  pub length-append : (xs ys : List A) → length (xs ++ ys) ≡ length xs + length ys
  length-append [] ys = omega arith
  length-append (x ∷ xs) ys = omega (arith, length-append xs ys)

  pub reverse-snoc : (xs : List A) (x : A) → reverse (xs ++ x ∷ []) ≡ x ∷ reverse xs
  reverse-snoc xs x = reverse-append xs (x ∷ [])

  pub reverse-cons : (xs : List A) (x : A) → reverse (x ∷ xs) ≡ reverse xs ++ x ∷ []
  reverse-cons xs x = reverse-append (x ∷ []) xs

module _ {ℓ} {A : Type ℓ} where
  pub length-reverse : (xs : List A) → length (reverse xs) ≡ length xs
  length-reverse [] = refl
  length-reverse (x ∷ xs) =
      ap length (reverse-cons xs x)
      ∙ omega (arith, length-append (reverse xs) (x ∷ []), length-reverse xs)

module _ {ℓ κ} {A : Type ℓ} (P : A → Type κ) where
  abbrev pub All : List A → Type κ
  All [] = Unit
  All (x ∷ xs) = P x × All xs

  pub All-append : (xs ys : List A) → All xs → All ys → All (xs ++ ys)
  All-append [] ys _ hy = hy
  All-append (x ∷ xs) ys (px, hx) hy = (px, All-append xs ys hx hy)

  pub All-append_left : (xs ys : List A) → All (xs ++ ys) → All xs
  All-append_left [] ys h = tt
  All-append_left (x ∷ xs) ys (px, h) = (px, All-append_left xs ys h)

  pub All-append_right : (xs ys : List A) → All (xs ++ ys) → All ys
  All-append_right [] ys h = h
  All-append_right (x ∷ xs) ys (px, h) = All-append_right xs ys h

-- `xs` is an initial part of `ys`, with the rest kept.
abbrev pub HasPrefix {ℓ} : {A : Type ℓ} → List A → List A → Type ℓ
HasPrefix {A} xs ys = (zs : List A) × (ys ≡ xs ++ zs)
