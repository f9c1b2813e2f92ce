-- ===== src/FilePath/Split.antt =====
-- Cutting a path at its separators and joining elements with them: strings.Split and strings.Join
-- with "/": the join of the parts of a text is the text, and elements with no separator come back from their join.
use cli_toolkit.Base.{
  ℕ, false, List, [], ◌∷◌, ◌++◌, ◌≡◌, ◌≢◌, refl, arith, Bytes, ◌==◌, if◌then◌else◌, All, inl, inr,
  Bool-cases, ==_iff, sym, ap,
}

abbrev pub slash : ℕ
slash = b'/'

abbrev pub Lacks : ℕ → Bytes → Type 0
Lacks b = All (λ c. (c == b) ≡ false)

-- The first part of a cut gets one more byte in front.
unfoldable pub push_byte : ℕ → List Bytes → List Bytes
push_byte c [] = (c ∷ []) ∷ []
push_byte c (p ∷ ps) = (c ∷ p) ∷ ps

unfoldable pub split : Bytes → List Bytes
unfolding push_byte
split [] = [] ∷ []
split (c ∷ s) = let rest = split s in if c == slash then [] ∷ rest else push_byte c rest

unfoldable pub join_elems : List Bytes → Bytes
join_elems [] = []
join_elems (p ∷ []) = p
join_elems (p ∷ q ∷ ps) = p ++ slash ∷ join_elems (q ∷ ps)

push_byte-append :
    (c : ℕ) (ps qs : List Bytes) → ps ≢ [] → push_byte c (ps ++ qs) ≡ push_byte c ps ++ qs
unfolding push_byte
push_byte-append c [] qs h = absurd (h refl)
push_byte-append c (p ∷ ps) qs h = refl

split-ne-nil : (s : Bytes) → split s ≢ []
unfolding split
split-ne-nil [] h = cc
split-ne-nil (c ∷ s) h = ground (arith, split-ne-nil s)

-- A separator cuts: the parts of both sides, one after the other.
pub split-append_slash : (s t : Bytes) → split (s ++ slash ∷ t) ≡ split s ++ split t
unfolding split
split-append_slash [] t = refl
split-append_slash (c ∷ s) t = elim (Bool-cases (c == slash)) [
  | inl h ↦ rw (h, split-append_slash s t)
  | inr h ↦ rw (h, split-append_slash s t, push_byte-append c (split s) (split t) (split-ne-nil s))
]

-- A text with no separator is one part.
pub split-Lacks : (s : Bytes) → Lacks slash s → split s ≡ s ∷ []
unfolding split
split-Lacks [] h = refl
split-Lacks (c ∷ s) (hc, h) = rw (hc, split-Lacks s h)

join_elems-push_byte :
    (c : ℕ) (ps : List Bytes) → ps ≢ [] → join_elems (push_byte c ps) ≡ c ∷ join_elems ps
unfolding push_byte join_elems
join_elems-push_byte c [] h = absurd (h refl)
join_elems-push_byte c (p ∷ []) h = refl
join_elems-push_byte c (p ∷ q ∷ ps) h = refl

join_elems-empty : (ps : List Bytes) → ps ≢ [] → join_elems ([] ∷ ps) ≡ slash ∷ join_elems ps
unfolding join_elems
join_elems-empty [] h = absurd (h refl)
join_elems-empty (p ∷ ps) h = refl

-- A text comes back from the join of its parts.
join_elems-split : (s : Bytes) → join_elems (split s) ≡ s
unfolding split
join_elems-split [] = unfold join_elems in refl
join_elems-split (c ∷ s) = elim (Bool-cases (c == slash)) [
  | inl h ↦
      rw (h, join_elems-empty (split s) (split-ne-nil s), join_elems-split s)
        (ap (λ b. b ∷ s) (sym ((==_iff c slash).0 h)))
  | inr h ↦ rw (h, join_elems-push_byte c (split s) (split-ne-nil s), join_elems-split s) refl
]

-- Elements that hold no separator come back from a join.
pub split-join_elems :
    (e : Bytes) (es : List Bytes)
    → All (Lacks slash) (e ∷ es)
    → split (join_elems (e ∷ es)) ≡ e ∷ es
unfolding join_elems
split-join_elems e [] (he, _) = split-Lacks e he
split-join_elems e (f ∷ es) (he, h) =
    rw (split-append_slash e (join_elems (f ∷ es)), split-Lacks e he, split-join_elems f es h)

push_byte-Lacks :
    (c : ℕ) (ps : List Bytes)
    → (c == slash) ≡ false
    → All (Lacks slash) ps
    → All (Lacks slash) (push_byte c ps)
unfolding push_byte
push_byte-Lacks c [] hc h = ((hc, tt), tt)
push_byte-Lacks c (p ∷ ps) hc (hp, h) = ((hc, hp), h)

-- No part of a cut holds a separator.
pub split-All-Lacks : (s : Bytes) → All (Lacks slash) (split s)
unfolding split
split-All-Lacks [] = (tt, tt)
split-All-Lacks (c ∷ s) = elim (Bool-cases (c == slash)) [
  | inl h ↦ rw h (tt, split-All-Lacks s)
  | inr h ↦ rw h (push_byte-Lacks c (split s) h (split-All-Lacks s))
]
