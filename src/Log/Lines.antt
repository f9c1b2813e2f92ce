-- ===== src/Log/Lines.antt =====
-- The lines that `SlogWriter.Write` logs (mylog/logger.go).
use cli_toolkit.Base.{
  ℕ, true, false, ◌&&◌, List, [], ◌∷◌, ◌++◌, append-nil, Option, none, Bytes, ◌≡◌, ◌≢◌, refl, sym,
  ap, ◌∙◌, arith, All, if◌then◌else◌, ◌==◌, is_empty, inl, inr, Bool-cases,
}
use cli_toolkit.Log.{
  newline, trim_newlines, onto_head, split_lines, not_empty, logged, SlogWriter, records, write,
}

onto_head-append :
    (c : ℕ) (ls ms : List Bytes) → ls ≢ [] → onto_head c (ls ++ ms) ≡ onto_head c ls ++ ms
onto_head-append c [] ms h = absurd (h refl)
onto_head-append c (l ∷ ls) ms h = refl

onto_head-ne : (c : ℕ) (ls : List Bytes) → onto_head c ls ≢ []
onto_head-ne c [] h = absurd cc
onto_head-ne c (l ∷ ls) h = absurd cc

split_lines-ne : (p : Bytes) → split_lines p ≢ []
unfolding split_lines
split_lines-ne [] h = absurd cc
split_lines-ne (c ∷ p) h = elim (Bool-cases (c == newline)) [
  | inl e ↦ absurd (ground arith)
  | inr e ↦ onto_head-ne c (split_lines p) (sym (rw e refl) ∙ h)
]

split_lines-append : (a b : Bytes) → split_lines (a ++ newline ∷ b) ≡ split_lines a ++ split_lines b
unfolding split_lines
split_lines-append [] b = refl
split_lines-append (c ∷ a) b = elim (Bool-cases (c == newline)) [
  | inl e ↦ rw e (ap (λ ls. [] ∷ ls) (split_lines-append a b))
  | inr e ↦ rw e (
      ap (onto_head c) (split_lines-append a b)
      ∙ onto_head-append c (split_lines a) (split_lines b) (split_lines-ne a))
]

not_empty-append : (ls ms : List Bytes) → not_empty (ls ++ ms) ≡ not_empty ls ++ not_empty ms
unfolding not_empty
not_empty-append [] ms = refl
not_empty-append ([] ∷ ls) ms = not_empty-append ls ms
not_empty-append ((c ∷ l) ∷ ls) ms = ap (λ r. (c ∷ l) ∷ r) (not_empty-append ls ms)

-- The lines of a text, with its last newlines still there.
lines_of : Bytes → List Bytes
lines_of p = not_empty (split_lines p)

lines_of-append : (a b : Bytes) → lines_of (a ++ newline ∷ b) ≡ lines_of a ++ lines_of b
unfolding lines_of
lines_of-append a b =
    ap not_empty (split_lines-append a b) ∙ not_empty-append (split_lines a) (split_lines b)

lines_of-newlines :
    (a tail : Bytes) → All (λ c. c ≡ newline) tail → lines_of (a ++ tail) ≡ lines_of a
unfolding lines_of not_empty split_lines
lines_of-newlines a [] h = ap lines_of (append-nil a)
lines_of-newlines a (c ∷ tail) (e, h) =
    ap (λ d. lines_of (a ++ d ∷ tail)) e
    ∙ lines_of-append a tail
    ∙ ap (λ l. lines_of a ++ l) (lines_of-newlines [] tail h)
    ∙ append-nil (lines_of a)

is_empty_sound : (p : Bytes) → is_empty p ≡ true → p ≡ []
is_empty_sound [] h = refl
is_empty_sound (c ∷ p) h = absurd cc

-- A text is what is left of it and newlines behind.
trimmed_tail :
    (p : Bytes) → (tail : Bytes) × All (λ c. c ≡ newline) tail × (p ≡ trim_newlines p ++ tail)
unfolding trim_newlines
trimmed_tail [] = ([], tt, refl)
trimmed_tail (c ∷ p) =
    let (tail, h, e) = trimmed_tail p in
    elim (Bool-cases ((c == newline) && is_empty (trim_newlines p))) [
      | inl all ↦ (
        c ∷ tail,
        (ground arith, h),
        rw all (
            ap (λ q. c ∷ q)
              (e ∙ ap (λ q. q ++ tail) (is_empty_sound (trim_newlines p) (ground arith)))),
      )
      | inr some_left ↦ (tail, h, rw some_left (ap (λ q. c ∷ q) e))
    ]

trimmed : (p : Bytes) → lines_of (trim_newlines p) ≡ lines_of p
trimmed p =
    let (tail, h, e) = trimmed_tail p in
    sym (ap lines_of e ∙ lines_of-newlines (trim_newlines p) tail h)

-- What is logged of two texts with a newline between them is what is logged of each.
pub logged-append : (a b : Bytes) → logged (a ++ newline ∷ b) ≡ logged a ++ logged b
unfolding logged lines_of
logged-append a b =
    trimmed (a ++ newline ∷ b)
    ∙ lines_of-append a b
    ∙ sym (ap (λ l. l ++ logged b) (trimmed a) ∙ ap (λ l. lines_of a ++ l) (trimmed b))

split_lines_one :
    (c : ℕ) (l : Bytes)
    → All (λ d. (d == newline) ≡ false) (c ∷ l)
    → split_lines (c ∷ l) ≡ (c ∷ l) ∷ []
unfolding split_lines
split_lines_one c [] (e, h) = rw e refl
split_lines_one c (d ∷ l) (e, h) = rw e (ap (onto_head c) (split_lines_one d l h))

logged_one :
    (c : ℕ) (l : Bytes) → All (λ d. (d == newline) ≡ false) (c ∷ l) → logged (c ∷ l) ≡ (c ∷ l) ∷ []
unfolding logged lines_of not_empty
logged_one c l h = trimmed (c ∷ l) ∙ ap not_empty (split_lines_one c l h)

-- A line that is not empty, with the newline behind it, is logged as one record in front of those of the
-- rest.
write_line :
    (caller_at : ℕ → Option Bytes) (w : SlogWriter) (c : ℕ) (l rest : Bytes)
    → All (λ d. (d == newline) ≡ false) (c ∷ l)
    → (write caller_at w ((c ∷ l) ++ newline ∷ rest)).0
      ≡ record {
        level = w.level;
        caller = if w.caller_depth == 0 then none else caller_at w.caller_depth;
        message = c ∷ l;
      }
        ∷ (write caller_at w rest).0
unfolding write
write_line caller_at w c l rest h =
    let caller = if w.caller_depth == 0 then none else caller_at w.caller_depth in
    ap (records w.level caller)
      (logged-append (c ∷ l) rest ∙ ap (λ ls. ls ++ logged rest) (logged_one c l h))
