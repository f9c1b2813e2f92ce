-- ===== src/FilePath/Clean.antt =====
-- filepath.Clean: the shape of a cleaned path's elements, that they are read back from its text,
-- and so that cleaning twice is cleaning once.
use cli_toolkit.Base.{
  Bool, true, false, List, [], ◌∷◌, ◌++◌, append-nil, append_assoc, ◌≡◌, refl, ap, Bytes, All,
  All-append, ◌⊎◌, inl, inr, Bool-cases, subst, is_empty, bytes_eq, bytes_eq_refl, reverse,
  reverse-cons,
}
use mathlib.Core.List.{reverse-reverse}
use cli_toolkit.FilePath.Split.{slash, Lacks, split, join_elems, split-join_elems, split-All-Lacks}
use cli_toolkit.FilePath.{dot, dotdot, is_abs, pop, push, push_all, elems, render, clean}

-- An ordinary name: not empty, not `.`, not `..`, and in one piece.
abbrev pub IsPlain : Bytes → Type 0
IsPlain e =
    (is_empty e ≡ false) × (bytes_eq e dot ≡ false) × (bytes_eq e dotdot ≡ false) × Lacks slash e

-- A stack of kept elements: ordinary names, over `..`s at the start of a relative path.
abbrev pub IsNormal : Bool → List Bytes → Type 0
IsNormal r [] = Unit
IsNormal r (e ∷ out) =
    (IsPlain e × IsNormal r out) ⊎ ((r ≡ false) × (e ≡ dotdot) × All (λ d. d ≡ dotdot) out)

dots-IsNormal : (out : List Bytes) → All (λ d. d ≡ dotdot) out → IsNormal false out
dots-IsNormal [] h = tt
dots-IsNormal (d ∷ out) (hd, h) = inr (refl, hd, h)

pop-IsNormal : (r : Bool) (out : List Bytes) → IsNormal r out → IsNormal r (pop r out)
unfolding pop
pop-IsNormal true [] h = tt
pop-IsNormal false [] h = inr (refl, refl, tt)
pop-IsNormal true (e ∷ out) (inl (p, h)) = rw (p.2) h
pop-IsNormal false (e ∷ out) (inl (p, h)) = rw (p.2) h
pop-IsNormal true (e ∷ out) (inr (hr, he, h)) = cc
pop-IsNormal false (e ∷ out) (inr (hr, he, h)) =
    rw (ap (λ x. bytes_eq x dotdot) he, bytes_eq_refl dotdot) (inr (refl, refl, (he, h)))

push-IsNormal :
    (r : Bool) (out : List Bytes) (e : Bytes)
    → Lacks slash e
    → IsNormal r out
    → IsNormal r (push r out e)
unfolding push
push-IsNormal r out e he h = elim (Bool-cases (is_empty e)) [
  | inl a ↦ rw a h
  | inr a ↦ elim (Bool-cases (bytes_eq e dot)) [
    | inl b ↦ rw (a, b) h
    | inr b ↦ elim (Bool-cases (bytes_eq e dotdot)) [
      | inl c ↦ rw (a, b, c) (pop-IsNormal r out h)
      | inr c ↦ rw (a, b, c) (inl ((a, b, c, he), h))
    ]
  ]
]

push_all-IsNormal :
    (r : Bool) (out es : List Bytes)
    → All (Lacks slash) es
    → IsNormal r out
    → IsNormal r (push_all r out es)
unfolding push_all
push_all-IsNormal r out [] hs h = h
push_all-IsNormal r out (e ∷ es) (he, hs) h =
    push_all-IsNormal r (push r out e) es hs (push-IsNormal r out e he h)

pub push_all-append :
    (r : Bool) (out xs ys : List Bytes)
    → push_all r out (xs ++ ys) ≡ push_all r (push_all r out xs) ys
unfolding push_all
push_all-append r out [] ys = refl
push_all-append r out (x ∷ xs) ys = push_all-append r (push r out x) xs ys

-- An ordinary name is kept.
pub push-IsPlain : (r : Bool) (out : List Bytes) (e : Bytes) → IsPlain e → push r out e ≡ e ∷ out
unfolding push
push-IsPlain r out e (a, b, c, _) = rw (a, b, c)

pub push_all-IsPlain :
    (r : Bool) (out es : List Bytes) → All IsPlain es → push_all r out es ≡ reverse es ++ out
unfolding push_all
push_all-IsPlain r out [] h = refl
push_all-IsPlain r out (e ∷ es) (he, h) =
    rw (push-IsPlain r out e he, push_all-IsPlain r (e ∷ out) es h, reverse-cons es e, append_assoc)

pop_dots : (out : List Bytes) → All (λ d. d ≡ dotdot) out → pop false out ≡ dotdot ∷ out
unfolding pop
pop_dots [] h = refl
pop_dots (d ∷ out) (hd, h) = rw (ap (λ x. bytes_eq x dotdot) hd, bytes_eq_refl dotdot)

push_dots :
    (out : List Bytes) (e : Bytes)
    → e ≡ dotdot
    → All (λ d. d ≡ dotdot) out
    → push false out e ≡ e ∷ out
unfolding push bytes_eq
push_dots out e he h = rw he (pop_dots out h)

-- A stack is rebuilt from its own elements.
pub push_all-reverse :
    (r : Bool) (out : List Bytes) → IsNormal r out → push_all r [] (reverse out) ≡ out
push_all-reverse r [] h = unfold push_all in refl
push_all-reverse r (e ∷ out) (inl (p, h)) =
    rw (reverse-cons out e, push_all-append r [] (reverse out) (e ∷ []), push_all-reverse r out h)
      (unfold push_all in push-IsPlain r out e p)
push_all-reverse true (e ∷ out) (inr (hr, he, h)) = cc
push_all-reverse false (e ∷ out) (inr (hr, he, h)) =
    rw
      (
        reverse-cons out e,
        push_all-append false [] (reverse out) (e ∷ []),
        push_all-reverse false out (dots-IsNormal out h),
      )
      (unfold push_all in push_dots out e he h)

-- Both kinds of element: in one piece and not empty.
abbrev IsWhole : Bytes → Type 0
IsWhole e = (is_empty e ≡ false) × Lacks slash e

IsNormal-All-IsWhole : (r : Bool) (out : List Bytes) → IsNormal r out → All IsWhole out
IsNormal-All-IsWhole r [] h = tt
IsNormal-All-IsWhole r (e ∷ out) (inl (p, h)) = ((p.0, p.3), IsNormal-All-IsWhole r out h)
IsNormal-All-IsWhole true (e ∷ out) (inr (hr, he, h)) = cc
IsNormal-All-IsWhole false (e ∷ out) (inr (hr, he, h)) =
    (rw he (refl, (refl, (refl, tt))), IsNormal-All-IsWhole false out (dots-IsNormal out h))

pub All-reverse {ℓ κ} : {A : Type ℓ} (P : A → Type κ) (xs : List A) → All P xs → All P (reverse xs)
All-reverse P [] h = tt
All-reverse P (x ∷ xs) (hx, h) =
    rw (reverse-cons xs x) (All-append P (reverse xs) (x ∷ []) (All-reverse P xs h) (hx, tt))

All-IsWhole-Lacks : (es : List Bytes) → All IsWhole es → All (Lacks slash) es
All-IsWhole-Lacks [] h = tt
All-IsWhole-Lacks (e ∷ es) (he, h) = (he.1, All-IsWhole-Lacks es h)

head_not_slash : (e : Bytes) (rest : Bytes) → IsWhole e → is_abs (e ++ rest) ≡ false
unfolding is_abs
head_not_slash [] rest (h, _) = cc
head_not_slash (c ∷ e) rest (h, hc) = hc.0

is_abs-render : (r : Bool) (es : List Bytes) → All IsWhole es → is_abs (render r es) ≡ r
unfolding render join_elems
is_abs-render true es h = unfold is_abs in refl
is_abs-render false [] h = unfold is_abs in refl
is_abs-render false (e ∷ []) (he, _) = rw (← append-nil e) (head_not_slash e [] he)
is_abs-render false (e ∷ f ∷ es) (he, _) = head_not_slash e _ he

-- Past the separator of a root and the name `.` the parts of a printed path are its elements.
pub push_all-split-render :
    (r q : Bool) (out es : List Bytes)
    → All (Lacks slash) es
    → push_all r out (split (render q es)) ≡ push_all r out es
unfolding render join_elems split push_all push bytes_eq
push_all-split-render r true out [] h = refl
push_all-split-render r true out (e ∷ es) h = rw (split-join_elems e es h)
push_all-split-render r false out [] h = refl
push_all-split-render r false out (e ∷ es) h = rw (split-join_elems e es h)

-- The elements of a path, the last one first, as `Clean`'s stack leaves them.
pub stack-IsNormal : (p : Bytes) → IsNormal (is_abs p) (push_all (is_abs p) [] (split p))
stack-IsNormal p = push_all-IsNormal (is_abs p) [] (split p) (split-All-Lacks p) tt

IsNormal-elems-render :
    (r : Bool) (out : List Bytes)
    → IsNormal r out
    → (is_abs (render r (reverse out)) ≡ r) × (elems (render r (reverse out)) ≡ reverse out)
unfolding elems
IsNormal-elems-render r out h =
    let whole = All-reverse IsWhole out (IsNormal-All-IsWhole r out h) in
    let abs = is_abs-render r (reverse out) whole in
    (
      abs,
      rw (
        abs,
        push_all-split-render r r [] (reverse out) (All-IsWhole-Lacks (reverse out) whole),
        push_all-reverse r out h,
      ),
    )

pub is_abs-clean : (p : Bytes) → is_abs (clean p) ≡ is_abs p
unfolding clean elems
is_abs-clean p = (IsNormal-elems-render (is_abs p) _ (stack-IsNormal p)).0

-- The elements of a cleaned path are read back from its text.
pub elems-clean : (p : Bytes) → elems (clean p) ≡ elems p
elems-clean p = unfold clean elems in (IsNormal-elems-render (is_abs p) _ (stack-IsNormal p)).1

-- Cleaning twice is cleaning once, for every path.
pub clean-clean : (p : Bytes) → clean (clean p) ≡ clean p
unfolding clean
clean-clean p = rw (is_abs-clean p, elems-clean p)

-- Two paths that are absolute alike and have the same elements clean to the same text.
pub clean-eq : (p q : Bytes) → is_abs p ≡ is_abs q → elems p ≡ elems q → clean p ≡ clean q
unfolding clean
clean-eq p q a e = rw (a, e)

IsNormal-true-All-IsPlain : (out : List Bytes) → IsNormal true out → All IsPlain out
IsNormal-true-All-IsPlain [] h = tt
IsNormal-true-All-IsPlain (e ∷ out) (inl (p, h)) = (p, IsNormal-true-All-IsPlain out h)
IsNormal-true-All-IsPlain (e ∷ out) (inr (hr, he, h)) = cc

-- An absolute path has ordinary names only: no `..` is left in it.
pub elems-All-IsPlain : (p : Bytes) → is_abs p ≡ true → All IsPlain (elems p)
unfolding elems
elems-All-IsPlain p h = rw h (
    All-reverse IsPlain _ (
      IsNormal-true-All-IsPlain _
        (subst (λ r. IsNormal r (push_all r [] (split p))) h (stack-IsNormal p))))

All-IsPlain-IsNormal : (out : List Bytes) → All IsPlain out → IsNormal true out
All-IsPlain-IsNormal [] h = tt
All-IsPlain-IsNormal (e ∷ out) (he, h) = inl (he, All-IsPlain-IsNormal out h)

-- A printed list of ordinary names is read back.
pub elems-render : (es : List Bytes) → All IsPlain es → elems (render true es) ≡ es
elems-render es h =
    subst (λ xs. elems (render true xs) ≡ xs) (reverse-reverse es)
      (IsNormal-elems-render true (reverse es)
        (All-IsPlain-IsNormal (reverse es) (All-reverse IsPlain es h))).1

pub clean-render : (p : Bytes) → is_abs p ≡ true → clean p ≡ render true (elems p)
unfolding clean
clean-render p h = rw h
