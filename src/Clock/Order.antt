-- ===== src/Clock/Order.antt =====
-- schedHeap: the order of the heap, and that heap.Push keeps it.
use cli_toolkit.Base.{
  ◌+◌, true, false, List, [], ◌∷◌, ◌≡◌, refl, sym, subst, ◌⊎◌, inl, inr, arith, Bool-cases, All,
}
use cli_toolkit.Base.Int.{ℤ, ◌≤ℤ◌, ◌<ℤ◌}
use cli_toolkit.Clock.{Entry, less, heap_push, overdue, backlog}

-- `a` may be popped before `b`.
abbrev pub Before : Entry → Entry → Type 0
Before a b = less b a ≡ false

pub Before-trans : (a b c : Entry) → Before a b → Before b c → Before a c
unfolding less
Before-trans a b c h k = ground arith

pub Before-of_less : (a b : Entry) → less a b ≡ true → Before a b
unfolding less
Before-of_less a b h = ground arith

pub before-deadline : (a b : Entry) → Before a b → a.deadline ≤ℤ b.deadline
unfolding less
before-deadline a b h = ground arith

pub Before-of_earlier : (a b : Entry) → a.deadline <ℤ b.deadline → Before a b
unfolding less
Before-of_earlier a b h = ground arith

-- In the order of the heap, each entry before all that follow.
abbrev pub IsSorted : List Entry → Type 0
IsSorted [] = Unit
IsSorted (e ∷ es) = All (Before e) es × IsSorted es

abbrev pub In : Entry → List Entry → Type 0
In e [] = ⊥
In e (x ∷ xs) = (e ≡ x) ⊎ In e xs

pub All-heap_push {ℓ} :
    (P : Entry → Type ℓ) (e : Entry) (xs : List Entry) → P e → All P xs → All P (heap_push e xs)
unfolding heap_push
All-heap_push P e [] pe h = (pe, tt)
All-heap_push P e (x ∷ xs) pe (px, h) = elim (Bool-cases (less e x)) [
  | inl l ↦ rw l (pe, (px, h))
  | inr l ↦ rw l (px, All-heap_push P e xs pe h)
]

All-Before : (a b : Entry) (xs : List Entry) → Before a b → All (Before b) xs → All (Before a) xs
All-Before a b [] h k = tt
All-Before a b (x ∷ xs) h (kx, k) = (Before-trans a b x h kx, All-Before a b xs h k)

pub heap_push-IsSorted : (e : Entry) (xs : List Entry) → IsSorted xs → IsSorted (heap_push e xs)
unfolding heap_push
heap_push-IsSorted e [] h = (tt, tt)
heap_push-IsSorted e (x ∷ xs) (hx, h) = elim (Bool-cases (less e x)) [
  | inl l ↦ rw l ((Before-of_less e x l, All-Before e x xs (Before-of_less e x l) hx), (hx, h))
  | inr l ↦ rw l (All-heap_push (Before x) e xs l hx, heap_push-IsSorted e xs h)
]

pub In-heap_push_self : (e : Entry) (xs : List Entry) → In e (heap_push e xs)
unfolding heap_push
In-heap_push_self e [] = inl refl
In-heap_push_self e (x ∷ xs) = elim (Bool-cases (less e x)) [
  | inl l ↦ rw l (inl refl)
  | inr l ↦ rw l (inr (In-heap_push_self e xs))
]

pub In-heap_push : (y e : Entry) (xs : List Entry) → In y xs → In y (heap_push e xs)
unfolding heap_push
In-heap_push y e [] h = absurd h
In-heap_push y e (x ∷ xs) (inl s) = elim (Bool-cases (less e x)) [
  | inl l ↦ rw l (inr (inl s))
  | inr l ↦ rw l (inl s)
]
In-heap_push y e (x ∷ xs) (inr k) = elim (Bool-cases (less e x)) [
  | inl l ↦ rw l (inr (inr k))
  | inr l ↦ rw l (inr (In-heap_push y e xs k))
]

pub backlog-heap_push :
    (new_now : ℤ) (e : Entry) (xs : List Entry)
    → backlog new_now (heap_push e xs) ≡ overdue new_now e.deadline + backlog new_now xs
unfolding heap_push backlog
backlog-heap_push new_now e [] = refl
backlog-heap_push new_now e (x ∷ xs) = elim (Bool-cases (less e x)) [
  | inl l ↦ rw l
  | inr l ↦ rw l (omega (arith, backlog-heap_push new_now e xs))
]

pub All-In {ℓ} : (P : Entry → Type ℓ) (e : Entry) (xs : List Entry) → All P xs → In e xs → P e
All-In P e [] h k = absurd k
All-In P e (x ∷ xs) (hx, h) (inl s) = subst P (sym s) hx
All-In P e (x ∷ xs) (hx, h) (inr k) = All-In P e xs h k
