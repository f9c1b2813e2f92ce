-- ===== src/Clock/Rounds.antt =====
-- The rounds of the loop of `advance`: what they leave alone, and that what fires is live and due.
use cli_toolkit.Base.{
  true, false, List, [], ◌∷◌, ◌≡◌, refl, sym, ◌∙◌, subst, arith, All, if◌then◌else◌,
}
use cli_toolkit.Base.Int.{ℤ, +ℤ_parts, ◌≤ℤ◌, ◌<ℤ◌, ltb_ℤ}
use cli_toolkit.Clock.{
  Entry, Kind, ticker, after_func, after, Scheduler, schedule, is_cancelled, put_back, reinsert,
}
use cli_toolkit.Clock.Order.{Before, before-deadline, Before-of_earlier, IsSorted, All-heap_push}
use cli_toolkit.Clock.Drain.{
  IsTimed, IsWellFormed, popped, popped-IsTimed, popped-IsWellFormed, put_back-IsWellFormed, Drains,
  empty, wait, skip, emit,
}

-- The parts of the state that the loop only reads.
abbrev pub SameStores : Scheduler → Scheduler → Type 0
SameStores s s' =
    (s'.now ≡ s.now)
    × (s'.dead ≡ s.dead)
    × (s'.tickers ≡ s.tickers)
    × (s'.chans ≡ s.chans)
    × (s'.launched ≡ s.launched)

pub put_back-SameStores : (s : Scheduler) (d : ℤ) (k : Kind) → SameStores s (put_back s d k)
unfolding put_back schedule
put_back-SameStores s d (ticker t) = (refl, refl, refl, refl, refl)
put_back-SameStores s d (after_func f) = (refl, refl, refl, refl, refl)
put_back-SameStores s d (after c) = (refl, refl, refl, refl, refl)

pub is_cancelled-SameStores :
    (s s' : Scheduler) (e : Entry) → SameStores s s' → is_cancelled s' e ≡ is_cancelled s e
unfolding is_cancelled
is_cancelled-SameStores s s' e (_, d, t, _, _) = λ i.
    if d i e.ref
    then true
    else elim e.kind [ ticker k ↦ (t i k).stopped | after_func f ↦ false | after c ↦ false ]

same_trans : (a b c : Scheduler) → SameStores a b → SameStores b c → SameStores a c
same_trans a b c h k = (k.0 ∙ h.0, k.1 ∙ h.1, k.2 ∙ h.2, k.3 ∙ h.3, k.4 ∙ h.4)

pub Drains-SameStores :
    {n : ℤ} {s s' : Scheduler} {fired : List Entry} → Drains n s fired s' → SameStores s s'
Drains-SameStores (empty e) = (refl, refl, refl, refl, refl)
Drains-SameStores (wait top rest e h) = (refl, refl, refl, refl, refl)
Drains-SameStores (skip {s = s} {s' = s'} top rest e h c r) =
    same_trans s (popped s rest) s' (refl, refl, refl, refl, refl) (Drains-SameStores r)
Drains-SameStores (emit {s = s} {s' = s'} top rest e h c r) =
    same_trans s (reinsert (popped s rest) top) s'
      (put_back-SameStores (popped s rest) top.deadline top.kind) (Drains-SameStores r)

pub emitted-SameStores :
    (s : Scheduler) (rest : List Entry) (top : Entry) → SameStores s (reinsert (popped s rest) top)
emitted-SameStores s rest top = put_back-SameStores (popped s rest) top.deadline top.kind

All-live :
    (s s' : Scheduler) (es : List Entry)
    → SameStores s s'
    → All (λ e. is_cancelled s' e ≡ false) es
    → All (λ e. is_cancelled s e ≡ false) es
All-live s s' [] same h = tt
All-live s s' (e ∷ es) same (he, h) =
    (sym (is_cancelled-SameStores s s' e same) ∙ he, All-live s s' es same h)

-- Only live entries fire, and only due ones.
pub Drains-live :
    {n : ℤ} {s s' : Scheduler} {fired : List Entry}
    → Drains n s fired s'
    → All (λ e. is_cancelled s e ≡ false) fired
Drains-live (empty e) = tt
Drains-live (wait top rest e h) = tt
Drains-live (skip {s = s} {fired = fired} top rest e h c r) =
    All-live s (popped s rest) fired (refl, refl, refl, refl, refl) (Drains-live r)
Drains-live (emit {s = s} {fired = fired} top rest e h c r) = (
  c,
  All-live s (reinsert (popped s rest) top) fired (emitted-SameStores s rest top) (Drains-live r),
)

pub due_of_test : (n d : ℤ) → ltb_ℤ n d ≡ false → d ≤ℤ n
due_of_test n d h = ground arith

pub later_of_test : (n d : ℤ) → ltb_ℤ n d ≡ true → n <ℤ d
later_of_test n d h = ground arith

pub Drains-due :
    {n : ℤ} {s s' : Scheduler} {fired : List Entry}
    → Drains n s fired s'
    → All (λ e. e.deadline ≤ℤ n) fired
Drains-due (empty e) = tt
Drains-due (wait top rest e h) = tt
Drains-due (skip top rest e h c r) = Drains-due r
Drains-due {n = n} (emit top rest e h c r) = (due_of_test n top.deadline h, Drains-due r)

All-later :
    (n : ℤ) (top : Entry) (rest : List Entry)
    → n <ℤ top.deadline
    → All (Before top) rest
    → All (λ e. n <ℤ e.deadline) rest
All-later n top [] h k = tt
All-later n top (e ∷ rest) h (b, k) =
    (omega (arith, before-deadline top e b), All-later n top rest h k)

-- Nothing that is due stays behind.
pub Drains-left :
    {n : ℤ} {s s' : Scheduler} {fired : List Entry}
    → Drains n s fired s'
    → IsWellFormed s
    → All (λ e. n <ℤ e.deadline) s'.entries
Drains-left {n = n} (empty e) w = subst (All (λ x. n <ℤ x.deadline)) (sym e) tt
Drains-left {n = n} (wait top rest e h) w =
    let later = later_of_test n top.deadline h in
    subst (All (λ x. n <ℤ x.deadline)) (sym e)
      (later, All-later n top rest later (subst IsSorted e w.sorted).0)
Drains-left (skip {s = s} top rest e h c r) w = Drains-left r (popped-IsWellFormed s top rest w e).0
Drains-left (emit {s = s} top rest e h c r) w =
    let (pw, t) = popped-IsWellFormed s top rest w e in
    Drains-left r (
      put_back-IsWellFormed (popped s rest) top.deadline top.kind pw
        (popped-IsTimed s rest top.kind t))

-- A lower bound of the queue is a lower bound of what fires.
pub put_back-lower :
    (low : Entry) (s : Scheduler) (d : ℤ) (k : Kind)
    → IsTimed s k
    → low.deadline ≤ℤ d
    → All (Before low) s.entries
    → All (Before low) (put_back s d k).entries
put_back-lower low s d (ticker t) (_, p) h a =
    unfold put_back schedule in
    All-heap_push (Before low) _ s.entries
      (Before-of_earlier low _ (omega (arith, +ℤ_parts d (s.tickers t).period))) a
put_back-lower low s d (after_func f) t h a = unfold put_back in a
put_back-lower low s d (after c) t h a = unfold put_back in a
