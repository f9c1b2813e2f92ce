-- ===== src/Clock/Sequence.antt =====
-- The rounds of the loop of `advance` against the queue: order, completeness, and what waits.
use cli_toolkit.Base.{false, List, ◌≡◌, refl, ap, ◌∙◌, subst, inl, inr, arith, All}
use cli_toolkit.Base.Int.{ℤ, ◌≤ℤ◌, ◌<ℤ◌}
use cli_toolkit.Clock.{
  Entry, Kind, ticker, after_func, after, Scheduler, schedule, is_cancelled, put_back, reinsert,
}
use cli_toolkit.Clock.Order.{Before, before-deadline, IsSorted, In, In-heap_push, All-In}
use cli_toolkit.Clock.Drain.{
  IsWellFormed, popped, popped-IsTimed, popped-IsWellFormed, put_back-IsWellFormed, Drains, empty,
  wait, skip, emit,
}
use cli_toolkit.Clock.Rounds.{
  emitted-SameStores, is_cancelled-SameStores, Drains-left, put_back-lower, due_of_test,
}

Drains-lower :
    {n : ℤ} {s s' : Scheduler} {fired : List Entry} (low : Entry)
    → Drains n s fired s'
    → IsWellFormed s
    → All (Before low) s.entries
    → All (Before low) fired
Drains-lower low (empty e) w a = tt
Drains-lower low (wait top rest e h) w a = tt
Drains-lower low (skip {s = s} top rest e h c r) w a =
    Drains-lower low r (popped-IsWellFormed s top rest w e).0 (subst (All (Before low)) e a).1
Drains-lower low (emit {s = s} top rest e h c r) w a =
    let (pw, t) = popped-IsWellFormed s top rest w e in
    let t' = popped-IsTimed s rest top.kind t in
    let (first, others) = subst (All (Before low)) e a in
    (
      first,
      Drains-lower low r (put_back-IsWellFormed (popped s rest) top.deadline top.kind pw t') (
          put_back-lower low (popped s rest) top.deadline top.kind t'
            (before-deadline low top first) others),
    )

-- What fires, fires in the order of the heap.
pub Drains-IsSorted :
    {n : ℤ} {s s' : Scheduler} {fired : List Entry}
    → Drains n s fired s'
    → IsWellFormed s
    → IsSorted fired
Drains-IsSorted (empty e) w = tt
Drains-IsSorted (wait top rest e h) w = tt
Drains-IsSorted (skip {s = s} top rest e h c r) w =
    Drains-IsSorted r (popped-IsWellFormed s top rest w e).0
Drains-IsSorted (emit {s = s} top rest e h c r) w =
    let (pw, t) = popped-IsWellFormed s top rest w e in
    let t' = popped-IsTimed s rest top.kind t in
    let w' = put_back-IsWellFormed (popped s rest) top.deadline top.kind pw t' in
    (
      Drains-lower top r w' (
          put_back-lower top (popped s rest) top.deadline top.kind t' (omega arith)
            (subst IsSorted e w.sorted).0),
      Drains-IsSorted r w',
    )

pub In-put_back :
    (x : Entry) (s : Scheduler) (d : ℤ) (k : Kind) → In x s.entries → In x (put_back s d k).entries
In-put_back x s d (ticker t) h = unfold put_back schedule in In-heap_push x _ s.entries h
In-put_back x s d (after_func f) h = unfold put_back in h
In-put_back x s d (after c) h = unfold put_back in h

pub not_both : (d n : ℤ) → n <ℤ d → d ≤ℤ n → ⊥
not_both d n h k = omega arith

-- Every entry of the queue that is live and due fires.
pub Drains-complete :
    {n : ℤ} {s s' : Scheduler} {fired : List Entry} (x : Entry)
    → Drains n s fired s'
    → IsWellFormed s
    → In x s.entries
    → is_cancelled s x ≡ false
    → x.deadline ≤ℤ n
    → In x fired
Drains-complete x (empty e) w i l d = subst (In x) e i
Drains-complete {n = n} x (wait {s = s} top rest e h) w i l d = absurd (
    not_both x.deadline n
      (All-In (λ y. n <ℤ y.deadline) x s.entries (Drains-left {n = n} (wait top rest e h) w) i) d)
Drains-complete x (skip {s = s} {fired = fired} top rest e h c r) w i l d =
    elim (subst (In x) e i) [
      | inl same ↦ cc (c, l, ap (is_cancelled s) same)
      | inr k ↦
          Drains-complete x r (popped-IsWellFormed s top rest w e).0 k
            (is_cancelled-SameStores s (popped s rest) x (refl, refl, refl, refl, refl) ∙ l) d
    ]
Drains-complete x (emit {s = s} top rest e h c r) w i l d = elim (subst (In x) e i) [
  | inl same ↦ inl same
  | inr k ↦
      let (pw, t) = popped-IsWellFormed s top rest w e in
      inr (
        Drains-complete x r
          (put_back-IsWellFormed (popped s rest) top.deadline top.kind pw
            (popped-IsTimed s rest top.kind t))
          (In-put_back x (popped s rest) top.deadline top.kind k)
          (is_cancelled-SameStores s (reinsert (popped s rest) top) x
              (emitted-SameStores s rest top)
            ∙ l)
          d)
]

-- Every entry of the queue that is not yet due stays in it.
pub Drains-waiting :
    {n : ℤ} {s s' : Scheduler} {fired : List Entry} (x : Entry)
    → Drains n s fired s'
    → In x s.entries
    → n <ℤ x.deadline
    → In x s'.entries
Drains-waiting x (empty e) i d = i
Drains-waiting x (wait top rest e h) i d = i
Drains-waiting {n = n} x (skip top rest e h c r) i d = elim (subst (In x) e i) [
  | inl same ↦
      absurd (
        not_both top.deadline n (subst (λ y. n <ℤ y.deadline) same d)
          (due_of_test n top.deadline h))
  | inr k ↦ Drains-waiting x r k d
]
Drains-waiting {n = n} x (emit {s = s} top rest e h c r) i d = elim (subst (In x) e i) [
  | inl same ↦
      absurd (
        not_both top.deadline n (subst (λ y. n <ℤ y.deadline) same d)
          (due_of_test n top.deadline h))
  | inr k ↦ Drains-waiting x r (In-put_back x (popped s rest) top.deadline top.kind k) d
]
