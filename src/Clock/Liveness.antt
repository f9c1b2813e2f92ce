-- ===== src/Clock/Liveness.antt =====
-- A callback of AfterFunc is started in the course of Advances that reach its time (clock/scheduler.go).
use cli_toolkit.Base.{
  ℕ, suc, false, List, [], ◌∷◌, ◌++◌, Option, some, none, ◌≡◌, refl, sym, ap, ◌∙◌, subst, ◌⊎◌, inl,
  inr, arith, Bool-cases,
}
use cli_toolkit.Base.Int.{ℤ, pos, ◌+ℤ◌, ◌≤ℤ◌, ◌<ℤ◌, +ℤ_parts, ltb_ℤ}
use cli_toolkit.Clock.{Entry, after_func, Scheduler, fire_all, advance, add_after_func, schedule}
use cli_toolkit.Clock.Order.{In, In-heap_push_self}
use cli_toolkit.Clock.Drain.{IsWellFormed, schedule-IsWellFormed}
use cli_toolkit.Clock.Advance.{advance_total, callbacks, collect_due_waiting, fire_all-SameRest}
use cli_toolkit.Clock.Invariant.{advance-IsWellFormed, advance_eq, some_eq}
use cli_toolkit.Clock.Timers.{Ran, stop_after_firing}

-- Advances one after the other, and the time that they lead to.
unfoldable pub run_advances : List ℤ → Scheduler → Option Scheduler
run_advances [] s = some s
run_advances (d ∷ ds) s = elim (advance s d) [ none ↦ none | some s' ↦ run_advances ds s' ]

abbrev pub time_after : List ℤ → ℤ → ℤ
time_after [] now = now
time_after (d ∷ ds) now = time_after ds (now +ℤ d)

run_advances-cons :
    (d : ℤ) (ds : List ℤ) (s s' : Scheduler)
    → advance s d ≡ some s'
    → run_advances (d ∷ ds) s ≡ run_advances ds s'
unfolding run_advances
run_advances-cons d ds s s' e = rw (run_advances, e) refl

Ran-append_left : (f : ℕ) (gs hs : List ℕ) → Ran f gs → Ran f (gs ++ hs)
Ran-append_left f [] hs h = absurd h
Ran-append_left f (g ∷ gs) hs (inl e) = inl e
Ran-append_left f (g ∷ gs) hs (inr h) = inr (Ran-append_left f gs hs h)

-- What was started stays in the list of what was started.
run_advances-Ran :
    (ds : List ℤ) (s : Scheduler) (f : ℕ)
    → IsWellFormed s
    → Ran f s.launched
    → (result : Scheduler) × (run_advances ds s ≡ some result) × Ran f result.launched
run_advances-Ran [] s f w h = (s, unfold run_advances in refl, h)
run_advances-Ran (d ∷ ds) s f w h =
    let (s', drained, fired, adv, _, _, _, _, _, launched) = advance_total s d w in
    let (result, ran, there) =
      run_advances-Ran ds s' f (advance-IsWellFormed s s' d w adv)
        (subst (Ran f) (sym launched) (Ran-append_left f s.launched (callbacks fired) h)) in
    (result, run_advances-cons d ds s s' adv ∙ ran, there)

-- An entry that is not due yet is still queued.
advance_waiting :
    (s s' : Scheduler) (d : ℤ) (x : Entry)
    → IsWellFormed s
    → advance s d ≡ some s'
    → In x s.entries
    → s.now +ℤ d <ℤ x.deadline
    → In x s'.entries
advance_waiting s s' d x w adv i later =
    let (_, drained, fired, _, ran, _, _, _, _, _) = advance_total s d w in
    let moved : Scheduler = record drained { now = s.now +ℤ d } in
    let same = some_eq (fire_all moved fired) s' (sym (advance_eq s drained d fired ran) ∙ adv) in
    subst (λ t. In x t.entries) same
      (subst (In x) (sym (fire_all-SameRest moved fired).1)
        (collect_due_waiting s drained (s.now +ℤ d) fired w ran x i later))

order-cases : (a b : ℤ) → (a ≤ℤ b) ⊎ (b <ℤ a)
order-cases a b = elim (Bool-cases (ltb_ℤ b a)) [
  | inl e ↦ inr (ground arith)
  | inr e ↦ inl (ground arith)
]

-- A callback that is queued, not stopped and not due is started by the Advances that follow, once they reach it.
pub run_advances_starts :
    (ds : List ℤ) (s : Scheduler) (x : Entry) (f : ℕ)
    → IsWellFormed s
    → In x s.entries
    → x.kind ≡ after_func f
    → s.dead x.ref ≡ false
    → s.now <ℤ x.deadline
    → x.deadline ≤ℤ time_after ds s.now
    → (result : Scheduler) × (run_advances ds s ≡ some result) × Ran f result.launched
run_advances_starts [] s x f w i k alive later due = absurd (omega arith)
run_advances_starts (d ∷ ds) s x f w i k alive later due =
    elim (order-cases x.deadline (s.now +ℤ d)) [
      | inl now ↦
          let (s', adv, ran, _) = stop_after_firing s d x f w i k alive now in
          let (result, done, there) =
            run_advances-Ran ds s' f (advance-IsWellFormed s s' d w adv) ran in
          (result, run_advances-cons d ds s s' adv ∙ done, there)
      | inr wait ↦
          let (s', _, _, adv, _, at, _, dead, _, _) = advance_total s d w in
          let (result, done, there) =
            run_advances_starts ds s' x f (advance-IsWellFormed s s' d w adv)
              (advance_waiting s s' d x w adv i wait) k (ap (λ m. m x.ref) dead ∙ alive)
              (subst (λ t. t <ℤ x.deadline) (sym at) wait)
              (subst (λ t. x.deadline ≤ℤ time_after ds t) (sym at) due) in
          (result, run_advances-cons d ds s s' adv ∙ done, there)
    ]

-- In a well-formed state a callback that AfterFunc schedules after a time greater than zero is started in the
-- course of any Advances, in steps of whatever size, that end at its time or later.
pub add_after_func_starts :
    (s : Scheduler) (d : ℤ) (f : ℕ) (ds : List ℤ)
    → IsWellFormed s
    → pos 0 <ℤ d
    → s.now +ℤ d ≤ℤ time_after ds s.now
    → (result : Scheduler) × (run_advances ds (add_after_func s d f).0 ≡ some result)
      × Ran f result.launched
unfolding add_after_func schedule
add_after_func_starts s d f ds w p due =
    let (s', e) = add_after_func s d f in
    run_advances_starts ds s' e f (schedule-IsWellFormed s (s.now +ℤ d) (after_func f) w tt)
      (In-heap_push_self e s.entries) refl (w.fresh (suc s.next_id) (omega arith))
      (omega (arith, +ℤ_parts s.now d, p)) due
