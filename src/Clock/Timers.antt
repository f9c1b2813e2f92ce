-- ===== src/Clock/Timers.antt =====
-- Timers and tickers that are stopped, and what Stop reports: testTimer.Stop, testTicker.Stop, Reset.
use cli_toolkit.Base.{
  ℕ, true, false, not, List, [], ◌∷◌, ◌++◌, some, ◌≡◌, ◌≢◌, refl, sym, ap, ◌∙◌, subst, ◌⊎◌, inl,
  inr, arith,
}
use cli_toolkit.Base.Int.{ℤ, ◌+ℤ◌, ◌≤ℤ◌}
use cli_toolkit.Clock.{
  Entry, Kind, ticker, after_func, after, Scheduler, is_cancelled, collect_due, advance, cancel,
  stop_ticker, reset_timer, schedule,
}
use cli_toolkit.Clock.Order.{In, All-In, In-heap_push_self}
use cli_toolkit.Clock.Drain.{IsWellFormed}
use cli_toolkit.Clock.Advance.{
  collect_due_sound, collect_due_complete, advance_total, callbacks, add_callback,
}

cancel-dead : (s : Scheduler) (x : Entry) → (cancel s x).0.dead x.ref ≡ true
unfolding cancel
cancel-dead s x = ground arith

not_dead : (s : Scheduler) (x : Entry) → is_cancelled s x ≡ false → s.dead x.ref ≡ false
unfolding is_cancelled
not_dead s x h = ground arith

-- After Stop of a timer its entry is in no collection of Advance, from the state that Stop leaves.
pub cancel_silences :
    (s drained : Scheduler) (x : Entry) (new_now : ℤ) (fired : List Entry)
    → IsWellFormed (cancel s x).0
    → collect_due (cancel s x).0 new_now ≡ some (drained, fired)
    → ¬ In x fired
cancel_silences s drained x new_now fired w ran i =
    let live =
      All-In (λ e. is_cancelled (cancel s x).0 e ≡ false) x fired
        (collect_due_sound (cancel s x).0 drained new_now fired w ran).2 i in
    cc (cancel-dead s x, not_dead (cancel s x).0 x live)

stop_ticker-stopped : (s : Scheduler) (t : ℕ) → ((stop_ticker s t).tickers t).stopped ≡ true
unfolding stop_ticker
stop_ticker-stopped s t = ground arith

not_stopped :
    (s : Scheduler) (x : Entry) (t : ℕ)
    → x.kind ≡ ticker t
    → is_cancelled s x ≡ false
    → (s.tickers t).stopped ≡ false
unfolding is_cancelled
not_stopped s x t k h = ground arith

-- After Stop of a ticker no entry of that ticker is in a collection of Advance.
stop_ticker_silences :
    (s drained : Scheduler) (t : ℕ) (x : Entry) (new_now : ℤ) (fired : List Entry)
    → IsWellFormed (stop_ticker s t)
    → collect_due (stop_ticker s t) new_now ≡ some (drained, fired)
    → In x fired
    → x.kind ≢ ticker t
stop_ticker_silences s drained t x new_now fired w ran i k =
    let live =
      All-In (λ e. is_cancelled (stop_ticker s t) e ≡ false) x fired
        (collect_due_sound (stop_ticker s t) drained new_now fired w ran).2 i in
    cc (stop_ticker-stopped s t, not_stopped (stop_ticker s t) x t k live)

abbrev pub Ran : ℕ → List ℕ → Type 0
Ran f [] = ⊥
Ran f (g ∷ gs) = (f ≡ g) ⊎ Ran f gs

Ran-add_callback : (f : ℕ) (k : Kind) (gs : List ℕ) → Ran f gs → Ran f (add_callback k gs)
Ran-add_callback f (ticker t) gs h = h
Ran-add_callback f (after_func g) gs h = inr h
Ran-add_callback f (after c) gs h = h

Ran-callbacks :
    (f : ℕ) (x : Entry) (fired : List Entry)
    → x.kind ≡ after_func f
    → In x fired
    → Ran f (callbacks fired)
Ran-callbacks f x [] k i = i
Ran-callbacks f x (e ∷ es) k (inl same) =
    subst (λ c. Ran f (add_callback c (callbacks es))) (sym k ∙ ap (λ y. y.kind) same) (inl refl)
Ran-callbacks f x (e ∷ es) k (inr i) =
    Ran-add_callback f e.kind (callbacks es) (Ran-callbacks f x es k i)

Ran-append : (f : ℕ) (gs hs : List ℕ) → Ran f hs → Ran f (gs ++ hs)
Ran-append f [] hs h = h
Ran-append f (g ∷ gs) hs h = inr (Ran-append f gs hs h)

pub live-after_func :
    (s : Scheduler) (x : Entry) (f : ℕ)
    → x.kind ≡ after_func f
    → s.dead x.ref ≡ false
    → is_cancelled s x ≡ false
unfolding is_cancelled
live-after_func s x f k h = ground arith

cancel_reports : (s : Scheduler) (x : Entry) → (cancel s x).1 ≡ not (s.dead x.ref)
unfolding cancel
cancel_reports s x = ground arith

-- A callback that is queued, not stopped and due is started by Advance, and then its timer's Stop still
-- returns true: firing leaves no mark on the entry.
pub stop_after_firing :
    (s : Scheduler) (d : ℤ) (x : Entry) (f : ℕ)
    → IsWellFormed s
    → In x s.entries
    → x.kind ≡ after_func f
    → s.dead x.ref ≡ false
    → x.deadline ≤ℤ s.now +ℤ d
    → (result : Scheduler) × (advance s d ≡ some result)
      × Ran f result.launched
      × ((cancel result x).1 ≡ true)
stop_after_firing s d x f w i k alive due =
    let (result, drained, fired, adv, ran, _, _, dead, _, launched) = advance_total s d w in
    let in_fired =
      collect_due_complete s drained (s.now +ℤ d) fired w ran x i (live-after_func s x f k alive)
        due in
    (
      result,
      adv,
      subst (Ran f) (sym launched)
          (Ran-append f s.launched (callbacks fired) (Ran-callbacks f x fired k in_fired)),
      cancel_reports result x ∙ ap (λ m. not (m x.ref)) dead ∙ ap not alive,
    )

-- Reset marks the old entry stopped, queues a new one of the same kind at the time of the clock plus the
-- duration, and returns whether the old one was not marked.
reset_timer_lem :
    (s : Scheduler) (x : Entry) (d : ℤ)
    → let (s', fresh, was_active) = reset_timer s x d in
      (s'.dead x.ref ≡ true)
      × In fresh s'.entries
      × (fresh.kind ≡ x.kind)
      × (fresh.deadline ≡ s.now +ℤ d)
      × (was_active ≡ not (s.dead x.ref))
unfolding reset_timer schedule
reset_timer_lem s x d = (ground arith, In-heap_push_self _ s.entries, refl, refl, refl)
