-- ===== src/Clock/Invariant.antt =====
-- Every state that a `TestClock` reaches, by any sequence of its operations, is well-formed.
use cli_toolkit.Base.{
  ℕ, suc, ◌<◌, ◌≤◌, true, false, List, [], ◌∷◌, Option, some, none, ◌≡◌, ◌≢◌, refl, sym, ap, ◌∙◌,
  subst, inl, inr, arith, Bool-cases, All,
}
use cli_toolkit.Base.Int.{ℤ, pos, ◌+ℤ◌, ◌<ℤ◌, ltb_ℤ}
use cli_toolkit.Clock.{
  Entry, Kind, ticker, after_func, after, Scheduler, store, new_test_clock, add_ticker, new_ticker,
  add_after_func, add_after, stop_ticker, remove, cancel, reset_timer, collect_due, fire_all,
  advance, set_time,
}
use cli_toolkit.Clock.Order.{IsSorted}
use cli_toolkit.Clock.Advance.{fire_all-SameRest, collect_due_total}
use cli_toolkit.Clock.Drain.{IsTimed, IsWellFormed, schedule-IsWellFormed}

pub new_test_clock-IsWellFormed : (t : ℤ) → IsWellFormed (new_test_clock t)
unfolding new_test_clock
new_test_clock-IsWellFormed t = record {
  sorted = tt;
  timed = tt;
  numbered = tt;
  fresh = λ r h. refl;
}

-- The invariant reads the queue, the numbers and the tickers.
carry :
    (s s' : Scheduler)
    → IsWellFormed s
    → s'.entries ≡ s.entries
    → s'.next_id ≡ s.next_id
    → ((e : Entry) → IsTimed s e.kind → IsTimed s' e.kind)
    → ((r : ℕ) → s.next_id < r → s'.dead r ≡ false)
    → IsWellFormed s'
carry s s' w e n t f = record {
  sorted = subst IsSorted (sym e) w.sorted;
  timed = subst (All (λ x. IsTimed s' x.kind)) (sym e) (each s.entries w.timed);
  numbered =
      subst (λ es. All (λ x. x.ref ≤ s'.next_id) es) (sym e)
        (subst (λ k. All (λ x. x.ref ≤ k) s.entries) (sym n) w.numbered);
  fresh = λ r h. f r (subst (λ k. k < r) n h);
}
  where
    each : (es : List Entry) → All (λ x. IsTimed s x.kind) es → All (λ x. IsTimed s' x.kind) es
    each [] h = tt
    each (x ∷ es) (hx, h) = (t x hx, each es h)

-- The operations on a clock. A handle of a timer stems from the clock, so its number was given out;
-- Reset is for timers, not for a ticker's entry.
pub data Step : Scheduler → Scheduler → Type 0 where
  tick_every : {s s' : Scheduler} (d : ℤ) (t : ℕ) → new_ticker s d ≡ some (s', t) → Step s s'
  call_after : {s : Scheduler} (d : ℤ) (f : ℕ) → Step s (add_after_func s d f).0
  send_after : {s : Scheduler} (d : ℤ) → Step s (add_after s d).0
  stop_tick : {s : Scheduler} (t : ℕ) → Step s (stop_ticker s t)
  stop : {s : Scheduler} (e : Entry) → e.ref ≤ s.next_id → Step s (cancel s e).0
  drop : {s : Scheduler} (e : Entry) → e.ref ≤ s.next_id → Step s (remove s e)
  reset :
      {s : Scheduler} (e : Entry) (d : ℤ)
      → e.ref ≤ s.next_id
      → ((t : ℕ) → e.kind ≢ ticker t)
      → Step s (reset_timer s e d).0
  move : {s s' : Scheduler} (d : ℤ) → advance s d ≡ some s' → Step s s'
  set : {s : Scheduler} (t : ℤ) → Step s (set_time s t)

pub data Reach (s : Scheduler) : Scheduler → Type 0 where
  here : Reach s s
  then_step : {t u : Scheduler} → Reach s t → Step t u → Reach s u

IsTimed-by :
    (s s' : Scheduler)
    → ((t : ℕ)
        → t < s.next_ticker
        → (t < s'.next_ticker) × ((s'.tickers t).period ≡ (s.tickers t).period))
    → (k : Kind) → IsTimed s k
    → IsTimed s' k
IsTimed-by s s' h (ticker t) (made, p) =
    let (made', same) = h t made in (made', subst (λ q. pos 0 <ℤ q) (sym same) p)
IsTimed-by s s' h (after_func f) _ = tt
IsTimed-by s s' h (after c) _ = tt

add_ticker-IsWellFormed :
    (s : Scheduler) (d : ℤ) → IsWellFormed s → pos 0 <ℤ d → IsWellFormed (add_ticker s d).0
unfolding add_ticker
add_ticker-IsWellFormed s d w p =
    let s' = record s {
      tickers =
          store s.tickers s.next_ticker (record { stopped = false; ch = s.next_chan; period = d });
      next_ticker = suc s.next_ticker;
      chans = store s.chans s.next_chan none;
      next_chan = suc s.next_chan;
    } in
    schedule-IsWellFormed s' (s.now +ℤ d) (ticker s.next_ticker)
      (carry s s' w refl refl (λ e. IsTimed-by s s' (λ t h. (omega arith, ground arith)) e.kind)
        w.fresh)
      (omega arith, ground arith)

new_ticker-eq-some :
    (s s' : Scheduler) (d : ℤ) (t : ℕ)
    → new_ticker s d ≡ some (s', t)
    → (pos 0 <ℤ d) × (s' ≡ (add_ticker s d).0)
unfolding new_ticker add_ticker
new_ticker-eq-some s s' d t h = elim (Bool-cases (ltb_ℤ (pos 0) d)) [
  | inl p ↦ (ground arith, ground arith)
  | inr p ↦ absurd (ground arith)
]

mark-IsWellFormed :
    (s : Scheduler) (e : Entry)
    → IsWellFormed s
    → e.ref ≤ s.next_id
    → IsWellFormed (record s { dead = store s.dead e.ref true })
mark-IsWellFormed s e w h =
    carry s (record s { dead = store s.dead e.ref true }) w refl refl
      (λ x. IsTimed-by s (record s { dead = store s.dead e.ref true }) (λ t k. (k, refl)) x.kind)
      (λ r k. ground (arith, w.fresh r))

cancel_gone : (s : Scheduler) (e : Entry) → s.dead e.ref ≡ true → (cancel s e).0 ≡ s
unfolding cancel
cancel_gone s e h = ground arith

cancel_alive :
    (s : Scheduler) (e : Entry)
    → s.dead e.ref ≡ false
    → (cancel s e).0 ≡ record s { dead = store s.dead e.ref true }
unfolding cancel
cancel_alive s e h = ground arith

no_ticker : (s : Scheduler) (k : Kind) → ((t : ℕ) → k ≢ ticker t) → IsTimed s k
no_ticker s (ticker t) h = absurd (h t refl)
no_ticker s (after_func f) h = tt
no_ticker s (after c) h = tt

pub advance_eq :
    (s drained : Scheduler) (d : ℤ) (fired : List Entry)
    → collect_due s (s.now +ℤ d) ≡ some (drained, fired)
    → advance s d ≡ some (fire_all (record drained { now = s.now +ℤ d }) fired)
unfolding advance
advance_eq s drained d fired ran = ground arith

pub some_eq : (a b : Scheduler) → ◌≡◌ {A = Option Scheduler} (some a) (some b) → a ≡ b
some_eq a b e = cc

pub advance-IsWellFormed :
    (s s' : Scheduler) (d : ℤ) → IsWellFormed s → advance s d ≡ some s' → IsWellFormed s'
advance-IsWellFormed s s' d w h =
    let (drained, fired, ran, w', _) = collect_due_total s (s.now +ℤ d) w in
    let moved : Scheduler = record drained { now = s.now +ℤ d } in
    let (_, queue, dead, tickers, n, k) = fire_all-SameRest moved fired in
    let result =
      carry drained (fire_all moved fired) w' queue n
        (λ x.
          IsTimed-by drained (fire_all moved fired)
            (λ t made. (subst (λ m. t < m) (sym k) made, ap (λ ts. (ts t).period) tickers)) x.kind)
        (λ r high. ap (λ m. m r) dead ∙ w'.fresh r high) in
    subst IsWellFormed
      (some_eq (fire_all moved fired) s' (sym (advance_eq s drained d fired ran) ∙ h)) result

-- Every operation keeps the invariant.
pub Step-IsWellFormed : {s s' : Scheduler} → Step s s' → IsWellFormed s → IsWellFormed s'
Step-IsWellFormed (tick_every {s = s} {s' = s'} d t h) w =
    let (p, same) = new_ticker-eq-some s s' d t h in
    subst IsWellFormed (sym same) (add_ticker-IsWellFormed s d w p)
Step-IsWellFormed (call_after {s = s} d f) w =
    unfold add_after_func in schedule-IsWellFormed s (s.now +ℤ d) (after_func f) w tt
Step-IsWellFormed (send_after {s = s} d) w =
    let s' = record s { chans = store s.chans s.next_chan none; next_chan = suc s.next_chan } in
    unfold add_after in
    schedule-IsWellFormed s' (s.now +ℤ d) (after s.next_chan)
      (carry s s' w refl refl (λ x. IsTimed-by s s' (λ t k. (k, refl)) x.kind) w.fresh) tt
Step-IsWellFormed (stop_tick {s = s} t) w =
    carry s (stop_ticker s t) w (unfold stop_ticker in refl) (unfold stop_ticker in refl)
      (λ x.
        IsTimed-by s (stop_ticker s t)
          (λ k h. (unfold stop_ticker in h, unfold stop_ticker in ground arith)) x.kind)
      (unfold stop_ticker in w.fresh)
Step-IsWellFormed (stop {s = s} e h) w = elim (Bool-cases (s.dead e.ref)) [
  | inl gone ↦ subst IsWellFormed (sym (cancel_gone s e gone)) w
  | inr alive ↦ subst IsWellFormed (sym (cancel_alive s e alive)) (mark-IsWellFormed s e w h)
]
Step-IsWellFormed (drop {s = s} e h) w = unfold remove in mark-IsWellFormed s e w h
Step-IsWellFormed (reset {s = s} e d h k) w =
    let s' = record s { dead = store s.dead e.ref true } in
    unfold reset_timer in
    schedule-IsWellFormed s' (s.now +ℤ d) e.kind (mark-IsWellFormed s e w h) (no_ticker s' e.kind k)
Step-IsWellFormed (move {s = s} {s' = s'} d h) w = advance-IsWellFormed s s' d w h
Step-IsWellFormed (set {s = s} t) w =
    unfold set_time in
    record { sorted = w.sorted; timed = w.timed; numbered = w.numbered; fresh = w.fresh }

Reach-from : {a b : Scheduler} → Reach a b → IsWellFormed a → IsWellFormed b
Reach-from here w = w
Reach-from (then_step r st) w = Step-IsWellFormed st (Reach-from r w)

-- Every state that a clock reaches from its start is well-formed.
pub Reach-IsWellFormed : (t : ℤ) (s : Scheduler) → Reach (new_test_clock t) s → IsWellFormed s
Reach-IsWellFormed t s r = Reach-from r (new_test_clock-IsWellFormed t)
