-- ===== src/Clock/Ticks.antt =====
-- A running ticker through one Advance: each of its periods that ends in time fires.
use cli_toolkit.Base.{
  ℕ, zero, suc, false, List, ◌∷◌, ◌≡◌, refl, sym, ap, ◌∙◌, subst, inl, inr, arith, All,
}
use Prim.Native.Nat.{◌%◌, ◌^◌}
use cli_toolkit.Base.Int.{ℤ, pos, ◌+ℤ◌, +ℤ_parts, ◌≤ℤ◌, ◌<ℤ◌}
use cli_toolkit.Clock.{Entry, ticker, Scheduler, is_cancelled, put_back, reinsert, schedule}
use cli_toolkit.Clock.Order.{In, All-In, In-heap_push_self}
use cli_toolkit.Clock.Drain.{
  IsTimed, IsWellFormed, popped, popped-IsTimed, popped-IsWellFormed, put_back-IsWellFormed, Drains,
  empty, wait, skip, emit,
}
use cli_toolkit.Clock.Rounds.{emitted-SameStores, Drains-left}
use cli_toolkit.Clock.Sequence.{In-put_back, not_both}

-- The deadline after `k` more periods.
abbrev pub after_ticks : ℤ → ℤ → ℕ → ℤ
after_ticks d period zero = d
after_ticks d period (suc k) = after_ticks (d +ℤ period) period k

le-after_ticks : (d period : ℤ) (k : ℕ) → pos 0 <ℤ period → d ≤ℤ after_ticks d period k
le-after_ticks d period zero p = omega arith
le-after_ticks d period (suc k) p =
    omega (arith, le-after_ticks (d +ℤ period) period k p, +ℤ_parts d period)

-- A ticker's live entry of the queue, with the ticker's number, its deadline and its period.
abbrev pub Running : Scheduler → ℕ → ℤ → ℤ → Entry → Type 0
Running s t d period x =
    In x s.entries
    × (x.kind ≡ ticker t)
    × (x.deadline ≡ d)
    × (s.dead x.ref ≡ false)
    × ((s.tickers t).stopped ≡ false)
    × ((s.tickers t).period ≡ period)

-- What fires of ticker `t` at time `at`.
abbrev pub Tick : List Entry → ℕ → ℤ → Type 0
Tick fired t at = (y : Entry) × In y fired × (y.kind ≡ ticker t) × (y.deadline ≡ at)

is_cancelled-Running :
    (s : Scheduler) (t : ℕ) (d period : ℤ) (x : Entry)
    → Running s t d period x
    → is_cancelled s x ≡ false
unfolding is_cancelled
is_cancelled-Running s t d period x (_, k, _, alive, on, _) = ground arith

-- The entry that a firing ticker leaves behind.
Running-put_back :
    (s : Scheduler) (t : ℕ) (d period : ℤ)
    → IsWellFormed s
    → (s.tickers t).stopped ≡ false
    → (s.tickers t).period ≡ period
    → (x : Entry) × Running (put_back s d (ticker t)) t (d +ℤ period) period x
Running-put_back s t d period w on every =
    unfold put_back schedule in
    (
      record {
        deadline = d +ℤ (s.tickers t).period;
        id = suc s.next_id % 2 ^ 64;
        kind = ticker t;
        ref = suc s.next_id;
      },
      (
        In-heap_push_self _ s.entries,
        refl,
        ap (λ p. d +ℤ p) every,
        w.fresh (suc s.next_id) (omega arith),
        on,
        every,
      ),
    )

Running-popped :
    (s : Scheduler) (rest : List Entry) (t : ℕ) (d period : ℤ) (x : Entry)
    → Running s t d period x
    → In x rest
    → Running (popped s rest) t d period x
Running-popped s rest t d period x run i = (i, run.1, run.2, run.3, run.4, run.5)

Running-reinsert :
    (s : Scheduler) (rest : List Entry) (top : Entry) (t : ℕ) (d period : ℤ) (x : Entry)
    → Running s t d period x
    → In x rest
    → Running (reinsert (popped s rest) top) t d period x
Running-reinsert s rest top t d period x run i =
    let (_, dead, tickers, _, _) = emitted-SameStores s rest top in
    (
      In-put_back x (popped s rest) top.deadline top.kind i,
      run.1,
      run.2,
      ap (λ f. f x.ref) dead ∙ run.3,
      ap (λ f. (f t).stopped) tickers ∙ run.4,
      ap (λ f. (f t).period) tickers ∙ run.5,
    )

Running-emitted :
    (s : Scheduler) (rest : List Entry) (top : Entry) (t : ℕ) (d period : ℤ)
    → IsWellFormed (popped s rest)
    → Running s t d period top
    → (x : Entry) × Running (reinsert (popped s rest) top) t (d +ℤ period) period x
Running-emitted s rest top t d period w run =
    subst
      (λ k.
        (x : Entry) × Running (put_back (popped s rest) top.deadline k) t (d +ℤ period) period x)
      (sym run.1)
      (subst
        (λ at.
          (x : Entry) × Running (put_back (popped s rest) at (ticker t)) t (d +ℤ period) period x)
        (sym run.2) (Running-put_back (popped s rest) t d period w run.4 run.5))

period_pos :
    (s : Scheduler) (t : ℕ) (d period : ℤ) (x : Entry)
    → IsWellFormed s
    → Running s t d period x
    → pos 0 <ℤ period
period_pos s t d period x w run =
    subst (λ p. pos 0 <ℤ p) run.5
      (subst (IsTimed s) run.1 (All-In (λ y. IsTimed s y.kind) x s.entries w.timed run.0)).1

too_early :
    (n : ℤ) (s : Scheduler) (t k : ℕ) (d period : ℤ) (x : Entry)
    → IsWellFormed s
    → Running s t d period x
    → All (λ y. n <ℤ y.deadline) s.entries
    → after_ticks d period k ≤ℤ n
    → ⊥
too_early n s t k d period x w run late h =
    not_both d n (subst (λ y. n <ℤ y) run.2 (All-In (λ y. n <ℤ y.deadline) x s.entries late run.0))
      (omega (arith, le-after_ticks d period k (period_pos s t d period x w run)))

one_more :
    (fired : List Entry) (t : ℕ) (at : ℤ) (top : Entry) → Tick fired t at → Tick (top ∷ fired) t at
one_more fired t at top (y, i, k, e) = (y, inr i, k, e)

-- Of a running ticker each time fires that lies in the span of the rounds: its first deadline and
-- every whole number of periods after it.
pub Drains-ticks :
    {n : ℤ} {s s' : Scheduler} {fired : List Entry} (t k : ℕ) (d period : ℤ) (x : Entry)
    → Drains n s fired s'
    → IsWellFormed s
    → Running s t d period x
    → after_ticks d period k ≤ℤ n
    → Tick fired t (after_ticks d period k)
Drains-ticks t k d period x (empty e) w run h = absurd (subst (In x) e run.0)
Drains-ticks {n = n} t k d period x (wait {s = s} top rest e test) w run h =
    absurd (too_early n s t k d period x w run (Drains-left {n = n} (wait top rest e test) w) h)
Drains-ticks t k d period x (skip {s = s} top rest e test c r) w run h =
    elim (subst (In x) e run.0) [
      | inl same ↦ cc (c, is_cancelled-Running s t d period x run, ap (is_cancelled s) same)
      | inr i ↦
          Drains-ticks t k d period x r (popped-IsWellFormed s top rest w e).0
            (Running-popped s rest t d period x run i) h
    ]
Drains-ticks t zero d period x (emit {s = s} top rest e test c r) w run h =
    elim (subst (In x) e run.0) [
      | inl same ↦ (x, inl same, run.1, run.2)
      | inr i ↦
          let (pw, timed) = popped-IsWellFormed s top rest w e in
          one_more _ t _ top (
            Drains-ticks t zero d period x r
              (put_back-IsWellFormed (popped s rest) top.deadline top.kind pw
                (popped-IsTimed s rest top.kind timed))
              (Running-reinsert s rest top t d period x run i) h)
    ]
Drains-ticks t (suc k) d period x (emit {s = s} top rest e test c r) w run h =
    let (pw, timed) = popped-IsWellFormed s top rest w e in
    let w' =
      put_back-IsWellFormed (popped s rest) top.deadline top.kind pw
        (popped-IsTimed s rest top.kind timed) in
    elim (subst (In x) e run.0) [
      | inl same ↦
          let (x', run') =
            Running-emitted s rest top t d period pw (subst (Running s t d period) same run) in
          one_more _ t _ top (Drains-ticks t k (d +ℤ period) period x' r w' run' h)
      | inr i ↦ one_more _ t _ top (
          Drains-ticks t (suc k) d period x r w' (Running-reinsert s rest top t d period x run i) h)
    ]
