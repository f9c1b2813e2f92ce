-- ===== src/Clock/Drain.antt =====
-- The loop of `advance` as a relation, its invariant, and that its fuel is enough.
use cli_toolkit.Base.{
  ℕ, zero, suc, ◌+◌, ◌<◌, ◌≤◌, true, false, List, [], ◌∷◌, ◌++◌, append_assoc, append-nil, Option,
  some, ◌≡◌, refl, sym, ap, ◌∙◌, subst, ◌⊎◌, inl, inr, arith, Bool-cases, All,
}
use Prim.Native.Nat.{◌%◌, ◌^◌}
use cli_toolkit.Base.Int.{ℤ, pos, ◌+ℤ◌, +ℤ_parts, ◌<ℤ◌, ltb_ℤ}
use cli_toolkit.Clock.{
  Entry, Kind, ticker, after_func, after, Scheduler, schedule, is_cancelled, put_back, reinsert,
  drain, overdue, backlog,
}
use cli_toolkit.Clock.Order.{IsSorted, All-heap_push, heap_push-IsSorted, backlog-heap_push}

-- A ticker's entry refers to a ticker that was made, with a period of at least a nanosecond.
abbrev pub IsTimed : Scheduler → Kind → Type 0
IsTimed s (ticker t) = (t < s.next_ticker) × (pos 0 <ℤ (s.tickers t).period)
IsTimed s (after_func f) = Unit
IsTimed s (after c) = Unit

pub record IsWellFormed (s : Scheduler) : Type 0 where
  pub sorted : IsSorted s.entries
  pub timed : All (λ e. IsTimed s e.kind) s.entries
  pub numbered : All (λ e. e.ref ≤ s.next_id) s.entries
  pub fresh : (r : ℕ) → s.next_id < r → s.dead r ≡ false

abbrev pub popped : Scheduler → List Entry → Scheduler
popped s rest = record s { entries = rest }

-- The rounds of the loop, from a state to the one that it leaves, with the entries to fire in order.
pub data Drains (new_now : ℤ) : Scheduler → List Entry → Scheduler → Type 0 where
  empty : {s : Scheduler} → s.entries ≡ [] → Drains new_now s [] s
  wait :
      {s : Scheduler} (top : Entry) (rest : List Entry)
      → s.entries ≡ top ∷ rest
      → ltb_ℤ new_now top.deadline ≡ true
      → Drains new_now s [] s
  skip :
      {s s' : Scheduler} {fired : List Entry} (top : Entry) (rest : List Entry)
      → s.entries ≡ top ∷ rest
      → ltb_ℤ new_now top.deadline ≡ false
      → is_cancelled s top ≡ true
      → Drains new_now (popped s rest) fired s'
      → Drains new_now s fired s'
  emit :
      {s s' : Scheduler} {fired : List Entry} (top : Entry) (rest : List Entry)
      → s.entries ≡ top ∷ rest
      → ltb_ℤ new_now top.deadline ≡ false
      → is_cancelled s top ≡ false
      → Drains new_now (reinsert (popped s rest) top) fired s'
      → Drains new_now s (top ∷ fired) s'

pub is_cancelled-popped :
    (s : Scheduler) (rest : List Entry) (e : Entry)
    → is_cancelled (popped s rest) e ≡ is_cancelled s e
unfolding is_cancelled
is_cancelled-popped s rest e = refl

All-IsTimed :
    (s s' : Scheduler) (es : List Entry)
    → ((k : Kind) → IsTimed s k → IsTimed s' k)
    → All (λ e. IsTimed s e.kind) es
    → All (λ e. IsTimed s' e.kind) es
All-IsTimed s s' [] f h = tt
All-IsTimed s s' (e ∷ es) f (he, h) = (f e.kind he, All-IsTimed s s' es f h)

All-le_suc : (n : ℕ) (es : List Entry) → All (λ e. e.ref ≤ n) es → All (λ e. e.ref ≤ suc n) es
All-le_suc n [] h = tt
All-le_suc n (e ∷ es) (he, h) = (omega arith, All-le_suc n es h)

-- A new entry of a valid kind keeps the invariant.
pub schedule-IsWellFormed :
    (s : Scheduler) (deadline : ℤ) (kind : Kind)
    → IsWellFormed s
    → IsTimed s kind
    → IsWellFormed (schedule s deadline kind).0
unfolding schedule
schedule-IsWellFormed s deadline kind w t = record {
  sorted = heap_push-IsSorted _ s.entries w.sorted;
  timed =
      All-heap_push _ _ s.entries t
        (All-IsTimed s (schedule s deadline kind).0 s.entries (same kind) w.timed);
  numbered = All-heap_push _ _ s.entries (omega arith) (All-le_suc s.next_id s.entries w.numbered);
  fresh = λ r h. w.fresh r (omega arith);
}
  where
    same : Kind → (k : Kind) → IsTimed s k → IsTimed (schedule s deadline kind).0 k
    same j (ticker t) h = h
    same j (after_func f) h = tt
    same j (after c) h = tt

pub popped-IsTimed :
    (s : Scheduler) (rest : List Entry) (k : Kind) → IsTimed s k → IsTimed (popped s rest) k
popped-IsTimed s rest (ticker t) h = h
popped-IsTimed s rest (after_func f) h = tt
popped-IsTimed s rest (after c) h = tt

pub popped-IsWellFormed :
    (s : Scheduler) (top : Entry) (rest : List Entry)
    → IsWellFormed s
    → s.entries ≡ top ∷ rest
    → IsWellFormed (popped s rest) × IsTimed s top.kind
popped-IsWellFormed s top rest w e =
    let so = subst IsSorted e w.sorted in
    let ti = subst (All (λ x. IsTimed s x.kind)) e w.timed in
    let nu = subst (All (λ x. x.ref ≤ s.next_id)) e w.numbered in
    (
      record {
        sorted = so.1;
        timed = All-IsTimed s (popped s rest) rest (popped-IsTimed s rest) ti.1;
        numbered = nu.1;
        fresh = w.fresh;
      },
      ti.0,
    )

pub put_back-IsWellFormed :
    (s : Scheduler) (d : ℤ) (k : Kind)
    → IsWellFormed s
    → IsTimed s k
    → IsWellFormed (put_back s d k)
put_back-IsWellFormed s d (ticker t) w h =
    unfold put_back in schedule-IsWellFormed s (d +ℤ (s.tickers t).period) (ticker t) w h
put_back-IsWellFormed s d (after_func f) w h = unfold put_back in w
put_back-IsWellFormed s d (after c) w h = unfold put_back in w

List-cases :
    (es : List Entry) → (es ≡ []) ⊎ ((top : Entry) × (rest : List Entry) × (es ≡ top ∷ rest))
List-cases [] = inl refl
List-cases (x ∷ xs) = inr (x, xs, refl)

module _ (fuel : ℕ) (new_now : ℤ) (s : Scheduler) (fires : List Entry) where
  drain_empty : s.entries ≡ [] → drain (suc fuel) new_now s fires ≡ some (s, fires)
  unfolding drain
  drain_empty e = ground arith

  module _ (top : Entry) (rest : List Entry) (e : s.entries ≡ top ∷ rest) where
    drain_wait :
        ltb_ℤ new_now top.deadline ≡ true → drain (suc fuel) new_now s fires ≡ some (s, fires)
    unfolding drain
    drain_wait h = ground arith

    drain_skip :
        ltb_ℤ new_now top.deadline ≡ false
        → is_cancelled s top ≡ true
        → drain (suc fuel) new_now s fires ≡ drain fuel new_now (popped s rest) fires
    unfolding drain
    drain_skip h c = ground (arith, is_cancelled-popped s rest top)

    drain_emit :
        ltb_ℤ new_now top.deadline ≡ false
        → is_cancelled s top ≡ false
        → drain (suc fuel) new_now s fires
          ≡ drain fuel new_now (reinsert (popped s rest) top) (fires ++ top ∷ [])
    unfolding drain
    drain_emit h c = ground (arith, is_cancelled-popped s rest top)

-- Each round brings the backlog down: a ticker comes back at least a nanosecond later.
backlog-put_back :
    (new_now : ℤ) (s : Scheduler) (d : ℤ) (k : Kind)
    → IsTimed s k
    → ltb_ℤ new_now d ≡ false
    → backlog new_now (put_back s d k).entries < overdue new_now d + backlog new_now s.entries
backlog-put_back new_now s d (ticker t) (_, p) h =
    unfold put_back schedule in
    ground (
      arith,
      backlog-heap_push new_now
          (record {
            deadline = d +ℤ (s.tickers t).period;
            id = suc s.next_id % 2 ^ 64;
            kind = ticker t;
            ref = suc s.next_id;
          })
          s.entries,
      +ℤ_parts d (s.tickers t).period,
    )
backlog-put_back new_now s d (after_func f) t h = unfold put_back in ground arith
backlog-put_back new_now s d (after c) t h = unfold put_back in ground arith

backlog_cons :
    (new_now : ℤ) (e : Entry) (es : List Entry)
    → backlog new_now (e ∷ es) ≡ overdue new_now e.deadline + backlog new_now es
unfolding backlog
backlog_cons new_now e es = refl

overdue_pos : (new_now d : ℤ) → ltb_ℤ new_now d ≡ false → 0 < overdue new_now d
overdue_pos new_now d h = ground arith

-- In a well-formed state the loop ends within its fuel, and what it does are the rounds of `Drains`.
pub drain-Drains :
    (fuel : ℕ) (new_now : ℤ) (s : Scheduler) (fires : List Entry)
    → IsWellFormed s
    → backlog new_now s.entries < fuel
    → (fired : List Entry) × (s' : Scheduler) × (drain fuel new_now s fires
        ≡ some (s', fires ++ fired))
      × Drains new_now s fired s'
      × IsWellFormed s'
drain-Drains zero new_now s fires w h = absurd (omega arith)
drain-Drains (suc fuel) new_now s fires w h = elim (List-cases s.entries) [
  | inl e ↦ ([], s, drain_empty fuel new_now s fires e ∙ rest_nil, empty e, w)
  | inr (top, rest, e) ↦
      let (pw, timed) = popped-IsWellFormed s top rest w e in
      let load = ap (backlog new_now) e ∙ backlog_cons new_now top rest in
      elim (Bool-cases (ltb_ℤ new_now top.deadline)) [
        | inl later ↦ (
          [],
          s,
          drain_wait fuel new_now s fires top rest e later ∙ rest_nil,
          wait top rest e later,
          w,
        )
        | inr due ↦ elim (Bool-cases (is_cancelled s top)) [
          | inl off ↦
              let (fired, s', ran, rounds, w') =
                drain-Drains fuel new_now (popped s rest) fires pw
                  (omega (arith, load, overdue_pos new_now top.deadline due)) in
              (
                fired,
                s',
                drain_skip fuel new_now s fires top rest e due off ∙ ran,
                skip top rest e due off rounds,
                w',
              )
          | inr live ↦
              let (fired, s', ran, rounds, w') =
                drain-Drains fuel new_now (reinsert (popped s rest) top) (fires ++ top ∷ [])
                  (put_back-IsWellFormed (popped s rest) top.deadline top.kind pw
                    (popped-IsTimed s rest top.kind timed))
                  (omega (
                    arith,
                    load,
                    backlog-put_back new_now (popped s rest) top.deadline top.kind
                        (popped-IsTimed s rest top.kind timed) due,
                  )) in
              (
                top ∷ fired,
                s',
                drain_emit fuel new_now s fires top rest e due live
                    ∙ ran
                    ∙ ap (λ fs. some (s', fs)) (append_assoc fires (top ∷ []) fired),
                emit top rest e due live rounds,
                w',
              )
        ]
      ]
]
  where
    rest_nil : ◌≡◌ {A = Option (Scheduler × List Entry)} (some (s, fires)) (some (s, fires ++ []))
    rest_nil = ap (λ fs. some (s, fs)) (sym (append-nil fires))
