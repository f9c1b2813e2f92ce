-- ===== src/Clock.antt =====
-- clock/clock.go and clock/scheduler.go: `TestClock` with its scheduler. Times and durations are
-- integers (nanoseconds); the mutex is dropped, and each method is one step: what others do between collecting and
-- firing, when Advance has let go of the lock, is not modelled.
-- Pointers are numbers: entries, ticker states and channels are told apart by the order in which
-- they were made, and what the code reaches through them stands in stores of the state.
mod Tests
pub mod Order
pub mod Drain
pub mod Rounds
pub mod Sequence
pub mod Ticks
pub mod Invariant
pub mod Advance
pub mod Timers
pub mod Liveness
use cli_toolkit.Base.{
  ℕ, zero, suc, ◌+◌, ◌-◌, Bool, true, false, not, List, [], ◌∷◌, ◌++◌, Option, none, some, ◌==◌,
  ltb, if◌then◌else◌,
}
use Prim.Native.Nat.{◌%◌, ◌^◌}
use cli_toolkit.Base.Int.{ℤ, pos, pos_part, neg_part, ◌+ℤ◌, ltb_ℤ, eqb_ℤ}

-- entryKind with the fields that belong to each kind: the ticker's state, the callback, the channel.
pub data Kind : Type 0 where
  ticker : ℕ → Kind
  after_func : ℕ → Kind
  after : ℕ → Kind

-- schedEntry. `ref` is the entry's identity, and `id` its number in 64 bits. The field `index`, which
-- only container/heap maintains, is left out; the mutable field `dead` stands in the scheduler's store.
pub record Entry : Type 0 where
  pub deadline : ℤ
  pub id : ℕ
  pub kind : Kind
  pub ref : ℕ

-- tickerState
pub record TickerState : Type 0 where
  pub stopped : Bool
  pub ch : ℕ
  pub period : ℤ

-- scheduler, with the clock's time. `entries` lists the heap in the order in which heap.Pop yields it;
-- `chans` holds what is buffered in each channel of capacity 1; `launched` the callbacks started so far.
pub record Scheduler : Type 0 where
  pub now : ℤ
  pub next_id : ℕ
  pub entries : List Entry
  pub dead : ℕ → Bool
  pub tickers : ℕ → TickerState
  pub next_ticker : ℕ
  pub chans : ℕ → Option ℤ
  pub next_chan : ℕ
  pub launched : List ℕ

-- One cell of a store is overwritten.
abbrev pub store {ℓ} : {A : Type ℓ} → (ℕ → A) → ℕ → A → ℕ → A
store f k a j = if j == k then a else f j

-- schedHeap.Less
unfoldable pub less : Entry → Entry → Bool
less a b = if eqb_ℤ a.deadline b.deadline then ltb a.id b.id else ltb_ℤ a.deadline b.deadline

-- heap.Push, on the list of what heap.Pop yields.
unfoldable pub heap_push : Entry → List Entry → List Entry
unfolding less
heap_push e [] = e ∷ []
heap_push e (x ∷ xs) = if less e x then e ∷ x ∷ xs else x ∷ heap_push e xs

-- NewTestClock, with newScheduler
unfoldable pub new_test_clock : ℤ → Scheduler
new_test_clock initial = record {
  now = initial;
  next_id = 0;
  entries = [];
  dead = λ _. false;
  tickers = λ _. record { stopped = false; ch = 0; period = pos 0 };
  next_ticker = 0;
  chans = λ _. none;
  next_chan = 0;
  launched = [];
}

-- allocID and the new entry that takes the number, pushed on the heap.
unfoldable pub schedule : Scheduler → ℤ → Kind → Scheduler × Entry
schedule s deadline kind =
    let n = suc s.next_id in
    let e : Entry = record { deadline = deadline; id = n % 2 ^ 64; kind = kind; ref = n } in
    (record s { next_id = n; entries = heap_push e s.entries }, e)

-- addTicker: the ticker's state and its channel are made, and the first entry.
unfoldable pub add_ticker : Scheduler → ℤ → Scheduler × ℕ
unfolding schedule
add_ticker s period =
    let t = s.next_ticker in
    let state : TickerState = record { stopped = false; ch = s.next_chan; period = period } in
    let s' = record s {
      tickers = store s.tickers t state;
      next_ticker = suc t;
      chans = store s.chans s.next_chan none;
      next_chan = suc s.next_chan;
    } in
    ((schedule s' (s.now +ℤ period) (ticker t)).0, t)

-- TestClock.NewTicker; `none` is its panic.
unfoldable pub new_ticker : Scheduler → ℤ → Option (Scheduler × ℕ)
unfolding add_ticker
new_ticker s d = if ltb_ℤ (pos 0) d then some (add_ticker s d) else none

-- addAfterFunc; TestClock.AfterFunc returns a timer that refers to the entry.
unfoldable pub add_after_func : Scheduler → ℤ → ℕ → Scheduler × Entry
unfolding schedule
add_after_func s d f = schedule s (s.now +ℤ d) (after_func f)

-- addAfter; TestClock.After returns the entry's channel.
unfoldable pub add_after : Scheduler → ℤ → Scheduler × Entry
unfolding schedule
add_after s d =
    let s' = record s { chans = store s.chans s.next_chan none; next_chan = suc s.next_chan } in
    schedule s' (s.now +ℤ d) (after s.next_chan)

-- stopTicker
unfoldable pub stop_ticker : Scheduler → ℕ → Scheduler
stop_ticker s t = record s { tickers = store s.tickers t (record (s.tickers t) { stopped = true }) }

-- remove
unfoldable pub remove : Scheduler → Entry → Scheduler
remove s e = record s { dead = store s.dead e.ref true }

-- cancel, which is testTimer.Stop
unfoldable pub cancel : Scheduler → Entry → Scheduler × Bool
cancel s e =
    if s.dead e.ref then (s, false) else (record s { dead = store s.dead e.ref true }, true)

-- resetTimer, which is testTimer.Reset: the handle goes over to the entry that is returned.
unfoldable pub reset_timer : Scheduler → Entry → ℤ → Scheduler × Entry × Bool
unfolding schedule
reset_timer s e d =
    let was_active = not (s.dead e.ref) in
    let s' = record s { dead = store s.dead e.ref true } in
    let made = schedule s' (s'.now +ℤ d) e.kind in (made.0, made.1, was_active)

-- The test of the loop for entries that are popped and not fired.
unfoldable pub is_cancelled : Scheduler → Entry → Bool
is_cancelled s e =
    if s.dead e.ref
    then true
    else elim e.kind [ ticker t ↦ (s.tickers t).stopped | after_func f ↦ false | after c ↦ false ]

-- A ticker that fires is put back, a period later.
unfoldable pub put_back : Scheduler → ℤ → Kind → Scheduler
unfolding schedule
put_back s deadline (ticker t) = (schedule s (deadline +ℤ (s.tickers t).period) (ticker t)).0
put_back s deadline (after_func f) = s
put_back s deadline (after c) = s

abbrev pub reinsert : Scheduler → Entry → Scheduler
reinsert s e = put_back s e.deadline e.kind

-- The loop of advance: the state and the entries to fire, or `none` if the fuel runs out.
unfoldable pub drain : ℕ → ℤ → Scheduler → List Entry → Option (Scheduler × List Entry)
drain zero new_now s fires = none
drain (suc fuel) new_now s fires = elim s.entries [
  | [] ↦ some (s, fires)
  | top ∷ rest ↦
      let popped = record s { entries = rest } in
      elim (ltb_ℤ new_now top.deadline) [
        | true ↦ some (s, fires)
        | false ↦ elim (is_cancelled popped top) [
          | true ↦ drain fuel new_now popped fires
          | false ↦ drain fuel new_now (reinsert popped top) (fires ++ top ∷ [])
        ]
      ]
]

-- A send that drops what the buffer has no room for.
unfoldable pub send : (ℕ → Option ℤ) → ℕ → ℤ → ℕ → Option ℤ
send chans c t = elim (chans c) [ none ↦ store chans c (some t) | some v ↦ chans ]

-- One round of the loop that fires.
unfoldable pub deliver : Scheduler → ℤ → Kind → Scheduler
unfolding send
deliver s at (ticker t) = record s { chans = send s.chans (s.tickers t).ch at }
deliver s at (after_func f) = record s { launched = s.launched ++ f ∷ [] }
deliver s at (after c) = record s { chans = send s.chans c at }

abbrev pub fire : Scheduler → Entry → Scheduler
fire s e = deliver s e.deadline e.kind

unfoldable pub fire_all : Scheduler → List Entry → Scheduler
fire_all s [] = s
fire_all s (e ∷ es) = fire_all (fire s e) es

-- How far a deadline lies behind a time, counting both; 0 if it lies ahead.
abbrev pub overdue : ℤ → ℤ → ℕ
overdue new_now d = suc (pos_part new_now + neg_part d) - (pos_part d + neg_part new_now)

-- No entry is popped more often than it is nanoseconds overdue, since a ticker's period is at least 1.
unfoldable pub backlog : ℤ → List Entry → ℕ
backlog new_now [] = 0
backlog new_now (e ∷ es) = overdue new_now e.deadline + backlog new_now es

-- The loop of advance on fuel that is enough.
unfoldable pub collect_due : Scheduler → ℤ → Option (Scheduler × List Entry)
unfolding backlog
collect_due s new_now = drain (suc (backlog new_now s.entries)) new_now s []

-- TestClock.Advance
unfoldable pub advance : Scheduler → ℤ → Option Scheduler
advance s d =
    let new_now = s.now +ℤ d in
    elim (collect_due s new_now) [
      | none ↦ none
      | some (drained, fires) ↦ some (fire_all (record drained { now = new_now }) fires)
    ]

-- TestClock.Set
unfoldable pub set_time : Scheduler → ℤ → Scheduler
set_time s t = record s { now = t }
