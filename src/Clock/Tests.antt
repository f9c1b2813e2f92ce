-- ===== src/Clock/Tests.antt =====
-- A clock at 100 with a ticker of period 10 and a callback 25 later, run and stopped in several ways.
use cli_toolkit.Base.{true, false, [], ◌∷◌, ◌++◌, some, ◌≡◌, refl, inl, inr, List, All, arith}
use cli_toolkit.Base.Int.{pos, ◌+ℤ◌, ◌≤ℤ◌, ◌<ℤ◌}
use cli_toolkit.Clock.{
  Entry, ticker, after_func, Scheduler, less, heap_push, new_test_clock, schedule, add_ticker,
  new_ticker, add_after_func, stop_ticker, cancel, is_cancelled, put_back, reinsert, drain, backlog,
  collect_due, advance,
}
use cli_toolkit.Clock.Order.{IsSorted, In}
use cli_toolkit.Clock.Drain.{IsWellFormed, popped}
use cli_toolkit.Clock.Ticks.{after_ticks, Tick}
use cli_toolkit.Clock.Advance.{
  collect_due_sound, collect_due_complete, collect_due_ticks, advance_total, callbacks,
}
use cli_toolkit.Clock.Liveness.{run_advances, add_after_func_starts}
use cli_toolkit.Clock.Invariant.{new_test_clock-IsWellFormed}
use cli_toolkit.Clock.Timers.{cancel_silences, stop_after_firing, Ran}
use cli_toolkit.Clock.Invariant.{
  Reach, here, then_step, tick_every, call_after, stop, stop_tick, Reach-IsWellFormed,
}

abbrev start : Scheduler
start = new_test_clock (pos 100)

abbrev ticking : Scheduler
ticking = (add_ticker start (pos 10)).0

abbrev both : Scheduler
both = (add_after_func ticking (pos 25) 7).0

abbrev tick_entry : Entry
tick_entry = record { deadline = pos 110; id = 1; kind = ticker 0; ref = 1 }

abbrev next_entry : Entry
next_entry = record { deadline = pos 120; id = 3; kind = ticker 0; ref = 3 }

abbrev last_entry : Entry
last_entry = record { deadline = pos 130; id = 4; kind = ticker 0; ref = 4 }

abbrev call_entry : Entry
call_entry = record { deadline = pos 125; id = 2; kind = after_func 7; ref = 2 }

queue_of_both : both.entries ≡ tick_entry ∷ call_entry ∷ []
unfolding new_test_clock add_ticker add_after_func schedule heap_push less ◌+ℤ◌
queue_of_both = refl

started : new_ticker start (pos 10) ≡ some (ticking, 0)
unfolding new_ticker add_ticker new_test_clock
started = refl

Reach-ticking : Reach start ticking
Reach-ticking = then_step here (tick_every (pos 10) 0 started)

Reach-both : Reach start both
Reach-both = then_step Reach-ticking (call_after (pos 25) 7)

Reach-IsWellFormed_example : IsWellFormed both
Reach-IsWellFormed_example = Reach-IsWellFormed (pos 100) both Reach-both

both-IsWellFormed : IsWellFormed both
both-IsWellFormed = Reach-IsWellFormed (pos 100) both Reach-both

-- The ticks at 110 and 120 are taken out and the ticker is put back.
abbrev after_two : Scheduler
after_two =
    reinsert (popped (reinsert (popped both (call_entry ∷ [])) tick_entry) (call_entry ∷ []))
      next_entry

collected : collect_due both (pos 121) ≡ some (after_two, tick_entry ∷ next_entry ∷ [])
unfolding new_test_clock add_ticker add_after_func schedule heap_push less ◌+ℤ◌ collect_due backlog
    drain is_cancelled put_back
collected = refl

collect_due_sound_example :
    IsSorted (tick_entry ∷ next_entry ∷ [])
    × All (λ e. e.deadline ≤ℤ pos 121) (tick_entry ∷ next_entry ∷ [])
    × All (λ e. is_cancelled both e ≡ false) (tick_entry ∷ next_entry ∷ [])
collect_due_sound_example =
    collect_due_sound both after_two (pos 121) (tick_entry ∷ next_entry ∷ []) both-IsWellFormed
      collected

collect_due_complete_example : In tick_entry (tick_entry ∷ next_entry ∷ [])
unfolding new_test_clock add_ticker add_after_func schedule heap_push less ◌+ℤ◌ is_cancelled
collect_due_complete_example =
    collect_due_complete both after_two (pos 121) (tick_entry ∷ next_entry ∷ []) both-IsWellFormed
      collected tick_entry (inl refl) refl (omega arith)

collect_due_ticks_example : Tick (tick_entry ∷ next_entry ∷ []) 0 (after_ticks (pos 110) (pos 10) 1)
unfolding new_test_clock add_ticker add_after_func schedule heap_push less ◌+ℤ◌
collect_due_ticks_example =
    collect_due_ticks both after_two (pos 121) (tick_entry ∷ next_entry ∷ []) both-IsWellFormed
      collected 0 1 (pos 110) (pos 10) tick_entry (inl refl, refl, refl, refl, refl, refl)
      (omega arith)

advance_total_example :
    (result : Scheduler) × (drained : Scheduler) × (fired : List Entry) × (advance both (pos 30)
      ≡ some result)
    × (collect_due both (both.now +ℤ pos 30) ≡ some (drained, fired))
    × (result.now ≡ both.now +ℤ pos 30)
    × All (λ e. both.now +ℤ pos 30 <ℤ e.deadline) result.entries
    × (result.dead ≡ both.dead)
    × (result.tickers ≡ both.tickers)
    × (result.launched ≡ both.launched ++ callbacks fired)
advance_total_example = advance_total both (pos 30) both-IsWellFormed

-- The callback is stopped, and the ticker goes on.
abbrev without_call : Scheduler
without_call = (cancel both call_entry).0

without_call-IsWellFormed : IsWellFormed without_call
unfolding new_test_clock add_ticker add_after_func schedule
without_call-IsWellFormed =
    Reach-IsWellFormed (pos 100) without_call (then_step Reach-both (stop call_entry (omega arith)))

abbrev after_skip : Scheduler
after_skip =
    popped
      (reinsert
        (popped (reinsert (popped without_call (call_entry ∷ [])) tick_entry) (call_entry ∷ []))
        next_entry)
      (last_entry ∷ [])

cancel_silences_example : ¬ In call_entry (tick_entry ∷ next_entry ∷ [])
unfolding new_test_clock add_ticker add_after_func schedule heap_push less ◌+ℤ◌ collect_due backlog
    drain is_cancelled put_back cancel
cancel_silences_example =
    cancel_silences both after_skip call_entry (pos 126) (tick_entry ∷ next_entry ∷ [])
      without_call-IsWellFormed refl

-- The ticker is stopped, and the callback runs.
abbrev without_ticks : Scheduler
without_ticks = stop_ticker both 0

without_ticks-IsWellFormed : IsWellFormed without_ticks
without_ticks-IsWellFormed =
    Reach-IsWellFormed (pos 100) without_ticks (then_step Reach-both (stop_tick 0))

stop_after_firing_example :
    (result : Scheduler) × (advance both (pos 30) ≡ some result)
    × Ran 7 result.launched
    × ((cancel result call_entry).1 ≡ true)
unfolding new_test_clock add_ticker add_after_func schedule heap_push less ◌+ℤ◌
stop_after_firing_example =
    stop_after_firing both (pos 30) call_entry 7 both-IsWellFormed (inr (inl refl)) refl refl
      (omega arith)

add_after_func_starts_example :
    (result : Scheduler) × (run_advances (pos 10 ∷ pos 20 ∷ []) (add_after_func start (pos 25) 7).0
      ≡ some result)
    × Ran 7 result.launched
unfolding new_test_clock
add_after_func_starts_example =
    add_after_func_starts start (pos 25) 7 (pos 10 ∷ pos 20 ∷ [])
      (new_test_clock-IsWellFormed (pos 100)) (omega arith) (unfold ◌+ℤ◌ in omega arith)
