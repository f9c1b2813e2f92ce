-- ===== src/Clock/Advance.antt =====
-- `Advance` as a whole: the loop's results about the fuel that it is run on, and the sends and calls.
use cli_toolkit.Base.{
  ℕ, suc, false, List, [], ◌∷◌, ◌++◌, append_assoc, append-nil, Option, some, ◌≡◌, refl, sym, ap,
  ◌∙◌, subst, arith, All,
}
use cli_toolkit.Base.Int.{ℤ, ◌+ℤ◌, ◌≤ℤ◌, ◌<ℤ◌}
use cli_toolkit.Clock.{
  Entry, Kind, ticker, after_func, after, Scheduler, is_cancelled, backlog, collect_due, deliver,
  fire, fire_all, advance,
}
use cli_toolkit.Clock.Order.{IsSorted, In}
use cli_toolkit.Clock.Drain.{IsWellFormed, Drains, drain-Drains}
use cli_toolkit.Clock.Rounds.{SameStores, Drains-SameStores, Drains-live, Drains-due, Drains-left}
use cli_toolkit.Clock.Sequence.{Drains-IsSorted, Drains-complete, Drains-waiting}
use cli_toolkit.Clock.Ticks.{after_ticks, Running, Tick, Drains-ticks}

-- In a well-formed state the loop ends, well-formed, with nothing left in the queue that is due.
pub collect_due_total :
    (s : Scheduler) (new_now : ℤ)
    → IsWellFormed s
    → (drained : Scheduler) × (fired : List Entry) × (collect_due s new_now ≡ some (drained, fired))
      × IsWellFormed drained
      × All (λ e. new_now <ℤ e.deadline) drained.entries
collect_due_total s new_now w =
    let (fired, drained, ran, rounds, w') =
      drain-Drains (suc (backlog new_now s.entries)) new_now s [] w (omega arith) in
    (drained, fired, unfold collect_due in ran, w', Drains-left rounds w)

module _ (s drained : Scheduler) (new_now : ℤ) (fired : List Entry) (w : IsWellFormed s)
    (ran : collect_due s new_now ≡ some (drained, fired)) where
  rounds_of : Drains new_now s fired drained
  rounds_of =
      let (fired', drained', ran', rounds, w') =
        drain-Drains (suc (backlog new_now s.entries)) new_now s [] w (omega arith) in
      let same : ◌≡◌ {A = Option (Scheduler × List Entry)} (some (drained', fired'))
          (some (drained, fired)) =
        sym ran' ∙ (unfold collect_due in ran) in
      let pairs : ◌≡◌ {A = Scheduler × List Entry} (drained', fired') (drained, fired) = cc in
      subst (λ p. Drains new_now s p.1 p.0) pairs rounds

  -- What fires is due and not cancelled, and comes in the order of the heap: by deadline, then by number.
  pub collect_due_sound :
      IsSorted fired
      × All (λ e. e.deadline ≤ℤ new_now) fired
      × All (λ e. is_cancelled s e ≡ false) fired
  collect_due_sound = (Drains-IsSorted rounds_of w, Drains-due rounds_of, Drains-live rounds_of)

  module _ (x : Entry) (queued : In x s.entries) where
    -- Every entry of the queue that is due and not cancelled fires.
    pub collect_due_complete : is_cancelled s x ≡ false → x.deadline ≤ℤ new_now → In x fired
    collect_due_complete live due = Drains-complete x rounds_of w queued live due

    -- Every entry of the queue that is not due yet is still queued afterwards, cancelled or not.
    pub collect_due_waiting : new_now <ℤ x.deadline → In x drained.entries
    collect_due_waiting later = Drains-waiting x rounds_of queued later

  -- A running ticker fires at its next deadline and at every whole number of periods after it, up to
  -- the new time.
  pub collect_due_ticks :
      (t k : ℕ) (d period : ℤ) (x : Entry)
      → Running s t d period x
      → after_ticks d period k ≤ℤ new_now
      → Tick fired t (after_ticks d period k)
  collect_due_ticks t k d period x run h = Drains-ticks t k d period x rounds_of w run h

  pub stores_of : SameStores s drained
  stores_of = Drains-SameStores rounds_of

-- The callbacks among the entries, in their order.
abbrev pub add_callback : Kind → List ℕ → List ℕ
add_callback (ticker t) fs = fs
add_callback (after_func f) fs = f ∷ fs
add_callback (after c) fs = fs

abbrev pub callbacks : List Entry → List ℕ
callbacks [] = []
callbacks (e ∷ es) = add_callback e.kind (callbacks es)

deliver-launched :
    (s : Scheduler) (at : ℤ) (k : Kind) (fs : List ℕ)
    → (deliver s at k).launched ++ fs ≡ s.launched ++ add_callback k fs
unfolding deliver
deliver-launched s at (ticker t) fs = refl
deliver-launched s at (after_func f) fs = append_assoc s.launched (f ∷ []) fs
deliver-launched s at (after c) fs = refl

-- What firing leaves alone.
abbrev pub SameRest : Scheduler → Scheduler → Type 0
SameRest s s' =
    (s'.now ≡ s.now)
    × (s'.entries ≡ s.entries)
    × (s'.dead ≡ s.dead)
    × (s'.tickers ≡ s.tickers)
    × (s'.next_id ≡ s.next_id)
    × (s'.next_ticker ≡ s.next_ticker)

deliver-SameRest : (s : Scheduler) (at : ℤ) (k : Kind) → SameRest s (deliver s at k)
unfolding deliver
deliver-SameRest s at (ticker t) = (refl, refl, refl, refl, refl, refl)
deliver-SameRest s at (after_func f) = (refl, refl, refl, refl, refl, refl)
deliver-SameRest s at (after c) = (refl, refl, refl, refl, refl, refl)

pub fire_all-SameRest : (s : Scheduler) (es : List Entry) → SameRest s (fire_all s es)
unfolding fire_all
fire_all-SameRest s [] = (refl, refl, refl, refl, refl, refl)
fire_all-SameRest s (e ∷ es) =
    let (a, b, c, d, n, k) = fire_all-SameRest (fire s e) es in
    let (a', b', c', d', n', k') = deliver-SameRest s e.deadline e.kind in
    (a ∙ a', b ∙ b', c ∙ c', d ∙ d', n ∙ n', k ∙ k')

fire_all-launched :
    (s : Scheduler) (es : List Entry) → (fire_all s es).launched ≡ s.launched ++ callbacks es
unfolding fire_all
fire_all-launched s [] = sym (append-nil s.launched)
fire_all-launched s (e ∷ es) =
    fire_all-launched (fire s e) es ∙ deliver-launched s e.deadline e.kind (callbacks es)

-- In a well-formed state Advance ends. The clock shows the new time, nothing in the queue is due any
-- more, no mark of a stopped timer or ticker has changed, and the callbacks started are those of the
-- entries collected, in their order.
pub advance_total :
    (s : Scheduler) (d : ℤ)
    → IsWellFormed s
    → (result : Scheduler) × (drained : Scheduler) × (fired : List Entry) × (advance s d
        ≡ some result)
      × (collect_due s (s.now +ℤ d) ≡ some (drained, fired))
      × (result.now ≡ s.now +ℤ d)
      × All (λ e. s.now +ℤ d <ℤ e.deadline) result.entries
      × (result.dead ≡ s.dead)
      × (result.tickers ≡ s.tickers)
      × (result.launched ≡ s.launched ++ callbacks fired)
advance_total s d w =
    let (drained, fired, ran, _, left) = collect_due_total s (s.now +ℤ d) w in
    let moved : Scheduler = record drained { now = s.now +ℤ d } in
    let (at, queue, dead, tickers, _, _) = fire_all-SameRest moved fired in
    let (_, dead', tickers', _, launched') = stores_of s drained (s.now +ℤ d) fired w ran in
    (
      fire_all moved fired,
      drained,
      fired,
      unfold advance in ground arith,
      ran,
      at,
      subst (All (λ e. s.now +ℤ d <ℤ e.deadline)) (sym queue) left,
      dead ∙ dead',
      tickers ∙ tickers',
      fire_all-launched moved fired ∙ ap (λ l. l ++ callbacks fired) launched',
    )
