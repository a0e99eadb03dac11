-- ===== src/EventQueue/Run.antt =====
-- Proceeding and running the simulation to its end, for callbacks that only add events to the queue.
use astra_network_analytical.Base.{
  ℕ, zero, suc, ◌≤◌, ◌<◌, ◌≡◌, ◌≢◌, ◌∙◌, refl, true, false, List, [], ◌∷◌, ◌++◌, Outcome, ok, fail,
  assertion, arith, >>=-eq-ok, le→leb, All, All-append, map, sym, subst, Bool-cases, Outcome-cases,
  Error, inl, inr,
}
use astra_network_analytical.EventQueue.{
  EventList, Simulation, finished, finished_list, invoke_events, pop_and_invoke, proceed, run,
}
use astra_network_analytical.EventQueue.Invariant.{After, IsOrdered, IsValid, After→IsOrdered}
use astra_network_analytical.EventQueue.Order.{entries, stamped}

module _ {E : Type 0} where
  -- Every entry is strictly later than `t`.
  abbrev pub Later : ℕ → List (ℕ × E) → Type 0
  Later t = All (λ p. t < p.0)

  stamped-Later : (t u : ℕ) (xs : List E) → t < u → Later t (map (λ x. (u, x)) xs)
  stamped-Later t u [] h = tt
  stamped-Later t u (x ∷ xs) h = (h, stamped-Later t u xs h)

  pub entries-Later :
      (t u : ℕ) (ls : List (EventList E)) → t ≤ u → After u ls → Later t (entries ls)
  unfolding entries
  entries-Later t u [] h a = tt
  entries-Later t u (l ∷ ls) h a =
      All-append (λ p. t < p.0) (stamped l) (entries ls)
        (stamped-Later t l.event_time l.events (omega arith))
        (entries-Later t l.event_time ls (omega arith) a.2)

module _ {S E : Type 0} (invoke : E → Simulation S E → Outcome (Simulation S E)) where
  -- What the callbacks are trusted with: they keep the queue valid and do not move the clock.
  abbrev pub IsScheduler : Type 0
  IsScheduler =
      (e : E) (s s' : Simulation S E)
      → IsValid s.queue
      → invoke e s ≡ ok s'
      → IsValid s'.queue × (s'.queue.current_time ≡ s.queue.current_time)

  pub proceed_list :
      (s : Simulation S E) (l : EventList E) (ls : List (EventList E))
      → s.queue.event_queue ≡ l ∷ ls
      → s.queue.current_time ≤ l.event_time
      → proceed invoke s
        ≡ invoke_events invoke l.events
            (record s { queue = record { current_time = l.event_time; event_queue = ls } })
  unfolding proceed
  proceed_list s l ls e v =
      rw (e, pop_and_invoke) (rw (le→leb s.queue.current_time l.event_time v) refl)

  -- Events that run in turn, each on the state that the one before it left, up to the first that
  -- fails, and what comes of it.
  pub data InTurn : List E → Simulation S E → Outcome (Simulation S E) → Type 0 where
    all_ran : (s : Simulation S E) → InTurn [] s (ok s)
    one_ran :
        (e : E) (es : List E) (s t : Simulation S E) (r : Outcome (Simulation S E))
        → invoke e s ≡ ok t
        → InTurn es t r
        → InTurn (e ∷ es) s r
    one_failed :
        (e : E) (es : List E) (s : Simulation S E) (error : Error)
        → invoke e s ≡ fail error
        → InTurn (e ∷ es) s (fail error)

  invoke_events-InTurn :
      (es : List E) (s : Simulation S E) → InTurn es s (invoke_events invoke es s)
  unfolding invoke_events
  invoke_events-InTurn [] s = all_ran s
  invoke_events-InTurn (e ∷ es) s = elim (Outcome-cases (invoke e s)) [
    | inl (t, went) ↦ rw went (one_ran e es s t _ went (invoke_events-InTurn es t))
    | inr (error, stopped) ↦ rw stopped (one_failed e es s error stopped)
  ]

  -- One call of `proceed` on a sequence of timed events: those of the earliest time leave it, and
  -- the call comes to what P says of them and of the state in which they begin.
  abbrev Takes : (List E → Simulation S E → Type 0) → Simulation S E → List (EventList E) → Type 0
  Takes P s q =
      (l : EventList E) × (ls : List (EventList E)) × (entries q ≡ stamped l ++ entries ls)
      × (l.events ≢ [])
      × Later l.event_time (entries ls)
      × (s.queue.current_time ≤ l.event_time)
      × P l.events (record s { queue = record { current_time = l.event_time; event_queue = ls } })

  abbrev pub InvokesEarliest : Simulation S E → List (EventList E) → Type 0
  InvokesEarliest s q = Takes (λ es begun. proceed invoke s ≡ invoke_events invoke es begun) s q

  abbrev pub ProceedsEarliest : Simulation S E → List (EventList E) → Type 0
  ProceedsEarliest s q = Takes (λ es begun. InTurn es begun (proceed invoke s)) s q

  earliest_of_list :
      (s : Simulation S E) (q : List (EventList E))
      → s.queue.event_queue ≡ q
      → IsOrdered s.queue.current_time q
      → finished_list q ≡ false
      → InvokesEarliest s q
  earliest_of_list s [] e v f = cc
  earliest_of_list s (l ∷ ls) e v f = (
    l,
    ls,
    unfold entries in refl,
    v.1,
    entries-Later l.event_time l.event_time ls (omega arith) v.2,
    v.0,
    proceed_list s l ls e v.0,
  )

  pub proceed-invoke_events :
      (s : Simulation S E)
      → IsValid s.queue
      → finished s.queue ≡ false
      → InvokesEarliest s s.queue.event_queue
  proceed-invoke_events s v f = earliest_of_list s s.queue.event_queue refl v f

  -- On a valid queue that is not empty `proceed` meets its assertions and runs exactly the events
  -- of the earliest time, at least one, in turn and in the order of the sequence, each on the state
  -- that the one before it left, from the clock moved to that time and only the later events left
  -- in the queue; its result is that of the last of them, or the error of the first that fails.
  pub proceed-earliest :
      (s : Simulation S E)
      → IsValid s.queue
      → finished s.queue ≡ false
      → ProceedsEarliest s s.queue.event_queue
  proceed-earliest s v f =
      let (l, ls, sequence, some_event, later, in_time, goes) = proceed-invoke_events s v f in
      (
        l,
        ls,
        sequence,
        some_event,
        later,
        in_time,
        subst (InTurn l.events _) (sym goes) (invoke_events-InTurn l.events _),
      )

  module _ (scheduler : IsScheduler) where
    invoke_events-IsValid :
        (es : List E) (s s' : Simulation S E)
        → IsValid s.queue
        → invoke_events invoke es s ≡ ok s'
        → IsValid s'.queue × (s'.queue.current_time ≡ s.queue.current_time)
    unfolding invoke_events
    invoke_events-IsValid [] s s' v h = ground arith
    invoke_events-IsValid (e ∷ es) s s' v h =
        let (t, invoked, rest) = >>=-eq-ok (invoke e s) (invoke_events invoke es) h in
        let (valid, same) = scheduler e s t v invoked in
        let (valid', same') = invoke_events-IsValid es t s' valid rest in (valid', same' ∙ same)

    proceed_list-IsValid :
        (s s' : Simulation S E) (q : List (EventList E))
        → s.queue.event_queue ≡ q
        → IsOrdered s.queue.current_time q
        → proceed invoke s ≡ ok s'
        → IsValid s'.queue × (s.queue.current_time ≤ s'.queue.current_time)
    proceed_list-IsValid s s' [] e v h =
        absurd
          (unfold proceed in (let h' : fail assertion ≡ ok s' = rw (e, pop_and_invoke) at h in cc))
    proceed_list-IsValid s s' (l ∷ ls) e v h =
        let (valid, same) =
          invoke_events-IsValid l.events _ s' (After→IsOrdered l.event_time ls v.2)
            (rw (proceed_list s l ls e v.0) at h) in
        (valid, omega arith)

    -- The clock never runs backwards, and the queue stays valid.
    pub proceed-IsValid :
        (s s' : Simulation S E)
        → IsValid s.queue
        → proceed invoke s ≡ ok s'
        → IsValid s'.queue × (s.queue.current_time ≤ s'.queue.current_time)
    proceed-IsValid s s' v h = proceed_list-IsValid s s' s.queue.event_queue refl v h

    -- With callbacks that keep the queue valid and do not move the clock, a run from a valid queue
    -- that ends has emptied the queue, which is valid, at a time no earlier than it began.
    pub run-IsValid :
        (fuel : ℕ) (s s' : Simulation S E)
        → IsValid s.queue
        → run invoke fuel s ≡ ok s'
        → IsValid s'.queue
          × (s.queue.current_time ≤ s'.queue.current_time)
          × (finished s'.queue ≡ true)
    unfolding run
    run-IsValid zero s s' v h = ground arith
    run-IsValid (suc fuel) s s' v h = elim (Bool-cases (finished s.queue)) [
      | inl done ↦ ground arith
      | inr more ↦
          let (t, proceeded, rest) =
            >>=-eq-ok (proceed invoke s) (run invoke fuel) (rw (more, run) at h) in
          let (valid, later) = proceed-IsValid s t v proceeded in
          let (valid', later', empty) = run-IsValid fuel t s' valid rest in
          (valid', omega arith, empty)
    ]

  -- A measure that every `proceed` lowers bounds the fuel that a run needs.
  pub run_finishes :
      (P : Simulation S E → Type 0) (measure : Simulation S E → ℕ)
      → ((s : Simulation S E)
          → P s
          → finished s.queue ≡ false
          → (s' : Simulation S E) × (proceed invoke s ≡ ok s') × P s' × (measure s' < measure s))
      → (fuel : ℕ) (s : Simulation S E) → measure s ≤ fuel
      → P s
      → (s' : Simulation S E) × (run invoke fuel s ≡ ok s') × P s' × (finished s'.queue ≡ true)
  unfolding run
  run_finishes P measure step zero s m p = elim (Bool-cases (finished s.queue)) [
    | inl done ↦ (s, rw done refl, p, done)
    | inr more ↦ let (t, _, _, less) = step s p more in absurd (omega arith)
  ]
  run_finishes P measure step (suc fuel) s m p = elim (Bool-cases (finished s.queue)) [
    | inl done ↦ (s, rw (done, run) refl, p, done)
    | inr more ↦
        let (t, proceeded, q, less) = step s p more in
        let (s', ran, r, empty) = run_finishes P measure step fuel t (omega arith) q in
        (s', rw (more, run) (rw proceeded ran), r, empty)
  ]

  -- The loop without fuel, as a relation: `proceed` until the queue is empty or an error stops it.
  pub data Ends : Simulation S E → Outcome (Simulation S E) → Type 0 where
    emptied : (s : Simulation S E) → finished s.queue ≡ true → Ends s (ok s)
    stopped :
        (s : Simulation S E) (e : Error)
        → finished s.queue ≡ false
        → proceed invoke s ≡ fail e
        → Ends s (fail e)
    proceeded :
        (s t : Simulation S E) (r : Outcome (Simulation S E))
        → finished s.queue ≡ false
        → proceed invoke s ≡ ok t
        → Ends t r
        → Ends s r

  -- Where a measure falls with every `proceed` that succeeds, more fuel than its value makes the
  -- run the loop's.
  pub run-Ends :
      (P : Simulation S E → Type 0) (measure : Simulation S E → ℕ)
      → ((s t : Simulation S E)
          → P s
          → finished s.queue ≡ false
          → proceed invoke s ≡ ok t
          → P t × (measure t < measure s))
      → (fuel : ℕ) (s : Simulation S E) → measure s < fuel
      → P s
      → Ends s (run invoke fuel s)
  unfolding run
  run-Ends P measure step zero s m p = absurd (omega arith)
  run-Ends P measure step (suc fuel) s m p = elim (Bool-cases (finished s.queue)) [
    | inl done ↦ rw (done, run) (emptied s done)
    | inr more ↦ elim (Outcome-cases (proceed invoke s)) [
      | inl (t, went) ↦
          let (q, less) = step s t p more went in
          rw (more, run)
            (rw went (proceeded s t _ more went (run-Ends P measure step fuel t (omega arith) q)))
      | inr (e, failed) ↦ rw (more, run) (rw failed (stopped s e more failed))
    ]
  ]
