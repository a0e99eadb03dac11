-- ===== src/EventQueue/Examples.antt =====
-- The event queue on a small input: event 7 schedules event 1 two ticks later, and each event is
-- added to the state.
use astra_network_analytical.Base.{
  ℕ, ◌+◌, ◌≤◌, ◌≡◌, refl, true, List, [], ◌∷◌, ◌==◌, if◌then◌else◌, Outcome, ok, ◌>>=◌, >>=-eq-ok,
  if-eq-ok, inl, inr, ok-injective, subst, arith,
}
use astra_network_analytical.EventQueue.{
  EventQueue, Simulation, schedule_event, proceed, run, finished,
}
use astra_network_analytical.EventQueue.Invariant.{IsValid, schedule_event-IsValid}
use astra_network_analytical.EventQueue.Order.{entries, insert_stable, schedule_event-entries}
use astra_network_analytical.EventQueue.Run.{
  IsScheduler, ProceedsEarliest, proceed-earliest, run-IsValid, emptied, proceeded,
}
use astra_network_analytical.EventQueue.Machine.{callback, Runs, Ends-Runs}

abbrev sample : EventQueue ℕ
sample = record {
  current_time = 2;
  event_queue =
      record { event_time = 3; events = 7 ∷ [] }
      ∷ record { event_time = 5; events = 1 ∷ 2 ∷ [] }
      ∷ [];
}

sample-IsValid : IsValid sample
sample-IsValid = (omega arith, (λ e. cc), (omega arith, (λ e. cc), tt))

abbrev begin : Simulation ℕ ℕ
begin = record { queue = sample; state = 0 }

tick : ℕ → Simulation ℕ ℕ → Outcome (Simulation ℕ ℕ)
unfolding schedule_event
tick e s =
    if e == 7
    then (do
      q ← schedule_event s.queue (s.queue.current_time + 2) 1
      ok (record { queue = q; state = s.state + 7 }))
    else ok (record s { state = s.state + e })

tick-IsScheduler : IsScheduler tick
unfolding tick
tick-IsScheduler e s s' v h =
    elim (if-eq-ok (e == 7)
      (schedule_event s.queue (s.queue.current_time + 2) 1 >>= λ q.
        ok (record { queue = q; state = s.state + 7 }))
      (ok (record s { state = s.state + e })) h) [
        | inl (_, scheduled) ↦
            let (q, made, done) =
              >>=-eq-ok (schedule_event s.queue (s.queue.current_time + 2) 1)
                (λ q. ok (record { queue = q; state = s.state + 7 })) scheduled in
            subst
              (λ (t : Simulation ℕ ℕ).
                IsValid t.queue × (t.queue.current_time ≡ s.queue.current_time))
              (ok-injective done) (schedule_event-IsValid s.queue _ 1 q v made)
        | inr (_, done) ↦
            subst
              (λ (t : Simulation ℕ ℕ).
                IsValid t.queue × (t.queue.current_time ≡ s.queue.current_time))
              (ok-injective done) (v, refl)
      ]

-- The event that event 7 schedules runs behind the two that stood at time 5 before.
abbrev end : Simulation ℕ ℕ
end = record { queue = record { current_time = 5; event_queue = [] }; state = 11 }

run_sample : run tick 3 begin ≡ ok end
unfolding run tick
run_sample = refl

schedule_event-entries_example :
    (q : EventQueue ℕ) × (schedule_event sample 5 9 ≡ ok q)
    × (entries q.event_queue ≡ insert_stable 5 9 (entries sample.event_queue))
    × IsValid q
    × (q.current_time ≡ 2)
schedule_event-entries_example = schedule_event-entries sample 5 9 sample-IsValid (omega arith)

insert_stable_runs :
    insert_stable 5 9 (entries sample.event_queue) ≡ (3, 7) ∷ (5, 1) ∷ (5, 2) ∷ (5, 9) ∷ []
unfolding insert_stable entries
insert_stable_runs = refl

proceed-earliest_example : ProceedsEarliest tick begin sample.event_queue
proceed-earliest_example = proceed-earliest tick begin sample-IsValid refl

run-IsValid_example :
    IsValid end.queue
    × (begin.queue.current_time ≤ end.queue.current_time)
    × (finished end.queue ≡ true)
run-IsValid_example = run-IsValid tick tick-IsScheduler 3 begin end sample-IsValid run_sample

-- The same callback, for the machine.
abbrev tick_handler : ℕ → ℕ → ℕ → Outcome (ℕ × List (ℕ × ℕ))
tick_handler e now total = if e == 7 then ok (total + 7, (now + 2, 1) ∷ []) else ok (total + e, [])

abbrev middle : Simulation ℕ ℕ
middle = record {
  queue = record {
    current_time = 3;
    event_queue = record { event_time = 5; events = 1 ∷ 2 ∷ 1 ∷ [] } ∷ [];
  };
  state = 7;
}

first_batch : proceed (callback tick_handler) begin ≡ ok middle
unfolding proceed callback
first_batch = refl

second_batch : proceed (callback tick_handler) middle ≡ ok end
unfolding proceed callback
second_batch = refl

Ends-Runs_example : Runs tick_handler 2 (entries sample.event_queue) 0 (ok (5, 11))
Ends-Runs_example = Ends-Runs tick_handler begin (ok end) sample-IsValid (
    proceeded begin middle (ok end) refl first_batch
      (proceeded middle end (ok end) refl second_batch (emptied end refl)))
