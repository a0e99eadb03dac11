-- ===== src/EventQueue/Machine.antt =====
-- An abstract machine for the simulation, which runs one event at a time off one sequence of timed
-- events, and the queue of lists, run in batches of equal times, as its implementation.
use astra_network_analytical.Base.{
  ℕ, ◌≡◌, ◌∙◌, sym, ap, subst, refl, true, false, Bool, List, [], ◌∷◌, ◌++◌, Outcome, ok, fail,
  ◌>>=◌, Error, assertion, arith, leb, ◌&&◌, map, Bool-cases, Outcome-cases, inl, inr,
}
use astra_network_analytical.EventQueue.{
  EventList, EventQueue, Simulation, finished_list, schedule_event, invoke_events, proceed,
}
use astra_network_analytical.EventQueue.Invariant.{IsOrdered, IsValid, After→IsOrdered}
use astra_network_analytical.EventQueue.Order.{
  entries, insert_stable, insert_stable-stamped_le, schedule_event-entries,
}
use astra_network_analytical.EventQueue.Run.{proceed_list, Ends, emptied, stopped, proceeded}

module _ {E : Type 0} where
  unfoldable pub schedule_all : EventQueue E → List (ℕ × E) → Outcome (EventQueue E)
  unfolding schedule_event
  schedule_all q [] = ok q
  schedule_all q ((t, e) ∷ later) = do q' ← schedule_event q t e; schedule_all q' later

  unfoldable pub insert_all : List (ℕ × E) → List (ℕ × E) → List (ℕ × E)
  unfolding insert_stable
  insert_all [] r = r
  insert_all ((t, e) ∷ later) r = insert_all later (insert_stable t e r)

  -- No event of the list is before time t.
  abbrev pub none_before : ℕ → List (ℕ × E) → Bool
  none_before t [] = true
  none_before t ((u, e) ∷ later) = leb t u && none_before t later

  abbrev stamp : ℕ → List E → List (ℕ × E)
  stamp t xs = map (λ x. (t, x)) xs

  insert_all-stamp :
      (t : ℕ) (xs : List E) (new r : List (ℕ × E))
      → none_before t new ≡ true
      → insert_all new (stamp t xs ++ r) ≡ stamp t xs ++ insert_all new r
  unfolding insert_all
  insert_all-stamp t xs [] r h = refl
  insert_all-stamp t xs ((u, e) ∷ later) r h =
      ap (insert_all later) (insert_stable-stamped_le u t e xs r (ground arith))
      ∙ insert_all-stamp t xs later (insert_stable u e r) (ground arith)

  schedule_all-entries :
      (q : EventQueue E) (new : List (ℕ × E))
      → IsValid q
      → none_before q.current_time new ≡ true
      → (q' : EventQueue E) × (schedule_all q new ≡ ok q')
        × (entries q'.event_queue ≡ insert_all new (entries q.event_queue))
        × IsValid q'
        × (q'.current_time ≡ q.current_time)
  unfolding schedule_all insert_all
  schedule_all-entries q [] v h = (q, refl, refl, v, refl)
  schedule_all-entries q ((t, e) ∷ later) v h =
      let (p, made, same, valid, clock) = schedule_event-entries q t e v (ground arith) in
      let (q', all, same', valid', clock') =
        schedule_all-entries p later valid
          (subst (λ u. none_before u later ≡ true) (sym clock) (ground arith)) in
      (q', rw made all, same' ∙ ap (insert_all later) same, valid', clock' ∙ clock)

  schedule_all-late :
      (q : EventQueue E) (new : List (ℕ × E))
      → IsValid q
      → none_before q.current_time new ≡ false
      → schedule_all q new ≡ fail assertion
  unfolding schedule_all
  schedule_all-late q [] v h = cc
  schedule_all-late q ((t, e) ∷ later) v h = elim (Bool-cases (leb q.current_time t)) [
    | inl in_time ↦
        let (p, made, _, valid, clock) = schedule_event-entries q t e v (ground arith) in
        rw made (
          schedule_all-late p later valid
            (subst (λ u. none_before u later ≡ false) (sym clock) (ground arith)))
    | inr late ↦ unfold schedule_event in rw late refl
  ]

-- A callback that sees of the queue the current time alone, and answers the events to schedule.
module _ {S E : Type 0} (handler : E → ℕ → S → Outcome (S × List (ℕ × E))) where
  -- The callback on the queue.
  unfoldable pub callback : E → Simulation S E → Outcome (Simulation S E)
  unfolding schedule_all
  callback e s = do
    answer ← handler e s.queue.current_time s.state
    queue ← schedule_all s.queue answer.1
    ok (record { queue = queue; state = answer.0 })

  -- The machine, from a time, the events and a state to the last time and state, or to an error.
  pub data Runs : ℕ → List (ℕ × E) → S → Outcome (ℕ × S) → Type 0 where
    no_event : (now : ℕ) (state : S) → Runs now [] state (ok (now, state))
    handled :
        (now t : ℕ) (e : E) (rest : List (ℕ × E)) (state state' : S) (new : List (ℕ × E))
        (result : Outcome (ℕ × S))
        → handler e t state ≡ ok (state', new)
        → none_before t new ≡ true
        → Runs t (insert_all new rest) state' result
        → Runs now ((t, e) ∷ rest) state result
    late :
        (now t : ℕ) (e : E) (rest : List (ℕ × E)) (state state' : S) (new : List (ℕ × E))
        → handler e t state ≡ ok (state', new)
        → none_before t new ≡ false
        → Runs now ((t, e) ∷ rest) state (fail assertion)
    failed :
        (now t : ℕ) (e : E) (rest : List (ℕ × E)) (state : S) (error : Error)
        → handler e t state ≡ fail error
        → Runs now ((t, e) ∷ rest) state (fail error)

  abbrev view : Outcome (Simulation S E) → Outcome (ℕ × S)
  view (ok s) = ok (s.queue.current_time, s.state)
  view (fail e) = fail e

  -- What the machine does from where a batch stops.
  abbrev Continues : Outcome (Simulation S E) → Outcome (ℕ × S) → Type 0
  Continues (ok s) r =
      IsValid s.queue → Runs s.queue.current_time (entries s.queue.event_queue) s.state r
  Continues (fail e) r = fail e ≡ r

  batch-Runs :
      (es : List E) (now : ℕ) (s : Simulation S E) (r : Outcome (ℕ × S))
      → IsValid s.queue
      → (es ≡ [] → now ≡ s.queue.current_time)
      → Continues (invoke_events callback es s) r
      → Runs now (stamp s.queue.current_time es ++ entries s.queue.event_queue) s.state r
  unfolding invoke_events
  batch-Runs [] now s r v clock next =
      subst (λ t. Runs t (entries s.queue.event_queue) s.state r) (sym (clock refl)) (next v)
  batch-Runs (e ∷ es) now s r v clock next =
      elim (Outcome-cases (handler e s.queue.current_time s.state)) [
        | inl (answer, went) ↦ elim (Bool-cases (none_before s.queue.current_time answer.1)) [
          | inl in_time ↦
              let (q, made, same, valid, same_clock) =
                schedule_all-entries s.queue answer.1 v in_time in
              let t : Simulation S E = record { queue = q; state = answer.0 } in
              let called : callback e s ≡ ok t = unfold callback in rw went (rw made refl) in
              let later : Runs q.current_time (stamp q.current_time es ++ entries q.event_queue)
                  answer.0 r =
                batch-Runs es q.current_time t r valid (λ x. refl) (rw called at next) in
              handled now s.queue.current_time e
                (stamp s.queue.current_time es ++ entries s.queue.event_queue) s.state answer.0
                answer.1 r went in_time
                (subst (λ events. Runs s.queue.current_time events answer.0 r)
                  (ap (◌++◌ (stamp s.queue.current_time es)) same
                    ∙ sym (insert_all-stamp s.queue.current_time es answer.1 _ in_time))
                  (subst (λ c. Runs c (stamp c es ++ entries q.event_queue) answer.0 r) same_clock
                    later))
          | inr late_one ↦
              let called : callback e s ≡ fail assertion =
                unfold callback in
                rw went (rw (schedule_all-late s.queue answer.1 v late_one) refl) in
              let is : fail assertion ≡ r = rw called at next in
              subst (Runs now _ s.state) is
                (late now s.queue.current_time e _ s.state answer.0 answer.1 went late_one)
        ]
        | inr (error, fails) ↦
            let called : callback e s ≡ fail error = unfold callback in rw fails refl in
            let is : fail error ≡ r = rw called at next in
            subst (Runs now _ s.state) is (failed now s.queue.current_time e _ s.state error fails)
      ]

  -- One `proceed` on a queue that is not empty.
  proceed-Runs :
      (s : Simulation S E) (q : List (EventList E)) (r : Outcome (ℕ × S))
      → s.queue.event_queue ≡ q
      → IsValid s.queue
      → finished_list q ≡ false
      → Continues (proceed callback s) r
      → Runs s.queue.current_time (entries q) s.state r
  proceed-Runs s [] r same v more next = cc
  proceed-Runs s (l ∷ ls) r same v more next =
      let v' : IsOrdered s.queue.current_time (l ∷ ls) =
        subst (IsOrdered s.queue.current_time) same v in
      unfold entries in
      batch-Runs l.events s.queue.current_time
        (record s { queue = record { current_time = l.event_time; event_queue = ls } }) r
        (After→IsOrdered l.event_time ls v'.2) (λ empty. absurd (v'.1 empty))
        (rw (proceed_list callback s l ls same v'.0) at next)

  -- From a valid queue the loop over `proceed` does what the machine does: events that are
  -- scheduled at or after the current time wait their turn behind those of the same time, also when
  -- they come up in the middle of a batch, and where the one ends with an error, so does the other,
  -- with the same one; an event for a time that has passed ends both with an assertion.
  pub Ends-Runs :
      (s : Simulation S E) (r : Outcome (Simulation S E))
      → IsValid s.queue
      → Ends callback s r
      → Runs s.queue.current_time (entries s.queue.event_queue) s.state (view r)
  Ends-Runs s r v (emptied _ done) = ends s.queue.event_queue refl done
    where
      ends :
          (q : List (EventList E))
          → s.queue.event_queue ≡ q
          → finished_list q ≡ true
          → Runs s.queue.current_time (entries q) s.state (view (ok s))
      ends [] same h = unfold entries in no_event s.queue.current_time s.state
      ends (l ∷ ls) same h = cc
  Ends-Runs s r v (stopped _ e more h) =
      proceed-Runs s s.queue.event_queue (fail e) refl v more (rw h refl)
  Ends-Runs s r v (proceeded _ t _ more h later) =
      proceed-Runs s s.queue.event_queue (view r) refl v more
        (rw h (λ valid. Ends-Runs t r valid later))
