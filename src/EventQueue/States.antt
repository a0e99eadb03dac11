-- ===== src/EventQueue/States.antt =====
-- What every callback keeps of the state, the loop over the events keeps.
use astra_network_analytical.Base.{
  ◌≡◌, subst, List, [], ◌∷◌, leb, Outcome, ok, assertion, >>=-eq-ok, check-eq-ok, ok-injective,
}
use astra_network_analytical.EventQueue.{
  EventList, Simulation, invoke_events, pop_and_invoke, proceed,
}

module _ {S E : Type 0} (invoke : E → Simulation S E → Outcome (Simulation S E)) (P : S → Type 0)
    (keeps : (e : E) (s s' : Simulation S E) → P s.state → invoke e s ≡ ok s' → P s'.state) where
  invoke_events-keeps :
      (es : List E) (s s' : Simulation S E)
      → P s.state
      → invoke_events invoke es s ≡ ok s'
      → P s'.state
  unfolding invoke_events
  invoke_events-keeps [] s s' p h = subst (λ (t : Simulation S E). P t.state) (ok-injective h) p
  invoke_events-keeps (e ∷ es) s s' p h =
      let (t, invoked, rest) = >>=-eq-ok (invoke e s) (invoke_events invoke es) h in
      invoke_events-keeps es t s' (keeps e s t p invoked) rest

  pop_and_invoke-keeps :
      (ls : List (EventList E)) (s s' : Simulation S E)
      → P s.state
      → pop_and_invoke invoke ls s ≡ ok s'
      → P s'.state
  unfolding pop_and_invoke
  pop_and_invoke-keeps [] s s' p h = cc
  pop_and_invoke-keeps (l ∷ ls) s s' p h =
      let (_, invoked) = check-eq-ok (leb s.queue.current_time l.event_time) assertion _ h in
      invoke_events-keeps l.events
        (record s { queue = record { current_time = l.event_time; event_queue = ls } }) s' p invoked

  pub proceed-keeps : (s s' : Simulation S E) → P s.state → proceed invoke s ≡ ok s' → P s'.state
  unfolding proceed
  proceed-keeps s s' p h = pop_and_invoke-keeps s.queue.event_queue s s' p h
