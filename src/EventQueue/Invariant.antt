-- ===== src/EventQueue/Invariant.antt =====
-- The well-formed event queue: strictly rising times from the current time on, no list empty.
use astra_network_analytical.Base.{ℕ, ◌≤◌, ◌<◌, ◌≡◌, ◌≢◌, List, [], ◌∷◌, ◌++◌, ok, arith}
use astra_network_analytical.EventQueue.{EventList, EventQueue, insert_event, schedule_event}

module _ {E : Type 0} where
  -- Each list comes strictly after `t` and holds an event.
  abbrev pub After : ℕ → List (EventList E) → Type 0
  After t [] = Unit
  After t (l ∷ ls) = (t < l.event_time) × (l.events ≢ []) × After l.event_time ls

  abbrev pub IsOrdered : ℕ → List (EventList E) → Type 0
  IsOrdered t [] = Unit
  IsOrdered t (l ∷ ls) = (t ≤ l.event_time) × (l.events ≢ []) × After l.event_time ls

  abbrev pub IsValid : EventQueue E → Type 0
  IsValid q = IsOrdered q.current_time q.event_queue

  snoc-ne-nil : (xs : List E) (e : E) → xs ++ e ∷ [] ≢ []
  snoc-ne-nil [] e h = cc
  snoc-ne-nil (x ∷ xs) e h = cc

  insert_event-After :
      (b t : ℕ) (e : E) (ls : List (EventList E))
      → b < t
      → After b ls
      → After b (insert_event t e ls)
  unfolding insert_event
  insert_event-After b t e [] h a = (h, λ x. cc, tt)
  insert_event-After b t e (l ∷ ls) h a =
      ground (arith, insert_event-After l.event_time t e ls, snoc-ne-nil l.events e)

  pub insert_event-IsOrdered :
      (b t : ℕ) (e : E) (ls : List (EventList E))
      → b ≤ t
      → IsOrdered b ls
      → IsOrdered b (insert_event t e ls)
  unfolding insert_event
  insert_event-IsOrdered b t e [] h a = (h, λ x. cc, tt)
  insert_event-IsOrdered b t e (l ∷ ls) h a =
      ground (arith, insert_event-After l.event_time t e ls, snoc-ne-nil l.events e)

  pub After→IsOrdered : (t : ℕ) (ls : List (EventList E)) → After t ls → IsOrdered t ls
  After→IsOrdered t [] a = tt
  After→IsOrdered t (l ∷ ls) a = (omega arith, a.1, a.2)

  pub schedule_event-IsValid :
      (q : EventQueue E) (t : ℕ) (e : E) (q' : EventQueue E)
      → IsValid q
      → schedule_event q t e ≡ ok q'
      → IsValid q' × (q'.current_time ≡ q.current_time)
  unfolding schedule_event
  schedule_event-IsValid q t e q' v h =
      ground (arith, insert_event-IsOrdered q.current_time t e q.event_queue)
