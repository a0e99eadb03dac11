-- ===== src/EventQueue.antt =====
-- The discrete-event core: common/event-queue/Event.cpp, EventList.cpp and EventQueue.cpp, with
-- their headers. An event (a callback and its argument) is a value of the type `E`; the callback
-- itself is the function `invoke`, a parameter. A callback pointer that is null has no value here.
-- `state` is what the callbacks change besides the queue.
pub mod Invariant
pub mod Order
pub mod Run
pub mod Machine
pub mod States
pub mod Weight
pub mod Front
mod Examples
use astra_network_analytical.Base.{
  ℕ, zero, suc, Bool, true, false, not, List, [], ◌∷◌, ◌++◌, ltb, leb, if◌then◌else◌, Outcome,
  Error, ok, fail, assertion, unfinished, ◌>>=◌, ◌>>◌, assert,
}

pub record EventList (E : Type 0) : Type 0 where
  pub event_time : ℕ
  pub events : List E

pub record EventQueue (E : Type 0) : Type 0 where
  pub current_time : ℕ
  pub event_queue : List (EventList E)

pub record Simulation (S E : Type 0) : Type 0 where
  pub queue : EventQueue E
  pub state : S

module _ {E : Type 0} where
  abbrev new_event_list : ℕ → EventList E
  new_event_list t = record { event_time = t; events = [] }

  abbrev add_event : EventList E → E → EventList E
  add_event l e = record l { events = l.events ++ e ∷ [] }

  abbrev pub new_event_queue : EventQueue E
  new_event_queue = record { current_time = 0; event_queue = [] }

  abbrev pub get_current_time : EventQueue E → ℕ
  get_current_time q = q.current_time

  abbrev pub finished_list : List (EventList E) → Bool
  finished_list [] = true
  finished_list (l ∷ ls) = false

  abbrev pub finished : EventQueue E → Bool
  finished q = finished_list q.event_queue

  -- The search for the entry of `event_time` and the insertion there, as one walk over the list.
  pub insert_event : ℕ → E → List (EventList E) → List (EventList E)
  insert_event t e [] = add_event (new_event_list t) e ∷ []
  insert_event t e (l ∷ ls) =
      if ltb l.event_time t
      then l ∷ insert_event t e ls
      else if ltb t l.event_time
      then add_event (new_event_list t) e ∷ l ∷ ls
      else add_event l e ∷ ls

  unfoldable pub schedule_event : EventQueue E → ℕ → E → Outcome (EventQueue E)
  unfolding insert_event
  schedule_event q t e = do
    assert (leb q.current_time t)
    ok (record q { event_queue = insert_event t e q.event_queue })

module _ {S E : Type 0} (invoke : E → Simulation S E → Outcome (Simulation S E)) where
  -- The callbacks of one list, first to last, each on the state that the one before it left.
  unfoldable pub invoke_events : List E → Simulation S E → Outcome (Simulation S E)
  invoke_events [] s = ok s
  invoke_events (e ∷ es) s = do s' ← invoke e s; invoke_events es s'

  -- The first list leaves the queue before its callbacks run.
  pop_and_invoke : List (EventList E) → Simulation S E → Outcome (Simulation S E)
  unfolding invoke_events
  pop_and_invoke [] s = fail assertion
  pop_and_invoke (l ∷ ls) s = do
    assert (leb s.queue.current_time l.event_time)
    invoke_events l.events
        (record s { queue = record { current_time = l.event_time; event_queue = ls } })

  unfoldable pub proceed : Simulation S E → Outcome (Simulation S E)
  unfolding pop_and_invoke
  proceed s = pop_and_invoke s.queue.event_queue s

  -- `while (!event_queue->finished()) event_queue->proceed();` of the drivers.
  unfoldable pub run : ℕ → Simulation S E → Outcome (Simulation S E)
  unfolding proceed
  run zero s = if finished s.queue then ok s else fail unfinished
  run (suc fuel) s = elim (finished s.queue) [ true ↦ ok s | false ↦ proceed s >>= run fuel ]
