-- ===== src/Aware/Work/Termination.antt =====
-- The simulation ends: every `proceed` uses up some of the events that remain.
use astra_network_analytical.Base.{
  ℕ, ◌<◌, ◌≡◌, ◌≢◌, refl, ◌∙◌, sym, List, [], ◌∷◌, length, false, Outcome, ok, arith,
}
use astra_network_analytical.Double.{Double}
use astra_network_analytical.EventQueue.{proceed, run, finished}
use astra_network_analytical.EventQueue.Invariant.{IsValid}
use astra_network_analytical.EventQueue.Run.{proceed-IsValid, proceed-invoke_events, Ends, run-Ends}
use astra_network_analytical.EventQueue.Weight.{weight-of_entries}
use astra_network_analytical.Aware.State.{Event, World}
use astra_network_analytical.Aware.Simulation.{invoke}
use astra_network_analytical.Aware.Clock.{ClientKeeps, invoke-IsScheduler}
use astra_network_analytical.Aware.Work.Steps.{
  remaining, ClientIsPassive, invoke_events-remaining, events_of,
}

nonempty : (es : List Event) → es ≢ [] → 0 < length es
nonempty [] h = absurd (h refl)
nonempty (e ∷ es) h = omega arith

module _ {W : Type 0} ⦃d : Double W⦄ (client : ℕ → ℕ → World W → Outcome (World W)) where
  pub proceed-remaining :
      (w w' : World W)
      → ClientIsPassive client
      → IsValid w.queue
      → finished w.queue ≡ false
      → proceed (invoke client) w ≡ ok w'
      → remaining w' < remaining w
  proceed-remaining w w' passive v more h =
      let (l, ls, sequence, some_events, _, _, goes) =
        proceed-invoke_events (invoke client) w v more in
      omega (
        arith,
        invoke_events-remaining client l.events _ w' passive (sym goes ∙ h),
        weight-of_entries events_of w.queue.event_queue l ls sequence,
        nonempty l.events some_events,
      )

  -- With callbacks that put nothing in, take nothing out and keep the queue valid and the clock, a
  -- run from a valid queue with more fuel than there are events remaining is that of the loop
  -- without fuel: it ends with the queue empty, or where an event fails.
  pub run-Ends_of_remaining :
      (fuel : ℕ) (w : World W)
      → ClientKeeps client
      → ClientIsPassive client
      → IsValid w.queue
      → remaining w < fuel
      → Ends (invoke client) w (run (invoke client) fuel w)
  run-Ends_of_remaining fuel w keeps passive v m =
      run-Ends (invoke client) (λ w. IsValid w.queue) remaining
        (λ s t valid more went. (
          (proceed-IsValid (invoke client) (invoke-IsScheduler client keeps) s t valid went).0,
          proceed-remaining s t passive valid more went,
        ))
        fuel w m v
