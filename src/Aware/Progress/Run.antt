-- ===== src/Aware/Progress/Run.antt =====
-- A run succeeds: on a network that is ready, no assertion of a run fails, and the run ends.
use astra_network_analytical.Base.{
  ℕ, zero, suc, ◌+◌, ◌*◌, ◌^◌, ◌≤◌, ◌<◌, ◌≡◌, ◌≢◌, refl, ap, sym, ◌∙◌, subst, true, false, List, [],
  ◌∷◌, ◌++◌, map, All, Outcome, ok, arith, ok-injective, length,
}
use astra_network_analytical.Double.{Double}
use astra_network_analytical.EventQueue.{
  EventList, finished, finished_list, invoke_events, proceed, run,
}
use astra_network_analytical.EventQueue.Invariant.{IsOrdered, After→IsOrdered}
use astra_network_analytical.EventQueue.Order.{entries, stamped}
use astra_network_analytical.EventQueue.Run.{proceed_list, run_finishes}
use astra_network_analytical.EventQueue.Weight.{sum, weight-of_entries}
use astra_network_analytical.Aware.State.{
  Event, chunk_arrived_next_device, link_become_free, World, link_at,
}
use astra_network_analytical.Aware.Simulation.{invoke}
use astra_network_analytical.Aware.Protocol.{Agrees, FollowsProtocol, frees}
use astra_network_analytical.Aware.Protocol.Events.{ClientFollows, invoke-Follows}
use astra_network_analytical.Aware.Work.Steps.{remaining, events_of, in_flight, ClientIsPassive}
use astra_network_analytical.Aware.Work.Termination.{proceed-remaining}
use astra_network_analytical.Aware.Progress.Send.{IsFit, IsDue, IsSteady}
use astra_network_analytical.Aware.Progress.Events.{IsSilent, invoke-Succeeds}

All-map :
    {A B : Type 0} (P : A → Type 0) (Q : B → Type 0) (f : A → B) (xs : List A)
    → ((x : A) → Q (f x) → P x)
    → All Q (map f xs)
    → All P xs
All-map P Q f [] h a = tt
All-map P Q f (x ∷ xs) h a = (h x a.0, All-map P Q f xs h a.1)

All-weaken :
    {A : Type 0} (P Q : A → Type 0) (xs : List A) → ((x : A) → P x → Q x) → All P xs → All Q xs
All-weaken P Q [] h a = tt
All-weaken P Q (x ∷ xs) h a = (h x a.0, All-weaken P Q xs h a.1)

All-split : {A : Type 0} (P : A → Type 0) (xs ys : List A) → All P (xs ++ ys) → All P xs × All P ys
All-split P [] ys a = (tt, a)
All-split P (x ∷ xs) ys a = let (b, c) = All-split P xs ys a.1 in ((a.0, b), c)

earliest_list :
    {E : Type 0} (q : List (EventList E))
    → finished_list q ≡ false
    → (l : EventList E) × (ls : List (EventList E)) × (q ≡ l ∷ ls)
      × (entries q ≡ stamped l ++ entries ls)
unfolding entries
earliest_list [] more = cc
earliest_list (l ∷ ls) more = (l, ls, refl, refl)

module _ {W : Type 0} ⦃d : Double W⦄ (client : ℕ → ℕ → World W → Outcome (World W)) where
  silent-Follows : IsSilent client → ClientFollows client
  silent-Follows silent callback arg todo w w' p h =
      subst (FollowsProtocol todo) (ok-injective (sym (silent callback arg w) ∙ h)) p

  silent-IsPassive : IsSilent client → ClientIsPassive client
  silent-IsPassive silent callback arg w w' h =
      subst (λ v. (remaining v ≡ remaining w) × (in_flight v ≡ in_flight w))
        (ok-injective (sym (silent callback arg w) ∙ h)) (refl, refl)

-- The wires, the sizes of chunks, a bound on every delay, and the last time that may be reached.
module _ (Wired : ℕ → ℕ → Type 0) (Sized : ℕ → Type 0) (longest end : ℕ)
    (in_range : end < 2 ^ 64) where
  some_remain :
      (es : List Event) → All (IsFit Wired Sized longest end) es → es ≢ [] → 0 < sum events_of es
  some_remain [] fit some_event = absurd (some_event refl)
  some_remain (chunk_arrived_next_device c ∷ es) ((i, j, travels), _) some_event =
      let (_, rest, route, _) = travels in omega (arith, ap length route)
  some_remain (link_become_free i j ∷ es) fit some_event = omega arith

  first_due :
      (k t : ℕ) (es : List Event)
      → es ≢ []
      → All (IsDue Wired Sized longest end k) (map (λ e. (t, e)) es)
      → t + longest * k ≤ end
  first_due k t [] some_event due = absurd (some_event refl)
  first_due k t (e ∷ es) some_event due = due.0.1

  module _ {W : Type 0} ⦃d : Double W⦄ (client : ℕ → ℕ → World W → Outcome (World W))
      (silent : IsSilent client) where
    -- Steady, with room for the events that remain, and following the links' protocol.
    abbrev pub Goes : ℕ → List Event → World W → Type 0
    Goes k todo w = IsSteady Wired Sized longest end k w × FollowsProtocol todo w

    batch-Goes :
        (k : ℕ) (es : List Event) (w : World W)
        → All (IsFit Wired Sized longest end) es
        → Goes k es w
        → (w' : World W) × (invoke_events (invoke client) es w ≡ ok w') × Goes k [] w'
    unfolding invoke_events
    batch-Goes k [] w fit goes = (w, refl, goes)
    batch-Goes k (e ∷ es) w fit (steady, p) =
        let (v, invoked, steady', _, _) =
          invoke-Succeeds Wired Sized longest end in_range client k e es w silent fit.0 p steady in
        let p' = invoke-Follows client e es w v (silent-Follows client silent) p invoked in
        let (w', rest, goes) = batch-Goes k es v fit.1 (steady', p') in (w', rw invoked rest, goes)

    -- One `proceed` uses up the room of one event.
    proceed-Goes :
        (k : ℕ) (w : World W)
        → finished w.queue ≡ false
        → remaining w ≤ k
        → Goes k [] w
        → (k' : ℕ) × (k ≡ suc k')
          × (w' : World W) × (proceed (invoke client) w ≡ ok w')
          × Goes k' [] w'
    proceed-Goes zero w more enough ((valid, network, due, room), p) =
        let (l, ls, is, sequence) = earliest_list w.queue.event_queue more in
        let (in_time, some_event, later) : IsOrdered w.queue.current_time (l ∷ ls) =
          subst (IsOrdered w.queue.current_time) is valid in
        let (now, _) =
          All-split (IsDue Wired Sized longest end 0) (stamped l) (entries ls)
            (subst (All (IsDue Wired Sized longest end 0)) sequence due) in
        let left =
          some_remain l.events
            (All-map (IsFit Wired Sized longest end) (IsDue Wired Sized longest end 0) _ l.events
              (λ e h. h.0) now)
            some_event in
        absurd (omega (arith, weight-of_entries events_of w.queue.event_queue l ls sequence))
    proceed-Goes (suc k) w more enough ((valid, network, due, room), p) =
        let (l, ls, is, sequence) = earliest_list w.queue.event_queue more in
        let (in_time, some_event, later) : IsOrdered w.queue.current_time (l ∷ ls) =
          subst (IsOrdered w.queue.current_time) is valid in
        let (now, behind) =
          All-split (IsDue Wired Sized longest end (suc k)) (stamped l) (entries ls)
            (subst (All (IsDue Wired Sized longest end (suc k))) sequence due) in
        let started : World W = record w {
          queue = record { current_time = l.event_time; event_queue = ls };
        } in
        let (w', ran, goes') =
          batch-Goes k l.events started
            (All-map (IsFit Wired Sized longest end) (IsDue Wired Sized longest end (suc k)) _
              l.events (λ e h. h.0) now)
            (
              (
                After→IsOrdered l.event_time ls later,
                network,
                All-weaken (IsDue Wired Sized longest end (suc k)) (IsDue Wired Sized longest end k)
                    (entries ls) (λ x h. (h.0, omega (arith, h.1))) behind,
                first_due (suc k) l.event_time l.events some_event now,
              ),
              λ a b.
                  subst (Agrees (link_at w.state.devices a b))
                    (omega (arith, weight-of_entries (frees a b) w.queue.event_queue l ls sequence))
                    (p a b),
            ) in
        (k, refl, w', proceed_list (invoke client) w l ls is in_time ∙ ran, goes')

    measured-Goes :
        (w : World W)
        → ((k : ℕ) × (remaining w ≤ k) × Goes k [] w)
        → finished w.queue ≡ false
        → (w' : World W) × (proceed (invoke client) w ≡ ok w')
          × ((k : ℕ) × (remaining w' ≤ k) × Goes k [] w')
          × (remaining w' < remaining w)
    measured-Goes w (k, enough, goes) more =
        let (k', is, w', went, goes') = proceed-Goes k w more enough goes in
        let fewer =
          proceed-remaining client w w' (silent-IsPassive client silent) goes.0.0 more went in
        (w', went, (k', omega arith, goes'), fewer)

    -- From a steady state with room for k events, in which the links follow their protocol, and with
    -- callbacks that change nothing of the simulation: a run succeeds where at most k events remain
    -- for the chunks and links in flight, and the fuel is at least as many as remain. No assertion
    -- fails, the queue is empty at the end, and the clock is at most `end`. Steady means that the
    -- queue is valid, devices stand at the places of their ids, every wire has a link, every link
    -- has defined delays of at most `longest` for each size allowed, which is not zero, the chunks
    -- that wait or are on their way have such sizes and routes over wires, and `end`, which is
    -- within the range of the clock, is at least k times `longest` after each event in the queue and
    -- k + 1 times `longest` after the current time.
    pub run-succeeds :
        (fuel k : ℕ) (w : World W)
        → IsSteady Wired Sized longest end k w
        → FollowsProtocol [] w
        → remaining w ≤ k
        → remaining w ≤ fuel
        → (w' : World W) × (run (invoke client) fuel w ≡ ok w')
          × (finished w'.queue ≡ true)
          × (w'.queue.current_time ≤ end)
    run-succeeds fuel k w steady p enough fed =
        let (w', ran, (k', _, goes), empty) =
          run_finishes (invoke client) (λ v. (k : ℕ) × (remaining v ≤ k) × Goes k [] v) remaining
            measured-Goes fuel w fed (k, enough, (steady, p)) in
        (w', ran, empty, omega (arith, goes.0.3))
