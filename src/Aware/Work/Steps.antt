-- ===== src/Aware/Work/Steps.antt =====
-- Two weights that balance: the events that the chunks in flight still need, of which every event
-- uses up one, and the number of chunks in flight.
use astra_network_analytical.Base.{
  ℕ, ◌+◌, ◌-◌, ◌*◌, ◌≤◌, ◌≡◌, refl, ap, subst, not, List, [], ◌∷◌, length, ◌==◌, false, Outcome, ok,
  assertion, >>=-eq-ok, check-eq-ok, ok-injective, if-eq-ok, inl, inr, arith, if◌then◌else◌,
}
use astra_network_analytical.Double.{Double}
use astra_network_analytical.EventQueue.{invoke_events}
use astra_network_analytical.EventQueue.Weight.{sum}
use astra_network_analytical.Aware.State.{
  Chunk, Event, chunk_arrived_next_device, link_become_free, World,
}
use astra_network_analytical.Aware.Chunk.{
  current_device, arrived_dest, mark_arrived_next_device, pop_front,
}
use astra_network_analytical.Aware.Topology
use astra_network_analytical.Aware.Simulation.{arrive_next_device, invoke}
use astra_network_analytical.Aware.Work.{
  IsBalanced, total, total-become_free, total-device_send, total-topology_send,
}

abbrev hops_left : Chunk → ℕ
hops_left c = length c.route - 1

-- A chunk that waits needs two events for each hop: an arrival, and the link becoming free.
abbrev pub events_of_chunk : Chunk → ℕ
events_of_chunk c = 2 * hops_left c

abbrev pub events_of : Event → ℕ
events_of (chunk_arrived_next_device c) = 2 * hops_left c - 1
events_of (link_become_free i j) = 1

-- The number of events that the run still takes.
abbrev pub remaining : {W : Type 0} → World W → ℕ
remaining w = total events_of_chunk events_of w

remaining-IsBalanced : IsBalanced events_of_chunk events_of
remaining-IsBalanced c i j h = omega arith

abbrev one_chunk : Chunk → ℕ
one_chunk c = 1

abbrev pub chunks_of : Event → ℕ
chunks_of (chunk_arrived_next_device c) = 1
chunks_of (link_become_free i j) = 0

-- The number of chunks that wait at a link or are on their way over one.
abbrev pub in_flight : {W : Type 0} → World W → ℕ
in_flight w = total one_chunk chunks_of w

in_flight-IsBalanced : IsBalanced one_chunk chunks_of
in_flight-IsBalanced c i j h = omega arith

-- 1 for the arrival at the last device of a route.
abbrev pub delivers : Event → ℕ
delivers (chunk_arrived_next_device c) = if length c.route == 2 then 1 else 0
delivers (link_become_free i j) = 0

pop_front-length : (r r' : List ℕ) → pop_front r ≡ ok r' → length r' + 1 ≡ length r
pop_front-length [] r' h = cc
pop_front-length (x ∷ r) r' h = ground arith

mark_arrived-length :
    (c c' : Chunk)
    → mark_arrived_next_device c ≡ ok c'
    → (2 ≤ length c.route) × (length c'.route + 1 ≡ length c.route)
unfolding mark_arrived_next_device
mark_arrived-length c c' h =
    let (more, h₁) = check-eq-ok (not (arrived_dest c)) assertion _ h in
    let (r, popped, made) = >>=-eq-ok (pop_front c.route) _ h₁ in
    let route : r ≡ c'.route = ap (λ (k : Chunk). k.route) (ok-injective made) in
    let shorter = pop_front-length c.route r popped in
    (ground arith, omega (arith, ap length route))

module _ {W : Type 0} ⦃d : Double W⦄ where
  -- A send that succeeds adds two remaining events for each hop of the route, and one chunk in
  -- flight, whether the first link is free or busy.
  pub topology_send-remaining :
      (c : Chunk) (w w' : World W)
      → Topology.send c w ≡ ok w'
      → (remaining w' ≡ remaining w + 2 * (length c.route - 1)) × (in_flight w' ≡ in_flight w + 1)
  topology_send-remaining c w w' h = (
    total-topology_send events_of_chunk events_of c w w' remaining-IsBalanced h,
    total-topology_send one_chunk chunks_of c w w' in_flight-IsBalanced h,
  )

  module _ (client : ℕ → ℕ → World W → Outcome (World W)) where
    -- The client's callbacks put nothing into the network and take nothing out.
    abbrev pub ClientIsPassive : Type 0
    ClientIsPassive =
        (callback arg : ℕ) (w w' : World W)
        → client callback arg w ≡ ok w'
        → (remaining w' ≡ remaining w) × (in_flight w' ≡ in_flight w)

    arrive-remaining :
        (c : Chunk) (w w' : World W)
        → ClientIsPassive
        → arrive_next_device client c w ≡ ok w'
        → remaining w' + 1 ≡ remaining w + events_of (chunk_arrived_next_device c)
    unfolding arrive_next_device
    arrive-remaining c w w' passive h =
        let (c', marked, arrived) = >>=-eq-ok (mark_arrived_next_device c) _ h in
        let (long, shorter) = mark_arrived-length c c' marked in
        elim (if-eq-ok (arrived_dest c') (client c'.callback c'.callback_arg w) _ arrived) [
          | inl (last, called) ↦
              let (same, _) = passive c'.callback c'.callback_arg w w' called in
              let one : length c'.route ≡ 1 = ground arith in omega arith
          | inr (more, forwarded) ↦
              let (node, _, sent) = >>=-eq-ok (current_device c') _ forwarded in
              omega (
                arith,
                total-device_send events_of_chunk events_of node c' w w' remaining-IsBalanced sent,
              )
        ]

    -- With callbacks that put nothing in and take nothing out, an event that succeeds uses up
    -- itself, and leaves the number of the other remaining events as it was.
    pub invoke-remaining :
        (e : Event) (w w' : World W)
        → ClientIsPassive
        → invoke client e w ≡ ok w'
        → remaining w' + 1 ≡ remaining w + events_of e
    unfolding invoke
    invoke-remaining (chunk_arrived_next_device c) w w' passive h =
        arrive-remaining c w w' passive h
    invoke-remaining (link_become_free i j) w w' passive h =
        omega (arith, total-become_free events_of_chunk events_of i j w w' remaining-IsBalanced h)

    arrive-in_flight :
        (c : Chunk) (w w' : World W)
        → ClientIsPassive
        → arrive_next_device client c w ≡ ok w'
        → in_flight w' + delivers (chunk_arrived_next_device c) ≡ in_flight w + 1
    unfolding arrive_next_device
    arrive-in_flight c w w' passive h =
        let (c', marked, arrived) = >>=-eq-ok (mark_arrived_next_device c) _ h in
        let (long, shorter) = mark_arrived-length c c' marked in
        elim (if-eq-ok (arrived_dest c') (client c'.callback c'.callback_arg w) _ arrived) [
          | inl (last, called) ↦
              let (_, same) = passive c'.callback c'.callback_arg w w' called in
              let two : length c.route ≡ 2 = ground arith in rw two (omega arith)
          | inr (more, forwarded) ↦
              let (node, _, sent) = >>=-eq-ok (current_device c') _ forwarded in
              let added =
                total-device_send one_chunk chunks_of node c' w w' in_flight-IsBalanced sent in
              let not_two : (length c.route == 2) ≡ false = ground arith in rw not_two (omega arith)
        ]

    -- With callbacks that put nothing in and take nothing out, a chunk leaves the network with its
    -- arrival at the last device of its route, and no other event changes the number in flight.
    pub invoke-in_flight :
        (e : Event) (w w' : World W)
        → ClientIsPassive
        → invoke client e w ≡ ok w'
        → in_flight w' + delivers e ≡ in_flight w + chunks_of e
    unfolding invoke
    invoke-in_flight (chunk_arrived_next_device c) w w' passive h =
        arrive-in_flight c w w' passive h
    invoke-in_flight (link_become_free i j) w w' passive h =
        omega (arith, total-become_free one_chunk chunks_of i j w w' in_flight-IsBalanced h)

    pub invoke_events-remaining :
        (es : List Event) (w w' : World W)
        → ClientIsPassive
        → invoke_events (invoke client) es w ≡ ok w'
        → remaining w' + length es ≡ remaining w + sum events_of es
    unfolding invoke_events
    invoke_events-remaining [] w w' passive h =
        subst (λ v. remaining v + 0 ≡ remaining w + 0) (ok-injective h) refl
    invoke_events-remaining (e ∷ es) w w' passive h =
        let (v, invoked, rest) = >>=-eq-ok (invoke client e w) _ h in
        omega (
          arith,
          invoke-remaining e w v passive invoked,
          invoke_events-remaining es v w' passive rest,
        )
