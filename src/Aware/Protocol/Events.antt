-- ===== src/Aware/Protocol/Events.antt =====
-- The protocol through the events, and what a run that ends leaves.
use astra_network_analytical.Base.{
  ℕ, zero, suc, ◌≡◌, ◌∙◌, sym, subst, Bool, false, not, List, [], ◌∷◌, some, ltb, ◌==◌,
  if◌then◌else◌, get_elem?, Outcome, Error, ok, assertion, or_fail, >>=-eq-ok, check-eq-ok,
  ok-injective, if-eq-ok, inl, inr, arith, Bool-cases,
}
use astra_network_analytical.Double.{Double}
use astra_network_analytical.EventQueue.Weight.{weight-of_entries, weight-finished}
use astra_network_analytical.Aware.State.{
  Chunk, Link, Event, chunk_arrived_next_device, link_become_free, World, link_at,
}
use astra_network_analytical.Aware.Chunk.{
  current_device, next_device, arrived_dest, mark_arrived_next_device,
}
use astra_network_analytical.Aware.Protocol.{
  Agrees, FollowsProtocol, frees, frees_due, link_send-Follows, become_free-Follows,
}
use astra_network_analytical.EventQueue.{finished, invoke_events, proceed, run}
use astra_network_analytical.EventQueue.Invariant.{IsValid}
use astra_network_analytical.EventQueue.Run.{proceed-invoke_events, proceed-IsValid, run-IsValid}
use astra_network_analytical.Aware.Clock.{ClientKeeps, invoke-IsScheduler}
use astra_network_analytical.Aware.Device
use astra_network_analytical.Aware.Device.{connected}
use astra_network_analytical.Aware.Topology
use astra_network_analytical.Aware.Simulation.{arrive_next_device, invoke}

not_busy : (busy : Bool) (n : ℕ) → n ≡ 0 → n ≡ (if busy then 1 else 0) → busy ≡ false
not_busy busy n e h = ground arith

module _ {W : Type 0} ⦃d : Double W⦄ where
  pub device_send-Follows :
      (i : ℕ) (c : Chunk) (todo : List Event) (w w' : World W)
      → FollowsProtocol todo w
      → Device.send i c w ≡ ok w'
      → FollowsProtocol todo w'
  unfolding Device.send
  device_send-Follows i c todo w w' p h =
      let (device, _, h₁) = >>=-eq-ok (or_fail Error.undefined (get_elem? w.state.devices i)) _ h in
      let (current, _, h₂) = >>=-eq-ok (current_device c) _ h₁ in
      let (_, h₃) = check-eq-ok (current == device.device_id) assertion _ h₂ in
      let (_, h₄) = check-eq-ok (not (arrived_dest c)) assertion _ h₃ in
      let (next, _, h₅) = >>=-eq-ok (next_device c) _ h₄ in
      let (_, sent) = check-eq-ok (connected device next) assertion _ h₅ in
      link_send-Follows i next c todo w w' p sent

  -- A send that succeeds keeps the links' protocol.
  pub topology_send-Follows :
      (c : Chunk) (todo : List Event) (w w' : World W)
      → FollowsProtocol todo w
      → Topology.send c w ≡ ok w'
      → FollowsProtocol todo w'
  unfolding Topology.send
  topology_send-Follows c todo w w' p h =
      let (src, _, h₁) = >>=-eq-ok (current_device c) _ h in
      let (_, sent) = check-eq-ok (ltb src w.state.devices_count) assertion _ h₁ in
      device_send-Follows src c todo w w' p sent

  module _ (client : ℕ → ℕ → World W → Outcome (World W)) where
    abbrev pub ClientFollows : Type 0
    ClientFollows =
        (callback arg : ℕ) (todo : List Event) (w w' : World W)
        → FollowsProtocol todo w
        → client callback arg w ≡ ok w'
        → FollowsProtocol todo w'

    arrive-Follows :
        (c : Chunk) (todo : List Event) (w w' : World W)
        → ClientFollows
        → FollowsProtocol todo w
        → arrive_next_device client c w ≡ ok w'
        → FollowsProtocol todo w'
    unfolding arrive_next_device
    arrive-Follows c todo w w' follows p h =
        let (c', _, arrived) = >>=-eq-ok (mark_arrived_next_device c) _ h in
        elim (if-eq-ok (arrived_dest c') (client c'.callback c'.callback_arg w) _ arrived) [
          | inl (_, called) ↦ follows c'.callback c'.callback_arg todo w w' p called
          | inr (_, forwarded) ↦
              let (node, _, sent) = >>=-eq-ok (current_device c') _ forwarded in
              device_send-Follows node c' todo w w' p sent
        ]

    -- An event that succeeds keeps the links' protocol, if the chunks' callbacks do: a link is busy exactly while one event that frees it is
    -- due, no event frees a link that is not there, and chunks wait only at busy links.
    pub invoke-Follows :
        (e : Event) (todo : List Event) (w w' : World W)
        → ClientFollows
        → FollowsProtocol (e ∷ todo) w
        → invoke client e w ≡ ok w'
        → FollowsProtocol todo w'
    unfolding invoke
    invoke-Follows (chunk_arrived_next_device c) todo w w' follows p h =
        arrive-Follows c todo w w' follows
          (λ a b. subst (Agrees (link_at w.state.devices a b)) (omega arith) (p a b)) h
    invoke-Follows (link_become_free i j) todo w w' follows p h =
        become_free-Follows i j todo w w' p h

    invoke_events-Follows :
        (es : List Event) (w w' : World W)
        → ClientFollows
        → FollowsProtocol es w
        → invoke_events (invoke client) es w ≡ ok w'
        → FollowsProtocol [] w'
    unfolding invoke_events
    invoke_events-Follows [] w w' follows p h = subst (FollowsProtocol []) (ok-injective h) p
    invoke_events-Follows (e ∷ es) w w' follows p h =
        let (v, invoked, rest) = >>=-eq-ok (invoke client e w) _ h in
        invoke_events-Follows es v w' follows (invoke-Follows e es w v follows p invoked) rest

    proceed-Follows :
        (w w' : World W)
        → ClientFollows
        → IsValid w.queue
        → finished w.queue ≡ false
        → FollowsProtocol [] w
        → proceed (invoke client) w ≡ ok w'
        → FollowsProtocol [] w'
    proceed-Follows w w' follows v more p h =
        let (l, ls, sequence, _, _, _, goes) = proceed-invoke_events (invoke client) w v more in
        invoke_events-Follows l.events _ w' follows
          (λ a b.
            subst (Agrees (link_at w.state.devices a b))
              (omega (arith, weight-of_entries (frees a b) w.queue.event_queue l ls sequence))
              (p a b))
          (sym goes ∙ h)

    run-Follows :
        (fuel : ℕ) (w w' : World W)
        → ClientFollows
        → ClientKeeps client
        → IsValid w.queue
        → FollowsProtocol [] w
        → run (invoke client) fuel w ≡ ok w'
        → FollowsProtocol [] w'
    unfolding run
    run-Follows zero w w' follows keeps v p h = elim (Bool-cases (finished w.queue)) [
      | inl done ↦ subst (FollowsProtocol []) (ok-injective (rw done at h)) p
      | inr more ↦ absurd (let h' = (rw more at h) in cc)
    ]
    run-Follows (suc fuel) w w' follows keeps v p h = elim (Bool-cases (finished w.queue)) [
      | inl done ↦ subst (FollowsProtocol []) (ok-injective (rw (done, run) at h)) p
      | inr more ↦
          let (t, went, rest) =
            >>=-eq-ok (proceed (invoke client) w) (run (invoke client) fuel)
              (rw (more, run) at h) in
          run-Follows fuel t w' follows keeps
            (proceed-IsValid (invoke client) (invoke-IsScheduler client keeps) w t v went).0
            (proceed-Follows w t follows v more p went) rest
    ]

    -- A run that ends, from a state that follows the protocol, leaves every link free, with no
    -- chunk waiting at it, if the chunks' callbacks keep the protocol, the clock and the queue's order.
    pub run-leaves_links_free :
        (fuel : ℕ) (w w' : World W) (i j : ℕ) (l : Link W)
        → ClientFollows
        → ClientKeeps client
        → IsValid w.queue
        → FollowsProtocol [] w
        → run (invoke client) fuel w ≡ ok w'
        → link_at w'.state.devices i j ≡ some l
        → (l.busy ≡ false) × (l.pending_chunks ≡ [])
    run-leaves_links_free fuel w w' i j l follows keeps v p h at =
        let q = run-Follows fuel w w' follows keeps v p h in
        let agrees = subst (λ o. Agrees o (frees_due [] w' i j)) at (q i j) in
        let (_, _, empty) =
          run-IsValid (invoke client) (invoke-IsScheduler client keeps) fuel w w' v h in
        let none_due = weight-finished (frees i j) w'.queue.event_queue empty in
        let idle = not_busy l.busy (frees_due [] w' i j) (omega (arith, none_due)) agrees.0 in
        (idle, agrees.1 idle)
