-- ===== src/Aware/Clock.antt =====
-- The operations of the simulator leave the clock alone and keep the event queue valid.
use astra_network_analytical.Base.{
  ℕ, ◌≡◌, refl, ◌∙◌, subst, not, List, [], ◌∷◌, ltb, ◌==◌, get_elem?, Outcome, Error, ok, assertion,
  or_fail, >>=-eq-ok, check-eq-ok, ok-injective, if-eq-ok, inl, inr,
}
use astra_network_analytical.Double.{Double}
use astra_network_analytical.EventQueue.{EventQueue, schedule_event}
use astra_network_analytical.EventQueue.Invariant.{IsValid, schedule_event-IsValid}
use astra_network_analytical.EventQueue.Run.{IsScheduler}
use astra_network_analytical.Aware.State.{
  Chunk, Link, Event, chunk_arrived_next_device, link_become_free, World, link_at, with_link,
}
use astra_network_analytical.Aware.Chunk.{
  current_device, next_device, get_size, arrived_dest, mark_arrived_next_device,
}
use astra_network_analytical.Aware.Link
use astra_network_analytical.Aware.Link.{
  schedule_events, schedule_chunk_transmission, process_first, process_pending_transmission,
  become_free, set_free, pending_chunk_exists, communication_delay, serialization_delay,
}
use astra_network_analytical.Aware.Device
use astra_network_analytical.Aware.Device.{connected}
use astra_network_analytical.Aware.Topology
use astra_network_analytical.Aware.Simulation.{arrive_next_device, invoke}

-- A valid queue stays valid, at the same time.
abbrev Keeps : EventQueue Event → EventQueue Event → Type 0
Keeps q q' = IsValid q → IsValid q' × (q'.current_time ≡ q.current_time)

Keeps-trans : (q r s : EventQueue Event) → Keeps q r → Keeps r s → Keeps q s
Keeps-trans q r s h k v = let (v', e) = h v in let (v'', e') = k v' in (v'', e' ∙ e)

module _ {W : Type 0} ⦃d : Double W⦄ where
  schedule_events-Keeps :
      (l : Link W) (i j : ℕ) (c : Chunk) (q q' : EventQueue Event)
      → schedule_events l i j c q ≡ ok q'
      → Keeps q q'
  unfolding schedule_events
  schedule_events-Keeps l i j c q q' h =
      let (size, _, h₁) = >>=-eq-ok (get_size c) _ h in
      let (src, _, h₂) = >>=-eq-ok (current_device c) _ h₁ in
      let (next, _, h₃) = >>=-eq-ok (next_device c) _ h₂ in
      let (time, _, h₄) = >>=-eq-ok (communication_delay l size) _ h₃ in
      let (arriving, first, h₅) =
        >>=-eq-ok (schedule_event q _ (chunk_arrived_next_device c)) _ h₄ in
      let (time', _, second) = >>=-eq-ok (serialization_delay l size) _ h₅ in
      Keeps-trans q arriving q' (λ v. schedule_event-IsValid q _ _ arriving v first)
        (λ v. schedule_event-IsValid arriving _ _ q' v second)

  transmission-Keeps :
      (i j : ℕ) (c : Chunk) (w w' : World W)
      → schedule_chunk_transmission i j c w ≡ ok w'
      → Keeps w.queue w'.queue
  unfolding schedule_chunk_transmission
  transmission-Keeps i j c w w' h =
      let (link, _, h₁) = >>=-eq-ok (or_fail Error.undefined (link_at w.state.devices i j)) _ h in
      let (_, h₂) = check-eq-ok (not link.busy) assertion _ h₁ in
      let (q, scheduled, made) = >>=-eq-ok (schedule_events link i j c w.queue) _ h₂ in
      subst (λ v. Keeps w.queue v.queue) (ok-injective made)
        (schedule_events-Keeps link i j c w.queue q scheduled)

  link_send-Keeps :
      (i j : ℕ) (c : Chunk) (w w' : World W) → Link.send i j c w ≡ ok w' → Keeps w.queue w'.queue
  unfolding Link.send
  link_send-Keeps i j c w w' h =
      let (link, _, sent) = >>=-eq-ok (or_fail Error.undefined (link_at w.state.devices i j)) _ h in
      elim (if-eq-ok link.busy _ (schedule_chunk_transmission i j c w) sent) [
        | inl (_, waits) ↦ subst (λ v. Keeps w.queue v.queue) (ok-injective waits) (λ v. (v, refl))
        | inr (_, goes) ↦ transmission-Keeps i j c w w' goes
      ]

  process_first-Keeps :
      (i j : ℕ) (link : Link W) (cs : List Chunk) (w w' : World W)
      → process_first i j link cs w ≡ ok w'
      → Keeps w.queue w'.queue
  unfolding process_first
  process_first-Keeps i j link [] w w' h = cc
  process_first-Keeps i j link (c ∷ cs) w w' h =
      transmission-Keeps i j c (with_link w i j (record link { pending_chunks = cs })) w' h

  process_pending-Keeps :
      (i j : ℕ) (w w' : World W)
      → process_pending_transmission i j w ≡ ok w'
      → Keeps w.queue w'.queue
  unfolding process_pending_transmission
  process_pending-Keeps i j w w' h =
      let (link, _, goes) = >>=-eq-ok (or_fail Error.undefined (link_at w.state.devices i j)) _ h in
      process_first-Keeps i j link link.pending_chunks w w' goes

  become_free-Keeps :
      (i j : ℕ) (w w' : World W) → become_free i j w ≡ ok w' → Keeps w.queue w'.queue
  unfolding become_free
  become_free-Keeps i j w w' h =
      let (link, _, freed) =
        >>=-eq-ok (or_fail Error.undefined (link_at w.state.devices i j)) _ h in
      let released : World W = with_link w i j (set_free link) in
      elim (if-eq-ok (pending_chunk_exists link.pending_chunks)
        (process_pending_transmission i j released) (ok released) freed) [
          | inl (_, goes) ↦ process_pending-Keeps i j released w' goes
          | inr (_, done) ↦ subst (λ v. Keeps w.queue v.queue) (ok-injective done) (λ v. (v, refl))
        ]

  device_send-Keeps :
      (i : ℕ) (c : Chunk) (w w' : World W) → Device.send i c w ≡ ok w' → Keeps w.queue w'.queue
  unfolding Device.send
  device_send-Keeps i c w w' h =
      let (device, _, h₁) = >>=-eq-ok (or_fail Error.undefined (get_elem? w.state.devices i)) _ h in
      let (current, _, h₂) = >>=-eq-ok (current_device c) _ h₁ in
      let (_, h₃) = check-eq-ok (current == device.device_id) assertion _ h₂ in
      let (_, h₄) = check-eq-ok (not (arrived_dest c)) assertion _ h₃ in
      let (next, _, h₅) = >>=-eq-ok (next_device c) _ h₄ in
      let (_, sent) = check-eq-ok (connected device next) assertion _ h₅ in
      link_send-Keeps i next c w w' sent

  pub topology_send-Keeps :
      (c : Chunk) (w w' : World W) → Topology.send c w ≡ ok w' → Keeps w.queue w'.queue
  unfolding Topology.send
  topology_send-Keeps c w w' h =
      let (src, _, h₁) = >>=-eq-ok (current_device c) _ h in
      let (_, sent) = check-eq-ok (ltb src w.state.devices_count) assertion _ h₁ in
      device_send-Keeps src c w w' sent

  -- Callbacks of chunks that keep the clock and the queue's order give events that do.
  module _ (client : ℕ → ℕ → World W → Outcome (World W)) where
    abbrev pub ClientKeeps : Type 0
    ClientKeeps =
        (callback arg : ℕ) (w w' : World W) → client callback arg w ≡ ok w' → Keeps w.queue w'.queue

    arrive_next_device-Keeps :
        (c : Chunk) (w w' : World W)
        → ClientKeeps
        → arrive_next_device client c w ≡ ok w'
        → Keeps w.queue w'.queue
    unfolding arrive_next_device
    arrive_next_device-Keeps c w w' keeps h =
        let (c', _, arrived) = >>=-eq-ok (mark_arrived_next_device c) _ h in
        elim (if-eq-ok (arrived_dest c') (client c'.callback c'.callback_arg w) _ arrived) [
          | inl (_, called) ↦ keeps c'.callback c'.callback_arg w w' called
          | inr (_, forwarded) ↦
              let (node, _, sent) = >>=-eq-ok (current_device c') _ forwarded in
              device_send-Keeps node c' w w' sent
        ]

    -- An event of the simulator that succeeds leaves the clock alone and a valid queue valid, if the
    -- chunks' own callbacks do.
    pub invoke-IsScheduler : ClientKeeps → IsScheduler (invoke client)
    unfolding invoke
    invoke-IsScheduler keeps (chunk_arrived_next_device c) w w' v h =
        arrive_next_device-Keeps c w w' keeps h v
    invoke-IsScheduler keeps (link_become_free i j) w w' v h = become_free-Keeps i j w w' h v
