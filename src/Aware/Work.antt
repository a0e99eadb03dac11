-- ===== src/Aware/Work.antt =====
-- What the simulator does to sums over the chunks and events in flight, for weights of a pending
-- chunk and of the events that balance: its transmission gives an arrival and a link that frees.
pub mod Steps
pub mod Termination
use astra_network_analytical.Base.{
  ℕ, suc, ◌+◌, ◌*◌, ◌≤◌, ◌≡◌, refl, ◌∙◌, sym, ap, subst, Bool, true, false, not, List, [], ◌∷◌,
  ◌++◌, Option, some, none, length, ltb, if◌then◌else◌, ◌==◌, arith, Outcome, Error, ok, fail,
  ◌>>=◌, ◌>>◌, assert, assertion, or_fail, >>=-eq-ok, check-eq-ok, or_fail-eq-ok, ok-injective,
  Bool-cases, if-eq-ok, get_elem?, inl, inr,
}
use astra_network_analytical.Double.{Double}
use astra_network_analytical.EventQueue.{EventQueue, schedule_event}
use astra_network_analytical.EventQueue.Weight.{sum, sum-append, weight, weight-schedule_event}
use astra_network_analytical.Aware.State.{
  Chunk, Link, Device, Event, chunk_arrived_next_device, link_become_free, World, link_at, set_link,
  with_link,
}
use astra_network_analytical.Aware.State.Laws.{link_at-set_link_self}
use astra_network_analytical.Aware.State.Weight.{pending_weight, pending_weight-set_link}
use astra_network_analytical.Aware.Chunk.{current_device, next_device, get_size, arrived_dest}
use astra_network_analytical.Aware.Link
use astra_network_analytical.Aware.Link.{
  schedule_events, schedule_chunk_transmission, process_first, process_pending_transmission,
  become_free, set_busy, set_free, pending_chunk_exists, communication_delay, serialization_delay,
}
use astra_network_analytical.Aware.Device
use astra_network_analytical.Aware.Device.{connected}
use astra_network_analytical.Aware.Topology

next_device-length : (c : Chunk) {j : ℕ} → next_device c ≡ ok j → 2 ≤ length c.route
unfolding next_device
next_device-length c h = ground arith

abbrev pub total : {W : Type 0} → (Chunk → ℕ) → (Event → ℕ) → World W → ℕ
total g f w = pending_weight g w.state.devices + weight f w.queue.event_queue

-- A chunk that still has a hop to go weighs as much as the events of its transmission.
abbrev pub IsBalanced : (Chunk → ℕ) → (Event → ℕ) → Type 0
IsBalanced g f =
    (c : Chunk) (i j : ℕ)
    → 2 ≤ length c.route
    → g c ≡ f (chunk_arrived_next_device c) + f (link_become_free i j)

module _ {W : Type 0} ⦃d : Double W⦄ (g : Chunk → ℕ) (f : Event → ℕ) where
  pub weight-schedule_events :
      (l : Link W) (i j : ℕ) (c : Chunk) (q q' : EventQueue Event)
      → schedule_events l i j c q ≡ ok q'
      → (2 ≤ length c.route)
        × (weight f q'.event_queue
            ≡ weight f q.event_queue + f (chunk_arrived_next_device c) + f (link_become_free i j))
  unfolding schedule_events
  weight-schedule_events l i j c q q' h =
      let (size, _, h₁) = >>=-eq-ok (get_size c) _ h in
      let (src, _, h₂) = >>=-eq-ok (current_device c) _ h₁ in
      let (next, has_next, h₃) = >>=-eq-ok (next_device c) _ h₂ in
      let (time, _, h₄) = >>=-eq-ok (communication_delay l size) _ h₃ in
      let (arriving, first, h₅) =
        >>=-eq-ok (schedule_event q _ (chunk_arrived_next_device c)) _ h₄ in
      let (time', _, second) = >>=-eq-ok (serialization_delay l size) _ h₅ in
      (
        next_device-length c has_next,
        omega (
          arith,
          weight-schedule_event f q _ (chunk_arrived_next_device c) arriving first,
          weight-schedule_event f arriving _ (link_become_free i j) q' second,
        ),
      )

  total-schedule_chunk_transmission :
      (i j : ℕ) (c : Chunk) (w w' : World W)
      → schedule_chunk_transmission i j c w ≡ ok w'
      → (2 ≤ length c.route)
        × (total g f w' ≡ total g f w + f (chunk_arrived_next_device c) + f (link_become_free i j))
  unfolding schedule_chunk_transmission
  total-schedule_chunk_transmission i j c w w' h =
      let (link, found, h₁) =
        >>=-eq-ok (or_fail Error.undefined (link_at w.state.devices i j)) _ h in
      let (free, h₂) = check-eq-ok (not link.busy) assertion _ h₁ in
      let (q, scheduled, made) = >>=-eq-ok (schedule_events link i j c w.queue) _ h₂ in
      let (long, weighs) = weight-schedule_events link i j c w.queue q scheduled in
      (
        long,
        subst
            (λ v.
              total g f v
              ≡ total g f w + f (chunk_arrived_next_device c) + f (link_become_free i j))
            (ok-injective made)
            (omega (
              arith,
              weighs,
              pending_weight-set_link g w.state.devices i j link (set_busy link)
                  (or_fail-eq-ok Error.undefined _ found),
            )),
      )

  -- A chunk handed to a link adds its weight, whether it waits or is transmitted at once.
  pub total-link_send :
      (i j : ℕ) (c : Chunk) (w w' : World W)
      → IsBalanced g f
      → Link.send i j c w ≡ ok w'
      → total g f w' ≡ total g f w + g c
  unfolding Link.send
  total-link_send i j c w w' b h =
      let (link, found, sent) =
        >>=-eq-ok (or_fail Error.undefined (link_at w.state.devices i j)) _ h in
      let at = or_fail-eq-ok Error.undefined (link_at w.state.devices i j) found in
      let queued : Link W = record link { pending_chunks = link.pending_chunks ++ c ∷ [] } in
      elim (if-eq-ok link.busy (ok (with_link w i j queued)) (schedule_chunk_transmission i j c w)
        sent) [
          | inl (busy, waits) ↦
              subst (λ v. total g f v ≡ total g f w + g c) (ok-injective waits)
                (omega (
                  arith,
                  sum-append g link.pending_chunks (c ∷ []),
                  pending_weight-set_link g w.state.devices i j link queued at,
                ))
          | inr (idle, goes) ↦
              let (long, weighs) = total-schedule_chunk_transmission i j c w w' goes in
              omega (arith, weighs, b c i j long)
        ]

  total-process_first :
      (i j : ℕ) (link : Link W) (cs : List Chunk) (w w' : World W)
      → IsBalanced g f
      → link_at w.state.devices i j ≡ some link
      → link.pending_chunks ≡ cs
      → process_first i j link cs w ≡ ok w'
      → total g f w' ≡ total g f w
  unfolding process_first
  total-process_first i j link [] w w' b at e h = cc
  total-process_first i j link (c ∷ cs) w w' b at e h =
      let (long, weighs) =
        total-schedule_chunk_transmission i j c
          (with_link w i j (record link { pending_chunks = cs })) w' h in
      omega (
        arith,
        weighs,
        b c i j long,
        ap (sum g) e,
        pending_weight-set_link g w.state.devices i j link (record link { pending_chunks = cs }) at,
      )

  total-process_pending :
      (i j : ℕ) (link : Link W) (w w' : World W)
      → IsBalanced g f
      → link_at w.state.devices i j ≡ some link
      → process_pending_transmission i j w ≡ ok w'
      → total g f w' ≡ total g f w
  unfolding process_pending_transmission
  total-process_pending i j link w w' b at h =
      total-process_first i j link link.pending_chunks w w' b at refl (rw (at, or_fail) at h)

  -- A link that becomes free only moves a chunk, if one waits, from its queue to the events.
  pub total-become_free :
      (i j : ℕ) (w w' : World W)
      → IsBalanced g f
      → become_free i j w ≡ ok w'
      → total g f w' ≡ total g f w
  unfolding become_free
  total-become_free i j w w' b h =
      let (link, found, freed) =
        >>=-eq-ok (or_fail Error.undefined (link_at w.state.devices i j)) _ h in
      let at = or_fail-eq-ok Error.undefined (link_at w.state.devices i j) found in
      let released : World W = with_link w i j (set_free link) in
      let same = pending_weight-set_link g w.state.devices i j link (set_free link) at in
      elim (if-eq-ok (pending_chunk_exists link.pending_chunks)
        (process_pending_transmission i j released) (ok released) freed) [
          | inl (waits, goes) ↦ omega (
            arith,
            same,
            total-process_pending i j (set_free link) released w' b
                (link_at-set_link_self w.state.devices i j link (set_free link) at) goes,
          )
          | inr (none_waits, done) ↦
              subst (λ v. total g f v ≡ total g f w) (ok-injective done) (omega (arith, same))
        ]

  -- So a chunk that a device or the topology is given to send adds its weight.
  pub total-device_send :
      (i : ℕ) (c : Chunk) (w w' : World W)
      → IsBalanced g f
      → Device.send i c w ≡ ok w'
      → total g f w' ≡ total g f w + g c
  unfolding Device.send
  total-device_send i c w w' b h =
      let (device, _, h₁) = >>=-eq-ok (or_fail Error.undefined (get_elem? w.state.devices i)) _ h in
      let (current, _, h₂) = >>=-eq-ok (current_device c) _ h₁ in
      let (_, h₃) = check-eq-ok (current == device.device_id) assertion _ h₂ in
      let (_, h₄) = check-eq-ok (not (arrived_dest c)) assertion _ h₃ in
      let (next, _, h₅) = >>=-eq-ok (next_device c) _ h₄ in
      let (_, sent) = check-eq-ok (connected device next) assertion _ h₅ in
      total-link_send i next c w w' b sent

  pub total-topology_send :
      (c : Chunk) (w w' : World W)
      → IsBalanced g f
      → Topology.send c w ≡ ok w'
      → total g f w' ≡ total g f w + g c
  unfolding Topology.send
  total-topology_send c w w' b h =
      let (src, _, h₁) = >>=-eq-ok (current_device c) _ h in
      let (_, sent) = check-eq-ok (ltb src w.state.devices_count) assertion _ h₁ in
      total-device_send src c w w' b sent
