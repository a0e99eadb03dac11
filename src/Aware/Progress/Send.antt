-- ===== src/Aware/Progress/Send.antt =====
-- Sending succeeds: on a network that is ready, a chunk that travels over wires is transmitted or
-- waits, and no assertion fails.
use astra_network_analytical.Base.{
  ℕ, suc, ◌+◌, ◌*◌, ◌^◌, ◌≤◌, ◌<◌, ◌≡◌, refl, ap, sym, subst, inl, inr, true, false, List, [], ◌∷◌,
  ◌++◌, length, some, All, All-append, Bool-cases, ◌==◌, leb, Outcome, ok, arith, lt→ltb, if_yes,
}
use astra_network_analytical.Double.{Double}
use astra_network_analytical.EventQueue.{EventQueue}
use astra_network_analytical.EventQueue.Invariant.{IsValid}
use astra_network_analytical.EventQueue.Order.{entries, insert_stable}
use astra_network_analytical.Aware.State.{
  Chunk, Link, Device, Event, chunk_arrived_next_device, link_become_free, World, link_at, set_link,
  with_link,
}
use astra_network_analytical.Aware.Chunk.{arrived_dest}
use astra_network_analytical.Aware.Link
use astra_network_analytical.Aware.Link.{
  communication_delay, serialization_delay, schedule_events, schedule_chunk_transmission, set_busy,
}
use astra_network_analytical.Aware.Device
use astra_network_analytical.Aware.Device.{connected}
use astra_network_analytical.Aware.Topology
use astra_network_analytical.Aware.Transmission.{
  CanTransmit, schedule_events-entries, link_send-idle, current_device-ok, next_device-ok,
}
use astra_network_analytical.Aware.Progress.{
  HasIds, Travels, IsReady, IsNetwork, set_link-IsNetwork, link_at-device,
}

insert_stable-All :
    {E : Type 0} (P : ℕ × E → Type 0) (t : ℕ) (e : E) (r : List (ℕ × E))
    → P (t, e)
    → All P r
    → All P (insert_stable t e r)
unfolding insert_stable
insert_stable-All P t e [] p a = (p, tt)
insert_stable-All P t e ((u, x) ∷ r) p a = elim (Bool-cases (leb u t)) [
  | inl before ↦ rw before (a.0, insert_stable-All P t e r p a.1)
  | inr behind ↦ rw behind (p, a)
]

module _ {W : Type 0} ⦃d : Double W⦄ where
  pub transmission_runs :
      (l : Link W) (i j : ℕ) (c : Chunk) (w : World W) (q : EventQueue Event)
      → link_at w.state.devices i j ≡ some l
      → l.busy ≡ false
      → schedule_events l i j c w.queue ≡ ok q
      → schedule_chunk_transmission i j c w
        ≡ ok (record (with_link w i j (set_busy l)) { queue = q })
  unfolding schedule_chunk_transmission
  transmission_runs l i j c w q at idle scheduled = rw at (rw idle (rw scheduled refl))

  link_send-busy :
      (l : Link W) (i j : ℕ) (c : Chunk) (w : World W)
      → link_at w.state.devices i j ≡ some l
      → l.busy ≡ true
      → Link.send i j c w
        ≡ ok (with_link w i j (record l { pending_chunks = l.pending_chunks ++ c ∷ [] }))
  unfolding Link.send
  link_send-busy l i j c w at busy = rw at (if_yes l.busy _ _ busy)

  -- The assertions of Device::send hold for a chunk at a device with its id and a link to the next.
  pub device_send-link :
      (i j : ℕ) (rest : List ℕ) (c : Chunk) (l : Link W) (w : World W)
      → HasIds 0 w.state.devices
      → link_at w.state.devices i j ≡ some l
      → c.route ≡ i ∷ j ∷ rest
      → Device.send i c w ≡ Link.send i j c w
  unfolding Device.send
  device_send-link i j rest c l w ids at route =
      let (device, here, id, link) = link_at-device 0 w.state.devices i j ids at in
      let its_own : (i == device.device_id) ≡ true = ground arith in
      let goes_on : arrived_dest c ≡ false = ground (arith, ap length route) in
      rw here (
        rw (current_device-ok c i (j ∷ rest) route, its_own, goes_on)
          (rw (next_device-ok c i j rest route, link) refl))

  pub topology_send-device :
      (i : ℕ) (r : List ℕ) (c : Chunk) (w : World W)
      → i < w.state.devices_count
      → c.route ≡ i ∷ r
      → Topology.send c w ≡ Device.send i c w
  unfolding Topology.send
  topology_send-device i r c w low route =
      rw (current_device-ok c i r route) (rw (lt→ltb i w.state.devices_count low) refl)

-- The wires, the sizes of chunks, a bound on every delay, and the last time that may be reached.
module _ (Wired : ℕ → ℕ → Type 0) (Sized : ℕ → Type 0) (longest end : ℕ) where
  abbrev pub IsFit : Event → Type 0
  IsFit (chunk_arrived_next_device c) = (i j : ℕ) × Travels Wired Sized i j c
  IsFit (link_become_free i j) = Unit

  -- An event early enough for k more delays behind it.
  abbrev pub IsDue : ℕ → ℕ × Event → Type 0
  IsDue k p = IsFit p.1 × (p.0 + longest * k ≤ end)

  module _ {W : Type 0} ⦃d : Double W⦄ where
    -- A state with room for k more delays behind the events that the next one schedules.
    abbrev pub IsSteady : ℕ → World W → Type 0
    IsSteady k w =
        IsValid w.queue
        × IsNetwork Wired Sized longest w.state.devices
        × All (IsDue k) (entries w.queue.event_queue)
        × (w.queue.current_time + longest * suc k ≤ end)

    -- Nothing but the devices of the topology changes.
    abbrev pub Keeps : World W → World W → Type 0
    Keeps w w' = (ds : List (Device W)) × (w'.state ≡ record (w.state) { devices = ds })

    -- The call succeeds, in such a state again and at the same time.
    abbrev pub Succeeds : ℕ → World W → Outcome (World W) → Type 0
    Succeeds k w result =
        (w' : World W) × (result ≡ ok w')
        × IsSteady k w'
        × (w'.queue.current_time ≡ w.queue.current_time)
        × Keeps w w'

    module _ (in_range : end < 2 ^ 64) where
      pub transmission-Succeeds :
          (k i j : ℕ) (c : Chunk) (l : Link W) (w : World W)
          → link_at w.state.devices i j ≡ some l
          → l.busy ≡ false
          → IsReady Wired Sized longest i j l
          → Travels Wired Sized i j c
          → IsSteady k w
          → Succeeds k w (schedule_chunk_transmission i j c w)
      unfolding communication_delay serialization_delay
      transmission-Succeeds k i j c l w at idle ready travels (valid, network, due, room) =
          let (sized, rest, route, path) = travels in
          let (some_size, ct, st, arrival, release, ct_short, st_short) =
            ready.0 c.chunk_size sized in
          let can : CanTransmit l i j c w.queue.current_time ct st = record {
            rest = rest;
            on_route = route;
            sized = some_size;
            arrival = arrival;
            release = release;
            arrival_fits = omega arith;
            release_fits = omega arith;
          } in
          let (q, scheduled, list, valid', same) =
            schedule_events-entries l i j c w.queue ct st valid can in
          (
            record (with_link w i j (set_busy l)) { queue = q },
            transmission_runs l i j c w q at idle scheduled,
            (
              valid',
              set_link-IsNetwork Wired Sized longest w.state.devices i j l (set_busy l) at ready
                  network,
              subst (All (IsDue k)) (sym list) (
                  insert_stable-All (IsDue k) _ (link_become_free i j) _ (tt, omega arith)
                    (insert_stable-All (IsDue k) _ (chunk_arrived_next_device c) _
                      ((i, j, travels), omega arith) due)),
              omega (arith, same),
            ),
            same,
            (set_link w.state.devices i j (set_busy l), refl),
          )

      pub link_send-Succeeds :
          (k i j : ℕ) (c : Chunk) (l : Link W) (w : World W)
          → link_at w.state.devices i j ≡ some l
          → Travels Wired Sized i j c
          → IsSteady k w
          → Succeeds k w (Link.send i j c w)
      unfolding communication_delay serialization_delay
      link_send-Succeeds k i j c l w at travels steady =
          let (valid, network, due, room) = steady in
          let (timed, waiting) = network.2 i j l at in
          let queued : Link W = record l { pending_chunks = l.pending_chunks ++ c ∷ [] } in
          elim (Bool-cases l.busy) [
            | inl busy ↦ (
              with_link w i j queued,
              link_send-busy l i j c w at busy,
              (
                valid,
                set_link-IsNetwork Wired Sized longest w.state.devices i j l queued at
                    (
                      timed,
                      All-append (Travels Wired Sized i j) l.pending_chunks (c ∷ []) waiting
                          (travels, tt),
                    )
                    network,
                due,
                room,
              ),
              refl,
              (set_link w.state.devices i j queued, refl),
            )
            | inr idle ↦
                subst (Succeeds k w) (sym (link_send-idle l i j c w at idle))
                  (transmission-Succeeds k i j c l w at idle (timed, waiting) travels steady)
          ]

      pub device_send-Succeeds :
          (k i j : ℕ) (c : Chunk) (w : World W)
          → Travels Wired Sized i j c
          → IsSteady k w
          → Succeeds k w (Device.send i c w)
      device_send-Succeeds k i j c w travels steady =
          let (sized, rest, route, path) = travels in
          let (_, (ids, wired, _), _, _) = steady in
          let (l, at) = wired i j path.0 in
          subst (Succeeds k w) (sym (device_send-link i j rest c l w ids at route))
            (link_send-Succeeds k i j c l w at travels steady)

      pub topology_send-Succeeds :
          (k i j : ℕ) (c : Chunk) (w : World W)
          → i < w.state.devices_count
          → Travels Wired Sized i j c
          → IsSteady k w
          → Succeeds k w (Topology.send c w)
      topology_send-Succeeds k i j c w low travels steady =
          let (_, rest, route, _) = travels in
          subst (Succeeds k w) (sym (topology_send-device i (j ∷ rest) c w low route))
            (device_send-Succeeds k i j c w travels steady)
