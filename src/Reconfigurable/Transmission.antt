-- ===== src/Reconfigurable/Transmission.antt =====
-- A chunk that a device puts on a link: from `send`, and from the queue when the link becomes free.
mod Examples
use native.Mathlib.Nat.{mod-eq_of_lt}
use astra_network_analytical.Base.{
  ℕ, ◌+◌, ◌%◌, ◌^◌, ◌<◌, ◌≤◌, ◌≡◌, refl, ◌∙◌, sym, ap, subst, true, false, not, List, [], ◌∷◌, some,
  get_elem?, Outcome, Error, ok, or_fail, ◌>>=◌, ◌>>◌, arith, lt→ltb, ltb, ◌==◌,
}
use astra_network_analytical.Base.Int.{pos, ltb_ℤ}
use astra_network_analytical.Base.Maps.{find, find_or, put}
use astra_network_analytical.Double.{Double}
use astra_network_analytical.EventQueue.{EventQueue, schedule_event}
use astra_network_analytical.EventQueue.Invariant.{IsValid}
use astra_network_analytical.EventQueue.Order.{entries, insert_stable, schedule_event-entries}
use astra_network_analytical.Reconfigurable.State.{
  Chunk, Link, Device, Event, chunk_arrived_next_device, link_become_free, World, devices_of,
  with_device,
}
use astra_network_analytical.Reconfigurable.Chunk.{get_size, update_route}
use astra_network_analytical.Reconfigurable.Link
use astra_network_analytical.Reconfigurable.Link.{
  Sent, set_busy, set_free, serialization_delay, communication_delay, schedule_chunk_transmission,
}
use astra_network_analytical.Reconfigurable.Device
use astra_network_analytical.Reconfigurable.Device.{connected, must_wait, transmit}
use astra_network_analytical.Reconfigurable.Manager.{become_free, serve_pending}
use astra_network_analytical.Reconfigurable.Forward.{current_device-ok, next_device-ok, not_arrived}

get_size-ok : (c : Chunk) → 0 < c.chunk_size → get_size c ≡ ok c.chunk_size
unfolding get_size
get_size-ok c h = rw (lt→ltb 0 c.chunk_size h) refl

module _ {W : Type 0} ⦃d : Double W⦄ where
  -- The chunk is not empty, and its two delays on the link are defined and end within the range of
  -- the clock.
  pub record CanTransmit (l : Link W) (c : Chunk) (now communication serialization : ℕ)
      : Type 0 where
    pub sized : 0 < c.chunk_size
    pub arrival : communication_delay l c.chunk_size ≡ ok communication
    pub release : serialization_delay l c.chunk_size ≡ ok serialization
    pub arrival_fits : now + communication < 2 ^ 64
    pub release_fits : now + serialization < 2 ^ 64

  link_send-sent :
      (l : Link W) (c : Chunk) (q : EventQueue Event) (ct st : ℕ)
      → l.busy ≡ false
      → IsValid q
      → CanTransmit l c q.current_time ct st
      → (q' : EventQueue Event) × (Link.send l c q
          ≡ ok (record { link = set_busy l; queue = q'; link_free_time = q.current_time + st }))
        × (entries q'.event_queue
            ≡ insert_stable
                (q.current_time + ct)
                (chunk_arrived_next_device c)
                (entries q.event_queue))
        × IsValid q'
        × (q'.current_time ≡ q.current_time)
  unfolding Link.send schedule_chunk_transmission
  link_send-sent l c q ct st idle v can =
      let (q', scheduled, list, valid, same) =
        schedule_event-entries q (q.current_time + ct) (chunk_arrived_next_device c) v
          (omega arith) in
      let no_wrap : (q.current_time + ct) % 2 ^ 64 ≡ q.current_time + ct =
        mod-eq_of_lt can.arrival_fits in
      let no_wrap' : (q.current_time + st) % 2 ^ 64 ≡ q.current_time + st =
        mod-eq_of_lt can.release_fits in
      (
        q',
        rw (idle, get_size-ok c can.sized)
            (rw (can.arrival, no_wrap) (rw (scheduled, can.release, no_wrap') refl)),
        list,
        valid,
        same,
      )

  -- Device i is left as given but with its link to `id` busy, and the two events are scheduled, the
  -- arrival, then the link becoming free, each behind the events of its time.
  abbrev pub Departs :
      ℕ → ℕ → Device W → Link W → Chunk → ℕ → ℕ → World W → Outcome (World W) → Type 0
  Departs i id device link c ct st w result =
      (q : EventQueue Event) × (result
        ≡ ok
            (record (with_device w i
              (record device { links = put id (set_busy link) device.links })) { queue = q }))
      × (entries q.event_queue
          ≡ insert_stable (w.queue.current_time + st) (link_become_free i id) (
              insert_stable (w.queue.current_time + ct) (chunk_arrived_next_device c)
                (entries w.queue.event_queue)))
      × IsValid q
      × (q.current_time ≡ w.queue.current_time)

  transmit-Departs :
      (i id : ℕ) (device : Device W) (link : Link W) (c : Chunk) (w : World W) (ct st : ℕ)
      → link.busy ≡ false
      → IsValid w.queue
      → CanTransmit link c w.queue.current_time ct st
      → Departs i id device link c ct st w (transmit i id device link c w)
  unfolding transmit
  transmit-Departs i id device link c w ct st idle v can =
      let (q₁, sent, list₁, valid₁, same₁) = link_send-sent link c w.queue ct st idle v can in
      let frees = w.queue.current_time + st in
      let (q₂, scheduled, list₂, valid₂, same₂) =
        schedule_event-entries q₁ frees (link_become_free i id) valid₁ (omega (arith, same₁)) in
      (
        q₂,
        rw sent (rw scheduled refl),
        list₂ ∙ ap (insert_stable frees (link_become_free i id)) list₁,
        valid₂,
        same₂ ∙ same₁,
      )

  -- On a valid queue, a chunk at device i, whose table has a route over `next` to the second device
  -- of the chunk's route, departs on the link to `next` where it need not wait and the link can
  -- transmit it: with the route of the table, the link busy, and the two events scheduled.
  pub device_send-Departs :
      (i j next : ℕ) (rest more : List ℕ) (device : Device W) (link : Link W) (c : Chunk)
      (w : World W) (ct st : ℕ)
      → get_elem? (devices_of w) i ≡ some device
      → device.device_id ≡ i
      → c.route ≡ i ∷ j ∷ rest
      → find_or [] j device.routes ≡ i ∷ next ∷ more
      → find next device.links ≡ some link
      → must_wait device link (update_route c (i ∷ next ∷ more) c.topology_iteration) ≡ false
      → IsValid w.queue
      → CanTransmit link c w.queue.current_time ct st
      → Departs i next device link
          (update_route c (i ∷ next ∷ more) c.topology_iteration)
          ct
          st
          w
          (Device.send i c w)
  unfolding Device.send
  device_send-Departs i j next rest more device link c w ct st at id route table has goes v can =
      let routed = update_route c (i ∷ next ∷ more) c.topology_iteration in
      let here : (i == device.device_id) ≡ true = ground arith in
      let ready : CanTransmit link routed w.queue.current_time ct st = record {
        sized = can.sized;
        arrival = can.arrival;
        release = can.release;
        arrival_fits = can.arrival_fits;
        release_fits = can.release_fits;
      } in
      let idle : link.busy ≡ false = ground arith in
      let runs : Device.send i c w ≡ transmit i next device link routed w = rw at (
        rw (current_device-ok c i (j ∷ rest) route, here, not_arrived c i j rest route)
          (rw (next_device-ok c i j rest route, table)
            (rw (next_device-ok routed i next more refl, has, goes) refl))) in
      subst (Departs i next device link routed ct st w) (sym runs)
        (transmit-Departs i next device link routed w ct st idle v ready)

  -- On a valid queue, when the link of device i to `link_id` becomes free, the first of the chunks
  -- that wait for it departs on it, if it is not of a later topology and the link can transmit it;
  -- the others go on waiting.
  pub become_free-Departs :
      (i link_id : ℕ) (device : Device W) (link : Link W) (c : Chunk) (cs : List Chunk)
      (w : World W) (ct st : ℕ)
      → get_elem? (devices_of w) i ≡ some device
      → find link_id device.links ≡ some link
      → find_or [] link_id device.pending_chunks ≡ c ∷ cs
      → ltb_ℤ (pos device.topology_iteration) c.topology_iteration ≡ false
      → IsValid w.queue
      → CanTransmit link c w.queue.current_time ct st
      → Departs i link_id
          (record device {
            links = put link_id (set_free link) device.links;
            pending_chunks = put link_id cs device.pending_chunks;
          })
          (set_free link)
          c
          ct
          st
          (with_device w i (record device { links = put link_id (set_free link) device.links }))
          (become_free i link_id w)
  unfolding become_free serve_pending serialization_delay communication_delay
  become_free-Departs i link_id device link c cs w ct st at has waits due v can =
      let freed = record device { links = put link_id (set_free link) device.links } in
      let served = record freed { pending_chunks = put link_id cs device.pending_chunks } in
      let ready : CanTransmit (set_free link) c w.queue.current_time ct st = record {
        sized = can.sized;
        arrival = can.arrival;
        release = can.release;
        arrival_fits = can.arrival_fits;
        release_fits = can.release_fits;
      } in
      let runs : become_free i link_id w
          ≡ transmit i link_id served (set_free link) c (with_device w i freed) =
        rw at (rw has (rw waits (rw due refl))) in
      subst (Departs i link_id served (set_free link) c ct st (with_device w i freed)) (sym runs) (
        transmit-Departs i link_id served (set_free link) c (with_device w i freed) ct st refl v
          ready)
