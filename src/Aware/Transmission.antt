-- ===== src/Aware/Transmission.antt =====
-- Link::send on both branches: what it does to the link and to the sequence of timed events.
mod Examples
use native.Mathlib.Nat.{mod-eq_of_lt}
use astra_network_analytical.Base.{
  ℕ, ◌+◌, ◌%◌, ◌^◌, ◌<◌, ◌≤◌, ◌≡◌, refl, ◌∙◌, sym, ap, subst, true, false, not, List, [], ◌∷◌, ◌++◌,
  some, ltb, Outcome, Error, ok, or_fail, ◌>>=◌, arith, lt→ltb, length, ◌==◌, leb, le→leb,
}
use astra_network_analytical.Double.{Double}
use astra_network_analytical.EventQueue.{EventQueue, schedule_event}
use astra_network_analytical.EventQueue.Invariant.{IsValid}
use astra_network_analytical.EventQueue.Order.{entries, insert_stable, schedule_event-entries}
use astra_network_analytical.Aware.State.{
  Chunk, Link, Event, chunk_arrived_next_device, link_become_free, World, link_at, set_link,
  with_link,
}
use astra_network_analytical.Aware.State.Laws.{link_at-set_link_self}
use astra_network_analytical.Aware.Chunk.{current_device, next_device, get_size, front, second}
use astra_network_analytical.Aware.Link
use astra_network_analytical.Aware.Link.{
  schedule_events, schedule_chunk_transmission, serialization_delay, communication_delay, set_busy,
  set_free, become_free, pending_chunk_exists, process_pending_transmission, process_first,
}

-- The arrival, then the link becoming free, each behind the events of its time.
abbrev pub with_events : ℕ → ℕ → Chunk → ℕ → ℕ → List (ℕ × Event) → List (ℕ × Event)
with_events i j c arrives frees es =
    insert_stable frees (link_become_free i j)
      (insert_stable arrives (chunk_arrived_next_device c) es)

get_size-ok : (c : Chunk) → 0 < c.chunk_size → get_size c ≡ ok c.chunk_size
unfolding get_size
get_size-ok c h = rw (lt→ltb 0 c.chunk_size h) refl

pub current_device-ok : (c : Chunk) (i : ℕ) (r : List ℕ) → c.route ≡ i ∷ r → current_device c ≡ ok i
unfolding current_device
current_device-ok c i r h = ap front h

pub next_device-ok : (c : Chunk) (i j : ℕ) (r : List ℕ) → c.route ≡ i ∷ j ∷ r → next_device c ≡ ok j
unfolding next_device
next_device-ok c i j r h =
    let longer : (length c.route == 1) ≡ false = ground (arith, ap length h) in
    rw longer (ap second h)

module _ {W : Type 0} ⦃d : Double W⦄ where
  -- The chunk stands at device i with device j next, it is not empty, and the two delays on the
  -- link are defined and end within the range of the clock.
  pub record CanTransmit (l : Link W) (i j : ℕ) (c : Chunk) (now communication serialization : ℕ)
      : Type 0 where
    pub rest : List ℕ
    pub on_route : c.route ≡ i ∷ j ∷ rest
    pub sized : 0 < c.chunk_size
    pub arrival : communication_delay l c.chunk_size ≡ ok communication
    pub release : serialization_delay l c.chunk_size ≡ ok serialization
    pub arrival_fits : now + communication < 2 ^ 64
    pub release_fits : now + serialization < 2 ^ 64

  pub schedule_events-entries :
      (l : Link W) (i j : ℕ) (c : Chunk) (q : EventQueue Event) (ct st : ℕ)
      → IsValid q
      → CanTransmit l i j c q.current_time ct st
      → (q' : EventQueue Event) × (schedule_events l i j c q ≡ ok q')
        × (entries q'.event_queue
            ≡ with_events i j c (q.current_time + ct) (q.current_time + st) (entries q.event_queue))
        × IsValid q'
        × (q'.current_time ≡ q.current_time)
  unfolding schedule_events
  schedule_events-entries l i j c q ct st v can =
      let arrives = q.current_time + ct in
      let frees = q.current_time + st in
      let (q₁, first, list₁, valid₁, same₁) =
        schedule_event-entries q arrives (chunk_arrived_next_device c) v (omega arith) in
      let (q₂, second, list₂, valid₂, same₂) =
        schedule_event-entries q₁ frees (link_become_free i j) valid₁ (omega (arith, same₁)) in
      let no_wrap : arrives % 2 ^ 64 ≡ arrives = mod-eq_of_lt can.arrival_fits in
      let no_wrap' : frees % 2 ^ 64 ≡ frees = mod-eq_of_lt can.release_fits in
      (
        q₂,
        rw (get_size-ok c can.sized, current_device-ok c i (j ∷ can.rest) can.on_route)
            (rw (next_device-ok c i j can.rest can.on_route, can.arrival, no_wrap)
              (rw first (rw (can.release, no_wrap') second))),
        list₂ ∙ ap (insert_stable frees (link_become_free i j)) list₁,
        valid₂,
        same₂ ∙ same₁,
      )

  -- What a transmission leaves: the link as given, and the two events at their times.
  abbrev pub Transmits : ℕ → ℕ → Chunk → ℕ → ℕ → Link W → World W → Outcome (World W) → Type 0
  Transmits i j c ct st after w result =
      (w' : World W) × (result ≡ ok w')
      × (link_at w'.state.devices i j ≡ some after)
      × (entries w'.queue.event_queue
          ≡ with_events i j c (w.queue.current_time + ct) (w.queue.current_time + st)
              (entries w.queue.event_queue))
      × IsValid w'.queue
      × (w'.queue.current_time ≡ w.queue.current_time)

  transmission-Transmits :
      (l : Link W) (i j : ℕ) (c : Chunk) (w : World W) (ct st : ℕ)
      → link_at w.state.devices i j ≡ some l
      → l.busy ≡ false
      → IsValid w.queue
      → CanTransmit l i j c w.queue.current_time ct st
      → Transmits i j c ct st (set_busy l) w (schedule_chunk_transmission i j c w)
  unfolding schedule_chunk_transmission
  transmission-Transmits l i j c w ct st at idle v can =
      let (q, scheduled, list, valid, same) = schedule_events-entries l i j c w.queue ct st v can in
      (
        record (with_link w i j (set_busy l)) { queue = q },
        rw at (rw idle (rw scheduled refl)),
        link_at-set_link_self w.state.devices i j l (set_busy l) at,
        list,
        valid,
        same,
      )

  pub link_send-idle :
      (l : Link W) (i j : ℕ) (c : Chunk) (w : World W)
      → link_at w.state.devices i j ≡ some l
      → l.busy ≡ false
      → Link.send i j c w ≡ schedule_chunk_transmission i j c w
  unfolding Link.send schedule_chunk_transmission
  link_send-idle l i j c w at idle = rw at (rw idle refl)

  unfoldable pub without_first : Link W → List Chunk → Link W
  without_first l cs = record l { busy = false; pending_chunks = cs }

  become_free-process :
      (l : Link W) (i j : ℕ) (w : World W)
      → link_at w.state.devices i j ≡ some l
      → pending_chunk_exists l.pending_chunks ≡ true
      → become_free i j w ≡ process_pending_transmission i j (with_link w i j (set_free l))
  unfolding become_free
  become_free-process l i j w at waits = rw at (rw waits refl)

  process_pending-first :
      (l : Link W) (i j : ℕ) (w : World W)
      → link_at w.state.devices i j ≡ some l
      → process_pending_transmission i j w ≡ process_first i j l l.pending_chunks w
  unfolding process_pending_transmission
  process_pending-first l i j w at = rw at refl

  pub become_free-waiting :
      (l : Link W) (i j : ℕ) (c : Chunk) (cs : List Chunk) (w : World W)
      → link_at w.state.devices i j ≡ some l
      → l.pending_chunks ≡ c ∷ cs
      → become_free i j w
        ≡ schedule_chunk_transmission i j c
            (with_link (with_link w i j (set_free l)) i j (without_first l cs))
  unfolding process_first without_first
  become_free-waiting l i j c cs w at waits =
      let freed : World W = with_link w i j (set_free l) in
      become_free-process l i j w at (ap pending_chunk_exists waits)
      ∙ process_pending-first (set_free l) i j freed
          (link_at-set_link_self w.state.devices i j l (set_free l) at)
      ∙ ap (λ ds. process_first i j (set_free l) ds freed) waits

  -- On a valid queue, a chunk that a free link can transmit goes out at once: the send succeeds, the link is busy, and
  -- the arrival and the link becoming free are scheduled, each behind the events of its time.
  pub link_send-Transmits :
      (l : Link W) (i j : ℕ) (c : Chunk) (w : World W) (ct st : ℕ)
      → link_at w.state.devices i j ≡ some l
      → l.busy ≡ false
      → IsValid w.queue
      → CanTransmit l i j c w.queue.current_time ct st
      → Transmits i j c ct st (set_busy l) w (Link.send i j c w)
  link_send-Transmits l i j c w ct st at idle v can =
      subst (Transmits i j c ct st (set_busy l) w) (sym (link_send-idle l i j c w at idle))
        (transmission-Transmits l i j c w ct st at idle v can)

  -- On a valid queue, a link that becomes free transmits the first of the chunks that wait, if it can: it
  -- succeeds, the link is busy again with the other chunks waiting, and the two events are scheduled.
  pub become_free-Transmits :
      (l : Link W) (i j : ℕ) (c : Chunk) (cs : List Chunk) (w : World W) (ct st : ℕ)
      → link_at w.state.devices i j ≡ some l
      → l.pending_chunks ≡ c ∷ cs
      → IsValid w.queue
      → CanTransmit l i j c w.queue.current_time ct st
      → Transmits i j c ct st (record l { busy = true; pending_chunks = cs }) w (become_free i j w)
  unfolding serialization_delay communication_delay without_first
  become_free-Transmits l i j c cs w ct st at waits v can =
      let freed : World W = with_link w i j (set_free l) in
      let at₁ = link_at-set_link_self w.state.devices i j l (set_free l) at in
      let popped = without_first l cs in
      let at₂ = link_at-set_link_self freed.state.devices i j (set_free l) popped at₁ in
      let still : CanTransmit popped i j c w.queue.current_time ct st = record {
        rest = can.rest;
        on_route = can.on_route;
        sized = can.sized;
        arrival = can.arrival;
        release = can.release;
        arrival_fits = can.arrival_fits;
        release_fits = can.release_fits;
      } in
      subst (Transmits i j c ct st (record l { busy = true; pending_chunks = cs }) w)
        (sym (become_free-waiting l i j c cs w at waits))
        (transmission-Transmits popped i j c (with_link freed i j popped) ct st at₂ refl v still)
