-- ===== src/Reconfigurable/Device.antt =====
-- reconfigurable/network/Device.cpp, but for link_become_free, which is in `Manager`.
use astra_network_analytical.Base.{
  ℕ, suc, Bool, true, false, not, ◌||◌, List, [], ◌∷◌, ◌++◌, length, Option, none, some, get_elem?,
  ◌==◌, if◌then◌else◌, Outcome, Error, ok, ◌>>=◌, ◌>>◌, assert, or_fail,
}
use astra_network_analytical.Base.Int.{pos, ltb_ℤ}
use astra_network_analytical.Base.Maps.{find, put, erase, find_or}
use astra_network_analytical.Double.{Double, nought}
use astra_network_analytical.EventQueue.{EventQueue, schedule_event}
use astra_network_analytical.Reconfigurable.State.{
  Chunk, Link, Device, Event, link_become_free, World, device_at, with_device,
}
use astra_network_analytical.Reconfigurable.Chunk.{
  current_device, next_device, arrived_dest, update_route,
}
use astra_network_analytical.Reconfigurable.Link
use astra_network_analytical.Reconfigurable.Link.{new_link}

abbrev pub is_some : {A : Type 0} → Option A → Bool
is_some none = false
is_some (some a) = true

abbrev pub new_device : {W : Type 0} → ℕ → Device W
new_device id = record {
  device_id = id;
  topology_iteration = 0;
  draining = false;
  links = [];
  pending_chunks = [];
  routes = [];
}

module _ {W : Type 0} where
  abbrev pub connected : Device W → ℕ → Bool
  connected device dest = is_some (find dest device.links)

  unfoldable pub get_link : Device W → ℕ → Outcome (Link W)
  get_link device id = do
    assert (connected device id)
    or_fail Error.undefined (find id device.links)

  -- `at` throws on a missing key, in a function that is `noexcept`.
  unfoldable pub pending_chunks_count : Device W → ℕ → Outcome ℕ
  pending_chunks_count device id = do
    assert (connected device id)
    chunks ← or_fail Error.exited (find id device.pending_chunks)
    ok (length chunks)

  unfoldable pub disconnect : Device W → ℕ → Outcome (Device W)
  disconnect device id = do
    assert (connected device id)
    ok (record device { links = erase id device.links })

  -- The queue of the link to `id`, with `chunk` at its end.
  abbrev pub push_pending : Device W → ℕ → Chunk → Device W
  push_pending device id chunk = record device {
    pending_chunks =
        put id (find_or [] id device.pending_chunks ++ chunk ∷ []) device.pending_chunks;
  }

module _ {W : Type 0} ⦃d : Double W⦄ where
  unfoldable pub connect : Device W → ℕ → W → W → Outcome (Device W)
  unfolding new_link put
  connect device id bandwidth latency = do
    assert (d.le nought bandwidth)
    assert (d.le nought latency)
    assert (not (connected device id))
    link ← new_link bandwidth latency
    ok (record device {
      links = put id link device.links;
      pending_chunks = put id [] device.pending_chunks;
    })

  -- Why a chunk waits: the link is busy or has no bandwidth, or the chunk is of a later topology.
  abbrev pub must_wait : Device W → Link W → Chunk → Bool
  must_wait device link chunk =
      link.busy
      || d.eq link.bandwidth nought
      || ltb_ℤ (pos device.topology_iteration) chunk.topology_iteration

  -- A transmission over the link to `id` of the device at place i, and the event that frees it.
  unfoldable pub transmit : ℕ → ℕ → Device W → Link W → Chunk → World W → Outcome (World W)
  unfolding Link.send put
  transmit i id device link chunk w = do
    sent ← Link.send link chunk w.queue
    queue ← schedule_event sent.queue sent.link_free_time (link_become_free i id)
    ok (record (with_device w i (record device { links = put id sent.link device.links })) {
      queue = queue;
    })

  -- `send` of the device at place i. Its route replaces the chunk's.
  unfoldable pub send : ℕ → Chunk → World W → Outcome (World W)
  unfolding transmit find put
  send i chunk w = do
    device ← device_at w i
    current ← current_device chunk
    assert (current == device.device_id)
    assert (not (arrived_dest chunk))
    dest ← next_device chunk
    let routed = update_route chunk (find_or [] dest device.routes) chunk.topology_iteration
    next_dest ← next_device routed
    assert (connected device next_dest)
    link ← or_fail Error.undefined (find next_dest device.links)
    if must_wait device link routed
        then ok (with_device w i (push_pending device next_dest routed))
        else transmit i next_dest device link routed w

  -- One link of the device at place i, and the event that frees it.
  unfoldable pub reconfigure_link :
      ℕ
      → ℕ
      → Link W
      → List W
      → List (List ℕ)
      → List W
      → W
      → Device W
      → EventQueue Event
      → Outcome (Device W × EventQueue Event)
  unfolding Link.reconfigure put
  reconfigure_link i id link bandwidth routes latency reconfig_time device queue =
      if id == device.device_id then ok (device, queue) else (do
        new_bandwidth ← or_fail Error.undefined (get_elem? bandwidth id)
        assert (d.le nought new_bandwidth)
        new_latency ← or_fail Error.undefined (get_elem? latency id)
        assert (d.le nought new_latency)
        route ← or_fail Error.undefined (get_elem? routes id)
        (free_time, link') ←
            Link.reconfigure link new_bandwidth new_latency reconfig_time queue.current_time
        queue' ← schedule_event queue free_time (link_become_free i id)
        ok (
          record device { routes = put id route device.routes; links = put id link' device.links },
          queue',
        ))

  -- The loop over the links of the device at place i, in the order of their ids.
  unfoldable pub reconfigure_links :
      ℕ
      → List (ℕ × Link W)
      → List W
      → List (List ℕ)
      → List W
      → W
      → Device W
      → EventQueue Event
      → Outcome (Device W × EventQueue Event)
  unfolding reconfigure_link
  reconfigure_links i [] bandwidth routes latency reconfig_time device queue = ok (device, queue)
  reconfigure_links i ((id, link) ∷ rest) bandwidth routes latency reconfig_time device queue = do
    (device', queue') ←
        reconfigure_link i id link bandwidth routes latency reconfig_time device queue
    reconfigure_links i rest bandwidth routes latency reconfig_time device' queue'

  unfoldable pub reconfigure : ℕ → List W → List (List ℕ) → List W → W → World W → Outcome (World W)
  unfolding reconfigure_links
  reconfigure i bandwidth routes latency reconfig_time w = do
    device ← device_at w i
    assert (length bandwidth == length device.links)
    assert (length latency == length device.links)
    let next = record device { topology_iteration = suc device.topology_iteration }
    (device', queue) ←
        reconfigure_links i device.links bandwidth routes latency reconfig_time next w.queue
    ok (record (with_device w i device') { queue = queue })
