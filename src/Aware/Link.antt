-- ===== src/Aware/Link.antt =====
-- congestion_aware/network/Link.cpp, on the link from device i to device j. Times are uint64_t, and
-- their sums wrap.
use astra_network_analytical.Base.{
  ℕ, ◌+◌, ◌%◌, ◌^◌, Bool, true, false, not, List, [], ◌∷◌, ◌++◌, if◌then◌else◌, ltb, Outcome, Error,
  ok, fail, ◌>>=◌, ◌>>◌, assert, assertion, or_fail,
}
use astra_network_analytical.Double.{Double, nought, of_nat}
use astra_network_analytical.Common.{bw_GBps_to_Bpns}
use astra_network_analytical.EventQueue.{EventQueue, schedule_event}
use astra_network_analytical.Aware.State.{
  Chunk, Link, Event, chunk_arrived_next_device, link_become_free, World, with_link, get_link,
}
use astra_network_analytical.Aware.Chunk.{get_size, current_device, next_device}

abbrev pub pending_chunk_exists : List Chunk → Bool
pending_chunk_exists [] = false
pending_chunk_exists (chunk ∷ rest) = true

module _ {W : Type 0} ⦃d : Double W⦄ where
  unfoldable pub new_link : W → W → Outcome (Link W)
  unfolding bw_GBps_to_Bpns
  new_link bandwidth latency = do
    assert (d.lt nought bandwidth)
    assert (d.le nought latency)
    bandwidth_Bpns ← bw_GBps_to_Bpns bandwidth
    ok (record {
      bandwidth = bandwidth;
      bandwidth_Bpns = bandwidth_Bpns;
      latency = latency;
      pending_chunks = [];
      busy = false;
    })

  unfoldable pub serialization_delay : Link W → ℕ → Outcome ℕ
  serialization_delay l chunk_size = do
    assert (ltb 0 chunk_size)
    or_fail Error.undefined (d.to_uint64 (d.div (of_nat chunk_size) l.bandwidth_Bpns))

  unfoldable pub communication_delay : Link W → ℕ → Outcome ℕ
  communication_delay l chunk_size = do
    assert (ltb 0 chunk_size)
    or_fail Error.undefined
        (d.to_uint64 (d.add l.latency (d.div (of_nat chunk_size) l.bandwidth_Bpns)))

  -- The two events of a transmission: the arrival of the chunk, then the link becoming free.
  unfoldable pub schedule_events :
      Link W → ℕ → ℕ → Chunk → EventQueue Event → Outcome (EventQueue Event)
  unfolding serialization_delay communication_delay
  schedule_events l i j chunk queue = do
    chunk_size ← get_size chunk
    src_dev ← current_device chunk
    next_dev ← next_device chunk
    communication_time ← communication_delay l chunk_size
    with_arrival ←
        schedule_event queue ((queue.current_time + communication_time) % 2 ^ 64)
          (chunk_arrived_next_device chunk)
    serialization_time ← serialization_delay l chunk_size
    schedule_event with_arrival ((queue.current_time + serialization_time) % 2 ^ 64)
        (link_become_free i j)

  abbrev pub set_busy : Link W → Link W
  set_busy l = record l { busy = true }

  abbrev pub set_free : Link W → Link W
  set_free l = record l { busy = false }

  unfoldable pub schedule_chunk_transmission : ℕ → ℕ → Chunk → World W → Outcome (World W)
  unfolding schedule_events
  schedule_chunk_transmission i j chunk w = do
    link ← get_link w i j
    assert (not link.busy)
    queue ← schedule_events link i j chunk w.queue
    ok (record (with_link w i j (set_busy link)) { queue = queue })

  unfoldable pub send : ℕ → ℕ → Chunk → World W → Outcome (World W)
  unfolding schedule_chunk_transmission
  send i j chunk w = do
    link ← get_link w i j
    if link.busy
        then ok
            (with_link w i j (record link { pending_chunks = link.pending_chunks ++ chunk ∷ [] }))
        else schedule_chunk_transmission i j chunk w

  -- The first pending chunk leaves the queue of the link and is transmitted.
  unfoldable pub process_first : ℕ → ℕ → Link W → List Chunk → World W → Outcome (World W)
  unfolding schedule_chunk_transmission
  process_first i j link [] w = fail assertion
  process_first i j link (chunk ∷ rest) w =
      schedule_chunk_transmission i j chunk
        (with_link w i j (record link { pending_chunks = rest }))

  unfoldable pub process_pending_transmission : ℕ → ℕ → World W → Outcome (World W)
  unfolding process_first
  process_pending_transmission i j w = do
    link ← get_link w i j
    process_first i j link link.pending_chunks w

  -- The callback `link_become_free`.
  unfoldable pub become_free : ℕ → ℕ → World W → Outcome (World W)
  unfolding process_pending_transmission
  become_free i j w = do
    link ← get_link w i j
    if pending_chunk_exists link.pending_chunks
        then process_pending_transmission i j (with_link w i j (set_free link))
        else ok (with_link w i j (set_free link))
