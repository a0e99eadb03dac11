-- ===== src/Reconfigurable/Link.antt =====
-- reconfigurable/network/Link.cpp: a link, with the event queue that it schedules in. `send` and
-- `reconfigure` answer the time at which the link becomes free, which the device schedules.
use astra_network_analytical.Base.{
  ℕ, ◌+◌, ◌%◌, ◌^◌, true, false, not, ltb, if◌then◌else◌, ◌&&◌, Outcome, Error, ok, ◌>>=◌, ◌>>◌,
  assert, or_fail,
}
use astra_network_analytical.Double.{Double, of_nat, nought}
use astra_network_analytical.Common.{bw_GBps_to_Bpns}
use astra_network_analytical.EventQueue.{EventQueue, schedule_event}
use astra_network_analytical.Reconfigurable.State.{Chunk, Link, Event, chunk_arrived_next_device}
use astra_network_analytical.Reconfigurable.Chunk.{get_size}

-- What `send` leaves, and answers.
pub record Sent (W : Type 0) : Type 0 where
  pub link : Link W
  pub queue : EventQueue Event
  pub link_free_time : ℕ

abbrev pub set_busy : {W : Type 0} → Link W → Link W
set_busy l = record l { busy = true }

abbrev pub set_free : {W : Type 0} → Link W → Link W
set_free l = record l { busy = false }

module _ {W : Type 0} ⦃d : Double W⦄ where
  unfoldable pub new_link : W → W → Outcome (Link W)
  unfolding bw_GBps_to_Bpns
  new_link bandwidth latency = do
    assert (d.le nought bandwidth)
    assert (d.le nought latency)
    bandwidth_Bpns ← bw_GBps_to_Bpns bandwidth
    ok (record {
      bandwidth = bandwidth;
      bandwidth_Bpns = bandwidth_Bpns;
      latency = latency;
      busy = false;
    })

  unfoldable pub serialization_delay : Link W → ℕ → Outcome ℕ
  serialization_delay l chunk_size = do
    assert (ltb 0 chunk_size)
    or_fail Error.undefined (d.to_uint64 (d.div (of_nat chunk_size) l.bandwidth_Bpns))

  unfoldable pub communication_delay : Link W → ℕ → Outcome ℕ
  communication_delay l chunk_size = do
    assert (ltb 0 chunk_size)
    or_fail Error.undefined
        (d.to_uint64 (d.add l.latency (d.div (of_nat chunk_size) l.bandwidth_Bpns)))

  unfoldable pub schedule_chunk_transmission : Link W → Chunk → EventQueue Event → Outcome (Sent W)
  unfolding serialization_delay communication_delay
  schedule_chunk_transmission l chunk queue = do
    assert (not l.busy)
    chunk_size ← get_size chunk
    communication_time ← communication_delay l chunk_size
    with_arrival ←
        schedule_event queue ((queue.current_time + communication_time) % 2 ^ 64)
          (chunk_arrived_next_device chunk)
    serialization_time ← serialization_delay l chunk_size
    ok (record {
      link = set_busy l;
      queue = with_arrival;
      link_free_time = (queue.current_time + serialization_time) % 2 ^ 64;
    })

  unfoldable pub send : Link W → Chunk → EventQueue Event → Outcome (Sent W)
  unfolding schedule_chunk_transmission
  send l chunk queue = do assert (not l.busy); schedule_chunk_transmission l chunk queue

  -- At `current_time`; a link that keeps its values stays as it is.
  unfoldable pub reconfigure : Link W → W → W → W → ℕ → Outcome (ℕ × Link W)
  unfolding bw_GBps_to_Bpns
  reconfigure l bandwidth latency reconfig_time current_time =
      if d.eq bandwidth l.bandwidth && d.eq latency l.latency
      then ok ((current_time + 1) % 2 ^ 64, l)
      else (do
        assert (not l.busy)
        bandwidth_Bpns ← bw_GBps_to_Bpns bandwidth
        completion_time ←
            or_fail Error.undefined (d.to_uint64 (d.add (of_nat current_time) reconfig_time))
        ok (
          completion_time,
          record {
            bandwidth = bandwidth;
            bandwidth_Bpns = bandwidth_Bpns;
            latency = latency;
            busy = true;
          },
        ))
