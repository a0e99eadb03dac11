-- ===== src/Aware/Example.antt =====
-- congestion_aware/example.cpp: an All-Gather on the topology of a configuration. What it prints is
-- the value that `main` returns, and the callback, which prints the time, leaves the simulation alone.
pub mod Gather
pub mod Finish
mod Tests
use astra_network_analytical.Base.{
  ℕ, zero, suc, Bool, true, false, if◌then◌else◌, ◌==◌, Outcome, ok, ◌>>=◌,
}
use astra_network_analytical.Double.{Double}
use astra_network_analytical.NetworkParser.{NetworkParser}
use astra_network_analytical.EventQueue.{get_current_time, run}
use astra_network_analytical.Aware.State.{World}
use astra_network_analytical.Aware.Chunk.{new_chunk}
use astra_network_analytical.Aware.Topology
use astra_network_analytical.Aware.Topology.{get_npus_count, get_devices_count}
use astra_network_analytical.Aware.Basic.{route}
use astra_network_analytical.Aware.Construct.{construct_topology}
use astra_network_analytical.Aware.Simulation.{invoke, start}

-- 1 MB.
abbrev pub chunk_size : ℕ
chunk_size = 1_048_576

-- What is printed: the NPUs, the devices and the time at which the simulation finished.
pub record Report : Type 0 where
  pub npus_count : ℕ
  pub devices_count : ℕ
  pub finish_time : ℕ

module _ {W : Type 0} ⦃d : Double W⦄ where
  abbrev pub chunk_arrived_callback : ℕ → ℕ → World W → Outcome (World W)
  chunk_arrived_callback callback event_queue_ptr w = ok w

  -- The body of the inner loop behind its `continue`.
  unfoldable pub send_one : ℕ → ℕ → World W → Outcome (World W)
  unfolding route new_chunk Topology.send
  send_one i j w = do
    route ← route w.state i j
    chunk ← new_chunk chunk_size route 0 0
    Topology.send chunk w

  -- The inner loop, for the destinations from `j`, with n rounds left.
  unfoldable pub send_to_all : ℕ → ℕ → ℕ → World W → Outcome (World W)
  unfolding send_one
  send_to_all zero i j w = ok w
  send_to_all (suc n) i j w = do
    w' ← (if i == j then ok w else send_one i j w)
    send_to_all n i (suc j) w'

  -- The outer loop, for the sources from `i`, with n rounds left.
  unfoldable pub all_gather : ℕ → ℕ → ℕ → World W → Outcome (World W)
  unfolding send_to_all
  all_gather zero npus_count i w = ok w
  all_gather (suc n) npus_count i w = do
    w' ← send_to_all npus_count i 0 w
    all_gather n npus_count (suc i) w'

  -- The configuration is the one that the parser read.
  unfoldable pub main : ℕ → NetworkParser W → Outcome Report
  unfolding construct_topology all_gather run invoke get_npus_count get_devices_count
  main fuel network_parser = do
    topology ← construct_topology network_parser
    npus_count ← get_npus_count topology
    devices_count ← get_devices_count topology
    sent ← all_gather npus_count npus_count 0 (start topology)
    done ← run (invoke chunk_arrived_callback) fuel sent
    ok (record {
      npus_count = npus_count;
      devices_count = devices_count;
      finish_time = get_current_time done.queue;
    })
