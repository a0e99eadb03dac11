-- ===== src/Reconfigurable/Example.antt =====
-- reconfigurable/example.cpp and reconfigurable/AllReduce.cpp: All-Gathers on a network that is
-- reconfigured before them. What they print is the value that they return. Both leave out the last
-- argument of the manager's constructor, which has no default: here the circuit schedules are a parameter.
use astra_network_analytical.Base.{
  ℕ, zero, suc, List, [], ◌∷◌, if◌then◌else◌, ◌==◌, ◌≡◌, refl, Outcome, ok, fail, assertion, ◌>>=◌,
}
use astra_network_analytical.Base.Int.{ℤ, pos, negsuc}
use astra_network_analytical.Base.Maps.{find, put}
use astra_network_analytical.Double.{Double, of_nat}
use astra_network_analytical.Double.Rational.{Rational, rational_double}
use astra_network_analytical.EventQueue.{get_current_time, run, schedule_event}
use astra_network_analytical.Reconfigurable.State.{World}
use astra_network_analytical.Reconfigurable.Chunk.{
  new_chunk, current_device, next_device, get_size, mark_arrived_next_device,
}
use astra_network_analytical.Reconfigurable.Topology.{get_npus_count, get_devices_count}
use astra_network_analytical.Reconfigurable.Topology
use astra_network_analytical.Reconfigurable.Manager.{new_topology_manager, reconfigure, route, send}
use astra_network_analytical.Reconfigurable.Events.{invoke, start}

-- 1 MB.
abbrev chunk_size : ℕ
chunk_size = 1_048_576

-- What is printed: the NPUs, the devices and the time at which the simulation finished.
pub record Report : Type 0 where
  pub npus_count : ℕ
  pub devices_count : ℕ
  pub finish_time : ℕ

-- Without the time, which is not read, and the pointers to the manager and the queue.
pub record ScheduleSendArgs : Type 0 where
  pub src : ℕ
  pub dest : ℕ
  pub chunk_size : ℕ

module _ {W : Type 0} ⦃d : Double W⦄ where
  abbrev pub chunk_arrived_callback : ℕ → ℕ → World W → Outcome (World W)
  chunk_arrived_callback callback event_queue_ptr w = ok w

  -- The body of the inner loop behind its `continue`, and of simulate.cpp's send.
  unfoldable pub send_one : ℕ → ℕ → ℕ → World W → Outcome (World W)
  unfolding route new_chunk send
  send_one size i j w = do
    route ← route w i j
    chunk ← new_chunk size route 0 0 (negsuc 0)
    send chunk w

  -- The inner loop, for the destinations from `j`, with n rounds left.
  unfoldable pub send_to_all : ℕ → ℕ → ℕ → World W → Outcome (World W)
  unfolding send_one
  send_to_all zero i j w = ok w
  send_to_all (suc n) i j w = do
    w' ← (if i == j then ok w else send_one chunk_size i j w)
    send_to_all n i (suc j) w'

  -- The outer loop, for the sources from `i`, with n rounds left.
  unfoldable pub all_gather : ℕ → ℕ → ℕ → World W → Outcome (World W)
  unfolding send_to_all
  all_gather zero npus_count i w = ok w
  all_gather (suc n) npus_count i w = do
    w' ← send_to_all npus_count i 0 w
    all_gather n npus_count (suc i) w'

  -- The matrices of example.cpp.
  abbrev line_bandwidths : List (List W)
  line_bandwidths =
      (of_nat 0 ∷ of_nat 100 ∷ of_nat 0 ∷ [])
      ∷ (of_nat 100 ∷ of_nat 0 ∷ of_nat 100 ∷ [])
      ∷ (of_nat 0 ∷ of_nat 100 ∷ of_nat 0 ∷ [])
      ∷ []

  abbrev line_latencies : List (List W)
  line_latencies = let row = of_nat 10 ∷ of_nat 10 ∷ of_nat 10 ∷ [] in row ∷ row ∷ row ∷ []

  -- The matrices of AllReduce.cpp and of reschedule_callback, with this bandwidth between the two devices.
  abbrev pair_bandwidths : ℕ → List (List W)
  pair_bandwidths bandwidth =
      (of_nat 0 ∷ of_nat bandwidth ∷ []) ∷ (of_nat bandwidth ∷ of_nat 0 ∷ []) ∷ []

  abbrev pair_latencies : List (List W)
  pair_latencies = (of_nat 10 ∷ of_nat 20 ∷ []) ∷ (of_nat 20 ∷ of_nat 10 ∷ []) ∷ []

  -- The callbacks of example.cpp that nothing schedules.
  unfoldable reschedule_callback : World W → Outcome (World W)
  unfolding reconfigure
  reschedule_callback w = do
    (_, w') ← reconfigure (pair_bandwidths 20) pair_latencies (of_nat 500) (pos 0) w
    ok w'

  unfoldable schedule_send : ScheduleSendArgs → World W → Outcome (World W)
  unfolding route new_chunk send
  schedule_send args w = do
    route ← route w args.src args.dest
    chunk ← new_chunk args.chunk_size route 0 0 (pos 0)
    send chunk w

  -- `main` of example.cpp; the requests drop the answer of `reconfigure`.
  unfoldable example_main : ℕ → List (ℤ × List (List W)) → Outcome Report
  unfolding new_topology_manager reconfigure all_gather run invoke Topology.new_topology
  example_main fuel circuit_schedules = do
    topology ← Topology.new_topology {W = W} 3 3
    let npus_count = get_npus_count topology
    let devices_count = get_devices_count topology
    network ← new_topology_manager npus_count devices_count circuit_schedules
    (_, w) ← reconfigure line_bandwidths line_latencies (of_nat 500) (pos 0) (start network)
    sent ← all_gather npus_count npus_count 0 w
    done ← run (invoke chunk_arrived_callback) fuel sent
    ok (record {
      npus_count = npus_count;
      devices_count = devices_count;
      finish_time = get_current_time done.queue;
    })

  -- `main` of AllReduce.cpp.
  unfoldable all_reduce_main : ℕ → List (ℤ × List (List W)) → Outcome Report
  unfolding new_topology_manager reconfigure all_gather run invoke
  all_reduce_main fuel circuit_schedules = do
    network ← new_topology_manager 4 4 circuit_schedules
    (_, w) ← reconfigure (pair_bandwidths 200) pair_latencies (of_nat 500) (pos 0) (start network)
    sent ← all_gather 4 4 0 w
    (_, w') ← reconfigure (pair_bandwidths 20) pair_latencies (of_nat 500) (pos 0) sent
    sent' ← all_gather 4 4 0 w'
    done ← run (invoke chunk_arrived_callback) fuel sent'
    ok (record { npus_count = 4; devices_count = 4; finish_time = get_current_time done.queue })

-- The links are set at 500. The chunk from 0 to 2 leaves behind the one from 0 to 1, and goes on from 1.
example_report :
    example_main {W = Rational} 200 []
    ≡ ok (record { npus_count = 3; devices_count = 3; finish_time = 29815 })
unfolding example_main find put current_device next_device get_size mark_arrived_next_device
    schedule_event
example_report = refl

-- The matrices are for two devices, and the manager has four.
all_reduce_fails : all_reduce_main {W = Rational} 200 [] ≡ fail assertion
unfolding all_reduce_main find put
all_reduce_fails = refl
