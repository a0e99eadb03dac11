-- ===== src/Aware/Simulation/Examples.antt =====
-- The runs of test/test_congestion_aware.cpp, on exact fractions.
use astra_network_analytical.Base.{
  ℕ, zero, suc, [], ◌∷◌, ◌≡◌, refl, none, Outcome, ok, ◌>>=◌, if◌then◌else◌, ◌==◌,
}
use astra_network_analytical.Base.Int.{pos}
use astra_network_analytical.Double.{of_nat}
use astra_network_analytical.Double.Rational.{Rational, rational_double}
use astra_network_analytical.Common.{TopologyBuildingBlock, ring, fully_connected, switch}
use astra_network_analytical.NetworkParser.{NetworkParser}
use astra_network_analytical.EventQueue.{run, schedule_event}
use astra_network_analytical.Base.{fail, assertion}
use astra_network_analytical.Aware.State.{find_link, World, link_at, set_link}
use astra_network_analytical.Aware.Chunk.{
  new_chunk, current_device, next_device, get_size, mark_arrived_next_device,
}
use astra_network_analytical.Aware.Topology
use astra_network_analytical.Aware.Basic.{route, route_loop, route_step}
use astra_network_analytical.Aware.Construct.{construct_topology}
use astra_network_analytical.Aware.Simulation.{invoke, start}

abbrev one_dim : TopologyBuildingBlock → ℕ → NetworkParser Rational
one_dim type bandwidth = record {
  dims_count = 1;
  reconfig_time = none;
  npus_count_per_dim = pos 16 ∷ [];
  bandwidth_per_dim = of_nat bandwidth ∷ [];
  latency_per_dim = of_nat 500 ∷ [];
  topology_per_dim = type ∷ [];
}

-- The callback of the tests does nothing.
abbrev no_callback : ℕ → ℕ → World Rational → Outcome (World Rational)
no_callback callback arg w = ok w

send_between : ℕ → ℕ → World Rational → Outcome (World Rational)
unfolding new_chunk Topology.send route route_loop route_step current_device next_device get_size
    schedule_event link_at set_link
send_between src dest w = do
  path ← route w.state src dest
  chunk ← new_chunk 1_048_576 path 0 0
  Topology.send chunk w

finish_time : ℕ → World Rational → Outcome ℕ
unfolding run invoke current_device next_device get_size mark_arrived_next_device schedule_event
    link_at set_link
finish_time fuel w = do w' ← run (invoke no_callback) fuel w; ok (w'.queue.current_time)

single : NetworkParser Rational → Outcome ℕ
unfolding construct_topology send_between finish_time
single p = do t ← construct_topology p; w ← send_between 1 4 (start t); finish_time 20 w

ring_time : single (one_dim ring 50) ≡ ok 60093
unfolding single
ring_time = refl

fully_connected_time : single (one_dim fully_connected 50) ≡ ok 20031
unfolding single
fully_connected_time = refl

switch_time : single (one_dim switch 50) ≡ ok 40062
unfolding single
switch_time = refl

-- for (int i …) for (int j …): all ordered pairs of different NPUs.
send_row : ℕ → ℕ → ℕ → World Rational → Outcome (World Rational)
unfolding send_between
send_row zero i j w = ok w
send_row (suc n) i j w = do
  w' ← (if i == j then ok w else send_between i j w)
  send_row n i (suc j) w'

send_rows : ℕ → ℕ → ℕ → World Rational → Outcome (World Rational)
unfolding send_row
send_rows zero npus i w = ok w
send_rows (suc n) npus i w = do w' ← send_row npus i 0 w; send_rows n npus (suc i) w'

all_gather : NetworkParser Rational → Outcome ℕ
unfolding construct_topology send_rows finish_time
all_gather p = do t ← construct_topology p; w ← send_rows 16 16 0 (start t); finish_time 1000 w

all_gather_time : all_gather (one_dim ring 50) ≡ ok 704116
unfolding all_gather
all_gather_time = refl

-- A ring of two NPUs connects the second to the first twice.
ring_of_two :
    construct_topology (record (one_dim ring 50) { npus_count_per_dim = pos 2 ∷ [] })
    ≡ fail assertion
unfolding construct_topology find_link
ring_of_two = refl
