-- ===== src/Aware/Basic/Examples.antt =====
-- A route on a ring of six, the shorter way round.
use astra_network_analytical.Base.{ℕ, ◌-◌, ◌≡◌, refl, true, List, [], ◌∷◌, length, ok, arith}
use astra_network_analytical.Base.Int.{pos}
use astra_network_analytical.Common.{TopologyBuildingBlock}
use astra_network_analytical.Double.{of_nat}
use astra_network_analytical.Double.Rational.{Rational, rational_double}
use astra_network_analytical.Unaware.Basic.{ring_distance}
use astra_network_analytical.Aware.State.{Topology, ring_topology}
use astra_network_analytical.Aware.Basic.{ring_route, route_loop, route_step}
use astra_network_analytical.Base.Walks.{Walk}
use astra_network_analytical.Aware.Basic.RingRoute.{Neighbours, ring_route-Walk}

abbrev ring_6 : Topology Rational
ring_6 = record {
  class = ring_topology;
  npus_count = 6;
  devices_count = 6;
  dims_count = 1;
  npus_count_per_dim = 6 ∷ [];
  bandwidth_per_dim = of_nat 50 ∷ [];
  devices = [];
  bandwidth = of_nat 50;
  latency = of_nat 500;
  basic_topology_type = TopologyBuildingBlock.undefined;
  bidirectional = true;
  switch_id = 0;
}

route_back : ring_route ring_6 1 4 ≡ ok (1 ∷ 2 ∷ 3 ∷ 4 ∷ [])
unfolding ring_route route_loop route_step
route_back = refl

route_over_zero : ring_route ring_6 1 5 ≡ ok (1 ∷ 0 ∷ 5 ∷ [])
unfolding ring_route route_loop route_step
route_over_zero = refl

ring_route-Walk_example :
    (r : List ℕ) × (ring_route ring_6 1 5 ≡ ok r)
    × Walk (Neighbours true 6) 1 r 5
    × (ring_distance true 6 1 5 ≡ pos (length r - 1))
ring_route-Walk_example = ring_route-Walk ring_6 1 5 (omega arith) (omega arith)
