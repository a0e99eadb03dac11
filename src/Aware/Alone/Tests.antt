-- ===== src/Aware/Alone/Tests.antt =====
-- One chunk between two of three NPUs that are all connected, on both simulators.
use astra_network_analytical.Base.{ℕ, ◌≡◌, refl, List, [], ◌∷◌, true, Outcome, ok, arith}
use astra_network_analytical.Base.Int.{pos}
use astra_network_analytical.Double.{of_nat}
use astra_network_analytical.Double.Rational.{Rational, rational_double}
use astra_network_analytical.Common.{fully_connected}
use astra_network_analytical.NetworkParser.{NetworkParser, get_topologies_per_dim}
use astra_network_analytical.EventQueue.{finished, run}
use astra_network_analytical.Unaware.Basic
use astra_network_analytical.Unaware.Construct as Unaware
use astra_network_analytical.Unaware.MultiDim.{new_multi_dim_topology}
use astra_network_analytical.Aware.State.{Chunk, Link, Topology, World, find_link}
use astra_network_analytical.Aware.Chunk.{new_chunk}
use astra_network_analytical.Aware.Link.{new_link, serialization_delay}
use astra_network_analytical.Aware.Topology
use astra_network_analytical.Aware.Basic.{route}
use astra_network_analytical.Aware.Simulation.{invoke, start}
use astra_network_analytical.Aware.Construct.{construct_topology}
use astra_network_analytical.Aware.Construct.Examples.{switch_2, or_between}
use astra_network_analytical.Aware.Examples.{link}
use astra_network_analytical.Aware.Example.{chunk_size, chunk_arrived_callback}
use astra_network_analytical.Aware.Alone.Agreement.{run-send}

abbrev mesh_3 : NetworkParser Rational
mesh_3 = record (switch_2) {
  npus_count_per_dim = pos 3 ∷ [];
  topology_per_dim = fully_connected ∷ [];
}

abbrev mesh : Topology Rational
mesh = or_between (construct_topology mesh_3)

abbrev or_empty : Outcome (Unaware.Topology Rational) → Unaware.Topology Rational
or_empty (ok t) = t
or_empty _ = Unaware.multi_dim new_multi_dim_topology

abbrev plain_mesh : Unaware.Topology Rational
plain_mesh = or_empty (Unaware.construct_topology mesh_3)

abbrev or_link : Outcome (Link Rational) → Link Rational
or_link (ok l) = l
or_link _ = link

abbrev mesh_link : Link Rational
mesh_link = or_link (new_link (of_nat 50) (of_nat 500))

mesh_configured : get_topologies_per_dim mesh_3 ≡ ok (fully_connected ∷ [])
unfolding get_topologies_per_dim
mesh_configured = refl

mesh_built : construct_topology mesh_3 ≡ ok mesh
unfolding construct_topology find_link
mesh_built = refl

plain_mesh_built : Unaware.construct_topology mesh_3 ≡ ok plain_mesh
unfolding Unaware.construct_topology
plain_mesh_built = refl

mesh_linked : new_link mesh.bandwidth mesh.latency ≡ ok mesh_link
unfolding new_link construct_topology find_link
mesh_linked = refl

mesh_latency : rational_double.mul (rational_double.of_int (pos 1)) mesh.latency ≡ mesh.latency
unfolding construct_topology find_link
mesh_latency = refl

mesh_npus : mesh.npus_count ≡ 3
unfolding construct_topology find_link
mesh_npus = refl

mesh_delay : Unaware.send plain_mesh 0 2 chunk_size ≡ ok 20031
unfolding Unaware.send Unaware.construct_topology Basic.compute_hops_count
    Basic.compute_communication_delay
mesh_delay = refl

mesh_serialization : serialization_delay mesh_link chunk_size ≡ ok 19531
unfolding serialization_delay new_link
mesh_serialization = refl

run-send_example :
    (r : List ℕ) × (chunk : Chunk) × (sent w' : World Rational) × (route mesh 0 2 ≡ ok r)
    × (new_chunk chunk_size r 0 0 ≡ ok chunk)
    × (Topology.send chunk (start mesh) ≡ ok sent)
    × (run (invoke chunk_arrived_callback) 6 sent ≡ ok w')
    × (finished w'.queue ≡ true)
    × (w'.queue.current_time ≡ 20031)
run-send_example =
    run-send mesh_3 mesh plain_mesh mesh_link chunk_size 19531 20031 0 2 0 0 6
      chunk_arrived_callback (λ c a w. refl) mesh_configured mesh_built plain_mesh_built mesh_linked
      mesh_latency (omega (arith, mesh_npus)) (omega (arith, mesh_npus)) (omega arith) (omega arith)
      mesh_delay mesh_serialization (omega arith) (rw mesh_npus (omega arith))
      (rw mesh_npus (omega arith))
