-- ===== src/Unaware/Construct/Examples.antt =====
-- The runs of test/test_congestion_unaware.cpp, on exact fractions.
use astra_network_analytical.Base.{
  ℕ, ◌^◌, [], ◌∷◌, ◌≡◌, ◌≢◌, refl, true, none, Outcome, ok, fail, assertion, exited, ◌>>=◌, arith,
}
use astra_network_analytical.Base.Int.{pos}
use astra_network_analytical.Double.{of_nat}
use astra_network_analytical.Double.Rational.{Rational, rational_double}
use astra_network_analytical.Common.{ring, fully_connected, switch}
use astra_network_analytical.NetworkParser.{NetworkParser}
use astra_network_analytical.Unaware.Basic.{
  compute_hops_count, compute_communication_delay, ring_distance,
}
use astra_network_analytical.Unaware.Basic.{BasicTopology}
use astra_network_analytical.Unaware.Construct.{Topology, basic, construct_topology, send}
use astra_network_analytical.Unaware.Construct.Consistency.{npus_of, send-construct_topology}

-- input/Ring_FullyConnected_Switch.yml
abbrev pub three_dims : NetworkParser Rational
three_dims = record {
  dims_count = 3;
  reconfig_time = none;
  npus_count_per_dim = pos 2 ∷ pos 8 ∷ pos 4 ∷ [];
  bandwidth_per_dim = of_nat 200 ∷ of_nat 100 ∷ of_nat 50 ∷ [];
  latency_per_dim = of_nat 50 ∷ of_nat 500 ∷ of_nat 2000 ∷ [];
  topology_per_dim = ring ∷ fully_connected ∷ switch ∷ [];
}

-- input/Ring.yml
abbrev ring_16 : NetworkParser Rational
ring_16 = record {
  dims_count = 1;
  reconfig_time = none;
  npus_count_per_dim = pos 16 ∷ [];
  bandwidth_per_dim = of_nat 50 ∷ [];
  latency_per_dim = of_nat 500 ∷ [];
  topology_per_dim = ring ∷ [];
}

abbrev delay : NetworkParser Rational → ℕ → ℕ → Outcome ℕ
delay p src dest = do t ← construct_topology p; send t src dest 1_048_576

ring_delay : delay ring_16 1 4 ≡ ok 21031
unfolding construct_topology send compute_hops_count compute_communication_delay ring_distance
ring_delay = refl

delay_dim1 : delay three_dims 0 1 ≡ ok 4932
unfolding construct_topology send compute_hops_count compute_communication_delay ring_distance
delay_dim1 = refl

delay_dim2 : delay three_dims 37 41 ≡ ok 10265
unfolding construct_topology send compute_hops_count compute_communication_delay ring_distance
delay_dim2 = refl

delay_dim3 : delay three_dims 26 42 ≡ ok 23531
unfolding construct_topology send compute_hops_count compute_communication_delay ring_distance
delay_dim3 = refl

abbrev bytes_per_ns : Rational
bytes_per_ns =
    rational_double.div (rational_double.mul (of_nat 50) (of_nat (2 ^ 30))) (of_nat 1_000_000_000)

-- The topology that input/Ring.yml gives.
abbrev ring_topology : BasicTopology Rational
ring_topology = record {
  npus_count = 16;
  dims_count = 1;
  npus_count_per_dim = 16 ∷ [];
  bandwidth_per_dim = of_nat 50 ∷ [];
  bandwidth = of_nat 50;
  bandwidth_Bpns = bytes_per_ns;
  latency = of_nat 500;
  basic_topology_type = ring;
  bidirectional = true;
}

-- The topology that input/Ring_FullyConnected_Switch.yml gives.
abbrev or_ring : Outcome (Topology Rational) → Topology Rational
or_ring (ok t) = t
or_ring _ = basic ring_topology

abbrev built : Topology Rational
built = or_ring (construct_topology three_dims)

three_built : construct_topology three_dims ≡ ok built
unfolding construct_topology
three_built = refl

built_npus : npus_of built ≡ 64
unfolding construct_topology
built_npus = refl

send-construct_topology_example :
    (send built 37 41 1_048_576 ≢ fail assertion) × (send built 37 41 1_048_576 ≢ fail exited)
send-construct_topology_example =
    send-construct_topology three_dims built 37 41 1_048_576 three_built (omega (arith, built_npus))
      (omega (arith, built_npus)) (omega arith) (omega arith)
