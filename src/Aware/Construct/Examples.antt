-- ===== src/Aware/Construct/Examples.antt =====
-- A switch of two NPUs from a configuration, and the delays of a link.
use astra_network_analytical.Base.{◌^◌, ◌≤◌, ◌<◌, ◌≡◌, refl, none, [], ◌∷◌, Outcome, ok}
use astra_network_analytical.Base.Int.{pos}
use astra_network_analytical.Double.{of_nat}
use astra_network_analytical.Double.Rational.{Rational, rational_double, rational-DoubleLaws}
use astra_network_analytical.Common.{switch}
use astra_network_analytical.NetworkParser.{NetworkParser}
use astra_network_analytical.Aware.State.{Topology, switch_topology, find_link}
use astra_network_analytical.Aware.Topology.{get_basic_topology_type}
use astra_network_analytical.Aware.Link.{serialization_delay, communication_delay}
use astra_network_analytical.Aware.Construct.{construct_topology}
use astra_network_analytical.Aware.Simulation.{start}
use astra_network_analytical.Aware.Construct.Start.{
  type_result, construct_topology-Follows, get_basic_topology_type-construct_topology,
}
use astra_network_analytical.Aware.Protocol.{FollowsProtocol}
use astra_network_analytical.Aware.Delay.{serialization_delay-le-communication_delay}
use astra_network_analytical.Aware.Examples.{link, between}

-- A switch with two NPUs, from a configuration.
abbrev pub switch_2 : NetworkParser Rational
switch_2 = record {
  dims_count = 1;
  reconfig_time = none;
  npus_count_per_dim = pos 2 ∷ [];
  bandwidth_per_dim = of_nat 50 ∷ [];
  latency_per_dim = of_nat 500 ∷ [];
  topology_per_dim = switch ∷ [];
}

abbrev pub or_between : Outcome (Topology Rational) → Topology Rational
or_between (ok t) = t
or_between _ = between link

abbrev pub built : Topology Rational
built = or_between (construct_topology switch_2)

pub switch_built : construct_topology switch_2 ≡ ok built
unfolding construct_topology find_link
switch_built = refl

switch_class : built.class ≡ switch_topology
unfolding construct_topology find_link
switch_class = refl

construct_topology-Follows_example : FollowsProtocol [] (start built)
construct_topology-Follows_example = construct_topology-Follows switch_2 built switch_built

get_basic_topology_type-construct_topology_example :
    get_basic_topology_type built ≡ type_result built.class
get_basic_topology_type-construct_topology_example =
    get_basic_topology_type-construct_topology switch_2 built switch_built

serialization_20000 : serialization_delay link 1_080_000 ≡ ok 20000
unfolding serialization_delay
serialization_20000 = refl

communication_20500 : communication_delay link 1_080_000 ≡ ok 20500
unfolding communication_delay
communication_20500 = refl

serialization_delay-le-communication_delay_example : (20000 ≤ 20500) × (20500 < 2 ^ 64)
serialization_delay-le-communication_delay_example =
    serialization_delay-le-communication_delay rational-DoubleLaws link 1_080_000 20000 20500 refl
      serialization_20000 communication_20500
