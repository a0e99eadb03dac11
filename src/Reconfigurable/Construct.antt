-- ===== src/Reconfigurable/Construct.antt =====
-- reconfigurable/topology/Helper.cpp.
use astra_network_analytical.Base.{
  List, ◌∷◌, ◌==◌, Outcome, Error, fail, ◌>>=◌, ◌>>◌, check, exited,
}
use astra_network_analytical.Base.Int.{ℤ, pos}
use astra_network_analytical.Double.{Double}
use astra_network_analytical.NetworkParser.{
  NetworkParser, get_dims_count, get_topologies_per_dim, get_npus_counts_per_dim,
  get_latencies_per_dim, get_reconfig_time,
}
use astra_network_analytical.Reconfigurable.State.{Topology}
use astra_network_analytical.Reconfigurable.Topology.{new_topology}

module _ {W : Type 0} ⦃d : Double W⦄ where
  -- The count at place 0; the parser lets no negative count and no empty vector pass.
  unfoldable pub construct_first : List ℤ → Outcome (Topology W)
  unfolding new_topology
  construct_first (pos npus_count ∷ rest) = new_topology npus_count npus_count
  construct_first _ = fail Error.undefined

  unfoldable pub construct_topology : NetworkParser W → Outcome (Topology W)
  unfolding construct_first get_dims_count get_topologies_per_dim get_npus_counts_per_dim
      get_latencies_per_dim get_reconfig_time
  construct_topology network_parser = do
    dims_count ← get_dims_count network_parser
    _ ← get_topologies_per_dim network_parser
    npus_counts ← get_npus_counts_per_dim network_parser
    _ ← get_latencies_per_dim network_parser
    _ ← get_reconfig_time network_parser
    check (dims_count == 1) exited
    construct_first npus_counts
