-- ===== src/Unaware/Construct.antt =====
-- congestion_unaware/topology/Helper.cpp: from the parsed configuration to a topology, and the call
-- of `send` on either kind.
pub mod Consistency
pub mod Single
pub mod Examples
use astra_network_analytical.Base.{
  ℕ, suc, Bool, true, false, List, [], ◌∷◌, if◌then◌else◌, ◌==◌, Outcome, Error, ok, fail, ◌>>=◌,
  assertion, exited, or_fail, get_elem?,
}
use astra_network_analytical.Base.Int.{ℤ, pos, negsuc}
use astra_network_analytical.Double.{Double}
use astra_network_analytical.Common.{TopologyBuildingBlock, ring, fully_connected, switch}
use astra_network_analytical.NetworkParser.{
  NetworkParser, get_dims_count, get_topologies_per_dim, get_npus_counts_per_dim,
  get_bandwidths_per_dim, get_latencies_per_dim,
}
use astra_network_analytical.Unaware.Basic
use astra_network_analytical.Unaware.Basic.{
  BasicTopology, new_ring, new_fully_connected, new_switch,
}
use astra_network_analytical.Unaware.MultiDim
use astra_network_analytical.Unaware.MultiDim.{
  MultiDimTopology, new_multi_dim_topology, append_dimension,
}

pub data Topology (W : Type 0) : Type 0 where
  basic : BasicTopology W → Topology W
  multi_dim : MultiDimTopology W → Topology W

-- A count that is negative fails the assert of the constructor that it is handed to.
abbrev pub to_count : ℤ → Outcome ℕ
to_count (pos n) = ok n
to_count (negsuc n) = fail assertion

module _ {W : Type 0} ⦃d : Double W⦄ where
  -- Both `switch` statements. Ring's last argument has the default `true`.
  unfoldable pub new_dimension : TopologyBuildingBlock → ℕ → W → W → Outcome (BasicTopology W)
  unfolding new_ring new_fully_connected new_switch
  new_dimension ring npus_count bandwidth latency = new_ring npus_count bandwidth latency true
  new_dimension switch npus_count bandwidth latency = new_switch npus_count bandwidth latency
  new_dimension fully_connected npus_count bandwidth latency =
      new_fully_connected npus_count bandwidth latency
  new_dimension _ npus_count bandwidth latency = fail exited

  -- for (auto dim = 0; dim < dims_count; dim++), on the values of the remaining dimensions.
  append_dimensions :
      List TopologyBuildingBlock
      → List ℤ
      → List W
      → List W
      → MultiDimTopology W
      → Outcome (MultiDimTopology W)
  unfolding new_dimension append_dimension
  append_dimensions [] npus bandwidths latencies m = ok m
  append_dimensions (t ∷ ts) (n ∷ ns) (b ∷ bs) (l ∷ ls) m = do
    npus_count ← to_count n
    dim_topology ← new_dimension t npus_count b l
    m' ← append_dimension m dim_topology
    append_dimensions ts ns bs ls m'
  append_dimensions (t ∷ ts) _ _ _ m = fail Error.undefined

  construct_basic : List TopologyBuildingBlock → List ℤ → List W → List W → Outcome (Topology W)
  unfolding new_dimension
  construct_basic (t ∷ ts) (n ∷ ns) (b ∷ bs) (l ∷ ls) = do
    npus_count ← to_count n
    topology ← new_dimension t npus_count b l
    ok (basic topology)
  construct_basic _ _ _ _ = fail Error.undefined

  -- The body of construct_topology, on what it reads from the parser.
  construct_from : ℕ → List TopologyBuildingBlock → List ℤ → List W → List W → Outcome (Topology W)
  unfolding append_dimensions construct_basic
  construct_from dims_count topologies npus_counts bandwidths latencies =
      if dims_count == 1 then construct_basic topologies npus_counts bandwidths latencies else (do
        m ← append_dimensions topologies npus_counts bandwidths latencies new_multi_dim_topology
        ok (multi_dim m))

  unfoldable pub construct_topology : NetworkParser W → Outcome (Topology W)
  unfolding construct_from get_dims_count get_topologies_per_dim get_npus_counts_per_dim
      get_bandwidths_per_dim get_latencies_per_dim
  construct_topology network_parser = do
    dims_count ← get_dims_count network_parser
    topologies ← get_topologies_per_dim network_parser
    npus_counts ← get_npus_counts_per_dim network_parser
    bandwidths ← get_bandwidths_per_dim network_parser
    latencies ← get_latencies_per_dim network_parser
    construct_from dims_count topologies npus_counts bandwidths latencies

  -- The virtual call of `send`.
  unfoldable pub send : Topology W → ℕ → ℕ → ℕ → Outcome ℕ
  unfolding Basic.send MultiDim.send
  send (basic t) src dest chunk_size = Basic.send t src dest chunk_size
  send (multi_dim m) src dest chunk_size = MultiDim.send m src dest chunk_size
