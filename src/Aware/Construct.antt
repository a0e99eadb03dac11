-- ===== src/Aware/Construct.antt =====
-- congestion_aware/topology/Helper.cpp.
pub mod Initial
pub mod Examples
pub mod Start
pub mod Reads
pub mod Wires
pub mod Loops
pub mod Wired
use astra_network_analytical.Base.{
  ℕ, true, List, ◌∷◌, ◌==◌, Outcome, Error, ok, fail, ◌>>=◌, ◌>>◌, check, assertion, exited,
}
use astra_network_analytical.Base.Int.{ℤ, pos, negsuc}
use astra_network_analytical.Double.{Double}
use astra_network_analytical.Common.{TopologyBuildingBlock, ring, fully_connected, switch}
use astra_network_analytical.NetworkParser.{
  NetworkParser, get_dims_count, get_topologies_per_dim, get_npus_counts_per_dim,
  get_bandwidths_per_dim, get_latencies_per_dim,
}
use astra_network_analytical.Aware.State.{Topology}
use astra_network_analytical.Aware.Basic.{new_ring, new_fully_connected, new_switch}

-- A count that is negative fails the assert of the constructor that it is handed to.
abbrev to_count : ℤ → Outcome ℕ
to_count (pos n) = ok n
to_count (negsuc n) = fail assertion

module _ {W : Type 0} ⦃d : Double W⦄ where
  abbrev pub new_topology : TopologyBuildingBlock → ℕ → W → W → Outcome (Topology W)
  new_topology ring n bandwidth latency = new_ring n bandwidth latency true
  new_topology switch n bandwidth latency = new_switch n bandwidth latency
  new_topology fully_connected n bandwidth latency = new_fully_connected n bandwidth latency
  new_topology _ n bandwidth latency = fail exited

  -- Place 0 of each vector; a vector has one element when `dims_count` is 1.
  abbrev construct_first :
      List TopologyBuildingBlock → List ℤ → List W → List W → Outcome (Topology W)
  construct_first (t ∷ ts) (n ∷ ns) (b ∷ bs) (l ∷ ls) = do
    npus_count ← to_count n
    new_topology t npus_count b l
  construct_first _ _ _ _ = fail Error.undefined

  unfoldable pub construct_topology : NetworkParser W → Outcome (Topology W)
  unfolding get_dims_count get_topologies_per_dim get_npus_counts_per_dim get_bandwidths_per_dim
      get_latencies_per_dim new_ring new_switch new_fully_connected
  construct_topology network_parser = do
    dims_count ← get_dims_count network_parser
    topologies ← get_topologies_per_dim network_parser
    npus_counts ← get_npus_counts_per_dim network_parser
    bandwidths ← get_bandwidths_per_dim network_parser
    latencies ← get_latencies_per_dim network_parser
    check (dims_count == 1) exited
    construct_first topologies npus_counts bandwidths latencies
