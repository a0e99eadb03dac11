-- ===== src/Unaware/Construct/Single.antt =====
-- The topology of a configuration of one dimension.
use astra_network_analytical.Base.{ℕ, ◌≡◌, List, ◌∷◌, ok, ok-injective, >>=-eq-ok}
use astra_network_analytical.Base.Int.{ℤ, pos}
use astra_network_analytical.Double.{Double}
use astra_network_analytical.Common.{TopologyBuildingBlock}
use astra_network_analytical.NetworkParser.{
  NetworkParser, get_dims_count, get_topologies_per_dim, get_npus_counts_per_dim,
  get_bandwidths_per_dim, get_latencies_per_dim,
}
use astra_network_analytical.Unaware.Basic.{BasicTopology}
use astra_network_analytical.Unaware.Construct.{
  Topology, basic, new_dimension, construct_basic, construct_from, construct_topology,
}

module _ {W : Type 0} ⦃d : Double W⦄ where
  pub construct_topology-single :
      (p : NetworkParser W) (block : TopologyBuildingBlock) (n : ℕ) (bandwidth latency : W)
      → (ts : List TopologyBuildingBlock) (ns : List ℤ) (bs ls : List W) (t : Topology W)
      → get_dims_count p ≡ ok 1
      → get_topologies_per_dim p ≡ ok (block ∷ ts)
      → get_npus_counts_per_dim p ≡ ok (pos n ∷ ns)
      → get_bandwidths_per_dim p ≡ ok (bandwidth ∷ bs)
      → get_latencies_per_dim p ≡ ok (latency ∷ ls)
      → construct_topology p ≡ ok t
      → (b : BasicTopology W) × (new_dimension block n bandwidth latency ≡ ok b) × (basic b ≡ t)
  unfolding construct_topology construct_from construct_basic
  construct_topology-single p block n bandwidth latency ts ns bs ls t e₀ e₁ e₂ e₃ e₄ h =
      let single = rw (e₀, e₁, e₂, e₃, e₄) at h in
      let (b, made, done) = >>=-eq-ok (new_dimension block n bandwidth latency) _ single in
      (b, made, ok-injective done)
