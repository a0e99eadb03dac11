-- ===== src/Aware/Construct/Reads.antt =====
-- What construct_topology reads of a configuration.
use astra_network_analytical.Base.{
  refl, ℕ, ◌≡◌, ◌∙◌, ap, List, [], ◌∷◌, ◌==◌, ok, exited, >>=-eq-ok, check-eq-ok, arith,
}
use astra_network_analytical.Base.Int.{ℤ, pos, negsuc}
use astra_network_analytical.Double.{Double}
use astra_network_analytical.Common.{TopologyBuildingBlock}
use astra_network_analytical.NetworkParser.{
  NetworkParser, get_dims_count, get_topologies_per_dim, get_npus_counts_per_dim,
  get_bandwidths_per_dim, get_latencies_per_dim,
}
use astra_network_analytical.Aware.State.{Topology}
use astra_network_analytical.Aware.Construct.{new_topology, construct_first, construct_topology}

module _ {W : Type 0} ⦃d : Double W⦄ where
  -- The configuration begins with these values, of one dimension.
  abbrev pub Reads : NetworkParser W → TopologyBuildingBlock → ℕ → W → W → Type 0
  Reads p block n bandwidth latency =
      (ts : List TopologyBuildingBlock) × (ns : List ℤ) × (bs ls : List W) × (get_dims_count p
        ≡ ok 1)
      × (get_topologies_per_dim p ≡ ok (block ∷ ts))
      × (get_npus_counts_per_dim p ≡ ok (pos n ∷ ns))
      × (get_bandwidths_per_dim p ≡ ok (bandwidth ∷ bs))
      × (get_latencies_per_dim p ≡ ok (latency ∷ ls))

  abbrev First : List TopologyBuildingBlock → List ℤ → List W → List W → Topology W → Type 0
  First ts ns bs ls t =
      (block : TopologyBuildingBlock) × (n : ℕ) × (bandwidth latency : W) × (ts' : List
        TopologyBuildingBlock)
      × (ns' : List ℤ) × (bs' ls' : List W) × (ts ≡ block ∷ ts')
      × (ns ≡ pos n ∷ ns')
      × (bs ≡ bandwidth ∷ bs')
      × (ls ≡ latency ∷ ls')
      × (new_topology block n bandwidth latency ≡ ok t)

  construct_first-First :
      (ts : List TopologyBuildingBlock) (ns : List ℤ) (bs ls : List W) (t : Topology W)
      → construct_first ts ns bs ls ≡ ok t
      → First ts ns bs ls t
  construct_first-First [] ns bs ls t h = cc
  construct_first-First (x ∷ ts) [] bs ls t h = cc
  construct_first-First (x ∷ ts) (n ∷ ns) [] ls t h = cc
  construct_first-First (x ∷ ts) (n ∷ ns) (b ∷ bs) [] t h = cc
  construct_first-First (x ∷ ts) (negsuc n ∷ ns) (b ∷ bs) (l ∷ ls) t h = cc
  construct_first-First (x ∷ ts) (pos n ∷ ns) (b ∷ bs) (l ∷ ls) t h =
      (x, n, b, l, ts, ns, bs, ls, refl, refl, refl, refl, h)

  pub construct_topology-Reads :
      (p : NetworkParser W) (t : Topology W)
      → construct_topology p ≡ ok t
      → (block : TopologyBuildingBlock) × (n : ℕ) × (bandwidth latency : W) × Reads p block n
          bandwidth latency
        × (new_topology block n bandwidth latency ≡ ok t)
  unfolding construct_topology
  construct_topology-Reads p t h =
      let (dims, one, h₁) = >>=-eq-ok (get_dims_count p) _ h in
      let (ts, e₁, h₂) = >>=-eq-ok (get_topologies_per_dim p) _ h₁ in
      let (ns, e₂, h₃) = >>=-eq-ok (get_npus_counts_per_dim p) _ h₂ in
      let (bs, e₃, h₄) = >>=-eq-ok (get_bandwidths_per_dim p) _ h₃ in
      let (ls, e₄, h₅) = >>=-eq-ok (get_latencies_per_dim p) _ h₄ in
      let (single, made) = check-eq-ok (dims == 1) exited _ h₅ in
      let (block, n, b, l, ts', ns', bs', ls', f₁, f₂, f₃, f₄, first) =
        construct_first-First ts ns bs ls t made in
      let is_one : dims ≡ 1 = ground arith in
      (
        block,
        n,
        b,
        l,
        (
          ts',
          ns',
          bs',
          ls',
          one ∙ ap ok is_one,
          e₁ ∙ ap ok f₁,
          e₂ ∙ ap ok f₂,
          e₃ ∙ ap ok f₃,
          e₄ ∙ ap ok f₄,
        ),
        first,
      )
