-- ===== src/Unaware/Construct/Consistency.antt =====
-- What construct_topology gives is consistent, so that transfers on it fail no assertion.
use astra_network_analytical.Base.{
  ℕ, ◌≡◌, ◌≢◌, ok-injective, or_fail-ne, subst, sym, ◌∙◌, assertion, exited, ◌<◌, List, [], ◌∷◌, ok,
  fail, >>=-eq-ok, inl, inr, arith, Bool-cases, ◌==◌, Error, or_fail, Option,
}
use astra_network_analytical.Base.Int.{ℤ}
use astra_network_analytical.Double.{Double}
use astra_network_analytical.Common.{TopologyBuildingBlock}
use astra_network_analytical.NetworkParser.{
  NetworkParser, get_dims_count, get_topologies_per_dim, get_npus_counts_per_dim,
  get_bandwidths_per_dim, get_latencies_per_dim,
}
use astra_network_analytical.Unaware.Basic.{BasicTopology}
use astra_network_analytical.Unaware.Basic.Delay.{IsClass, send-delay_of}
use astra_network_analytical.Unaware.MultiDim.{
  MultiDimTopology, append_dimension, new_multi_dim_topology,
}
use astra_network_analytical.Unaware.MultiDim.Send.{
  IsConsistent, append_dimension-IsConsistent, new_multi_dim_topology-IsConsistent,
  send-TransfersAt,
}
use astra_network_analytical.Unaware.Construct.{
  Topology, basic, multi_dim, to_count, new_dimension, append_dimensions, construct_basic,
  construct_from, construct_topology, send,
}

module _ {W : Type 0} ⦃d : Double W⦄ where
  new_dimension-IsClass :
      (type : TopologyBuildingBlock) (n : ℕ) (bandwidth latency : W) (t : BasicTopology W)
      → new_dimension type n bandwidth latency ≡ ok t
      → IsClass t.basic_topology_type
  unfolding new_dimension
  new_dimension-IsClass type n bandwidth latency t h = ground arith

  append_dimensions-IsConsistent :
      (ts : List TopologyBuildingBlock) (ns : List ℤ) (bs ls : List W) (m m' : MultiDimTopology W)
      → IsConsistent m
      → append_dimensions ts ns bs ls m ≡ ok m'
      → IsConsistent m'
  unfolding append_dimensions
  append_dimensions-IsConsistent [] ns bs ls m m' v h = subst IsConsistent (ok-injective h) v
  append_dimensions-IsConsistent (t ∷ ts) [] bs ls m m' v h = cc
  append_dimensions-IsConsistent (t ∷ ts) (n ∷ ns) [] ls m m' v h = cc
  append_dimensions-IsConsistent (t ∷ ts) (n ∷ ns) (b ∷ bs) [] m m' v h = cc
  append_dimensions-IsConsistent (t ∷ ts) (n ∷ ns) (b ∷ bs) (l ∷ ls) m m' v h =
      let (count, counted, h₁) = >>=-eq-ok (to_count n) _ h in
      let (dim_topology, made, h₂) = >>=-eq-ok (new_dimension t count b l) _ h₁ in
      let (grown, appended, rest) = >>=-eq-ok (append_dimension m dim_topology) _ h₂ in
      append_dimensions-IsConsistent ts ns bs ls grown m'
        (append_dimension-IsConsistent m grown dim_topology v
          (new_dimension-IsClass t count b l dim_topology made) appended).0
        rest

  -- Consistent, and with that many NPUs.
  abbrev pub IsSound : Topology W → Type 0
  IsSound (basic t) = IsClass t.basic_topology_type
  IsSound (multi_dim m) = IsConsistent m

  abbrev pub npus_of : Topology W → ℕ
  npus_of (basic t) = t.npus_count
  npus_of (multi_dim m) = m.npus_count

  construct_basic-IsSound :
      (ts : List TopologyBuildingBlock) (ns : List ℤ) (bs ls : List W) (t : Topology W)
      → construct_basic ts ns bs ls ≡ ok t
      → IsSound t
  unfolding construct_basic
  construct_basic-IsSound [] ns bs ls t h = cc
  construct_basic-IsSound (x ∷ ts) [] bs ls t h = cc
  construct_basic-IsSound (x ∷ ts) (n ∷ ns) [] ls t h = cc
  construct_basic-IsSound (x ∷ ts) (n ∷ ns) (b ∷ bs) [] t h = cc
  construct_basic-IsSound (x ∷ ts) (n ∷ ns) (b ∷ bs) (l ∷ ls) t h =
      let (count, counted, h₁) = >>=-eq-ok (to_count n) _ h in
      let (made_topology, made, h₂) = >>=-eq-ok (new_dimension x count b l) _ h₁ in
      subst IsSound (ok-injective h₂) (new_dimension-IsClass x count b l made_topology made)

  construct_from-IsSound :
      (n : ℕ) (ts : List TopologyBuildingBlock) (ns : List ℤ) (bs ls : List W) (t : Topology W)
      → construct_from n ts ns bs ls ≡ ok t
      → IsSound t
  unfolding construct_from
  construct_from-IsSound n ts ns bs ls t h = elim (Bool-cases (n == 1)) [
    | inl single ↦ construct_basic-IsSound ts ns bs ls t (rw single at h)
    | inr several ↦
        let (m, appended, made) =
          >>=-eq-ok (append_dimensions ts ns bs ls new_multi_dim_topology) (λ m. ok (multi_dim m))
            (rw several at h) in
        subst IsSound (ok-injective made) (
          append_dimensions-IsConsistent ts ns bs ls new_multi_dim_topology m
            new_multi_dim_topology-IsConsistent appended)
  ]

  construct_topology-IsSound :
      (p : NetworkParser W) (t : Topology W) → construct_topology p ≡ ok t → IsSound t
  unfolding construct_topology
  construct_topology-IsSound p t h =
      let (n, _, h₁) = >>=-eq-ok (get_dims_count p) _ h in
      let (ts, _, h₂) = >>=-eq-ok (get_topologies_per_dim p) _ h₁ in
      let (ns, _, h₃) = >>=-eq-ok (get_npus_counts_per_dim p) _ h₂ in
      let (bs, _, h₄) = >>=-eq-ok (get_bandwidths_per_dim p) _ h₃ in
      let (ls, _, made) = >>=-eq-ok (get_latencies_per_dim p) _ h₄ in
      construct_from-IsSound n ts ns bs ls t made

  send-casts :
      (t : Topology W) (src dest size : ℕ)
      → IsSound t
      → src < npus_of t
      → dest < npus_of t
      → src ≢ dest
      → 0 < size
      → (delay : Option ℕ) × (send t src dest size ≡ or_fail Error.undefined delay)
  unfolding send
  send-casts (basic t) src dest size v h k e z = (_, send-delay_of t src dest size v h k e z)
  send-casts (multi_dim m) src dest size v h k e z =
      let found = send-TransfersAt m src dest size v h k e z in (_, found.13)

  -- On a topology that construct_topology gave, a transfer of a chunk that is not empty between
  -- two different ids below the number of NPUs fails no assertion and does not exit.
  pub send-construct_topology :
      (p : NetworkParser W) (t : Topology W) (src dest size : ℕ)
      → construct_topology p ≡ ok t
      → src < npus_of t
      → dest < npus_of t
      → src ≢ dest
      → 0 < size
      → (send t src dest size ≢ fail assertion) × (send t src dest size ≢ fail exited)
  send-construct_topology p t src dest size made h k e z =
      let (delay, sent) =
        send-casts t src dest size (construct_topology-IsSound p t made) h k e z in
      (
        λ f. or_fail-ne Error.undefined assertion delay (λ g. cc) (sym sent ∙ f),
        λ f. or_fail-ne Error.undefined exited delay (λ g. cc) (sym sent ∙ f),
      )
