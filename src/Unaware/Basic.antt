-- ===== src/Unaware/Basic.antt =====
-- congestion_unaware/basic-topology/ and topology/Topology.cpp: one dimension. The three classes
-- derived from BasicTopology are told apart by `basic_topology_type`; `bidirectional` is Ring's.
-- `int` counts and ids are ℕ, the differences that can be negative are ℤ.
pub mod Hops
pub mod Delay
mod Examples
use astra_network_analytical.Base.{
  ℕ, Bool, true, false, not, List, [], ◌∷◌, length, ltb, leb, if◌then◌else◌, ◌==◌, ◌&&◌, Outcome,
  Error, ok, fail, ◌>>=◌, ◌>>◌, assert, or_fail, assertion,
}
use astra_network_analytical.Base.Int.{ℤ, pos, pos_part, neg_part, ltb_ℤ, ◌-ℤ◌, ◌+ℤ◌}
use astra_network_analytical.Double.{Double, nought, of_nat}
use astra_network_analytical.Common.{
  TopologyBuildingBlock, ring, fully_connected, switch, bw_GBps_to_Bpns,
}

pub record BasicTopology (W : Type 0) : Type 0 where
  pub npus_count : ℕ
  pub dims_count : ℕ
  pub npus_count_per_dim : List ℕ
  pub bandwidth_per_dim : List W
  pub bandwidth : W
  pub bandwidth_Bpns : W
  pub latency : W
  pub basic_topology_type : TopologyBuildingBlock
  pub bidirectional : Bool

-- The asserts on the ids that every hop count and `send` begin with.
abbrev assert_pair : ℕ → ℕ → ℕ → Outcome (Unit {0})
assert_pair n src dest = do assert (ltb src n); assert (ltb dest n); assert (not (src == dest))

abbrev is_undefined : TopologyBuildingBlock → Bool
is_undefined TopologyBuildingBlock.undefined = true
is_undefined _ = false

-- Ring::compute_hops_count, behind its asserts.
unfoldable pub ring_distance : Bool → ℕ → ℕ → ℕ → ℤ
unfolding ◌-ℤ◌ ◌+ℤ◌
ring_distance bidirectional n src dest =
    let difference = pos dest -ℤ pos src in
    let clockwise = if ltb_ℤ difference (pos 0) then difference +ℤ pos n else difference in
    let anticlockwise = pos n -ℤ clockwise in
    if not bidirectional
    then clockwise
    else if ltb_ℤ clockwise anticlockwise
    then clockwise
    else anticlockwise

module _ {W : Type 0} where
  unfoldable pub get_npus_count : BasicTopology W → Outcome ℕ
  get_npus_count t = do assert (ltb 0 t.npus_count); ok t.npus_count

  unfoldable pub get_bandwidth_per_dim : BasicTopology W → Outcome (List W)
  get_bandwidth_per_dim t = do
    assert (length t.bandwidth_per_dim == t.dims_count)
    ok t.bandwidth_per_dim

  unfoldable pub get_basic_topology_type : BasicTopology W → Outcome TopologyBuildingBlock
  get_basic_topology_type t = do
    assert (not (is_undefined t.basic_topology_type))
    ok t.basic_topology_type

  unfoldable pub ring_hops_count : BasicTopology W → ℕ → ℕ → Outcome ℤ
  ring_hops_count t src dest = do
    assert_pair t.npus_count src dest
    ok (ring_distance t.bidirectional t.npus_count src dest)

  unfoldable pub fully_connected_hops_count : BasicTopology W → ℕ → ℕ → Outcome ℤ
  fully_connected_hops_count t src dest = do assert_pair t.npus_count src dest; ok (pos 1)

  unfoldable pub switch_hops_count : BasicTopology W → ℕ → ℕ → Outcome ℤ
  switch_hops_count t src dest = do assert_pair t.npus_count src dest; ok (pos 2)

  -- The virtual call; no class has another type.
  abbrev hops_count_of : TopologyBuildingBlock → BasicTopology W → ℕ → ℕ → Outcome ℤ
  hops_count_of ring t src dest = ring_hops_count t src dest
  hops_count_of fully_connected t src dest = fully_connected_hops_count t src dest
  hops_count_of switch t src dest = switch_hops_count t src dest
  hops_count_of _ t src dest = fail Error.undefined

  unfoldable pub compute_hops_count : BasicTopology W → ℕ → ℕ → Outcome ℤ
  unfolding ring_hops_count fully_connected_hops_count switch_hops_count
  compute_hops_count t src dest = hops_count_of t.basic_topology_type t src dest

module _ {W : Type 0} ⦃d : Double W⦄ where
  unfoldable pub new_basic_topology : ℕ → W → W → Outcome (BasicTopology W)
  unfolding bw_GBps_to_Bpns
  new_basic_topology npus_count bandwidth latency = do
    assert (ltb 0 npus_count)
    assert (d.lt nought bandwidth)
    assert (d.le nought latency)
    bandwidth_Bpns ← bw_GBps_to_Bpns bandwidth
    ok (record {
      npus_count = npus_count;
      dims_count = 1;
      npus_count_per_dim = npus_count ∷ [];
      bandwidth_per_dim = bandwidth ∷ [];
      bandwidth = bandwidth;
      bandwidth_Bpns = bandwidth_Bpns;
      latency = latency;
      basic_topology_type = TopologyBuildingBlock.undefined;
      bidirectional = false;
    })

  -- The derived constructors repeat the asserts of the base, which has then passed them.
  unfoldable pub new_ring : ℕ → W → W → Bool → Outcome (BasicTopology W)
  unfolding new_basic_topology
  new_ring npus_count bandwidth latency bidirectional = do
    base ← new_basic_topology npus_count bandwidth latency
    ok (record base { basic_topology_type = ring; bidirectional = bidirectional })

  unfoldable pub new_fully_connected : ℕ → W → W → Outcome (BasicTopology W)
  unfolding new_basic_topology
  new_fully_connected npus_count bandwidth latency = do
    base ← new_basic_topology npus_count bandwidth latency
    ok (record base { basic_topology_type = fully_connected })

  unfoldable pub new_switch : ℕ → W → W → Outcome (BasicTopology W)
  unfolding new_basic_topology
  new_switch npus_count bandwidth latency = do
    base ← new_basic_topology npus_count bandwidth latency
    ok (record base { basic_topology_type = switch })

  unfoldable pub compute_communication_delay : BasicTopology W → ℤ → ℕ → Outcome ℕ
  compute_communication_delay t hops_count chunk_size = do
    assert (ltb_ℤ (pos 0) hops_count)
    assert (ltb 0 chunk_size)
    let link_delay = d.mul (d.of_int hops_count) t.latency
    let serialization_delay = d.div (of_nat chunk_size) t.bandwidth_Bpns
    or_fail Error.undefined (d.to_uint64 (d.add link_delay serialization_delay))

  unfoldable pub send : BasicTopology W → ℕ → ℕ → ℕ → Outcome ℕ
  send t src dest chunk_size = do
    assert_pair t.npus_count src dest
    assert (ltb 0 chunk_size)
    hops_count ← compute_hops_count t src dest
    compute_communication_delay t hops_count chunk_size
