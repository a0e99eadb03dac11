-- ===== src/Aware/Topology.antt =====
-- congestion_aware/topology/Topology.cpp and the base class of basic-topology/BasicTopology.cpp.
use astra_network_analytical.Base.{
  ℕ, zero, suc, Bool, true, false, not, List, [], ◌∷◌, set, get_elem?, length, ltb, leb,
  if◌then◌else◌, ◌==◌, Outcome, Error, ok, ◌>>=◌, ◌>>◌, assert, or_fail,
}
use astra_network_analytical.Double.{Double, nought}
use astra_network_analytical.Common.{TopologyBuildingBlock}
use astra_network_analytical.Aware.State.{Chunk, Device, Topology, TopologyClass, World}
use astra_network_analytical.Aware.Chunk.{current_device}
use astra_network_analytical.Aware.Device
use astra_network_analytical.Aware.Device.{new_device}

abbrev pub is_undefined : TopologyBuildingBlock → Bool
is_undefined TopologyBuildingBlock.undefined = true
is_undefined _ = false

module _ {W : Type 0} where
  -- for (auto i = 0; i < devices_count; i++), with n rounds left.
  unfoldable pub devices_from : ℕ → ℕ → List (Device W)
  devices_from i zero = []
  devices_from i (suc n) = new_device i ∷ devices_from (suc i) n

  abbrev assert_counts : Topology W → Outcome (Unit {0})
  assert_counts t = do
    assert (ltb 0 t.devices_count)
    assert (ltb 0 t.npus_count)
    assert (leb t.npus_count t.devices_count)

  unfoldable pub get_devices_count : Topology W → Outcome ℕ
  get_devices_count t = do assert_counts t; ok t.devices_count

  unfoldable pub get_npus_count : Topology W → Outcome ℕ
  get_npus_count t = do assert_counts t; ok t.npus_count

  unfoldable pub get_dims_count : Topology W → Outcome ℕ
  get_dims_count t = do assert (ltb 0 t.dims_count); ok t.dims_count

  unfoldable pub get_npus_count_per_dim : Topology W → Outcome (List ℕ)
  get_npus_count_per_dim t = do
    assert (length t.npus_count_per_dim == t.dims_count)
    ok t.npus_count_per_dim

  unfoldable pub get_bandwidth_per_dim : Topology W → Outcome (List W)
  get_bandwidth_per_dim t = do
    assert (length t.bandwidth_per_dim == t.dims_count)
    ok t.bandwidth_per_dim

  unfoldable pub get_basic_topology_type : Topology W → Outcome TopologyBuildingBlock
  get_basic_topology_type t = do
    assert (not (is_undefined t.basic_topology_type))
    ok t.basic_topology_type

module _ {W : Type 0} ⦃d : Double W⦄ where
  -- devices[src]->connect(dest, bandwidth, latency)
  unfoldable pub connect_from : List (Device W) → ℕ → ℕ → W → W → Outcome (List (Device W))
  unfolding Device.connect
  connect_from devices src dest bandwidth latency = do
    device ← or_fail Error.undefined (get_elem? devices src)
    device' ← Device.connect device dest bandwidth latency
    ok (set devices src device')

  unfoldable pub connect : Topology W → ℕ → ℕ → W → W → Bool → Outcome (Topology W)
  unfolding connect_from
  connect t src dest bandwidth latency bidirectional = do
    assert (ltb src t.devices_count)
    assert (ltb dest t.devices_count)
    assert (d.lt nought bandwidth)
    assert (d.le nought latency)
    devices ← connect_from t.devices src dest bandwidth latency
    devices' ←
        (if bidirectional then connect_from devices dest src bandwidth latency else ok devices)
    ok (record t { devices = devices' })

  unfoldable pub new_basic_topology : TopologyClass → ℕ → ℕ → W → W → Outcome (Topology W)
  unfolding devices_from
  new_basic_topology class npus_count devices_count bandwidth latency = do
    assert (ltb 0 npus_count)
    assert (ltb 0 devices_count)
    assert (leb npus_count devices_count)
    assert (d.lt nought bandwidth)
    assert (d.le nought latency)
    ok (record {
      class = class;
      npus_count = npus_count;
      devices_count = devices_count;
      dims_count = 1;
      npus_count_per_dim = npus_count ∷ [];
      bandwidth_per_dim = bandwidth ∷ [];
      devices = devices_from 0 devices_count;
      bandwidth = bandwidth;
      latency = latency;
      basic_topology_type = TopologyBuildingBlock.undefined;
      bidirectional = false;
      switch_id = 0;
    })

  unfoldable pub send : Chunk → World W → Outcome (World W)
  unfolding Device.send
  send chunk w = do
    src ← current_device chunk
    assert (ltb src w.state.devices_count)
    Device.send src chunk w
