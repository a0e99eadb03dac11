-- ===== src/Reconfigurable/Topology.antt =====
-- reconfigurable/topology/Topology.cpp.
use astra_network_analytical.Base.{
  ℕ, zero, suc, Bool, true, false, List, [], ◌∷◌, get_elem?, set, ltb, if◌then◌else◌, Outcome,
  Error, ok, ◌>>=◌, ◌>>◌, assert, or_fail,
}
use astra_network_analytical.Double.{Double, nought}
use astra_network_analytical.Reconfigurable.State.{Chunk, Device, Topology, World}
use astra_network_analytical.Reconfigurable.Chunk.{current_device}
use astra_network_analytical.Reconfigurable.Device
use astra_network_analytical.Reconfigurable.Device.{new_device}

module _ {W : Type 0} where
  abbrev pub get_npus_count : Topology W → ℕ
  get_npus_count t = t.npus_count

  abbrev pub get_devices_count : Topology W → ℕ
  get_devices_count t = t.devices_count

  unfoldable pub devices_from : ℕ → ℕ → List (Device W)
  devices_from i zero = []
  devices_from i (suc n) = new_device i ∷ devices_from (suc i) n

  unfoldable pub get_device : Topology W → ℕ → Outcome (Device W)
  get_device t device_id = do
    assert (ltb device_id t.devices_count)
    or_fail Error.undefined (get_elem? t.devices device_id)

module _ {W : Type 0} ⦃d : Double W⦄ where
  -- devices[src]->connect(dest, bandwidth, latency)
  unfoldable pub connect_from : List (Device W) → ℕ → ℕ → W → W → Outcome (List (Device W))
  unfolding Device.connect
  connect_from devices src dest bandwidth latency = do
    device ← or_fail Error.undefined (get_elem? devices src)
    device' ← Device.connect device dest bandwidth latency
    ok (set devices src device')

  unfoldable pub connect : Topology W → ℕ → ℕ → W → W → Bool → Outcome (Topology W)
  unfolding connect_from
  connect t src dest bandwidth latency bidirectional = do
    assert (ltb src t.devices_count)
    assert (ltb dest t.devices_count)
    assert (d.le nought bandwidth)
    assert (d.le nought latency)
    devices ← connect_from t.devices src dest bandwidth latency
    devices' ←
        (if bidirectional then connect_from devices dest src bandwidth latency else ok devices)
    ok (record t { devices = devices' })

  -- The inner loop of the constructor: connect(i, j, 0, 0, true) for n values of j.
  unfoldable pub connect_above : ℕ → ℕ → ℕ → Topology W → Outcome (Topology W)
  unfolding connect
  connect_above zero i j t = ok t
  connect_above (suc n) i j t = do
    t' ← connect t i j nought nought true
    connect_above n i (suc j) t'

  -- for (i ...) for (j = i + 1 ...), with n values of i left.
  unfoldable pub connect_pairs : ℕ → ℕ → Topology W → Outcome (Topology W)
  unfolding connect_above
  connect_pairs zero i t = ok t
  connect_pairs (suc n) i t = do t' ← connect_above n i (suc i) t; connect_pairs n (suc i) t'

  unfoldable pub connect_selves : ℕ → ℕ → Topology W → Outcome (Topology W)
  unfolding connect
  connect_selves zero i t = ok t
  connect_selves (suc n) i t = do
    t' ← connect t i i nought nought false
    connect_selves n (suc i) t'

  unfoldable pub new_topology : ℕ → ℕ → Outcome (Topology W)
  unfolding connect_pairs connect_selves devices_from
  new_topology npus_count devices_count = do
    let t : Topology W = record {
      npus_count = npus_count;
      devices_count = devices_count;
      devices = devices_from 0 devices_count;
    }
    paired ← connect_pairs devices_count 0 t
    connect_selves devices_count 0 paired

  unfoldable pub send : Chunk → World W → Outcome (World W)
  unfolding Device.send
  send chunk w = do
    src ← current_device chunk
    assert (ltb src w.state.manager.topology.devices_count)
    Device.send src chunk w
