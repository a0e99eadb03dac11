-- ===== src/Reconfigurable/Manager/Drain.antt =====
-- reconfigurable/network/TopologyManager.cpp, but for its requests: the construction and draining.
use astra_network_analytical.Base.{
  ℕ, zero, suc, ◌-◌, ◌*◌, Bool, true, false, not, List, [], ◌∷◌, get_elem?, replicate, none, some,
  ltb, leb, ◌==◌, if◌then◌else◌, Outcome, Error, ok, ◌>>=◌, ◌>>◌, assert, or_fail,
}
use astra_network_analytical.Base.Int.{ℤ, pos, negsuc}
use astra_network_analytical.Double.{Double, nought}
use astra_network_analytical.Reconfigurable.State.{
  Device, TopologyManager, Network, World, device_at, with_device,
}
use astra_network_analytical.Reconfigurable.Device
use astra_network_analytical.Reconfigurable.Device.{connected, get_link, transmit}
use astra_network_analytical.Reconfigurable.Topology
use astra_network_analytical.Reconfigurable.Topology.{new_topology}

module _ {W : Type 0} where
  abbrev pub manager_of : World W → TopologyManager W
  manager_of w = w.state.manager

  abbrev pub with_manager : World W → TopologyManager W → World W
  with_manager w m = record w { state = record (w.state) { manager = m } }

  abbrev pub with_drained : World W → ℕ → World W
  with_drained w n = record w { state = record (w.state) { num_drained_links = n } }

  unfoldable pub get_device : World W → ℕ → Outcome (Device W)
  unfolding Topology.get_device
  get_device w device_id = do
    assert (ltb device_id (manager_of w).devices_count)
    Topology.get_device (manager_of w).topology device_id

  abbrev pub is_reconfiguring : World W → Bool
  is_reconfiguring w = (manager_of w).reconfiguring

  abbrev pub set_cur_topo_id : World W → ℤ → World W
  set_cur_topo_id w topo_id = with_manager w (record (manager_of w) { cur_topo_id = topo_id })

  abbrev pub set_reconfig_latency : World W → W → World W
  set_reconfig_latency w latency =
      with_manager w (record (manager_of w) { reconfig_time = some latency })

  -- The public field, which the client counts up and down.
  abbrev pub set_inflight_coll : World W → ℤ → World W
  set_inflight_coll w count = with_manager w (record (manager_of w) { inflight_coll = count })

  -- The links that a drained network has drained.
  abbrev pub links_count : World W → ℕ
  links_count w = (manager_of w).devices_count * ((manager_of w).devices_count - 1)

  unfoldable pub route : World W → ℕ → ℕ → Outcome (List ℕ)
  unfolding Topology.get_device
  route w src dest = do
    assert (ltb src (manager_of w).npus_count)
    assert (ltb dest (manager_of w).npus_count)
    first ← Topology.get_device (manager_of w).topology src
    last ← Topology.get_device (manager_of w).topology dest
    ok (first.device_id ∷ last.device_id ∷ [])

module _ {W : Type 0} ⦃d : Double W⦄ where
  -- The static `num_drained_links` starts at 0, `drain_all_flow` at true.
  unfoldable pub new_topology_manager : ℕ → ℕ → List (ℤ × List (List W)) → Outcome (Network W)
  unfolding new_topology
  new_topology_manager npus_count devices_count circuit_schedules = do
    assert (ltb 0 npus_count)
    assert (ltb 0 devices_count)
    assert (leb npus_count devices_count)
    topology ← new_topology npus_count devices_count
    ok (record {
      manager = record {
        npus_count = npus_count;
        devices_count = devices_count;
        topology_iteration = 0;
        cur_topo_id = negsuc 0;
        reconfiguring = false;
        reconfig_time = none;
        topology = topology;
        bandwidths = replicate devices_count (replicate devices_count nought);
        latencies = replicate devices_count (replicate devices_count nought);
        precomputed_routes = [];
        circuit_schedules = circuit_schedules;
        inflight_coll = pos 0;
      };
      num_drained_links = 0;
      drain_all_flow = true;
    })

  -- The loop at the end of increment_callback, for n devices from place i.
  unfoldable pub reconfigure_devices : ℕ → ℕ → World W → Outcome (World W)
  unfolding Topology.get_device Device.reconfigure
  reconfigure_devices zero i w = ok w
  reconfigure_devices (suc n) i w = do
    device ← Topology.get_device (manager_of w).topology i
    bandwidths ← or_fail Error.undefined (get_elem? (manager_of w).bandwidths i)
    routes ← or_fail Error.undefined (get_elem? (manager_of w).precomputed_routes i)
    latencies ← or_fail Error.undefined (get_elem? (manager_of w).latencies i)
    reconfig_time ← or_fail Error.undefined (manager_of w).reconfig_time
    w' ← Device.reconfigure i bandwidths routes latencies reconfig_time w
    reconfigure_devices n (suc i) w'

  -- The network is drained: every device is reconfigured.
  unfoldable pub finish_draining : World W → Outcome (World W)
  unfolding reconfigure_devices
  finish_draining w =
      reconfigure_devices (manager_of w).devices_count 0
        (with_manager (with_drained w 0) (record (manager_of w) { reconfiguring = false }))

  unfoldable pub increment_callback : World W → Outcome (World W)
  unfolding finish_draining
  increment_callback w =
      if not (is_reconfiguring w)
      then ok (with_drained w 0)
      else if ltb (suc w.state.num_drained_links) (links_count w)
      then ok (with_drained w (suc w.state.num_drained_links))
      else finish_draining w

  -- The inner loop of drain_network: the links of device i to n devices from j.
  unfoldable pub drain_links : ℕ → ℕ → ℕ → World W → Outcome (World W)
  unfolding increment_callback get_link
  drain_links zero i j w = ok w
  drain_links (suc n) i j w = do
    w' ←
        (if i == j then ok w else (do
          device ← device_at w i
          link ← get_link device j
          if not link.busy then increment_callback w else ok w))
    drain_links n i (suc j) w'

  unfoldable pub drain_devices : ℕ → ℕ → World W → Outcome (World W)
  unfolding drain_links Topology.get_device
  drain_devices zero i w = ok w
  drain_devices (suc n) i w = do
    device ← Topology.get_device (manager_of w).topology i
    w' ←
        drain_links (manager_of w).devices_count i 0
          (with_device w i (record device { draining = true }))
    drain_devices n (suc i) w'

  unfoldable pub drain_network : World W → Outcome (World W)
  unfolding drain_devices
  drain_network w = drain_devices (manager_of w).devices_count 0 (with_drained w 0)
