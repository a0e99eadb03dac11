-- ===== src/Reconfigurable/Manager.antt =====
-- The requests to the manager of reconfigurable/network/TopologyManager.cpp, and Device::link_become_free, which calls it back.
pub mod Drain
use astra_network_analytical.Base.{
  ℕ, zero, suc, ◌-◌, ◌*◌, Bool, true, false, not, ◌||◌, List, [], ◌∷◌, length, get_elem?, replicate,
  Option, none, some, ltb, leb, ◌==◌, if◌then◌else◌, Outcome, Error, ok, ◌>>=◌, ◌>>◌, assert,
  or_fail,
}
use astra_network_analytical.Base.Int.{ℤ, pos, negsuc, ltb_ℤ, eqb_ℤ}
use astra_network_analytical.Base.Maps.{find, put, find_or}
use astra_network_analytical.Double.{Double, nought}
use astra_network_analytical.Reconfigurable.State.{
  Chunk, Link, Device, TopologyManager, Network, World, device_at, with_device,
}
use astra_network_analytical.Reconfigurable.Chunk.{current_device, next_device, update_route}
use astra_network_analytical.Reconfigurable.Link.{set_free}
use astra_network_analytical.Reconfigurable.Device
use astra_network_analytical.Reconfigurable.Device.{connected, get_link, transmit}
use astra_network_analytical.Reconfigurable.Topology
use astra_network_analytical.Reconfigurable.Topology.{new_topology}
use astra_network_analytical.Reconfigurable.Routes.{has_width, precompute_routes}
unfoldable pub use astra_network_analytical.Reconfigurable.Manager.Drain.{
  manager_of, with_manager, with_drained, get_device, is_reconfiguring, set_cur_topo_id,
  set_reconfig_latency, set_inflight_coll, links_count, route, new_topology_manager,
  reconfigure_devices, finish_draining, increment_callback, drain_links, drain_devices,
  drain_network,
}

module _ {W : Type 0} ⦃d : Double W⦄ where
  -- The request is taken: what `reconfigure` sets, behind its checks.
  abbrev pub accept_request :
      TopologyManager W
      → List (List W)
      → List (List W)
      → W
      → ℤ
      → List (List (List ℕ))
      → TopologyManager W
  accept_request m bandwidths latencies reconfig_time topo_id routes = record m {
    bandwidths = bandwidths;
    latencies = latencies;
    reconfig_time = some reconfig_time;
    precomputed_routes = routes;
    reconfiguring = true;
    cur_topo_id = topo_id;
    topology_iteration = suc m.topology_iteration;
  }

  unfoldable pub reconfigure :
      List (List W) → List (List W) → W → ℤ → World W → Outcome (Bool × World W)
  unfolding precompute_routes drain_network
  reconfigure bandwidths latencies reconfig_time topo_id w =
      let m = manager_of w in
      if eqb_ℤ topo_id m.cur_topo_id
      then ok (true, w)
      else if m.reconfiguring || ltb_ℤ (pos 0) m.inflight_coll
      then ok (false, w)
      else (do
        assert (length bandwidths == m.devices_count)
        assert (length latencies == m.devices_count)
        assert (has_width m.devices_count bandwidths)
        assert (has_width m.devices_count latencies)
        routes ← precompute_routes m.devices_count bandwidths
        w' ←
            drain_network
              (with_manager w (accept_request m bandwidths latencies reconfig_time topo_id routes))
        ok (true, w'))

  -- `circuit_schedules.find`
  unfoldable pub find_schedule : ℤ → List (ℤ × List (List W)) → Option (List (List W))
  find_schedule topo_id [] = none
  find_schedule topo_id ((id, schedule) ∷ rest) =
      if eqb_ℤ id topo_id then some schedule else find_schedule topo_id rest

  -- The overload with an id alone. It passes on the reconfiguration time that was set before.
  unfoldable pub reconfigure_to : ℤ → World W → Outcome (Bool × World W)
  unfolding find_schedule reconfigure
  reconfigure_to topo_id w = do
    schedule ← or_fail Error.exited (find_schedule topo_id (manager_of w).circuit_schedules)
    reconfig_time ← or_fail Error.undefined (manager_of w).reconfig_time
    reconfigure schedule (manager_of w).latencies reconfig_time topo_id w

  -- A chunk of iteration -1 gets its route and its iteration when it is sent.
  unfoldable pub with_route : ℕ → Chunk → World W → Outcome Chunk
  unfolding route
  with_route src chunk w =
      if eqb_ℤ chunk.topology_iteration (negsuc 0)
      then (do
        dest ← next_device chunk
        new_route ← route w src dest
        ok (update_route chunk new_route (pos (manager_of w).topology_iteration)))
      else ok chunk

  unfoldable pub send : Chunk → World W → Outcome (World W)
  unfolding with_route Topology.send
  send chunk w = do
    src ← current_device chunk
    assert (ltb src (manager_of w).devices_count)
    routed ← with_route src chunk w
    _ ← next_device routed
    Topology.send routed w

  -- Device::link_become_free, on the chunks that wait for the link to `link_id` of device i.
  unfoldable pub serve_pending :
      ℕ → ℕ → Device W → Link W → List Chunk → World W → Outcome (World W)
  unfolding increment_callback transmit put
  serve_pending i link_id device link [] w =
      if w.state.drain_all_flow then increment_callback w else ok w
  serve_pending i link_id device link (chunk ∷ rest) w =
      if ltb_ℤ (pos device.topology_iteration) chunk.topology_iteration
      then (if w.state.drain_all_flow then increment_callback w else ok w)
      else transmit i link_id
          (record device { pending_chunks = put link_id rest device.pending_chunks }) link chunk w

  unfoldable pub become_free : ℕ → ℕ → World W → Outcome (World W)
  unfolding serve_pending find put
  become_free i link_id w = do
    device ← device_at w i
    link ← or_fail Error.undefined (find link_id device.links)
    let freed = record device { links = put link_id (set_free link) device.links }
    serve_pending i link_id freed (set_free link) (find_or [] link_id device.pending_chunks)
        (with_device w i freed)
