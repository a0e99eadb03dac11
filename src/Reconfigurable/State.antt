-- ===== src/Reconfigurable/State.antt =====
-- The objects of reconfigurable/: Chunk.h, Link.h, Device.h, Topology.h and TopologyManager.h. A
-- device is named by its place, a link by its device and the id of the device that it leads to; a
-- chunk, owned by one pointer at a time, is a value, and a route is the list of its devices' ids.
-- The counters `topology_iteration` of devices and manager and `num_drained_links` start at 0 and
-- go up by one, and are ℕ; the iteration of a chunk is the client's, or -1.
use astra_network_analytical.Base.{ℕ, Bool, List, Option, get_elem?, set, Outcome, Error, or_fail}
use astra_network_analytical.Base.Int.{ℤ}
use astra_network_analytical.EventQueue.{Simulation}

pub record Chunk : Type 0 where
  pub chunk_size : ℕ
  pub route : List ℕ
  pub callback : ℕ
  pub callback_arg : ℕ
  pub topology_iteration : ℤ

pub record Link (W : Type 0) : Type 0 where
  pub bandwidth : W
  pub bandwidth_Bpns : W
  pub latency : W
  pub busy : Bool

-- `draining` is written and never read; the constructor leaves it uninitialised.
pub record Device (W : Type 0) : Type 0 where
  pub device_id : ℕ
  pub topology_iteration : ℕ
  pub draining : Bool
  pub links : List (ℕ × Link W)
  pub pending_chunks : List (ℕ × List Chunk)
  pub routes : List (ℕ × List ℕ)

pub record Topology (W : Type 0) : Type 0 where
  pub npus_count : ℕ
  pub devices_count : ℕ
  pub devices : List (Device W)

-- `reconfig_time` is `none` until it is set: the constructor leaves it uninitialised.
pub record TopologyManager (W : Type 0) : Type 0 where
  pub npus_count : ℕ
  pub devices_count : ℕ
  pub topology_iteration : ℕ
  pub cur_topo_id : ℤ
  pub reconfiguring : Bool
  pub reconfig_time : Option W
  pub topology : Topology W
  pub bandwidths : List (List W)
  pub latencies : List (List W)
  pub precomputed_routes : List (List (List ℕ))
  pub circuit_schedules : List (ℤ × List (List W))
  pub inflight_coll : ℤ

-- The manager, with the static members of Link and Device; their `increment_callback` is the
-- manager's, which the constructor of the manager sets.
pub record Network (W : Type 0) : Type 0 where
  pub manager : TopologyManager W
  pub num_drained_links : ℕ
  pub drain_all_flow : Bool

-- The two callbacks that are scheduled: a chunk's arrival, and the link of a device to `link_id`
-- becoming free.
pub data Event : Type 0 where
  chunk_arrived_next_device : Chunk → Event
  link_become_free : ℕ → ℕ → Event

abbrev pub World : Type 0 → Type 0
World W = Simulation (Network W) Event

module _ {W : Type 0} where
  abbrev pub devices_of : World W → List (Device W)
  devices_of w = w.state.manager.topology.devices

  abbrev pub device_at : World W → ℕ → Outcome (Device W)
  device_at w i = or_fail Error.undefined (get_elem? (devices_of w) i)

  abbrev pub with_devices : World W → List (Device W) → World W
  with_devices w ds = record w {
    state = record (w.state) {
      manager = record (w.state.manager) {
        topology = record (w.state.manager.topology) { devices = ds };
      };
    };
  }

  abbrev pub with_device : World W → ℕ → Device W → World W
  with_device w i device = with_devices w (set (devices_of w) i device)
