-- ===== src/Aware/State.antt =====
-- The objects of the congestion-aware simulator: Chunk.h, Link.h, Device.h, Topology.h and
-- BasicTopology.h. A device is named by its place in `devices`, a link by its two devices; a chunk,
-- owned by one pointer at a time, is a value. `std::map` is an association list.
pub mod Laws
pub mod Weight
use astra_network_analytical.Base.{
  ℕ, zero, suc, Bool, true, false, List, [], ◌∷◌, Option, some, none, if◌then◌else◌, ◌==◌, Outcome,
  Error, or_fail,
}
use astra_network_analytical.Common.{TopologyBuildingBlock}
use astra_network_analytical.EventQueue.{Simulation}

pub record Chunk : Type 0 where
  pub chunk_size : ℕ
  pub route : List ℕ
  pub callback : ℕ
  pub callback_arg : ℕ

pub record Link (W : Type 0) : Type 0 where
  pub bandwidth : W
  pub bandwidth_Bpns : W
  pub latency : W
  pub pending_chunks : List Chunk
  pub busy : Bool

pub record Device (W : Type 0) : Type 0 where
  pub device_id : ℕ
  pub links : List (ℕ × Link W)

-- The C++ class of the object, by which its virtual functions are called.
pub data TopologyClass : Type 0 where
  ring_topology fully_connected_topology switch_topology : TopologyClass

-- Topology with the members of BasicTopology, of Ring (`bidirectional`) and of Switch (`switch_id`).
pub record Topology (W : Type 0) : Type 0 where
  pub class : TopologyClass
  pub npus_count : ℕ
  pub devices_count : ℕ
  pub dims_count : ℕ
  pub npus_count_per_dim : List ℕ
  pub bandwidth_per_dim : List W
  pub devices : List (Device W)
  pub bandwidth : W
  pub latency : W
  pub basic_topology_type : TopologyBuildingBlock
  pub bidirectional : Bool
  pub switch_id : ℕ

-- The two callbacks that the simulator schedules, with their argument.
pub data Event : Type 0 where
  chunk_arrived_next_device : Chunk → Event
  link_become_free : ℕ → ℕ → Event

-- The state of a run: the topology and the static `Link::event_queue`.
abbrev pub World : Type 0 → Type 0
World W = Simulation (Topology W) Event

module _ {W : Type 0} where
  unfoldable pub find_link : ℕ → List (ℕ × Link W) → Option (Link W)
  find_link j [] = none
  find_link j ((k, l) ∷ r) = if k == j then some l else find_link j r

  unfoldable pub put_link : ℕ → Link W → List (ℕ × Link W) → List (ℕ × Link W)
  put_link j l [] = (j, l) ∷ []
  put_link j l ((k, m) ∷ r) = if k == j then (k, l) ∷ r else (k, m) ∷ put_link j l r

  -- The link from device i to device j.
  unfoldable pub link_at : List (Device W) → ℕ → ℕ → Option (Link W)
  unfolding find_link
  link_at [] i j = none
  link_at (d ∷ ds) zero j = find_link j d.links
  link_at (d ∷ ds) (suc i) j = link_at ds i j

  unfoldable pub set_link : List (Device W) → ℕ → ℕ → Link W → List (Device W)
  unfolding put_link
  set_link [] i j l = []
  set_link (d ∷ ds) zero j l = record d { links = put_link j l d.links } ∷ ds
  set_link (d ∷ ds) (suc i) j l = d ∷ set_link ds i j l

  abbrev pub with_link : World W → ℕ → ℕ → Link W → World W
  with_link w i j l = record w {
    state = record (w.state) { devices = set_link w.state.devices i j l };
  }

  abbrev pub get_link : World W → ℕ → ℕ → Outcome (Link W)
  get_link w i j = or_fail Error.undefined (link_at w.state.devices i j)
