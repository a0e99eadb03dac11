-- ===== src/Aware/Simulation.antt =====
-- The events of a run: Chunk::chunk_arrived_next_device, Link::link_become_free, and the loop that
-- drives them. The callback of a chunk is the client's: a parameter.
mod Examples
use astra_network_analytical.Base.{ℕ, Bool, true, false, if◌then◌else◌, Outcome, ok, ◌>>=◌}
use astra_network_analytical.Double.{Double}
use astra_network_analytical.EventQueue.{EventQueue, new_event_queue, proceed, run}
use astra_network_analytical.Aware.State.{
  Chunk, Topology, Event, chunk_arrived_next_device, link_become_free, World,
}
use astra_network_analytical.Aware.Chunk.{mark_arrived_next_device, current_device, arrived_dest}
use astra_network_analytical.Aware.Link
use astra_network_analytical.Aware.Device

module _ {W : Type 0} ⦃d : Double W⦄ (client : ℕ → ℕ → World W → Outcome (World W)) where
  unfoldable pub arrive_next_device : Chunk → World W → Outcome (World W)
  unfolding Device.send
  arrive_next_device chunk w = do
    chunk' ← mark_arrived_next_device chunk
    if arrived_dest chunk'
        then client chunk'.callback chunk'.callback_arg w
        else (do current_node ← current_device chunk'; Device.send current_node chunk' w)

  unfoldable pub invoke : Event → World W → Outcome (World W)
  unfolding arrive_next_device Link.become_free
  invoke (chunk_arrived_next_device chunk) w = arrive_next_device chunk w
  invoke (link_become_free i j) w = Link.become_free i j w

abbrev pub start : {W : Type 0} → Topology W → World W
start t = record { queue = new_event_queue; state = t }
