-- ===== src/Reconfigurable/Events.antt =====
-- The events of a run: Chunk::chunk_arrived_next_device and Device::link_become_free. The callback
-- of a chunk is the client's: a parameter.
use astra_network_analytical.Base.{ℕ, if◌then◌else◌, Outcome, ◌>>=◌}
use astra_network_analytical.Double.{Double}
use astra_network_analytical.EventQueue.{new_event_queue}
use astra_network_analytical.Reconfigurable.State.{
  Chunk, Network, Event, chunk_arrived_next_device, link_become_free, World,
}
use astra_network_analytical.Reconfigurable.Chunk.{
  mark_arrived_next_device, current_device, arrived_dest,
}
use astra_network_analytical.Reconfigurable.Device
use astra_network_analytical.Reconfigurable.Manager.{become_free}

module _ {W : Type 0} ⦃d : Double W⦄ (client : ℕ → ℕ → World W → Outcome (World W)) where
  unfoldable pub arrive_next_device : Chunk → World W → Outcome (World W)
  unfolding Device.send
  arrive_next_device chunk w = do
    chunk' ← mark_arrived_next_device chunk
    if arrived_dest chunk'
        then client chunk'.callback chunk'.callback_arg w
        else (do current_node ← current_device chunk'; Device.send current_node chunk' w)

  unfoldable pub invoke : Event → World W → Outcome (World W)
  unfolding arrive_next_device become_free
  invoke (chunk_arrived_next_device chunk) w = arrive_next_device chunk w
  invoke (link_become_free i link_id) w = become_free i link_id w

abbrev pub start : {W : Type 0} → Network W → World W
start network = record { queue = new_event_queue; state = network }
