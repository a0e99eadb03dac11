-- ===== src/Aware/Device.antt =====
-- congestion_aware/network/Device.cpp.
use astra_network_analytical.Base.{
  ℕ, Bool, true, false, not, [], Option, some, none, ◌==◌, Outcome, Error, ok, ◌>>=◌, ◌>>◌, assert,
  or_fail, get_elem?,
}
use astra_network_analytical.Double.{Double, nought}
use astra_network_analytical.Aware.State.{Chunk, Device, World, find_link, put_link}
use astra_network_analytical.Aware.Chunk.{current_device, next_device, arrived_dest}
use astra_network_analytical.Aware.Link
use astra_network_analytical.Aware.Link.{new_link}

abbrev pub is_some : {A : Type 0} → Option A → Bool
is_some none = false
is_some (some a) = true

abbrev pub new_device : {W : Type 0} → ℕ → Device W
new_device id = record { device_id = id; links = [] }

module _ {W : Type 0} where
  abbrev pub connected : Device W → ℕ → Bool
  connected device dest = is_some (find_link dest device.links)

module _ {W : Type 0} ⦃d : Double W⦄ where
  unfoldable pub connect : Device W → ℕ → W → W → Outcome (Device W)
  unfolding new_link put_link
  connect device id bandwidth latency = do
    assert (d.lt nought bandwidth)
    assert (d.le nought latency)
    assert (not (connected device id))
    link ← new_link bandwidth latency
    ok (record device { links = put_link id link device.links })

  -- `send` of the device at place i.
  unfoldable pub send : ℕ → Chunk → World W → Outcome (World W)
  unfolding Link.send
  send i chunk w = do
    device ← or_fail Error.undefined (get_elem? w.state.devices i)
    current ← current_device chunk
    assert (current == device.device_id)
    assert (not (arrived_dest chunk))
    next_dest ← next_device chunk
    assert (connected device next_dest)
    Link.send i next_dest chunk w
