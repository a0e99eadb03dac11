-- ===== src/Reconfigurable/Forward.antt =====
-- What a device makes of the route of the chunk that it sends on.
use astra_network_analytical.Base.{ℕ, ◌≡◌, refl, ap, false, List, [], ◌∷◌, length, ok, arith}
use astra_network_analytical.Double.{Double}
use astra_network_analytical.Reconfigurable.State.{Chunk, World}
use astra_network_analytical.Reconfigurable.Chunk.{
  current_device, next_device, arrived_dest, front, second,
}
use astra_network_analytical.Reconfigurable.Device

pub current_device-ok : (c : Chunk) (i : ℕ) (r : List ℕ) → c.route ≡ i ∷ r → current_device c ≡ ok i
unfolding current_device
current_device-ok c i r h = ap front h

pub not_arrived : (c : Chunk) (i j : ℕ) (r : List ℕ) → c.route ≡ i ∷ j ∷ r → arrived_dest c ≡ false
not_arrived c i j r h = ground (arith, ap length h)

pub next_device-ok : (c : Chunk) (i j : ℕ) (r : List ℕ) → c.route ≡ i ∷ j ∷ r → next_device c ≡ ok j
unfolding next_device
next_device-ok c i j r h = rw (not_arrived c i j r h) (ap second h)

-- A device sends a chunk on by the first two devices of its route alone, as if the second were the
-- last: whatever the route has behind them is lost.
pub send-truncates :
    {W : Type 0} ⦃d : Double W⦄ (k i j : ℕ) (rest : List ℕ) (c : Chunk) (w : World W)
    → c.route ≡ i ∷ j ∷ rest
    → Device.send k c w ≡ Device.send k (record c { route = i ∷ j ∷ [] }) w
unfolding Device.send
send-truncates k i j rest c w h =
    let short = record c { route = i ∷ j ∷ [] } in
    simp (
      current_device-ok c i (j ∷ rest) h,
      current_device-ok short i (j ∷ []) refl,
      next_device-ok c i j rest h,
      next_device-ok short i j [] refl,
      not_arrived c i j rest h,
    )
