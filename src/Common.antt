-- ===== src/Common.antt =====
-- The shared types of common/Type.h and the unit conversion of common/NetworkFunction.cpp. A
-- DeviceId is a ℕ: every function that takes one asserts first that it is not negative.
use astra_network_analytical.Base.{◌^◌, Outcome, ok, ◌>>◌, assert}
use astra_network_analytical.Double.{Double, of_nat, nought}

-- `enum class TopologyBuildingBlock`.
pub data TopologyBuildingBlock : Type 0 where
  undefined ring fully_connected switch reconfig : TopologyBuildingBlock

-- GB/s to B/ns.
unfoldable pub bw_GBps_to_Bpns : {W : Type 0} ⦃d : Double W⦄ → W → Outcome W
bw_GBps_to_Bpns ⦃d⦄ bw = do
  assert (d.le nought bw)
  ok (d.div (d.mul bw (of_nat (2 ^ 30))) (of_nat 1_000_000_000))
