-- ===== src/Unaware/MultiDim/Examples.antt =====
-- The address of the comment in translate_address, and a transfer on three dimensions.
use mathlib.Core.Path.{◌≡◌}
use astra_network_analytical.Base.{ℕ, ◌*◌, ◌^◌, ◌<◌, refl, true, List, [], ◌∷◌, inl, inr, ok, arith}
use astra_network_analytical.Double.{of_nat}
use astra_network_analytical.Double.Rational.{Rational, rational_double}
use astra_network_analytical.Common.{TopologyBuildingBlock, ring, fully_connected, switch}
use astra_network_analytical.Unaware.Basic.{BasicTopology}
use astra_network_analytical.Unaware.MultiDim.{
  MultiDimTopology, translate_address, append_dimension, new_multi_dim_topology,
}
use astra_network_analytical.Unaware.MultiDim.Radix.{Fits, value}
use astra_network_analytical.Unaware.MultiDim.Address.{
  IsShaped, translate_address-value, translate_address-of_value,
}
use astra_network_analytical.Unaware.MultiDim.Send.{
  IsConsistent, append_dimension-IsConsistent, new_multi_dim_topology-IsConsistent, TransfersAt,
  send-TransfersAt,
}

abbrev dimension : TopologyBuildingBlock → ℕ → BasicTopology Rational
dimension type n = record {
  npus_count = n;
  dims_count = 1;
  npus_count_per_dim = n ∷ [];
  bandwidth_per_dim = of_nat 50 ∷ [];
  bandwidth = of_nat 50;
  bandwidth_Bpns = of_nat 54;
  latency = of_nat 500;
  basic_topology_type = type;
  bidirectional = true;
}

abbrev three_dims : MultiDimTopology Rational
three_dims = record {
  npus_count = 64;
  dims_count = 3;
  npus_count_per_dim = 2 ∷ 8 ∷ 4 ∷ [];
  bandwidth_per_dim = of_nat 50 ∷ of_nat 50 ∷ of_nat 50 ∷ [];
  topology_per_dim = dimension ring 2 ∷ dimension fully_connected 8 ∷ dimension switch 4 ∷ [];
}

three_dims-IsShaped : IsShaped three_dims
three_dims-IsShaped = record {
  dims = refl;
  positive = (omega arith, (omega arith, (omega arith, tt)));
  total = refl;
}

three_dims-IsConsistent : IsConsistent three_dims
three_dims-IsConsistent = record {
  shaped = three_dims-IsShaped;
  matched = (refl, inl refl, (refl, inr (inl refl), (refl, inr (inr refl), tt)));
}

address_47 : translate_address three_dims 47 ≡ ok (1 ∷ 7 ∷ 2 ∷ [])
unfolding translate_address
address_47 = refl

translate_address-value_example :
    (address : List ℕ) × (translate_address three_dims 47 ≡ ok address)
    × Fits (2 ∷ 8 ∷ 4 ∷ []) address
    × (value (2 ∷ 8 ∷ 4 ∷ []) address ≡ 47)
translate_address-value_example =
    translate_address-value three_dims 47 three_dims-IsShaped (omega arith)

translate_address-of_value_example : translate_address three_dims 47 ≡ ok (1 ∷ 7 ∷ 2 ∷ [])
translate_address-of_value_example =
    translate_address-of_value three_dims (1 ∷ 7 ∷ 2 ∷ []) three_dims-IsShaped
      (omega arith, (omega arith, (omega arith, tt)))

abbrev one_dim : MultiDimTopology Rational
one_dim = record {
  npus_count = 1 * 2;
  dims_count = 1;
  npus_count_per_dim = 2 ∷ [];
  bandwidth_per_dim = of_nat 50 ∷ [];
  topology_per_dim = dimension ring 2 ∷ [];
}

append_one : append_dimension new_multi_dim_topology (dimension ring 2) ≡ ok one_dim
unfolding append_dimension
append_one = refl

append_dimension-IsConsistent_example :
    IsConsistent one_dim × (one_dim.npus_count ≡ 1 * 2) × (one_dim.npus_count < 2 ^ 31)
append_dimension-IsConsistent_example =
    append_dimension-IsConsistent new_multi_dim_topology one_dim (dimension ring 2)
      new_multi_dim_topology-IsConsistent (inl refl) append_one

send-TransfersAt_example : TransfersAt three_dims 37 41 1024
send-TransfersAt_example =
    send-TransfersAt three_dims 37 41 1024 three_dims-IsConsistent (omega arith) (omega arith)
      (omega arith) (omega arith)
