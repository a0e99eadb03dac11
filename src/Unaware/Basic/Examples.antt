-- ===== src/Unaware/Basic/Examples.antt =====
-- One dimension on small inputs.
use astra_network_analytical.Base.{
  ℕ, ◌*◌, ◌≤◌, ◌<◌, ◌≡◌, refl, true, [], ◌∷◌, inl, some, or_fail, Error, ok, arith,
}
use astra_network_analytical.Base.Int.{pos}
use astra_network_analytical.Double.{of_nat}
use astra_network_analytical.Double.Rational.{Rational, rational_double}
use astra_network_analytical.Common.{ring}
use astra_network_analytical.Unaware.Basic.{BasicTopology, ring_distance, send, new_ring}
use astra_network_analytical.Unaware.Basic.Hops.{Joins, ring_distance-shortest}
use astra_network_analytical.Unaware.Basic.Delay.{delay_of, send-delay_of}

-- The topology of input/Ring.yml; 50 GB/s is 50 * 2^30 / 10^9 B/ns.
abbrev ring_16 : BasicTopology Rational
ring_16 = record {
  npus_count = 16;
  dims_count = 1;
  npus_count_per_dim = 16 ∷ [];
  bandwidth_per_dim = of_nat 50 ∷ [];
  bandwidth = of_nat 50;
  bandwidth_Bpns = some (record { plus = 53_687_091_200; minus = 0; den_pred = 999_999_999 });
  latency = of_nat 500;
  basic_topology_type = ring;
  bidirectional = true;
}

new_ring_16 : new_ring 16 (of_nat 50) (of_nat 500) true ≡ ok ring_16
unfolding new_ring
new_ring_16 = refl

ring_distance-shortest_example :
    (k : ℕ) × (ring_distance true 16 1 14 ≡ pos k)
    × (0 < k)
    × (k < 16)
    × (◌≡◌ true true → 2 * k ≤ 16)
    × Joins true 16 k 1 14
    × ((j : ℕ) → Joins true 16 j 1 14 → k ≤ j)
ring_distance-shortest_example =
    ring_distance-shortest true 16 1 14 (omega arith) (omega arith) (omega arith)

send-delay_of_example :
    send ring_16 1 14 1024
    ≡ or_fail Error.undefined (delay_of ring_16 (ring_distance true 16 1 14) 1024)
send-delay_of_example =
    send-delay_of ring_16 1 14 1024 (inl refl) (omega arith) (omega arith) (omega arith)
      (omega arith)
