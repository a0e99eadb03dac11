-- ===== src/Unaware/Example.antt =====
-- congestion_unaware/example.cpp: one send on the topology of a configuration. What it prints is
-- the value that `main` returns.
use astra_network_analytical.Base.{ℕ, ltb, ◌≡◌, refl, Outcome, ok, ◌>>=◌, ◌>>◌, assert}
use astra_network_analytical.Double.{Double}
use astra_network_analytical.Double.Rational.{rational_double}
use astra_network_analytical.NetworkParser.{NetworkParser}
use astra_network_analytical.Unaware.Basic
use astra_network_analytical.Unaware.Basic.{
  compute_hops_count, compute_communication_delay, ring_distance,
}
use astra_network_analytical.Unaware.Construct.{
  Topology, basic, multi_dim, construct_topology, send,
}
use astra_network_analytical.Unaware.Construct.Examples.{three_dims}

-- 1 MB.
abbrev chunk_size : ℕ
chunk_size = 1_048_576

-- What is printed: the NPUs and the delay of the send.
record Report : Type 0 where
  npus_count : ℕ
  comm_delay : ℕ

module _ {W : Type 0} where
  -- The base class's, on either kind.
  abbrev get_npus_count : Topology W → Outcome ℕ
  get_npus_count (basic t) = Basic.get_npus_count t
  get_npus_count (multi_dim m) = do assert (ltb 0 m.npus_count); ok m.npus_count

-- The configuration is the one that the parser read.
unfoldable main : {W : Type 0} ⦃d : Double W⦄ → NetworkParser W → Outcome Report
unfolding construct_topology send Basic.get_npus_count
main network_parser = do
  topology ← construct_topology network_parser
  npus_count ← get_npus_count topology
  comm_delay ← send topology 3 19 chunk_size
  ok (record { npus_count = npus_count; comm_delay = comm_delay })

three_dims_report : main three_dims ≡ ok (record { npus_count = 64; comm_delay = 23531 })
unfolding main compute_hops_count compute_communication_delay ring_distance
three_dims_report = refl
