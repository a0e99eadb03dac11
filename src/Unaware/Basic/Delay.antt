-- ===== src/Unaware/Basic/Delay.antt =====
-- The delay of a transfer in one dimension.
use astra_network_analytical.Base.{
  ℕ, ◌+◌, ◌<◌, ◌≡◌, ◌≢◌, refl, ◌⊎◌, inl, inr, Bool, true, Option, ok, Error, or_fail, arith, lt→ltb,
  not, ◌==◌,
}
use astra_network_analytical.Base.Int.{ℤ, pos}
use astra_network_analytical.Double.{Double, of_nat}
use astra_network_analytical.Common.{TopologyBuildingBlock, ring, fully_connected, switch}
use astra_network_analytical.Unaware.Basic.{
  BasicTopology, ring_distance, compute_hops_count, compute_communication_delay, send,
}
use astra_network_analytical.Unaware.Basic.Hops.{ring_distance_symm, ring_distance-shortest}

-- The hop count that each class reports between two ids in range.
abbrev pub hops_of : TopologyBuildingBlock → Bool → ℕ → ℕ → ℕ → ℤ
hops_of ring b n src dest = ring_distance b n src dest
hops_of fully_connected b n src dest = pos 1
hops_of _ b n src dest = pos 2

-- One of the three classes.
abbrev pub IsClass : TopologyBuildingBlock → Type 0
IsClass type = (type ≡ ring) ⊎ (type ≡ fully_connected) ⊎ (type ≡ switch)

different : (a b : ℕ) → a ≢ b → not (a == b) ≡ true
different a b e = ground arith

positive_hops :
    (type : TopologyBuildingBlock) (b : Bool) (n src dest : ℕ)
    → IsClass type
    → src < n
    → dest < n
    → src ≢ dest
    → (k : ℕ) × (hops_of type b n src dest ≡ pos k) × (0 < k)
positive_hops type b n src dest c h k e = elim c [
  | inl f ↦
      rw f (let found = ring_distance-shortest b n src dest h k e in (found.0, found.1, found.2))
  | inr (inl f) ↦ rw f (1, refl, omega arith)
  | inr (inr f) ↦ rw f (2, refl, omega arith)
]

module _ {W : Type 0} ⦃d : Double W⦄ where
  -- The delay as the class computes it from a hop count.
  abbrev pub delay_of : BasicTopology W → ℤ → ℕ → Option ℕ
  delay_of t hops size =
      d.to_uint64 (d.add (d.mul (d.of_int hops) t.latency) (d.div (of_nat size) t.bandwidth_Bpns))

  compute_hops_count-hops_of :
      (t : BasicTopology W) (src dest : ℕ)
      → IsClass t.basic_topology_type
      → src < t.npus_count
      → dest < t.npus_count
      → src ≢ dest
      → compute_hops_count t src dest
        ≡ ok (hops_of t.basic_topology_type t.bidirectional t.npus_count src dest)
  unfolding compute_hops_count
  compute_hops_count-hops_of t src dest c h k e = ground arith

  -- On a ring, fully connected or switch topology, for ids in range that differ and a chunk that is
  -- not empty, no assertion fails, and the delay is the cast of hops * latency + size / bandwidth, undefined where the cast is.
  pub send-delay_of :
      (t : BasicTopology W) (src dest size : ℕ)
      → IsClass t.basic_topology_type
      → src < t.npus_count
      → dest < t.npus_count
      → src ≢ dest
      → 0 < size
      → send t src dest size
        ≡ or_fail Error.undefined
            (delay_of t (hops_of t.basic_topology_type t.bidirectional t.npus_count src dest) size)
  unfolding send compute_communication_delay
  send-delay_of t src dest size c h k e z =
      let (m, f, p) =
        positive_hops t.basic_topology_type t.bidirectional t.npus_count src dest c h k e in
      rw
        (
          lt→ltb src t.npus_count h,
          lt→ltb dest t.npus_count k,
          different src dest e,
          lt→ltb 0 size z,
        )
        (rw (compute_hops_count-hops_of t src dest c h k e)
          (rw f (rw (lt→ltb 0 (m + 0) (omega arith)) refl)))

  compute_hops_count_symm :
      (t : BasicTopology W) (src dest : ℕ)
      → (t.basic_topology_type ≡ ring → t.bidirectional ≡ true)
      → src < t.npus_count
      → dest < t.npus_count
      → compute_hops_count t src dest ≡ compute_hops_count t dest src
  unfolding compute_hops_count
  compute_hops_count_symm t src dest b h k =
      ground (arith, ring_distance_symm t.npus_count src dest)

  -- The transfer back takes as long, or fails alike: on a bidirectional ring, on a fully connected
  -- topology and on a switch, for any arguments.
  pub send_symm :
      (t : BasicTopology W) (src dest size : ℕ)
      → (t.basic_topology_type ≡ ring → t.bidirectional ≡ true)
      → send t src dest size ≡ send t dest src size
  unfolding send
  send_symm t src dest size b = ground (arith, compute_hops_count_symm t src dest)
