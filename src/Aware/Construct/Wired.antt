-- ===== src/Aware/Construct/Wired.antt =====
-- What a topology is after its constructor: the routes between its NPUs go over its links.
pub mod Ring
pub mod Built
use astra_network_analytical.Base.{
  ℕ, zero, suc, ◌+◌, ◌-◌, ◌≤◌, ◌<◌, ◌≡◌, ◌≢◌, refl, ◌∙◌, ap, sym, subst, inl, inr, Bool, true,
  false, List, [], ◌∷◌, some, none, length, ltb, leb, Bool-cases, ok, assertion, >>=-eq-ok,
  check-eq-ok, ok-injective, arith, ltb→lt, leb→le, lt→ltb,
}
use astra_network_analytical.Base.Int.{pos, pos_part}
use astra_network_analytical.Base.Walks.{Walk, Walk-map_inside}
use astra_network_analytical.Double.{Double, nought}
use astra_network_analytical.Common.{TopologyBuildingBlock, ring, fully_connected, switch}
use astra_network_analytical.Unaware.Basic.Hops.{
  clockwise, shorter, ring_distance-eq, shorter_bounds,
}
use astra_network_analytical.Aware.State.{
  Link, Device, Topology, TopologyClass, ring_topology, fully_connected_topology, switch_topology,
  link_at,
}
use astra_network_analytical.Aware.Link.{new_link}
use astra_network_analytical.Aware.Topology.{devices_from, new_basic_topology, connect}
use astra_network_analytical.Aware.Basic.{
  connect_chain, new_ring, new_fully_connected, new_switch, route, route_by, ring_route,
  fully_connected_route, switch_route,
}
use astra_network_analytical.Aware.Basic.RingRoute.{Neighbours, up, ring_route-Walk}
use astra_network_analytical.Aware.Progress.{HasIds}
use astra_network_analytical.NetworkParser.{NetworkParser}
use astra_network_analytical.Aware.Construct.{new_topology, construct_topology}
use astra_network_analytical.Aware.Construct.Start.{construct_topology-IsMade}
use astra_network_analytical.Aware.Construct.Initial.{
  Extends, Extends-trans, connect-Extends, connect_chain-Extends, connect_all-Extends,
  connect_to_switch-Extends,
}
use astra_network_analytical.Aware.Construct.Wires.{
  HasLink, Wire, Joined, Grows, Grows-trans, Grows-HasLink, connect-Grows,
}
use astra_network_analytical.Aware.Construct.Loops.{
  Grows-Joined, connect_chain-Grows, connect_to_switch-Grows, connect_all-Grows,
}

devices_from-HasIds : (W : Type 0) (i n : ℕ) → HasIds i (devices_from {W = W} i n)
unfolding devices_from
devices_from-HasIds W i zero = tt
devices_from-HasIds W i (suc n) = (refl, devices_from-HasIds W (suc i) n)

devices_from-no_link : (W : Type 0) (i n a b : ℕ) → link_at (devices_from {W = W} i n) a b ≡ none
unfolding devices_from link_at
devices_from-no_link W i zero a b = refl
devices_from-no_link W i (suc n) zero b = refl
devices_from-no_link W i (suc n) (suc a) b = devices_from-no_link W (suc i) n a b

module _ {W : Type 0} ⦃d : Double W⦄ where
  -- The members that no `connect` changes.
  abbrev pub IsShaped : TopologyClass → ℕ → ℕ → W → W → Topology W → Type 0
  IsShaped class n m bandwidth latency t =
      (t.class ≡ class)
      × (t.npus_count ≡ n)
      × (t.devices_count ≡ m)
      × (t.bandwidth ≡ bandwidth)
      × (t.latency ≡ latency)

  abbrev pub IsBare : Topology W → Type 0
  IsBare t = HasIds 0 t.devices × ((a b : ℕ) → link_at t.devices a b ≡ none)

  pub new_basic_topology-IsBare :
      (class : TopologyClass) (n m : ℕ) (bandwidth latency : W) (t : Topology W)
      → new_basic_topology class n m bandwidth latency ≡ ok t
      → (0 < n) × (n ≤ m) × (IsShaped class n m bandwidth latency t × IsBare t)
  unfolding new_basic_topology
  new_basic_topology-IsBare class n m bandwidth latency t h =
      let (some_npu, h₁) = check-eq-ok (ltb 0 n) assertion _ h in
      let (_, h₂) = check-eq-ok (ltb 0 m) assertion _ h₁ in
      let (enough, h₃) = check-eq-ok (leb n m) assertion _ h₂ in
      let (_, h₄) = check-eq-ok (d.lt nought bandwidth) assertion _ h₃ in
      let (_, made) = check-eq-ok (d.le nought latency) assertion _ h₄ in
      (
        ltb→lt 0 n some_npu,
        leb→le n m enough,
        subst (λ u. IsShaped class n m bandwidth latency u × IsBare u) (ok-injective made)
            (
              (refl, refl, refl, refl, refl),
              (devices_from-HasIds W 0 m, devices_from-no_link W 0 m),
            ),
      )

  -- Between different NPUs `route` returns a walk over links to other devices, of at most
  -- npus_count hops.
  abbrev pub RoutesOver : Topology W → Type 0
  RoutesOver t =
      (i j : ℕ)
      → i < t.npus_count
      → j < t.npus_count
      → i ≢ j
      → (r : List ℕ) × (route t i j ≡ ok r) × Walk (Wire t) i r j × (length r ≤ suc t.npus_count)

  -- Devices at the places of their ids, enough of them, every link of the topology's bandwidth and
  -- latency, and routes over the links.
  abbrev pub IsWired : Topology W → Type 0
  IsWired t =
      HasIds 0 t.devices
      × (0 < t.npus_count)
      × (t.npus_count ≤ t.devices_count)
      × ((a b : ℕ) (l : Link W)
          → link_at t.devices a b ≡ some l
          → new_link t.bandwidth t.latency ≡ ok l)
      × RoutesOver t

  pub Extends-IsShaped :
      (class : TopologyClass) (n m : ℕ) (bandwidth latency : W) (t t' : Topology W)
      → Extends t t'
      → IsShaped class n m bandwidth latency t
      → IsShaped class n m bandwidth latency t'
  Extends-IsShaped class n m bandwidth latency t t' (_, kept, _) shaped =
      subst (IsShaped class n m bandwidth latency) (sym kept) shaped

  -- From a bare topology, links are added, and routes go over them.
  pub grown-IsWired :
      (class : TopologyClass) (n m : ℕ) (bandwidth latency : W) (t t' : Topology W)
      → 0 < n
      → n ≤ m
      → IsShaped class n m bandwidth latency t'
      → IsBare t
      → Grows bandwidth latency t t'
      → RoutesOver t'
      → IsWired t'
  grown-IsWired class n m bandwidth latency t t' some_npu enough (_, npus, devices, same_b, same_l)
        (ids, bare) (_, made, ids') routes =
      (
        ids' ids,
        omega (arith, npus),
        omega (arith, npus, devices),
        λ a b l there. elim (made a b l there) [
          | inl old ↦ let none_there = bare a b in cc
          | inr new ↦ rw (same_b, same_l) new
        ],
        routes,
      )
