-- ===== src/Aware/Construct/Wired/Built.antt =====
-- The same for FullyConnected and Switch, and for what construct_topology builds.
use astra_network_analytical.Base.{
  ◌≢◌, ◌∙◌, ℕ, suc, ◌<◌, ◌≡◌, ◌≢◌, refl, ap, sym, subst, true, [], ◌∷◌, ok, >>=-eq-ok, arith,
  lt→ltb,
}
use astra_network_analytical.Double.{Double}
use astra_network_analytical.Common.{TopologyBuildingBlock, ring, fully_connected, switch}
use astra_network_analytical.Aware.State.{Topology, fully_connected_topology, switch_topology}
use astra_network_analytical.Aware.Topology.{new_basic_topology}
use astra_network_analytical.Aware.Basic.{
  new_fully_connected, new_switch, route, fully_connected_route, switch_route,
}
use astra_network_analytical.NetworkParser.{NetworkParser}
use astra_network_analytical.Aware.Construct.{new_topology, construct_topology}
use astra_network_analytical.Aware.Construct.Start.{construct_topology-IsMade}
use astra_network_analytical.Aware.Construct.Initial.{
  connect_all-Extends, connect_to_switch-Extends,
}
use astra_network_analytical.Aware.Construct.Wires.{HasLink, Joined}
use astra_network_analytical.Aware.Construct.Loops.{connect_to_switch-Grows, connect_all-Grows}
use astra_network_analytical.Aware.Construct.Wired.{
  Extends-IsShaped, new_basic_topology-IsBare, RoutesOver, IsWired, grown-IsWired,
}
use astra_network_analytical.Aware.Construct.Wired.Ring.{new_ring-IsWired}

module _ {W : Type 0} ⦃d : Double W⦄ where
  fully_connected-RoutesOver :
      (t : Topology W)
      → t.class ≡ fully_connected_topology
      → ((i k : ℕ) → i < t.npus_count → k < t.npus_count → i ≢ k → HasLink t i k)
      → RoutesOver t
  unfolding route fully_connected_route
  fully_connected-RoutesOver t class links i j low low' differ = (
    i ∷ j ∷ [],
    rw class (rw (lt→ltb i t.npus_count low, lt→ltb j t.npus_count low') refl),
    (refl, (links i j low low' differ, differ), (refl, refl)),
    omega arith,
  )

  pub new_fully_connected-IsWired :
      (n : ℕ) (bandwidth latency : W) (t : Topology W)
      → new_fully_connected n bandwidth latency ≡ ok t
      → IsWired t
  unfolding new_fully_connected
  new_fully_connected-IsWired n bandwidth latency t h =
      let (base, based, h₁) =
        >>=-eq-ok (new_basic_topology fully_connected_topology n n bandwidth latency) _ h in
      let (some_npu, enough, (shaped, bare)) =
        new_basic_topology-IsBare fully_connected_topology n n bandwidth latency base based in
      let begun : Topology W = record base { basic_topology_type = fully_connected } in
      let (grown, links) = connect_all-Grows bandwidth latency n 0 begun t h₁ in
      let kept = connect_all-Extends n 0 bandwidth latency begun t h₁ in
      let shaped' =
        Extends-IsShaped fully_connected_topology n n bandwidth latency begun t kept shaped in
      grown-IsWired fully_connected_topology n n bandwidth latency begun t some_npu enough shaped'
        bare grown
        (fully_connected-RoutesOver t shaped'.0 (λ i k low low' differ.
          links i k (omega arith) (omega (arith, shaped'.1)) (omega (arith, shaped.1, shaped'.1))
            differ))

  switch-RoutesOver :
      (t : Topology W)
      → t.class ≡ switch_topology
      → t.switch_id ≡ t.npus_count
      → ((k : ℕ) → k < t.npus_count → Joined true t k t.switch_id)
      → RoutesOver t
  unfolding route switch_route
  switch-RoutesOver t class hub links i j low low' differ = (
    i ∷ t.switch_id ∷ j ∷ [],
    rw class (rw (lt→ltb i t.npus_count low, lt→ltb j t.npus_count low') refl),
    (
      refl,
      ((links i low).0, λ e. omega (arith, e, hub)),
      (refl, ((links j low').1 refl, λ e. omega (arith, e, hub)), (refl, refl)),
    ),
    omega (arith, differ),
  )

  pub new_switch-IsWired :
      (n : ℕ) (bandwidth latency : W) (t : Topology W)
      → new_switch n bandwidth latency ≡ ok t
      → IsWired t
  unfolding new_switch
  new_switch-IsWired n bandwidth latency t h =
      let (base, based, h₁) =
        >>=-eq-ok (new_basic_topology switch_topology n (suc n) bandwidth latency) _ h in
      let (some_npu, enough, (shaped, bare)) =
        new_basic_topology-IsBare switch_topology n (suc n) bandwidth latency base based in
      let begun : Topology W = record base { switch_id = n } in
      let (grown, links) = connect_to_switch-Grows bandwidth latency n 0 begun t h₁ in
      let kept = connect_to_switch-Extends n 0 bandwidth latency begun t h₁ in
      let shaped' =
        Extends-IsShaped switch_topology n (suc n) bandwidth latency begun t kept shaped in
      let hub : t.switch_id ≡ n = ap (λ (x : Topology W). x.switch_id) kept.1 in
      grown-IsWired switch_topology n (suc n) bandwidth latency begun t some_npu enough shaped' bare
        grown
        (switch-RoutesOver t shaped'.0 (hub ∙ sym shaped'.1) (λ k low.
          subst (Joined true t k) (sym hub) (links k (omega arith) (omega (arith, shaped'.1)))))

  new_topology-IsWired :
      (block : TopologyBuildingBlock) (n : ℕ) (bandwidth latency : W) (t : Topology W)
      → new_topology block n bandwidth latency ≡ ok t
      → IsWired t
  new_topology-IsWired ring n b l t h = new_ring-IsWired n b l true t h
  new_topology-IsWired switch n b l t h = new_switch-IsWired n b l t h
  new_topology-IsWired fully_connected n b l t h = new_fully_connected-IsWired n b l t h
  new_topology-IsWired _ n b l t h = cc

  -- On a topology of construct_topology, Ring, FullyConnected or Switch, `route` between two
  -- different NPUs returns a walk from the one to the other over links of the topology, each to
  -- another device, of at most npus_count hops; every link has the topology's bandwidth and
  -- latency; the devices stand at the places of their ids, and are at least as many as the NPUs, of
  -- which there is one at least.
  pub construct_topology-IsWired :
      (p : NetworkParser W) (t : Topology W) → construct_topology p ≡ ok t → IsWired t
  construct_topology-IsWired p t h =
      let (block, n, bandwidth, latency, made) = construct_topology-IsMade p t h in
      new_topology-IsWired block n bandwidth latency t made
