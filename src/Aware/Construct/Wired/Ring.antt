-- ===== src/Aware/Construct/Wired/Ring.antt =====
-- The routes of Ring go over the links that its constructor makes.
use astra_network_analytical.Base.{
  ◌≢◌, ◌∙◌, ℕ, suc, ◌-◌, ◌<◌, ◌≡◌, ◌∙◌, ap, sym, subst, inl, inr, Bool, leb, Bool-cases, ok,
  >>=-eq-ok, arith,
}
use astra_network_analytical.Base.Int.{pos_part}
use astra_network_analytical.Base.Walks.{Walk, Walk-map_inside}
use astra_network_analytical.Double.{Double}
use astra_network_analytical.Unaware.Basic.Hops.{ring_distance-eq, shorter_bounds}
use astra_network_analytical.Aware.State.{Topology, TopologyClass, ring_topology}
use astra_network_analytical.Aware.Topology.{new_basic_topology}
use astra_network_analytical.Aware.Basic.{connect_chain, new_ring, route, route_by}
use astra_network_analytical.Aware.Basic.RingRoute.{Neighbours, ring_route-Walk}
use astra_network_analytical.Aware.Construct.Initial.{
  Extends-trans, connect-Extends, connect_chain-Extends,
}
use astra_network_analytical.Aware.Construct.Wires.{
  HasLink, Wire, Joined, Grows-trans, connect-Grows,
}
use astra_network_analytical.Aware.Construct.Loops.{Grows-Joined, connect_chain-Grows}
use astra_network_analytical.Aware.Construct.Wired.{
  Extends-IsShaped, new_basic_topology-IsBare, RoutesOver, IsWired, grown-IsWired,
}

Neighbours-differ : (b : Bool) (n x y : ℕ) → 1 < n → x < n → Neighbours b n x y → x ≢ y
Neighbours-differ b n x y more low (inside, inl ahead) same = ground arith
Neighbours-differ b n x y more low (inside, inr (both_ways, behind)) same = ground arith

module _ {W : Type 0} ⦃d : Double W⦄ where
  -- Neighbours on the ring are joined: round the chain, or by the link that closes it.
  Neighbours-HasLink :
      (b : Bool) (n : ℕ) (t : Topology W)
      → ((k : ℕ) → k < n - 1 → Joined b t k (suc k))
      → Joined b t (n - 1) 0
      → (x y : ℕ) → x < n
      → Neighbours b n x y
      → HasLink t x y × (y < n)
  Neighbours-HasLink b n t chain closing x y low (inside, inl ahead) = (step, inside)
    where
      step : HasLink t x y
      step = elim (Bool-cases (leb n (suc x))) [
        | inl last ↦
            let here : n - 1 ≡ x = ground arith in
            let there : 0 ≡ y = ground arith in
            subst (λ a. HasLink t a y) here (subst (HasLink t (n - 1)) there closing.0)
        | inr more ↦
            let there : suc x ≡ y = ground arith in
            subst (HasLink t x) there (chain x (ground arith)).0
      ]
  Neighbours-HasLink b n t chain closing x y low (inside, inr (both_ways, behind)) = (step, inside)
    where
      step : HasLink t x y
      step = elim (Bool-cases (leb n (suc y))) [
        | inl last ↦
            let here : n - 1 ≡ y = ground arith in
            let there : 0 ≡ x = ground arith in
            subst (HasLink t x) here (subst (λ a. HasLink t a (n - 1)) there (closing.1 both_ways))
        | inr more ↦
            let there : suc y ≡ x = ground arith in
            subst (λ a. HasLink t a y) there ((chain y (ground arith)).1 both_ways)
      ]

  ring-RoutesOver :
      (n : ℕ) (b : Bool) (t : Topology W)
      → t.class ≡ ring_topology
      → t.npus_count ≡ n
      → t.bidirectional ≡ b
      → ((k : ℕ) → k < n - 1 → Joined b t k (suc k))
      → Joined b t (n - 1) 0
      → RoutesOver t
  unfolding route
  ring-RoutesOver n b t class npus two_way chain closing i j low low' differ =
      let (r, ran, walk, hops) = ring_route-Walk t i j low low' in
      let walk' : Walk (Neighbours b n) i r j =
        subst (λ x. Walk (Neighbours x n) i r j) two_way
          (subst (λ m. Walk (Neighbours t.bidirectional m) i r j) npus walk) in
      (
        r,
        ap (λ (c : TopologyClass). route_by c t i j) class ∙ ran,
        Walk-map_inside (λ x. x < n) (Neighbours b n) (Wire t)
            (λ x y here step.
              let (link, inside) = Neighbours-HasLink b n t chain closing x y here step in
              (
                (
                  link,
                  Neighbours-differ b n x y (omega (arith, npus, differ, low, low')) here step,
                ),
                inside,
              ))
            i r j (omega (arith, npus)) walk',
        (let distance =
              ap pos_part
                (sym (ring_distance-eq t.bidirectional t.npus_count i j low low') ∙ hops) in
            omega (
              arith,
              distance,
              (shorter_bounds t.bidirectional t.npus_count i j low low' differ).1,
            )),
      )

  pub new_ring-IsWired :
      (n : ℕ) (bandwidth latency : W) (b : Bool) (t : Topology W)
      → new_ring n bandwidth latency b ≡ ok t
      → IsWired t
  unfolding new_ring
  new_ring-IsWired n bandwidth latency b t h =
      let (base, based, h₁) =
        >>=-eq-ok (new_basic_topology ring_topology n n bandwidth latency) _ h in
      let (some_npu, enough, (shaped, bare)) =
        new_basic_topology-IsBare ring_topology n n bandwidth latency base based in
      let begun : Topology W = record base { bidirectional = b } in
      let (chained, chain, closed) =
        >>=-eq-ok (connect_chain (n - 1) 0 bandwidth latency b begun) _ h₁ in
      let (grown, links) = connect_chain-Grows bandwidth latency (n - 1) 0 b begun chained chain in
      let (grown', forth, back) = connect-Grows bandwidth latency chained t (n - 1) 0 b closed in
      let kept =
        Extends-trans begun chained t
          (connect_chain-Extends (n - 1) 0 bandwidth latency b begun chained chain)
          (connect-Extends chained t (n - 1) 0 bandwidth latency b closed) in
      let shaped' = Extends-IsShaped ring_topology n n bandwidth latency begun t kept shaped in
      grown-IsWired ring_topology n n bandwidth latency begun t some_npu enough shaped' bare
        (Grows-trans bandwidth latency begun chained t grown grown')
        (ring-RoutesOver n b t shaped'.0 shaped'.1 (ap (λ (x : Topology W). x.bidirectional) kept.1)
          (λ k low.
            Grows-Joined bandwidth latency b chained t k (suc k) grown'
              (links k (omega arith) (omega arith)))
          (forth, back))
