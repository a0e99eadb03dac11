-- ===== src/Aware/Alone/Agreement.antt =====
-- congestion_aware and congestion_unaware on the same configuration, where every route is one hop.
use astra_network_analytical.Base.{
  ℕ, ◌-◌, ◌*◌, ◌^◌, ◌≤◌, ◌<◌, ◌≡◌, ◌≢◌, ◌∙◌, refl, ap, sym, subst, inl, inr, true, List, [], ◌∷◌,
  length, Error, Outcome, ok, assertion, or_fail, check-eq-ok, >>=-eq-ok, lt→ltb, ltb, ok-injective,
  arith,
}
use astra_network_analytical.Base.Int.{pos}
use astra_network_analytical.Double.{Double, of_nat, nought}
use astra_network_analytical.Common.{fully_connected, bw_GBps_to_Bpns}
use astra_network_analytical.NetworkParser.{NetworkParser, get_topologies_per_dim}
use astra_network_analytical.EventQueue.{finished, run}
use astra_network_analytical.Unaware.Basic
use astra_network_analytical.Unaware.Basic.{BasicTopology}
use astra_network_analytical.Unaware.Basic.Delay.{send-delay_of}
use astra_network_analytical.Unaware.Construct as Unaware
use astra_network_analytical.Unaware.Construct.Single.{construct_topology-single}
use astra_network_analytical.Aware.State.{Chunk, Link, Topology, World, fully_connected_topology}
use astra_network_analytical.Aware.Chunk.{new_chunk}
use astra_network_analytical.Aware.Link.{new_link, communication_delay, serialization_delay}
use astra_network_analytical.Aware.Topology
use astra_network_analytical.Aware.Topology.{new_basic_topology}
use astra_network_analytical.Aware.Basic.{route, new_fully_connected, fully_connected_route}
use astra_network_analytical.Aware.Simulation.{invoke, start}
use astra_network_analytical.Aware.Construct.{new_topology, construct_topology}
use astra_network_analytical.Aware.Construct.Initial.{connect_all-Extends}
use astra_network_analytical.Aware.Construct.Reads.{construct_topology-Reads}
use astra_network_analytical.Aware.Construct.Wired.{
  IsShaped, Extends-IsShaped, new_basic_topology-IsBare,
}
use astra_network_analytical.Aware.Progress.Events.{IsSilent}
use astra_network_analytical.Aware.Alone.Built.{construct_topology-alone}

module _ {W : Type 0} ⦃d : Double W⦄ where
  new_link-delay :
      (bandwidth latency : W) (m : Link W)
      → new_link bandwidth latency ≡ ok m
      → (m.latency ≡ latency) × (bw_GBps_to_Bpns bandwidth ≡ ok m.bandwidth_Bpns)
  unfolding new_link
  new_link-delay bandwidth latency m h =
      let (_, h₁) = check-eq-ok (d.lt nought bandwidth) assertion _ h in
      let (_, h₂) = check-eq-ok (d.le nought latency) assertion _ h₁ in
      let (bytes, converted, made) = >>=-eq-ok (bw_GBps_to_Bpns bandwidth) _ h₂ in
      subst
        (λ (x : Link W). (x.latency ≡ latency) × (bw_GBps_to_Bpns bandwidth ≡ ok x.bandwidth_Bpns))
        (ok-injective made) (refl, converted)

  -- What the congestion-unaware constructor keeps of its arguments.
  Basic-shape :
      (n : ℕ) (bandwidth latency : W) (t : BasicTopology W)
      → Basic.new_fully_connected n bandwidth latency ≡ ok t
      → (t.npus_count ≡ n)
        × (t.basic_topology_type ≡ fully_connected)
        × (t.latency ≡ latency)
        × (bw_GBps_to_Bpns bandwidth ≡ ok t.bandwidth_Bpns)
  unfolding Basic.new_fully_connected Basic.new_basic_topology
  Basic-shape n bandwidth latency t h =
      let (base, based, typed) = >>=-eq-ok (Basic.new_basic_topology n bandwidth latency) _ h in
      let (_, h₁) = check-eq-ok (ltb 0 n) assertion _ based in
      let (_, h₂) = check-eq-ok (d.lt nought bandwidth) assertion _ h₁ in
      let (_, h₃) = check-eq-ok (d.le nought latency) assertion _ h₂ in
      let (bytes, converted, made) = >>=-eq-ok (bw_GBps_to_Bpns bandwidth) _ h₃ in
      let kept : (base.npus_count ≡ n)
          × (base.latency ≡ latency)
          × (bw_GBps_to_Bpns bandwidth ≡ ok base.bandwidth_Bpns) =
        subst
          (λ (x : BasicTopology W).
            (x.npus_count ≡ n)
            × (x.latency ≡ latency)
            × (bw_GBps_to_Bpns bandwidth ≡ ok x.bandwidth_Bpns))
          (ok-injective made) (refl, refl, converted) in
      subst
        (λ (x : BasicTopology W).
          (x.npus_count ≡ n)
          × (x.basic_topology_type ≡ fully_connected)
          × (x.latency ≡ latency)
          × (bw_GBps_to_Bpns bandwidth ≡ ok x.bandwidth_Bpns))
        (ok-injective typed) (kept.0, refl, kept.1, kept.2)

  Aware-shape :
      (n : ℕ) (bandwidth latency : W) (t : Topology W)
      → new_fully_connected n bandwidth latency ≡ ok t
      → IsShaped fully_connected_topology n n bandwidth latency t
  unfolding new_fully_connected
  Aware-shape n bandwidth latency t h =
      let (base, based, h₁) =
        >>=-eq-ok (new_basic_topology fully_connected_topology n n bandwidth latency) _ h in
      let (_, _, (shaped, _)) =
        new_basic_topology-IsBare fully_connected_topology n n bandwidth latency base based in
      let begun : Topology W = record base { basic_topology_type = fully_connected } in
      Extends-IsShaped fully_connected_topology n n bandwidth latency begun t
        (connect_all-Extends n 0 bandwidth latency begun t h₁) shaped

  -- The congestion-unaware delay of one hop is the communication delay of a link.
  Basic-communication_delay :
      (n : ℕ) (bandwidth latency : W) (t : BasicTopology W) (m : Link W) (i j size delay : ℕ)
      → Basic.new_fully_connected n bandwidth latency ≡ ok t
      → new_link bandwidth latency ≡ ok m
      → d.mul (d.of_int (pos 1)) latency ≡ latency
      → i < n
      → j < n
      → i ≢ j
      → 0 < size
      → Basic.send t i j size ≡ ok delay
      → communication_delay m size ≡ ok delay
  unfolding communication_delay
  Basic-communication_delay n bandwidth latency t m i j size delay h made once low low' differ
        some_size sent =
      let (npus, type, same, bytes) = Basic-shape n bandwidth latency t h in
      let (same', bytes') = new_link-delay bandwidth latency m made in
      let speed : t.bandwidth_Bpns ≡ m.bandwidth_Bpns = ok-injective (sym bytes ∙ bytes') in
      let formula =
        send-delay_of t i j size (inr (inl type)) (omega (arith, npus)) (omega (arith, npus)) differ
          some_size in
      let computed = sym formula ∙ sent in
      let cast : W → W → Outcome ℕ =
        λ x y. or_fail Error.undefined (d.to_uint64 (d.add x (d.div (of_nat size) y))) in
      let read : cast (d.mul (d.of_int (pos 1)) t.latency) t.bandwidth_Bpns ≡ ok delay =
        rw type at computed in
      let hop : m.latency ≡ d.mul (d.of_int (pos 1)) t.latency =
        same' ∙ sym once ∙ ap (λ x. d.mul (d.of_int (pos 1)) x) (sym same) in
      let direct : cast m.latency m.bandwidth_Bpns ≡ ok delay =
        ap (λ x. cast x m.bandwidth_Bpns) hop
        ∙ ap (λ y. cast (d.mul (d.of_int (pos 1)) t.latency) y) (sym speed)
        ∙ read in
      rw (lt→ltb 0 size some_size) direct

  -- On a configuration of one FullyConnected dimension, from which both construct_topology
  -- functions give a topology: where the congestion-unaware `send` gives a delay for a chunk
  -- between two different NPUs, the congestion-aware simulation of the same chunk alone, sent at
  -- the start over the route of `route`, with two units of fuel for each NPU, ends with nothing
  -- left in the queue at exactly that time. The serialization delay is defined and at most that
  -- delay, multiplying the latency by one does not change it, the size is not zero, the callback
  -- changes nothing, and the delay times the number of NPUs is within the range of the clock.
  pub run-send :
      (p : NetworkParser W) (aware : Topology W) (unaware : Unaware.Topology W) (m : Link W)
      → (size st delay i j callback callback_arg fuel : ℕ)
      → (client : ℕ → ℕ → World W → Outcome (World W)) → IsSilent client
      → get_topologies_per_dim p ≡ ok (fully_connected ∷ [])
      → construct_topology p ≡ ok aware
      → Unaware.construct_topology p ≡ ok unaware
      → new_link aware.bandwidth aware.latency ≡ ok m
      → d.mul (d.of_int (pos 1)) aware.latency ≡ aware.latency
      → i < aware.npus_count
      → j < aware.npus_count
      → i ≢ j
      → 0 < size
      → Unaware.send unaware i j size ≡ ok delay
      → serialization_delay m size ≡ ok st
      → st ≤ delay
      → delay * aware.npus_count < 2 ^ 64
      → 2 * aware.npus_count ≤ fuel
      → (r : List ℕ) × (chunk : Chunk) × (sent w' : World W) × (route aware i j ≡ ok r)
        × (new_chunk size r callback callback_arg ≡ ok chunk)
        × (Topology.send chunk (start aware) ≡ ok sent)
        × (run (invoke client) fuel sent ≡ ok w')
        × (finished w'.queue ≡ true)
        × (w'.queue.current_time ≡ delay)
  unfolding Unaware.new_dimension Unaware.send route fully_connected_route
  run-send p aware unaware m size st delay i j callback callback_arg fuel client silent configured
        built built' made once low low' differ some_size computed frees in_time fits fed =
      let (block, n, b, l, (ts, ns, bs, ls, e₀, e₁, e₂, e₃, e₄), constructed) =
        construct_topology-Reads p aware built in
      let is : block ≡ fully_connected =
        let same : block ∷ ts ≡ fully_connected ∷ [] = ok-injective (sym e₁ ∙ configured) in cc in
      let constructed' : new_fully_connected n b l ≡ ok aware =
        subst (λ x. new_topology x n b l ≡ ok aware) is constructed in
      let (class, npus, _, bandwidth, latency) = Aware-shape n b l aware constructed' in
      let (basic, made', inside) =
        construct_topology-single p block n b l ts ns bs ls unaware e₀ e₁ e₂ e₃ e₄ built' in
      let arrives =
        Basic-communication_delay n b l basic m i j size delay
          (subst (λ x. Unaware.new_dimension x n b l ≡ ok basic) is made')
          (subst (λ x. new_link x l ≡ ok m) bandwidth
            (subst (λ x. new_link aware.bandwidth x ≡ ok m) latency made))
          (subst (λ x. d.mul (d.of_int (pos 1)) x ≡ x) latency once) (omega (arith, npus))
          (omega (arith, npus)) differ some_size
          (subst (λ u. Unaware.send u i j size ≡ ok delay) (sym inside) computed) in
      let (r, chunk, sent, w', routed, wrapped, goes, ran, done, time) =
        construct_topology-alone p aware m size delay st i j callback callback_arg fuel client
          silent built made arrives frees in_time some_size low low' differ fits fed in
      let direct : route aware i j ≡ ok (i ∷ j ∷ []) =
        rw class (rw (lt→ltb i aware.npus_count low, lt→ltb j aware.npus_count low') refl) in
      let one_hop : length r ≡ 2 =
        ap (λ (x : List ℕ). length x) (ok-injective (sym routed ∙ direct)) in
      let once_over : delay * (2 - 1) ≡ delay = omega arith in
      (
        r,
        chunk,
        sent,
        w',
        routed,
        wrapped,
        goes,
        ran,
        done,
        time ∙ ap (λ k. delay * (k - 1)) one_hop ∙ once_over,
      )
