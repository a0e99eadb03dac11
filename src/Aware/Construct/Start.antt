-- ===== src/Aware/Construct/Start.antt =====
-- The topology that construct_topology gives, as the state in which a simulation starts.
use astra_network_analytical.Base.{
  ℕ, zero, suc, ◌-◌, ◌≡◌, refl, ◌∙◌, ap, sym, subst, true, not, List, [], ◌∷◌, ltb, leb, ◌==◌,
  Outcome, ok, fail, assertion, exited, ◌>>◌, assert, >>=-eq-ok, check-eq-ok, ok-injective, Bool,
  Bool-cases, inl, inr,
}
use astra_network_analytical.Base.Int.{ℤ}
use astra_network_analytical.Double.{Double, nought}
use astra_network_analytical.Common.{TopologyBuildingBlock, ring, fully_connected, switch}
use astra_network_analytical.NetworkParser.{
  NetworkParser, get_dims_count, get_topologies_per_dim, get_npus_counts_per_dim,
  get_bandwidths_per_dim, get_latencies_per_dim,
}
use astra_network_analytical.Aware.State.{
  Link, Device, Topology, TopologyClass, ring_topology, fully_connected_topology, switch_topology,
  find_link, link_at,
}
use astra_network_analytical.EventQueue.Weight.{weight}
use astra_network_analytical.Aware.Topology.{
  is_undefined, new_basic_topology, devices_from, get_basic_topology_type,
}
use astra_network_analytical.Aware.Basic.{connect_chain, new_ring, new_fully_connected, new_switch}
use astra_network_analytical.Aware.Construct.{
  to_count, new_topology, construct_first, construct_topology,
}
use astra_network_analytical.Aware.Construct.Initial.{
  IdleLinks, IsQuiet, Extends, Extends-trans, connect-Extends, connect_chain-Extends,
  connect_all-Extends, connect_to_switch-Extends,
}
use astra_network_analytical.Aware.Simulation.{start}
use astra_network_analytical.Aware.Protocol.{Agrees, FollowsProtocol}

find_link-Agrees :
    {W : Type 0} (j : ℕ) (r : List (ℕ × Link W)) → IdleLinks r → Agrees (find_link j r) 0
unfolding find_link
find_link-Agrees j [] q = refl
find_link-Agrees j ((k, l) ∷ r) q = elim (Bool-cases (k == j)) [
  | inl here ↦ rw here (rw (q.0.0) refl, λ e. q.0.1)
  | inr there ↦ rw there (find_link-Agrees j r q.1)
]

link_at-Agrees :
    {W : Type 0} (ds : List (Device W)) (i j : ℕ) → IsQuiet ds → Agrees (link_at ds i j) 0
unfolding link_at
link_at-Agrees [] i j q = refl
link_at-Agrees (device ∷ ds) zero j q = find_link-Agrees j device.links q.0
link_at-Agrees (device ∷ ds) (suc i) j q = link_at-Agrees ds i j q.1

devices_from-IsQuiet : (W : Type 0) (i n : ℕ) → IsQuiet (devices_from {W = W} i n)
unfolding devices_from
devices_from-IsQuiet W i zero = tt
devices_from-IsQuiet W i (suc n) = (tt, devices_from-IsQuiet W (suc i) n)

-- The class that a block of the configuration is built as.
abbrev class_of : TopologyBuildingBlock → TopologyClass
class_of ring = ring_topology
class_of switch = switch_topology
class_of _ = fully_connected_topology

-- What each class has for a type: only FullyConnected sets one.
abbrev pub type_of : TopologyClass → TopologyBuildingBlock
type_of ring_topology = TopologyBuildingBlock.undefined
type_of fully_connected_topology = fully_connected
type_of switch_topology = TopologyBuildingBlock.undefined

abbrev pub type_result : TopologyClass → Outcome TopologyBuildingBlock
type_result ring_topology = fail assertion
type_result fully_connected_topology = ok fully_connected
type_result switch_topology = fail assertion

abbrev pub IsFresh : {W : Type 0} → Topology W → Type 0
IsFresh t = (t.basic_topology_type ≡ type_of t.class) × IsQuiet t.devices

Extends-IsFresh :
    {W : Type 0} ⦃d : Double W⦄ (t t' : Topology W) → Extends t t' → IsFresh t → IsFresh t'
Extends-IsFresh t t' (ds, e, q) (typed, quiet) = subst IsFresh (sym e) (typed, q quiet)

module _ {W : Type 0} ⦃d : Double W⦄ where
  new_basic_topology-eq-ok :
      (class : TopologyClass) (n m : ℕ) (bandwidth latency : W) (t : Topology W)
      → new_basic_topology class n m bandwidth latency ≡ ok t
      → IsQuiet t.devices
        × (t.class ≡ class)
        × (t.basic_topology_type ≡ TopologyBuildingBlock.undefined)
  unfolding new_basic_topology
  new_basic_topology-eq-ok class n m bandwidth latency t h =
      let (_, h₁) = check-eq-ok (ltb 0 n) assertion _ h in
      let (_, h₂) = check-eq-ok (ltb 0 m) assertion _ h₁ in
      let (_, h₃) = check-eq-ok (leb n m) assertion _ h₂ in
      let (_, h₄) = check-eq-ok (d.lt nought bandwidth) assertion _ h₃ in
      let (_, made) = check-eq-ok (d.le nought latency) assertion _ h₄ in
      subst
        (λ (u : Topology W).
          IsQuiet u.devices
          × (u.class ≡ class)
          × (u.basic_topology_type ≡ TopologyBuildingBlock.undefined))
        (ok-injective made) (devices_from-IsQuiet W 0 m, refl, refl)

  new_ring-IsFresh :
      (n : ℕ) (bandwidth latency : W) (b : Bool) (t : Topology W)
      → new_ring n bandwidth latency b ≡ ok t
      → IsFresh t
  unfolding new_ring
  new_ring-IsFresh n bandwidth latency b t h =
      let (base, based, h₁) =
        >>=-eq-ok (new_basic_topology ring_topology n n bandwidth latency) _ h in
      let (quiet, class, type) =
        new_basic_topology-eq-ok ring_topology n n bandwidth latency base based in
      let begun : Topology W = record base { bidirectional = b } in
      let (chained, chain, closed) =
        >>=-eq-ok (connect_chain (n - 1) 0 bandwidth latency b begun) _ h₁ in
      Extends-IsFresh begun t
        (Extends-trans begun chained t
          (connect_chain-Extends (n - 1) 0 bandwidth latency b begun chained chain)
          (connect-Extends chained t (n - 1) 0 bandwidth latency b closed))
        (type ∙ ap type_of (sym class), quiet)

  new_fully_connected-IsFresh :
      (n : ℕ) (bandwidth latency : W) (t : Topology W)
      → new_fully_connected n bandwidth latency ≡ ok t
      → IsFresh t
  unfolding new_fully_connected
  new_fully_connected-IsFresh n bandwidth latency t h =
      let (base, based, h₁) =
        >>=-eq-ok (new_basic_topology fully_connected_topology n n bandwidth latency) _ h in
      let (quiet, class, _) =
        new_basic_topology-eq-ok fully_connected_topology n n bandwidth latency base based in
      let begun : Topology W = record base { basic_topology_type = fully_connected } in
      Extends-IsFresh begun t (connect_all-Extends n 0 bandwidth latency begun t h₁)
        (ap type_of (sym class), quiet)

  new_switch-IsFresh :
      (n : ℕ) (bandwidth latency : W) (t : Topology W)
      → new_switch n bandwidth latency ≡ ok t
      → IsFresh t
  unfolding new_switch
  new_switch-IsFresh n bandwidth latency t h =
      let (base, based, h₁) =
        >>=-eq-ok (new_basic_topology switch_topology n (suc n) bandwidth latency) _ h in
      let (quiet, class, type) =
        new_basic_topology-eq-ok switch_topology n (suc n) bandwidth latency base based in
      let begun : Topology W = record base { switch_id = n } in
      Extends-IsFresh begun t (connect_to_switch-Extends n 0 bandwidth latency begun t h₁)
        (type ∙ ap type_of (sym class), quiet)

  new_topology-IsFresh :
      (block : TopologyBuildingBlock) (n : ℕ) (bandwidth latency : W) (t : Topology W)
      → new_topology block n bandwidth latency ≡ ok t
      → IsFresh t
  new_topology-IsFresh ring n b l t h = new_ring-IsFresh n b l true t h
  new_topology-IsFresh switch n b l t h = new_switch-IsFresh n b l t h
  new_topology-IsFresh fully_connected n b l t h = new_fully_connected-IsFresh n b l t h
  new_topology-IsFresh _ n b l t h = cc

  -- The constructor that a topology comes from.
  abbrev pub IsMade : Topology W → Type 0
  IsMade t =
      (block : TopologyBuildingBlock) × (n : ℕ) × (bandwidth latency : W) × (new_topology block n
          bandwidth latency
        ≡ ok t)

  construct_first-IsMade :
      (ts : List TopologyBuildingBlock) (ns : List ℤ) (bs ls : List W) (t : Topology W)
      → construct_first ts ns bs ls ≡ ok t
      → IsMade t
  construct_first-IsMade [] ns bs ls t h = cc
  construct_first-IsMade (x ∷ ts) [] bs ls t h = cc
  construct_first-IsMade (x ∷ ts) (n ∷ ns) [] ls t h = cc
  construct_first-IsMade (x ∷ ts) (n ∷ ns) (b ∷ bs) [] t h = cc
  construct_first-IsMade (x ∷ ts) (n ∷ ns) (b ∷ bs) (l ∷ ls) t h =
      let (count, _, made) = >>=-eq-ok (to_count n) _ h in (x, count, b, l, made)

  pub construct_topology-IsMade :
      (p : NetworkParser W) (t : Topology W) → construct_topology p ≡ ok t → IsMade t
  unfolding construct_topology
  construct_topology-IsMade p t h =
      let (n, _, h₁) = >>=-eq-ok (get_dims_count p) _ h in
      let (ts, _, h₂) = >>=-eq-ok (get_topologies_per_dim p) _ h₁ in
      let (ns, _, h₃) = >>=-eq-ok (get_npus_counts_per_dim p) _ h₂ in
      let (bs, _, h₄) = >>=-eq-ok (get_bandwidths_per_dim p) _ h₃ in
      let (ls, _, h₅) = >>=-eq-ok (get_latencies_per_dim p) _ h₄ in
      let (_, made) = check-eq-ok (n == 1) exited _ h₅ in construct_first-IsMade ts ns bs ls t made

  pub construct_topology-IsFresh :
      (p : NetworkParser W) (t : Topology W) → construct_topology p ≡ ok t → IsFresh t
  construct_topology-IsFresh p t h =
      let (block, n, bandwidth, latency, made) = construct_topology-IsMade p t h in
      new_topology-IsFresh block n bandwidth latency t made

  -- A simulation that starts on a topology of construct_topology follows the links' protocol.
  pub construct_topology-Follows :
      (p : NetworkParser W) (t : Topology W)
      → construct_topology p ≡ ok t
      → FollowsProtocol [] (start t)
  unfolding weight
  construct_topology-Follows p t h a b =
      link_at-Agrees t.devices a b (construct_topology-IsFresh p t h).1

  -- On a topology of construct_topology, get_basic_topology_type answers for FullyConnected, and
  -- fails its assertion for Ring and Switch, which leave the type undefined.
  pub get_basic_topology_type-construct_topology :
      (p : NetworkParser W) (t : Topology W)
      → construct_topology p ≡ ok t
      → get_basic_topology_type t ≡ type_result t.class
  unfolding get_basic_topology_type
  get_basic_topology_type-construct_topology p t h =
      rw (construct_topology-IsFresh p t h).0 (by_class t.class)
    where
      by_class :
          (c : TopologyClass)
          → (assert (not (is_undefined (type_of c))) >> ok (type_of c)) ≡ type_result c
      by_class ring_topology = refl
      by_class fully_connected_topology = refl
      by_class switch_topology = refl
