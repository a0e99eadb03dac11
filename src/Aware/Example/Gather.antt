-- ===== src/Aware/Example/Gather.antt =====
-- The loops of the All-Gather: every chunk finds a route over links, and is sent.
use astra_network_analytical.Base.{
  ℕ, zero, suc, ◌+◌, ◌*◌, ◌^◌, ◌≤◌, ◌<◌, ◌≡◌, ◌≢◌, refl, ◌∙◌, ap, inl, inr, Bool-cases, List, [],
  ◌∷◌, length, if◌then◌else◌, ◌==◌, ok, arith,
}
use astra_network_analytical.Base.Walks.{Walk}
use astra_network_analytical.Double.{Double}
use astra_network_analytical.Aware.State.{
  Chunk, Device, Topology, TopologyClass, ring_topology, fully_connected_topology, switch_topology,
  World,
}
use astra_network_analytical.Aware.Chunk.{new_chunk}
use astra_network_analytical.Aware.Basic.{
  route, route_by, ring_route, fully_connected_route, switch_route,
}
use astra_network_analytical.Aware.Construct.Wires.{Wire}
use astra_network_analytical.Aware.Construct.Wired.{IsWired}
use astra_network_analytical.Aware.Protocol.{FollowsProtocol}
use astra_network_analytical.Aware.Protocol.Events.{topology_send-Follows}
use astra_network_analytical.Aware.Work.Steps.{remaining, topology_send-remaining}
use astra_network_analytical.Aware.Progress.{IsPath}
use astra_network_analytical.Aware.Progress.Send.{IsSteady, topology_send-Succeeds}
use astra_network_analytical.Aware.Example.{chunk_size, send_one, send_to_all, all_gather}

-- A walk between different devices takes a first step, and is a path.
pub Walk-IsPath :
    (R : ℕ → ℕ → Type 0) (a : ℕ) (r : List ℕ) (b : ℕ)
    → Walk R a r b
    → a ≢ b
    → (next : ℕ) × (rest : List ℕ) × (r ≡ a ∷ next ∷ rest) × IsPath R (a ∷ next ∷ rest)
Walk-IsPath R a [] b w differ = absurd w
Walk-IsPath R a (x ∷ []) b w differ = absurd (differ w.1)
Walk-IsPath R a (x ∷ y ∷ r) b w differ = (y, r, ap (λ z. z ∷ y ∷ r) w.0, (w.1, path y r w.2))
  where
    path : (c : ℕ) (r : List ℕ) → Walk R c (c ∷ r) b → IsPath R (c ∷ r)
    path c [] w = tt
    path c (y ∷ r) w = (w.1, path y r w.2)

-- A route does not depend on the devices.
route-devices :
    {W : Type 0} (t : Topology W) (ds : List (Device W)) (i j : ℕ)
    → route (record t { devices = ds }) i j ≡ route t i j
unfolding route ring_route fully_connected_route switch_route
route-devices {W} t ds i j = by_class t.class
  where
    by_class : (c : TopologyClass) → route_by c (record t { devices = ds }) i j ≡ route_by c t i j
    by_class ring_topology = refl
    by_class fully_connected_topology = refl
    by_class switch_topology = refl

-- The chunks of the example.
abbrev pub IsChunkSize : ℕ → Type 0
IsChunkSize size = size ≡ chunk_size

-- A topology with the links of t, a bound on every delay, and the last time that may be reached.
module _ {W : Type 0} ⦃d : Double W⦄ (t : Topology W) (wired : IsWired t) (longest end : ℕ)
    (in_range : end < 2 ^ 64) where
  -- Steady, on t with other devices, following the links' protocol, with at most so many events remaining.
  abbrev pub Gathers : ℕ → ℕ → World W → Type 0
  Gathers k used w =
      IsSteady (Wire t) IsChunkSize longest end k w
      × FollowsProtocol [] w
      × ((ds : List (Device W)) × (w.state ≡ record t { devices = ds }))
      × (remaining w ≤ used)

  send_one-Gathers :
      (k used i j : ℕ) (w : World W)
      → i < t.npus_count
      → j < t.npus_count
      → i ≢ j
      → Gathers k used w
      → (w' : World W) × (send_one i j w ≡ ok w') × Gathers k (used + 2 * t.npus_count) w'
  unfolding send_one new_chunk
  send_one-Gathers k used i j w low low' differ (steady, follows, (ds, same), few) =
      let (_, _, enough, _, routes) = wired in
      let (r, ran, walk, hops) = routes i j low low' differ in
      let (next, rest, is, path) = Walk-IsPath (Wire t) i r j walk differ in
      let c : Chunk = record {
        chunk_size = chunk_size;
        route = i ∷ next ∷ rest;
        callback = 0;
        callback_arg = 0;
      } in
      let found : route w.state i j ≡ ok (i ∷ next ∷ rest) =
        ap (λ x. route x i j) same ∙ route-devices t ds i j ∙ ran ∙ ap ok is in
      let (w', sent, steady', _, (ds', kept)) =
        topology_send-Succeeds (Wire t) IsChunkSize longest end in_range k i next c w
          (omega (arith, ap (λ (x : Topology W). x.devices_count) same)) (refl, rest, refl, path)
          steady in
      (
        w',
        rw found sent,
        (
          steady',
          topology_send-Follows c [] w w' follows sent,
          (ds', kept ∙ ap (λ (x : Topology W). record x { devices = ds' }) same),
          omega (arith, (topology_send-remaining c w w' sent).0, ap length is),
        ),
      )

  send_to_all-Gathers :
      (n k used i j : ℕ) (w : World W)
      → i < t.npus_count
      → j + n ≤ t.npus_count
      → Gathers k used w
      → (w' : World W) × (send_to_all n i j w ≡ ok w')
        × Gathers k (used + n * (2 * t.npus_count)) w'
  unfolding send_to_all
  send_to_all-Gathers zero k used i j w low inside (steady, follows, same, few) =
      (w, refl, (steady, follows, same, omega arith))
  send_to_all-Gathers (suc n) k used i j w low inside gathers =
      let (u, sent, gathers') = one in
      let (w', rest, (steady, follows, same, few)) =
        send_to_all-Gathers n k (used + 2 * t.npus_count) i (suc j) u low (omega arith) gathers' in
      (w', rw sent rest, (steady, follows, same, omega arith))
    where
      one :
          (u : World W) × ((if i == j then ok w else send_one i j w) ≡ ok u)
          × Gathers k (used + 2 * t.npus_count) u
      one = elim (Bool-cases (i == j)) [
        | inl itself ↦
            let (steady, follows, same, few) = gathers in
            (w, rw itself refl, (steady, follows, same, omega arith))
        | inr other ↦
            let (u, sent, gathers') =
              send_one-Gathers k used i j w low (omega arith) (ground arith) gathers in
            (u, rw other sent, gathers')
      ]

  -- The loops send every chunk.
  pub all_gather-Gathers :
      (n k used i : ℕ) (w : World W)
      → i + n ≤ t.npus_count
      → Gathers k used w
      → (w' : World W) × (all_gather n t.npus_count i w ≡ ok w')
        × Gathers k (used + n * (t.npus_count * (2 * t.npus_count))) w'
  unfolding all_gather
  all_gather-Gathers zero k used i w inside (steady, follows, same, few) =
      (w, refl, (steady, follows, same, omega arith))
  all_gather-Gathers (suc n) k used i w inside gathers =
      let (u, row, gathers') =
        send_to_all-Gathers t.npus_count k used i 0 w (omega arith) (omega arith) gathers in
      let (w', rest, (steady, follows, same, few)) =
        all_gather-Gathers n k (used + t.npus_count * (2 * t.npus_count)) (suc i) u (omega arith)
          gathers' in
      (w', rw row rest, (steady, follows, same, omega arith))
