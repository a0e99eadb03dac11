-- ===== src/Aware/Basic.antt =====
-- congestion_aware/basic-topology/: Ring, FullyConnected and Switch, their links and their routes.
-- A route is the list of the places of its devices; that the list of devices has them is not
-- checked here, for npus_count is at most devices_count.
mod Examples
pub mod RingRoute
use astra_network_analytical.Base.{
  ℕ, zero, suc, ◌+◌, ◌-◌, Bool, true, false, not, List, [], ◌∷◌, ltb, if◌then◌else◌, ◌==◌, Outcome,
  Error, ok, fail, ◌>>=◌, ◌>>◌, assert, unfinished,
}
use astra_network_analytical.Base.Int.{ℤ, pos, negsuc, pos_part, neg_part, ltb_ℤ, ◌+ℤ◌, ◌-ℤ◌}
use astra_network_analytical.Double.{Double}
use astra_network_analytical.Common.{fully_connected}
use astra_network_analytical.Aware.State.{
  Topology, TopologyClass, ring_topology, fully_connected_topology, switch_topology,
}
use astra_network_analytical.Aware.Topology.{connect, new_basic_topology}

-- `current` after one step round the ring.
unfoldable pub advance : ℕ → ℤ → ℕ → ℤ
unfolding ◌+ℤ◌ ◌-ℤ◌
advance n step current =
    let moved = pos current +ℤ step in
    if ltb_ℤ moved (pos 0)
    then moved +ℤ pos n
    else if not (ltb_ℤ moved (pos n))
    then moved -ℤ pos n
    else moved

-- The `while` loop and the push behind it, on fuel; `current` stays a device's place.
unfoldable pub route_loop : ℕ → ℕ → ℤ → ℕ → ℕ → Outcome (List ℕ)
unfolding advance
route_loop zero n step dest current = fail unfinished
route_loop (suc fuel) n step dest current =
    let rest = route_loop fuel n step dest (pos_part (advance n step current)) in
    if current == dest then ok (dest ∷ []) else (do route ← rest; ok (current ∷ route))

-- The direction: -1 if the anticlockwise way is strictly shorter.
unfoldable pub route_step : Bool → ℕ → ℕ → ℕ → ℤ
unfolding ◌+ℤ◌ ◌-ℤ◌
route_step bidirectional n src dest =
    let difference = pos dest -ℤ pos src in
    let clockwise_dist = if ltb_ℤ difference (pos 0) then difference +ℤ pos n else difference in
    let anticlockwise_dist = pos n -ℤ clockwise_dist in
    if bidirectional
    then (if ltb_ℤ anticlockwise_dist clockwise_dist then negsuc 0 else pos 1)
    else pos 1

module _ {W : Type 0} where
  abbrev assert_ids : Topology W → ℕ → ℕ → Outcome (Unit {0})
  assert_ids t src dest = do assert (ltb src t.npus_count); assert (ltb dest t.npus_count)

  -- The loop takes fewer than npus_count steps, so npus_count is enough fuel.
  unfoldable pub ring_route : Topology W → ℕ → ℕ → Outcome (List ℕ)
  ring_route t src dest = do
    assert_ids t src dest
    route_loop t.npus_count t.npus_count (route_step t.bidirectional t.npus_count src dest) dest src

  unfoldable pub fully_connected_route : Topology W → ℕ → ℕ → Outcome (List ℕ)
  fully_connected_route t src dest = do assert_ids t src dest; ok (src ∷ dest ∷ [])

  unfoldable pub switch_route : Topology W → ℕ → ℕ → Outcome (List ℕ)
  switch_route t src dest = do assert_ids t src dest; ok (src ∷ t.switch_id ∷ dest ∷ [])

  -- The virtual call.
  abbrev pub route_by : TopologyClass → Topology W → ℕ → ℕ → Outcome (List ℕ)
  route_by ring_topology t src dest = ring_route t src dest
  route_by fully_connected_topology t src dest = fully_connected_route t src dest
  route_by switch_topology t src dest = switch_route t src dest

  unfoldable pub route : Topology W → ℕ → ℕ → Outcome (List ℕ)
  unfolding ring_route fully_connected_route switch_route
  route t src dest = route_by t.class t src dest

module _ {W : Type 0} ⦃d : Double W⦄ where
  -- Neither Ring nor Switch sets `basic_topology_type`.
  -- connect(i, i + 1) for i from `i`, with n rounds left.
  unfoldable pub connect_chain : ℕ → ℕ → W → W → Bool → Topology W → Outcome (Topology W)
  unfolding connect
  connect_chain zero i bandwidth latency bidirectional t = ok t
  connect_chain (suc n) i bandwidth latency bidirectional t = do
    t' ← connect t i (suc i) bandwidth latency bidirectional
    connect_chain n (suc i) bandwidth latency bidirectional t'

  unfoldable pub new_ring : ℕ → W → W → Bool → Outcome (Topology W)
  unfolding new_basic_topology connect_chain
  new_ring npus_count bandwidth latency bidirectional = do
    base ← new_basic_topology ring_topology npus_count npus_count bandwidth latency
    let t = record base { bidirectional = bidirectional }
    chained ← connect_chain (npus_count - 1) 0 bandwidth latency bidirectional t
    connect chained (npus_count - 1) 0 bandwidth latency bidirectional

  -- The inner loop of FullyConnected, for the destinations from `dest`, with n rounds left.
  unfoldable pub connect_to_all : ℕ → ℕ → ℕ → W → W → Topology W → Outcome (Topology W)
  unfolding connect
  connect_to_all zero src dest bandwidth latency t = ok t
  connect_to_all (suc n) src dest bandwidth latency t = do
    t' ← (if not (src == dest) then connect t src dest bandwidth latency false else ok t)
    connect_to_all n src (suc dest) bandwidth latency t'

  unfoldable pub connect_all : ℕ → ℕ → W → W → Topology W → Outcome (Topology W)
  unfolding connect_to_all
  connect_all zero src bandwidth latency t = ok t
  connect_all (suc n) src bandwidth latency t = do
    t' ← connect_to_all t.npus_count src 0 bandwidth latency t
    connect_all n (suc src) bandwidth latency t'

  unfoldable pub new_fully_connected : ℕ → W → W → Outcome (Topology W)
  unfolding new_basic_topology connect_all
  new_fully_connected npus_count bandwidth latency = do
    base ← new_basic_topology fully_connected_topology npus_count npus_count bandwidth latency
    connect_all npus_count 0 bandwidth latency
        (record base { basic_topology_type = fully_connected })

  unfoldable pub connect_to_switch : ℕ → ℕ → W → W → Topology W → Outcome (Topology W)
  unfolding connect
  connect_to_switch zero i bandwidth latency t = ok t
  connect_to_switch (suc n) i bandwidth latency t = do
    t' ← connect t i t.switch_id bandwidth latency true
    connect_to_switch n (suc i) bandwidth latency t'

  unfoldable pub new_switch : ℕ → W → W → Outcome (Topology W)
  unfolding new_basic_topology connect_to_switch
  new_switch npus_count bandwidth latency = do
    base ← new_basic_topology switch_topology npus_count (suc npus_count) bandwidth latency
    connect_to_switch npus_count 0 bandwidth latency (record base { switch_id = npus_count })
