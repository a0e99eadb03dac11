-- ===== src/Aware/Alone/Built.antt =====
-- A chunk that is alone on a topology of construct_topology.
use native.Mathlib.Nat.{mul-le-mul_left}
use astra_network_analytical.Base.{
  ℕ, suc, ◌-◌, ◌*◌, ◌^◌, ◌≤◌, ◌<◌, ◌≡◌, ◌≢◌, ◌∙◌, refl, ap, sym, subst, List, ◌∷◌, length, true,
  Outcome, ok, lt→ltb, ok-injective, arith,
}
use astra_network_analytical.Double.{Double}
use astra_network_analytical.NetworkParser.{NetworkParser}
use astra_network_analytical.EventQueue.{finished, run}
use astra_network_analytical.Aware.State.{Chunk, Link, Topology, World}
use astra_network_analytical.Aware.Chunk.{new_chunk}
use astra_network_analytical.Aware.Link.{new_link, communication_delay, serialization_delay}
use astra_network_analytical.Aware.Topology
use astra_network_analytical.Aware.Basic.{route}
use astra_network_analytical.Aware.Simulation.{invoke, start}
use astra_network_analytical.Aware.Construct.{construct_topology}
use astra_network_analytical.Aware.Construct.Initial.{new_link-IsIdle}
use astra_network_analytical.Aware.Construct.Wires.{Wire}
use astra_network_analytical.Aware.Construct.Wired.{IsWired}
use astra_network_analytical.Aware.Construct.Wired.Built.{construct_topology-IsWired}
use astra_network_analytical.Aware.Progress.Events.{IsSilent}
use astra_network_analytical.Aware.Example.Gather.{Walk-IsPath}
use astra_network_analytical.Aware.Alone.{Uniform, Quiet}
use astra_network_analytical.Aware.Alone.Hop.{none_busy}
use astra_network_analytical.Aware.Alone.Flight.{topology_send-alone}

module _ {W : Type 0} ⦃d : Double W⦄ where
  IsWired-Quiet :
      (t : Topology W) (m : Link W) (size ct st : ℕ)
      → IsWired t
      → new_link t.bandwidth t.latency ≡ ok m
      → communication_delay m size ≡ ok ct
      → serialization_delay m size ≡ ok st
      → Quiet (Wire t) size ct st none_busy t.devices
  IsWired-Quiet t m size ct st wired made arrives frees = (
    wired.0,
    λ i j wire. wire.0,
    λ i j l at.
        let made' = wired.3 i j l at in
        let same : m ≡ l = ok-injective (sym made ∙ made') in
        let (free, nothing) = new_link-IsIdle t.bandwidth t.latency l made' in
        (
          subst
              (λ (x : Link W).
                (communication_delay x size ≡ ok ct) × (serialization_delay x size ≡ ok st))
              same (arrives, frees),
          nothing,
          λ e. free,
        ),
  )

  -- On the topology that construct_topology gives for a configuration, where a link of its
  -- bandwidth and latency takes the communication delay `ct` for a chunk of this size, and its
  -- serialization delay is at most that: a chunk that is sent from one NPU to another at the start,
  -- over the route that `route` finds, is sent and delivered, with two units of fuel for each NPU,
  -- after which nothing is left in the queue, and the time is `ct` for each hop of the route. The
  -- size is not zero, the callback changes nothing, and the time for as many hops as NPUs is within
  -- the range of the clock.
  pub construct_topology-alone :
      (p : NetworkParser W) (t : Topology W) (m : Link W)
      (size ct st i j callback callback_arg fuel : ℕ)
      → (client : ℕ → ℕ → World W → Outcome (World W)) → IsSilent client
      → construct_topology p ≡ ok t
      → new_link t.bandwidth t.latency ≡ ok m
      → communication_delay m size ≡ ok ct
      → serialization_delay m size ≡ ok st
      → st ≤ ct
      → 0 < size
      → i < t.npus_count
      → j < t.npus_count
      → i ≢ j
      → ct * t.npus_count < 2 ^ 64
      → 2 * t.npus_count ≤ fuel
      → (r : List ℕ) × (chunk : Chunk) × (sent w' : World W) × (route t i j ≡ ok r)
        × (new_chunk size r callback callback_arg ≡ ok chunk)
        × (Topology.send chunk (start t) ≡ ok sent)
        × (run (invoke client) fuel sent ≡ ok w')
        × (finished w'.queue ≡ true)
        × (w'.queue.current_time ≡ ct * (length r - 1))
  unfolding new_chunk
  construct_topology-alone p t m size ct st i j callback callback_arg fuel client silent built made
        arrives frees in_time some_size low low' differ fits fed =
      let wired = construct_topology-IsWired p t built in
      let (r, routed, walk, short) = wired.4 i j low low' differ in
      let (next, rest, is, path) = Walk-IsPath (Wire t) i r j walk differ in
      let hops : length r ≡ suc (suc (length rest)) = ap (λ (x : List ℕ). length x) is in
      let few : suc (length rest) ≤ t.npus_count = omega (arith, hops, short) in
      let chunk : Chunk = record {
        chunk_size = size;
        route = i ∷ next ∷ rest;
        callback = callback;
        callback_arg = callback_arg;
      } in
      let net : Uniform (Wire t) W = record {
        no_loop = λ x y wire. wire.1;
        size = size;
        communication_time = ct;
        serialization_time = st;
        some_size = some_size;
        in_time = in_time;
        client = client;
        silent = silent;
      } in
      let positive = lt→ltb 0 size some_size in
      let (sent, w', goes, ran, done, time) =
        topology_send-alone (Wire t) net i next fuel rest chunk (start t) refl refl path
          (omega (arith, wired.2)) tt refl (IsWired-Quiet t m size ct st wired made arrives frees)
          (omega (arith, fits, mul-le-mul_left ct few)) (omega arith) in
      let last : suc (length rest) ≡ length (i ∷ next ∷ rest) - 1 = omega arith in
      let time' =
        (let now : w'.queue.current_time ≡ ct * suc (length rest) = omega (arith, time) in now)
        ∙ ap (λ n. ct * n) last in
      (
        i ∷ next ∷ rest,
        chunk,
        sent,
        w',
        routed ∙ ap ok is,
        rw positive refl,
        goes,
        ran,
        done,
        time',
      )
