-- ===== src/Aware/Example/Finish.antt =====
-- The example finishes: whatever topology the configuration gives, no assertion of the All-Gather
-- fails, and the simulation ends.
use astra_network_analytical.Base.{
  ℕ, suc, ◌*◌, ◌^◌, ◌≤◌, ◌<◌, ◌≡◌, refl, sym, subst, true, All, ok, ltb, leb, arith,
}
use astra_network_analytical.Double.{Double}
use astra_network_analytical.NetworkParser.{NetworkParser}
use astra_network_analytical.EventQueue.Order.{entries}
use astra_network_analytical.EventQueue.Weight.{weight}
use astra_network_analytical.Aware.State.{Link, Topology}
use astra_network_analytical.Aware.State.Weight.{pending_weight-idle}
use astra_network_analytical.Aware.Link.{new_link, communication_delay, serialization_delay}
use astra_network_analytical.Aware.Topology.{get_npus_count, get_devices_count}
use astra_network_analytical.Aware.Construct.{construct_topology}
use astra_network_analytical.Aware.Construct.Initial.{new_link-IsIdle}
use astra_network_analytical.Aware.Construct.Start.{
  construct_topology-IsFresh, construct_topology-Follows,
}
use astra_network_analytical.Aware.Construct.Wires.{Wire}
use astra_network_analytical.Aware.Construct.Wired.{IsWired}
use astra_network_analytical.Aware.Construct.Wired.Built.{construct_topology-IsWired}
use astra_network_analytical.Aware.Simulation.{start}
use astra_network_analytical.Aware.Work.Steps.{events_of_chunk}
use astra_network_analytical.Aware.Progress.{Travels, IsTimed}
use astra_network_analytical.Aware.Progress.Run.{run-succeeds}
use astra_network_analytical.Aware.Example.{Report, chunk_size, chunk_arrived_callback, main}
use astra_network_analytical.Aware.Example.Gather.{IsChunkSize, Gathers, all_gather-Gathers}

-- At most so many events: two for each hop of each chunk, and a chunk takes at most n hops.
abbrev pub events_at_most : ℕ → ℕ
events_at_most n = n * (n * (2 * n))

module _ {W : Type 0} ⦃d : Double W⦄ where
  -- On a link of the topology's bandwidth and latency, the delays of a chunk are defined and at most `longest`.
  abbrev pub IsTimely : Topology W → ℕ → Type 0
  IsTimely t longest =
      (l : Link W)
      → new_link t.bandwidth t.latency ≡ ok l
      → (ct : ℕ) × (st : ℕ) × (communication_delay l chunk_size ≡ ok ct)
        × (serialization_delay l chunk_size ≡ ok st)
        × (ct ≤ longest)
        × (st ≤ longest)

  timely-IsTimed :
      (t : Topology W) (longest : ℕ) (l : Link W)
      → IsTimely t longest
      → new_link t.bandwidth t.latency ≡ ok l
      → IsTimed (Wire t) IsChunkSize longest l
  timely-IsTimed t longest l timely made size is =
      subst
        (λ n.
          (0 < n)
          × (ct : ℕ) × (st : ℕ) × (communication_delay l n ≡ ok ct)
          × (serialization_delay l n ≡ ok st)
          × (ct ≤ longest)
          × (st ≤ longest))
        (sym is)
        (let (ct, st, arrival, release, ct_short, st_short) = timely l made in
          (omega arith, ct, st, arrival, release, ct_short, st_short))

  pub start-Gathers :
      (p : NetworkParser W) (t : Topology W) (longest k : ℕ)
      → construct_topology p ≡ ok t
      → (wired : IsWired t) → IsTimely t longest
      → (in_range : longest * suc k < 2 ^ 64)
      → Gathers t wired longest (longest * suc k) in_range k 0 (start t)
  unfolding entries weight
  start-Gathers p t longest k built wired timely in_range = (
    (
      tt,
      (
        wired.0,
        λ i j wire. wire.0,
        λ i j l at.
            let made = wired.3 i j l at in
            (
              timely-IsTimed t longest l timely made,
              subst (All (Travels (Wire t) IsChunkSize i j))
                  (sym (new_link-IsIdle t.bandwidth t.latency l made).1) tt,
            ),
      ),
      tt,
      omega arith,
    ),
    construct_topology-Follows p t built,
    (t.devices, refl),
    (let idle =
          pending_weight-idle events_of_chunk t.devices (construct_topology-IsFresh p t built).1 in
        omega (arith, idle)),
  )

  get_npus_count-IsWired :
      (t : Topology W)
      → IsWired t
      → (get_npus_count t ≡ ok t.npus_count) × (get_devices_count t ≡ ok t.devices_count)
  unfolding get_npus_count get_devices_count
  get_npus_count-IsWired t (_, some_npu, enough, _, _) =
      let devices : ltb 0 t.devices_count ≡ true = ground arith in
      let npus : ltb 0 t.npus_count ≡ true = ground arith in
      let fit : leb t.npus_count t.devices_count ≡ true = ground arith in
      (rw (devices, npus, fit) refl, rw (devices, npus, fit) refl)

  -- On the topology that construct_topology gives for a configuration, where a link of its bandwidth and latency has defined
  -- delays for the chunks of the example, at most `longest`, and the run cannot reach the range of the clock, the
  -- example succeeds with fuel for the events that its chunks take at most: no assertion fails in
  -- the All-Gather or in the run, which ends, and reports the NPUs, the devices and a time of at most
  -- `longest` for each of these events and one more.
  pub main-finishes :
      (p : NetworkParser W) (t : Topology W) (longest fuel : ℕ)
      → construct_topology p ≡ ok t
      → IsTimely t longest
      → longest * suc (events_at_most t.npus_count) < 2 ^ 64
      → events_at_most t.npus_count ≤ fuel
      → (report : Report) × (main fuel p ≡ ok report)
        × (report.npus_count ≡ t.npus_count)
        × (report.devices_count ≡ t.devices_count)
        × (report.finish_time ≤ longest * suc (events_at_most t.npus_count))
  unfolding main
  main-finishes p t longest fuel built timely in_range fed =
      let wired = construct_topology-IsWired p t built in
      let n = t.npus_count in
      let (npus, devices) = get_npus_count-IsWired t wired in
      let (sent, gathered, (steady, follows, _, few)) =
        all_gather-Gathers t wired longest (longest * suc (events_at_most n)) in_range n
          (events_at_most n) 0 0 (start t) (omega arith)
          (start-Gathers p t longest (events_at_most n) built wired timely in_range) in
      let (done, ran, _, early) =
        run-succeeds (Wire t) IsChunkSize longest (longest * suc (events_at_most n)) in_range
          chunk_arrived_callback (λ callback arg w. refl) fuel (events_at_most n) sent steady
          follows (omega arith) (omega arith) in
      (
        record {
          npus_count = n;
          devices_count = t.devices_count;
          finish_time = done.queue.current_time;
        },
        rw built (rw (npus, devices) (rw gathered (rw ran refl))),
        refl,
        refl,
        early,
      )
