-- ===== src/Aware/Example/Tests.antt =====
-- The example on a switch of two NPUs and on a ring of four.
use astra_network_analytical.Base.{
  ℕ, suc, ◌*◌, ◌-◌, List, length, ◌≤◌, ◌≡◌, refl, ◌∙◌, sym, subst, [], ◌∷◌, Outcome, true, ok, ap,
  ◌+◌, ok-injective, arith,
}
use astra_network_analytical.Base.Int.{pos}
use astra_network_analytical.Double.{of_nat}
use astra_network_analytical.Double.Rational.{Rational, rational_double}
use astra_network_analytical.Common.{ring}
use astra_network_analytical.NetworkParser.{NetworkParser}
use astra_network_analytical.Aware.State.{Chunk, Link, World, find_link, link_at, set_link}
use astra_network_analytical.Aware.Link.{new_link, communication_delay, serialization_delay}
use astra_network_analytical.Aware.Construct.{construct_topology}
use astra_network_analytical.Aware.Construct.Wired.{IsWired}
use astra_network_analytical.Aware.Construct.Wired.Built.{construct_topology-IsWired}
use astra_network_analytical.EventQueue.{schedule_event, run, finished}
use astra_network_analytical.Aware.Chunk.{
  new_chunk, current_device, next_device, get_size, mark_arrived_next_device,
}
use astra_network_analytical.Aware.Topology
use astra_network_analytical.Aware.Alone.Built.{construct_topology-alone}
use astra_network_analytical.Aware.Basic.{route, route_loop, route_step}
use astra_network_analytical.Aware.Examples.{link}
use astra_network_analytical.Aware.Construct.Examples.{switch_2, built, switch_built}
use astra_network_analytical.Aware.Example.{
  Report, chunk_size, chunk_arrived_callback, all_gather, main,
}
use astra_network_analytical.Aware.Example.Finish.{
  IsTimely, events_at_most, start-Gathers, main-finishes,
}
use astra_network_analytical.Aware.Example.Gather.{IsChunkSize, Gathers, all_gather-Gathers}
use astra_network_analytical.Aware.Progress.Run.{run-succeeds}
use astra_network_analytical.Aware.Work.Steps.{remaining}
use astra_network_analytical.Aware.Construct.Wires.{Wire}
use astra_network_analytical.Aware.Simulation.{invoke, start}

abbrev ring_4 : NetworkParser Rational
ring_4 = record (switch_2) { npus_count_per_dim = pos 4 ∷ []; topology_per_dim = ring ∷ [] }

switch_report :
    main 20 switch_2 ≡ ok (record { npus_count = 2; devices_count = 3; finish_time = 40062 })
unfolding main find_link link_at set_link current_device next_device get_size
    mark_arrived_next_device schedule_event
switch_report = refl

-- A second chunk over the same link waits for it.
ring_report :
    main 200 ring_4 ≡ ok (record { npus_count = 4; devices_count = 4; finish_time = 59593 })
unfolding main find_link link_at set_link current_device next_device get_size
    mark_arrived_next_device schedule_event route_loop route_step
ring_report = refl

abbrev or_link : Outcome (Link Rational) → Link Rational
or_link (ok l) = l
or_link _ = link

abbrev made_link : Link Rational
made_link = or_link (new_link (of_nat 50) (of_nat 500))

switch_link : new_link built.bandwidth built.latency ≡ ok made_link
unfolding new_link construct_topology find_link
switch_link = refl

switch_communication : communication_delay made_link chunk_size ≡ ok 20031
unfolding communication_delay new_link
switch_communication = refl

switch_serialization : serialization_delay made_link chunk_size ≡ ok 19531
unfolding serialization_delay new_link
switch_serialization = refl

switch-IsTimely : IsTimely built 20031
switch-IsTimely l made =
    subst
      (λ (m : Link Rational).
        (ct : ℕ) × (st : ℕ) × (communication_delay m chunk_size ≡ ok ct)
        × (serialization_delay m chunk_size ≡ ok st)
        × (ct ≤ 20031)
        × (st ≤ 20031))
      (ok-injective (sym switch_link ∙ made))
      (20031, 19531, switch_communication, switch_serialization, omega arith, omega arith)

built_npus : built.npus_count ≡ 2
unfolding construct_topology find_link
built_npus = refl

main-finishes_example :
    (report : Report) × (main 16 switch_2 ≡ ok report)
    × (report.npus_count ≡ built.npus_count)
    × (report.devices_count ≡ built.devices_count)
    × (report.finish_time ≤ 20031 * suc (events_at_most built.npus_count))
main-finishes_example =
    main-finishes switch_2 built 20031 16 switch_built switch-IsTimely (rw built_npus (omega arith))
      (rw built_npus (omega arith))

construct_topology-IsWired_example : IsWired built
construct_topology-IsWired_example = construct_topology-IsWired switch_2 built switch_built

-- The state behind the loops of the All-Gather.
abbrev or_begun : Outcome (World Rational) → World Rational
or_begun (ok w) = w
or_begun _ = start built

abbrev sent : World Rational
sent = or_begun (all_gather 2 2 0 (start built))

all_sent : all_gather 2 2 0 (start built) ≡ ok sent
unfolding all_gather construct_topology find_link link_at set_link current_device next_device
    get_size schedule_event
all_sent = refl

sent-Gathers :
    Gathers built
      (construct_topology-IsWired switch_2 built switch_built)
      20031
      (20031 * 17)
      (omega arith)
      16
      16
      sent
sent-Gathers =
    let wired = construct_topology-IsWired switch_2 built switch_built in
    let (w, ran, gathered) =
      all_gather-Gathers built wired 20031 (20031 * 17) (omega arith) 2 16 0 0 (start built)
        (rw built_npus (omega arith))
        (start-Gathers switch_2 built 20031 16 switch_built wired switch-IsTimely (omega arith)) in
    let same : w ≡ sent =
      ok-injective (sym ran ∙ ap (λ n. all_gather 2 n 0 (start built)) built_npus ∙ all_sent) in
    let (steady, follows, kept, few) = gathered in
    let within : remaining w ≤ 0 + 2 * (2 * (2 * 2)) = rw built_npus at few in
    subst (Gathers built wired 20031 (20031 * 17) (omega arith) 16 16) same
      (steady, follows, kept, omega (arith, within))

run-succeeds_example :
    (w' : World Rational) × (run (invoke chunk_arrived_callback) 16 sent ≡ ok w')
    × (finished w'.queue ≡ true)
    × (w'.queue.current_time ≤ 20031 * 17)
run-succeeds_example =
    run-succeeds (Wire built) IsChunkSize 20031 (20031 * 17) (omega arith) chunk_arrived_callback
      (λ c a w. refl) 16 16 sent sent-Gathers.0 sent-Gathers.1 sent-Gathers.3 sent-Gathers.3

construct_topology-alone_example :
    (r : List ℕ) × (chunk : Chunk) × (begun w' : World Rational) × (route built 0 1 ≡ ok r)
    × (new_chunk chunk_size r 0 0 ≡ ok chunk)
    × (Topology.send chunk (start built) ≡ ok begun)
    × (run (invoke chunk_arrived_callback) 4 begun ≡ ok w')
    × (finished w'.queue ≡ true)
    × (w'.queue.current_time ≡ 20031 * (length r - 1))
construct_topology-alone_example =
    construct_topology-alone switch_2 built made_link chunk_size 20031 19531 0 1 0 0 4
      chunk_arrived_callback (λ c a w. refl) switch_built switch_link switch_communication
      switch_serialization (omega arith) (omega arith) (omega (arith, built_npus))
      (omega (arith, built_npus)) (omega arith) (rw built_npus (omega arith))
      (rw built_npus (omega arith))
