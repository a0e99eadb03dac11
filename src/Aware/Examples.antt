-- ===== src/Aware/Examples.antt =====
-- Two devices with a link each way, and a chunk that goes there and back.
use astra_network_analytical.Base.{
  ℕ, zero, suc, ◌+◌, ◌*◌, ◌-◌, ◌≡◌, refl, false, true, [], ◌∷◌, some, Outcome, ok, ok-injective,
  subst, arith,
}
use astra_network_analytical.Double.{of_nat}
use astra_network_analytical.Double.Rational.{Rational, rational_double}
use astra_network_analytical.Common.{fully_connected}
use astra_network_analytical.EventQueue.{run, schedule_event}
use astra_network_analytical.EventQueue.Invariant.{IsValid}
use astra_network_analytical.EventQueue.Run.{IsScheduler, Ends}
use astra_network_analytical.EventQueue.Weight.{weight}
use astra_network_analytical.Aware.State.Weight.{pending_weight}
use astra_network_analytical.Aware.State.{
  Chunk, Link, Topology, fully_connected_topology, chunk_arrived_next_device, link_become_free,
  World, link_at, set_link,
}
use astra_network_analytical.Aware.Chunk.{
  current_device, next_device, get_size, mark_arrived_next_device,
}
use astra_network_analytical.Aware.Topology
use astra_network_analytical.Aware.Topology.{get_basic_topology_type}
use astra_network_analytical.Aware.Simulation.{invoke, start}
use astra_network_analytical.Aware.Clock.{ClientKeeps, invoke-IsScheduler, topology_send-Keeps}
use astra_network_analytical.Aware.Work.Steps.{
  remaining, in_flight, events_of, ClientIsPassive, topology_send-remaining, invoke-remaining,
}
use astra_network_analytical.Aware.Work.Termination.{run-Ends_of_remaining}
use astra_network_analytical.Aware.Protocol.{FollowsProtocol}
use astra_network_analytical.Aware.Protocol.Events.{
  ClientFollows, topology_send-Follows, invoke-Follows, run-leaves_links_free,
}

abbrev pub link : Link Rational
link = record {
  bandwidth = of_nat 50;
  bandwidth_Bpns = of_nat 54;
  latency = of_nat 500;
  pending_chunks = [];
  busy = false;
}

abbrev there_and_back : Chunk
there_and_back = record {
  chunk_size = 1024;
  route = 0 ∷ 1 ∷ 0 ∷ [];
  callback = 0;
  callback_arg = 0;
}

abbrev pub between : Link Rational → Topology Rational
between l = record {
  class = fully_connected_topology;
  npus_count = 2;
  devices_count = 2;
  dims_count = 1;
  npus_count_per_dim = 2 ∷ [];
  bandwidth_per_dim = of_nat 50 ∷ [];
  devices =
      record { device_id = 0; links = (1, l) ∷ [] }
      ∷ record { device_id = 1; links = (0, link) ∷ [] }
      ∷ [];
  bandwidth = of_nat 50;
  latency = of_nat 500;
  basic_topology_type = fully_connected;
  bidirectional = false;
  switch_id = 0;
}

abbrev begin : World Rational
begin = start (between link)

-- A chunk waits at the link from 0 to 1.
abbrev waiting : World Rational
waiting = start (between (record link { busy = true; pending_chunks = there_and_back ∷ [] }))

abbrev no_callback : ℕ → ℕ → World Rational → Outcome (World Rational)
no_callback callback arg w = ok w

abbrev or_begin : Outcome (World Rational) → World Rational
or_begin (ok w) = w
or_begin _ = begin

abbrev sent : World Rational
sent = or_begin (Topology.send there_and_back begin)

send_runs : Topology.send there_and_back begin ≡ ok sent
unfolding Topology.send current_device next_device get_size schedule_event link_at set_link
send_runs = refl

abbrev forwarded : World Rational
forwarded = or_begin (invoke no_callback (chunk_arrived_next_device there_and_back) begin)

forward_runs : invoke no_callback (chunk_arrived_next_device there_and_back) begin ≡ ok forwarded
unfolding invoke current_device next_device get_size mark_arrived_next_device schedule_event link_at
    set_link
forward_runs = refl

abbrev released : World Rational
released = or_begin (invoke no_callback (link_become_free 0 1) waiting)

release_runs : invoke no_callback (link_become_free 0 1) waiting ≡ ok released
unfolding invoke current_device next_device get_size schedule_event link_at set_link
release_runs = refl

abbrev end : World Rational
end = or_begin (run (invoke no_callback) 4 sent)

run_ends : run (invoke no_callback) 4 sent ≡ ok end
unfolding run invoke Topology.send current_device next_device get_size mark_arrived_next_device
    schedule_event link_at set_link
run_ends = refl

link_at_end : link_at end.state.devices 0 1 ≡ some link
unfolding run invoke Topology.send current_device next_device get_size mark_arrived_next_device
    schedule_event link_at set_link
link_at_end = refl

no_callback-Keeps : ClientKeeps no_callback
no_callback-Keeps callback arg w w' h v =
    subst (λ (u : World Rational). IsValid u.queue × (u.queue.current_time ≡ w.queue.current_time))
      (ok-injective h) (v, refl)

no_callback-IsPassive : ClientIsPassive no_callback
no_callback-IsPassive callback arg w w' h =
    subst (λ (u : World Rational). (remaining u ≡ remaining w) × (in_flight u ≡ in_flight w))
      (ok-injective h) (refl, refl)

no_callback-Follows : ClientFollows no_callback
no_callback-Follows callback arg todo w w' p h = subst (FollowsProtocol todo) (ok-injective h) p

begin-Follows : FollowsProtocol [] begin
unfolding link_at weight
begin-Follows zero zero = refl
begin-Follows zero (suc zero) = (refl, λ e. refl)
begin-Follows zero (suc (suc b)) = ground arith
begin-Follows (suc zero) zero = (refl, λ e. refl)
begin-Follows (suc zero) (suc b) = ground arith
begin-Follows (suc (suc a)) b = refl

waiting-Follows : FollowsProtocol (link_become_free 0 1 ∷ []) waiting
unfolding link_at weight
waiting-Follows zero zero = refl
waiting-Follows zero (suc zero) = (refl, λ e. cc)
waiting-Follows zero (suc (suc b)) = ground arith
waiting-Follows (suc zero) zero = (refl, λ e. refl)
waiting-Follows (suc zero) (suc b) = ground arith
waiting-Follows (suc (suc a)) b = ground arith

invoke-IsScheduler_example : IsScheduler (invoke no_callback)
invoke-IsScheduler_example = invoke-IsScheduler no_callback no_callback-Keeps

topology_send-remaining_example :
    (remaining sent ≡ remaining begin + 2 * (3 - 1)) × (in_flight sent ≡ in_flight begin + 1)
topology_send-remaining_example = topology_send-remaining there_and_back begin sent send_runs

invoke-remaining_example :
    remaining forwarded + 1 ≡ remaining begin + events_of (chunk_arrived_next_device there_and_back)
invoke-remaining_example =
    invoke-remaining no_callback (chunk_arrived_next_device there_and_back) begin forwarded
      no_callback-IsPassive forward_runs

sent-IsValid : IsValid sent.queue
sent-IsValid = (topology_send-Keeps there_and_back begin sent send_runs tt).0

begin-remaining : remaining begin ≡ 0
unfolding weight pending_weight
begin-remaining = refl

run-Ends_of_remaining_example : Ends (invoke no_callback) sent (run (invoke no_callback) 5 sent)
run-Ends_of_remaining_example =
    run-Ends_of_remaining no_callback 5 sent no_callback-Keeps no_callback-IsPassive sent-IsValid
      (omega (arith, begin-remaining, topology_send-remaining there_and_back begin sent send_runs))

topology_send-Follows_example : FollowsProtocol [] sent
topology_send-Follows_example =
    topology_send-Follows there_and_back [] begin sent begin-Follows send_runs

invoke-Follows_example : FollowsProtocol [] released
invoke-Follows_example =
    invoke-Follows no_callback (link_become_free 0 1) [] waiting released no_callback-Follows
      waiting-Follows release_runs

run-leaves_links_free_example : (link.busy ≡ false) × (link.pending_chunks ≡ [])
run-leaves_links_free_example =
    run-leaves_links_free no_callback 4 sent end 0 1 link no_callback-Follows no_callback-Keeps
      sent-IsValid (topology_send-Follows there_and_back [] begin sent begin-Follows send_runs)
      run_ends link_at_end
