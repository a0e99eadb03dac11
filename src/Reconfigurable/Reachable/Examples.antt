-- ===== src/Reconfigurable/Reachable/Examples.antt =====
-- Two devices, reconfigured twice; a line of four devices for the routes.
use astra_network_analytical.Base.{
  ℕ, [], ◌∷◌, List, ◌≡◌, ◌<◌, refl, subst, Bool, true, false, none, Outcome, ok, fail, ok-injective,
  arith,
}
use astra_network_analytical.Base.Int.{pos, negsuc}
use astra_network_analytical.Base.Maps.{find, put}
use astra_network_analytical.Double.{of_nat}
use astra_network_analytical.Double.Rational.{Rational, rational_double}
use astra_network_analytical.EventQueue.{proceed, schedule_event}
use astra_network_analytical.Reconfigurable.State.{Chunk, Network, World}
use astra_network_analytical.Reconfigurable.Chunk.{current_device, next_device, get_size}
use astra_network_analytical.Reconfigurable.Device
use astra_network_analytical.Reconfigurable.Forward.{send-truncates}
use astra_network_analytical.Reconfigurable.Routes.{has_width, precompute_routes}
use astra_network_analytical.Reconfigurable.Routes.Table.{HasRoute, precompute_routes-IsRoute}
use astra_network_analytical.Reconfigurable.Manager.{
  manager_of, is_reconfiguring, new_topology_manager, reconfigure, send,
}
use astra_network_analytical.Reconfigurable.Events.{invoke, start}
use astra_network_analytical.Reconfigurable.Requests.{reconfigure-repeated}
use astra_network_analytical.Reconfigurable.Sound.{IsSound}
use astra_network_analytical.Reconfigurable.Reachable.{
  Requests, no_request, then_reconfigure, Reachable, started, requested, proceeded, IsClient,
  Reachable-IsSound,
}
use astra_network_analytical.Reconfigurable.Waiting.{Waits, send-Waits}
use astra_network_analytical.Reconfigurable.Examples.{line, matrix}

abbrev pair : ℕ → List (List Rational)
pair b = matrix ((0 ∷ b ∷ []) ∷ (b ∷ 0 ∷ []) ∷ [])

abbrev blank : Network Rational
blank = record {
  manager = record {
    npus_count = 0;
    devices_count = 0;
    topology_iteration = 0;
    cur_topo_id = pos 0;
    reconfiguring = true;
    reconfig_time = none;
    topology = record { npus_count = 0; devices_count = 0; devices = [] };
    bandwidths = [];
    latencies = [];
    precomputed_routes = [];
    circuit_schedules = [];
    inflight_coll = pos 0;
  };
  num_drained_links = 0;
  drain_all_flow = true;
}

abbrev or_blank : Outcome (Network Rational) → Network Rational
or_blank (ok network) = network
or_blank (fail e) = blank

abbrev world_of : Outcome (World Rational) → World Rational
world_of (ok w) = w
world_of (fail e) = start blank

abbrev after {ℓ} : {A : Type ℓ} → Outcome (A × World Rational) → World Rational
after (ok (answer, w)) = w
after (fail e) = start blank

abbrev network : Network Rational
network = or_blank (new_topology_manager 2 2 [])

network_made : new_topology_manager 2 2 [] ≡ ok network
unfolding new_topology_manager find put
network_made = refl

abbrev configured : World Rational
configured = after (reconfigure (pair 50) (pair 7) (of_nat 500) (pos 0) (start network))

first_taken :
    reconfigure (pair 50) (pair 7) (of_nat 500) (pos 0) (start network) ≡ ok (true, configured)
unfolding new_topology_manager reconfigure find put schedule_event
first_taken = refl

abbrev no_callback : ℕ → ℕ → World Rational → Outcome (World Rational)
no_callback callback arg w = ok w

no_callback-IsClient : IsClient no_callback
no_callback-IsClient callback arg w w' h = subst (Requests w) (ok-injective h) (no_request w)

configured-Reachable : Reachable no_callback configured
configured-Reachable = requested (started 2 2 [] network network_made) (
    then_reconfigure (pair 50) (pair 7) (of_nat 500) (pos 0) true (no_request (start network))
      first_taken)

abbrev settled : World Rational
settled = world_of (proceed (invoke no_callback) configured)

links_set : proceed (invoke no_callback) configured ≡ ok settled
unfolding new_topology_manager reconfigure find put schedule_event proceed invoke
links_set = refl

-- The links are still being set when the second request comes.
abbrev again : World Rational
again = after (reconfigure (pair 10) (pair 7) (of_nat 500) (pos 1) configured)

second_taken : reconfigure (pair 10) (pair 7) (of_nat 500) (pos 1) configured ≡ ok (true, again)
unfolding new_topology_manager reconfigure find put schedule_event
second_taken = refl

abbrev message : Chunk
message = record {
  chunk_size = 1024;
  route = 0 ∷ 1 ∷ [];
  callback = 0;
  callback_arg = 0;
  topology_iteration = negsuc 0;
}

abbrev is_ok : {A : Type 0} → Outcome A → Bool
is_ok (ok a) = true
is_ok (fail e) = false

value_of : {A : Type 0} (o : Outcome A) → is_ok o ≡ true → (a : A) × (o ≡ ok a)
value_of (ok a) h = (a, refl)
value_of (fail e) h = cc

message_sends : is_ok (send message again) ≡ true
unfolding new_topology_manager reconfigure find put schedule_event send current_device next_device
    get_size
message_sends = refl

abbrev queued : World Rational
queued = (value_of (send message again) message_sends).0

message_sent : send message again ≡ ok queued
message_sent = (value_of (send message again) message_sends).1

again_busy : is_reconfiguring again ≡ true
unfolding new_topology_manager reconfigure find put schedule_event
again_busy = refl

Reachable-IsSound_example : IsSound (manager_of settled)
Reachable-IsSound_example =
    Reachable-IsSound no_callback no_callback-IsClient settled
      (proceeded configured-Reachable links_set)

send-Waits_example : Waits (pos (manager_of again).topology_iteration) message again queued
send-Waits_example =
    send-Waits no_callback no_callback-IsClient message again queued
      (requested configured-Reachable (
        then_reconfigure (pair 10) (pair 7) (of_nat 500) (pos 1) true (no_request configured)
          second_taken))
      again_busy refl message_sent

reconfigure-repeated_example :
    reconfigure (pair 10) (pair 9) (of_nat 700) (pos 0) configured ≡ ok (true, configured)
reconfigure-repeated_example =
    reconfigure-repeated (pair 50) (pair 7) (pair 10) (pair 9) (of_nat 500) (of_nat 700) (pos 0)
      (start network) configured first_taken

send-truncates_example :
    Device.send 0 (record message { route = 0 ∷ 1 ∷ 0 ∷ 1 ∷ [] }) settled
    ≡ Device.send 0 message settled
send-truncates_example =
    send-truncates 0 0 1 (0 ∷ 1 ∷ []) (record message { route = 0 ∷ 1 ∷ 0 ∷ 1 ∷ [] }) settled refl

line_square : has_width 4 line ≡ true
line_square = refl

precompute_routes-IsRoute_example :
    (table : List (List (List ℕ))) × (precompute_routes 4 line ≡ ok table)
    × ((s t : ℕ) → s < 4 → t < 4 → HasRoute line table s t)
precompute_routes-IsRoute_example =
    precompute_routes-IsRoute 4 line (omega arith) (omega arith) line_square
