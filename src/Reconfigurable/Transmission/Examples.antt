-- ===== src/Reconfigurable/Transmission/Examples.antt =====
-- Two devices with set links: a chunk that is sent, and one that waits.
use astra_network_analytical.Base.{List, [], ◌∷◌, ◌≡◌, refl, true, false, none, some, arith}
use astra_network_analytical.Base.Int.{pos}
use astra_network_analytical.Base.Maps.{find, find_or, put}
use astra_network_analytical.Double.{of_nat}
use astra_network_analytical.Double.Rational.{Rational, rational_double}
use astra_network_analytical.Reconfigurable.State.{Chunk, Device, Link, Network, with_device}
use astra_network_analytical.Reconfigurable.Chunk.{update_route}
use astra_network_analytical.Reconfigurable.Link.{
  set_free, serialization_delay, communication_delay,
}
use astra_network_analytical.Reconfigurable.Device
use astra_network_analytical.Reconfigurable.Manager.{become_free}
use astra_network_analytical.Reconfigurable.Events.{start}
use astra_network_analytical.Reconfigurable.Transmission.{
  CanTransmit, Departs, device_send-Departs, become_free-Departs,
}

abbrev link : Link Rational
link = record {
  bandwidth = of_nat 50;
  bandwidth_Bpns = of_nat 54;
  latency = of_nat 500;
  busy = false;
}

abbrev busy_link : Link Rational
busy_link = record link { busy = true }

abbrev chunk : Chunk
chunk = record {
  chunk_size = 1_080_000;
  route = 0 ∷ 1 ∷ [];
  callback = 0;
  callback_arg = 0;
  topology_iteration = pos 1;
}

abbrev device : Link Rational → List Chunk → Device Rational
device l chunks = record {
  device_id = 0;
  topology_iteration = 1;
  draining = true;
  links = (1, l) ∷ [];
  pending_chunks = (1, chunks) ∷ [];
  routes = (1, 0 ∷ 1 ∷ []) ∷ [];
}

abbrev with_link : Link Rational → List Chunk → Network Rational
with_link l chunks = record {
  manager = record {
    npus_count = 1;
    devices_count = 1;
    topology_iteration = 1;
    cur_topo_id = pos 0;
    reconfiguring = false;
    reconfig_time = none;
    topology = record { npus_count = 1; devices_count = 1; devices = device l chunks ∷ [] };
    bandwidths = [];
    latencies = [];
    precomputed_routes = [];
    circuit_schedules = [];
    inflight_coll = pos 0;
  };
  num_drained_links = 0;
  drain_all_flow = true;
}

can_transmit : CanTransmit link chunk 0 20500 20000
unfolding communication_delay serialization_delay
can_transmit = record {
  sized = omega arith;
  arrival = refl;
  release = refl;
  arrival_fits = omega arith;
  release_fits = omega arith;
}

can_resume : CanTransmit busy_link chunk 0 20500 20000
unfolding communication_delay serialization_delay
can_resume = record {
  sized = omega arith;
  arrival = refl;
  release = refl;
  arrival_fits = omega arith;
  release_fits = omega arith;
}

routed : find_or [] 1 (device link []).routes ≡ 0 ∷ 1 ∷ []
unfolding find
routed = refl

linked : find 1 (device link []).links ≡ some link
unfolding find
linked = refl

linked_busy : find 1 (device busy_link (chunk ∷ chunk ∷ [])).links ≡ some busy_link
unfolding find
linked_busy = refl

waiting : find_or [] 1 (device busy_link (chunk ∷ chunk ∷ [])).pending_chunks ≡ chunk ∷ chunk ∷ []
unfolding find
waiting = refl

device_send-Departs_example :
    Departs 0 1
      (device link [])
      link
      (update_route chunk (0 ∷ 1 ∷ []) (pos 1))
      20500
      20000
      (start (with_link link []))
      (Device.send 0 chunk (start (with_link link [])))
device_send-Departs_example =
    device_send-Departs 0 1 1 [] [] (device link []) link chunk (start (with_link link [])) 20500
      20000 refl refl refl routed linked refl tt can_transmit

become_free-Departs_example :
    Departs 0 1
      (record (device busy_link (chunk ∷ chunk ∷ [])) {
        links = put 1 (set_free busy_link) ((1, busy_link) ∷ []);
        pending_chunks = put 1 (chunk ∷ []) ((1, chunk ∷ chunk ∷ []) ∷ []);
      })
      (set_free busy_link)
      chunk
      20500
      20000
      (with_device
        (start (with_link busy_link (chunk ∷ chunk ∷ [])))
        0
        (record (device busy_link (chunk ∷ chunk ∷ [])) {
          links = put 1 (set_free busy_link) ((1, busy_link) ∷ []);
        }))
      (become_free 0 1 (start (with_link busy_link (chunk ∷ chunk ∷ []))))
become_free-Departs_example =
    become_free-Departs 0 1 (device busy_link (chunk ∷ chunk ∷ [])) busy_link chunk (chunk ∷ [])
      (start (with_link busy_link (chunk ∷ chunk ∷ []))) 20500 20000 refl linked_busy waiting refl
      tt can_resume
