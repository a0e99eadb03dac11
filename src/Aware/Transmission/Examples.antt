-- ===== src/Aware/Transmission/Examples.antt =====
-- A chunk on a free link, and one that waits at a link that becomes free.
use astra_network_analytical.Base.{refl, true, [], ◌∷◌, ◌≡◌, some, arith}
use astra_network_analytical.Double.Rational.{Rational, rational_double}
use astra_network_analytical.Aware.State.{Chunk, Link, World, link_at}
use astra_network_analytical.Aware.Link
use astra_network_analytical.Aware.Link.{
  serialization_delay, communication_delay, set_busy, become_free,
}
use astra_network_analytical.Aware.Simulation.{start}
use astra_network_analytical.Aware.Transmission.{
  CanTransmit, Transmits, link_send-Transmits, become_free-Transmits,
}
use astra_network_analytical.Aware.Examples.{link, between}

abbrev chunk : Chunk
chunk = record { chunk_size = 1_080_000; route = 0 ∷ 1 ∷ 0 ∷ []; callback = 0; callback_arg = 0 }

-- The chunk waits twice.
abbrev busy_link : Link Rational
busy_link = record link { busy = true; pending_chunks = chunk ∷ chunk ∷ [] }

abbrev free : World Rational
free = start (between link)

abbrev crowded : World Rational
crowded = start (between busy_link)

link_free : link_at free.state.devices 0 1 ≡ some link
unfolding link_at
link_free = refl

link_busy : link_at crowded.state.devices 0 1 ≡ some busy_link
unfolding link_at
link_busy = refl

can_send : CanTransmit link 0 1 chunk 0 20500 20000
unfolding communication_delay serialization_delay
can_send = record {
  rest = 0 ∷ [];
  on_route = refl;
  sized = omega arith;
  arrival = refl;
  release = refl;
  arrival_fits = omega arith;
  release_fits = omega arith;
}

can_resume : CanTransmit busy_link 0 1 chunk 0 20500 20000
unfolding communication_delay serialization_delay
can_resume = record {
  rest = 0 ∷ [];
  on_route = refl;
  sized = omega arith;
  arrival = refl;
  release = refl;
  arrival_fits = omega arith;
  release_fits = omega arith;
}

link_send-Transmits_example :
    Transmits 0 1 chunk 20500 20000 (set_busy link) free (Link.send 0 1 chunk free)
link_send-Transmits_example =
    link_send-Transmits link 0 1 chunk free 20500 20000 link_free refl tt can_send

become_free-Transmits_example :
    Transmits 0 1 chunk 20500 20000
      (record link { busy = true; pending_chunks = chunk ∷ [] })
      crowded
      (become_free 0 1 crowded)
become_free-Transmits_example =
    become_free-Transmits busy_link 0 1 chunk (chunk ∷ []) crowded 20500 20000 link_busy refl tt
      can_resume
