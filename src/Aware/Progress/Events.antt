-- ===== src/Aware/Progress/Events.antt =====
-- Events succeed: an arrival is delivered or forwarded, and a link that becomes free serves the
-- chunk that waits.
use astra_network_analytical.Base.{
  ℕ, ◌+◌, ◌^◌, ◌<◌, ◌≡◌, refl, ap, sym, ◌∙◌, subst, false, List, [], ◌∷◌, length, Option, some,
  none, All, ◌==◌, Outcome, ok, ◌>>=◌, arith, ==_refl, if_no,
}
use astra_network_analytical.Double.{Double}
use astra_network_analytical.Aware.State.{
  Chunk, Link, Event, chunk_arrived_next_device, link_become_free, World, link_at, with_link,
}
use astra_network_analytical.Aware.State.Laws.{link_at-set_link_self}
use astra_network_analytical.Aware.Chunk.{mark_arrived_next_device, arrived_dest, pop_front}
use astra_network_analytical.Aware.Link.{
  communication_delay, serialization_delay, become_free, set_free, pending_chunk_exists,
}
use astra_network_analytical.Aware.Device
use astra_network_analytical.Aware.Simulation.{arrive_next_device, invoke}
use astra_network_analytical.Aware.Transmission.{
  current_device-ok, without_first, become_free-waiting,
}
use astra_network_analytical.Aware.Protocol.{Agrees, FollowsProtocol, frees_due}
use astra_network_analytical.Aware.Progress.{Travels, IsReady, IsNetwork, set_link-IsNetwork}
use astra_network_analytical.Aware.Progress.Send.{
  IsFit, IsSteady, Succeeds, transmission-Succeeds, device_send-Succeeds,
}

mark_arrived-ok :
    (i j : ℕ) (rest : List ℕ) (c : Chunk)
    → c.route ≡ i ∷ j ∷ rest
    → mark_arrived_next_device c ≡ ok (record c { route = j ∷ rest })
unfolding mark_arrived_next_device
mark_arrived-ok i j rest c route =
    let longer : (length c.route == 1) ≡ false = ground (arith, ap length route) in
    rw longer
      (ap (λ (r : List ℕ). pop_front r >>= (λ (r' : List ℕ). ok (record c { route = r' }))) route)

module _ {W : Type 0} ⦃d : Double W⦄ where
  -- The link that an event is to free is there.
  freed_link :
      (i j : ℕ) (todo : List Event) (w : World W)
      → FollowsProtocol (link_become_free i j ∷ todo) w
      → (l : Link W) × (link_at w.state.devices i j ≡ some l)
  freed_link i j todo w p = find (link_at w.state.devices i j) refl
    where
      find :
          (o : Option (Link W))
          → link_at w.state.devices i j ≡ o
          → (l : Link W) × (link_at w.state.devices i j ≡ some l)
      find none e =
          let none_due : frees_due (link_become_free i j ∷ todo) w i j ≡ 0 =
            subst (λ o. Agrees o (frees_due (link_become_free i j ∷ todo) w i j)) e (p i j) in
          let one_due : 1 + frees_due todo w i j ≡ frees_due (link_become_free i j ∷ todo) w i j =
            rw (==_refl i, ==_refl j) (omega arith) in
          absurd (omega arith)
      find (some l) e = (l, e)

  pub become_free-idle :
      (l : Link W) (i j : ℕ) (w : World W)
      → link_at w.state.devices i j ≡ some l
      → l.pending_chunks ≡ []
      → become_free i j w ≡ ok (with_link w i j (set_free l))
  unfolding become_free
  become_free-idle l i j w at nothing =
      rw at (if_no (pending_chunk_exists l.pending_chunks) _ _ (ap pending_chunk_exists nothing))

  module _ (client : ℕ → ℕ → World W → Outcome (World W)) where
    -- The callback changes nothing of the simulation, as one that prints.
    abbrev pub IsSilent : Type 0
    IsSilent = (callback arg : ℕ) (w : World W) → client callback arg w ≡ ok w

    pub arrive-last :
        (i j : ℕ) (c : Chunk) (w : World W)
        → c.route ≡ i ∷ j ∷ []
        → arrive_next_device client c w ≡ client c.callback c.callback_arg w
    unfolding arrive_next_device
    arrive-last i j c w route = rw (mark_arrived-ok i j [] c route) refl

    pub arrive-forward :
        (i j next : ℕ) (rest : List ℕ) (c : Chunk) (w : World W)
        → c.route ≡ i ∷ j ∷ next ∷ rest
        → arrive_next_device client c w ≡ Device.send j (record c { route = j ∷ next ∷ rest }) w
    unfolding arrive_next_device
    arrive-forward i j next rest c w route =
        let moved : Chunk = record c { route = j ∷ next ∷ rest } in
        rw (mark_arrived-ok i j (next ∷ rest) c route) (
          if_no (arrived_dest moved) _ _ (ground arith)
          ∙ ap (λ (o : Outcome ℕ). o >>= (λ (node : ℕ). Device.send node moved w))
              (current_device-ok moved j (next ∷ rest) refl))

module _ (Wired : ℕ → ℕ → Type 0) (Sized : ℕ → Type 0) (longest end : ℕ) (in_range : end < 2 ^ 64)
    {W : Type 0} ⦃d : Double W⦄ where
  become_free-Succeeds :
      (k i j : ℕ) (l : Link W) (w : World W)
      → link_at w.state.devices i j ≡ some l
      → IsSteady Wired Sized longest end k w
      → Succeeds Wired Sized longest end k w (become_free i j w)
  unfolding communication_delay serialization_delay without_first
  become_free-Succeeds k i j l w at (valid, network, due, room) = serve l.pending_chunks refl
    where
      freed : World W
      freed = with_link w i j (set_free l)

      freed_at : link_at freed.state.devices i j ≡ some (set_free l)
      freed_at = link_at-set_link_self w.state.devices i j l (set_free l) at

      ready : IsReady Wired Sized longest i j l
      ready = network.2 i j l at

      released : IsNetwork Wired Sized longest freed.state.devices
      released =
          set_link-IsNetwork Wired Sized longest w.state.devices i j l (set_free l) at ready network

      serve :
          (cs : List Chunk)
          → l.pending_chunks ≡ cs
          → Succeeds Wired Sized longest end k w (become_free i j w)
      serve [] nothing = (
        freed,
        become_free-idle l i j w at nothing,
        (valid, released, due, room),
        refl,
        (freed.state.devices, refl),
      )
      serve (c ∷ cs) waits =
          let popped = without_first l cs in
          let (first, others) : All (Travels Wired Sized i j) (c ∷ cs) =
            subst (All (Travels Wired Sized i j)) waits ready.1 in
          subst (Succeeds Wired Sized longest end k w)
            (sym (become_free-waiting l i j c cs w at waits))
            (transmission-Succeeds Wired Sized longest end in_range k i j c popped
              (with_link freed i j popped)
              (link_at-set_link_self freed.state.devices i j (set_free l) popped freed_at) refl
              (ready.0, others) first
              (
                valid,
                set_link-IsNetwork Wired Sized longest freed.state.devices i j (set_free l) popped
                    freed_at (ready.0, others) released,
                due,
                room,
              ))

  module _ (client : ℕ → ℕ → World W → Outcome (World W)) where
    arrive-Succeeds :
        (k i j : ℕ) (c : Chunk) (w : World W)
        → IsSilent client
        → Travels Wired Sized i j c
        → IsSteady Wired Sized longest end k w
        → Succeeds Wired Sized longest end k w (arrive_next_device client c w)
    arrive-Succeeds k i j c w silent (sized, [], route, path) steady = (
      w,
      arrive-last client i j c w route ∙ silent c.callback c.callback_arg w,
      steady,
      refl,
      (w.state.devices, refl),
    )
    arrive-Succeeds k i j c w silent (sized, next ∷ rest, route, path) steady =
        let moved = record c { route = j ∷ next ∷ rest } in
        subst (Succeeds Wired Sized longest end k w)
          (sym (arrive-forward client i j next rest c w route))
          (device_send-Succeeds Wired Sized longest end in_range k j next moved w
            (sized, rest, refl, path.1) steady)

    pub invoke-Succeeds :
        (k : ℕ) (e : Event) (todo : List Event) (w : World W)
        → IsSilent client
        → IsFit Wired Sized longest end e
        → FollowsProtocol (e ∷ todo) w
        → IsSteady Wired Sized longest end k w
        → Succeeds Wired Sized longest end k w (invoke client e w)
    unfolding invoke
    invoke-Succeeds k (chunk_arrived_next_device c) todo w silent (i, j, travels) p steady =
        arrive-Succeeds k i j c w silent travels steady
    invoke-Succeeds k (link_become_free i j) todo w silent fit p steady =
        let (l, at) = freed_link i j todo w p in become_free-Succeeds k i j l w at steady
