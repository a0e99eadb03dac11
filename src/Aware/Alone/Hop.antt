-- ===== src/Aware/Alone/Hop.antt =====
-- One hop of a chunk that is alone, and all of them: `proceed` by `proceed`.
use astra_network_analytical.Base.{
  ℕ, zero, suc, ◌+◌, ◌^◌, ◌<◌, ◌≡◌, refl, ◌∙◌, Bool, true, false, List, [], ◌∷◌, ◌||◌, leb, ok,
  arith, if_no,
}
use astra_network_analytical.Double.{Double}
use astra_network_analytical.EventQueue.{finished, proceed, run}
use astra_network_analytical.EventQueue.Invariant.{IsValid}
use astra_network_analytical.EventQueue.Order.{entries, insert_stable}
use astra_network_analytical.Aware.State.{
  Chunk, chunk_arrived_next_device, link_become_free, World, with_link,
}
use astra_network_analytical.Aware.Link.{
  become_free, set_free, communication_delay, serialization_delay,
}
use astra_network_analytical.Aware.Simulation.{invoke, arrive_next_device}
use astra_network_analytical.Aware.Transmission.{with_events}
use astra_network_analytical.Aware.Progress.{IsPath}
use astra_network_analytical.Aware.Progress.Events.{become_free-idle, arrive-forward}
use astra_network_analytical.Aware.Alone.{
  Uniform, is_link, Quiet, set_link-Quiet, Flies, device_send-Flies,
}

pub with_events-later :
    (i j : ℕ) (c : Chunk) (arrives frees : ℕ)
    → frees < arrives
    → with_events i j c arrives frees []
      ≡ (frees, link_become_free i j) ∷ (arrives, chunk_arrived_next_device c) ∷ []
unfolding insert_stable
with_events-later i j c arrives frees h = if_no (leb arrives frees) _ _ (ground arith)

pub with_events-together :
    (i j : ℕ) (c : Chunk) (t : ℕ)
    → with_events i j c t t [] ≡ (t, chunk_arrived_next_device c) ∷ (t, link_become_free i j) ∷ []
unfolding insert_stable
with_events-together i j c t = let same : leb t t ≡ true = ground arith in rw same refl

abbrev pub none_busy : ℕ → ℕ → Bool
none_busy a b = false

module _ (Wired : ℕ → ℕ → Type 0) {W : Type 0} ⦃d : Double W⦄ (net : Uniform Wired W) where
  abbrev pub QuietFor : (ℕ → ℕ → Bool) → World W → Type 0
  QuietFor may w =
      Quiet Wired net.size net.communication_time net.serialization_time may w.state.devices

  -- The link from i to j becomes free; no other link changes, nor the queue.
  pub become_free-Quiet :
      (may may' : ℕ → ℕ → Bool) (i j : ℕ) (w : World W)
      → Wired i j
      → ((a b : ℕ) → is_link i j a b ≡ false → may' a b ≡ false → may a b ≡ false)
      → QuietFor may w
      → (w' : World W) × (become_free i j w ≡ ok w') × (w'.queue ≡ w.queue) × QuietFor may' w'
  unfolding communication_delay serialization_delay
  become_free-Quiet may may' i j w wire others quiet =
      let (l, at) = quiet.1 i j wire in
      let (delays, nothing, _) = quiet.2 i j l at in
      (
        with_link w i j (set_free l),
        become_free-idle l i j w at nothing,
        refl,
        set_link-Quiet Wired net.size net.communication_time net.serialization_time may may'
            w.state.devices i j l (set_free l) at delays nothing (λ e. refl) others quiet,
      )

  -- The chunk is on its way from i to j since t, and no link but that may be busy.
  abbrev pub Stage : ℕ → ℕ → ℕ → List ℕ → Chunk → World W → Type 0
  Stage t i j rest c w =
      Flies Wired net.size net.communication_time net.serialization_time
        (λ a b. is_link i j a b || none_busy a b) t i j rest c w

  -- The time at which the arrival is the next event, with the links quiet but for these.
  abbrev pub Arrives : (ℕ → ℕ → Bool) → ℕ → World W → Type 0
  Arrives may t w =
      (w.queue.current_time ≡ t)
      × IsValid w.queue
      × QuietFor may w
      × (entries w.queue.event_queue ≡ [])

  -- The next hop begins.
  pub arrive-Flies :
      (may : ℕ → ℕ → Bool) (t i j k : ℕ) (rest : List ℕ) (c : Chunk) (w : World W)
      → t + net.communication_time < 2 ^ 64
      → c.chunk_size ≡ net.size
      → c.route ≡ i ∷ j ∷ k ∷ rest
      → IsPath Wired (i ∷ j ∷ k ∷ rest)
      → may j k ≡ false
      → Arrives may t w
      → (w' : World W) × (arrive_next_device net.client c w ≡ ok w')
        × Flies Wired net.size net.communication_time net.serialization_time
            (λ a b. is_link j k a b || may a b)
            t
            j
            k
            rest
            (record c { route = j ∷ k ∷ rest })
            w'
  arrive-Flies may t i j k rest c w fits sized route path free (now, valid, quiet, alone) =
      let moved : Chunk = record c { route = j ∷ k ∷ rest } in
      let (w', sent, flies) =
        device_send-Flies Wired net.size net.communication_time net.serialization_time may t j k
          rest moved w net.some_size fits (omega arith) sized refl path.1 now valid quiet free
          alone in
      (w', arrive-forward net.client i j k rest c w route ∙ sent, flies)

  pub run_proceeds :
      (fuel : ℕ) (w v : World W)
      → finished w.queue ≡ false
      → proceed (invoke net.client) w ≡ ok v
      → run (invoke net.client) (suc fuel) w ≡ run (invoke net.client) fuel v
  unfolding run
  run_proceeds fuel w v more went = rw (more, run) (rw went refl)

  pub run-finished :
      (fuel : ℕ) (w : World W) → finished w.queue ≡ true → run (invoke net.client) fuel w ≡ ok w
  unfolding run
  run-finished zero w done = rw done refl
  run-finished (suc fuel) w done = rw (done, run) refl
