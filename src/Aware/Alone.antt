-- ===== src/Aware/Alone.antt =====
-- A chunk that is alone in the network: hop by hop, and the links that it leaves behind.
pub mod Hop
pub mod Moments
pub mod Flight
pub mod Built
pub mod Agreement
mod Tests
use astra_network_analytical.Base.{
  ℕ, zero, suc, ◌+◌, ◌*◌, ◌^◌, ◌≤◌, ◌<◌, ◌≡◌, ◌≢◌, refl, ap, sym, ◌∙◌, subst, inl, inr, ◌⊎◌, Bool,
  true, false, List, [], ◌∷◌, some, Bool-cases, ◌==◌, ◌&&◌, ◌||◌, if◌then◌else◌, Outcome, ok, arith,
}
use astra_network_analytical.Double.{Double}
use astra_network_analytical.EventQueue.Invariant.{IsValid}
use astra_network_analytical.EventQueue.Order.{entries}
use astra_network_analytical.Aware.State.{Chunk, Link, Device, World, link_at, set_link, with_link}
use astra_network_analytical.Aware.State.Laws.{link_at-set_link}
use astra_network_analytical.Aware.Link.{communication_delay, serialization_delay, set_busy}
use astra_network_analytical.Aware.Device
use astra_network_analytical.Aware.Transmission.{
  CanTransmit, with_events, schedule_events-entries, link_send-idle,
}
use astra_network_analytical.Aware.Progress.{HasIds, HasIds-set_link, IsPath}
use astra_network_analytical.Aware.Progress.Events.{IsSilent}
use astra_network_analytical.Aware.Progress.Send.{transmission_runs, device_send-link}

-- What a chunk that is alone meets: wires that lead from a device to another, the size of the
-- chunk, the same delays on every link, and a client that leaves the simulation as it is.
pub record Uniform (Wired : ℕ → ℕ → Type 0) (W : Type 0) ⦃d : Double W⦄ : Type 0 where
  pub no_loop : (x y : ℕ) → Wired x y → x ≢ y
  pub size : ℕ
  pub communication_time : ℕ
  pub serialization_time : ℕ
  pub some_size : 0 < size
  pub in_time : serialization_time ≤ communication_time
  pub client : ℕ → ℕ → World W → Outcome (World W)
  pub silent : IsSilent client

abbrev pub is_link : ℕ → ℕ → ℕ → ℕ → Bool
is_link i j a b = a == i && b == j

-- The wires, the size of the chunk, and its delays on every link.
module _ (Wired : ℕ → ℕ → Type 0) (size ct st : ℕ) {W : Type 0} ⦃d : Double W⦄ where
  abbrev pub HasDelays : Link W → Type 0
  HasDelays l = (communication_delay l size ≡ ok ct) × (serialization_delay l size ≡ ok st)

  -- Links with these delays wherever there is a wire, none with a chunk waiting, and none busy but
  -- where it may be.
  abbrev pub Quiet : (ℕ → ℕ → Bool) → List (Device W) → Type 0
  Quiet may ds =
      HasIds 0 ds
      × ((i j : ℕ) → Wired i j → (l : Link W) × (link_at ds i j ≡ some l))
      × ((i j : ℕ) (l : Link W)
          → link_at ds i j ≡ some l
          → HasDelays l × (l.pending_chunks ≡ []) × (may i j ≡ false → l.busy ≡ false))

  pub set_link-Quiet :
      (may may' : ℕ → ℕ → Bool) (ds : List (Device W)) (i j : ℕ) (old l : Link W)
      → link_at ds i j ≡ some old
      → HasDelays l
      → l.pending_chunks ≡ []
      → (may' i j ≡ false → l.busy ≡ false)
      → ((a b : ℕ) → is_link i j a b ≡ false → may' a b ≡ false → may a b ≡ false)
      → Quiet may ds
      → Quiet may' (set_link ds i j l)
  set_link-Quiet may may' ds i j old l at delays nothing busy other (ids, wired, links) = (
    HasIds-set_link 0 ds i j l ids,
    λ a b wire.
        let (m, there) = wired a b wire in
        elim (Bool-cases (is_link i j a b)) [
          | inl hit ↦ (l, link_at-set_link ds i j a b old l at ∙ rw hit refl)
          | inr miss ↦ (m, link_at-set_link ds i j a b old l at ∙ rw miss there)
        ],
    λ a b m there.
        let read = sym (link_at-set_link ds i j a b old l at) ∙ there in
        elim (Bool-cases (is_link i j a b)) [
          | inl hit ↦
              let same : l ≡ m = let e : some l ≡ some m = rw hit at read in cc in
              let here : a ≡ i = ground arith in
              let there' : b ≡ j = ground arith in
              subst
                (λ (x : Link W).
                  HasDelays x × (x.pending_chunks ≡ []) × (may' a b ≡ false → x.busy ≡ false))
                same
                (
                  delays,
                  nothing,
                  λ e.
                      busy (
                        subst (λ x. may' x j ≡ false) here
                          (subst (λ y. may' a y ≡ false) there' e)),
                )
          | inr miss ↦
              let (delays', nothing', busy') = links a b m (rw miss at read) in
              (delays', nothing', λ e. busy' (other a b miss e))
        ],
  )

  -- The chunk has left device i for device j at time t; besides its two events there are none.
  abbrev pub Flies : (ℕ → ℕ → Bool) → ℕ → ℕ → ℕ → List ℕ → Chunk → World W → Type 0
  Flies may t i j rest c w =
      (c.chunk_size ≡ size)
      × (c.route ≡ i ∷ j ∷ rest)
      × IsPath Wired (i ∷ j ∷ rest)
      × (w.queue.current_time ≡ t)
      × IsValid w.queue
      × Quiet may w.state.devices
      × (entries w.queue.event_queue ≡ with_events i j c (t + ct) (t + st) [])

  -- Sent over a link that is free, it flies.
  pub device_send-Flies :
      (may : ℕ → ℕ → Bool) (t i j : ℕ) (rest : List ℕ) (c : Chunk) (w : World W)
      → 0 < size
      → t + ct < 2 ^ 64
      → t + st < 2 ^ 64
      → c.chunk_size ≡ size
      → c.route ≡ i ∷ j ∷ rest
      → IsPath Wired (i ∷ j ∷ rest)
      → w.queue.current_time ≡ t
      → IsValid w.queue
      → Quiet may w.state.devices
      → may i j ≡ false
      → entries w.queue.event_queue ≡ []
      → (w' : World W) × (Device.send i c w ≡ ok w')
        × Flies (λ a b. is_link i j a b || may a b) t i j rest c w'
  unfolding communication_delay serialization_delay
  device_send-Flies may t i j rest c w some_size arrives frees sized route path now valid quiet free
        alone =
      let (ids, wired, links) = quiet in
      let (l, at) = wired i j path.0 in
      let (delays, nothing, idle_if) = links i j l at in
      let idle = idle_if free in
      let can : CanTransmit l i j c w.queue.current_time ct st = record {
        rest = rest;
        on_route = route;
        sized = omega (arith, sized);
        arrival = ap (communication_delay l) sized ∙ delays.0;
        release = ap (serialization_delay l) sized ∙ delays.1;
        arrival_fits = omega (arith, now);
        release_fits = omega (arith, now);
      } in
      let (q, scheduled, list, valid', same) =
        schedule_events-entries l i j c w.queue ct st valid can in
      (
        record (with_link w i j (set_busy l)) { queue = q },
        device_send-link i j rest c l w ids at route
            ∙ link_send-idle l i j c w at idle
            ∙ transmission_runs l i j c w q at idle scheduled,
        (
          sized,
          route,
          path,
          same ∙ now,
          valid',
          set_link-Quiet may (λ a b. is_link i j a b || may a b) w.state.devices i j l (set_busy l)
              at delays nothing (λ e. ground (arith, e)) (λ a b miss e. ground arith) quiet,
          list
              ∙ ap (λ n. with_events i j c (n + ct) (n + st) (entries w.queue.event_queue)) now
              ∙ ap (with_events i j c (t + ct) (t + st)) alone,
        ),
      )
