-- ===== src/Aware/Alone/Moments.antt =====
-- The moments at which the events of a chunk that is alone come up.
use astra_network_analytical.Base.{
  ℕ, ◌+◌, ◌<◌, ◌≡◌, refl, ap, sym, ◌∙◌, subst, false, List, [], ◌∷◌, ◌||◌, ok, ◌>>=◌, arith,
}
use astra_network_analytical.Double.{Double}
use astra_network_analytical.EventQueue.{finished, invoke_events, proceed}
use astra_network_analytical.EventQueue.Invariant.{IsValid}
use astra_network_analytical.EventQueue.Order.{entries}
use astra_network_analytical.EventQueue.Front.{entries-more, proceed-one, proceed-two}
use astra_network_analytical.Aware.State.{Chunk, chunk_arrived_next_device, link_become_free, World}
use astra_network_analytical.Aware.Link.{become_free}
use astra_network_analytical.Aware.Simulation.{invoke, arrive_next_device}
use astra_network_analytical.Aware.Transmission.{with_events}
use astra_network_analytical.Aware.Alone.{Uniform, is_link}
use astra_network_analytical.Aware.Alone.Hop.{
  with_events-later, with_events-together, none_busy, Stage, Arrives, become_free-Quiet,
}

module _ (Wired : ℕ → ℕ → Type 0) {W : Type 0} ⦃d : Double W⦄ (net : Uniform Wired W) where
  pub apart :
      (t i j : ℕ) (rest : List ℕ) (c : Chunk) (w : World W)
      → net.serialization_time < net.communication_time
      → Stage Wired net t i j rest c w
      → (v u : World W) × (finished w.queue ≡ false)
        × (proceed (invoke net.client) w ≡ ok v)
        × (finished v.queue ≡ false)
        × (proceed (invoke net.client) v ≡ (arrive_next_device net.client c u >>= λ x. ok x))
        × Arrives Wired net none_busy (t + net.communication_time) u
  unfolding invoke_events invoke
  apart t i j rest c w before (sized, route, path, now, valid, quiet, list) =
      let list' =
        list
        ∙ with_events-later i j c (t + net.communication_time) (t + net.serialization_time)
            (omega (arith, before)) in
      let (ls, ordered, left, goes) =
        proceed-one (invoke net.client) w (t + net.serialization_time) (link_become_free i j)
          ((t + net.communication_time, chunk_arrived_next_device c) ∷ []) valid
          (omega (arith, before), tt) list' in
      let begun : World W = record w {
        queue = record { current_time = t + net.serialization_time; event_queue = ls };
      } in
      let (v, freed, same, quiet') =
        become_free-Quiet Wired net (λ a b. is_link i j a b || none_busy a b) none_busy i j begun
          path.0 (λ a b miss e. ground arith) quiet in
      let ordered' : IsValid v.queue = subst (λ q. IsValid q) (sym same) ordered in
      let left' : entries v.queue.event_queue
          ≡ (t + net.communication_time, chunk_arrived_next_device c) ∷ [] =
        ap (λ q. entries q.event_queue) same ∙ left in
      let (ls', ordered'', none_left, goes') =
        proceed-one (invoke net.client) v (t + net.communication_time) (chunk_arrived_next_device c)
          [] ordered' tt left' in
      (
        v,
        record v {
          queue = record { current_time = t + net.communication_time; event_queue = ls' };
        },
        entries-more w.queue.event_queue list',
        goes ∙ rw freed refl,
        entries-more v.queue.event_queue left',
        goes',
        (refl, ordered'', quiet', none_left),
      )

  pub together :
      (t i j : ℕ) (rest : List ℕ) (c : Chunk) (w : World W)
      → net.serialization_time ≡ net.communication_time
      → Stage Wired net t i j rest c w
      → (u : World W) × (finished w.queue ≡ false)
        × (proceed (invoke net.client) w
            ≡ (arrive_next_device net.client c u >>= λ x. become_free i j x >>= λ y. ok y))
        × Arrives Wired net (λ a b. is_link i j a b || none_busy a b) (t + net.communication_time) u
  unfolding invoke_events invoke
  together t i j rest c w same (sized, route, path, now, valid, quiet, list) =
      let list' =
        list
        ∙ ap (λ n. with_events i j c (t + net.communication_time) (t + n) []) same
        ∙ with_events-together i j c (t + net.communication_time) in
      let (ls, ordered, left, goes) =
        proceed-two (invoke net.client) w (t + net.communication_time) (chunk_arrived_next_device c)
          (link_become_free i j) valid list' in
      (
        record w { queue = record { current_time = t + net.communication_time; event_queue = ls } },
        entries-more w.queue.event_queue list',
        goes,
        (refl, ordered, quiet, left),
      )
