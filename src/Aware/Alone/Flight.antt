-- ===== src/Aware/Alone/Flight.antt =====
-- The time that a chunk takes when it is alone in the network.
use native.Mathlib.Decide.{ℕ_discrete}
use astra_network_analytical.Base.{
  ℕ, zero, suc, ◌+◌, ◌*◌, ◌^◌, ◌≤◌, ◌<◌, ◌≡◌, refl, ap, sym, ◌∙◌, subst, true, List, [], ◌∷◌,
  length, ◌||◌, ok, arith,
}
use astra_network_analytical.Double.{Double}
use astra_network_analytical.EventQueue.{finished, run}
use astra_network_analytical.EventQueue.Invariant.{IsValid}
use astra_network_analytical.EventQueue.Order.{entries}
use astra_network_analytical.EventQueue.Front.{finished-entries, entries-finished}
use astra_network_analytical.Aware.State.{Chunk, World}
use astra_network_analytical.Aware.Simulation.{invoke}
use astra_network_analytical.Aware.Progress.Send.{topology_send-device}
use astra_network_analytical.Aware.Progress.{IsPath}
use astra_network_analytical.Aware.Progress.Events.{arrive-last}
use astra_network_analytical.Aware.Alone.{Uniform, is_link, device_send-Flies}
use astra_network_analytical.Aware.Topology
use astra_network_analytical.Aware.Alone.Hop.{
  none_busy, QuietFor, Stage, become_free-Quiet, arrive-Flies, run_proceeds, run-finished,
}
use astra_network_analytical.Aware.Alone.Moments.{apart, together}

module _ (Wired : ℕ → ℕ → Type 0) {W : Type 0} ⦃d : Double W⦄ (net : Uniform Wired W) where
  -- The last hop ends the run.
  hop_last :
      (t i j : ℕ) (c : Chunk) (w : World W)
      → Stage Wired net t i j [] c w
      → (w' : World W) × (finished w'.queue ≡ true)
        × (w'.queue.current_time ≡ t + net.communication_time)
        × ((fuel : ℕ) → run (invoke net.client) (suc (suc fuel)) w ≡ ok w')
  hop_last t i j c w stage = elim (ℕ_discrete net.serialization_time net.communication_time) [
    | yes same ↦
        let (u, more, goes, (now, valid, quiet, alone)) =
          together Wired net t i j [] c w same stage in
        let arrived =
          arrive-last net.client i j c u stage.1 ∙ net.silent c.callback c.callback_arg u in
        let (x, freed, kept, _) =
          become_free-Quiet Wired net (λ a b. is_link i j a b || none_busy a b) none_busy i j u
            stage.2.0 (λ a b miss e. ground arith) quiet in
        let done : finished x.queue ≡ true =
          ap (λ q. finished q) kept
          ∙ entries-finished u.queue.current_time u.queue.event_queue valid alone in
        (
          x,
          done,
          ap (λ q. q.current_time) kept ∙ now,
          λ fuel.
              run_proceeds Wired net (suc fuel) w x more (goes ∙ rw arrived (rw freed refl))
              ∙ run-finished Wired net (suc fuel) x done,
        )
    | no differ ↦
        let (v, u, more, goes, more', goes', (now, valid, quiet, alone)) =
          apart Wired net t i j [] c w (omega (arith, differ, net.in_time)) stage in
        let arrived =
          arrive-last net.client i j c u stage.1 ∙ net.silent c.callback c.callback_arg u in
        let done = entries-finished u.queue.current_time u.queue.event_queue valid alone in
        (
          u,
          done,
          now,
          λ fuel.
              run_proceeds Wired net (suc fuel) w v more goes
              ∙ run_proceeds Wired net fuel v u more' (goes' ∙ rw arrived refl)
              ∙ run-finished Wired net fuel u done,
        )
  ]

  -- Another hop leads to the next, one communication time later, and takes two units of fuel at
  -- most.
  hop_next :
      (t i j k : ℕ) (rest : List ℕ) (c : Chunk) (w : World W)
      → t + net.communication_time + net.communication_time < 2 ^ 64
      → Stage Wired net t i j (k ∷ rest) c w
      → (w' : World W) × Stage Wired net
          (t + net.communication_time)
          j
          k
          rest
          (record c { route = j ∷ k ∷ rest })
          w'
        × ((fuel : ℕ)
            → (left : ℕ) × (fuel ≤ left)
              × (run (invoke net.client) (suc (suc fuel)) w ≡ run (invoke net.client) left w'))
  hop_next t i j k rest c w fits stage =
      elim (ℕ_discrete net.serialization_time net.communication_time) [
        | yes same ↦
            let differ = net.no_loop i j stage.2.0 in
            let (u, more, goes, arrives) = together Wired net t i j (k ∷ rest) c w same stage in
            let (x, forwarded, (sized, route, path, now, valid, quiet, list)) =
              arrive-Flies Wired net (λ a b. is_link i j a b || none_busy a b)
                (t + net.communication_time) i j k rest c u fits stage.0 stage.1 stage.2
                (ground (arith, differ)) arrives in
            let (y, freed, kept, quiet') =
              become_free-Quiet Wired net
                (λ a b. is_link j k a b || (is_link i j a b || none_busy a b))
                (λ a b. is_link j k a b || none_busy a b) i j x stage.2.0
                (λ a b miss e. ground arith) quiet in
            (
              y,
              (
                sized,
                route,
                path,
                ap (λ q. q.current_time) kept ∙ now,
                subst (λ q. IsValid q) (sym kept) valid,
                quiet',
                ap (λ q. entries q.event_queue) kept ∙ list,
              ),
              λ fuel. (
                suc fuel,
                omega arith,
                run_proceeds Wired net (suc fuel) w y more (goes ∙ rw forwarded (rw freed refl)),
              ),
            )
        | no differ ↦
            let (v, u, more, goes, more', goes', arrives) =
              apart Wired net t i j (k ∷ rest) c w (omega (arith, differ, net.in_time)) stage in
            let (x, forwarded, flies) =
              arrive-Flies Wired net none_busy (t + net.communication_time) i j k rest c u fits
                stage.0 stage.1 stage.2 refl arrives in
            (
              x,
              flies,
              λ fuel. (
                fuel,
                omega arith,
                run_proceeds Wired net (suc fuel) w v more goes
                    ∙ run_proceeds Wired net fuel v x more' (goes' ∙ rw forwarded refl),
              ),
            )
      ]

  flight :
      (rest : List ℕ) (fuel t i j : ℕ) (c : Chunk) (w : World W)
      → 2 * suc (length rest) ≤ fuel
      → t + net.communication_time * suc (length rest) < 2 ^ 64
      → Stage Wired net t i j rest c w
      → (w' : World W) × (run (invoke net.client) fuel w ≡ ok w')
        × (finished w'.queue ≡ true)
        × (w'.queue.current_time ≡ t + net.communication_time * suc (length rest))
  flight rest zero t i j c w fed fits stage = absurd (omega arith)
  flight rest (suc zero) t i j c w fed fits stage = absurd (omega arith)
  flight [] (suc (suc fuel)) t i j c w fed fits stage =
      let (w', done, now, runs) = hop_last t i j c w stage in
      (w', runs fuel, done, omega (arith, now))
  flight (k ∷ rest) (suc (suc fuel)) t i j c w fed fits stage =
      let (v, stage', runs) = hop_next t i j k rest c w (omega arith) stage in
      let (left, enough, same) = runs fuel in
      let (w', ran, done, now) =
        flight rest left (t + net.communication_time) j k (record c { route = j ∷ k ∷ rest }) v
          (omega (arith, enough)) (omega arith) stage' in
      (w', same ∙ ran, done, omega (arith, now))

  -- A chunk that is sent over a route of wires, through a network in which no other chunk waits or
  -- is on its way, and all links have the same delays for it, arrives at the last device after
  -- exactly as many communication delays as its route has hops: the send succeeds, the run that
  -- follows ends with the queue empty, with two units of fuel for each hop, and the clock is at the
  -- time of the send and the communication time for each hop. The serialization delay is at most
  -- the communication delay, no wire leads from a device to itself, the callback changes nothing,
  -- and the time is within the range of the clock.
  pub topology_send-alone :
      (i j fuel : ℕ) (rest : List ℕ) (c : Chunk) (w : World W)
      → c.chunk_size ≡ net.size
      → c.route ≡ i ∷ j ∷ rest
      → IsPath Wired (i ∷ j ∷ rest)
      → i < w.state.devices_count
      → IsValid w.queue
      → finished w.queue ≡ true
      → QuietFor Wired net none_busy w
      → w.queue.current_time + net.communication_time * suc (length rest) < 2 ^ 64
      → 2 * suc (length rest) ≤ fuel
      → (sent w' : World W) × (Topology.send c w ≡ ok sent)
        × (run (invoke net.client) fuel sent ≡ ok w')
        × (finished w'.queue ≡ true)
        × (w'.queue.current_time
            ≡ w.queue.current_time + net.communication_time * suc (length rest))
  topology_send-alone i j fuel rest c w sized route path low valid empty quiet fits fed =
      let now = w.queue.current_time in
      let (sent, goes, flies) =
        device_send-Flies Wired net.size net.communication_time net.serialization_time none_busy now
          i j rest c w net.some_size (omega arith) (omega (arith, net.in_time)) sized route path
          refl valid quiet refl (finished-entries w.queue.event_queue empty) in
      let (w', ran, done, later) = flight rest fuel now i j c sent fed fits flies in
      (sent, w', topology_send-device i (j ∷ rest) c w low route ∙ goes, ran, done, later)
