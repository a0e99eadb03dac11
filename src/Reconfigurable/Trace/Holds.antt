-- ===== src/Reconfigurable/Trace/Holds.antt =====
-- What the events, the sends and further requests of a trace leave as it is: the topology of the manager.
use astra_network_analytical.Base.{
  ℕ, zero, suc, ◌≡◌, ap, sym, subst, inl, inr, true, not, ◌&&◌, List, Bool-cases, ok, fail,
  unfinished, >>=-eq-ok, ok-injective, if-eq-ok, if_yes,
}
use astra_network_analytical.Base.Int.{pos, eqb_ℤ}
use astra_network_analytical.Double.{Double}
use astra_network_analytical.EventQueue.{finished, proceed}
use astra_network_analytical.EventQueue.States.{proceed-keeps}
use astra_network_analytical.Reconfigurable.State.{
  TopologyManager, Network, Event, chunk_arrived_next_device, link_become_free, World,
}
use astra_network_analytical.Reconfigurable.Chunk.{
  mark_arrived_next_device, arrived_dest, current_device, new_chunk,
}
use astra_network_analytical.Reconfigurable.Manager.{
  manager_of, reconfigure, is_reconfiguring, route,
}
use astra_network_analytical.Reconfigurable.Devices.{send-Kept}
use astra_network_analytical.Reconfigurable.Synced.{Steady, Kept-Steady}
use astra_network_analytical.Reconfigurable.Requests.{send-Steady}
use astra_network_analytical.Reconfigurable.Sound.{become_free-Steady}
use astra_network_analytical.Reconfigurable.Events.{invoke, arrive_next_device}
use astra_network_analytical.Reconfigurable.Example.{chunk_arrived_callback, send_one}
use astra_network_analytical.Reconfigurable.Trace.{
  Trace, Progress, going, returned, wait_reconfigured,
}

module _ {W : Type 0} where
  abbrev pub trace_of : Progress W → Trace W
  trace_of (going s) = s
  trace_of (returned s) = s

  -- The topology with the id that the traces ask for is the manager's, as it was taken.
  pub record IsTopology (bandwidths latencies : List (List W)) (routes : List (List (List ℕ)))
      (iteration : ℕ) (m : TopologyManager W) : Type 0 where
    pub id : m.cur_topo_id ≡ pos 0
    pub same_bandwidths : m.bandwidths ≡ bandwidths
    pub same_latencies : m.latencies ≡ latencies
    pub same_routes : m.precomputed_routes ≡ routes
    pub same_iteration : m.topology_iteration ≡ iteration

module _ {W : Type 0} ⦃d : Double W⦄ (bandwidths latencies : List (List W))
    (routes : List (List (List ℕ))) (iteration : ℕ) where
  abbrev pub Holds : TopologyManager W → Type 0
  Holds m = IsTopology bandwidths latencies routes iteration m

  Steady-Holds : (m m' : TopologyManager W) → Steady m m' → Holds m → Holds m'
  Steady-Holds m m' (ds, b, e, _) h = subst Holds (sym e) (record {
    id = h.id;
    same_bandwidths = h.same_bandwidths;
    same_latencies = h.same_latencies;
    same_routes = h.same_routes;
    same_iteration = h.same_iteration;
  })

  invoke-Holds :
      (event : Event) (w w' : World W)
      → Holds (manager_of w)
      → invoke chunk_arrived_callback event w ≡ ok w'
      → Holds (manager_of w')
  unfolding invoke arrive_next_device
  invoke-Holds (link_become_free i link_id) w w' p h =
      Steady-Holds (manager_of w) (manager_of w') (become_free-Steady i link_id w w' h) p
  invoke-Holds (chunk_arrived_next_device chunk) w w' p h =
      let (moved, _, h₁) = >>=-eq-ok (mark_arrived_next_device chunk) _ h in
      elim (if-eq-ok (arrived_dest moved) (ok w) _ h₁) [
        | inl (_, same) ↦ subst (λ (x : World W). Holds (manager_of x)) (ok-injective same) p
        | inr (_, h₂) ↦
            let (node, _, sent) = >>=-eq-ok (current_device moved) _ h₂ in
            Steady-Holds (manager_of w) (manager_of w')
              (Kept-Steady (manager_of w) (manager_of w') (send-Kept node moved w w' sent)) p
      ]

  pub wait-Holds :
      (fuel : ℕ) (w w' : World W)
      → Holds (manager_of w)
      → wait_reconfigured fuel w ≡ ok w'
      → Holds (manager_of w')
  unfolding wait_reconfigured
  wait-Holds zero w w' p h =
      elim (if-eq-ok (is_reconfiguring w && not (finished w.queue)) (fail unfinished) (ok w) h) [
        | inl (_, never) ↦ cc
        | inr (_, same) ↦ subst (λ (x : World W). Holds (manager_of x)) (ok-injective same) p
      ]
  wait-Holds (suc fuel) w w' p h =
      elim (Bool-cases (is_reconfiguring w && not (finished w.queue))) [
        | inl waits ↦
            let (v, went, rest) =
              >>=-eq-ok (proceed (invoke chunk_arrived_callback) w) (wait_reconfigured fuel)
                (rw (waits, wait_reconfigured) at h) in
            wait-Holds fuel v w'
              (proceed-keeps (invoke chunk_arrived_callback) (λ (s : Network W). Holds s.manager)
                invoke-Holds w v p went)
              rest
        | inr ready ↦
            subst (λ (x : World W). Holds (manager_of x))
              (ok-injective (rw (ready, wait_reconfigured) at h)) p
      ]

  pub send_one-Holds :
      (size i j : ℕ) (w w' : World W)
      → Holds (manager_of w)
      → send_one size i j w ≡ ok w'
      → Holds (manager_of w')
  unfolding send_one
  send_one-Holds size i j w w' p h =
      let (way, _, h₁) = >>=-eq-ok (route w i j) _ h in
      let (chunk, _, sent) = >>=-eq-ok (new_chunk size way 0 0 _) _ h₁ in
      Steady-Holds (manager_of w) (manager_of w') (send-Steady chunk w w' sent) p

  pub reconfigure-current :
      (bs ls : List (List W)) (time : W) (w : World W)
      → Holds (manager_of w)
      → reconfigure bs ls time (pos 0) w ≡ ok (true, w)
  unfolding reconfigure
  reconfigure-current bs ls time w p =
      if_yes (eqb_ℤ (pos 0) (manager_of w).cur_topo_id) _ _ (ap (eqb_ℤ (pos 0)) p.id)
