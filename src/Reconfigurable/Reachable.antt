-- ===== src/Reconfigurable/Reachable.antt =====
-- The states of a run: what the client's requests and the events lead to from the constructor.
mod Examples
use astra_network_analytical.Base.{
  ℕ, zero, suc, ◌≡◌, ◌≤◌, ◌<◌, refl, sym, ◌∙◌, ap, subst, inl, inr, Bool, true, false, not, List,
  [], ◌∷◌, length, Option, none, some, get_elem?, if◌then◌else◌, Outcome, Error, ok, fail,
  assertion, ◌>>=◌, ◌>>◌, or_fail, arith, >>=-eq-ok, check-eq-ok, or_fail-eq-ok, ok-injective,
  if-eq-ok,
}
use astra_network_analytical.Base.Int.{ℤ}
use astra_network_analytical.Double.{Double}
use astra_network_analytical.EventQueue.{proceed}
use astra_network_analytical.EventQueue.States.{proceed-keeps}
use astra_network_analytical.Reconfigurable.State.{
  Chunk, TopologyManager, Network, Event, chunk_arrived_next_device, link_become_free, World,
}
use astra_network_analytical.Reconfigurable.Chunk.{
  mark_arrived_next_device, arrived_dest, current_device,
}
use astra_network_analytical.Reconfigurable.Device
use astra_network_analytical.Reconfigurable.Manager.{
  manager_of, set_cur_topo_id, set_reconfig_latency, set_inflight_coll, increment_callback,
  new_topology_manager, drain_network, reconfigure, reconfigure_to, find_schedule, send,
}
use astra_network_analytical.Reconfigurable.Events.{invoke, arrive_next_device, start}
use astra_network_analytical.Reconfigurable.Devices.{Kept, send-Kept}
use astra_network_analytical.Reconfigurable.Synced.{Kept-Steady}
use astra_network_analytical.Reconfigurable.Draining.{
  increment_callback-Steady, drain_network-Steady,
}
use astra_network_analytical.Reconfigurable.Requests.{send-Steady}
use astra_network_analytical.Reconfigurable.Initial.{new_topology_manager-IsSynced}
use astra_network_analytical.Reconfigurable.Sound.{
  IsSound, Steady-IsSound, reconfigure-IsSound, become_free-Steady,
}

module _ {W : Type 0} ⦃d : Double W⦄ where
  -- What a client does, one call after another: the public functions of the manager, and writing its
  -- public field.
  pub data Requests : World W → World W → Type 0 where
    no_request : (w : World W) → Requests w w
    then_send :
        {w v w' : World W} (chunk : Chunk) → Requests w v → send chunk v ≡ ok w' → Requests w w'
    then_reconfigure :
        {w v w' : World W} (bs ls : List (List W)) (time : W) (topo_id : ℤ) (answer : Bool)
        → Requests w v
        → reconfigure bs ls time topo_id v ≡ ok (answer, w')
        → Requests w w'
    then_reconfigure_to :
        {w v w' : World W} (topo_id : ℤ) (answer : Bool)
        → Requests w v
        → reconfigure_to topo_id v ≡ ok (answer, w')
        → Requests w w'
    then_drain : {w v w' : World W} → Requests w v → drain_network v ≡ ok w' → Requests w w'
    then_count : {w v w' : World W} → Requests w v → increment_callback v ≡ ok w' → Requests w w'
    then_set_inflight_coll :
        {w v : World W} (count : ℤ) → Requests w v → Requests w (set_inflight_coll v count)
    then_set_cur_topo_id :
        {w v : World W} (topo_id : ℤ) → Requests w v → Requests w (set_cur_topo_id v topo_id)
    then_set_reconfig_latency :
        {w v : World W} (latency : W) → Requests w v → Requests w (set_reconfig_latency v latency)

  pub Requests-IsSound :
      (w w' : World W) → Requests w w' → IsSound (manager_of w) → IsSound (manager_of w')
  unfolding reconfigure_to
  Requests-IsSound w w' (no_request _) s = s
  Requests-IsSound w w' (then_send {v = v} chunk before h) s =
      Steady-IsSound (manager_of v) (manager_of w') (send-Steady chunk v w' h)
        (Requests-IsSound w v before s)
  Requests-IsSound w w' (then_reconfigure {v = v} bs ls time topo_id answer before h) s =
      reconfigure-IsSound bs ls time topo_id answer v w' (Requests-IsSound w v before s) h
  Requests-IsSound w w' (then_reconfigure_to {v = v} topo_id answer before h) s =
      let (schedule, _, h₁) =
        >>=-eq-ok (or_fail Error.exited (find_schedule topo_id (manager_of v).circuit_schedules)) _
          h in
      let (time, _, h₂) = >>=-eq-ok (or_fail Error.undefined (manager_of v).reconfig_time) _ h₁ in
      reconfigure-IsSound schedule (manager_of v).latencies time topo_id answer v w'
        (Requests-IsSound w v before s) h₂
  Requests-IsSound w w' (then_drain {v = v} before h) s =
      Steady-IsSound (manager_of v) (manager_of w') (drain_network-Steady v w' h)
        (Requests-IsSound w v before s)
  Requests-IsSound w w' (then_count {v = v} before h) s =
      Steady-IsSound (manager_of v) (manager_of w') (increment_callback-Steady v w' h)
        (Requests-IsSound w v before s)
  Requests-IsSound w w' (then_set_inflight_coll {v = v} count before) s =
      Requests-IsSound w v before s
  Requests-IsSound w w' (then_set_cur_topo_id {v = v} topo_id before) s =
      Requests-IsSound w v before s
  Requests-IsSound w w' (then_set_reconfig_latency {v = v} latency before) s =
      Requests-IsSound w v before s

  module _ (client : ℕ → ℕ → World W → Outcome (World W)) where
    -- A callback of the client changes the simulation by requests alone.
    abbrev pub IsClient : Type 0
    IsClient = (callback arg : ℕ) (w w' : World W) → client callback arg w ≡ ok w' → Requests w w'

    pub data Reachable : World W → Type 0 where
      started :
          (npus_count devices_count : ℕ) (schedules : List (ℤ × List (List W)))
          (network : Network W)
          → new_topology_manager npus_count devices_count schedules ≡ ok network
          → Reachable (start network)
      requested : {w w' : World W} → Reachable w → Requests w w' → Reachable w'
      proceeded : {w w' : World W} → Reachable w → proceed (invoke client) w ≡ ok w' → Reachable w'

    module _ (is_client : IsClient) where
      invoke-IsSound :
          (event : Event) (w w' : World W)
          → IsSound (manager_of w)
          → invoke client event w ≡ ok w'
          → IsSound (manager_of w')
      unfolding invoke arrive_next_device
      invoke-IsSound (link_become_free i link_id) w w' s h =
          Steady-IsSound (manager_of w) (manager_of w') (become_free-Steady i link_id w w' h) s
      invoke-IsSound (chunk_arrived_next_device chunk) w w' s h =
          let (moved, _, h₁) = >>=-eq-ok (mark_arrived_next_device chunk) _ h in
          elim (if-eq-ok (arrived_dest moved) (client moved.callback moved.callback_arg w) _ h₁) [
            | inl (_, called) ↦
                Requests-IsSound w w' (is_client moved.callback moved.callback_arg w w' called) s
            | inr (_, h₂) ↦
                let (node, _, sent) = >>=-eq-ok (current_device moved) _ h₂ in
                Steady-IsSound (manager_of w) (manager_of w')
                  (Kept-Steady (manager_of w) (manager_of w') (send-Kept node moved w w' sent)) s
          ]

      -- In every state of a run the device at place p has id p, all devices have the iteration of the
      -- manager, or the one before it while the manager is reconfiguring, and, where some request was
      -- taken and there are at most 10 ^ 9 devices, every two devices have a shortest route over the
      -- bandwidths asked for last, or the two alone where there is none.
      pub Reachable-IsSound : (w : World W) → Reachable w → IsSound (manager_of w)
      Reachable-IsSound w (started npus_count n schedules network h) =
          let (synced, first) = new_topology_manager-IsSynced npus_count n schedules network h in
          (synced, λ few some_taken. absurd (omega (arith, first)))
      Reachable-IsSound w (requested {w = v} r asked) =
          Requests-IsSound v w asked (Reachable-IsSound v r)
      Reachable-IsSound w (proceeded {w = v} r h) =
          proceed-keeps (invoke client) (λ (s : Network W). IsSound s.manager) invoke-IsSound v w
            (Reachable-IsSound v r) h
