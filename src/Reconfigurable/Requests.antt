-- ===== src/Reconfigurable/Requests.antt =====
-- The requests of a client: `reconfigure` and `send` of the manager.
use astra_network_analytical.Base.{
  ℕ, ◌≡◌, refl, sym, ◌∙◌, ap, subst, ◌⊎◌, inl, inr, Bool, true, false, ◌||◌, List, length, ltb,
  ◌==◌, ok, assertion, arith, >>=-eq-ok, check-eq-ok, ok-injective, if-eq-ok,
}
use astra_network_analytical.Base.Int.{ℤ, pos, negsuc, ltb_ℤ, eqb_ℤ}
use astra_network_analytical.Double.{Double}
use astra_network_analytical.Reconfigurable.State.{Chunk, TopologyManager, World}
use astra_network_analytical.Reconfigurable.Chunk.{current_device, next_device}
use astra_network_analytical.Reconfigurable.Routes.{has_width, precompute_routes}
use astra_network_analytical.Reconfigurable.Manager.{
  manager_of, with_manager, accept_request, reconfigure, drain_network, with_route, send,
}
use astra_network_analytical.Reconfigurable.Devices.{topology_send-Kept}
use astra_network_analytical.Reconfigurable.Synced.{IsSynced, Steady, Kept-Steady}
use astra_network_analytical.Reconfigurable.Draining.{drain_network-Steady}

module _ {W : Type 0} ⦃d : Double W⦄ where
  -- A request that is taken: what it was checked for, and what draining then does.
  abbrev pub IsTaken : List (List W) → List (List W) → W → ℤ → World W → World W → Type 0
  IsTaken bs ls time topo_id w w' =
      (manager_of w).reconfiguring ≡ false
      × (length bs ≡ (manager_of w).devices_count)
      × (has_width (manager_of w).devices_count bs ≡ true)
      × (routes : List (List (List ℕ))) × (precompute_routes (manager_of w).devices_count bs
          ≡ ok routes)
      × Steady (accept_request (manager_of w) bs ls time topo_id routes) (manager_of w')

  pub reconfigure-cases :
      (bs ls : List (List W)) (time : W) (topo_id : ℤ) (b : Bool) (w w' : World W)
      → reconfigure bs ls time topo_id w ≡ ok (b, w')
      → (w ≡ w') × (eqb_ℤ topo_id (manager_of w).cur_topo_id ≡ b)
        ⊎ (b ≡ true) × IsTaken bs ls time topo_id w w'
  unfolding reconfigure
  reconfigure-cases bs ls time topo_id b w w' h =
      let m = manager_of w in
      elim (if-eq-ok (eqb_ℤ topo_id m.cur_topo_id) (ok (true, w)) _ h) [
        | inl (same_id, same) ↦
            let pair = ok-injective same in
            inl (
              ap (λ (p : Bool × World W). p.1) pair,
              same_id ∙ ap (λ (p : Bool × World W). p.0) pair,
            )
        | inr (other_id, h₁) ↦
            elim (if-eq-ok (m.reconfiguring || ltb_ℤ (pos 0) m.inflight_coll) (ok (false, w)) _
              h₁) [
                | inl (_, same) ↦
                    let pair = ok-injective same in
                    inl (
                      ap (λ (p : Bool × World W). p.1) pair,
                      other_id ∙ ap (λ (p : Bool × World W). p.0) pair,
                    )
                | inr (idle, h₂) ↦
                    let (tall, h₃) = check-eq-ok (length bs == m.devices_count) assertion _ h₂ in
                    let (_, h₄) = check-eq-ok (length ls == m.devices_count) assertion _ h₃ in
                    let (wide, h₅) = check-eq-ok (has_width m.devices_count bs) assertion _ h₄ in
                    let (_, h₆) = check-eq-ok (has_width m.devices_count ls) assertion _ h₅ in
                    let (routes, found, h₇) =
                      >>=-eq-ok (precompute_routes m.devices_count bs) _ h₆ in
                    let (v, drained, made) =
                      >>=-eq-ok
                        (drain_network
                          (with_manager w (accept_request m bs ls time topo_id routes)))
                        _ h₇ in
                    let pair = ok-injective made in
                    inr (
                      ap (λ (p : Bool × World W). p.0) (sym pair),
                      (
                        ground arith,
                        ground arith,
                        wide,
                        routes,
                        found,
                        subst
                            (λ (x : World W).
                              Steady (accept_request m bs ls time topo_id routes) (manager_of x))
                            (ap (λ (p : Bool × World W). p.1) pair)
                            (drain_network-Steady
                              (with_manager w (accept_request m bs ls time topo_id routes)) v
                              drained),
                      ),
                    )
              ]
      ]

  -- Once a request for an id is taken, or was the last one taken, a request for the same id changes
  -- nothing and is answered with true, whatever bandwidths, latencies and time it has.
  pub reconfigure-repeated :
      (bs ls bs' ls' : List (List W)) (time time' : W) (topo_id : ℤ) (w w' : World W)
      → reconfigure bs ls time topo_id w ≡ ok (true, w')
      → reconfigure bs' ls' time' topo_id w' ≡ ok (true, w')
  unfolding reconfigure
  reconfigure-repeated bs ls bs' ls' time time' topo_id w w' h =
      let current : eqb_ℤ topo_id (manager_of w').cur_topo_id ≡ true =
        elim (reconfigure-cases bs ls time topo_id true w w' h) [
          | inl (same, id) ↦
              subst (λ (v : World W). eqb_ℤ topo_id (manager_of v).cur_topo_id ≡ true) same id
          | inr (_, (_, _, _, _, _, (_, _, kept, _))) ↦
              subst (λ (m : TopologyManager W). eqb_ℤ topo_id m.cur_topo_id ≡ true) (sym kept)
                (eqb_refl topo_id)
        ] in
      rw current refl
    where
      eqb_refl : (a : ℤ) → eqb_ℤ a a ≡ true
      eqb_refl (pos n) = ground arith
      eqb_refl (negsuc n) = ground arith

  pub reconfigure-IsSynced :
      (bs ls : List (List W)) (time : W) (topo_id : ℤ) (b : Bool) (w w' : World W)
      → IsSynced (manager_of w)
      → reconfigure bs ls time topo_id w ≡ ok (b, w')
      → IsSynced (manager_of w')
  reconfigure-IsSynced bs ls time topo_id b w w' s h =
      elim (reconfigure-cases bs ls time topo_id b w w' h) [
        | inl (same, _) ↦ subst (λ (v : World W). IsSynced (manager_of v)) same s
        | inr (_, (idle, _, _, _, _, (_, _, _, synced))) ↦
            let (l, c, k, it, a) = s in synced (l, c, k, ground arith, a)
      ]

  pub send-Steady :
      (chunk : Chunk) (w w' : World W)
      → send chunk w ≡ ok w'
      → Steady (manager_of w) (manager_of w')
  unfolding send
  send-Steady chunk w w' h =
      let (src, _, h₁) = >>=-eq-ok (current_device chunk) _ h in
      let (_, h₂) = check-eq-ok (ltb src (manager_of w).devices_count) assertion _ h₁ in
      let (routed, _, h₃) = >>=-eq-ok (with_route src chunk w) _ h₂ in
      let (_, _, sent) = >>=-eq-ok (next_device routed) _ h₃ in
      Kept-Steady (manager_of w) (manager_of w') (topology_send-Kept routed w w' sent)
