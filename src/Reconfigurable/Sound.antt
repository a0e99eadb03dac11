-- ===== src/Reconfigurable/Sound.antt =====
-- What every request and every event keeps of the manager: devices in step, and a complete table of
-- routes.
use astra_network_analytical.Base.{
  ℕ, ◌≡◌, ◌≤◌, ◌<◌, refl, sym, ◌∙◌, subst, inl, inr, Bool, List, [], ◌∷◌, some, get_elem?,
  get_elem?-lt, get_elem?-set_self, if◌then◌else◌, Error, ok, or_fail, >>=-eq-ok, or_fail-eq-ok,
  ok-injective, if-eq-ok,
}
use astra_network_analytical.Base.Int.{ℤ, pos, ltb_ℤ}
use astra_network_analytical.Base.Maps.{find, put, find_or}
use astra_network_analytical.Double.{Double}
use astra_network_analytical.Reconfigurable.State.{
  Chunk, Link, Device, TopologyManager, World, devices_of, device_at, with_device,
}
use astra_network_analytical.Reconfigurable.Link.{set_free}
use astra_network_analytical.Reconfigurable.Device.{transmit}
use astra_network_analytical.Reconfigurable.Routes.{inf}
use astra_network_analytical.Reconfigurable.Routes.Table.{HasRoute, precompute_routes-IsRoute}
use astra_network_analytical.Reconfigurable.Manager.{
  manager_of, increment_callback, reconfigure, serve_pending, become_free,
}
use astra_network_analytical.Reconfigurable.Devices.{with_device-Kept, transmit-Kept}
use astra_network_analytical.Reconfigurable.Synced.{
  IsSynced, Steady, Steady-refl, Steady-trans, Kept-Steady,
}
use astra_network_analytical.Reconfigurable.Draining.{increment_callback-Steady}
use astra_network_analytical.Reconfigurable.Requests.{reconfigure-cases, reconfigure-IsSynced}

module _ {W : Type 0} ⦃d : Double W⦄ where
  -- Once something was reconfigured, every pair of devices has its route for the bandwidths asked
  -- for last.
  abbrev pub IsRouted : TopologyManager W → Type 0
  IsRouted m =
      m.devices_count ≤ inf
      → 0 < m.topology_iteration
      → (s t : ℕ) → s < m.devices_count
      → t < m.devices_count
      → HasRoute m.bandwidths m.precomputed_routes s t

  abbrev pub IsSound : TopologyManager W → Type 0
  IsSound m = IsSynced m × IsRouted m

  pub Steady-IsSound : (m m' : TopologyManager W) → Steady m m' → IsSound m → IsSound m'
  Steady-IsSound m m' steady (s, r) = let (ds, b, e, f) = steady in (f s, subst IsRouted (sym e) r)

  pub reconfigure-IsSound :
      (bs ls : List (List W)) (time : W) (topo_id : ℤ) (b : Bool) (w w' : World W)
      → IsSound (manager_of w)
      → reconfigure bs ls time topo_id w ≡ ok (b, w')
      → IsSound (manager_of w')
  reconfigure-IsSound bs ls time topo_id b w w' (s, r) h = (
    reconfigure-IsSynced bs ls time topo_id b w w' s h,
    elim (reconfigure-cases bs ls time topo_id b w w' h) [
      | inl (same, _) ↦ subst (λ (v : World W). IsRouted (manager_of v)) same r
      | inr (_, (_, tall, wide, routes, found, (ds, mark, e, _))) ↦
          subst IsRouted (sym e) (λ few some_taken s t s_low t_low.
            let (table, made, all) =
              precompute_routes-IsRoute (manager_of w).devices_count bs few tall wide in
            let same : table ≡ routes = ok-injective (sym made ∙ found) in
            subst (λ x. HasRoute bs x s t) same (all s t s_low t_low))
    ],
  )

  count-Steady :
      (w w' : World W)
      → (if w.state.drain_all_flow then increment_callback w else ok w) ≡ ok w'
      → Steady (manager_of w) (manager_of w')
  count-Steady w w' h = elim (if-eq-ok w.state.drain_all_flow (increment_callback w) (ok w) h) [
    | inl (_, counts) ↦ increment_callback-Steady w w' counts
    | inr (_, same) ↦
        subst (λ (v : World W). Steady (manager_of w) (manager_of v)) (ok-injective same)
          (Steady-refl (manager_of w))
  ]

  serve_pending-Steady :
      (i link_id : ℕ) (device : Device W) (link : Link W) (chunks : List Chunk) (w w' : World W)
      → get_elem? (devices_of w) i ≡ some device
      → serve_pending i link_id device link chunks w ≡ ok w'
      → Steady (manager_of w) (manager_of w')
  unfolding serve_pending
  serve_pending-Steady i link_id device link [] w w' at h = count-Steady w w' h
  serve_pending-Steady i link_id device link (chunk ∷ rest) w w' at h =
      let served = record device { pending_chunks = put link_id rest device.pending_chunks } in
      elim (if-eq-ok (ltb_ℤ (pos device.topology_iteration) chunk.topology_iteration)
        (if w.state.drain_all_flow then increment_callback w else ok w)
        (transmit i link_id served link chunk w) h) [
          | inl (_, counts) ↦ count-Steady w w' counts
          | inr (_, goes) ↦
              Kept-Steady (manager_of w) (manager_of w')
                (transmit-Kept i link_id device served link chunk w w' at refl refl goes)
        ]

  pub become_free-Steady :
      (i link_id : ℕ) (w w' : World W)
      → become_free i link_id w ≡ ok w'
      → Steady (manager_of w) (manager_of w')
  unfolding become_free
  become_free-Steady i link_id w w' h =
      let (device, found, h₁) = >>=-eq-ok (device_at w i) _ h in
      let (link, _, h₂) = >>=-eq-ok (or_fail Error.undefined (find link_id device.links)) _ h₁ in
      let at = or_fail-eq-ok Error.undefined (get_elem? (devices_of w) i) found in
      let freed = record device { links = put link_id (set_free link) device.links } in
      let v = with_device w i freed in
      Steady-trans (manager_of w) (manager_of v) (manager_of w')
        (Kept-Steady (manager_of w) (manager_of v) (with_device-Kept w i device freed at refl refl))
        (serve_pending-Steady i link_id freed (set_free link)
          (find_or [] link_id device.pending_chunks) v w'
          (get_elem?-set_self (devices_of w) i freed (get_elem?-lt (devices_of w) i at)) h₂)
