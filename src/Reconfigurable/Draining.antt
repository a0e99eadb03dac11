-- ===== src/Reconfigurable/Draining.antt =====
-- Draining changes the devices and the mark of the manager, and leaves them in step.
use astra_network_analytical.Base.{
  ℕ, zero, suc, ◌≡◌, refl, sym, ◌∙◌, ap, subst, inl, inr, Bool, true, false, not, some, get_elem?,
  ltb, ◌==◌, if◌then◌else◌, Error, ok, assertion, ◌>>=◌, arith, >>=-eq-ok, check-eq-ok,
  or_fail-eq-ok, ok-injective, if-eq-ok,
}
use astra_network_analytical.Double.{Double}
use astra_network_analytical.Reconfigurable.State.{
  Device, Network, World, devices_of, device_at, with_device,
}
use astra_network_analytical.Reconfigurable.Device.{get_link}
use astra_network_analytical.Reconfigurable.Topology
use astra_network_analytical.Reconfigurable.Manager.{
  manager_of, with_manager, with_drained, is_reconfiguring, links_count, finish_draining,
  increment_callback, drain_links, drain_devices, drain_network,
}
use astra_network_analytical.Reconfigurable.Places.{AllAt-map}
use astra_network_analytical.Reconfigurable.Devices.{At, with_device-Kept}
use astra_network_analytical.Reconfigurable.Synced.{
  IsSynced, Steady, Steady-refl, Steady-trans, Kept-Steady, changed, reconfigure_devices-At,
}

module _ {W : Type 0} where
  -- Counting drained links leaves the manager alone.
  counted-Steady :
      (w w' : World W) (n : ℕ)
      → ok (with_drained w n) ≡ ok w'
      → Steady (manager_of w) (manager_of w')
  counted-Steady w w' n h =
      subst (λ (v : World W). Steady (manager_of w) (manager_of v)) (ok-injective h)
        (Steady-refl (manager_of w))

  same-Steady : (w w' : World W) → ok w ≡ ok w' → Steady (manager_of w) (manager_of w')
  same-Steady w w' h =
      subst (λ (v : World W). Steady (manager_of w) (manager_of v)) (ok-injective h)
        (Steady-refl (manager_of w))

  -- Draining flags are not what `IsSynced` reads.
  device-Steady :
      (w : World W) (i : ℕ) (device : Device W) (flag : Bool)
      → get_elem? (devices_of w) i ≡ some device
      → Steady (manager_of w) (manager_of (with_device w i (record device { draining = flag })))
  device-Steady w i device flag at =
      Kept-Steady (manager_of w) (manager_of (with_device w i (record device { draining = flag })))
        (with_device-Kept w i device (record device { draining = flag }) at refl refl)

  get_device-at :
      (w : World W) (i : ℕ) {device : Device W}
      → Topology.get_device (manager_of w).topology i ≡ ok device
      → get_elem? (devices_of w) i ≡ some device
  unfolding Topology.get_device
  get_device-at w i h =
      let (_, found) = check-eq-ok (ltb i (manager_of w).topology.devices_count) assertion _ h in
      or_fail-eq-ok Error.undefined (get_elem? (devices_of w) i) found

module _ {W : Type 0} ⦃d : Double W⦄ where
  finish_draining-Steady :
      (w w' : World W)
      → is_reconfiguring w ≡ true
      → finish_draining w ≡ ok w'
      → Steady (manager_of w) (manager_of w')
  unfolding finish_draining
  finish_draining-Steady w w' busy h =
      let m = manager_of w in
      let (ds, e, len, at) =
        reconfigure_devices-At m.devices_count 0
          (with_manager (with_drained w 0) (record m { reconfiguring = false })) w' h in
      let made : manager_of w' ≡ changed m ds false = ap (λ (s : Network W). s.manager) e in
      (
        ds,
        false,
        made,
        λ (l, c, k, it, a). subst IsSynced (sym made) (
          len ∙ l,
          c,
          suc k,
          ground arith,
          AllAt-map (At (λ p. if ltb p m.devices_count then suc k else k)) (At (λ p. suc k)) 0 ds
              (λ p x low high b. (b.0, b.1 ∙ ground arith))
              (at (λ p. k) (λ p. if ltb p m.devices_count then suc k else k)
                (λ p low. absurd (omega arith)) (λ p low high. ground arith) (λ p low. ground arith)
                a),
        ),
      )

  pub increment_callback-Steady :
      (w w' : World W) → increment_callback w ≡ ok w' → Steady (manager_of w) (manager_of w')
  unfolding increment_callback
  increment_callback-Steady w w' h =
      elim (if-eq-ok (not (is_reconfiguring w)) (ok (with_drained w 0)) _ h) [
        | inl (_, same) ↦ counted-Steady w w' 0 same
        | inr (busy, h₁) ↦
            elim (if-eq-ok (ltb (suc w.state.num_drained_links) (links_count w))
              (ok (with_drained w (suc w.state.num_drained_links))) _ h₁) [
                | inl (_, same) ↦ counted-Steady w w' (suc w.state.num_drained_links) same
                | inr (_, finishes) ↦ finish_draining-Steady w w' (ground arith) finishes
              ]
      ]

  -- One link of the loops of drain_network.
  drain_link-Steady :
      (i j : ℕ) (w w' : World W)
      → (if i == j then ok w else (do
        device ← device_at w i
        link ← get_link device j
        if not link.busy then increment_callback w else ok w))
        ≡ ok w'
      → Steady (manager_of w) (manager_of w')
  drain_link-Steady i j w w' h = elim (if-eq-ok (i == j) (ok w) _ h) [
    | inl (_, same) ↦ same-Steady w w' same
    | inr (_, h₁) ↦
        let (device, _, h₂) = >>=-eq-ok (device_at w i) _ h₁ in
        let (link, _, h₃) = >>=-eq-ok (get_link device j) _ h₂ in
        elim (if-eq-ok (not link.busy) (increment_callback w) (ok w) h₃) [
          | inl (_, counts) ↦ increment_callback-Steady w w' counts
          | inr (_, same) ↦ same-Steady w w' same
        ]
  ]

  drain_links-Steady :
      (n i j : ℕ) (w w' : World W)
      → drain_links n i j w ≡ ok w'
      → Steady (manager_of w) (manager_of w')
  unfolding drain_links
  drain_links-Steady zero i j w w' h = same-Steady w w' h
  drain_links-Steady (suc n) i j w w' h =
      let (v, one, rest) = >>=-eq-ok _ (drain_links n i (suc j)) h in
      Steady-trans (manager_of w) (manager_of v) (manager_of w') (drain_link-Steady i j w v one)
        (drain_links-Steady n i (suc j) v w' rest)

  drain_devices-Steady :
      (n i : ℕ) (w w' : World W)
      → drain_devices n i w ≡ ok w'
      → Steady (manager_of w) (manager_of w')
  unfolding drain_devices
  drain_devices-Steady zero i w w' h = same-Steady w w' h
  drain_devices-Steady (suc n) i w w' h =
      let (device, found, h₁) = >>=-eq-ok (Topology.get_device (manager_of w).topology i) _ h in
      let marked = with_device w i (record device { draining = true }) in
      let (v, links, rest) =
        >>=-eq-ok (drain_links (manager_of w).devices_count i 0 marked) (drain_devices n (suc i))
          h₁ in
      Steady-trans (manager_of w) (manager_of v) (manager_of w')
        (Steady-trans (manager_of w) (manager_of marked) (manager_of v)
          (device-Steady w i device true (get_device-at w i found))
          (drain_links-Steady (manager_of w).devices_count i 0 marked v links))
        (drain_devices-Steady n (suc i) v w' rest)

  pub drain_network-Steady :
      (w w' : World W) → drain_network w ≡ ok w' → Steady (manager_of w) (manager_of w')
  unfolding drain_network
  drain_network-Steady w w' h =
      drain_devices-Steady (manager_of w).devices_count 0 (with_drained w 0) w' h
