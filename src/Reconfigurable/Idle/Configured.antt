-- ===== src/Reconfigurable/Idle/Configured.antt =====
-- The end of draining: every device is reconfigured.
use astra_network_analytical.Base.{
  ℕ, zero, suc, ◌+◌, ◌≡◌, ◌≢◌, ◌≤◌, ◌<◌, ◌∙◌, refl, sym, ap, subst, inl, inr, true, false, List,
  some, length, get_elem?, get_elem?-lt, get_elem?-set_self, get_elem?-set_ne, Outcome, Error,
  ◌>>=◌, ok, or_fail, arith, lt→ltb,
}
use astra_network_analytical.Double.{Double}
use astra_network_analytical.EventQueue.{EventQueue}
use astra_network_analytical.Reconfigurable.State.{
  Device, Event, TopologyManager, World, devices_of, with_device,
}
use astra_network_analytical.Reconfigurable.Device
use astra_network_analytical.Reconfigurable.Topology
use astra_network_analytical.Reconfigurable.Manager.{
  manager_of, with_manager, with_drained, is_reconfiguring, reconfigure_devices, finish_draining,
  drain_network,
}
use astra_network_analytical.Reconfigurable.Routes.Round.{eq_or_ne}
use astra_network_analytical.Reconfigurable.Synced.{IsSynced}
use astra_network_analytical.Reconfigurable.Draining.{drain_network-Steady}
use astra_network_analytical.Reconfigurable.Idle.{
  IsTidy, AllTidy, AllTidy-IsIdle, drain_network-finish_draining,
}
use astra_network_analytical.Reconfigurable.Idle.Finish.{
  IsTimely, CanSet, IsAsked, device_reconfigure-IsAsked,
}

after_ok :
    {A B : Type 0} (o : Outcome A) (a : A) (f : A → Outcome B) {r : Outcome B}
    → o ≡ ok a
    → f a ≡ r
    → (o >>= f) ≡ r
after_ok o a f is goes = ap (λ x. x >>= f) is ∙ goes

module _ {W : Type 0} ⦃d : Double W⦄ where
  -- The manager has a row of bandwidths, of latencies and of routes for each of n devices, with an
  -- entry for each of them, and no cost is negative.
  abbrev pub HasRows : ℕ → TopologyManager W → Type 0
  HasRows n m =
      (i : ℕ)
      → i < n
      → (bs ls : List W) × (rs : List (List ℕ)) × (get_elem? m.bandwidths i ≡ some bs)
        × (get_elem? m.latencies i ≡ some ls)
        × (get_elem? m.precomputed_routes i ≡ some rs)
        × (length bs ≡ n)
        × (length ls ≡ n)
        × ((j : ℕ) → j < n → CanSet bs ls rs j)

  -- Device i has the link and the route to j that the manager m asks for.
  abbrev pub IsConfigured : TopologyManager W → List (Device W) → ℕ → ℕ → Type 0
  IsConfigured m ds i j =
      (bs ls : List W) × (rs : List (List ℕ)) × (device : Device W) × (get_elem? m.bandwidths i
        ≡ some bs)
      × (get_elem? m.latencies i ≡ some ls)
      × (get_elem? m.precomputed_routes i ≡ some rs)
      × (get_elem? ds i ≡ some device)
      × IsAsked bs ls rs j device

  devices_step :
      (k i : ℕ) (w next : World W) (device : Device W) (bs ls : List W) (rs : List (List ℕ))
      (time : W)
      → i < (manager_of w).topology.devices_count
      → get_elem? (devices_of w) i ≡ some device
      → get_elem? (manager_of w).bandwidths i ≡ some bs
      → get_elem? (manager_of w).latencies i ≡ some ls
      → get_elem? (manager_of w).precomputed_routes i ≡ some rs
      → (manager_of w).reconfig_time ≡ some time
      → Device.reconfigure i bs rs ls time w ≡ ok next
      → reconfigure_devices (suc k) i w ≡ reconfigure_devices k (suc i) next
  unfolding reconfigure_devices Topology.get_device
  devices_step k i w next device bs ls rs time low at at_b at_l at_r timed went =
      let there : Topology.get_device (manager_of w).topology i ≡ ok device =
        rw (lt→ltb i (manager_of w).topology.devices_count low) (rw at refl) in
      after_ok (Topology.get_device (manager_of w).topology i) device _ there (
        after_ok (or_fail Error.undefined (get_elem? (manager_of w).bandwidths i)) bs _
          (rw at_b refl)
          (after_ok (or_fail Error.undefined (get_elem? (manager_of w).precomputed_routes i)) rs _
            (rw at_r refl)
            (after_ok (or_fail Error.undefined (get_elem? (manager_of w).latencies i)) ls _
              (rw at_l refl)
              (after_ok (or_fail Error.undefined (manager_of w).reconfig_time) time _
                (rw timed refl)
                (after_ok (Device.reconfigure i bs rs ls time w) next
                  (reconfigure_devices k (suc i)) went refl)))))

  module _ (n : ℕ) (time : W) (now : ℕ) (timely : IsTimely time now) where
    -- The loop over the devices from place i on.
    reconfigure_devices-IsConfigured :
        (k i : ℕ) (w : World W)
        → (manager_of w).reconfig_time ≡ some time
        → HasRows n (manager_of w)
        → (manager_of w).topology.devices_count ≡ n
        → i + k ≡ n
        → w.queue.current_time ≡ now
        → ((p : ℕ)
            → i ≤ p
            → p < n
            → (device : Device W) × (get_elem? (devices_of w) p ≡ some device) × IsTidy n p device)
        → (w' : World W) × (reconfigure_devices k i w ≡ ok w')
          × (w'.queue.current_time ≡ now)
          × (is_reconfiguring w' ≡ is_reconfiguring w)
          × ((p : ℕ) → p < i → get_elem? (devices_of w') p ≡ get_elem? (devices_of w) p)
          × ((p j : ℕ)
              → i ≤ p
              → p < n
              → j < n
              → p ≢ j
              → IsConfigured (manager_of w) (devices_of w') p j)
    unfolding reconfigure_devices Topology.get_device
    reconfigure_devices-IsConfigured zero i w timed rows count place clock tidy =
        (w, refl, clock, refl, λ p low. refl, λ p j low low' low'' ne. absurd (omega arith))
    reconfigure_devices-IsConfigured (suc k) i w timed rows count place clock tidy =
        let (bs, ls, rs, at_b, at_l, at_r, wide, wide', can) = rows i (omega arith) in
        let (device, at, (id, many, free, links)) = tidy i (omega arith) (omega arith) in
        let (device', queue, went, clock', all) =
          device_reconfigure-IsAsked bs ls rs time now timely i n device w at id clock
            (wide ∙ sym many) (wide' ∙ sym many) can free in
        let next : World W = record (with_device w i device') { queue = queue } in
        let here : get_elem? (devices_of next) i ≡ some device' =
          get_elem?-set_self (devices_of w) i device' (get_elem?-lt (devices_of w) i at) in
        let (w', ran, clock'', same, below, above) =
          reconfigure_devices-IsConfigured k (suc i) next timed rows count (omega arith) clock'
            (λ p low low'.
              let (found, there, is) = tidy p (omega arith) low' in
              (
                found,
                get_elem?-set_ne (devices_of w) device' (λ e. omega (arith, e, low)) ∙ there,
                is,
              )) in
        (
          w',
          devices_step k i w next device bs ls rs time (omega arith) at at_b at_l at_r timed went
              ∙ ran,
          clock'',
          same,
          λ p low.
              below p (omega arith)
              ∙ get_elem?-set_ne (devices_of w) device' (λ e. omega (arith, e, low)),
          λ p j low low' low'' ne. elim (eq_or_ne i p) [
            | inl own ↦
                let (l, has, _) = links j low'' (λ e. ne (sym own ∙ e)) in
                subst (λ q. IsConfigured (manager_of w) (devices_of w') q j) own
                  (
                    bs,
                    ls,
                    rs,
                    device',
                    at_b,
                    at_l,
                    at_r,
                    below i (omega arith) ∙ here,
                    all j l (λ e. ne (sym own ∙ sym e)) has,
                  )
            | inr other ↦ above p j (omega (arith, other)) low' low'' ne
          ],
        )

    -- All devices are reconfigured, and the manager is done.
    abbrev pub AllConfigured : TopologyManager W → World W → Type 0
    AllConfigured m w' =
        (w'.queue.current_time ≡ now)
        × (is_reconfiguring w' ≡ false)
        × ((i j : ℕ) → i < n → j < n → i ≢ j → IsConfigured m (devices_of w') i j)

    finish_draining-AllConfigured :
        (w : World W)
        → (manager_of w).reconfig_time ≡ some time
        → HasRows n (manager_of w)
        → (manager_of w).devices_count ≡ n
        → (manager_of w).topology.devices_count ≡ n
        → w.queue.current_time ≡ now
        → AllTidy n w
        → (w' : World W) × (finish_draining w ≡ ok w') × AllConfigured (manager_of w) w'
    unfolding finish_draining
    finish_draining-AllConfigured w timed rows count count' clock tidy =
        let begun =
          with_manager (with_drained w 0) (record (manager_of w) { reconfiguring = false }) in
        let (w', ran, clock', same, _, all) =
          reconfigure_devices-IsConfigured n 0 begun timed rows count' (omega arith) clock
            (λ p low low'. tidy p low') in
        (
          w',
          ap (λ c. reconfigure_devices c 0 begun) count ∙ ran,
          (clock', same, λ i j low low' ne. all i j (omega arith) low low' ne),
        )

  -- In a network of at least two devices in step with the manager, each with one link for every
  -- device and none of its links busy, a manager that is reconfiguring, with rows for all devices
  -- and no negative cost, and where the current time plus the reconfiguration time is defined and
  -- not before the current time, whose next nanosecond is in range, ends the draining within
  -- drain_network itself: the call succeeds, the clock has not moved, the manager is no longer
  -- reconfiguring and all devices have its iteration, and each device has, to every other one, the
  -- route that the manager holds and a link of the bandwidth and latency that it holds, or a link
  -- whose own compare equal to them.
  pub drain_network-idle :
      (m now : ℕ) (time : W) (w : World W)
      → is_reconfiguring w ≡ true
      → (manager_of w).devices_count ≡ suc (suc m)
      → IsSynced (manager_of w)
      → AllTidy (suc (suc m)) w
      → HasRows (suc (suc m)) (manager_of w)
      → (manager_of w).reconfig_time ≡ some time
      → w.queue.current_time ≡ now
      → (timely : IsTimely time now)
      → (w' : World W) × (drain_network w ≡ ok w')
        × IsSynced (manager_of w')
        × AllConfigured (suc (suc m)) time now timely (manager_of w) w'
  drain_network-idle m now time w busy n synced tidy rows timed clock timely =
      let count : (manager_of w).topology.devices_count ≡ suc (suc m) = synced.1 ∙ n in
      let (v, drained, (ds, kept, _, _), queue, tidied) =
        drain_network-finish_draining m w busy n count
          (AllTidy-IsIdle w (subst (λ c. AllTidy c w) (sym n) tidy)) in
      let (w', finished, all) =
        finish_draining-AllConfigured (suc (suc m)) time now timely v
          (ap (λ (x : TopologyManager W). x.reconfig_time) kept ∙ timed)
          (subst (HasRows (suc (suc m))) (sym kept) rows)
          (ap (λ (x : TopologyManager W). x.devices_count) kept ∙ n)
          (ap (λ (x : TopologyManager W). x.topology.devices_count) kept ∙ count)
          (ap (λ (q : EventQueue Event). q.current_time) queue ∙ clock)
          (tidied (suc (suc m)) tidy) in
      let ran = drained ∙ finished in
      let (_, _, _, stays) = drain_network-Steady w w' ran in
      (
        w',
        ran,
        stays synced,
        subst (λ x. AllConfigured (suc (suc m)) time now timely x w') kept all,
      )
