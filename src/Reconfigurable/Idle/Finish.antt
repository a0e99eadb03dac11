-- ===== src/Reconfigurable/Idle/Finish.antt =====
-- Device::reconfigure on a device with no busy link.
use astra_network_analytical.Base.{
  ℕ, suc, ◌+◌, ◌%◌, ◌^◌, ◌≡◌, ◌≢◌, ◌≤◌, ◌<◌, ◌⊎◌, ◌∙◌, refl, sym, subst, inl, inr, true, false,
  ◌&&◌, List, [], ◌∷◌, length, some, get_elem?, All, ◌==◌, ok, arith, Bool-cases, le→leb,
}
use native.Mathlib.Nat.{mod-eq_of_lt}
use astra_network_analytical.Base.Maps.{find, put, find-put}
use astra_network_analytical.Double.{Double, of_nat, nought}
use astra_network_analytical.Common.{bw_GBps_to_Bpns}
use astra_network_analytical.EventQueue.{EventQueue, insert_event, schedule_event}
use astra_network_analytical.Reconfigurable.State.{
  Device, Event, Link, World, link_become_free, devices_of, with_device,
}
use astra_network_analytical.Reconfigurable.Link
use astra_network_analytical.Reconfigurable.Device
use astra_network_analytical.Reconfigurable.Device.{reconfigure_link, reconfigure_links}
use astra_network_analytical.Reconfigurable.Routes.Round.{eq_or_ne}

schedule_event-later :
    {E : Type 0} (q : EventQueue E) (t : ℕ) (e : E)
    → q.current_time ≤ t
    → (q' : EventQueue E) × (schedule_event q t e ≡ ok q') × (q'.current_time ≡ q.current_time)
unfolding schedule_event
schedule_event-later q t e later = (
  record q { event_queue = insert_event t e q.event_queue },
  rw (le→leb q.current_time t later) refl,
  refl,
)

module _ {W : Type 0} ⦃d : Double W⦄ where
  -- The bandwidth and latency that are asked for, of a link that keeps what is equal.
  abbrev pub HasCosts : W → W → Link W → Type 0
  HasCosts x y l =
      ((d.eq x l.bandwidth && d.eq y l.latency) ≡ true) ⊎ ((l.bandwidth ≡ x) × (l.latency ≡ y))

  -- The time that a reconfiguration takes from now is defined, and so is the next nanosecond.
  abbrev pub IsTimely : W → ℕ → Type 0
  IsTimely time now =
      (now + 1 < 2 ^ 64)
      × (done : ℕ) × (d.to_uint64 (d.add (of_nat now) time) ≡ some done)
      × (now ≤ done)

  link_reconfigure-HasCosts :
      (l : Link W) (x y time : W) (now : ℕ)
      → IsTimely time now
      → l.busy ≡ false
      → d.le nought x ≡ true
      → (t : ℕ) × (l' : Link W) × (Link.reconfigure l x y time now ≡ ok (t, l'))
        × (now ≤ t)
        × HasCosts x y l'
  unfolding Link.reconfigure bw_GBps_to_Bpns
  link_reconfigure-HasCosts l x y time now (room, done, defined, later) free some_x =
      elim (Bool-cases (d.eq x l.bandwidth && d.eq y l.latency)) [
        | inl same ↦
            ((now + 1) % 2 ^ 64, l, rw same refl, omega (arith, mod-eq_of_lt room), inl same)
        | inr other ↦ (
          done,
          record {
            bandwidth = x;
            bandwidth_Bpns = d.div (d.mul x (of_nat (2 ^ 30))) (of_nat 1_000_000_000);
            latency = y;
            busy = true;
          },
          rw other (rw free (rw some_x (rw defined refl))),
          later,
          inr (refl, refl),
        )
      ]

  -- The rows of the matrices and of the table for one device.
  module _ (bs ls : List W) (rs : List (List ℕ)) where
    -- Entry j of each row is there, and neither cost is negative.
    abbrev pub CanSet : ℕ → Type 0
    CanSet j =
        (x y : W) × (r : List ℕ) × (get_elem? bs j ≡ some x)
        × (get_elem? ls j ≡ some y)
        × (get_elem? rs j ≡ some r)
        × (d.le nought x ≡ true)
        × (d.le nought y ≡ true)

    -- The link and the route to j are those of the rows.
    abbrev pub IsAsked : ℕ → Device W → Type 0
    IsAsked j device =
        (x y : W) × (r : List ℕ) × (l : Link W) × (get_elem? bs j ≡ some x)
        × (get_elem? ls j ≡ some y)
        × (get_elem? rs j ≡ some r)
        × (find j device.links ≡ some l)
        × (find j device.routes ≡ some r)
        × HasCosts x y l

    module _ (time : W) (now : ℕ) (timely : IsTimely time now) (i : ℕ) where
      -- What a step leaves: the time, the id and the iteration, and all that was set.
      abbrev Sets : Device W → Device W → EventQueue Event → Type 0
      Sets device device' queue =
          (queue.current_time ≡ now)
          × (device'.device_id ≡ device.device_id)
          × ((k : ℕ) → IsAsked k device → IsAsked k device')

      reconfigure_link-IsAsked :
          (j : ℕ) (link : Link W) (device : Device W) (queue : EventQueue Event)
          → queue.current_time ≡ now
          → j ≢ device.device_id
          → CanSet j
          → link.busy ≡ false
          → (device' : Device W) × (queue' : EventQueue Event) × (reconfigure_link i j link bs rs ls
                time device queue
              ≡ ok (device', queue'))
            × Sets device device' queue'
            × IsAsked j device'
      unfolding reconfigure_link Link.reconfigure bw_GBps_to_Bpns
      reconfigure_link-IsAsked j link device queue clock ne (x, y, r, at, at', at'', low, low')
            free =
          let other : (j == device.device_id) ≡ false = ground arith in
          let (t, l, done, later, costs) =
            link_reconfigure-HasCosts link x y time queue.current_time
              (subst (IsTimely time) (sym clock) timely) free low in
          let (queue', scheduled, same) =
            schedule_event-later queue t (link_become_free i j) later in
          let set : Device W = record device {
            routes = put j r device.routes;
            links = put j l device.links;
          } in
          let mine : IsAsked j set = (
            x,
            y,
            r,
            l,
            at,
            at',
            at'',
            ground (arith, find-put j j l device.links),
            ground (arith, find-put j j r device.routes),
            costs,
          ) in
          (
            set,
            queue',
            rw other
                (rw (at, low) (rw (at', low') (rw at'' (rw (rw low at done) (rw scheduled refl))))),
            (
              same ∙ clock,
              refl,
              λ k (x', y', r', l', b, c, e, f, g, h). elim (eq_or_ne j k) [
                | inl here ↦ subst (λ m. IsAsked m set) here mine
                | inr there ↦ (
                  x',
                  y',
                  r',
                  l',
                  b,
                  c,
                  e,
                  ground (arith, find-put j k l device.links, there),
                  ground (arith, find-put j k r device.routes, there),
                  h,
                )
              ],
            ),
            mine,
          )

      -- Every link of the list that is not to the device itself.
      reconfigure_links-IsAsked :
          (n : ℕ) (rest : List (ℕ × Link W)) (device : Device W) (queue : EventQueue Event)
          → queue.current_time ≡ now
          → ((j : ℕ) → j < n → CanSet j)
          → All (λ p. (p.0 < n) × (p.1.busy ≡ false)) rest
          → (device' : Device W) × (queue' : EventQueue Event) × (reconfigure_links i rest bs rs ls
                time device queue
              ≡ ok (device', queue'))
            × Sets device device' queue'
            × ((k : ℕ) (l : Link W)
                → k ≢ device.device_id
                → find k rest ≡ some l
                → IsAsked k device')
      unfolding reconfigure_links find
      reconfigure_links-IsAsked n [] device queue clock can free =
          (device, queue, refl, (clock, refl, λ k s. s), λ k l ne h. cc)
      reconfigure_links-IsAsked n ((j, link) ∷ rest) device queue clock can ((low, free), others) =
          elim (eq_or_ne j device.device_id) [
            | inl own ↦
                let skip : (j == device.device_id) ≡ true = ground arith in
                let (device', queue', ran, sets, all) =
                  reconfigure_links-IsAsked n rest device queue clock can others in
                (
                  device',
                  queue',
                  unfold reconfigure_link in (rw skip ran),
                  sets,
                  λ k l ne h.
                      let miss : (j == k) ≡ false = ground (arith, own, ne) in
                      all k l ne (rw miss at h),
                )
            | inr ne ↦
                let (set, queue₁, first, (clock₁, same, keeps), mine) =
                  reconfigure_link-IsAsked j link device queue clock ne (can j low) free in
                let (device', queue', ran, (clock', same', keeps'), all) =
                  reconfigure_links-IsAsked n rest set queue₁ clock₁ can others in
                (
                  device',
                  queue',
                  rw first ran,
                  (clock', same' ∙ same, λ k s. keeps' k (keeps k s)),
                  λ k l other h. elim (eq_or_ne j k) [
                    | inl here ↦ subst (λ m. IsAsked m device') here (keeps' j mine)
                    | inr there ↦
                        let miss : (j == k) ≡ false = ground (arith, there) in
                        all k l (λ e. other (e ∙ same)) (rw miss at h)
                  ],
                )
          ]

      -- All of Device::reconfigure.
      pub device_reconfigure-IsAsked :
          (n : ℕ) (device : Device W) (w : World W)
          → get_elem? (devices_of w) i ≡ some device
          → device.device_id ≡ i
          → w.queue.current_time ≡ now
          → length bs ≡ length device.links
          → length ls ≡ length device.links
          → ((j : ℕ) → j < n → CanSet j)
          → All (λ p. (p.0 < n) × (p.1.busy ≡ false)) device.links
          → (device' : Device W) × (queue : EventQueue Event) × (Device.reconfigure i bs rs ls time
                w
              ≡ ok (record (with_device w i device') { queue = queue }))
            × (queue.current_time ≡ now)
            × ((k : ℕ) (l : Link W) → k ≢ i → find k device.links ≡ some l → IsAsked k device')
      unfolding Device.reconfigure
      device_reconfigure-IsAsked n device w at id clock wide wide' can free =
          let next : Device W = record device {
            topology_iteration = suc device.topology_iteration;
          } in
          let (device', queue, ran, (clock', _, _), all) =
            reconfigure_links-IsAsked n device.links next w.queue clock can free in
          let test : (length bs == length device.links) ≡ true = ground arith in
          let test' : (length ls == length device.links) ≡ true = ground arith in
          (
            device',
            queue,
            rw at (rw (test, test') (rw ran refl)),
            clock',
            λ k l ne h. all k l (λ e. ne (e ∙ id)) h,
          )
