-- ===== src/Reconfigurable/Idle.antt =====
-- Draining a network in which no link is busy.
pub mod Finish
pub mod Configured
pub mod Request
mod Examples
use astra_network_analytical.Base.{
  All, length, ℕ, zero, suc, ◌+◌, ◌-◌, ◌*◌, ◌≡◌, ◌≢◌, ◌≤◌, ◌<◌, refl, sym, ◌∙◌, ap, subst, inl, inr,
  Bool, true, false, not, List, Option, some, get_elem?, get_elem?-lt, set, get_elem?-set_self,
  get_elem?-set_ne, ltb, ◌==◌, if◌then◌else◌, Outcome, Error, ok, fail, ◌>>=◌, ◌>>◌, or_fail, arith,
}
use astra_network_analytical.Base.Maps.{find}
use astra_network_analytical.Double.{Double}
use astra_network_analytical.Reconfigurable.State.{Device, Link, World, devices_of, with_device}
use astra_network_analytical.Reconfigurable.Device.{get_link, connected}
use astra_network_analytical.Reconfigurable.Topology
use astra_network_analytical.Reconfigurable.Manager.{
  manager_of, with_drained, is_reconfiguring, links_count, finish_draining, increment_callback,
  drain_links, drain_devices, drain_network,
}
use astra_network_analytical.Reconfigurable.Devices.{Kept, Kept-trans, with_device-Kept}
use astra_network_analytical.Reconfigurable.Routes.Round.{eq_or_ne}
use astra_network_analytical.Reconfigurable.Counting.{bind_ok, HasFree, row, last_row}

-- The links that n devices from one row on still count, with q in each row.
rows : ℕ → ℕ → ℕ
rows zero q = 0
rows (suc n) q = q + rows n q

rows_mul : (n q : ℕ) → rows n q ≡ n * q
unfolding rows
rows_mul zero q = omega arith
rows_mul (suc n) q = omega (arith, rows_mul n q)

minus_one : (m : ℕ) → suc (suc m) - 1 ≡ suc m
minus_one m = omega arith

module _ {W : Type 0} where
  abbrev pub IsIdle : World W → Type 0
  IsIdle w =
      (i j : ℕ)
      → i < (manager_of w).devices_count
      → j < (manager_of w).devices_count
      → i ≢ j
      → HasFree w i j

  -- Device p of n has n links, to devices below n and among them to each of the others, and none of
  -- them is busy.
  abbrev pub IsTidy : ℕ → ℕ → Device W → Type 0
  IsTidy n p device =
      (device.device_id ≡ p)
      × (length device.links ≡ n)
      × All (λ l. (l.0 < n) × (l.1.busy ≡ false)) device.links
      × ((j : ℕ)
          → j < n
          → p ≢ j
          → (link : Link W) × (find j device.links ≡ some link) × (link.busy ≡ false))

  abbrev pub AllTidy : ℕ → World W → Type 0
  AllTidy n w =
      (p : ℕ)
      → p < n
      → (device : Device W) × (get_elem? (devices_of w) p ≡ some device) × IsTidy n p device

  pub AllTidy-IsIdle : (w : World W) → AllTidy (manager_of w).devices_count w → IsIdle w
  AllTidy-IsIdle w tidy i j low low' ne =
      let (device, at, (_, _, _, links)) = tidy i low in
      let (link, has, free) = links j low' ne in (device, link, at, has, free)

module _ {W : Type 0} ⦃d : Double W⦄ where
  marked-AllTidy :
      (n i : ℕ) (w : World W) (device : Device W)
      → get_elem? (devices_of w) i ≡ some device
      → AllTidy n w
      → AllTidy n (with_device w i (record device { draining = true }))
  marked-AllTidy n i w device at tidy p low =
      let (old, there, is) = tidy p low in
      let after : Device W = record device { draining = true } in
      elim (eq_or_ne i p) [
        | inl same ↦
            let here : get_elem? (devices_of w) i ≡ some old =
              ap (λ k. get_elem? (devices_of w) k) same ∙ there in
            let mine : some old ≡ some device = sym here ∙ at in
            let one : old ≡ device = cc in
            (
              after,
              subst (λ k. get_elem? (set (devices_of w) i after) k ≡ some after) same
                  (get_elem?-set_self (devices_of w) i after (get_elem?-lt (devices_of w) i at)),
              subst (λ (x : Device W). IsTidy n p x) one is,
            )
        | inr other ↦ (old, get_elem?-set_ne (devices_of w) after other ∙ there, is)
      ]

  marked-IsIdle :
      (w : World W) (i : ℕ) (device : Device W)
      → get_elem? (devices_of w) i ≡ some device
      → IsIdle w
      → IsIdle (with_device w i (record device { draining = true }))
  marked-IsIdle w i device at idle a b a_low b_low ne =
      let (old, link, found, has, free) = idle a b a_low b_low ne in
      elim (eq_or_ne i a) [
        | inl same ↦
            let mine : old ≡ device = cc in
            (
              record device { draining = true },
              link,
              subst
                  (λ k.
                    get_elem? (set (devices_of w) i (record device { draining = true })) k
                    ≡ some (record device { draining = true }))
                  same
                  (get_elem?-set_self (devices_of w) i (record device { draining = true })
                    (get_elem?-lt (devices_of w) i at)),
              subst (λ (x : Device W). find b x.links ≡ some link) mine has,
              free,
            )
        | inr other ↦ (
          old,
          link,
          get_elem?-set_ne (devices_of w) (record device { draining = true }) other ∙ found,
          has,
          free,
        )
      ]

  device_there :
      (i m : ℕ) (w : World W)
      → (manager_of w).devices_count ≡ suc (suc m)
      → IsIdle w
      → i < suc (suc m)
      → (device : Device W) × (get_elem? (devices_of w) i ≡ some device)
  device_there i m w n idle low = elim (eq_or_ne i 0) [
    | inl first ↦
        let (device, _, at, _, _) = idle i 1 (omega arith) (omega arith) (λ e. omega arith) in
        (device, at)
    | inr ne ↦ let (device, _, at, _, _) = idle i 0 (omega arith) (omega arith) ne in (device, at)
  ]

  device_step :
      (k i m : ℕ) (w : World W) (device : Device W)
      → get_elem? (devices_of w) i ≡ some device
      → i < suc (suc m)
      → (manager_of w).devices_count ≡ suc (suc m)
      → (manager_of w).topology.devices_count ≡ suc (suc m)
      → drain_devices (suc k) i w ≡ (
          drain_links (suc (suc m)) i 0 (with_device w i (record device { draining = true }))
          >>= drain_devices k (suc i))
  unfolding drain_devices Topology.get_device
  device_step k i m w device at low n n' =
      let test : ltb i (manager_of w).topology.devices_count ≡ true = ground arith in
      rw test (rw at (rw n refl))

  -- The loop from device i on, with all links free and as many of them left to count as the loop
  -- visits.
  drain_devices-idle :
      (k i m : ℕ) (w : World W)
      → is_reconfiguring w ≡ true
      → (manager_of w).devices_count ≡ suc (suc m)
      → (manager_of w).topology.devices_count ≡ suc (suc m)
      → IsIdle w
      → i + suc k ≡ suc (suc m)
      → w.state.num_drained_links + rows (suc k) (suc m) ≡ links_count w
      → (v : World W) × (drain_devices (suc k) i w ≡ finish_draining v)
        × Kept (manager_of w) (manager_of v)
        × (v.queue ≡ w.queue)
        × ((c : ℕ) → AllTidy c w → AllTidy c v)
  unfolding rows
  drain_devices-idle zero i m w busy n n' idle place sum =
      let (device, at) = device_there i m w n idle (omega arith) in
      let marked = with_device w i (record device { draining = true }) in
      let kept : Kept (manager_of w) (manager_of marked) =
        with_device-Kept w i device (record device { draining = true }) at refl refl in
      let free : (j : ℕ) → j < 0 + suc (suc m) → i ≢ j → HasFree marked i j =
        λ j low ne. marked-IsIdle w i device at idle i j (omega arith) (omega arith) ne in
      (
        marked,
        device_step 0 i m w device at (omega arith) n n'
            ∙ rw (last_row m i 0 marked busy (omega arith) free (omega arith)) (
                bind_ok (finish_draining marked) (drain_devices 0 (suc i))
                  (λ v. unfold drain_devices in refl)),
        kept,
        refl,
        λ c tidy. marked-AllTidy c i w device at tidy,
      )
  drain_devices-idle (suc k) i m w busy n n' idle place sum =
      let (device, at) = device_there i m w n idle (omega arith) in
      let marked = with_device w i (record device { draining = true }) in
      let kept : Kept (manager_of w) (manager_of marked) =
        with_device-Kept w i device (record device { draining = true }) at refl refl in
      let free : (j : ℕ) → j < 0 + suc (suc m) → i ≢ j → HasFree marked i j =
        λ j low ne. marked-IsIdle w i device at idle i j (omega arith) (omega arith) ne in
      let next = with_drained marked (w.state.num_drained_links + suc m) in
      let (v, ran, kept', same, tidied) =
        drain_devices-idle k (suc i) m next busy n n' (marked-IsIdle w i device at idle)
          (omega arith) (omega arith) in
      (
        v,
        device_step (suc k) i m w device at (omega arith) n n'
            ∙ rw (row (suc m) i 0 marked busy (omega arith) (omega arith) free (omega arith)) ran,
        Kept-trans (manager_of w) (manager_of next) (manager_of v) kept kept',
        same,
        λ c tidy. tidied c (marked-AllTidy c i w device at tidy),
      )

  -- All of it.
  pub drain_network-finish_draining :
      (m : ℕ) (w : World W)
      → is_reconfiguring w ≡ true
      → (manager_of w).devices_count ≡ suc (suc m)
      → (manager_of w).topology.devices_count ≡ suc (suc m)
      → IsIdle w
      → (v : World W) × (drain_network w ≡ finish_draining v)
        × Kept (manager_of w) (manager_of v)
        × (v.queue ≡ w.queue)
        × ((c : ℕ) → AllTidy c w → AllTidy c v)
  unfolding drain_network
  drain_network-finish_draining m w busy n n' idle =
      let (v, ran, kept, same, tidied) =
        drain_devices-idle (suc m) 0 m (with_drained w 0) busy n n' idle (omega arith) (
          omega (
            arith,
            rows_mul (suc (suc m)) (suc m),
            ap (λ c. c * (c - 1)) n,
            ap (λ q. suc (suc m) * q) (minus_one m),
          )) in
      (v, ap (λ c. drain_devices c 0 (with_drained w 0)) n ∙ ran, kept, same, tidied)
