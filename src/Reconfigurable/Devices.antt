-- ===== src/Reconfigurable/Devices.antt =====
-- What the operations of a device leave alone: the number of devices, their ids and their iterations.
use astra_network_analytical.Base.{
  ℕ, suc, ◌+◌, ◌≡◌, ◌≢◌, refl, sym, ◌∙◌, ap, subst, inl, inr, not, List, [], ◌∷◌, length, some,
  get_elem?, set, length-set, ◌==◌, Outcome, Error, ok, assertion, or_fail, arith, >>=-eq-ok,
  check-eq-ok, or_fail-eq-ok, ok-injective, if-eq-ok,
}
use astra_network_analytical.Base.Maps.{find, put, find_or}
use astra_network_analytical.Double.{Double, nought}
use astra_network_analytical.EventQueue.{EventQueue, schedule_event}
use astra_network_analytical.Reconfigurable.State.{
  Chunk, Link, Device, TopologyManager, Event, link_become_free, World, devices_of, device_at,
  with_device, with_devices,
}
use astra_network_analytical.Reconfigurable.Chunk.{
  current_device, next_device, arrived_dest, update_route,
}
use astra_network_analytical.Reconfigurable.Link
use astra_network_analytical.Reconfigurable.Device
use astra_network_analytical.Reconfigurable.Device.{connected, transmit, must_wait, push_pending}
use astra_network_analytical.Reconfigurable.Topology
use astra_network_analytical.Reconfigurable.Places.{AllAt, get_elem?-AllAt, set-AllAt}

module _ {W : Type 0} where
  -- Device p has id p, and the iteration that `f` says.
  abbrev pub At : (ℕ → ℕ) → ℕ → Device W → Type 0
  At f p device = (device.device_id ≡ p) × (device.topology_iteration ≡ f p)

  -- Only the devices change, and neither their number nor what `At` says of them.
  abbrev pub Kept : TopologyManager W → TopologyManager W → Type 0
  Kept m m' =
      (ds : List (Device W)) × (m' ≡ record m { topology = record (m.topology) { devices = ds } })
      × (length ds ≡ length m.topology.devices)
      × ((f : ℕ → ℕ) → AllAt (At f) 0 m.topology.devices → AllAt (At f) 0 ds)

  pub Kept-refl : (m : TopologyManager W) → Kept m m
  Kept-refl m = (m.topology.devices, refl, refl, λ f a. a)

  pub Kept-trans : (l m n : TopologyManager W) → Kept l m → Kept m n → Kept l n
  Kept-trans l m n (ds, e, len, f) (ds', e', len', g) =
      let devices : m.topology.devices ≡ ds =
        ap (λ (x : TopologyManager W). x.topology.devices) e in
      (
        ds',
        e'
            ∙ ap
                (λ (x : TopologyManager W). record x {
                  topology = record (x.topology) { devices = ds' };
                })
                e,
        len' ∙ ap length devices ∙ len,
        λ h a. g h (subst (AllAt (At h) 0) (sym devices) (f h a)),
      )

  pub with_device-Kept :
      (w : World W) (i : ℕ) (old device : Device W)
      → get_elem? (devices_of w) i ≡ some old
      → device.device_id ≡ old.device_id
      → device.topology_iteration ≡ old.topology_iteration
      → Kept w.state.manager (with_device w i device).state.manager
  with_device-Kept w i old device at id iteration = (
    set (devices_of w) i device,
    refl,
    length-set (devices_of w) i device,
    λ f a.
        let (old_id, old_iteration) = get_elem?-AllAt (At f) 0 i (devices_of w) a at in
        set-AllAt (At f) (At f) 0 i (devices_of w) device (λ k y ne p. p)
          (id ∙ old_id, iteration ∙ old_iteration) a,
  )

module _ {W : Type 0} ⦃d : Double W⦄ where
  pub transmit-Kept :
      (i id : ℕ) (old device : Device W) (link : Link W) (chunk : Chunk) (w w' : World W)
      → get_elem? (devices_of w) i ≡ some old
      → device.device_id ≡ old.device_id
      → device.topology_iteration ≡ old.topology_iteration
      → transmit i id device link chunk w ≡ ok w'
      → Kept w.state.manager w'.state.manager
  unfolding transmit
  transmit-Kept i id old device link chunk w w' at same_id same_iteration h =
      let (sent, _, h₁) = >>=-eq-ok (Link.send link chunk w.queue) _ h in
      let (queue, _, made) =
        >>=-eq-ok (schedule_event sent.queue sent.link_free_time (link_become_free i id)) _ h₁ in
      subst (λ (v : World W). Kept w.state.manager v.state.manager) (ok-injective made)
        (with_device-Kept w i old (record device { links = put id sent.link device.links }) at
          same_id same_iteration)

  pub send-Kept :
      (i : ℕ) (c : Chunk) (w w' : World W)
      → Device.send i c w ≡ ok w'
      → Kept w.state.manager w'.state.manager
  unfolding Device.send
  send-Kept i c w w' h =
      let (device, found, h₁) = >>=-eq-ok (device_at w i) _ h in
      let at = or_fail-eq-ok Error.undefined (get_elem? (devices_of w) i) found in
      let (current, _, h₂) = >>=-eq-ok (current_device c) _ h₁ in
      let (_, h₃) = check-eq-ok (current == device.device_id) assertion _ h₂ in
      let (_, h₄) = check-eq-ok (not (arrived_dest c)) assertion _ h₃ in
      let (dest, _, h₅) = >>=-eq-ok (next_device c) _ h₄ in
      let routed = update_route c (find_or [] dest device.routes) c.topology_iteration in
      let (next, _, h₆) = >>=-eq-ok (next_device routed) _ h₅ in
      let (_, h₇) = check-eq-ok (connected device next) assertion _ h₆ in
      let (link, _, sent) = >>=-eq-ok (or_fail Error.undefined (find next device.links)) _ h₇ in
      elim (if-eq-ok (must_wait device link routed)
        (ok (with_device w i (push_pending device next routed)))
        (transmit i next device link routed w) sent) [
          | inl (_, waits) ↦
              subst (λ (v : World W). Kept w.state.manager v.state.manager) (ok-injective waits)
                (with_device-Kept w i device (push_pending device next routed) at refl refl)
          | inr (_, goes) ↦ transmit-Kept i next device device link routed w w' at refl refl goes
        ]

  pub topology_send-Kept :
      (c : Chunk) (w w' : World W)
      → Topology.send c w ≡ ok w'
      → Kept w.state.manager w'.state.manager
  unfolding Topology.send
  topology_send-Kept c w w' h =
      let (src, _, h₁) = >>=-eq-ok (current_device c) _ h in
      let (_, sent) = check-eq-ok _ assertion _ h₁ in send-Kept src c w w' sent

  reconfigure_link-keeps :
      (i id : ℕ) (link : Link W) (bs : List W) (rs : List (List ℕ)) (lats : List W) (time : W)
      (e e' : Device W) (q q' : EventQueue Event)
      → Device.reconfigure_link i id link bs rs lats time e q ≡ ok (e', q')
      → (e'.device_id ≡ e.device_id) × (e'.topology_iteration ≡ e.topology_iteration)
  unfolding Device.reconfigure_link
  reconfigure_link-keeps i id link bs rs lats time e e' q q' h =
      elim (if-eq-ok (id == e.device_id) (ok (e, q)) _ h) [
        | inl (_, same) ↦
            let kept = ap (λ (p : Device W × EventQueue Event). p.0) (ok-injective same) in
            (
              ap (λ (x : Device W). x.device_id) (sym kept),
              ap (λ (x : Device W). x.topology_iteration) (sym kept),
            )
        | inr (_, h₁) ↦
            let (bandwidth, _, h₂) = >>=-eq-ok (or_fail Error.undefined (get_elem? bs id)) _ h₁ in
            let (_, h₃) = check-eq-ok (d.le nought bandwidth) assertion _ h₂ in
            let (latency, _, h₄) = >>=-eq-ok (or_fail Error.undefined (get_elem? lats id)) _ h₃ in
            let (_, h₅) = check-eq-ok (d.le nought latency) assertion _ h₄ in
            let (route, _, h₆) = >>=-eq-ok (or_fail Error.undefined (get_elem? rs id)) _ h₅ in
            let (pair, _, h₇) =
              >>=-eq-ok (Link.reconfigure link bandwidth latency time q.current_time) _ h₆ in
            let (queue, _, made) =
              >>=-eq-ok (schedule_event q pair.0 (link_become_free i id)) _ h₇ in
            same-parts (record e { routes = put id route e.routes; links = put id pair.1 e.links })
              queue made
      ]
    where
      same-parts :
          (k : Device W) (p : EventQueue Event)
          → ◌≡◌ {A = Outcome (Device W × EventQueue Event)} (ok (k, p)) (ok (e', q'))
          → (e'.device_id ≡ k.device_id) × (e'.topology_iteration ≡ k.topology_iteration)
      same-parts k p made =
          let kept = ap (λ (p : Device W × EventQueue Event). p.0) (ok-injective made) in
          (
            ap (λ (x : Device W). x.device_id) (sym kept),
            ap (λ (x : Device W). x.topology_iteration) (sym kept),
          )

  -- The loop over the links gives the device back with its id and iteration.
  reconfigure_links-keeps :
      (i : ℕ) (ls : List (ℕ × Link W)) (bs : List W) (rs : List (List ℕ)) (lats : List W) (time : W)
      (e e' : Device W) (q q' : EventQueue Event)
      → Device.reconfigure_links i ls bs rs lats time e q ≡ ok (e', q')
      → (e'.device_id ≡ e.device_id) × (e'.topology_iteration ≡ e.topology_iteration)
  unfolding Device.reconfigure_links
  reconfigure_links-keeps i [] bs rs lats time e e' q q' h =
      let kept = ap (λ (p : Device W × EventQueue Event). p.0) (ok-injective h) in
      (
        ap (λ (x : Device W). x.device_id) (sym kept),
        ap (λ (x : Device W). x.topology_iteration) (sym kept),
      )
  reconfigure_links-keeps i ((id, link) ∷ rest) bs rs lats time e e' q q' h =
      let (p, first, later) =
        >>=-eq-ok (Device.reconfigure_link i id link bs rs lats time e q) _ h in
      let (id₁, iteration₁) = reconfigure_link-keeps i id link bs rs lats time e p.0 q p.1 first in
      let (id₂, iteration₂) = reconfigure_links-keeps i rest bs rs lats time p.0 e' p.1 q' later in
      (id₂ ∙ id₁, iteration₂ ∙ iteration₁)

  -- `reconfigure` of the device at place i counts its iteration up, and nobody else's.
  pub reconfigure-At :
      (i : ℕ) (bs : List W) (rs : List (List ℕ)) (lats : List W) (time : W) (w w' : World W)
      → Device.reconfigure i bs rs lats time w ≡ ok w'
      → (ds : List (Device W)) × (w'.state ≡ (with_devices w ds).state)
        × (length ds ≡ length (devices_of w))
        × ((f g : ℕ → ℕ)
            → ((k : ℕ) → k ≢ i → g k ≡ f k)
            → g i ≡ suc (f i)
            → AllAt (At f) 0 (devices_of w)
            → AllAt (At g) 0 ds)
  unfolding Device.reconfigure
  reconfigure-At i bs rs lats time w w' h =
      let (device, found, h₁) = >>=-eq-ok (device_at w i) _ h in
      let (_, h₂) = check-eq-ok (length bs == length device.links) assertion _ h₁ in
      let (_, h₃) = check-eq-ok (length lats == length device.links) assertion _ h₂ in
      let next = record device { topology_iteration = suc device.topology_iteration } in
      let (p, looped, made) =
        >>=-eq-ok (Device.reconfigure_links i device.links bs rs lats time next w.queue) _ h₃ in
      let (id, iteration) =
        reconfigure_links-keeps i device.links bs rs lats time next p.0 w.queue p.1 looped in
      (
        set (devices_of w) i p.0,
        ap (λ (v : World W). v.state) (sym (ok-injective made)),
        length-set (devices_of w) i p.0,
        λ f g same up a.
            let (old_id, old_iteration) =
              get_elem?-AllAt (At f) 0 i (devices_of w) a
                (or_fail-eq-ok Error.undefined (get_elem? (devices_of w) i) found) in
            set-AllAt (At f) (At g) 0 i (devices_of w) p.0
              (λ k y ne b. (b.0, b.1 ∙ sym (same k (λ e. ne (omega arith)))))
              (subst (λ k. At g k p.0) (omega arith)
                (id ∙ old_id ∙ omega arith, iteration ∙ up_of f old_iteration ∙ sym up))
              a,
      )
    where
      up_of : (f : ℕ → ℕ) {n : ℕ} → n ≡ f (0 + i) → suc n ≡ suc (f i)
      up_of f {n} e = ap suc (subst (λ k. n ≡ f k) (omega arith) e)
