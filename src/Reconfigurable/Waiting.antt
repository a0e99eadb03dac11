-- ===== src/Reconfigurable/Waiting.antt =====
-- What is sent while the manager is reconfiguring waits for the new topology.
use astra_network_analytical.Base.{
  ℕ, ◌≡◌, sym, ap, subst, inl, inr, true, not, Bool, false, ◌∙◌, ◌∷◌, [], get_elem?, some, ltb,
  ◌==◌, Outcome, Error, ok, assertion, or_fail, arith, >>=-eq-ok, check-eq-ok, or_fail-eq-ok,
  ok-injective, if-eq-ok,
}
use astra_network_analytical.Base.Int.{ℤ, pos, negsuc, ltb_ℤ, eqb_ℤ}
use astra_network_analytical.Base.Maps.{find, find_or}
use astra_network_analytical.Double.{Double}
use astra_network_analytical.Reconfigurable.State.{
  Chunk, Device, Link, World, devices_of, device_at, with_device,
}
use astra_network_analytical.Reconfigurable.Chunk.{
  current_device, next_device, arrived_dest, update_route,
}
use astra_network_analytical.Reconfigurable.Device
use astra_network_analytical.Reconfigurable.Device.{connected, must_wait, push_pending, transmit}
use astra_network_analytical.Reconfigurable.Topology
use astra_network_analytical.Reconfigurable.Manager.{
  manager_of, is_reconfiguring, route, with_route, send,
}
use astra_network_analytical.Reconfigurable.Places.{AllAt, get_elem?-AllAt}
use astra_network_analytical.Reconfigurable.Devices.{At}
use astra_network_analytical.Reconfigurable.Reachable.{IsClient, Reachable, Reachable-IsSound}

not_both : (b : Bool) → b ≡ true → b ≡ false → ⊥
not_both b h k = cc

module _ {W : Type 0} ⦃d : Double W⦄ where
  -- From w to w', nothing happens but that the chunk joins the queue of a link of device i, which
  -- is the link to the first device of the route that device i has to `dest`. In the queue the
  -- chunk has that route, and the iteration n.
  abbrev pub WaitsAt : ℕ → ℕ → ℤ → Chunk → World W → World W → Type 0
  WaitsAt i dest n c w w' =
      (next : ℕ) × (device : Device W) × (link : Link W) × (get_elem? (devices_of w) i
        ≡ some device)
      × (next_device (update_route c (find_or [] dest device.routes) n) ≡ ok next)
      × (find next device.links ≡ some link)
      × (w'
          ≡ with_device w i
              (push_pending device next (update_route c (find_or [] dest device.routes) n)))

  -- At the device where the chunk stands, for the next device of its route.
  abbrev pub Waits : ℤ → Chunk → World W → World W → Type 0
  Waits n c w w' =
      (i dest : ℕ) × (current_device c ≡ ok i) × (next_device c ≡ ok dest) × WaitsAt i dest n c w w'

  must_wait-later :
      (device : Device W) (link : _) (chunk : Chunk)
      → ltb_ℤ (pos device.topology_iteration) chunk.topology_iteration ≡ true
      → must_wait device link chunk ≡ true
  must_wait-later device link chunk h = ground arith

  device_send-Waits :
      (i : ℕ) (c : Chunk) (w w' : World W)
      → ((device : Device W)
          → get_elem? (devices_of w) i ≡ some device
          → ltb_ℤ (pos device.topology_iteration) c.topology_iteration ≡ true)
      → Device.send i c w ≡ ok w'
      → (dest : ℕ) × (next_device c ≡ ok dest) × WaitsAt i dest c.topology_iteration c w w'
  unfolding Device.send
  device_send-Waits i c w w' later h =
      let (device, found, h₁) = >>=-eq-ok (device_at w i) _ h in
      let at = or_fail-eq-ok Error.undefined (get_elem? (devices_of w) i) found in
      let (current, _, h₂) = >>=-eq-ok (current_device c) _ h₁ in
      let (_, h₃) = check-eq-ok (current == device.device_id) assertion _ h₂ in
      let (_, h₄) = check-eq-ok (not (arrived_dest c)) assertion _ h₃ in
      let (dest, first, h₅) = >>=-eq-ok (next_device c) _ h₄ in
      let routed = update_route c (find_or [] dest device.routes) c.topology_iteration in
      let (next, second, h₆) = >>=-eq-ok (next_device routed) _ h₅ in
      let (_, h₇) = check-eq-ok (connected device next) assertion _ h₆ in
      let (link, has, sent) = >>=-eq-ok (or_fail Error.undefined (find next device.links)) _ h₇ in
      let there = or_fail-eq-ok Error.undefined (find next device.links) has in
      elim (if-eq-ok (must_wait device link routed)
        (ok (with_device w i (push_pending device next routed)))
        (transmit i next device link routed w) sent) [
          | inl (_, waits) ↦
              (dest, first, (next, device, link, at, second, there, sym (ok-injective waits)))
          | inr (goes, _) ↦ absurd (
              not_both (must_wait device link routed)
                (must_wait-later device link routed (later device at)) goes)
        ]

  device_id-At :
      (w : World W) (i : ℕ) (f : ℕ → ℕ) (device : Device W)
      → AllAt (At f) 0 (devices_of w)
      → Topology.get_device (manager_of w).topology i ≡ ok device
      → device.device_id ≡ i
  unfolding Topology.get_device
  device_id-At w i f device all h =
      let (_, found) = check-eq-ok (ltb i (manager_of w).topology.devices_count) assertion _ h in
      let at = or_fail-eq-ok Error.undefined (get_elem? (devices_of w) i) found in
      (get_elem?-AllAt (At f) 0 i (devices_of w) all at).0 ∙ omega arith

  -- With devices at the places of their ids, the route that a new chunk gets is that to the next
  -- device of its own.
  with_route-update_route :
      (src : ℕ) (c routed : Chunk) (w : World W) (f : ℕ → ℕ)
      → AllAt (At f) 0 (devices_of w)
      → c.topology_iteration ≡ negsuc 0
      → with_route src c w ≡ ok routed
      → (dest : ℕ) × (next_device c ≡ ok dest)
        × (routed ≡ update_route c (src ∷ dest ∷ []) (pos (manager_of w).topology_iteration))
  unfolding with_route route
  with_route-update_route src c routed w f all new h =
      elim (if-eq-ok (eqb_ℤ c.topology_iteration (negsuc 0)) _ (ok c) h) [
        | inl (_, h₁) ↦
            let (dest, next, h₂) = >>=-eq-ok (next_device c) _ h₁ in
            let (r, routes, made) = >>=-eq-ok (route w src dest) _ h₂ in
            let (_, h₃) = check-eq-ok (ltb src (manager_of w).npus_count) assertion _ routes in
            let (_, h₄) = check-eq-ok (ltb dest (manager_of w).npus_count) assertion _ h₃ in
            let (first, from, h₅) =
              >>=-eq-ok (Topology.get_device (manager_of w).topology src) _ h₄ in
            let (last, to, is) =
              >>=-eq-ok (Topology.get_device (manager_of w).topology dest) _ h₅ in
            let places : r ≡ src ∷ dest ∷ [] =
              sym (ok-injective is)
              ∙ ap (λ a. a ∷ last.device_id ∷ []) (device_id-At w src f first all from)
              ∙ ap (λ b. src ∷ b ∷ []) (device_id-At w dest f last all to) in
            (
              dest,
              next,
              sym (ok-injective made)
                  ∙ ap (λ x. update_route c x (pos (manager_of w).topology_iteration)) places,
            )
        | inr (old, _) ↦ absurd (ground arith)
      ]

  module _ (client : ℕ → ℕ → World W → Outcome (World W)) (is_client : IsClient client) where
    -- In a state of a run in which the manager is reconfiguring, a chunk of iteration -1 that is sent
    -- is not transmitted: where it stands, it joins the queue of the link to the first device of the
    -- route that its device has to the next device of the chunk's route. It keeps its size and its
    -- callback, takes that route and the iteration of the topology to come, and nothing else changes.
    pub send-Waits :
        (c : Chunk) (w w' : World W)
        → Reachable client w
        → is_reconfiguring w ≡ true
        → c.topology_iteration ≡ negsuc 0
        → send c w ≡ ok w'
        → Waits (pos (manager_of w).topology_iteration) c w w'
    unfolding send Topology.send current_device next_device
    send-Waits c w w' reachable busy new h =
        let m = manager_of w in
        let n = pos m.topology_iteration in
        let (src, stands, h₁) = >>=-eq-ok (current_device c) _ h in
        let (_, h₂) = check-eq-ok (ltb src m.devices_count) assertion _ h₁ in
        let (routed, found, h₃) = >>=-eq-ok (with_route src c w) _ h₂ in
        let (_, _, h₄) = >>=-eq-ok (next_device routed) _ h₃ in
        let (from, first, h₅) = >>=-eq-ok (current_device routed) _ h₄ in
        let (_, sent) = check-eq-ok (ltb from m.topology.devices_count) assertion _ h₅ in
        let ((_, _, k, it, all), _) = Reachable-IsSound client is_client w reachable in
        let (dest, next, is) = with_route-update_route src c routed w (λ p. k) all new found in
        let new_chunk = update_route c (src ∷ dest ∷ []) n in
        let here : from ≡ src =
          ok-injective (sym first ∙ ap (λ (x : Chunk). current_device x) is) in
        let sent' : Device.send src new_chunk w ≡ ok w' =
          subst (λ x. Device.send src x w ≡ ok w') is
            (subst (λ i. Device.send i routed w ≡ ok w') here sent) in
        let (dest', next', waits) =
          device_send-Waits src new_chunk w w'
            (λ device at.
              let (_, its) = get_elem?-AllAt (At (λ p. k)) 0 src (devices_of w) all at in
              ground arith)
            sent' in
        (
          src,
          dest,
          stands,
          next,
          subst (λ x. WaitsAt src x n new_chunk w w') (ok-injective (sym next')) waits,
        )
