-- ===== src/Reconfigurable/Initial.antt =====
-- The network that the constructors make: device p has id p and iteration 0.
use astra_network_analytical.Base.{
  ℕ, zero, suc, ◌≡◌, refl, sym, ◌∙◌, ap, subst, Bool, true, false, not, List, length, get_elem?,
  length-set, ltb, leb, if◌then◌else◌, Error, ok, assertion, or_fail, >>=-eq-ok, check-eq-ok,
  or_fail-eq-ok, ok-injective, if-eq-ok, inl, inr,
}
use astra_network_analytical.Base.Int.{ℤ}
use astra_network_analytical.Double.{Double, nought}
use astra_network_analytical.Reconfigurable.State.{Device, Topology, Network}
use astra_network_analytical.Reconfigurable.Link.{new_link}
use astra_network_analytical.Reconfigurable.Device
use astra_network_analytical.Reconfigurable.Device.{connected}
use astra_network_analytical.Reconfigurable.Topology.{
  devices_from, connect_from, connect, connect_above, connect_pairs, connect_selves, new_topology,
}
use astra_network_analytical.Reconfigurable.Manager.{new_topology_manager}
use astra_network_analytical.Reconfigurable.Places.{AllAt, get_elem?-AllAt, set-AllAt}
use astra_network_analytical.Reconfigurable.Devices.{At}
use astra_network_analytical.Reconfigurable.Synced.{IsSynced}

devices_from-AllAt : (W : Type 0) (n i : ℕ) → AllAt (At (λ p. 0)) i (devices_from {W = W} i n)
unfolding devices_from
devices_from-AllAt W zero i = tt
devices_from-AllAt W (suc n) i = ((refl, refl), devices_from-AllAt W n (suc i))

length-devices_from : (W : Type 0) (n i : ℕ) → length (devices_from {W = W} i n) ≡ n
unfolding devices_from
length-devices_from W zero i = refl
length-devices_from W (suc n) i = ap suc (length-devices_from W n (suc i))

module _ {W : Type 0} where
  abbrev AtStart : List (Device W) → Type 0
  AtStart ds = AllAt (At (λ p. 0)) 0 ds

  -- `connect` changes the devices alone.
  abbrev Connects : List (Device W) → List (Device W) → Type 0
  Connects ds ds' = (length ds' ≡ length ds) × (AtStart ds → AtStart ds')

  abbrev Grows : Topology W → Topology W → Type 0
  Grows t t' = (t'.devices_count ≡ t.devices_count) × Connects t.devices t'.devices

  Grows-refl : (t t' : Topology W) → ok t ≡ ok t' → Grows t t'
  Grows-refl t t' h = subst (Grows t) (ok-injective h) (refl, (refl, λ a. a))

  Grows-trans : (t u v : Topology W) → Grows t u → Grows u v → Grows t v
  Grows-trans t u v (c, (l, f)) (c', (l', g)) = (c' ∙ c, (l' ∙ l, λ a. g (f a)))

module _ {W : Type 0} ⦃d : Double W⦄ where
  connect_from-Connects :
      (ds ds' : List (Device W)) (src dest : ℕ) (bandwidth latency : W)
      → connect_from ds src dest bandwidth latency ≡ ok ds'
      → Connects ds ds'
  unfolding connect_from Device.connect
  connect_from-Connects ds ds' src dest bandwidth latency h =
      let (device, found, h₁) = >>=-eq-ok (or_fail Error.undefined (get_elem? ds src)) _ h in
      let (device', made, h₂) = >>=-eq-ok (Device.connect device dest bandwidth latency) _ h₁ in
      let (_, h₃) = check-eq-ok (d.le nought bandwidth) assertion _ made in
      let (_, h₄) = check-eq-ok (d.le nought latency) assertion _ h₃ in
      let (_, h₅) = check-eq-ok (not (connected device dest)) assertion _ h₄ in
      let (link, _, h₆) = >>=-eq-ok (new_link bandwidth latency) _ h₅ in
      let same = ok-injective h₆ in
      subst (Connects ds) (ok-injective h₂) (
        length-set ds src device',
        λ a.
            let (id, iteration) =
              get_elem?-AllAt (At (λ p. 0)) 0 src ds a
                (or_fail-eq-ok Error.undefined (get_elem? ds src) found) in
            set-AllAt (At (λ p. 0)) (At (λ p. 0)) 0 src ds device' (λ k y ne p. p)
              (
                ap (λ (x : Device W). x.device_id) (sym same) ∙ id,
                ap (λ (x : Device W). x.topology_iteration) (sym same) ∙ iteration,
              )
              a,
      )

  connect-Grows :
      (t t' : Topology W) (src dest : ℕ) (bandwidth latency : W) (both : Bool)
      → connect t src dest bandwidth latency both ≡ ok t'
      → Grows t t'
  unfolding connect
  connect-Grows t t' src dest bandwidth latency both h =
      let (_, h₁) = check-eq-ok (ltb src t.devices_count) assertion _ h in
      let (_, h₂) = check-eq-ok (ltb dest t.devices_count) assertion _ h₁ in
      let (_, h₃) = check-eq-ok (d.le nought bandwidth) assertion _ h₂ in
      let (_, h₄) = check-eq-ok (d.le nought latency) assertion _ h₃ in
      let (ds, there, h₅) = >>=-eq-ok (connect_from t.devices src dest bandwidth latency) _ h₄ in
      let (l, f) = connect_from-Connects t.devices ds src dest bandwidth latency there in
      let (ds', back, h₆) =
        >>=-eq-ok (if both then connect_from ds dest src bandwidth latency else ok ds) _ h₅ in
      let (l', f') : Connects ds ds' =
        elim (if-eq-ok both (connect_from ds dest src bandwidth latency) (ok ds) back) [
          | inl (_, made) ↦ connect_from-Connects ds ds' dest src bandwidth latency made
          | inr (_, same) ↦ subst (Connects ds) (ok-injective same) (refl, λ a. a)
        ] in
      subst (Grows t) (ok-injective h₆) (refl, (l' ∙ l, λ a. f' (f a)))

  connect_above-Grows : (n i j : ℕ) (t t' : Topology W) → connect_above n i j t ≡ ok t' → Grows t t'
  unfolding connect_above
  connect_above-Grows zero i j t t' h = Grows-refl t t' h
  connect_above-Grows (suc n) i j t t' h =
      let (u, one, rest) = >>=-eq-ok (connect t i j nought nought true) _ h in
      Grows-trans t u t' (connect-Grows t u i j nought nought true one)
        (connect_above-Grows n i (suc j) u t' rest)

  connect_pairs-Grows : (n i : ℕ) (t t' : Topology W) → connect_pairs n i t ≡ ok t' → Grows t t'
  unfolding connect_pairs
  connect_pairs-Grows zero i t t' h = Grows-refl t t' h
  connect_pairs-Grows (suc n) i t t' h =
      let (u, one, rest) = >>=-eq-ok (connect_above n i (suc i) t) _ h in
      Grows-trans t u t' (connect_above-Grows n i (suc i) t u one)
        (connect_pairs-Grows n (suc i) u t' rest)

  connect_selves-Grows : (n i : ℕ) (t t' : Topology W) → connect_selves n i t ≡ ok t' → Grows t t'
  unfolding connect_selves
  connect_selves-Grows zero i t t' h = Grows-refl t t' h
  connect_selves-Grows (suc n) i t t' h =
      let (u, one, rest) = >>=-eq-ok (connect t i i nought nought false) _ h in
      Grows-trans t u t' (connect-Grows t u i i nought nought false one)
        (connect_selves-Grows n (suc i) u t' rest)

  new_topology-Grows :
      (npus_count n : ℕ) (t : Topology W)
      → new_topology npus_count n ≡ ok t
      → (t.devices_count ≡ n) × (length t.devices ≡ n) × AtStart t.devices
  unfolding new_topology
  new_topology-Grows npus_count n t h =
      let bare : Topology W = record {
        npus_count = npus_count;
        devices_count = n;
        devices = devices_from 0 n;
      } in
      let (u, paired, selved) = >>=-eq-ok (connect_pairs n 0 bare) _ h in
      let (c, (l, f)) =
        Grows-trans bare u t (connect_pairs-Grows n 0 bare u paired)
          (connect_selves-Grows n 0 u t selved) in
      (c, l ∙ length-devices_from W n 0, f (devices_from-AllAt W n 0))

  pub new_topology_manager-IsSynced :
      (npus_count n : ℕ) (schedules : List (ℤ × List (List W))) (network : Network W)
      → new_topology_manager npus_count n schedules ≡ ok network
      → IsSynced network.manager × (network.manager.topology_iteration ≡ 0)
  unfolding new_topology_manager
  new_topology_manager-IsSynced npus_count n schedules network h =
      let (_, h₁) = check-eq-ok (ltb 0 npus_count) assertion _ h in
      let (_, h₂) = check-eq-ok (ltb 0 n) assertion _ h₁ in
      let (_, h₃) = check-eq-ok (leb npus_count n) assertion _ h₂ in
      let (t, made, h₄) = >>=-eq-ok (new_topology npus_count n) _ h₃ in
      let (c, l, a) = new_topology-Grows npus_count n t made in
      subst (λ (s : Network W). IsSynced s.manager × (s.manager.topology_iteration ≡ 0))
        (ok-injective h₄) ((l, c, 0, refl, a), refl)
