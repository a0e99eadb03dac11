-- ===== src/Reconfigurable/Synced.antt =====
-- The manager and its devices in step: the ids and iterations of the devices against the counters
-- of the manager, through draining and reconfiguring.
use astra_network_analytical.Base.{
  ℕ, zero, suc, ◌+◌, ◌≤◌, ◌<◌, ◌≡◌, ◌≢◌, refl, sym, ◌∙◌, ap, subst, inl, inr, Bool, List, length,
  get_elem?, ltb, ◌==◌, if◌then◌else◌, Error, ok, or_fail, arith, Bool-cases, >>=-eq-ok,
  ok-injective,
}
use astra_network_analytical.Double.{Double}
use astra_network_analytical.Reconfigurable.State.{
  Device, TopologyManager, Network, World, devices_of, with_devices,
}
use astra_network_analytical.Reconfigurable.Device
use astra_network_analytical.Reconfigurable.Device.{get_link}
use astra_network_analytical.Reconfigurable.Topology
use astra_network_analytical.Reconfigurable.Manager.{manager_of, reconfigure_devices}
use astra_network_analytical.Reconfigurable.Routes.Round.{eq_or_ne}
use astra_network_analytical.Reconfigurable.Places.{AllAt, AllAt-map}
use astra_network_analytical.Reconfigurable.Devices.{At, Kept, reconfigure-At}

-- The number of reconfigurations begun, of which the devices have k behind them.
abbrev pub begun : ℕ → Bool → ℕ
begun k reconfiguring = if reconfiguring then suc k else k

abbrev bump : (ℕ → ℕ) → ℕ → ℕ → ℕ
bump f i p = if p == i then suc (f p) else f p

bump_self : (f : ℕ → ℕ) (i : ℕ) → bump f i i ≡ suc (f i)
bump_self f i = ground arith

bump_ne : (f : ℕ → ℕ) (i p : ℕ) → p ≢ i → bump f i p ≡ f p
bump_ne f i p ne = ground arith

unchanged :
    (i p : ℕ) (f g : ℕ → ℕ)
    → ((p : ℕ) → p < i → g p ≡ f p)
    → ((p : ℕ) → i + 0 ≤ p → g p ≡ f p)
    → g p ≡ f p
unchanged i p f g low high = elim (Bool-cases (ltb p i)) [
  | inl below ↦ low p (ground arith)
  | inr above ↦ high p (ground arith)
]

module _ {W : Type 0} where
  -- The changes a run makes to the manager, besides those of a new request: the devices, and the
  -- mark that a reconfiguration is under way.
  abbrev pub changed : TopologyManager W → List (Device W) → Bool → TopologyManager W
  changed m ds b = record m { topology = record (m.topology) { devices = ds }; reconfiguring = b }

  -- There are as many devices as the manager and the topology count, device p has id p, and all
  -- have the manager's iteration, or the one before it while the manager is reconfiguring.
  abbrev pub IsSynced : TopologyManager W → Type 0
  IsSynced m =
      (length m.topology.devices ≡ m.devices_count)
      × (m.topology.devices_count ≡ m.devices_count)
      × (k : ℕ) × (begun k m.reconfiguring ≡ m.topology_iteration)
      × AllAt (At (λ p. k)) 0 m.topology.devices

  abbrev pub Steady : TopologyManager W → TopologyManager W → Type 0
  Steady m m' =
      (ds : List (Device W)) × (b : Bool) × (m' ≡ changed m ds b) × (IsSynced m → IsSynced m')

  pub Steady-refl : (m : TopologyManager W) → Steady m m
  Steady-refl m = (m.topology.devices, m.reconfiguring, refl, λ s. s)

  pub Steady-trans : (l m n : TopologyManager W) → Steady l m → Steady m n → Steady l n
  Steady-trans l m n (ds, b, e, f) (ds', b', e', f') =
      (ds', b', e' ∙ ap (λ x. changed x ds' b') e, λ s. f' (f s))

  pub Kept-Steady : (m m' : TopologyManager W) → Kept m m' → Steady m m'
  Kept-Steady m m' (ds, e, same, at) = (
    ds,
    m.reconfiguring,
    e,
    λ (l, c, k, d, a). subst IsSynced (sym e) (same ∙ l, c, k, d, at (λ p. k) a),
  )

module _ {W : Type 0} ⦃d : Double W⦄ where
  -- The loop over n devices from place i counts up their iterations.
  pub reconfigure_devices-At :
      (n i : ℕ) (w w' : World W)
      → reconfigure_devices n i w ≡ ok w'
      → (ds : List (Device W)) × (w'.state ≡ (with_devices w ds).state)
        × (length ds ≡ length (devices_of w))
        × ((f g : ℕ → ℕ)
            → ((p : ℕ) → p < i → g p ≡ f p)
            → ((p : ℕ) → i ≤ p → p < i + n → g p ≡ suc (f p))
            → ((p : ℕ) → i + n ≤ p → g p ≡ f p)
            → AllAt (At f) 0 (devices_of w)
            → AllAt (At g) 0 ds)
  unfolding reconfigure_devices
  reconfigure_devices-At zero i w w' h = (
    devices_of w,
    ap (λ (v : World W). v.state) (sym (ok-injective h)),
    refl,
    λ f g low up high a.
        AllAt-map (At f) (At g) 0 (devices_of w)
          (λ p x l u b. (b.0, b.1 ∙ sym (unchanged i p f g low high))) a,
  )
  reconfigure_devices-At (suc n) i w w' h =
      let (device, _, h₁) = >>=-eq-ok (Topology.get_device (manager_of w).topology i) _ h in
      let (bs, _, h₂) =
        >>=-eq-ok (or_fail Error.undefined (get_elem? (manager_of w).bandwidths i)) _ h₁ in
      let (rs, _, h₃) =
        >>=-eq-ok (or_fail Error.undefined (get_elem? (manager_of w).precomputed_routes i)) _ h₂ in
      let (ls, _, h₄) =
        >>=-eq-ok (or_fail Error.undefined (get_elem? (manager_of w).latencies i)) _ h₃ in
      let (time, _, h₅) = >>=-eq-ok (or_fail Error.undefined (manager_of w).reconfig_time) _ h₄ in
      let (v, first, rest) = >>=-eq-ok (Device.reconfigure i bs rs ls time w) _ h₅ in
      let (ds, e, len, at) = reconfigure-At i bs rs ls time w v first in
      let (ds', e', len', at') = reconfigure_devices-At n (suc i) v w' rest in
      (
        ds',
        e' ∙ ap (put_devices ds') e,
        len' ∙ ap (λ (s : Network W). length s.manager.topology.devices) e ∙ len,
        λ f g low up high a.
            at' (bump f i) g
              (λ p l. elim (eq_or_ne p i) [
                | inl same ↦
                    subst (λ q. g q ≡ bump f i q) (sym same)
                      (up i (omega arith) (omega arith) ∙ sym (bump_self f i))
                | inr ne ↦ low p (omega arith) ∙ sym (bump_ne f i p ne)
              ])
              (λ p l u.
                up p (omega arith) (omega arith) ∙ ap suc (sym (bump_ne f i p (λ e. omega arith))))
              (λ p l. high p (omega arith) ∙ sym (bump_ne f i p (λ e. omega arith)))
              (subst (λ (s : Network W). AllAt (At (bump f i)) 0 s.manager.topology.devices) (sym e)
                (at f (bump f i) (λ k. bump_ne f i k) (bump_self f i) a)),
      )
    where
      put_devices : List (Device W) → Network W → Network W
      put_devices ds s = record s {
        manager = record (s.manager) { topology = record (s.manager.topology) { devices = ds } };
      }
