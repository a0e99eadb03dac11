-- ===== src/Aware/Construct/Initial.antt =====
-- What the constructors of the topologies leave: links that are free, with no chunk waiting.
use astra_network_analytical.Base.{
  ℕ, zero, suc, ◌≡◌, refl, ◌∙◌, ap, sym, subst, Bool, true, false, Bool-cases, not, List, [], ◌∷◌,
  some, All, set, get_elem?, ltb, if◌then◌else◌, ◌==◌, Error, ok, assertion, or_fail, >>=-eq-ok,
  check-eq-ok, or_fail-eq-ok, ok-injective, if-eq-ok, inl, inr,
}
use astra_network_analytical.Double.{Double, nought}
use astra_network_analytical.Aware.State.{Link, Device, Topology, put_link}
use astra_network_analytical.Aware.Link.{new_link}
use astra_network_analytical.Common.{bw_GBps_to_Bpns}
use astra_network_analytical.Aware.Device
use astra_network_analytical.Aware.Device.{connected}
use astra_network_analytical.Aware.Topology.{connect_from, connect}
use astra_network_analytical.Aware.Basic.{
  connect_chain, connect_to_all, connect_all, connect_to_switch,
}

abbrev pub IsIdle : {W : Type 0} → Link W → Type 0
IsIdle l = (l.busy ≡ false) × (l.pending_chunks ≡ [])

abbrev pub IdleLinks : {W : Type 0} → List (ℕ × Link W) → Type 0
IdleLinks r = All (λ p. IsIdle (p.1)) r

-- All links of all devices are idle.
abbrev pub IsQuiet : {W : Type 0} → List (Device W) → Type 0
IsQuiet ds = All (λ device. IdleLinks device.links) ds

put_link-IdleLinks :
    {W : Type 0} (j : ℕ) (l : Link W) (r : List (ℕ × Link W))
    → IsIdle l
    → IdleLinks r
    → IdleLinks (put_link j l r)
unfolding put_link
put_link-IdleLinks j l [] h q = (h, tt)
put_link-IdleLinks j l ((k, m) ∷ r) h q = elim (Bool-cases (k == j)) [
  | inl here ↦ rw here (h, q.1)
  | inr there ↦ rw there (q.0, put_link-IdleLinks j l r h q.1)
]

set-All :
    {A : Type 0} (P : A → Type 0) (xs : List A) (i : ℕ) (x : A)
    → All P xs
    → P x
    → All P (set xs i x)
set-All P [] i x q h = tt
set-All P (y ∷ ys) zero x q h = (h, q.1)
set-All P (y ∷ ys) (suc i) x q h = (q.0, set-All P ys i x q.1 h)

get_elem?-All :
    {A : Type 0} (P : A → Type 0) (xs : List A) (i : ℕ) {x : A}
    → All P xs
    → get_elem? xs i ≡ some x
    → P x
get_elem?-All P [] i q h = cc
get_elem?-All P (y ∷ ys) zero {x} q h = let same : y ≡ x = cc in subst P same q.0
get_elem?-All P (y ∷ ys) (suc i) q h = get_elem?-All P ys i q.1 h

module _ {W : Type 0} ⦃d : Double W⦄ where
  pub new_link-IsIdle :
      (bandwidth latency : W) (l : Link W) → new_link bandwidth latency ≡ ok l → IsIdle l
  unfolding new_link
  new_link-IsIdle bandwidth latency l h =
      let (_, h₁) = check-eq-ok (d.lt nought bandwidth) assertion _ h in
      let (_, h₂) = check-eq-ok (d.le nought latency) assertion _ h₁ in
      let (rate, _, made) = >>=-eq-ok (bw_GBps_to_Bpns bandwidth) _ h₂ in
      subst IsIdle (ok-injective made) (refl, refl)

  device_connect-IdleLinks :
      (device device' : Device W) (id : ℕ) (bandwidth latency : W)
      → Device.connect device id bandwidth latency ≡ ok device'
      → IdleLinks device.links
      → IdleLinks device'.links
  unfolding Device.connect
  device_connect-IdleLinks device device' id bandwidth latency h q =
      let (_, h₁) = check-eq-ok (d.lt nought bandwidth) assertion _ h in
      let (_, h₂) = check-eq-ok (d.le nought latency) assertion _ h₁ in
      let (_, h₃) = check-eq-ok (not (connected device id)) assertion _ h₂ in
      let (l, made, done) = >>=-eq-ok (new_link bandwidth latency) _ h₃ in
      subst (λ (e : Device W). IdleLinks e.links) (ok-injective done)
        (put_link-IdleLinks id l device.links (new_link-IsIdle bandwidth latency l made) q)

  connect_from-IsQuiet :
      (ds ds' : List (Device W)) (src dest : ℕ) (bandwidth latency : W)
      → connect_from ds src dest bandwidth latency ≡ ok ds'
      → IsQuiet ds
      → IsQuiet ds'
  unfolding connect_from
  connect_from-IsQuiet ds ds' src dest bandwidth latency h q =
      let (device, found, h₁) = >>=-eq-ok (or_fail Error.undefined (get_elem? ds src)) _ h in
      let (device', made, done) = >>=-eq-ok (Device.connect device dest bandwidth latency) _ h₁ in
      let before =
        get_elem?-All (λ (e : Device W). IdleLinks e.links) ds src q
          (or_fail-eq-ok Error.undefined (get_elem? ds src) found) in
      subst IsQuiet (ok-injective done) (
        set-All (λ (e : Device W). IdleLinks e.links) ds src device' q
          (device_connect-IdleLinks device device' dest bandwidth latency made before))

  -- The second topology is the first with other devices, which are quiet if the first's are.
  abbrev pub Extends : Topology W → Topology W → Type 0
  Extends t t' =
      (ds : List (Device W)) × (t' ≡ record t { devices = ds }) × (IsQuiet t.devices → IsQuiet ds)

  Extends-refl : (t : Topology W) → Extends t t
  Extends-refl t = (t.devices, refl, λ q. q)

  pub Extends-trans : (t t' t'' : Topology W) → Extends t t' → Extends t' t'' → Extends t t''
  Extends-trans t t' t'' (ds, e, q) (ds', e', q') = (
    ds',
    e' ∙ ap (λ (u : Topology W). record u { devices = ds' }) e,
    λ quiet. q' (subst (λ (u : Topology W). IsQuiet u.devices) (sym e) (q quiet)),
  )

  pub connect-Extends :
      (t t' : Topology W) (src dest : ℕ) (bandwidth latency : W) (b : Bool)
      → connect t src dest bandwidth latency b ≡ ok t'
      → Extends t t'
  unfolding connect
  connect-Extends t t' src dest bandwidth latency b h =
      let (_, h₁) = check-eq-ok (ltb src t.devices_count) assertion _ h in
      let (_, h₂) = check-eq-ok (ltb dest t.devices_count) assertion _ h₁ in
      let (_, h₃) = check-eq-ok (d.lt nought bandwidth) assertion _ h₂ in
      let (_, h₄) = check-eq-ok (d.le nought latency) assertion _ h₃ in
      let (ds, there, h₅) = >>=-eq-ok (connect_from t.devices src dest bandwidth latency) _ h₄ in
      let (ds', back, made) =
        >>=-eq-ok (if b then connect_from ds dest src bandwidth latency else ok ds) _ h₅ in
      (
        ds',
        sym (ok-injective made),
        λ q.
            let q₁ = connect_from-IsQuiet t.devices ds src dest bandwidth latency there q in
            elim (if-eq-ok b (connect_from ds dest src bandwidth latency) (ok ds) back) [
              | inl (_, returned) ↦
                  connect_from-IsQuiet ds ds' dest src bandwidth latency returned q₁
              | inr (_, same) ↦ subst IsQuiet (ok-injective same) q₁
            ],
      )

  pub connect_chain-Extends :
      (n i : ℕ) (bandwidth latency : W) (b : Bool) (t t' : Topology W)
      → connect_chain n i bandwidth latency b t ≡ ok t'
      → Extends t t'
  unfolding connect_chain
  connect_chain-Extends zero i bandwidth latency b t t' h =
      subst (Extends t) (ok-injective h) (Extends-refl t)
  connect_chain-Extends (suc n) i bandwidth latency b t t' h =
      let (u, first, rest) = >>=-eq-ok (connect t i (suc i) bandwidth latency b) _ h in
      Extends-trans t u t' (connect-Extends t u i (suc i) bandwidth latency b first)
        (connect_chain-Extends n (suc i) bandwidth latency b u t' rest)

  pub connect_to_all-Extends :
      (n src dest : ℕ) (bandwidth latency : W) (t t' : Topology W)
      → connect_to_all n src dest bandwidth latency t ≡ ok t'
      → Extends t t'
  unfolding connect_to_all
  connect_to_all-Extends zero src dest bandwidth latency t t' h =
      subst (Extends t) (ok-injective h) (Extends-refl t)
  connect_to_all-Extends (suc n) src dest bandwidth latency t t' h =
      let (u, first, rest) =
        >>=-eq-ok (if not (src == dest) then connect t src dest bandwidth latency false else ok t) _
          h in
      Extends-trans t u t'
        (elim (if-eq-ok (not (src == dest)) (connect t src dest bandwidth latency false) (ok t)
          first) [
            | inl (_, joined) ↦ connect-Extends t u src dest bandwidth latency false joined
            | inr (_, same) ↦ subst (Extends t) (ok-injective same) (Extends-refl t)
          ])
        (connect_to_all-Extends n src (suc dest) bandwidth latency u t' rest)

  pub connect_all-Extends :
      (n src : ℕ) (bandwidth latency : W) (t t' : Topology W)
      → connect_all n src bandwidth latency t ≡ ok t'
      → Extends t t'
  unfolding connect_all
  connect_all-Extends zero src bandwidth latency t t' h =
      subst (Extends t) (ok-injective h) (Extends-refl t)
  connect_all-Extends (suc n) src bandwidth latency t t' h =
      let (u, row, rest) = >>=-eq-ok (connect_to_all t.npus_count src 0 bandwidth latency t) _ h in
      Extends-trans t u t' (connect_to_all-Extends t.npus_count src 0 bandwidth latency t u row)
        (connect_all-Extends n (suc src) bandwidth latency u t' rest)

  pub connect_to_switch-Extends :
      (n i : ℕ) (bandwidth latency : W) (t t' : Topology W)
      → connect_to_switch n i bandwidth latency t ≡ ok t'
      → Extends t t'
  unfolding connect_to_switch
  connect_to_switch-Extends zero i bandwidth latency t t' h =
      subst (Extends t) (ok-injective h) (Extends-refl t)
  connect_to_switch-Extends (suc n) i bandwidth latency t t' h =
      let (u, first, rest) = >>=-eq-ok (connect t i t.switch_id bandwidth latency true) _ h in
      Extends-trans t u t' (connect-Extends t u i t.switch_id bandwidth latency true first)
        (connect_to_switch-Extends n (suc i) bandwidth latency u t' rest)
