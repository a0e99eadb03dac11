-- ===== src/Aware/Construct/Wires.antt =====
-- The links that the constructors of the topologies make: each `connect` adds the links that it names, and keeps
-- the others.
use astra_network_analytical.Base.{
  ◌≢◌, ◌∙◌, ℕ, zero, suc, ◌≡◌, refl, ◌∙◌, ap, sym, subst, ◌⊎◌, inl, inr, Bool, true, Bool-cases,
  not, List, [], ◌∷◌, Option, some, none, set, get_elem?, ltb, if◌then◌else◌, ◌==◌, ◌&&◌, Error, ok,
  assertion, or_fail, >>=-eq-ok, check-eq-ok, or_fail-eq-ok, ok-injective, if-eq-ok, arith,
}
use astra_network_analytical.Double.{Double, nought}
use astra_network_analytical.Aware.State.{Link, Device, Topology, find_link, put_link, link_at}
use astra_network_analytical.Aware.State.Laws.{find_link-put_link}
use astra_network_analytical.Aware.Link.{new_link}
use astra_network_analytical.Aware.Device
use astra_network_analytical.Aware.Device.{connected, is_some}
use astra_network_analytical.Aware.Topology.{connect_from, connect}
use astra_network_analytical.Aware.Progress.{HasIds}

module _ {W : Type 0} where
  -- There is a link from device i to device j.
  abbrev pub HasLink : Topology W → ℕ → ℕ → Type 0
  HasLink t i j = (l : Link W) × (link_at t.devices i j ≡ some l)

  -- A link to another device.
  abbrev pub Wire : Topology W → ℕ → ℕ → Type 0
  Wire t i j = HasLink t i j × (i ≢ j)

  -- Links both ways, or forth alone.
  abbrev pub Joined : Bool → Topology W → ℕ → ℕ → Type 0
  Joined b t i j = HasLink t i j × (b ≡ true → HasLink t j i)

  link_at-set :
      (ds : List (Device W)) (i : ℕ) (old new : Device W) (a b : ℕ)
      → get_elem? ds i ≡ some old
      → link_at (set ds i new) a b ≡ (if a == i then find_link b new.links else link_at ds a b)
  unfolding link_at
  link_at-set [] i old new a b here = cc
  link_at-set (d ∷ ds) zero old new zero b here = refl
  link_at-set (d ∷ ds) zero old new (suc a) b here = ground arith
  link_at-set (d ∷ ds) (suc i) old new zero b here = ground arith
  link_at-set (d ∷ ds) (suc i) old new (suc a) b here =
      ground (arith, link_at-set ds i old new a b here)

  link_at-find :
      (ds : List (Device W)) (i : ℕ) (device : Device W) (b : ℕ)
      → get_elem? ds i ≡ some device
      → link_at ds i b ≡ find_link b device.links
  unfolding link_at
  link_at-find [] i device b here = cc
  link_at-find (d ∷ ds) zero device b here = ground arith
  link_at-find (d ∷ ds) (suc i) device b here = link_at-find ds i device b here

  link_at-put_link :
      (ds : List (Device W)) (i : ℕ) (device : Device W) (j : ℕ) (l : Link W)
      → get_elem? ds i ≡ some device
      → (a b : ℕ)
      → link_at (set ds i (record device { links = put_link j l device.links })) a b
        ≡ (if a == i && b == j then some l else link_at ds a b)
  link_at-put_link ds i device j l here a b =
      let after : Device W = record device { links = put_link j l device.links } in
      ground (
        arith,
        link_at-set ds i device after a b here,
        find_link-put_link j b l device.links,
        link_at-find ds i device b here,
      )

  HasIds-set :
      (k : ℕ) (ds : List (Device W)) (i : ℕ) (old new : Device W)
      → get_elem? ds i ≡ some old
      → new.device_id ≡ old.device_id
      → HasIds k ds
      → HasIds k (set ds i new)
  HasIds-set k [] i old new here same h = h
  HasIds-set k (d ∷ ds) zero old new here same h = (ground arith, h.1)
  HasIds-set k (d ∷ ds) (suc i) old new here same h =
      (h.0, HasIds-set (suc k) ds i old new here same h.1)

  unconnected_no_link :
      (device : Device W) (j : ℕ)
      → not (connected device j) ≡ true
      → find_link j device.links ≡ none
  unconnected_no_link device j h = absent (find_link j device.links) h
    where
      absent : (o : Option (Link W)) → not (is_some o) ≡ true → o ≡ none
      absent none h = refl
      absent (some l) h = cc

module _ {W : Type 0} ⦃d : Double W⦄ (bandwidth latency : W) where
  -- One link is new, from src to dest.
  abbrev AddsLink : List (Device W) → List (Device W) → ℕ → ℕ → Type 0
  AddsLink ds ds' src dest =
      (l : Link W) × (new_link bandwidth latency ≡ ok l)
      × (link_at ds src dest ≡ none)
      × ((a b : ℕ) → link_at ds' a b ≡ (if a == src && b == dest then some l else link_at ds a b))
      × (HasIds 0 ds → HasIds 0 ds')

  connect_from-AddsLink :
      (ds ds' : List (Device W)) (src dest : ℕ)
      → connect_from ds src dest bandwidth latency ≡ ok ds'
      → AddsLink ds ds' src dest
  unfolding connect_from Device.connect
  connect_from-AddsLink ds ds' src dest h =
      let (device, found, h₁) = >>=-eq-ok (or_fail Error.undefined (get_elem? ds src)) _ h in
      let here = or_fail-eq-ok Error.undefined (get_elem? ds src) found in
      let (device', made, done) = >>=-eq-ok (Device.connect device dest bandwidth latency) _ h₁ in
      let (_, h₃) = check-eq-ok (d.lt nought bandwidth) assertion _ made in
      let (_, h₄) = check-eq-ok (d.le nought latency) assertion _ h₃ in
      let (free, h₅) = check-eq-ok (not (connected device dest)) assertion _ h₄ in
      let (l, fresh, linked) = >>=-eq-ok (new_link bandwidth latency) _ h₅ in
      let after : Device W = record device { links = put_link dest l device.links } in
      subst (λ e. AddsLink ds e src dest) (ok-injective done)
        (subst (λ (e : Device W). AddsLink ds (set ds src e) src dest) (ok-injective linked)
          (
            l,
            fresh,
            link_at-find ds src device dest here ∙ unconnected_no_link device dest free,
            link_at-put_link ds src device dest l here,
            HasIds-set 0 ds src device after here refl,
          ))

  -- Links are added, all with this bandwidth and latency, and those that were there stay.
  abbrev pub Grows : Topology W → Topology W → Type 0
  Grows t t' =
      ((a b : ℕ) (l : Link W) → link_at t.devices a b ≡ some l → link_at t'.devices a b ≡ some l)
      × ((a b : ℕ) (l : Link W)
          → link_at t'.devices a b ≡ some l
          → (link_at t.devices a b ≡ some l) ⊎ (new_link bandwidth latency ≡ ok l))
      × (HasIds 0 t.devices → HasIds 0 t'.devices)

  pub Grows-refl : (t : Topology W) → Grows t t
  Grows-refl t = (λ a b l h. h, λ a b l h. inl h, λ h. h)

  pub Grows-trans : (t u v : Topology W) → Grows t u → Grows u v → Grows t v
  Grows-trans t u v (keeps, made, ids) (keeps', made', ids') = (
    λ a b l h. keeps' a b l (keeps a b l h),
    λ a b l h. elim (made' a b l h) [ inl old ↦ made a b l old | inr new ↦ inr new ],
    λ h. ids' (ids h),
  )

  pub Grows-HasLink : (t t' : Topology W) (i j : ℕ) → Grows t t' → HasLink t i j → HasLink t' i j
  Grows-HasLink t t' i j g (l, at) = (l, g.0 i j l at)

  AddsLink-Grows :
      (t t' : Topology W) (src dest : ℕ)
      → AddsLink t.devices t'.devices src dest
      → Grows t t' × HasLink t' src dest
  AddsLink-Grows t t' src dest (l, fresh, free, reads, ids) = (
    (
      λ a b m h. ground (arith, reads a b),
      λ a b m h. elim (Bool-cases (a == src && b == dest)) [
        | inl hit ↦ inr (
            let same : some l ≡ some m = sym (reads a b ∙ rw hit refl) ∙ h in
            let is : l ≡ m = cc in fresh ∙ ap ok is)
        | inr miss ↦ inl (
            let same : link_at t'.devices a b ≡ link_at t.devices a b = reads a b ∙ rw miss refl in
            sym same ∙ h)
      ],
      ids,
    ),
    (l, ground (arith, reads src dest)),
  )

  -- `connect` adds the link there and, where it is bidirectional, the one back.
  pub connect-Grows :
      (t t' : Topology W) (src dest : ℕ) (b : Bool)
      → connect t src dest bandwidth latency b ≡ ok t'
      → Grows t t' × HasLink t' src dest × (b ≡ true → HasLink t' dest src)
  unfolding connect
  connect-Grows t t' src dest b h =
      let (_, h₁) = check-eq-ok (ltb src t.devices_count) assertion _ h in
      let (_, h₂) = check-eq-ok (ltb dest t.devices_count) assertion _ h₁ in
      let (_, h₃) = check-eq-ok (d.lt nought bandwidth) assertion _ h₂ in
      let (_, h₄) = check-eq-ok (d.le nought latency) assertion _ h₃ in
      let (ds, there, h₅) = >>=-eq-ok (connect_from t.devices src dest bandwidth latency) _ h₄ in
      let (ds', back, made) =
        >>=-eq-ok (if b then connect_from ds dest src bandwidth latency else ok ds) _ h₅ in
      let u : Topology W = record t { devices = ds } in
      let v : Topology W = record t { devices = ds' } in
      let (grown, forth) =
        AddsLink-Grows t u src dest (connect_from-AddsLink t.devices ds src dest there) in
      subst (λ (x : Topology W). Grows t x × HasLink x src dest × (b ≡ true → HasLink x dest src))
        (ok-injective made)
        (elim (if-eq-ok b (connect_from ds dest src bandwidth latency) (ok ds) back) [
          | inl (_, returned) ↦
              let (grown', link) =
                AddsLink-Grows u v dest src (connect_from-AddsLink ds ds' dest src returned) in
              (Grows-trans t u v grown grown', Grows-HasLink u v src dest grown' forth, λ e. link)
          | inr (one_way, same) ↦
              subst
                (λ (x : List (Device W)).
                  Grows t (record t { devices = x })
                  × HasLink (record t { devices = x }) src dest
                  × (b ≡ true → HasLink (record t { devices = x }) dest src))
                (ok-injective same) (grown, forth, λ e. cc)
        ])
