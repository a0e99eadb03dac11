-- ===== src/Aware/Progress.antt =====
-- What a network needs so that no assertion of a run fails: its links are where the routes go, and
-- carry the chunks within a bounded time.
pub mod Send
pub mod Events
pub mod Run
use astra_network_analytical.Base.{
  ℕ, zero, suc, ◌+◌, ◌≤◌, ◌<◌, ◌≡◌, refl, ap, sym, ◌∙◌, subst, inl, inr, Bool, true, false, List,
  [], ◌∷◌, ◌++◌, some, get_elem?, All, Bool-cases, ◌==◌, ◌&&◌, if◌then◌else◌, ok, arith,
  ok-injective,
}
use astra_network_analytical.Double.{Double}
use astra_network_analytical.Aware.State.{Chunk, Link, Device, find_link, link_at, set_link}
use astra_network_analytical.Aware.State.Laws.{link_at-set_link}
use astra_network_analytical.Aware.Link.{communication_delay, serialization_delay}

both : (a b i j : ℕ) → (a == i && b == j) ≡ true → (a ≡ i) × (b ≡ j)
both a b i j h = ground arith

module _ {W : Type 0} where
  -- The device at place p has id p, from place i on.
  abbrev pub HasIds : ℕ → List (Device W) → Type 0
  HasIds i [] = Unit
  HasIds i (device ∷ ds) = (device.device_id ≡ i) × HasIds (suc i) ds

  pub HasIds-set_link :
      (k : ℕ) (ds : List (Device W)) (i j : ℕ) (l : Link W)
      → HasIds k ds
      → HasIds k (set_link ds i j l)
  unfolding set_link
  HasIds-set_link k [] i j l h = tt
  HasIds-set_link k (device ∷ ds) zero j l h = h
  HasIds-set_link k (device ∷ ds) (suc i) j l h = (h.0, HasIds-set_link (suc k) ds i j l h.1)

  -- The device of a link.
  pub link_at-device :
      (k : ℕ) (ds : List (Device W)) (i j : ℕ) {l : Link W}
      → HasIds k ds
      → link_at ds i j ≡ some l
      → (device : Device W) × (get_elem? ds i ≡ some device)
        × (device.device_id ≡ k + i)
        × (find_link j device.links ≡ some l)
  unfolding link_at
  link_at-device k [] i j h at = cc
  link_at-device k (device ∷ ds) zero j h at = (device, refl, omega (arith, h.0), at)
  link_at-device k (device ∷ ds) (suc i) j h at =
      let (found, here, id, link) = link_at-device (suc k) ds i j h.1 at in
      (found, here, omega arith, link)

module _ (Wired : ℕ → ℕ → Type 0) where
  -- Each step goes from a device to one that it is wired to.
  abbrev pub IsPath : List ℕ → Type 0
  IsPath [] = Unit
  IsPath (x ∷ []) = Unit
  IsPath (x ∷ y ∷ r) = Wired x y × IsPath (y ∷ r)

  module _ (Sized : ℕ → Type 0) where
    -- The chunk stands at device i, and the rest of its route goes over wires, first to device j.
    abbrev pub Travels : ℕ → ℕ → Chunk → Type 0
    Travels i j c =
        Sized c.chunk_size × (rest : List ℕ) × (c.route ≡ i ∷ j ∷ rest) × IsPath (i ∷ j ∷ rest)

    module _ {W : Type 0} ⦃d : Double W⦄ (longest : ℕ) where
      -- For every size that occurs, the delays on the link are defined and at most `longest`.
      abbrev pub IsTimed : Link W → Type 0
      IsTimed l =
          (size : ℕ)
          → Sized size
          → (0 < size)
            × (ct : ℕ) × (st : ℕ) × (communication_delay l size ≡ ok ct)
            × (serialization_delay l size ≡ ok st)
            × (ct ≤ longest)
            × (st ≤ longest)

      abbrev pub IsReady : ℕ → ℕ → Link W → Type 0
      IsReady i j l = IsTimed l × All (Travels i j) l.pending_chunks

      -- Devices at the places of their ids, a link wherever there is a wire, and every link ready.
      abbrev pub IsNetwork : List (Device W) → Type 0
      IsNetwork ds =
          HasIds 0 ds
          × ((i j : ℕ) → Wired i j → (l : Link W) × (link_at ds i j ≡ some l))
          × ((i j : ℕ) (l : Link W) → link_at ds i j ≡ some l → IsReady i j l)

      pub set_link-IsNetwork :
          (ds : List (Device W)) (i j : ℕ) (old l : Link W)
          → link_at ds i j ≡ some old
          → IsReady i j l
          → IsNetwork ds
          → IsNetwork (set_link ds i j l)
      set_link-IsNetwork ds i j old l at ready (ids, wired, links) = (
        HasIds-set_link 0 ds i j l ids,
        λ a b wire.
            let (m, there) = wired a b wire in
            elim (Bool-cases (a == i && b == j)) [
              | inl hit ↦ (l, link_at-set_link ds i j a b old l at ∙ rw hit refl)
              | inr miss ↦ (m, link_at-set_link ds i j a b old l at ∙ rw miss there)
            ],
        λ a b m there.
            let read = sym (link_at-set_link ds i j a b old l at) ∙ there in
            elim (Bool-cases (a == i && b == j)) [
              | inl hit ↦
                  let same : l ≡ m = let e : some l ≡ some m = rw hit at read in cc in
                  let (here, there') = both a b i j hit in
                  subst (λ x. IsReady x b m) (sym here)
                    (subst (λ y. IsReady i y m) (sym there') (subst (IsReady i j) same ready))
              | inr miss ↦ links a b m (rw miss at read)
            ],
      )
