-- ===== src/Aware/State/Weight.antt =====
-- Sums over the pending chunks of all links: each chunk weighs `g` of it.
use astra_network_analytical.Base.{
  All, refl, ap, false, ℕ, zero, suc, ◌+◌, ◌≡◌, List, [], ◌∷◌, some, arith,
}
use astra_network_analytical.EventQueue.Weight.{sum}
use astra_network_analytical.Aware.State.{
  Chunk, Link, Device, find_link, put_link, link_at, set_link,
}

module _ {W : Type 0} (g : Chunk → ℕ) where
  links_weight : List (ℕ × Link W) → ℕ
  links_weight [] = 0
  links_weight ((j, l) ∷ r) = sum g l.pending_chunks + links_weight r

  unfoldable pub pending_weight : List (Device W) → ℕ
  unfolding links_weight
  pending_weight [] = 0
  pending_weight (d ∷ ds) = links_weight d.links + pending_weight ds

  links_weight-put_link :
      (j : ℕ) (old l : Link W) (r : List (ℕ × Link W))
      → find_link j r ≡ some old
      → links_weight (put_link j l r) + sum g old.pending_chunks
        ≡ links_weight r + sum g l.pending_chunks
  unfolding find_link put_link links_weight
  links_weight-put_link j old l [] h = cc
  links_weight-put_link j old l ((k, m) ∷ r) h = ground (arith, links_weight-put_link j old l r)

  -- Writing a link exchanges the weight of its pending chunks.
  pub pending_weight-set_link :
      (ds : List (Device W)) (i j : ℕ) (old l : Link W)
      → link_at ds i j ≡ some old
      → pending_weight (set_link ds i j l) + sum g old.pending_chunks
        ≡ pending_weight ds + sum g l.pending_chunks
  unfolding link_at set_link pending_weight
  pending_weight-set_link [] i j old l h = cc
  pending_weight-set_link (d ∷ ds) zero j old l h =
      omega (arith, links_weight-put_link j old l d.links h)
  pending_weight-set_link (d ∷ ds) (suc i) j old l h =
      omega (arith, pending_weight-set_link ds i j old l h)

  -- Where no chunk waits at a link.
  links_weight-idle :
      (r : List (ℕ × Link W))
      → All (λ p. (p.1.busy ≡ false) × (p.1.pending_chunks ≡ [])) r
      → links_weight r ≡ 0
  unfolding links_weight
  links_weight-idle [] idle = refl
  links_weight-idle ((j, l) ∷ r) idle =
      omega (arith, ap (sum g) idle.0.1, links_weight-idle r idle.1)

  pub pending_weight-idle :
      (ds : List (Device W))
      → All (λ device. All (λ p. (p.1.busy ≡ false) × (p.1.pending_chunks ≡ [])) device.links) ds
      → pending_weight ds ≡ 0
  unfolding pending_weight
  pending_weight-idle [] idle = refl
  pending_weight-idle (d ∷ ds) idle =
      omega (arith, links_weight-idle d.links idle.0, pending_weight-idle ds idle.1)
