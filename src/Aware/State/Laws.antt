-- ===== src/Aware/State/Laws.antt =====
-- Reading a link back after one is written.
use astra_network_analytical.Base.{
  ℕ, zero, suc, ◌≡◌, refl, List, [], ◌∷◌, some, if◌then◌else◌, ◌==◌, ◌&&◌, arith, ==_refl,
}
use astra_network_analytical.Aware.State.{Link, Device, find_link, put_link, link_at, set_link}

module _ {W : Type 0} where
  pub find_link-put_link :
      (j b : ℕ) (l : Link W) (r : List (ℕ × Link W))
      → find_link b (put_link j l r) ≡ (if b == j then some l else find_link b r)
  unfolding find_link put_link
  find_link-put_link j b l [] = ground arith
  find_link-put_link j b l ((k, m) ∷ r) = ground (arith, find_link-put_link j b l r)

  pub link_at-set_link :
      (ds : List (Device W)) (i j a b : ℕ) (old l : Link W)
      → link_at ds i j ≡ some old
      → link_at (set_link ds i j l) a b ≡ (if a == i && b == j then some l else link_at ds a b)
  unfolding link_at set_link
  link_at-set_link [] i j a b old l h = ground arith
  link_at-set_link (d ∷ ds) zero j zero b old l h = find_link-put_link j b l d.links
  link_at-set_link (d ∷ ds) zero j (suc a) b old l h = ground arith
  link_at-set_link (d ∷ ds) (suc i) j zero b old l h = ground arith
  link_at-set_link (d ∷ ds) (suc i) j (suc a) b old l h =
      ground (arith, link_at-set_link ds i j a b old l h)

  pub link_at-set_link_self :
      (ds : List (Device W)) (i j : ℕ) (old l : Link W)
      → link_at ds i j ≡ some old
      → link_at (set_link ds i j l) i j ≡ some l
  link_at-set_link_self ds i j old l h =
      rw (link_at-set_link ds i j i j old l h) (rw (==_refl i, ==_refl j) refl)
