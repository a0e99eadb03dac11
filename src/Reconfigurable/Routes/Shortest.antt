-- ===== src/Reconfigurable/Routes/Shortest.antt =====
-- The route that the parents give, against all walks.
use mathlib.Core.List.{Memᴰ}
use mathlib.Core.List.Memᴰ
use astra_network_analytical.Base.{
  ℕ, zero, suc, ◌+◌, ◌≤◌, ◌<◌, ◌≡◌, ◌≢◌, refl, sym, ap, subst, ◌⊎◌, inl, inr, true, false, List, [],
  ◌∷◌, length, some, ◌==◌, ok, arith,
}
use astra_network_analytical.Base.Walks.{Walk, Walk-cons}
use astra_network_analytical.Reconfigurable.Routes.{
  Graph, inf, Search, dist_of, parent_of, trace, is_none, route_to,
}
use astra_network_analytical.Reconfigurable.Routes.Round.{Edge, Grown, eq_or_ne}
use astra_network_analytical.Reconfigurable.Routes.Loop.{Inv}

-- What a route should be: the source alone, a shortest walk, or the direct link where no walk is.
abbrev pub IsRoute : (ℕ → ℕ → Type 0) → ℕ → ℕ → List ℕ → Type 0
IsRoute R a b r =
    (a ≡ b) × (r ≡ a ∷ [])
    ⊎ ((a ≢ b) × Walk R a r b × ((other : List ℕ) → Walk R a other b → length r ≤ length other)
        ⊎ (a ≢ b) × (r ≡ a ∷ b ∷ []) × ((other : List ℕ) → ¬ Walk R a other b))

module _ (adj : Graph) (n src : ℕ) where
  abbrev E : ℕ → ℕ → Type 0
  E = Edge adj n src

  -- From a device that is reached the parents lead to the source, in as many steps as it is away.
  trace-Walk :
      (s : Search)
      → Grown adj n src s
      → (k fuel v t : ℕ) (path : List ℕ) → dist_of s v ≡ k
      → k < inf
      → k < fuel
      → Walk E v (v ∷ path) t
      → (r : List ℕ) × (trace fuel s.parent (some v) path ≡ ok r)
        × Walk E src r t
        × (length r ≡ k + suc (length path))
  unfolding trace
  trace-Walk s h k zero v t path e near m w = absurd (omega arith)
  trace-Walk s h zero (suc fuel) v t path e near m w = elim (h.reached v (omega arith)) [
    | inl (at, p, z) ↦
        (v ∷ path, rw (p, trace) refl, subst (λ a. Walk E a (v ∷ path) t) at w, omega arith)
    | inr (u, p, edge, step) ↦ absurd (omega arith)
  ]
  trace-Walk s h (suc k) (suc fuel) v t path e near m w = elim (h.reached v (omega arith)) [
    | inl (at, p, z) ↦ absurd (omega arith)
    | inr (u, p, edge, step) ↦
        let (r, ran, walk, long) =
          trace-Walk s h k fuel u t (v ∷ path) (omega arith) (omega arith) (omega arith)
            (Walk-cons E u v (v ∷ path) t edge w) in
        (r, rw (p, trace) ran, walk, omega (arith, long))
  ]

  -- No walk from a device that is reached is shorter than the difference of the distances.
  Walk-far :
      (s : Search)
      → Inv adj n src s
      → s.queue ≡ []
      → (r : List ℕ) (u t : ℕ) → dist_of s u < inf
      → Walk E u r t
      → (dist_of s t < inf) × (dist_of s t + 1 ≤ dist_of s u + length r)
  Walk-far s h e [] u t near w = absurd w
  Walk-far s h e (x ∷ []) u t near w =
      (omega (arith, ap (dist_of s) w.1), omega (arith, ap (dist_of s) w.1))
  Walk-far s h e (x ∷ y ∷ r) u t near w = elim (h.closed u y near w.1) [
    | inl m ↦ absurd (Memᴰ.not-nil (subst (Memᴰ u) e m))
    | inr (near_y, step) ↦
        let (near_t, far) = Walk-far s h e (y ∷ r) y t near_y w.2 in (near_t, omega arith)
  ]

  has_parent :
      (s : Search) (t : ℕ)
      → Grown adj n src s
      → src ≢ t
      → dist_of s t < inf
      → is_none (parent_of s t) ≡ false
  has_parent s t h differ near = elim (h.reached t near) [
    | inl (at, _, _) ↦ absurd (differ (sym at))
    | inr (u, p, _, _) ↦ ap is_none p
  ]

  pub route_to-IsRoute :
      (s : Search) (t : ℕ)
      → Inv adj n src s
      → s.queue ≡ []
      → (r : List ℕ) × (route_to n s src t ≡ ok r) × IsRoute E src t r
  unfolding route_to
  route_to-IsRoute s t h e = elim (eq_or_ne src t) [
    | inl same ↦
        let test : (src == t) ≡ true = ground arith in (src ∷ [], rw test refl, inl (same, refl))
    | inr differ ↦
        let test : (src == t) ≡ false = ground arith in
        elim (h.grown.bounded t) [
          | inl far ↦
              let root = h.grown.untouched t far in
              (
                src ∷ t ∷ [],
                rw test (rw root refl),
                inr (
                    inr (
                      differ,
                      refl,
                      λ other w.
                          omega (
                            arith,
                            (Walk-far s h e other src t (omega (arith, h.grown.origin)) w).0,
                          ),
                    )),
              )
          | inr near ↦
              let (r, ran, walk, long) =
                trace-Walk s h.grown (dist_of s t) n t t [] refl near
                  (omega (arith, h.grown.room t near)) (refl, refl) in
              (
                r,
                rw test (rw (has_parent s t h.grown differ near) ran),
                inr (
                    inl (
                      differ,
                      walk,
                      λ other w. omega (
                        arith,
                        long,
                        h.grown.origin,
                        (Walk-far s h e other src t (omega (arith, h.grown.origin)) w).1,
                      ),
                    )),
              )
        ]
  ]
