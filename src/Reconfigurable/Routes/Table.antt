-- ===== src/Reconfigurable/Routes/Table.antt =====
-- The table of all routes, entry by entry.
use astra_network_analytical.Base.{
  ℕ, zero, suc, ◌+◌, ◌≤◌, ◌<◌, ◌≡◌, refl, subst, true, ◌&&◌, List, [], ◌∷◌, length, get_elem?, some,
  ◌==◌, ok, arith,
}
use astra_network_analytical.Double.{Double}
use astra_network_analytical.Reconfigurable.Routes.{
  inf, adjacency, has_width, routes_to_all, routes_from, routes_from_all, precompute_routes, Search,
}
use astra_network_analytical.Reconfigurable.Routes.Loop.{Inv, search-Inv}
use astra_network_analytical.Reconfigurable.Routes.Shortest.{IsRoute, route_to-IsRoute}
use astra_network_analytical.Reconfigurable.Routes.Matrix.{
  Linked, adjacency-IsBounded, IsRoute-Linked,
}

module _ {W : Type 0} ⦃d : Double W⦄ where
  -- Entry (s, t) of a table of routes.
  abbrev pub HasRoute : List (List W) → List (List (List ℕ)) → ℕ → ℕ → Type 0
  HasRoute m table s t =
      (routes : List (List ℕ)) × (r : List ℕ) × (get_elem? table s ≡ some routes)
      × (get_elem? routes t ≡ some r)
      × IsRoute (Linked m) s t r

  routes_to_all-IsRoute :
      (m : List (List W)) (n s : ℕ) (found : Search)
      → Inv (adjacency 0 m) n s found
      → found.queue ≡ []
      → (k t : ℕ)
      → (routes : List (List ℕ)) × (routes_to_all n found s k t ≡ ok routes)
        × ((j : ℕ)
            → j < k
            → (r : List ℕ) × (get_elem? routes j ≡ some r) × IsRoute (Linked m) s (t + j) r)
  unfolding routes_to_all
  routes_to_all-IsRoute m n s found h e zero t = ([], refl, λ j low. absurd (omega arith))
  routes_to_all-IsRoute m n s found h e (suc k) t =
      let (r, ran, right) = route_to-IsRoute (adjacency 0 m) n s found t h e in
      let (routes, rest, all) = routes_to_all-IsRoute m n s found h e k (suc t) in
      (r ∷ routes, rw (ran, rest) refl, entry r routes (IsRoute-Linked m n s s t r right) all)
    where
      entry :
          (r : List ℕ) (routes : List (List ℕ))
          → IsRoute (Linked m) s t r
          → ((j : ℕ)
              → j < k
              → (r : List ℕ) × (get_elem? routes j ≡ some r) × IsRoute (Linked m) s (suc t + j) r)
          → (j : ℕ) → j < suc k
          → (x : List ℕ) × (get_elem? (r ∷ routes) j ≡ some x) × IsRoute (Linked m) s (t + j) x
      entry r routes right all zero low =
          (r, refl, subst (λ x. IsRoute (Linked m) s x r) (omega arith) right)
      entry r routes right all (suc j) low =
          let (x, at, good) = all j (omega arith) in
          (x, at, subst (λ y. IsRoute (Linked m) s y x) (omega arith) good)

  routes_from_all-IsRoute :
      (m : List (List W)) (n : ℕ)
      → n ≤ inf
      → has_width n m ≡ true
      → (k s : ℕ) → s + k ≤ n
      → (table : List (List (List ℕ))) × (routes_from_all (adjacency 0 m) n k s ≡ ok table)
        × ((i : ℕ)
            → i < k
            → (routes : List (List ℕ)) × (get_elem? table i ≡ some routes)
              × ((t : ℕ)
                  → t < n
                  → (r : List ℕ) × (get_elem? routes t ≡ some r) × IsRoute (Linked m) (s + i) t r))
  unfolding routes_from_all routes_from
  routes_from_all-IsRoute m n big wide zero s room = ([], refl, λ i low. absurd (omega arith))
  routes_from_all-IsRoute m n big wide (suc k) s room =
      let adj = adjacency 0 m in
      let (found, searched, inv, empty) =
        search-Inv adj n s big (adjacency-IsBounded m n s wide) (omega arith) in
      let (routes, listed, all) = routes_to_all-IsRoute m n s found inv empty n 0 in
      let (table, rest, others) = routes_from_all-IsRoute m n big wide k (suc s) (omega arith) in
      (routes ∷ table, rw searched (rw (listed, rest) refl), entry routes table all others)
    where
      Row : ℕ → List (List ℕ) → Type 0
      Row i routes =
          (t : ℕ) → t < n → (r : List ℕ) × (get_elem? routes t ≡ some r) × IsRoute (Linked m) i t r

      entry :
          (routes : List (List ℕ)) (table : List (List (List ℕ)))
          → ((j : ℕ)
              → j < n
              → (r : List ℕ) × (get_elem? routes j ≡ some r) × IsRoute (Linked m) s (0 + j) r)
          → ((i : ℕ)
              → i < k
              → (routes : List (List ℕ)) × (get_elem? table i ≡ some routes)
                × Row (suc s + i) routes)
          → (i : ℕ) → i < suc k
          → (x : List (List ℕ)) × (get_elem? (routes ∷ table) i ≡ some x) × Row (s + i) x
      entry routes table all others zero low = (
        routes,
        refl,
        λ t below.
            let (r, at, good) = all t below in
            (
              r,
              at,
              subst (λ a. IsRoute (Linked m) a t r) (omega arith)
                  (subst (λ b. IsRoute (Linked m) s b r) (omega arith) good),
            ),
      )
      entry routes table all others (suc i) low =
          let (x, at, good) = others i (omega arith) in
          (x, at, subst (λ a. Row a x) (omega arith) good)

  -- On n × n bandwidths, with n at most 10 ^ 9, precomputeRoutes ends, and its entry for devices s
  -- and t is s alone where they are the same, else a shortest walk over links with bandwidth, and
  -- the two devices alone where no such walk leads from s to t.
  pub precompute_routes-IsRoute :
      (n : ℕ) (m : List (List W))
      → n ≤ inf
      → length m ≡ n
      → has_width n m ≡ true
      → (table : List (List (List ℕ))) × (precompute_routes n m ≡ ok table)
        × ((s t : ℕ) → s < n → t < n → HasRoute m table s t)
  unfolding precompute_routes
  precompute_routes-IsRoute n m big tall wide =
      let (table, ran, all) = routes_from_all-IsRoute m n big wide n 0 (omega arith) in
      let square : (length m == n && has_width n m) ≡ true = rw wide (ground arith) in
      (
        table,
        rw square ran,
        λ s t s_low t_low.
            let (routes, at, row) = all s s_low in
            let (r, at', good) = row t t_low in
            (routes, r, at, at', subst (λ a. IsRoute (Linked m) a t r) (omega arith) good),
      )
