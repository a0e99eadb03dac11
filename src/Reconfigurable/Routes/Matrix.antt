-- ===== src/Reconfigurable/Routes/Matrix.antt =====
-- From the bandwidth matrix to the graph of the search.
use mathlib.Core.List.{Memᴰ}
use mathlib.Core.List.Memᴰ
use astra_network_analytical.Base.{
  ℕ, zero, suc, ◌+◌, ◌≤◌, ◌≡◌, ◌≢◌, refl, sym, ◌∙◌, ap, subst, inl, inr, true, not, ◌&&◌, List, [],
  ◌∷◌, length, get_or, get_elem?, get_elem?-lt, some, ◌==◌, arith, Bool-cases,
}
use astra_network_analytical.Base.Walks.{Walk-map}
use astra_network_analytical.Double.{Double, nought}
use astra_network_analytical.Reconfigurable.Routes.{targets, row_targets, adjacency, has_width}
use astra_network_analytical.Reconfigurable.Routes.Round.{Edge}
use astra_network_analytical.Reconfigurable.Routes.Loop.{IsBounded}
use astra_network_analytical.Reconfigurable.Routes.Shortest.{IsRoute}

module _ {W : Type 0} ⦃d : Double W⦄ where
  abbrev HasBandwidth : List W → ℕ → Type 0
  HasBandwidth row k = (b : W) × (get_elem? row k ≡ some b) × (d.lt nought b ≡ true)

  -- The link from device i to device j has bandwidth.
  abbrev pub Linked : List (List W) → ℕ → ℕ → Type 0
  Linked m i j = (i ≢ j) × HasBandwidth (get_or m i []) j

  -- Row i, from column j on.
  row_targets_sound :
      (i j v : ℕ) (row : List W)
      → Memᴰ v (row_targets i j row)
      → (i ≢ v) × (k : ℕ) × (v ≡ j + k) × HasBandwidth row k
  unfolding row_targets
  row_targets_sound i j v [] m = absurd (Memᴰ.not-nil m)
  row_targets_sound i j v (b ∷ row) m = elim (Bool-cases (not (i == j) && d.lt nought b)) [
    | inl yes_link ↦ elim (Memᴰ.cases_cons (rw yes_link at m)) [
      | inl e ↦ (λ same. ground arith, 0, omega arith, (b, refl, ground arith))
      | inr later ↦
          let (ne, k, at, has) = row_targets_sound i (suc j) v row later in
          (ne, suc k, omega arith, has)
    ]
    | inr no_link ↦
        let (ne, k, at, has) = row_targets_sound i (suc j) v row (rw no_link at m) in
        (ne, suc k, omega arith, has)
  ]

  row_targets_complete :
      (i j k : ℕ) (row : List W)
      → i ≢ j + k
      → HasBandwidth row k
      → Memᴰ (j + k) (row_targets i j row)
  unfolding row_targets
  row_targets_complete i j k [] ne (b, at, wide) = cc
  row_targets_complete i j zero (b ∷ row) ne (c, at, wide) =
      let same : b ≡ c = cc in
      let test : (not (i == j) && d.lt nought b) ≡ true = rw same (ground arith) in
      rw test (Memᴰ.head (omega arith))
  row_targets_complete i j (suc k) (b ∷ row) ne has =
      let later : Memᴰ (j + suc k) (row_targets i (suc j) row) =
        subst (λ v. Memᴰ v (row_targets i (suc j) row)) (omega arith)
          (row_targets_complete i (suc j) k row (λ e. ne (omega arith)) has) in
      elim (Bool-cases (not (i == j) && d.lt nought b)) [
        | inl yes_link ↦ rw yes_link (Memᴰ.tail later)
        | inr no_link ↦ rw no_link later
      ]

  targets-adjacency :
      (i k : ℕ) (m : List (List W))
      → targets (adjacency i m) k ≡ row_targets (i + k) 0 (get_or m k [])
  unfolding adjacency row_targets
  targets-adjacency i k [] = refl
  targets-adjacency i zero (row ∷ m) = ap (λ x. row_targets x 0 row) (omega arith)
  targets-adjacency i (suc k) (row ∷ m) =
      targets-adjacency (suc i) k m ∙ ap (λ x. row_targets x 0 (get_or m k [])) (omega arith)

  Edge-Linked : (m : List (List W)) (n s u v : ℕ) → Edge (adjacency 0 m) n s u v → Linked m u v
  Edge-Linked m n s u v edge =
      let (ne, k, at, has) = row_targets_sound u 0 v (get_or m u []) (
        subst (Memᴰ v)
          (targets-adjacency 0 u m ∙ ap (λ x. row_targets x 0 (get_or m u [])) (omega arith))
          edge) in
      (ne, subst (HasBandwidth (get_or m u [])) (omega arith) has)

  Linked-Edge : (m : List (List W)) (n s u v : ℕ) → Linked m u v → Edge (adjacency 0 m) n s u v
  Linked-Edge m n s u v (ne, has) =
      subst (Memᴰ v)
        (sym (targets-adjacency 0 u m ∙ ap (λ x. row_targets x 0 (get_or m u [])) (omega arith)))
        (subst (λ x. Memᴰ x (row_targets u 0 (get_or m u []))) (omega arith)
          (row_targets_complete u 0 v (get_or m u []) (λ e. ne (omega arith)) has))

  has_width-row :
      (n : ℕ) (m : List (List W)) (i : ℕ) → has_width n m ≡ true → length (get_or m i []) ≤ n
  has_width-row n [] i h = omega arith
  has_width-row n (row ∷ m) zero h = ground arith
  has_width-row n (row ∷ m) (suc i) h = has_width-row n m i (ground arith)

  pub adjacency-IsBounded :
      (m : List (List W)) (n s : ℕ) → has_width n m ≡ true → IsBounded (adjacency 0 m) n s
  adjacency-IsBounded m n s h u v edge =
      let (_, (b, at, _)) = Edge-Linked m n s u v edge in
      omega (arith, get_elem?-lt (get_or m u []) v at, has_width-row n m u h)

  pub IsRoute-Linked :
      (m : List (List W)) (n s a b : ℕ) (r : List ℕ)
      → IsRoute (Edge (adjacency 0 m) n s) a b r
      → IsRoute (Linked m) a b r
  IsRoute-Linked m n s a b r (inl same) = inl same
  IsRoute-Linked m n s a b r (inr (inl (ne, walk, least))) = inr (
      inl (
        ne,
        Walk-map _ _ (Edge-Linked m n s) a r b walk,
        λ other w. least other (Walk-map _ _ (Linked-Edge m n s) a other b w),
      ))
  IsRoute-Linked m n s a b r (inr (inr (ne, direct, none_at_all))) = inr (
      inr (ne, direct, λ other w. none_at_all other (Walk-map _ _ (Linked-Edge m n s) a other b w)))
