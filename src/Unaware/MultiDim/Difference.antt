-- ===== src/Unaware/MultiDim/Difference.antt =====
-- The first dimension in which two addresses differ.
use astra_network_analytical.Base.{
  length, ◌≤◌, true, false, not, ◌==◌, ℕ, zero, suc, ◌+◌, ◌<◌, ◌≡◌, ◌≢◌, refl, ap, ◌∙◌, sym, some,
  List, [], ◌∷◌, arith, ok, get_elem?,
}
use mathlib.Core.Path.{ap₂}
use native.Mathlib.Decide.{ℕ_discrete}
use astra_network_analytical.Unaware.MultiDim.{first_difference}
use astra_network_analytical.Unaware.MultiDim.Radix.{Fits}
use astra_network_analytical.Unaware.MultiDim.Address.{Fits-place}

-- The first place at which two addresses of the same shape differ.
abbrev pub FirstDifference : ℕ → List ℕ → List ℕ → Type 0
FirstDifference k as' bs =
    (a : ℕ) × (b : ℕ) × (get_elem? as' k ≡ some a)
    × (get_elem? bs k ≡ some b)
    × (a ≢ b)
    × ((j : ℕ) → j < k → get_elem? as' j ≡ get_elem? bs j)

agree_from_zero :
    (a b : ℕ) (as' bs : List ℕ) (k : ℕ)
    → a ≡ b
    → ((j : ℕ) → j < k → get_elem? as' j ≡ get_elem? bs j)
    → (j : ℕ) → j < suc k
    → get_elem? (a ∷ as') j ≡ get_elem? (b ∷ bs) j
agree_from_zero a b as' bs k e h zero p = ap some e
agree_from_zero a b as' bs k e h (suc j) p = h j (omega arith)

pub Fits-differ :
    (ns as' bs : List ℕ)
    → Fits ns as'
    → Fits ns bs
    → as' ≢ bs
    → (k : ℕ) × (k < length ns) × FirstDifference k as' bs
Fits-differ [] [] [] f g e = absurd (e refl)
Fits-differ [] [] (b ∷ bs) f g e = absurd g
Fits-differ [] (a ∷ as') bs f g e = absurd f
Fits-differ (n ∷ ns) [] bs f g e = absurd f
Fits-differ (n ∷ ns) (a ∷ as') [] f g e = absurd g
Fits-differ (n ∷ ns) (a ∷ as') (b ∷ bs) f g e = elim (ℕ_discrete a b) [
  | no differ ↦ (0, omega arith, (a, b, refl, refl, differ, λ j h. absurd (omega arith)))
  | yes same ↦
      let (k, low, (x, y, p, q, r, before)) =
        Fits-differ ns as' bs f.1 g.1 (λ r. e (ap₂ ◌∷◌ same r)) in
      (suc k, omega arith, (x, y, p, q, r, agree_from_zero a b as' bs k same before))
]

-- The loop stops at the first difference.
pub first_difference_lem :
    (rounds dim k : ℕ) (ns as' bs : List ℕ)
    → Fits ns as'
    → k < length ns
    → FirstDifference k as' bs
    → dim ≤ k
    → k < dim + rounds
    → first_difference rounds dim as' bs ≡ ok k
unfolding first_difference
first_difference_lem zero dim k ns as' bs f low first reached left = absurd (omega arith)
first_difference_lem (suc rounds) dim k ns as' bs f low (a, b, p, q, differ, before) reached left =
    elim (ℕ_discrete dim k) [
      | yes here ↦
          let at : get_elem? as' dim ≡ some a = ap (get_elem? as') here ∙ p in
          let at' : get_elem? bs dim ≡ some b = ap (get_elem? bs) here ∙ q in
          let test : not (a == b) ≡ true = ground (arith, differ) in
          rw (at, at') (rw test (ap ok here))
      | no other ↦
          let (x, n, at, _, _) = Fits-place ns as' dim f (omega (arith, other)) in
          let at' : get_elem? bs dim ≡ some x = sym (before dim (omega (arith, other))) ∙ at in
          let test : not (x == x) ≡ false = ground arith in
          rw (at, at')
            (rw test (
              first_difference_lem rounds (suc dim) k ns as' bs f low (a, b, p, q, differ, before)
                (omega (arith, other)) (omega arith)))
    ]
