-- ===== src/Base/Walks.antt =====
-- Walks in a relation on ids, as the lists of what they visit.
use Prim.Native.Nat.{ℕ}
use mathlib.Core.Path.{◌≡◌, refl, sym, subst, ◌∙◌}
use mathlib.Core.List.{List, [], ◌∷◌}

-- A list that begins at a, ends at b, and goes by R in each step.
abbrev pub Walk : (ℕ → ℕ → Type 0) → ℕ → List ℕ → ℕ → Type 0
Walk R a [] b = ⊥
Walk R a (x ∷ []) b = (x ≡ a) × (a ≡ b)
Walk R a (x ∷ y ∷ r) b = (x ≡ a) × R a y × Walk R y (y ∷ r) b

pub Walk-cons :
    (R : ℕ → ℕ → Type 0) (a y : ℕ) (r : List ℕ) (b : ℕ) → R a y → Walk R y r b → Walk R a (a ∷ r) b
Walk-cons R a y [] b s w = absurd w
Walk-cons R a y (x ∷ []) b s w = (refl, subst (R a) (sym w.0) s, (refl, w.0 ∙ w.1))
Walk-cons R a y (x ∷ z ∷ r) b s w =
    (refl, subst (R a) (sym w.0) s, (refl, subst (λ t. R t z) (sym w.0) w.1, w.2))

pub Walk-map :
    (R S : ℕ → ℕ → Type 0)
    → ((x y : ℕ) → R x y → S x y)
    → (a : ℕ) (r : List ℕ) (b : ℕ) → Walk R a r b
    → Walk S a r b
Walk-map R S f a [] b w = absurd w
Walk-map R S f a (x ∷ []) b w = w
Walk-map R S f a (x ∷ y ∷ r) b w = (w.0, f a y w.1, Walk-map R S f y (y ∷ r) b w.2)

-- The same where P holds of what the walk visits.
pub Walk-map_inside :
    (P : ℕ → Type 0) (R S : ℕ → ℕ → Type 0)
    → ((x y : ℕ) → P x → R x y → S x y × P y)
    → (a : ℕ) (r : List ℕ) (b : ℕ) → P a
    → Walk R a r b
    → Walk S a r b
Walk-map_inside P R S f a [] b p w = absurd w
Walk-map_inside P R S f a (x ∷ []) b p w = w
Walk-map_inside P R S f a (x ∷ y ∷ r) b p w =
    let (s, q) = f a y p w.1 in (w.0, s, Walk-map_inside P R S f y (y ∷ r) b q w.2)
