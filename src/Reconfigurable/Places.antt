-- ===== src/Reconfigurable/Places.antt =====
-- Lists whose elements have a predicate that depends on their place.
use astra_network_analytical.Base.{
  ℕ, zero, suc, ◌+◌, ◌≤◌, ◌<◌, ◌≡◌, ◌≢◌, subst, List, [], ◌∷◌, length, some, get_elem?, set, arith,
}

-- P at every place, from place i on.
abbrev pub AllAt {ℓ} : {A : Type ℓ} → (ℕ → A → Type 0) → ℕ → List A → Type 0
AllAt P i [] = Unit
AllAt P i (x ∷ xs) = P i x × AllAt P (suc i) xs

pub get_elem?-AllAt {ℓ} :
    {A : Type ℓ} (P : ℕ → A → Type 0) (i j : ℕ) (xs : List A) {x : A}
    → AllAt P i xs
    → get_elem? xs j ≡ some x
    → P (i + j) x
get_elem?-AllAt P i j [] a h = cc
get_elem?-AllAt P i zero (y ∷ ys) {x} a h =
    let same : y ≡ x = cc in subst (λ k. P k x) (omega arith) (subst (P i) same a.0)
get_elem?-AllAt P i (suc j) (y ∷ ys) {x} a h =
    subst (λ k. P k x) (omega arith) (get_elem?-AllAt P (suc i) j ys a.1 h)

pub AllAt-map {ℓ} :
    {A : Type ℓ} (P Q : ℕ → A → Type 0) (i : ℕ) (xs : List A)
    → ((k : ℕ) (x : A) → i ≤ k → k < i + length xs → P k x → Q k x)
    → AllAt P i xs
    → AllAt Q i xs
AllAt-map P Q i [] f a = tt
AllAt-map P Q i (x ∷ xs) f a = (
  f i x (omega arith) (omega arith) a.0,
  AllAt-map P Q (suc i) xs (λ k y l u. f k y (omega arith) (omega arith)) a.1,
)

-- Writing place j, where the predicate may change.
pub set-AllAt {ℓ} :
    {A : Type ℓ} (P Q : ℕ → A → Type 0) (i j : ℕ) (xs : List A) (x : A)
    → ((k : ℕ) (y : A) → k ≢ i + j → P k y → Q k y)
    → Q (i + j) x
    → AllAt P i xs
    → AllAt Q i (set xs j x)
set-AllAt P Q i j [] x f q a = tt
set-AllAt P Q i zero (y ∷ ys) x f q a = (
  subst (λ k. Q k x) (omega arith) q,
  AllAt-map P Q (suc i) ys (λ k z l u. f k z (λ e. omega arith)) a.1,
)
set-AllAt P Q i (suc j) (y ∷ ys) x f q a = (
  f i y (λ e. omega arith) a.0,
  set-AllAt P Q (suc i) j ys x (λ k z ne. f k z (λ e. ne (omega arith)))
      (subst (λ k. Q k x) (omega arith) q) a.1,
)
