-- ===== src/Unaware/MultiDim/Radix.antt =====
-- Mixed-radix numbers: the independent description of the addresses, the first digit the fastest.
use mathlib.Core.List.{reverse, reverse-cons}
use mathlib.Core.Path.{ap₂}
use native.Mathlib.Nat.{mul-le-mul_left}
use astra_network_analytical.Base.{
  ℕ, suc, ◌+◌, ◌*◌, ◌<◌, ◌≡◌, refl, ap, sym, List, [], ◌∷◌, ◌++◌, arith, All, length,
}

abbrev pub product : List ℕ → ℕ
product [] = 1
product (n ∷ ns) = n * product ns

-- The number that an address stands for.
abbrev pub value : List ℕ → List ℕ → ℕ
value (n ∷ ns) (a ∷ as') = a + n * value ns as'
value _ _ = 0

-- One digit below each radix.
abbrev pub Fits : List ℕ → List ℕ → Type 0
Fits [] [] = Unit
Fits (n ∷ ns) (a ∷ as') = (a < n) × Fits ns as'
Fits _ _ = ⊥

abbrev pub IsPositive : List ℕ → Type 0
IsPositive = All (λ n. 0 < n)

pub product_pos : (ns : List ℕ) → IsPositive ns → 0 < product ns
product_pos [] p = omega arith
product_pos (n ∷ ns) p = grind (arith, product_pos ns p.1)

pub product-append : (ns ms : List ℕ) → product (ns ++ ms) ≡ product ns * product ms
product-append [] ms = omega arith
product-append (n ∷ ns) ms = rw (product-append ns ms) (omega arith)

pub product-reverse : (ns : List ℕ) → product (reverse ns) ≡ product ns
product-reverse [] = refl
product-reverse (n ∷ ns) =
    rw (reverse-cons n ns, product-append (reverse ns) (n ∷ []), product-reverse ns) (omega arith)

pub Fits-snoc :
    (ns as' : List ℕ) (n a : ℕ) → Fits ns as' → a < n → Fits (ns ++ n ∷ []) (as' ++ a ∷ [])
Fits-snoc [] [] n a f h = (h, tt)
Fits-snoc [] (x ∷ as') n a f h = absurd f
Fits-snoc (m ∷ ns) [] n a f h = absurd f
Fits-snoc (m ∷ ns) (x ∷ as') n a f h = (f.0, Fits-snoc ns as' n a f.1 h)

pub value-snoc :
    (ns as' : List ℕ) (n a : ℕ)
    → Fits ns as'
    → value (ns ++ n ∷ []) (as' ++ a ∷ []) ≡ value ns as' + product ns * a
value-snoc [] [] n a f = omega arith
value-snoc [] (x ∷ as') n a f = absurd f
value-snoc (m ∷ ns) [] n a f = absurd f
value-snoc (m ∷ ns) (x ∷ as') n a f = rw (value-snoc ns as' n a f.1) (omega arith)

pub value-lt-product : (ns as' : List ℕ) → Fits ns as' → value ns as' < product ns
value-lt-product [] [] f = omega arith
value-lt-product [] (x ∷ as') f = absurd f
value-lt-product (m ∷ ns) [] f = absurd f
value-lt-product (m ∷ ns) (x ∷ as') f =
    digit_bound m x (value ns as') (product ns) f.0 (value-lt-product ns as' f.1)
  where
    digit_bound : (m x v p : ℕ) → x < m → v < p → x + m * v < m * p
    digit_bound m x v p h k = grind arith

digits_order : (m x y u v : ℕ) → x < m → x + m * u ≡ y + m * v → ¬ (u < v)
digits_order m x y u v h e p = omega (arith, mul-le-mul_left m p)

digits_eq : (m x y u v : ℕ) → x < m → y < m → x + m * u ≡ y + m * v → (x ≡ y) × (u ≡ v)
digits_eq m x y u v h k e =
    let same : u ≡ v =
      omega (arith, digits_order m x y u v h e, digits_order m y x v u k (sym e)) in
    (omega (arith, ap (λ t. m * t) same), same)

-- An address is determined by its number.
pub value-injective :
    (ns as' bs : List ℕ) → Fits ns as' → Fits ns bs → value ns as' ≡ value ns bs → as' ≡ bs
value-injective [] [] [] f g e = refl
value-injective [] [] (y ∷ bs) f g e = absurd g
value-injective [] (x ∷ as') bs f g e = absurd f
value-injective (m ∷ ns) [] bs f g e = absurd f
value-injective (m ∷ ns) (x ∷ as') [] f g e = absurd g
value-injective (m ∷ ns) (x ∷ as') (y ∷ bs) f g e =
    let (same, rest) = digits_eq m x y (value ns as') (value ns bs) f.0 g.0 e in
    ap₂ ◌∷◌ same (value-injective ns as' bs f.1 g.1 rest)

pub length-Fits : (ns as' : List ℕ) → Fits ns as' → length as' ≡ length ns
length-Fits [] [] f = refl
length-Fits [] (x ∷ as') f = absurd f
length-Fits (m ∷ ns) [] f = absurd f
length-Fits (m ∷ ns) (x ∷ as') f = ap suc (length-Fits ns as' f.1)
