-- ===== src/Unaware/MultiDim/Address.antt =====
-- translate_address against the mixed-radix description.
use mathlib.Core.List.{reverse, reverse-cons, reverse-reverse, append_assoc, append-nil}
use native.Mathlib.Nat.{div-add-mod, div-lt_iff_lt-mul, mod-lt, mul-div_cancel_left}
use astra_network_analytical.Base.{
  ℕ, ◌*◌, ◌/◌, ◌%◌, ◌<◌, ◌≡◌, refl, ap, ◌∙◌, sym, ◌+◌, ◌≤◌, zero, suc, some, get_elem?, length,
  length-append, subst, List, [], ◌∷◌, ◌++◌, arith, All-append, true, not, ◌==◌, ok, lt→ltb,
}
use astra_network_analytical.Unaware.MultiDim.{
  MultiDimTopology, address_loop, check_address, translate_address,
}
use astra_network_analytical.Unaware.MultiDim.Radix.{
  product, value, Fits, IsPositive, product_pos, product-reverse, Fits-snoc, value-snoc,
  value-injective, value-lt-product,
}

IsPositive-reverse : (ns : List ℕ) → IsPositive ns → IsPositive (reverse ns)
IsPositive-reverse [] p = tt
IsPositive-reverse (n ∷ ns) p =
    rw (reverse-cons n ns)
      (All-append (λ n. 0 < n) (reverse ns) (n ∷ []) (IsPositive-reverse ns p.1) (p.0, tt))

nonzero : (n : ℕ) → 0 < n → not (n == 0) ≡ true
nonzero n h = ground arith

digit_lt : (left n p : ℕ) → 0 < p → left < n * p → left / p < n
digit_lt left n p h k = (div-lt_iff_lt-mul {k = p} h).1 k

-- The place behind a list.
get_elem?-append_length : (ns ms : List ℕ) (n : ℕ) → get_elem? (ns ++ n ∷ ms) (length ns) ≡ some n
get_elem?-append_length [] ms n = refl
get_elem?-append_length (x ∷ ns) ms n = get_elem?-append_length ns ms n

length-reverse : (ns : List ℕ) → length (reverse ns) ≡ length ns
length-reverse [] = refl
length-reverse (n ∷ ns) =
    rw (reverse-cons n ns) (omega (arith, length-append (reverse ns) (n ∷ []), length-reverse ns))

reverse-place :
    (n : ℕ) (ns tail : List ℕ)
    → (reverse (n ∷ ns) ++ tail ≡ reverse ns ++ n ∷ tail)
      × (get_elem? (reverse (n ∷ ns) ++ tail) (length ns) ≡ some n)
reverse-place n ns tail =
    let same : reverse (n ∷ ns) ++ tail ≡ reverse ns ++ n ∷ tail =
      ap (λ l. l ++ tail) (reverse-cons n ns) ∙ append_assoc (reverse ns) (n ∷ []) tail in
    (
      same,
      ap (λ l. get_elem? l (length ns)) same
          ∙ ap (λ k. get_elem? (reverse ns ++ n ∷ tail) k) (sym (length-reverse ns))
          ∙ get_elem?-append_length (reverse ns) tail n,
    )

-- What the loop returns on the dimensions ns, the last one first, of those with `tail` behind: the
-- address of the number, before what was there.
abbrev Decodes : List ℕ → List ℕ → ℕ → List ℕ → Type 0
Decodes ns tail left acc =
    (address : List ℕ) × (address_loop (length ns) (reverse ns ++ tail) left (product ns) acc
      ≡ ok (address ++ acc))
    × Fits (reverse ns) address
    × (value (reverse ns) address ≡ left)

address_loop-Decodes :
    (ns tail : List ℕ) (left : ℕ) (acc : List ℕ)
    → IsPositive ns
    → left < product ns
    → Decodes ns tail left acc
unfolding address_loop
address_loop-Decodes [] tail left acc p h = ([], refl, tt, omega arith)
address_loop-Decodes (n ∷ ns) tail left acc p h =
    let P = product ns in
    let P_pos = product_pos ns p.1 in
    let q = left / P in
    let (same, here) = reverse-place n ns tail in
    let (address, ran, fits, says) =
      address_loop-Decodes ns (n ∷ tail) (left % P) (q ∷ acc) p.1 (mod-lt left P_pos) in
    let ran' : address_loop (length ns) (reverse (n ∷ ns) ++ tail) (left % P) P (q ∷ acc)
        ≡ ok (address ++ q ∷ acc) =
      ap (λ l. address_loop (length ns) l (left % P) P (q ∷ acc)) same ∙ ran in
    (
      address ++ q ∷ [],
      rw here (
          rw (nonzero n p.0) (
            rw (mul-div_cancel_left P p.0)
              (rw (nonzero P P_pos) (ran' ∙ ap ok (sym (append_assoc address (q ∷ []) acc)))))),
      subst (λ r. Fits r (address ++ q ∷ [])) (sym (reverse-cons n ns))
          (Fits-snoc (reverse ns) address n q fits (digit_lt left n P P_pos h)),
      subst (λ r. value r (address ++ q ∷ []) ≡ left) (sym (reverse-cons n ns))
          (value-snoc (reverse ns) address n q fits
            ∙ omega (arith, says, div-add-mod left P, ap (λ t. t * q) (product-reverse ns))),
    )

-- The digit at a place, and the count of its dimension.
pub Fits-place :
    (ns address : List ℕ) (i : ℕ)
    → Fits ns address
    → i < length ns
    → (a n : ℕ) × (get_elem? address i ≡ some a) × (get_elem? ns i ≡ some n) × (a < n)
Fits-place [] address i f low = absurd (omega arith)
Fits-place (n ∷ ns) [] i f low = absurd f
Fits-place (n ∷ ns) (a ∷ as') zero f low = (a, n, refl, refl, f.0)
Fits-place (n ∷ ns) (a ∷ as') (suc i) f low = Fits-place ns as' i f.1 (omega arith)

check_address-ok :
    (rounds i : ℕ) (ns address : List ℕ)
    → Fits ns address
    → i + rounds ≤ length ns
    → check_address rounds i address ns ≡ ok tt
unfolding check_address
check_address-ok zero i ns address f low = refl
check_address-ok (suc rounds) i ns address f low =
    let (a, n, digit, count, below) = Fits-place ns address i f (omega arith) in
    rw (digit, count)
      (rw (lt→ltb a n below) (check_address-ok rounds (suc i) ns address f (omega arith)))

loop_decodes :
    (ns : List ℕ) (left : ℕ)
    → IsPositive ns
    → left < product ns
    → (address : List ℕ) × (address_loop (length ns) ns left (product ns) [] ≡ ok address)
      × Fits ns address
      × (value ns address ≡ left)
loop_decodes ns left p h =
    let (address, ran, fits, says) =
      address_loop-Decodes (reverse ns) [] left [] (IsPositive-reverse ns p)
        (subst (λ t. left < t) (sym (product-reverse ns)) h) in
    let back : reverse (reverse ns) ++ [] ≡ ns =
      append-nil (reverse (reverse ns)) ∙ reverse-reverse ns in
    (
      address,
      subst (λ t. address_loop (length ns) ns left t [] ≡ ok address) (product-reverse ns)
          (subst (λ k. address_loop k ns left (product (reverse ns)) [] ≡ ok address)
            (length-reverse ns)
            (subst
              (λ l.
                address_loop (length (reverse ns)) l left (product (reverse ns)) [] ≡ ok address)
              back (ran ∙ ap ok (append-nil address)))),
      subst (λ r. Fits r address) (reverse-reverse ns) fits,
      subst (λ r. value r address ≡ left) (reverse-reverse ns) says,
    )

-- The counts of the dimensions, how many they are, and their product.
pub record IsShaped {W : Type 0} (m : MultiDimTopology W) : Type 0 where
  pub dims : m.dims_count ≡ length m.npus_count_per_dim
  pub positive : IsPositive m.npus_count_per_dim
  pub total : m.npus_count ≡ product m.npus_count_per_dim

module _ {W : Type 0} (m : MultiDimTopology W) where
  -- Where the counts are dims_count many and positive, with npus_count as product, every id below npus_count has an address, with each digit below the count of its
  -- dimension, and the address stands for the id.
  pub translate_address-value :
      (npu_id : ℕ)
      → IsShaped m
      → npu_id < m.npus_count
      → (address : List ℕ) × (translate_address m npu_id ≡ ok address)
        × Fits m.npus_count_per_dim address
        × (value m.npus_count_per_dim address ≡ npu_id)
  unfolding translate_address
  translate_address-value npu_id w h =
      let (address, ran, fits, says) =
        loop_decodes m.npus_count_per_dim npu_id w.positive (subst (λ t. npu_id < t) w.total h) in
      let ns = m.npus_count_per_dim in
      let loop : address_loop m.dims_count ns npu_id m.npus_count [] ≡ ok address =
        ap (λ k. address_loop k ns npu_id m.npus_count []) w.dims
        ∙ ap (λ t. address_loop (length ns) ns npu_id t []) w.total
        ∙ ran in
      (
        address,
        rw loop (rw (check_address-ok m.dims_count 0 ns address fits (omega (arith, w.dims))) refl),
        fits,
        says,
      )

  -- Where the counts are dims_count many and positive, with npus_count as product, translating the number that an address
  -- with digits in range stands for gives the address.
  pub translate_address-of_value :
      (address : List ℕ)
      → IsShaped m
      → Fits m.npus_count_per_dim address
      → translate_address m (value m.npus_count_per_dim address) ≡ ok address
  translate_address-of_value address w f =
      let (found, ran, fits, says) =
        translate_address-value (value m.npus_count_per_dim address) w
          (rw (w.total) (value-lt-product m.npus_count_per_dim address f)) in
      ran ∙ ap ok (value-injective m.npus_count_per_dim found address fits f says)
