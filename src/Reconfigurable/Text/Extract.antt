-- ===== src/Reconfigurable/Text/Extract.antt =====
-- The reading of ints uses up the text, so that its length is enough fuel for the loop.
use astra_network_analytical.Base.{
  ℕ, zero, suc, ◌+◌, ◌-◌, ◌*◌, ◌^◌, ◌≤◌, ◌<◌, ◌≡◌, refl, ap, Bool, true, false, Bool-cases, inl,
  inr, List, [], ◌∷◌, length, ltb, leb, ◌==◌, arith,
}
use astra_network_analytical.Base.Int.{ℤ}
use astra_network_analytical.Reconfigurable.Text.{
  Text, Extraction, extracted, untouched, failed_with, is_digit, read_digits, skip_space, is_space,
  in_range, read_unsigned, read_signed, extract, extract_all, push_extracted,
}

read_digits-length : (value : ℕ) (s : Text) → length (read_digits value s).1 ≤ length s
unfolding read_digits
read_digits-length value [] = omega arith
read_digits-length value (c ∷ cs) = elim (Bool-cases (is_digit c)) [
  | inl digit ↦ rw digit (omega (arith, read_digits-length (10 * value + (c - b'0')) cs))
  | inr other ↦ rw other (omega arith)
]

skip_space-length : (s : Text) → length (skip_space s) ≤ length s
unfolding skip_space
skip_space-length [] = omega arith
skip_space-length (c ∷ cs) = elim (Bool-cases (is_space c)) [
  | inl space ↦ rw space (omega (arith, skip_space-length cs))
  | inr other ↦ rw other (omega arith)
]

-- What is left where a value is extracted is shorter than this.
abbrev LeavesLess : ℕ → Extraction → Type 0
LeavesLess n (extracted value rest) = length rest < n
LeavesLess n untouched = Unit
LeavesLess n (failed_with value) = Unit

in_range-LeavesLess :
    (negative : Bool) (value : ℕ) (rest : Text) (n : ℕ)
    → length rest < n
    → LeavesLess n (in_range negative value rest)
unfolding in_range
in_range-LeavesLess true value rest n h = elim (Bool-cases (leb value (2 ^ 31))) [
  | inl inside ↦ rw inside h
  | inr outside ↦ rw outside tt
]
in_range-LeavesLess false value rest n h = elim (Bool-cases (ltb value (2 ^ 31))) [
  | inl inside ↦ rw inside h
  | inr outside ↦ rw outside tt
]

read_unsigned-LeavesLess :
    (negative : Bool) (s : Text) (n : ℕ) → length s ≤ n → LeavesLess n (read_unsigned negative s)
unfolding read_unsigned
read_unsigned-LeavesLess negative [] n h = tt
read_unsigned-LeavesLess negative (c ∷ cs) n h = elim (Bool-cases (is_digit c)) [
  | inl digit ↦ rw digit (
      in_range-LeavesLess negative _ _ n
        (unfold read_digits in omega (arith, read_digits-length (10 * 0 + (c - b'0')) cs)))
  | inr other ↦ rw other tt
]

read_signed-LeavesLess : (s : Text) (n : ℕ) → length s ≤ n → LeavesLess n (read_signed s)
unfolding read_signed
read_signed-LeavesLess [] n h = tt
read_signed-LeavesLess (c ∷ cs) n h = elim (Bool-cases (c == b'-')) [
  | inl minus ↦ rw minus (read_unsigned-LeavesLess true cs n (omega arith))
  | inr other ↦ rw other (elim (Bool-cases (c == b'+')) [
    | inl plus ↦ rw plus (read_unsigned-LeavesLess false cs n (omega arith))
    | inr bare ↦ rw bare (read_unsigned-LeavesLess false (c ∷ cs) n h)
  ])
]

extract-LeavesLess : (s : Text) → LeavesLess (length s) (extract s)
unfolding extract
extract-LeavesLess s = read_signed-LeavesLess (skip_space s) (length s) (skip_space-length s)

push_extracted-same :
    (n : ℕ) (f g : Text → List ℤ) (e : Extraction)
    → LeavesLess n e
    → ((rest : Text) → length rest < n → f rest ≡ g rest)
    → push_extracted f e ≡ push_extracted g e
push_extracted-same n f g (extracted value rest) less same = ap (λ r. value ∷ r) (same rest less)
push_extracted-same n f g untouched less same = refl
push_extracted-same n f g (failed_with value) less same = refl

extract_all-same :
    (f g : ℕ) (s : Text) → length s ≤ f → length s ≤ g → extract_all f s ≡ extract_all g s
unfolding extract_all
extract_all-same zero zero s h k = refl
extract_all-same zero (suc g) [] h k = unfold extract skip_space read_signed in refl
extract_all-same zero (suc g) (c ∷ cs) h k = absurd (omega arith)
extract_all-same (suc f) zero [] h k = unfold extract skip_space read_signed in refl
extract_all-same (suc f) zero (c ∷ cs) h k = absurd (omega arith)
extract_all-same (suc f) (suc g) s h k =
    push_extracted-same (length s) (extract_all f) (extract_all g) (extract s)
      (extract-LeavesLess s) (λ rest less. extract_all-same f g rest (omega arith) (omega arith))

-- The length of the text is enough fuel: more changes nothing.
extract_all-length :
    (fuel : ℕ) (s : Text) → length s ≤ fuel → extract_all fuel s ≡ extract_all (length s) s
extract_all-length fuel s h = extract_all-same fuel (length s) s h (omega arith)
