-- ===== src/Double/Rational.antt =====
-- Exact fractions as doubles, to run the model on numbers: (plus - minus) / (den_pred + 1), with
-- `none` for what is no finite number. They meet the laws.
use native.Mathlib.Nat.{
  le-div_iff_mul-le, le_of_mul-le-mul_right, div-mul-le_self, mul-le-mul_right,
}
use native.Mathlib.Decide.{dec_le}
use astra_network_analytical.Base.{
  subst, ℕ, suc, ◌+◌, ◌-◌, ◌*◌, ◌/◌, ◌^◌, ◌≤◌, ◌<◌, ◌≡◌, Bool, true, false, Option, none, some,
  arith, ltb, leb, ◌==◌, if◌then◌else◌, le→leb,
}
use astra_network_analytical.Base.Int.{pos_part, neg_part}
use astra_network_analytical.Double.{Double, DoubleLaws, nought}

pub record Fraction : Type 0 where
  pub plus : ℕ
  pub minus : ℕ
  pub den_pred : ℕ

abbrev pub Rational : Type 0
Rational = Option Fraction

abbrev den : Fraction → ℕ
den a = suc a.den_pred

-- The product of two denominators, less one.
abbrev den_mul : Fraction → Fraction → ℕ
den_mul a b = a.den_pred * b.den_pred + a.den_pred + b.den_pred

abbrev add_fraction : Fraction → Fraction → Fraction
add_fraction a b = record {
  plus = a.plus * den b + b.plus * den a;
  minus = a.minus * den b + b.minus * den a;
  den_pred = den_mul a b;
}

abbrev mul_fraction : Fraction → Fraction → Fraction
mul_fraction a b = record {
  plus = a.plus * b.plus + a.minus * b.minus;
  minus = a.plus * b.minus + a.minus * b.plus;
  den_pred = den_mul a b;
}

abbrev div_fraction : Fraction → Fraction → Rational
div_fraction a b =
    if b.plus == b.minus
    then none
    else if ltb b.minus b.plus
    then some (record {
      plus = a.plus * den b;
      minus = a.minus * den b;
      den_pred = den a * (b.plus - b.minus) - 1;
    })
    else some (record {
      plus = a.minus * den b;
      minus = a.plus * den b;
      den_pred = den a * (b.minus - b.plus) - 1;
    })

abbrev le_fraction : Fraction → Fraction → Bool
le_fraction a b = leb (a.plus * den b + b.minus * den a) (b.plus * den a + a.minus * den b)

-- The cast drops the fraction; between -1 and 0 that gives 0.
abbrev truncate : Fraction → Option ℕ
truncate a =
    if leb a.minus a.plus
    then (if ltb ((a.plus - a.minus) / den a) (2 ^ 64)
        then some ((a.plus - a.minus) / den a)
        else none)
    else if ltb (a.minus - a.plus) (den a)
    then some 0
    else none

abbrev lift : (Fraction → Fraction → Rational) → Rational → Rational → Rational
lift f (some a) (some b) = f a b
lift f _ _ = none

abbrev compare_by : (Fraction → Fraction → Bool) → Rational → Rational → Bool
compare_by f (some a) (some b) = f a b
compare_by f _ _ = false

abbrev cast : Rational → Option ℕ
cast none = none
cast (some a) = truncate a

instance abbrev pub rational_double : Double Rational
rational_double = record {
  of_int = λ z. some (record { plus = pos_part z; minus = neg_part z; den_pred = 0 });
  add = lift (λ a b. some (add_fraction a b));
  mul = lift (λ a b. some (mul_fraction a b));
  div = lift div_fraction;
  le = compare_by le_fraction;
  lt = compare_by (λ a b. if le_fraction b a then false else true);
  eq = compare_by (λ a b. if le_fraction a b then le_fraction b a else false);
  to_uint64 = cast;
}

div_mono : (x y a b : ℕ) → x * suc b ≤ y * suc a → x / suc a ≤ y / suc b
div_mono x y a b h =
    (le-div_iff_mul-le {k = suc b} (omega arith)).1
      (le_of_mul-le-mul_right {k = suc a} bound (omega arith))
  where
    bound : x / suc a * suc b * suc a ≤ y * suc a
    bound = omega (arith, mul-le-mul_right (suc b) (div-mul-le_self x (suc a)))

cast-lt : (x : Rational) (n : ℕ) → cast x ≡ some n → n < 2 ^ 64
cast-lt none n h = cc
cast-lt (some a) n h = ground arith

-- The order of two fractions, over the parts by which they exceed their `minus`.
order_of_parts :
    (am u bm v da db : ℕ) → (am + u) * db + bm * da ≤ (bm + v) * da + am * db → u * db ≤ v * da
order_of_parts am u bm v da db h = omega arith

scaled_order :
    (am ap bm bp da db : ℕ)
    → ap * db + bm * da ≤ bp * da + am * db
    → am ≤ ap
    → bm ≤ bp
    → (ap - am) * db ≤ (bp - bm) * da
scaled_order am ap bm bp da db h p q =
    let e : am + (ap - am) ≡ ap = omega arith in
    let f : bm + (bp - bm) ≡ bp = omega arith in
    order_of_parts am (ap - am) bm (bp - bm) da db (rw (e, f) h)

-- What is not negative is not below what is.
sign_of_order :
    (am u bp v da db : ℕ) → ¬ ((am + u) * db + (bp + suc v) * suc da ≤ bp * suc da + am * db)
sign_of_order am u bp v da db h = omega arith

not_negative :
    (a b : Fraction)
    → a.plus * den b + b.minus * den a ≤ b.plus * den a + a.minus * den b
    → a.minus ≤ a.plus
    → b.minus ≤ b.plus
not_negative a b h p = elim (dec_le b.minus b.plus) [
  | yes q ↦ q
  | no n ↦
      let e : a.minus + (a.plus - a.minus) ≡ a.plus = omega arith in
      let f : b.plus + suc (b.minus - b.plus - 1) ≡ b.minus = omega arith in
      absurd (
        sign_of_order a.minus (a.plus - a.minus) b.plus (b.minus - b.plus - 1) a.den_pred (den b)
          (rw (e, f) h))
]

add_order :
    (xp xm k lm dx dl : ℕ)
    → xp * suc (dl * dx + dl + dx) + (lm * suc dx + xm * suc dl) * suc dx
      ≤ ((lm + k) * suc dx + xp * suc dl) * suc dx + xm * suc (dl * dx + dl + dx)
add_order xp xm k lm dx dl = omega arith

le_of_order :
    (a b : Fraction)
    → a.plus * den b + b.minus * den a ≤ b.plus * den a + a.minus * den b
    → a.minus ≤ a.plus
    → b.minus ≤ b.plus
    → (a.plus - a.minus) / den a ≤ (b.plus - b.minus) / den b
le_of_order a b h p q =
    div_mono (a.plus - a.minus) (b.plus - b.minus) a.den_pred b.den_pred
      (scaled_order a.minus a.plus b.minus b.plus (den a) (den b) h p q)

cast_mono :
    (x y : Rational) (m n : ℕ)
    → compare_by le_fraction x y ≡ true
    → cast x ≡ some m
    → cast y ≡ some n
    → m ≤ n
cast_mono none y m n h p q = cc
cast_mono (some a) none m n h p q = cc
cast_mono (some a) (some b) m n h p q = ground (arith, le_of_order a b, not_negative a b)

le-add :
    (l x : Rational) (m : ℕ)
    → compare_by le_fraction nought l ≡ true
    → cast x ≡ some m
    → compare_by le_fraction x (lift (λ a b. some (add_fraction a b)) l x) ≡ true
le-add none x m h p = cc
le-add (some l) none m h p = cc
le-add (some l) (some x) m h p =
    let e : l.minus + (l.plus - l.minus) ≡ l.plus = ground arith in
    le→leb _ _ (
      subst
        (λ t.
          x.plus * den (add_fraction l x) + (l.minus * den x + x.minus * den l) * den x
          ≤ (t * den x + x.plus * den l) * den x + x.minus * den (add_fraction l x))
        e (add_order x.plus x.minus (l.plus - l.minus) l.minus x.den_pred l.den_pred))

pub rational-DoubleLaws : DoubleLaws Rational
rational-DoubleLaws = record { to_uint64-lt = cast-lt; to_uint64-mono = cast_mono; le-add = le-add }
