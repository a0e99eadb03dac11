-- ===== src/Unaware/Basic/Hops.antt =====
-- The hop counts of the ring, against the positions on it.
use Prim.Native.Nat.{min}
use native.Mathlib.Nat.{mod-eq_of_lt, add-mod_right, div-add-mod}
use native.Mathlib.Decide.{dec_le}
use astra_network_analytical.Base.{
  zero, suc, le→leb, ◌/◌, ℕ, ◌+◌, ◌-◌, ◌*◌, ◌%◌, ◌≤◌, ◌<◌, ◌≡◌, ◌≢◌, refl, ◌⊎◌, inl, inr, Bool,
  true, false, leb, if◌then◌else◌, arith,
}
use astra_network_analytical.Base.Int.{pos}
use astra_network_analytical.Unaware.Basic.{ring_distance}

-- How far `dest` lies from `src` in the direction of rising ids.
unfoldable pub clockwise : ℕ → ℕ → ℕ → ℕ
clockwise n src dest = if leb src dest then dest - src else dest + n - src

unfoldable pub shorter : Bool → ℕ → ℕ → ℕ
shorter true n c = min c (n - c)
shorter false n c = c

pub ring_distance-eq :
    (b : Bool) (n src dest : ℕ)
    → src < n
    → dest < n
    → ring_distance b n src dest ≡ pos (shorter b n (clockwise n src dest))
unfolding ring_distance shorter clockwise
ring_distance-eq true n src dest h k = ground arith
ring_distance-eq false n src dest h k = ground arith

-- k steps clockwise lead from src to dest.
abbrev pub Leads : ℕ → ℕ → ℕ → ℕ → Type 0
Leads n k src dest = (src + k) % n ≡ dest

clockwise-Leads : (n src dest : ℕ) → src < n → dest < n → Leads n (clockwise n src dest) src dest
unfolding clockwise
clockwise-Leads n src dest h k = elim (dec_le src dest) [
  | yes p ↦
      rw (le→leb src dest p)
        (let e : src + (dest - src) ≡ dest = omega arith in rw e (mod-eq_of_lt k))
  | no p ↦
      let e : src + (dest + n - src) ≡ dest + n = omega arith in
      let f : leb src dest ≡ false = ground arith in rw f (rw (e, add-mod_right) (mod-eq_of_lt k))
]

-- No fewer steps do.
clockwise-le : (n src dest k : ℕ) → src < n → Leads n k src dest → clockwise n src dest ≤ k
unfolding clockwise
clockwise-le n src dest k h e = go ((src + k) / n) (omega (arith, div-add-mod (src + k) n))
  where
    go :
        (q : ℕ) → n * q + dest ≡ src + k → (if leb src dest then dest - src else dest + n - src) ≤ k
    go zero f = ground arith
    go (suc q) f = ground arith

pub clockwise_bounds :
    (n src dest : ℕ)
    → src < n
    → dest < n
    → src ≢ dest
    → (0 < clockwise n src dest) × (clockwise n src dest < n)
unfolding clockwise
clockwise_bounds n src dest h k e = ground arith

pub clockwise_opposite :
    (n src dest : ℕ)
    → src < n
    → dest < n
    → src ≢ dest
    → n - clockwise n src dest ≡ clockwise n dest src
unfolding clockwise
clockwise_opposite n src dest h k e = ground arith

-- k steps, clockwise or, on a bidirectional ring, either way, join src and dest.
abbrev pub Joins : Bool → ℕ → ℕ → ℕ → ℕ → Type 0
Joins b n k src dest = Leads n k src dest ⊎ (b ≡ true) × Leads n k dest src

shorter-min :
    (n src dest : ℕ)
    → src < n
    → dest < n
    → src ≢ dest
    → shorter true n (clockwise n src dest) ≡ min (clockwise n src dest) (clockwise n dest src)
unfolding shorter
shorter-min n src dest h k e = rw (clockwise_opposite n src dest h k e) refl

shorter-Joins :
    (b : Bool) (n src dest : ℕ)
    → src < n
    → dest < n
    → src ≢ dest
    → Joins b n (shorter b n (clockwise n src dest)) src dest
shorter-Joins false n src dest h k e = unfold shorter in inl (clockwise-Leads n src dest h k)
shorter-Joins true n src dest h k e =
    rw (shorter-min n src dest h k e) (elim (dec_le (clockwise n src dest) (clockwise n dest src)) [
      | yes p ↦
          let f : min (clockwise n src dest) (clockwise n dest src) ≡ clockwise n src dest =
            omega arith in
          rw f (inl (clockwise-Leads n src dest h k))
      | no p ↦
          let f : min (clockwise n src dest) (clockwise n dest src) ≡ clockwise n dest src =
            omega arith in
          rw f (inr (refl, clockwise-Leads n dest src k h))
    ])

shorter-le :
    (b : Bool) (n src dest j : ℕ)
    → src < n
    → dest < n
    → src ≢ dest
    → Joins b n j src dest
    → shorter b n (clockwise n src dest) ≤ j
shorter-le false n src dest j h k e (inl p) = unfold shorter in clockwise-le n src dest j h p
shorter-le false n src dest j h k e (inr (p, q)) = cc
shorter-le true n src dest j h k e (inl p) =
    omega (arith, shorter-min n src dest h k e, clockwise-le n src dest j h p)
shorter-le true n src dest j h k e (inr (p, q)) =
    omega (arith, shorter-min n src dest h k e, clockwise-le n dest src j k q)

pub shorter_bounds :
    (b : Bool) (n src dest : ℕ)
    → src < n
    → dest < n
    → src ≢ dest
    → (0 < shorter b n (clockwise n src dest))
      × (shorter b n (clockwise n src dest) < n)
      × (b ≡ true → 2 * shorter b n (clockwise n src dest) ≤ n)
unfolding shorter
shorter_bounds true n src dest h k e =
    let (p, q) = clockwise_bounds n src dest h k e in (omega arith, omega arith, λ _. omega arith)
shorter_bounds false n src dest h k e =
    let (p, q) = clockwise_bounds n src dest h k e in (p, q, λ f. cc)

-- On a bidirectional ring the way back is as long as the way there.
pub ring_distance_symm :
    (n src dest : ℕ)
    → src < n
    → dest < n
    → ring_distance true n src dest ≡ ring_distance true n dest src
unfolding ring_distance
ring_distance_symm n src dest h k = ground arith

-- Between two different ids of a ring of n NPUs the hop count is positive, below n, and on a
-- bidirectional ring at most half of n. That many steps join the two, clockwise or, on a
-- bidirectional ring, either way, and no fewer steps do.
pub ring_distance-shortest :
    (b : Bool) (n src dest : ℕ)
    → src < n
    → dest < n
    → src ≢ dest
    → (k : ℕ) × (ring_distance b n src dest ≡ pos k)
      × (0 < k)
      × (k < n)
      × (b ≡ true → 2 * k ≤ n)
      × Joins b n k src dest
      × ((j : ℕ) → Joins b n j src dest → k ≤ j)
ring_distance-shortest b n src dest h k e = (
  shorter b n (clockwise n src dest),
  ring_distance-eq b n src dest h k,
  (shorter_bounds b n src dest h k e).0,
  (shorter_bounds b n src dest h k e).1,
  (shorter_bounds b n src dest h k e).2,
  shorter-Joins b n src dest h k e,
  λ j. shorter-le b n src dest j h k e,
)
