-- ===== src/Aware/Basic/RingRoute.antt =====
-- Ring::route, against the ring and against the hop count of the congestion-unaware simulator.
use Prim.Native.Nat.{min}
use astra_network_analytical.Base.{
  ℕ, zero, suc, ◌-◌, ◌≤◌, ◌<◌, ◌≡◌, ◌≢◌, refl, ap, sym, ◌∙◌, ◌⊎◌, inl, inr, Bool, true, false, List,
  [], ◌∷◌, length, ltb, leb, ◌==◌, if◌then◌else◌, Outcome, ok, arith, Bool-cases, lt→ltb, ltb→lt,
}
use astra_network_analytical.Base.Int.{pos, negsuc, pos_part}
use astra_network_analytical.Base.Walks.{Walk, Walk-cons}
use astra_network_analytical.Unaware.Basic.{ring_distance}
use astra_network_analytical.Unaware.Basic.Hops.{
  clockwise, shorter, ring_distance-eq, clockwise_opposite,
}
use astra_network_analytical.Aware.State.{Topology}
use astra_network_analytical.Aware.Basic.{advance, route_loop, route_step, ring_route}

-- The next id round the ring, and the one before.
abbrev pub up : ℕ → ℕ → ℕ
up n a = if leb n (suc a) then suc a - n else suc a

abbrev pub down : ℕ → ℕ → ℕ
down n a = if a == 0 then n - 1 else a - 1

-- The second is an id of the ring next to the first, in a direction that the ring's links go.
abbrev pub Neighbours : Bool → ℕ → ℕ → ℕ → Type 0
Neighbours b n x y = (y < n) × ((y ≡ up n x) ⊎ (b ≡ true) × (x ≡ up n y))

advance-up : (n a : ℕ) → a < n → pos_part (advance n (pos 1) a) ≡ up n a
unfolding advance
advance-up n a h = ground arith

advance-down : (n a : ℕ) → a < n → pos_part (advance n (negsuc 0) a) ≡ down n a
unfolding advance
advance-down n a h = ground arith

up-lt : (n a : ℕ) → a < n → up n a < n
up-lt n a h = ground arith

down-lt : (n a : ℕ) → a < n → down n a < n
down-lt n a h = ground arith

up-down : (n a : ℕ) → a < n → a ≡ up n (down n a)
up-down n a h = ground arith

clockwise-up :
    (n a dest k : ℕ)
    → a < n
    → dest < n
    → clockwise n a dest ≡ suc k
    → (a ≢ dest) × (clockwise n (up n a) dest ≡ k)
unfolding clockwise
clockwise-up n a dest k h g e = ground arith

clockwise-down :
    (n a dest k : ℕ)
    → a < n
    → dest < n
    → clockwise n dest a ≡ suc k
    → (a ≢ dest) × (clockwise n dest (down n a) ≡ k)
unfolding clockwise
clockwise-down n a dest k h g e = ground arith

clockwise-zero : (n a dest : ℕ) → a < n → dest < n → clockwise n a dest ≡ 0 → a ≡ dest
unfolding clockwise
clockwise-zero n a dest h g e = ground arith

clockwise-lt : (n a dest : ℕ) → a < n → dest < n → clockwise n a dest < n
unfolding clockwise
clockwise-lt n a dest h g = ground arith

differ_of_pos : (n a dest : ℕ) → a < n → dest < n → 0 < clockwise n a dest → a ≢ dest
unfolding clockwise
differ_of_pos n a dest h g p e = ground arith

-- What the loop returns from `a` after k steps.
abbrev Returns : Bool → ℕ → ℕ → ℕ → ℕ → Outcome (List ℕ) → Type 0
Returns b n a dest k result =
    (r : List ℕ) × (result ≡ ok r) × Walk (Neighbours b n) a r dest × (length r ≡ suc k)

loop_up :
    (b : Bool) (fuel n a dest k : ℕ)
    → a < n
    → dest < n
    → clockwise n a dest ≡ k
    → k < fuel
    → Returns b n a dest k (route_loop fuel n (pos 1) dest a)
unfolding route_loop
loop_up b zero n a dest k h g e m = absurd (omega arith)
loop_up b (suc fuel) n a dest zero h g e m =
    let same : a ≡ dest = clockwise-zero n a dest h g e in
    let test : (a == dest) ≡ true = ground arith in
    (dest ∷ [], rw test refl, (sym same, same), refl)
loop_up b (suc fuel) n a dest (suc k) h g e m =
    let (differ, closer) = clockwise-up n a dest k h g e in
    let (r, ran, walk, long) =
      loop_up b fuel n (up n a) dest k (up-lt n a h) g closer (omega arith) in
    let test : (a == dest) ≡ false = ground arith in
    (
      a ∷ r,
      rw (test, advance-up n a h) (rw ran refl),
      Walk-cons (Neighbours b n) a (up n a) r dest (up-lt n a h, inl refl) walk,
      ap suc long,
    )

loop_down :
    (fuel n a dest k : ℕ)
    → a < n
    → dest < n
    → clockwise n dest a ≡ k
    → k < fuel
    → Returns true n a dest k (route_loop fuel n (negsuc 0) dest a)
unfolding route_loop
loop_down zero n a dest k h g e m = absurd (omega arith)
loop_down (suc fuel) n a dest zero h g e m =
    let same : a ≡ dest = sym (clockwise-zero n dest a g h e) in
    let test : (a == dest) ≡ true = ground arith in
    (dest ∷ [], rw test refl, (sym same, same), refl)
loop_down (suc fuel) n a dest (suc k) h g e m =
    let (differ, closer) = clockwise-down n a dest k h g e in
    let (r, ran, walk, long) =
      loop_down fuel n (down n a) dest k (down-lt n a h) g closer (omega arith) in
    let test : (a == dest) ≡ false = ground arith in
    (
      a ∷ r,
      rw (test, advance-down n a h) (rw ran refl),
      Walk-cons (Neighbours true n) a (down n a) r dest (down-lt n a h, inr (refl, up-down n a h))
          walk,
      ap suc long,
    )

route_step-eq :
    (b : Bool) (n src dest : ℕ)
    → src < n
    → dest < n
    → route_step b n src dest ≡ (
        if b
        then (if ltb (n - clockwise n src dest) (clockwise n src dest) then negsuc 0 else pos 1)
        else pos 1)
unfolding route_step clockwise
route_step-eq true n src dest h k = ground arith
route_step-eq false n src dest h k = refl

-- The loop in the direction that `route_step` chooses takes the shorter way.
loop_shorter :
    (b : Bool) (n src dest : ℕ)
    → src < n
    → dest < n
    → Returns b n src dest
        (shorter b n (clockwise n src dest))
        (route_loop n n (route_step b n src dest) dest src)
unfolding shorter
loop_shorter false n src dest h k =
    rw (route_step-eq false n src dest h k)
      (loop_up false n n src dest (clockwise n src dest) h k refl (clockwise-lt n src dest h k))
loop_shorter true n src dest h k =
    let c = clockwise n src dest in
    rw (route_step-eq true n src dest h k) (elim (Bool-cases (ltb (n - c) c)) [
      | inl back ↦
          let smaller : n - c < c = ltb→lt (n - c) c back in
          let same : min c (n - c) ≡ n - c = omega arith in
          rw (back, same)
            (loop_down n n src dest (n - c) h k
              (sym (clockwise_opposite n src dest h k (differ_of_pos n src dest h k (omega arith))))
              (omega (arith, clockwise-lt n src dest h k)))
      | inr forth ↦
          let larger : c ≤ n - c = ground arith in
          let same : min c (n - c) ≡ c = omega arith in
          rw (forth, same) (loop_up true n n src dest c h k refl (clockwise-lt n src dest h k))
    ])

-- Between any two ids of a ring `route` returns a list from src to dest, each of its steps between
-- neighbours in a direction that the ring has links in, with exactly as many hops as the
-- congestion-unaware simulator counts; so npus_count rounds of fuel are enough for the loop.
pub ring_route-Walk :
    {W : Type 0} (t : Topology W) (src dest : ℕ)
    → src < t.npus_count
    → dest < t.npus_count
    → (r : List ℕ) × (ring_route t src dest ≡ ok r)
      × Walk (Neighbours t.bidirectional t.npus_count) src r dest
      × (ring_distance t.bidirectional t.npus_count src dest ≡ pos (length r - 1))
unfolding ring_route
ring_route-Walk t src dest h k =
    let (r, ran, walk, long) = loop_shorter t.bidirectional t.npus_count src dest h k in
    (
      r,
      rw (lt→ltb src t.npus_count h, lt→ltb dest t.npus_count k) ran,
      walk,
      ring_distance-eq t.bidirectional t.npus_count src dest h k ∙ ap pos (omega arith),
    )
