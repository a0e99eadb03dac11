-- ===== src/Reconfigurable/Routes/Relax.antt =====
-- One round of the search: what the loop over the targets of a device does to distances, parents
-- and queue.
use astra_network_analytical.Base.{
  ℕ, zero, suc, ◌+◌, ◌≤◌, ◌<◌, ◌≡◌, ◌≢◌, refl, sym, ◌⊎◌, inl, inr, List, [], ◌∷◌, ◌++◌, length,
  get_or, set, All, All-append, none, some, ◌==◌, if◌then◌else◌, arith, Bool-cases, length-set,
  get_or-set_self, get_or-set_ne,
}
use astra_network_analytical.Reconfigurable.Routes.{inf, Search, dist_of, parent_of, relax}

-- The devices that the search has not reached.
abbrev pub unseen : List ℕ → ℕ
unseen [] = 0
unseen (d ∷ ds) = if d == inf then suc (unseen ds) else unseen ds

pub unseen-set :
    (ds : List ℕ) (v x : ℕ)
    → v < length ds
    → get_or ds v inf ≡ inf
    → x < inf
    → suc (unseen (set ds v x)) ≡ unseen ds
unseen-set [] v x h e l = absurd (omega arith)
unseen-set (d ∷ ds) zero x h e l = ground arith
unseen-set (d ∷ ds) (suc v) x h e l = ground (arith, unseen-set ds v x)

unseen_pos : (ds : List ℕ) (v : ℕ) → v < length ds → get_or ds v inf ≡ inf → 0 < unseen ds
unseen_pos [] v h e = absurd (omega arith)
unseen_pos (d ∷ ds) zero h e = ground arith
unseen_pos (d ∷ ds) (suc v) h e = ground (arith, unseen_pos ds v)

-- Device v is reached from u: its entries are written, and it joins the queue.
pub record Reaches (u v : ℕ) (s t : Search) : Type 0 where
  pub fresh : dist_of s v ≡ inf
  pub dist_at : dist_of t v ≡ dist_of s u + 1
  pub parent_at : parent_of t v ≡ some u
  pub dist_off : (j : ℕ) → j ≢ v → dist_of t j ≡ dist_of s j
  pub parent_off : (j : ℕ) → j ≢ v → parent_of t j ≡ parent_of s j
  pub queue_is : t.queue ≡ s.queue ++ v ∷ []
  pub sizes : (length t.dist ≡ length s.dist) × (length t.parent ≡ length s.parent)
  pub some_left : 0 < unseen s.dist
  pub fewer : dist_of s u + 1 < inf → suc (unseen t.dist) ≡ unseen s.dist

pub relax-cases :
    (u v : ℕ) (s : Search)
    → v < length s.dist
    → v < length s.parent
    → Reaches u v s (relax u s v) ⊎ (relax u s v ≡ s) × (dist_of s v ≢ inf)
unfolding relax
relax-cases u v s h k = elim (Bool-cases (dist_of s v == inf)) [
  | inl new ↦
      let unreached : dist_of s v ≡ inf = ground arith in
      inl (
        rw new (record {
          fresh = unreached;
          dist_at = get_or-set_self s.dist v (dist_of s u + 1) inf h;
          parent_at = get_or-set_self s.parent v (some u) none k;
          dist_off = λ j ne. get_or-set_ne s.dist v j (dist_of s u + 1) inf (λ e. ne (sym e));
          parent_off = λ j ne. get_or-set_ne s.parent v j (some u) none (λ e. ne (sym e));
          queue_is = refl;
          sizes = (length-set s.dist v (dist_of s u + 1), length-set s.parent v (some u));
          some_left = unseen_pos s.dist v h unreached;
          fewer = λ small. unseen-set s.dist v (dist_of s u + 1) h unreached small;
        }))
  | inr old ↦ inr (rw old refl, λ e. ground arith)
]

-- The queue is in the order of the distances.
abbrev pub IsSorted : Search → List ℕ → Type 0
IsSorted s [] = Unit
IsSorted s (w ∷ ws) = All (λ x. dist_of s w ≤ dist_of s x) ws × IsSorted s ws

pub IsSorted-snoc :
    (s : Search) (ws : List ℕ) (v : ℕ)
    → IsSorted s ws
    → All (λ w. dist_of s w ≤ dist_of s v) ws
    → IsSorted s (ws ++ v ∷ [])
IsSorted-snoc s [] v h a = (tt, tt)
IsSorted-snoc s (w ∷ ws) v h a = (
  All-append (λ x. dist_of s w ≤ dist_of s x) ws (v ∷ []) h.0 (a.0, tt),
  IsSorted-snoc s ws v h.1 a.1,
)

-- Distances that agree on a list sort it alike.
pub IsSorted-agree :
    (s t : Search) (ws : List ℕ)
    → All (λ w. dist_of t w ≡ dist_of s w) ws
    → IsSorted s ws
    → IsSorted t ws
IsSorted-agree s t [] a h = tt
IsSorted-agree s t (w ∷ ws) a h = (agree ws a.1 h.0, IsSorted-agree s t ws a.1 h.1)
  where
    agree :
        (xs : List ℕ)
        → All (λ x. dist_of t x ≡ dist_of s x) xs
        → All (λ x. dist_of s w ≤ dist_of s x) xs
        → All (λ x. dist_of t w ≤ dist_of t x) xs
    agree [] b l = tt
    agree (x ∷ xs) b l = (omega (arith, a.0, b.0, l.0), agree xs b.1 l.1)
