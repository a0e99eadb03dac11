-- ===== src/Reconfigurable/Routes/Loop.antt =====
-- The search as a whole: it ends within n rounds, and what it has found then is complete.
use mathlib.Core.List.{Memᴰ}
use mathlib.Core.List.Memᴰ
use astra_network_analytical.Base.{
  ℕ, zero, suc, ◌+◌, ◌≤◌, ◌<◌, ◌≡◌, ◌≢◌, refl, sym, ◌∙◌, ap, subst, ◌⊎◌, inl, inr, List, [], ◌∷◌,
  length, replicate, All, All-map, All-Mem, All-of_Mem, none, ok, arith, length-set,
  length-replicate, get_or-replicate, get_or-set_self, get_or-set_ne,
}
use astra_network_analytical.Reconfigurable.Routes.{
  Graph, targets, inf, Search, dist_of, init, relax_all, search_loop,
}
use astra_network_analytical.Reconfigurable.Routes.Relax.{unseen, unseen-set, IsSorted}
use astra_network_analytical.Reconfigurable.Routes.Round.{
  Edge, Grown, Round, Finished, relax_all-Round, eq_or_ne,
}

List-cases : (xs : List ℕ) → (xs ≡ []) ⊎ (x : ℕ) × (rest : List ℕ) × (xs ≡ x ∷ rest)
List-cases [] = inl refl
List-cases (x ∷ rest) = inr (x, rest, refl)

unseen-replicate : (n : ℕ) → unseen (replicate n inf) ≡ n
unseen-replicate zero = refl
unseen-replicate (suc n) = ap suc (unseen-replicate n)

module _ (adj : Graph) (n src : ℕ) where
  -- The edges stay within the n devices.
  abbrev pub IsBounded : Type 0
  IsBounded = (u v : ℕ) → Edge adj n src u v → v < n

  pub record Inv (s : Search) : Type 0 where
    pub grown : Grown adj n src s
    pub waiting : All (λ w. (w < n) × (dist_of s w < inf)) s.queue
    pub sorted : IsSorted s s.queue
    pub spread : All (λ u. (v : ℕ) → dist_of s v < inf → dist_of s v ≤ dist_of s u + 1) s.queue
    pub closed :
        (x v : ℕ)
        → dist_of s x < inf
        → Edge adj n src x v
        → Memᴰ x s.queue ⊎ (dist_of s v < inf) × (dist_of s v ≤ dist_of s x + 1)

  Round-of_Inv :
      (s : Search) (u : ℕ) (rest : List ℕ)
      → s.queue ≡ u ∷ rest
      → Inv s
      → Round adj n src u (record s { queue = rest })
  Round-of_Inv s u rest e h =
      let waiting = subst (All (λ w. (w < n) × (dist_of s w < inf))) e h.waiting in
      let sorted = subst (IsSorted s) e h.sorted in
      let spread =
        subst (All (λ x. (v : ℕ) → dist_of s v < inf → dist_of s v ≤ dist_of s x + 1)) e h.spread in
      record {
        grown = record {
          sizes = h.grown.sizes;
          origin = h.grown.origin;
          reached = h.grown.reached;
          bounded = h.grown.bounded;
          untouched = h.grown.untouched;
          room = h.grown.room;
        };
        centre = waiting.0.1;
        top = spread.0;
        waiting = All-of_Mem _ rest (λ w m. (
          (All-Mem _ rest w waiting.1 m).0,
          (All-Mem _ rest w waiting.1 m).1,
          All-Mem (λ x. dist_of s u ≤ dist_of s x) rest w sorted.0 m,
        ));
        sorted = sorted.1;
      }

  Inv-of_Round :
      (s t : Search) (u : ℕ) (rest : List ℕ)
      → s.queue ≡ u ∷ rest
      → Inv s
      → Round adj n src u t
      → Finished adj n src (targets adj u) (record s { queue = rest }) t
      → dist_of s u < inf
      → Inv t
  Inv-of_Round s t u rest e h r f centre = record {
    grown = r.grown;
    waiting = All-map _ _ t.queue (λ w (low, near, far). (low, near)) r.waiting;
    sorted = r.sorted;
    spread =
        All-map _ _ t.queue (λ w (low, near, far) v near_v. omega (arith, r.top v near_v))
          r.waiting;
    closed = λ x v near edge. elim (h.grown.bounded x) [
      | inl far ↦ inl (f.joins x far near)
      | inr before ↦ elim (eq_or_ne x u) [
        | inl same ↦
            let reached =
              All-Mem (λ y. dist_of t y < inf) (targets adj u) v f.done
                (subst (λ y. Edge adj n src y v) same edge) in
            inr (reached, omega (arith, r.top v reached, ap (dist_of t) same))
        | inr other ↦ elim (h.closed x v before edge) [
          | inl m ↦ elim (Memᴰ.cases_cons (subst (Memᴰ x) e m)) [
            | inl same ↦ absurd (other same)
            | inr later ↦ inl (f.waits x later)
          ]
          | inr (near_v, step) ↦ inr (
            omega (arith, f.extends v near_v),
            omega (arith, f.extends v near_v, f.extends x before),
          )
        ]
      ]
    ];
  }

  pub search_loop-Inv :
      (fuel : ℕ) (s : Search)
      → n ≤ inf
      → IsBounded
      → unseen s.dist + length s.queue ≤ fuel
      → Inv s
      → (t : Search) × (search_loop adj fuel s ≡ ok t) × Inv t × (t.queue ≡ [])
  unfolding search_loop
  search_loop-Inv zero s big bounded m h = elim (List-cases s.queue) [
    | inl e ↦ (s, simp (e, search_loop), h, e)
    | inr (u, rest, e) ↦ absurd (omega (arith, ap length e))
  ]
  search_loop-Inv (suc fuel) s big bounded m h = elim (List-cases s.queue) [
    | inl e ↦ (s, simp (e, search_loop), h, e)
    | inr (u, rest, e) ↦
        let popped : Search = record s { queue = rest } in
        let round = Round-of_Inv s u rest e h in
        let inside : All (λ v. (v < n) × Edge adj n src u v) (targets adj u) =
          All-of_Mem _ (targets adj u) (λ v edge. (bounded u v edge, edge)) in
        let (after, finished) =
          relax_all-Round adj n src u (targets adj u) popped big inside round in
        let (t, ran, inv, empty) =
          search_loop-Inv fuel (relax_all u popped (targets adj u)) big bounded
            (omega (arith, finished.balance, ap length e))
            (Inv-of_Round s (relax_all u popped (targets adj u)) u rest e h after finished
              round.centre) in
        (t, rw (e, search_loop) ran, inv, empty)
  ]

  init-at : src < n → dist_of (init n src) src ≡ 0
  unfolding init
  init-at h = get_or-set_self (replicate n inf) src 0 inf (omega (arith, length-replicate n inf))

  init-off : (v : ℕ) → v ≢ src → dist_of (init n src) v ≡ inf
  unfolding init
  init-off v ne =
      get_or-set_ne (replicate n inf) src v 0 inf (λ e. ne (sym e)) ∙ get_or-replicate n inf v

  init-Inv : src < n → Inv (init n src) × (unseen (init n src).dist + length (init n src).queue ≡ n)
  unfolding init
  init-Inv h =
      let s = init n src in
      let all_far = length-replicate n inf in
      let left : suc (unseen s.dist) ≡ n =
        unseen-set (replicate n inf) src 0 (omega (arith, all_far)) (get_or-replicate n inf src)
          (omega arith)
        ∙ unseen-replicate n in
      let only : (v : ℕ) → dist_of s v < inf → v ≡ src = λ v near. elim (eq_or_ne v src) [
        | inl e ↦ e
        | inr ne ↦ absurd (omega (arith, init-off v ne))
      ] in
      (
        record {
          grown = record {
            sizes = (length-set (replicate n inf) src 0 ∙ all_far, length-replicate n none);
            origin = init-at h;
            reached = λ v near.
                let e = only v near in
                inl (e, get_or-replicate n none v, ap (dist_of s) e ∙ init-at h);
            bounded = λ v. elim (eq_or_ne v src) [
              | inl e ↦ inr (omega (arith, ap (dist_of s) e, init-at h))
              | inr ne ↦ inl (init-off v ne)
            ];
            untouched = λ v far. get_or-replicate n none v;
            room = λ v near. omega (arith, ap (dist_of s) (only v near), init-at h, left);
          };
          waiting = ((h, omega (arith, init-at h)), tt);
          sorted = (tt, tt);
          spread = ((λ v near. omega (arith, ap (dist_of s) (only v near), init-at h)), tt);
          closed = λ x v near edge. inl (Memᴰ.head (only x near));
        },
        omega (arith, left),
      )

  -- The search from a device of the graph ends within n rounds.
  pub search-Inv :
      n ≤ inf
      → IsBounded
      → src < n
      → (t : Search) × (search_loop adj n (init n src) ≡ ok t) × Inv t × (t.queue ≡ [])
  search-Inv big bounded h =
      let (inv, work) = init-Inv h in
      search_loop-Inv n (init n src) big bounded (omega (arith, work)) inv
