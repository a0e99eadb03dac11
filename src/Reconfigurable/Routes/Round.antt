-- ===== src/Reconfigurable/Routes/Round.antt =====
-- What holds of the search while it goes through the targets of one device.
use mathlib.Core.List.{Memᴰ}
use mathlib.Core.List.Memᴰ
use astra_network_analytical.Base.{
  ℕ, ◌+◌, ◌≤◌, ◌<◌, ◌≡◌, ◌≢◌, refl, sym, ◌∙◌, ap, subst, ◌⊎◌, inl, inr, List, [], ◌∷◌, length, All,
  All-append, All-map, none, some, ◌==◌, arith, Bool-cases, length-append,
}
use astra_network_analytical.Reconfigurable.Routes.{
  Graph, targets, inf, Search, dist_of, parent_of, relax, relax_all,
}
use astra_network_analytical.Reconfigurable.Routes.Relax.{
  unseen, Reaches, relax-cases, IsSorted, IsSorted-snoc, IsSorted-agree,
}

pub eq_or_ne : (a b : ℕ) → (a ≡ b) ⊎ (a ≢ b)
eq_or_ne a b = elim (Bool-cases (a == b)) [
  | inl e ↦ inl (ground arith)
  | inr e ↦ inr (λ h. ground arith)
]

module _ (adj : Graph) (n src : ℕ) where
  abbrev pub Edge : ℕ → ℕ → Type 0
  Edge u v = Memᴰ v (targets adj u)

  -- A device that is reached is the source, or its parent leads to it and is one step nearer.
  abbrev pub Tree : Search → ℕ → Type 0
  Tree s v =
      (v ≡ src) × (parent_of s v ≡ none) × (dist_of s v ≡ 0)
      ⊎ (u : ℕ) × (parent_of s v ≡ some u) × Edge u v × (dist_of s v ≡ dist_of s u + 1)

  pub record Grown (s : Search) : Type 0 where
    pub sizes : (length s.dist ≡ n) × (length s.parent ≡ n)
    pub origin : dist_of s src ≡ 0
    pub reached : (v : ℕ) → dist_of s v < inf → Tree s v
    pub bounded : (v : ℕ) → (dist_of s v ≡ inf) ⊎ (dist_of s v < inf)
    pub untouched : (v : ℕ) → dist_of s v ≡ inf → parent_of s v ≡ none
    pub room : (v : ℕ) → dist_of s v < inf → dist_of s v + unseen s.dist < n

  -- While the targets of u are gone through: nothing is farther than they are to be, and nothing
  -- that waits is nearer than u.
  pub record Round (u : ℕ) (s : Search) : Type 0 where
    pub grown : Grown s
    pub centre : dist_of s u < inf
    pub top : (v : ℕ) → dist_of s v < inf → dist_of s v ≤ dist_of s u + 1
    pub waiting : All (λ w. (w < n) × (dist_of s w < inf) × (dist_of s u ≤ dist_of s w)) s.queue
    pub sorted : IsSorted s s.queue

  -- What is reached stays as it is.
  abbrev pub Extends : Search → Search → Type 0
  Extends s t = (j : ℕ) → dist_of s j < inf → dist_of t j ≡ dist_of s j

  Reaches-Extends : (u v : ℕ) (s t : Search) → Reaches u v s t → Extends s t
  Reaches-Extends u v s t r j h =
      r.dist_off j (λ e. absurd (omega (arith, r.fresh, ap (dist_of s) e)))

  nearer : (u v : ℕ) (s t : Search) → Round u s → Reaches u v s t → dist_of s u + 1 < n
  nearer u v s t h r = omega (arith, h.grown.room u h.centre, r.some_left)

  Tree-Reaches :
      (u v j : ℕ) (s t : Search) → Reaches u v s t → j ≢ v → Tree s j → dist_of s j < inf → Tree t j
  Tree-Reaches u v j s t r ne (inl (e, p, z)) near =
      inl (e, r.parent_off j ne ∙ p, r.dist_off j ne ∙ z)
  Tree-Reaches u v j s t r ne (inr (w, p, edge, step)) near = inr (
    w,
    r.parent_off j ne ∙ p,
    edge,
    omega (arith, r.dist_off j ne, Reaches-Extends u v s t r w (omega arith)),
  )

  Reaches-Grown :
      (u v : ℕ) (s t : Search) → n ≤ inf → Edge u v → Round u s → Reaches u v s t → Grown t
  Reaches-Grown u v s t big edge h r =
      let close = nearer u v s t h r in
      let left = r.fewer (omega arith) in
      let kept = Reaches-Extends u v s t r in
      record {
        sizes = (omega (arith, r.sizes, h.grown.sizes), omega (arith, r.sizes, h.grown.sizes));
        origin = kept src (omega (arith, h.grown.origin)) ∙ h.grown.origin;
        reached = λ j near. elim (eq_or_ne j v) [
          | inl e ↦ inr (
            u,
            ap (parent_of t) e ∙ r.parent_at,
            subst (Edge u) (sym e) edge,
            omega (arith, ap (dist_of t) e, r.dist_at, kept u h.centre),
          )
          | inr ne ↦
              Tree-Reaches u v j s t r ne (h.grown.reached j (omega (arith, r.dist_off j ne)))
                (omega (arith, r.dist_off j ne))
        ];
        bounded = λ j. elim (eq_or_ne j v) [
          | inl e ↦ inr (omega (arith, r.dist_at, ap (dist_of t) e))
          | inr ne ↦ elim (h.grown.bounded j) [
            | inl far ↦ inl (r.dist_off j ne ∙ far)
            | inr near ↦ inr (omega (arith, r.dist_off j ne))
          ]
        ];
        untouched = λ j far. elim (eq_or_ne j v) [
          | inl e ↦ absurd (omega (arith, r.dist_at, ap (dist_of t) e))
          | inr ne ↦ r.parent_off j ne ∙ h.grown.untouched j (sym (r.dist_off j ne) ∙ far)
        ];
        room = λ j near. elim (eq_or_ne j v) [
          | inl e ↦ omega (arith, r.dist_at, ap (dist_of t) e, left, h.grown.room u h.centre)
          | inr ne ↦
              omega (arith, r.dist_off j ne, left, h.grown.room j (omega (arith, r.dist_off j ne)))
        ];
      }

  Reaches-Round :
      (u v : ℕ) (s t : Search)
      → n ≤ inf
      → v < n
      → Edge u v
      → Round u s
      → Reaches u v s t
      → Round u t
  Reaches-Round u v s t big small edge h r =
      let close = nearer u v s t h r in
      let kept = Reaches-Extends u v s t r in
      let at_u = kept u h.centre in
      let same : All (λ w. dist_of t w ≡ dist_of s w) s.queue =
        All-map _ _ s.queue (λ w (_, near, _). kept w near) h.waiting in
      record {
        grown = Reaches-Grown u v s t big edge h r;
        centre = omega (arith, at_u, h.centre);
        top = λ j near. elim (eq_or_ne j v) [
          | inl e ↦ omega (arith, r.dist_at, ap (dist_of t) e, at_u)
          | inr ne ↦ omega (arith, r.dist_off j ne, at_u, h.top j (omega (arith, r.dist_off j ne)))
        ];
        waiting =
            subst (All (λ w. (w < n) × (dist_of t w < inf) × (dist_of t u ≤ dist_of t w)))
              (sym r.queue_is)
              (All-append _ s.queue (v ∷ [])
                (All-map _ _ s.queue
                  (λ w (low, near, far).
                    (low, omega (arith, kept w near), omega (arith, kept w near, at_u)))
                  h.waiting)
                ((small, omega (arith, r.dist_at), omega (arith, r.dist_at, at_u)), tt));
        sorted = subst (IsSorted t) (sym r.queue_is) (
            IsSorted-snoc t s.queue v (IsSorted-agree s t s.queue same h.sorted) (
              All-map _ _ s.queue
                (λ w (low, near, far). omega (arith, r.dist_at, kept w near, h.top w near))
                h.waiting));
      }

  -- The outcome of the whole round.
  pub record Finished (vs : List ℕ) (s t : Search) : Type 0 where
    pub extends : Extends s t
    pub done : All (λ v. dist_of t v < inf) vs
    pub balance : unseen t.dist + length t.queue ≡ unseen s.dist + length s.queue
    pub waits : (x : ℕ) → Memᴰ x s.queue → Memᴰ x t.queue
    pub joins : (x : ℕ) → dist_of s x ≡ inf → dist_of t x < inf → Memᴰ x t.queue

  pub relax_all-Round :
      (u : ℕ) (vs : List ℕ) (s : Search)
      → n ≤ inf
      → All (λ v. (v < n) × Edge u v) vs
      → Round u s
      → Round u (relax_all u s vs) × Finished vs s (relax_all u s vs)
  unfolding relax_all
  relax_all-Round u [] s big a h = (
    h,
    record {
      extends = λ j near. refl;
      done = tt;
      balance = refl;
      waits = λ x m. m;
      joins = λ x far near. absurd (omega arith);
    },
  )
  relax_all-Round u (v ∷ vs) s big a h =
      elim (relax-cases u v s (omega (arith, a.0.0, h.grown.sizes))
        (omega (arith, a.0.0, h.grown.sizes))) [
          | inl r ↦
              let s' = relax u s v in
              let (round, rest) =
                relax_all-Round u vs s' big a.1 (Reaches-Round u v s s' big a.0.0 a.0.1 h r) in
              let close = nearer u v s s' h r in
              let kept = Reaches-Extends u v s s' r in
              (
                round,
                record {
                  extends = λ j near. rest.extends j (omega (arith, kept j near)) ∙ kept j near;
                  done = (
                    omega (arith, rest.extends v (omega (arith, r.dist_at)), r.dist_at),
                    rest.done,
                  );
                  balance = omega (
                    arith,
                    rest.balance,
                    r.fewer (omega arith),
                    ap length r.queue_is,
                    length-append s.queue (v ∷ []),
                  );
                  waits =
                      λ x m. rest.waits x (subst (Memᴰ x) (sym r.queue_is) (Memᴰ.append_left _ m));
                  joins = λ x far near. elim (eq_or_ne x v) [
                    | inl e ↦
                        rest.waits x (
                          subst (Memᴰ x) (sym r.queue_is) (Memᴰ.append_right s.queue (Memᴰ.head e)))
                    | inr ne ↦ rest.joins x (r.dist_off x ne ∙ far) near
                  ];
                },
              )
          | inr (same, old) ↦
              let (round, rest) = relax_all-Round u vs s big a.1 h in
              let near_v : dist_of s v < inf = elim (h.grown.bounded v) [
                | inl far ↦ absurd (old far)
                | inr near ↦ near
              ] in
              rw same (
                round,
                record {
                  extends = rest.extends;
                  done = (omega (arith, rest.extends v near_v), rest.done);
                  balance = rest.balance;
                  waits = rest.waits;
                  joins = rest.joins;
                },
              )
        ]
