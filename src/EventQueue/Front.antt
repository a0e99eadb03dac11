-- ===== src/EventQueue/Front.antt =====
-- `proceed` on a queue whose first events are known.
use astra_network_analytical.Base.{
  ℕ, ◌≡◌, refl, ap, sym, ◌∙◌, subst, true, false, List, [], ◌∷◌, ◌++◌, Outcome, arith,
}
use astra_network_analytical.EventQueue.{
  EventList, Simulation, finished_list, invoke_events, proceed,
}
use astra_network_analytical.EventQueue.Invariant.{IsOrdered, IsValid, After→IsOrdered}
use astra_network_analytical.EventQueue.Order.{entries, stamped}
use astra_network_analytical.EventQueue.Run.{Later, entries-Later, proceed_list}

cons_pair :
    {E : Type 0} (t u : ℕ) (a b : E) (r s : List (ℕ × E))
    → ◌≡◌ {A = List (ℕ × E)} ((t, a) ∷ r) ((u, b) ∷ s)
    → (t ≡ u) × (a ≡ b) × (r ≡ s)
cons_pair {E} t u a b r s h =
    let pair : ◌≡◌ {A = ℕ × E} (t, a) (u, b) = cc in (ap (λ p. p.0) pair, ap (λ p. p.1) pair, cc)

module _ {E : Type 0} where
  pub entries-more :
      (ls : List (EventList E)) {p : ℕ × E} {r : List (ℕ × E)}
      → entries ls ≡ p ∷ r
      → finished_list ls ≡ false
  unfolding entries
  entries-more [] h = cc
  entries-more (l ∷ ls) h = refl

  pub entries-finished :
      (t : ℕ) (ls : List (EventList E)) → IsOrdered t ls → entries ls ≡ [] → finished_list ls ≡ true
  unfolding entries
  entries-finished t [] v h = refl
  entries-finished t (l ∷ ls) v h = absurd (v.1 (none_stamped l.events h))
    where
      none_stamped : (es : List E) → stamped (record l { events = es }) ++ entries ls ≡ [] → es ≡ []
      none_stamped [] h = refl
      none_stamped (e ∷ es) h = cc

  pub finished-entries : (ls : List (EventList E)) → finished_list ls ≡ true → entries ls ≡ []
  unfolding entries
  finished-entries [] h = refl
  finished-entries (l ∷ ls) h = cc

  -- The first list of a queue that begins with one event before all others.
  abbrev Begins : List (EventList E) → ℕ → List E → List (ℕ × E) → Type 0
  Begins q t es r =
      (l : EventList E) × (ls : List (EventList E)) × (q ≡ l ∷ ls)
      × (l.event_time ≡ t)
      × (l.events ≡ es)
      × (entries ls ≡ r)

  Begins-one :
      (now t : ℕ) (a : E) (r : List (ℕ × E)) (q : List (EventList E))
      → IsOrdered now q
      → Later t r
      → entries q ≡ (t, a) ∷ r
      → Begins q t (a ∷ []) r
  unfolding entries
  Begins-one now t a r [] v later h = cc
  Begins-one now t a r (l ∷ ls) v later h = first l.events refl h
    where
      first :
          (es : List E)
          → l.events ≡ es
          → stamped (record l { events = es }) ++ entries ls ≡ (t, a) ∷ r
          → Begins (l ∷ ls) t (a ∷ []) r
      first [] is h = absurd (v.1 is)
      first (e ∷ []) is h =
          let (time, event, others) = cons_pair _ _ _ _ _ _ h in
          (l, ls, refl, time, is ∙ ap (λ x. x ∷ []) event, others)
      first (e ∷ f ∷ es) is h =
          let (time, event, others) = cons_pair _ _ _ _ _ _ h in
          let (late, _) : Later t
              ((l.event_time, f) ∷ (stamped (record l { events = es }) ++ entries ls)) =
            subst (Later t) (sym others) later in
          absurd (omega (arith, late, time))

  Begins-two :
      (now t : ℕ) (a b : E) (q : List (EventList E))
      → IsOrdered now q
      → entries q ≡ (t, a) ∷ (t, b) ∷ []
      → Begins q t (a ∷ b ∷ []) []
  unfolding entries
  Begins-two now t a b [] v h = cc
  Begins-two now t a b (l ∷ ls) v h = first l.events refl h
    where
      first :
          (es : List E)
          → l.events ≡ es
          → stamped (record l { events = es }) ++ entries ls ≡ (t, a) ∷ (t, b) ∷ []
          → Begins (l ∷ ls) t (a ∷ b ∷ []) []
      first [] is h = absurd (v.1 is)
      first (e ∷ []) is h =
          let (time, event, others) = cons_pair _ _ _ _ _ _ h in
          let (late, _) : Later l.event_time ((t, b) ∷ []) =
            subst (Later l.event_time) others
              (entries-Later l.event_time l.event_time ls (omega arith) v.2) in
          absurd (omega (arith, late, time))
      first (e ∷ f ∷ []) is h =
          let (time, event, others) = cons_pair _ _ _ _ _ _ h in
          let (_, event', none_left) = cons_pair _ _ _ _ _ _ others in
          (
            l,
            ls,
            refl,
            time,
            is ∙ (ap (λ x. x ∷ f ∷ []) event ∙ ap (λ x. a ∷ x ∷ []) event'),
            none_left,
          )
      first (e ∷ f ∷ g ∷ es) is h =
          let (_, _, others) = cons_pair _ _ _ _ _ _ h in
          let (_, _, none_left) = cons_pair _ _ _ _ _ _ others in cc

module _ {S E : Type 0} (invoke : E → Simulation S E → Outcome (Simulation S E)) where
  -- `proceed` runs these events, at this time, on a queue that holds the others.
  abbrev pub ProceedsWith : Simulation S E → ℕ → List E → List (ℕ × E) → Type 0
  ProceedsWith s t es r =
      (ls : List (EventList E)) × IsOrdered t ls
      × (entries ls ≡ r)
      × (proceed invoke s
          ≡ invoke_events invoke es
              (record s { queue = record { current_time = t; event_queue = ls } }))

  proceeds :
      (s : Simulation S E) (t : ℕ) (es : List E) (r : List (ℕ × E))
      → IsValid s.queue
      → Begins s.queue.event_queue t es r
      → ProceedsWith s t es r
  proceeds s t es r v (l, ls, is, time, events, left) =
      let v' = subst (IsOrdered s.queue.current_time) is v in
      (
        ls,
        subst (λ x. IsOrdered x ls) time (After→IsOrdered l.event_time ls v'.2),
        left,
        proceed_list invoke s l ls is v'.0
            ∙ subst
                (λ x.
                  invoke_events invoke l.events
                    (record s { queue = record { current_time = l.event_time; event_queue = ls } })
                  ≡ invoke_events invoke l.events
                      (record s { queue = record { current_time = x; event_queue = ls } }))
                time refl
            ∙ ap
                (λ x.
                  invoke_events invoke x
                    (record s { queue = record { current_time = t; event_queue = ls } }))
                events,
      )

  -- One event before all others.
  pub proceed-one :
      (s : Simulation S E) (t : ℕ) (a : E) (r : List (ℕ × E))
      → IsValid s.queue
      → Later t r
      → entries s.queue.event_queue ≡ (t, a) ∷ r
      → ProceedsWith s t (a ∷ []) r
  proceed-one s t a r v later h =
      proceeds s t (a ∷ []) r v
        (Begins-one s.queue.current_time t a r s.queue.event_queue v later h)

  -- Two events of the same time, and no others.
  pub proceed-two :
      (s : Simulation S E) (t : ℕ) (a b : E)
      → IsValid s.queue
      → entries s.queue.event_queue ≡ (t, a) ∷ (t, b) ∷ []
      → ProceedsWith s t (a ∷ b ∷ []) []
  proceed-two s t a b v h =
      proceeds s t (a ∷ b ∷ []) [] v (Begins-two s.queue.current_time t a b s.queue.event_queue v h)
