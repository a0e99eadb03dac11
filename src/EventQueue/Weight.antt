-- ===== src/EventQueue/Weight.antt =====
-- Sums over the events of a queue: each event weighs `f` of it. Scheduling adds the weight of its
-- event, and proceeding takes that of the events which it runs.
use astra_network_analytical.Base.{ℕ, ◌+◌, ◌≡◌, refl, ap, List, [], ◌∷◌, ◌++◌, map, true, arith, ok}
use astra_network_analytical.EventQueue.Order.{entries, stamped}
use astra_network_analytical.EventQueue.{
  EventList, EventQueue, finished_list, insert_event, schedule_event,
}

module _ {A : Type 0} (f : A → ℕ) where
  abbrev pub sum : List A → ℕ
  sum [] = 0
  sum (x ∷ xs) = f x + sum xs

  pub sum-append : (xs ys : List A) → sum (xs ++ ys) ≡ sum xs + sum ys
  sum-append [] ys = omega arith
  sum-append (x ∷ xs) ys = omega (arith, sum-append xs ys)

module _ {E : Type 0} (f : E → ℕ) where
  unfoldable pub weight : List (EventList E) → ℕ
  weight [] = 0
  weight (l ∷ ls) = sum f l.events + weight ls

  pub weight-nil : weight [] ≡ 0
  unfolding weight
  weight-nil = refl

  pub weight-cons :
      (l : EventList E) (ls : List (EventList E)) → weight (l ∷ ls) ≡ sum f l.events + weight ls
  unfolding weight
  weight-cons l ls = refl

  weight-insert_event :
      (t : ℕ) (e : E) (ls : List (EventList E)) → weight (insert_event t e ls) ≡ f e + weight ls
  unfolding insert_event weight
  weight-insert_event t e [] = omega arith
  weight-insert_event t e (l ∷ ls) =
      ground (arith, weight-insert_event t e ls, sum-append f l.events (e ∷ []))

  pub weight-schedule_event :
      (q : EventQueue E) (t : ℕ) (e : E) (q' : EventQueue E)
      → schedule_event q t e ≡ ok q'
      → weight q'.event_queue ≡ f e + weight q.event_queue
  unfolding schedule_event
  weight-schedule_event q t e q' h = ground (arith, weight-insert_event t e q.event_queue)

  sum-stamped : (t : ℕ) (xs : List E) → sum (λ (p : ℕ × E). f p.1) (map (λ x. (t, x)) xs) ≡ sum f xs
  sum-stamped t [] = refl
  sum-stamped t (x ∷ xs) = ap (λ k. f x + k) (sum-stamped t xs)

  weight-entries : (ls : List (EventList E)) → sum (λ (p : ℕ × E). f p.1) (entries ls) ≡ weight ls
  unfolding entries weight
  weight-entries [] = refl
  weight-entries (l ∷ ls) = omega (
    arith,
    sum-append (λ (p : ℕ × E). f p.1) (stamped l) (entries ls),
    sum-stamped l.event_time l.events,
    weight-entries ls,
  )

  -- The weight is that of the sequence of events.
  pub weight-of_entries :
      (q : List (EventList E)) (l : EventList E) (ls : List (EventList E))
      → entries q ≡ stamped l ++ entries ls
      → weight q ≡ sum f l.events + weight ls
  weight-of_entries q l ls e = omega (
    arith,
    weight-entries q,
    ap (sum (λ (p : ℕ × E). f p.1)) e,
    sum-append (λ (p : ℕ × E). f p.1) (stamped l) (entries ls),
    sum-stamped l.event_time l.events,
    weight-entries ls,
  )

  pub weight-finished : (ls : List (EventList E)) → finished_list ls ≡ true → weight ls ≡ 0
  unfolding weight
  weight-finished [] h = refl
  weight-finished (l ∷ ls) h = cc
