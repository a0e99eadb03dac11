-- ===== src/EventQueue/Order.antt =====
-- What the queue promises: seen as one sequence of timed events, scheduling is a stable insertion
-- by time, and proceeding takes the events of the earliest time off its front.
use mathlib.Core.List.{map-append, append_assoc}
use astra_network_analytical.Base.{
  ℕ, ◌≤◌, ◌<◌, ◌≡◌, ◌≢◌, refl, sym, ap, ◌∙◌, List, [], ◌∷◌, ◌++◌, map, ltb, leb, if◌then◌else◌, ok,
  arith, Bool-cases, inl, inr, le→leb, subst,
}
use astra_network_analytical.EventQueue.{EventList, EventQueue, insert_event, schedule_event}
use astra_network_analytical.EventQueue.Invariant.{
  After, IsOrdered, IsValid, After→IsOrdered, insert_event-IsOrdered,
}

module _ {E : Type 0} where
  abbrev pub stamped : EventList E → List (ℕ × E)
  stamped l = map (λ e. (l.event_time, e)) l.events

  -- All the events of the queue in the order in which they will run.
  unfoldable pub entries : List (EventList E) → List (ℕ × E)
  entries [] = []
  entries (l ∷ ls) = stamped l ++ entries ls

  -- The specification: behind every event of the same or an earlier time, before every later one.
  unfoldable pub insert_stable : ℕ → E → List (ℕ × E) → List (ℕ × E)
  insert_stable t e [] = (t, e) ∷ []
  insert_stable t e ((u, x) ∷ r) =
      if leb u t then (u, x) ∷ insert_stable t e r else (t, e) ∷ (u, x) ∷ r

  pub insert_stable-stamped_le :
      (t u : ℕ) (e : E) (xs : List E) (r : List (ℕ × E))
      → u ≤ t
      → insert_stable t e (map (λ x. (u, x)) xs ++ r) ≡ map (λ x. (u, x)) xs ++ insert_stable t e r
  unfolding insert_stable
  insert_stable-stamped_le t u e [] r h = refl
  insert_stable-stamped_le t u e (x ∷ xs) r h = ground (arith, insert_stable-stamped_le t u e xs r)

  insert_stable-stamped_gt :
      (t u : ℕ) (e : E) (xs : List E) (r : List (ℕ × E))
      → t < u
      → xs ≢ []
      → insert_stable t e (map (λ x. (u, x)) xs ++ r) ≡ (t, e) ∷ (map (λ x. (u, x)) xs ++ r)
  unfolding insert_stable
  insert_stable-stamped_gt t u e [] r h n = absurd (n refl)
  insert_stable-stamped_gt t u e (x ∷ xs) r h n = ground arith

  insert_stable-After :
      (t : ℕ) (e : E) (ls : List (EventList E))
      → After t ls
      → insert_stable t e (entries ls) ≡ (t, e) ∷ entries ls
  unfolding entries
  insert_stable-After t e [] a = unfold insert_stable in refl
  insert_stable-After t e (l ∷ ls) a =
      insert_stable-stamped_gt t l.event_time e l.events (entries ls) a.0 a.1

  entries-insert_event :
      (b t : ℕ) (e : E) (ls : List (EventList E))
      → IsOrdered b ls
      → entries (insert_event t e ls) ≡ insert_stable t e (entries ls)
  unfolding insert_event entries
  entries-insert_event b t e [] a = unfold insert_stable in refl
  entries-insert_event b t e (l ∷ ls) a = elim (Bool-cases (ltb l.event_time t)) [
    | inl earlier ↦ rw earlier (
        ap (◌++◌ (stamped l))
          (entries-insert_event l.event_time t e ls (After→IsOrdered l.event_time ls a.2))
        ∙ sym (insert_stable-stamped_le t l.event_time e l.events (entries ls) (ground arith)))
    | inr not_earlier ↦ rw not_earlier (elim (Bool-cases (ltb t l.event_time)) [
      | inl later ↦
          rw later (
            sym
              (insert_stable-stamped_gt t l.event_time e l.events (entries ls) (ground arith) a.1))
      | inr not_later ↦ rw not_later (joined (ground arith))
    ])
  ]
    where
      joined :
          l.event_time ≡ t
          → map (λ x. (l.event_time, x)) (l.events ++ e ∷ []) ++ entries ls
            ≡ insert_stable t e (stamped l ++ entries ls)
      joined same =
          rw (map-append {B = ℕ × E} (λ x. (l.event_time, x)) l.events (e ∷ []), append_assoc)
            (sym (
              insert_stable-stamped_le t l.event_time e l.events (entries ls) (omega arith)
              ∙ ap (◌++◌ (stamped l)) (
                  insert_stable-After t e ls (subst (λ u. After u ls) same a.2)
                  ∙ ap (λ u. (u, e) ∷ entries ls) (sym same))))

  -- On a valid queue, scheduling at a time that has not passed succeeds, and is the stable insertion
  -- into the sequence of timed events: behind those of the same time. The queue stays valid, and the
  -- clock where it is.
  pub schedule_event-entries :
      (q : EventQueue E) (t : ℕ) (e : E)
      → IsValid q
      → q.current_time ≤ t
      → (q' : EventQueue E) × (schedule_event q t e ≡ ok q')
        × (entries q'.event_queue ≡ insert_stable t e (entries q.event_queue))
        × IsValid q'
        × (q'.current_time ≡ q.current_time)
  unfolding schedule_event
  schedule_event-entries q t e v h = (
    record q { event_queue = insert_event t e q.event_queue },
    rw (le→leb _ _ h) refl,
    entries-insert_event q.current_time t e q.event_queue v,
    insert_event-IsOrdered q.current_time t e q.event_queue h v,
    refl,
  )
