-- ===== src/Aware/Protocol.antt =====
-- The links' protocol: a link is busy exactly while one event that frees it is on its way, and
-- chunks wait only at a busy link.
pub mod Events
use astra_network_analytical.Base.{
  ℕ, suc, ◌+◌, ◌≡◌, refl, ◌∙◌, ap, sym, subst, Bool, true, false, not, List, [], ◌∷◌, ◌++◌, Option,
  some, none, length, ltb, ◌==◌, ◌&&◌, if◌then◌else◌, get_elem?, Outcome, Error, ok, fail,
  assertion, or_fail, >>=-eq-ok, check-eq-ok, or_fail-eq-ok, ok-injective, if-eq-ok, inl, inr,
  arith, Bool-cases, ==_refl,
}
use astra_network_analytical.Double.{Double}
use astra_network_analytical.EventQueue.{EventQueue, schedule_event}
use astra_network_analytical.EventQueue.Weight.{sum, weight, weight-schedule_event}
use astra_network_analytical.Aware.State.{
  Chunk, Link, Device, Event, chunk_arrived_next_device, link_become_free, World, link_at, set_link,
  with_link,
}
use astra_network_analytical.Aware.State.Laws.{link_at-set_link, link_at-set_link_self}
use astra_network_analytical.Aware.Chunk.{
  current_device, next_device, get_size, arrived_dest, mark_arrived_next_device,
}
use astra_network_analytical.Aware.Link
use astra_network_analytical.Aware.Link.{
  schedule_events, schedule_chunk_transmission, process_first, process_pending_transmission,
  become_free, set_busy, set_free, pending_chunk_exists,
}
use astra_network_analytical.Aware.Work.{weight-schedule_events}
use astra_network_analytical.Aware.Device
use astra_network_analytical.Aware.Device.{connected}
use astra_network_analytical.Aware.Topology
use astra_network_analytical.Aware.Simulation.{arrive_next_device, invoke}

abbrev is_link : ℕ → ℕ → ℕ → ℕ → Bool
is_link a b i j = a == i && b == j

-- 1 for the event that frees the link from a to b.
abbrev pub frees : ℕ → ℕ → Event → ℕ
frees a b (chunk_arrived_next_device c) = 0
frees a b (link_become_free i j) = if is_link a b i j then 1 else 0

-- The events that free this link, among those about to run and those in the queue.
abbrev pub frees_due : {W : Type 0} → List Event → World W → ℕ → ℕ → ℕ
frees_due todo w a b = sum (frees a b) todo + weight (frees a b) w.queue.event_queue

abbrev pub Agrees : {W : Type 0} → Option (Link W) → ℕ → Type 0
Agrees none n = n ≡ 0
Agrees (some l) n = (n ≡ (if l.busy then 1 else 0)) × (l.busy ≡ false → l.pending_chunks ≡ [])

abbrev pub FollowsProtocol : {W : Type 0} → List Event → World W → Type 0
FollowsProtocol todo w = (a b : ℕ) → Agrees (link_at w.state.devices a b) (frees_due todo w a b)

-- The same for all links but one.
abbrev FollowsElsewhere : {W : Type 0} → ℕ → ℕ → List Event → World W → Type 0
FollowsElsewhere i j todo w =
    (a b : ℕ)
    → is_link a b i j ≡ false
    → Agrees (link_at w.state.devices a b) (frees_due todo w a b)

is_link-eq : (a b i j : ℕ) → is_link a b i j ≡ true → (a ≡ i) × (b ≡ j)
is_link-eq a b i j h = ground arith

last_due : (busy : Bool) (n : ℕ) → 1 + n ≡ (if busy then 1 else 0) → n ≡ 0
last_due busy n h = ground arith

no_pending : (cs : List Chunk) → pending_chunk_exists cs ≡ false → cs ≡ []
no_pending cs h = ground arith

module _ {W : Type 0} where
  -- Writing one link leaves the others as they were.
  with_link-Elsewhere :
      (i j : ℕ) (old l : Link W) (todo : List Event) (w : World W)
      → link_at w.state.devices i j ≡ some old
      → FollowsElsewhere i j todo w
      → FollowsElsewhere i j todo (with_link w i j l)
  with_link-Elsewhere i j old l todo w at p a b e =
      rw (link_at-set_link w.state.devices i j a b old l at) (rw e (p a b e))

  -- The protocol holds once the written link agrees too.
  with_link-Follows :
      (i j : ℕ) (old l : Link W) (todo : List Event) (w w' : World W)
      → link_at w.state.devices i j ≡ some old
      → ((a b : ℕ) → is_link a b i j ≡ false → frees_due todo w' a b ≡ frees_due todo w a b)
      → w'.state.devices ≡ set_link w.state.devices i j l
      → FollowsElsewhere i j todo w
      → Agrees (some l) (frees_due todo w' i j)
      → FollowsProtocol todo w'
  with_link-Follows i j old l todo w w' at same e p here a b = elim (Bool-cases (is_link a b i j)) [
    | inl hit ↦
        let (same_a, same_b) = is_link-eq a b i j hit in
        subst (λ x. Follows x b) (sym same_a)
          (subst (λ y. Follows i y) (sym same_b)
            (subst (λ o. Agrees o (frees_due todo w' i j)) (sym written) here))
    | inr miss ↦
        subst (λ o. Agrees o (frees_due todo w' a b)) (sym (other miss))
          (subst (Agrees (link_at w.state.devices a b)) (sym (same a b miss)) (p a b miss))
  ]
    where
      Follows : ℕ → ℕ → Type 0
      Follows x y = Agrees (link_at w'.state.devices x y) (frees_due todo w' x y)

      written : link_at w'.state.devices i j ≡ some l
      written =
          subst (λ ds. link_at ds i j ≡ some l) (sym e)
            (link_at-set_link_self w.state.devices i j old l at)

      other : is_link a b i j ≡ false → link_at w'.state.devices a b ≡ link_at w.state.devices a b
      other miss =
          subst (λ ds. link_at ds a b ≡ link_at w.state.devices a b) (sym e)
            (link_at-set_link w.state.devices i j a b old l at ∙ rw miss refl)

module _ {W : Type 0} ⦃d : Double W⦄ where
  -- A transmission on a link that no event is to free makes it busy, with one such event.
  transmission-Follows :
      (i j : ℕ) (c : Chunk) (todo : List Event) (w w' : World W)
      → FollowsElsewhere i j todo w
      → frees_due todo w i j ≡ 0
      → schedule_chunk_transmission i j c w ≡ ok w'
      → FollowsProtocol todo w'
  unfolding schedule_chunk_transmission
  transmission-Follows i j c todo w w' p none_due h =
      let (link, found, h₁) =
        >>=-eq-ok (or_fail Error.undefined (link_at w.state.devices i j)) _ h in
      let at = or_fail-eq-ok Error.undefined (link_at w.state.devices i j) found in
      let (free, h₂) = check-eq-ok (not link.busy) assertion _ h₁ in
      let (q, scheduled, made) = >>=-eq-ok (schedule_events link i j c w.queue) _ h₂ in
      let adds = λ (a b : ℕ).
        (weight-schedule_events (λ k. 0) (frees a b) link i j c w.queue q scheduled).1 in
      subst (FollowsProtocol todo) (ok-injective made) (
        with_link-Follows i j link (set_busy link) todo w
          (record (with_link w i j (set_busy link)) { queue = q }) at
          (λ a b miss. ground (arith, adds a b)) refl p
          (let self : is_link i j i j ≡ true = ground arith in (ground (arith, adds i j), λ e. cc)))

  pub link_send-Follows :
      (i j : ℕ) (c : Chunk) (todo : List Event) (w w' : World W)
      → FollowsProtocol todo w
      → Link.send i j c w ≡ ok w'
      → FollowsProtocol todo w'
  unfolding Link.send
  link_send-Follows i j c todo w w' p h =
      let (link, found, sent) =
        >>=-eq-ok (or_fail Error.undefined (link_at w.state.devices i j)) _ h in
      let at = or_fail-eq-ok Error.undefined (link_at w.state.devices i j) found in
      let agrees = subst (λ o. Agrees o (frees_due todo w i j)) at (p i j) in
      let queued : Link W = record link { pending_chunks = link.pending_chunks ++ c ∷ [] } in
      elim (if-eq-ok link.busy (ok (with_link w i j queued)) (schedule_chunk_transmission i j c w)
        sent) [
          | inl (busy, waits) ↦ subst (FollowsProtocol todo) (ok-injective waits) (
              with_link-Follows i j link queued todo w (with_link w i j queued) at
                (λ a b miss. refl) refl (λ a b miss. p a b) (agrees.0, λ idle. cc))
          | inr (idle, goes) ↦
              transmission-Follows i j c todo w w' (λ a b miss. p a b)
                (agrees.0 ∙ ap (λ t. if t then 1 else 0) idle) goes
        ]

  process_first-Follows :
      (i j : ℕ) (link : Link W) (cs : List Chunk) (todo : List Event) (w w' : World W)
      → link_at w.state.devices i j ≡ some link
      → FollowsElsewhere i j todo w
      → frees_due todo w i j ≡ 0
      → process_first i j link cs w ≡ ok w'
      → FollowsProtocol todo w'
  unfolding process_first
  process_first-Follows i j link [] todo w w' at p none_due h = cc
  process_first-Follows i j link (c ∷ cs) todo w w' at p none_due h =
      let popped : Link W = record link { pending_chunks = cs } in
      transmission-Follows i j c todo (with_link w i j popped) w'
        (with_link-Elsewhere i j link popped todo w at p) none_due h

  pub become_free-Follows :
      (i j : ℕ) (todo : List Event) (w w' : World W)
      → FollowsProtocol (link_become_free i j ∷ todo) w
      → become_free i j w ≡ ok w'
      → FollowsProtocol todo w'
  unfolding become_free process_pending_transmission
  become_free-Follows i j todo w w' p h =
      let (link, found, freed) =
        >>=-eq-ok (or_fail Error.undefined (link_at w.state.devices i j)) _ h in
      let at = or_fail-eq-ok Error.undefined (link_at w.state.devices i j) found in
      let agrees =
        subst (λ o. Agrees o (frees_due (link_become_free i j ∷ todo) w i j)) at (p i j) in
      let elsewhere : FollowsElsewhere i j todo w =
        λ a b miss. subst (Agrees (link_at w.state.devices a b)) (not_counted a b miss) (p a b) in
      let none_due = last_due link.busy (frees_due todo w i j) (counted ∙ agrees.0) in
      let freed_link = set_free link in
      let released : World W = with_link w i j freed_link in
      let at' = link_at-set_link_self w.state.devices i j link freed_link at in
      elim (if-eq-ok (pending_chunk_exists link.pending_chunks)
        (process_pending_transmission i j released) (ok released) freed) [
          | inl (waits, goes) ↦
              process_first-Follows i j freed_link link.pending_chunks todo released w' at'
                (with_link-Elsewhere i j link freed_link todo w at elsewhere) none_due
                (rw (at', or_fail) at goes)
          | inr (nothing, done) ↦ subst (FollowsProtocol todo) (ok-injective done) (
              with_link-Follows i j link freed_link todo w released at (λ a b miss. refl) refl
                elsewhere (none_due, λ e. no_pending link.pending_chunks nothing))
        ]
    where
      not_counted :
          (a b : ℕ)
          → is_link a b i j ≡ false
          → frees_due (link_become_free i j ∷ todo) w a b ≡ frees_due todo w a b
      not_counted a b miss = rw miss (omega arith)

      counted : 1 + frees_due todo w i j ≡ frees_due (link_become_free i j ∷ todo) w i j
      counted = rw (==_refl i, ==_refl j) (omega arith)
