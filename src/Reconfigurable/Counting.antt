-- ===== src/Reconfigurable/Counting.antt =====
-- What drain_network counts in one row, over the links of one device, where none is busy.
use astra_network_analytical.Base.{
  ℕ, zero, suc, ◌+◌, ◌≡◌, ◌≢◌, ◌≤◌, ◌<◌, refl, ◌∙◌, ap, subst, inl, inr, true, false, some,
  get_elem?, ltb, ◌==◌, Outcome, ok, fail, ◌>>=◌, arith,
}
use astra_network_analytical.Base.Maps.{find}
use astra_network_analytical.Double.{Double}
use astra_network_analytical.Reconfigurable.State.{Device, Link, World, devices_of}
use astra_network_analytical.Reconfigurable.Device.{get_link}
use astra_network_analytical.Reconfigurable.Manager.{
  with_drained, is_reconfiguring, links_count, finish_draining, increment_callback, drain_links,
}
use astra_network_analytical.Reconfigurable.Routes.Round.{eq_or_ne}

pub bind_ok :
    {A : Type 0} (o : Outcome A) (f : A → Outcome A) → ((a : A) → f a ≡ ok a) → (o >>= f) ≡ o
bind_ok (ok a) f h = h a
bind_ok (fail e) f h = refl

module _ {W : Type 0} where
  -- The link of device i to device j is there, and not busy.
  abbrev pub HasFree : World W → ℕ → ℕ → Type 0
  HasFree w i j =
      (device : Device W) × (link : Link W) × (get_elem? (devices_of w) i ≡ some device)
      × (find j device.links ≡ some link)
      × (link.busy ≡ false)

module _ {W : Type 0} ⦃d : Double W⦄ where
  count :
      (w : World W)
      → is_reconfiguring w ≡ true
      → suc w.state.num_drained_links < links_count w
      → increment_callback w ≡ ok (with_drained w (suc w.state.num_drained_links))
  unfolding increment_callback
  count w busy few =
      let test : ltb (suc w.state.num_drained_links) (links_count w) ≡ true = ground arith in
      rw busy (rw test refl)

  last_count :
      (w : World W)
      → is_reconfiguring w ≡ true
      → suc w.state.num_drained_links ≡ links_count w
      → increment_callback w ≡ finish_draining w
  unfolding increment_callback
  last_count w busy all =
      let test : ltb (suc w.state.num_drained_links) (links_count w) ≡ false = ground arith in
      rw busy (rw test refl)

  link_step :
      (n i j : ℕ) (w : World W)
      → i ≢ j
      → HasFree w i j
      → drain_links (suc n) i j w ≡ (increment_callback w >>= drain_links n i (suc j))
  unfolding drain_links get_link
  link_step n i j w ne (device, link, at, has, idle) =
      let test : (i == j) ≡ false = ground arith in rw test (rw at (rw has (rw idle refl)))

  skip_step : (n i : ℕ) (w : World W) → drain_links (suc n) i i w ≡ drain_links n i (suc i) w
  unfolding drain_links
  skip_step n i w = let test : (i == i) ≡ true = ground arith in rw test refl

  -- Part of a row that does not complete the count.
  above_row :
      (n i j : ℕ) (w : World W)
      → is_reconfiguring w ≡ true
      → i < j
      → ((k : ℕ) → j ≤ k → k < j + n → HasFree w i k)
      → w.state.num_drained_links + n < links_count w
      → drain_links n i j w ≡ ok (with_drained w (w.state.num_drained_links + n))
  unfolding drain_links
  above_row zero i j w busy low free few = ap (λ c. ok (with_drained w c)) (omega arith)
  above_row (suc n) i j w busy low free few =
      link_step n i j w (λ e. omega arith) (free j (omega arith) (omega arith))
      ∙ rw (count w busy (omega arith)) (
          above_row n i (suc j) (with_drained w (suc w.state.num_drained_links)) busy (omega arith)
            (λ k l u. free k (omega arith) (omega arith)) (omega arith)
          ∙ ap (λ c. ok (with_drained w c)) (omega arith))

  -- The rest of a row from j on, device i itself included, which does not complete the count.
  pub row :
      (p i j : ℕ) (w : World W)
      → is_reconfiguring w ≡ true
      → j ≤ i
      → i < j + suc p
      → ((k : ℕ) → k < j + suc p → i ≢ k → HasFree w i k)
      → w.state.num_drained_links + p < links_count w
      → drain_links (suc p) i j w ≡ ok (with_drained w (w.state.num_drained_links + p))
  row zero i j w busy low high free few =
      subst (λ k. drain_links 1 i k w ≡ ok (with_drained w (w.state.num_drained_links + 0)))
        (omega arith)
        (skip_step 0 i w
          ∙ above_row 0 i (suc i) w busy (omega arith) (λ k l u. absurd (omega arith)) few)
  row (suc q) i j w busy low high free few = elim (eq_or_ne i j) [
    | inl same ↦
        subst
          (λ k.
            drain_links (suc (suc q)) i k w
            ≡ ok (with_drained w (w.state.num_drained_links + suc q)))
          same
          (skip_step (suc q) i w
            ∙ above_row (suc q) i (suc i) w busy (omega arith)
                (λ k l u. free k (omega arith) (λ e. omega arith)) few)
    | inr ne ↦
        link_step (suc q) i j w ne (free j (omega arith) ne)
        ∙ rw (count w busy (omega arith)) (
            row q i (suc j) (with_drained w (suc w.state.num_drained_links)) busy (omega arith)
              (omega arith) (λ k u. free k (omega arith)) (omega arith)
            ∙ ap (λ c. ok (with_drained w c)) (omega arith))
  ]

  -- The rest of the last row, which completes the count.
  pub last_row :
      (p i j : ℕ) (w : World W)
      → is_reconfiguring w ≡ true
      → suc i ≡ j + suc (suc p)
      → ((k : ℕ) → k < j + suc (suc p) → i ≢ k → HasFree w i k)
      → w.state.num_drained_links + suc p ≡ links_count w
      → drain_links (suc (suc p)) i j w ≡ finish_draining w
  unfolding drain_links finish_draining
  last_row zero i j w busy last free all =
      link_step 1 i j w (λ e. omega arith) (free j (omega arith) (λ e. omega arith))
      ∙ rw (last_count w busy (omega arith)) (
          bind_ok (finish_draining w) (drain_links 1 i (suc j))
            (λ v. subst (λ k. drain_links 1 i k v ≡ ok v) (omega arith) (skip_step 0 i v)))
  last_row (suc p) i j w busy last free all =
      link_step (suc (suc p)) i j w (λ e. omega arith) (free j (omega arith) (λ e. omega arith))
      ∙ rw (count w busy (omega arith)) (
          last_row p i (suc j) (with_drained w (suc w.state.num_drained_links)) busy (omega arith)
            (λ k u. free k (omega arith)) (omega arith))
