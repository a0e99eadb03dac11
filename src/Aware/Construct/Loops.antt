-- ===== src/Aware/Construct/Loops.antt =====
-- The links that the loops of the constructors leave: round the chain, between all, and to the
-- switch.
use native.Mathlib.Decide.{ℕ_discrete}
use astra_network_analytical.Base.{
  ℕ, zero, suc, ◌+◌, ◌≤◌, ◌<◌, ◌≡◌, ◌≢◌, ◌∙◌, ap, sym, subst, inl, inr, Bool, true, false, not,
  if◌then◌else◌, ◌==◌, ok, >>=-eq-ok, ok-injective, if-eq-ok, arith,
}
use astra_network_analytical.Double.{Double}
use astra_network_analytical.Aware.State.{Topology}
use astra_network_analytical.Aware.Topology.{connect}
use astra_network_analytical.Aware.Basic.{
  connect_chain, connect_to_all, connect_all, connect_to_switch,
}
use astra_network_analytical.Aware.Construct.Initial.{connect-Extends, connect_to_all-Extends}
use astra_network_analytical.Aware.Construct.Wires.{
  HasLink, Joined, Grows, Grows-refl, Grows-trans, Grows-HasLink, connect-Grows,
}

module _ {W : Type 0} ⦃d : Double W⦄ (bandwidth latency : W) where
  pub Grows-Joined :
      (b : Bool) (t t' : Topology W) (i j : ℕ)
      → Grows bandwidth latency t t'
      → Joined b t i j
      → Joined b t' i j
  Grows-Joined b t t' i j g (forth, back) = (
    Grows-HasLink bandwidth latency t t' i j g forth,
    λ e. Grows-HasLink bandwidth latency t t' j i g (back e),
  )

  pub connect_chain-Grows :
      (n i : ℕ) (b : Bool) (t t' : Topology W)
      → connect_chain n i bandwidth latency b t ≡ ok t'
      → Grows bandwidth latency t t' × ((k : ℕ) → i ≤ k → k < i + n → Joined b t' k (suc k))
  unfolding connect_chain
  connect_chain-Grows zero i b t t' h =
      subst
        (λ u. Grows bandwidth latency t u × ((k : ℕ) → i ≤ k → k < i + 0 → Joined b u k (suc k)))
        (ok-injective h) (Grows-refl bandwidth latency t, λ k low high. absurd (omega arith))
  connect_chain-Grows (suc n) i b t t' h =
      let (u, first, rest) = >>=-eq-ok (connect t i (suc i) bandwidth latency b) _ h in
      let (grown, forth, back) = connect-Grows bandwidth latency t u i (suc i) b first in
      let (grown', others) = connect_chain-Grows n (suc i) b u t' rest in
      (
        Grows-trans bandwidth latency t u t' grown grown',
        λ k low high. elim (ℕ_discrete k i) [
          | yes here ↦
              subst (λ x. Joined b t' x (suc x)) (sym here)
                (Grows-Joined b u t' i (suc i) grown' (forth, back))
          | no other ↦ others k (omega (arith, other)) (omega arith)
        ],
      )

  pub connect_to_switch-Grows :
      (n i : ℕ) (t t' : Topology W)
      → connect_to_switch n i bandwidth latency t ≡ ok t'
      → Grows bandwidth latency t t' × ((k : ℕ) → i ≤ k → k < i + n → Joined true t' k t.switch_id)
  unfolding connect_to_switch
  connect_to_switch-Grows zero i t t' h =
      subst
        (λ u.
          Grows bandwidth latency t u × ((k : ℕ) → i ≤ k → k < i + 0 → Joined true u k t.switch_id))
        (ok-injective h) (Grows-refl bandwidth latency t, λ k low high. absurd (omega arith))
  connect_to_switch-Grows (suc n) i t t' h =
      let (u, first, rest) = >>=-eq-ok (connect t i t.switch_id bandwidth latency true) _ h in
      let (grown, forth, back) = connect-Grows bandwidth latency t u i t.switch_id true first in
      let (_, kept, _) = connect-Extends t u i t.switch_id bandwidth latency true first in
      let (grown', others) = connect_to_switch-Grows n (suc i) u t' rest in
      (
        Grows-trans bandwidth latency t u t' grown grown',
        λ k low high. elim (ℕ_discrete k i) [
          | yes here ↦
              subst (λ x. Joined true t' x t.switch_id) (sym here)
                (Grows-Joined true u t' i t.switch_id grown' (forth, back))
          | no other ↦
              subst (Joined true t' k) (ap (λ (x : Topology W). x.switch_id) kept)
                (others k (omega (arith, other)) (omega arith))
        ],
      )

  connect_to_all-Grows :
      (n src dest : ℕ) (t t' : Topology W)
      → connect_to_all n src dest bandwidth latency t ≡ ok t'
      → Grows bandwidth latency t t'
        × ((k : ℕ) → dest ≤ k → k < dest + n → src ≢ k → HasLink t' src k)
  unfolding connect_to_all
  connect_to_all-Grows zero src dest t t' h =
      subst
        (λ u.
          Grows bandwidth latency t u
          × ((k : ℕ) → dest ≤ k → k < dest + 0 → src ≢ k → HasLink u src k))
        (ok-injective h) (Grows-refl bandwidth latency t, λ k low high other. absurd (omega arith))
  connect_to_all-Grows (suc n) src dest t t' h =
      let (u, first, rest) =
        >>=-eq-ok (if not (src == dest) then connect t src dest bandwidth latency false else ok t) _
          h in
      let (grown, link) : Grows bandwidth latency t u × (src ≢ dest → HasLink u src dest) =
        elim (if-eq-ok (not (src == dest)) (connect t src dest bandwidth latency false) (ok t)
          first) [
            | inl (_, made) ↦
                let (more, forth, _) = connect-Grows bandwidth latency t u src dest false made in
                (more, λ other. forth)
            | inr (skipped, same) ↦
                subst (λ x. Grows bandwidth latency t x × (src ≢ dest → HasLink x src dest))
                  (ok-injective same)
                  (Grows-refl bandwidth latency t, λ other. absurd (other (ground arith)))
          ] in
      let (grown', others) = connect_to_all-Grows n src (suc dest) u t' rest in
      (
        Grows-trans bandwidth latency t u t' grown grown',
        λ k low high differ. elim (ℕ_discrete k dest) [
          | yes here ↦ subst (HasLink t' src) (sym here) (
              Grows-HasLink bandwidth latency u t' src dest grown'
                (link (λ e. differ (e ∙ sym here))))
          | no other ↦ others k (omega (arith, other)) (omega arith) differ
        ],
      )

  pub connect_all-Grows :
      (n src : ℕ) (t t' : Topology W)
      → connect_all n src bandwidth latency t ≡ ok t'
      → Grows bandwidth latency t t'
        × ((i k : ℕ) → src ≤ i → i < src + n → k < t.npus_count → i ≢ k → HasLink t' i k)
  unfolding connect_all
  connect_all-Grows zero src t t' h =
      subst
        (λ u.
          Grows bandwidth latency t u
          × ((i k : ℕ) → src ≤ i → i < src + 0 → k < t.npus_count → i ≢ k → HasLink u i k))
        (ok-injective h)
        (Grows-refl bandwidth latency t, λ i k low high inside differ. absurd (omega arith))
  connect_all-Grows (suc n) src t t' h =
      let (u, row, rest) = >>=-eq-ok (connect_to_all t.npus_count src 0 bandwidth latency t) _ h in
      let (grown, links) = connect_to_all-Grows t.npus_count src 0 t u row in
      let (_, kept, _) = connect_to_all-Extends t.npus_count src 0 bandwidth latency t u row in
      let same : u.npus_count ≡ t.npus_count = ap (λ (x : Topology W). x.npus_count) kept in
      let (grown', others) = connect_all-Grows n (suc src) u t' rest in
      (
        Grows-trans bandwidth latency t u t' grown grown',
        λ i k low high inside differ. elim (ℕ_discrete i src) [
          | yes here ↦
              subst (λ x. HasLink t' x k) (sym here)
                (Grows-HasLink bandwidth latency u t' src k grown'
                  (links k (omega arith) (omega arith) (λ e. differ (here ∙ e))))
          | no other ↦ others i k (omega (arith, other)) (omega arith) (omega (arith, same)) differ
        ],
      )
