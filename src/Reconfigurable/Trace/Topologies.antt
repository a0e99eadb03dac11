-- ===== src/Reconfigurable/Trace/Topologies.antt =====
-- The topologies that a trace asks for: only the first has an effect.
use astra_network_analytical.Base.{
  ℕ, ◌<◌, ◌≡◌, refl, ◌∙◌, sym, subst, inl, inr, Bool, false, ◌&&◌, ◌||◌, List, [], ◌∷◌, ◌++◌,
  length, map, some, ◌==◌, if◌then◌else◌, Outcome, Error, ok, ◌>>=◌, or_fail, >>=-eq-ok,
  or_fail-eq-ok, ok-injective, if-eq-ok, arith,
}
use astra_network_analytical.Base.Int.{ℤ}
use astra_network_analytical.Double.{Double, of_nat}
use astra_network_analytical.Reconfigurable.State.{World}
use astra_network_analytical.Reconfigurable.Manager.{manager_of, is_reconfiguring}
use astra_network_analytical.Reconfigurable.Example.{send_one}
use astra_network_analytical.Reconfigurable.Text.{
  Text, is_empty, trim, starts_with, starts_with_digit, equals, stoi, extract_all, replace_arrow,
}
use astra_network_analytical.Reconfigurable.Trace.{
  Trace, Progress, going, returned, comment_mark, bm, bw, flow, to_device, to_size, extract_flow,
  wait_reconfigured, request_topology, read_row, read_flow, read_section, read_header, read_line,
}
use astra_network_analytical.Reconfigurable.Simulate.{read_lines}
use astra_network_analytical.Reconfigurable.Trace.Holds.{
  trace_of, IsTopology, wait-Holds, send_one-Holds, reconfigure-current,
}

module _ {W : Type 0} ⦃d : Double W⦄ (bandwidths latencies : List (List W))
    (routes : List (List (List ℕ))) (iteration : ℕ) where
  -- The count of the NPUs was read, and the manager has the topology.
  abbrev pub Settled : Trace W → Type 0
  Settled s =
      (0 < s.npus_count)
      × (w : World W) × (s.tm ≡ some w)
      × IsTopology bandwidths latencies routes iteration (manager_of w)

  -- What one step over a line leaves settled.
  abbrev Settles : Trace W → Outcome (Progress W) → Type 0
  Settles s result = (p : Progress W) → result ≡ ok p → Settled s → Settled (trace_of p)

  goes_on : (s s' : Trace W) → (Settled s → Settled s') → Settles s (ok (going s'))
  goes_on s s' f p h settled = subst (λ x. Settled (trace_of x)) (ok-injective h) (f settled)

  by_test :
      (s : Trace W) (b : Bool) (x y : Outcome (Progress W))
      → Settles s x
      → (b ≡ false → Settles s y)
      → Settles s (if b then x else y)
  by_test s b x y f g p h settled = elim (if-eq-ok b x y h) [
    | inl (_, first) ↦ f p first settled
    | inr (other, second) ↦ g other p second settled
  ]

  request_topology-Settles : (fuel : ℕ) (s : Trace W) → Settles s (request_topology fuel s)
  unfolding request_topology
  request_topology-Settles fuel s p h (some_npu, w, at, holds) =
      let (tm, found, h₁) = >>=-eq-ok (or_fail Error.undefined s.tm) _ h in
      let same : w ≡ tm =
        let e : some w ≡ some tm = sym at ∙ or_fail-eq-ok Error.undefined s.tm found in cc in
      let (tm', waited, h₂) = >>=-eq-ok (wait_reconfigured fuel tm) _ h₁ in
      let holds' =
        wait-Holds bandwidths latencies routes iteration fuel tm tm'
          (subst (λ (x : World W). IsTopology bandwidths latencies routes iteration (manager_of x))
            same holds)
          waited in
      elim (if-eq-ok (is_reconfiguring tm') (ok (returned (record s { tm = some tm' }))) _ h₂) [
        | inl (_, stops) ↦
            subst (λ x. Settled (trace_of x)) (ok-injective stops) (some_npu, tm', refl, holds')
        | inr (_, asks) ↦
            let unchanged =
              reconfigure-current bandwidths latencies routes iteration s.bw_matrix s.lt_matrix
                (of_nat s.reconfig_latency) tm' holds' in
            subst (λ x. Settled (trace_of x)) (ok-injective (rw unchanged at asks))
              (some_npu, tm', refl, holds')
      ]

  read_row-Settles : (fuel : ℕ) (line : Text) (s : Trace W) → Settles s (read_row fuel line s)
  unfolding read_row
  read_row-Settles fuel line s =
      let s' = record s {
        bw_matrix = s.bw_matrix ++ map d.of_int (extract_all (length line) line) ∷ [];
      } in
      by_test s (length s'.bw_matrix == s'.npus_count) (request_topology fuel s') (ok (going s'))
        (λ p h settled. request_topology-Settles fuel s' p h settled)
        (λ e. goes_on s s' (λ settled. settled))

  read_flow-Settles : (line : Text) (s : Trace W) → Settles s (read_flow line s)
  unfolding read_flow
  read_flow-Settles line s p h (some_npu, w, at, holds) =
      let (spaced, _, h₁) = >>=-eq-ok (replace_arrow line) _ h in
      let (args, _, h₂) = >>=-eq-ok (extract_flow spaced) _ h₁ in
      let (tm, found, h₃) = >>=-eq-ok (or_fail Error.undefined s.tm) _ h₂ in
      let same : w ≡ tm =
        let e : some w ≡ some tm = sym at ∙ or_fail-eq-ok Error.undefined s.tm found in cc in
      let (from, _, h₄) = >>=-eq-ok (to_device args.0) _ h₃ in
      let (to, _, h₅) = >>=-eq-ok (to_device args.1) _ h₄ in
      let (tm', sent, made) = >>=-eq-ok (send_one (to_size args.2) from to tm) _ h₅ in
      subst (λ x. Settled (trace_of x)) (ok-injective made)
        (
          some_npu,
          tm',
          refl,
          send_one-Holds bandwidths latencies routes iteration (to_size args.2) from to tm tm'
              (subst
                (λ (x : World W). IsTopology bandwidths latencies routes iteration (manager_of x))
                same holds)
              sent,
        )

  read_section-Settles :
      (fuel : ℕ) (line : Text) (s : Trace W) → Settles s (read_section fuel line s)
  unfolding read_section
  read_section-Settles fuel line s =
      by_test s (equals line bm || equals line bw) _ _ (goes_on s _ (λ settled. settled)) (λ e.
        by_test s (equals line flow) _ _ (goes_on s _ (λ settled. settled)) (λ e.
          by_test s s.is_bw_section _ _ (read_row-Settles fuel line s) (λ e.
            by_test s s.is_flow_section _ _ (read_flow-Settles line s)
              (λ e. goes_on s s (λ settled. settled)))))

  -- A count that is read.
  read_count-Settles :
      (line : Text) (s : Trace W) (next : ℕ → Trace W)
      → ((n : ℕ) → Settled s → Settled (next n))
      → Settles s (stoi line >>= (λ n. ok (going (next n))))
  read_count-Settles line s next f p h settled =
      let (n, _, made) = >>=-eq-ok (stoi line) _ h in goes_on s (next n) (f n) p made settled

  read_header-Settles :
      (schedules : List (ℤ × List (List W))) (fuel : ℕ) (line : Text) (s : Trace W)
      → Settles s (read_header schedules fuel line s)
  unfolding read_header
  read_header-Settles schedules fuel line s p h settled =
      let started : (s.npus_count == 0 && starts_with_digit line) ≡ false =
        ground (arith, settled.0) in
      by_test s (s.iters_count == 0 && starts_with_digit line) _ _
        (read_count-Settles line s _ (λ n settled. settled))
        (λ e.
          by_test s (s.latency == 0 && starts_with_digit line) _ _
            (read_count-Settles line s _ (λ n settled. settled))
            (λ e.
              by_test s (s.reconfig_latency == 0 && starts_with_digit line) _ _
                (read_count-Settles line s _ (λ n settled. settled))
                (λ e. read_section-Settles fuel line s)))
        p (rw started at h) settled

  read_line-Settles :
      (schedules : List (ℤ × List (List W))) (fuel : ℕ) (text : Text) (s : Trace W)
      → Settles s (read_line schedules fuel text s)
  unfolding read_line
  read_line-Settles schedules fuel text s =
      by_test s (is_empty (trim text) || starts_with comment_mark (trim text)) _ _
        (goes_on s s (λ settled. settled)) (λ e. read_header-Settles schedules fuel (trim text) s)

  -- Once the manager of a trace has taken a topology with the id 0, which simulate_trace asks for with every
  -- matrix, no later line of the trace changes its bandwidths, latencies, routes or iteration: a further section BM or
  -- BW has no effect, whether the function goes on to the end of the file or returns before it.
  pub read_lines-keeps_topology :
      (schedules : List (ℤ × List (List W))) (fuel : ℕ) (lines : List Text) (s : Trace W)
      (p : Progress W)
      → read_lines schedules fuel lines s ≡ ok p
      → Settled s
      → Settled (trace_of p)
  unfolding read_lines
  read_lines-keeps_topology schedules fuel [] s p h settled =
      subst (λ x. Settled (trace_of x)) (ok-injective h) settled
  read_lines-keeps_topology schedules fuel (line ∷ lines) s p h settled =
      let (q, read, rest) = >>=-eq-ok (read_line schedules fuel line s) _ h in
      further q (read_lines-keeps_topology schedules fuel lines)
        (read_line-Settles schedules fuel line s q read settled) rest
    where
      further :
          (q : Progress W)
          → ((s : Trace W) (p : Progress W)
              → read_lines schedules fuel lines s ≡ ok p
              → Settled s
              → Settled (trace_of p))
          → Settled (trace_of q)
          → (elim q [
            | going s' ↦ read_lines schedules fuel lines s'
            | returned s' ↦ ok (returned s')
          ])
            ≡ ok p
          → Settled (trace_of p)
      further (going s') recur settled' h' = recur s' p h' settled'
      further (returned s') recur settled' h' =
          subst (λ x. Settled (trace_of x)) (ok-injective h') settled'
