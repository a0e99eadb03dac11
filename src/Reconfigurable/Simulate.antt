-- ===== src/Reconfigurable/Simulate.antt =====
-- The loop of `simulate_trace` in reconfigurable/simulate.cpp over the lines of the file, and the run behind it.
use astra_network_analytical.Base.{ℕ, List, [], ◌∷◌, Option, none, some, Outcome, ok, ◌>>=◌}
use astra_network_analytical.Base.Int.{ℤ}
use astra_network_analytical.Double.{Double}
use astra_network_analytical.EventQueue.{get_current_time, run}
use astra_network_analytical.Reconfigurable.Events.{invoke}
use astra_network_analytical.Reconfigurable.Example.{chunk_arrived_callback}
use astra_network_analytical.Reconfigurable.Text.{Text}
use astra_network_analytical.Reconfigurable.Trace.{
  Trace, Progress, going, returned, new_trace, read_line,
}

-- What is printed at the end.
pub record Summary : Type 0 where
  pub npus_count : ℕ
  pub finish_time : ℕ

module _ {W : Type 0} ⦃d : Double W⦄ (circuit_schedules : List (ℤ × List (List W))) (fuel : ℕ) where
  -- while (std::getline(file, line))
  unfoldable pub read_lines : List Text → Trace W → Outcome (Progress W)
  unfolding read_line
  read_lines [] s = ok (going s)
  read_lines (line ∷ lines) s = read_line circuit_schedules fuel line s >>= λ progress.
      elim progress [ going s' ↦ read_lines lines s' | returned s' ↦ ok (returned s') ]

  -- The run behind the loop; without a manager the event queue is empty.
  unfoldable pub finish : Progress W → Outcome (Option Summary)
  unfolding run invoke
  finish (returned s) = ok none
  finish (going s) = elim s.tm [
    | none ↦ ok (some (record { npus_count = s.npus_count; finish_time = 0 }))
    | some w ↦ (do
      done ← run (invoke chunk_arrived_callback) fuel w
      ok (some (record { npus_count = s.npus_count; finish_time = get_current_time done.queue })))
  ]

  -- A file that cannot be opened is `none`; the summary is `none` where the function returns early.
  unfoldable pub simulate_trace : Option (List Text) → Outcome (Option Summary)
  unfolding read_lines finish
  simulate_trace none = ok none
  simulate_trace (some lines) = do progress ← read_lines lines new_trace; finish progress

  -- `main`, on its arguments; `open_file` reads the lines of a file, and 1 is EXIT_FAILURE.
  unfoldable main : (Text → Option (List Text)) → List Text → Outcome ℕ
  unfolding simulate_trace
  main open_file (program ∷ trace_file_path ∷ rest) = do
    _ ← simulate_trace (open_file trace_file_path)
    ok 0
  main open_file _ = ok 1
