-- ===== src/Reconfigurable/Trace/Examples.antt =====
-- Traces of two devices.
use astra_network_analytical.Base.{
  Bool, false, ℕ, ◌≡◌, refl, List, [], ◌∷◌, ◌++◌, Option, none, some, Outcome, ok, arith, true,
}
use astra_network_analytical.Base.Maps.{find, put}
use astra_network_analytical.Double.Rational.{Rational, rational_double}
use astra_network_analytical.EventQueue.{schedule_event}
use astra_network_analytical.Reconfigurable.State.{World}
use astra_network_analytical.Reconfigurable.Manager.{manager_of}
use astra_network_analytical.Reconfigurable.Chunk.{
  current_device, next_device, get_size, mark_arrived_next_device,
}
use astra_network_analytical.Reconfigurable.Text.{Text}
use astra_network_analytical.Reconfigurable.Trace.{Trace, Progress, going, new_trace}
use astra_network_analytical.Reconfigurable.Simulate.{Summary, read_lines, simulate_trace}
use astra_network_analytical.Reconfigurable.Trace.Holds.{trace_of}
use astra_network_analytical.Reconfigurable.Trace.Topologies.{Settled, read_lines-keeps_topology}

abbrev one : Text
one = b'1' ∷ []

abbrev two : Text
two = b'2' ∷ []

abbrev ten : Text
ten = b'1' ∷ b'0' ∷ []

abbrev zero_line : Text
zero_line = b'0' ∷ []

abbrev bm_line : Text
bm_line = b'B' ∷ b'M' ∷ 13 ∷ []

abbrev flow_line : Text
flow_line = b'F' ∷ b'L' ∷ b'O' ∷ b'W' ∷ []

abbrev digits : ℕ → ℕ → Text
digits a b = a ∷ b'0' ∷ b' ' ∷ b ∷ b'0' ∷ []

abbrev matrix_at : ℕ → List Text
matrix_at c = bm_line ∷ digits b'0' c ∷ digits c b'0' ∷ []

-- 1 megabyte from 0 to 1.
abbrev flows : List Text
flows =
    flow_line
    ∷ (b'0' ∷ b'-' ∷ b'>' ∷ b'1' ∷ b' ' ∷ b'1' ∷ b'0' ∷ b'0' ∷ b'0' ∷ b'0' ∷ b'0' ∷ b'0' ∷ [])
    ∷ []

abbrev header : Text → List Text
header reconfig_latency = two ∷ (b'/' ∷ b'/' ∷ []) ∷ one ∷ ten ∷ reconfig_latency ∷ []

abbrev simulate : List Text → Outcome (Option Summary)
simulate lines = simulate_trace {W = Rational} [] 50 (some lines)

one_matrix :
    simulate (header ten ++ matrix_at b'5' ++ flows)
    ≡ ok (some (record { npus_count = 2; finish_time = 18646 }))
unfolding simulate_trace find put current_device next_device get_size mark_arrived_next_device
    schedule_event
one_matrix = refl

-- The second matrix, five times slower, changes nothing.
two_matrices :
    simulate (header ten ++ matrix_at b'5' ++ matrix_at b'1' ++ flows)
    ≡ ok (some (record { npus_count = 2; finish_time = 18646 }))
unfolding simulate_trace find put current_device next_device get_size mark_arrived_next_device
    schedule_event
two_matrices = refl

abbrev trace_or_new : Outcome (Progress Rational) → Trace Rational
trace_or_new (ok p) = trace_of p
trace_or_new _ = new_trace

abbrev progress_or_new : Outcome (Progress Rational) → Progress Rational
progress_or_new (ok p) = p
progress_or_new _ = going new_trace

-- With a reconfiguration latency of 0 the rows of the matrix are taken for that latency.
rows_lost :
    (trace_or_new (read_lines [] 50 (header zero_line ++ matrix_at b'5') new_trace)).bw_matrix ≡ []
unfolding read_lines find put schedule_event
rows_lost = refl

-- The trace behind the first matrix.
abbrev behind_first : Trace Rational
behind_first = trace_or_new (read_lines [] 50 (header ten ++ matrix_at b'5') new_trace)

abbrev has_manager : Option (World Rational) → Bool
has_manager none = false
has_manager (some w) = true

not_there : has_manager none ≡ true → (w : World Rational) × (none ≡ some w)
not_there h = cc

abbrev manager_there :
    (o : Option (World Rational)) → has_manager o ≡ true → (w : World Rational) × (o ≡ some w)
manager_there none h = not_there h
manager_there (some w) h = (w, refl)

there : has_manager behind_first.tm ≡ true
unfolding read_lines find put schedule_event
there = refl

abbrev settled_world : World Rational
settled_world = (manager_there behind_first.tm there).0

settled :
    Settled
      (manager_of settled_world).bandwidths
      (manager_of settled_world).latencies
      (manager_of settled_world).precomputed_routes
      1
      behind_first
unfolding read_lines find put schedule_event there
settled =
    let (w, at) = manager_there behind_first.tm there in
    (
      omega arith,
      w,
      at,
      record {
        id = refl;
        same_bandwidths = refl;
        same_latencies = refl;
        same_routes = refl;
        same_iteration = refl;
      },
    )

-- The second matrix, which is slower.
abbrev behind_second : Progress Rational
behind_second = progress_or_new (read_lines [] 50 (matrix_at b'1') behind_first)

second_read : read_lines [] 50 (matrix_at b'1') behind_first ≡ ok behind_second
unfolding read_lines find put schedule_event
second_read = refl

read_lines-keeps_topology_example :
    Settled
      (manager_of settled_world).bandwidths
      (manager_of settled_world).latencies
      (manager_of settled_world).precomputed_routes
      1
      (trace_of behind_second)
read_lines-keeps_topology_example =
    read_lines-keeps_topology (manager_of settled_world).bandwidths
      (manager_of settled_world).latencies (manager_of settled_world).precomputed_routes 1 [] 50
      (matrix_at b'1') behind_first behind_second second_read settled
