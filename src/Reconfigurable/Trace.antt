-- ===== src/Reconfigurable/Trace.antt =====
-- `simulate_trace` of reconfigurable/simulate.cpp: a trace file, line by line. What is printed on the way is left
-- out; the report is the value returned. The manager's constructor gets the circuit schedules that the code
-- leaves out, as a parameter.
pub mod Holds
pub mod Topologies
mod Examples
use astra_network_analytical.Base.{
  ℕ, zero, suc, ◌+◌, ◌-◌, ◌^◌, Bool, true, false, not, ◌&&◌, ◌||◌, List, [], ◌∷◌, ◌++◌, length, map,
  replicate, Option, none, some, ltb, ◌==◌, if◌then◌else◌, Outcome, Error, ok, fail, ◌>>=◌, ◌>>◌,
  assertion, unfinished, or_fail,
}
use astra_network_analytical.Base.Int.{ℤ, pos, negsuc}
use astra_network_analytical.Double.{Double, of_nat, nought}
use astra_network_analytical.EventQueue.{finished, get_current_time, proceed, run}
use astra_network_analytical.Reconfigurable.State.{World}
use astra_network_analytical.Reconfigurable.Manager.{
  new_topology_manager, reconfigure, is_reconfiguring,
}
use astra_network_analytical.Reconfigurable.Events.{invoke, start}
use astra_network_analytical.Reconfigurable.Example.{chunk_arrived_callback, send_one}
use astra_network_analytical.Reconfigurable.Text.{
  Text, Extraction, extracted, untouched, failed_with, is_empty, trim, starts_with,
  starts_with_digit, equals, stoi, extract, extract_all, replace_arrow,
}

-- The lines that the code compares with: "//", "BM", "BW" and "FLOW".
abbrev pub comment_mark : Text
comment_mark = b'/' ∷ b'/' ∷ []

abbrev pub bm : Text
bm = b'B' ∷ b'M' ∷ []

abbrev pub bw : Text
bw = b'B' ∷ b'W' ∷ []

abbrev pub flow : Text
flow = b'F' ∷ b'L' ∷ b'O' ∷ b'W' ∷ []

-- The local variables: the manager with the event queue is `none` until the count of the NPUs is read. `flows`,
-- which is never read, is left out.
pub record Trace (W : Type 0) : Type 0 where
  pub npus_count : ℕ
  pub iters_count : ℕ
  pub latency : ℕ
  pub reconfig_latency : ℕ
  pub bw_matrix : List (List W)
  pub lt_matrix : List (List W)
  pub is_bw_section : Bool
  pub is_flow_section : Bool
  pub tm : Option (World W)

-- Whether the loop goes on, or the function has returned.
pub data Progress (W : Type 0) : Type 0 where
  going returned : Trace W → Progress W

-- vector::resize
unfoldable pub resize : {A : Type 0} → ℕ → A → List A → List A
resize zero x xs = []
resize (suc n) x [] = x ∷ resize n x []
resize (suc n) x (y ∷ ys) = y ∷ resize n x ys

-- The conversions of an int that is negative: a device's id fails an assertion, a chunk's size wraps.
abbrev pub to_device : ℤ → Outcome ℕ
to_device (pos n) = ok n
to_device (negsuc n) = fail assertion

abbrev pub to_size : ℤ → ℕ
to_size (pos n) = n
to_size (negsuc n) = 2 ^ 64 - suc n

-- ss >> src >> dest >> size, for the values that are then read: none of them may be left unset.
abbrev pub extract_size : Extraction → Outcome ℤ
extract_size (extracted size rest) = ok size
extract_size untouched = fail Error.undefined
extract_size (failed_with size) = ok size

abbrev pub extract_dest : ℤ → Extraction → Outcome (ℤ × ℤ × ℤ)
extract_dest src (extracted dest rest) = do size ← extract_size (extract rest); ok (src, dest, size)
extract_dest src _ = fail Error.undefined

abbrev pub extract_src : Extraction → Outcome (ℤ × ℤ × ℤ)
extract_src (extracted src rest) = extract_dest src (extract rest)
extract_src _ = fail Error.undefined

unfoldable pub extract_flow : Text → Outcome (ℤ × ℤ × ℤ)
unfolding extract
extract_flow line = extract_src (extract line)

module _ {W : Type 0} ⦃d : Double W⦄ where
  abbrev pub new_trace : Trace W
  new_trace = record {
    npus_count = 0;
    iters_count = 0;
    latency = 0;
    reconfig_latency = 0;
    bw_matrix = [];
    lt_matrix = [];
    is_bw_section = false;
    is_flow_section = false;
    tm = none;
  }

  -- while (tm->is_reconfiguring() && !event_queue->finished()) event_queue->proceed();
  unfoldable pub wait_reconfigured : ℕ → World W → Outcome (World W)
  unfolding proceed invoke
  wait_reconfigured zero w =
      if is_reconfiguring w && not (finished w.queue) then fail unfinished else ok w
  wait_reconfigured (suc fuel) w = elim (is_reconfiguring w && not (finished w.queue)) [
    | true ↦ proceed (invoke chunk_arrived_callback) w >>= wait_reconfigured fuel
    | false ↦ ok w
  ]

  -- The matrix is complete.
  unfoldable pub request_topology : ℕ → Trace W → Outcome (Progress W)
  unfolding wait_reconfigured reconfigure
  request_topology fuel s = do
    tm ← or_fail Error.undefined s.tm
    tm' ← wait_reconfigured fuel tm
    if is_reconfiguring tm' then ok (returned (record s { tm = some tm' })) else (do
      (_, tm'') ← reconfigure s.bw_matrix s.lt_matrix (of_nat s.reconfig_latency) (pos 0) tm'
      ok (going (record s { tm = some tm'' })))

  -- A line of a section BM or BW.
  unfoldable pub read_row : ℕ → Text → Trace W → Outcome (Progress W)
  unfolding extract_all request_topology
  read_row fuel line s =
      let row = map d.of_int (extract_all (length line) line) in
      let s' = record s { bw_matrix = s.bw_matrix ++ row ∷ [] } in
      if length s'.bw_matrix == s'.npus_count then request_topology fuel s' else ok (going s')

  -- A line of a section FLOW.
  unfoldable pub read_flow : Text → Trace W → Outcome (Progress W)
  unfolding replace_arrow extract_flow send_one
  read_flow line s = do
    spaced ← replace_arrow line
    (src, dest, size) ← extract_flow spaced
    tm ← or_fail Error.undefined s.tm
    from ← to_device src
    to ← to_device dest
    tm' ← send_one (to_size size) from to tm
    ok (going (record s { tm = some tm' }))

  unfoldable pub read_section : ℕ → Text → Trace W → Outcome (Progress W)
  unfolding equals read_row read_flow
  read_section fuel line s =
      if equals line bm || equals line bw
      then ok (going (record s { is_bw_section = true; bw_matrix = []; is_flow_section = false }))
      else if equals line flow
      then ok (going (record s { is_flow_section = true; is_bw_section = false }))
      else if s.is_bw_section
      then read_row fuel line s
      else if s.is_flow_section
      then read_flow line s
      else ok (going s)

  -- A line that starts with a digit goes to the first count of the header that is 0.
  unfoldable pub read_header : List (ℤ × List (List W)) → ℕ → Text → Trace W → Outcome (Progress W)
  unfolding stoi new_topology_manager resize read_section
  read_header circuit_schedules fuel line s =
      if s.npus_count == 0 && starts_with_digit line
      then (do
        n ← stoi line
        network ← new_topology_manager n n circuit_schedules
        ok (going (record s { npus_count = n; tm = some (start network) })))
      else if s.iters_count == 0 && starts_with_digit line
      then (do
        n ← stoi line
        ok (
            going (record s {
              iters_count = n;
              bw_matrix = resize s.npus_count (replicate s.npus_count nought) s.bw_matrix;
            })))
      else if s.latency == 0 && starts_with_digit line
      then (do
        n ← stoi line
        ok (
            going (record s {
              latency = n;
              lt_matrix = resize s.npus_count (replicate s.npus_count (of_nat n)) s.lt_matrix;
            })))
      else if s.reconfig_latency == 0 && starts_with_digit line
      then (do n ← stoi line; ok (going (record s { reconfig_latency = n })))
      else read_section fuel line s

  -- The body of the loop; a line that is empty or a comment is skipped.
  unfoldable pub read_line : List (ℤ × List (List W)) → ℕ → Text → Trace W → Outcome (Progress W)
  unfolding trim starts_with read_header
  read_line circuit_schedules fuel text s =
      let line = trim text in
      if is_empty line || starts_with comment_mark line
      then ok (going s)
      else read_header circuit_schedules fuel line s
