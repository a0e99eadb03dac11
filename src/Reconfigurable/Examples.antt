-- ===== src/Reconfigurable/Examples.antt =====
-- A line of four devices, reconfigured and run.
use astra_network_analytical.Base.{
  Bool, true, false, ℕ, zero, suc, assertion, List, [], ◌∷◌, ◌≡◌, refl, Outcome, ok, fail, ◌>>=◌,
}
use astra_network_analytical.Base.Int.{pos, negsuc}
use astra_network_analytical.Base.Maps.{find, put}
use astra_network_analytical.Double.{of_nat}
use astra_network_analytical.Double.Rational.{Rational, rational_double}
use astra_network_analytical.EventQueue.{run, proceed, schedule_event}
use astra_network_analytical.Reconfigurable.State.{World}
use astra_network_analytical.Reconfigurable.Chunk.{
  new_chunk, current_device, next_device, get_size, mark_arrived_next_device,
}
use astra_network_analytical.Reconfigurable.Routes.{precompute_routes}
use astra_network_analytical.Reconfigurable.Manager.{new_topology_manager, reconfigure, send}
use astra_network_analytical.Reconfigurable.Events.{invoke, start}

abbrev pub matrix : List (List ℕ) → List (List Rational)
matrix rows = of_rows rows
  where
    of_row : List ℕ → List Rational
    of_row [] = []
    of_row (x ∷ xs) = of_nat x ∷ of_row xs

    of_rows : List (List ℕ) → List (List Rational)
    of_rows [] = []
    of_rows (r ∷ rs) = of_row r ∷ of_rows rs

abbrev pub line : List (List Rational)
line = matrix (
    (0 ∷ 50 ∷ 0 ∷ 0 ∷ [])
    ∷ (50 ∷ 0 ∷ 50 ∷ 0 ∷ [])
    ∷ (0 ∷ 50 ∷ 0 ∷ 50 ∷ [])
    ∷ (0 ∷ 0 ∷ 50 ∷ 0 ∷ [])
    ∷ [])

line_routes :
    precompute_routes 4 line
    ≡ ok (
        ((0 ∷ []) ∷ (0 ∷ 1 ∷ []) ∷ (0 ∷ 1 ∷ 2 ∷ []) ∷ (0 ∷ 1 ∷ 2 ∷ 3 ∷ []) ∷ [])
        ∷ ((1 ∷ 0 ∷ []) ∷ (1 ∷ []) ∷ (1 ∷ 2 ∷ []) ∷ (1 ∷ 2 ∷ 3 ∷ []) ∷ [])
        ∷ ((2 ∷ 1 ∷ 0 ∷ []) ∷ (2 ∷ 1 ∷ []) ∷ (2 ∷ []) ∷ (2 ∷ 3 ∷ []) ∷ [])
        ∷ ((3 ∷ 2 ∷ 1 ∷ 0 ∷ []) ∷ (3 ∷ 2 ∷ 1 ∷ []) ∷ (3 ∷ 2 ∷ []) ∷ (3 ∷ []) ∷ [])
        ∷ [])
unfolding precompute_routes
line_routes = refl

abbrev no_callback : ℕ → ℕ → World Rational → Outcome (World Rational)
no_callback callback arg w = ok w

-- One chunk on the line, which the first reconfiguration sets up: the time at which the run ends.
run_line : ℕ → ℕ → Outcome ℕ
unfolding new_topology_manager reconfigure send run invoke new_chunk schedule_event find put
    current_device next_device get_size mark_arrived_next_device
run_line src dest = do
  network ← new_topology_manager 4 4 []
  (_, w) ← reconfigure line line (of_nat 500) (pos 0) (start network)
  chunk ← new_chunk 1_080_000 (src ∷ dest ∷ []) 0 0 (negsuc 0)
  w' ← send chunk w
  end ← run (invoke no_callback) 100 w'
  ok (end.queue.current_time)

-- The first hop begins at 500, when the links are set, and each hop takes 20166.
one_hop : run_line 0 1 ≡ ok 20666
unfolding run_line
one_hop = refl

two_hops : run_line 0 2 ≡ ok 40832
unfolding run_line
two_hops = refl

-- The third hop is not made.
three_hops : run_line 0 3 ≡ ok 40832
unfolding run_line
three_hops = refl

-- A full mesh of three, in which `slow` changes every link but the one from 0 to 1.
abbrev mesh : List (List Rational)
mesh = matrix ((0 ∷ 50 ∷ 50 ∷ []) ∷ (50 ∷ 0 ∷ 50 ∷ []) ∷ (50 ∷ 50 ∷ 0 ∷ []) ∷ [])

abbrev slow : List (List Rational)
slow = matrix ((0 ∷ 50 ∷ 10 ∷ []) ∷ (10 ∷ 0 ∷ 10 ∷ []) ∷ (10 ∷ 10 ∷ 0 ∷ []) ∷ [])

send_one : ℕ → ℕ → ℕ → World Rational → Outcome (World Rational)
unfolding send new_chunk schedule_event find put current_device next_device get_size
send_one size src dest w = do chunk ← new_chunk size (src ∷ dest ∷ []) 0 0 (negsuc 0); send chunk w

-- Two chunks over the link from 0 to 1, before the next reconfiguration and after it.
run_twice : List (List Rational) → Outcome ℕ
unfolding new_topology_manager reconfigure send_one run invoke schedule_event find put
    current_device next_device get_size mark_arrived_next_device
run_twice next = do
  network ← new_topology_manager 3 3 []
  (_, w) ← reconfigure mesh mesh (of_nat 500) (pos 0) (start network)
  w₁ ← run (invoke no_callback) 100 w
  (_, w₂) ← reconfigure next mesh (of_nat 500) (pos 1) w₁
  a ← send_one 1_080_000 0 1 w₂
  b ← send_one 1_080_000 0 1 a
  end ← run (invoke no_callback) 100 b
  ok (end.queue.current_time)

-- The link is not changed, and its event at 501 frees it in the middle of the first chunk: the
-- second arrives 1 ns behind the first and not 20116 ns.
overlap : run_twice slow ≡ ok 20667
unfolding run_twice
overlap = refl

-- A chunk of 0 → 2 flies from 0 to 1 when draining begins, and 2 → 0 is busy for long. The link
-- from 1 to 2 is counted twice, and the link from 2 to 0 is reconfigured while it is busy.
abbrev detour : List (List Rational)
detour = matrix ((0 ∷ 50 ∷ 0 ∷ []) ∷ (0 ∷ 0 ∷ 50 ∷ []) ∷ (50 ∷ 0 ∷ 0 ∷ []) ∷ [])

abbrev far : List (List Rational)
far = matrix ((0 ∷ 9000 ∷ 9000 ∷ []) ∷ (9000 ∷ 0 ∷ 9000 ∷ []) ∷ (9000 ∷ 9000 ∷ 0 ∷ []) ∷ [])

proceed_n : ℕ → World Rational → Outcome (World Rational)
unfolding proceed invoke schedule_event find put current_device next_device get_size
    mark_arrived_next_device
proceed_n zero w = ok w
proceed_n (suc n) w = do w' ← proceed (invoke no_callback) w; proceed_n n w'

run_drain : ℕ → Outcome ℕ
unfolding new_topology_manager reconfigure send_one run invoke schedule_event find put
    current_device next_device get_size mark_arrived_next_device proceed_n
run_drain k = do
  network ← new_topology_manager 3 3 []
  (_, w) ← reconfigure detour far (of_nat 500) (pos 0) (start network)
  w₁ ← run (invoke no_callback) 100 w
  a ← send_one 1080 0 2 w₁
  b ← send_one 108_000_000 2 0 a
  c ← proceed_n k b
  (_, e) ← reconfigure slow far (of_nat 500) (pos 1) c
  end ← run (invoke no_callback) 100 e
  ok (end.queue.current_time)

drain_fails : run_drain 1 ≡ fail assertion
unfolding run_drain
drain_fails = refl

-- A network of one device has no link to count: its first draining never ends, and every later
-- request for another id is answered with false.
abbrev alone : List (List Rational)
alone = matrix ((0 ∷ []) ∷ [])

answers : Outcome (Bool × Bool)
unfolding new_topology_manager reconfigure run invoke schedule_event find put
answers = do
  network ← new_topology_manager 1 1 []
  (first, w) ← reconfigure alone alone (of_nat 500) (pos 0) (start network)
  w₁ ← run (invoke no_callback) 10 w
  (second, w₂) ← reconfigure alone alone (of_nat 500) (pos 1) w₁
  ok (first, second)

alone_stuck : answers ≡ ok (true, false)
unfolding answers
alone_stuck = refl
