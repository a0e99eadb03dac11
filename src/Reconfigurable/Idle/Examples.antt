-- ===== src/Reconfigurable/Idle/Examples.antt =====
-- Two devices whose links are free, as the manager begins to drain them.
use astra_network_analytical.Base.{
  get_elem?, some, sym, ◌∙◌, ap, subst, ◌<◌, ◌≢◌, All, List, ok, ℕ, zero, suc, [], ◌∷◌, ◌≡◌, refl,
  true, false, none, arith,
}
use astra_network_analytical.Base.Int.{pos}
use astra_network_analytical.Base.Maps.{find}
use astra_network_analytical.Double.{of_nat}
use astra_network_analytical.Double.Rational.{Rational, rational_double}
use astra_network_analytical.Reconfigurable.State.{Device, Link, Network, World}
use astra_network_analytical.Reconfigurable.Manager.{
  manager_of, drain_network, accept_request, reconfigure,
}
use astra_network_analytical.Reconfigurable.Events.{start}
use astra_network_analytical.Reconfigurable.Routes.Table.{HasRoute}
use astra_network_analytical.Reconfigurable.Synced.{IsSynced}
use astra_network_analytical.Reconfigurable.Idle.Finish.{CanSet, IsTimely}
use astra_network_analytical.Reconfigurable.Idle.Configured.{
  HasRows, AllConfigured, drain_network-idle,
}
use astra_network_analytical.Reconfigurable.Idle.Request.{
  IsAcceptable, NoneNegative, reconfigure-idle,
}
use astra_network_analytical.Reconfigurable.Idle.{AllTidy}

abbrev free_link : Link Rational
free_link = record {
  bandwidth = of_nat 0;
  bandwidth_Bpns = of_nat 0;
  latency = of_nat 0;
  busy = false;
}

abbrev device : ℕ → Device Rational
device id = record {
  device_id = id;
  topology_iteration = 0;
  draining = false;
  links = (0, free_link) ∷ (1, free_link) ∷ [];
  pending_chunks = [];
  routes = [];
}

abbrev matrix : ℕ → List (List Rational)
matrix b = (of_nat 0 ∷ of_nat b ∷ []) ∷ (of_nat b ∷ of_nat 0 ∷ []) ∷ []

abbrev table : List (List (List ℕ))
table = ((0 ∷ []) ∷ (0 ∷ 1 ∷ []) ∷ []) ∷ ((1 ∷ 0 ∷ []) ∷ (1 ∷ []) ∷ []) ∷ []

abbrev two : Network Rational
two = record {
  manager = record {
    npus_count = 2;
    devices_count = 2;
    topology_iteration = 1;
    cur_topo_id = pos 0;
    reconfiguring = true;
    reconfig_time = some (of_nat 10);
    topology = record { npus_count = 2; devices_count = 2; devices = device 0 ∷ device 1 ∷ [] };
    bandwidths = matrix 50;
    latencies = matrix 500;
    precomputed_routes = table;
    circuit_schedules = [];
    inflight_coll = pos 0;
  };
  num_drained_links = 0;
  drain_all_flow = true;
}

free_links :
    All
      (λ (l : ℕ × Link Rational). (l.0 < 2) × (l.1.busy ≡ false))
      ((0, free_link) ∷ (1, free_link) ∷ [])
free_links = ((omega arith, refl), ((omega arith, refl), tt))

two-AllTidy : AllTidy 2 (start two)
unfolding find
two-AllTidy zero low = (device 0, refl, (refl, refl, free_links, others))
  where
    others :
        (j : ℕ)
        → j < 2
        → 0 ≢ j
        → (link : Link Rational) × (find j (device 0).links ≡ some link) × (link.busy ≡ false)
    others zero low ne = absurd (ne refl)
    others (suc zero) low ne = (free_link, refl, refl)
    others (suc (suc j)) low ne = absurd (omega arith)
two-AllTidy (suc zero) low = (device 1, refl, (refl, refl, free_links, others))
  where
    others :
        (j : ℕ)
        → j < 2
        → 1 ≢ j
        → (link : Link Rational) × (find j (device 1).links ≡ some link) × (link.busy ≡ false)
    others zero low ne = (free_link, refl, refl)
    others (suc zero) low ne = absurd (ne refl)
    others (suc (suc j)) low ne = absurd (omega arith)
two-AllTidy (suc (suc p)) low = absurd (omega arith)

two-HasRows : HasRows 2 two.manager
two-HasRows zero low = (_, _, _, refl, refl, refl, refl, refl, entries)
  where
    entries :
        (j : ℕ)
        → j < 2
        → CanSet {W = Rational}
            (of_nat 0 ∷ of_nat 50 ∷ [])
            (of_nat 0 ∷ of_nat 500 ∷ [])
            ((0 ∷ []) ∷ (0 ∷ 1 ∷ []) ∷ [])
            j
    entries zero low = (_, _, _, refl, refl, refl, refl, refl)
    entries (suc zero) low = (_, _, _, refl, refl, refl, refl, refl)
    entries (suc (suc j)) low = absurd (omega arith)
two-HasRows (suc zero) low = (_, _, _, refl, refl, refl, refl, refl, entries)
  where
    entries :
        (j : ℕ)
        → j < 2
        → CanSet {W = Rational}
            (of_nat 50 ∷ of_nat 0 ∷ [])
            (of_nat 500 ∷ of_nat 0 ∷ [])
            ((1 ∷ 0 ∷ []) ∷ (1 ∷ []) ∷ [])
            j
    entries zero low = (_, _, _, refl, refl, refl, refl, refl)
    entries (suc zero) low = (_, _, _, refl, refl, refl, refl, refl)
    entries (suc (suc j)) low = absurd (omega arith)
two-HasRows (suc (suc i)) low = absurd (omega arith)

two-IsTimely : IsTimely {W = Rational} (of_nat 10) 0
two-IsTimely = (omega arith, 10, refl, omega arith)

drain_network-idle_example :
    (w' : World Rational) × (drain_network (start two) ≡ ok w')
    × IsSynced (manager_of w')
    × AllConfigured 2 (of_nat 10) 0 two-IsTimely two.manager w'
drain_network-idle_example =
    drain_network-idle 0 0 (of_nat 10) (start two) refl refl
      (refl, refl, 0, refl, ((refl, refl), ((refl, refl), tt))) two-AllTidy two-HasRows refl refl
      two-IsTimely

abbrev ready : Network Rational
ready = record two {
  manager = record (two.manager) { reconfiguring = false; topology_iteration = 0 };
}

ready-AllTidy : AllTidy 2 (start ready)
ready-AllTidy p low = two-AllTidy p low

-- An entry that is read is the one that stands there.
entry :
    (i j : ℕ) (rows : List (List Rational)) (row : List Rational) (x : Rational)
    → get_elem? rows i ≡ some row
    → get_elem? row j ≡ some x
    → (row' : List Rational) (x' : Rational) → get_elem? rows i ≡ some row'
    → get_elem? row' j ≡ some x'
    → rational_double.le (of_nat 0) x' ≡ true
    → rational_double.le (of_nat 0) x ≡ true
entry i j rows row x at at' row' x' there there' low =
    let same : some row' ≡ some row = sym there ∙ at in
    let row_same : row' ≡ row = cc in
    let same' : some x' ≡ some x =
      sym there' ∙ ap (λ (r : List Rational). get_elem? r j) row_same ∙ at' in
    let x_same : x' ≡ x = cc in subst (λ y. rational_double.le (of_nat 0) y ≡ true) x_same low

past :
    (i j : ℕ) (rows : List (List Rational)) (row : List Rational) (x : Rational)
    → get_elem? rows i ≡ some row
    → get_elem? row (suc (suc j)) ≡ some x
    → (row' : List Rational) → get_elem? rows i ≡ some row'
    → get_elem? row' (suc (suc j)) ≡ none
    → rational_double.le (of_nat 0) x ≡ true
past i j rows row x at at' row' there nothing =
    let same : some row' ≡ some row = sym there ∙ at in
    let row_same : row' ≡ row = cc in
    let no_entry : none ≡ some x =
      sym nothing ∙ ap (λ (r : List Rational). get_elem? r (suc (suc j))) row_same ∙ at' in
    cc

matrix_50-NoneNegative : NoneNegative (matrix 50)
matrix_50-NoneNegative zero zero row x at at' =
    entry 0 0 (matrix 50) row x at at' _ _ refl refl refl
matrix_50-NoneNegative zero (suc zero) row x at at' =
    entry 0 1 (matrix 50) row x at at' _ _ refl refl refl
matrix_50-NoneNegative zero (suc (suc j)) row x at at' =
    past 0 j (matrix 50) row x at at' _ refl refl
matrix_50-NoneNegative (suc zero) zero row x at at' =
    entry 1 0 (matrix 50) row x at at' _ _ refl refl refl
matrix_50-NoneNegative (suc zero) (suc zero) row x at at' =
    entry 1 1 (matrix 50) row x at at' _ _ refl refl refl
matrix_50-NoneNegative (suc zero) (suc (suc j)) row x at at' =
    past 1 j (matrix 50) row x at at' _ refl refl
matrix_50-NoneNegative (suc (suc i)) j row x at at' = cc

matrix_500-NoneNegative : NoneNegative (matrix 500)
matrix_500-NoneNegative zero zero row x at at' =
    entry 0 0 (matrix 500) row x at at' _ _ refl refl refl
matrix_500-NoneNegative zero (suc zero) row x at at' =
    entry 0 1 (matrix 500) row x at at' _ _ refl refl refl
matrix_500-NoneNegative zero (suc (suc j)) row x at at' =
    past 0 j (matrix 500) row x at at' _ refl refl
matrix_500-NoneNegative (suc zero) zero row x at at' =
    entry 1 0 (matrix 500) row x at at' _ _ refl refl refl
matrix_500-NoneNegative (suc zero) (suc zero) row x at at' =
    entry 1 1 (matrix 500) row x at at' _ _ refl refl refl
matrix_500-NoneNegative (suc zero) (suc (suc j)) row x at at' =
    past 1 j (matrix 500) row x at at' _ refl refl
matrix_500-NoneNegative (suc (suc i)) j row x at at' = cc

acceptable : IsAcceptable (matrix 50) (matrix 500) (pos 1) (start ready)
acceptable = record {
  other_id = refl;
  settled = refl;
  no_collective = refl;
  tall = refl;
  wide = refl;
  tall_latencies = refl;
  wide_latencies = refl;
}

reconfigure-idle_example :
    (routes : List (List (List ℕ))) × (w' : World Rational) × (reconfigure
        (matrix 50)
        (matrix 500)
        (of_nat 10)
        (pos 1)
        (start ready)
      ≡ ok (true, w'))
    × ((s t : ℕ) → s < 2 → t < 2 → HasRoute (matrix 50) routes s t)
    × IsSynced (manager_of w')
    × ((manager_of w').topology_iteration ≡ 1)
    × AllConfigured 2
        (of_nat 10)
        0
        two-IsTimely
        (accept_request ready.manager (matrix 50) (matrix 500) (of_nat 10) (pos 1) routes)
        w'
reconfigure-idle_example =
    reconfigure-idle 0 0 (matrix 50) (matrix 500) (of_nat 10) (pos 1) (start ready) refl
      (omega arith) (refl, refl, 0, refl, ((refl, refl), ((refl, refl), tt))) ready-AllTidy
      acceptable matrix_50-NoneNegative matrix_500-NoneNegative refl two-IsTimely
