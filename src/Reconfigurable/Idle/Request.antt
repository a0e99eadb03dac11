-- ===== src/Reconfigurable/Idle/Request.antt =====
-- A request to a manager whose network is idle.
use astra_network_analytical.Base.{
  zero, [], ◌∷◌, ◌<◌, some, get_elem?, get_elem?-of_lt, ℕ, suc, ◌≡◌, ◌≤◌, refl, sym, ◌∙◌, ap, subst,
  true, false, ◌||◌, List, length, ◌==◌, ok, ◌>>=◌, arith,
}
use astra_network_analytical.Base.Int.{ℤ, pos, ltb_ℤ, eqb_ℤ}
use astra_network_analytical.Double.{Double, nought}
use astra_network_analytical.Reconfigurable.State.{TopologyManager, World}
use astra_network_analytical.Reconfigurable.Routes.{inf, has_width, precompute_routes}
use astra_network_analytical.Reconfigurable.Routes.Table.{HasRoute, precompute_routes-IsRoute}
use astra_network_analytical.Reconfigurable.Manager.{
  manager_of, with_manager, is_reconfiguring, accept_request, reconfigure, drain_network,
}
use astra_network_analytical.Reconfigurable.Synced.{IsSynced}
use astra_network_analytical.Reconfigurable.Draining.{drain_network-Steady}
use astra_network_analytical.Reconfigurable.Idle.{AllTidy}
use astra_network_analytical.Reconfigurable.Idle.Finish.{IsTimely}
use astra_network_analytical.Reconfigurable.Idle.Configured.{
  HasRows, AllConfigured, drain_network-idle,
}

module _ {W : Type 0} ⦃d : Double W⦄ where
  -- A request that the manager's checks let pass.
  pub record IsAcceptable (bs ls : List (List W)) (topo_id : ℤ) (w : World W) : Type 0 where
    pub other_id : eqb_ℤ topo_id (manager_of w).cur_topo_id ≡ false
    pub settled : is_reconfiguring w ≡ false
    pub no_collective : ltb_ℤ (pos 0) (manager_of w).inflight_coll ≡ false
    pub tall : length bs ≡ (manager_of w).devices_count
    pub wide : has_width (manager_of w).devices_count bs ≡ true
    pub tall_latencies : length ls ≡ (manager_of w).devices_count
    pub wide_latencies : has_width (manager_of w).devices_count ls ≡ true

  reconfigure-drains :
      (bs ls : List (List W)) (time : W) (topo_id : ℤ) (w : World W) (routes : List (List (List ℕ)))
      → IsAcceptable bs ls topo_id w
      → precompute_routes (manager_of w).devices_count bs ≡ ok routes
      → reconfigure bs ls time topo_id w ≡ (
          drain_network (with_manager w (accept_request (manager_of w) bs ls time topo_id routes))
          >>= λ w'. ok (true, w'))
  unfolding reconfigure
  reconfigure-drains bs ls time topo_id w routes can made =
      let no_request : (is_reconfiguring w || ltb_ℤ (pos 0) (manager_of w).inflight_coll) ≡ false =
        rw (can.settled, can.no_collective) refl in
      let tall : (length bs == (manager_of w).devices_count) ≡ true = ground (arith, can.tall) in
      let tall' : (length ls == (manager_of w).devices_count) ≡ true =
        ground (arith, can.tall_latencies) in
      rw can.other_id
        (rw no_request (rw made (rw (tall, tall') (rw (can.wide, can.wide_latencies) refl))))

  row-length :
      (rows : List (List W)) (n i : ℕ) (row : List W)
      → has_width n rows ≡ true
      → get_elem? rows i ≡ some row
      → length row ≡ n
  row-length [] n i row wide at = cc
  row-length (r ∷ rows) n zero row wide at =
      let same : r ≡ row = cc in subst (λ (x : List W). length x ≡ n) same (ground arith)
  row-length (r ∷ rows) n (suc i) row wide at = row-length rows n i row (ground arith) at

  -- No entry is negative.
  abbrev pub NoneNegative : List (List W) → Type 0
  NoneNegative rows =
      (i j : ℕ) (row : List W) (x : W)
      → get_elem? rows i ≡ some row
      → get_elem? row j ≡ some x
      → d.le nought x ≡ true

  accept_request-HasRows :
      (n : ℕ) (bs ls : List (List W)) (time : W) (topo_id : ℤ) (w : World W)
      (routes : List (List (List ℕ)))
      → (manager_of w).devices_count ≡ n
      → IsAcceptable bs ls topo_id w
      → NoneNegative bs
      → NoneNegative ls
      → ((s t : ℕ) → s < n → t < n → HasRoute bs routes s t)
      → HasRows n (accept_request (manager_of w) bs ls time topo_id routes)
  accept_request-HasRows n bs ls time topo_id w routes count can some_b some_l all i low =
      let (row_b, at_b) = get_elem?-of_lt bs i (omega (arith, can.tall, count)) in
      let (row_l, at_l) = get_elem?-of_lt ls i (omega (arith, can.tall_latencies, count)) in
      let (row_r, _, at_r, _, _) = all i i low low in
      let width = row-length bs (manager_of w).devices_count i row_b can.wide at_b ∙ count in
      let width' =
        row-length ls (manager_of w).devices_count i row_l can.wide_latencies at_l ∙ count in
      (
        row_b,
        row_l,
        row_r,
        at_b,
        at_l,
        at_r,
        width,
        width',
        λ j low'.
            let (x, at_x) = get_elem?-of_lt row_b j (omega (arith, width)) in
            let (y, at_y) = get_elem?-of_lt row_l j (omega (arith, width')) in
            let (rs, r, at_rs, at_r', _) = all i j low low' in
            let mine : some rs ≡ some row_r = sym at_rs ∙ at_r in
            let same : rs ≡ row_r = cc in
            (
              x,
              y,
              r,
              at_x,
              at_y,
              subst (λ q. get_elem? q j ≡ some r) same at_r',
              some_b i j row_b x at_b at_x,
              some_l i j row_l y at_l at_y,
            ),
      )

  -- A manager in step with at least two and at most 10 ^ 9 devices, each with one link for every
  -- device and none of its links busy, takes a request that passes its checks, with no negative
  -- bandwidth or latency where the current time plus the reconfiguration time is defined and not
  -- before the current time, whose next nanosecond is in range: the call succeeds with the answer
  -- true. The clock has not moved, the manager is no longer reconfiguring and has the next
  -- iteration, which all devices have too, every pair of devices has a shortest route for the new
  -- bandwidths, or the two alone where there is none, and each device has, to every other one, that
  -- route and a link of the bandwidth and latency asked for, or a link whose own compare equal to
  -- them.
  pub reconfigure-idle :
      (m now : ℕ) (bs ls : List (List W)) (time : W) (topo_id : ℤ) (w : World W)
      → (manager_of w).devices_count ≡ suc (suc m)
      → suc (suc m) ≤ inf
      → IsSynced (manager_of w)
      → AllTidy (suc (suc m)) w
      → IsAcceptable bs ls topo_id w
      → NoneNegative bs
      → NoneNegative ls
      → w.queue.current_time ≡ now
      → (timely : IsTimely time now)
      → (routes : List (List (List ℕ))) × (w' : World W) × (reconfigure bs ls time topo_id w
          ≡ ok (true, w'))
        × ((s t : ℕ) → s < suc (suc m) → t < suc (suc m) → HasRoute bs routes s t)
        × IsSynced (manager_of w')
        × ((manager_of w').topology_iteration ≡ suc (manager_of w).topology_iteration)
        × AllConfigured
            (suc (suc m))
            time
            now
            timely
            (accept_request (manager_of w) bs ls time topo_id routes)
            w'
  reconfigure-idle m now bs ls time topo_id w n few synced tidy can some_b some_l clock timely =
      let (routes, made, all) =
        precompute_routes-IsRoute (manager_of w).devices_count bs (subst (λ c. c ≤ inf) (sym n) few)
          can.tall can.wide in
      let every : (s t : ℕ) → s < suc (suc m) → t < suc (suc m) → HasRoute bs routes s t =
        λ s t low low'. all s t (omega (arith, n)) (omega (arith, n)) in
      let asked = with_manager w (accept_request (manager_of w) bs ls time topo_id routes) in
      let (len, count, k, begun, at) = synced in
      let iteration : k ≡ (manager_of w).topology_iteration = rw (can.settled) at begun in
      let (w', drained, synced', configured) =
        drain_network-idle m now time asked refl n (len, count, k, ap suc iteration, at) tidy
          (accept_request-HasRows (suc (suc m)) bs ls time topo_id w routes n can some_b some_l
            every)
          refl clock timely in
      let (_, _, e, _) = drain_network-Steady asked w' drained in
      (
        routes,
        w',
        reconfigure-drains bs ls time topo_id w routes can made
            ∙ ap (λ o. o >>= λ w'. ok (true, w')) drained,
        every,
        synced',
        ap (λ (x : TopologyManager W). x.topology_iteration) e,
        configured,
      )
