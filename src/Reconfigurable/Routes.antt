-- ===== src/Reconfigurable/Routes.antt =====
-- TopologyManager::precomputeRoutes of reconfigurable/network/TopologyManager.cpp: a breadth-first
-- search from every device over the links that have bandwidth. The matrices are n × n, which is
-- tested first, so no reading of them is out of range.
pub mod Relax
pub mod Round
pub mod Loop
pub mod Shortest
pub mod Matrix
pub mod Table
use astra_network_analytical.Base.{
  ℕ, zero, suc, ◌+◌, Bool, true, false, not, List, [], ◌∷◌, ◌++◌, length, get_or, set, replicate,
  Option, none, some, ◌==◌, if◌then◌else◌, ◌&&◌, Outcome, Error, ok, fail, ◌>>=◌, ◌>>◌, check,
  unfinished,
}
use astra_network_analytical.Double.{Double, nought}

-- The adjacency lists; each has its devices in increasing order and once, so that `sort` and
-- `unique` leave it as it is.
abbrev pub Graph : Type 0
Graph = List (List ℕ)

abbrev pub targets : Graph → ℕ → List ℕ
targets adj u = get_or adj u []

module _ {W : Type 0} ⦃d : Double W⦄ where
  -- The devices j with bandwidths[i][j] > 0 and i ≠ j, from the rest of row i, which begins at j.
  unfoldable pub row_targets : ℕ → ℕ → List W → List ℕ
  row_targets i j [] = []
  row_targets i j (bandwidth ∷ row) =
      let rest = row_targets i (suc j) row in
      if not (i == j) && d.lt nought bandwidth then j ∷ rest else rest

  unfoldable pub adjacency : ℕ → List (List W) → Graph
  unfolding row_targets
  adjacency i [] = []
  adjacency i (row ∷ rows) = row_targets i 0 row ∷ adjacency (suc i) rows

  -- Every row has n entries.
  abbrev pub has_width : ℕ → List (List W) → Bool
  has_width n [] = true
  has_width n (row ∷ rows) = length row == n && has_width n rows

-- const int INF = 1e9
abbrev pub inf : ℕ
inf = 1_000_000_000

-- The vectors `dist` and `parent`, in which `none` is -1, and the queue `q`.
pub record Search : Type 0 where
  pub dist : List ℕ
  pub parent : List (Option ℕ)
  pub queue : List ℕ

abbrev pub dist_of : Search → ℕ → ℕ
dist_of s v = get_or s.dist v inf

abbrev pub parent_of : Search → ℕ → Option ℕ
parent_of s v = get_or s.parent v none

-- BFS init
unfoldable pub init : ℕ → ℕ → Search
init n s = record { dist = set (replicate n inf) s 0; parent = replicate n none; queue = s ∷ [] }

-- The body of the loop over adj[u].
unfoldable pub relax : ℕ → Search → ℕ → Search
relax u s v =
    if dist_of s v == inf
    then record {
      dist = set s.dist v (dist_of s u + 1);
      parent = set s.parent v (some u);
      queue = s.queue ++ v ∷ [];
    }
    else s

unfoldable pub relax_all : ℕ → Search → List ℕ → Search
unfolding relax
relax_all u s [] = s
relax_all u s (v ∷ vs) = relax_all u (relax u s v) vs

-- while (!q.empty()), on fuel.
unfoldable pub search_loop : Graph → ℕ → Search → Outcome Search
unfolding relax_all
search_loop adj zero s = elim s.queue [ [] ↦ ok s | _ ∷ _ ↦ fail unfinished ]
search_loop adj (suc fuel) s = elim s.queue [
  | [] ↦ ok s
  | u ∷ rest ↦ search_loop adj fuel (relax_all u (record s { queue = rest }) (targets adj u))
]

-- for (cur = t; cur != -1; cur = parent[cur]), with the devices behind `path`, in order.
unfoldable pub trace : ℕ → List (Option ℕ) → Option ℕ → List ℕ → Outcome (List ℕ)
trace fuel parent none path = ok path
trace zero parent (some cur) path = fail unfinished
trace (suc fuel) parent (some cur) path = trace fuel parent (get_or parent cur none) (cur ∷ path)

abbrev pub is_none : Option ℕ → Bool
is_none none = true
is_none (some a) = false

-- precomputed_routes[s][t], with n devices.
unfoldable pub route_to : ℕ → Search → ℕ → ℕ → Outcome (List ℕ)
unfolding trace
route_to n found s t =
    if s == t
    then ok (s ∷ [])
    else if is_none (parent_of found t)
    then ok (s ∷ t ∷ [])
    else trace n found.parent (some t) []

-- precomputed_routes[s][t] for k values of t.
unfoldable pub routes_to_all : ℕ → Search → ℕ → ℕ → ℕ → Outcome (List (List ℕ))
unfolding route_to
routes_to_all n found s zero t = ok []
routes_to_all n found s (suc k) t = do
  route ← route_to n found s t
  routes ← routes_to_all n found s k (suc t)
  ok (route ∷ routes)

-- One round of the loop over s. The search takes n rounds, one for each device in the queue.
unfoldable pub routes_from : Graph → ℕ → ℕ → Outcome (List (List ℕ))
unfolding init search_loop routes_to_all
routes_from adj n s = do found ← search_loop adj n (init n s); routes_to_all n found s n 0

-- for k values of s.
unfoldable pub routes_from_all : Graph → ℕ → ℕ → ℕ → Outcome (List (List (List ℕ)))
unfolding routes_from
routes_from_all adj n zero s = ok []
routes_from_all adj n (suc k) s = do
  routes ← routes_from adj n s
  rest ← routes_from_all adj n k (suc s)
  ok (routes ∷ rest)

module _ {W : Type 0} ⦃d : Double W⦄ where
  unfoldable pub precompute_routes : ℕ → List (List W) → Outcome (List (List (List ℕ)))
  unfolding adjacency routes_from_all
  precompute_routes n bandwidths = do
    check (length bandwidths == n && has_width n bandwidths) Error.undefined
    routes_from_all (adjacency 0 bandwidths) n n 0
