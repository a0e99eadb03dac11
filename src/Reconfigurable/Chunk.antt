-- ===== src/Reconfigurable/Chunk.antt =====
-- reconfigurable/network/Chunk.cpp and the short functions of Chunk.h; chunk_arrived_next_device is
-- in `Events`. An access before or behind the route is undefined behaviour.
use astra_network_analytical.Base.{
  ℕ, Bool, not, List, [], ◌∷◌, length, ltb, leb, ◌==◌, Outcome, Error, ok, fail, ◌>>=◌, ◌>>◌,
  assert, assertion,
}
use astra_network_analytical.Base.Int.{ℤ}
use astra_network_analytical.Reconfigurable.State.{Chunk}

-- A callback is one of the client's functions, by number, and so never null.
unfoldable pub new_chunk : ℕ → List ℕ → ℕ → ℕ → ℤ → Outcome Chunk
new_chunk chunk_size route callback callback_arg topology_iteration = do
  assert (ltb 0 chunk_size)
  ok (record {
    chunk_size = chunk_size;
    route = route;
    callback = callback;
    callback_arg = callback_arg;
    topology_iteration = topology_iteration;
  })

abbrev pub no_route : Chunk → Bool
no_route c = leb (length c.route) 1

abbrev pub update_route : Chunk → List ℕ → ℤ → Chunk
update_route c new_route topology_iteration = record c {
  route = new_route;
  topology_iteration = topology_iteration;
}

abbrev pub front : List ℕ → Outcome ℕ
front [] = fail assertion
front (device ∷ rest) = ok device

unfoldable pub current_device : Chunk → Outcome ℕ
current_device c = front c.route

abbrev pub arrived_dest : Chunk → Bool
arrived_dest c = length c.route == 1

abbrev pub second : List ℕ → Outcome ℕ
second (device ∷ next ∷ rest) = ok next
second _ = fail Error.undefined

unfoldable pub next_device : Chunk → Outcome ℕ
next_device c = do assert (not (arrived_dest c)); second c.route

abbrev pub pop_front : List ℕ → Outcome (List ℕ)
pop_front [] = fail Error.undefined
pop_front (device ∷ rest) = ok rest

unfoldable pub mark_arrived_next_device : Chunk → Outcome Chunk
mark_arrived_next_device c = do
  assert (not (arrived_dest c))
  route ← pop_front c.route
  ok (record c { route = route })

unfoldable pub get_size : Chunk → Outcome ℕ
get_size c = do assert (ltb 0 c.chunk_size); ok c.chunk_size
