-- ===== src/Unaware/MultiDim.antt =====
-- congestion_unaware/multi-dim-topology/MultiDimTopology.cpp: a topology of several dimensions.
-- `int` values are ℕ; a product that leaves the range of `int` is undefined behaviour, and so is a
-- division by zero. The -1 that the address starts with is overwritten in every place.
pub mod Radix
pub mod Address
pub mod Difference
pub mod Send
mod Examples
use astra_network_analytical.Base.{
  ℕ, zero, suc, ◌+◌, ◌*◌, ◌/◌, ◌%◌, ◌^◌, Bool, true, false, not, List, [], ◌∷◌, ◌++◌, ltb,
  if◌then◌else◌, ◌==◌, Outcome, Error, ok, fail, ◌>>=◌, ◌>>◌, assert, check, or_fail, exited,
  get_elem?,
}
use astra_network_analytical.Double.{Double}
use astra_network_analytical.Unaware.Basic
use astra_network_analytical.Unaware.Basic.{BasicTopology, get_npus_count, get_bandwidth_per_dim}

pub record MultiDimTopology (W : Type 0) : Type 0 where
  pub npus_count : ℕ
  pub dims_count : ℕ
  pub npus_count_per_dim : List ℕ
  pub bandwidth_per_dim : List W
  pub topology_per_dim : List (BasicTopology W)

-- The loop `for (auto dim = dims_count - 1; dim >= 0; dim--)`, with `rounds` dimensions left, the
-- next of them rounds - 1; the address grows at its front.
unfoldable pub address_loop : ℕ → List ℕ → ℕ → ℕ → List ℕ → Outcome (List ℕ)
address_loop zero ns leftover denominator address = ok address
address_loop (suc dim) ns leftover denominator address = do
  n ← or_fail Error.undefined (get_elem? ns dim)
  check (not (n == 0)) Error.undefined
  check (not (denominator / n == 0)) Error.undefined
  address_loop dim ns (leftover % (denominator / n)) (denominator / n)
      (leftover / (denominator / n) ∷ address)

-- `assert(multi_dim_address[i] < npus_count_per_dim[i])` for `rounds` places from i; that the
-- digits are not negative holds of ℕ.
unfoldable pub check_address : ℕ → ℕ → List ℕ → List ℕ → Outcome (Unit {0})
check_address zero i address ns = ok tt
check_address (suc rounds) i address ns = do
  a ← or_fail Error.undefined (get_elem? address i)
  n ← or_fail Error.undefined (get_elem? ns i)
  assert (ltb a n)
  check_address rounds (suc i) address ns

-- The first dimension in which the addresses differ, among `rounds` dimensions from `dim`.
unfoldable pub first_difference : ℕ → ℕ → List ℕ → List ℕ → Outcome ℕ
first_difference zero dim src_address dest_address = fail exited
first_difference (suc rounds) dim src_address dest_address = do
  a ← or_fail Error.undefined (get_elem? src_address dim)
  b ← or_fail Error.undefined (get_elem? dest_address dim)
  let rest = first_difference rounds (suc dim) src_address dest_address
  if not (a == b) then ok dim else rest

module _ {W : Type 0} where
  abbrev pub new_multi_dim_topology : MultiDimTopology W
  new_multi_dim_topology = record {
    npus_count = 1;
    dims_count = 0;
    npus_count_per_dim = [];
    bandwidth_per_dim = [];
    topology_per_dim = [];
  }

  unfoldable pub append_dimension :
      MultiDimTopology W → BasicTopology W → Outcome (MultiDimTopology W)
  unfolding get_npus_count get_bandwidth_per_dim
  append_dimension m topology = do
    topology_size ← get_npus_count topology
    check (ltb (m.npus_count * topology_size) (2 ^ 31)) Error.undefined
    bandwidths ← get_bandwidth_per_dim topology
    bandwidth ← or_fail Error.undefined (get_elem? bandwidths 0)
    ok (record {
      npus_count = m.npus_count * topology_size;
      dims_count = m.dims_count + 1;
      npus_count_per_dim = m.npus_count_per_dim ++ topology_size ∷ [];
      bandwidth_per_dim = m.bandwidth_per_dim ++ bandwidth ∷ [];
      topology_per_dim = m.topology_per_dim ++ topology ∷ [];
    })

  unfoldable pub translate_address : MultiDimTopology W → ℕ → Outcome (List ℕ)
  unfolding address_loop check_address
  translate_address m npu_id = do
    address ← address_loop m.dims_count m.npus_count_per_dim npu_id m.npus_count []
    check_address m.dims_count 0 address m.npus_count_per_dim
    ok address

  unfoldable pub get_dim_to_transfer : MultiDimTopology W → List ℕ → List ℕ → Outcome ℕ
  unfolding first_difference
  get_dim_to_transfer m src_address dest_address =
      first_difference m.dims_count 0 src_address dest_address

  unfoldable pub send : ⦃d : Double W⦄ → MultiDimTopology W → ℕ → ℕ → ℕ → Outcome ℕ
  unfolding translate_address get_dim_to_transfer
  send m src dest chunk_size = do
    src_address ← translate_address m src
    dest_address ← translate_address m dest
    dim_to_transfer ← get_dim_to_transfer m src_address dest_address
    topology ← or_fail Error.undefined (get_elem? m.topology_per_dim dim_to_transfer)
    src_local_id ← or_fail Error.undefined (get_elem? src_address dim_to_transfer)
    dest_local_id ← or_fail Error.undefined (get_elem? dest_address dim_to_transfer)
    Basic.send topology src_local_id dest_local_id chunk_size
