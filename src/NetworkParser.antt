-- ===== src/NetworkParser.antt =====
-- common/network-parser/NetworkParser.cpp and NetworkParser.h. The YAML library is the parameter
-- `Yaml`: its nodes, the lookup of a key, the elements of a node and the typed readings, `none` for
-- the exceptions BadFile and BadConversion. `exited` is `std::exit(-1)`.
pub mod Validity
mod Examples
use Prim.Native.String.{String}
use text.Mathlib.Text.{◌==◌ as str_eq}
use astra_network_analytical.Base.{
  ℕ, ◌≡◌, Bool, true, false, not, List, [], ◌∷◌, Option, none, some, length, ltb, leb,
  if◌then◌else◌, ◌==◌, Outcome, ok, fail, exited, ◌>>=◌, ◌>>◌, assert, check, or_fail, Error,
}
use astra_network_analytical.Base.Int.{ℤ, pos, pos_part, neg_part, ltb_ℤ}
use astra_network_analytical.Double.{Double, nought}
use astra_network_analytical.Common.{TopologyBuildingBlock, ring, fully_connected, switch, reconfig}

-- yaml-cpp, as the parser uses it.
pub record Yaml (Node W : Type 0) : Type 0 where
  pub load_file : String → Option Node
  pub get : Node → String → Node
  pub elements : Node → List Node
  pub as_string : Node → Option String
  pub as_int : Node → Option ℤ
  pub as_double : Node → Option W

-- The -1 that `dims_count` starts with is overwritten before it is read, and has no value here.
-- `reconfig_time` is `none` until the file sets it: the constructor leaves it uninitialised.
pub record NetworkParser (W : Type 0) : Type 0 where
  pub dims_count : ℕ
  pub reconfig_time : Option W
  pub npus_count_per_dim : List ℤ
  pub bandwidth_per_dim : List W
  pub latency_per_dim : List W
  pub topology_per_dim : List TopologyBuildingBlock

-- The object before the file is read.
abbrev unset : {W : Type 0} → NetworkParser W
unset = record {
  dims_count = 0;
  reconfig_time = none;
  npus_count_per_dim = [];
  bandwidth_per_dim = [];
  latency_per_dim = [];
  topology_per_dim = [];
}

parse_vector : {Node T : Type 0} → (Node → Option T) → List Node → Outcome (List T)
parse_vector read [] = ok []
parse_vector read (element ∷ rest) = do
  value ← or_fail exited (read element)
  values ← parse_vector read rest
  ok (value ∷ values)

unfoldable pub parse_topology_name : String → Outcome TopologyBuildingBlock
parse_topology_name name = do
  assert (not (str_eq name ""))
  if str_eq name "Ring"
      then ok ring
      else if str_eq name "FullyConnected"
      then ok fully_connected
      else if str_eq name "Switch"
      then ok switch
      else if str_eq name "Reconfig"
      then ok reconfig
      else fail exited

parse_topology_names : List String → Outcome (List TopologyBuildingBlock)
unfolding parse_topology_name
parse_topology_names [] = ok []
parse_topology_names (name ∷ rest) = do
  topology_dim ← parse_topology_name name
  topology_dims ← parse_topology_names rest
  ok (topology_dim ∷ topology_dims)

-- A loop that exits at the first element that `bad` holds of.
exit_if_any : {T : Type 0} → (T → Bool) → List T → Outcome (Unit {0})
exit_if_any bad [] = ok tt
exit_if_any bad (x ∷ xs) = do check (not (bad x)) exited; exit_if_any bad xs

module _ {W : Type 0} ⦃d : Double W⦄ where
  check_validity : NetworkParser W → Outcome (Unit {0})
  unfolding exit_if_any
  check_validity p = do
    check (p.dims_count == length p.npus_count_per_dim) exited
    check (p.dims_count == length p.bandwidth_per_dim) exited
    check (p.dims_count == length p.latency_per_dim) exited
    exit_if_any (λ n. ltb_ℤ n (pos 2)) p.npus_count_per_dim
    exit_if_any (λ bw. d.le bw nought) p.bandwidth_per_dim
    exit_if_any (λ l. d.lt l nought) p.latency_per_dim

  -- One value at most; with none the field keeps what it had.
  reconfig_time_of : List W → Option W → Outcome (Option W)
  reconfig_time_of [] old = ok old
  reconfig_time_of (t ∷ []) old = ok (some t)
  reconfig_time_of (t ∷ u ∷ ts) old = fail exited

  module _ {Node : Type 0} (yaml : Yaml Node W) where
    parse_network_config_yml : Node → NetworkParser W → Outcome (NetworkParser W)
    unfolding parse_vector parse_topology_names reconfig_time_of check_validity
    parse_network_config_yml config p = do
      names ← parse_vector yaml.as_string (yaml.elements (yaml.get config "topology"))
      topologies ← parse_topology_names names
      npus_counts ← parse_vector yaml.as_int (yaml.elements (yaml.get config "npus_count"))
      bandwidths ← parse_vector yaml.as_double (yaml.elements (yaml.get config "bandwidth"))
      latencies ← parse_vector yaml.as_double (yaml.elements (yaml.get config "latency"))
      times ← parse_vector yaml.as_double (yaml.elements (yaml.get config "reconfig_time"))
      time ← reconfig_time_of times p.reconfig_time
      let parsed : NetworkParser W = record {
        dims_count = length topologies;
        reconfig_time = time;
        npus_count_per_dim = npus_counts;
        bandwidth_per_dim = bandwidths;
        latency_per_dim = latencies;
        topology_per_dim = topologies;
      }
      check_validity parsed
      ok parsed

    unfoldable pub new_network_parser : String → Outcome (NetworkParser W)
    unfolding parse_network_config_yml
    new_network_parser path = do
      config ← or_fail exited (yaml.load_file path)
      parse_network_config_yml config unset

module _ {W : Type 0} where
  unfoldable pub get_dims_count : NetworkParser W → Outcome ℕ
  get_dims_count p = do assert (ltb 0 p.dims_count); ok p.dims_count

  -- Reading the uninitialised field is undefined behaviour.
  unfoldable pub get_reconfig_time : NetworkParser W → Outcome W
  get_reconfig_time p = do assert (ltb 0 p.dims_count); or_fail Error.undefined p.reconfig_time

  get_per_dim : {T : Type 0} → NetworkParser W → List T → Outcome (List T)
  get_per_dim p values = do
    assert (ltb 0 p.dims_count)
    assert (length values == p.dims_count)
    ok values

  unfoldable pub get_npus_counts_per_dim : NetworkParser W → Outcome (List ℤ)
  unfolding get_per_dim
  get_npus_counts_per_dim p = get_per_dim p p.npus_count_per_dim

  unfoldable pub get_bandwidths_per_dim : NetworkParser W → Outcome (List W)
  unfolding get_per_dim
  get_bandwidths_per_dim p = get_per_dim p p.bandwidth_per_dim

  unfoldable pub get_latencies_per_dim : NetworkParser W → Outcome (List W)
  unfolding get_per_dim
  get_latencies_per_dim p = get_per_dim p p.latency_per_dim

  unfoldable pub get_topologies_per_dim : NetworkParser W → Outcome (List TopologyBuildingBlock)
  unfolding get_per_dim
  get_topologies_per_dim p = get_per_dim p p.topology_per_dim
