-- ===== src/NetworkParser/Examples.antt =====
-- A document as input/Ring.yml has it, through the parser.
use Prim.Native.String.{String}
use text.Mathlib.Text.{◌==◌ as str_eq}
use astra_network_analytical.Base.{
  ℕ, ◌≡◌, refl, [], ◌∷◌, List, Option, some, none, if◌then◌else◌, ok,
}
use astra_network_analytical.Base.Int.{ℤ, pos}
use astra_network_analytical.Double.{of_nat}
use astra_network_analytical.Double.Rational.{Rational, rational_double}
use astra_network_analytical.Common.{ring}
use astra_network_analytical.NetworkParser.{NetworkParser, Yaml, new_network_parser}
use astra_network_analytical.NetworkParser.Validity.{IsValid, new_network_parser-IsValid}

data Node : Type 0 where
  document : Node
  missing : Node
  sequence_of_one : Node → Node
  name : String → Node
  number : ℕ → Node

entry : String → Node
entry key =
    if str_eq key "topology"
    then sequence_of_one (name "Ring")
    else if str_eq key "npus_count"
    then sequence_of_one (number 16)
    else if str_eq key "bandwidth"
    then sequence_of_one (number 50)
    else if str_eq key "latency"
    then sequence_of_one (number 500)
    else missing

find : Node → String → Node
unfolding entry
find document key = entry key
find _ key = missing

sequence : Node → List Node
sequence (sequence_of_one node) = node ∷ []
sequence _ = []

string_of : Node → Option String
string_of (name s) = some s
string_of _ = none

int_of : Node → Option ℤ
int_of (number n) = some (pos n)
int_of _ = none

double_of : Node → Option Rational
double_of (number n) = some (of_nat n)
double_of _ = none

abbrev yaml : Yaml Node Rational
yaml = record {
  load_file = λ path. some document;
  get = find;
  elements = sequence;
  as_string = string_of;
  as_int = int_of;
  as_double = double_of;
}

abbrev ring_16 : NetworkParser Rational
ring_16 = record {
  dims_count = 1;
  reconfig_time = none;
  npus_count_per_dim = pos 16 ∷ [];
  bandwidth_per_dim = of_nat 50 ∷ [];
  latency_per_dim = of_nat 500 ∷ [];
  topology_per_dim = ring ∷ [];
}

parsed : new_network_parser yaml "Ring.yml" ≡ ok ring_16
unfolding new_network_parser find sequence string_of int_of double_of
parsed = refl

new_network_parser-IsValid_example : IsValid ring_16
new_network_parser-IsValid_example = new_network_parser-IsValid yaml "Ring.yml" ring_16 parsed
