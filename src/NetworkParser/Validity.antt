-- ===== src/NetworkParser/Validity.antt =====
-- What the checks of the parser guarantee to the code that reads the configuration.
use Prim.Native.String.{String}
use astra_network_analytical.Base.{
  ℕ, ◌≡◌, refl, subst, Bool, true, false, not, List, [], ◌∷◌, length, ◌==◌, Outcome, ok, fail,
  exited, ◌>>◌, or_fail, >>=-eq-ok, check-eq-ok, ok-injective, arith, All,
}
use astra_network_analytical.Base.Int.{pos, ltb_ℤ}
use astra_network_analytical.Double.{Double, nought}
use astra_network_analytical.NetworkParser.{
  NetworkParser, Yaml, exit_if_any, check_validity, parse_vector, parse_topology_names,
  reconfig_time_of, parse_network_config_yml, new_network_parser, unset,
}

>>-eq-ok :
    {B : Type 0} (m : Outcome (Unit {0})) (n : Outcome B) {b : B}
    → (m >> n) ≡ ok b
    → (m ≡ ok tt) × (n ≡ ok b)
>>-eq-ok (ok tt) n h = (refl, h)
>>-eq-ok (fail e) n h = cc

==-eq : {a b : ℕ} → (a == b) ≡ true → a ≡ b
==-eq h = ground arith

abbrev pub Passes : {T : Type 0} → (T → Bool) → List T → Type 0
Passes bad xs = All (λ x. bad x ≡ false) xs

exit_if_any-Passes :
    {T : Type 0} (bad : T → Bool) (xs : List T) → exit_if_any bad xs ≡ ok tt → Passes bad xs
unfolding exit_if_any
exit_if_any-Passes bad [] h = tt
exit_if_any-Passes bad (x ∷ xs) h =
    let (fine, rest) = check-eq-ok (not (bad x)) exited _ h in
    (ground arith, exit_if_any-Passes bad xs rest)

-- What the checks of `check_validity` ask of a configuration.
pub record IsValid {W : Type 0} ⦃d : Double W⦄ (p : NetworkParser W) : Type 0 where
  pub npus_match : p.dims_count ≡ length p.npus_count_per_dim
  pub bandwidths_match : p.dims_count ≡ length p.bandwidth_per_dim
  pub latencies_match : p.dims_count ≡ length p.latency_per_dim
  pub topologies_match : p.dims_count ≡ length p.topology_per_dim
  pub npus_two : Passes (λ n. ltb_ℤ n (pos 2)) p.npus_count_per_dim
  pub bandwidths_positive : Passes (λ bw. d.le bw nought) p.bandwidth_per_dim
  pub latencies_nonnegative : Passes (λ l. d.lt l nought) p.latency_per_dim

module _ {W : Type 0} ⦃d : Double W⦄ where
  check_validity-IsValid :
      (p : NetworkParser W)
      → p.dims_count ≡ length p.topology_per_dim
      → check_validity p ≡ ok tt
      → IsValid p
  unfolding check_validity
  check_validity-IsValid p e h =
      let (npus_length, h₁) =
        check-eq-ok (p.dims_count == length p.npus_count_per_dim) exited _ h in
      let (bandwidth_length, h₂) =
        check-eq-ok (p.dims_count == length p.bandwidth_per_dim) exited _ h₁ in
      let (latency_length, h₃) =
        check-eq-ok (p.dims_count == length p.latency_per_dim) exited _ h₂ in
      let (npus, h₄) = >>-eq-ok (exit_if_any (λ n. ltb_ℤ n (pos 2)) p.npus_count_per_dim) _ h₃ in
      let (bandwidths, latencies) =
        >>-eq-ok (exit_if_any (λ bw. d.le bw nought) p.bandwidth_per_dim) _ h₄ in
      record {
        npus_match = ==-eq npus_length;
        bandwidths_match = ==-eq bandwidth_length;
        latencies_match = ==-eq latency_length;
        topologies_match = e;
        npus_two = exit_if_any-Passes _ p.npus_count_per_dim npus;
        bandwidths_positive = exit_if_any-Passes _ p.bandwidth_per_dim bandwidths;
        latencies_nonnegative = exit_if_any-Passes _ p.latency_per_dim latencies;
      }

  module _ {Node : Type 0} (yaml : Yaml Node W) where
    parse-IsValid :
        (config : Node) (q p : NetworkParser W)
        → parse_network_config_yml yaml config q ≡ ok p
        → IsValid p
    unfolding parse_network_config_yml
    parse-IsValid config q p h =
        let (names, _, h₁) =
          >>=-eq-ok (parse_vector yaml.as_string (yaml.elements (yaml.get config "topology"))) _
            h in
        let (topologies, _, h₂) = >>=-eq-ok (parse_topology_names names) _ h₁ in
        let (npus, _, h₃) =
          >>=-eq-ok (parse_vector yaml.as_int (yaml.elements (yaml.get config "npus_count"))) _
            h₂ in
        let (bandwidths, _, h₄) =
          >>=-eq-ok (parse_vector yaml.as_double (yaml.elements (yaml.get config "bandwidth"))) _
            h₃ in
        let (latencies, _, h₅) =
          >>=-eq-ok (parse_vector yaml.as_double (yaml.elements (yaml.get config "latency"))) _
            h₄ in
        let (times, _, h₆) =
          >>=-eq-ok (parse_vector yaml.as_double (yaml.elements (yaml.get config "reconfig_time")))
            _ h₅ in
        let (time, _, h₇) = >>=-eq-ok (reconfig_time_of times q.reconfig_time) _ h₆ in
        let parsed : NetworkParser W = record {
          dims_count = length topologies;
          reconfig_time = time;
          npus_count_per_dim = npus;
          bandwidth_per_dim = bandwidths;
          latency_per_dim = latencies;
          topology_per_dim = topologies;
        } in
        let (checked, made) = >>-eq-ok (check_validity parsed) (ok parsed) h₇ in
        subst (λ (r : NetworkParser W). IsValid r) (ok-injective made)
          (check_validity-IsValid parsed refl checked)

    -- A parser that the constructor gives has as many entries of each kind as dimensions, at least
    -- two NPUs in each dimension, no bandwidth that is at most 0 and no latency below 0.
    pub new_network_parser-IsValid :
        (path : String) (p : NetworkParser W) → new_network_parser yaml path ≡ ok p → IsValid p
    unfolding new_network_parser
    new_network_parser-IsValid path p h =
        let (config, _, parsed) = >>=-eq-ok (or_fail exited (yaml.load_file path)) _ h in
        parse-IsValid config unset p parsed
