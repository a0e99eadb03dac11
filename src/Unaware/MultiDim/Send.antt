-- ===== src/Unaware/MultiDim/Send.antt =====
-- Building a topology of several dimensions, and a transfer on it.
use astra_network_analytical.Base.{
  length, length-append, ℕ, zero, suc, ◌+◌, ◌*◌, ◌^◌, ◌<◌, ◌≡◌, ◌≢◌, refl, ap, ◌∙◌, sym, subst,
  some, List, [], ◌∷◌, ◌++◌, arith, Error, ok, or_fail, get_elem?, All-append,
}
use astra_network_analytical.Double.{Double}
use astra_network_analytical.Unaware.Basic.{BasicTopology}
use astra_network_analytical.Unaware.Basic.Delay.{IsClass, delay_of, hops_of, send-delay_of}
use astra_network_analytical.Unaware.MultiDim.{
  MultiDimTopology, new_multi_dim_topology, append_dimension, get_dim_to_transfer,
  translate_address, send,
}
use astra_network_analytical.Unaware.MultiDim.Radix.{value, Fits, IsPositive, product-append}
use astra_network_analytical.Unaware.MultiDim.Difference.{Fits-differ, first_difference_lem}
use astra_network_analytical.Unaware.MultiDim.Address.{IsShaped, translate_address-value}

-- The topologies of the dimensions have the counts that the address is computed from.
abbrev pub Matches : {W : Type 0} → List ℕ → List (BasicTopology W) → Type 0
Matches [] [] = Unit
Matches (n ∷ ns) (t ∷ ts) = (t.npus_count ≡ n) × IsClass t.basic_topology_type × Matches ns ts
Matches _ _ = ⊥

pub record IsConsistent {W : Type 0} (m : MultiDimTopology W) : Type 0 where
  pub shaped : IsShaped m
  pub matched : Matches m.npus_count_per_dim m.topology_per_dim

Matches-snoc :
    {W : Type 0} (ns : List ℕ) (ts : List (BasicTopology W)) (n : ℕ) (t : BasicTopology W)
    → Matches ns ts
    → t.npus_count ≡ n
    → IsClass t.basic_topology_type
    → Matches (ns ++ n ∷ []) (ts ++ t ∷ [])
Matches-snoc [] [] n t m e c = (e, c, tt)
Matches-snoc [] (x ∷ ts) n t m e c = absurd m
Matches-snoc (k ∷ ns) [] n t m e c = absurd m
Matches-snoc (k ∷ ns) (x ∷ ts) n t m e c = (m.0, m.1, Matches-snoc ns ts n t m.2 e c)

pub new_multi_dim_topology-IsConsistent :
    {W : Type 0} → IsConsistent (new_multi_dim_topology {W = W})
new_multi_dim_topology-IsConsistent = record {
  shaped = record { dims = refl; positive = tt; total = refl };
  matched = tt;
}

append_dimension-eq-ok :
    {W : Type 0} (m m' : MultiDimTopology W) (t : BasicTopology W)
    → append_dimension m t ≡ ok m'
    → (0 < t.npus_count)
      × (m.npus_count * t.npus_count < 2 ^ 31)
      × (m'.npus_count ≡ m.npus_count * t.npus_count)
      × (m'.dims_count ≡ m.dims_count + 1)
      × (m'.npus_count_per_dim ≡ m.npus_count_per_dim ++ t.npus_count ∷ [])
      × (m'.topology_per_dim ≡ m.topology_per_dim ++ t ∷ [])
unfolding append_dimension
append_dimension-eq-ok m m' t h = ground arith

-- Where append_dimension succeeds, on a consistent topology and a ring, fully connected or switch
-- dimension, dims_count, the counts, their product and the topologies stay in step, the number of
-- NPUs is multiplied by the dimension's, and it is within the range of `int`.
pub append_dimension-IsConsistent :
    {W : Type 0} (m m' : MultiDimTopology W) (t : BasicTopology W)
    → IsConsistent m
    → IsClass t.basic_topology_type
    → append_dimension m t ≡ ok m'
    → IsConsistent m' × (m'.npus_count ≡ m.npus_count * t.npus_count) × (m'.npus_count < 2 ^ 31)
append_dimension-IsConsistent m m' t v c h =
    let (pos, small, total, dims, counts, topologies) = append_dimension-eq-ok m m' t h in
    (
      record {
        shaped = record {
          dims =
              dims
              ∙ omega (
                arith,
                v.shaped.dims,
                ap (λ (l : List ℕ). length l) counts,
                length-append m.npus_count_per_dim (t.npus_count ∷ []),
              );
          positive = subst IsPositive (sym counts) (
              All-append (λ n. 0 < n) m.npus_count_per_dim (t.npus_count ∷ []) v.shaped.positive
                (pos, tt));
          total =
              total
              ∙ rw counts (
                  rw (product-append m.npus_count_per_dim (t.npus_count ∷ []))
                    (omega (arith, ap (λ k. k * t.npus_count) v.shaped.total)));
        };
        matched =
            subst (λ ns. Matches ns m'.topology_per_dim) (sym counts)
              (subst (Matches (m.npus_count_per_dim ++ t.npus_count ∷ [])) (sym topologies) (
                Matches-snoc m.npus_count_per_dim m.topology_per_dim t.npus_count t v.matched refl
                  c));
      },
      total,
      omega arith,
    )

topology_at :
    {W : Type 0} (ns as' bs : List ℕ) (ts : List (BasicTopology W)) (k a b : ℕ)
    → Fits ns as'
    → Fits ns bs
    → Matches ns ts
    → get_elem? as' k ≡ some a
    → get_elem? bs k ≡ some b
    → (t : BasicTopology W) × (get_elem? ts k ≡ some t)
      × (a < t.npus_count)
      × (b < t.npus_count)
      × IsClass t.basic_topology_type
topology_at [] [] bs ts k a b f g m p q = cc
topology_at [] (x ∷ as') bs ts k a b f g m p q = absurd f
topology_at (n ∷ ns) [] bs ts k a b f g m p q = cc
topology_at (n ∷ ns) (x ∷ as') [] ts k a b f g m p q = absurd g
topology_at (n ∷ ns) (x ∷ as') (y ∷ bs) [] k a b f g m p q = absurd m
topology_at (n ∷ ns) (x ∷ as') (y ∷ bs) (t ∷ ts) zero a b f g m p q =
    let e : x ≡ a = ground arith in
    let e' : y ≡ b = ground arith in (t, refl, omega arith, omega arith, m.1)
topology_at (n ∷ ns) (x ∷ as') (y ∷ bs) (t ∷ ts) (suc k) a b f g m p q =
    topology_at ns as' bs ts k a b f.1 g.1 m.2 p q

module _ {W : Type 0} ⦃d : Double W⦄ (m : MultiDimTopology W) where
  -- What a transfer comes down to: the dimension that it takes, and its delay there.
  abbrev pub TransfersAt : ℕ → ℕ → ℕ → Type 0
  TransfersAt src dest size =
      (src_address : List ℕ) × (dest_address : List ℕ) × (dim : ℕ) × (t : BasicTopology W) × (a : ℕ)
      × (b : ℕ) × (translate_address m src ≡ ok src_address)
      × (translate_address m dest ≡ ok dest_address)
      × (get_elem? m.topology_per_dim dim ≡ some t)
      × (get_elem? src_address dim ≡ some a)
      × (get_elem? dest_address dim ≡ some b)
      × (a ≢ b)
      × ((j : ℕ) → j < dim → get_elem? src_address j ≡ get_elem? dest_address j)
      × (send m src dest size
          ≡ or_fail Error.undefined
              (delay_of t (hops_of t.basic_topology_type t.bidirectional t.npus_count a b) size))

  -- On a consistent topology a transfer of a chunk that is not empty between two different ids
  -- fails no assertion and does not exit: it takes the first dimension in which the addresses
  -- differ, and its delay is that of the topology there between the two digits.
  pub send-TransfersAt :
      (src dest size : ℕ)
      → IsConsistent m
      → src < m.npus_count
      → dest < m.npus_count
      → src ≢ dest
      → 0 < size
      → TransfersAt src dest size
  unfolding send get_dim_to_transfer
  send-TransfersAt src dest size v h k e z =
      let (sa, s_ran, s_fits, s_says) = translate_address-value m src v.shaped h in
      let (da, d_ran, d_fits, d_says) = translate_address-value m dest v.shaped k in
      let (dim, low, first) =
        Fits-differ m.npus_count_per_dim sa da s_fits d_fits
          (λ same. e (sym s_says ∙ ap (value m.npus_count_per_dim) same ∙ d_says)) in
      let found =
        first_difference_lem m.dims_count 0 dim m.npus_count_per_dim sa da s_fits low first
          (omega arith) (omega (arith, v.shaped.dims)) in
      let (a, b, s_at, d_at, differ, before) = first in
      let (t, t_at, a_lt, b_lt, class) =
        topology_at m.npus_count_per_dim sa da m.topology_per_dim dim a b s_fits d_fits v.matched
          s_at d_at in
      (
        sa,
        da,
        dim,
        t,
        a,
        b,
        s_ran,
        d_ran,
        t_at,
        s_at,
        d_at,
        differ,
        before,
        rw (s_ran, d_ran)
            (rw found (rw (t_at, s_at, d_at) (send-delay_of t a b size class a_lt b_lt differ z))),
      )
