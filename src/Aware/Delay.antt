-- ===== src/Aware/Delay.antt =====
-- Link::serialization_delay and Link::communication_delay.
use astra_network_analytical.Base.{
  ℕ, ◌^◌, ◌≤◌, ◌<◌, ◌≡◌, true, ltb, Error, ok, assertion, or_fail, check-eq-ok, or_fail-eq-ok,
}
use astra_network_analytical.Double.{Double, DoubleLaws, of_nat, nought}
use astra_network_analytical.Aware.State.{Link}
use astra_network_analytical.Aware.Link.{serialization_delay, communication_delay}

-- On a link with no negative latency, where both delays of a chunk are defined, the link is free
-- again no later than the chunk arrives, and the arrival takes less than 2 ^ 64.
pub serialization_delay-le-communication_delay :
    {W : Type 0} ⦃d : Double W⦄ (laws : DoubleLaws W) (l : Link W) (size s c : ℕ)
    → d.le nought l.latency ≡ true
    → serialization_delay l size ≡ ok s
    → communication_delay l size ≡ ok c
    → (s ≤ c) × (c < 2 ^ 64)
unfolding serialization_delay communication_delay
serialization_delay-le-communication_delay ⦃d⦄ laws l size s c h e f =
    let time = d.div (of_nat size) l.bandwidth_Bpns in
    let (_, s_cast) =
      check-eq-ok (ltb 0 size) assertion (or_fail Error.undefined (d.to_uint64 time)) e in
    let (_, c_cast) =
      check-eq-ok (ltb 0 size) assertion
        (or_fail Error.undefined (d.to_uint64 (d.add l.latency time))) f in
    let s_is = or_fail-eq-ok Error.undefined (d.to_uint64 time) s_cast in
    let c_is = or_fail-eq-ok Error.undefined (d.to_uint64 (d.add l.latency time)) c_cast in
    (
      laws.to_uint64-mono time (d.add l.latency time) s c (laws.le-add l.latency time s h s_is) s_is
          c_is,
      laws.to_uint64-lt (d.add l.latency time) c c_is,
    )
