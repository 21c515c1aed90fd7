-- ===== src/Client/Identifiers.antt =====
-- The packet identifiers that the firewall picks itself, over any run of calls.
use rustwall.Base.{
  ℕ, ◌+◌, ◌^◌, ◌≤◌, ◌<◌, ◌≡◌, refl, sym, ap, ◌∙◌, Bytes, List, map, length, ltb, ltb→lt, Bool-cases,
  inl, inr, le→ltb, arith,
}
use rustwall.Exec.{ret, crash, panic}
use rustwall.Exec.Inversion.{ret-value, ret-state}
use rustwall.Constants.{mtu_udp}
use rustwall.Smoltcp.{Smoltcp, Ipv4Address, IpLaws}
use rustwall.Externs.{Externs}
use rustwall.State.{State, get_pseudorandom_packet_id}
use rustwall.Fragment.{fragment_large_udp_packet, choose_packet_id}
use rustwall.Fragment.Loop.{emitted}
use rustwall.Fragment.Tiling.{pieces, fragment_large-Pieces}
use rustwall.Client.Runs.{Run}
use rustwall.Client.Stored.{Run-Counts}

module _ {Frag Frags W : Type 0} (net : Smoltcp Frag Frags) (laws : IpLaws net) where
  -- The identifier of a datagram that comes without one, and that it is used up.
  picked :
      (udp_packet : Bytes) (src dst : Ipv4Address) (s s' : State Frags W) (packets : List Bytes)
      → mtu_udp ≤ length udp_packet
      → length udp_packet < 2 ^ 16
      → fragment_large_udp_packet net udp_packet src dst 0 s ≡ ret packets s'
      → (packets ≡ map (emitted net src dst (s.seed + 1)) (pieces udp_packet))
        × (s'.seed ≡ s.seed + 1)
        × (s.seed + 1 < 2 ^ 16)
  unfolding fragment_large_udp_packet choose_packet_id get_pseudorandom_packet_id
  picked udp_packet src dst s s' packets large fits e =
      elim (Bool-cases (ltb (s.seed + 1) (2 ^ 16))) [
        | inl room ↦
            let chosen : choose_packet_id net 0 s
                ≡ ret (s.seed + 1) (record s { seed = s.seed + 1 }) =
              rw room refl in
            let made =
              fragment_large-Pieces net laws udp_packet src dst 0 (s.seed + 1) s
                (record s { seed = s.seed + 1 }) large fits chosen in
            (ret-value (sym e ∙ made), ap (λ u. u.seed) (ret-state (sym e ∙ made)), ltb→lt _ _ room)
        | inr full ↦
            let stuck : fragment_large_udp_packet net udp_packet src dst 0 s ≡ crash panic =
              rw (le→ltb (length udp_packet) mtu_udp large, full) refl in
            cc
      ]

module _ {Frag Frags W : Type 0} (net : Smoltcp Frag Frags) (ext : Externs W)
    (laws : IpLaws net) where
  -- Two datagrams that come without an identifier and are not below the MTU, the second any run of
  -- calls after the first: if both are fragmented, all packets of the first carry one identifier
  -- and all of the second another, which is greater and fits 16 bits. This holds for smoltcp keeping
  -- to `IpLaws` and datagrams whose lengths fit 16 bits.
  pub Run-Fresh :
      (a b : Bytes) (src dst src' dst' : Ipv4Address) (s s' t t' : State Frags W)
      (packets packets' : List Bytes)
      → mtu_udp ≤ length a
      → length a < 2 ^ 16
      → mtu_udp ≤ length b
      → length b < 2 ^ 16
      → fragment_large_udp_packet net a src dst 0 s ≡ ret packets s'
      → Run net ext s' t
      → fragment_large_udp_packet net b src' dst' 0 t ≡ ret packets' t'
      → (i : ℕ) × (j : ℕ) × (packets ≡ map (emitted net src dst i) (pieces a))
        × (packets' ≡ map (emitted net src' dst' j) (pieces b))
        × (i < j)
        × (j < 2 ^ 16)
  Run-Fresh a b src dst src' dst' s s' t t' packets packets' large fits large' fits' first run
        second =
      let (made, used, _) = picked net laws a src dst s s' packets large fits first in
      let (made', _, room) = picked net laws b src' dst' t t' packets' large' fits' second in
      (
        s.seed + 1,
        t.seed + 1,
        made,
        made',
        omega (arith, used, (Run-Counts net ext s' t run).seed.up),
        room,
      )
