-- ===== src/Fragment/Exhausted.antt =====
-- The packet identifiers of `fragment_large_udp_packet` run out.
use rustwall.Base.{ℕ, ◌+◌, ◌-◌, ◌≤◌, ◌^◌, ◌≡◌, false, Bytes, ltb, length, arith}
use rustwall.Exec.{crash, panic}
use rustwall.Constants.{mtu_udp}
use rustwall.Smoltcp.{Smoltcp, Ipv4Address}
use rustwall.State.{State, get_pseudorandom_packet_id}
use rustwall.Fragment.{choose_packet_id, fragment_large_udp_packet}

above : (a b : ℕ) → b ≤ a → ltb a b ≡ false
above a b h = ground arith

module _ {Frag Frags W : Type 0} (net : Smoltcp Frag Frags) where
  -- Once the counter of packet identifiers stands at 65535, a datagram that is not below the MTU and
  -- comes without an identifier panics, in a build with overflow checks.
  pub fragment_large_exhausted :
      (udp_packet : Bytes) (src dst : Ipv4Address) (s : State Frags W)
      → mtu_udp ≤ length udp_packet
      → s.seed ≡ 2 ^ 16 - 1
      → fragment_large_udp_packet net udp_packet src dst 0 s ≡ crash panic
  unfolding fragment_large_udp_packet choose_packet_id get_pseudorandom_packet_id
  fragment_large_exhausted udp_packet src dst s h e =
      rw (above (length udp_packet) mtu_udp h, above (s.seed + 1) (2 ^ 16) (omega (arith, e)))
