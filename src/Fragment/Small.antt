-- ===== src/Fragment/Small.antt =====
-- `fragment_large_udp_packet` on a datagram below the MTU.
use rustwall.Base.{ℕ, ◌<◌, ◌≡◌, ◌∙◌, refl, true, Bytes, [], ◌∷◌, ◌==◌, lt→ltb, length, arith}
use rustwall.Exec.{ret}
use rustwall.Constants.{mtu_udp}
use rustwall.Smoltcp.{Smoltcp, Ipv4Address, IpLaws}
use rustwall.State.{State}
use rustwall.Fragment.{
  blank_packet, udp_repr_of, copy_to_payload, small_packet, fragment_large_udp_packet,
}

equal : (a b : ℕ) → a ≡ b → (a == b) ≡ true
equal a b e = ground arith

module _ {Frag Frags : Type 0} (net : Smoltcp Frag Frags) where
  -- One packet around the datagram, with its identifier.
  abbrev pub whole_packet : Bytes → Ipv4Address → Ipv4Address → ℕ → Bytes
  whole_packet udp_packet src dst id = net.ip_fill_checksum (
      net.ip_set_payload (net.ip_set_ident id (blank_packet net src dst (length udp_packet)))
        udp_packet)

  module _ (laws : IpLaws net) where
    room :
        (udp_packet : Bytes) (src dst : Ipv4Address) (id : ℕ)
        → length udp_packet < mtu_udp
        → length
            (net.ip_payload (net.ip_set_ident id (blank_packet net src dst (length udp_packet))))
          ≡ length udp_packet
    room udp_packet src dst id h =
        laws.ident_payload id (blank_packet net src dst (length udp_packet))
        ∙ laws.emit_payload (udp_repr_of net src dst (length udp_packet)) (omega (arith, h))

    pub fragment_large_small :
        {W : Type 0} (udp_packet : Bytes) (src dst : Ipv4Address) (id : ℕ) (s : State Frags W)
        → length udp_packet < mtu_udp
        → fragment_large_udp_packet net udp_packet src dst id s
          ≡ ret (whole_packet udp_packet src dst id ∷ []) s
    unfolding fragment_large_udp_packet small_packet copy_to_payload
    fragment_large_small udp_packet src dst id s h =
        rw (lt→ltb _ _ h, equal _ _ (room udp_packet src dst id h)) refl
