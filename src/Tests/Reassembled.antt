-- ===== src/Tests/Reassembled.antt =====
-- A datagram to the blocked port, in two fragments.
use rustwall.Base.{
  ℕ, ◌≡◌, refl, ◌∙◌, ap, All, true, false, Bytes, List, [], ◌∷◌, ◌++◌, map, length, take, replicate,
  length-replicate, arith,
}
use rustwall.Exec.{ret}
use rustwall.Smoltcp.{Ipv4Repr, udp}
use rustwall.State.{rx, initial}
use rustwall.ExternalFirewall.{packet_in}
use rustwall.Udp.Shipped.{packet_in-Blocks}
use rustwall.Fragment.{fragment_large_udp_packet, choose_packet_id}
use rustwall.Fragment.Loop.{cut, emitted}
use rustwall.Fragment.Tiling.{pieces, fragment_large-Pieces}
use rustwall.Ipv4.{shave_crc_from_ipv4}
use rustwall.Ipv4.Fragmented.{IsFragmentFrame, later}
use rustwall.Ipv4.Offer.{offer}
use rustwall.Ipv4.Reassembled.{IsUdpPacket, whole_again, fragments-Filtered}
use rustwall.Tests.Fragments.{here, there}
use rustwall.Tests.InOrder.{emitted-Carries, slotted-IpLaws, fresh, first_slot, ready_slot}
use rustwall.Tests.Slots.{Slot, slotted, Has, Holds, slotted-SlotLaws}

-- From port 1 to port 6968, with 1480 bytes of payload.
abbrev datagram : Bytes
datagram = 0 ∷ 1 ∷ 27 ∷ 56 ∷ 5 ∷ 208 ∷ 0 ∷ 0 ∷ replicate 1480 7

length-datagram : length datagram ≡ 1488
length-datagram = omega (arith, length-replicate {A = ℕ} 1480 7)

abbrev packets : List Bytes
packets =
    emitted slotted here there 5 (record { offset = 0; more = true; payload = take 1480 datagram })
    ∷ emitted slotted here there 5 (record { offset = 1480; more = false; payload = replicate 8 7 })
    ∷ []

abbrev wrap : Bytes → Bytes
wrap p = replicate 14 0 ++ p

known_id : choose_packet_id slotted 5 fresh ≡ ret 5 fresh
unfolding choose_packet_id
known_id = refl

pieces_cut : map (emitted slotted here there 5) (pieces datagram) ≡ packets
unfolding pieces cut
pieces_cut = refl

fragmented : fragment_large_udp_packet slotted datagram here there 5 fresh ≡ ret packets fresh
fragmented =
    fragment_large-Pieces slotted slotted-IpLaws datagram here there 5 5 fresh fresh
      (omega (arith, length-datagram)) (omega (arith, length-datagram)) known_id
    ∙ ap (λ p. ret p fresh) pieces_cut

framed : All (λ q. IsFragmentFrame slotted (wrap q) q) packets
unfolding shave_crc_from_ipv4
framed = (
  record {
    has_header = omega arith;
    eth_checked = refl;
    outer_checked = refl;
    outer_shaved = refl;
    is_fragment = refl;
  },
  (
    record {
      has_header = omega arith;
      eth_checked = refl;
      outer_checked = refl;
      outer_shaved = refl;
      is_fragment = refl;
    },
    tt,
  ),
)

abbrev repr : Ipv4Repr
repr = record {
  src_addr = here;
  dst_addr = there;
  protocol = udp;
  payload_len = 1488;
  hop_limit = 64;
}

unfoldable assembled : IsUdpPacket slotted (whole_again slotted 5 here there datagram)
unfolding shave_crc_from_ipv4
assembled = record {
  ipv4_packet = whole_again slotted 5 here there datagram;
  ipv4_repr = repr;
  udp_repr = record { src_port = 1; dst_port = 6968; payload = replicate 1480 7 };
  checked = refl;
  shaved = refl;
  parsed = refl;
  is_udp = refl;
  udp_checked = refl;
  udp_parsed = refl;
  payload_bounded = omega arith;
}

fragments-Filtered_example :
    (set' : List Slot) × (offer slotted rx packet_in (map wrap packets) fresh
      ≡ ret [] (later rx 2 set' fresh))
unfolding assembled initial
fragments-Filtered_example =
    fragments-Filtered slotted slotted-IpLaws rx 6968 packet_in packet_in-Blocks 5 here there
      datagram (Has 5 here there) (Holds 5 here there) (slotted-SlotLaws 5 here there) 5 fresh fresh
      packets wrap fresh ready_slot assembled emitted-Carries (omega (arith, length-datagram))
      (omega (arith, length-datagram)) known_id fragmented framed (omega arith) (first_slot 5 1)
      refl refl
