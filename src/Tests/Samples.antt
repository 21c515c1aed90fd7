-- ===== src/Tests/Samples.antt =====
-- The fragments of src/test_data.h against the fragments that the firewall makes.
use rustwall.Base.{◌≡◌, refl, [], ◌∷◌, ◌++◌, Bytes, take, drop, none}
use rustwall.Exec.{ret}
use rustwall.Smoltcp.{Ipv4Address}
use rustwall.Slice.{slice, slice_from, add_u16}
use rustwall.State.{State, initial}
use rustwall.Fragment.{
  fragment_large_udp_packet, large_packet, middle_packets, last_packet, fragment_packet,
  copy_to_payload, choose_packet_id,
}
use rustwall.Harness.Fragments.{
  packet_bytes_udp_frag1, packet_bytes_udp_frag2, packet_bytes_udp_frag3,
}
use rustwall.Tests.Net.{stand_in}

abbrev client : Ipv4Address
client = record { octet_0 = 192; octet_1 = 168; octet_2 = 69; octet_3 = 2 }

abbrev server : Ipv4Address
server = record { octet_0 = 192; octet_1 = 168; octet_2 = 69; octet_3 = 1 }

-- The datagram that the three fragments carry.
abbrev whole : Bytes
whole =
    drop 34 packet_bytes_udp_frag1
    ++ drop 34 packet_bytes_udp_frag2
    ++ drop 34 packet_bytes_udp_frag3

-- The packet in a frame, without its checksum.
abbrev unchecked : Bytes → Bytes
unchecked frame = take 10 (drop 14 frame) ++ 0 ∷ 0 ∷ drop 26 frame

abbrev fresh : State Bytes (Unit {0})
fresh = initial stand_in none none tt

-- Cut again, the datagram comes in the same fragments, but for the checksums.
same_fragments :
    fragment_large_udp_packet stand_in whole client server 0x30ee fresh
    ≡ ret
        (unchecked packet_bytes_udp_frag1
          ∷ unchecked packet_bytes_udp_frag2
          ∷ unchecked packet_bytes_udp_frag3
          ∷ [])
        fresh
unfolding fragment_large_udp_packet large_packet middle_packets last_packet fragment_packet
    copy_to_payload choose_packet_id slice slice_from add_u16
same_fragments = refl
