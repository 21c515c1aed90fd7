-- ===== src/Tests/Passing.antt =====
-- Theorems on UDP at a datagram of src/test_data.h, and on addresses and identifiers.
use rustwall.Base.{
  ◌≡◌, refl, ◌<◌, ◌^◌, ℕ, [], ◌∷◌, Bytes, drop, replicate, length-replicate, none, arith,
}
use rustwall.Exec.{crash, panic}
use rustwall.Smoltcp.{Ipv4Address, Ipv4Repr, UdpRepr, udp}
use rustwall.State.{State, initial}
use rustwall.Udp.{transmute_u32}
use rustwall.Udp.Addresses.{documented_u32, IsPalindrome, transmute_u32-Reversed}
use rustwall.Fragment.{fragment_large_udp_packet}
use rustwall.Fragment.Exhausted.{fragment_large_exhausted}
use rustwall.Ipv4.{shave_crc_from_ipv4}
use rustwall.Ipv4.Whole.{IsWholeIp}
use rustwall.Ipv4.Datagram.{IsSmallUdp, passed_frame}
use rustwall.Harness.Data.{packet_bytes_udp_1}
use rustwall.Tests.Net.{stand_in}

abbrev home : Ipv4Address
home = record { octet_0 = 192; octet_1 = 168; octet_2 = 69; octet_3 = 1 }

abbrev mirror : Ipv4Address
mirror = record { octet_0 = 10; octet_1 = 7; octet_2 = 7; octet_3 = 10 }

transmute_u32-Reversed_example :
    (transmute_u32 home < 2 ^ 32)
    × (transmute_u32 home ≡ transmute_u32 mirror → home ≡ mirror)
    × (transmute_u32 home ≡ documented_u32 home → IsPalindrome home)
    × (IsPalindrome home → transmute_u32 home ≡ documented_u32 home)
transmute_u32-Reversed_example =
    transmute_u32-Reversed home mirror
      (record {
        octet_0 = omega arith;
        octet_1 = omega arith;
        octet_2 = omega arith;
        octet_3 = omega arith;
      })
      (record {
        octet_0 = omega arith;
        octet_1 = omega arith;
        octet_2 = omega arith;
        octet_3 = omega arith;
      })

-- All identifiers are used up.
abbrev worn_out : State Bytes (Unit {0})
worn_out = record (initial stand_in none none tt) { seed = 65535 }

fragment_large_exhausted_example :
    fragment_large_udp_packet stand_in (replicate 1500 0) home mirror 0 worn_out ≡ crash panic
unfolding initial
fragment_large_exhausted_example =
    fragment_large_exhausted stand_in (replicate 1500 0) home mirror worn_out
      (omega (arith, length-replicate {A = ℕ} 1500 0)) refl

abbrev cut : Bytes
cut = drop 14 packet_bytes_udp_1

abbrev repr : Ipv4Repr
repr = record {
  src_addr = record { octet_0 = 192; octet_1 = 168; octet_2 = 69; octet_3 = 2 };
  dst_addr = home;
  protocol = udp;
  payload_len = 16;
  hop_limit = 64;
}

unfoldable pub whole_datagram : IsWholeIp stand_in packet_bytes_udp_1
unfolding shave_crc_from_ipv4
whole_datagram = record {
  shaved = cut;
  ipv4_packet = cut;
  ipv4_repr = repr;
  has_header = omega arith;
  eth_checked = refl;
  outer_checked = refl;
  outer_shaved = refl;
  no_udp_fragment = refl;
  inner_checked = refl;
  inner_shaved = refl;
  parsed = refl;
}

abbrev udp_repr : UdpRepr
udp_repr = record { src_port = 41034; dst_port = 6969; payload = drop 28 cut }

pub small_datagram : IsSmallUdp stand_in packet_bytes_udp_1 whole_datagram
unfolding whole_datagram
small_datagram = record {
  udp_repr = udp_repr;
  is_udp = refl;
  udp_checked = refl;
  udp_parsed = refl;
  payload_bounded = omega arith;
  short = omega arith;
  datagram_checked = refl;
  frame_checked = refl;
}

-- In the bytes: the identifier and the payload are those of the original.
passed_bytes :
    drop 14 (passed_frame stand_in packet_bytes_udp_1 whole_datagram)
    ≡ 0x45 ∷ 0x00 ∷ 0x00 ∷ 0x24 ∷ 0x6a ∷ 0x4b ∷ 0x00 ∷ 0x00 ∷ 0x40 ∷ 0x11 ∷ 0x00 ∷ 0x00 ∷ 0xc0
      ∷ 0xa8 ∷ 0x45 ∷ 0x02 ∷ 0xc0 ∷ 0xa8 ∷ 0x45 ∷ 0x01 ∷ 0xa0 ∷ 0x4a ∷ 0x1b ∷ 0x39 ∷ 0x00 ∷ 0x10
      ∷ 0x00 ∷ 0x00 ∷ 0x61 ∷ 0x62 ∷ 0x63 ∷ 0x64 ∷ 0x65 ∷ 0x66 ∷ 0x67 ∷ 0x0a ∷ []
unfolding whole_datagram
passed_bytes = refl
