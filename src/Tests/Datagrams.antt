-- ===== src/Tests/Datagrams.antt =====
-- Theorems on `process_udp` at concrete datagrams and external firewalls.
use rustwall.Base.{◌≡◌, refl, ℤ, pos, Bytes, [], ◌∷◌, none, arith}
use rustwall.Exec.{ret, crash, fault}
use rustwall.Smoltcp.{Ipv4Address, Ipv4Repr, UdpRepr, udp}
use rustwall.Externs.{Filter}
use rustwall.State.{State, initial}
use rustwall.Udp.{call_external_firewall, process_udp, assemble_udp, capacity, transmute_u32}
use rustwall.Udp.Verdict.{Approved, process_udp-Approved, process_udp_oversized}
use rustwall.ExternalFirewall.{packet_in}
use rustwall.Tests.Net.{stand_in}

abbrev address : Ipv4Address
address = record { octet_0 = 192; octet_1 = 168; octet_2 = 69; octet_3 = 2 }

abbrev repr : Ipv4Repr
repr = record {
  src_addr = address;
  dst_addr = address;
  protocol = udp;
  payload_len = 10;
  hop_limit = 64;
}

-- From port 1 to port 27, with two bytes of payload.
abbrev datagram : Bytes
datagram = 0 ∷ 1 ∷ 0 ∷ 27 ∷ 0 ∷ 10 ∷ 0 ∷ 0 ∷ 97 ∷ 98 ∷ []

abbrev blank : State Bytes (Unit {0})
blank = initial stand_in none none tt

abbrev parsed : UdpRepr
parsed = record { src_port = 1; dst_port = 27; payload = 97 ∷ 98 ∷ [] }

-- An external firewall that claims to have written more than there is room for.
greedy : Filter (Unit {0})
greedy src_addr src_port dst_addr dst_port payload_len payload max_payload_len w =
    (pos 65500, payload, w)

process_udp-Approved_example :
    (answer : ℤ × Bytes) × (call_external_firewall stand_in packet_in repr datagram blank
      ≡ ret answer blank)
    × Approved stand_in repr datagram answer.0 answer.1 datagram
process_udp-Approved_example =
    process_udp-Approved stand_in packet_in repr datagram blank blank datagram (
      unfold process_udp call_external_firewall assemble_udp capacity transmute_u32 packet_in in
      refl)

process_udp_oversized_example : process_udp stand_in greedy repr datagram blank ≡ crash fault
process_udp_oversized_example =
    process_udp_oversized stand_in greedy repr datagram blank blank parsed 65500 (97 ∷ 98 ∷ []) refl
      refl (omega arith) (unfold call_external_firewall capacity transmute_u32 greedy in refl)
      (omega arith) (omega arith)
