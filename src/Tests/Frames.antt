-- ===== src/Tests/Frames.antt =====
-- Theorems on frames at a concrete ARP request and a UDP frame.
use rustwall.Base.{arith, ◌≡◌, ◌⊎◌, drop, none, true, Bytes, ℤ, pos, false, [], ◌∷◌, some}
use rustwall.Exec.Keeps.{Keeps, After}
use rustwall.Exec.Safe.{Safe}
use rustwall.Externs.{Externs}
use rustwall.State.{State, packets, initial, rx, tx}
use rustwall.Ipv4.{process_ipv4}
use rustwall.Ipv4.Aside.{outer_kept}
use rustwall.Ipv4.Untouched.{process_ipv4-outer}
use rustwall.Ethernet.{process_ethernet}
use rustwall.Ethernet.Growth.{queue_grows}
use rustwall.Ethernet.Queue.{process_ethernet-Grows}
use rustwall.Ethernet.Short.{Anything, QueueShort, process_ethernet-Short}
use rustwall.Ethernet.Verdict.{Admitted, process_ethernet-Admitted}
use rustwall.ExternalFirewall.{packet_in, packet_out}
use rustwall.Tests.Net.{stand_in, stand_in-LengthLaws}

-- A driver that takes every frame, and has none to give.
abbrev pub quiet : Externs (Unit {0})
quiet = record {
  ethdriver_tx = λ len buf w. some (pos 0, buf, w);
  ethdriver_rx = λ len buf w. some (ℤ.negsuc 0, len, buf, w);
  ethdriver_mac = λ w. 2 ∷ 0 ∷ 0 ∷ 0 ∷ 0 ∷ 1 ∷ [];
  client_emit = λ badge w. w;
  packet_in = packet_in;
  packet_out = packet_out;
}

abbrev pub arp_frame : Bytes
arp_frame =
    0xff ∷ 0xff ∷ 0xff ∷ 0xff ∷ 0xff ∷ 0xff ∷ 0x5e ∷ 0x13 ∷ 0x5d ∷ 0xa6 ∷ 0xc5 ∷ 0xf2 ∷ 8 ∷ 6 ∷ 0
    ∷ 1 ∷ 8 ∷ 0 ∷ 6 ∷ 4 ∷ 0 ∷ 1 ∷ []

process_ipv4-outer_example :
    Keeps
      (outer_kept Bytes {W = Unit {0}} rx packet_in)
      (process_ipv4 stand_in rx packet_in arp_frame)
process_ipv4-outer_example = process_ipv4-outer stand_in rx packet_in arp_frame

process_ethernet-Grows_example :
    Keeps
      (queue_grows Bytes tx tx packet_out arp_frame)
      (process_ethernet stand_in quiet arp_frame tx tx packet_out false)
process_ethernet-Grows_example =
    process_ethernet-Grows stand_in quiet tx tx packet_out arp_frame false

process_ethernet-Short_example :
    Safe Anything (QueueShort tx) (process_ethernet stand_in quiet arp_frame tx tx packet_out false)
process_ethernet-Short_example =
    process_ethernet-Short stand_in quiet tx stand_in-LengthLaws tx packet_out arp_frame
      (omega arith) false

abbrev pub fresh : State Bytes (Unit {0})
fresh = initial stand_in none none tt

-- Another device's frame, for a firewall that does not know its address yet.
abbrev foreign_frame : Bytes
foreign_frame = 2 ∷ 0 ∷ 0 ∷ 0 ∷ 0 ∷ 9 ∷ drop 6 arp_frame

process_ethernet-Admitted_example :
    After
      (λ t. packets rx t ≡ packets rx fresh)
      (process_ethernet stand_in quiet foreign_frame rx rx packet_in true fresh)
    ⊎ Admitted stand_in quiet true foreign_frame fresh
process_ethernet-Admitted_example =
    process_ethernet-Admitted stand_in quiet rx rx packet_in foreign_frame true fresh
