-- ===== src/Tests/Filtered.antt =====
-- A datagram of src/test_data.h through the linked firewall, at a small network device.
use rustwall.Base.{◌≡◌, refl, pos, Bytes, [], ◌∷◌, ◌++◌, none, false, replicate, arith}
use rustwall.Constants.{buffer_size}
use rustwall.State.{State, initial}
use rustwall.Client.{client_tx, client_rx}
use rustwall.Client.Datagram.{SendsDatagram, ReceivesDatagram}
use rustwall.Ethernet.Datagram.{IsDatagram}
use rustwall.Original.Refine
use rustwall.Glue.{Glue}
use rustwall.Glue.Link.{glue_externs}
use rustwall.Glue.Filtered.{
  sends, receives, before, WaitsAtDevice, client_tx-Filters, client_rx-Filters,
}
use rustwall.Harness.Data.{packet_bytes_udp_1}
use rustwall.Tests.Net.{stand_in, stand_in-IpLaws, stand_in-LengthLaws}
use rustwall.Tests.Passing.{whole_datagram, small_datagram}
use rustwall.Tests.Calls.{page, page-IsRoomy}
use rustwall.Tests.Sends.{device}
use rustwall.Tests.Device.{Waiting, tap}

-- The datagram at the front of the client's buffer.
abbrev mem : Bytes
mem = packet_bytes_udp_1 ++ replicate buffer_size 0

abbrev sent_datagram : IsDatagram stand_in packet_bytes_udp_1
sent_datagram = record { is_ipv4 = refl; whole = whole_datagram; small = small_datagram }

abbrev blank : State Bytes (Glue Waiting)
blank = initial stand_in none none device

unfoldable sends_it : SendsDatagram stand_in 50 mem page
sends_it = record {
  short = omega arith;
  in_client = omega arith;
  in_driver = page-IsRoomy;
  well_formed = refl;
  datagram = sent_datagram;
}

client_tx-Filters_example :
    client_tx stand_in
      (glue_externs tap)
      (pos 50)
      (Refine.ready stand_in (glue_externs tap) 50 mem page blank)
    ≡ sends stand_in tap blank 50 mem page sends_it false
unfolding whole_datagram initial sends_it
client_tx-Filters_example =
    client_tx-Filters stand_in tap stand_in-IpLaws stand_in-LengthLaws blank 50 mem page sends_it
      (record { status = refl; room = page-IsRoomy })

-- The datagram waits at the device.
abbrev arriving : State Bytes (Glue Waiting)
arriving = record blank { world = record device { kernel = packet_bytes_udp_1 ∷ [] } }

abbrev own_address : Bytes
own_address = 2 ∷ 0 ∷ 0 ∷ 0 ∷ 0 ∷ 1 ∷ []

unfoldable takes_it : ReceivesDatagram stand_in packet_bytes_udp_1 page own_address
takes_it = record {
  short = omega arith;
  in_client = page-IsRoomy;
  well_formed = refl;
  for_us = refl;
  datagram = sent_datagram;
}

waits : WaitsAtDevice stand_in tap arriving packet_bytes_udp_1 page page own_address [] takes_it
unfolding initial
waits = record {
  set_up = refl;
  select_ready = refl;
  read = refl;
  in_driver = omega (arith, page-IsRoomy);
}

client_rx-Filters_example :
    client_rx stand_in
      (glue_externs tap)
      2
      (pos 0)
      (before stand_in tap arriving packet_bytes_udp_1 page page own_address [] takes_it)
    ≡ receives stand_in tap arriving packet_bytes_udp_1 page page own_address [] takes_it false
unfolding whole_datagram initial takes_it
client_rx-Filters_example =
    client_rx-Filters stand_in tap stand_in-IpLaws stand_in-LengthLaws arriving packet_bytes_udp_1
      page page own_address [] takes_it 0 waits
