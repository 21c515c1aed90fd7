-- ===== src/Tests/Drivers.antt =====
-- The verdict of the test program at the arrays of src/test_data.h, with a zero behind each.
use rustwall.Base.{Bytes, [], ◌∷◌, ◌++◌, length}
use rustwall.Exec.Inversion.{NoReturn}
use rustwall.Harness.{Packet}
use rustwall.Harness.Data.{
  packet_bytes_ping, packet_bytes_arp, packet_bytes_multicast_report, packet_bytes_udp_1,
}
use rustwall.Harness.Fragments.{
  packet_bytes_udp_frag1, packet_bytes_udp_frag2, packet_bytes_udp_frag3,
  packet_bytes_udp_frag_5k_1, packet_bytes_udp_frag_5k_2, packet_bytes_udp_frag_5k_3,
  packet_bytes_udp_frag_5k_4,
}
use rustwall.Harness.Script.{TestData, main}
use rustwall.Harness.Verdict.{main-NoReturn}
use rustwall.Tests.Net.{stand_in}

abbrev array : Bytes → Packet
array bytes = record { mem = bytes ++ 0 ∷ []; size = length bytes }

abbrev test_data : TestData
test_data = record {
  ping = array packet_bytes_ping;
  arp = array packet_bytes_arp;
  multicast_report = array packet_bytes_multicast_report;
  udp_1 = array packet_bytes_udp_1;
  udp_frag1 = array packet_bytes_udp_frag1;
  udp_frag2 = array packet_bytes_udp_frag2;
  udp_frag3 = array packet_bytes_udp_frag3;
  udp_frag_5k_1 = array packet_bytes_udp_frag_5k_1;
  udp_frag_5k_2 = array packet_bytes_udp_frag_5k_2;
  udp_frag_5k_3 = array packet_bytes_udp_frag_5k_3;
  udp_frag_5k_4 = array packet_bytes_udp_frag_5k_4;
}

main-NoReturn_example : NoReturn (main stand_in 10 test_data)
main-NoReturn_example = main-NoReturn stand_in 10 test_data
