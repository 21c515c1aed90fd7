-- ===== src/Tests/Ping.antt =====
-- Two frames of src/test_data.h, one through the IPv4 filter and one through the Ethernet filter.
use rustwall.Base.{◌≡◌, ◌⊎◌, false, refl, [], ◌∷◌}
use rustwall.Exec.{ret}
use rustwall.State.{rx}
use rustwall.Slice.{slice_from}
use rustwall.Ethernet.{process_ethernet, is_for_other, check_ethertype}
use rustwall.Ipv4.{process_ipv4, shave_crc_from_ipv4, reassemble, check_protocol, enqueue_frames}
use rustwall.Ipv4.Handled.{IsPlain, IsFiltered, process_ipv4-Handled}
use rustwall.ExternalFirewall.{packet_in}
use rustwall.Harness.Data.{packet_bytes_ping, packet_bytes_multicast_report}
use rustwall.Tests.Net.{stand_in, stand_in-LengthLaws}
use rustwall.Tests.Frames.{quiet, fresh}

ping_passes :
    process_ipv4 stand_in rx packet_in packet_bytes_ping fresh ≡ ret (packet_bytes_ping ∷ []) fresh
unfolding process_ipv4 slice_from shave_crc_from_ipv4 reassemble check_protocol enqueue_frames
ping_passes = refl

-- The other one is IPv6, and does not get into the queue.
report_dropped :
    process_ethernet stand_in quiet packet_bytes_multicast_report rx rx packet_in false fresh
    ≡ ret tt fresh
unfolding process_ethernet is_for_other check_ethertype
report_dropped = refl

process_ipv4-Handled_example :
    IsPlain {W = Unit {0}} stand_in packet_in packet_bytes_ping (packet_bytes_ping ∷ [])
    ⊎ IsFiltered {W = Unit {0}} stand_in packet_in packet_bytes_ping (packet_bytes_ping ∷ [])
process_ipv4-Handled_example =
    process_ipv4-Handled stand_in packet_in stand_in-LengthLaws rx packet_bytes_ping fresh fresh
      (packet_bytes_ping ∷ []) ping_passes
