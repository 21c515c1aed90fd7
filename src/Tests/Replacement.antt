-- ===== src/Tests/Replacement.antt =====
-- The comparison with src/firewall.c at a ping.
use rustwall.Base.{
  ◌⊎◌, inl, inr, drop, [], minus_one, ◌≡◌, refl, ◌++◌, replicate, Bytes, pos, some, none, arith,
}
use rustwall.Exec.{ret}
use rustwall.State.{State, initial}
use rustwall.Smoltcp.{Ipv4Repr, icmp}
use rustwall.Ipv4.{shave_crc_from_ipv4}
use rustwall.Ipv4.Whole.{IsWholeIp}
use rustwall.Ethernet.Passing.{IsPlainIp}
use rustwall.Client
use rustwall.Client.Results.{client_tx-Drained}
use rustwall.Original
use rustwall.Original.Refine.{PassesOut, ready, sent, client_tx-Original}
use rustwall.Tests.Net.{stand_in}
use rustwall.Harness.Data.{packet_bytes_ping}
use rustwall.Tests.Frames.{quiet}

abbrev empty_buffer : Bytes
empty_buffer = replicate 100 0

abbrev start : State Bytes (Unit {0})
start = initial stand_in none none tt

abbrev ping_repr : Ipv4Repr
ping_repr = record {
  src_addr = record { octet_0 = 192; octet_1 = 168; octet_2 = 69; octet_3 = 2 };
  dst_addr = record { octet_0 = 192; octet_1 = 168; octet_2 = 69; octet_3 = 1 };
  protocol = icmp;
  payload_len = 64;
  hop_limit = 64;
}

ping_whole : IsWholeIp stand_in packet_bytes_ping
unfolding shave_crc_from_ipv4
ping_whole = record {
  shaved = drop 14 packet_bytes_ping;
  ipv4_packet = drop 14 packet_bytes_ping;
  ipv4_repr = ping_repr;
  has_header = omega arith;
  eth_checked = refl;
  outer_checked = refl;
  outer_shaved = refl;
  no_udp_fragment = refl;
  inner_checked = refl;
  inner_shaved = refl;
  parsed = refl;
}

ping-IsPlainIp : IsPlainIp stand_in packet_bytes_ping
unfolding ping_whole
ping-IsPlainIp = record { is_ipv4 = refl; whole = ping_whole; plain = inl refl }

ping-PassesOut : PassesOut stand_in quiet 98 packet_bytes_ping empty_buffer start
ping-PassesOut = record {
  short = omega arith;
  in_client = omega arith;
  in_driver = omega arith;
  well_formed = refl;
  let_through = inr ping-IsPlainIp;
}

client_tx-Original_example :
    (Original.client_tx quiet
        (pos 98)
        (ready stand_in quiet 98 packet_bytes_ping empty_buffer start)
      ≡ ret (pos 0) (record (ready stand_in quiet 98 packet_bytes_ping empty_buffer start) {
        ethdriver_buf = some (packet_bytes_ping ++ replicate 2 0);
        world = tt;
      }))
    × (Client.client_tx stand_in quiet
          (pos 98)
          (ready stand_in quiet 98 packet_bytes_ping empty_buffer start)
        ≡ ret (pos 0) (
            sent stand_in quiet 98 packet_bytes_ping empty_buffer start
              (pos 0)
              (packet_bytes_ping ++ replicate 2 0)
              tt))
client_tx-Original_example =
    client_tx-Original stand_in quiet 98 packet_bytes_ping empty_buffer start ping-PassesOut (pos 0)
      (packet_bytes_ping ++ replicate 2 0) tt refl

client_tx-Drained_example :
    ((sent stand_in quiet 98 packet_bytes_ping empty_buffer start
        (pos 0)
        (packet_bytes_ping ++ replicate 2 0)
        tt).ret_client_tx
      ≡ pos 0)
    × (((pos 0 ≡ pos 0)
          × ((sent stand_in quiet 98 packet_bytes_ping empty_buffer start
                (pos 0)
                (packet_bytes_ping ++ replicate 2 0)
                tt).packets_tx
              ≡ []))
        ⊎ (pos 0 ≡ minus_one))
client_tx-Drained_example =
    client_tx-Drained stand_in quiet (pos 98) (pos 0)
      (ready stand_in quiet 98 packet_bytes_ping empty_buffer start) _
      (client_tx-Original_example.1)
