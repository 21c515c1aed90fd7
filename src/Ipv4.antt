-- ===== src/Ipv4.antt =====
-- `shave_crc_from_ipv4` and `process_ipv4` of src/utils.rs.
pub mod Aside
pub mod Untouched
pub mod Frames
pub mod Handled
pub mod Origin
pub mod Steps
pub mod Checksum
pub mod Whole
pub mod Datagram
pub mod Fragmented
pub mod Offer
pub mod Reassembled
use rustwall.Base.{
  ◌+◌, ◌-◌, Bytes, Bool, true, false, ◌&&◌, ◌||◌, List, [], ◌∷◌, ◌++◌, Option, none, some, ltb,
  ◌==◌, if◌then◌else◌, length, take,
}
use rustwall.Exec.{
  Exec, Outcome, ret, fail, crash, Result, pure, raise, lift, fragmented, unrecognized, ◌>>=◌,
}
use rustwall.Constants.{ethernet_frame_payload, eth_crc_len}
use rustwall.Smoltcp.{Smoltcp, Ipv4Repr, IpProtocol, icmp, igmp, udp, other_protocol, new_checked}
use rustwall.Externs.{Filter}
use rustwall.State.{State, Side, fragments, set_fragments, timestamp}
use rustwall.Slice.{slice_from}
use rustwall.Fragment.{fragment_large_udp_packet}
use rustwall.Reassembly.{process_ipv4_fragment}
use rustwall.Udp.{process_udp}

abbrev pub is_udp : IpProtocol → Bool
is_udp udp = true
is_udp _ = false

abbrev pub put_fragments :
    {Frags W A : Type 0} → Side → State Frags W → Outcome Frags A → Outcome (State Frags W) A
put_fragments side s (ret a set) = ret a (set_fragments side set s)
put_fragments side s (fail e set) = fail e (set_fragments side set s)
put_fragments side s (crash c) = crash c

-- No assembled packet yet: the fragment is all that there is.
abbrev pub or_fragmented : {S : Type 0} → Option Bytes → Exec S Bytes
or_fragmented none = raise fragmented
or_fragmented (some payload) = pure payload

-- A computation on one of the fragment sets, which is locked for it.
abbrev pub on_fragments : {Frags W A : Type 0} → Side → Exec Frags A → Exec (State Frags W) A
on_fragments side m s = put_fragments side s (m (fragments side s))

module _ {Frag Frags : Type 0} (net : Smoltcp Frag Frags) where
  unfoldable pub shave_crc_from_ipv4 : Bytes → Result Bytes
  shave_crc_from_ipv4 packet =
      if length (net.ip_payload packet) + net.ip_header_len packet + eth_crc_len == length packet
      then new_checked net.ip_check_len (take (length packet - eth_crc_len) packet)
      else new_checked net.ip_check_len packet

  -- The packet to go on with: the one assembled from UDP fragments, or the payload as it came.
  unfoldable pub reassemble : {W : Type 0} → Side → Bytes → Bytes → Exec (State Frags W) Bytes
  reassemble fragment_buffer ipv4_packet eth_payload =
      if (net.ip_more_frags ipv4_packet || ltb 0 (net.ip_frag_offset ipv4_packet))
        && is_udp (net.ip_protocol ipv4_packet)
      then (do
        ts ← timestamp
        assembled ← on_fragments fragment_buffer (process_ipv4_fragment net ipv4_packet ts)
        or_fragmented assembled)
      else pure eth_payload

  -- The `match ipv4_repr.protocol`: the packets that take the place of the original, if any.
  unfoldable pub check_protocol :
      {W : Type 0} → Filter W → Bytes → Ipv4Repr → IpProtocol → Exec (State Frags W) (List Bytes)
  check_protocol filter ipv4_packet ipv4_repr icmp = pure []
  check_protocol filter ipv4_packet ipv4_repr igmp = pure []
  check_protocol filter ipv4_packet ipv4_repr udp = do
    udp_packet ← process_udp net filter ipv4_repr (net.ip_payload ipv4_packet)
    fragment_large_udp_packet net udp_packet (net.ip_src_addr ipv4_packet)
        (net.ip_dst_addr ipv4_packet) (net.ip_ident ipv4_packet)
  check_protocol filter ipv4_packet ipv4_repr (other_protocol n) = raise unrecognized

  -- The last loop: each packet behind the Ethernet header of the original.
  unfoldable pub wrap_packets : {S : Type 0} → Bytes → List Bytes → Exec S (List Bytes)
  wrap_packets eth_packet [] = pure []
  wrap_packets eth_packet (packet ∷ rest) = do
    let whole = take ethernet_frame_payload eth_packet ++ packet
    frame ← lift (new_checked net.eth_check_len whole)
    frames ← wrap_packets whole rest
    pure (frame ∷ frames)

  unfoldable pub enqueue_frames : {S : Type 0} → Bytes → List Bytes → Exec S (List Bytes)
  enqueue_frames eth_packet [] = do
    frame ← lift (new_checked net.eth_check_len eth_packet)
    pure (frame ∷ [])
  enqueue_frames eth_packet (packet ∷ rest) = wrap_packets eth_packet (packet ∷ rest)

  unfoldable pub process_ipv4 :
      {W : Type 0} → Side → Filter W → Bytes → Exec (State Frags W) (List Bytes)
  process_ipv4 fragment_buffer filter eth_packet = do
    eth_payload ← slice_from eth_packet ethernet_frame_payload
    eth_frame ← lift (new_checked net.eth_check_len eth_packet)
    first ← lift (new_checked net.ip_check_len (net.eth_payload eth_frame))
    shaved ← lift (shave_crc_from_ipv4 first)
    payload ← reassemble fragment_buffer shaved eth_payload
    second ← lift (new_checked net.ip_check_len payload)
    ipv4_packet ← lift (shave_crc_from_ipv4 second)
    ipv4_repr ← lift (net.ip_parse ipv4_packet)
    packets ← check_protocol filter ipv4_packet ipv4_repr ipv4_repr.protocol
    enqueue_frames eth_packet packets
