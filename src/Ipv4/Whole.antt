-- ===== src/Ipv4/Whole.antt =====
-- The way through `process_ipv4` of a packet that is no UDP fragment.
use rustwall.Base.{◌≡◌, refl, ◌≤◌, ◌&&◌, ◌||◌, Bytes, false, ltb, length, drop}
use rustwall.Exec.{ok, ret, continue}
use rustwall.Constants.{ethernet_frame_payload}
use rustwall.Smoltcp.{Smoltcp, Ipv4Repr}
use rustwall.Externs.{Filter}
use rustwall.State.{State, Side}
use rustwall.Slice.{slice_from_lem}
use rustwall.Ipv4.{
  is_udp, shave_crc_from_ipv4, reassemble, check_protocol, enqueue_frames, process_ipv4,
}

-- The packet in the frame is well formed, with or without the checksum of the frame, and by its
-- header it is no UDP fragment.
pub record IsWholeIp {Frag Frags : Type 0} (net : Smoltcp Frag Frags) (frame : Bytes) : Type 0 where
  pub shaved : Bytes
  pub ipv4_packet : Bytes
  pub ipv4_repr : Ipv4Repr
  pub has_header : ethernet_frame_payload ≤ length frame
  pub eth_checked : net.eth_check_len frame ≡ ok tt
  pub outer_checked : net.ip_check_len (net.eth_payload frame) ≡ ok tt
  pub outer_shaved : shave_crc_from_ipv4 net (net.eth_payload frame) ≡ ok shaved
  pub no_udp_fragment :
      ((net.ip_more_frags shaved || ltb 0 (net.ip_frag_offset shaved))
        && is_udp (net.ip_protocol shaved))
      ≡ false
  pub inner_checked : net.ip_check_len (drop ethernet_frame_payload frame) ≡ ok tt
  pub inner_shaved : shave_crc_from_ipv4 net (drop ethernet_frame_payload frame) ≡ ok ipv4_packet
  pub parsed : net.ip_parse ipv4_packet ≡ ok ipv4_repr

module _ {Frag Frags W : Type 0} (net : Smoltcp Frag Frags) (filter : Filter W) where
  reassemble-whole :
      (side : Side) (packet payload : Bytes) (s : State Frags W)
      → ((net.ip_more_frags packet || ltb 0 (net.ip_frag_offset packet))
          && is_udp (net.ip_protocol packet))
        ≡ false
      → reassemble net side packet payload s ≡ ret payload s
  unfolding reassemble
  reassemble-whole side packet payload s e = rw e refl

  -- Only the protocol decides about it.
  pub process_ipv4-whole :
      (side : Side) (frame : Bytes) (s : State Frags W) (h : IsWholeIp net frame)
      → process_ipv4 net side filter frame s
        ≡ continue
            (check_protocol net filter h.ipv4_packet h.ipv4_repr h.ipv4_repr.protocol s)
            (enqueue_frames net frame)
  unfolding process_ipv4
  process_ipv4-whole side frame s h =
      rw
        (
          slice_from_lem frame ethernet_frame_payload s h.has_header,
          h.eth_checked,
          h.outer_checked,
          h.outer_shaved,
          reassemble-whole side h.shaved (drop ethernet_frame_payload frame) s h.no_udp_fragment,
          h.inner_checked,
          h.inner_shaved,
          h.parsed,
        )
        refl
