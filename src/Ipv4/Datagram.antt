-- ===== src/Ipv4/Datagram.antt =====
-- `process_ipv4` on a small datagram, with the packet filter of src/external_firewall.c.
use rustwall.Base.{
  ℕ, ◌≡◌, refl, ◌<◌, ◌≤◌, ◌||◌, ◌==◌, ◌++◌, Bytes, Bool, true, false, [], ◌∷◌, take, length,
  if◌then◌else◌,
}
use rustwall.Exec.{ok, ret, fail, dropped, continue}
use rustwall.Constants.{ethernet_frame_payload, mtu_udp, max_udp_packet_size}
use rustwall.Smoltcp.{Smoltcp, UdpRepr, IpLaws, IpProtocol, udp}
use rustwall.Externs.{Filter}
use rustwall.State.{State, Side}
use rustwall.ExternalFirewall.{packet_in}
use rustwall.Udp.{approved_datagram, process_udp}
use rustwall.Udp.Shipped.{Blocks, packet_in-Blocks, refused_or, process_udp-Blocks}
use rustwall.Fragment.{fragment_large_udp_packet}
use rustwall.Fragment.Small.{whole_packet, fragment_large_small}
use rustwall.Ipv4.{check_protocol, wrap_packets, enqueue_frames, process_ipv4}
use rustwall.Ipv4.Whole.{IsWholeIp, process_ipv4-whole}

module _ {Frag Frags : Type 0} (net : Smoltcp Frag Frags) (frame : Bytes)
    (whole : IsWholeIp net frame) where
  abbrev udp_packet : Bytes
  udp_packet = net.ip_payload whole.ipv4_packet

  -- The datagram with the payload that it had.
  abbrev pub datagram : Bytes
  datagram = approved_datagram net whole.ipv4_repr udp_packet (net.udp_payload udp_packet)

  -- It in one packet, with the addresses and the identifier of the original, behind its header.
  abbrev pub passed_frame : Bytes
  passed_frame =
      take ethernet_frame_payload frame
      ++ whole_packet net datagram (net.ip_src_addr whole.ipv4_packet)
          (net.ip_dst_addr whole.ipv4_packet) (net.ip_ident whole.ipv4_packet)

  -- The packet has a well-formed datagram, which is below the MTU when it is made anew; what is made
  -- is long enough for its headers.
  pub record IsSmallUdp : Type 0 where
    pub udp_repr : UdpRepr
    pub is_udp : whole.ipv4_repr.protocol ≡ udp
    pub udp_checked : net.udp_check_len udp_packet ≡ ok tt
    pub udp_parsed :
        net.udp_parse udp_packet whole.ipv4_repr.src_addr whole.ipv4_repr.dst_addr ≡ ok udp_repr
    pub payload_bounded : length (net.udp_payload udp_packet) ≤ max_udp_packet_size
    pub short : length datagram < mtu_udp
    pub datagram_checked : net.udp_check_len datagram ≡ ok tt
    pub frame_checked : net.eth_check_len passed_frame ≡ ok tt

  -- Whether it is refused where a port is blocked.
  abbrev pub is_refused : ℕ → Bool
  is_refused port = net.udp_dst_port udp_packet == port || length (net.udp_payload udp_packet) == 0

  module _ {W : Type 0} (port : ℕ) (filter : Filter W) (blocks : Blocks port filter)
      (laws : IpLaws net) (h : IsSmallUdp) where
    enqueue_passed :
        (s : State Frags W)
        → enqueue_frames net frame
            (whole_packet net datagram
                (net.ip_src_addr whole.ipv4_packet)
                (net.ip_dst_addr whole.ipv4_packet)
                (net.ip_ident whole.ipv4_packet)
              ∷ [])
            s
          ≡ ret (passed_frame ∷ []) s
    unfolding enqueue_frames wrap_packets
    enqueue_passed s = rw h.frame_checked refl

    by_verdict :
        (refused : Bool) (s : State Frags W)
        → continue
            (continue (refused_or net whole.ipv4_repr udp_packet refused s) (λ d.
              fragment_large_udp_packet net d
                (net.ip_src_addr whole.ipv4_packet)
                (net.ip_dst_addr whole.ipv4_packet)
                (net.ip_ident whole.ipv4_packet)))
            (enqueue_frames net frame)
          ≡ (if refused then fail dropped s else ret (passed_frame ∷ []) s)
    by_verdict true s = refl
    by_verdict false s =
        rw
          (
            h.datagram_checked,
            fragment_large_small net laws datagram (net.ip_src_addr whole.ipv4_packet)
                (net.ip_dst_addr whole.ipv4_packet) (net.ip_ident whole.ipv4_packet) s h.short,
          )
          (enqueue_passed s)

    check_udp :
        (p : IpProtocol) (s : State Frags W)
        → p ≡ udp
        → check_protocol net filter whole.ipv4_packet whole.ipv4_repr p s
          ≡ continue (process_udp net filter whole.ipv4_repr udp_packet s) (λ d.
            fragment_large_udp_packet net d
              (net.ip_src_addr whole.ipv4_packet)
              (net.ip_dst_addr whole.ipv4_packet)
              (net.ip_ident whole.ipv4_packet))
    unfolding check_protocol
    check_udp p s e = rw e refl

    -- It is dropped, or is returned as one frame.
    pub process_ipv4-Blocks :
        (side : Side) (s : State Frags W)
        → process_ipv4 net side filter frame s
          ≡ (if is_refused port then fail dropped s else ret (passed_frame ∷ []) s)
    process_ipv4-Blocks side s =
        rw
          (
            process_ipv4-whole net filter side frame s whole,
            check_udp whole.ipv4_repr.protocol s h.is_udp,
            process_udp-Blocks net port filter blocks whole.ipv4_repr udp_packet s h.udp_repr
                h.udp_checked h.udp_parsed h.payload_bounded,
          )
          (by_verdict (is_refused port) s)

  module _ {W : Type 0} (laws : IpLaws net) (h : IsSmallUdp) where
    -- With the packet filter of src/external_firewall.c, a frame with a whole, well-formed datagram
    -- below the MTU is dropped if the datagram goes to port 6968 or is empty; any other is returned
    -- as one frame, behind the Ethernet header that it had, with the datagram in one packet,
    -- with its payload, its ports, its addresses and its identifier; the state stays as it is. This
    -- holds for smoltcp keeping to `IpLaws`.
    pub process_ipv4-packet_in :
        (side : Side) (s : State Frags W)
        → process_ipv4 net side packet_in frame s
          ≡ (if is_refused 6968 then fail dropped s else ret (passed_frame ∷ []) s)
    process_ipv4-packet_in = process_ipv4-Blocks 6968 packet_in packet_in-Blocks laws h
