-- ===== src/Ipv4/Reassembled.antt =====
-- `process_ipv4` on the fragments that the firewall itself would make of a datagram, with a packet
-- filter that blocks one port.
use rustwall.Base.{
  ℕ, ◌+◌, ◌^◌, ◌<◌, ◌≤◌, ◌≡◌, sym, ap, ◌∙◌, subst, ◌||◌, ◌==◌, Bytes, Bool, true, List, [], ◌∷◌,
  ◌++◌, All, map, length, Bool-cases, inl, inr, if◌then◌else◌, arith,
}
use rustwall.Exec.{Exec, ret, fail, ok, dropped, lift, continue, ◌>>=◌}
use rustwall.Exec.Inversion.{continue-continue, ret-value}
use rustwall.Constants.{
  max_udp_packet_size, mtu_udp, ipv4_header_size, max_reassembled_fragment_size,
}
use rustwall.Smoltcp.{Smoltcp, Ipv4Address, Ipv4Repr, UdpRepr, IpProtocol, IpLaws, udp, new_checked}
use rustwall.Externs.{Filter}
use rustwall.State.{State, Side, fragments}
use rustwall.Fragment.{fragment_large_udp_packet, choose_packet_id}
use rustwall.Fragment.Plan.{Piece}
use rustwall.Fragment.Loop.{emitted}
use rustwall.Fragment.Tiling.{pieces, fragment_large-Pieces}
use rustwall.Udp.{approved_datagram}
use rustwall.Udp.Shipped.{Blocks, process_udp-Blocks}
use rustwall.Reassembly.Feed.{feed, answers_of}
use rustwall.Reassembly.SetLaws.{Carries, SlotLaws, finished}
use rustwall.Reassembly.RoundTrip.{IsPiece, first_header, fragments-Reassemble}
use rustwall.Ipv4.{shave_crc_from_ipv4, check_protocol, enqueue_frames}
use rustwall.Ipv4.Fragmented.{IsFragmentFrame, go_on, later}
use rustwall.Ipv4.Offer.{offer, or_none, last_of, offer_lem}

-- The packet is well formed and has a well-formed datagram.
pub record IsUdpPacket {Frag Frags : Type 0} (net : Smoltcp Frag Frags) (whole : Bytes)
    : Type 0 where
  pub ipv4_packet : Bytes
  pub ipv4_repr : Ipv4Repr
  pub udp_repr : UdpRepr
  pub checked : net.ip_check_len whole ≡ ok tt
  pub shaved : shave_crc_from_ipv4 net whole ≡ ok ipv4_packet
  pub parsed : net.ip_parse ipv4_packet ≡ ok ipv4_repr
  pub is_udp : ipv4_repr.protocol ≡ udp
  pub udp_checked : net.udp_check_len (net.ip_payload ipv4_packet) ≡ ok tt
  pub udp_parsed :
      net.udp_parse (net.ip_payload ipv4_packet) ipv4_repr.src_addr ipv4_repr.dst_addr ≡ ok udp_repr
  pub payload_bounded : length (net.udp_payload (net.ip_payload ipv4_packet)) ≤ max_udp_packet_size

module _ {Frag Frags : Type 0} (net : Smoltcp Frag Frags) (whole : Bytes)
    (h : IsUdpPacket net whole) where
  abbrev udp_packet : Bytes
  udp_packet = net.ip_payload h.ipv4_packet

  -- Whether it is refused where a port is blocked.
  abbrev pub is_shut : ℕ → Bool
  is_shut port = net.udp_dst_port udp_packet == port || length (net.udp_payload udp_packet) == 0

module _ {Frag Frags W : Type 0} (net : Smoltcp Frag Frags) (whole : Bytes)
    (h : IsUdpPacket net whole) where
  -- The datagram made anew with its payload, in as many packets as it takes, behind the Ethernet
  -- header of the frame.
  abbrev pub remade : Bytes → Exec (State Frags W) (List Bytes)
  remade frame = do
    datagram ← lift (
        new_checked net.udp_check_len (
          approved_datagram net h.ipv4_repr (udp_packet net whole h)
            (net.udp_payload (udp_packet net whole h))))
    packets ←
        fragment_large_udp_packet net datagram (net.ip_src_addr h.ipv4_packet)
          (net.ip_dst_addr h.ipv4_packet) (net.ip_ident h.ipv4_packet)
    enqueue_frames net frame packets

  module _ (side : Side) (port : ℕ) (filter : Filter W) (blocks : Blocks port filter) where
    by_protocol :
        (p : IpProtocol) (frame : Bytes) (s : State Frags W)
        → p ≡ udp
        → continue
            (check_protocol net filter h.ipv4_packet h.ipv4_repr p s)
            (enqueue_frames net frame)
          ≡ (if is_shut net whole h port then fail dropped s else remade frame s)
    unfolding check_protocol
    by_protocol p frame s e =
        rw
          (
            e,
            process_udp-Blocks net port filter blocks h.ipv4_repr (udp_packet net whole h) s
                h.udp_repr h.udp_checked h.udp_parsed h.payload_bounded,
          )
          (elim (Bool-cases (is_shut net whole h port)) [
            | inl shut ↦ rw shut
            | inr passes ↦ rw passes (
                continue-continue
                  (lift
                    (new_checked net.udp_check_len (
                      approved_datagram net h.ipv4_repr (udp_packet net whole h)
                        (net.udp_payload (udp_packet net whole h))))
                    s)
                  _ (enqueue_frames net frame))
          ])

    -- Only the datagram decides about the whole packet.
    pub go_on_lem :
        (frame : Bytes) (s : State Frags W)
        → go_on net side filter frame whole s
          ≡ (if is_shut net whole h port then fail dropped s else remade frame s)
    go_on_lem frame s =
        rw (h.checked, h.shaved, h.parsed) (by_protocol h.ipv4_repr.protocol frame s h.is_udp)

module _ {Frag Frags W : Type 0} (net : Smoltcp Frag Frags) (side : Side) (port : ℕ)
    (filter : Filter W) (blocks : Blocks port filter) (wrap : Bytes → Bytes) where
  -- What is let through of frames whose fragments come back whole.
  offered :
      (packets : List Bytes) (whole : Bytes) (set' : Frags) (s : State Frags W)
      (h : IsUdpPacket net whole) (p : Bytes) (ps : List Bytes)
      → packets ≡ p ∷ ps
      → All (λ q. IsFragmentFrame net (wrap q) q) packets
      → s.ms + length packets < 2 ^ 63
      → feed net (s.ms + 1) packets (fragments side s) ≡ ret (answers_of whole packets) set'
      → offer net side filter (map wrap packets) s
        ≡ or_none (
            if is_shut net whole h port
            then fail dropped (later side (length packets) set' s)
            else remade net whole h
                (wrap (last_of [] packets))
                (later side (length packets) set' s))
  offered [] whole set' s h p ps e framed room fed = cc
  offered (q ∷ qs) whole set' s h p ps e framed room fed =
      offer_lem net side filter wrap q qs whole set' s framed room fed
      ∙ ap or_none (go_on_lem net whole h side port filter blocks _ _)

-- The packet that its fragments come back as.
abbrev pub whole_again :
    {Frag Frags : Type 0} → Smoltcp Frag Frags → ℕ → Ipv4Address → Ipv4Address → Bytes → Bytes
whole_again net id src dst udp_packet =
    finished net (first_header net id src dst udp_packet ++ udp_packet)

module _ {Frag Frags V W : Type 0} (net : Smoltcp Frag Frags) (ip_laws : IpLaws net) (side : Side)
    (port : ℕ) (filter : Filter W) (blocks : Blocks port filter) (id : ℕ) (src dst : Ipv4Address)
    (udp_packet : Bytes) (Has : ℕ → Frags → Frag → Type 0)
    (Holds : ℕ → Frag → Bytes → Bytes → Type 0) (laws : SlotLaws net id src dst Has Holds) where
  -- Any datagram that is not below the MTU and, with its header, within
  -- MAX_REASSEMBLED_FRAGMENT_SIZE comes to the packet filter as a whole, when it comes in the
  -- fragments that `fragment_large_udp_packet` makes of it, one frame after the other and in their
  -- order, to `process_ipv4`, with an empty slot in the fragment set for them: if it goes to the
  -- port that the filter blocks, or is empty, nothing is let through of any of the frames; otherwise
  -- nothing is let through until the last one, and with that, unless an error ends it, the datagram
  -- with the payload, the ports, the addresses and the identifier that it had, in fragments behind
  -- the Ethernet header of the last frame. This holds for smoltcp
  -- keeping to `IpLaws` and `SlotLaws`, with the header fields of a fragment read as they were set,
  -- each frame, the whole packet and its datagram well formed, its payload within
  -- MAX_UDP_PACKET_SIZE, and the clock in its range.
  pub fragments-Filtered :
      (given : ℕ) (sender sender' : State Frags V) (packets : List Bytes) (wrap : Bytes → Bytes)
      (s : State Frags W) (f : Frag) (h : IsUdpPacket net (whole_again net id src dst udp_packet))
      → ((p : Piece) → IsPiece p → Carries net id src dst p (emitted net src dst id p))
      → mtu_udp ≤ length udp_packet
      → ipv4_header_size + length udp_packet ≤ max_reassembled_fragment_size
      → choose_packet_id net given sender ≡ ret id sender'
      → fragment_large_udp_packet net udp_packet src dst given sender ≡ ret packets sender'
      → All (λ q. IsFragmentFrame net (wrap q) q) packets
      → s.ms + length packets < 2 ^ 63
      → Has (s.ms + 1) (fragments side s) f
      → net.is_empty f ≡ true
      → net.ip_check_len (first_header net id src dst udp_packet ++ udp_packet) ≡ ok tt
      → (set' : Frags) × (offer net side filter (map wrap packets) s
          ≡ or_none (
              if is_shut net _ h port
              then fail dropped (later side (length packets) set' s)
              else remade net _ h (wrap (last_of [] packets)) (later side (length packets) set' s)))
  unfolding pieces
  fragments-Filtered given sender sender' packets wrap s f h carried large fits chosen sent framed
        room has empty checked =
      let (packets', sent', (set', fed)) =
        fragments-Reassemble net id src dst udp_packet Has Holds ip_laws laws given (s.ms + 1)
          sender sender' (fragments side s) f carried large fits chosen has empty checked in
      let same : packets' ≡ packets = ret-value (sym sent' ∙ sent) in
      let cut : packets ≡ map (emitted net src dst id) (pieces udp_packet) = ret-value (
        sym sent
        ∙ fragment_large-Pieces net ip_laws udp_packet src dst given id sender sender' large
            (omega (arith, fits)) chosen) in
      (
        set',
        offered net side port filter blocks wrap packets _ set' s h _ _ cut framed room (
            subst
              (λ q.
                feed net (s.ms + 1) q (fragments side s)
                ≡ ret (answers_of (whole_again net id src dst udp_packet) q) set')
              same fed),
      )
