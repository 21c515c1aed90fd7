-- ===== src/Ipv4/Handled.antt =====
-- Which packets `process_ipv4` lets pass, and how long the frames are that it makes of them.
use rustwall.Base.{
  ◌≤◌, ◌<◌, ◌≡◌, ◌≢◌, refl, sym, subst, Bytes, List, [], ◌∷◌, take, length, All, ◌⊎◌, inl, inr,
  arith, length-append, length-take,
}
use rustwall.Exec.{ok, ret}
use rustwall.Exec.Inversion.{continue-eq-ret, ret-value}
use rustwall.Constants.{ethernet_frame_payload, buffer_size}
use rustwall.Smoltcp.{Smoltcp, LengthLaws, Ipv4Repr, IpProtocol, icmp, igmp, udp, other_protocol}
use rustwall.Externs.{Filter}
use rustwall.State.{State, Side}
use rustwall.Fragment.{fragment_large_udp_packet}
use rustwall.Fragment.Sizes.{FitsMtu, Ended, fragment_large-FitsMtu}
use rustwall.Udp.{process_udp}
use rustwall.Ipv4.{check_protocol, enqueue_frames, process_ipv4}
use rustwall.Ipv4.Origin.{Carried}
use rustwall.Ipv4.Steps.{process_ipv4-eq-ret}
use rustwall.Ipv4.Frames.{framed, wrap_packets-framed, enqueue_frames-nil}

module _ {Frag Frags W : Type 0} (net : Smoltcp Frag Frags) (filter : Filter W) where
  -- An ICMP or IGMP packet passes in the frame that it came in.
  pub record IsPlain (eth_packet : Bytes) (frames : List Bytes) : Type 0 where
    pub ipv4_packet : Bytes
    pub ipv4_repr : Ipv4Repr
    pub carried : Carried net eth_packet ipv4_packet
    pub parsed : net.ip_parse ipv4_packet ≡ ok ipv4_repr
    pub protocol : (ipv4_repr.protocol ≡ icmp) ⊎ (ipv4_repr.protocol ≡ igmp)
    pub as_it_came : frames ≡ eth_packet ∷ []

  -- A UDP packet passes as the fragments of the datagram that `process_udp` returned for it, each
  -- within the MTU and behind the Ethernet header of the frame.
  pub record IsFiltered (eth_packet : Bytes) (frames : List Bytes) : Type 0 where
    pub ipv4_packet : Bytes
    pub ipv4_repr : Ipv4Repr
    pub carried : Carried net eth_packet ipv4_packet
    pub parsed : net.ip_parse ipv4_packet ≡ ok ipv4_repr
    pub protocol : ipv4_repr.protocol ≡ udp
    pub asked : State Frags W
    pub answered : State Frags W
    pub sent : State Frags W
    pub udp_packet : Bytes
    pub packets : List Bytes
    pub approved :
        process_udp net filter ipv4_repr (net.ip_payload ipv4_packet) asked
        ≡ ret udp_packet answered
    pub fragmented :
        fragment_large_udp_packet net udp_packet
          (net.ip_src_addr ipv4_packet)
          (net.ip_dst_addr ipv4_packet)
          (net.ip_ident ipv4_packet)
          answered
        ≡ ret packets sent
    pub fits : FitsMtu packets
    pub behind_header : frames ≡ framed eth_packet packets

  pub not_empty : (packets : List Bytes) → Ended packets → packets ≢ []
  not_empty packets ([], p, e) h = cc
  not_empty packets (x ∷ before, p, e) h = cc

  wrapped_lem :
      (packets : List Bytes) (eth_packet : Bytes) (s t : State Frags W) (frames : List Bytes)
      → packets ≢ []
      → ethernet_frame_payload ≤ length eth_packet
      → enqueue_frames net eth_packet packets s ≡ ret frames t
      → frames ≡ framed eth_packet packets
  unfolding enqueue_frames
  wrapped_lem [] eth_packet s t frames some_packet h e = absurd (some_packet refl)
  wrapped_lem (p ∷ ps) eth_packet s t frames some_packet h e =
      wrap_packets-framed net (p ∷ ps) eth_packet s t h e

  -- By the protocol.
  checked_lem :
      (eth_packet packet : Bytes) (r : Ipv4Repr) (p : IpProtocol) (s u t : State Frags W)
      (packets frames : List Bytes)
      → LengthLaws net
      → Carried net eth_packet packet
      → ethernet_frame_payload ≤ length eth_packet
      → net.ip_parse packet ≡ ok r
      → r.protocol ≡ p
      → check_protocol net filter packet r p s ≡ ret packets u
      → enqueue_frames net eth_packet packets u ≡ ret frames t
      → IsPlain eth_packet frames ⊎ IsFiltered eth_packet frames
  unfolding check_protocol
  checked_lem eth_packet packet r icmp s u t packets frames laws carried h parsed proto e f =
      inl (record {
        ipv4_packet = packet;
        ipv4_repr = r;
        carried = carried;
        parsed = parsed;
        protocol = inl proto;
        as_it_came =
            enqueue_frames-nil net eth_packet u t (
              subst (λ ps. enqueue_frames net eth_packet ps u ≡ ret frames t) (sym (ret-value e))
                f);
      })
  checked_lem eth_packet packet r igmp s u t packets frames laws carried h parsed proto e f =
      inl (record {
        ipv4_packet = packet;
        ipv4_repr = r;
        carried = carried;
        parsed = parsed;
        protocol = inr proto;
        as_it_came =
            enqueue_frames-nil net eth_packet u t (
              subst (λ ps. enqueue_frames net eth_packet ps u ≡ ret frames t) (sym (ret-value e))
                f);
      })
  checked_lem eth_packet packet r udp s u t packets frames laws carried h parsed proto e f =
      let (udp_packet, v, approved, e1) =
        continue-eq-ret (process_udp net filter r (net.ip_payload packet) s) _ e in
      let (fits, ended) =
        fragment_large-FitsMtu net laws udp_packet (net.ip_src_addr packet) (net.ip_dst_addr packet)
          (net.ip_ident packet) v u packets e1 in
      inr (record {
        ipv4_packet = packet;
        ipv4_repr = r;
        carried = carried;
        parsed = parsed;
        protocol = proto;
        asked = s;
        answered = v;
        sent = u;
        udp_packet = udp_packet;
        packets = packets;
        approved = approved;
        fragmented = e1;
        fits = fits;
        behind_header = wrapped_lem packets eth_packet u t frames (not_empty packets ended) h f;
      })
  checked_lem eth_packet packet r (other_protocol n) s u t packets frames laws carried h parsed
        proto e f =
      cc

  -- If `process_ipv4` returns, then the packet that the frame carries, which is its payload or what
  -- that completed as a fragment, was ICMP or IGMP and the frame is returned as it came, or it was
  -- UDP and what is returned are the fragments of a datagram that `process_udp` returned for it,
  -- within the MTU and behind the frame's Ethernet header; with smoltcp keeping the lengths of its
  -- buffers.
  pub process_ipv4-Handled :
      LengthLaws net
      → (side : Side) (eth_packet : Bytes) (s t : State Frags W) (frames : List Bytes)
      → process_ipv4 net side filter eth_packet s ≡ ret frames t
      → IsPlain eth_packet frames ⊎ IsFiltered eth_packet frames
  process_ipv4-Handled laws side eth_packet s t frames e =
      let p = process_ipv4-eq-ret net filter side eth_packet s t frames e in
      checked_lem eth_packet p.ipv4_packet p.ipv4_repr p.ipv4_repr.protocol p.before p.after t
        p.packets frames laws p.carried p.has_header p.parsed refl p.checked p.enqueued

  framed-Short :
      (eth_packet : Bytes) (packets : List Bytes)
      → FitsMtu packets
      → All (λ f. length f < buffer_size) (framed eth_packet packets)
  framed-Short eth_packet [] h = tt
  framed-Short eth_packet (p ∷ ps) h = (
    omega (
      arith,
      h.0,
      length-append (take ethernet_frame_payload eth_packet) p,
      length-take ethernet_frame_payload eth_packet,
    ),
    framed-Short eth_packet ps h.1,
  )

  -- The frames that `process_ipv4` returns fit the shared buffers if the one that came did.
  pub process_ipv4-Short :
      LengthLaws net
      → (side : Side) (eth_packet : Bytes) (s t : State Frags W) (frames : List Bytes)
      → length eth_packet < buffer_size
      → process_ipv4 net side filter eth_packet s ≡ ret frames t
      → All (λ f. length f < buffer_size) frames
  process_ipv4-Short laws side eth_packet s t frames h e =
      elim (process_ipv4-Handled laws side eth_packet s t frames e) [
        | inl plain ↦ subst (All (λ f. length f < buffer_size)) (sym plain.as_it_came) (h, tt)
        | inr udp_frames ↦
            subst (All (λ f. length f < buffer_size)) (sym udp_frames.behind_header)
              (framed-Short eth_packet udp_frames.packets udp_frames.fits)
      ]
