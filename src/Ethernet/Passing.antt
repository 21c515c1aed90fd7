-- ===== src/Ethernet/Passing.antt =====
-- The frames that pass through `process_ethernet` as they came, whatever the external firewall does.
use rustwall.Base.{◌≡◌, refl, ◌⊎◌, inl, inr, Bytes, [], ◌∷◌}
use rustwall.Exec.{ok, ret}
use rustwall.Smoltcp.{Smoltcp, ipv4, arp, Ipv4Repr, IpProtocol, icmp, igmp}
use rustwall.Externs.{Externs, Filter}
use rustwall.State.{State, Side, rx, tx, set_packets}
use rustwall.Ipv4.{check_protocol, enqueue_frames, process_ipv4}
use rustwall.Ipv4.Whole.{IsWholeIp, process_ipv4-whole}
use rustwall.Ethernet.{push_packet, push_packets, check_ethertype}

module _ {Frag Frags : Type 0} (net : Smoltcp Frag Frags) (frame : Bytes) where
  -- A whole packet that is ICMP or IGMP.
  pub record IsPlainIp : Type 0 where
    pub is_ipv4 : net.eth_ethertype frame ≡ ipv4
    pub whole : IsWholeIp net frame
    pub plain : (whole.ipv4_repr.protocol ≡ icmp) ⊎ (whole.ipv4_repr.protocol ≡ igmp)

  -- An ARP frame, or one with a plain packet.
  abbrev pub IsLetThrough : Type 0
  IsLetThrough = (net.eth_ethertype frame ≡ arp) ⊎ IsPlainIp

module _ {Frag Frags W : Type 0} (net : Smoltcp Frag Frags) (filter : Filter W) where
  check_protocol-plain :
      (packet : Bytes) (r : Ipv4Repr) (p : IpProtocol) (s : State Frags W)
      → (p ≡ icmp) ⊎ (p ≡ igmp)
      → check_protocol net filter packet r p s ≡ ret [] s
  unfolding check_protocol
  check_protocol-plain packet r p s (inl e) = rw e refl
  check_protocol-plain packet r p s (inr e) = rw e refl

  enqueue-itself :
      (frame : Bytes) (s : State Frags W)
      → net.eth_check_len frame ≡ ok tt
      → enqueue_frames net frame [] s ≡ ret (frame ∷ []) s
  unfolding enqueue_frames
  enqueue-itself frame s e = rw e refl

  -- The external firewall is not asked about a plain packet, and the frame is returned as it came.
  pub process_ipv4-plain :
      (side : Side) (frame : Bytes) (s : State Frags W)
      → IsPlainIp net frame
      → process_ipv4 net side filter frame s ≡ ret (frame ∷ []) s
  process_ipv4-plain side frame s h =
      let w = h.whole in
      rw
        (
          process_ipv4-whole net filter side frame s w,
          check_protocol-plain w.ipv4_packet w.ipv4_repr w.ipv4_repr.protocol s h.plain,
        )
        (enqueue-itself frame s w.eth_checked)

module _ {Frag Frags W : Type 0} (net : Smoltcp Frag Frags) (ext : Externs W) (filter : Filter W)
    (frame : Bytes) (s : State Frags W) where
  -- Such a frame is queued as it came, where nothing was queued.
  pub check_ethertype-passes :
      (side fragment_buffer : Side)
      → IsLetThrough net frame
      → check_ethertype net ext side fragment_buffer filter frame
          (net.eth_ethertype frame)
          (set_packets side [] s)
        ≡ ret tt (set_packets side (frame ∷ []) s)
  unfolding check_ethertype push_packet push_packets
  check_ethertype-passes rx store (inl e) = rw e refl
  check_ethertype-passes tx store (inl e) = rw e refl
  check_ethertype-passes rx store (inr h) =
      rw (h.is_ipv4, process_ipv4-plain net filter store frame (record s { packets_rx = [] }) h)
        refl
  check_ethertype-passes tx store (inr h) =
      rw (h.is_ipv4, process_ipv4-plain net filter store frame (record s { packets_tx = [] }) h)
        refl
