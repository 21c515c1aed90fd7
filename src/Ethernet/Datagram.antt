-- ===== src/Ethernet/Datagram.antt =====
-- `process_ethernet` on a small datagram, with a packet filter that blocks one port.
use rustwall.Base.{
  ℕ, ◌+◌, ◌≤◌, none, length, take, length-append, length-take, arith, ◌≡◌, refl, Bytes, Bool, true,
  false, [], ◌∷◌, if◌then◌else◌,
}
use rustwall.Exec.{ret, fail, dropped, continue}
use rustwall.Smoltcp.{Smoltcp, IpLaws, LengthLaws, ipv4}
use rustwall.Externs.{Externs, Filter}
use rustwall.State.{State, Side, rx, tx, set_packets, initial}
use rustwall.Udp.Shipped.{Blocks}
use rustwall.Ipv4.Whole.{IsWholeIp}
use rustwall.Ipv4.Datagram.{IsSmallUdp, datagram, passed_frame, is_refused, process_ipv4-Blocks}
use rustwall.Constants.{ethernet_frame_payload, mtu}
use rustwall.Fragment.Small.{whole_packet, fragment_large_small}
use rustwall.Fragment.Sizes.{fragment_large-FitsMtu}
use rustwall.Ethernet.{push_packets, check_ethertype}

-- An IPv4 frame with a whole, well-formed datagram below the MTU.
pub record IsDatagram {Frag Frags : Type 0} (net : Smoltcp Frag Frags) (frame : Bytes)
    : Type 0 where
  pub is_ipv4 : net.eth_ethertype frame ≡ ipv4
  pub whole : IsWholeIp net frame
  pub small : IsSmallUdp net frame whole

module _ {Frag Frags : Type 0} (net : Smoltcp Frag Frags) (frame : Bytes)
    (h : IsDatagram net frame) where
  -- The frame that is made of it.
  abbrev pub passed : Bytes
  passed = passed_frame net frame h.whole

  -- Whether it goes to the blocked port or is empty.
  abbrev pub is_blocked : ℕ → Bool
  is_blocked port = is_refused net frame h.whole port

module _ {Frag Frags W : Type 0} (net : Smoltcp Frag Frags) (ext : Externs W) (port : ℕ)
    (filter : Filter W) (blocks : Blocks port filter) (laws : IpLaws net) (frame : Bytes)
    (h : IsDatagram net frame) (s : State Frags W) where
  queue_lem :
      (side store : Side) (dropped_it : Bool)
      → continue
          (if dropped_it
            then fail dropped (set_packets side [] s)
            else ret (passed net frame h ∷ []) (set_packets side [] s))
          (push_packets side)
        ≡ (if dropped_it
            then fail dropped (set_packets side [] s)
            else ret tt (set_packets side (passed net frame h ∷ []) s))
  unfolding push_packets
  queue_lem side store true = refl
  queue_lem rx store false = refl
  queue_lem tx store false = refl

  -- It is dropped, or queued as one frame, where nothing was queued.
  pub check_ethertype-Blocks :
      (side store : Side)
      → check_ethertype net ext side store filter frame
          (net.eth_ethertype frame)
          (set_packets side [] s)
        ≡ (if is_blocked net frame h port
            then fail dropped (set_packets side [] s)
            else ret tt (set_packets side (passed net frame h ∷ []) s))
  unfolding check_ethertype
  check_ethertype-Blocks side store =
      rw
        (
          h.is_ipv4,
          process_ipv4-Blocks net frame h.whole port filter blocks laws h.small store
              (set_packets side [] s),
        )
        (queue_lem side store (is_blocked net frame h port))

module _ {Frag Frags : Type 0} (net : Smoltcp Frag Frags) (laws : IpLaws net)
    (lengths : LengthLaws net) (frame : Bytes) (whole : IsWholeIp net frame)
    (h : IsSmallUdp net frame whole) where
  -- What is made of it has the Ethernet header and a packet within the MTU.
  pub passed_frame-Short : length (passed_frame net frame whole) ≤ ethernet_frame_payload + mtu
  passed_frame-Short =
      let s : State Frags (Unit {0}) = initial net none none tt in
      let packet : Bytes =
        whole_packet net (datagram net frame whole) (net.ip_src_addr whole.ipv4_packet)
          (net.ip_dst_addr whole.ipv4_packet) (net.ip_ident whole.ipv4_packet) in
      let fits =
        fragment_large-FitsMtu net lengths (datagram net frame whole)
          (net.ip_src_addr whole.ipv4_packet) (net.ip_dst_addr whole.ipv4_packet)
          (net.ip_ident whole.ipv4_packet) s s (packet ∷ [])
          (fragment_large_small net laws (datagram net frame whole)
            (net.ip_src_addr whole.ipv4_packet) (net.ip_dst_addr whole.ipv4_packet)
            (net.ip_ident whole.ipv4_packet) s h.short) in
      omega (
        arith,
        length-append (take ethernet_frame_payload frame) packet,
        length-take ethernet_frame_payload frame,
        fits.0.0,
      )
