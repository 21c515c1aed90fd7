-- ===== src/Smoltcp.antt =====
-- What the firewall uses of the smoltcp crate, whose text is not in the repository. A frame or a
-- packet is the buffer that it wraps (`into_inner` gives it back), so each accessor is a function of
-- the buffer, and each setter a function from buffer to buffer.
use rustwall.Base.{ℕ, Bool, Bytes, Option, ◌≡◌, ◌+◌, ◌≤◌, length, replicate}
use rustwall.Exec.{Result, ok, err}

-- `Ipv4Address([u8; 4])`.
pub record Ipv4Address : Type 0 where
  pub octet_0 : ℕ
  pub octet_1 : ℕ
  pub octet_2 : ℕ
  pub octet_3 : ℕ

-- `EthernetAddress([u8; 6])`, as its six octets.
abbrev pub EthernetAddress : Type 0
EthernetAddress = Bytes

-- The variants that the source names; the last stands for all others.
pub data EthernetProtocol : Type 0 where
  ipv4 ipv6 arp : EthernetProtocol
  other_ethertype : ℕ → EthernetProtocol

pub data IpProtocol : Type 0 where
  icmp igmp udp : IpProtocol
  other_protocol : ℕ → IpProtocol

pub record Ipv4Repr : Type 0 where
  pub src_addr : Ipv4Address
  pub dst_addr : Ipv4Address
  pub protocol : IpProtocol
  pub payload_len : ℕ
  pub hop_limit : ℕ

pub record UdpRepr : Type 0 where
  pub src_port : ℕ
  pub dst_port : ℕ
  pub payload : Bytes

-- A mutable borrow of one packet of a fragment set: the packet, and what the set becomes when the
-- borrow ends with a packet in its place.
pub record Borrow (Fragment FragmentSet : Type 0) : Type 0 where
  pub fragment : Fragment
  pub give_back : Fragment → FragmentSet

pub record Smoltcp (Fragment FragmentSet : Type 0) : Type 0 where
  -- smoltcp::wire::EthernetFrame, EthernetAddress
  pub eth_check_len : Bytes → Result (Unit {0})
  pub eth_dst_addr : Bytes → EthernetAddress
  pub eth_ethertype : Bytes → EthernetProtocol
  pub eth_payload : Bytes → Bytes
  pub is_broadcast : EthernetAddress → Bool
  pub is_multicast : EthernetAddress → Bool
  -- smoltcp::wire::Ipv4Packet, Ipv4Repr
  pub ip_check_len : Bytes → Result (Unit {0})
  pub ip_header_len : Bytes → ℕ
  pub ip_total_len : Bytes → ℕ
  pub ip_ident : Bytes → ℕ
  pub ip_more_frags : Bytes → Bool
  pub ip_frag_offset : Bytes → ℕ
  pub ip_protocol : Bytes → IpProtocol
  pub ip_src_addr : Bytes → Ipv4Address
  pub ip_dst_addr : Bytes → Ipv4Address
  pub ip_payload : Bytes → Bytes
  pub ip_parse : Bytes → Result Ipv4Repr
  pub ip_buffer_len : Ipv4Repr → ℕ
  pub ip_emit : Ipv4Repr → Bytes → Bytes
  pub ip_set_payload : Bytes → Bytes → Bytes
  pub ip_set_ident : ℕ → Bytes → Bytes
  pub ip_set_frag_offset : ℕ → Bytes → Bytes
  pub ip_set_more_frags : Bool → Bytes → Bytes
  pub ip_set_dont_frag : Bool → Bytes → Bytes
  pub ip_set_total_len : ℕ → Bytes → Bytes
  pub ip_fill_checksum : Bytes → Bytes
  -- smoltcp::wire::UdpPacket, UdpRepr
  pub udp_check_len : Bytes → Result (Unit {0})
  pub udp_src_port : Bytes → ℕ
  pub udp_dst_port : Bytes → ℕ
  pub udp_payload : Bytes → Bytes
  pub udp_parse : Bytes → Ipv4Address → Ipv4Address → Result UdpRepr
  pub udp_buffer_len : UdpRepr → ℕ
  pub udp_emit : UdpRepr → Bytes → Ipv4Address → Ipv4Address → Bytes
  pub udp_fill_checksum : Bytes → Ipv4Address → Ipv4Address → Bytes
  -- smoltcp::iface::FragmentSet, FragmentedPacket
  pub set_new : FragmentSet
  pub set_add : Fragment → FragmentSet → FragmentSet
  pub get_packet :
      FragmentSet
      → ℕ
      → Ipv4Address
      → Ipv4Address
      → ℕ
      → Option (Borrow Fragment FragmentSet) × FragmentSet
  pub packet_new : Bytes → Fragment
  pub is_empty : Fragment → Bool
  pub start : Fragment → ℕ → Ipv4Address → Ipv4Address → Fragment
  pub set_total_len : Fragment → ℕ → Fragment
  pub add : Fragment → ℕ → ℕ → ℕ → Bytes → ℕ → Result (Unit {0}) × Fragment
  pub reset : Fragment → Fragment
  pub check_contig_range : Fragment → Bool
  pub front : Fragment → Option ℕ
  pub get_buffer : Fragment → ℕ → ℕ → Bytes
  pub set_buffer : Fragment → ℕ → ℕ → Bytes → Fragment

abbrev pub if_fits : Result (Unit {0}) → Bytes → Result Bytes
if_fits (ok _) buffer = ok buffer
if_fits (err e) buffer = err e

-- `new_checked` of any wrapper: `new`, then `check_len`.
abbrev pub new_checked : (Bytes → Result (Unit {0})) → Bytes → Result Bytes
new_checked check buffer = if_fits (check buffer) buffer

-- The documented behaviour of smoltcp that the theorems rest on: an emitted header describes the
-- representation, so its packet has a payload of the announced length,
-- and to set the identifier does not change that length.
pub record IpLaws {Fragment FragmentSet : Type 0} (net : Smoltcp Fragment FragmentSet)
    : Type 0 where
  pub emit_payload :
      (r : Ipv4Repr)
      → r.payload_len ≤ 65515
      → length (net.ip_payload (net.ip_emit r (replicate (net.ip_buffer_len r + r.payload_len) 0)))
        ≡ r.payload_len
  pub ident_payload :
      (id : ℕ) (p : Bytes)
      → length (net.ip_payload (net.ip_set_ident id p)) ≡ length (net.ip_payload p)

-- The length of a packet's buffer, which the emitter, the setters and `payload_mut` write in place;
-- an IPv4 header without options has 20 bytes.
pub record LengthLaws {Fragment FragmentSet : Type 0} (net : Smoltcp Fragment FragmentSet)
    : Type 0 where
  pub header : (r : Ipv4Repr) → net.ip_buffer_len r ≡ 20
  pub emit :
      (r : Ipv4Repr) (b : Bytes)
      → net.ip_buffer_len r ≤ length b
      → length (net.ip_emit r b) ≡ length b
  pub payload :
      (p b : Bytes)
      → length (net.ip_payload p) ≡ length b
      → length (net.ip_set_payload p b) ≡ length p
  pub ident : (id : ℕ) (p : Bytes) → length (net.ip_set_ident id p) ≡ length p
  pub frag_offset : (n : ℕ) (p : Bytes) → length (net.ip_set_frag_offset n p) ≡ length p
  pub more_frags : (more : Bool) (p : Bytes) → length (net.ip_set_more_frags more p) ≡ length p
  pub dont_frag : (dont : Bool) (p : Bytes) → length (net.ip_set_dont_frag dont p) ≡ length p
  pub checksum : (p : Bytes) → length (net.ip_fill_checksum p) ≡ length p
