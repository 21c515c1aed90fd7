-- ===== src/Udp.antt =====
-- `process_udp` of src/utils.rs: hands a datagram to the external firewall and builds the approved
-- one. The target is little-endian, `usize` has 64 bits.

pub mod Verdict
pub mod Shipped
pub mod Addresses
use rustwall.Base.{
  ℕ, ◌+◌, ◌*◌, ◌%◌, ◌^◌, ℤ, pos, negsuc, Bytes, ◌&&◌, ltb, leb, if◌then◌else◌, length, take,
  replicate,
}
use rustwall.Exec.{Exec, ret, raise, abort, lift, fault, dropped, ◌>>=◌, ◌>>◌}
use rustwall.Constants.{max_udp_payload_size, max_udp_packet_size}
use rustwall.Smoltcp.{Smoltcp, Ipv4Address, Ipv4Repr, UdpRepr, new_checked}
use rustwall.Externs.{Filter}
use rustwall.State.{State}

-- `transmute::<[u8; 4], u32>`: the first octet is the lowest.
unfoldable pub transmute_u32 : Ipv4Address → ℕ
transmute_u32 a = a.octet_0 + 2 ^ 8 * a.octet_1 + 2 ^ 16 * a.octet_2 + 2 ^ 24 * a.octet_3

-- `Vec::with_capacity(wanted)`, then `len` bytes appended: a vector that must grow at least doubles.
unfoldable pub capacity : ℕ → ℕ → ℕ
capacity wanted len =
    if leb len wanted then wanted else if leb len (2 * wanted) then 2 * wanted else len

module _ {Frag Frags : Type 0} (net : Smoltcp Frag Frags) where
  -- The approved datagram around `udp_data`.
  abbrev pub approved_repr : Bytes → Bytes → UdpRepr
  approved_repr udp_packet udp_data = record {
    src_port = net.udp_src_port udp_packet;
    dst_port = net.udp_dst_port udp_packet;
    payload = udp_data;
  }

  abbrev pub approved_datagram : Ipv4Repr → Bytes → Bytes → Bytes
  approved_datagram ip_repr udp_packet udp_data =
      let r = approved_repr udp_packet udp_data in
      net.udp_fill_checksum
        (net.udp_emit r (replicate (net.udp_buffer_len r) 0) ip_repr.src_addr ip_repr.dst_addr)
        ip_repr.src_addr ip_repr.dst_addr

  -- The vector is rebuilt with `payload_len` bytes over its old memory. To read it where it passes
  -- its capacity, or memory that nobody wrote, is undefined.
  unfoldable pub assemble_udp :
      {W : Type 0} → Ipv4Repr → Bytes → ℤ → Bytes → Exec (State Frags W) Bytes
  assemble_udp ip_repr udp_packet (negsuc n) mem = raise dropped
  assemble_udp ip_repr udp_packet (pos n) mem =
      if ltb 0 n && leb n max_udp_packet_size
      then if leb n (capacity max_udp_payload_size (length (net.udp_payload udp_packet)))
          && leb n (length mem)
        then lift
            (new_checked net.udp_check_len (approved_datagram ip_repr udp_packet (take n mem)))
        else abort fault
      else raise dropped

module _ {Frag Frags W : Type 0} (net : Smoltcp Frag Frags) (filter : Filter W) where
  -- `external_firewall_fn.lock().call(...)`, with its arguments as they are computed before it: the
  -- value returned, and the memory behind the payload's pointer.
  unfoldable pub call_external_firewall : Ipv4Repr → Bytes → Exec (State Frags W) (ℤ × Bytes)
  call_external_firewall ip_repr udp_packet s =
      let udp_data = net.udp_payload udp_packet in
      let (r, mem, w) =
        filter (transmute_u32 ip_repr.src_addr) (net.udp_src_port udp_packet)
          (transmute_u32 ip_repr.dst_addr) (net.udp_dst_port udp_packet) (length udp_data % 2 ^ 16)
          udp_data (capacity max_udp_payload_size (length udp_data) % 2 ^ 16) s.world in
      ret (r, mem) (record s { world = w })

  unfoldable pub process_udp : Ipv4Repr → Bytes → Exec (State Frags W) Bytes
  process_udp ip_repr ip_payload = do
    udp_packet ← lift (new_checked net.udp_check_len ip_payload)
    lift (net.udp_parse udp_packet ip_repr.src_addr ip_repr.dst_addr)
    answer ← call_external_firewall ip_repr udp_packet
    assemble_udp net ip_repr udp_packet answer.0 answer.1
