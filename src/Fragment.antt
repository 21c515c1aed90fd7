-- ===== src/Fragment.antt =====
-- `fragment_large_udp_packet` of src/utils.rs: cuts a UDP packet into IPv4 packets of at most the
-- MTU. The result of `udp_packet.into_inner()` is the argument.
pub mod Plan
pub mod Loop
pub mod Tiling
pub mod Keeps
pub mod Sizes
pub mod Small
pub mod Exhausted
use rustwall.Base.{
  ℕ, zero, suc, ◌+◌, ◌-◌, Bytes, Bool, true, false, List, [], ◌∷◌, ◌++◌, ltb, ◌==◌, if◌then◌else◌,
  length, replicate,
}
use rustwall.Exec.{Exec, pure, abort, panic, hang, ◌>>=◌, ◌>>◌}
use rustwall.Constants.{mtu_udp}
use rustwall.Smoltcp.{Smoltcp, Ipv4Address, Ipv4Repr, udp}
use rustwall.State.{State, get_pseudorandom_packet_id}
use rustwall.Slice.{slice, slice_from, add_u16}

-- The variables of the loop, and the packets pushed so far.
pub record Cursor : Type 0 where
  pub start_len : ℕ
  pub end_len : ℕ
  pub fragment_offset : ℕ
  pub remaining_len : ℕ
  pub ipv4_packet_buffer : List Bytes

module _ {Frag Frags : Type 0} (net : Smoltcp Frag Frags) where
  abbrev pub udp_repr_of : Ipv4Address → Ipv4Address → ℕ → Ipv4Repr
  udp_repr_of src dst len = record {
    src_addr = src;
    dst_addr = dst;
    protocol = udp;
    payload_len = len;
    hop_limit = 64;
  }

  -- `Ipv4Packet::new(vec![0; ip_repr.buffer_len() + len])`, then `ip_repr.emit`.
  abbrev pub blank_packet : Ipv4Address → Ipv4Address → ℕ → Bytes
  blank_packet src dst len =
      net.ip_emit (udp_repr_of src dst len)
        (replicate (net.ip_buffer_len (udp_repr_of src dst len) + len) 0)

  -- `ip_packet.payload_mut().copy_from_slice(bytes)`, which panics if the lengths differ.
  unfoldable pub copy_to_payload : {S : Type 0} → Bytes → Bytes → Exec S Bytes
  copy_to_payload packet bytes =
      if length (net.ip_payload packet) == length bytes
      then pure (net.ip_set_payload packet bytes)
      else abort panic

  -- The setters of a fragment, after its payload is in place.
  abbrev pub mark_fragment : ℕ → ℕ → Bool → Bytes → Bytes
  mark_fragment id offset more packet = net.ip_fill_checksum (
      net.ip_set_dont_frag false
        (net.ip_set_more_frags more (net.ip_set_frag_offset offset (net.ip_set_ident id packet))))

  -- One fragment: the body that the first, the middle and the last packet share.
  unfoldable pub fragment_packet :
      {S : Type 0} → Ipv4Address → Ipv4Address → ℕ → ℕ → ℕ → Bool → Bytes → Exec S Bytes
  fragment_packet src dst id len offset more bytes = do
    packet ← copy_to_payload (blank_packet src dst len) bytes
    pure (mark_fragment id offset more packet)

  -- `while remaining_len > MTU_UDP`
  unfoldable pub middle_packets :
      {S : Type 0} → Bytes → Ipv4Address → Ipv4Address → ℕ → ℕ → Cursor → Exec S Cursor
  middle_packets udp_packet src dst id zero c = abort hang
  middle_packets udp_packet src dst id (suc fuel) c =
      if ltb mtu_udp c.remaining_len
      then (do
        offset ← add_u16 c.fragment_offset mtu_udp
        bytes ← slice udp_packet (c.start_len + mtu_udp) (c.end_len + mtu_udp)
        packet ← fragment_packet src dst id mtu_udp offset true bytes
        middle_packets udp_packet src dst id fuel (record {
          start_len = c.start_len + mtu_udp;
          end_len = c.end_len + mtu_udp;
          fragment_offset = offset;
          remaining_len = c.remaining_len - mtu_udp;
          ipv4_packet_buffer = c.ipv4_packet_buffer ++ packet ∷ [];
        }))
      else pure c

  unfoldable pub last_packet :
      {S : Type 0} → Bytes → Ipv4Address → Ipv4Address → ℕ → Cursor → Exec S (List Bytes)
  last_packet udp_packet src dst id c = do
    offset ← add_u16 c.fragment_offset mtu_udp
    bytes ← slice_from udp_packet (c.start_len + mtu_udp)
    packet ← fragment_packet src dst id c.remaining_len offset false bytes
    pure (c.ipv4_packet_buffer ++ packet ∷ [])

  -- The branch of a packet below the MTU: one packet, not marked as a fragment.
  unfoldable pub small_packet :
      {S : Type 0} → Bytes → Ipv4Address → Ipv4Address → ℕ → Exec S (List Bytes)
  small_packet udp_packet src dst id = do
    packet ←
        copy_to_payload (net.ip_set_ident id (blank_packet src dst (length udp_packet))) udp_packet
    pure (net.ip_fill_checksum packet ∷ [])

  -- The branch of all other packets. The loop ends before its rounds do: each takes MTU_UDP bytes.
  unfoldable pub large_packet :
      {S : Type 0} → Bytes → Ipv4Address → Ipv4Address → ℕ → Exec S (List Bytes)
  large_packet udp_packet src dst id = do
    bytes ← slice udp_packet 0 mtu_udp
    packet ← fragment_packet src dst id mtu_udp 0 true bytes
    c ← middle_packets udp_packet src dst id (suc (length udp_packet)) (record {
      start_len = 0;
      end_len = mtu_udp;
      fragment_offset = 0;
      remaining_len = length udp_packet - mtu_udp;
      ipv4_packet_buffer = packet ∷ [];
    })
    last_packet udp_packet src dst id c

  unfoldable pub choose_packet_id : {W : Type 0} → ℕ → Exec (State Frags W) ℕ
  choose_packet_id id = if id == 0 then get_pseudorandom_packet_id else pure id

  unfoldable pub fragment_large_udp_packet :
      {W : Type 0} → Bytes → Ipv4Address → Ipv4Address → ℕ → Exec (State Frags W) (List Bytes)
  fragment_large_udp_packet udp_packet src dst id =
      if ltb (length udp_packet) mtu_udp
      then small_packet udp_packet src dst id
      else (do id' ← choose_packet_id id; large_packet udp_packet src dst id')
