-- ===== src/Fragment/Loop.antt =====
-- The loop of `fragment_large_udp_packet` against a cut of the bytes that knows no indices.
use rustwall.Base.{
  ℕ, zero, suc, ◌+◌, ◌-◌, ◌^◌, ◌≤◌, ◌<◌, ◌≡◌, Bytes, true, false, List, [], ◌∷◌, ◌++◌, map, ltb,
  if◌then◌else◌, length, take, drop, arith, length-take, length-drop, drop-drop, Bool-cases, inl,
  inr, lt→ltb, ltb→lt, le→ltb,
}
use mathlib.Core.List.{append_assoc}
use rustwall.Exec.{ret, continue}
use rustwall.Constants.{mtu_udp}
use rustwall.Smoltcp.{Smoltcp, Ipv4Address, IpLaws}
use rustwall.Slice.{slice_lem, slice_from_lem, add_u16_lem}
use rustwall.Fragment.{
  Cursor, blank_packet, udp_repr_of, mark_fragment, copy_to_payload, fragment_packet,
  middle_packets, last_packet,
}
use rustwall.Fragment.Plan.{Piece}

-- Full pieces while more than the MTU is left, then the rest.
unfoldable pub cut : ℕ → ℕ → Bytes → List Piece
cut zero offset bytes = record { offset = offset; more = false; payload = bytes } ∷ []
cut (suc fuel) offset bytes =
    let rest = cut fuel (offset + mtu_udp) (drop mtu_udp bytes) in
    if ltb mtu_udp (length bytes)
    then record { offset = offset; more = true; payload = take mtu_udp bytes } ∷ rest
    else record { offset = offset; more = false; payload = bytes } ∷ []

pub cut_more :
    (fuel offset : ℕ) (bytes : Bytes)
    → mtu_udp < length bytes
    → cut (suc fuel) offset bytes
      ≡ record { offset = offset; more = true; payload = take mtu_udp bytes }
        ∷ cut fuel (offset + mtu_udp) (drop mtu_udp bytes)
unfolding cut
cut_more fuel offset bytes h = rw (lt→ltb mtu_udp (length bytes) h)

pub cut_last :
    (fuel offset : ℕ) (bytes : Bytes)
    → length bytes ≤ mtu_udp
    → cut (suc fuel) offset bytes ≡ record { offset = offset; more = false; payload = bytes } ∷ []
unfolding cut
cut_last fuel offset bytes h = rw (le→ltb mtu_udp (length bytes) h)

-- The loop's variables when `start` bytes are behind it.
abbrev cursor : ℕ → ℕ → List Bytes → Cursor
cursor start rem done = record {
  start_len = start;
  end_len = start + mtu_udp;
  fragment_offset = start;
  remaining_len = rem;
  ipv4_packet_buffer = done;
}

-- The bytes that are not yet in a packet, and the next full piece of them.
abbrev ahead : Bytes → ℕ → Bytes
ahead udp_packet start = drop (start + mtu_udp) udp_packet

abbrev middle_piece : Bytes → ℕ → Piece
middle_piece udp_packet start = record {
  offset = start + mtu_udp;
  more = true;
  payload = take mtu_udp (ahead udp_packet start);
}

abbrev last_piece : Bytes → ℕ → Piece
last_piece udp_packet start = record {
  offset = start + mtu_udp;
  more = false;
  payload = ahead udp_packet start;
}

module _ {Frag Frags : Type 0} (net : Smoltcp Frag Frags) (src dst : Ipv4Address) (id : ℕ) where
  -- The packet that carries a piece.
  abbrev pub emitted : Piece → Bytes
  emitted p =
      mark_fragment net id p.offset p.more
        (net.ip_set_payload (blank_packet net src dst (length p.payload)) p.payload)

  module _ (laws : IpLaws net) {S : Type 0} where
    pub fragment_packet_lem :
        (p : Piece) (len : ℕ) (s : S)
        → length p.payload ≡ len
        → len ≤ mtu_udp
        → fragment_packet net src dst id len p.offset p.more p.payload s ≡ ret (emitted p) s
    unfolding fragment_packet copy_to_payload
    fragment_packet_lem p len s e h =
        ground (arith, laws.emit_payload (udp_repr_of net src dst len))

    module _ (udp_packet : Bytes) (fits : length udp_packet < 2 ^ 16) where
      last_packet_lem :
          (start rem : ℕ) (done : List Bytes) (s : S)
          → start + mtu_udp + rem ≡ length udp_packet
          → rem ≤ mtu_udp
          → last_packet net udp_packet src dst id (cursor start rem done) s
            ≡ ret (done ++ emitted (last_piece udp_packet start) ∷ []) s
      unfolding last_packet
      last_packet_lem start rem done s e h = rw (
        add_u16_lem start mtu_udp s (omega arith),
        slice_from_lem udp_packet (start + mtu_udp) s (omega arith),
        fragment_packet_lem (last_piece udp_packet start) rem s
            (omega (arith, length-drop (start + mtu_udp) udp_packet)) h,
      )

      stop_lem :
          (fuel start rem : ℕ) (done : List Bytes) (s : S)
          → ltb mtu_udp rem ≡ false
          → middle_packets net udp_packet src dst id (suc fuel) (cursor start rem done) s
            ≡ ret (cursor start rem done) s
      unfolding middle_packets
      stop_lem fuel start rem done s h = rw h

      round_lem :
          (fuel start rem : ℕ) (done : List Bytes) (s : S)
          → start + mtu_udp + rem ≡ length udp_packet
          → mtu_udp < rem
          → middle_packets net udp_packet src dst id (suc fuel) (cursor start rem done) s
            ≡ middle_packets net udp_packet src dst id fuel
                (cursor
                  (start + mtu_udp)
                  (rem - mtu_udp)
                  (done ++ emitted (middle_piece udp_packet start) ∷ []))
                s
      unfolding middle_packets
      round_lem fuel start rem done s e h = rw (
        lt→ltb mtu_udp rem h,
        add_u16_lem start mtu_udp s (omega arith),
        slice_lem udp_packet (start + mtu_udp) (start + mtu_udp + mtu_udp) s (omega arith)
            (omega arith),
        width start,
        fragment_packet_lem (middle_piece udp_packet start) mtu_udp s
            (omega (
              arith,
              length-take mtu_udp (ahead udp_packet start),
              length-drop (start + mtu_udp) udp_packet,
            ))
            (omega arith),
      )
        where
          width : (n : ℕ) → n + mtu_udp + mtu_udp - (n + mtu_udp) ≡ mtu_udp
          width n = omega arith

      -- With a round for each byte left, the loop and the last packet carry the cut of what is ahead.
      pub rest_lem :
          (fuel start rem : ℕ) (done : List Bytes) (s : S)
          → start + mtu_udp + rem ≡ length udp_packet
          → rem < fuel
          → continue
              (middle_packets net udp_packet src dst id fuel (cursor start rem done) s)
              (last_packet net udp_packet src dst id)
            ≡ ret (done ++ map emitted (cut fuel (start + mtu_udp) (ahead udp_packet start))) s
      rest_lem zero start rem done s e h = absurd (omega arith)
      rest_lem (suc fuel) start rem done s e h = elim (Bool-cases (ltb mtu_udp rem)) [
        | inl more ↦
            let full : mtu_udp < rem = ltb→lt mtu_udp rem more in
            rw (
              round_lem fuel start rem done s e full,
              rest_lem fuel (start + mtu_udp) (rem - mtu_udp)
                  (done ++ emitted (middle_piece udp_packet start) ∷ []) s (omega arith)
                  (omega arith),
              append_assoc,
              cut_more fuel (start + mtu_udp) (ahead udp_packet start)
                  (omega (arith, length-drop (start + mtu_udp) udp_packet)),
              drop-drop mtu_udp (start + mtu_udp) udp_packet,
            )
        | inr done_now ↦ rw (
          stop_lem fuel start rem done s done_now,
          last_packet_lem start rem done s e (ground arith),
          cut_last fuel (start + mtu_udp) (ahead udp_packet start)
              (ground (arith, length-drop (start + mtu_udp) udp_packet)),
        )
      ]
