-- ===== src/Fragment/Tiling.antt =====
-- The fragments that `fragment_large_udp_packet` makes tile the packet.
use rustwall.Base.{
  ℕ, zero, suc, ◌+◌, ◌-◌, ◌^◌, ◌≤◌, ◌<◌, ◌≡◌, refl, sym, ap, ◌∙◌, Bytes, true, false, List, [], ◌∷◌,
  ◌++◌, map, ltb, length, take, drop, arith, length-take, length-drop, take-append-drop, Bool-cases,
  inl, inr, ltb→lt, le→ltb, take_all, length-zero,
}
use mathlib.Core.List.{append-nil}
use rustwall.Exec.{ret}
use rustwall.Constants.{mtu_udp}
use rustwall.Smoltcp.{Smoltcp, Ipv4Address, IpLaws}
use rustwall.State.{State}
use rustwall.Slice.{slice_lem}
use rustwall.Fragment.{large_packet, choose_packet_id, fragment_large_udp_packet}
use rustwall.Fragment.Plan.{Piece, Tiles, contents}
use rustwall.Fragment.Loop.{cut, cut_more, cut_last, emitted, fragment_packet_lem, rest_lem}

pub contents-Tiles :
    (offset : ℕ) (bytes : Bytes) (ps : List Piece) → Tiles offset bytes ps → contents ps ≡ bytes
contents-Tiles offset bytes [] t = absurd t
contents-Tiles offset bytes (p ∷ []) t = append-nil p.payload ∙ t.2
contents-Tiles offset bytes (p ∷ q ∷ ps) t =
    ap (◌++◌ p.payload) (contents-Tiles (offset + mtu_udp) t.3.0 (q ∷ ps) t.3.2) ∙ sym t.3.1

Tiles-cons :
    (offset : ℕ) (bytes : Bytes) (p : Piece) (ps : List Piece)
    → p.offset ≡ offset
    → p.more ≡ true
    → length p.payload ≡ mtu_udp
    → (rest : Bytes) × (bytes ≡ p.payload ++ rest) × Tiles (offset + mtu_udp) rest ps
    → Tiles offset bytes (p ∷ ps)
Tiles-cons offset bytes p [] o m l t = absurd t.2
Tiles-cons offset bytes p (q ∷ ps) o m l t = (o, m, l, t)

pub cut-Tiles :
    (fuel offset : ℕ) (bytes : Bytes)
    → length bytes < fuel
    → Tiles offset bytes (cut fuel offset bytes)
cut-Tiles zero offset bytes h = absurd (omega arith)
cut-Tiles (suc fuel) offset bytes h = elim (Bool-cases (ltb mtu_udp (length bytes))) [
  | inl more ↦
      let full : mtu_udp < length bytes = ltb→lt mtu_udp (length bytes) more in
      rw (cut_more fuel offset bytes full) (
        Tiles-cons offset bytes _ _ refl refl (omega (arith, length-take mtu_udp bytes)) (
          drop mtu_udp bytes,
          sym (take-append-drop mtu_udp bytes),
          cut-Tiles fuel (offset + mtu_udp) (drop mtu_udp bytes)
              (omega (arith, length-drop mtu_udp bytes)),
        ))
  | inr done ↦ rw (cut_last fuel offset bytes (ground arith)) (refl, refl, refl, ground arith)
]

-- The pieces of a packet that does not stay below the MTU: a full one first, whatever is left.
unfoldable pub pieces : Bytes → List Piece
pieces bytes =
    record { offset = 0; more = true; payload = take mtu_udp bytes }
    ∷ cut (suc (length bytes)) mtu_udp (drop mtu_udp bytes)

pieces-Tiles : (bytes : Bytes) → mtu_udp ≤ length bytes → Tiles 0 bytes (pieces bytes)
unfolding pieces
pieces-Tiles bytes h = Tiles-cons 0 bytes _ _ refl refl (omega (arith, length-take mtu_udp bytes)) (
  drop mtu_udp bytes,
  sym (take-append-drop mtu_udp bytes),
  cut-Tiles (suc (length bytes)) mtu_udp (drop mtu_udp bytes)
      (omega (arith, length-drop mtu_udp bytes)),
)

module _ {Frag Frags : Type 0} (net : Smoltcp Frag Frags) (laws : IpLaws net) (udp_packet : Bytes)
    (src dst : Ipv4Address) where
  large_packet_lem :
      {S : Type 0} (id : ℕ) (s : S)
      → mtu_udp ≤ length udp_packet
      → length udp_packet < 2 ^ 16
      → large_packet net udp_packet src dst id s
        ≡ ret (map (emitted net src dst id) (pieces udp_packet)) s
  unfolding large_packet pieces
  large_packet_lem id s h k = rw (
    slice_lem udp_packet 0 mtu_udp s (omega arith) h,
    fragment_packet_lem net src dst id laws
        (record { offset = 0; more = true; payload = take mtu_udp udp_packet }) mtu_udp s
        (omega (arith, length-take mtu_udp udp_packet)) (omega arith),
    rest_lem net src dst id laws udp_packet k (suc (length udp_packet)) 0
        (length udp_packet - mtu_udp) _ s (omega arith) (omega arith),
  )

  pub fragment_large-Pieces :
      {W : Type 0} (id id' : ℕ) (s s' : State Frags W)
      → mtu_udp ≤ length udp_packet
      → length udp_packet < 2 ^ 16
      → choose_packet_id net id s ≡ ret id' s'
      → fragment_large_udp_packet net udp_packet src dst id s
        ≡ ret (map (emitted net src dst id') (pieces udp_packet)) s'
  unfolding fragment_large_udp_packet
  fragment_large-Pieces id id' s s' h k chosen =
      rw (le→ltb (length udp_packet) mtu_udp h, chosen, large_packet_lem id' s' h k)

  -- A UDP packet that is not below the MTU goes out as IPv4 packets, in order, for pieces that lie
  -- end to end over it: every piece but the last is full and announces more fragments, the last
  -- does not, and together they hold exactly the packet's bytes. The call returns whenever an
  -- identifier is to be had, and changes nothing else in the state. This holds for packets whose
  -- length fits 16 bits.
  pub fragment_large-Tiles :
      {W : Type 0} (id id' : ℕ) (s s' : State Frags W)
      → mtu_udp ≤ length udp_packet
      → length udp_packet < 2 ^ 16
      → choose_packet_id net id s ≡ ret id' s'
      → (ps : List Piece) × (fragment_large_udp_packet net udp_packet src dst id s
          ≡ ret (map (emitted net src dst id') ps) s')
        × Tiles 0 udp_packet ps
        × (contents ps ≡ udp_packet)
  fragment_large-Tiles id id' s s' h k chosen = (
    pieces udp_packet,
    fragment_large-Pieces id id' s s' h k chosen,
    pieces-Tiles udp_packet h,
    contents-Tiles 0 udp_packet (pieces udp_packet) (pieces-Tiles udp_packet h),
  )

  -- A UDP packet that fits the MTU exactly goes out as two fragments, the second with no payload.
  pub fragment_large_exact_fit :
      {W : Type 0} (id id' : ℕ) (s s' : State Frags W)
      → length udp_packet ≡ mtu_udp
      → choose_packet_id net id s ≡ ret id' s'
      → fragment_large_udp_packet net udp_packet src dst id s
        ≡ ret
            (emitted net src dst id' (record { offset = 0; more = true; payload = udp_packet })
              ∷ emitted net src dst id' (record { offset = mtu_udp; more = false; payload = [] })
              ∷ [])
            s'
  unfolding fragment_large_udp_packet pieces
  fragment_large_exact_fit id id' s s' e chosen = rw (
    le→ltb (length udp_packet) mtu_udp (omega arith),
    chosen,
    large_packet_lem id' s' (omega arith) (omega arith),
    take_all mtu_udp udp_packet (omega arith),
    length-zero (drop mtu_udp udp_packet) (omega (arith, length-drop mtu_udp udp_packet)),
    cut_last (length udp_packet) mtu_udp [] (omega arith),
  )
