-- ===== src/Reassembly/RoundTrip.antt =====
-- The fragments that `fragment_large_udp_packet` makes, given to `process_ipv4_fragment`.
use rustwall.Base.{
  ℕ, suc, ◌+◌, ◌%◌, ◌^◌, ◌<◌, ◌≤◌, ◌≡◌, refl, sym, ap, ◌∙◌, subst, Bytes, true, none, some, List,
  [], ◌∷◌, ◌++◌, map, length, length-append, take, drop, length-take, length-drop, take-append-drop,
  arith,
}
use rustwall.Exec.{ret, ok}
use rustwall.Constants.{mtu_udp, ipv4_header_size, max_reassembled_fragment_size}
use rustwall.Smoltcp.{Smoltcp, Ipv4Address, IpLaws}
use rustwall.Fragment.Plan.{Piece, Tiles}
use rustwall.Reassembly.Slots.{whole}
use mathlib.Core.List.{append_assoc}
use rustwall.State.{State}
use rustwall.Fragment.{choose_packet_id, fragment_large_udp_packet}
use rustwall.Fragment.Loop.{cut, emitted}
use rustwall.Fragment.Tiling.{pieces, cut-Tiles, fragment_large-Pieces}
use rustwall.Reassembly.Feed.{feed, feed_last, feed_more, answers_of}
use rustwall.Reassembly.SetLaws.{Carries, SlotLaws, finished}
use rustwall.Reassembly.InOrder.{first_lem, next_lem, last_lem}

-- A piece that a fragment can carry.
pub record IsPiece (p : Piece) : Type 0 where
  pub aligned : p.offset % 8 ≡ 0
  pub fits : p.offset + length p.payload < 2 ^ 16
  pub short : length p.payload ≤ mtu_udp

module _ {Frag Frags : Type 0} (net : Smoltcp Frag Frags) (id : ℕ) (src dst : Ipv4Address)
    (Has : ℕ → Frags → Frag → Type 0) (Holds : ℕ → Frag → Bytes → Bytes → Type 0)
    (laws : SlotLaws net id src dst Has Holds) (emit : Piece → Bytes)
    (carried : (p : Piece) → IsPiece p → Carries net id src dst p (emit p)) where
  rest_lem :
      (ps : List Piece) (offset ts : ℕ) (bytes header content : Bytes) (set : Frags) (f : Frag)
      → Tiles offset bytes ps
      → Has ts set f
      → Holds ts f header content
      → offset ≡ length content
      → offset % 8 ≡ 0
      → length header ≡ ipv4_header_size
      → ipv4_header_size + (offset + length bytes) ≤ max_reassembled_fragment_size
      → net.ip_check_len (header ++ (content ++ bytes)) ≡ ok tt
      → (set' : Frags) × (feed net ts (map emit ps) set
          ≡ ret (answers_of (finished net (header ++ (content ++ bytes))) (map emit ps)) set')
  rest_lem [] offset ts bytes header content set f t has holds len aligned header_size fits
        checked =
      absurd t
  rest_lem (p ∷ []) offset ts bytes header content set f (at, last, same, short) has holds len
        aligned header_size fits checked =
      let c : Carries net id src dst p (emit p) = carried p (record {
        aligned = rw at aligned;
        fits = omega (arith, at, ap length same);
        short = omega (arith, ap length same);
      }) in
      let payload : net.ip_payload (emit p) ≡ bytes = c.payload ∙ same in
      let (set', e) =
        last_lem net id src dst Has Holds laws p (emit p) ts set f header content c has holds
          (at ∙ len) last header_size
          (omega (
            arith,
            header_size,
            len,
            ap length payload,
            length-append header (content ++ net.ip_payload (emit p)),
            length-append content (net.ip_payload (emit p)),
          ))
          (rw payload checked) in
      (
        set',
        feed_last net (emit p) ts set set' _
            (e ∙ ap (λ b. ret (some (finished net (header ++ (content ++ b)))) set') payload),
      )
  rest_lem (p ∷ q ∷ ps) offset ts bytes header content set f (at, more, size, (rest, split, t)) has
        holds len aligned header_size fits checked =
      let parts : length bytes ≡ length p.payload + length rest =
        ap length split ∙ length-append p.payload rest in
      let c : Carries net id src dst p (emit p) = carried p (record {
        aligned = rw at aligned;
        fits = omega (arith, at, parts);
        short = omega (arith, size);
      }) in
      let (set1, g, e, has1, holds1) =
        next_lem net id src dst Has Holds laws p (emit p) ts set f header content c has holds
          (at ∙ len) more header_size
          (omega (
            arith,
            header_size,
            len,
            parts,
            ap length c.payload,
            length-append header (content ++ net.ip_payload (emit p)),
            length-append content (net.ip_payload (emit p)),
          )) in
      let joined : (content ++ p.payload) ++ rest ≡ content ++ bytes =
        append_assoc content p.payload rest ∙ ap (λ b. content ++ b) (sym split) in
      let (set', e') =
        rest_lem (q ∷ ps) (offset + mtu_udp) (suc ts) rest header (content ++ p.payload) set1 g t
          has1 (subst (λ b. Holds (suc ts) g header (content ++ b)) c.payload holds1)
          (omega (arith, len, size, length-append content p.payload)) (omega (arith, aligned))
          header_size (omega (arith, parts, size)) (rw joined checked) in
      (
        set',
        feed_more net (emit p) (map emit (q ∷ ps)) ts set set1 set' _ e (
            e'
            ∙ ap (λ b. ret (answers_of (finished net (header ++ b)) (map emit (q ∷ ps))) set')
                joined),
      )

  -- The first piece, and all that is left.
  pieces_lem :
      (ts : ℕ) (bytes : Bytes) (set : Frags) (f : Frag) (p : Piece) (ps : List Piece)
      → p.offset ≡ 0
      → p.more ≡ true
      → p.payload ≡ take mtu_udp bytes
      → Tiles mtu_udp (drop mtu_udp bytes) ps
      → mtu_udp ≤ length bytes
      → ipv4_header_size + length bytes ≤ max_reassembled_fragment_size
      → Has ts set f
      → net.is_empty f ≡ true
      → net.ip_check_len (take (net.ip_header_len (emit p)) (emit p) ++ bytes) ≡ ok tt
      → (set' : Frags) × (feed net ts (map emit (p ∷ ps)) set
          ≡ ret
              (none
                ∷ answers_of
                    (finished net (take (net.ip_header_len (emit p)) (emit p) ++ bytes))
                    (map emit ps))
              set')
  pieces_lem ts bytes set f p ps at more same t large fits has empty checked =
      let size : length p.payload ≡ mtu_udp =
        omega (arith, ap length same, length-take mtu_udp bytes) in
      let c : Carries net id src dst p (emit p) = carried p (record {
        aligned = rw at refl;
        fits = omega (arith, at, size);
        short = omega (arith, size);
      }) in
      let (set1, g, e, has1, holds1) =
        first_lem net id src dst Has Holds laws p (emit p) ts set f c has empty at more
          (omega (arith, size, fits, large)) in
      let joined : take mtu_udp bytes ++ drop mtu_udp bytes ≡ bytes =
        take-append-drop mtu_udp bytes in
      let header : Bytes = take (net.ip_header_len (emit p)) (emit p) in
      let (set', e') =
        rest_lem ps mtu_udp (suc ts) (drop mtu_udp bytes) header (take mtu_udp bytes) set1 g t has1
          (subst (Holds (suc ts) g header) (c.payload ∙ same) holds1)
          (omega (arith, length-take mtu_udp bytes)) (omega arith)
          (omega
            (arith, length-take (net.ip_header_len (emit p)) (emit p), c.header_len, c.has_header))
          (omega (arith, length-drop mtu_udp bytes))
          (subst (λ b. net.ip_check_len (header ++ b) ≡ ok tt) (sym joined) checked) in
      (
        set',
        feed_more net (emit p) (map emit ps) ts set set1 set' _ e (
            e' ∙ ap (λ b. ret (answers_of (finished net (header ++ b)) (map emit ps)) set') joined),
      )

more_answers :
    (whole : Bytes) (emit : Piece → Bytes) (offset : ℕ) (bytes first : Bytes) (ps : List Piece)
    → Tiles offset bytes ps
    → none ∷ answers_of whole (map emit ps) ≡ answers_of whole (first ∷ map emit ps)
more_answers whole emit offset bytes first [] t = absurd t
more_answers whole emit offset bytes first (p ∷ ps) t = refl

module _ {Frag Frags : Type 0} (net : Smoltcp Frag Frags) (id : ℕ) (src dst : Ipv4Address)
    (udp_packet : Bytes) where
  -- The first fragment, and its header.
  abbrev pub first_fragment : Bytes
  first_fragment =
      emitted net src dst id (record { offset = 0; more = true; payload = take mtu_udp udp_packet })

  abbrev pub first_header : Bytes
  first_header = take (net.ip_header_len first_fragment) first_fragment

  -- Any datagram that is not below the MTU and, with its header, within
  -- MAX_REASSEMBLED_FRAGMENT_SIZE comes back whole: when the packets that
  -- `fragment_large_udp_packet` makes of it are given to `process_ipv4_fragment` in their order, one
  -- tick of the clock after the other, with an empty slot in the set for them, the last one and no
  -- other is answered with a packet, which is the header of the first, with the length and the
  -- checksum of the whole, and then the bytes of the datagram. This holds for smoltcp keeping to
  -- `IpLaws` and `SlotLaws`, with the header fields of a fragment read as they were set, and the
  -- first header fit for the whole.
  pub fragments-Reassemble :
      {W : Type 0} (Has : ℕ → Frags → Frag → Type 0) (Holds : ℕ → Frag → Bytes → Bytes → Type 0)
      (ip_laws : IpLaws net) (laws : SlotLaws net id src dst Has Holds) (given ts : ℕ)
      (s s' : State Frags W) (set : Frags) (f : Frag)
      → ((p : Piece) → IsPiece p → Carries net id src dst p (emitted net src dst id p))
      → mtu_udp ≤ length udp_packet
      → ipv4_header_size + length udp_packet ≤ max_reassembled_fragment_size
      → choose_packet_id net given s ≡ ret id s'
      → Has ts set f
      → net.is_empty f ≡ true
      → net.ip_check_len (first_header ++ udp_packet) ≡ ok tt
      → (packets : List Bytes) × (fragment_large_udp_packet net udp_packet src dst given s
          ≡ ret packets s')
        × ((set' : Frags) × (feed net ts packets set
              ≡ ret (answers_of (finished net (first_header ++ udp_packet)) packets) set'))
  unfolding pieces
  fragments-Reassemble Has Holds ip_laws laws given ts s s' set f carried large fits chosen has
        empty checked =
      let tail : List Piece = cut (suc (length udp_packet)) mtu_udp (drop mtu_udp udp_packet) in
      let tiles : Tiles mtu_udp (drop mtu_udp udp_packet) tail =
        cut-Tiles (suc (length udp_packet)) mtu_udp (drop mtu_udp udp_packet)
          (omega (arith, length-drop mtu_udp udp_packet)) in
      let (set', e) =
        pieces_lem net id src dst Has Holds laws (emitted net src dst id) carried ts udp_packet set
          f (record { offset = 0; more = true; payload = take mtu_udp udp_packet }) tail refl refl
          refl tiles large fits has empty checked in
      (
        map (emitted net src dst id) (pieces udp_packet),
        fragment_large-Pieces net ip_laws udp_packet src dst given id s s' large
            (omega (arith, fits)) chosen,
        (
          set',
          e
              ∙ ap (λ a. ret a set')
                  (more_answers (finished net (first_header ++ udp_packet)) (emitted net src dst id)
                    mtu_udp (drop mtu_udp udp_packet) first_fragment tail tiles),
        ),
      )
