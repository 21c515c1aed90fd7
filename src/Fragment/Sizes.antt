-- ===== src/Fragment/Sizes.antt =====
-- The packets that `fragment_large_udp_packet` returns: at least one, and none above the MTU.
use rustwall.Base.{
  ℕ, zero, suc, ◌+◌, ◌-◌, ◌≤◌, ◌<◌, ◌≡◌, subst, sym, ap, ◌∙◌, Bytes, Bool, true, false, List, [],
  ◌∷◌, ◌++◌, All, All-append, length, replicate, length-replicate, arith, Bool-cases, inl, inr, ltb,
}
use rustwall.Exec.{ret}
use rustwall.Exec.Inversion.{continue-eq-ret, ret-value}
use rustwall.Constants.{mtu, mtu_udp}
use rustwall.Smoltcp.{Smoltcp, LengthLaws, Ipv4Address}
use rustwall.State.{State}
use rustwall.Slice.{slice, slice_from, add_u16}
use rustwall.Fragment.{
  Cursor, udp_repr_of, blank_packet, copy_to_payload, mark_fragment, fragment_packet,
  middle_packets, last_packet, small_packet, large_packet, choose_packet_id,
  fragment_large_udp_packet,
}

-- No packet is above the MTU.
abbrev pub FitsMtu : List Bytes → Type 0
FitsMtu packets = All (λ p. length p ≤ mtu) packets

-- A packet that ends the list.
abbrev pub Ended : List Bytes → Type 0
Ended packets = (before : List Bytes) × (p : Bytes) × (packets ≡ before ++ p ∷ [])

module _ {Frag Frags : Type 0} (net : Smoltcp Frag Frags) (laws : LengthLaws net) where
  length-blank :
      (src dst : Ipv4Address) (len : ℕ) → length (blank_packet net src dst len) ≡ 20 + len
  length-blank src dst len =
      let r = udp_repr_of net src dst len in
      omega (
        arith,
        laws.header r,
        length-replicate {A = ℕ} (net.ip_buffer_len r + len) 0,
        laws.emit r (replicate (net.ip_buffer_len r + len) 0)
            (omega (arith, length-replicate {A = ℕ} (net.ip_buffer_len r + len) 0)),
      )

  length-mark :
      (id offset : ℕ) (more : Bool) (p : Bytes)
      → length (mark_fragment net id offset more p) ≡ length p
  length-mark id offset more p =
      simp (laws.checksum, laws.dont_frag, laws.more_frags, laws.frag_offset, laws.ident)

  length-copy :
      {S : Type 0} (packet bytes : Bytes) (s t : S) {p : Bytes}
      → copy_to_payload net packet bytes s ≡ ret p t
      → length p ≡ length packet
  unfolding copy_to_payload
  length-copy packet bytes s t e = ground (arith, laws.payload packet bytes)

  length-fragment :
      {S : Type 0} (src dst : Ipv4Address) (id len offset : ℕ) (more : Bool) (bytes : Bytes)
      (s t : S) {p : Bytes}
      → fragment_packet net src dst id len offset more bytes s ≡ ret p t
      → length p ≡ 20 + len
  unfolding fragment_packet
  length-fragment src dst id len offset more bytes s t e =
      let (q, u, copied, e1) =
        continue-eq-ret (copy_to_payload net (blank_packet net src dst len) bytes s) _ e in
      ap length (sym (ret-value e1))
      ∙ length-mark id offset more q
      ∙ length-copy (blank_packet net src dst len) bytes s u copied
      ∙ length-blank src dst len

  small-FitsMtu :
      {S : Type 0} (udp_packet : Bytes) (src dst : Ipv4Address) (id : ℕ) (s t : S)
      {packets : List Bytes}
      → length udp_packet < mtu_udp
      → small_packet net udp_packet src dst id s ≡ ret packets t
      → FitsMtu packets × Ended packets
  unfolding small_packet
  small-FitsMtu udp_packet src dst id s t {packets} h e =
      let blank : Bytes = blank_packet net src dst (length udp_packet) in
      let (q, u, copied, e1) =
        continue-eq-ret (copy_to_payload net (net.ip_set_ident id blank) udp_packet s) _ e in
      let size : length q ≡ 20 + length udp_packet =
        length-copy (net.ip_set_ident id blank) udp_packet s u copied
        ∙ laws.ident id blank
        ∙ length-blank src dst (length udp_packet) in
      (
        subst FitsMtu (ret-value e1) (omega (arith, laws.checksum q, size), tt),
        ([], net.ip_fill_checksum q, sym (ret-value e1)),
      )

  one-FitsMtu :
      (packets : List Bytes) (p : Bytes)
      → FitsMtu packets
      → length p ≤ mtu
      → FitsMtu (packets ++ p ∷ [])
  one-FitsMtu packets p h k = All-append (λ q. length q ≤ mtu) packets (p ∷ []) h (k, tt)

  middle-FitsMtu :
      {S : Type 0} (udp_packet : Bytes) (src dst : Ipv4Address) (id fuel : ℕ) (c c' : Cursor)
      (s t : S)
      → FitsMtu c.ipv4_packet_buffer
      → middle_packets net udp_packet src dst id fuel c s ≡ ret c' t
      → FitsMtu c'.ipv4_packet_buffer × (c'.remaining_len ≤ mtu_udp)
  unfolding middle_packets
  middle-FitsMtu udp_packet src dst id zero c c' s t h e = cc
  middle-FitsMtu udp_packet src dst id (suc fuel) c c' s t h e =
      elim (Bool-cases (ltb mtu_udp c.remaining_len)) [
        | inl more ↦
            let (offset, u1, _, e1) =
              continue-eq-ret (add_u16 c.fragment_offset mtu_udp s) _ (rw more at e) in
            let (bytes, u2, _, e2) =
              continue-eq-ret (slice udp_packet (c.start_len + mtu_udp) (c.end_len + mtu_udp) u1) _
                e1 in
            let (p, u3, made, e3) =
              continue-eq-ret (fragment_packet net src dst id mtu_udp offset true bytes u2) _ e2 in
            middle-FitsMtu udp_packet src dst id fuel _ c' u3 t
              (one-FitsMtu c.ipv4_packet_buffer p h
                (omega (arith, length-fragment src dst id mtu_udp offset true bytes u2 u3 made)))
              e3
        | inr done ↦
            let same : c ≡ c' = ret-value (rw done at e) in
            subst (λ (x : Cursor). FitsMtu x.ipv4_packet_buffer × (x.remaining_len ≤ mtu_udp)) same
              (h, ground arith)
      ]

  last-FitsMtu :
      {S : Type 0} (udp_packet : Bytes) (src dst : Ipv4Address) (id : ℕ) (c : Cursor) (s t : S)
      {packets : List Bytes}
      → FitsMtu c.ipv4_packet_buffer
      → c.remaining_len ≤ mtu_udp
      → last_packet net udp_packet src dst id c s ≡ ret packets t
      → FitsMtu packets × Ended packets
  unfolding last_packet
  last-FitsMtu udp_packet src dst id c s t h k e =
      let (offset, u1, _, e1) = continue-eq-ret (add_u16 c.fragment_offset mtu_udp s) _ e in
      let (bytes, u2, _, e2) =
        continue-eq-ret (slice_from udp_packet (c.start_len + mtu_udp) u1) _ e1 in
      let (p, u3, made, e3) =
        continue-eq-ret (fragment_packet net src dst id c.remaining_len offset false bytes u2) _
          e2 in
      let size : length p ≤ mtu =
        omega (arith, length-fragment src dst id c.remaining_len offset false bytes u2 u3 made) in
      (
        subst FitsMtu (ret-value e3) (one-FitsMtu c.ipv4_packet_buffer p h size),
        (c.ipv4_packet_buffer, p, sym (ret-value e3)),
      )

  large-FitsMtu :
      {S : Type 0} (udp_packet : Bytes) (src dst : Ipv4Address) (id : ℕ) (s t : S)
      {packets : List Bytes}
      → large_packet net udp_packet src dst id s ≡ ret packets t
      → FitsMtu packets × Ended packets
  unfolding large_packet
  large-FitsMtu udp_packet src dst id s t e =
      let (bytes, u1, _, e1) = continue-eq-ret (slice udp_packet 0 mtu_udp s) _ e in
      let (p, u2, made, e2) =
        continue-eq-ret (fragment_packet net src dst id mtu_udp 0 true bytes u1) _ e1 in
      let first : Cursor = record {
        start_len = 0;
        end_len = mtu_udp;
        fragment_offset = 0;
        remaining_len = length udp_packet - mtu_udp;
        ipv4_packet_buffer = p ∷ [];
      } in
      let (c, u3, looped, e3) =
        continue-eq-ret
          (middle_packets net udp_packet src dst id (suc (length udp_packet)) first u2) _ e2 in
      let size : length p ≤ mtu =
        omega (arith, length-fragment src dst id mtu_udp 0 true bytes u1 u2 made) in
      let (fits, short) =
        middle-FitsMtu udp_packet src dst id (suc (length udp_packet)) first c u2 u3 (size, tt)
          looped in
      last-FitsMtu udp_packet src dst id c u3 t fits short e3

  -- The packets that `fragment_large_udp_packet` returns, for a datagram of any length: there is
  -- one at least, and none is longer than the MTU.
  pub fragment_large-FitsMtu :
      {W : Type 0} (udp_packet : Bytes) (src dst : Ipv4Address) (id : ℕ) (s t : State Frags W)
      (packets : List Bytes)
      → fragment_large_udp_packet net udp_packet src dst id s ≡ ret packets t
      → FitsMtu packets × Ended packets
  unfolding fragment_large_udp_packet
  fragment_large-FitsMtu udp_packet src dst id s t packets e =
      elim (Bool-cases (ltb (length udp_packet) mtu_udp)) [
        | inl small ↦ small-FitsMtu udp_packet src dst id s t (ground arith) (rw small at e)
        | inr large ↦
            let (id', u, _, e1) = continue-eq-ret (choose_packet_id net id s) _ (rw large at e) in
            large-FitsMtu udp_packet src dst id' u t e1
      ]
