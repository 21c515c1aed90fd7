-- ===== src/Reassembly/InOrder.antt =====
-- `process_ipv4_fragment` on the next fragment of a packet whose first ones the set holds.
use rustwall.Base.{
  ℕ, suc, ◌+◌, ◌≤◌, ◌%◌, ◌^◌, ◌≡◌, refl, sym, ap, ◌∙◌, subst, Bytes, true, false, none, some, ◌++◌,
  length, take, ◌==◌, if◌then◌else◌, arith,
}
use rustwall.Exec.{ret, crash, panic, ok}
use rustwall.Constants.{ipv4_header_size, max_reassembled_fragment_size}
use rustwall.Smoltcp.{Smoltcp, Borrow, Ipv4Address}
use rustwall.Fragment.Plan.{Piece}
use rustwall.Reassembly.{give_back, assemble, use_fragment, process_ipv4_fragment}
use rustwall.Reassembly.Slots.{slot_for, adding, whole, header_set, taken_lem, found_lem}
use rustwall.Reassembly.SetLaws.{Carries, SlotLaws, finished}

module _ {Frag Frags : Type 0} (net : Smoltcp Frag Frags) (id : ℕ) (src dst : Ipv4Address)
    (Has : ℕ → Frags → Frag → Type 0) (Holds : ℕ → Frag → Bytes → Bytes → Type 0)
    (laws : SlotLaws net id src dst Has Holds) where
  process_lem :
      (piece : Piece) (packet : Bytes) (ts : ℕ) (set : Frags) (f : Frag)
      → Carries net id src dst piece packet
      → Has ts set f
      → (slot : Borrow Frag Frags) × (process_ipv4_fragment net packet ts set
          ≡ give_back slot.give_back (use_fragment net packet ts f))
        × ((g : Frag) (header content : Bytes)
            → Holds (suc ts) g header content
            → Has (suc ts) (slot.give_back g) g)
  process_lem piece packet ts set f c h =
      let (slot, e, same, has) = laws.found set f ts h in
      (
        slot,
        found_lem net packet ts set slot (rw (c.ident, c.src_addr, c.dst_addr, slot_for) e)
            ∙ ap (λ x. give_back slot.give_back (use_fragment net packet ts x)) same,
        has,
      )

  use_lem :
      (packet : Bytes) (ts : ℕ) (f g : Frag)
      → adding net packet ts f ≡ (ok tt, g)
      → use_fragment net packet ts f ≡ assemble net g
  use_lem packet ts f g e =
      taken_lem net packet ts f (ap (λ a. a.0) e) ∙ ap (λ a. assemble net a.1) e

  partial_lem : (g : Frag) → net.check_contig_range g ≡ false → assemble net g ≡ ret none g
  unfolding assemble
  partial_lem g e = rw e refl

  -- A fragment with more behind it.
  abbrev pub Taken : Bytes → ℕ → Frags → Bytes → Bytes → Type 0
  Taken packet ts set header content =
      (set' : Frags) × (g : Frag) × (process_ipv4_fragment net packet ts set ≡ ret none set')
      × Has (suc ts) set' g
      × Holds (suc ts) g header content

  taken :
      (piece : Piece) (packet : Bytes) (ts : ℕ) (set : Frags) (f g : Frag) (header content : Bytes)
      → Carries net id src dst piece packet
      → Has ts set f
      → adding net packet ts f ≡ (ok tt, g)
      → Holds (suc ts) g header content
      → net.check_contig_range g ≡ false
      → Taken packet ts set header content
  taken piece packet ts set f g header content c h e holds partial =
      let (slot, processed, has) = process_lem piece packet ts set f c h in
      (
        slot.give_back g,
        g,
        processed ∙ ap (give_back slot.give_back) (use_lem packet ts f g e ∙ partial_lem g partial),
        has g header content holds,
        holds,
      )

  pub first_lem :
      (piece : Piece) (packet : Bytes) (ts : ℕ) (set : Frags) (f : Frag)
      → Carries net id src dst piece packet
      → Has ts set f
      → net.is_empty f ≡ true
      → piece.offset ≡ 0
      → piece.more ≡ true
      → ipv4_header_size + length piece.payload ≤ max_reassembled_fragment_size
      → Taken packet ts set (take (net.ip_header_len packet) packet) (net.ip_payload packet)
  first_lem piece packet ts set f c h empty at_start more fits =
      let (g, e, holds, partial) =
        laws.add_first set f packet ts h empty (omega (arith, c.header_len, c.has_header))
          (omega (arith, c.header_len, ap length c.payload, fits)) in
      taken piece packet ts set f g _ _ c h
        (rw
          (
            empty,
            c.ident,
            c.src_addr,
            c.dst_addr,
            c.more_frags ∙ more,
            c.frag_offset ∙ at_start,
            adding,
          )
          e)
        holds partial

  pub next_lem :
      (piece : Piece) (packet : Bytes) (ts : ℕ) (set : Frags) (f : Frag) (header content : Bytes)
      → Carries net id src dst piece packet
      → Has ts set f
      → Holds ts f header content
      → piece.offset ≡ length content
      → piece.more ≡ true
      → length header ≡ ipv4_header_size
      → length (header ++ (content ++ net.ip_payload packet)) ≤ max_reassembled_fragment_size
      → Taken packet ts set header (content ++ net.ip_payload packet)
  next_lem piece packet ts set f header content c h held behind more size fits =
      let (g, e, holds, partial) =
        laws.add_next f header content packet ts held (c.header_len ∙ sym size) fits in
      taken piece packet ts set f g _ _ c h
        (rw
          (
            laws.in_use f header content ts held,
            c.more_frags ∙ more,
            c.frag_offset ∙ behind,
            adding,
          )
          e)
        holds partial

  -- The slot holds all of the packet.
  pub record Full (g : Frag) (bytes : Bytes) : Type 0 where
    pub contiguous : net.check_contig_range g ≡ true
    pub front : net.front g ≡ some (length bytes)
    pub buffer : net.get_buffer g 0 (length bytes) ≡ bytes
    pub checked : net.ip_check_len bytes ≡ ok tt
    pub read_back :
        (b : Bytes)
        → length b ≡ length bytes
        → net.get_buffer (net.set_buffer g 0 (length b) b) 0 (length b) ≡ b

  length-finished : (bytes : Bytes) → length (finished net bytes) ≡ length bytes
  length-finished bytes = laws.checksum _ ∙ laws.total_len _ bytes

  written_back :
      (g : Frag) (bytes : Bytes)
      → Full g bytes
      → net.get_buffer (whole net (length bytes) g) 0 (length bytes) ≡ finished net bytes
  written_back g bytes full =
      ap
        (λ b.
          net.get_buffer
            (net.set_buffer g 0 (length bytes)
              (net.ip_fill_checksum (net.ip_set_total_len (length bytes % 2 ^ 16) b)))
            0 (length bytes))
        full.buffer
      ∙ subst
          (λ n. net.get_buffer (net.set_buffer g 0 n (finished net bytes)) 0 n ≡ finished net bytes)
          (length-finished bytes) (full.read_back (finished net bytes) (length-finished bytes))

  full_lem :
      (g : Frag) (bytes : Bytes)
      → Full g bytes
      → assemble net g ≡ ret (some (finished net bytes)) (net.reset (whole net (length bytes) g))
  unfolding assemble
  full_lem g bytes full =
      let front_lem =
        header_set net (length bytes) g
          (subst (λ b. net.ip_check_len b ≡ ok tt) (sym full.buffer) full.checked) in
      rw (full.contiguous, full.front) (front_lem ∙ sized)
    where
      same : (n : ℕ) → (n == n) ≡ true
      same n = ground arith

      sized :
          (if length (net.get_buffer (whole net (length bytes) g) 0 (length bytes)) == length bytes
            then ret
                (some (net.get_buffer (whole net (length bytes) g) 0 (length bytes)))
                (net.reset (whole net (length bytes) g))
            else crash panic)
          ≡ ret (some (finished net bytes)) (net.reset (whole net (length bytes) g))
      sized = rw (written_back g bytes full, length-finished bytes, same (length bytes)) refl

  pub last_lem :
      (piece : Piece) (packet : Bytes) (ts : ℕ) (set : Frags) (f : Frag) (header content : Bytes)
      → Carries net id src dst piece packet
      → Has ts set f
      → Holds ts f header content
      → piece.offset ≡ length content
      → piece.more ≡ false
      → length header ≡ ipv4_header_size
      → length (header ++ (content ++ net.ip_payload packet)) ≤ max_reassembled_fragment_size
      → net.ip_check_len (header ++ (content ++ net.ip_payload packet)) ≡ ok tt
      → (set' : Frags) × (process_ipv4_fragment net packet ts set
          ≡ ret (some (finished net (header ++ (content ++ net.ip_payload packet)))) set')
  last_lem piece packet ts set f header content c h held behind last size fits checked =
      let (g, e, contiguous, front, buffer, read_back) =
        laws.add_last f header content packet ts held (c.header_len ∙ sym size)
          (omega (arith, c.total_len, size, ap length c.payload)) fits in
      let (slot, processed, has) = process_lem piece packet ts set f c h in
      let added : adding net packet ts f ≡ (ok tt, g) =
        rw
          (
            laws.in_use f header content ts held,
            c.more_frags ∙ last,
            c.frag_offset ∙ behind,
            adding,
          )
          e in
      let full : Full g (header ++ (content ++ net.ip_payload packet)) = record {
        contiguous = contiguous;
        front = front;
        buffer = buffer;
        checked = checked;
        read_back = read_back;
      } in
      (
        _,
        processed ∙ ap (give_back slot.give_back) (use_lem packet ts f g added ∙ full_lem g _ full),
      )
