-- ===== src/Reassembly/SetLaws.antt =====
-- What smoltcp documents of fragment sets, for fragments that come in order.
use rustwall.Base.{ℕ, suc, ◌≤◌, ◌+◌, ◌%◌, ◌^◌, ◌≡◌, Bytes, true, false, some, ◌++◌, length, take}
use rustwall.Exec.{ok}
use rustwall.Constants.{ipv4_header_size, max_reassembled_fragment_size}
use rustwall.Smoltcp.{Smoltcp, Borrow, Ipv4Address}
use rustwall.Fragment.Plan.{Piece}

module _ {Frag Frags : Type 0} (net : Smoltcp Frag Frags) where
  -- `packet` is the fragment for `piece` of the packet with these addresses and this identifier.
  pub record Carries (id : ℕ) (src dst : Ipv4Address) (piece : Piece) (packet : Bytes)
      : Type 0 where
    pub ident : net.ip_ident packet ≡ id
    pub src_addr : net.ip_src_addr packet ≡ src
    pub dst_addr : net.ip_dst_addr packet ≡ dst
    pub more_frags : net.ip_more_frags packet ≡ piece.more
    pub frag_offset : net.ip_frag_offset packet ≡ piece.offset
    pub payload : net.ip_payload packet ≡ piece.payload
    pub header_len : net.ip_header_len packet ≡ ipv4_header_size
    pub total_len : net.ip_total_len packet ≡ ipv4_header_size + length piece.payload
    pub has_header : ipv4_header_size ≤ length packet

  -- What smoltcp's fragment sets do with fragments that come in order, one after the other, of a
  -- packet that fits the buffer of a slot, with MAX_REASSEMBLED_FRAGMENT_SIZE bytes. `Has ts set f`
  -- says that `f` is the slot that the set has at that time for the packet with this identity, and
  -- `Holds ts f header content` that `f` is a slot with this identity that has this header and the
  -- first bytes of the packet, and was used last for the fragment before that time.
  pub record SlotLaws (id : ℕ) (src dst : Ipv4Address) (Has : ℕ → Frags → Frag → Type 0)
      (Holds : ℕ → Frag → Bytes → Bytes → Type 0) : Type 0 where
    pub found :
        (set : Frags) (f : Frag) (ts : ℕ)
        → Has ts set f
        → (slot : Borrow Frag Frags) × ((net.get_packet set id src dst ts).0 ≡ some slot)
          × (slot.fragment ≡ f)
          × ((g : Frag) (header content : Bytes)
              → Holds (suc ts) g header content
              → Has (suc ts) (slot.give_back g) g)
    pub in_use :
        (f : Frag) (header content : Bytes) (ts : ℕ)
        → Holds ts f header content
        → net.is_empty f ≡ false
    pub add_first :
        (set : Frags) (f : Frag) (packet : Bytes) (ts : ℕ)
        → Has ts set f
        → net.is_empty f ≡ true
        → net.ip_header_len packet ≤ length packet
        → net.ip_header_len packet + length (net.ip_payload packet) ≤ max_reassembled_fragment_size
        → (g : Frag) × (net.add
              (net.start f id src dst)
              (net.ip_header_len packet)
              0
              (length (net.ip_payload packet))
              packet
              ts
            ≡ (ok tt, g))
          × Holds (suc ts) g (take (net.ip_header_len packet) packet) (net.ip_payload packet)
          × (net.check_contig_range g ≡ false)
    pub add_next :
        (f : Frag) (header content packet : Bytes) (ts : ℕ)
        → Holds ts f header content
        → net.ip_header_len packet ≡ length header
        → length (header ++ (content ++ net.ip_payload packet)) ≤ max_reassembled_fragment_size
        → (g : Frag) × (net.add f
              (net.ip_header_len packet)
              (length content)
              (length (net.ip_payload packet))
              packet
              ts
            ≡ (ok tt, g))
          × Holds (suc ts) g header (content ++ net.ip_payload packet)
          × (net.check_contig_range g ≡ false)
    -- the slot is full; what is written over its packet is read back
    pub add_last :
        (f : Frag) (header content packet : Bytes) (ts : ℕ)
        → Holds ts f header content
        → net.ip_header_len packet ≡ length header
        → net.ip_total_len packet ≡ length header + length (net.ip_payload packet)
        → length (header ++ (content ++ net.ip_payload packet)) ≤ max_reassembled_fragment_size
        → (g : Frag) × (net.add
              (net.set_total_len f (length content + net.ip_total_len packet))
              (net.ip_header_len packet)
              (length content)
              (length (net.ip_payload packet))
              packet
              ts
            ≡ (ok tt, g))
          × (net.check_contig_range g ≡ true)
          × (net.front g ≡ some (length (header ++ (content ++ net.ip_payload packet))))
          × (net.get_buffer g 0 (length (header ++ (content ++ net.ip_payload packet)))
              ≡ header ++ (content ++ net.ip_payload packet))
          × ((bytes : Bytes)
              → length bytes ≡ length (header ++ (content ++ net.ip_payload packet))
              → net.get_buffer (net.set_buffer g 0 (length bytes) bytes) 0 (length bytes) ≡ bytes)
    pub total_len : (n : ℕ) (p : Bytes) → length (net.ip_set_total_len n p) ≡ length p
    pub checksum : (p : Bytes) → length (net.ip_fill_checksum p) ≡ length p

  -- The bytes with the length and the checksum in their header.
  abbrev pub finished : Bytes → Bytes
  finished bytes = net.ip_fill_checksum (net.ip_set_total_len (length bytes % 2 ^ 16) bytes)
