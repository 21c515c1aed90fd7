-- ===== src/Ipv4/Checksum.antt =====
-- `shave_crc_from_ipv4` on a packet with and without the checksum of the frame.
use rustwall.Base.{
  ℕ, ◌+◌, ◌-◌, ◌≡◌, refl, Bytes, true, false, ◌++◌, ◌==◌, length, length-append, take, take_prefix,
  arith,
}
use rustwall.Exec.{ok}
use rustwall.Constants.{eth_crc_len}
use rustwall.Smoltcp.{Smoltcp}
use rustwall.Ipv4.{shave_crc_from_ipv4}

equal : (a b : ℕ) → a ≡ b → (a == b) ≡ true
equal a b e = ground arith

longer : (a : ℕ) → (a + eth_crc_len == a) ≡ false
longer a = ground arith

cut_off :
    (packet crc : Bytes)
    → length crc ≡ eth_crc_len
    → length (packet ++ crc) - eth_crc_len ≡ length packet
cut_off packet crc e = omega (arith, e, length-append packet crc)

module _ {Frag Frags : Type 0} (net : Smoltcp Frag Frags) (packet crc : Bytes) where
  -- By its header the packet has the length that it has, also with more bytes behind it.
  pub record IsExact : Type 0 where
    pub alone : length (net.ip_payload packet) + net.ip_header_len packet ≡ length packet
    pub followed :
        length (net.ip_payload (packet ++ crc)) + net.ip_header_len (packet ++ crc) ≡ length packet

  -- A packet of the length that its header says, which smoltcp accepts, is the result with the four
  -- bytes of a checksum behind it, and without them.
  pub shave_crc_from_ipv4-Exact :
      length crc ≡ eth_crc_len
      → IsExact
      → net.ip_check_len packet ≡ ok tt
      → (shave_crc_from_ipv4 net (packet ++ crc) ≡ ok packet)
        × (shave_crc_from_ipv4 net packet ≡ ok packet)
  unfolding shave_crc_from_ipv4
  shave_crc_from_ipv4-Exact four h fits =
      let whole : length packet + eth_crc_len ≡ length (packet ++ crc) =
        omega (arith, four, length-append packet crc) in
      let back : take (length packet) (packet ++ crc) ≡ packet = take_prefix packet crc in
      (
        rw (h.followed, equal _ _ whole, cut_off packet crc four, back, fits) refl,
        rw (h.alone, longer (length packet), fits) refl,
      )
