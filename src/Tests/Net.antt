-- ===== src/Tests/Net.antt =====
-- A stand-in for smoltcp: the header fields by their places, no checksums, and a fragment set with
-- one packet that takes its fragments in order.
use rustwall.Base.{
  ℕ, zero, suc, ◌+◌, ◌-◌, ◌*◌, ◌/◌, ◌%◌, ◌^◌, ◌≡◌, refl, ap, ◌∙◌, Bytes, [], ◌∷◌, ◌++◌, some, ltb,
  leb, ◌==◌, if◌then◌else◌, length, take, drop, replicate, length-take, length-drop,
  length-replicate, length-append, arith,
}
use rustwall.Exec.{Result, ok, err, library}
use rustwall.Smoltcp.{
  Smoltcp, Ipv4Address, EthernetProtocol, ipv4, ipv6, arp, other_ethertype, IpProtocol, icmp, igmp,
  udp, other_protocol, Ipv4Repr, UdpRepr, IpLaws, LengthLaws,
}
use rustwall.Ethernet.{bytes_eq}

abbrev pub byte_at : Bytes → ℕ → ℕ
byte_at [] i = 0
byte_at (x ∷ xs) zero = x
byte_at (x ∷ xs) (suc i) = byte_at xs i

abbrev pub u16_at : Bytes → ℕ → ℕ
u16_at p i = 256 * byte_at p i + byte_at p (i + 1)

abbrev pub put_byte : Bytes → ℕ → ℕ → Bytes
put_byte [] i v = []
put_byte (x ∷ xs) zero v = v ∷ xs
put_byte (x ∷ xs) (suc i) v = x ∷ put_byte xs i v

abbrev pub put_u16 : ℕ → ℕ → Bytes → Bytes
put_u16 i v p = put_byte (put_byte p i (v / 256)) (i + 1) (v % 256)

abbrev at_least : ℕ → Bytes → Result (Unit {0})
at_least n b = if leb n (length b) then ok tt else err (library 0)

abbrev address_at : Bytes → ℕ → Ipv4Address
address_at p i = record {
  octet_0 = byte_at p i;
  octet_1 = byte_at p (i + 1);
  octet_2 = byte_at p (i + 2);
  octet_3 = byte_at p (i + 3);
}

abbrev ethertype : ℕ → EthernetProtocol
ethertype n =
    if n == 0x800
    then ipv4
    else if n == 0x806
    then arp
    else if n == 0x86dd
    then ipv6
    else other_ethertype n

abbrev protocol : ℕ → IpProtocol
protocol n =
    if n == 1 then icmp else if n == 2 then igmp else if n == 17 then udp else other_protocol n

abbrev number : IpProtocol → ℕ
number icmp = 1
number igmp = 2
number udp = 17
number (other_protocol n) = n

abbrev ip_header : Ipv4Repr → Bytes
ip_header r =
    0x45
    ∷ 0
    ∷ ((20 + r.payload_len) / 256)
    ∷ ((20 + r.payload_len) % 256)
    ∷ 0
    ∷ 0
    ∷ 0
    ∷ 0
    ∷ r.hop_limit
    ∷ number r.protocol
    ∷ 0
    ∷ 0
    ∷ r.src_addr.octet_0
    ∷ r.src_addr.octet_1
    ∷ r.src_addr.octet_2
    ∷ r.src_addr.octet_3
    ∷ r.dst_addr.octet_0
    ∷ r.dst_addr.octet_1
    ∷ r.dst_addr.octet_2
    ∷ r.dst_addr.octet_3
    ∷ []

abbrev pub header_len : Bytes → ℕ
header_len p = 4 * (byte_at p 0 % 16)

abbrev pub payload : Bytes → Bytes
payload p = take (u16_at p 2 - header_len p) (drop (header_len p) p)

abbrev udp_header : UdpRepr → Bytes
udp_header r =
    (r.src_port / 256)
    ∷ (r.src_port % 256)
    ∷ (r.dst_port / 256)
    ∷ (r.dst_port % 256)
    ∷ ((8 + length r.payload) / 256)
    ∷ ((8 + length r.payload) % 256)
    ∷ 0
    ∷ 0
    ∷ []

abbrev pub stand_in : Smoltcp Bytes Bytes
stand_in = record {
  eth_check_len = at_least 14;
  eth_dst_addr = take 6;
  eth_ethertype = λ b. ethertype (u16_at b 12);
  eth_payload = drop 14;
  is_broadcast = λ a. bytes_eq a (replicate 6 0xff);
  is_multicast = λ a. byte_at a 0 % 2 == 1;
  ip_check_len = at_least 20;
  ip_header_len = header_len;
  ip_total_len = λ p. u16_at p 2;
  ip_ident = λ p. u16_at p 4;
  ip_more_frags = λ p. byte_at p 6 / 32 % 2 == 1;
  ip_frag_offset = λ p. 8 * (u16_at p 6 % 2 ^ 13);
  ip_protocol = λ p. protocol (byte_at p 9);
  ip_src_addr = λ p. address_at p 12;
  ip_dst_addr = λ p. address_at p 16;
  ip_payload = payload;
  ip_parse = λ p. ok (record {
    src_addr = address_at p 12;
    dst_addr = address_at p 16;
    protocol = protocol (byte_at p 9);
    payload_len = length (payload p);
    hop_limit = byte_at p 8;
  });
  ip_buffer_len = λ r. 20;
  ip_emit = λ r b. ip_header r ++ drop 20 b;
  ip_set_payload = λ p b. take (header_len p) p ++ b ++ drop (header_len p + length b) p;
  ip_set_ident = put_u16 4;
  ip_set_frag_offset = λ n p. put_u16 6 (u16_at p 6 / 2 ^ 13 * 2 ^ 13 + n / 8) p;
  ip_set_more_frags =
      λ more p. put_byte p 6 (byte_at p 6 % 32 + byte_at p 6 / 64 * 64 + (if more then 32 else 0));
  ip_set_dont_frag = λ dont p.
      put_byte p 6 (byte_at p 6 % 64 + byte_at p 6 / 128 * 128 + (if dont then 64 else 0));
  ip_set_total_len = put_u16 2;
  ip_fill_checksum = λ p. p;
  udp_check_len = at_least 8;
  udp_src_port = λ p. u16_at p 0;
  udp_dst_port = λ p. u16_at p 2;
  udp_payload = drop 8;
  udp_parse =
      λ p src dst. ok (record { src_port = u16_at p 0; dst_port = u16_at p 2; payload = drop 8 p });
  udp_buffer_len = λ r. 8 + length r.payload;
  udp_emit = λ r b src dst. udp_header r ++ r.payload;
  udp_fill_checksum = λ p src dst. p;
  set_new = [];
  set_add = λ f set. set;
  get_packet = λ set id src dst ts. (some (record { fragment = set; give_back = λ f. f }), set);
  packet_new = λ b. [];
  is_empty = λ f. length f == 0;
  start = λ f id src dst. f;
  set_total_len = λ f n. f;
  add = λ f hdr offset len b ts.
      if offset == 0
      then (ok tt, b)
      else if length f == hdr + offset
      then (ok tt, f ++ payload b)
      else (err (library 1), f);
  reset = λ f. [];
  check_contig_range = λ f. ltb 1500 (length f);
  front = λ f. some (length f);
  get_buffer = λ f from to. take (to - from) (drop from f);
  set_buffer = λ f from to b. take from f ++ b ++ drop to f;
}

length-put_byte : (p : Bytes) (i v : ℕ) → length (put_byte p i v) ≡ length p
length-put_byte [] i v = refl
length-put_byte (x ∷ xs) zero v = refl
length-put_byte (x ∷ xs) (suc i) v = ap suc (length-put_byte xs i v)

length-cut :
    (n m : ℕ) (p q : Bytes)
    → length p ≡ length q
    → length (take n (drop m p)) ≡ length (take n (drop m q))
length-cut n m p q e =
    omega
      (arith, length-take n (drop m p), length-take n (drop m q), length-drop m p, length-drop m q)

length-payload-ident : (id : ℕ) (p : Bytes) → length (payload (put_u16 4 id p)) ≡ length (payload p)
length-payload-ident id [] = refl
length-payload-ident id (a ∷ []) = refl
length-payload-ident id (a ∷ b ∷ []) = refl
length-payload-ident id (a ∷ b ∷ c ∷ []) = refl
length-payload-ident id (a ∷ b ∷ c ∷ d ∷ rest) =
    length-cut (256 * c + d - 4 * (a % 16)) (4 * (a % 16)) _ (a ∷ b ∷ c ∷ d ∷ rest) (
      omega (
        arith,
        length-put_byte (put_byte rest 0 (id / 256)) 1 (id % 256),
        length-put_byte rest 0 (id / 256),
      ))

length-emitted-payload :
    (r : Ipv4Repr)
    → length (payload (ip_header r ++ drop 20 (replicate (20 + r.payload_len) 0))) ≡ r.payload_len
length-emitted-payload r =
    let zeros : Bytes = replicate (20 + r.payload_len) 0 in
    let wanted : ℕ = 256 * ((20 + r.payload_len) / 256) + (20 + r.payload_len) % 256 - 20 in
    omega (
      arith,
      length-take wanted (drop 20 zeros),
      length-drop 20 zeros,
      length-replicate {A = ℕ} (20 + r.payload_len) 0,
    )

pub stand_in-IpLaws : IpLaws stand_in
stand_in-IpLaws = record {
  emit_payload = λ r h. length-emitted-payload r;
  ident_payload = length-payload-ident;
}

length-put_payload :
    (n m : ℕ) (p b : Bytes)
    → length (take m (drop n p)) ≡ length b
    → length (take n p ++ b ++ drop (n + length b) p) ≡ length p
length-put_payload n m p b h = omega (
  arith,
  h,
  length-take m (drop n p),
  length-drop n p,
  length-append (take n p ++ b) (drop (n + length b) p),
  length-append (take n p) b,
  length-take n p,
  length-drop (n + length b) p,
)

pub length-put_u16 : (i v : ℕ) (p : Bytes) → length (put_u16 i v p) ≡ length p
length-put_u16 i v p =
    length-put_byte (put_byte p i (v / 256)) (i + 1) (v % 256) ∙ length-put_byte p i (v / 256)

pub stand_in-LengthLaws : LengthLaws stand_in
stand_in-LengthLaws = record {
  header = λ r. refl;
  emit = λ r b h. omega (arith, length-drop 20 b);
  payload = λ p b. length-put_payload (header_len p) (u16_at p 2 - header_len p) p b;
  ident = length-put_u16 4;
  frag_offset = λ n p. length-put_u16 6 (u16_at p 6 / 2 ^ 13 * 2 ^ 13 + n / 8) p;
  more_frags = λ more p. length-put_byte p 6 _;
  dont_frag = λ dont p. length-put_byte p 6 _;
  checksum = λ p. refl;
}
