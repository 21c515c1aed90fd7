-- ===== src/Udp/Shipped.antt =====
-- `process_udp` with the packet filters of src/external_firewall.c.
use rustwall.Base.{
  ℕ, ◌≤◌, ◌^◌, ◌≡◌, refl, pos, Bytes, Bool, true, false, ◌||◌, ◌&&◌, ◌==◌, ltb, leb, ◌%◌,
  Bool-cases, inl, inr, if◌then◌else◌, length, take_all, arith,
}
use rustwall.Exec.{Outcome, ok, fail, dropped, lift}
use rustwall.Constants.{max_udp_packet_size, max_udp_payload_size}
use rustwall.Smoltcp.{Smoltcp, Ipv4Repr, UdpRepr, new_checked}
use rustwall.Externs.{Filter}
use rustwall.State.{State}
use rustwall.Udp.{call_external_firewall, assemble_udp, approved_datagram, process_udp, capacity}
use rustwall.ExternalFirewall.{packet_in, packet_out}

-- The filter refuses the datagrams that go to a port and approves all others as they are; it has no
-- state.
abbrev pub Blocks : {W : Type 0} → ℕ → Filter W → Type 0
Blocks {W} port filter =
    (src_addr src_port dst_addr dst_port len : ℕ) (mem : Bytes) (max_len : ℕ) (w : W)
    → filter src_addr src_port dst_addr dst_port len mem max_len w
      ≡ (if dst_port == port then pos 0 else pos len, mem, w)

module _ {W : Type 0} where
  pub packet_in-Blocks : Blocks 6968 (packet_in {W = W})
  unfolding packet_in
  packet_in-Blocks a b c d n mem m w = refl

  pub packet_out-Blocks : Blocks 6966 (packet_out {W = W})
  unfolding packet_out
  packet_out-Blocks a b c d n mem m w = refl

abbrev pub refused_or :
    {Frag Frags W : Type 0} (net : Smoltcp Frag Frags) (ip_repr : Ipv4Repr) (ip_payload : Bytes)
    → Bool
    → State Frags W
    → Outcome (State Frags W) Bytes
refused_or net ip_repr ip_payload refused s =
    if refused
    then fail dropped s
    else lift
        (new_checked net.udp_check_len
          (approved_datagram net ip_repr ip_payload (net.udp_payload ip_payload)))
        s

whole : (n : ℕ) → n ≤ max_udp_packet_size → n % 2 ^ 16 ≡ n
whole n h = omega arith

not_positive : (n : ℕ) → (n == 0) ≡ true → ltb 0 n && leb n max_udp_packet_size ≡ false
not_positive n h = ground arith

positive :
    (n : ℕ)
    → (n == 0) ≡ false
    → n ≤ max_udp_packet_size
    → ltb 0 n && leb n max_udp_packet_size ≡ true
positive n h k = ground arith

readable :
    (n : ℕ) → n ≤ max_udp_packet_size → leb n (capacity max_udp_payload_size n) && leb n n ≡ true
unfolding capacity
readable n h = ground arith

module _ {Frag Frags W : Type 0} (net : Smoltcp Frag Frags) (ip_repr : Ipv4Repr)
    (ip_payload : Bytes) where
  -- The answer that lets a payload pass unchanged is a refusal if the payload is empty.
  passed :
      (s : State Frags W)
      → length (net.udp_payload ip_payload) ≤ max_udp_packet_size
      → assemble_udp net ip_repr ip_payload
          (pos (length (net.udp_payload ip_payload)))
          (net.udp_payload ip_payload)
          s
        ≡ refused_or net ip_repr ip_payload (length (net.udp_payload ip_payload) == 0) s
  unfolding assemble_udp
  passed s small = elim (Bool-cases (length (net.udp_payload ip_payload) == 0)) [
    | inl empty ↦ rw (empty, not_positive _ empty)
    | inr some_bytes ↦ rw (
      some_bytes,
      positive _ some_bytes small,
      readable (length (net.udp_payload ip_payload)) small,
      take_all (length (net.udp_payload ip_payload)) (net.udp_payload ip_payload) (omega arith),
    )
  ]

module _ {Frag Frags W : Type 0} (net : Smoltcp Frag Frags) (port : ℕ) (filter : Filter W)
    (blocks : Blocks port filter) (ip_repr : Ipv4Repr) (ip_payload : Bytes) where
  -- A well-formed datagram is dropped if it goes to the blocked port or is empty, and otherwise
  -- passes with the payload that it had; the state stays as it is.
  pub process_udp-Blocks :
      (s : State Frags W) (r : UdpRepr)
      → net.udp_check_len ip_payload ≡ ok tt
      → net.udp_parse ip_payload ip_repr.src_addr ip_repr.dst_addr ≡ ok r
      → length (net.udp_payload ip_payload) ≤ max_udp_packet_size
      → process_udp net filter ip_repr ip_payload s
        ≡ refused_or net ip_repr ip_payload
            (net.udp_dst_port ip_payload == port || length (net.udp_payload ip_payload) == 0)
            s
  unfolding process_udp assemble_udp call_external_firewall
  process_udp-Blocks s r fits parsed small =
      rw (fits, parsed, blocks _ _ _ _ _ _ _ s.world)
        (elim (Bool-cases (net.udp_dst_port ip_payload == port)) [
          | inl blocked ↦ rw blocked
          | inr open_port ↦
              rw (open_port, whole (length (net.udp_payload ip_payload)) small)
                (passed net ip_repr ip_payload s small)
        ])

module _ {Frag Frags W : Type 0} (net : Smoltcp Frag Frags) (ip_repr : Ipv4Repr)
    (ip_payload : Bytes) where
  -- A well-formed datagram that comes in is dropped if it goes to port 6968 or is empty, and
  -- otherwise passes with the payload that it had; the state stays as it is. This
  -- holds for payloads within
  -- MAX_UDP_PACKET_SIZE.
  pub process_udp-packet_in :
      (s : State Frags W) (r : UdpRepr)
      → net.udp_check_len ip_payload ≡ ok tt
      → net.udp_parse ip_payload ip_repr.src_addr ip_repr.dst_addr ≡ ok r
      → length (net.udp_payload ip_payload) ≤ max_udp_packet_size
      → process_udp net packet_in ip_repr ip_payload s
        ≡ refused_or net ip_repr ip_payload
            (net.udp_dst_port ip_payload == 6968 || length (net.udp_payload ip_payload) == 0)
            s
  process_udp-packet_in = process_udp-Blocks net 6968 packet_in packet_in-Blocks ip_repr ip_payload
