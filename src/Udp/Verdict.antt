-- ===== src/Udp/Verdict.antt =====
-- A datagram leaves `process_udp` only as the external firewall approved it.
use rustwall.Base.{
  ℕ, ◌≤◌, ◌<◌, ◌≡◌, refl, ℤ, pos, negsuc, Bytes, take, length, arith, leb, ltb, ◌&&◌, Bool-cases,
  inl, inr, true,
}
use rustwall.Exec.{Result, ok, ret, crash, continue, fault, lift}
use rustwall.Exec.Inversion.{continue-eq-ret, lift-eq-ret, Result-cases}
use rustwall.Constants.{max_udp_packet_size, max_udp_payload_size}
use rustwall.Smoltcp.{Smoltcp, Ipv4Repr, UdpRepr, new_checked}
use rustwall.Externs.{Filter}
use rustwall.State.{State}
use rustwall.Udp.{call_external_firewall, assemble_udp, approved_datagram, process_udp, capacity}

pub new_checked-eq-ok :
    (check : Bytes → Result (Unit {0})) (buffer : Bytes) {b : Bytes}
    → new_checked check buffer ≡ ok b
    → (check buffer ≡ ok tt) × (b ≡ buffer)
new_checked-eq-ok check buffer h = (ground arith, ground arith)

module _ {Frag Frags : Type 0} (net : Smoltcp Frag Frags) where
  -- The external firewall approved `n` bytes of the memory that it was given.
  pub record Approved (ip_repr : Ipv4Repr) (udp_packet : Bytes) (answer : ℤ) (mem datagram : Bytes)
      : Type 0 where
    pub approved_len : ℕ
    pub answered : answer ≡ pos approved_len
    pub positive : 0 < approved_len
    pub bounded : approved_len ≤ max_udp_packet_size
    pub readable : approved_len ≤ length mem
    pub datagram_eq : datagram ≡ approved_datagram net ip_repr udp_packet (take approved_len mem)

  shipped-Approved :
      {W : Type 0} (r : Ipv4Repr) (udp_packet : Bytes) (n : ℕ) (mem : Bytes) (s : State Frags W)
      {datagram : Bytes} {t : State Frags W}
      → ltb 0 n && leb n max_udp_packet_size ≡ true
      → leb n (capacity max_udp_payload_size (length (net.udp_payload udp_packet)))
          && leb n (length mem)
        ≡ true
      → lift (new_checked net.udp_check_len (approved_datagram net r udp_packet (take n mem))) s
        ≡ ret datagram t
      → Approved r udp_packet (pos n) mem datagram × (t ≡ s)
  shipped-Approved r udp_packet n mem s fits room h =
      let (checked, same) =
        lift-eq-ret
          (new_checked net.udp_check_len (approved_datagram net r udp_packet (take n mem))) s h in
      (
        record {
          approved_len = n;
          answered = refl;
          positive = ground arith;
          bounded = ground arith;
          readable = ground arith;
          datagram_eq = (new_checked-eq-ok net.udp_check_len _ checked).1;
        },
        same,
      )

  assemble_udp-Approved :
      {W : Type 0} (r : Ipv4Repr) (udp_packet : Bytes) (answer : ℤ) (mem : Bytes)
      (s : State Frags W) {datagram : Bytes} {t : State Frags W}
      → assemble_udp net r udp_packet answer mem s ≡ ret datagram t
      → Approved r udp_packet answer mem datagram × (t ≡ s)
  unfolding assemble_udp
  assemble_udp-Approved r udp_packet (negsuc n) mem s h = cc
  assemble_udp-Approved r udp_packet (pos n) mem s h =
      elim (Bool-cases (ltb 0 n && leb n max_udp_packet_size)) [
        | inl fits ↦
            elim (Bool-cases (
              leb n (capacity max_udp_payload_size (length (net.udp_payload udp_packet)))
              && leb n (length mem))) [
                | inl room ↦ shipped-Approved r udp_packet n mem s fits room (rw (fits, room) at h)
                | inr short ↦ cc (rw (fits, short) at h)
              ]
        | inr refused ↦ cc (rw refused at h)
      ]

module _ {Frag Frags W : Type 0} (net : Smoltcp Frag Frags) (filter : Filter W) (ip_repr : Ipv4Repr)
    (ip_payload : Bytes) where
  -- If a call returns a datagram, then the external firewall was asked about this one and answered
  -- with a positive length within MAX_UDP_PACKET_SIZE, and what is returned is the datagram with
  -- the same ports around that many bytes of the memory as the external firewall left it. Nothing
  -- but the outside world changes.
  pub process_udp-Approved :
      (s t : State Frags W) (datagram : Bytes)
      → process_udp net filter ip_repr ip_payload s ≡ ret datagram t
      → (answer : ℤ × Bytes) × (call_external_firewall net filter ip_repr ip_payload s
          ≡ ret answer t)
        × Approved net ip_repr ip_payload answer.0 answer.1 datagram
  unfolding process_udp
  process_udp-Approved s t datagram h = elim (Result-cases (net.udp_check_len ip_payload)) [
    | inl (_, fits) ↦
        elim (Result-cases (net.udp_parse ip_payload ip_repr.src_addr ip_repr.dst_addr)) [
          | inl (_, parsed) ↦ after_call (rw (fits, parsed) at h)
          | inr (_, broken) ↦ cc (rw (fits, broken) at h)
        ]
    | inr (_, short) ↦ cc (rw short at h)
  ]
    where
      after_call :
          continue
              (call_external_firewall net filter ip_repr ip_payload s)
              (λ answer. assemble_udp net ip_repr ip_payload answer.0 answer.1)
            ≡ ret datagram t
          → (answer : ℤ × Bytes) × (call_external_firewall net filter ip_repr ip_payload s
              ≡ ret answer t)
            × Approved net ip_repr ip_payload answer.0 answer.1 datagram
      after_call h' =
          let (answer, u, called, shipped) =
            continue-eq-ret (call_external_firewall net filter ip_repr ip_payload s)
              (λ (a : ℤ × Bytes). assemble_udp net ip_repr ip_payload a.0 a.1) h' in
          let (approved, same) =
            assemble_udp-Approved net ip_repr ip_payload answer.0 answer.1 u shipped in
          (answer, rw same called, approved)

  -- An external firewall that answers with a length above the capacity of the payload's memory, but
  -- within MAX_UDP_PACKET_SIZE, makes the call read past that memory.
  pub process_udp_oversized :
      (s t : State Frags W) (r : UdpRepr) (n : ℕ) (mem : Bytes)
      → net.udp_check_len ip_payload ≡ ok tt
      → net.udp_parse ip_payload ip_repr.src_addr ip_repr.dst_addr ≡ ok r
      → length (net.udp_payload ip_payload) ≤ max_udp_payload_size
      → call_external_firewall net filter ip_repr ip_payload s ≡ ret (pos n, mem) t
      → max_udp_payload_size < n
      → n ≤ max_udp_packet_size
      → process_udp net filter ip_repr ip_payload s ≡ crash fault
  unfolding process_udp assemble_udp capacity
  process_udp_oversized s t r n mem fits parsed small called over within =
      rw (fits, parsed, called) (ground arith)
