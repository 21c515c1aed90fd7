-- ===== src/Reassembly.antt =====
-- `process_ipv4_fragment` of src/utils.rs. The packet of the fragment set that it borrows is the
-- state of the first part, the set is the state of the whole.
pub mod Live
pub mod Slots
pub mod SetLaws
pub mod Feed
pub mod InOrder
pub mod RoundTrip
use rustwall.Base.{ℕ, ◌+◌, ◌%◌, ◌^◌, Bytes, Option, none, some, ◌==◌, if◌then◌else◌, length}
use rustwall.Exec.{
  Exec, Outcome, ret, fail, crash, pure, gets, modify, ok, err, panic, fragment_set_full,
  too_many_fragments, ◌>>=◌, ◌>>◌,
}
use rustwall.Smoltcp.{Smoltcp}

-- The end of a borrow, on every way out.
abbrev pub give_back : {Frag Frags A : Type 0} → (Frag → Frags) → Outcome Frag A → Outcome Frags A
give_back put (ret a f) = ret a (put f)
give_back put (fail e f) = fail e (put f)
give_back put (crash c) = crash c

module _ {Frag Frags : Type 0} (net : Smoltcp Frag Frags) where
  -- A new packet is started, and the last fragment gives the length of the whole.
  unfoldable pub begin_fragment : Bytes → Exec Frag (Unit {0})
  begin_fragment packet = do
    fresh ← gets (λ f. net.is_empty f)
    if fresh
        then modify (λ f.
          net.start f (net.ip_ident packet) (net.ip_src_addr packet) (net.ip_dst_addr packet))
        else pure tt
    if net.ip_more_frags packet
        then pure tt
        else modify (λ f. net.set_total_len f (net.ip_frag_offset packet + net.ip_total_len packet))

  unfoldable pub add_fragment : Bytes → ℕ → Exec Frag (Unit {0})
  add_fragment packet ts f =
      let (added, f') =
        net.add f (net.ip_header_len packet) (net.ip_frag_offset packet)
          (length (net.ip_payload packet)) packet ts in
      elim added [ ok _ ↦ ret tt f' | err _ ↦ fail too_many_fragments (net.reset f') ]

  -- The bytes of the assembled packet, with the length and the checksum of its header set.
  unfoldable pub assemble_front : ℕ → Exec Frag (Option Bytes)
  assemble_front n f = elim (net.ip_check_len (net.get_buffer f 0 n)) [
    | err e ↦ fail e f
    | ok _ ↦
        let header =
          net.ip_fill_checksum (net.ip_set_total_len (n % 2 ^ 16) (net.get_buffer f 0 n)) in
        let f' = net.set_buffer f 0 n header in
        let bytes = net.get_buffer f' 0 n in
        if length bytes == n then ret (some bytes) (net.reset f') else crash panic
  ]

  unfoldable pub assemble : Exec Frag (Option Bytes)
  assemble f =
      if net.check_contig_range f
      then elim (net.front f) [ none ↦ ret none f | some n ↦ assemble_front n f ]
      else ret none f

  unfoldable pub use_fragment : Bytes → ℕ → Exec Frag (Option Bytes)
  unfolding begin_fragment add_fragment
  use_fragment packet ts = do begin_fragment packet; add_fragment packet ts; assemble

  unfoldable pub process_ipv4_fragment : Bytes → ℕ → Exec Frags (Option Bytes)
  process_ipv4_fragment packet ts set =
      let (found, set') =
        net.get_packet set (net.ip_ident packet) (net.ip_src_addr packet) (net.ip_dst_addr packet)
          ts in
      elim found [
        | none ↦ fail fragment_set_full set'
        | some b ↦ give_back b.give_back (use_fragment packet ts b.fragment)
      ]
