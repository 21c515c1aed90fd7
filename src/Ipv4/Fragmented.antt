-- ===== src/Ipv4/Fragmented.antt =====
-- `process_ipv4` on one fragment of a UDP packet.
use rustwall.Base.{
  ℕ, suc, ◌+◌, ◌^◌, ◌<◌, ◌≤◌, ◌≡◌, refl, ap, ◌&&◌, ◌||◌, Bytes, true, none, some, Option, List, ltb,
  lt→ltb, drop, length, arith,
}
use rustwall.Exec.{Exec, Outcome, ret, fail, ok, fragmented, lift, continue, ◌>>=◌}
use rustwall.Constants.{ethernet_frame_payload}
use rustwall.Smoltcp.{Smoltcp, new_checked}
use rustwall.Externs.{Filter}
use rustwall.State.{State, Side, rx, tx, fragments, set_fragments, timestamp}
use rustwall.Slice.{slice_from_lem}
use rustwall.Reassembly.{process_ipv4_fragment}
use rustwall.Ipv4.{
  is_udp, shave_crc_from_ipv4, reassemble, check_protocol, enqueue_frames, process_ipv4,
}

-- The frame has the fragment, of a UDP packet, with or without the checksum of the frame.
pub record IsFragmentFrame {Frag Frags : Type 0} (net : Smoltcp Frag Frags) (frame fragment : Bytes)
    : Type 0 where
  pub has_header : ethernet_frame_payload ≤ length frame
  pub eth_checked : net.eth_check_len frame ≡ ok tt
  pub outer_checked : net.ip_check_len (net.eth_payload frame) ≡ ok tt
  pub outer_shaved : shave_crc_from_ipv4 net (net.eth_payload frame) ≡ ok fragment
  pub is_fragment :
      ((net.ip_more_frags fragment || ltb 0 (net.ip_frag_offset fragment))
        && is_udp (net.ip_protocol fragment))
      ≡ true

module _ {Frags W : Type 0} where
  -- A tick of the clock later, with another fragment set.
  abbrev pub ticked : Side → Frags → State Frags W → State Frags W
  ticked side set s = set_fragments side set (record s { ms = s.ms + 1 })

  pub fragments-ticked :
      (side : Side) (set : Frags) (s : State Frags W) → fragments side (ticked side set s) ≡ set
  fragments-ticked rx set s = refl
  fragments-ticked tx set s = refl

  pub ms-ticked :
      (side : Side) (set : Frags) (s : State Frags W) → (ticked side set s).ms ≡ s.ms + 1
  ms-ticked rx set s = refl
  ms-ticked tx set s = refl

  fragments_then :
      (side : Side) (s : State Frags W)
      → fragments side (record s { ms = s.ms + 1 }) ≡ fragments side s
  fragments_then rx s = refl
  fragments_then tx s = refl

  -- So many ticks later.
  abbrev pub later : Side → ℕ → Frags → State Frags W → State Frags W
  later side n set s = set_fragments side set (record s { ms = s.ms + n })

  pub later-ticked :
      (side : Side) (n : ℕ) (set1 set : Frags) (s : State Frags W)
      → later side n set (ticked side set1 s) ≡ later side (suc n) set s
  later-ticked side n set1 set s = by_side side
    where
      sum : s.ms + 1 + n ≡ s.ms + suc n
      sum = omega arith

      by_side :
          (side : Side)
          → set_fragments side set (record (set_fragments side set1 (record s { ms = s.ms + 1 })) {
            ms = (set_fragments side set1 (record s { ms = s.ms + 1 })).ms + n;
          })
            ≡ set_fragments side set (record s { ms = s.ms + suc n })
      by_side rx = ap (λ m. record s { ms = m; fragments_rx = set }) sum
      by_side tx = ap (λ m. record s { ms = m; fragments_tx = set }) sum

module _ {Frag Frags W : Type 0} (net : Smoltcp Frag Frags) (side : Side) (filter : Filter W) where
  -- What `process_ipv4` does with the assembled packet.
  abbrev pub go_on : Bytes → Bytes → Exec (State Frags W) (List Bytes)
  go_on frame payload = do
    second ← lift (new_checked net.ip_check_len payload)
    ipv4_packet ← lift (shave_crc_from_ipv4 net second)
    ipv4_repr ← lift (net.ip_parse ipv4_packet)
    packets ← check_protocol net filter ipv4_packet ipv4_repr ipv4_repr.protocol
    enqueue_frames net frame packets

  abbrev pub after_fragment : Frags → State Frags W → Option Bytes → Outcome (State Frags W) Bytes
  after_fragment set s none = fail fragmented (ticked side set s)
  after_fragment set s (some whole) = ret whole (ticked side set s)

  reassemble_lem :
      (frame fragment payload : Bytes) (set : Frags) (answer : Option Bytes) (s : State Frags W)
      → s.ms + 1 < 2 ^ 63
      → IsFragmentFrame net frame fragment
      → process_ipv4_fragment net fragment (s.ms + 1) (fragments side s) ≡ ret answer set
      → reassemble net side fragment payload s ≡ after_fragment set s answer
  unfolding reassemble timestamp
  reassemble_lem frame fragment payload set none s room h e =
      rw (h.is_fragment, lt→ltb (s.ms + 1) (2 ^ 63) room, fragments_then side s, e) refl
  reassemble_lem frame fragment payload set (some whole) s room h e =
      rw (h.is_fragment, lt→ltb (s.ms + 1) (2 ^ 63) room, fragments_then side s, e) refl

  pub fragment_lem :
      (frame fragment : Bytes) (set : Frags) (answer : Option Bytes) (s : State Frags W)
      → s.ms + 1 < 2 ^ 63
      → IsFragmentFrame net frame fragment
      → process_ipv4_fragment net fragment (s.ms + 1) (fragments side s) ≡ ret answer set
      → process_ipv4 net side filter frame s ≡ continue (after_fragment set s answer) (go_on frame)
  unfolding process_ipv4
  fragment_lem frame fragment set answer s room h e =
      rw
        (
          slice_from_lem frame ethernet_frame_payload s h.has_header,
          h.eth_checked,
          h.outer_checked,
          h.outer_shaved,
          reassemble_lem frame fragment (drop ethernet_frame_payload frame) set answer s room h e,
        )
        refl
