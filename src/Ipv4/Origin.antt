-- ===== src/Ipv4/Origin.antt =====
-- Where the packet that `process_ipv4` looks at comes from.
use rustwall.Base.{
  ℕ, ◌≡◌, sym, ap, ◌∙◌, ◌⊎◌, inl, inr, Bytes, Option, none, some, drop, ltb, ◌&&◌, ◌||◌, Bool-cases,
  arith,
}
use rustwall.Exec.{ok, Outcome, ret, fail, crash}
use rustwall.Exec.Inversion.{continue-eq-ret, ret-value}
use rustwall.Constants.{ethernet_frame_payload}
use rustwall.Smoltcp.{Smoltcp}
use rustwall.State.{State, Side, fragments, timestamp}
use rustwall.Slice.{slice_from}
use rustwall.Reassembly.{process_ipv4_fragment}
use rustwall.Ipv4.{
  shave_crc_from_ipv4, is_udp, put_fragments, or_fragmented, on_fragments, reassemble,
}

module _ {S : Type 0} where
  pub slice_from-drop :
      (xs : Bytes) (n : ℕ) (s t : S) {ys : Bytes} → slice_from xs n s ≡ ret ys t → ys ≡ drop n xs
  unfolding slice_from
  slice_from-drop xs n s t e = ground arith

module _ {Frag Frags : Type 0} (net : Smoltcp Frag Frags) where
  -- With the fragment `packet`, a set of fragments has all of `whole`.
  abbrev pub Completes : Bytes → Bytes → Type 0
  Completes packet whole =
      (ts : ℕ) × (set : Frags) × (set' : Frags) × (process_ipv4_fragment net packet ts set
        ≡ ret (some whole) set')

  -- The IPv4 packet that a frame stands for: its payload, or what its payload completes as a
  -- fragment, each without the checksum of the frame.
  pub record Carried (eth_packet ipv4_packet : Bytes) : Type 0 where
    pub shaved : Bytes
    pub payload : Bytes
    pub first_shaved : shave_crc_from_ipv4 net (net.eth_payload eth_packet) ≡ ok shaved
    pub origin : (payload ≡ drop ethernet_frame_payload eth_packet) ⊎ Completes shaved payload
    pub second_shaved : shave_crc_from_ipv4 net payload ≡ ok ipv4_packet

  on_fragments_lem :
      {W : Type 0} (side : Side) (packet : Bytes) (ts : ℕ) (s t : State Frags W)
      (o : Outcome Frags (Option Bytes)) {a : Option Bytes}
      → put_fragments side s o ≡ ret a t
      → (set' : Frags) × (o ≡ ret a set')
  on_fragments_lem side packet ts s t (ret a set) e = (set, ap (λ x. ret x set) (ret-value e))
  on_fragments_lem side packet ts s t (fail x set) e = cc
  on_fragments_lem side packet ts s t (crash c) e = cc

  or_fragmented_lem :
      {S : Type 0} (assembled : Option Bytes) (s t : S) {payload : Bytes}
      → or_fragmented assembled s ≡ ret payload t
      → assembled ≡ some payload
  or_fragmented_lem none s t e = cc
  or_fragmented_lem (some payload) s t e = ap some (ret-value e)

  pub reassemble-eq-ret :
      {W : Type 0} (side : Side) (shaved eth_payload : Bytes) (s t : State Frags W)
      {payload : Bytes}
      → reassemble net side shaved eth_payload s ≡ ret payload t
      → (payload ≡ eth_payload) ⊎ Completes shaved payload
  unfolding reassemble
  reassemble-eq-ret side shaved eth_payload s t e =
      elim (Bool-cases (
        (net.ip_more_frags shaved || ltb 0 (net.ip_frag_offset shaved))
        && is_udp (net.ip_protocol shaved))) [
          | inl fragment ↦
              let (ts, u, _, e1) = continue-eq-ret (timestamp s) _ (rw fragment at e) in
              let (assembled, v, found, e2) =
                continue-eq-ret (on_fragments side (process_ipv4_fragment net shaved ts) u) _ e1 in
              let (set', done) = on_fragments_lem side shaved ts u v _ found in
              inr (
                ts,
                fragments side u,
                set',
                done ∙ ap (λ a. ret a set') (or_fragmented_lem assembled v t e2),
              )
          | inr other ↦ inl (sym (ret-value (rw other at e)))
        ]
