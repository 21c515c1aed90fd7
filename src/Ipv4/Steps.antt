-- ===== src/Ipv4/Steps.antt =====
-- What a call of `process_ipv4` that returned has gone through, step by step.
use rustwall.Base.{
  ℕ, ◌≤◌, ◌≡◌, sym, ap, subst, ◌∙◌, Bytes, List, drop, length, ◌⊎◌, inl, inr, arith,
}
use rustwall.Exec.{Exec, ok, ret, lift, ◌>>=◌}
use rustwall.Exec.Inversion.{lift-eq-ret, continue-eq-ret, Result-cases, ret-value}
use rustwall.Constants.{ethernet_frame_payload}
use rustwall.Smoltcp.{Smoltcp, Ipv4Repr, new_checked}
use rustwall.Externs.{Filter}
use rustwall.State.{State, Side}
use rustwall.Slice.{slice_from}
use rustwall.Ipv4.Origin.{Carried, Completes, slice_from-drop, reassemble-eq-ret}
use rustwall.Ipv4.{enqueue_frames, check_protocol, reassemble, shave_crc_from_ipv4, process_ipv4}

module _ {S : Type 0} where
  slice_from-bound :
      (xs : Bytes) (n : ℕ) (s t : S) {ys : Bytes} → slice_from xs n s ≡ ret ys t → n ≤ length xs
  unfolding slice_from
  slice_from-bound xs n s t e = ground arith

-- A buffer that was accepted is the one that was given.
pub new_checked-eq-ret :
    {S : Type 0} (check : Bytes → _) (b : Bytes) (s t : S) {c : Bytes}
    → lift (new_checked check b) s ≡ ret c t
    → c ≡ b
new_checked-eq-ret check b s t e = elim (Result-cases (check b)) [
  | inl (tt, fits) ↦ sym (ret-value (rw fits at e))
  | inr (x, wrong) ↦ cc (rw wrong at e)
]

module _ {Frag Frags W : Type 0} (net : Smoltcp Frag Frags) (filter : Filter W) where
  -- What a call of `process_ipv4` that returned has gone through.
  pub record Processed (eth_packet : Bytes) (t : State Frags W) (frames : List Bytes) : Type 0 where
    pub ipv4_packet : Bytes
    pub ipv4_repr : Ipv4Repr
    pub carried : Carried net eth_packet ipv4_packet
    pub packets : List Bytes
    pub before : State Frags W
    pub after : State Frags W
    pub has_header : ethernet_frame_payload ≤ length eth_packet
    pub parsed : net.ip_parse ipv4_packet ≡ ok ipv4_repr
    pub checked :
        check_protocol net filter ipv4_packet ipv4_repr ipv4_repr.protocol before
        ≡ ret packets after
    pub enqueued : enqueue_frames net eth_packet packets after ≡ ret frames t

  -- The second half of `process_ipv4`, from the payload on.
  abbrev looked_at : Bytes → Bytes → Exec (State Frags W) (List Bytes)
  looked_at eth_packet payload = do
    second ← lift (new_checked net.ip_check_len payload)
    ipv4_packet ← lift (shave_crc_from_ipv4 net second)
    ipv4_repr ← lift (net.ip_parse ipv4_packet)
    packets ← check_protocol net filter ipv4_packet ipv4_repr ipv4_repr.protocol
    enqueue_frames net eth_packet packets

  checked_lem :
      (eth_packet ipv4_packet : Bytes) (u t : State Frags W) (frames : List Bytes)
      → ethernet_frame_payload ≤ length eth_packet
      → Carried net eth_packet ipv4_packet
      → (do
        ipv4_repr ← lift (net.ip_parse ipv4_packet)
        packets ← check_protocol net filter ipv4_packet ipv4_repr ipv4_repr.protocol
        enqueue_frames net eth_packet packets)
          u
        ≡ ret frames t
      → Processed eth_packet t frames
  checked_lem eth_packet ipv4_packet u t frames h carried e =
      let (ipv4_repr, v, parsed, e1) = continue-eq-ret (lift (net.ip_parse ipv4_packet) u) _ e in
      let (packets, w, checked, e2) =
        continue-eq-ret (check_protocol net filter ipv4_packet ipv4_repr ipv4_repr.protocol v) _
          e1 in
      record {
        ipv4_packet = ipv4_packet;
        ipv4_repr = ipv4_repr;
        carried = carried;
        packets = packets;
        before = v;
        after = w;
        has_header = h;
        parsed = (lift-eq-ret (net.ip_parse ipv4_packet) u parsed).0;
        checked = checked;
        enqueued = e2;
      }

  looked_at_lem :
      (eth_packet shaved payload : Bytes) (u t : State Frags W) (frames : List Bytes)
      → ethernet_frame_payload ≤ length eth_packet
      → shave_crc_from_ipv4 net (net.eth_payload eth_packet) ≡ ok shaved
      → (payload ≡ drop ethernet_frame_payload eth_packet) ⊎ Completes net shaved payload
      → looked_at eth_packet payload u ≡ ret frames t
      → Processed eth_packet t frames
  looked_at_lem eth_packet shaved payload u t frames h first_shaved origin e =
      let (second, v, e1, e2) =
        continue-eq-ret (lift (new_checked net.ip_check_len payload) u) _ e in
      let (ipv4_packet, w, e3, e4) =
        continue-eq-ret (lift (shave_crc_from_ipv4 net second) v) _ e2 in
      checked_lem eth_packet ipv4_packet w t frames h
        (record {
          shaved = shaved;
          payload = payload;
          first_shaved = first_shaved;
          origin = origin;
          second_shaved =
              subst (λ a. shave_crc_from_ipv4 net a ≡ ok ipv4_packet)
                (new_checked-eq-ret net.ip_check_len payload u v e1)
                (lift-eq-ret (shave_crc_from_ipv4 net second) v e3).0;
        })
        e4

  shaved_lem :
      (side : Side) (eth_packet eth_payload shaved : Bytes) (u t : State Frags W)
      (frames : List Bytes)
      → ethernet_frame_payload ≤ length eth_packet
      → eth_payload ≡ drop ethernet_frame_payload eth_packet
      → shave_crc_from_ipv4 net (net.eth_payload eth_packet) ≡ ok shaved
      → (reassemble net side shaved eth_payload >>= looked_at eth_packet) u ≡ ret frames t
      → Processed eth_packet t frames
  shaved_lem side eth_packet eth_payload shaved u t frames h cut first_shaved e =
      let (payload, v, found, e1) =
        continue-eq-ret (reassemble net side shaved eth_payload u) _ e in
      looked_at_lem eth_packet shaved payload v t frames h first_shaved
        (subst (λ a. (payload ≡ a) ⊎ Completes net shaved payload) cut
          (reassemble-eq-ret net side shaved eth_payload u v found))
        e1

  framed_lem :
      (side : Side) (eth_packet eth_payload eth_frame : Bytes) (u t : State Frags W)
      (frames : List Bytes)
      → ethernet_frame_payload ≤ length eth_packet
      → eth_payload ≡ drop ethernet_frame_payload eth_packet
      → eth_frame ≡ eth_packet
      → (do
        first ← lift (new_checked net.ip_check_len (net.eth_payload eth_frame))
        shaved ← lift (shave_crc_from_ipv4 net first)
        reassemble net side shaved eth_payload >>= looked_at eth_packet)
          u
        ≡ ret frames t
      → Processed eth_packet t frames
  framed_lem side eth_packet eth_payload eth_frame u t frames h cut same e =
      let (first, v, e1, e2) =
        continue-eq-ret (lift (new_checked net.ip_check_len (net.eth_payload eth_frame)) u) _ e in
      let (shaved, w, e3, e4) = continue-eq-ret (lift (shave_crc_from_ipv4 net first) v) _ e2 in
      shaved_lem side eth_packet eth_payload shaved w t frames h cut
        (subst (λ a. shave_crc_from_ipv4 net a ≡ ok shaved)
          (new_checked-eq-ret net.ip_check_len (net.eth_payload eth_frame) u v e1
            ∙ ap net.eth_payload same)
          (lift-eq-ret (shave_crc_from_ipv4 net first) v e3).0)
        e4

  pub process_ipv4-eq-ret :
      (side : Side) (eth_packet : Bytes) (s t : State Frags W) (frames : List Bytes)
      → process_ipv4 net side filter eth_packet s ≡ ret frames t
      → Processed eth_packet t frames
  unfolding process_ipv4
  process_ipv4-eq-ret side eth_packet s t frames e =
      let (eth_payload, u, cut, e1) =
        continue-eq-ret (slice_from eth_packet ethernet_frame_payload s) _ e in
      let (eth_frame, v, same, e2) =
        continue-eq-ret (lift (new_checked net.eth_check_len eth_packet) u) _ e1 in
      framed_lem side eth_packet eth_payload eth_frame v t frames
        (slice_from-bound eth_packet ethernet_frame_payload s u cut)
        (slice_from-drop eth_packet ethernet_frame_payload s u cut)
        (new_checked-eq-ret net.eth_check_len eth_packet u v same) e2
