-- ===== src/Ipv4/Frames.antt =====
-- The frames that `process_ipv4` returns.
use rustwall.Base.{
  ◌≤◌, ◌≡◌, refl, All, sym, ap, subst, ◌∙◌, Bytes, List, [], ◌∷◌, ◌++◌, map, take, length, ◌⊎◌, inl,
  inr, arith, take_own, length-append, length-take,
}
use rustwall.Exec.{ret, lift}
use rustwall.Exec.Inversion.{continue-eq-ret, ret-value}
use rustwall.Constants.{ethernet_frame_payload}
use rustwall.Smoltcp.{Smoltcp, new_checked}
use rustwall.Externs.{Filter}
use rustwall.State.{State, Side}
use rustwall.Ipv4.Steps.{new_checked-eq-ret, process_ipv4-eq-ret}
use rustwall.Ipv4.{wrap_packets, enqueue_frames, process_ipv4}

-- The packets behind the header of the frame.
abbrev pub framed : Bytes → List Bytes → List Bytes
framed eth_packet packets = map (λ p. take ethernet_frame_payload eth_packet ++ p) packets

header_len :
    (eth_packet p : Bytes)
    → ethernet_frame_payload ≤ length eth_packet
    → ethernet_frame_payload ≤ length (take ethernet_frame_payload eth_packet ++ p)
header_len eth_packet p h = omega (
  arith,
  length-append (take ethernet_frame_payload eth_packet) p,
  length-take ethernet_frame_payload eth_packet,
)

-- A frame made from `eth_packet` has its header.
framed-own :
    (eth_packet p : Bytes) (ps : List Bytes)
    → ethernet_frame_payload ≤ length eth_packet
    → framed (take ethernet_frame_payload eth_packet ++ p) ps ≡ framed eth_packet ps
framed-own eth_packet p ps h =
    ap (λ header. map (λ q. header ++ q) ps) (take_own ethernet_frame_payload eth_packet p h)

-- The frame `f` has the Ethernet header of `eth_packet`.
abbrev pub SameHeader : Bytes → Bytes → Type 0
SameHeader eth_packet f = take ethernet_frame_payload f ≡ take ethernet_frame_payload eth_packet

framed-SameHeader :
    (eth_packet : Bytes) (packets : List Bytes)
    → ethernet_frame_payload ≤ length eth_packet
    → All (SameHeader eth_packet) (framed eth_packet packets)
framed-SameHeader eth_packet [] h = tt
framed-SameHeader eth_packet (p ∷ ps) h =
    (take_own ethernet_frame_payload eth_packet p h, framed-SameHeader eth_packet ps h)

module _ {Frag Frags : Type 0} (net : Smoltcp Frag Frags) {S : Type 0} where
  pub wrap_packets-framed :
      (packets : List Bytes) (eth_packet : Bytes) (s t : S) {frames : List Bytes}
      → ethernet_frame_payload ≤ length eth_packet
      → wrap_packets net eth_packet packets s ≡ ret frames t
      → frames ≡ framed eth_packet packets
  unfolding wrap_packets
  wrap_packets-framed [] eth_packet s t h e = sym (ret-value e)
  wrap_packets-framed (p ∷ ps) eth_packet s t h e =
      let whole : Bytes = take ethernet_frame_payload eth_packet ++ p in
      let (frame, u, checked, e1) =
        continue-eq-ret (lift (new_checked net.eth_check_len whole) s) _ e in
      let (rest, v, wrapped, e2) = continue-eq-ret (wrap_packets net whole ps u) _ e1 in
      let first : frame ≡ whole = new_checked-eq-ret net.eth_check_len whole s u checked in
      let others : rest ≡ framed eth_packet ps =
        wrap_packets-framed ps whole u v (header_len eth_packet p h) wrapped
        ∙ framed-own eth_packet p ps h in
      sym (ret-value e2) ∙ ap (λ x. x ∷ rest) first ∙ ap (λ x. whole ∷ x) others

  pub enqueue_frames-nil :
      (eth_packet : Bytes) (s t : S) {frames : List Bytes}
      → enqueue_frames net eth_packet [] s ≡ ret frames t
      → frames ≡ eth_packet ∷ []
  unfolding enqueue_frames
  enqueue_frames-nil eth_packet s t e =
      let (frame, u, checked, e1) =
        continue-eq-ret (lift (new_checked net.eth_check_len eth_packet) s) _ e in
      sym (ret-value e1)
      ∙ ap (λ x. x ∷ []) (new_checked-eq-ret net.eth_check_len eth_packet s u checked)

  pub enqueue_frames-framed :
      (packets : List Bytes) (eth_packet : Bytes) (s t : S) {frames : List Bytes}
      → ethernet_frame_payload ≤ length eth_packet
      → enqueue_frames net eth_packet packets s ≡ ret frames t
      → (frames ≡ eth_packet ∷ []) ⊎ ((ps : List Bytes) × (frames ≡ framed eth_packet ps))
  unfolding enqueue_frames
  enqueue_frames-framed [] eth_packet s t h e = inl (enqueue_frames-nil eth_packet s t e)
  enqueue_frames-framed (p ∷ ps) eth_packet s t h e =
      inr (p ∷ ps, wrap_packets-framed (p ∷ ps) eth_packet s t h e)

module _ {Frag Frags W : Type 0} (net : Smoltcp Frag Frags) (filter : Filter W) where
  -- If `process_ipv4` returns, it returns the frame as it came and nothing else, or frames that
  -- each begin with its Ethernet header.
  pub process_ipv4-framed :
      (side : Side) (eth_packet : Bytes) (s t : State Frags W) (frames : List Bytes)
      → process_ipv4 net side filter eth_packet s ≡ ret frames t
      → (frames ≡ eth_packet ∷ []) ⊎ ((packets : List Bytes) × (frames ≡ framed eth_packet packets))
  process_ipv4-framed side eth_packet s t frames e =
      let p = process_ipv4-eq-ret net filter side eth_packet s t frames e in
      enqueue_frames-framed net p.packets eth_packet p.after t p.has_header p.enqueued

  -- The frames that `process_ipv4` returns have the Ethernet header of the one that it was given.
  pub process_ipv4-SameHeader :
      (side : Side) (eth_packet : Bytes) (s t : State Frags W) (frames : List Bytes)
      → process_ipv4 net side filter eth_packet s ≡ ret frames t
      → All (SameHeader eth_packet) frames
  process_ipv4-SameHeader side eth_packet s t frames e =
      elim (process_ipv4-framed side eth_packet s t frames e) [
        | inl same ↦ subst (All (SameHeader eth_packet)) (sym same) (refl, tt)
        | inr (ps, made) ↦ subst (All (SameHeader eth_packet)) (sym made) (
            framed-SameHeader eth_packet ps
              (process_ipv4-eq-ret net filter side eth_packet s t frames e).has_header)
      ]
