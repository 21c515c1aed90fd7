-- ===== src/Ethernet/Short.antt =====
-- The frames in a queue fit the shared buffers.
use rustwall.Base.{
  ◌<◌, ◌≡◌, refl, sym, subst, Bytes, Bool, true, false, List, [], ◌∷◌, ◌++◌, All, All-append, some,
  length, ltb, Bool-cases, inl, inr,
}
use rustwall.Exec.{Outcome, Crash, ret, fail, crash, continue}
use rustwall.Exec.Inversion.{Result-cases}
use rustwall.Exec.Keeps.{Keeps, Ends, Ends-weaken, Allowed, unchanged, keeps_rules, Keeps-pure}
use rustwall.Exec.Safe.{Safe, Safe-Keeps, Safe-pure, Safe-bind, Safe-if}
use rustwall.Constants.{buffer_size, max_enqueued_packets}
use rustwall.Smoltcp.{Smoltcp, LengthLaws, EthernetProtocol, ipv4, ipv6, arp, other_ethertype}
use rustwall.Externs.{Externs, Filter}
use rustwall.State.{State, Side, rx, tx, packets, set_packets}
use rustwall.Buffer.Address.{get_device_mac-Keeps}
use rustwall.Ipv4.{process_ipv4}
use rustwall.Ipv4.Aside.{Aside}
use rustwall.Ipv4.Untouched.{process_ipv4-outer}
use rustwall.Ipv4.Handled.{process_ipv4-Short}
use rustwall.Ethernet.{push_packet, push_packets, is_for_other, check_ethertype, process_ethernet}
use rustwall.Ethernet.Queue.{own-packets}

-- Every frame is shorter than BUFFER_SIZE.
abbrev pub IsShort : List Bytes → Type 0
IsShort frames = All (λ f. length f < buffer_size) frames

abbrev pub Anything : Crash → Type 0
Anything c = Unit

module _ {Frags W : Type 0} (side : Side) where
  -- The queue of that side is short.
  abbrev pub QueueShort : State Frags W → Type 0
  QueueShort s = IsShort (packets side s)

  pushed :
      (s : State Frags W) (frame : Bytes)
      → length frame < buffer_size
      → QueueShort s
      → QueueShort (set_packets side (packets side s ++ frame ∷ []) s)
  pushed s frame h q = by_side side q
    where
      by_side :
          (d : Side)
          → IsShort (packets d s)
          → IsShort (packets d (set_packets d (packets d s ++ frame ∷ []) s))
      by_side rx q = All-append (λ f. length f < buffer_size) s.packets_rx (frame ∷ []) q (h, tt)
      by_side tx q = All-append (λ f. length f < buffer_size) s.packets_tx (frame ∷ []) q (h, tt)

  push_packet-Short :
      (frame : Bytes)
      → length frame < buffer_size
      → Safe Anything QueueShort (push_packet side frame)
  unfolding push_packet
  push_packet-Short frame h = record {
    at = λ s q. elim (Bool-cases (ltb (length (packets side s)) max_enqueued_packets)) [
      | inl room ↦ rw room (pushed s frame h q)
      | inr full ↦ rw full q
    ];
  }

  push_packets-Short :
      (frames : List Bytes) → IsShort frames → Safe Anything QueueShort (push_packets side frames)
  unfolding push_packets
  push_packets-Short [] h = Safe-pure tt
  push_packets-Short (frame ∷ frames) h = record {
    at = λ s q. elim (Bool-cases (ltb (length (packets side s)) max_enqueued_packets)) [
      | inl room ↦ rw room ((push_packets-Short frames h.1).at _ (pushed s frame h.0 q))
      | inr full ↦ rw full q
    ];
  }

module _ {Frag Frags W : Type 0} (net : Smoltcp Frag Frags) (ext : Externs W) (side : Side) where
  mac_packets :
      (s : State Frags W) (mac : Bytes)
      → packets side (record s { client_mac_address = some mac }) ≡ packets side s
  mac_packets s mac = by_side side
    where
      by_side : (d : Side) → packets d (record s { client_mac_address = some mac }) ≡ packets d s
      by_side rx = refl
      by_side tx = refl

  is_for_other-Same :
      (check_mac : Bool) (frame : Bytes)
      → Keeps (unchanged (packets side)) (is_for_other net ext check_mac frame)
  unfolding is_for_other
  is_for_other-Same false frame = Keeps-pure false
  is_for_other-Same true frame = search (keeps_rules, get_device_mac-Keeps, mac_packets)

  is_for_other-Short :
      (check_mac : Bool) (frame : Bytes)
      → Safe Anything (QueueShort side) (is_for_other net ext check_mac frame)
  is_for_other-Short check_mac frame =
      Safe-Keeps _ (λ c h. tt) (λ s t same q. subst IsShort (sym same) q)
        (is_for_other-Same check_mac frame)

  module _ (laws : LengthLaws net) (fragment_buffer : Side) (filter : Filter W) (frame : Bytes)
      (short : length frame < buffer_size) where
    by_outcome :
        (s : State Frags W) (o : Outcome (State Frags W) (List Bytes))
        → process_ipv4 net fragment_buffer filter frame s ≡ o
        → Ends Anything (λ t. packets side t ≡ packets side s) o
        → QueueShort side s
        → Ends Anything (QueueShort side) (continue o (push_packets side))
    by_outcome s (ret frames t) e same q =
        (push_packets-Short side frames
            (process_ipv4-Short net filter laws fragment_buffer frame s t frames short e)).at
          t (subst IsShort (sym same) q)
    by_outcome s (fail x t) e same q = subst IsShort (sym same) q
    by_outcome s (crash c) e same q = tt

    check_ethertype-Short :
        (p : EthernetProtocol)
        → Safe Anything
            (QueueShort side)
            (check_ethertype net ext side fragment_buffer filter frame p)
    unfolding check_ethertype
    check_ethertype-Short ipv4 = record {
      at = λ s q.
          by_outcome s _ refl
            (Ends-weaken (Allowed ⊥) Anything (Aside fragment_buffer filter s)
              (λ t. packets side t ≡ packets side s) _ (λ c h. tt)
              (own-packets side fragment_buffer filter frame s)
              ((process_ipv4-outer net fragment_buffer filter frame).at s))
            q;
    }
    check_ethertype-Short ipv6 = Safe-pure tt
    check_ethertype-Short arp = push_packet-Short side frame short
    check_ethertype-Short (other_ethertype n) = Safe-pure tt

    -- When `process_ethernet` returns, with or without an error, a frame that fits the shared
    -- buffers leaves only such frames in the queue, if there were only such; with smoltcp keeping the
    -- lengths of its buffers.
    pub process_ethernet-Short :
        (check_mac : Bool)
        → Safe Anything
            (QueueShort side)
            (process_ethernet net ext frame side fragment_buffer filter check_mac)
    unfolding process_ethernet
    process_ethernet-Short check_mac = elim (Result-cases (net.eth_check_len frame)) [
      | inl (tt, fits) ↦ rw fits (
          Safe-bind _ _ (is_for_other-Short check_mac frame) λ other.
            Safe-if other _ _ (Safe-pure tt) (check_ethertype-Short (net.eth_ethertype frame)))
      | inr (e, wrong) ↦ record { at = λ s q. rw wrong q }
    ]
