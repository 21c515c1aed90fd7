-- ===== src/Ethernet/Queue.antt =====
-- What `process_ethernet` does to the state: its queue of frames only grows, within the limit.
use rustwall.Base.{
  All, ◌≡◌, refl, sym, ap, subst, Bytes, Bool, true, false, List, [], ◌∷◌, ◌++◌, some, ltb, length,
  Bool-cases, inl, inr,
}
use rustwall.Exec.{Outcome, ret, fail, crash, continue}
use rustwall.Exec.Inversion.{Result-cases}
use rustwall.Exec.Keeps.{Keeps, keeps_rules, Keeps-bind, Keeps-pure, Ends, Allowed, Ends-trans}
use rustwall.Constants.{max_enqueued_packets}
use rustwall.Smoltcp.{Smoltcp, EthernetProtocol, ipv4, ipv6, arp, other_ethertype}
use rustwall.Externs.{Externs, Filter}
use rustwall.State.{State, Side, rx, tx, packets, set_packets}
use rustwall.Buffer.Address.{get_device_mac-Keeps}
use rustwall.Ipv4.{process_ipv4}
use rustwall.Ipv4.Frames.{SameHeader, process_ipv4-SameHeader}
use rustwall.Ipv4.Aside.{inner, MovesOn-refl, Aside}
use rustwall.Ipv4.Untouched.{process_ipv4-outer}
use rustwall.Ethernet.Growth.{
  Grows, Grows-refl, Grows-push, own_queue, around_of, Passed, queue_grows,
}
use rustwall.Ethernet.{push_packet, push_packets, is_for_other, check_ethertype, process_ethernet}

module _ {Frags W : Type 0} (side store : Side) (filter : Filter W) (eth_packet : Bytes) where
  mac-Passed :
      (s : State Frags W) (mac : Bytes)
      → Passed side store filter eth_packet s (record s { client_mac_address = some mac })
  mac-Passed s mac = by_side side
    where
      by_side :
          (d : Side)
          → Passed d store filter eth_packet s (record s { client_mac_address = some mac })
      by_side rx = record {
        queue = Grows-refl eth_packet s.packets_rx;
        same = refl;
        moves = MovesOn-refl store filter (inner s);
      }
      by_side tx = record {
        queue = Grows-refl eth_packet s.packets_tx;
        same = refl;
        moves = MovesOn-refl store filter (inner s);
      }

  set_packets-Passed :
      (s : State Frags W) (frame : Bytes)
      → SameHeader eth_packet frame
      → ltb (length (packets side s)) max_enqueued_packets ≡ true
      → Passed side store filter eth_packet s (set_packets side (packets side s ++ frame ∷ []) s)
  set_packets-Passed s frame same room = by_side side room
    where
      by_side :
          (d : Side)
          → ltb (length (packets d s)) max_enqueued_packets ≡ true
          → Passed d store filter eth_packet s (set_packets d (packets d s ++ frame ∷ []) s)
      by_side rx h = record {
        queue = Grows-push eth_packet s.packets_rx frame same h;
        same = refl;
        moves = MovesOn-refl store filter (inner s);
      }
      by_side tx h = record {
        queue = Grows-push eth_packet s.packets_tx frame same h;
        same = refl;
        moves = MovesOn-refl store filter (inner s);
      }

  full-Passed : (s : State Frags W) → Passed side store filter eth_packet s s
  full-Passed s = record {
    queue = Grows-refl eth_packet (packets side s);
    same = refl;
    moves = MovesOn-refl store filter (inner s);
  }

  push_packet-Grows :
      (frame : Bytes)
      → SameHeader eth_packet frame
      → Keeps (queue_grows Frags side store filter eth_packet) (push_packet side frame)
  unfolding push_packet
  push_packet-Grows frame same = record {
    at = λ s. elim (Bool-cases (ltb (length (packets side s)) max_enqueued_packets)) [
      | inl room ↦ rw room (set_packets-Passed s frame same room)
      | inr full ↦ rw full (full-Passed s)
    ];
  }

  push_packets-Grows :
      (frames : List Bytes)
      → All (SameHeader eth_packet) frames
      → Keeps (queue_grows Frags side store filter eth_packet) (push_packets side frames)
  unfolding push_packets
  push_packets-Grows [] same = Keeps-pure tt
  push_packets-Grows (frame ∷ frames) same = record {
    at = λ s. elim (Bool-cases (ltb (length (packets side s)) max_enqueued_packets)) [
      | inl room ↦ rw room (
          Ends-trans (queue_grows Frags side store filter eth_packet) s _ _
            (set_packets-Passed s frame same.0 room) ((push_packets-Grows frames same.1).at _))
      | inr full ↦ rw full (full-Passed s)
    ];
  }

  pub own-packets : (s t : State Frags W) → Aside store filter s t → packets side t ≡ packets side s
  own-packets s t a = by_side side
    where
      by_side : (d : Side) → packets d t ≡ packets d s
      by_side rx = ap (own_queue rx) a.same
      by_side tx = ap (own_queue tx) a.same

  Aside-Passed :
      (s t : State Frags W) → Aside store filter s t → Passed side store filter eth_packet s t
  Aside-Passed s t a = record {
    queue =
        subst (Grows eth_packet (packets side s)) (sym (own-packets s t a))
          (Grows-refl eth_packet _);
    same = ap (around_of side) a.same;
    moves = a.moves;
  }

module _ {Frag Frags W : Type 0} (net : Smoltcp Frag Frags) (ext : Externs W)
    (side fragment_buffer : Side) (filter : Filter W) where
  is_for_other-Grows :
      (check_mac : Bool) (frame : Bytes)
      → Keeps
          (queue_grows Frags side fragment_buffer filter frame)
          (is_for_other net ext check_mac frame)
  unfolding is_for_other
  is_for_other-Grows false frame = Keeps-pure false
  is_for_other-Grows true frame = search (keeps_rules, get_device_mac-Keeps, mac-Passed)

  by_outcome :
      (frame : Bytes) (s : State Frags W) (o : Outcome (State Frags W) (List Bytes))
      → process_ipv4 net fragment_buffer filter frame s ≡ o
      → Ends (Allowed ⊥) (Aside fragment_buffer filter s) o
      → Ends
          (Allowed ⊥)
          (Passed side fragment_buffer filter frame s)
          (continue o (push_packets side))
  by_outcome frame s (ret frames t) e aside =
      Ends-trans (queue_grows Frags side fragment_buffer filter frame) s t _
        (Aside-Passed side fragment_buffer filter frame s t aside)
        ((push_packets-Grows side fragment_buffer filter frame frames
            (process_ipv4-SameHeader net filter fragment_buffer frame s t frames e)).at
          t)
  by_outcome frame s (fail x t) e aside = Aside-Passed side fragment_buffer filter frame s t aside
  by_outcome frame s (crash c) e aside = aside

  check_ethertype-Grows :
      (frame : Bytes) (p : EthernetProtocol)
      → Keeps
          (queue_grows Frags side fragment_buffer filter frame)
          (check_ethertype net ext side fragment_buffer filter frame p)
  unfolding check_ethertype
  check_ethertype-Grows frame ipv4 = record {
    at =
        λ s. by_outcome frame s _ refl ((process_ipv4-outer net fragment_buffer filter frame).at s);
  }
  check_ethertype-Grows frame ipv6 = Keeps-pure tt
  check_ethertype-Grows frame arp = push_packet-Grows side fragment_buffer filter frame frame refl
  check_ethertype-Grows frame (other_ethertype n) = Keeps-pure tt

  -- Whatever the frame and whatever comes of it, the queue that `process_ethernet` is given only
  -- gets frames with the Ethernet header of this one appended, and is not longer than
  -- MAX_ENQUEUED_PACKETS afterwards if it was not before; the shared buffers, the locks, the
  -- other queue, the stored results and the fragments of the other direction stay, the outside
  -- world is only asked about datagrams, the packet identifiers and the clock only count up, without
  -- wrapping around, and there is no deadlock and no endless loop.
  pub process_ethernet-Grows :
      (frame : Bytes) (check_mac : Bool)
      → Keeps
          (queue_grows Frags side fragment_buffer filter frame)
          (process_ethernet net ext frame side fragment_buffer filter check_mac)
  unfolding process_ethernet
  process_ethernet-Grows frame check_mac = elim (Result-cases (net.eth_check_len frame)) [
    | inl (_, fits) ↦ rw fits (
        Keeps-bind _ _ (is_for_other-Grows check_mac frame)
          λ other. search (keeps_rules, check_ethertype-Grows))
    | inr (_, wrong) ↦ record {
      at = λ s. rw wrong (full-Passed side fragment_buffer filter frame s);
    }
  ]
