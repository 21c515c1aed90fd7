-- ===== src/Ethernet/Growth.antt =====
-- How a frame may change the state: its queue grows, and the rest stays.
use rustwall.Base.{
  ℤ, All, All-append, ◌≤◌, ◌≡◌, refl, sym, ap, ◌∙◌, Bytes, Bool, true, List, [], ◌∷◌, ◌++◌, ltb,
  length, length-append, arith, ltb→lt,
}
use mathlib.Core.List.{append-nil, append_assoc}
use rustwall.Exec.Keeps.{Frame}
use rustwall.Constants.{max_enqueued_packets}
use rustwall.Externs.{Filter}
use rustwall.State.{State, Pointer, Side, rx, tx, packets}
use rustwall.Ipv4.Frames.{SameHeader}
use rustwall.Ipv4.Aside.{Outer, outer, inner, MovesOn, MovesOn-refl, MovesOn-trans}

-- The later queue is the earlier one with frames behind it, and no longer than the limit if the
-- earlier one was not; the frames have the Ethernet header of `eth_packet`.
pub record Grows (eth_packet : Bytes) (before after : List Bytes) : Type 0 where
  pub added : List Bytes
  pub after_eq : after ≡ before ++ added
  pub made : All (SameHeader eth_packet) added
  pub bounded : length before ≤ max_enqueued_packets → length after ≤ max_enqueued_packets

module _ (eth_packet : Bytes) where
  pub Grows-refl : (q : List Bytes) → Grows eth_packet q q
  Grows-refl q = record { added = []; after_eq = sym (append-nil q); made = tt; bounded = λ h. h }

  pub Grows-trans :
      (a b c : List Bytes) → Grows eth_packet a b → Grows eth_packet b c → Grows eth_packet a c
  Grows-trans a b c p q = record {
    added = p.added ++ q.added;
    after_eq = q.after_eq ∙ ap (λ x. x ++ q.added) p.after_eq ∙ append_assoc a p.added q.added;
    made = All-append (SameHeader eth_packet) p.added q.added p.made q.made;
    bounded = λ h. q.bounded (p.bounded h);
  }

  pub Grows-push :
      (q : List Bytes) (frame : Bytes)
      → SameHeader eth_packet frame
      → ltb (length q) max_enqueued_packets ≡ true
      → Grows eth_packet q (q ++ frame ∷ [])
  Grows-push q frame same room = record {
    added = frame ∷ [];
    after_eq = refl;
    made = (same, tt);
    bounded = λ h. omega (arith, length-append q (frame ∷ []), ltb→lt _ _ room);
  }

-- What no frame changes: the shared buffers, the locks, the other queue and the stored results.
pub record Around : Type 0 where
  pub ethdriver_buf : Pointer
  pub client_buf : Pointer
  pub ethdriver_locked : Bool
  pub client_locked : Bool
  pub other_packets : List Bytes
  pub ret_client_rx : ℤ
  pub ret_client_tx : ℤ

abbrev pub other_queue : Side → Outer → List Bytes
other_queue rx o = o.packets_tx
other_queue tx o = o.packets_rx

abbrev pub own_queue : Side → Outer → List Bytes
own_queue rx o = o.packets_rx
own_queue tx o = o.packets_tx

abbrev pub around_of : Side → Outer → Around
around_of side o = record {
  ethdriver_buf = o.ethdriver_buf;
  client_buf = o.client_buf;
  ethdriver_locked = o.ethdriver_locked;
  client_locked = o.client_locked;
  other_packets = other_queue side o;
  ret_client_rx = o.ret_client_rx;
  ret_client_tx = o.ret_client_tx;
}

module _ {Frags W : Type 0} where
  abbrev pub around : Side → State Frags W → Around
  around side s = around_of side (outer s)

  -- The queue has grown, what a packet may change has moved on, and the rest is as it was.
  pub record Passed (side store : Side) (filter : Filter W) (eth_packet : Bytes)
      (s t : State Frags W) : Type 0 where
    pub queue : Grows eth_packet (packets side s) (packets side t)
    pub same : around side t ≡ around side s
    pub moves : MovesOn store filter (inner s) (inner t)

abbrev pub queue_grows :
    (Frags : Type 0) {W : Type 0} → Side → Side → Filter W → Bytes → Frame (State Frags W)
queue_grows Frags side store filter eth_packet = record {
  Rel = Passed side store filter eth_packet;
  Rel_refl = λ s. record {
    queue = Grows-refl eth_packet (packets side s);
    same = refl;
    moves = MovesOn-refl store filter (inner s);
  };
  Rel_trans = λ s t u p q. record {
    queue =
        Grows-trans eth_packet (packets side s) (packets side t) (packets side u) p.queue q.queue;
    same = q.same ∙ p.same;
    moves = MovesOn-trans store filter (inner s) (inner t) (inner u) p.moves q.moves;
  };
  Stuck = ⊥;
}
