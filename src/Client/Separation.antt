-- ===== src/Client/Separation.antt =====
-- `client_tx` and `client_rx` share no queue, no fragments and no result.
use rustwall.Base.{
  ◌≡◌, refl, ap, ◌∙◌, subst, sym, ℕ, zero, suc, ℤ, minus_one, as_usize, Bytes, Bool, true, List, [],
  ◌∷◌, Option, none, some,
}
use rustwall.Exec.{Exec, Outcome, ret, fail, crash, hang, pure, ◌>>◌}
use rustwall.Exec.Keeps.{
  Frame, Keeps, Ends, Allowed, keeps_rules, Keeps-bind, Keeps-then, Keeps-pure, Keeps-if,
  Keeps-stuck, Keeps-weaken,
}
use rustwall.Smoltcp.{Smoltcp}
use rustwall.Externs.{Externs, Filter}
use rustwall.State.{State, Side, rx, tx}
use rustwall.Buffer.{EthdriverRxStatus}
use rustwall.Buffer.Exchange.{
  Kept, kept_of, exchange_kept, copy_data-Keeps, fetch_data-Keeps, dispatch-Keeps, next-Keeps,
}
use rustwall.Ipv4.Aside.{CountsUp, CountsUp-refl, CountsUp-trans, other}
use rustwall.Ethernet.{process_ethernet}
use rustwall.Ethernet.Growth.{Passed}
use rustwall.Ethernet.Queue.{process_ethernet-Grows}
use rustwall.Client.{
  ignored, ignore_error, send_packets, client_tx, receive_packets, deliver_packet, client_rx,
  more_data,
}

-- What belongs to the other direction: its queue, its fragments and its stored result.
pub record Others (Frags : Type 0) : Type 0 where
  pub packets : List Bytes
  pub fragments : Frags
  pub result : ℤ

abbrev pub others_of : {Frags : Type 0} → Side → Kept Frags → Others Frags
others_of side k = record {
  packets = other side k.packets_rx k.packets_tx;
  fragments = other side k.fragments_rx k.fragments_tx;
  result = other side k.ret_client_rx k.ret_client_tx;
}

module _ {Frags W : Type 0} where
  -- What belongs to the other direction stays, and the counters count up without wrapping around.
  pub record Beside (side : Side) (s t : State Frags W) : Type 0 where
    pub same : others_of side (kept_of t) ≡ others_of side (kept_of s)
    pub seed : CountsUp 16 s.seed t.seed
    pub ms : CountsUp 63 s.ms t.ms

  pub Beside-kept : (side : Side) (s t : State Frags W) → kept_of t ≡ kept_of s → Beside side s t
  Beside-kept side s t e = record {
    same = ap (others_of side) e;
    seed = subst (CountsUp 16 s.seed) (ap (λ k. k.seed) (sym e)) (CountsUp-refl 16 s.seed);
    ms = subst (CountsUp 63 s.ms) (ap (λ k. k.ms) (sym e)) (CountsUp-refl 63 s.ms);
  }

  Beside-Passed :
      (side : Side) (filter : Filter W) (frame : Bytes) (s t : State Frags W)
      → Passed side side filter frame s t
      → Beside side s t
  Beside-Passed rx filter frame s t p = record {
    same = λ i. record {
      packets = (p.same i).other_packets;
      fragments = p.moves.others i;
      result = (p.same i).ret_client_tx;
    };
    seed = p.moves.seed;
    ms = p.moves.ms;
  }
  Beside-Passed tx filter frame s t p = record {
    same = λ i. record {
      packets = (p.same i).other_packets;
      fragments = p.moves.others i;
      result = (p.same i).ret_client_rx;
    };
    seed = p.moves.seed;
    ms = p.moves.ms;
  }

abbrev pub beside : (Frags W : Type 0) → Side → Frame (State Frags W)
beside Frags W side = record {
  Rel = Beside side;
  Rel_refl = λ s. Beside-kept side s s refl;
  Rel_trans = λ s t u p q. record {
    same = q.same ∙ p.same;
    seed = CountsUp-trans 16 s.seed t.seed u.seed p.seed q.seed;
    ms = CountsUp-trans 63 s.ms t.ms u.ms p.ms q.ms;
  };
  Stuck = Unit;
}

module _ {Frags W : Type 0} where
  -- The steps of the loops that change the state themselves.
  own_tx-Beside :
      (s : State Frags W) (q : List Bytes) (r : ℤ)
      → Beside tx s (record s { packets_tx = q; ret_client_tx = r })
  own_tx-Beside s q r = record {
    same = refl;
    seed = CountsUp-refl 16 s.seed;
    ms = CountsUp-refl 63 s.ms;
  }

  own_rx-Beside :
      (s : State Frags W) (q : List Bytes) (r : ℤ)
      → Beside rx s (record s { packets_rx = q; ret_client_rx = r })
  own_rx-Beside s q r = record {
    same = refl;
    seed = CountsUp-refl 16 s.seed;
    ms = CountsUp-refl 63 s.ms;
  }

  store_tx-Beside :
      (r : ℤ)
      → Keeps (beside Frags W tx) (λ (s : State Frags W). ret tt (record s { ret_client_tx = r }))
  store_tx-Beside r = record { at = λ s. own_tx-Beside s s.packets_tx r }

  pop_tx-Beside :
      (q : List Bytes)
      → Keeps (beside Frags W tx) (λ (s : State Frags W). ret tt (record s { packets_tx = q }))
  pop_tx-Beside q = record { at = λ s. own_tx-Beside s q s.ret_client_tx }

  store_rx-Beside :
      (r : ℤ)
      → Keeps (beside Frags W rx) (λ (s : State Frags W). ret tt (record s { ret_client_rx = r }))
  store_rx-Beside r = record { at = λ s. own_rx-Beside s s.packets_rx r }

  pop_rx-Beside :
      (q : List Bytes)
      → Keeps (beside Frags W rx) (λ (s : State Frags W). ret tt (record s { packets_rx = q }))
  pop_rx-Beside q = record { at = λ s. own_rx-Beside s q s.ret_client_rx }

  exchanged :
      {A : Type 0} {side : Side} {m : Exec (State Frags W) A}
      → Keeps exchange_kept m
      → Keeps (beside Frags W side) m
  exchanged {side = side} k = Keeps-weaken (Beside-kept side) (λ _. tt) k

pub Keeps-ignore :
    {S : Type 0} {F : Frame S} {m : Exec S (Unit {0})} → Keeps F m → Keeps F (ignore_error m)
Keeps-ignore {F = F} {m = m} k = record { at = λ s. same_end F s (m s) (k.at s) }
  where
    same_end :
        {S : Type 0} (F : Frame S) (s : S) (o : Outcome S (Unit {0}))
        → Ends (Allowed F.Stuck) (F.Rel s) o
        → Ends (Allowed F.Stuck) (F.Rel s) (ignored o)
    same_end F s (ret a t) h = h
    same_end F s (fail e t) h = h
    same_end F s (crash c) h = h

module _ {Frag Frags W : Type 0} (net : Smoltcp Frag Frags) (ext : Externs W) where
  frame-Beside :
      (side : Side) (filter : Filter W) (check_mac : Bool) (frame : Bytes)
      → Keeps
          (beside Frags W side)
          (ignore_error (process_ethernet net ext frame side side filter check_mac))
  frame-Beside side filter check_mac frame = Keeps-ignore (
      Keeps-weaken (Beside-Passed side filter frame) (λ h. absurd h)
        (process_ethernet-Grows net ext side side filter frame check_mac))

  send_packets-Beside : (q : List Bytes) → Keeps (beside Frags W tx) (send_packets net ext q)
  unfolding send_packets
  send_packets-Beside [] = Keeps-pure tt
  send_packets-Beside (p ∷ q) = Keeps-then _ _ (pop_tx-Beside q) (
      Keeps-bind _ _ (exchanged (dispatch-Keeps ext p))
        λ r. Keeps-if _ _ _ (store_tx-Beside minus_one) (send_packets-Beside q))

  client_tx-Beside : (n : ℤ) → Keeps (beside Frags W tx) (client_tx net ext n)
  unfolding client_tx
  client_tx-Beside n =
      Keeps-bind _ _ (exchanged (fetch_data-Keeps (as_usize n)))
        λ frame. search (keeps_rules, frame-Beside, store_tx-Beside, send_packets-Beside) depth 12

  receive_packets-Beside :
      (fuel : ℕ) (status : EthdriverRxStatus)
      → Keeps (beside Frags W rx) (receive_packets net ext fuel status)
  unfolding receive_packets
  receive_packets-Beside zero status = Keeps-stuck hang tt
  receive_packets-Beside (suc fuel) status =
      Keeps-bind _ _ (exchanged (next-Keeps ext status))
        λ item. by_item item.1 item.0 (receive_packets-Beside fuel item.0)
    where
      by_item :
          (item : Option Bytes) (later : EthdriverRxStatus)
          → Keeps (beside Frags W rx) (receive_packets net ext fuel later)
          → Keeps (beside Frags W rx) (elim item [
            | none ↦ pure tt
            | some frame ↦ (do
              ignore_error (process_ethernet net ext frame rx rx ext.packet_in true)
              receive_packets net ext fuel later)
          ])
      by_item none later k = Keeps-pure tt
      by_item (some frame) later k = Keeps-then _ _ (frame-Beside rx ext.packet_in true frame) k

  deliver_packet-Beside :
      (len : ℤ) (q : List Bytes) → Keeps (beside Frags W rx) (deliver_packet net ext len q)
  unfolding deliver_packet
  deliver_packet-Beside len [] = search (keeps_rules, store_rx-Beside)
  deliver_packet-Beside len (p ∷ q) = Keeps-then _ _ (pop_rx-Beside q) (
      Keeps-bind _ _ (exchanged (copy_data-Keeps p))
        λ n. Keeps-then _ _ (store_rx-Beside (more_data q)) (Keeps-pure _))

  client_rx-Beside : (fuel : ℕ) (len : ℤ) → Keeps (beside Frags W rx) (client_rx net ext fuel len)
  unfolding client_rx
  client_rx-Beside fuel len =
      search (keeps_rules, receive_packets-Beside, deliver_packet-Beside) depth 12

  -- However they end, `client_tx` leaves the queue of received frames, the fragments of received
  -- packets and the stored result of `client_rx` as they were, and `client_rx` the queue of frames to
  -- send, the fragments of packets to send and the stored result of `client_tx`; and both only
  -- count the packet identifiers and the clock up, without wrapping around.
  pub client_calls-Separate :
      ((n : ℤ) → Keeps (beside Frags W tx) (client_tx net ext n))
      × ((fuel : ℕ) (len : ℤ) → Keeps (beside Frags W rx) (client_rx net ext fuel len))
  client_calls-Separate = (client_tx-Beside, client_rx-Beside)
