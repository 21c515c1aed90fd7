-- ===== src/Client/Validity/Receiving.antt =====
-- `client_rx` keeps the state valid.
use rustwall.Base.{
  ℕ, zero, suc, ◌<◌, ◌≤◌, ◌≡◌, refl, sym, ap, ◌∙◌, subst, ℤ, pos, negsuc, minus_one, as_usize,
  Bytes, Option, none, some, true, false, List, [], ◌∷◌, length, ltb, leb, arith, ltb→lt,
  length-take, take, Bool-cases, inl, inr,
}
use rustwall.Exec.{Outcome, Crash, ret, fail, crash, continue}
use rustwall.Exec.Keeps.{Ends, Ends-weaken, Allowed}
use rustwall.Exec.Safe.{Safe, Ends-both, Ends-continue, NoDeadlock, live-NoDeadlock}
use rustwall.Constants.{buffer_size, max_enqueued_packets}
use rustwall.Smoltcp.{Smoltcp, LengthLaws}
use rustwall.Externs.{Externs, Filter}
use rustwall.State.{State, Pointer, rx}
use rustwall.Buffer.{EthdriverRxStatus, new_status, next}
use rustwall.Ethernet.{process_ethernet}
use rustwall.Ethernet.Growth.{Passed}
use rustwall.Ethernet.Queue.{process_ethernet-Grows}
use rustwall.Ethernet.Short.{IsShort, Anything, QueueShort, process_ethernet-Short}
use rustwall.Client.{ignored, receive_packets, deliver_packet, client_rx, more_data}
use rustwall.Client.Mutexes.{ignored-continue}
use rustwall.Client.Validity.{IsRoomy, IsValid, KeepsRoom, driver-IsValid, copy_lem}
use rustwall.Client.Validity.Sending.{stored-IsValid}

module _ {Frags W : Type 0} where
  after_rx-IsValid :
      (filter : Filter W) (frame : Bytes) (s t : State Frags W)
      → IsValid s
      → Passed rx rx filter frame s t × QueueShort rx t
      → IsValid t
  after_rx-IsValid filter frame s t v (p, short) = record {
    ethdriver_free = ap (λ a. a.ethdriver_locked) p.same ∙ v.ethdriver_free;
    client_free = ap (λ a. a.client_locked) p.same ∙ v.client_free;
    ethdriver_roomy = subst IsRoomy (sym (ap (λ a. a.ethdriver_buf) p.same)) v.ethdriver_roomy;
    client_roomy = subst IsRoomy (sym (ap (λ a. a.client_buf) p.same)) v.client_roomy;
    rx_short = short;
    tx_short = subst IsShort (sym (ap (λ a. a.other_packets) p.same)) v.tx_short;
    rx_bounded = p.queue.bounded v.rx_bounded;
    tx_bounded =
        subst (λ q. length q ≤ max_enqueued_packets) (sym (ap (λ a. a.other_packets) p.same))
          v.tx_bounded;
    seed_fits = p.moves.seed.fits v.seed_fits;
    ms_fits = p.moves.ms.fits v.ms_fits;
  }

  -- One step of the iterator: the state stays valid, and a frame is shorter than BUFFER_SIZE.
  abbrev Arrives : Outcome (State Frags W) (EthdriverRxStatus × Option Bytes) → Type 0
  Arrives (ret (status, none) t) = IsValid t
  Arrives (ret (status, some frame) t) = IsValid t × (length frame < buffer_size)
  Arrives (fail e t) = ⊥
  Arrives (crash c) = Allowed ⊥ c

  popped-IsValid :
      {C : Crash → Type 0} (q : List Bytes)
      → IsShort q
      → length q ≤ max_enqueued_packets
      → Safe C IsValid (λ (s : State Frags W). ret tt (record s { packets_rx = q }))
  popped-IsValid q h k = record {
    at = λ s v. record {
      ethdriver_free = v.ethdriver_free;
      client_free = v.client_free;
      ethdriver_roomy = v.ethdriver_roomy;
      client_roomy = v.client_roomy;
      rx_short = h;
      tx_short = v.tx_short;
      rx_bounded = k;
      tx_bounded = v.tx_bounded;
      seed_fits = v.seed_fits;
      ms_fits = v.ms_fits;
    };
  }

short_lem : (n : ℕ) (mem : Bytes) → n < buffer_size → length (take n mem) < buffer_size
short_lem n mem h = omega (arith, length-take n mem)

module _ {Frags W : Type 0} (ext : Externs W) (room : KeepsRoom ext) where
  fetched_lem :
      (r len : ℤ) (status : EthdriverRxStatus) (s : State Frags W) (buf : Pointer) (w : W)
      → IsValid s
      → status.finished ≡ false
      → ext.ethdriver_rx (pos 0) s.ethdriver_buf s.world ≡ some (r, len, buf, w)
      → IsValid (record s { ethdriver_buf = buf; ethdriver_locked = false; world = w })
      → Arrives (next ext status s)
  unfolding next
  fetched_lem (negsuc zero) len status s buf w v f e after = rw (f, v.ethdriver_free, e) after
  fetched_lem (negsuc (suc n)) len status s buf w v f e after = rw (f, v.ethdriver_free, e) tt
  fetched_lem (pos zero) len status s none w v f e after = rw (f, v.ethdriver_free, e) tt
  fetched_lem (pos zero) len status s (some mem) w v f e after =
      elim (Bool-cases (ltb (as_usize len) buffer_size)) [
        | inl short ↦ elim (Bool-cases (leb (as_usize len) (length mem))) [
          | inl inside ↦
              rw (f, v.ethdriver_free, e, short, inside)
                (after, short_lem (as_usize len) mem (ltb→lt _ _ short))
          | inr outside ↦ rw (f, v.ethdriver_free, e, short, outside) tt
        ]
        | inr long ↦ rw (f, v.ethdriver_free, e, long) tt
      ]
  fetched_lem (pos (suc zero)) len status s none w v f e after = rw (f, v.ethdriver_free, e) tt
  fetched_lem (pos (suc zero)) len status s (some mem) w v f e after =
      elim (Bool-cases (ltb (as_usize len) buffer_size)) [
        | inl short ↦ elim (Bool-cases (leb (as_usize len) (length mem))) [
          | inl inside ↦
              rw (f, v.ethdriver_free, e, short, inside)
                (after, short_lem (as_usize len) mem (ltb→lt _ _ short))
          | inr outside ↦ rw (f, v.ethdriver_free, e, short, outside) tt
        ]
        | inr long ↦ rw (f, v.ethdriver_free, e, long) tt
      ]
  fetched_lem (pos (suc (suc n))) len status s buf w v f e after = ground arith

  by_answer :
      (answer : Option (ℤ × ℤ × Pointer × W)) (status : EthdriverRxStatus) (s : State Frags W)
      → IsValid s
      → status.finished ≡ false
      → ext.ethdriver_rx (pos 0) s.ethdriver_buf s.world ≡ answer
      → Arrives (next ext status s)
  unfolding next
  by_answer none status s v f e = rw (f, v.ethdriver_free, e) tt
  by_answer (some (r, len, buf, w)) status s v f e = fetched_lem r len status s buf w v f e (
      driver-IsValid s buf w
        (room.rx_room (pos 0) s.ethdriver_buf s.world r len buf w e v.ethdriver_roomy) v)

  next-Arrives :
      (status : EthdriverRxStatus) (s : State Frags W) → IsValid s → Arrives (next ext status s)
  unfolding next
  next-Arrives status s v = elim (Bool-cases status.finished) [
    | inl finished ↦ rw finished v
    | inr going ↦ by_answer _ status s v going refl
  ]

module _ {Frag Frags W : Type 0} (net : Smoltcp Frag Frags) (ext : Externs W)
    (laws : LengthLaws net) (room : KeepsRoom ext) where
  round-IsValid :
      (fuel : ℕ) (s : State Frags W)
      → ((status : EthdriverRxStatus)
          → Safe NoDeadlock IsValid (receive_packets net ext fuel status))
      → (o : Outcome (State Frags W) (EthdriverRxStatus × Option Bytes)) → Arrives o
      → Ends NoDeadlock IsValid (
          continue o (λ item. elim item.1 [
            | none ↦ ret tt
            | some frame ↦ λ u.
                continue
                  (ignored (process_ethernet net ext frame rx rx ext.packet_in true u))
                  (λ _. receive_packets net ext fuel item.0)
          ]))
  round-IsValid fuel s later (ret (status, none) t) h = h
  round-IsValid fuel s later (ret (status, some frame) t) (v, short) =
      ignored-continue NoDeadlock (λ u. Passed rx rx ext.packet_in frame t u × QueueShort rx u)
        IsValid _ _ live-NoDeadlock
        (Ends-both (Allowed ⊥) Anything (Passed rx rx ext.packet_in frame t) (QueueShort rx) _
          ((process_ethernet-Grows net ext rx rx ext.packet_in frame true).at t)
          ((process_ethernet-Short net ext rx laws rx ext.packet_in frame short true).at t
            v.rx_short))
        (λ u p. (later status).at u (after_rx-IsValid ext.packet_in frame t u v p))
  round-IsValid fuel s later (fail e t) h = absurd h
  round-IsValid fuel s later (crash c) h = live-NoDeadlock c h

  receive-IsValid :
      (fuel : ℕ) (status : EthdriverRxStatus)
      → Safe NoDeadlock IsValid (receive_packets net ext fuel status)
  unfolding receive_packets
  receive-IsValid zero status = record { at = λ s v. tt }
  receive-IsValid (suc fuel) status = record {
    at = λ s v. round-IsValid fuel s (receive-IsValid fuel) _ (next-Arrives ext room status s v);
  }

  -- A valid state has a queue of frames that fit: to deliver the first takes no mutex twice, does
  -- not panic and keeps the state valid.
  deliver-IsValid :
      (len : ℤ) (q : List Bytes) (s : State Frags W)
      → IsValid s
      → s.packets_rx ≡ q
      → Ends (λ _. ⊥) IsValid (deliver_packet net ext len q s)
  unfolding deliver_packet
  deliver-IsValid len [] s v e = stored-IsValid minus_one s.ret_client_tx v
  deliver-IsValid len (p ∷ q) s v e =
      let short : IsShort (p ∷ q) = subst IsShort e v.rx_short in
      let bounded : length (p ∷ q) ≤ max_enqueued_packets =
        subst (λ a. length a ≤ max_enqueued_packets) e v.rx_bounded in
      let popped = (popped-IsValid {C = λ _. ⊥} q short.1 (omega arith)).at s v in
      let (t, copied, valid, _) =
        copy_lem p s.client_buf (record s { packets_rx = q }) popped short.0 refl in
      rw copied (stored-IsValid (more_data q) t.ret_client_tx valid)

  -- `client_rx` keeps the state valid, whatever the driver answers, and takes no mutex twice; with
  -- smoltcp keeping the lengths of its buffers and the driver its buffer.
  pub client_rx-IsValid :
      (fuel : ℕ) (len : ℤ) → Safe NoDeadlock IsValid (client_rx net ext fuel len)
  unfolding client_rx
  client_rx-IsValid fuel len = record {
    at = λ s v.
        Ends-continue NoDeadlock IsValid (receive_packets net ext fuel new_status s) _
          ((receive-IsValid fuel new_status).at s v)
          (λ _ t valid.
            Ends-weaken (λ _. ⊥) NoDeadlock IsValid IsValid _ (λ c h. absurd h) (λ u h. h)
              (deliver-IsValid len t.packets_rx t valid refl));
  }
