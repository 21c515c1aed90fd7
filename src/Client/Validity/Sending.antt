-- ===== src/Client/Validity/Sending.antt =====
-- `client_tx` keeps the state valid.
use rustwall.Base.{
  ◌<◌, ◌≤◌, ◌≡◌, refl, sym, ap, ◌∙◌, subst, ℤ, pos, minus_one, is_minus_one, as_usize, Bytes, none,
  some, false, List, [], ◌∷◌, length, ltb, arith, ltb→lt, Bool-cases, inl, inr,
}
use rustwall.Exec.{Crash, ret}
use rustwall.Exec.Keeps.{Ends, Ends-weaken, Allowed}
use rustwall.Exec.Safe.{Safe, Ends-both, Ends-continue, Safe-then, Safe-bind, Safe-if, Safe-pure}
use rustwall.Constants.{buffer_size, max_enqueued_packets}
use rustwall.Smoltcp.{Smoltcp, LengthLaws}
use rustwall.Externs.{Externs, Filter}
use rustwall.State.{State, Pointer, tx}
use rustwall.Buffer.{fetch_client_data}
use rustwall.Ethernet.Growth.{Passed}
use rustwall.Ethernet.Queue.{process_ethernet-Grows}
use rustwall.Ethernet.Short.{IsShort, Anything, QueueShort, process_ethernet-Short}
use rustwall.Ethernet.{process_ethernet}
use rustwall.Client.{ignore_error, send_packets, client_tx}
use rustwall.Client.Mutexes.{continue-ignored}
use rustwall.Client.Validity.{IsRoomy, IsValid, KeepsRoom, OnlyExit, fetch_lem, dispatch-IsValid}

exit_live : (c : Crash) → OnlyExit c → Allowed ⊥ c
exit_live c h = ground arith

module _ {Frags W : Type 0} where
  tx_queue-IsValid :
      {C : Crash → Type 0} (q : List Bytes)
      → IsShort q
      → length q ≤ max_enqueued_packets
      → Safe C IsValid (λ (s : State Frags W). ret tt (record s { packets_tx = q }))
  tx_queue-IsValid q h k = record {
    at = λ s v. record {
      ethdriver_free = v.ethdriver_free;
      client_free = v.client_free;
      ethdriver_roomy = v.ethdriver_roomy;
      client_roomy = v.client_roomy;
      rx_short = v.rx_short;
      tx_short = h;
      rx_bounded = v.rx_bounded;
      tx_bounded = k;
      seed_fits = v.seed_fits;
      ms_fits = v.ms_fits;
    };
  }

  pub stored-IsValid :
      {s : State Frags W} (a b : ℤ)
      → IsValid s
      → IsValid (record s { ret_client_rx = a; ret_client_tx = b })
  stored-IsValid a b v = record {
    ethdriver_free = v.ethdriver_free;
    client_free = v.client_free;
    ethdriver_roomy = v.ethdriver_roomy;
    client_roomy = v.client_roomy;
    rx_short = v.rx_short;
    tx_short = v.tx_short;
    rx_bounded = v.rx_bounded;
    tx_bounded = v.tx_bounded;
    seed_fits = v.seed_fits;
    ms_fits = v.ms_fits;
  }

  stored_tx-IsValid :
      {C : Crash → Type 0} (r : ℤ)
      → Safe C IsValid (λ (s : State Frags W). ret tt (record s { ret_client_tx = r }))
  stored_tx-IsValid r = record { at = λ s v. stored-IsValid s.ret_client_rx r v }

  after_tx-IsValid :
      (filter : Filter W) (frame : Bytes) (s t : State Frags W)
      → IsValid s
      → Passed tx tx filter frame s t × QueueShort tx t
      → IsValid t
  after_tx-IsValid filter frame s t v (p, short) = record {
    ethdriver_free = ap (λ a. a.ethdriver_locked) p.same ∙ v.ethdriver_free;
    client_free = ap (λ a. a.client_locked) p.same ∙ v.client_free;
    ethdriver_roomy = subst IsRoomy (sym (ap (λ a. a.ethdriver_buf) p.same)) v.ethdriver_roomy;
    client_roomy = subst IsRoomy (sym (ap (λ a. a.client_buf) p.same)) v.client_roomy;
    rx_short = subst IsShort (sym (ap (λ a. a.other_packets) p.same)) v.rx_short;
    tx_short = short;
    rx_bounded =
        subst (λ q. length q ≤ max_enqueued_packets) (sym (ap (λ a. a.other_packets) p.same))
          v.rx_bounded;
    tx_bounded = p.queue.bounded v.tx_bounded;
    seed_fits = p.moves.seed.fits v.seed_fits;
    ms_fits = p.moves.ms.fits v.ms_fits;
  }

module _ {Frag Frags W : Type 0} (net : Smoltcp Frag Frags) (ext : Externs W) where
  too_long :
      (P : State Frags W → Type 0) (n : ℤ) (buf : Pointer) (s : State Frags W)
      → s.client_locked ≡ false
      → ltb (as_usize n) buffer_size ≡ false
      → s.client_buf ≡ buf
      → Ends (Allowed ⊥) P (client_tx net ext n s)
  unfolding client_tx fetch_client_data
  too_long P n none s free long e = simp (free, e) tt
  too_long P n (some mem) s free long e = simp (free, e, long) tt

module _ {Frag Frags W : Type 0} (net : Smoltcp Frag Frags) (ext : Externs W)
    (laws : LengthLaws net) where
  -- What `client_tx` ends in, if the loop over its queue ends so after any frame.
  pub client_tx_lem :
      (P : State Frags W → Type 0) (n : ℤ) (s : State Frags W)
      → IsValid s
      → ((frame : Bytes) (u : State Frags W)
          → fetch_client_data (as_usize n) s ≡ ret frame s
          → IsValid u
          → ignore_error (process_ethernet net ext frame tx tx ext.packet_out false) s ≡ ret tt u
          → Passed tx tx ext.packet_out frame s u
          → Ends
              (Allowed ⊥)
              P
              (send_packets net ext u.packets_tx (record u { ret_client_tx = pos 0 })))
      → Ends (Allowed ⊥) P (client_tx net ext n s)
  unfolding client_tx
  client_tx_lem P n s v loop = elim (Bool-cases (ltb (as_usize n) buffer_size)) [
    | inl short ↦
        let (frame, fetched, size) =
          fetch_lem (as_usize n) s.client_buf s v (ltb→lt _ _ short) refl in
        let fits : length frame < buffer_size = omega (arith, ltb→lt _ _ short) in
        rw fetched (
          continue-ignored (Allowed ⊥)
            (λ u. Passed tx tx ext.packet_out frame s u × QueueShort tx u) P _ _ (λ c h. h)
            (Ends-both (Allowed ⊥) Anything (Passed tx tx ext.packet_out frame s) (QueueShort tx) _
              ((process_ethernet-Grows net ext tx tx ext.packet_out frame false).at s)
              ((process_ethernet-Short net ext tx laws tx ext.packet_out frame fits false).at s
                v.tx_short))
            (λ u came p.
              Ends-continue (Allowed ⊥) P
                (send_packets net ext u.packets_tx (record u { ret_client_tx = pos 0 })) _
                (loop frame u fetched (after_tx-IsValid ext.packet_out frame s u v p) came p.0)
                (λ _ t h. h)))
    | inr long ↦ too_long net ext P n s.client_buf s v.client_free long refl
  ]

module _ {Frag Frags W : Type 0} (net : Smoltcp Frag Frags) (ext : Externs W)
    (room : KeepsRoom ext) where
  -- With a valid state, the loop of `client_tx` sends any queue of at most MAX_ENQUEUED_PACKETS
  -- frames that fit without a panic and without passing a buffer's end, and keeps the state valid;
  -- for a driver that keeps its buffer.
  pub send_packets-IsValid :
      (q : List Bytes)
      → IsShort q
      → length q ≤ max_enqueued_packets
      → Safe OnlyExit IsValid (send_packets {Frags = Frags} net ext q)
  unfolding send_packets
  send_packets-IsValid [] h k = Safe-pure tt
  send_packets-IsValid (p ∷ q) h k = Safe-then _ _ (tx_queue-IsValid q h.1 (omega arith)) (
      Safe-bind _ _ (dispatch-IsValid ext room p h.0) λ r.
        Safe-if (is_minus_one r) _ _ (stored_tx-IsValid minus_one)
          (send_packets-IsValid q h.1 (omega arith)))

module _ {Frag Frags W : Type 0} (net : Smoltcp Frag Frags) (ext : Externs W)
    (laws : LengthLaws net) (room : KeepsRoom ext) where
  -- `client_tx` keeps the state valid, takes no mutex twice and ends its loops; with smoltcp
  -- keeping the lengths of its buffers and the driver its buffer.
  pub client_tx-IsValid : (n : ℤ) → Safe (Allowed ⊥) IsValid (client_tx net ext n)
  client_tx-IsValid n = record {
    at = λ s v. client_tx_lem net ext laws IsValid n s v λ frame u e w came p.
        Ends-weaken OnlyExit (Allowed ⊥) IsValid IsValid _ exit_live (λ t h. h)
          ((send_packets-IsValid net ext room u.packets_tx w.tx_short w.tx_bounded).at _
            (stored-IsValid u.ret_client_rx (pos 0) w));
  }
