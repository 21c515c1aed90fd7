-- ===== src/Glue/Listening.antt =====
-- `client_rx` of src/lib.rs on the TAP device of src/server_glue.c only waits for the device and
-- reads from it.
use rustwall.Base.{
  ℕ, zero, suc, ◌≤◌, refl, sym, subst, ℤ, pos, negsuc, is_zero, is_minus_one, as_usize, Bytes, true,
  ◌||◌, List, [], ◌∷◌, ◌++◌, Option, none, some, length, drop, length-append, length-drop, inl, inr,
  arith,
}
use rustwall.Exec.{Exec, Outcome, ret, fail, crash, deadlock, gets, modify, pure, ◌>>=◌, ◌>>◌}
use rustwall.Exec.Keeps.{
  Frame, Ends, Keeps, Keeps-weaken, Keeps-bind, Keeps-then, Keeps-if, Keeps-pure, Keeps-gets,
  Keeps-modify, Keeps-stuck, unchanged, keeps_rules,
}
use rustwall.Exec.Safe.{Safe, Safe-bind, Safe-then, Safe-if, Safe-pure, Safe-gets, Safe-Keeps}
use rustwall.Constants.{buffer_size}
use rustwall.Smoltcp.{Smoltcp}
use rustwall.Externs.{Externs}
use rustwall.State.{
  State, Pointer, rx, lock_ethdriver, unlock_ethdriver, lock_client, unlock_client,
}
use rustwall.Buffer.{
  EthdriverRxStatus, new_status, next, rx_status, after_rx, call_ethdriver_rx,
  copy_data_to_client_buf,
}
use rustwall.Buffer.Exchange.{assert_not_null-Keeps, insert-Keeps, fetch-Keeps}
use rustwall.Ethernet.{process_ethernet}
use rustwall.Ethernet.Queue.{process_ethernet-Grows}
use rustwall.Client.{ignore_error, receive_packets, deliver_packet, client_rx}
use rustwall.Client.Separation.{Keeps-ignore}
use rustwall.Ipv4.Aside.{Asked-same}
use rustwall.ExternalFirewall.{packet_in}
use rustwall.Memory.{memcpy}
use rustwall.Ethernet.Short.{Anything}
use rustwall.Glue.{
  Os, Glue, content_size, tun_select, tun_read, receive, ethdriver_init, ethdriver_rx,
}
use rustwall.Glue.Deaf.{init_again}
use rustwall.Glue.Room.{memcpy-length}
use rustwall.Glue.Traffic.{Traffic, waited, heard, Heard}
use rustwall.Glue.Link.{lend, rx_answer, glue_rx, packet_in-Stateless, glue_externs}

module _ {K : Type 0} (os : Os K) (g0 : Glue K) where
  -- From `g0` on, nothing was written.
  abbrev Listened : Glue K → Type 0
  Listened g = Heard os g0 g

  init-Listened : Safe Anything Listened (ethdriver_init os)
  init-Listened = record { at = λ g h. rw (init_again os g h.up.status) h }

  select-Listened : Safe Anything Listened (tun_select os)
  unfolding tun_select
  select-Listened = record {
    at = λ g h. record {
      up = record { status = h.up.status; room = h.up.room };
      same_fd = h.same_fd;
      traffic = waited h.traffic _ _ _;
    };
  }

  longer :
      (bytes mem : Bytes)
      → buffer_size ≤ length mem
      → buffer_size ≤ length (bytes ++ drop (length bytes) mem)
  longer bytes mem h =
      omega (arith, length-append bytes (drop (length bytes) mem), length-drop (length bytes) mem)

  read-Listened : Safe Anything Listened (tun_read os)
  unfolding tun_read
  read-Listened = record {
    at = λ g h. record {
      up = record { status = h.up.status; room = longer _ g.tun_buffer h.up.room };
      same_fd = h.same_fd;
      traffic =
          subst (λ fd. Traffic os g0.tun_fd g0.kernel [] (os.read fd content_size g.kernel).2)
            (sym h.same_fd) (heard h.traffic content_size);
    };
  }

  lend-Listened : (mem : Bytes) (g : Glue K) → Listened g → Listened (lend mem g)
  lend-Listened mem g h = record {
    up = record { status = h.up.status; room = h.up.room };
    same_fd = h.same_fd;
    traffic = h.traffic;
  }

  copied-Listened :
      (n : ℕ) (r : ℤ × ℤ)
      → Safe Anything Listened (do
        g ← gets (λ (g : Glue K). g)
        mem ← memcpy (some g.from_ethdriver_data) (some g.tun_buffer) n
        modify (λ g. record g { from_ethdriver_data = mem })
        pure r)
  copied-Listened n r = record {
    at = λ g h. elim (memcpy-length g.from_ethdriver_data g.tun_buffer n g) [
      | inl passed ↦ rw passed tt
      | inr (mem, copied, same) ↦ rw copied (lend-Listened mem g h)
    ];
  }

  rx-Listened : (n : ℤ) → Safe Anything Listened (ethdriver_rx os n)
  unfolding ethdriver_rx receive
  rx-Listened n = Safe-then _ _ init-Listened (
      Safe-bind _ _ select-Listened λ rv.
        Safe-if (is_minus_one rv || is_zero rv) _ _ (Safe-pure _)
          (Safe-bind _ _ read-Listened λ len. copied-Listened (as_usize len) (pos 0, len)))

module _ {Frags W : Type 0} where
  -- What the firewall does itself leaves the outside world alone.
  abbrev world_kept : Frame (State Frags W)
  world_kept = unchanged (λ s. s.world)

  lock-Keeps : Keeps world_kept lock_ethdriver
  unfolding lock_ethdriver
  lock-Keeps =
      Keeps-bind _ _ (Keeps-gets _)
        λ held. Keeps-if held _ _ (Keeps-stuck deadlock tt) (Keeps-modify _ (λ s. refl))

  unlock-Keeps : Keeps world_kept unlock_ethdriver
  unfolding unlock_ethdriver
  unlock-Keeps = Keeps-modify _ (λ s. refl)

  status-Keeps :
      (ext : Externs W) (status : EthdriverRxStatus) (r len : ℤ)
      → Keeps world_kept (rx_status ext status r len)
  unfolding rx_status
  status-Keeps ext status (pos e) len =
      search (keeps_rules, assert_not_null-Keeps, fetch-Keeps) depth 20
  status-Keeps ext status (negsuc e) len = search keeps_rules

  lock_client-Keeps : Keeps world_kept lock_client
  unfolding lock_client
  lock_client-Keeps =
      Keeps-bind _ _ (Keeps-gets _)
        λ held. Keeps-if held _ _ (Keeps-stuck deadlock tt) (Keeps-modify _ (λ s. refl))

  unlock_client-Keeps : Keeps world_kept unlock_client
  unfolding unlock_client
  unlock_client-Keeps = Keeps-modify _ (λ s. refl)

  store-Keeps : (mem : Bytes) → Keeps world_kept (λ s. ret tt (record s { client_buf = some mem }))
  store-Keeps mem = record { at = λ s. refl }

  copy-Keeps : (frame : Bytes) → Keeps world_kept (copy_data_to_client_buf frame)
  unfolding copy_data_to_client_buf
  copy-Keeps frame =
      search
        (
          keeps_rules, lock_client-Keeps, unlock_client-Keeps, store-Keeps, assert_not_null-Keeps,
          insert-Keeps,
        )
        depth 20

module _ {Frag Frags K : Type 0} (net : Smoltcp Frag Frags) (os : Os K) (g0 : Glue K) where
  -- The state with such a device.
  abbrev StillListened : State Frags (Glue K) → Type 0
  StillListened s = Heard os g0 s.world

  own-Listened :
      {A : Type 0} {m : Exec (State Frags (Glue K)) A}
      → Keeps world_kept m
      → Safe Anything StillListened m
  own-Listened {m = m} k =
      Safe-Keeps m (λ c h. tt) (λ s t same h. subst (Heard os g0) (sym same) h) k

  call-Listened : Safe Anything StillListened (call_ethdriver_rx (glue_externs os))
  unfolding call_ethdriver_rx glue_externs
  call-Listened = record { at = λ s h. by_buffer s.ethdriver_buf s h }
    where
      by_end :
          (s : State Frags (Glue K)) (o : Outcome (Glue K) (ℤ × ℤ))
          → Ends Anything (Heard os g0) o
          → Ends Anything StillListened (after_rx (rx_answer o) s)
      by_end s (ret (r, len) g) h = h
      by_end s (fail e g) h = tt
      by_end s (crash c) h = tt

      by_buffer :
          (buf : Pointer) (s : State Frags (Glue K))
          → StillListened s
          → Ends Anything StillListened (after_rx (glue_rx os (pos 0) buf s.world) s)
      by_buffer none s h = tt
      by_buffer (some mem) s h =
          by_end s _
            ((rx-Listened os g0 (pos 0)).at (lend mem s.world) (lend-Listened os g0 mem s.world h))

  next-Listened :
      (status : EthdriverRxStatus) → Safe Anything StillListened (next (glue_externs os) status)
  unfolding next
  next-Listened status = Safe-if status.finished _ _ (Safe-pure _) (
      Safe-then _ _ (own-Listened lock-Keeps) (
        Safe-bind _ _ call-Listened λ answer.
          Safe-bind _ _ (own-Listened (status-Keeps (glue_externs os) status answer.0 answer.1))
            λ result. Safe-then _ _ (own-Listened unlock-Keeps) (Safe-pure result)))

  frame-Listened :
      (frame : Bytes)
      → Safe Anything StillListened
          (ignore_error (process_ethernet net (glue_externs os) frame rx rx packet_in true))
  frame-Listened frame = own-Listened (
      Keeps-ignore (
        Keeps-weaken (λ s t p. Asked-same packet_in-Stateless p.moves.asked) (λ h. tt)
          (process_ethernet-Grows net (glue_externs os) rx rx packet_in frame true)))

  receive_packets-Listened :
      (fuel : ℕ) (status : EthdriverRxStatus)
      → Safe Anything StillListened (receive_packets net (glue_externs os) fuel status)
  unfolding receive_packets glue_externs
  receive_packets-Listened zero status = record { at = λ s h. tt }
  receive_packets-Listened (suc fuel) status =
      Safe-bind _ _ (next-Listened status)
        λ item. by_item item.1 item.0 (receive_packets-Listened fuel item.0)
    where
      by_item :
          (item : Option Bytes) (later : EthdriverRxStatus)
          → Safe Anything StillListened (receive_packets net (glue_externs os) fuel later)
          → Safe Anything StillListened (elim item [
            | none ↦ pure tt
            | some frame ↦ (do
              ignore_error (process_ethernet net (glue_externs os) frame rx rx packet_in true)
              receive_packets net (glue_externs os) fuel later)
          ])
      by_item none later k = Safe-pure tt
      by_item (some frame) later k = Safe-then _ _ (frame-Listened frame) k

  deliver_packet-Listened :
      (len : ℤ) (q : List Bytes)
      → Safe Anything StillListened (deliver_packet net (glue_externs os) len q)
  unfolding deliver_packet
  deliver_packet-Listened len [] =
      own-Listened (Keeps-then _ _ (Keeps-modify _ (λ s. refl)) (Keeps-pure _))
  deliver_packet-Listened len (p ∷ q) = own-Listened (
      Keeps-then _ _ (Keeps-modify _ (λ s. refl)) (
        Keeps-bind _ _ (copy-Keeps p)
          λ n. Keeps-then _ _ (Keeps-modify _ (λ s. refl)) (Keeps-pure _)))

  -- With the device set up, `client_rx` writes nothing to it: it waits for it and reads from it, any
  -- number of times, and leaves it set up, with its descriptor.
  pub client_rx-Listened :
      (fuel : ℕ) (len : ℤ) → Safe Anything StillListened (client_rx net (glue_externs os) fuel len)
  unfolding client_rx
  client_rx-Listened fuel len =
      Safe-then _ _ (receive_packets-Listened fuel new_status)
        (Safe-bind _ _ (Safe-gets _) λ q. deliver_packet-Listened len q)
