-- ===== src/Client/Validity.antt =====
-- A valid state of the firewall, and what the exchange with C does to one.
pub mod Sending
pub mod Receiving
use rustwall.Base.{
  ℕ, ◌^◌, ◌<◌, ◌≤◌, ◌≡◌, refl, sym, ap, ◌∙◌, subst, ℤ, pos, Bytes, Option, none, some, false, ◌++◌,
  length, drop, ltb, leb, arith, lt→ltb, le→leb, length-put, length-take, take,
}
use rustwall.Exec.{Crash, exited, ret}
use rustwall.Exec.Keeps.{Ends}
use rustwall.Exec.Safe.{Safe}
use rustwall.Constants.{buffer_size, max_enqueued_packets}
use rustwall.Externs.{Externs}
use rustwall.State.{State, Pointer}
use rustwall.Buffer.{dispatch_data_to_ethdriver, fetch_client_data, copy_data_to_client_buf}
use rustwall.Ethernet.Short.{IsShort}

-- A buffer that is there, with BUFFER_SIZE bytes at least.
abbrev pub IsRoomy : Pointer → Type 0
IsRoomy none = ⊥
IsRoomy (some mem) = buffer_size ≤ length mem

-- Both mutexes are free, both buffers are there, the frames in both queues fit them and are not too
-- many, and the packet identifiers and the clock are in the range of their types.
pub record IsValid {Frags W : Type 0} (s : State Frags W) : Type 0 where
  pub ethdriver_free : s.ethdriver_locked ≡ false
  pub client_free : s.client_locked ≡ false
  pub ethdriver_roomy : IsRoomy s.ethdriver_buf
  pub client_roomy : IsRoomy s.client_buf
  pub rx_short : IsShort s.packets_rx
  pub tx_short : IsShort s.packets_tx
  pub rx_bounded : length s.packets_rx ≤ max_enqueued_packets
  pub tx_bounded : length s.packets_tx ≤ max_enqueued_packets
  pub seed_fits : s.seed < 2 ^ 16
  pub ms_fits : s.ms < 2 ^ 63

-- The driver leaves its buffer in place, whatever else it does.
pub record KeepsRoom {W : Type 0} (ext : Externs W) : Type 0 where
  pub tx_room :
      (len : ℤ) (mem : Bytes) (w : W) (r : ℤ) (mem' : Bytes) (w' : W)
      → ext.ethdriver_tx len mem w ≡ some (r, mem', w')
      → buffer_size ≤ length mem
      → buffer_size ≤ length mem'
  pub rx_room :
      (len : ℤ) (buf : Pointer) (w : W) (r len' : ℤ) (buf' : Pointer) (w' : W)
      → ext.ethdriver_rx len buf w ≡ some (r, len', buf', w')
      → IsRoomy buf
      → IsRoomy buf'

-- The driver may end the process; nothing else ends a call early.
abbrev pub OnlyExit : Crash → Type 0
OnlyExit exited = Unit
OnlyExit _ = ⊥

module _ {Frags W : Type 0} where
  -- The state with another driver's buffer and world.
  pub driver-IsValid :
      (s : State Frags W) (buf : Pointer) (w : W)
      → IsRoomy buf
      → IsValid s
      → IsValid (record s { ethdriver_buf = buf; ethdriver_locked = false; world = w })
  driver-IsValid s buf w room v = record {
    ethdriver_free = refl;
    client_free = v.client_free;
    ethdriver_roomy = room;
    client_roomy = v.client_roomy;
    rx_short = v.rx_short;
    tx_short = v.tx_short;
    rx_bounded = v.rx_bounded;
    tx_bounded = v.tx_bounded;
    seed_fits = v.seed_fits;
    ms_fits = v.ms_fits;
  }

  client-IsValid :
      (s : State Frags W) (mem : Bytes)
      → buffer_size ≤ length mem
      → IsValid s
      → IsValid (record s { client_buf = some mem; client_locked = false })
  client-IsValid s mem room v = record {
    ethdriver_free = v.ethdriver_free;
    client_free = refl;
    ethdriver_roomy = v.ethdriver_roomy;
    client_roomy = room;
    rx_short = v.rx_short;
    tx_short = v.tx_short;
    rx_bounded = v.rx_bounded;
    tx_bounded = v.tx_bounded;
    seed_fits = v.seed_fits;
    ms_fits = v.ms_fits;
  }

  -- A fetch of fewer than BUFFER_SIZE bytes returns them, and leaves the state as it was.
  pub fetch_lem :
      (n : ℕ) (buf : Pointer) (s : State Frags W)
      → IsValid s
      → n < buffer_size
      → s.client_buf ≡ buf
      → (b : Bytes) × (fetch_client_data n s ≡ ret b s) × (length b ≡ n)
  unfolding fetch_client_data
  fetch_lem n none s v h e = absurd (subst IsRoomy e v.client_roomy)
  fetch_lem n (some mem) s v h e =
      let room : buffer_size ≤ length mem = subst IsRoomy e v.client_roomy in
      let fetched : fetch_client_data n s ≡ ret (take n mem) (record s { client_locked = false }) =
        simp (v.client_free, e, lt→ltb n buffer_size h, le→leb n (length mem) (omega arith)) in
      (
        take n mem,
        fetched ∙ ap (λ l. ret (take n mem) (record s { client_locked = l })) (sym v.client_free),
        omega (arith, length-take n mem),
      )

  pub copy_lem :
      (frame : Bytes) (buf : Pointer) (s : State Frags W)
      → IsValid s
      → length frame < buffer_size
      → s.client_buf ≡ buf
      → (t : State Frags W) × (copy_data_to_client_buf frame s ≡ ret (pos (length frame)) t)
        × IsValid t
        × (t.packets_rx ≡ s.packets_rx)
  unfolding copy_data_to_client_buf
  copy_lem frame none s v h e = absurd (subst IsRoomy e v.client_roomy)
  copy_lem frame (some mem) s v h e =
      let room : buffer_size ≤ length mem = subst IsRoomy e v.client_roomy in
      (
        record s { client_buf = some (frame ++ drop (length frame) mem); client_locked = false },
        simp (
          v.client_free,
          e,
          lt→ltb (length frame) buffer_size h,
          le→leb (length frame) (length mem) (omega arith),
        ),
        client-IsValid s (frame ++ drop (length frame) mem)
            (omega (arith, length-put frame mem (omega arith))) v,
        refl,
      )

module _ {Frags W : Type 0} (ext : Externs W) (room : KeepsRoom ext) where
  by_answer :
      (frame mem : Bytes) (answer : Option (ℤ × Bytes × W)) (s : State Frags W)
      → IsValid s
      → length frame < buffer_size
      → s.ethdriver_buf ≡ some mem
      → ext.ethdriver_tx (pos (length frame)) (frame ++ drop (length frame) mem) s.world ≡ answer
      → Ends OnlyExit IsValid (dispatch_data_to_ethdriver ext frame s)
  unfolding dispatch_data_to_ethdriver
  by_answer frame mem none s v h e a =
      let big : buffer_size ≤ length mem = subst IsRoomy e v.ethdriver_roomy in
      simp
        (
          v.ethdriver_free,
          e,
          lt→ltb (length frame) buffer_size h,
          le→leb (length frame) (length mem) (omega arith),
          a,
        )
        tt
  by_answer frame mem (some (r, mem', w')) s v h e a =
      let big : buffer_size ≤ length mem = subst IsRoomy e v.ethdriver_roomy in
      simp
        (
          v.ethdriver_free,
          e,
          lt→ltb (length frame) buffer_size h,
          le→leb (length frame) (length mem) (omega arith),
          a,
        )
        (driver-IsValid s (some mem') w'
          (room.tx_room (pos (length frame)) (frame ++ drop (length frame) mem) s.world r mem' w' a
            (omega (arith, length-put frame mem (omega arith))))
          v)

  dispatch_lem :
      (frame : Bytes) (buf : Pointer) (s : State Frags W)
      → IsValid s
      → length frame < buffer_size
      → s.ethdriver_buf ≡ buf
      → Ends OnlyExit IsValid (dispatch_data_to_ethdriver ext frame s)
  dispatch_lem frame none s v h e = absurd (subst IsRoomy e v.ethdriver_roomy)
  dispatch_lem frame (some mem) s v h e = by_answer frame mem _ s v h e refl

  -- A frame that fits is sent without a panic and without passing a buffer's end.
  pub dispatch-IsValid :
      (frame : Bytes)
      → length frame < buffer_size
      → Safe OnlyExit IsValid (dispatch_data_to_ethdriver {Frags = Frags} ext frame)
  dispatch-IsValid frame h = record { at = λ s v. dispatch_lem frame s.ethdriver_buf s v h refl }
