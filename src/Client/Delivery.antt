-- ===== src/Client/Delivery.antt =====
-- `client_rx` as a queue: the frames that wait come out one per call, in order.
use rustwall.Base.{
  ℕ, zero, suc, ◌≤◌, ◌<◌, ◌≡◌, refl, sym, subst, ℤ, pos, minus_one, as_usize, Bytes, false, List,
  [], ◌∷◌, ◌++◌, some, length, drop, lt→ltb, le→leb, take_prefix, arith, All, length-append,
  length-put,
}
use rustwall.Exec.{Exec, ret, pure, ◌>>=◌}
use rustwall.Constants.{buffer_size}
use rustwall.Smoltcp.{Smoltcp}
use rustwall.Externs.{Externs}
use rustwall.State.{State}
use rustwall.Buffer.{next, new_status, copy_data_to_client_buf, fetch_client_data}
use rustwall.Client.{client_rx, receive_packets, deliver_packet, more_data}

module _ {Frag Frags W : Type 0} (net : Smoltcp Frag Frags) (ext : Externs W) where
  -- The driver has nothing to give, and stays as it is.
  abbrev pub Silent : State Frags W → Type 0
  Silent s =
      (len : ℤ) × (ext.ethdriver_rx (pos 0) s.ethdriver_buf s.world
        ≡ some (minus_one, len, s.ethdriver_buf, s.world))

  -- Both mutexes are free, the client's buffer is `mem`, and the frames `q` wait.
  abbrev pub waiting : Bytes → List Bytes → State Frags W → State Frags W
  waiting mem q s = record s {
    client_buf = some mem;
    client_locked = false;
    ethdriver_locked = false;
    packets_rx = q;
  }

  silent_lem :
      (fuel : ℕ) (mem : Bytes) (q : List Bytes) (s : State Frags W)
      → Silent s
      → receive_packets net ext (suc fuel) new_status (waiting mem q s) ≡ ret tt (waiting mem q s)
  unfolding receive_packets next
  silent_lem fuel mem q s (len, h) = rw h refl

  -- With the driver silent and both mutexes free, `client_rx` hands over the first frame that
  -- waits, if it is shorter than BUFFER_SIZE and the buffer holds it: it returns 1 if more wait and
  -- 0 if not, the frame's length, the frame at the start of the buffer and the others in the queue.
  pub client_rx-Delivers :
      (fuel : ℕ) (len : ℤ) (mem frame : Bytes) (q : List Bytes) (s : State Frags W)
      → Silent s
      → length frame < buffer_size
      → length frame ≤ length mem
      → client_rx net ext (suc fuel) len (waiting mem (frame ∷ q) s)
        ≡ ret
            (more_data q, pos (length frame))
            (record (waiting (frame ++ drop (length frame) mem) q s) {
              ret_client_rx = more_data q;
            })
  unfolding client_rx deliver_packet copy_data_to_client_buf
  client_rx-Delivers fuel len mem frame q s h short fits =
      rw
        (
          silent_lem fuel mem (frame ∷ q) s h,
          lt→ltb (length frame) buffer_size short,
          le→leb (length frame) (length mem) fits,
        )
        refl

  -- So many calls of `client_rx`, each followed by a look at the bytes that it has announced.
  pub collect : ℕ → ℕ → Exec (State Frags W) (List Bytes)
  collect fuel zero = pure []
  collect fuel (suc n) = do
    answer ← client_rx net ext fuel (pos 0)
    frame ← fetch_client_data (as_usize answer.1)
    rest ← collect fuel n
    pure (frame ∷ rest)

  fetch_lem :
      (mem frame : Bytes) (q : List Bytes) (s : State Frags W)
      → length frame < buffer_size
      → fetch_client_data (length frame) (waiting (frame ++ mem) q s)
        ≡ ret frame (waiting (frame ++ mem) q s)
  unfolding fetch_client_data
  fetch_lem mem frame q s short =
      rw
        (
          lt→ltb (length frame) buffer_size short,
          le→leb (length frame) (length (frame ++ mem)) (omega (arith, length-append frame mem)),
          take_prefix frame mem,
        )
        refl

  -- With the driver silent and both mutexes free, as many calls as frames wait, each shorter than
  -- BUFFER_SIZE and no longer than the client's buffer, give the client these frames in their
  -- order, and nothing waits any more.
  pub collect-Fifo :
      (fuel : ℕ) (q : List Bytes) (mem : Bytes) (s : State Frags W)
      → Silent s
      → All (λ f. (length f < buffer_size) × (length f ≤ length mem)) q
      → (t : State Frags W) × (collect (suc fuel) (length q) (waiting mem q s) ≡ ret q t)
        × (t.packets_rx ≡ [])
  unfolding collect
  collect-Fifo fuel [] mem s h fits = (waiting mem [] s, refl, refl)
  collect-Fifo fuel (f ∷ q) mem s h ((short, room), fits) =
      let mem' : Bytes = f ++ drop (length f) mem in
      let s' : State Frags W = record s { ret_client_rx = more_data q } in
      let (t, rest, empty) = collect-Fifo fuel q mem' s' h (
        subst (λ n. All (λ g. (length g < buffer_size) × (length g ≤ n)) q)
          (sym (length-put f mem room)) fits) in
      (
        t,
        rw
            (
              client_rx-Delivers fuel (pos 0) mem f q s h short room,
              fetch_lem (drop (length f) mem) f q s' short,
              rest,
            )
            refl,
        empty,
      )
