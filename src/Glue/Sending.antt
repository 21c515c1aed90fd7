-- ===== src/Glue/Sending.antt =====
-- The loop of `client_tx` of src/lib.rs on the TAP device of src/server_glue.c.
use rustwall.Base.{
  ◌≤◌, ◌<◌, ◌≡◌, refl, subst, ℤ, pos, true, false, Bytes, List, [], ◌∷◌, ◌++◌, Option, none, some,
  if◌then◌else◌, length, drop, Bool-cases, inl, inr, arith, length-put, take_prefix,
}
use rustwall.Exec.{Outcome, ret, crash, exited}
use rustwall.Constants.{buffer_size}
use rustwall.Smoltcp.{Smoltcp}
use rustwall.State.{State}
use rustwall.Buffer.{dispatch_data_to_ethdriver}
use rustwall.Buffer.Given
use rustwall.Ethernet.Short.{IsShort}
use rustwall.Client.{send_packets}
use rustwall.Glue.{Os, Glue, is_negative}
use rustwall.Glue.Device.{ethdriver_tx_writes}
use rustwall.Glue.Link.{glue_externs}
use rustwall.Glue.Traffic.{IsUp, Traffic, quiet, wrote, Traffic-trans}

-- The frames, written to the descriptor one after the other; none if a write fails.
abbrev pub write_all : {K : Type 0} → Os K → ℤ → List Bytes → K → Option K
write_all os fd [] k = some k
write_all os fd (frame ∷ q) k =
    let (r, k') = os.write fd frame k in
    let rest = write_all os fd q k' in if is_negative r then none else rest

-- All of them went to the device.
pub write_all-Traffic :
    {K : Type 0} (os : Os K) (fd : ℤ) (q : List Bytes) (k k' : K)
    → write_all os fd q k ≡ some k'
    → Traffic os fd k q k'
write_all-Traffic os fd [] k k' e = let same : k ≡ k' = cc in subst (Traffic os fd k []) same quiet
write_all-Traffic os fd (frame ∷ q) k k' e =
    elim (Bool-cases (is_negative (os.write fd frame k).0)) [
      | inl failed ↦ cc (rw failed at e)
      | inr done ↦
          Traffic-trans os fd (wrote quiet frame done)
            (write_all-Traffic os fd q (os.write fd frame k).1 k' (rw done at e))
    ]

module _ {Frag Frags K : Type 0} (net : Smoltcp Frag Frags) (os : Os K) where
  -- The frames `q` are queued, the buffer of the driver is `mem`, and its mutex is free.
  abbrev pub queued : Bytes → List Bytes → State Frags (Glue K) → State Frags (Glue K)
  queued mem q s = record s { ethdriver_buf = some mem; ethdriver_locked = false; packets_tx = q }

  -- The globals after a frame was written from the shared buffer `mem`.
  abbrev pub after_write : Bytes → Bytes → K → Glue K → Glue K
  after_write frame mem k g = record g {
    from_ethdriver_data = mem;
    tun_buffer = frame ++ drop (length frame) g.tun_buffer;
    kernel = k;
  }

  pub answer_lem :
      (frame mem : Bytes) (g : Glue K)
      → g.status ≡ true
      → length frame ≤ length mem
      → length frame ≤ length g.tun_buffer
      → let put = frame ++ drop (length frame) mem in
        let (r, k) = os.write g.tun_fd frame g.kernel in
        (glue_externs os).ethdriver_tx (pos (length frame)) put g
        ≡ (if is_negative r then none else some (pos 0, put, after_write frame put k g))
  unfolding glue_externs
  answer_lem frame mem g up h k =
      let put : Bytes = frame ++ drop (length frame) mem in
      let written =
        ethdriver_tx_writes os (record g { from_ethdriver_data = put }) (length frame) up
          (omega (arith, length-put frame mem h)) k in
      rw (written, take_prefix frame (drop (length frame) mem))
        (elim (Bool-cases (is_negative (os.write g.tun_fd frame g.kernel).0)) [
          | inl failed ↦ rw failed refl
          | inr done ↦ rw done refl
        ])

  -- One frame on its way to the device.
  dispatch_lem :
      (frame mem : Bytes) (q : List Bytes) (s : State Frags (Glue K))
      → s.world.status ≡ true
      → length frame < buffer_size
      → length frame ≤ length mem
      → length frame ≤ length s.world.tun_buffer
      → let put = frame ++ drop (length frame) mem in
        let (r, k) = os.write s.world.tun_fd frame s.world.kernel in
        dispatch_data_to_ethdriver (glue_externs os) frame (queued mem q s) ≡ (
          if is_negative r
          then crash exited
          else ret (pos 0) (queued put q (record s { world = after_write frame put k s.world })))
  dispatch_lem frame mem q s up short h k =
      let put : Bytes = frame ++ drop (length frame) mem in
      let answer = answer_lem frame mem s.world up h k in
      let u : State Frags (Glue K) = record s { packets_tx = q } in
      elim (Bool-cases (is_negative (os.write s.world.tun_fd frame s.world.kernel).0)) [
        | inl failed ↦
            rw failed (Given.exit_lem (glue_externs os) frame mem u short h (rw failed at answer))
        | inr done ↦ rw done (
            Given.dispatch_lem (glue_externs os) frame mem put (pos 0)
              (after_write frame put (os.write s.world.tun_fd frame s.world.kernel).1 s.world) u
              short h (rw done at answer))
      ]

  -- What comes of the loop: the process ends if a write fails, or else everything was written.
  abbrev pub Written : Option K → ℤ → ℤ → Outcome (State Frags (Glue K)) (Unit {0}) → Type 0
  Written none fd stored o = o ≡ crash exited
  Written (some k) fd stored o =
      (t : State Frags (Glue K)) × (o ≡ ret tt t)
      × IsUp t.world
      × (t.world.tun_fd ≡ fd)
      × (t.world.kernel ≡ k)
      × (t.packets_tx ≡ [])
      × (t.ret_client_tx ≡ stored)

  -- With the device set up, its mutex free and BUFFER_SIZE bytes or more in both buffers on the way,
  -- the loop of `client_tx` writes the queued frames to the device, if each is shorter than
  -- BUFFER_SIZE: byte for byte, in their order and nothing else. If a write fails it ends the
  -- process; if none does it returns with nothing queued any more, the stored result as it was and the
  -- device still set up, with its descriptor.
  pub send_packets-Writes :
      (q : List Bytes) (mem : Bytes) (s : State Frags (Glue K))
      → s.world.status ≡ true
      → buffer_size ≤ length mem
      → buffer_size ≤ length s.world.tun_buffer
      → IsShort q
      → Written
          (write_all os s.world.tun_fd q s.world.kernel)
          s.world.tun_fd
          s.ret_client_tx
          (send_packets net (glue_externs os) q (queued mem q s))
  unfolding send_packets
  send_packets-Writes [] mem s up room room' short =
      (queued mem [] s, refl, record { status = up; room = room' }, refl, refl, refl, refl)
  send_packets-Writes (f ∷ q) mem s up room room' (short, rest) =
      rw (dispatch_lem f mem q s up short (omega arith) (omega arith))
        (elim (Bool-cases (is_negative (os.write s.world.tun_fd f s.world.kernel).0)) [
          | inl failed ↦ rw failed refl
          | inr done ↦
              let put : Bytes = f ++ drop (length f) mem in
              rw done (
                send_packets-Writes q put
                  (record s {
                    world = after_write f put (os.write s.world.tun_fd f s.world.kernel).1 s.world;
                  })
                  up (omega (arith, length-put f mem (omega arith)))
                  (omega (arith, length-put f s.world.tun_buffer (omega arith))) rest)
        ])
