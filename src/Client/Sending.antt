-- ===== src/Client/Sending.antt =====
-- `client_tx` with a driver that takes every frame: it ends, and everything goes out.
use rustwall.Base.{
  ℕ, ◌≤◌, ◌<◌, ◌≡◌, refl, ◌∙◌, ℤ, pos, is_minus_one, Bytes, false, List, [], ◌∷◌, ◌++◌, some,
  length, drop, All, arith, length-put,
}
use rustwall.Exec.{ret}
use rustwall.Constants.{buffer_size}
use rustwall.Smoltcp.{Smoltcp}
use rustwall.Externs.{Externs}
use rustwall.State.{State}
use rustwall.Buffer.Given.{dispatch_lem}
use rustwall.Client.{send_packets}

module _ {Frag Frags W : Type 0} (net : Smoltcp Frag Frags) (ext : Externs W) (m : ℕ) where
  -- The driver's answer to `n` bytes at the start of a buffer of `m` bytes: it does not end the
  -- process, does not return -1 and leaves a buffer of that size.
  pub record Answer (n : ℕ) (mem : Bytes) (w : W) : Type 0 where
    pub r : ℤ
    pub mem' : Bytes
    pub w' : W
    pub answered : ext.ethdriver_tx (pos n) mem w ≡ some (r, mem', w')
    pub taken : is_minus_one r ≡ false
    pub kept : length mem' ≡ m

  -- It answers so to all of them.
  pub record Accepts : Type 0 where
    pub answer : (n : ℕ) (mem : Bytes) (w : W) → length mem ≡ m → Answer n mem w

  -- The frames `q` are queued, the driver's buffer is `mem`, and its mutex is free.
  abbrev pub queued : Bytes → List Bytes → State Frags W → State Frags W
  queued mem q s = record s { ethdriver_buf = some mem; ethdriver_locked = false; packets_tx = q }

  -- With such a driver and its mutex free, the loop of `client_tx` ends, whatever is queued, as long
  -- as each frame is shorter than BUFFER_SIZE and no longer than the buffer: nothing is queued any
  -- more, and the stored result is as it was.
  pub send_packets-Returns :
      (q : List Bytes) (mem : Bytes) (s : State Frags W)
      → Accepts
      → length mem ≡ m
      → All (λ f. (length f < buffer_size) × (length f ≤ m)) q
      → (t : State Frags W) × (send_packets net ext q (queued mem q s) ≡ ret tt t)
        × (t.packets_tx ≡ [])
        × (t.ret_client_tx ≡ s.ret_client_tx)
  unfolding send_packets
  send_packets-Returns [] mem s driver e fits = (queued mem [] s, refl, refl, refl)
  send_packets-Returns (f ∷ q) mem s driver e ((short, room), fits) =
      let fits_here : length f ≤ length mem = omega arith in
      let a : Answer (length f) (f ++ drop (length f) mem) s.world =
        driver.answer (length f) _ s.world (length-put f mem fits_here ∙ e) in
      let (t, rest, empty, same) =
        send_packets-Returns q a.mem' (record s { world = a.w' }) driver a.kept fits in
      (
        t,
        rw
            (
              dispatch_lem ext f mem a.mem' a.r a.w' (record s { packets_tx = q }) short fits_here
                  a.answered,
              a.taken,
              rest,
            )
            refl,
        empty,
        same,
      )
