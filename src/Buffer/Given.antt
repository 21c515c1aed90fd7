-- ===== src/Buffer/Given.antt =====
-- The exchange with C, of src/utils.rs, where the buffers are there, the mutexes free and the frames
-- fit.
use rustwall.Base.{
  ℕ, ◌<◌, ◌≤◌, ◌≡◌, refl, ℤ, pos, true, false, Bytes, none, some, ◌++◌, length, take, drop, lt→ltb,
  le→leb,
}
use rustwall.Exec.{ret, crash, exited}
use rustwall.Constants.{buffer_size}
use rustwall.Externs.{Externs}
use rustwall.State.{State}
use rustwall.Buffer.{
  new_status, next, dispatch_data_to_ethdriver, copy_data_to_client_buf, fetch_client_data,
}

module _ {Frags W : Type 0} (ext : Externs W) where
  -- A frame that fits goes to the driver at the start of its buffer, with the mutex free.
  pub dispatch_lem :
      (frame mem mem' : Bytes) (r : ℤ) (w : W) (s : State Frags W)
      → length frame < buffer_size
      → length frame ≤ length mem
      → ext.ethdriver_tx (pos (length frame)) (frame ++ drop (length frame) mem) s.world
        ≡ some (r, mem', w)
      → dispatch_data_to_ethdriver ext frame
          (record s { ethdriver_buf = some mem; ethdriver_locked = false })
        ≡ ret r (record s { ethdriver_buf = some mem'; ethdriver_locked = false; world = w })
  unfolding dispatch_data_to_ethdriver
  dispatch_lem frame mem mem' r w s short room answered =
      rw
        (lt→ltb (length frame) buffer_size short, le→leb (length frame) (length mem) room, answered)
        refl

  -- The driver ends the process.
  pub exit_lem :
      (frame mem : Bytes) (s : State Frags W)
      → length frame < buffer_size
      → length frame ≤ length mem
      → ext.ethdriver_tx (pos (length frame)) (frame ++ drop (length frame) mem) s.world ≡ none
      → dispatch_data_to_ethdriver ext frame
          (record s { ethdriver_buf = some mem; ethdriver_locked = false })
        ≡ crash exited
  unfolding dispatch_data_to_ethdriver
  exit_lem frame mem s short room answered =
      rw
        (lt→ltb (length frame) buffer_size short, le→leb (length frame) (length mem) room, answered)
        refl

  -- The frame that the driver gives with the value 0 is the last one.
  pub next_lem :
      (n : ℕ) (emem got : Bytes) (w : W) (s : State Frags W)
      → n < buffer_size
      → n ≤ length got
      → ext.ethdriver_rx (pos 0) (some emem) s.world ≡ some (pos 0, pos n, some got, w)
      → next ext new_status (record s { ethdriver_buf = some emem; ethdriver_locked = false })
        ≡ ret
            (record { finished = true }, some (take n got))
            (record s { ethdriver_buf = some got; ethdriver_locked = false; world = w })
  unfolding next
  next_lem n emem got w s short room answer =
      rw (answer, lt→ltb n buffer_size short, le→leb n (length got) room)

  pub finished_lem :
      (s : State Frags W)
      → next ext (record { finished = true }) s ≡ ret (record { finished = true }, none) s
  unfolding next
  finished_lem s = refl

module _ {Frags W : Type 0} where
  -- A frame that fits goes to the start of the client's buffer.
  pub copy_lem :
      (frame mem : Bytes) (s : State Frags W)
      → length frame < buffer_size
      → length frame ≤ length mem
      → copy_data_to_client_buf frame (record s { client_buf = some mem; client_locked = false })
        ≡ ret (pos (length frame)) (record s {
          client_buf = some (frame ++ drop (length frame) mem);
          client_locked = false;
        })
  unfolding copy_data_to_client_buf
  copy_lem frame mem s short room =
      rw (lt→ltb (length frame) buffer_size short, le→leb (length frame) (length mem) room)

  -- The bytes at the start of the client's buffer.
  pub fetch_lem :
      (n : ℕ) (mem : Bytes) (s : State Frags W)
      → n < buffer_size
      → n ≤ length mem
      → fetch_client_data n (record s { client_buf = some mem; client_locked = false })
        ≡ ret (take n mem) (record s { client_buf = some mem; client_locked = false })
  unfolding fetch_client_data
  fetch_lem n mem s short room = rw (lt→ltb n buffer_size short, le→leb n (length mem) room)
