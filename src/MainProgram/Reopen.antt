-- ===== src/MainProgram/Reopen.antt =====
-- `main` sets up the device, and the first call of `ethdriver_rx` sets it up again.
use rustwall.Base.{ℕ, suc, ◌≡◌, refl, pos, ℤ, negsuc, Bytes, false, none, some, ◌∷◌, [], take}
use rustwall.Exec.{ret, crash, exited}
use rustwall.Smoltcp.{Smoltcp}
use rustwall.State.{State, Pointer}
use rustwall.Buffer.{new_status, next}
use rustwall.Client.{client_rx, receive_packets}
use rustwall.Glue.{
  Os, Glue, tap_name, ifnamsiz, tun_open, tun_setiff, tun_close, tun_alloc, keep_device,
  init_device, ethdriver_init, ethdriver_rx,
}
use rustwall.Glue.Link.{glue_externs}
use rustwall.MainProgram.{open_device, main}

-- The system lets the first descriptor have the device, and refuses it to the second, as tun(4) does
-- for a device with one queue that is in use.
pub record Refuses {K : Type 0} (os : Os K) (k : K) : Type 0 where
  pub fd : ℕ
  pub fd' : ℕ
  pub done : ℕ
  pub error : ℕ
  pub name : Bytes
  pub name' : Bytes
  pub k1 : K
  pub k2 : K
  pub k3 : K
  pub k4 : K
  pub opened : os.open_tun k ≡ (pos fd, k1)
  pub set_up : os.tunsetiff (pos fd) (take ifnamsiz tap_name) os.tap_flags k1 ≡ (pos done, name, k2)
  pub opened_again : os.open_tun k2 ≡ (pos fd', k3)
  pub refused :
      os.tunsetiff (pos fd') (take ifnamsiz tap_name) os.tap_flags k3 ≡ (negsuc error, name', k4)

-- The device is not set up yet, and the driver's mutex is free.
abbrev pub started : {Frags K : Type 0} → K → State Frags (Glue K) → State Frags (Glue K)
started k s = record s {
  ethdriver_locked = false;
  world = record s.world { kernel = k; status = false };
}

module _ {K : Type 0} (os : Os K) (k : K) (r : Refuses os k) where
  first_alloc :
      (g : Glue K)
      → tun_alloc os tap_name os.tap_flags (record g { kernel = k })
        ≡ ret (pos r.fd, r.name) (record g { kernel = r.k2 })
  unfolding tun_alloc tun_open tun_setiff
  first_alloc g = rw (r.opened, r.set_up) refl

  second_alloc :
      (g : Glue K)
      → tun_alloc os tap_name os.tap_flags (record g { kernel = r.k2 })
        ≡ ret (negsuc r.error, tap_name) (record g { kernel = os.close (pos r.fd') r.k4 })
  unfolding tun_alloc tun_open tun_setiff tun_close
  second_alloc g = rw (r.opened_again, r.refused) refl

  rx_exits :
      (g : Glue K) (len : ℤ)
      → ethdriver_rx os len (record g { kernel = r.k2; status = false }) ≡ crash exited
  unfolding ethdriver_rx ethdriver_init init_device keep_device
  rx_exits g len = rw (second_alloc (record g { status = false })) refl

  module _ {Frag Frags : Type 0} (net : Smoltcp Frag Frags) (behind : Bytes) (fuel : ℕ)
      (s : State Frags (Glue K)) where
    -- What `main` makes of the globals: not of the static in `ethdriver_init`.
    abbrev opened_state : State Frags (Glue K)
    opened_state = record s {
      ethdriver_locked = false;
      world = record s.world {
        kernel = r.k2;
        status = false;
        tun_fd = pos r.fd;
        tun_name = r.name;
        set = pos r.fd ∷ [];
      };
    }

    open_lem : open_device net os behind (suc fuel) (started k s) ≡ ret tt opened_state
    unfolding open_device
    open_lem = rw (first_alloc (record s.world { status = false })) refl

    by_buffer :
        (buf : Pointer)
        → next (glue_externs os) new_status (record opened_state { ethdriver_buf = buf })
          ≡ crash exited
    unfolding next glue_externs
    by_buffer none = refl
    by_buffer (some mem) =
        rw
          (rx_exits
            (record s.world {
              tun_fd = pos r.fd;
              tun_name = r.name;
              set = pos r.fd ∷ [];
              from_ethdriver_data = mem;
            })
            (pos 0))
          refl

    -- If the system refuses the device to a second descriptor, then `main` ends the process in its
    -- first `client_rx`: the device that it set up itself is set up again there, since the static
    -- of `ethdriver_init` is not set. The mutex of the driver's buffer is free before.
    pub main_reopens : main net os behind (suc fuel) (started k s) ≡ crash exited
    unfolding main client_rx receive_packets
    main_reopens = rw (open_lem, by_buffer s.ethdriver_buf) refl
