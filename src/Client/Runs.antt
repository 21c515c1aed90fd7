-- ===== src/Client/Runs.antt =====
-- Any run of calls from C, with what the virtual machine and the outside world do in between.
use rustwall.Base.{ℕ, ◌≤◌, ◌≡◌, refl, ℤ, Bytes, Option, none, some, length, subst, arith}
use rustwall.Exec.{ret}
use rustwall.Exec.Keeps.{Ends, Allowed}
use rustwall.Exec.Safe.{NoDeadlock}
use rustwall.Constants.{buffer_size}
use rustwall.Smoltcp.{Smoltcp, EthernetAddress, LengthLaws}
use rustwall.Externs.{Externs}
use rustwall.State.{State, Pointer, initial}
use rustwall.Exec.Inversion.{ret-state}
use rustwall.Buffer.{known_mac, get_device_mac}
use rustwall.Client.{client_tx, client_rx, client_mac, ethdriver_has_data_callback}
use rustwall.Client.Validity.{IsRoomy, IsValid, KeepsRoom}
use rustwall.Client.Validity.Sending.{client_tx-IsValid}
use rustwall.Client.Validity.Receiving.{client_rx-IsValid}

module _ {Frag Frags W : Type 0} (net : Smoltcp Frag Frags) (ext : Externs W) where
  -- A call that returned, or what happens between two calls: the virtual machine writes the buffer
  -- that it shares with the firewall, the driver writes its own, and the outside world goes on.
  pub data Step : State Frags W → State Frags W → Type 0 where
    sent : {s t : State Frags W} {r : ℤ} (n : ℤ) → client_tx net ext n s ≡ ret r t → Step s t
    received :
        {s t : State Frags W} {r : ℤ × ℤ} (fuel : ℕ) (len : ℤ)
        → client_rx net ext fuel len s ≡ ret r t
        → Step s t
    called_back :
        {s t : State Frags W} (badge : ℕ)
        → ethdriver_has_data_callback net ext badge s ≡ ret tt t
        → Step s t
    mac_asked :
        {s t : State Frags W} {mac : EthernetAddress} → client_mac net ext s ≡ ret mac t → Step s t
    client_wrote :
        {s : State Frags W} (mem : Bytes)
        → buffer_size ≤ length mem
        → Step s (record s { client_buf = some mem })
    driver_wrote :
        {s : State Frags W} (mem : Bytes) (w : W)
        → buffer_size ≤ length mem
        → Step s (record s { ethdriver_buf = some mem; world = w })

  pub data Run (s : State Frags W) : State Frags W → Type 0 where
    done : Run s s
    step : {t u : State Frags W} → Run s t → Step t u → Run s u

module _ {Frags W : Type 0} where
  mac-IsValid :
      (ext : Externs W) (known : Option EthernetAddress) (s : State Frags W)
      → IsValid s
      → Ends (λ _. ⊥) IsValid (known_mac ext known s)
  unfolding known_mac
  mac-IsValid ext none s v = record {
    ethdriver_free = v.ethdriver_free;
    client_free = v.client_free;
    ethdriver_roomy = v.ethdriver_roomy;
    client_roomy = v.client_roomy;
    rx_short = v.rx_short;
    tx_short = v.tx_short;
    rx_bounded = v.rx_bounded;
    tx_bounded = v.tx_bounded;
    seed_fits = v.seed_fits;
    ms_fits = v.ms_fits;
  }
  mac-IsValid ext (some mac) s v = v

  world-IsValid : (s : State Frags W) (w : W) → IsValid s → IsValid (record s { world = w })
  world-IsValid s w v = record {
    ethdriver_free = v.ethdriver_free;
    client_free = v.client_free;
    ethdriver_roomy = v.ethdriver_roomy;
    client_roomy = v.client_roomy;
    rx_short = v.rx_short;
    tx_short = v.tx_short;
    rx_bounded = v.rx_bounded;
    tx_bounded = v.tx_bounded;
    seed_fits = v.seed_fits;
    ms_fits = v.ms_fits;
  }

  buffers-IsValid :
      (s : State Frags W) (eth client : Pointer) (w : W)
      → IsRoomy eth
      → IsRoomy client
      → IsValid s
      → IsValid (record s { ethdriver_buf = eth; client_buf = client; world = w })
  buffers-IsValid s eth client w h k v = record {
    ethdriver_free = v.ethdriver_free;
    client_free = v.client_free;
    ethdriver_roomy = h;
    client_roomy = k;
    rx_short = v.rx_short;
    tx_short = v.tx_short;
    rx_bounded = v.rx_bounded;
    tx_bounded = v.tx_bounded;
    seed_fits = v.seed_fits;
    ms_fits = v.ms_fits;
  }

  -- The statics before the first call are valid, with two buffers of BUFFER_SIZE bytes or more.
  pub initial-IsValid :
      {Frag : Type 0} (net : Smoltcp Frag Frags) (eth client : Pointer) (w : W)
      → IsRoomy eth
      → IsRoomy client
      → IsValid (initial net eth client w)
  unfolding initial
  initial-IsValid net eth client w h k = record {
    ethdriver_free = refl;
    client_free = refl;
    ethdriver_roomy = h;
    client_roomy = k;
    rx_short = tt;
    tx_short = tt;
    rx_bounded = omega arith;
    tx_bounded = omega arith;
    seed_fits = omega arith;
    ms_fits = omega arith;
  }

module _ {Frag Frags W : Type 0} (net : Smoltcp Frag Frags) (ext : Externs W)
    (laws : LengthLaws net) (room : KeepsRoom ext) where
  pub Step-IsValid : {s t : State Frags W} → Step net ext s t → IsValid s → IsValid t
  unfolding client_mac get_device_mac ethdriver_has_data_callback
  Step-IsValid {s} (sent n e) v =
      subst (Ends (Allowed ⊥) IsValid) e ((client_tx-IsValid net ext laws room n).at s v)
  Step-IsValid {s} (received fuel len e) v =
      subst (Ends NoDeadlock IsValid) e ((client_rx-IsValid net ext laws room fuel len).at s v)
  Step-IsValid {s} (called_back badge e) v =
      subst IsValid (ret-state e) (world-IsValid s (ext.client_emit 1 s.world) v)
  Step-IsValid {s} (mac_asked e) v =
      subst (Ends (λ _. ⊥) IsValid) e (mac-IsValid ext s.client_mac_address s v)
  Step-IsValid {s} (client_wrote mem h) v =
      buffers-IsValid s s.ethdriver_buf (some mem) s.world v.ethdriver_roomy h v
  Step-IsValid {s} (driver_wrote mem w h) v =
      buffers-IsValid s (some mem) s.client_buf w h v.client_roomy v

  Run-IsValid : {s t : State Frags W} → Run net ext s t → IsValid s → IsValid t
  Run-IsValid done v = v
  Run-IsValid (step run last) v = Step-IsValid last (Run-IsValid run v)

  -- After any calls from the first on, with two buffers of BUFFER_SIZE bytes or more, smoltcp
  -- keeping the lengths of its buffers and the driver its buffer: both mutexes are free, the queues
  -- hold at most MAX_ENQUEUED_PACKETS frames and each fits the buffers, the packet identifiers and the
  -- clock are in the range of `u16` and `i64`; and in the next call no mutex is taken twice.
  pub Run-Reachable :
      (eth client : Pointer) (w : W) (t : State Frags W)
      → IsRoomy eth
      → IsRoomy client
      → Run net ext (initial net eth client w) t
      → IsValid t
        × ((n : ℤ) → Ends (Allowed ⊥) IsValid (client_tx net ext n t))
        × ((fuel : ℕ) (len : ℤ) → Ends NoDeadlock IsValid (client_rx net ext fuel len t))
  Run-Reachable eth client w t h k run =
      let v = Run-IsValid run (initial-IsValid net eth client w h k) in
      (
        v,
        λ n. (client_tx-IsValid net ext laws room n).at t v,
        λ fuel len. (client_rx-IsValid net ext laws room fuel len).at t v,
      )
