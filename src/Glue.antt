-- ===== src/Glue.antt =====
-- src/server_glue.c and its header: the driver's side of the buffers, on a Linux TAP device. The
-- system calls are a parameter. `printf` and `perror` are not modelled.
pub mod Deaf
pub mod Device
pub mod Receive
pub mod Link
pub mod Traffic
pub mod Room
pub mod Listening
pub mod Sending
pub mod Transmit
pub mod Calls
pub mod Filtered
pub mod Arrival
use rustwall.Base.{
  ℕ, zero, suc, ◌+◌, ℤ, pos, negsuc, minus_one, is_minus_one, is_zero, as_usize, Bytes, Bool, true,
  false, List, [], ◌∷◌, ◌++◌, none, some, ◌==◌, ◌||◌, if◌then◌else◌, length, take, drop, replicate,
  ◌≤◌, ◌≡◌,
}
use rustwall.Exec.{Exec, ret, pure, abort, gets, modify, exited, deadlock, ◌>>=◌, ◌>>◌}
use rustwall.State.{Pointer}
use rustwall.Memory.{memcpy}

-- `struct timeval`.
pub record Timeval : Type 0 where
  pub tv_sec : ℕ
  pub tv_usec : ℕ

-- `fd_set`, as the descriptors in it.
abbrev pub FdSet : Type 0
FdSet = List ℤ

-- The system calls, on the state `K` of the kernel, and the flags IFF_TAP | IFF_NO_PI | O_NONBLOCK.
pub record Os (K : Type 0) : Type 0 where
  pub tap_flags : ℕ
  -- `open("/dev/net/tun", O_RDWR)`
  pub open_tun : K → ℤ × K
  -- `ioctl(fd, TUNSETIFF, &ifr)`, with the name and the flags of `ifr`: the result and the name
  pub tunsetiff : ℤ → Bytes → ℕ → K → ℤ × Bytes × K
  pub close : ℤ → K → K
  pub select : ℤ → FdSet → Timeval → K → ℤ × FdSet × Timeval × K
  -- the result and the bytes put at the start of the buffer
  pub read : ℤ → ℕ → K → ℤ × Bytes × K
  pub write : ℤ → Bytes → K → ℤ × K

-- What select(2) documents of the set that it leaves: the descriptors that are ready, which are
-- among those that it was given and as many as it returns, none when the time ran out; and that
-- the only negative result is -1.
pub record SelectLaws {K : Type 0} (os : Os K) : Type 0 where
  pub among :
      (n : ℤ) (set : FdSet) (t : Timeval) (k : K) → length (os.select n set t k).1 ≤ length set
  pub counted :
      (n : ℤ) (set : FdSet) (t : Timeval) (k : K) {m : ℕ}
      → (os.select n set t k).0 ≡ pos m
      → length (os.select n set t k).1 ≡ m
  pub failed :
      (n : ℤ) (set : FdSet) (t : Timeval) (k : K) {m : ℕ}
      → (os.select n set t k).0 ≡ negsuc m
      → m ≡ 0

-- The globals of server_glue.c, and the static `status` of `ethdriver_init`.
pub record Glue (K : Type 0) : Type 0 where
  pub tun_fd : ℤ
  pub tun_name : Bytes
  pub tun_buffer : Bytes
  pub set : FdSet
  pub timeout : Timeval
  pub rv : ℤ
  pub from_ethdriver_data : Bytes
  pub to_client_1_data : Bytes
  pub status : Bool
  pub mutex_ethdriver_buf : Bool
  pub mutex_client_buf : Bool
  -- how often `client_emit_1` was called
  pub emitted : ℕ
  pub kernel : K

abbrev pub content_size : ℕ
content_size = 65535

abbrev pub ifnamsiz : ℕ
ifnamsiz = 16

-- "tap1"
abbrev pub tap_name : Bytes
tap_name = b't' ∷ b'a' ∷ b'p' ∷ b'1' ∷ []

-- The globals when the program starts.
abbrev pub initial_glue : {K : Type 0} → K → Glue K
initial_glue k = record {
  tun_fd = pos 0;
  tun_name = [];
  tun_buffer = replicate content_size 0;
  set = [];
  timeout = record { tv_sec = 0; tv_usec = 0 };
  rv = pos 0;
  from_ethdriver_data = replicate content_size 0;
  to_client_1_data = replicate content_size 0;
  status = false;
  mutex_ethdriver_buf = false;
  mutex_client_buf = false;
  emitted = 0;
  kernel = k;
}

abbrev pub is_negative : ℤ → Bool
is_negative (pos n) = false
is_negative (negsuc n) = true

-- `fd + 1`
abbrev pub next_int : ℤ → ℤ
next_int (pos n) = pos (n + 1)
next_int (negsuc zero) = pos 0
next_int (negsuc (suc n)) = negsuc n

-- `client_buf(client_id)`: NULL for every client but the first.
unfoldable pub client_buf : {K : Type 0} → ℕ → Glue K → Pointer
client_buf client_id g = if client_id == 1 then some g.to_client_1_data else none

unfoldable pub client_emit_1 : {K : Type 0} → Glue K → Glue K
client_emit_1 g = record g { emitted = g.emitted + 1 }

unfoldable pub client_emit : {K : Type 0} → ℕ → Glue K → Glue K
unfolding client_emit_1
client_emit badge g = if badge == 1 then client_emit_1 g else g

-- `ethdriver_mac`
abbrev pub ethdriver_mac : Bytes
ethdriver_mac = 2 ∷ 0 ∷ 0 ∷ 0 ∷ 0 ∷ 1 ∷ []

module _ {K : Type 0} (os : Os K) where
  unfoldable pub tun_open : Exec (Glue K) ℤ
  tun_open g = let (fd, k) = os.open_tun g.kernel in ret fd (record g { kernel = k })

  unfoldable pub tun_close : ℤ → Exec (Glue K) (Unit {0})
  tun_close fd = modify (λ g. record g { kernel = os.close fd g.kernel })

  unfoldable pub tun_setiff : ℤ → Bytes → ℕ → Exec (Glue K) (ℤ × Bytes)
  tun_setiff fd name flags g =
      let (e, name', k) = os.tunsetiff fd name flags g.kernel in
      ret (e, name') (record g { kernel = k })

  -- `tun_alloc(dev, flags)`: the descriptor or an error, and the name in `dev`.
  unfoldable pub tun_alloc : Bytes → ℕ → Exec (Glue K) (ℤ × Bytes)
  tun_alloc dev flags = do
    fd ← tun_open
    if is_negative fd then pure (fd, dev) else (do
      answer ← tun_setiff fd (take ifnamsiz dev) flags
      if is_negative answer.0 then (do tun_close fd; pure (answer.0, dev)) else pure (fd, answer.1))

  -- The body of `ethdriver_init` on its first call.
  unfoldable pub keep_device : ℤ × Bytes → Exec (Glue K) (Unit {0})
  keep_device answer = do
    modify (λ g. record g { tun_fd = answer.0; tun_name = answer.1 })
    if is_negative answer.0
        then abort exited
        else modify (λ g. record g { set = answer.0 ∷ []; status = true })

  unfoldable pub init_device : Exec (Glue K) (Unit {0})
  init_device = do answer ← tun_alloc tap_name os.tap_flags; keep_device answer

  unfoldable pub ethdriver_init : Exec (Glue K) Bool
  ethdriver_init = do
    status ← gets (λ g. g.status)
    if status then pure tt else init_device
    gets (λ g. g.status)

  unfoldable pub tun_write : ℤ → Exec (Glue K) ℤ
  tun_write len g =
      let (r, k) = os.write g.tun_fd (take (as_usize len) g.tun_buffer) g.kernel in
      ret r (record g { kernel = k })

  unfoldable pub ethdriver_tx : ℤ → Exec (Glue K) ℤ
  ethdriver_tx len = do
    ethdriver_init
    g ← gets (λ g. g)
    mem ← memcpy (some g.tun_buffer) (some g.from_ethdriver_data) (as_usize len)
    modify (λ g. record g { tun_buffer = mem })
    written ← tun_write len
    if is_negative written then (do tun_close g.tun_fd; abort exited) else pure (pos 0)

  -- `timeout = 10 s; rv = select(tun_fd + 1, &set, NULL, NULL, &timeout)`
  unfoldable pub tun_select : Exec (Glue K) ℤ
  tun_select g =
      let (r, set', t, k) =
        os.select (next_int g.tun_fd) g.set (record { tv_sec = 10; tv_usec = 0 }) g.kernel in
      ret r (record g { rv = r; set = set'; timeout = t; kernel = k })

  unfoldable pub tun_read : Exec (Glue K) ℤ
  tun_read g =
      let (r, bytes, k) = os.read g.tun_fd content_size g.kernel in
      ret r (record g { tun_buffer = bytes ++ drop (length bytes) g.tun_buffer; kernel = k })

  -- The branch of `ethdriver_rx` on which the device has a frame: the result and `*len`.
  unfoldable pub receive : Exec (Glue K) (ℤ × ℤ)
  receive = do
    len ← tun_read
    g ← gets (λ g. g)
    mem ← memcpy (some g.from_ethdriver_data) (some g.tun_buffer) (as_usize len)
    modify (λ g. record g { from_ethdriver_data = mem })
    pure (pos 0, len)

  unfoldable pub ethdriver_rx : ℤ → Exec (Glue K) (ℤ × ℤ)
  ethdriver_rx len = do
    ethdriver_init
    rv ← tun_select
    if is_minus_one rv || is_zero rv then pure (minus_one, len) else receive

-- That many calls of `ethdriver_rx`, one after the other: what they return.
unfoldable pub rx_calls : {K : Type 0} → Os K → ℕ → Exec (Glue K) (List ℤ)
rx_calls os zero = pure []
rx_calls os (suc n) = do
  answer ← ethdriver_rx os (pos 0)
  rest ← rx_calls os n
  pure (answer.0 ∷ rest)

module _ {K : Type 0} where
  -- `pthread_mutex_lock` and `pthread_mutex_unlock` on the two mutexes.
  unfoldable pub ethdriver_buf_lock : Exec (Glue K) (Unit {0})
  ethdriver_buf_lock = do
    held ← gets (λ g. g.mutex_ethdriver_buf)
    if held then abort deadlock else modify (λ g. record g { mutex_ethdriver_buf = true })

  unfoldable pub ethdriver_buf_unlock : Exec (Glue K) (Unit {0})
  ethdriver_buf_unlock = modify (λ g. record g { mutex_ethdriver_buf = false })

  unfoldable pub client_buf_lock : Exec (Glue K) (Unit {0})
  client_buf_lock = do
    held ← gets (λ g. g.mutex_client_buf)
    if held then abort deadlock else modify (λ g. record g { mutex_client_buf = true })

  unfoldable pub client_buf_unlock : Exec (Glue K) (Unit {0})
  client_buf_unlock = modify (λ g. record g { mutex_client_buf = false })
