-- ===== src/Tests/Device.antt =====
-- Theorems on src/server_glue.c and src/main.c at a small network device.
use rustwall.Base.{
  ℕ, ◌≡◌, refl, ◌≤◌, ℤ, pos, negsuc, minus_one, Bytes, true, List, [], ◌∷◌, ◌++◌, length, replicate,
  arith,
}
use rustwall.Exec.{ret, crash, fault}
use rustwall.Exec.Inversion.{NoReturn}
use rustwall.Glue.{Os, SelectLaws, FdSet, Glue, Timeval, initial_glue, rx_calls, ethdriver_rx}
use rustwall.Glue.Deaf.{ethdriver_rx_deaf}
use rustwall.Glue.Device.{ethdriver_rx_read_error}
use rustwall.MainProgram.{main}
use rustwall.MainProgram.Overread.{main_overreads}
use rustwall.Tests.Net.{stand_in}

-- The kernel's state is the frames that wait. Descriptor 3 is the device; it is ready while a frame
-- waits.
abbrev pub Waiting : Type 0
Waiting = List Bytes

abbrev poll : FdSet → Timeval → Waiting → ℤ × FdSet × Timeval × Waiting
poll set t [] = (pos 0, [], t, [])
poll set t (f ∷ rest) = (pos (length set), set, t, f ∷ rest)

abbrev take_frame : Waiting → ℤ × Bytes × Waiting
take_frame [] = (minus_one, [], [])
take_frame (f ∷ rest) = (pos (length f), f, rest)

abbrev pub tap : Os Waiting
tap = record {
  tap_flags = 0x1802;
  open_tun = λ k. (pos 3, k);
  tunsetiff = λ fd name flags k. (pos 0, name, k);
  close = λ fd k. k;
  select = λ n set t k. poll set t k;
  read = λ fd n k. take_frame k;
  write = λ fd b k. (pos (length b), k ++ b ∷ []);
}

poll-among : (set : FdSet) (t : Timeval) (k : Waiting) → length (poll set t k).1 ≤ length set
poll-among set t [] = omega arith
poll-among set t (f ∷ rest) = omega arith

poll-counted :
    (set : FdSet) (t : Timeval) (k : Waiting) {m : ℕ}
    → (poll set t k).0 ≡ pos m
    → length (poll set t k).1 ≡ m
poll-counted set t [] h = ground arith
poll-counted set t (f ∷ rest) h = ground arith

poll-failed :
    (set : FdSet) (t : Timeval) (k : Waiting) {m : ℕ} → (poll set t k).0 ≡ negsuc m → m ≡ 0
poll-failed set t [] h = cc
poll-failed set t (f ∷ rest) h = cc

tap-SelectLaws : SelectLaws tap
tap-SelectLaws = record {
  among = λ n set t k. poll-among set t k;
  counted = λ n set t k h. poll-counted set t k h;
  failed = λ n set t k h. poll-failed set t k h;
}

-- The device is open, and no frame waits.
abbrev pub idle : Glue Waiting
idle = record (initial_glue []) { tun_fd = pos 3; set = pos 3 ∷ []; status = true }

ethdriver_rx_deaf_example :
    (g' : Glue Waiting) × (rx_calls tap 3 idle ≡ ret (replicate 3 minus_one) g')
ethdriver_rx_deaf_example = ethdriver_rx_deaf tap tap-SelectLaws idle refl refl 2

-- Small buffers, and a frame of three bytes in the shared one.
abbrev small : Glue Waiting
small = record idle { from_ethdriver_data = 7 ∷ 8 ∷ 9 ∷ 0 ∷ []; tun_buffer = replicate 4 0 }

-- A device that is always ready and fails to be read, with EIO.
abbrev broken : Os Waiting
broken = record tap { select = λ n set t k. (pos 1, set, t, k); read = λ fd n k. (negsuc 4, [], k) }

ethdriver_rx_read_error_example : ethdriver_rx broken (pos 0) small ≡ crash fault
ethdriver_rx_read_error_example =
    ethdriver_rx_read_error broken small (pos 0) 4 refl refl refl (omega arith) (omega arith)

main_overreads_example : NoReturn (main stand_in tap [] 10)
main_overreads_example = main_overreads stand_in tap 10

-- A frame of two bytes waits.
abbrev one_waiting : Glue Waiting
one_waiting = record small { kernel = (5 ∷ 6 ∷ []) ∷ [] }
