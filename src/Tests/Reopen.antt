-- ===== src/Tests/Reopen.antt =====
-- src/main.c on a system that gives a network device to one descriptor at a time.
use rustwall.Base.{ℕ, zero, suc, ◌≡◌, refl, ◌+◌, pos, negsuc, ℤ, Bytes, [], none, minus_one}
use rustwall.Exec.{crash, exited}
use rustwall.State.{State, initial}
use rustwall.Glue.{Os, Glue, initial_glue, tap_name}
use rustwall.MainProgram.{main}
use rustwall.MainProgram.Reopen.{Refuses, started, main_reopens}
use rustwall.Tests.Net.{stand_in}

-- The kernel's state is the number of descriptors that have the device. -16 is -EBUSY.
abbrev set_interface : Bytes → ℕ → ℤ × Bytes × ℕ
set_interface name zero = (pos 0, name, 1)
set_interface name (suc n) = (negsuc 15, name, suc n)

abbrev one_queue : Os ℕ
one_queue = record {
  tap_flags = 0x1802;
  open_tun = λ k. (pos (3 + k), k);
  tunsetiff = λ fd name flags k. set_interface name k;
  close = λ fd k. k;
  select = λ n set t k. (pos 0, [], t, k);
  read = λ fd n k. (minus_one, [], k);
  write = λ fd b k. (minus_one, k);
}

one_queue-Refuses : Refuses one_queue 0
one_queue-Refuses = record {
  fd = 3;
  fd' = 4;
  done = 0;
  error = 15;
  name = tap_name;
  name' = tap_name;
  k1 = 0;
  k2 = 1;
  k3 = 1;
  k4 = 1;
  opened = refl;
  set_up = refl;
  opened_again = refl;
  refused = refl;
}

abbrev start : State Bytes (Glue ℕ)
start = initial stand_in none none (initial_glue 0)

main_reopens_example : main stand_in one_queue [] 5 (started 0 start) ≡ crash exited
main_reopens_example = main_reopens one_queue 0 one_queue-Refuses stand_in [] 4 start
