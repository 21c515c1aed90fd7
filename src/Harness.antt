-- ===== src/Harness.antt =====
-- src/test.c: the firewall linked with a driver that keeps everything in memory, as the Makefile's
-- target `test` does. `printf` is not modelled; its mutexes are those of the firewall's state.
pub mod Data
pub mod Fragments
pub mod Script
pub mod Verdict
use rustwall.Base.{ℕ, ◌+◌, ℤ, pos, Bytes, Bool, [], ◌∷◌, some, if◌then◌else◌, ◌==◌, Option}
use rustwall.Exec.{Exec, pure, gets, modify, ◌>>=◌, ◌>>◌}
use rustwall.Smoltcp.{Smoltcp}
use rustwall.Externs.{Externs}
use rustwall.State.{State, Pointer}
use rustwall.Client.{client_tx, client_rx}
use rustwall.ExternalFirewall.{packet_in, packet_out}
use rustwall.Loop.{copy_packet, compare_buffers}
use rustwall.MainProgram.{not_null}

-- The globals that steer `ethdriver_rx`, and the number of signals to the client.
pub record Driver : Type 0 where
  pub ethdbuf_len : ℤ
  pub ethdriver_ret : ℤ
  pub emitted : ℕ

unfoldable pub ethdriver_tx : ℤ → Bytes → Driver → Option (ℤ × Bytes × Driver)
ethdriver_tx len mem d = some (pos 0, mem, d)

unfoldable pub ethdriver_rx : ℤ → Pointer → Driver → Option (ℤ × ℤ × Pointer × Driver)
ethdriver_rx len buf d = some (d.ethdriver_ret, d.ethdbuf_len, buf, d)

unfoldable pub client_emit_1 : Driver → Driver
client_emit_1 d = record d { emitted = d.emitted + 1 }

unfoldable pub client_emit : ℕ → Driver → Driver
unfolding client_emit_1
client_emit badge d = if badge == 1 then client_emit_1 d else d

abbrev pub ethdriver_mac : Bytes
ethdriver_mac = 2 ∷ 0 ∷ 0 ∷ 0 ∷ 0 ∷ 1 ∷ []

unfoldable pub test_externs : Externs Driver
unfolding ethdriver_tx ethdriver_rx client_emit
test_externs = record {
  ethdriver_tx = ethdriver_tx;
  ethdriver_rx = ethdriver_rx;
  ethdriver_mac = λ d. ethdriver_mac;
  client_emit = client_emit;
  packet_in = packet_in;
  packet_out = packet_out;
}

-- An array of test_data.h: the memory from its start on, and its `sizeof`.
pub record Packet : Type 0 where
  pub mem : Bytes
  pub size : ℕ

module _ {Frag Frags : Type 0} (net : Smoltcp Frag Frags) (fuel : ℕ) where
  unfoldable pub send_and_test_packet : Packet → Exec (State Frags Driver) Bool
  send_and_test_packet p = do
    ptr ← gets (λ s. s.client_buf)
    buf ← not_null ptr
    loaded ← copy_packet p.mem p.size buf
    modify (λ s. record s { client_buf = some loaded.0 })
    client_tx net test_externs (pos loaded.1)
    sent ← gets (λ s. s.ethdriver_buf)
    out ← not_null sent
    compare_buffers p.mem out (pos loaded.1)

  -- The result of the comparison, and the value behind `returnval`.
  unfoldable pub receive_and_test_packet : Packet → Exec (State Frags Driver) (Bool × ℤ)
  receive_and_test_packet p = do
    ptr ← gets (λ s. s.ethdriver_buf)
    buf ← not_null ptr
    loaded ← copy_packet p.mem p.size buf
    modify (λ s. record s {
      ethdriver_buf = some loaded.0;
      world = record s.world { ethdbuf_len = pos loaded.1 };
    })
    answer ← client_rx net test_externs fuel (pos 0)
    received ← gets (λ s. s.client_buf)
    got ← not_null received
    same ← compare_buffers p.mem got answer.1
    pure (same, answer.0)

  -- `ethdriver_ret = r`
  unfoldable pub set_ret : ℤ → Exec (State Frags Driver) (Unit {0})
  set_ret r = modify (λ s. record s { world = record s.world { ethdriver_ret = r } })
