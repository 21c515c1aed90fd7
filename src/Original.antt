-- ===== src/Original.antt =====
-- src/firewall.c: the C component that rustwall replaces. It passes every frame. Its state is the
-- shared buffers and the outside world.
pub mod Refine
pub mod Receive
use rustwall.Base.{ℕ, ℤ, is_minus_one, as_usize, Bytes, some, if◌then◌else◌}
use rustwall.Exec.{Exec, pure, gets, modify, ◌>>=◌, ◌>>◌}
use rustwall.Externs.{Externs}
use rustwall.State.{State}
use rustwall.Buffer.{after_tx, after_rx}
use rustwall.Memory.{memcpy}

module _ {Frags W : Type 0} (ext : Externs W) where
  unfoldable pub client_mac : Exec (State Frags W) Bytes
  client_mac = gets (λ s. ext.ethdriver_mac s.world)

  unfoldable pub ethdriver_tx : ℤ → Bytes → Exec (State Frags W) ℤ
  ethdriver_tx len mem s = after_tx (ext.ethdriver_tx len mem s.world) s

  unfoldable pub client_tx : ℤ → Exec (State Frags W) ℤ
  client_tx len = do
    to ← gets (λ s. s.ethdriver_buf)
    from ← gets (λ s. s.client_buf)
    mem ← memcpy to from (as_usize len)
    ethdriver_tx len mem

  unfoldable pub ethdriver_rx : ℤ → Exec (State Frags W) (ℤ × ℤ)
  ethdriver_rx len s = after_rx (ext.ethdriver_rx len s.ethdriver_buf s.world) s

  -- The result and the variable behind `len`.
  unfoldable pub client_rx : ℤ → Exec (State Frags W) (ℤ × ℤ)
  client_rx len = do
    answer ← ethdriver_rx len
    if is_minus_one answer.0 then pure answer else (do
      to ← gets (λ s. s.client_buf)
      from ← gets (λ s. s.ethdriver_buf)
      mem ← memcpy to from (as_usize answer.1)
      modify (λ s. record s { client_buf = some mem })
      pure answer)

  unfoldable pub ethdriver_has_data_callback : ℕ → Exec (State Frags W) (Unit {0})
  ethdriver_has_data_callback badge = modify (λ s. record s { world = ext.client_emit 1 s.world })
