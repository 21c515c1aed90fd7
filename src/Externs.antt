-- ===== src/Externs.antt =====
-- src/externs.rs: the C functions that the firewall is linked with. `W` is the state of the outside
-- world: driver, virtual machine and external packet filter. `none` is a function that does not
-- return, because it ends the process.
use rustwall.Base.{ℕ, ℤ, Bytes, Option}

-- `packet_in`, `packet_out`: addresses, ports, the payload's length, the memory that the payload
-- pointer leads to, and the length that this memory may be used up to. The result is the returned
-- length and the memory as it is left.
abbrev pub Filter : Type 0 → Type 0
Filter W = ℕ → ℕ → ℕ → ℕ → ℕ → Bytes → ℕ → W → ℤ × Bytes × W

pub record Externs (W : Type 0) : Type 0 where
  -- The length, the shared buffer and the world; the returned value, the buffer and the world.
  pub ethdriver_tx : ℤ → Bytes → W → Option (ℤ × Bytes × W)
  -- The first argument and the second part of the result are the variable behind `len`. The buffer
  -- may be NULL.
  pub ethdriver_rx : ℤ → Option Bytes → W → Option (ℤ × ℤ × Option Bytes × W)
  pub ethdriver_mac : W → Bytes
  pub client_emit : ℕ → W → W
  pub packet_in : Filter W
  pub packet_out : Filter W
