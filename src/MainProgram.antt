-- ===== src/MainProgram.antt =====
-- src/main.c: sets up the device, receives once, passes a callback and transmits a packet twice.
pub mod Overread
pub mod Reopen
use rustwall.Base.{ℕ, pos, Bytes, [], ◌∷◌, ◌++◌, none, some, length, if◌then◌else◌}
use rustwall.Exec.{
  Exec, Outcome, ret, fail, crash, pure, abort, gets, modify, exited, fault, ◌>>=◌, ◌>>◌,
}
use rustwall.Smoltcp.{Smoltcp}
use rustwall.State.{State, Pointer}
use rustwall.Client.{client_rx, client_tx, ethdriver_has_data_callback}
use rustwall.Loop.{copy_packet}
use rustwall.Glue.{Os, Glue, tun_alloc, tap_name, is_negative}
use rustwall.Glue.Link.{glue_externs}

abbrev pub packet_bytes : Bytes
packet_bytes =
    2 ∷ 0 ∷ 0 ∷ 0 ∷ 1 ∷ 1 ∷ 82 ∷ 84 ∷ 0 ∷ 0 ∷ 0 ∷ 0 ∷ 8 ∷ 0 ∷ 69 ∷ 0 ∷ 0 ∷ 31 ∷ 0 ∷ 0 ∷ 64 ∷ 0 ∷ 64
    ∷ 17 ∷ 47 ∷ 120 ∷ 192 ∷ 168 ∷ 69 ∷ 3 ∷ 192 ∷ 168 ∷ 69 ∷ 2 ∷ 175 ∷ 211 ∷ 27 ∷ 57 ∷ 0 ∷ 11 ∷ 190
    ∷ 19 ∷ 97 ∷ 97 ∷ 10 ∷ []

-- A call of the glue from C, on the world of the firewall's state.
abbrev from_glue :
    {Frags K A : Type 0}
    → State Frags (Glue K)
    → Outcome (Glue K) A
    → Outcome (State Frags (Glue K)) A
from_glue s (ret a g) = ret a (record s { world = g })
from_glue s (fail e g) = fail e (record s { world = g })
from_glue s (crash c) = crash c

abbrev on_glue : {Frags K A : Type 0} → Exec (Glue K) A → Exec (State Frags (Glue K)) A
on_glue m s = from_glue s (m s.world)

-- The bytes behind `client_buf(1)`.
abbrev pub not_null : {S : Type 0} → Pointer → Exec S Bytes
not_null none = abort fault
not_null (some mem) = pure mem

module _ {Frag Frags K : Type 0} (net : Smoltcp Frag Frags) (os : Os K) (behind : Bytes)
    (fuel : ℕ) where
  -- The device, as `main` sets it up itself.
  unfoldable pub open_device : Exec (State Frags (Glue K)) (Unit {0})
  open_device = do
    answer ← on_glue (tun_alloc os tap_name os.tap_flags)
    modify (λ s. record s { world = record s.world { tun_fd = answer.0; tun_name = answer.1 } })
    if is_negative answer.0
        then abort exited
        else modify (λ s. record s { world = record s.world { set = answer.0 ∷ [] } })

  -- The copy of `packet_bytes` into the client's buffer: `len` afterwards. `behind` is what the
  -- memory holds after the array.
  unfoldable pub load_packet : Exec (State Frags (Glue K)) ℕ
  load_packet = do
    ptr ← gets (λ s. s.client_buf)
    buf ← not_null ptr
    loaded ← copy_packet (packet_bytes ++ behind) (length packet_bytes) buf
    modify (λ s. record s { client_buf = some loaded.0 })
    pure loaded.1

  unfoldable pub main : Exec (State Frags (Glue K)) (Unit {0})
  main = do
    open_device
    client_rx net (glue_externs os) fuel (pos 0)
    ethdriver_has_data_callback net (glue_externs os) 66
    len ← load_packet
    client_tx net (glue_externs os) (pos len)
    client_tx net (glue_externs os) (pos len)
    pure tt
