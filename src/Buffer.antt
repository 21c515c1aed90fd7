-- ===== src/Buffer.antt =====
-- src/utils.rs, the exchange with C: shared buffers, the driver's send and receive, the client's
-- buffer and the device's address.
pub mod Exchange
pub mod Given
pub mod Address
pub mod RoundTrip
pub mod Mutexes
use rustwall.Base.{
  ℕ, ℤ, pos, is_minus_one, as_usize, Bytes, Bool, true, false, ◌++◌, Option, none, some, ltb, leb,
  if◌then◌else◌, length, take, drop, ◌==◌,
}
use rustwall.Exec.{Exec, pure, abort, gets, modify, panic, fault, exited, ◌>>=◌, ◌>>◌}
use rustwall.Constants.{buffer_size}
use rustwall.Smoltcp.{EthernetAddress}
use rustwall.Externs.{Externs}
use rustwall.State.{State, Pointer, lock_ethdriver, unlock_ethdriver, lock_client, unlock_client}

module _ {S : Type 0} where
  -- `assert!(!val.is_null())`.
  unfoldable pub assert_not_null : Pointer → Exec S Pointer
  assert_not_null none = abort panic
  assert_not_null (some mem) = pure (some mem)

  -- Writes at the start of the buffer; the result is the number of bytes written and the buffer.
  unfoldable pub sel4_buffer_insert : Bytes → Pointer → Exec S (ℕ × Bytes)
  sel4_buffer_insert bytes none = abort panic
  sel4_buffer_insert bytes (some mem) =
      if ltb (length bytes) buffer_size
      then if leb (length bytes) (length mem)
        then pure (length bytes, bytes ++ drop (length bytes) mem)
        else abort fault
      else abort panic

  unfoldable pub sel4_buffer_fetch : ℕ → Pointer → Exec S Bytes
  sel4_buffer_fetch len none = abort panic
  sel4_buffer_fetch len (some mem) =
      if ltb len buffer_size
      then if leb len (length mem) then pure (take len mem) else abort fault
      else abort panic

-- `EthdriverRxStatus`: the state of the iterator over received frames.
pub record EthdriverRxStatus : Type 0 where
  pub finished : Bool

abbrev pub new_status : EthdriverRxStatus
new_status = record { finished = false }

module _ {Frags W : Type 0} where
  -- What the driver leaves behind, in the state.
  abbrev pub after_tx : Option (ℤ × Bytes × W) → Exec (State Frags W) ℤ
  after_tx none s = abort exited s
  after_tx (some (r, mem, w)) s = pure r (record s { ethdriver_buf = some mem; world = w })

  abbrev pub after_rx : Option (ℤ × ℤ × Pointer × W) → Exec (State Frags W) (ℤ × ℤ)
  after_rx none s = abort exited s
  after_rx (some (r, len, buf, w)) s = pure (r, len) (record s { ethdriver_buf = buf; world = w })

module _ {Frags W : Type 0} (ext : Externs W) where
  unfoldable pub call_ethdriver_tx : ℕ → Bytes → Exec (State Frags W) ℤ
  call_ethdriver_tx len mem s = after_tx (ext.ethdriver_tx (pos len) mem s.world) s

  unfoldable pub dispatch_data_to_ethdriver : Bytes → Exec (State Frags W) ℤ
  unfolding lock_ethdriver unlock_ethdriver assert_not_null sel4_buffer_insert call_ethdriver_tx
  dispatch_data_to_ethdriver bytes = do
    lock_ethdriver
    ptr ← gets (λ s. s.ethdriver_buf)
    buf ← assert_not_null ptr
    inserted ← sel4_buffer_insert bytes buf
    r ← call_ethdriver_tx inserted.0 inserted.1
    unlock_ethdriver
    pure r

  -- The call of `ethdriver_rx` with `len` at 0: the returned value and `len`.
  unfoldable pub call_ethdriver_rx : Exec (State Frags W) (ℤ × ℤ)
  call_ethdriver_rx s = after_rx (ext.ethdriver_rx (pos 0) s.ethdriver_buf s.world) s

  -- The `match ret` of `next`: -1 for no frame, 0 for the last one, 1 for one with more behind it.
  unfoldable pub rx_status :
      EthdriverRxStatus → ℤ → ℤ → Exec (State Frags W) (EthdriverRxStatus × Option Bytes)
  unfolding assert_not_null sel4_buffer_fetch
  rx_status status r len = if is_minus_one r then pure (status, none) else elim r [
    | pos e ↦
        if leb e 1
        then (do
          ptr ← gets (λ s. s.ethdriver_buf)
          buf ← assert_not_null ptr
          frame ← sel4_buffer_fetch (as_usize len) buf
          pure (record { finished = if e == 0 then true else status.finished }, some frame))
        else abort panic
    | _ ↦ abort panic
  ]

  -- `EthdriverRxStatus::next`.
  unfoldable pub next : EthdriverRxStatus → Exec (State Frags W) (EthdriverRxStatus × Option Bytes)
  unfolding lock_ethdriver unlock_ethdriver call_ethdriver_rx rx_status
  next status = if status.finished then pure (status, none) else (do
    lock_ethdriver
    answer ← call_ethdriver_rx
    result ← rx_status status answer.0 answer.1
    unlock_ethdriver
    pure result)

  -- The first use of the lazy static CLIENT_MAC_ADDRESS asks the driver.
  unfoldable pub known_mac : Option EthernetAddress → Exec (State Frags W) EthernetAddress
  known_mac (some mac) s = pure mac s
  known_mac none s =
      let mac = ext.ethdriver_mac s.world in pure mac (record s { client_mac_address = some mac })

  unfoldable pub get_device_mac : Exec (State Frags W) EthernetAddress
  unfolding known_mac
  get_device_mac s = known_mac s.client_mac_address s

module _ {Frags W : Type 0} where
  unfoldable pub copy_data_to_client_buf : Bytes → Exec (State Frags W) ℤ
  unfolding lock_client unlock_client assert_not_null sel4_buffer_insert
  copy_data_to_client_buf bytes = do
    lock_client
    ptr ← gets (λ s. s.client_buf)
    buf ← assert_not_null ptr
    inserted ← sel4_buffer_insert bytes buf
    modify (λ s. record s { client_buf = some inserted.1 })
    unlock_client
    pure (pos inserted.0)

  unfoldable pub fetch_client_data : ℕ → Exec (State Frags W) Bytes
  unfolding lock_client unlock_client assert_not_null sel4_buffer_fetch
  fetch_client_data len = do
    lock_client
    ptr ← gets (λ s. s.client_buf)
    buf ← assert_not_null ptr
    bytes ← sel4_buffer_fetch len buf
    unlock_client
    pure bytes
