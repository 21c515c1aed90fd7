-- ===== src/Client.antt =====
-- src/lib.rs: the functions that the virtual machine and the driver call. The two RET mutexes make
-- the calls of one function follow one another; a call is one step on the state.
pub mod Separation
pub mod Results
pub mod Delivery
pub mod Sending
pub mod Address
pub mod Mutexes
pub mod Rounds
pub mod Validity
pub mod Runs
pub mod Stored
pub mod Datagram
pub mod Identifiers
use rustwall.Base.{
  ℕ, zero, suc, ℤ, pos, minus_one, is_minus_one, as_usize, Bytes, true, false, List, [], ◌∷◌, none,
  some, if◌then◌else◌,
}
use rustwall.Exec.{Exec, Outcome, ret, fail, crash, pure, abort, gets, modify, hang, ◌>>=◌, ◌>>◌}
use rustwall.Smoltcp.{Smoltcp, EthernetAddress}
use rustwall.Externs.{Externs}
use rustwall.State.{State, rx, tx}
use rustwall.Buffer.{
  EthdriverRxStatus, new_status, next, dispatch_data_to_ethdriver, copy_data_to_client_buf,
  fetch_client_data, get_device_mac,
}
use rustwall.Ethernet.{process_ethernet}

abbrev pub ignored : {S : Type 0} → Outcome S (Unit {0}) → Outcome S (Unit {0})
ignored (ret a t) = ret a t
ignored (fail e t) = ret tt t
ignored (crash c) = crash c

-- `match … { Ok(_) => {} Err(_e) => {} }`: an error only ends the frame that it is about.
abbrev pub ignore_error : {S : Type 0} → Exec S (Unit {0}) → Exec S (Unit {0})
ignore_error m s = ignored (m s)

-- 0 for no more data, 1 for more.
abbrev pub more_data : List Bytes → ℤ
more_data [] = pos 0
more_data (_ ∷ _) = pos 1

module _ {Frag Frags W : Type 0} (net : Smoltcp Frag Frags) (ext : Externs W) where
  -- `while !packets.is_empty()` of `client_tx`, with PACKETS_TX locked.
  unfoldable pub send_packets : List Bytes → Exec (State Frags W) (Unit {0})
  send_packets [] = pure tt
  send_packets (eth_packet ∷ packets) = do
    modify (λ s. record s { packets_tx = packets })
    r ← dispatch_data_to_ethdriver ext eth_packet
    if is_minus_one r
        then modify (λ s. record s { ret_client_tx = minus_one })
        else send_packets packets

  unfoldable pub client_tx : ℤ → Exec (State Frags W) ℤ
  client_tx len = do
    eth_packet ← fetch_client_data (as_usize len)
    ignore_error (process_ethernet net ext eth_packet tx tx ext.packet_out false)
    modify (λ s. record s { ret_client_tx = pos 0 })
    packets ← gets (λ s. s.packets_tx)
    send_packets packets
    gets (λ s. s.ret_client_tx)

  -- `for eth_packet in EthdriverRxStatus::new()`, for as many rounds as `fuel` allows.
  unfoldable pub receive_packets : ℕ → EthdriverRxStatus → Exec (State Frags W) (Unit {0})
  receive_packets zero status = abort hang
  receive_packets (suc fuel) status = do
    item ← next ext status
    elim item.1 [
      | none ↦ pure tt
      | some eth_packet ↦ (do
        ignore_error (process_ethernet net ext eth_packet rx rx ext.packet_in true)
        receive_packets fuel item.0)
    ]

  -- The `match packets.is_empty()` of `client_rx`: the returned value, and what `len` points to.
  unfoldable pub deliver_packet : ℤ → List Bytes → Exec (State Frags W) (ℤ × ℤ)
  deliver_packet len [] = do
    modify (λ s. record s { ret_client_rx = minus_one })
    pure (minus_one, len)
  deliver_packet len (eth_packet ∷ packets) = do
    modify (λ s. record s { packets_rx = packets })
    data_len ← copy_data_to_client_buf eth_packet
    modify (λ s. record s { ret_client_rx = more_data packets })
    pure (more_data packets, data_len)

  unfoldable pub client_rx : ℕ → ℤ → Exec (State Frags W) (ℤ × ℤ)
  client_rx fuel len = do
    receive_packets fuel new_status
    packets ← gets (λ s. s.packets_rx)
    deliver_packet len packets

  unfoldable pub ethdriver_has_data_callback : ℕ → Exec (State Frags W) (Unit {0})
  ethdriver_has_data_callback badge = modify (λ s. record s { world = ext.client_emit 1 s.world })

  unfoldable pub client_mac : Exec (State Frags W) EthernetAddress
  client_mac = get_device_mac ext
