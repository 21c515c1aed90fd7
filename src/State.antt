-- ===== src/State.antt =====
-- The statics of src/utils.rs and the memory shared with C, as one state; the locks; the counters.
use rustwall.Base.{
  ℕ, zero, suc, ℤ, minus_one, ◌+◌, ◌^◌, Bytes, Bool, true, false, List, [], Option, none, ltb,
  if◌then◌else◌, replicate,
}
use rustwall.Exec.{Exec, pure, abort, gets, modify, panic, deadlock, ◌>>=◌, ◌>>◌}
use rustwall.Smoltcp.{EthernetAddress, Smoltcp}
use rustwall.Constants.{supported_fragments, max_reassembled_fragment_size}

-- A raw pointer to a shared buffer: none for NULL, else the bytes of the allocation.
abbrev pub Pointer : Type 0
Pointer = Option Bytes

pub record State (Frags W : Type 0) : Type 0 where
  -- what `externs::ethdriver_buf` and `externs::client_buf(1)` point to
  pub ethdriver_buf : Pointer
  pub client_buf : Pointer
  -- whether MTX_ETHDRIVER_BUF and MTX_CLIENT_BUF are held
  pub ethdriver_locked : Bool
  pub client_locked : Bool
  pub fragments_rx : Frags
  pub fragments_tx : Frags
  pub packets_rx : List Bytes
  pub packets_tx : List Bytes
  pub ret_client_rx : ℤ
  pub ret_client_tx : ℤ
  -- CLIENT_MAC_ADDRESS, none until its first use
  pub client_mac_address : Option EthernetAddress
  -- the `static mut` counters of `get_pseudorandom_packet_id` and `timestamp`
  pub seed : ℕ
  pub ms : ℕ
  pub world : W

-- Which of the two fragment sets or packet queues an `Arc` refers to.
pub data Side : Type 0 where
  rx tx : Side

module _ {Frags W : Type 0} where
  abbrev pub packets : Side → State Frags W → List Bytes
  packets rx s = s.packets_rx
  packets tx s = s.packets_tx

  abbrev pub set_packets : Side → List Bytes → State Frags W → State Frags W
  set_packets rx q s = record s { packets_rx = q }
  set_packets tx q s = record s { packets_tx = q }

  abbrev pub fragments : Side → State Frags W → Frags
  fragments rx s = s.fragments_rx
  fragments tx s = s.fragments_tx

  abbrev pub set_fragments : Side → Frags → State Frags W → State Frags W
  set_fragments rx f s = record s { fragments_rx = f }
  set_fragments tx f s = record s { fragments_tx = f }

  -- `Mutex::lock` and `Mutex::unlock` on the two static mutexes. A mutex is not reentrant.
  unfoldable pub lock_ethdriver : Exec (State Frags W) (Unit {0})
  lock_ethdriver = do
    held ← gets (λ s. s.ethdriver_locked)
    if held then abort deadlock else modify (λ s. record s { ethdriver_locked = true })

  unfoldable pub unlock_ethdriver : Exec (State Frags W) (Unit {0})
  unlock_ethdriver = modify (λ s. record s { ethdriver_locked = false })

  unfoldable pub lock_client : Exec (State Frags W) (Unit {0})
  lock_client = do
    held ← gets (λ s. s.client_locked)
    if held then abort deadlock else modify (λ s. record s { client_locked = true })

  unfoldable pub unlock_client : Exec (State Frags W) (Unit {0})
  unlock_client = modify (λ s. record s { client_locked = false })

  -- `SEED += 1` on a `u16`, with the overflow check of a build without optimisation.
  unfoldable pub get_pseudorandom_packet_id : Exec (State Frags W) ℕ
  get_pseudorandom_packet_id = do
    seed ← gets (λ s. s.seed)
    if ltb (seed + 1) (2 ^ 16)
        then (do modify (λ s. record s { seed = seed + 1 }); pure (seed + 1))
        else abort panic

  -- `MS += 1` on an `i64`.
  unfoldable pub timestamp : Exec (State Frags W) ℕ
  timestamp = do
    ms ← gets (λ s. s.ms)
    if ltb (ms + 1) (2 ^ 63)
        then (do modify (λ s. record s { ms = ms + 1 }); pure (ms + 1))
        else abort panic

-- The set that FRAGMENTS_RX and FRAGMENTS_TX start with: `supported_fragments` blank packets.
unfoldable pub initial_fragments : {Frag Frags : Type 0} → Smoltcp Frag Frags → ℕ → Frags
initial_fragments net zero = net.set_new
initial_fragments net (suc n) =
    net.set_add (net.packet_new (replicate max_reassembled_fragment_size 0))
      (initial_fragments net n)

-- The statics before the first call.
unfoldable pub initial :
    {Frag Frags W : Type 0} → Smoltcp Frag Frags → Pointer → Pointer → W → State Frags W
initial net eth client w = record {
  ethdriver_buf = eth;
  client_buf = client;
  ethdriver_locked = false;
  client_locked = false;
  fragments_rx = initial_fragments net supported_fragments;
  fragments_tx = initial_fragments net supported_fragments;
  packets_rx = [];
  packets_tx = [];
  ret_client_rx = minus_one;
  ret_client_tx = minus_one;
  client_mac_address = none;
  seed = 42;
  ms = 0;
  world = w;
}
