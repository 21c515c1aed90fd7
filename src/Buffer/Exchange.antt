-- ===== src/Buffer/Exchange.antt =====
-- What the exchange with C, of src/utils.rs, leaves alone.
use rustwall.Base.{◌≡◌, refl, subst, ℤ, ℕ, pos, Bytes, List, Option, none, some}
use rustwall.Exec.{Exec, ret}
use rustwall.Exec.Keeps.{Frame, Keeps, Ends, Allowed, unchanged, keeps_rules}
use rustwall.Externs.{Externs}
use rustwall.State.{State, Pointer, lock_ethdriver, unlock_ethdriver, lock_client, unlock_client}
use rustwall.Buffer.{
  EthdriverRxStatus, assert_not_null, sel4_buffer_insert, sel4_buffer_fetch, call_ethdriver_tx,
  call_ethdriver_rx, rx_status, next, dispatch_data_to_ethdriver, copy_data_to_client_buf,
  fetch_client_data, after_tx, after_rx,
}

module _ {S : Type 0} {F : Frame S} where
  -- The reads and writes of a buffer that is given leave the whole state alone.
  pub assert_not_null-Keeps : (p : Pointer) → Keeps F (assert_not_null p)
  unfolding assert_not_null
  assert_not_null-Keeps none = search keeps_rules
  assert_not_null-Keeps (some mem) = search keeps_rules

  pub insert-Keeps : (bytes : Bytes) (p : Pointer) → Keeps F (sel4_buffer_insert bytes p)
  unfolding sel4_buffer_insert
  insert-Keeps bytes none = search keeps_rules
  insert-Keeps bytes (some mem) = search keeps_rules

  pub fetch-Keeps : (len : ℕ) (p : Pointer) → Keeps F (sel4_buffer_fetch len p)
  unfolding sel4_buffer_fetch
  fetch-Keeps len none = search keeps_rules
  fetch-Keeps len (some mem) = search keeps_rules

-- All of the state but the shared buffers, their locks, the known address and the outside world.
pub record Kept (Frags : Type 0) : Type 0 where
  pub fragments_rx : Frags
  pub fragments_tx : Frags
  pub packets_rx : List Bytes
  pub packets_tx : List Bytes
  pub ret_client_rx : ℤ
  pub ret_client_tx : ℤ
  pub seed : ℕ
  pub ms : ℕ

module _ {Frags W : Type 0} where
  abbrev pub kept_of : State Frags W → Kept Frags
  kept_of s = record {
    fragments_rx = s.fragments_rx;
    fragments_tx = s.fragments_tx;
    packets_rx = s.packets_rx;
    packets_tx = s.packets_tx;
    ret_client_rx = s.ret_client_rx;
    ret_client_tx = s.ret_client_tx;
    seed = s.seed;
    ms = s.ms;
  }

  abbrev pub exchange_kept : Frame (State Frags W)
  exchange_kept = unchanged kept_of

  after_tx-Keeps :
      (s : State Frags W) (a : Option (ℤ × Bytes × W))
      → Ends (Allowed Unit) (λ t. kept_of t ≡ kept_of s) (after_tx a s)
  after_tx-Keeps s none = tt
  after_tx-Keeps s (some (r, mem, w)) = refl

  after_rx-Keeps :
      (s : State Frags W) (a : Option (ℤ × ℤ × Pointer × W))
      → Ends (Allowed Unit) (λ t. kept_of t ≡ kept_of s) (after_rx a s)
  after_rx-Keeps s none = tt
  after_rx-Keeps s (some (r, len, buf, w)) = refl

  pub copy_data-Keeps :
      (bytes : Bytes) → Keeps exchange_kept (copy_data_to_client_buf {Frags = Frags} {W = W} bytes)
  unfolding copy_data_to_client_buf lock_client unlock_client
  copy_data-Keeps bytes = search (keeps_rules, assert_not_null-Keeps, insert-Keeps) depth 20

  pub fetch_data-Keeps :
      (len : ℕ) → Keeps exchange_kept (fetch_client_data {Frags = Frags} {W = W} len)
  unfolding fetch_client_data lock_client unlock_client
  fetch_data-Keeps len = search (keeps_rules, assert_not_null-Keeps, fetch-Keeps) depth 20

  -- What a computation that keeps so has left when it returned.
  pub kept :
      {A : Type 0} {m : Exec (State Frags W) A} {a : A} {s t : State Frags W}
      → Keeps exchange_kept m
      → m s ≡ ret a t
      → kept_of t ≡ kept_of s
  kept {s = s} k e = subst (λ o. Ends (Allowed Unit) (λ t. kept_of t ≡ kept_of s) o) e (k.at s)

module _ {Frags W : Type 0} (ext : Externs W) where
  call_tx-Keeps :
      (len : ℕ) (mem : Bytes) → Keeps exchange_kept (call_ethdriver_tx {Frags = Frags} ext len mem)
  unfolding call_ethdriver_tx
  call_tx-Keeps len mem = record {
    at = λ s. after_tx-Keeps s (ext.ethdriver_tx (pos len) mem s.world);
  }

  pub dispatch-Keeps :
      (bytes : Bytes) → Keeps exchange_kept (dispatch_data_to_ethdriver {Frags = Frags} ext bytes)
  unfolding dispatch_data_to_ethdriver lock_ethdriver unlock_ethdriver
  dispatch-Keeps bytes =
      search (keeps_rules, call_tx-Keeps, assert_not_null-Keeps, insert-Keeps) depth 20

  call_rx-Keeps : Keeps exchange_kept (call_ethdriver_rx {Frags = Frags} ext)
  unfolding call_ethdriver_rx
  call_rx-Keeps = record {
    at = λ s. after_rx-Keeps s (ext.ethdriver_rx (pos 0) s.ethdriver_buf s.world);
  }

  status-Keeps :
      (status : EthdriverRxStatus) (r len : ℤ)
      → Keeps exchange_kept (rx_status {Frags = Frags} ext status r len)
  unfolding rx_status
  status-Keeps status (pos e) len =
      search (keeps_rules, assert_not_null-Keeps, fetch-Keeps) depth 20
  status-Keeps status (ℤ.negsuc e) len = search keeps_rules

  pub next-Keeps :
      (status : EthdriverRxStatus) → Keeps exchange_kept (next {Frags = Frags} ext status)
  unfolding next lock_ethdriver unlock_ethdriver
  next-Keeps status = search (keeps_rules, call_rx-Keeps, status-Keeps) depth 20
