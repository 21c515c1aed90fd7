-- ===== src/Buffer/Mutexes.antt =====
-- The exchange with C and the two mutexes: each call takes its mutex once and gives it back.
use rustwall.Base.{
  ℕ, zero, suc, ℤ, pos, negsuc, as_usize, ◌≡◌, refl, Bytes, true, false, none, some, Option, arith,
  ltb, leb, length, Bool-cases, inl, inr, ◌⊎◌,
}
use rustwall.Exec.{Outcome, ret, fail, crash}
use rustwall.Exec.Keeps.{Allowed}
use rustwall.Exec.Safe.{Safe}
use rustwall.Constants.{buffer_size}
use rustwall.Externs.{Externs}
use rustwall.State.{State, Pointer}
use rustwall.Buffer.{
  dispatch_data_to_ethdriver, EthdriverRxStatus, next, copy_data_to_client_buf, fetch_client_data,
}

module _ {Frags W : Type 0} where
  pub record Unlocked (s : State Frags W) : Type 0 where
    pub ethdriver : s.ethdriver_locked ≡ false
    pub client : s.client_locked ≡ false

  pub fetch-Unlocked :
      (len : ℕ) → Safe (Allowed ⊥) Unlocked (fetch_client_data {Frags = Frags} {W = W} len)
  unfolding fetch_client_data
  fetch-Unlocked len = record { at = λ s h. ground arith }

  pub copy-Unlocked :
      (bytes : Bytes)
      → Safe (Allowed ⊥) Unlocked (copy_data_to_client_buf {Frags = Frags} {W = W} bytes)
  unfolding copy_data_to_client_buf
  copy-Unlocked bytes = record { at = λ s h. ground arith }

module _ {Frags W : Type 0} (ext : Externs W) where
  pub dispatch-Unlocked :
      (bytes : Bytes)
      → Safe (Allowed ⊥) Unlocked (dispatch_data_to_ethdriver {Frags = Frags} ext bytes)
  unfolding dispatch_data_to_ethdriver
  dispatch-Unlocked bytes = record { at = λ s h. ground arith }

  -- After one step of the iterator the mutexes are free; a frame comes with the end of the
  -- iteration, or with the driver's answer 1, which leaves the driver's world behind.
  abbrev pub Next :
      State Frags W → Outcome (State Frags W) (EthdriverRxStatus × Option Bytes) → Type 0
  Next s (ret (status, none) t) = Unlocked t
  Next s (ret (status, some frame) t) =
      Unlocked t
      × ((status.finished ≡ true)
          ⊎ ((len : ℤ) × (buf : Pointer) × (ext.ethdriver_rx (pos 0) s.ethdriver_buf s.world
                ≡ some (pos 1, len, buf, t.world))))
  Next s (fail e t) = ⊥
  Next s (crash c) = Allowed ⊥ c

  rx_status_lem :
      (r len : ℤ) (status : EthdriverRxStatus) (s : State Frags W) (buf : Pointer) (w : W)
      → Unlocked s
      → status.finished ≡ false
      → ext.ethdriver_rx (pos 0) s.ethdriver_buf s.world ≡ some (r, len, buf, w)
      → Next s (next ext status s)
  unfolding next
  rx_status_lem (negsuc zero) len status s buf w h f e = ground arith
  rx_status_lem (negsuc (suc n)) len status s buf w h f e = ground arith
  rx_status_lem (pos zero) len status s buf w h f e = ground arith
  rx_status_lem (pos (suc zero)) len status s none w h f e = ground arith
  rx_status_lem (pos (suc zero)) len status s (some mem) w h f e =
      elim (Bool-cases (ltb (as_usize len) buffer_size)) [
        | inl short ↦ elim (Bool-cases (leb (as_usize len) (length mem))) [
          | inl inside ↦
              rw (f, h.ethdriver, e, short, inside)
                (record { ethdriver = refl; client = h.client }, inr (len, some mem, e))
          | inr outside ↦ rw (f, h.ethdriver, e, short, outside) tt
        ]
        | inr long ↦ rw (f, h.ethdriver, e, long) tt
      ]
  rx_status_lem (pos (suc (suc n))) len status s buf w h f e = ground arith

  by_answer :
      (answer : Option (ℤ × ℤ × Pointer × W)) (status : EthdriverRxStatus) (s : State Frags W)
      → Unlocked s
      → status.finished ≡ false
      → ext.ethdriver_rx (pos 0) s.ethdriver_buf s.world ≡ answer
      → Next s (next ext status s)
  unfolding next
  by_answer none status s h f e = ground arith
  by_answer (some (r, len, buf, w)) status s h f e = rx_status_lem r len status s buf w h f e

  pub next_lem :
      (status : EthdriverRxStatus) (s : State Frags W) → Unlocked s → Next s (next ext status s)
  unfolding next
  next_lem status s h = elim (Bool-cases status.finished) [
    | inl finished ↦ rw finished h
    | inr going ↦ by_answer _ status s h going refl
  ]
