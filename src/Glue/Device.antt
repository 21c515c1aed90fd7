-- ===== src/Glue/Device.antt =====
-- Setting up the device, sending to it, and a read that fails.
use rustwall.Base.{
  ℕ, suc, ◌-◌, ◌^◌, ◌≤◌, ◌<◌, ◌≡◌, ap, sym, ◌∙◌, subst, ℤ, pos, negsuc, Bool, Bytes, true, false,
  length, ◌++◌, ◌&&◌, leb, take, drop, arith, if◌then◌else◌, take_own, Bool-cases, inl, inr,
}
use rustwall.Exec.{Outcome, ret, fail, crash, fault, exited, gets}
use rustwall.Exec.Inversion.{continue-eq-ret}
use rustwall.Memory.{memcpy, memcpy_lem}
use rustwall.Glue.{
  Os, Glue, is_negative, init_device, keep_device, tap_name, ethdriver_init, tun_alloc, tun_select,
  tun_read, tun_write, tun_close, receive, ethdriver_rx, ethdriver_tx, content_size,
}
use rustwall.Glue.Deaf.{selected, init_again}

status_of : {K : Type 0} → Outcome (Glue K) (Unit {0}) → Bool
status_of (ret a g) = g.status
status_of (fail e g) = g.status
status_of (crash c) = true

too_long :
    (m l k : ℕ)
    → m < 2 ^ 31
    → k ≤ content_size
    → leb (2 ^ 64 - suc m) l && leb (2 ^ 64 - suc m) k ≡ false
too_long m l k h fits = ground arith

module _ {K : Type 0} (os : Os K) where
  keep_device-status :
      (answer : ℤ × Bytes) (g g' : Glue K) → keep_device os answer g ≡ ret tt g' → g'.status ≡ true
  unfolding keep_device status_of
  keep_device-status answer g g' h = elim (Bool-cases (is_negative answer.0)) [
    | inl failed ↦ cc (rw failed at h)
    | inr opened ↦ sym (ap (λ (o : Outcome (Glue K) (Unit {0})). status_of o) (rw opened at h))
  ]

  -- Whatever a first call of `ethdriver_init` does, if it returns it has set up the device: it
  -- returns true, and a second call changes nothing and returns true.
  pub ethdriver_init_twice :
      (g g' : Glue K) (b : Bool)
      → ethdriver_init os g ≡ ret b g'
      → (b ≡ true) × (ethdriver_init os g' ≡ ret true g')
  unfolding ethdriver_init init_device
  ethdriver_init_twice g g' b h = elim (Bool-cases g.status) [
    | inl ready ↦
        let same : ret b g' ≡ ret true g = sym h ∙ init_again os g ready in
        (
          ground arith,
          subst (λ x. ethdriver_init os x ≡ ret true x) (ground arith) (init_again os g ready),
        )
    | inr fresh ↦
        let (_, u, made, read_back) =
          continue-eq-ret (init_device os g) (λ (_ : Unit {0}). gets (λ (x : Glue K). x.status))
            (simp fresh at h) in
        let (answer, v, opened, kept) =
          continue-eq-ret (tun_alloc os tap_name os.tap_flags g) (keep_device os) made in
        let set_up : u.status ≡ true = keep_device-status answer v u kept in
        (
          ground arith,
          subst (λ x. ethdriver_init os x ≡ ret true x) (ground arith) (init_again os u set_up),
        )
  ]

  -- With the device set up and a length that both buffers hold, `ethdriver_tx` writes exactly the
  -- first bytes of the shared buffer to the device; it returns 0 unless the write fails, and ends
  -- the process if it does.
  pub ethdriver_tx_writes :
      (g : Glue K) (n : ℕ)
      → g.status ≡ true
      → n ≤ length g.from_ethdriver_data
      → n ≤ length g.tun_buffer
      → let (r, k) = os.write g.tun_fd (take n g.from_ethdriver_data) g.kernel in
        ethdriver_tx os (pos n) g ≡ (
          if is_negative r
          then crash exited
          else ret (pos 0) (record g {
            tun_buffer = take n g.from_ethdriver_data ++ drop n g.tun_buffer;
            kernel = k;
          }))
  unfolding ethdriver_tx tun_write tun_close
  ethdriver_tx_writes g n h a b =
      simp
        (
          init_again os g h,
          memcpy_lem g.tun_buffer g.from_ethdriver_data n g a b,
          take_own n g.from_ethdriver_data (drop n g.tun_buffer) a,
        )
        (elim (Bool-cases
          (is_negative (os.write g.tun_fd (take n g.from_ethdriver_data) g.kernel).0)) [
            | inl failed ↦ simp failed
            | inr done ↦ simp done
          ])

  -- With the device set up and select reporting it ready, a read that fails, with a value of 32
  -- bits, makes `ethdriver_rx` copy beyond its buffers, as long as the shared one has no more than
  -- its 65535 bytes.
  pub ethdriver_rx_read_error :
      (g : Glue K) (len : ℤ) (m : ℕ)
      → g.status ≡ true
      → (selected os g).0 ≡ pos 1
      → (os.read g.tun_fd content_size (selected os g).3).0 ≡ negsuc m
      → m < 2 ^ 31
      → length g.from_ethdriver_data ≤ content_size
      → ethdriver_rx os len g ≡ crash fault
  unfolding ethdriver_rx tun_select receive tun_read memcpy
  ethdriver_rx_read_error g len m h ready failed small fits =
      simp (init_again os g h, ready, failed, too_long m _ _ small fits)
