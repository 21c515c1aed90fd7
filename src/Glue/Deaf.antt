-- ===== src/Glue/Deaf.antt =====
-- `ethdriver_rx` hands its only descriptor set to select(2) and never fills it again: after one
-- timeout the device is not listened to any more.
use rustwall.Base.{
  is_zero, ℕ, zero, suc, ◌≡◌, refl, ap, ℤ, pos, negsuc, minus_one, is_minus_one, true, [], ◌||◌,
  length, length-zero, replicate, arith,
}
use rustwall.Exec.{ret}
use rustwall.Glue.{
  Os, SelectLaws, Glue, FdSet, Timeval, next_int, ethdriver_init, tun_select, ethdriver_rx,
  rx_calls,
}

module _ {K : Type 0} (os : Os K) where
  -- The call of select that `ethdriver_rx` makes, and the globals after it.
  abbrev pub selected : Glue K → ℤ × FdSet × Timeval × K
  selected g = os.select (next_int g.tun_fd) g.set (record { tv_sec = 10; tv_usec = 0 }) g.kernel

  abbrev after_select : Glue K → Glue K
  after_select g = record g {
    rv = (selected g).0;
    set = (selected g).1;
    timeout = (selected g).2;
    kernel = (selected g).3;
  }

  pub init_again : (g : Glue K) → g.status ≡ true → ethdriver_init os g ≡ ret true g
  unfolding ethdriver_init
  init_again g h = ground arith

  silent_lem :
      (g : Glue K) (len : ℤ)
      → g.status ≡ true
      → is_minus_one (selected g).0 || is_zero (selected g).0 ≡ true
      → ethdriver_rx os len g ≡ ret (minus_one, len) (after_select g)
  unfolding ethdriver_rx tun_select
  silent_lem g len h quiet = simp (init_again g h, quiet)

  module _ (laws : SelectLaws os) where
    -- A set of no descriptors has none that is ready.
    silent :
        (g : Glue K) → g.set ≡ [] → is_minus_one (selected g).0 || is_zero (selected g).0 ≡ true
    silent g e = by_result (selected g).0 refl
      where
        by_result : (r : ℤ) → (selected g).0 ≡ r → is_minus_one r || is_zero r ≡ true
        by_result (pos zero) h = refl
        by_result (pos (suc m)) h = absurd (
            omega (
              arith,
              laws.counted _ _ _ _ h,
              laws.among (next_int g.tun_fd) g.set (record { tv_sec = 10; tv_usec = 0 }) g.kernel,
              ap length e,
            ))
        by_result (negsuc zero) h = refl
        by_result (negsuc (suc m)) h = absurd (omega (arith, laws.failed _ _ _ _ h))

    empties : (g : Glue K) → length (selected g).1 ≡ 0 → (after_select g).set ≡ []
    empties g h = length-zero (selected g).1 h

    none_ready : (g : Glue K) → g.set ≡ [] → length (selected g).1 ≡ 0
    none_ready g e = omega (
      arith,
      laws.among (next_int g.tun_fd) g.set (record { tv_sec = 10; tv_usec = 0 }) g.kernel,
      ap length e,
    )

    deaf_calls :
        (n : ℕ) (g : Glue K)
        → g.status ≡ true
        → g.set ≡ []
        → (g' : Glue K) × (rx_calls os n g ≡ ret (replicate n minus_one) g')
    unfolding rx_calls
    deaf_calls zero g h e = (g, refl)
    deaf_calls (suc n) g h e =
        let (g', rest) = deaf_calls n (after_select g) h (empties g (none_ready g e)) in
        (g', rw (silent_lem g (pos 0) h (silent g e), rest))

    -- Once the device is set up, a call of `ethdriver_rx` that runs into the timeout makes it and
    -- every later call return -1, whatever arrives.
    pub ethdriver_rx_deaf :
        (g : Glue K)
        → g.status ≡ true
        → (selected g).0 ≡ pos 0
        → (n : ℕ) → (g' : Glue K) × (rx_calls os (suc n) g ≡ ret (replicate (suc n) minus_one) g')
    unfolding rx_calls
    ethdriver_rx_deaf g h e n =
        let quiet : is_minus_one (selected g).0 || is_zero (selected g).0 ≡ true = rw e in
        let (g', rest) = deaf_calls n (after_select g) h (
          empties g (
            laws.counted (next_int g.tun_fd) g.set (record { tv_sec = 10; tv_usec = 0 }) g.kernel
              e)) in
        (g', rw (silent_lem g (pos 0) h quiet, rest))
