-- ===== src/Glue/Room.antt =====
-- src/server_glue.c leaves the shared buffer in place.
use rustwall.Base.{
  ℕ, ℤ, pos, ◌≤◌, ◌≡◌, refl, Bytes, ◌||◌, is_zero, is_minus_one, as_usize, sym, none, some, ◌++◌,
  ◌&&◌, leb, Bool-cases, inl, inr, ◌⊎◌, length, take, drop, length-append, length-take, length-drop,
  subst, arith,
}
use rustwall.Exec.{Exec, Outcome, ret, fail, crash, fault, gets, pure, modify, ◌>>=◌, ◌>>◌}
use rustwall.Exec.Keeps.{
  Frame, Ends, Keeps, unchanged, keeps_rules, Keeps-modify, Keeps-then, Keeps-if, Keeps-exited,
}
use rustwall.Exec.Safe.{Safe, Safe-bind, Safe-then, Safe-if, Safe-pure, Safe-Keeps}
use rustwall.Ethernet.Short.{Anything}
use rustwall.Constants.{buffer_size}
use rustwall.State.{Pointer}
use rustwall.Client.Validity.{IsRoomy, KeepsRoom}
use rustwall.Memory.{memcpy}
use rustwall.Glue.Link.{lend, tx_answer, rx_answer, glue_rx, glue_externs}
use rustwall.Glue.{
  Os, Glue, is_negative, tun_open, tun_close, tun_setiff, tun_alloc, keep_device, init_device,
  ethdriver_init, tun_write, ethdriver_tx, tun_select, tun_read, receive, ethdriver_rx,
}

-- What is copied leaves the buffer as long as it was.
pub memcpy-length :
    {S : Type 0} (to from : Bytes) (n : ℕ) (s : S)
    → (memcpy (some to) (some from) n s ≡ crash fault)
      ⊎ ((mem : Bytes) × (memcpy (some to) (some from) n s ≡ ret mem s) × (length mem ≡ length to))
unfolding memcpy
memcpy-length to from n s = elim (Bool-cases (leb n (length from) && leb n (length to))) [
  | inl inside ↦
      let in_from : n ≤ length from = ground arith in
      let in_to : n ≤ length to = ground arith in
      inr (
        take n from ++ drop n to,
        rw inside refl,
        omega
            (arith, length-append (take n from) (drop n to), length-take n from, length-drop n to),
      )
  | inr outside ↦ inl (rw outside refl)
]

module _ {K : Type 0} (os : Os K) where
  -- Setting the device up does not touch the buffers.
  abbrev buffer_kept : Frame (Glue K)
  buffer_kept = unchanged (λ g. g.from_ethdriver_data)

  open-Keeps : Keeps buffer_kept (tun_open os)
  unfolding tun_open
  open-Keeps = record { at = λ g. refl }

  close-Keeps : (fd : ℤ) → Keeps buffer_kept (tun_close os fd)
  unfolding tun_close
  close-Keeps fd = record { at = λ g. refl }

  setiff-Keeps :
      (fd : ℤ) (name : Bytes) (flags : ℕ) → Keeps buffer_kept (tun_setiff os fd name flags)
  unfolding tun_setiff
  setiff-Keeps fd name flags = record { at = λ g. refl }

  alloc-Keeps : (name : Bytes) (flags : ℕ) → Keeps buffer_kept (tun_alloc os name flags)
  unfolding tun_alloc
  alloc-Keeps name flags = search (keeps_rules, open-Keeps, close-Keeps, setiff-Keeps) depth 20

  keep_device-Keeps : (answer : ℤ × Bytes) → Keeps buffer_kept (keep_device os answer)
  unfolding keep_device
  keep_device-Keeps answer =
      Keeps-then _ _ (Keeps-modify _ (λ g. refl))
        (Keeps-if (is_negative answer.0) _ _ Keeps-exited (Keeps-modify _ (λ g. refl)))

  init-Keeps : Keeps buffer_kept (ethdriver_init os)
  unfolding ethdriver_init init_device
  init-Keeps = search (keeps_rules, alloc-Keeps, keep_device-Keeps) depth 20

  memcpy-Keeps : (to from : Pointer) (n : ℕ) → Keeps buffer_kept (memcpy to from n)
  unfolding memcpy
  memcpy-Keeps none from n = search keeps_rules
  memcpy-Keeps (some to) none n = search keeps_rules
  memcpy-Keeps (some to) (some from) n = search keeps_rules

  write-Keeps : (n : ℤ) → Keeps buffer_kept (tun_write os n)
  unfolding tun_write
  write-Keeps n = record { at = λ g. refl }

  store-Keeps : (mem : Bytes) → Keeps buffer_kept (λ g. ret tt (record g { tun_buffer = mem }))
  store-Keeps mem = record { at = λ g. refl }

  tx-Keeps : (n : ℤ) → Keeps buffer_kept (ethdriver_tx os n)
  unfolding ethdriver_tx
  tx-Keeps n =
      search (keeps_rules, init-Keeps, memcpy-Keeps, store-Keeps, write-Keeps, close-Keeps) depth 20

  abbrev HasRoom : Glue K → Type 0
  HasRoom g = buffer_size ≤ length g.from_ethdriver_data

  kept-HasRoom : {A : Type 0} (m : Exec (Glue K) A) → Keeps buffer_kept m → Safe Anything HasRoom m
  kept-HasRoom m k =
      Safe-Keeps m (λ c h. tt)
        (λ g g' same room. subst (λ b. buffer_size ≤ length b) (sym same) room) k

  select-Keeps : Keeps buffer_kept (tun_select os)
  unfolding tun_select
  select-Keeps = record { at = λ g. refl }

  read-Keeps : Keeps buffer_kept (tun_read os)
  unfolding tun_read
  read-Keeps = record { at = λ g. refl }

  copied-HasRoom :
      (n : ℕ) (r : ℤ × ℤ)
      → Safe Anything HasRoom (do
        g ← gets (λ (g : Glue K). g)
        mem ← memcpy (some g.from_ethdriver_data) (some g.tun_buffer) n
        modify (λ g. record g { from_ethdriver_data = mem })
        pure r)
  copied-HasRoom n r = record {
    at = λ g room. elim (memcpy-length g.from_ethdriver_data g.tun_buffer n g) [
      | inl passed ↦ rw passed tt
      | inr (mem, copied, same) ↦ rw copied (omega (arith, same, room))
    ];
  }

  rx-HasRoom : (n : ℤ) → Safe Anything HasRoom (ethdriver_rx os n)
  unfolding ethdriver_rx receive
  rx-HasRoom n = Safe-then _ _ (kept-HasRoom _ init-Keeps) (
      Safe-bind _ _ (kept-HasRoom _ select-Keeps) λ rv.
        Safe-if (is_minus_one rv || is_zero rv) _ _ (Safe-pure _) (
          Safe-bind _ _ (kept-HasRoom _ read-Keeps)
            λ len. copied-HasRoom (as_usize len) (pos 0, len)))

  -- The driver of src/server_glue.c keeps the shared buffer, however long, in both directions, and
  -- so does what `KeepsRoom` asks of a driver.
  pub glue-KeepsRoom : KeepsRoom (glue_externs os)
  unfolding glue_externs
  glue-KeepsRoom = record {
    tx_room = λ len mem g r mem' g' e room. by_tx len mem g e room;
    rx_room = λ len buf g r len' buf' g' e room. by_rx len buf g e room;
  }
    where
      tx_end :
          (o : Outcome (Glue K) ℤ) {r : ℤ} {mem' : Bytes} {g' : Glue K}
          → Ends Anything HasRoom o
          → tx_answer o ≡ some (r, mem', g')
          → buffer_size ≤ length mem'
      tx_end (ret r g) h e = ground arith
      tx_end (fail c g) h e = cc
      tx_end (crash c) h e = cc

      rx_end :
          (o : Outcome (Glue K) (ℤ × ℤ)) {r len' : ℤ} {buf' : Pointer} {g' : Glue K}
          → Ends Anything HasRoom o
          → rx_answer o ≡ some (r, len', buf', g')
          → IsRoomy buf'
      rx_end (ret (r, len) g) {buf' = buf'} h e =
          let same : some g.from_ethdriver_data ≡ buf' = cc in subst IsRoomy same h
      rx_end (fail c g) h e = cc
      rx_end (crash c) h e = cc

      by_tx :
          (len : ℤ) (mem : Bytes) (g : Glue K) {r : ℤ} {mem' : Bytes} {g' : Glue K}
          → tx_answer (ethdriver_tx os len (lend mem g)) ≡ some (r, mem', g')
          → buffer_size ≤ length mem
          → buffer_size ≤ length mem'
      by_tx len mem g e room = tx_end _ ((kept-HasRoom _ (tx-Keeps len)).at (lend mem g) room) e

      by_rx :
          (len : ℤ) (buf : Pointer) (g : Glue K) {r len' : ℤ} {buf' : Pointer} {g' : Glue K}
          → glue_rx os len buf g ≡ some (r, len', buf', g')
          → IsRoomy buf
          → IsRoomy buf'
      by_rx len none g e room = absurd room
      by_rx len (some mem) g e room = rx_end _ ((rx-HasRoom len).at (lend mem g) room) e
