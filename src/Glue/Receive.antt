-- ===== src/Glue/Receive.antt =====
-- `ethdriver_rx` where the device has a frame.
use rustwall.Base.{
  ◌≤◌, ◌≡◌, ℤ, pos, Bytes, true, ◌++◌, length, drop, arith, length-append, take_prefix,
}
use rustwall.Exec.{ret}
use rustwall.Memory.{memcpy_lem}
use rustwall.Glue.{Os, Glue, tun_select, tun_read, receive, ethdriver_rx, content_size}
use rustwall.Glue.Deaf.{selected, init_again}

module _ {K : Type 0} (os : Os K) (g : Glue K) (bytes : Bytes) (k : K) where
  -- The globals after a frame `bytes` was read.
  abbrev pub delivered : Glue K
  delivered = record g {
    rv = (selected os g).0;
    set = (selected os g).1;
    timeout = (selected os g).2;
    tun_buffer = bytes ++ drop (length bytes) g.tun_buffer;
    from_ethdriver_data = bytes ++ drop (length bytes) g.from_ethdriver_data;
    kernel = k;
  }

  holds : length bytes ≤ length (bytes ++ drop (length bytes) g.tun_buffer)
  holds = omega (arith, length-append bytes (drop (length bytes) g.tun_buffer))

  -- With the device set up and select reporting it ready, `ethdriver_rx` returns 0 and the number
  -- of bytes that were read, and leaves these at the start of the shared buffer, if that holds them.
  pub ethdriver_rx_delivers :
      (len : ℤ)
      → g.status ≡ true
      → (selected os g).0 ≡ pos 1
      → os.read g.tun_fd content_size (selected os g).3 ≡ (pos (length bytes), bytes, k)
      → length bytes ≤ length g.from_ethdriver_data
      → ethdriver_rx os len g ≡ ret (pos 0, pos (length bytes)) delivered
  unfolding ethdriver_rx tun_select receive tun_read
  ethdriver_rx_delivers len h ready got fits = simp (
    init_again os g h,
    ready,
    got,
    memcpy_lem g.from_ethdriver_data (bytes ++ drop (length bytes) g.tun_buffer) (length bytes) _
        holds fits,
    take_prefix bytes (drop (length bytes) g.tun_buffer),
  )
