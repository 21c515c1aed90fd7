-- ===== src/Glue/Arrival.antt =====
-- `client_rx` of src/lib.rs on the TAP device of src/server_glue.c, from the device to the client's
-- buffer.
use rustwall.Base.{
  ℕ, suc, ◌≤◌, ◌<◌, ◌≡◌, refl, ap, pos, true, Bytes, ◌||◌, ◌++◌, some, length, drop, arith,
  length-append, take_prefix,
}
use rustwall.Exec.{ok, ret}
use rustwall.Constants.{buffer_size}
use rustwall.Smoltcp.{Smoltcp}
use rustwall.Ethernet.{bytes_eq}
use rustwall.Ethernet.Passing.{IsLetThrough}
use rustwall.State.{State}
use rustwall.Client.{client_rx}
use rustwall.Original.Receive.{ready, received, PassesIn, client_rx-Original}
use rustwall.Glue.{Os, Glue, content_size}
use rustwall.Glue.Deaf.{selected}
use rustwall.Glue.Receive.{delivered, ethdriver_rx_delivers}
use rustwall.Glue.Link.{glue_externs}

module _ {Frags K : Type 0} (os : Os K) (frame emem : Bytes) (k : K)
    (s : State Frags (Glue K)) where
  abbrev pub lent : Glue K
  lent = record s.world { from_ethdriver_data = emem }

  -- The answer of the device to the firewall.
  pub device_answers :
      s.world.status ≡ true
      → (selected os s.world).0 ≡ pos 1
      → os.read s.world.tun_fd content_size (selected os s.world).3 ≡ (pos (length frame), frame, k)
      → length frame ≤ length emem
      → (glue_externs os).ethdriver_rx (pos 0) (some emem) s.world
        ≡ some (
          pos 0,
          pos (length frame),
          some (frame ++ drop (length frame) emem),
          delivered os lent frame k,
        )
  unfolding glue_externs
  device_answers set_up select_ready read room =
      rw (ethdriver_rx_delivers os lent frame k (pos 0) set_up select_ready read room)

module _ {Frag Frags K : Type 0} (net : Smoltcp Frag Frags) (os : Os K) (frame mem emem mac : Bytes)
    (k : K) (s : State Frags (Glue K)) where
  -- The frame waits at the device, which is set up, and it is a frame that passes and is
  -- broadcast, multicast or for this device, and both buffers hold it.
  pub record Waits : Type 0 where
    pub set_up : s.world.status ≡ true
    pub select_ready : (selected os s.world).0 ≡ pos 1
    pub read :
        os.read s.world.tun_fd content_size (selected os s.world).3 ≡ (pos (length frame), frame, k)
    pub short : length frame < buffer_size
    pub in_driver : length frame ≤ length emem
    pub in_client : length frame ≤ length mem
    pub well_formed : net.eth_check_len frame ≡ ok tt
    pub let_through : IsLetThrough net frame
    pub for_us :
        (net.is_broadcast (net.eth_dst_addr frame)
          || (net.is_multicast (net.eth_dst_addr frame) || bytes_eq (net.eth_dst_addr frame) mac))
        ≡ true

  -- What the device leaves in the shared buffer.
  abbrev got : Bytes
  got = frame ++ drop (length frame) emem

  request_lem : Waits → PassesIn net (glue_externs os) (length frame) mem emem got mac s
  request_lem h =
      let same = take_prefix frame (drop (length frame) emem) in
      record {
        short = h.short;
        in_driver = omega (arith, length-append frame (drop (length frame) emem));
        in_client = h.in_client;
        well_formed = rw same h.well_formed;
        let_through = rw same h.let_through;
        for_us = rw same h.for_us;
      }

  -- A well-formed frame that is ARP, ICMP or IGMP, no UDP fragment by its header, and broadcast,
  -- multicast or for this device, and that waits at the device, which is set up, reaches the client
  -- in one call of `client_rx`, given two rounds or more, with nothing queued, both mutexes free, the
  -- address known and room in both buffers: the call returns 0 and the length of the frame, and the
  -- frame stands at the start of the client's buffer, as it was read from the device.
  pub client_rx-Arrives :
      (fuel : ℕ)
      → Waits
      → (t : State Frags (Glue K)) × (client_rx net
            (glue_externs os)
            (suc (suc fuel))
            (pos 0)
            (ready net (glue_externs os) (length frame) mem emem got mac s)
          ≡ ret (pos 0, pos (length frame)) t)
        × (t.client_buf ≡ some (frame ++ drop (length frame) mem))
        × (t.world.kernel ≡ k)
  client_rx-Arrives fuel h =
      let w = delivered os (lent os frame emem k s) frame k in
      let (_, rustwall) =
        client_rx-Original net (glue_externs os) (length frame) mem emem got mac s (request_lem h) w
          (device_answers os frame emem k s h.set_up h.select_ready h.read h.in_driver) fuel in
      (
        record (received net (glue_externs os) (length frame) mem emem got mac s w) {
          ret_client_rx = pos 0;
        },
        rustwall,
        ap (λ b. some (b ++ drop (length frame) mem))
            (take_prefix frame (drop (length frame) emem)),
        refl,
      )
