-- ===== src/Original/Receive.antt =====
-- rustwall against the component that it replaces, on the frames that it lets in.
use rustwall.Base.{
  ℕ, suc, ◌≤◌, ◌<◌, ◌≡◌, refl, pos, Bytes, true, false, [], ◌∷◌, ◌++◌, ◌||◌, some, length, take,
  drop, length-take, min_left, ◌∙◌, arith,
}
use rustwall.Exec.{ok, ret}
use rustwall.Constants.{buffer_size}
use rustwall.Smoltcp.{Smoltcp}
use rustwall.Externs.{Externs}
use rustwall.State.{State, rx}
use rustwall.Memory.{memcpy_lem}
use rustwall.Buffer.{copy_data_to_client_buf, get_device_mac, known_mac}
use rustwall.Buffer.Given.{next_lem, finished_lem, copy_lem}
use rustwall.Ethernet.{process_ethernet, is_for_other, bytes_eq}
use rustwall.Ethernet.Verdict.{de_morgan}
use rustwall.Ethernet.Passing.{IsLetThrough, check_ethertype-passes}
use rustwall.Client
use rustwall.Client.{receive_packets, deliver_packet}
use rustwall.Original

module _ {Frag Frags W : Type 0} (net : Smoltcp Frag Frags) (ext : Externs W) (n : ℕ)
    (mem emem got mac : Bytes) (s : State Frags W) where
  -- Both buffers are there, both mutexes are free, the address is known, and no frame is queued.
  abbrev pub ready : State Frags W
  ready = record s {
    client_buf = some mem;
    ethdriver_buf = some emem;
    client_locked = false;
    ethdriver_locked = false;
    client_mac_address = some mac;
    packets_rx = [];
  }

  -- With the driver's frame copied to the client.
  abbrev pub received : W → State Frags W
  received w = record ready {
    ethdriver_buf = some got;
    client_buf = some (take n got ++ drop n mem);
    world = w;
  }

  -- The first `n` bytes of the buffer that the driver leaves are a frame that passes and is
  -- broadcast, multicast or for this device, and both buffers hold them.
  pub record PassesIn : Type 0 where
    pub short : n < buffer_size
    pub in_driver : n ≤ length got
    pub in_client : n ≤ length mem
    pub well_formed : net.eth_check_len (take n got) ≡ ok tt
    pub let_through : IsLetThrough net (take n got)
    pub for_us :
        (net.is_broadcast (net.eth_dst_addr (take n got))
          || (net.is_multicast (net.eth_dst_addr (take n got))
              || bytes_eq (net.eth_dst_addr (take n got)) mac))
        ≡ true

  module _ (h : PassesIn) (w : W)
      (answer : ext.ethdriver_rx (pos 0) (some emem) s.world
        ≡ some (pos 0, pos n, some got, w)) where
    original_lem : Original.client_rx ext (pos 0) ready ≡ ret (pos 0, pos n) (received w)
    unfolding Original.client_rx Original.ethdriver_rx
    original_lem = rw (
      answer,
      memcpy_lem mem got n (record ready { ethdriver_buf = some got; world = w }) h.in_driver
          h.in_client,
    )

    admit_lem :
        (u : State Frags W)
        → process_ethernet net ext
            (take n got)
            rx
            rx
            ext.packet_in
            true
            (record u { client_mac_address = some mac; packets_rx = [] })
          ≡ ret tt (record u { client_mac_address = some mac; packets_rx = take n got ∷ [] })
    unfolding process_ethernet is_for_other get_device_mac known_mac
    admit_lem u =
        rw
          (
            h.well_formed,
            de_morgan net ext _ _ _,
            h.for_us,
            check_ethertype-passes net ext ext.packet_in (take n got)
                (record u { client_mac_address = some mac }) rx rx h.let_through,
          )
          refl

    size : length (take n got) ≡ n
    size = length-take n got ∙ min_left n (length got) h.in_driver

    given_lem :
        (u : State Frags W)
        → copy_data_to_client_buf
            (take n got)
            (record u { client_buf = some mem; client_locked = false })
          ≡ ret
              (pos n)
              (record u { client_buf = some (take n got ++ drop n mem); client_locked = false })
    given_lem u = rw size at (
        copy_lem (take n got) mem u (omega (arith, size, h.short))
          (omega (arith, size, h.in_client)))

    rustwall_lem :
        (fuel : ℕ)
        → Client.client_rx net ext (suc (suc fuel)) (pos 0) ready
          ≡ ret (pos 0, pos n) (record (received w) { ret_client_rx = pos 0 })
    unfolding Client.client_rx receive_packets deliver_packet
    rustwall_lem fuel = rw (
      next_lem ext n emem got w ready h.short h.in_driver answer,
      admit_lem (record ready { ethdriver_buf = some got; world = w }),
      finished_lem ext
          (record ready { ethdriver_buf = some got; packets_rx = take n got ∷ []; world = w }),
      given_lem (record ready { ethdriver_buf = some got; world = w }),
    )

    -- On a well-formed frame of fewer than BUFFER_SIZE bytes that is ARP, ICMP or IGMP, no UDP
    -- fragment by its header, and broadcast, multicast or for this device, given by the driver with
    -- the value 0, with nothing queued, both mutexes free and the address known, the original's `client_rx`
    -- and rustwall's, given two rounds or more, both return 0 and the frame's length, with the same
    -- bytes in the client's buffer and nothing else changed but what the driver changed and, in
    -- rustwall, the stored result.
    pub client_rx-Original :
        (fuel : ℕ)
        → (Original.client_rx ext (pos 0) ready ≡ ret (pos 0, pos n) (received w))
          × (Client.client_rx net ext (suc (suc fuel)) (pos 0) ready
              ≡ ret (pos 0, pos n) (record (received w) { ret_client_rx = pos 0 }))
    client_rx-Original fuel = (original_lem, rustwall_lem fuel)
