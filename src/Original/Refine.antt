-- ===== src/Original/Refine.antt =====
-- rustwall against the component that it replaces, on the frames that it lets through.
use rustwall.Base.{
  ℕ, ◌≤◌, ◌<◌, ◌≡◌, refl, ℤ, pos, minus_one, is_minus_one, Bytes, false, [], ◌∷◌, ◌++◌, some,
  if◌then◌else◌, length, take, drop, length-take, min_left, ◌∙◌, arith, Bool-cases, inl, inr,
}
use rustwall.Exec.{ok, ret}
use rustwall.Constants.{buffer_size}
use rustwall.Smoltcp.{Smoltcp}
use rustwall.Externs.{Externs}
use rustwall.State.{State, tx}
use rustwall.Memory.{memcpy_lem}
use rustwall.Buffer.{dispatch_data_to_ethdriver}
use rustwall.Buffer.Given.{dispatch_lem, fetch_lem}
use rustwall.Ethernet.{process_ethernet, is_for_other}
use rustwall.Ethernet.Passing.{IsLetThrough, check_ethertype-passes}
use rustwall.Client
use rustwall.Client.{send_packets}
use rustwall.Original

-- `client_tx` of rustwall returns -1 if the driver did, and 0 otherwise.
abbrev pub code : ℤ → ℤ
code r = if is_minus_one r then minus_one else pos 0

module _ {Frag Frags W : Type 0} (net : Smoltcp Frag Frags) (ext : Externs W) (n : ℕ)
    (mem emem : Bytes) (s : State Frags W) where
  -- Both buffers are there, both mutexes are free, and no frame is queued.
  abbrev pub ready : State Frags W
  ready = record s {
    client_buf = some mem;
    ethdriver_buf = some emem;
    client_locked = false;
    ethdriver_locked = false;
    packets_tx = [];
  }

  -- The driver's answer, in the state.
  abbrev pub sent : ℤ → Bytes → W → State Frags W
  sent r mem' w = record ready { ethdriver_buf = some mem'; world = w; ret_client_tx = code r }

  -- The first `n` bytes of the client's buffer are a frame that passes, and both buffers hold them.
  pub record PassesOut : Type 0 where
    pub short : n < buffer_size
    pub in_client : n ≤ length mem
    pub in_driver : n ≤ length emem
    pub well_formed : net.eth_check_len (take n mem) ≡ ok tt
    pub let_through : IsLetThrough net (take n mem)

  module _ (h : PassesOut) (r : ℤ) (mem' : Bytes) (w : W)
      (answer : ext.ethdriver_tx (pos n) (take n mem ++ drop n emem) s.world
        ≡ some (r, mem', w)) where
    original_lem :
        Original.client_tx ext (pos n) ready
        ≡ ret r (record ready { ethdriver_buf = some mem'; world = w })
    unfolding Original.client_tx Original.ethdriver_tx
    original_lem = rw (memcpy_lem emem mem n ready h.in_client h.in_driver, answer)

    queue_lem :
        process_ethernet net ext (take n mem) tx tx ext.packet_out false ready
        ≡ ret tt (record ready { packets_tx = take n mem ∷ [] })
    unfolding process_ethernet is_for_other
    queue_lem =
        rw
          (
            h.well_formed,
            check_ethertype-passes net ext ext.packet_out (take n mem) ready tx tx h.let_through,
          )
          refl

    size : length (take n mem) ≡ n
    size = length-take n mem ∙ min_left n (length mem) h.in_client

    taken_lem :
        (u : State Frags W)
        → dispatch_data_to_ethdriver ext
            (take n mem)
            (record u { ethdriver_buf = some emem; ethdriver_locked = false; world = s.world })
          ≡ ret r (record u { ethdriver_buf = some mem'; ethdriver_locked = false; world = w })
    taken_lem u =
        dispatch_lem ext (take n mem) emem mem' r w (record u { world = s.world })
          (omega (arith, size, h.short)) (omega (arith, size, h.in_driver)) (rw size answer)

    rustwall_lem : Client.client_tx net ext (pos n) ready ≡ ret (code r) (sent r mem' w)
    unfolding Client.client_tx send_packets
    rustwall_lem =
        rw
          (
            fetch_lem n mem ready h.short h.in_client,
            queue_lem,
            taken_lem (record ready { ret_client_tx = pos 0 }),
          )
          (elim (Bool-cases (is_minus_one r)) [ inl failed ↦ rw failed | inr done ↦ rw done ])

    -- On a well-formed frame of fewer than BUFFER_SIZE bytes that is ARP, ICMP or IGMP, and no UDP
    -- fragment by its header, with nothing queued and both mutexes free, rustwall's `client_tx` and the original's both return, hand the driver the same bytes in the
    -- same buffer and leave what the driver leaves; the original returns the driver's answer, and
    -- rustwall -1 if that is -1 and 0 otherwise.
    pub client_tx-Original :
        (Original.client_tx ext (pos n) ready
          ≡ ret r (record ready { ethdriver_buf = some mem'; world = w }))
        × (Client.client_tx net ext (pos n) ready ≡ ret (code r) (sent r mem' w))
    client_tx-Original = (original_lem, rustwall_lem)
