-- ===== src/Client/Datagram.antt =====
-- A small datagram through `client_tx` and `client_rx` of src/lib.rs, with packet filters that each
-- block one port.
use rustwall.Base.{
  ℕ, suc, ◌≤◌, ◌<◌, ◌≡◌, refl, ℤ, pos, minus_one, is_minus_one, Bool, Bytes, true, false, none,
  some, [], ◌∷◌, ◌++◌, ◌||◌, if◌then◌else◌, length, take, drop, length-append, take_prefix,
  Bool-cases, inl, inr, arith,
}
use rustwall.Exec.{ok, ret, fail, crash, dropped, exited}
use rustwall.Constants.{buffer_size}
use rustwall.Smoltcp.{Smoltcp, IpLaws, LengthLaws}
use rustwall.Externs.{Externs}
use rustwall.State.{State, tx, rx}
use rustwall.Buffer.{new_status, next, get_device_mac, known_mac}
use rustwall.Buffer.Given.{dispatch_lem, fetch_lem, exit_lem, next_lem, finished_lem, copy_lem}
use rustwall.Udp.Shipped.{Blocks}
use rustwall.Ethernet.{process_ethernet, is_for_other, bytes_eq}
use rustwall.Ethernet.Verdict.{de_morgan}
use rustwall.Ethernet.Datagram.{
  IsDatagram, passed, is_blocked, check_ethertype-Blocks, passed_frame-Short,
}
use rustwall.Client.{client_tx, client_rx, send_packets, receive_packets, deliver_packet}
use rustwall.Original.Receive
use rustwall.Original.Refine.{code, ready, sent}

module _ {Frag Frags : Type 0} (net : Smoltcp Frag Frags) (n : ℕ) where
  -- The first `n` bytes of the client's buffer are a frame with a small datagram, and the driver's
  -- buffer has room.
  pub record SendsDatagram (mem emem : Bytes) : Type 0 where
    pub short : n < buffer_size
    pub in_client : n ≤ length mem
    pub in_driver : buffer_size ≤ length emem
    pub well_formed : net.eth_check_len (take n mem) ≡ ok tt
    pub datagram : IsDatagram net (take n mem)

-- A frame with a small datagram that is broadcast, multicast or for this device, and the client's
-- buffer has room.
pub record ReceivesDatagram {Frag Frags : Type 0} (net : Smoltcp Frag Frags) (frame mem mac : Bytes)
    : Type 0 where
  pub short : length frame < buffer_size
  pub in_client : buffer_size ≤ length mem
  pub well_formed : net.eth_check_len frame ≡ ok tt
  pub for_us :
      (net.is_broadcast (net.eth_dst_addr frame)
        || (net.is_multicast (net.eth_dst_addr frame) || bytes_eq (net.eth_dst_addr frame) mac))
      ≡ true
  pub datagram : IsDatagram net frame

module _ {Frag Frags W : Type 0} (net : Smoltcp Frag Frags) (ext : Externs W) (port : ℕ)
    (laws : IpLaws net) (lengths : LengthLaws net) (s : State Frags W) where
  module _ (n : ℕ) (mem emem : Bytes) (blocks : Blocks port ext.packet_out)
      (h : SendsDatagram net n mem emem) where
    abbrev out : Bytes
    out = passed net (take n mem) h.datagram

    abbrev blocked : Bool
    blocked = is_blocked net (take n mem) h.datagram port

    queue_lem :
        process_ethernet net ext
          (take n mem)
          tx
          tx
          ext.packet_out
          false
          (ready net ext n mem emem s)
        ≡ (if blocked
            then fail dropped (ready net ext n mem emem s)
            else ret tt (record (ready net ext n mem emem s) { packets_tx = out ∷ [] }))
    unfolding process_ethernet is_for_other
    queue_lem =
        rw
          (
            h.well_formed,
            check_ethertype-Blocks net ext port ext.packet_out blocks laws (take n mem) h.datagram
                (ready net ext n mem emem s) tx tx,
          )
          refl

    -- It is dropped, and the driver is not called.
    pub client_tx-Blocked :
        blocked ≡ true
        → client_tx net ext (pos n) (ready net ext n mem emem s)
          ≡ ret (pos 0) (record (ready net ext n mem emem s) { ret_client_tx = pos 0 })
    unfolding client_tx send_packets
    client_tx-Blocked refused =
        rw (fetch_lem n mem (ready net ext n mem emem s) h.short h.in_client, queue_lem, refused)
          refl

    -- It is handed to the driver, in one frame.
    pub client_tx-Passed :
        (r : ℤ) (mem' : Bytes) (w : W)
        → blocked ≡ false
        → ext.ethdriver_tx (pos (length out)) (out ++ drop (length out) emem) s.world
          ≡ some (r, mem', w)
        → client_tx net ext (pos n) (ready net ext n mem emem s)
          ≡ ret (code r) (sent net ext n mem emem s r mem' w)
    unfolding client_tx send_packets
    client_tx-Passed r mem' w passes answer =
        let size =
          passed_frame-Short net laws lengths (take n mem) h.datagram.whole h.datagram.small in
        rw
          (
            fetch_lem n mem (ready net ext n mem emem s) h.short h.in_client,
            queue_lem,
            passes,
            dispatch_lem ext out emem mem' r w
                (record (ready net ext n mem emem s) { ret_client_tx = pos 0 })
                (omega (arith, size)) (omega (arith, size, h.in_driver)) answer,
          )
          (elim (Bool-cases (is_minus_one r)) [ inl failed ↦ rw failed | inr done ↦ rw done ])

    -- The process ends in its driver.
    pub client_tx-Exits :
        blocked ≡ false
        → ext.ethdriver_tx (pos (length out)) (out ++ drop (length out) emem) s.world ≡ none
        → client_tx net ext (pos n) (ready net ext n mem emem s) ≡ crash exited
    unfolding client_tx send_packets
    client_tx-Exits passes answer =
        let size =
          passed_frame-Short net laws lengths (take n mem) h.datagram.whole h.datagram.small in
        rw
          (
            fetch_lem n mem (ready net ext n mem emem s) h.short h.in_client,
            queue_lem,
            passes,
            exit_lem ext out emem (record (ready net ext n mem emem s) { ret_client_tx = pos 0 })
                (omega (arith, size)) (omega (arith, size, h.in_driver)) answer,
          )
          refl

  module _ (frame rest mem emem mac : Bytes) (w : W) (blocks : Blocks port ext.packet_in)
      (h : ReceivesDatagram net frame mem mac)
      (answer : ext.ethdriver_rx (pos 0) (some emem) s.world
        ≡ some (pos 0, pos (length frame), some (frame ++ rest), w)) where
    -- The state before the call.
    abbrev pub listening : State Frags W
    listening = Receive.ready net ext (length frame) mem emem (frame ++ rest) mac s

    abbrev inward : Bytes
    inward = passed net frame h.datagram

    abbrev shut : Bool
    shut = is_blocked net frame h.datagram port

    -- The state with the driver's answer.
    abbrev pub answered : State Frags W
    answered = record listening { ethdriver_buf = some (frame ++ rest); world = w }

    given_lem :
        next ext new_status listening ≡ ret (record { finished = true }, some frame) answered
    given_lem = rw (take_prefix frame rest) at (
        next_lem ext (length frame) emem (frame ++ rest) w listening h.short
          (omega (arith, length-append frame rest)) answer)

    admit_lem : process_ethernet net ext frame rx rx ext.packet_in true answered ≡ (
        if shut
        then fail dropped answered
        else ret tt (record answered { packets_rx = inward ∷ [] }))
    unfolding process_ethernet is_for_other get_device_mac known_mac
    admit_lem =
        rw
          (
            h.well_formed,
            de_morgan net ext _ _ _,
            h.for_us,
            check_ethertype-Blocks net ext port ext.packet_in blocks laws frame h.datagram answered
                rx rx,
          )
          refl

    -- It is dropped, and the client is told that there is nothing.
    pub client_rx-Blocked :
        (fuel : ℕ)
        → shut ≡ true
        → client_rx net ext (suc (suc fuel)) (pos 0) listening
          ≡ ret (minus_one, pos 0) (record answered { ret_client_rx = minus_one })
    unfolding client_rx receive_packets deliver_packet
    client_rx-Blocked fuel refused =
        rw (given_lem, admit_lem, refused, finished_lem ext answered) refl

    -- It is handed to the client, in one frame.
    pub client_rx-Passed :
        (fuel : ℕ)
        → shut ≡ false
        → client_rx net ext (suc (suc fuel)) (pos 0) listening
          ≡ ret
              (pos 0, pos (length inward))
              (record answered {
                client_buf = some (inward ++ drop (length inward) mem);
                ret_client_rx = pos 0;
              })
    unfolding client_rx receive_packets deliver_packet
    client_rx-Passed fuel passes =
        let size = passed_frame-Short net laws lengths frame h.datagram.whole h.datagram.small in
        rw
          (
            given_lem,
            admit_lem,
            passes,
            finished_lem ext (record answered { packets_rx = inward ∷ [] }),
            copy_lem inward mem answered (omega (arith, size)) (omega (arith, size, h.in_client)),
          )
          refl
