-- ===== src/Glue/Filtered.antt =====
-- Small datagrams through the firewall linked with src/external_firewall.c and src/server_glue.c,
-- between the client's buffer and the TAP device.
use rustwall.Base.{
  ℕ, suc, ◌≤◌, ◌≡◌, ℤ, pos, minus_one, Bytes, Bool, true, some, ◌++◌, if◌then◌else◌, length, take,
  drop, Bool-cases, inl, inr, arith,
}
use rustwall.Exec.{Outcome, ret, crash, exited}
use rustwall.Smoltcp.{Smoltcp, IpLaws, LengthLaws}
use rustwall.State.{State}
use rustwall.Udp.Shipped.{Blocks, packet_in-Blocks, packet_out-Blocks}
use rustwall.Ethernet.Datagram.{passed, is_blocked, passed_frame-Short}
use rustwall.Client.{client_tx, client_rx}
use rustwall.Client.Datagram.{
  SendsDatagram, ReceivesDatagram, client_tx-Blocked, client_tx-Exits, client_tx-Passed,
  client_rx-Blocked, client_rx-Passed,
}
use rustwall.Original.Receive
use rustwall.Original.Refine.{ready, sent}
use rustwall.Glue.{Os, Glue, is_negative, content_size}
use rustwall.Glue.Deaf.{selected}
use rustwall.Glue.Receive.{delivered}
use rustwall.Glue.Arrival.{lent, device_answers}
use rustwall.Glue.Link.{glue_externs}
use rustwall.Glue.Sending.{after_write, answer_lem}
use rustwall.Glue.Traffic.{IsUp}

-- The firewall's filters are the shipped ones.
module _ {K : Type 0} (os : Os K) where
  in-Blocks : Blocks 6968 (glue_externs os).packet_in
  unfolding glue_externs
  in-Blocks = packet_in-Blocks

  out-Blocks : Blocks 6966 (glue_externs os).packet_out
  unfolding glue_externs
  out-Blocks = packet_out-Blocks

module _ {Frag Frags K : Type 0} (net : Smoltcp Frag Frags) (os : Os K)
    (s : State Frags (Glue K)) where
  module _ (n : ℕ) (mem emem : Bytes) (h : SendsDatagram net n mem emem) where
    abbrev out : Bytes
    out = passed net (take n mem) h.datagram

    -- The call of write with it.
    abbrev written : ℤ × K
    written = os.write s.world.tun_fd out s.world.kernel

    abbrev put : Bytes
    put = out ++ drop (length out) emem

    -- What `client_tx` comes to: nothing is written, or the write fails, or all is well.
    abbrev pub sends : Bool → Outcome (State Frags (Glue K)) ℤ
    sends blocked =
        if blocked
        then ret (pos 0)
            (record (ready net (glue_externs os) n mem emem s) { ret_client_tx = pos 0 })
        else if is_negative written.0
        then crash exited
        else ret (pos 0) (
            sent net (glue_externs os) n mem emem s (pos 0) put
              (after_write net os out put written.1 s.world))

  module _ (frame mem emem mac : Bytes) (k : K) (h : ReceivesDatagram net frame mem mac) where
    -- The frame waits at the device, which is set up, and fits the shared buffer.
    pub record WaitsAtDevice : Type 0 where
      pub set_up : s.world.status ≡ true
      pub select_ready : (selected os s.world).0 ≡ pos 1
      pub read :
          os.read s.world.tun_fd content_size (selected os s.world).3
          ≡ (pos (length frame), frame, k)
      pub in_driver : length frame ≤ length emem

    abbrev came : Bytes
    came = passed net frame h.datagram

    -- What the device leaves in the shared buffer.
    abbrev got : Bytes
    got = frame ++ drop (length frame) emem

    -- The state before the call, and with the device's answer.
    abbrev pub before : State Frags (Glue K)
    before = Receive.ready net (glue_externs os) (length frame) mem emem got mac s

    abbrev pub read_in : State Frags (Glue K)
    read_in = record before {
      ethdriver_buf = some got;
      world = delivered os (lent os frame emem k s) frame k;
    }

    -- What `client_rx` comes to.
    abbrev pub receives : Bool → Outcome (State Frags (Glue K)) (ℤ × ℤ)
    receives blocked =
        if blocked
        then ret (minus_one, pos 0) (record read_in { ret_client_rx = minus_one })
        else ret (pos 0, pos (length came))
            (record read_in {
              client_buf = some (came ++ drop (length came) mem);
              ret_client_rx = pos 0;
            })

module _ {Frag Frags K : Type 0} (net : Smoltcp Frag Frags) (os : Os K) (laws : IpLaws net)
    (lengths : LengthLaws net) (s : State Frags (Glue K)) where
  module _ (n : ℕ) (mem emem : Bytes) (h : SendsDatagram net n mem emem) where
    -- With the device set up, BUFFER_SIZE bytes in the buffers on the way, nothing queued and both
    -- mutexes free, `client_tx` on a frame of fewer than BUFFER_SIZE bytes with a whole, well-
    -- formed datagram below the MTU: if the datagram goes to port 6966 or is empty, it returns 0
    -- and the device is not asked for anything; any other is written to the device, in one frame
    -- behind its Ethernet header, with the payload, the ports, the addresses and the identifier
    -- that it had, and the call returns 0, or the process ends if the write fails. This holds for
    -- smoltcp keeping to `IpLaws` and `LengthLaws`.
    pub client_tx-Filters :
        IsUp s.world
        → client_tx net (glue_externs os) (pos n) (ready net (glue_externs os) n mem emem s)
          ≡ sends net os s n mem emem h (is_blocked net (take n mem) h.datagram 6966)
    client_tx-Filters up = elim (Bool-cases (is_blocked net (take n mem) h.datagram 6966)) [
      | inl blocked ↦ rw blocked (
          client_tx-Blocked net (glue_externs os) 6966 laws lengths s n mem emem (out-Blocks os) h
            blocked)
      | inr open_port ↦
          let size =
            passed_frame-Short net laws lengths (take n mem) h.datagram.whole h.datagram.small in
          let answer =
            answer_lem net os (out net os s n mem emem h) emem s.world up.status
              (omega (arith, size, h.in_driver)) (omega (arith, size, up.room)) in
          elim (Bool-cases (is_negative (written net os s n mem emem h).0)) [
            | inl failed ↦
                rw (open_port, failed)
                  (client_tx-Exits net (glue_externs os) 6966 laws lengths s n mem emem
                    (out-Blocks os) h open_port (rw failed at answer))
            | inr done ↦
                rw (open_port, done)
                  (client_tx-Passed net (glue_externs os) 6966 laws lengths s n mem emem
                    (out-Blocks os) h (pos 0) (put net os s n mem emem h)
                    (after_write net os (out net os s n mem emem h) (put net os s n mem emem h)
                      (written net os s n mem emem h).1 s.world)
                    open_port (rw done at answer))
          ]
    ]

  module _ (frame mem emem mac : Bytes) (k : K) (h : ReceivesDatagram net frame mem mac) where
    -- With nothing queued, both mutexes free, the address known and room in the client's buffer, a
    -- frame that waits at the device, which is set up, with a whole, well-formed datagram below the
    -- MTU, broadcast, multicast or for this device, in one call of `client_rx`, given two rounds or
    -- more: if the datagram goes to port 6968 or is empty, the call returns -1 and the client's
    -- buffer is as it was; any other stands at the start of the client's buffer, in one frame behind
    -- its Ethernet header, with the payload, the ports, the addresses and the identifier that it
    -- had, and the call returns 0 and the length of that frame. This holds for smoltcp keeping to
    -- `IpLaws` and `LengthLaws`.
    pub client_rx-Filters :
        (fuel : ℕ)
        → WaitsAtDevice net os s frame mem emem mac k h
        → client_rx net
            (glue_externs os)
            (suc (suc fuel))
            (pos 0)
            (before net os s frame mem emem mac k h)
          ≡ receives net os s frame mem emem mac k h (is_blocked net frame h.datagram 6968)
    client_rx-Filters fuel waits =
        let answer =
          device_answers os frame emem k s waits.set_up waits.select_ready waits.read
            waits.in_driver in
        let w = delivered os (lent os frame emem k s) frame k in
        elim (Bool-cases (is_blocked net frame h.datagram 6968)) [
          | inl blocked ↦ rw blocked (
              client_rx-Blocked net (glue_externs os) 6968 laws lengths s frame
                (drop (length frame) emem) mem emem mac w (in-Blocks os) h answer fuel blocked)
          | inr open_port ↦ rw open_port (
              client_rx-Passed net (glue_externs os) 6968 laws lengths s frame
                (drop (length frame) emem) mem emem mac w (in-Blocks os) h answer fuel open_port)
        ]
