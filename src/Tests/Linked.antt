-- ===== src/Tests/Linked.antt =====
-- Theorems on the firewall linked with src/server_glue.c, at a small network device.
use rustwall.Base.{
  ℕ, ◌≡◌, ◌≤◌, refl, inl, arith, pos, Bytes, some, [], ◌∷◌, ◌++◌, drop, length, replicate,
  length-replicate,
}
use rustwall.Exec.{ret}
use rustwall.Exec.Keeps.{Ends, Allowed}
use rustwall.Constants.{buffer_size}
use rustwall.State.{State, initial}
use rustwall.Client.{client_tx, client_rx, send_packets}
use rustwall.Client.Runs.{initial-IsValid}
use rustwall.Glue.{Glue, content_size, ethdriver_mac}
use rustwall.Glue.Link.{glue_externs}
use rustwall.Glue.Sending.{queued, Written, send_packets-Writes}
use rustwall.Glue.Transmit.{Transmitted, client_tx-Transmits}
use rustwall.Glue.Arrival.{Waits, client_rx-Arrives}
use rustwall.Original.Receive.{ready}
use rustwall.Tests.Net.{stand_in, stand_in-LengthLaws}
use rustwall.Tests.Frames.{arp_frame}
use rustwall.Tests.Device.{Waiting, tap, idle}

page : Bytes
page = replicate buffer_size 0

length-page : length page ≡ buffer_size
unfolding page
length-page = length-replicate {A = ℕ} buffer_size 0

device_room : buffer_size ≤ length idle.tun_buffer
device_room = omega (arith, length-replicate {A = ℕ} content_size 0)

abbrev linked : State Bytes (Glue Waiting)
linked = initial stand_in (some page) (some page) idle

send_packets-Writes_example :
    Written stand_in tap
      (some ((1 ∷ 2 ∷ []) ∷ (3 ∷ []) ∷ []))
      linked.world.tun_fd
      linked.ret_client_tx
      (send_packets stand_in
        (glue_externs tap)
        ((1 ∷ 2 ∷ []) ∷ (3 ∷ []) ∷ [])
        (queued stand_in tap page ((1 ∷ 2 ∷ []) ∷ (3 ∷ []) ∷ []) linked))
unfolding initial
send_packets-Writes_example =
    send_packets-Writes stand_in tap ((1 ∷ 2 ∷ []) ∷ (3 ∷ []) ∷ []) page linked refl
      (omega (arith, length-page)) device_room (omega arith, (omega arith, tt))

client_tx-Transmits_example :
    Ends
      (Allowed ⊥)
      (Transmitted stand_in tap stand_in-LengthLaws (pos 22) linked)
      (client_tx stand_in (glue_externs tap) (pos 22) linked)
unfolding initial
client_tx-Transmits_example =
    client_tx-Transmits stand_in tap stand_in-LengthLaws (pos 22) linked
      (initial-IsValid stand_in (some page) (some page) idle (omega (arith, length-page))
        (omega (arith, length-page)))
      refl device_room

-- One ARP request waits.
abbrev asked : State Bytes (Glue Waiting)
asked = record linked { world = record idle { kernel = arp_frame ∷ [] } }

request_waits : Waits stand_in tap arp_frame page page ethdriver_mac [] asked
unfolding initial
request_waits = record {
  set_up = refl;
  select_ready = refl;
  read = refl;
  short = omega arith;
  in_driver = omega (arith, length-page);
  in_client = omega (arith, length-page);
  well_formed = refl;
  let_through = inl refl;
  for_us = refl;
}

client_rx-Arrives_example :
    (t : State Bytes (Glue Waiting)) × (client_rx stand_in (glue_externs tap) 2 (pos 0) (
        ready stand_in
          (glue_externs tap)
          22
          page
          page
          (arp_frame ++ drop 22 page)
          ethdriver_mac
          asked)
      ≡ ret (pos 0, pos 22) t)
    × (t.client_buf ≡ some (arp_frame ++ drop 22 page))
    × (t.world.kernel ≡ [])
client_rx-Arrives_example =
    client_rx-Arrives stand_in tap arp_frame page page ethdriver_mac [] asked 0 request_waits
