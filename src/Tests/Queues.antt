-- ===== src/Tests/Queues.antt =====
-- Theorems on the queues of src/lib.rs at queues of one and two frames.
use rustwall.Base.{arith, ◌≡◌, ◌⊎◌, refl, pos, minus_one, Bytes, [], ◌∷◌, replicate, some}
use rustwall.Exec.{ret}
use rustwall.State.{State, initial}
use rustwall.Buffer.{next, copy_data_to_client_buf}
use rustwall.Client.{send_packets, client_rx, receive_packets, deliver_packet, more_data}
use rustwall.Client.Delivery.{waiting, collect, collect-Fifo}
use rustwall.Client.Sending.{Accepts, queued, send_packets-Returns}
use rustwall.Client.Results.{client_rx-More}
use rustwall.Tests.Net.{stand_in}
use rustwall.Tests.Frames.{quiet}

abbrev two_queued : State Bytes (Unit {0})
two_queued = record (initial stand_in (some (replicate 4 0)) (some (replicate 4 0)) tt) {
  packets_tx = (1 ∷ 2 ∷ []) ∷ (3 ∷ []) ∷ [];
  ret_client_tx = pos 0;
}

abbrev two_received : State Bytes (Unit {0})
two_received = record (initial stand_in (some (replicate 4 0)) (some (replicate 4 0)) tt) {
  packets_rx = (1 ∷ 2 ∷ []) ∷ (3 ∷ []) ∷ [];
}

abbrev one_left : State Bytes (Unit {0})
one_left = record two_received {
  packets_rx = (3 ∷ []) ∷ [];
  client_buf = some (1 ∷ 2 ∷ 0 ∷ 0 ∷ []);
  ret_client_rx = pos 1;
}

delivered : client_rx stand_in quiet 3 (pos 0) two_received ≡ ret (pos 1, pos 2) one_left
unfolding initial client_rx receive_packets next deliver_packet copy_data_to_client_buf
delivered = refl

client_rx-More_example :
    (one_left.ret_client_rx ≡ pos 1)
    × (((pos 1 ≡ minus_one) × (one_left.packets_rx ≡ [])) ⊎ (pos 1 ≡ more_data one_left.packets_rx))
client_rx-More_example =
    client_rx-More stand_in quiet 3 (pos 0) (pos 1) (pos 2) two_received one_left delivered

collect-Fifo_example :
    (t : State Bytes (Unit {0})) × (collect stand_in quiet 1 2
        (waiting stand_in quiet (replicate 4 0) ((1 ∷ 2 ∷ []) ∷ (3 ∷ []) ∷ []) two_received)
      ≡ ret ((1 ∷ 2 ∷ []) ∷ (3 ∷ []) ∷ []) t)
    × (t.packets_rx ≡ [])
collect-Fifo_example =
    collect-Fifo stand_in quiet 0 ((1 ∷ 2 ∷ []) ∷ (3 ∷ []) ∷ []) (replicate 4 0) two_received
      (pos 0, refl) ((omega arith, omega arith), ((omega arith, omega arith), tt))

quiet-Accepts : Accepts stand_in quiet 4
quiet-Accepts = record {
  answer = λ n mem w e. record {
    r = pos 0;
    mem' = mem;
    w' = w;
    answered = refl;
    taken = refl;
    kept = e;
  };
}

send_packets-Returns_example :
    (t : State Bytes (Unit {0})) × (send_packets stand_in quiet
        ((1 ∷ 2 ∷ []) ∷ (3 ∷ []) ∷ [])
        (queued stand_in quiet 4 (replicate 4 0) ((1 ∷ 2 ∷ []) ∷ (3 ∷ []) ∷ []) two_queued)
      ≡ ret tt t)
    × (t.packets_tx ≡ [])
    × (t.ret_client_tx ≡ pos 0)
send_packets-Returns_example =
    send_packets-Returns stand_in quiet 4 ((1 ∷ 2 ∷ []) ∷ (3 ∷ []) ∷ []) (replicate 4 0) two_queued
      quiet-Accepts refl ((omega arith, omega arith), ((omega arith, omega arith), tt))
