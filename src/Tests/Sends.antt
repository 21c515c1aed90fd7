-- ===== src/Tests/Sends.antt =====
-- A run of calls of the firewall linked with src/server_glue.c, at a small network device.
use rustwall.Base.{◌≡◌, refl, pos, Bytes, List, some, [], ◌∷◌}
use rustwall.Exec.{ret}
use rustwall.State.{State, initial}
use rustwall.Client.{client_tx, client_rx, send_packets, receive_packets, deliver_packet}
use rustwall.Client.Runs.{initial-IsValid, Run, done, step, sent, received, client_wrote}
use rustwall.Buffer.{
  fetch_client_data, dispatch_data_to_ethdriver, copy_data_to_client_buf, next, get_device_mac,
}
use rustwall.Ethernet.{process_ethernet, check_ethertype, is_for_other, push_packet}
use rustwall.Memory.{memcpy}
use rustwall.Glue.{
  Glue, ethdriver_init, ethdriver_tx, tun_write, ethdriver_rx, tun_select, tun_read, receive,
}
use rustwall.Glue.Link.{glue_externs}
use rustwall.Glue.Calls.{MadeBy, Sent, Run-Sends}
use rustwall.Tests.Net.{stand_in, stand_in-LengthLaws}
use rustwall.Tests.Frames.{arp_frame}
use rustwall.Tests.Calls.{page, page-IsRoomy}
use rustwall.Tests.Device.{Waiting, tap, idle}

-- The device gives back what was written to it.
abbrev pub device : Glue Waiting
device = record idle { tun_buffer = page; from_ethdriver_data = page }

abbrev start : State Bytes (Glue Waiting)
start = initial stand_in (some page) (some page) device

abbrev after_sending : State Bytes (Glue Waiting)
after_sending = record start {
  ret_client_tx = pos 0;
  world = record device { kernel = arp_frame ∷ [] };
}

request_sent : client_tx stand_in (glue_externs tap) (pos 22) start ≡ ret (pos 0) after_sending
unfolding initial client_tx fetch_client_data process_ethernet check_ethertype is_for_other
    push_packet send_packets dispatch_data_to_ethdriver glue_externs ethdriver_tx ethdriver_init
    memcpy tun_write
request_sent = refl

-- The frame comes back, and is received into the client's buffer.
abbrev after_receiving : State Bytes (Glue Waiting)
after_receiving = record after_sending {
  ret_client_rx = pos 0;
  client_mac_address = some (2 ∷ 0 ∷ 0 ∷ 0 ∷ 0 ∷ 1 ∷ []);
  world = record device { kernel = []; rv = pos 1; timeout = record { tv_sec = 10; tv_usec = 0 } };
}

request_received :
    client_rx stand_in (glue_externs tap) 3 (pos 0) after_sending
    ≡ ret (pos 0, pos 22) after_receiving
unfolding initial client_rx receive_packets deliver_packet next copy_data_to_client_buf
    process_ethernet check_ethertype is_for_other push_packet glue_externs ethdriver_rx
    ethdriver_init memcpy tun_select tun_read receive get_device_mac
request_received = refl

-- It is sent again.
abbrev after_both : State Bytes (Glue Waiting)
after_both = record after_receiving {
  world = record after_receiving.world { kernel = arp_frame ∷ [] };
}

sent_again : client_tx stand_in (glue_externs tap) (pos 22) after_receiving ≡ ret (pos 0) after_both
unfolding initial client_tx fetch_client_data process_ethernet check_ethertype is_for_other
    push_packet send_packets dispatch_data_to_ethdriver glue_externs ethdriver_tx ethdriver_init
    memcpy tun_write
sent_again = refl

unfoldable three_calls : Run stand_in (glue_externs tap) start after_both
unfolding initial
three_calls =
    step
      (step (step (step done (client_wrote page page-IsRoomy)) (sent (pos 22) request_sent))
        (received 3 (pos 0) request_received))
      (sent (pos 22) sent_again)

Run-Sends_example :
    (frames : List Bytes) × MadeBy stand_in tap three_calls frames
    × Sent stand_in tap device frames after_both
unfolding initial three_calls
Run-Sends_example =
    Run-Sends stand_in tap stand_in-LengthLaws
      (initial-IsValid stand_in (some page) (some page) device page-IsRoomy page-IsRoomy)
      (record { status = refl; room = page-IsRoomy }) refl three_calls tt
