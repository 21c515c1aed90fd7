-- ===== src/Tests/Receiving.antt =====
-- Theorems on what reaches the client, at an ARP request and at two bytes.
use rustwall.Base.{◌≡◌, refl, inl, ◌++◌, replicate, pos, Bytes, some, [], ◌∷◌, arith}
use rustwall.Exec.{ret}
use rustwall.Externs.{Externs}
use rustwall.State.{State, initial}
use rustwall.Buffer.{get_device_mac, known_mac}
use rustwall.Client
use rustwall.Client.{client_mac}
use rustwall.Original
use rustwall.Original.Receive.{PassesIn, ready, received, client_rx-Original}
use rustwall.Tests.Net.{stand_in}
use rustwall.Tests.Frames.{quiet, arp_frame, fresh}

abbrev empty_buffer : Bytes
empty_buffer = replicate 60 0

-- A driver that always has the ARP request.
abbrev asking : Externs (Unit {0})
asking = record quiet {
  ethdriver_rx = λ len buf w. some (pos 0, pos 22, some (arp_frame ++ replicate 38 0), w);
}

arp_frame-PassesIn :
    PassesIn stand_in asking 22 empty_buffer empty_buffer
      (arp_frame ++ replicate 38 0)
      (quiet.ethdriver_mac tt)
      fresh
arp_frame-PassesIn = record {
  short = omega arith;
  in_driver = omega arith;
  in_client = omega arith;
  well_formed = refl;
  let_through = inl refl;
  for_us = refl;
}

client_rx-Original_example :
    (Original.client_rx asking (pos 0) (
        ready stand_in asking 22 empty_buffer empty_buffer
          (arp_frame ++ replicate 38 0)
          (quiet.ethdriver_mac tt)
          fresh)
      ≡ ret
          (pos 0, pos 22)
          (received stand_in asking 22 empty_buffer empty_buffer
            (arp_frame ++ replicate 38 0)
            (quiet.ethdriver_mac tt)
            fresh
            tt))
    × (Client.client_rx stand_in asking 2 (pos 0) (
          ready stand_in asking 22 empty_buffer empty_buffer
            (arp_frame ++ replicate 38 0)
            (quiet.ethdriver_mac tt)
            fresh)
        ≡ ret
            (pos 0, pos 22)
            (record (received stand_in asking 22 empty_buffer empty_buffer
              (arp_frame ++ replicate 38 0)
              (quiet.ethdriver_mac tt)
              fresh
              tt) { ret_client_rx = pos 0 }))
client_rx-Original_example =
    client_rx-Original stand_in asking 22 empty_buffer empty_buffer (arp_frame ++ replicate 38 0)
      (quiet.ethdriver_mac tt) fresh arp_frame-PassesIn tt refl 0

abbrev told : State Bytes (Unit {0})
told = record fresh { client_mac_address = some (2 ∷ 0 ∷ 0 ∷ 0 ∷ 0 ∷ 1 ∷ []) }

first_told : client_mac stand_in quiet fresh ≡ ret (2 ∷ 0 ∷ 0 ∷ 0 ∷ 0 ∷ 1 ∷ []) told
unfolding client_mac get_device_mac known_mac initial
first_told = refl
