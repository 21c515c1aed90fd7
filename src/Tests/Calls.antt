-- ===== src/Tests/Calls.antt =====
-- Theorems on the calls from C, with the stand-in for smoltcp and a driver without frames.
use rustwall.Base.{
  ℕ, ℤ, pos, ◌<◌, ◌≡◌, refl, subst, minus_one, zero, suc, Option, ◌++◌, arith, Bytes, some, [], ◌∷◌,
  replicate, length, length-replicate,
}
use rustwall.Exec.Keeps.{Ends, Allowed}
use rustwall.Exec.Safe.{Safe, NoDeadlock}
use rustwall.Constants.{buffer_size}
use rustwall.State.{State, Pointer, initial}
use rustwall.Externs.{Externs}
use rustwall.ExternalFirewall.{packet_in, packet_out}
use rustwall.Buffer.Mutexes.{Unlocked}
use rustwall.Exec.{ret}
use rustwall.Ethernet.{process_ethernet, check_ethertype, is_for_other, push_packet}
use rustwall.Buffer.{fetch_client_data, dispatch_data_to_ethdriver, get_device_mac, known_mac}
use rustwall.Client.{client_mac, ethdriver_has_data_callback, client_tx, client_rx, send_packets}
use rustwall.Client.Rounds.{Settles, client_rx-Ends}
use rustwall.Client.Validity.{IsRoomy, IsValid, KeepsRoom, OnlyExit}
use rustwall.Client.Validity.Sending.{send_packets-IsValid}
use rustwall.Client.Runs.{
  called_back, sent, mac_asked, client_wrote, Run, done, step, Run-Reachable,
}
use rustwall.Tests.Net.{stand_in, stand_in-LengthLaws}
use rustwall.Tests.Frames.{arp_frame}

-- BUFFER_SIZE bytes with an ARP request at the front.
abbrev pub page : Bytes
page = arp_frame ++ replicate 4074 0

length-page : length page ≡ buffer_size
length-page = omega (arith, length-replicate {A = ℕ} 4074 0)

-- As many ARP requests as the world says, then none.
abbrev pub give : ℤ → Pointer → ℕ → Option (ℤ × ℤ × Pointer × ℕ)
give len buf zero = some (minus_one, len, buf, 0)
give len buf (suc n) = some (pos 1, pos 22, some page, n)

abbrev pub supply : Externs ℕ
supply = record {
  ethdriver_tx = λ len mem n. some (pos 0, mem, n);
  ethdriver_rx = give;
  ethdriver_mac = λ n. 2 ∷ 0 ∷ 0 ∷ 0 ∷ 0 ∷ 1 ∷ [];
  client_emit = λ badge n. n;
  packet_in = packet_in;
  packet_out = packet_out;
}

supply-KeepsRoom : KeepsRoom supply
supply-KeepsRoom = record {
  tx_room = λ len mem n r mem' n' e h. ground arith;
  rx_room = λ len buf n r len' buf' n'. roomy len buf n;
}
  where
    given :
        {r len r' len' : ℤ} {buf : Pointer} {n n' : ℕ}
        → ◌≡◌ {A = Option (ℤ × ℤ × Pointer × ℕ)}
            (some (r, len, some page, n))
            (some (r', len', buf, n'))
        → some page ≡ buf
    given e = ground arith

    roomy :
        (len : ℤ) (buf : Pointer) (n : ℕ) {r len' : ℤ} {buf' : Pointer} {n' : ℕ}
        → give len buf n ≡ some (r, len', buf', n')
        → IsRoomy buf
        → IsRoomy buf'
    roomy len buf zero e h = subst IsRoomy (ground arith) h
    roomy len buf (suc n) e h = subst IsRoomy (given e) (omega (arith, length-page))

supply-Settles : Settles supply (λ n. n)
unfolding packet_in
supply-Settles = record {
  answered = λ buf n len buf' n'. lower buf n;
  asked = λ a b c d n mem m w. ground arith;
}
  where
    lower :
        (buf : Pointer) (n : ℕ) {len : ℤ} {buf' : Pointer} {n' : ℕ}
        → give (pos 0) buf n ≡ some (pos 1, len, buf', n')
        → n' < n
    lower buf zero e = ground arith
    lower buf (suc n) e = ground arith

-- Two requests to come.
abbrev pub start : State Bytes ℕ
start = initial stand_in (some page) (some page) 2

start-Unlocked : Unlocked start
unfolding initial
start-Unlocked = record { ethdriver = refl; client = refl }

client_rx-Ends_example : Ends (Allowed ⊥) Unlocked (client_rx stand_in supply 4 (pos 0) start)
unfolding initial
client_rx-Ends_example =
    client_rx-Ends stand_in supply (λ n. n) supply-Settles 4 (pos 0) start start-Unlocked
      (omega arith)

send_packets-IsValid_example :
    Safe OnlyExit IsValid
      (send_packets {Frags = Bytes} stand_in supply ((1 ∷ 2 ∷ []) ∷ (3 ∷ []) ∷ []))
send_packets-IsValid_example =
    send_packets-IsValid stand_in supply supply-KeepsRoom ((1 ∷ 2 ∷ []) ∷ (3 ∷ []) ∷ [])
      (omega arith, (omega arith, tt)) (omega arith)

pub page-IsRoomy : IsRoomy (some page)
page-IsRoomy = omega (arith, length-page)

-- The client sends the ARP request in its buffer, asks for its address and writes the buffer anew.
abbrev pub after_sending : State Bytes ℕ
after_sending = record start { ret_client_tx = pos 0 }

abbrev pub asked : State Bytes ℕ
asked = record after_sending { client_mac_address = some (2 ∷ 0 ∷ 0 ∷ 0 ∷ 0 ∷ 1 ∷ []) }

abbrev pub written : State Bytes ℕ
written = record asked { client_buf = some (replicate buffer_size 7) }

request_sent : client_tx stand_in supply (pos 22) start ≡ ret (pos 0) after_sending
unfolding initial client_tx fetch_client_data process_ethernet check_ethertype is_for_other
    push_packet send_packets dispatch_data_to_ethdriver
request_sent = refl

pub some_calls : Run stand_in supply start written
unfolding initial ethdriver_has_data_callback client_mac get_device_mac known_mac
some_calls =
    step
      (step (step (step done (called_back 1 refl)) (sent (pos 22) request_sent))
        (mac_asked {t = asked} refl))
      (client_wrote (replicate buffer_size 7)
        (omega (arith, length-replicate {A = ℕ} buffer_size 7)))

Run-Reachable_example :
    IsValid written
    × ((n : ℤ) → Ends (Allowed ⊥) IsValid (client_tx stand_in supply n written))
    × ((fuel : ℕ) (len : ℤ) → Ends NoDeadlock IsValid (client_rx stand_in supply fuel len written))
Run-Reachable_example =
    Run-Reachable stand_in supply stand_in-LengthLaws supply-KeepsRoom (some page) (some page) 2
      written page-IsRoomy page-IsRoomy some_calls
