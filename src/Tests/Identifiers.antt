-- ===== src/Tests/Identifiers.antt =====
-- The identifiers of two datagrams with calls from C in between, those of Tests/Calls.
use rustwall.Base.{ℕ, ◌^◌, ◌<◌, ◌≡◌, refl, Bytes, map, length, replicate, length-replicate, arith}
use rustwall.Exec.{ret}
use rustwall.State.{State, initial, get_pseudorandom_packet_id}
use rustwall.Fragment.{choose_packet_id}
use rustwall.Fragment.Loop.{emitted}
use rustwall.Fragment.Tiling.{pieces, fragment_large-Pieces}
use rustwall.Client.Identifiers.{Run-Fresh}
use rustwall.Tests.Net.{stand_in, stand_in-IpLaws}
use rustwall.Tests.Fragments.{here, there}
use rustwall.Tests.Calls.{supply, start, written, some_calls}

datagram : Bytes
datagram = replicate 3000 7

length-datagram : length datagram ≡ 3000
unfolding datagram
length-datagram = length-replicate {A = ℕ} 3000 7

abbrev before_first : State Bytes ℕ
before_first = record start { seed = 41 }

abbrev after_second : State Bytes ℕ
after_second = record written { seed = 43 }

chosen_first : choose_packet_id stand_in 0 before_first ≡ ret 42 start
unfolding choose_packet_id get_pseudorandom_packet_id initial
chosen_first = refl

chosen_second : choose_packet_id stand_in 0 written ≡ ret 43 after_second
unfolding choose_packet_id get_pseudorandom_packet_id initial
chosen_second = refl

Run-Fresh_example :
    (i : ℕ) × (j : ℕ) × (map (emitted stand_in here there 42) (pieces datagram)
      ≡ map (emitted stand_in here there i) (pieces datagram))
    × (map (emitted stand_in there here 43) (pieces datagram)
        ≡ map (emitted stand_in there here j) (pieces datagram))
    × (i < j)
    × (j < 2 ^ 16)
Run-Fresh_example =
    Run-Fresh stand_in supply stand_in-IpLaws datagram datagram here there there here before_first
      start written after_second (map (emitted stand_in here there 42) (pieces datagram))
      (map (emitted stand_in there here 43) (pieces datagram)) (omega (arith, length-datagram))
      (omega (arith, length-datagram)) (omega (arith, length-datagram))
      (omega (arith, length-datagram))
      (fragment_large-Pieces stand_in stand_in-IpLaws datagram here there 0 42 before_first start
        (omega (arith, length-datagram)) (omega (arith, length-datagram)) chosen_first)
      some_calls
      (fragment_large-Pieces stand_in stand_in-IpLaws datagram there here 0 43 written after_second
        (omega (arith, length-datagram)) (omega (arith, length-datagram)) chosen_second)
