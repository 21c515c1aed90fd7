-- ===== src/Tests/Fragments.antt =====
-- Theorems on fragmentation at concrete datagrams.
use rustwall.Base.{
  ℕ, ◌≡◌, refl, Bytes, true, false, List, [], ◌∷◌, map, none, some, length, replicate, arith,
  length-replicate,
}
use rustwall.Exec.{ret}
use rustwall.Constants.{mtu_udp}
use rustwall.Smoltcp.{Ipv4Address}
use rustwall.State.{State, initial}
use rustwall.Fragment.{choose_packet_id, fragment_large_udp_packet}
use rustwall.Fragment.Plan.{Piece, Tiles, contents}
use rustwall.Fragment.Loop.{emitted}
use rustwall.Fragment.Tiling.{fragment_large-Tiles, fragment_large_exact_fit}
use rustwall.Fragment.Sizes.{FitsMtu, Ended, fragment_large-FitsMtu}
use rustwall.Reassembly.{process_ipv4_fragment}
use rustwall.Reassembly.Slots.{Fate, process_ipv4_fragment-Fate}
use rustwall.Tests.Net.{stand_in, stand_in-IpLaws, stand_in-LengthLaws}

abbrev pub here : Ipv4Address
here = record { octet_0 = 192; octet_1 = 168; octet_2 = 69; octet_3 = 2 }

abbrev pub there : Ipv4Address
there = record { octet_0 = 192; octet_1 = 168; octet_2 = 69; octet_3 = 1 }

blank : State Bytes (Unit {0})
blank = initial stand_in none none tt

datagram : Bytes
datagram = replicate 3000 7

full_datagram : Bytes
full_datagram = replicate mtu_udp 7

length-datagram : length datagram ≡ 3000
unfolding datagram
length-datagram = length-replicate {A = ℕ} 3000 7

length-full_datagram : length full_datagram ≡ mtu_udp
unfolding full_datagram
length-full_datagram = length-replicate {A = ℕ} mtu_udp 7

known_id : choose_packet_id stand_in 5 blank ≡ ret 5 blank
unfolding choose_packet_id
known_id = refl

fragment_large-Tiles_example :
    (ps : List Piece) × (fragment_large_udp_packet stand_in datagram here there 5 blank
      ≡ ret (map (emitted stand_in here there 5) ps) blank)
    × Tiles 0 datagram ps
    × (contents ps ≡ datagram)
fragment_large-Tiles_example =
    fragment_large-Tiles stand_in stand_in-IpLaws datagram here there 5 5 blank blank
      (omega (arith, length-datagram)) (omega (arith, length-datagram)) known_id

fragment_large_exact_fit_example :
    fragment_large_udp_packet stand_in full_datagram here there 5 blank
    ≡ ret
        (emitted stand_in here there 5 (record { offset = 0; more = true; payload = full_datagram })
          ∷ emitted stand_in here there 5 (record { offset = mtu_udp; more = false; payload = [] })
          ∷ [])
        blank
fragment_large_exact_fit_example =
    fragment_large_exact_fit stand_in stand_in-IpLaws full_datagram here there 5 5 blank blank
      length-full_datagram known_id

-- The datagram of 3000 bytes, cut into pieces.
pieces :
    (ps : List Piece) × (fragment_large_udp_packet stand_in datagram here there 5 blank
      ≡ ret (map (emitted stand_in here there 5) ps) blank)
    × Tiles 0 datagram ps
    × (contents ps ≡ datagram)
pieces =
    fragment_large-Tiles stand_in stand_in-IpLaws datagram here there 5 5 blank blank
      (omega (arith, length-datagram)) (omega (arith, length-datagram)) known_id

fragment_large-FitsMtu_example :
    FitsMtu (map (emitted stand_in here there 5) pieces.0)
    × Ended (map (emitted stand_in here there 5) pieces.0)
fragment_large-FitsMtu_example =
    fragment_large-FitsMtu stand_in stand_in-LengthLaws datagram here there 5 blank blank
      (map (emitted stand_in here there 5) pieces.0) pieces.1

-- The last fragment of a packet, the first of which is missing.
abbrev last_fragment : Bytes
last_fragment =
    0x45 ∷ 0 ∷ 0 ∷ 24 ∷ 0 ∷ 5 ∷ 0 ∷ 185 ∷ 64 ∷ 17 ∷ 0 ∷ 0 ∷ 192 ∷ 168 ∷ 69 ∷ 1 ∷ 192 ∷ 168 ∷ 69 ∷ 2
    ∷ 1 ∷ 2 ∷ 3 ∷ 4 ∷ []

process_ipv4_fragment-Fate_example :
    Fate stand_in last_fragment 0
      (some (record { fragment = []; give_back = λ f. f }))
      []
      (process_ipv4_fragment stand_in last_fragment 0 [])
process_ipv4_fragment-Fate_example = process_ipv4_fragment-Fate stand_in last_fragment 0 []
