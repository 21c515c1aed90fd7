-- ===== src/Fragment/Keeps.antt =====
-- Whatever a frame keeps, fragmentation keeps: it computes, or panics, and its loop ends.
use rustwall.Base.{ℕ, zero, suc, ◌-◌, ◌<◌, ◌≡◌, Bytes, Bool, true, ltb, arith}
use rustwall.Exec.Keeps.{Frame, Keeps, keeps_rules, Keeps-bind, Keeps-test, Keeps-pure}
use rustwall.Constants.{mtu_udp}
use rustwall.Smoltcp.{Smoltcp, Ipv4Address}
use rustwall.Slice.{slice, slice_from, add_u16}
use rustwall.Fragment.{
  Cursor, copy_to_payload, fragment_packet, middle_packets, last_packet, small_packet, large_packet,
}

module _ {S : Type 0} {F : Frame S} where
  pub slice-Keeps : (xs : Bytes) (from to : ℕ) → Keeps F (slice xs from to)
  unfolding slice
  slice-Keeps xs from to = search keeps_rules

  pub slice_from-Keeps : (xs : Bytes) (from : ℕ) → Keeps F (slice_from xs from)
  unfolding slice_from
  slice_from-Keeps xs from = search keeps_rules

  pub add_u16-Keeps : (a b : ℕ) → Keeps F (add_u16 a b)
  unfolding add_u16
  add_u16-Keeps a b = search keeps_rules

pub ruleset slice_rules = (keeps_rules, slice-Keeps, slice_from-Keeps, add_u16-Keeps)

shorter : (r fuel : ℕ) → r < suc fuel → ltb mtu_udp r ≡ true → r - mtu_udp < fuel
shorter r fuel h more = ground arith

module _ {Frag Frags : Type 0} (net : Smoltcp Frag Frags) {S : Type 0} {F : Frame S} where
  pub copy_to_payload-Keeps : (packet bytes : Bytes) → Keeps F (copy_to_payload net packet bytes)
  unfolding copy_to_payload
  copy_to_payload-Keeps packet bytes = search keeps_rules

  module _ (src dst : Ipv4Address) (id : ℕ) where
    pub fragment_packet-Keeps :
        (len offset : ℕ) (more : Bool) (bytes : Bytes)
        → Keeps F (fragment_packet net src dst id len offset more bytes)
    unfolding fragment_packet
    fragment_packet-Keeps len offset more bytes = search (keeps_rules, copy_to_payload-Keeps)

    pub last_packet-Keeps :
        (udp_packet : Bytes) (c : Cursor) → Keeps F (last_packet net udp_packet src dst id c)
    unfolding last_packet
    last_packet-Keeps udp_packet c = search (slice_rules, fragment_packet-Keeps) depth 7

    -- A round takes MTU_UDP bytes, so the rounds outlast what remains.
    pub middle_packets-Keeps :
        (udp_packet : Bytes) (fuel : ℕ) (c : Cursor)
        → c.remaining_len < fuel
        → Keeps F (middle_packets net udp_packet src dst id fuel c)
    unfolding middle_packets
    middle_packets-Keeps udp_packet zero c h = absurd (omega arith)
    middle_packets-Keeps udp_packet (suc fuel) c h =
        Keeps-test _ _ _
          (λ more. Keeps-bind _ _ (add_u16-Keeps _ _) λ offset.
            Keeps-bind _ _ (slice-Keeps _ _ _) λ bytes.
              Keeps-bind _ _ (fragment_packet-Keeps _ _ _ _)
                λ packet. middle_packets-Keeps udp_packet fuel _ (shorter _ _ h more))
          (λ done. Keeps-pure c)

    pub small_packet-Keeps : (udp_packet : Bytes) → Keeps F (small_packet net udp_packet src dst id)
    unfolding small_packet
    small_packet-Keeps udp_packet = search (keeps_rules, copy_to_payload-Keeps)

    pub large_packet-Keeps : (udp_packet : Bytes) → Keeps F (large_packet net udp_packet src dst id)
    unfolding large_packet
    large_packet-Keeps udp_packet = Keeps-bind _ _ (slice-Keeps _ _ _) λ bytes.
        Keeps-bind _ _ (fragment_packet-Keeps _ _ _ _) λ packet.
          Keeps-bind _ _ (middle_packets-Keeps udp_packet _ _ (omega arith))
            λ c. last_packet-Keeps udp_packet c
