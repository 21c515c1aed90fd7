-- ===== src/Ethernet.antt =====
-- `process_ethernet` of src/utils.rs: the filter on frames, and the queue of those that pass.
pub mod Growth
pub mod Queue
pub mod Verdict
pub mod Short
pub mod Passing
pub mod Datagram
use rustwall.Base.{
  Bytes, Bool, true, false, not, ◌&&◌, List, [], ◌∷◌, ◌++◌, ltb, ◌==◌, if◌then◌else◌, length,
}
use rustwall.Exec.{Exec, pure, lift, gets, modify, ◌>>=◌, ◌>>◌}
use rustwall.Constants.{max_enqueued_packets}
use rustwall.Smoltcp.{Smoltcp, EthernetProtocol, ipv4, ipv6, arp, other_ethertype, new_checked}
use rustwall.Externs.{Externs, Filter}
use rustwall.State.{State, Side, packets, set_packets}
use rustwall.Buffer.{get_device_mac}
use rustwall.Ipv4.{process_ipv4}

-- `==` on addresses.
abbrev pub bytes_eq : Bytes → Bytes → Bool
bytes_eq [] [] = true
bytes_eq (x ∷ xs) (y ∷ ys) = x == y && bytes_eq xs ys
bytes_eq _ _ = false

module _ {Frags W : Type 0} where
  unfoldable pub push_packet : Side → Bytes → Exec (State Frags W) (Unit {0})
  push_packet side frame = do
    queue ← gets (packets side)
    if ltb (length queue) max_enqueued_packets
        then modify (λ s. set_packets side (packets side s ++ frame ∷ []) s)
        else pure tt

  -- `while !packets.is_empty() && buffer.len() < MAX_ENQUEUED_PACKETS`
  unfoldable pub push_packets : Side → List Bytes → Exec (State Frags W) (Unit {0})
  push_packets side [] = pure tt
  push_packets side (frame ∷ frames) = do
    queue ← gets (packets side)
    if ltb (length queue) max_enqueued_packets
        then (do
          modify (λ s. set_packets side (packets side s ++ frame ∷ []) s)
          push_packets side frames)
        else pure tt

module _ {Frag Frags W : Type 0} (net : Smoltcp Frag Frags) (ext : Externs W) where
  -- Whether the frame is for another device. Without `check_mac` nobody asks.
  unfoldable pub is_for_other : Bool → Bytes → Exec (State Frags W) Bool
  is_for_other false eth_frame = pure false
  is_for_other true eth_frame = do
    local_ethernet_addr ← get_device_mac ext
    let dst = net.eth_dst_addr eth_frame
    pure (
        not (net.is_broadcast dst)
        && not (net.is_multicast dst)
        && not (bytes_eq dst local_ethernet_addr))

  -- The `match eth_frame.ethertype()`.
  unfoldable pub check_ethertype :
      Side → Side → Filter W → Bytes → EthernetProtocol → Exec (State Frags W) (Unit {0})
  check_ethertype packet_buffer fragment_buffer filter eth_frame ipv4 = do
    frames ← process_ipv4 net fragment_buffer filter eth_frame
    push_packets packet_buffer frames
  check_ethertype packet_buffer fragment_buffer filter eth_frame ipv6 = pure tt
  check_ethertype packet_buffer fragment_buffer filter eth_frame arp =
      push_packet packet_buffer eth_frame
  check_ethertype packet_buffer fragment_buffer filter eth_frame (other_ethertype n) = pure tt

  unfoldable pub process_ethernet :
      Bytes → Side → Side → Filter W → Bool → Exec (State Frags W) (Unit {0})
  process_ethernet frame packet_buffer fragment_buffer filter check_mac = do
    eth_frame ← lift (new_checked net.eth_check_len frame)
    other ← is_for_other check_mac eth_frame
    if other
        then pure tt
        else check_ethertype packet_buffer fragment_buffer filter eth_frame
            (net.eth_ethertype eth_frame)
