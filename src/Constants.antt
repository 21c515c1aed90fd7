-- ===== src/Constants.antt =====
-- src/constants.rs: the sizes that the firewall is built with.
use rustwall.Base.{ℕ, ◌-◌}

abbrev pub buffer_size : ℕ
buffer_size = 4096

abbrev pub max_reassembled_fragment_size : ℕ
max_reassembled_fragment_size = 65535

abbrev pub ethernet_frame_payload : ℕ
ethernet_frame_payload = 14

abbrev pub udp_header_size : ℕ
udp_header_size = 8

abbrev pub ipv4_header_size : ℕ
ipv4_header_size = 20

abbrev pub max_udp_packet_size : ℕ
max_udp_packet_size = max_reassembled_fragment_size - ipv4_header_size - ethernet_frame_payload

abbrev pub max_udp_payload_size : ℕ
max_udp_payload_size =
    max_reassembled_fragment_size - udp_header_size - ipv4_header_size - ethernet_frame_payload

abbrev pub supported_fragments : ℕ
supported_fragments = 10

abbrev pub mtu : ℕ
mtu = 1500

abbrev pub mtu_udp : ℕ
mtu_udp = mtu - ipv4_header_size

abbrev pub eth_crc_len : ℕ
eth_crc_len = 4

abbrev pub max_enqueued_packets : ℕ
max_enqueued_packets = 1024
