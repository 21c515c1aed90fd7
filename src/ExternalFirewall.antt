-- ===== src/ExternalFirewall.antt =====
-- src/external_firewall.c: the two packet filters that the firewall is linked with. They read
-- neither the payload nor any state.
use rustwall.Base.{pos, ◌==◌, if◌then◌else◌}
use rustwall.Externs.{Filter}

module _ {W : Type 0} where
  unfoldable pub packet_in : Filter W
  packet_in src_addr src_port dst_addr dst_port payload_len payload max_payload_len w =
      (if dst_port == 6968 then pos 0 else pos payload_len, payload, w)

  unfoldable pub packet_out : Filter W
  packet_out src_addr src_port dst_addr dst_port payload_len payload max_payload_len w =
      (if dst_port == 6966 then pos 0 else pos payload_len, payload, w)
