-- ===== src/Harness/Data.antt =====
-- The arrays of src/test_data.h but for the fragments.
use rustwall.Base.{Bytes, [], ◌∷◌}

abbrev pub packet_bytes_ping : Bytes
packet_bytes_ping =
    0x02 ∷ 0x00 ∷ 0x00 ∷ 0x00 ∷ 0x00 ∷ 0x01 ∷ 0x5e ∷ 0x13 ∷ 0x5d ∷ 0xa6 ∷ 0xc5 ∷ 0xf2 ∷ 0x08 ∷ 0x00
    ∷ 0x45 ∷ 0x00 ∷ 0x00 ∷ 0x54 ∷ 0xc1 ∷ 0x73 ∷ 0x40 ∷ 0x00 ∷ 0x40 ∷ 0x01 ∷ 0x6d ∷ 0xe1 ∷ 0xc0
    ∷ 0xa8 ∷ 0x45 ∷ 0x02 ∷ 0xc0 ∷ 0xa8 ∷ 0x45 ∷ 0x01 ∷ 0x08 ∷ 0x00 ∷ 0x53 ∷ 0x2b ∷ 0x6a ∷ 0xab
    ∷ 0x00 ∷ 0x01 ∷ 0x1c ∷ 0x3a ∷ 0x20 ∷ 0x5b ∷ 0x00 ∷ 0x00 ∷ 0x00 ∷ 0x00 ∷ 0x32 ∷ 0xc0 ∷ 0x0c
    ∷ 0x00 ∷ 0x00 ∷ 0x00 ∷ 0x00 ∷ 0x00 ∷ 0x10 ∷ 0x11 ∷ 0x12 ∷ 0x13 ∷ 0x14 ∷ 0x15 ∷ 0x16 ∷ 0x17
    ∷ 0x18 ∷ 0x19 ∷ 0x1a ∷ 0x1b ∷ 0x1c ∷ 0x1d ∷ 0x1e ∷ 0x1f ∷ 0x20 ∷ 0x21 ∷ 0x22 ∷ 0x23 ∷ 0x24
    ∷ 0x25 ∷ 0x26 ∷ 0x27 ∷ 0x28 ∷ 0x29 ∷ 0x2a ∷ 0x2b ∷ 0x2c ∷ 0x2d ∷ 0x2e ∷ 0x2f ∷ 0x30 ∷ 0x31
    ∷ 0x32 ∷ 0x33 ∷ 0x34 ∷ 0x35 ∷ 0x36 ∷ 0x37 ∷ []

abbrev pub packet_bytes_arp : Bytes
packet_bytes_arp =
    0xff ∷ 0xff ∷ 0xff ∷ 0xff ∷ 0xff ∷ 0xff ∷ 0x5e ∷ 0x13 ∷ 0x5d ∷ 0xa6 ∷ 0xc5 ∷ 0xf2 ∷ 0x08 ∷ 0x06
    ∷ 0x00 ∷ 0x01 ∷ 0x08 ∷ 0x00 ∷ 0x06 ∷ 0x04 ∷ 0x00 ∷ 0x01 ∷ 0x5e ∷ 0x13 ∷ 0x5d ∷ 0xa6 ∷ 0xc5
    ∷ 0xf2 ∷ 0xc0 ∷ 0xa8 ∷ 0x45 ∷ 0x02 ∷ 0x00 ∷ 0x00 ∷ 0x00 ∷ 0x00 ∷ 0x00 ∷ 0x00 ∷ 0xc0 ∷ 0xa8
    ∷ 0x45 ∷ 0x03 ∷ []

abbrev pub packet_bytes_multicast_report : Bytes
packet_bytes_multicast_report =
    0x33 ∷ 0x33 ∷ 0x00 ∷ 0x00 ∷ 0x00 ∷ 0x16 ∷ 0x5e ∷ 0x13 ∷ 0x5d ∷ 0xa6 ∷ 0xc5 ∷ 0xf2 ∷ 0x86 ∷ 0xdd
    ∷ 0x60 ∷ 0x00 ∷ 0x00 ∷ 0x00 ∷ 0x00 ∷ 0x38 ∷ 0x00 ∷ 0x01 ∷ 0xfe ∷ 0x80 ∷ 0x00 ∷ 0x00 ∷ 0x00
    ∷ 0x00 ∷ 0x00 ∷ 0x00 ∷ 0x5c ∷ 0x13 ∷ 0x5d ∷ 0xff ∷ 0xfe ∷ 0xa6 ∷ 0xc5 ∷ 0xf2 ∷ 0xff ∷ 0x02
    ∷ 0x00 ∷ 0x00 ∷ 0x00 ∷ 0x00 ∷ 0x00 ∷ 0x00 ∷ 0x00 ∷ 0x00 ∷ 0x00 ∷ 0x00 ∷ 0x00 ∷ 0x00 ∷ 0x00
    ∷ 0x16 ∷ 0x3a ∷ 0x00 ∷ 0x05 ∷ 0x02 ∷ 0x00 ∷ 0x00 ∷ 0x01 ∷ 0x00 ∷ 0x8f ∷ 0x00 ∷ 0x27 ∷ 0xb1
    ∷ 0x00 ∷ 0x00 ∷ 0x00 ∷ 0x02 ∷ 0x04 ∷ 0x00 ∷ 0x00 ∷ 0x00 ∷ 0xff ∷ 0x02 ∷ 0x00 ∷ 0x00 ∷ 0x00
    ∷ 0x00 ∷ 0x00 ∷ 0x00 ∷ 0x00 ∷ 0x00 ∷ 0x00 ∷ 0x00 ∷ 0x00 ∷ 0x00 ∷ 0x00 ∷ 0xfb ∷ 0x04 ∷ 0x00
    ∷ 0x00 ∷ 0x00 ∷ 0xff ∷ 0x02 ∷ 0x00 ∷ 0x00 ∷ 0x00 ∷ 0x00 ∷ 0x00 ∷ 0x00 ∷ 0x00 ∷ 0x00 ∷ 0x00
    ∷ 0x01 ∷ 0xff ∷ 0xa6 ∷ 0xc5 ∷ 0xf2 ∷ []

abbrev pub packet_bytes_udp_1 : Bytes
packet_bytes_udp_1 =
    0x02 ∷ 0x00 ∷ 0x00 ∷ 0x00 ∷ 0x00 ∷ 0x01 ∷ 0x5e ∷ 0x13 ∷ 0x5d ∷ 0xa6 ∷ 0xc5 ∷ 0xf2 ∷ 0x08 ∷ 0x00
    ∷ 0x45 ∷ 0x00 ∷ 0x00 ∷ 0x24 ∷ 0x6a ∷ 0x4b ∷ 0x40 ∷ 0x00 ∷ 0x40 ∷ 0x11 ∷ 0xc5 ∷ 0x29 ∷ 0xc0
    ∷ 0xa8 ∷ 0x45 ∷ 0x02 ∷ 0xc0 ∷ 0xa8 ∷ 0x45 ∷ 0x01 ∷ 0xa0 ∷ 0x4a ∷ 0x1b ∷ 0x39 ∷ 0x00 ∷ 0x10
    ∷ 0xa7 ∷ 0xbe ∷ 0x61 ∷ 0x62 ∷ 0x63 ∷ 0x64 ∷ 0x65 ∷ 0x66 ∷ 0x67 ∷ 0x0a ∷ []
