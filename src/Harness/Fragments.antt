-- ===== src/Harness/Fragments.antt =====
-- The fragments of src/test_data.h: each is its headers and then the byte 0x0c only.
use rustwall.Base.{Bytes, [], ◌∷◌, ◌++◌, replicate}

abbrev pub packet_bytes_udp_frag1 : Bytes
packet_bytes_udp_frag1 =
    (0x02 ∷ 0x00 ∷ 0x00 ∷ 0x00 ∷ 0x00 ∷ 0x01 ∷ 0x5e ∷ 0x13 ∷ 0x5d ∷ 0xa6 ∷ 0xc5 ∷ 0xf2 ∷ 0x08 ∷ 0x00
      ∷ 0x45 ∷ 0x00 ∷ 0x05 ∷ 0xdc ∷ 0x30 ∷ 0xee ∷ 0x20 ∷ 0x00 ∷ 0x40 ∷ 0x11 ∷ 0x18 ∷ 0xcf ∷ 0xc0
      ∷ 0xa8 ∷ 0x45 ∷ 0x02 ∷ 0xc0 ∷ 0xa8 ∷ 0x45 ∷ 0x01 ∷ 0x15 ∷ 0xb3 ∷ 0x1b ∷ 0x39 ∷ 0x10 ∷ 0x08
      ∷ 0x43 ∷ 0x3d ∷ [])
    ++ replicate 1472 0x0c

abbrev pub packet_bytes_udp_frag2 : Bytes
packet_bytes_udp_frag2 =
    (0x02 ∷ 0x00 ∷ 0x00 ∷ 0x00 ∷ 0x00 ∷ 0x01 ∷ 0x5e ∷ 0x13 ∷ 0x5d ∷ 0xa6 ∷ 0xc5 ∷ 0xf2 ∷ 0x08 ∷ 0x00
      ∷ 0x45 ∷ 0x00 ∷ 0x05 ∷ 0xdc ∷ 0x30 ∷ 0xee ∷ 0x20 ∷ 0xb9 ∷ 0x40 ∷ 0x11 ∷ 0x18 ∷ 0x16 ∷ 0xc0
      ∷ 0xa8 ∷ 0x45 ∷ 0x02 ∷ 0xc0 ∷ 0xa8 ∷ 0x45 ∷ 0x01 ∷ [])
    ++ replicate 1480 0x0c

abbrev pub packet_bytes_udp_frag3 : Bytes
packet_bytes_udp_frag3 =
    (0x02 ∷ 0x00 ∷ 0x00 ∷ 0x00 ∷ 0x00 ∷ 0x01 ∷ 0x5e ∷ 0x13 ∷ 0x5d ∷ 0xa6 ∷ 0xc5 ∷ 0xf2 ∷ 0x08 ∷ 0x00
      ∷ 0x45 ∷ 0x00 ∷ 0x04 ∷ 0x8c ∷ 0x30 ∷ 0xee ∷ 0x01 ∷ 0x72 ∷ 0x40 ∷ 0x11 ∷ 0x38 ∷ 0xad ∷ 0xc0
      ∷ 0xa8 ∷ 0x45 ∷ 0x02 ∷ 0xc0 ∷ 0xa8 ∷ 0x45 ∷ 0x01 ∷ [])
    ++ replicate 1144 0x0c

abbrev pub packet_bytes_udp_frag_5k_1 : Bytes
packet_bytes_udp_frag_5k_1 =
    (0x02 ∷ 0x00 ∷ 0x00 ∷ 0x00 ∷ 0x00 ∷ 0x01 ∷ 0x5e ∷ 0x13 ∷ 0x5d ∷ 0xa6 ∷ 0xc5 ∷ 0xf2 ∷ 0x08 ∷ 0x00
      ∷ 0x45 ∷ 0x00 ∷ 0x05 ∷ 0xdc ∷ 0x52 ∷ 0x4b ∷ 0x20 ∷ 0x00 ∷ 0x40 ∷ 0x11 ∷ 0xf7 ∷ 0x71 ∷ 0xc0
      ∷ 0xa8 ∷ 0x45 ∷ 0x02 ∷ 0xc0 ∷ 0xa8 ∷ 0x45 ∷ 0x01 ∷ 0x15 ∷ 0xb3 ∷ 0x1b ∷ 0x39 ∷ 0x13 ∷ 0x90
      ∷ 0xf6 ∷ 0xe7 ∷ [])
    ++ replicate 1472 0x0c

abbrev pub packet_bytes_udp_frag_5k_2 : Bytes
packet_bytes_udp_frag_5k_2 =
    (0x02 ∷ 0x00 ∷ 0x00 ∷ 0x00 ∷ 0x00 ∷ 0x01 ∷ 0x5e ∷ 0x13 ∷ 0x5d ∷ 0xa6 ∷ 0xc5 ∷ 0xf2 ∷ 0x08 ∷ 0x00
      ∷ 0x45 ∷ 0x00 ∷ 0x05 ∷ 0xdc ∷ 0x52 ∷ 0x4b ∷ 0x20 ∷ 0xb9 ∷ 0x40 ∷ 0x11 ∷ 0xf6 ∷ 0xb8 ∷ 0xc0
      ∷ 0xa8 ∷ 0x45 ∷ 0x02 ∷ 0xc0 ∷ 0xa8 ∷ 0x45 ∷ 0x01 ∷ [])
    ++ replicate 1480 0x0c

abbrev pub packet_bytes_udp_frag_5k_3 : Bytes
packet_bytes_udp_frag_5k_3 =
    (0x02 ∷ 0x00 ∷ 0x00 ∷ 0x00 ∷ 0x00 ∷ 0x01 ∷ 0x5e ∷ 0x13 ∷ 0x5d ∷ 0xa6 ∷ 0xc5 ∷ 0xf2 ∷ 0x08 ∷ 0x00
      ∷ 0x45 ∷ 0x00 ∷ 0x05 ∷ 0xdc ∷ 0x52 ∷ 0x4b ∷ 0x21 ∷ 0x72 ∷ 0x40 ∷ 0x11 ∷ 0xf5 ∷ 0xff ∷ 0xc0
      ∷ 0xa8 ∷ 0x45 ∷ 0x02 ∷ 0xc0 ∷ 0xa8 ∷ 0x45 ∷ 0x01 ∷ [])
    ++ replicate 1480 0x0c

abbrev pub packet_bytes_udp_frag_5k_4 : Bytes
packet_bytes_udp_frag_5k_4 =
    (0x02 ∷ 0x00 ∷ 0x00 ∷ 0x00 ∷ 0x00 ∷ 0x01 ∷ 0x5e ∷ 0x13 ∷ 0x5d ∷ 0xa6 ∷ 0xc5 ∷ 0xf2 ∷ 0x08 ∷ 0x00
      ∷ 0x45 ∷ 0x00 ∷ 0x02 ∷ 0x4c ∷ 0x52 ∷ 0x4b ∷ 0x02 ∷ 0x2b ∷ 0x40 ∷ 0x11 ∷ 0x18 ∷ 0xd7 ∷ 0xc0
      ∷ 0xa8 ∷ 0x45 ∷ 0x02 ∷ 0xc0 ∷ 0xa8 ∷ 0x45 ∷ 0x01 ∷ [])
    ++ replicate 568 0x0c
