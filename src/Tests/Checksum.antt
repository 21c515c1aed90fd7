-- ===== src/Tests/Checksum.antt =====
-- The checksum of a frame behind the packet of a ping.
use rustwall.Base.{◌≡◌, refl, Bytes, [], ◌∷◌, ◌++◌, drop}
use rustwall.Exec.{ok}
use rustwall.Ipv4.{shave_crc_from_ipv4}
use rustwall.Ipv4.Checksum.{shave_crc_from_ipv4-Exact}
use rustwall.Harness.Data.{packet_bytes_ping}
use rustwall.Tests.Net.{stand_in}

abbrev ping : Bytes
ping = drop 14 packet_bytes_ping

abbrev crc : Bytes
crc = 0xde ∷ 0xad ∷ 0xbe ∷ 0xef ∷ []

shave_crc_from_ipv4-Exact_example :
    (shave_crc_from_ipv4 stand_in (ping ++ crc) ≡ ok ping)
    × (shave_crc_from_ipv4 stand_in ping ≡ ok ping)
shave_crc_from_ipv4-Exact_example =
    shave_crc_from_ipv4-Exact stand_in ping crc refl (record { alone = refl; followed = refl }) refl
