-- ===== src/Tests/Loops.antt =====
-- Theorems on the loops of the C drivers at short buffers.
use rustwall.Base.{◌≡◌, [], ◌∷◌}
use rustwall.Exec.{crash, fault}
use rustwall.Loop.{copy_packet}
use rustwall.Loop.Copy.{copy_packet_overreads}

copy_packet_overreads_example : copy_packet (1 ∷ 2 ∷ []) 2 (0 ∷ 0 ∷ 0 ∷ 0 ∷ []) tt ≡ crash fault
copy_packet_overreads_example = copy_packet_overreads (1 ∷ 2 ∷ []) (0 ∷ 0 ∷ 0 ∷ 0 ∷ []) tt
