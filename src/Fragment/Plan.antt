-- ===== src/Fragment/Plan.antt =====
-- What the fragments of a UDP packet should be, said without the code's indices.
use rustwall.Base.{ℕ, ◌+◌, ◌≤◌, ◌≡◌, Bytes, Bool, true, false, List, [], ◌∷◌, ◌++◌, length}
use rustwall.Constants.{mtu_udp}

pub record Piece : Type 0 where
  pub offset : ℕ
  pub more : Bool
  pub payload : Bytes

-- The pieces, from `offset` on, lie end to end over `bytes`: all but the last are full and announce
-- more, the last fits the MTU and does not.
abbrev pub Tiles : ℕ → Bytes → List Piece → Type 0
Tiles offset bytes [] = ⊥
Tiles offset bytes (p ∷ []) =
    (p.offset ≡ offset) × (p.more ≡ false) × (p.payload ≡ bytes) × (length bytes ≤ mtu_udp)
Tiles offset bytes (p ∷ q ∷ ps) =
    (p.offset ≡ offset)
    × (p.more ≡ true)
    × (length p.payload ≡ mtu_udp)
    × ((rest : Bytes) × (bytes ≡ p.payload ++ rest) × Tiles (offset + mtu_udp) rest (q ∷ ps))

-- The bytes of the pieces, in order.
abbrev pub contents : List Piece → Bytes
contents [] = []
contents (p ∷ ps) = p.payload ++ contents ps
