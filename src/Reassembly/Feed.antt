-- ===== src/Reassembly/Feed.antt =====
-- `process_ipv4_fragment` on one fragment after the other.
use rustwall.Base.{ℕ, suc, ◌≡◌, refl, Bytes, Option, none, some, List, [], ◌∷◌}
use rustwall.Exec.{Exec, ret, pure, ◌>>=◌}
use rustwall.Smoltcp.{Smoltcp}
use rustwall.Reassembly.{process_ipv4_fragment}

module _ {Frag Frags : Type 0} (net : Smoltcp Frag Frags) where
  -- One fragment after the other, each a millisecond later.
  unfoldable pub feed : ℕ → List Bytes → Exec Frags (List (Option Bytes))
  feed ts [] = pure []
  feed ts (packet ∷ packets) = do
    answer ← process_ipv4_fragment net packet ts
    answers ← feed (suc ts) packets
    pure (answer ∷ answers)

  pub feed_last :
      (packet : Bytes) (ts : ℕ) (set set' : Frags) (whole : Bytes)
      → process_ipv4_fragment net packet ts set ≡ ret (some whole) set'
      → feed ts (packet ∷ []) set ≡ ret (some whole ∷ []) set'
  unfolding feed
  feed_last packet ts set set' whole e = rw e refl

  pub feed_more :
      (packet : Bytes) (packets : List Bytes) (ts : ℕ) (set set1 set' : Frags)
      (answers : List (Option Bytes))
      → process_ipv4_fragment net packet ts set ≡ ret none set1
      → feed (suc ts) packets set1 ≡ ret answers set'
      → feed ts (packet ∷ packets) set ≡ ret (none ∷ answers) set'
  unfolding feed
  feed_more packet packets ts set set1 set' answers e e' = rw (e, e') refl

-- No answer but to the last fragment.
abbrev pub answers_of : Bytes → List Bytes → List (Option Bytes)
answers_of whole [] = []
answers_of whole (p ∷ []) = some whole ∷ []
answers_of whole (p ∷ q ∷ ps) = none ∷ answers_of whole (q ∷ ps)
