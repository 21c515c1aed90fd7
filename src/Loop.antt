-- ===== src/Loop.antt =====
-- The loops of the C drivers: the copy of a packet, one byte further than its length, and the
-- comparison of two buffers.
pub mod Copy
pub mod Compare
use rustwall.Base.{ℕ, zero, suc, ◌+◌, ℤ, pos, negsuc, Bytes, Bool, true, false, ◌==◌, if◌then◌else◌}
use rustwall.Exec.{Exec, pure, ◌>>=◌}
use rustwall.Memory.{read_at, write_at}

module _ {S : Type 0} where
  -- `for (; i <= last; i++) { buf[i] = from[i]; len = i; }` with so many rounds left: the buffer
  -- and `len`.
  unfoldable pub copy_loop : ℕ → ℕ → Bytes → Bytes → ℕ → Exec S (Bytes × ℕ)
  copy_loop zero i from buf len = pure (buf, len)
  copy_loop (suc rounds) i from buf len = do
    b ← read_at from i
    buf' ← write_at buf i b
    copy_loop rounds (i + 1) from buf' i

  -- `for (int i = 0; i <= last; i++)`
  unfoldable pub copy_packet : Bytes → ℕ → Bytes → Exec S (Bytes × ℕ)
  unfolding copy_loop
  copy_packet from last buf = copy_loop (suc last) 0 from buf 0

  unfoldable pub compare_loop : ℕ → ℕ → Bytes → Bytes → Exec S Bool
  compare_loop zero i origin destination = pure true
  compare_loop (suc rounds) i origin destination = do
    a ← read_at origin i
    b ← read_at destination i
    let rest = compare_loop rounds (i + 1) origin destination
    if a == b then rest else pure false

  -- `compare_buffers`
  unfoldable pub compare_buffers : Bytes → Bytes → ℤ → Exec S Bool
  unfolding compare_loop
  compare_buffers origin destination (negsuc n) = pure false
  compare_buffers origin destination (pos zero) = pure false
  compare_buffers origin destination (pos (suc n)) = compare_loop (suc n) 0 origin destination
