-- ===== src/Memory.antt =====
-- C memory as the C files use it: `memcpy` and array reads. To pass the end of an allocation, or to
-- follow NULL, is a fault.
use rustwall.Base.{
  ℕ, zero, suc, ◌≤◌, ◌≡◌, Bytes, [], ◌∷◌, ◌++◌, none, some, ◌&&◌, leb, if◌then◌else◌, length, take,
  drop, arith,
}
use rustwall.Exec.{Exec, ret, pure, abort, fault, ◌>>=◌}
use rustwall.State.{Pointer}

module _ {S : Type 0} where
  -- `memcpy(to, from, n)`: what `to` points to afterwards.
  unfoldable pub memcpy : Pointer → Pointer → ℕ → Exec S Bytes
  memcpy none from n = abort fault
  memcpy (some to) none n = abort fault
  memcpy (some to) (some from) n =
      if leb n (length from) && leb n (length to)
      then pure (take n from ++ drop n to)
      else abort fault

  pub memcpy_lem :
      (to from : Bytes) (n : ℕ) (s : S)
      → n ≤ length from
      → n ≤ length to
      → memcpy (some to) (some from) n s ≡ ret (take n from ++ drop n to) s
  unfolding memcpy
  memcpy_lem to from n s h k = ground arith

  -- `mem[i]`
  unfoldable pub read_at : Bytes → ℕ → Exec S ℕ
  read_at [] i = abort fault
  read_at (x ∷ xs) zero = pure x
  read_at (x ∷ xs) (suc i) = read_at xs i

  -- `mem[i] = v`
  unfoldable pub write_at : Bytes → ℕ → ℕ → Exec S Bytes
  write_at [] i v = abort fault
  write_at (x ∷ xs) zero v = pure (v ∷ xs)
  write_at (x ∷ xs) (suc i) v = do rest ← write_at xs i v; pure (x ∷ rest)
