-- ===== src/Slice.antt =====
-- Rust's slices and checked arithmetic: what they yield, and that they panic otherwise.
use rustwall.Base.{
  ℕ, ◌+◌, ◌-◌, ◌^◌, ◌≤◌, ◌<◌, ◌≡◌, Bytes, ◌&&◌, ltb, leb, if◌then◌else◌, take, drop, length, arith,
}
use rustwall.Exec.{Exec, ret, pure, abort, panic}

module _ {S : Type 0} where
  -- `xs[from..to]`
  unfoldable pub slice : Bytes → ℕ → ℕ → Exec S Bytes
  slice xs from to =
      if leb from to && leb to (length xs)
      then pure (take (to - from) (drop from xs))
      else abort panic

  -- `xs[from..]`
  unfoldable pub slice_from : Bytes → ℕ → Exec S Bytes
  slice_from xs from = if leb from (length xs) then pure (drop from xs) else abort panic

  -- `a += b` on a `u16`
  unfoldable pub add_u16 : ℕ → ℕ → Exec S ℕ
  add_u16 a b = if ltb (a + b) (2 ^ 16) then pure (a + b) else abort panic

  pub slice_lem :
      (xs : Bytes) (from to : ℕ) (s : S)
      → from ≤ to
      → to ≤ length xs
      → slice xs from to s ≡ ret (take (to - from) (drop from xs)) s
  unfolding slice
  slice_lem xs from to s h k = ground arith

  pub slice_from_lem :
      (xs : Bytes) (from : ℕ) (s : S)
      → from ≤ length xs
      → slice_from xs from s ≡ ret (drop from xs) s
  unfolding slice_from
  slice_from_lem xs from s h = ground arith

  pub add_u16_lem : (a b : ℕ) (s : S) → a + b < 2 ^ 16 → add_u16 a b s ≡ ret (a + b) s
  unfolding add_u16
  add_u16_lem a b s h = ground arith
