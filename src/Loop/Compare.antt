-- ===== src/Loop/Compare.antt =====
-- `compare_buffers` decides whether two buffers begin alike.
use rustwall.Base.{
  ℕ, zero, suc, ◌+◌, ◌≤◌, ◌≡◌, refl, pos, Bytes, false, not, if◌then◌else◌, ◌&&◌, [], ◌∷◌, ◌++◌,
  ◌==◌, length, take, arith, length-append, Bool-cases, inl, inr,
}
use mathlib.Core.List.{append_assoc}
use rustwall.Exec.{ret}
use rustwall.Memory.{read_at}
use rustwall.Ethernet.{bytes_eq}
use rustwall.Loop.{compare_loop, compare_buffers}
use rustwall.Loop.Copy.{read_at_behind}

nonzero : (n : ℕ) → (suc n == 0) ≡ false
nonzero n = ground arith

snoc : (done : Bytes) (a : ℕ) → length (done ++ a ∷ []) ≡ length done + 1
snoc done a = omega (arith, length-append done (a ∷ []))

module _ {S : Type 0} where
  step_lem :
      (n : ℕ) (done other : Bytes) (a b : ℕ) (xs ys : Bytes) (s : S)
      → length other ≡ length done
      → compare_loop (suc n) (length done) (done ++ a ∷ xs) (other ++ b ∷ ys) s ≡ (
          if a == b
          then compare_loop n (length done + 1) (done ++ a ∷ xs) (other ++ b ∷ ys) s
          else ret false s)
  unfolding compare_loop
  step_lem n done other a b xs ys s e =
      let second : read_at (other ++ b ∷ ys) (length done) s ≡ ret b s =
        rw (← e) (read_at_behind other b ys s) in
      rw (read_at_behind done a xs s, second)
        (elim (Bool-cases (a == b)) [ inl same ↦ rw same | inr differ ↦ rw differ ])

  loop_lem :
      (n : ℕ) (done other xs ys : Bytes) (s : S)
      → length other ≡ length done
      → n ≤ length xs
      → n ≤ length ys
      → compare_loop n (length done) (done ++ xs) (other ++ ys) s
        ≡ ret (bytes_eq (take n xs) (take n ys)) s
  loop_lem zero done other xs ys s e h k = unfold compare_loop in refl
  loop_lem (suc n) done other [] ys s e h k = absurd (omega arith)
  loop_lem (suc n) done other (x ∷ xs) [] s e h k = absurd (omega arith)
  loop_lem (suc n) done other (a ∷ xs) (b ∷ ys) s e h k =
      rw (step_lem n done other a b xs ys s e) (elim (Bool-cases (a == b)) [
        | inl same ↦
            rw
              (
                same,
                ← snoc done a,
                ← append_assoc done (a ∷ []) xs,
                ← append_assoc other (b ∷ []) ys,
              )
              (loop_lem n (done ++ a ∷ []) (other ++ b ∷ []) xs ys s
                (omega (arith, length-append done (a ∷ []), length-append other (b ∷ [])))
                (omega arith) (omega arith))
        | inr differ ↦ rw differ
      ])

  -- Where both buffers have that many bytes, `compare_buffers` returns, and it returns true exactly
  -- if the count is positive and the bytes are the same.
  pub compare_buffers_lem :
      (origin destination : Bytes) (n : ℕ) (s : S)
      → n ≤ length origin
      → n ≤ length destination
      → compare_buffers origin destination (pos n) s
        ≡ ret (not (n == 0) && bytes_eq (take n origin) (take n destination)) s
  unfolding compare_buffers
  compare_buffers_lem origin destination zero s h k = refl
  compare_buffers_lem origin destination (suc n) s h k =
      rw (nonzero n) (loop_lem (suc n) [] [] origin destination s refl h k)
