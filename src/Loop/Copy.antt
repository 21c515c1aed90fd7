-- ===== src/Loop/Copy.antt =====
-- What the copy loop needs and leaves.
use rustwall.Base.{
  ℕ, zero, suc, ◌+◌, ◌<◌, ◌≡◌, refl, Bytes, [], ◌∷◌, ◌++◌, length, drop, arith, length-append,
}
use mathlib.Core.List.{append-nil, append_assoc}
use rustwall.Exec.{ret, crash, fault}
use rustwall.Memory.{read_at, write_at}
use rustwall.Loop.{copy_loop, copy_packet}

module _ {S : Type 0} where
  read_at_end : (xs : Bytes) (s : S) → read_at xs (length xs) s ≡ crash fault
  unfolding read_at
  read_at_end [] s = refl
  read_at_end (x ∷ xs) s = read_at_end xs s

  -- Reading and writing behind a prefix.
  pub read_at_behind :
      (done : Bytes) (b : ℕ) (rest : Bytes) (s : S)
      → read_at (done ++ b ∷ rest) (length done) s ≡ ret b s
  unfolding read_at
  read_at_behind [] b rest s = refl
  read_at_behind (x ∷ xs) b rest s = read_at_behind xs b rest s

  write_at_behind :
      (done : Bytes) (b v : ℕ) (rest : Bytes) (s : S)
      → write_at (done ++ b ∷ rest) (length done) v s ≡ ret (done ++ v ∷ rest) s
  unfolding write_at
  write_at_behind [] b v rest s = refl
  write_at_behind (x ∷ xs) b v rest s = rw (write_at_behind xs b v rest s)

  write_at_end : (xs : Bytes) (v : ℕ) (s : S) → write_at xs (length xs) v s ≡ crash fault
  unfolding write_at
  write_at_end [] v s = refl
  write_at_end (x ∷ xs) v s = rw (write_at_end xs v s)

  -- One round, with the prefix `done` copied: the byte `b` takes the place of `old`.
  round_lem :
      (rounds : ℕ) (done : Bytes) (b old : ℕ) (todo rest : Bytes) (len : ℕ) (s : S)
      → copy_loop (suc rounds) (length done) (done ++ b ∷ todo) (done ++ old ∷ rest) len s
        ≡ copy_loop rounds
            (length (done ++ b ∷ []))
            ((done ++ b ∷ []) ++ todo)
            ((done ++ b ∷ []) ++ rest)
            (length done)
            s
  unfolding copy_loop
  round_lem rounds done b old todo rest len s = rw (
    read_at_behind done b todo s,
    write_at_behind done old b rest s,
    length-append done (b ∷ []),
    append_assoc done (b ∷ []) todo,
    append_assoc done (b ∷ []) rest,
  )

  -- With `todo` still to be copied and `next` behind it.
  copy_loop_lem :
      (todo done : Bytes) (last next : ℕ) (behind old : Bytes) (len : ℕ) (s : S)
      → length done + length todo ≡ last
      → length todo < length old
      → copy_loop
          (suc (length todo))
          (length done)
          (done ++ (todo ++ next ∷ behind))
          (done ++ old)
          len
          s
        ≡ ret (done ++ (todo ++ next ∷ drop (suc (length todo)) old), last) s
  copy_loop_lem todo done last next behind [] len s e h = absurd (omega arith)
  copy_loop_lem [] done last next behind (o ∷ old) len s e h =
      let at_last : length done ≡ last = omega arith in
      rw (round_lem zero done next o behind old len s, append_assoc done (next ∷ []) old, at_last)
        (unfold copy_loop in refl)
  copy_loop_lem (b ∷ todo) done last next behind (o ∷ old) len s e h = rw (
    round_lem (suc (length todo)) done b o (todo ++ next ∷ behind) old len s,
    copy_loop_lem todo (done ++ b ∷ []) last next behind old (length done) s
        (omega (arith, length-append done (b ∷ []))) (omega arith),
    append_assoc done (b ∷ []) (todo ++ next ∷ drop (suc (length todo)) old),
  )

  -- A packet, with one more byte of memory behind it and room for that byte too, is copied to the
  -- start of the buffer with that byte, and the index that is left is the packet's length.
  pub copy_packet_lem :
      (packet : Bytes) (next : ℕ) (behind buf : Bytes) (s : S)
      → length packet < length buf
      → copy_packet (packet ++ next ∷ behind) (length packet) buf s
        ≡ ret (packet ++ next ∷ drop (suc (length packet)) buf, length packet) s
  unfolding copy_packet
  copy_packet_lem packet next behind buf s h =
      copy_loop_lem packet [] (length packet) next behind buf 0 s (omega arith) h

  overread_lem :
      (todo done old : Bytes) (len : ℕ) (s : S)
      → copy_loop (suc (length todo)) (length done) (done ++ todo) (done ++ old) len s ≡ crash fault
  unfolding copy_loop
  overread_lem [] done old len s = rw (append-nil done, read_at_end done s)
  overread_lem (b ∷ todo) done [] len s =
      rw (read_at_behind done b todo s, append-nil done, write_at_end done b s)
  overread_lem (b ∷ todo) done (o ∷ old) len s =
      rw (round_lem (suc (length todo)) done b o todo old len s)
        (overread_lem todo (done ++ b ∷ []) old (length done) s)

  -- The loop reads one byte past the packet: if the memory ends with the packet, it faults, whatever
  -- the buffer.
  pub copy_packet_overreads :
      (packet buf : Bytes) (s : S) → copy_packet packet (length packet) buf s ≡ crash fault
  unfolding copy_packet
  copy_packet_overreads packet buf s = overread_lem packet [] buf 0 s
