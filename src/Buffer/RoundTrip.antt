-- ===== src/Buffer/RoundTrip.antt =====
-- What is put into the client's buffer is what is fetched from it; the stored address stays.
use rustwall.Base.{
  ◌≤◌, ◌<◌, ◌≡◌, false, Bytes, ◌++◌, some, length, drop, as_usize, arith, length-append,
  take_prefix, lt→ltb, le→leb,
}
use rustwall.Exec.{ret, ◌>>=◌}
use rustwall.Constants.{buffer_size}
use rustwall.State.{State}
use rustwall.Buffer.{copy_data_to_client_buf, fetch_client_data}

grown : (bytes mem : Bytes) → length bytes ≤ length (bytes ++ drop (length bytes) mem)
grown bytes mem = omega (arith, length-append bytes (drop (length bytes) mem))

module _ {Frags W : Type 0} where
  -- With the mutex free and the buffer there.
  abbrev pub with_client_buf : Bytes → State Frags W → State Frags W
  with_client_buf mem s = record s { client_buf = some mem; client_locked = false }

  -- Bytes that the client's buffer holds and that are fewer than BUFFER_SIZE are fetched from it
  -- as they were put there, by the length that was returned for them; the buffer keeps its rest,
  -- the mutex is free again, and nothing else changes.
  pub fetch-copy :
      (bytes mem : Bytes) (s : State Frags W)
      → length bytes < buffer_size
      → length bytes ≤ length mem
      → (copy_data_to_client_buf bytes >>= λ n. fetch_client_data (as_usize n))
          (with_client_buf mem s)
        ≡ ret bytes (with_client_buf (bytes ++ drop (length bytes) mem) s)
  unfolding copy_data_to_client_buf fetch_client_data
  fetch-copy bytes mem s h k = simp (
    lt→ltb (length bytes) buffer_size h,
    le→leb (length bytes) (length mem) k,
    le→leb (length bytes) (length (bytes ++ drop (length bytes) mem)) (grown bytes mem),
    take_prefix bytes (drop (length bytes) mem),
  )
