-- ===== src/MainProgram/Overread.antt =====
-- The copy loop of `main` runs one byte past its array.
use rustwall.Base.{ℕ, ◌≡◌, [], Option-cases, inl, inr, pos}
use mathlib.Core.List.{append-nil}
use rustwall.Exec.{fault, crash}
use rustwall.Exec.Inversion.{NoReturn, after-NoReturn, before-NoReturn}
use rustwall.Smoltcp.{Smoltcp}
use rustwall.Client.{client_rx, ethdriver_has_data_callback}
use rustwall.Loop.Copy.{copy_packet_overreads}
use rustwall.Glue.{Os}
use rustwall.Glue.Link.{glue_externs}
use rustwall.MainProgram.{packet_bytes, load_packet, open_device, main}

module _ {Frag Frags K : Type 0} (net : Smoltcp Frag Frags) (os : Os K) (fuel : ℕ) where
  load_packet_faults : (s : _) → load_packet net os [] fuel s ≡ crash fault
  unfolding load_packet
  load_packet_faults s = elim (Option-cases s.client_buf) [
    | inl nothing ↦ rw nothing
    | inr (buf, something) ↦
        simp (something, append-nil packet_bytes, copy_packet_overreads packet_bytes buf s)
  ]

  load_packet-NoReturn : NoReturn (load_packet net os [] fuel)
  load_packet-NoReturn a s t e = cc (load_packet_faults s, e)

  -- Where nothing readable stands behind `packet_bytes`, `main` does not return, whatever the
  -- device delivers.
  pub main_overreads : NoReturn (main net os [] fuel)
  unfolding main
  main_overreads = after-NoReturn (open_device net os [] fuel) _ (
      after-NoReturn (client_rx net (glue_externs os) fuel (pos 0)) _ (
        after-NoReturn (ethdriver_has_data_callback net (glue_externs os) 66) _
          (before-NoReturn (load_packet net os [] fuel) _ load_packet-NoReturn)))
