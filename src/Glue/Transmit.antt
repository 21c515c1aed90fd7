-- ===== src/Glue/Transmit.antt =====
-- `client_tx` of src/lib.rs on the TAP device of src/server_glue.c, from the client's buffer to the
-- device.
use rustwall.Base.{
  ◌≤◌, ◌≡◌, refl, sym, ap, ◌∙◌, subst, ℤ, pos, true, false, Bytes, List, [], ◌++◌, Option, none,
  some, length, All, as_usize,
}
use rustwall.Exec.{Outcome, ret}
use rustwall.Exec.Keeps.{Ends, Ends-weaken, Allowed}
use rustwall.Constants.{buffer_size}
use rustwall.Smoltcp.{Smoltcp, LengthLaws}
use rustwall.State.{State, Pointer, tx}
use rustwall.Ipv4.Aside.{Asked-same}
use rustwall.Buffer.{fetch_client_data}
use rustwall.Ipv4.Frames.{SameHeader}
use rustwall.Ethernet.{process_ethernet}
use rustwall.Client.{ignore_error, client_tx, send_packets}
use rustwall.Client.Validity.{IsRoomy, IsValid}
use rustwall.Client.Validity.Sending.{stored-IsValid, client_tx_lem}
use rustwall.Glue.{Os, Glue}
use rustwall.Glue.Link.{packet_out-Stateless, glue_externs}
use rustwall.Glue.Traffic.{IsUp}
use rustwall.Glue.Sending.{write_all, queued, Written, send_packets-Writes}

module _ {Frag Frags K : Type 0} (net : Smoltcp Frag Frags) (os : Os K)
    (laws : LengthLaws net) where
  -- Everything that was queued, and behind it what the filter has queued for the frame that the
  -- client gave, with the Ethernet header of that, was written to the device.
  pub record Transmitted (n : ℤ) (s t : State Frags (Glue K)) : Type 0 where
    pub frame : Bytes
    pub fetched : fetch_client_data (as_usize n) s ≡ ret frame s
    -- the state with what the filter has queued
    pub filtered : State Frags (Glue K)
    pub processed :
        ignore_error
          (process_ethernet net (glue_externs os) frame tx tx (glue_externs os).packet_out false)
          s
        ≡ ret tt filtered
    pub added : List Bytes
    pub queued_eq : filtered.packets_tx ≡ s.packets_tx ++ added
    pub made : All (SameHeader frame) added
    pub written :
        write_all os s.world.tun_fd (s.packets_tx ++ added) s.world.kernel ≡ some t.world.kernel
    pub none_left : t.packets_tx ≡ []
    pub result : t.ret_client_tx ≡ pos 0
    pub still_up : IsUp t.world
    pub same_fd : t.world.tun_fd ≡ s.world.tun_fd

  Written-Ends :
      (done : Option K) (fd stored : ℤ) (o : Outcome (State Frags (Glue K)) (Unit {0}))
      → Written net os done fd stored o
      → Ends
          (Allowed ⊥)
          (λ t.
            (done ≡ some t.world.kernel)
            × (t.packets_tx ≡ [])
            × (t.ret_client_tx ≡ stored)
            × IsUp t.world
            × (t.world.tun_fd ≡ fd))
          o
  Written-Ends none fd stored o e = subst (Ends (Allowed ⊥) _) (sym e) tt
  Written-Ends (some k) fd stored o (t, e, up, same_fd, same, empty, kept) =
      subst (Ends (Allowed ⊥) _) (sym e) (ap some (sym same), empty, kept, up, same_fd)

  by_buffer :
      (buf : Pointer) (u : State Frags (Glue K))
      → IsValid u
      → u.world.status ≡ true
      → buffer_size ≤ length u.world.tun_buffer
      → u.ethdriver_buf ≡ buf
      → Written net os
          (write_all os u.world.tun_fd u.packets_tx u.world.kernel)
          u.world.tun_fd
          u.ret_client_tx
          (send_packets net (glue_externs os) u.packets_tx u)
  by_buffer none u v up room e = absurd (subst IsRoomy e v.ethdriver_roomy)
  by_buffer (some mem) u v up room e =
      let same : u ≡ queued net os mem u.packets_tx u =
        ap (λ b. record u { ethdriver_buf = b }) e
        ∙ ap (λ l. record u { ethdriver_buf = some mem; ethdriver_locked = l }) v.ethdriver_free in
      subst
        (λ a.
          Written net os (write_all os u.world.tun_fd u.packets_tx u.world.kernel) u.world.tun_fd
            u.ret_client_tx (send_packets net (glue_externs os) u.packets_tx a))
        (sym same)
        (send_packets-Writes net os u.packets_tx mem u up (subst IsRoomy e v.ethdriver_roomy) room
          v.tx_short)

  -- With a valid state, the device set up and room for BUFFER_SIZE bytes in its buffer, and the
  -- shipped packet filter: if `client_tx` returns, it has written to the device, frame by frame and
  -- in order, what was queued and behind it frames with the Ethernet header of the frame that it
  -- fetched from the client, nothing is queued any more the stored result is 0 and the device is
  -- still set up, with its descriptor; it takes no mutex twice and its loops end; with smoltcp keeping the lengths of its buffers.
  pub client_tx-Transmits :
      (n : ℤ) (s : State Frags (Glue K))
      → IsValid s
      → s.world.status ≡ true
      → buffer_size ≤ length s.world.tun_buffer
      → Ends (Allowed ⊥) (Transmitted n s) (client_tx net (glue_externs os) n s)
  unfolding glue_externs
  client_tx-Transmits n s v up room =
      client_tx_lem net (glue_externs os) laws (Transmitted n s) n s v λ frame u e w came p.
        let same : u.world ≡ s.world = Asked-same packet_out-Stateless p.moves.asked in
        let q = p.queue in
        Ends-weaken (Allowed ⊥) (Allowed ⊥) _ (Transmitted n s) _ (λ c h. h)
          (λ t h. record {
            frame = frame;
            fetched = e;
            filtered = u;
            processed = came;
            added = q.added;
            queued_eq = q.after_eq;
            made = q.made;
            written =
                subst
                  (λ g.
                    write_all os g.tun_fd (s.packets_tx ++ q.added) g.kernel ≡ some t.world.kernel)
                  same
                  (subst (λ a. write_all os u.world.tun_fd a u.world.kernel ≡ some t.world.kernel)
                    q.after_eq h.0);
            none_left = h.1;
            result = h.2;
            still_up = h.3;
            same_fd = h.4 ∙ ap (λ g. g.tun_fd) same;
          })
          (Written-Ends _ _ (pos 0) _ (
            by_buffer u.ethdriver_buf (record u { ret_client_tx = pos 0 })
              (stored-IsValid u.ret_client_rx (pos 0) w) (ap (λ g. g.status) same ∙ up)
              (subst (λ g. buffer_size ≤ length g.tun_buffer) (sym same) room) refl))
