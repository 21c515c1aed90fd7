-- ===== src/Glue/Calls.antt =====
-- Any run of calls from C to the firewall linked with src/server_glue.c, and what the TAP device is
-- asked for over it.
use rustwall.Base.{
  false, ℤ, ◌≡◌, refl, sym, ap, ◌∙◌, subst, as_usize, Bytes, List, [], ◌++◌, All, Option, none,
  some,
}
use mathlib.Core.List.{append-nil}
use rustwall.Exec.{ret}
use rustwall.Exec.Inversion.{ret-state}
use rustwall.Exec.Keeps.{Ends, Allowed}
use rustwall.Ethernet.Short.{Anything}
use rustwall.Smoltcp.{Smoltcp, EthernetAddress, LengthLaws}
use rustwall.State.{State, tx}
use rustwall.Ipv4.Frames.{SameHeader}
use rustwall.Buffer.{fetch_client_data, known_mac, get_device_mac}
use rustwall.Ethernet.{process_ethernet}
use rustwall.Client.{ignore_error, client_mac, ethdriver_has_data_callback}
use rustwall.Client.Stored.{received-Beside, callback-kept, mac-kept}
use rustwall.Client.Validity.{IsValid}
use rustwall.Client.Runs.{
  Step, sent, received, called_back, mac_asked, client_wrote, driver_wrote, Run, done, step,
  Step-IsValid,
}
use rustwall.Glue.{Os, Glue, client_emit, client_emit_1}
use rustwall.Glue.Link.{glue_externs}
use rustwall.Glue.Traffic.{IsUp, Traffic, quiet, Traffic-trans, Heard, Heard-refl}
use rustwall.Glue.Sending.{write_all, write_all-Traffic}
use rustwall.Glue.Room.{glue-KeepsRoom}
use rustwall.Glue.Listening.{client_rx-Listened}
use rustwall.Glue.Transmit.{Transmitted, client_tx-Transmits}

module _ {Frag Frags K : Type 0} (net : Smoltcp Frag Frags) (os : Os K) where
  -- The buffers and the globals of the driver change by the calls alone.
  abbrev pub OwnDriver : {s t : State Frags (Glue K)} → Run net (glue_externs os) s t → Type 0
  OwnDriver done = Unit
  OwnDriver (step run (driver_wrote mem w h)) = ⊥
  OwnDriver (step run _) = OwnDriver run

  -- The frames are, call by call of `client_tx` and in the order of the calls, all those that
  -- `process_ethernet` puts into the queue for the frame that the call has fetched from the client:
  -- what stands in the queue when it is done. Each has the Ethernet header of that frame.
  abbrev pub MadeBy :
      {s t : State Frags (Glue K)} → Run net (glue_externs os) s t → List Bytes → Type 0
  MadeBy done frames = frames ≡ []
  MadeBy (step {t = u} run (sent n e)) frames =
      (before : List Bytes) × (frame : Bytes) × (filtered : State Frags (Glue K)) × MadeBy run
        before
      × (fetch_client_data (as_usize n) u ≡ ret frame u)
      × (ignore_error
            (process_ethernet net (glue_externs os) frame tx tx (glue_externs os).packet_out false)
            u
          ≡ ret tt filtered)
      × (frames ≡ before ++ filtered.packets_tx)
      × All (SameHeader frame) filtered.packets_tx
  MadeBy (step run _) frames = MadeBy run frames

  -- Where a run that started with `g` has come to.
  pub record Sent (g : Glue K) (frames : List Bytes) (t : State Frags (Glue K)) : Type 0 where
    pub valid : IsValid t
    pub up : IsUp t.world
    pub same_fd : t.world.tun_fd ≡ g.tun_fd
    pub none_left : t.packets_tx ≡ []
    pub traffic : Traffic os g.tun_fd g.kernel frames t.world.kernel

  -- Traffic after traffic, as the descriptor stays.
  follows :
      {fd fd' : ℤ} {k k' k'' : K} {before after : List Bytes}
      → Traffic os fd k before k'
      → fd' ≡ fd
      → Traffic os fd' k' after k''
      → Traffic os fd k (before ++ after) k''
  follows {fd} {k' = k'} {k'' = k''} {after = after} p e q =
      Traffic-trans os fd p (subst (λ a. Traffic os a k' after k'') e q)

  -- On from there by a step without a frame written.
  on :
      {g : Glue K} {frames : List Bytes} {t u : State Frags (Glue K)}
      → Sent g frames t
      → IsValid u
      → u.packets_tx ≡ t.packets_tx
      → Heard os t.world u.world
      → Sent g frames u
  on {g} {frames} {t} {u} h valid same heard = record {
    valid = valid;
    up = heard.up;
    same_fd = heard.same_fd ∙ h.same_fd;
    none_left = same ∙ h.none_left;
    traffic =
        subst (λ q. Traffic os g.tun_fd g.kernel q u.world.kernel) (append-nil frames)
          (follows h.traffic h.same_fd heard.traffic);
  }

  mac_world :
      (known : Option EthernetAddress) (s : State Frags (Glue K))
      → Ends (λ _. ⊥) (λ t. t.world ≡ s.world) (known_mac (glue_externs os) known s)
  unfolding known_mac
  mac_world none s = refl
  mac_world (some mac) s = refl

  same_world : {g g' : Glue K} → IsUp g → g' ≡ g → Heard os g g'
  same_world {g} up e = subst (Heard os g) (sym e) (Heard-refl g up)

  emitted : (g : Glue K) → IsUp g → Heard os g ((glue_externs os).client_emit 1 g)
  unfolding glue_externs client_emit client_emit_1
  emitted g up = record {
    up = record { status = up.status; room = up.room };
    same_fd = refl;
    traffic = quiet;
  }

module _ {Frag Frags K : Type 0} (net : Smoltcp Frag Frags) (os : Os K)
    (laws : LengthLaws net) where
  next-IsValid :
      {t u : State Frags (Glue K)} → Step net (glue_externs os) t u → IsValid t → IsValid u
  next-IsValid = Step-IsValid net (glue_externs os) laws (glue-KeepsRoom os)

  -- Where nothing was queued before, the queue is what the call has added.
  in_queue :
      {g : Glue K} {before : List Bytes} {t u : State Frags (Glue K)} {n : ℤ}
      → Sent net os g before t
      → (c : Transmitted net os laws n t u) → c.filtered.packets_tx ≡ c.added
  in_queue h c = c.queued_eq ∙ ap (λ q. q ++ c.added) h.none_left

  -- A call of `client_tx` adds the frames that it made.
  after_tx :
      {g : Glue K} {before : List Bytes} {t u : State Frags (Glue K)} {n : ℤ}
      → Sent net os g before t
      → IsValid u
      → (c : Transmitted net os laws n t u) → Sent net os g (before ++ c.added) u
  after_tx {t = t} {u = u} h valid c = record {
    valid = valid;
    up = c.still_up;
    same_fd = c.same_fd ∙ h.same_fd;
    none_left = c.none_left;
    traffic = follows net os h.traffic h.same_fd (
        write_all-Traffic os t.world.tun_fd c.added t.world.kernel u.world.kernel (
          subst
            (λ q. write_all os t.world.tun_fd (q ++ c.added) t.world.kernel ≡ some u.world.kernel)
            h.none_left c.written));
  }

  -- With the device set up, room in the buffers, nothing queued, the shipped packet filter and
  -- smoltcp keeping the lengths of its buffers: after any run of calls of the firewall's four
  -- functions, the client writing its buffer in between and nobody else the driver's, the frames
  -- written to the device are, byte for byte and in the order of the calls of `client_tx`, those and
  -- only those that `process_ethernet` has put into the queue for the frames that the calls fetched,
  -- each once and behind the Ethernet header of that frame; no frame waits in the queue, no write
  -- has failed, and all else that was asked of the device is to wait and to read; the device is
  -- still set up, with its descriptor, and the state valid.
  pub Run-Sends :
      {s t : State Frags (Glue K)}
      → IsValid s
      → IsUp s.world
      → s.packets_tx ≡ []
      → (run : Run net (glue_externs os) s t) → OwnDriver net os run
      → (frames : List Bytes) × MadeBy net os run frames × Sent net os s.world frames t
  unfolding client_mac get_device_mac ethdriver_has_data_callback
  Run-Sends valid up empty done own = (
    [],
    refl,
    record { valid = valid; up = up; same_fd = refl; none_left = empty; traffic = quiet },
  )
  Run-Sends {s} valid up empty (step {t = t} {u = u} run (sent n e)) own =
      let (before, made, h) = Run-Sends valid up empty run own in
      let c : Transmitted net os laws n t u =
        subst (Ends (Allowed ⊥) (Transmitted net os laws n t)) e
          (client_tx-Transmits net os laws n t h.valid h.up.status h.up.room) in
      (
        before ++ c.added,
        (
          before,
          c.frame,
          c.filtered,
          made,
          c.fetched,
          c.processed,
          ap (λ q. before ++ q) (sym (in_queue h c)),
          subst (All (SameHeader c.frame)) (sym (in_queue h c)) c.made,
        ),
        after_tx h (next-IsValid (sent n e) h.valid) c,
      )
  Run-Sends valid up empty (step {t = t} {u = u} run (received fuel len e)) own =
      let (frames, made, h) = Run-Sends valid up empty run own in
      let heard : Heard os t.world u.world =
        subst (Ends Anything (λ x. Heard os t.world x.world)) e
          ((client_rx-Listened net os t.world fuel len).at t (Heard-refl t.world h.up)) in
      (
        frames,
        made,
        on net os h (next-IsValid (received fuel len e) h.valid)
            (ap (λ o. o.packets) (received-Beside net (glue_externs os) fuel len e).same) heard,
      )
  Run-Sends valid up empty (step {t = t} {u = u} run (called_back badge e)) own =
      let (frames, made, h) = Run-Sends valid up empty run own in
      (
        frames,
        made,
        on net os h (next-IsValid (called_back badge e) h.valid)
            (ap (λ k. k.packets_tx) (callback-kept net (glue_externs os) t u badge e))
            (subst (λ x. Heard os t.world x.world) (ret-state e) (emitted net os t.world h.up)),
      )
  Run-Sends valid up empty (step {t = t} {u = u} run (mac_asked e)) own =
      let (frames, made, h) = Run-Sends valid up empty run own in
      (
        frames,
        made,
        on net os h (next-IsValid (mac_asked e) h.valid)
            (ap (λ k. k.packets_tx) (mac-kept net (glue_externs os) t u e))
            (same_world net os h.up (
              subst (Ends (λ _. ⊥) (λ x. x.world ≡ t.world)) e
                (mac_world net os t.client_mac_address t))),
      )
  Run-Sends valid up empty (step {t = t} run (client_wrote mem room)) own =
      let (frames, made, h) = Run-Sends valid up empty run own in
      (
        frames,
        made,
        on net os h (next-IsValid (client_wrote mem room) h.valid) refl (Heard-refl t.world h.up),
      )
  Run-Sends valid up empty (step run (driver_wrote mem w room)) own = absurd own
