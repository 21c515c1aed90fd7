-- ===== src/Client/Rounds.antt =====
-- The loop of `client_rx` over the driver's frames: how many rounds it takes.
use rustwall.Base.{
  ℕ, zero, suc, ◌+◌, ◌<◌, ◌≤◌, ◌≡◌, ℤ, pos, Bytes, Option, none, some, true, if◌then◌else◌, inl,
  inr, arith, Bool-cases,
}
use rustwall.Exec.{Outcome, ret, fail, crash, Crash, continue}
use rustwall.Exec.Keeps.{Ends, Allowed}
use rustwall.Exec.Safe.{Safe, NoDeadlock, live-NoDeadlock, Ends-continue, Safe-weaken}
use rustwall.Smoltcp.{Smoltcp}
use rustwall.Externs.{Externs}
use rustwall.State.{State, Pointer, rx}
use rustwall.Buffer.{EthdriverRxStatus, new_status, next}
use rustwall.Buffer.Mutexes.{Unlocked, Next, next_lem}
use rustwall.Ipv4.Aside.{Asked, not_asked, ask}
use rustwall.Ethernet.{process_ethernet}
use rustwall.Ethernet.Growth.{Passed}
use rustwall.Ethernet.Queue.{process_ethernet-Grows}
use rustwall.Client.{ignored, receive_packets, client_rx}
use rustwall.Client.Mutexes.{ignored-continue, Passed-Unlocked, deliver-Unlocked}

-- A driver that settles: each frame with more behind it lowers a rank of the outside world, and to
-- ask the external filter does not raise it.
pub record Settles {W : Type 0} (ext : Externs W) (rank : W → ℕ) : Type 0 where
  pub answered :
      (buf : Pointer) (w : W) (len : ℤ) (buf' : Pointer) (w' : W)
      → ext.ethdriver_rx (pos 0) buf w ≡ some (pos 1, len, buf', w')
      → rank w' < rank w
  pub asked :
      (src_addr src_port dst_addr dst_port len : ℕ) (mem : Bytes) (max_len : ℕ) (w : W)
      → rank (ext.packet_in src_addr src_port dst_addr dst_port len mem max_len w).2 ≤ rank w

module _ {W : Type 0} (ext : Externs W) (rank : W → ℕ) (settles : Settles ext rank) where
  Asked-rank : {w w' : W} → Asked ext.packet_in w w' → rank w' ≤ rank w
  Asked-rank not_asked = omega arith
  Asked-rank (ask {v} p a b c d n mem m) =
      omega (arith, Asked-rank p, settles.asked a b c d n mem m v)

module _ {Frag Frags W : Type 0} (net : Smoltcp Frag Frags) (ext : Externs W) where
  -- One round, by what the iterator gives: `C` is the crashes that may come, `Q` what the rounds
  -- after this one need.
  round_lem :
      (C : Crash → Type 0)
      → ((c : Crash) → Allowed ⊥ c → C c)
      → (Q : EthdriverRxStatus → State Frags W → Type 0) (fuel : ℕ) (s : State Frags W)
        (o : Outcome (State Frags W) (EthdriverRxStatus × Option Bytes))
      → Next ext s o
      → ((status : EthdriverRxStatus) (frame : Bytes) (t u : State Frags W)
          → Next ext s (ret (status, some frame) t)
          → Passed rx rx ext.packet_in frame t u
          → Q status u)
      → ((status : EthdriverRxStatus) (u : State Frags W)
          → Unlocked u
          → Q status u
          → Ends C Unlocked (receive_packets net ext fuel status u))
      → Ends C Unlocked (
          continue o (λ item. elim item.1 [
            | none ↦ ret tt
            | some frame ↦ λ u.
                continue
                  (ignored (process_ethernet net ext frame rx rx ext.packet_in true u))
                  (λ _. receive_packets net ext fuel item.0)
          ]))
  round_lem C k Q fuel s (ret (status, none) t) h later rest = h
  round_lem C k Q fuel s (ret (status, some frame) t) h later rest =
      ignored-continue C (Passed rx rx ext.packet_in frame t) Unlocked _ _ k
        ((process_ethernet-Grows net ext rx rx ext.packet_in frame true).at t)
        (λ u p.
          rest status u (Passed-Unlocked rx rx ext.packet_in frame t u p h.0)
            (later status frame t u h p))
  round_lem C k Q fuel s (fail e t) h later rest = absurd h
  round_lem C k Q fuel s (crash c) h later rest = k c h

  receive-Unlocked :
      (fuel : ℕ) (status : EthdriverRxStatus)
      → Safe NoDeadlock Unlocked (receive_packets net ext fuel status)
  unfolding receive_packets
  receive-Unlocked zero status = record { at = λ s h. tt }
  receive-Unlocked (suc fuel) status = record {
    at = λ s h.
        round_lem NoDeadlock live-NoDeadlock (λ _ _. Unit) fuel s _ (next_lem ext status s h)
          (λ st frame t u a p. tt) (λ st u free _. (receive-Unlocked fuel st).at u free);
  }

  -- Called with both mutexes free, `client_rx` takes none twice, whatever the driver does; when it
  -- returns, both are free again.
  pub client_rx-Unlocked :
      (fuel : ℕ) (len : ℤ) → Safe NoDeadlock Unlocked (client_rx net ext fuel len)
  unfolding client_rx
  client_rx-Unlocked fuel len = record {
    at = λ s h.
        Ends-continue NoDeadlock Unlocked (receive_packets net ext fuel new_status s) _
          ((receive-Unlocked fuel new_status).at s h)
          (λ _ t free.
            (Safe-weaken live-NoDeadlock (deliver-Unlocked net ext len t.packets_rx)).at t free);
  }

  module _ (rank : W → ℕ) (settles : Settles ext rank) where
    -- The rounds that are still to come, without the last.
    abbrev needed : EthdriverRxStatus → W → ℕ
    needed status w = if status.finished then 0 else rank w + 1

    later_needed :
        (fuel : ℕ) (st : EthdriverRxStatus) (frame : Bytes) (s t u : State Frags W)
        → rank s.world < fuel
        → Next ext s (ret (st, some frame) t)
        → Passed rx rx ext.packet_in frame t u
        → needed st u.world < fuel
    later_needed fuel st frame s t u h (free, inl done) p = rw done (omega arith)
    later_needed fuel st frame s t u h (free, inr (len, buf, e)) p = ground (
      arith,
      settles.answered s.ethdriver_buf s.world len buf t.world e,
      Asked-rank ext rank settles p.moves.asked,
    )

    receive-Ends :
        (fuel : ℕ) (status : EthdriverRxStatus) (s : State Frags W)
        → Unlocked s
        → needed status s.world < fuel
        → Ends (Allowed ⊥) Unlocked (receive_packets net ext fuel status s)
    unfolding receive_packets
    receive-Ends zero status s free h = absurd (omega arith)
    receive-Ends (suc fuel) status s free h = elim (Bool-cases status.finished) [
      | inl finished ↦ rw (next_finished status s finished) free
      | inr going ↦
          round_lem (Allowed ⊥) (λ c a. a) (λ st u. needed st u.world < fuel) fuel s _
            (next_lem ext status s free)
            (λ st frame t u. later_needed fuel st frame s t u (ground arith))
            (λ st u later. receive-Ends fuel st u later)
    ]
      where
        next_finished :
            (status : EthdriverRxStatus) (s : State Frags W)
            → status.finished ≡ true
            → next ext status s ≡ ret (status, none) s
        next_finished status s e = unfold next in rw e

    -- Called with both mutexes free and with two rounds more than the rank of the outside world,
    -- for a driver that settles, `client_rx` ends: it is not stuck in a mutex, and its loop is not
    -- cut off; when it returns, both mutexes are free again.
    pub client_rx-Ends :
        (fuel : ℕ) (len : ℤ) (s : State Frags W)
        → Unlocked s
        → rank s.world + 1 < fuel
        → Ends (Allowed ⊥) Unlocked (client_rx net ext fuel len s)
    unfolding client_rx
    client_rx-Ends fuel len s free h =
        Ends-continue (Allowed ⊥) Unlocked (receive_packets net ext fuel new_status s) _
          (receive-Ends fuel new_status s free h)
          (λ _ t u. (deliver-Unlocked net ext len t.packets_rx).at t u)
