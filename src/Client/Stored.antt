-- ===== src/Client/Stored.antt =====
-- What the statics RET_CLIENT_RX and RET_CLIENT_TX, and the counters, say between the calls from C.
use rustwall.Base.{
  ℕ, ◌≡◌, refl, sym, ap, ◌∙◌, subst, ℤ, pos, minus_one, [], ◌⊎◌, inl, inr, none, some, Option,
}
use rustwall.Exec.{ret}
use rustwall.Exec.Keeps.{Ends, Allowed}
use rustwall.Exec.Inversion.{ret-state}
use rustwall.Smoltcp.{Smoltcp, EthernetAddress}
use rustwall.Externs.{Externs}
use rustwall.State.{State, Pointer, rx, tx, initial}
use rustwall.Buffer.{known_mac, get_device_mac}
use rustwall.Buffer.Exchange.{Kept, kept_of}
use rustwall.Ipv4.Aside.{CountsUp, CountsUp-refl, CountsUp-trans}
use rustwall.Client.{client_tx, client_rx, client_mac, ethdriver_has_data_callback, more_data}
use rustwall.Client.Results.{client_tx-Drained, client_rx-More}
use rustwall.Client.Separation.{Others, Beside, client_calls-Separate}
use rustwall.Client.Runs.{
  Step, sent, received, called_back, mac_asked, client_wrote, driver_wrote, Run, done, step,
}

module _ {Frags : Type 0} where
  -- The stored result of `client_rx` tells whether there is more to receive, and frames wait to be
  -- sent only where `client_tx` has stored -1.
  pub record Stored (k : Kept Frags) : Type 0 where
    pub to_receive :
        ((k.ret_client_rx ≡ minus_one) × (k.packets_rx ≡ []))
        ⊎ (k.ret_client_rx ≡ more_data k.packets_rx)
    pub to_send : (k.packets_tx ≡ []) ⊎ (k.ret_client_tx ≡ minus_one)

  -- The half of `Stored` that is about the other direction.
  abbrev ToReceive : Others Frags → Type 0
  ToReceive o = ((o.result ≡ minus_one) × (o.packets ≡ [])) ⊎ (o.result ≡ more_data o.packets)

  abbrev ToSend : Others Frags → Type 0
  ToSend o = (o.packets ≡ []) ⊎ (o.result ≡ minus_one)

-- Both counters of the state.
pub record Counts {Frags : Type 0} (a b : Kept Frags) : Type 0 where
  pub seed : CountsUp 16 a.seed b.seed
  pub ms : CountsUp 63 a.ms b.ms

module _ {Frags : Type 0} where
  Counts-refl : (a : Kept Frags) → Counts a a
  Counts-refl a = record { seed = CountsUp-refl 16 a.seed; ms = CountsUp-refl 63 a.ms }

  Counts-trans : (a b c : Kept Frags) → Counts a b → Counts b c → Counts a c
  Counts-trans a b c p q = record {
    seed = CountsUp-trans 16 a.seed b.seed c.seed p.seed q.seed;
    ms = CountsUp-trans 63 a.ms b.ms c.ms p.ms q.ms;
  }

module _ {Frag Frags W : Type 0} (net : Smoltcp Frag Frags) (ext : Externs W) where
  mac_kept :
      (known : Option EthernetAddress) (s : State Frags W)
      → Ends (λ _. ⊥) (λ t. kept_of t ≡ kept_of s) (known_mac ext known s)
  unfolding known_mac
  mac_kept none s = refl
  mac_kept (some mac) s = refl

  sent-Beside :
      {s t : State Frags W} {r : ℤ} (n : ℤ) → client_tx net ext n s ≡ ret r t → Beside tx s t
  sent-Beside {s} n e =
      subst (Ends (Allowed Unit) (Beside tx s)) e (((client_calls-Separate net ext).0 n).at s)

  pub received-Beside :
      {s t : State Frags W} {r : ℤ × ℤ} (fuel : ℕ) (len : ℤ)
      → client_rx net ext fuel len s ≡ ret r t
      → Beside rx s t
  received-Beside {s} fuel len e =
      subst (Ends (Allowed Unit) (Beside rx s)) e
        (((client_calls-Separate net ext).1 fuel len).at s)

  -- What else may happen between two calls.
  pub mac-kept :
      (s t : State Frags W) {mac : EthernetAddress}
      → client_mac net ext s ≡ ret mac t
      → kept_of t ≡ kept_of s
  unfolding client_mac get_device_mac
  mac-kept s t e =
      subst (Ends (λ _. ⊥) (λ u. kept_of u ≡ kept_of s)) e (mac_kept s.client_mac_address s)

  pub callback-kept :
      (s t : State Frags W) (badge : ℕ)
      → ethdriver_has_data_callback net ext badge s ≡ ret tt t
      → kept_of t ≡ kept_of s
  unfolding ethdriver_has_data_callback
  callback-kept s t badge e = ap kept_of (sym (ret-state e))

  Step-Counts : {s t : State Frags W} → Step net ext s t → Counts (kept_of s) (kept_of t)
  Step-Counts (sent n e) = let b = sent-Beside n e in record { seed = b.seed; ms = b.ms }
  Step-Counts (received fuel len e) =
      let b = received-Beside fuel len e in record { seed = b.seed; ms = b.ms }
  Step-Counts {s} {t} (called_back badge e) =
      subst (Counts (kept_of s)) (sym (callback-kept s t badge e)) (Counts-refl (kept_of s))
  Step-Counts {s} {t} (mac_asked e) =
      subst (Counts (kept_of s)) (sym (mac-kept s t e)) (Counts-refl (kept_of s))
  Step-Counts {s} (client_wrote mem h) = Counts-refl (kept_of s)
  Step-Counts {s} (driver_wrote mem w h) = Counts-refl (kept_of s)

  -- Over any calls from C, with what the client and the driver do in between, the packet identifiers
  -- and the clock only count up, and stay in the range of `u16` and `i64`: they do not wrap around.
  pub Run-Counts : (s t : State Frags W) → Run net ext s t → Counts (kept_of s) (kept_of t)
  Run-Counts s t done = Counts-refl (kept_of s)
  Run-Counts s t (step {t = u} run last) =
      Counts-trans (kept_of s) (kept_of u) (kept_of t) (Run-Counts s u run) (Step-Counts last)

  sent-Stored :
      (s t : State Frags W) {r : ℤ} (n : ℤ)
      → client_tx net ext n s ≡ ret r t
      → Stored (kept_of s)
      → Stored (kept_of t)
  sent-Stored s t {r} n e h = record {
    to_receive = subst ToReceive (sym (sent-Beside n e).same) h.to_receive;
    to_send = by_result (client_tx-Drained net ext n r s t e);
  }
    where
      by_result :
          (t.ret_client_tx ≡ r) × (((r ≡ pos 0) × (t.packets_tx ≡ [])) ⊎ (r ≡ minus_one))
          → (t.packets_tx ≡ []) ⊎ (t.ret_client_tx ≡ minus_one)
      by_result (_, inl (_, empty)) = inl empty
      by_result (same, inr failed) = inr (same ∙ failed)

  received-Stored :
      (s t : State Frags W) {r : ℤ × ℤ} (fuel : ℕ) (len : ℤ)
      → client_rx net ext fuel len s ≡ ret r t
      → Stored (kept_of s)
      → Stored (kept_of t)
  received-Stored s t {r} fuel len e h = record {
    to_receive = by_result (client_rx-More net ext fuel len r.0 r.1 s t e);
    to_send = subst ToSend (sym (received-Beside fuel len e).same) h.to_send;
  }
    where
      by_result :
          (t.ret_client_rx ≡ r.0)
            × (((r.0 ≡ minus_one) × (t.packets_rx ≡ [])) ⊎ (r.0 ≡ more_data t.packets_rx))
          → ((t.ret_client_rx ≡ minus_one) × (t.packets_rx ≡ []))
            ⊎ (t.ret_client_rx ≡ more_data t.packets_rx)
      by_result (same, inl (failed, empty)) = inl (same ∙ failed, empty)
      by_result (same, inr more) = inr (same ∙ more)

  Step-Stored : {s t : State Frags W} → Step net ext s t → Stored (kept_of s) → Stored (kept_of t)
  Step-Stored {s} {t} (sent n e) h = sent-Stored s t n e h
  Step-Stored {s} {t} (received fuel len e) h = received-Stored s t fuel len e h
  Step-Stored {s} {t} (called_back badge e) h = subst Stored (sym (callback-kept s t badge e)) h
  Step-Stored {s} {t} (mac_asked e) h = subst Stored (sym (mac-kept s t e)) h
  Step-Stored (client_wrote mem k) h = h
  Step-Stored (driver_wrote mem w k) h = h

  -- After any calls from the first on, with what the client and the driver do in between: the stored
  -- result of `client_rx` is -1 with nothing left to receive, or else it is 1 if there is more to
  -- receive and 0 if not; and a frame waits to be sent only where the stored result of `client_tx` is
  -- -1.
  pub Run-Stored :
      (eth client : Pointer) (w : W) (t : State Frags W)
      → Run net ext (initial net eth client w) t
      → Stored (kept_of t)
  unfolding initial
  Run-Stored eth client w t done = record { to_receive = inl (refl, refl); to_send = inl refl }
  Run-Stored eth client w t (step {t = u} run last) =
      Step-Stored last (Run-Stored eth client w u run)
