-- ===== src/Client/Mutexes.antt =====
-- `client_tx` and `client_rx` take no mutex twice and give back every one that they take.
use rustwall.Base.{◌≡◌, refl, ℤ, ap, ◌∙◌, minus_one, Bytes, Bool, List, [], ◌∷◌}
use rustwall.Exec.{Exec, Outcome, ret, fail, crash, Crash, continue}
use rustwall.Exec.Keeps.{Ends, Allowed}
use rustwall.Exec.Safe.{Safe, safe_rules, Safe-bind, Safe-then, Safe-if}
use rustwall.Smoltcp.{Smoltcp}
use rustwall.Externs.{Externs, Filter}
use rustwall.State.{State, Side}
use rustwall.Buffer.Mutexes.{Unlocked, fetch-Unlocked, copy-Unlocked, dispatch-Unlocked}
use rustwall.Ethernet.{process_ethernet}
use rustwall.Ethernet.Growth.{Passed}
use rustwall.Ethernet.Queue.{process_ethernet-Grows}
use rustwall.Client.{ignored, ignore_error, send_packets, client_tx, deliver_packet}

-- What comes after a frame whose error is ignored.
-- With the state that it was left in.
pub continue-ignored :
    {S B : Type 0} (C : Crash → Type 0) (P Q : S → Type 0) (o : Outcome S (Unit {0})) (n : Exec S B)
    → ((c : Crash) → Allowed ⊥ c → C c)
    → Ends (Allowed ⊥) P o
    → ((u : S) → ignored o ≡ ret tt u → P u → Ends C Q (n u))
    → Ends C Q (continue (ignored o) (λ _. n))
continue-ignored C P Q (ret a u) n k h rest = rest u refl h
continue-ignored C P Q (fail e u) n k h rest = rest u refl h
continue-ignored C P Q (crash c) n k h rest = k c h

pub ignored-continue :
    {S B : Type 0} (C : Crash → Type 0) (P Q : S → Type 0) (o : Outcome S (Unit {0})) (n : Exec S B)
    → ((c : Crash) → Allowed ⊥ c → C c)
    → Ends (Allowed ⊥) P o
    → ((u : S) → P u → Ends C Q (n u))
    → Ends C Q (continue (ignored o) (λ _. n))
ignored-continue C P Q o n k h rest = continue-ignored C P Q o n k h (λ u e. rest u)

module _ {Frags W : Type 0} where
  pub Passed-Unlocked :
      (side store : Side) (filter : Filter W) (frame : Bytes) (s t : State Frags W)
      → Passed side store filter frame s t
      → Unlocked s
      → Unlocked t
  Passed-Unlocked side store filter frame s t p h = record {
    ethdriver = ap (λ a. a.ethdriver_locked) p.same ∙ h.ethdriver;
    client = ap (λ a. a.client_locked) p.same ∙ h.client;
  }

module _ {Frags W : Type 0} {C : Crash → Type 0} where
  store_tx-Unlocked :
      (r : ℤ) → Safe C Unlocked (λ (s : State Frags W). ret tt (record s { ret_client_tx = r }))
  store_tx-Unlocked r = record { at = λ s h. record { ethdriver = h.ethdriver; client = h.client } }

  store_rx-Unlocked :
      (r : ℤ) → Safe C Unlocked (λ (s : State Frags W). ret tt (record s { ret_client_rx = r }))
  store_rx-Unlocked r = record { at = λ s h. record { ethdriver = h.ethdriver; client = h.client } }

  pop_tx-Unlocked :
      (q : List Bytes)
      → Safe C Unlocked (λ (s : State Frags W). ret tt (record s { packets_tx = q }))
  pop_tx-Unlocked q = record { at = λ s h. record { ethdriver = h.ethdriver; client = h.client } }

  pop_rx-Unlocked :
      (q : List Bytes)
      → Safe C Unlocked (λ (s : State Frags W). ret tt (record s { packets_rx = q }))
  pop_rx-Unlocked q = record { at = λ s h. record { ethdriver = h.ethdriver; client = h.client } }

ruleset state_rules =
    (safe_rules, store_tx-Unlocked, store_rx-Unlocked, pop_tx-Unlocked, pop_rx-Unlocked)

module _ {Frag Frags W : Type 0} (net : Smoltcp Frag Frags) (ext : Externs W) where
  send_packets-Unlocked : (q : List Bytes) → Safe (Allowed ⊥) Unlocked (send_packets net ext q)
  unfolding send_packets
  send_packets-Unlocked [] = search safe_rules
  send_packets-Unlocked (p ∷ q) = Safe-then _ _ (pop_tx-Unlocked q) (
      Safe-bind _ _ (dispatch-Unlocked ext p)
        λ r. Safe-if _ _ _ (store_tx-Unlocked minus_one) (send_packets-Unlocked q))

  ignored-Unlocked :
      (side fragment_buffer : Side) (filter : Filter W) (check_mac : Bool) (frame : Bytes)
      → Safe
          (Allowed ⊥)
          Unlocked
          (ignore_error (process_ethernet net ext frame side fragment_buffer filter check_mac))
  ignored-Unlocked side fragment_buffer filter check_mac frame = record {
    at = λ s h.
        pass s h _
          ((process_ethernet-Grows net ext side fragment_buffer filter frame check_mac).at s);
  }
    where
      pass :
          (s : State Frags W)
          → Unlocked s
          → (o : Outcome (State Frags W) (Unit {0}))
          → Ends (Allowed ⊥) (Passed side fragment_buffer filter frame s) o
          → Ends (Allowed ⊥) Unlocked (ignored o)
      pass s h (ret a t) p = Passed-Unlocked side fragment_buffer filter frame s t p h
      pass s h (fail e t) p = Passed-Unlocked side fragment_buffer filter frame s t p h
      pass s h (crash c) p = p

  -- Called with both mutexes free, `client_tx` takes none twice and its loops end; when it returns,
  -- both are free again.
  pub client_tx-Unlocked : (n : ℤ) → Safe (Allowed ⊥) Unlocked (client_tx net ext n)
  unfolding client_tx
  client_tx-Unlocked n =
      search (state_rules, fetch-Unlocked, ignored-Unlocked, send_packets-Unlocked) depth 12

  pub deliver-Unlocked :
      (len : ℤ) (q : List Bytes) → Safe (Allowed ⊥) Unlocked (deliver_packet net ext len q)
  unfolding deliver_packet
  deliver-Unlocked len [] = search state_rules
  deliver-Unlocked len (p ∷ q) = search (state_rules, copy-Unlocked) depth 9
