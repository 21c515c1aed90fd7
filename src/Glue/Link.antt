-- ===== src/Glue/Link.antt =====
-- The firewall linked with src/server_glue.c and src/external_firewall.c, as the Makefile's target
-- `main` does. The shared buffer stands in the firewall's state and is lent to the glue for a call.
use rustwall.Base.{refl, ℤ, Bytes, Option, none, some}
use rustwall.Exec.{Outcome, ret, fail, crash}
use rustwall.Externs.{Externs}
use rustwall.State.{Pointer}
use rustwall.ExternalFirewall.{packet_in, packet_out}
use rustwall.Ipv4.Aside.{Stateless}
use rustwall.Glue.{Os, Glue, ethdriver_tx, ethdriver_rx, ethdriver_mac, client_emit}

module _ {K : Type 0} where
  abbrev pub lend : Bytes → Glue K → Glue K
  lend mem g = record g { from_ethdriver_data = mem }

  abbrev pub tx_answer : Outcome (Glue K) ℤ → Option (ℤ × Bytes × Glue K)
  tx_answer (ret r g) = some (r, g.from_ethdriver_data, g)
  tx_answer (fail e g) = none
  tx_answer (crash c) = none

  abbrev pub rx_answer : Outcome (Glue K) (ℤ × ℤ) → Option (ℤ × ℤ × Pointer × Glue K)
  rx_answer (ret (r, len) g) = some (r, len, some g.from_ethdriver_data, g)
  rx_answer (fail e g) = none
  rx_answer (crash c) = none

  -- `ethdriver_buf` is never NULL here.
  abbrev pub glue_rx : Os K → ℤ → Pointer → Glue K → Option (ℤ × ℤ × Pointer × Glue K)
  glue_rx os len none g = none
  glue_rx os len (some mem) g = rx_answer (ethdriver_rx os len (lend mem g))

  unfoldable pub glue_externs : Os K → Externs (Glue K)
  glue_externs os = record {
    ethdriver_tx = λ len mem g. tx_answer (ethdriver_tx os len (lend mem g));
    ethdriver_rx = glue_rx os;
    ethdriver_mac = λ g. ethdriver_mac;
    client_emit = client_emit;
    packet_in = packet_in;
    packet_out = packet_out;
  }

-- The shipped filters have no state.
module _ {W : Type 0} where
  pub packet_in-Stateless : Stateless (packet_in {W = W})
  unfolding packet_in
  packet_in-Stateless a b c d n mem m w = refl

  pub packet_out-Stateless : Stateless (packet_out {W = W})
  unfolding packet_out
  packet_out-Stateless a b c d n mem m w = refl
