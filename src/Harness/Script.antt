-- ===== src/Harness/Script.antt =====
-- `main` of src/test.c, phase by phase. A check that fails ends the process.
use rustwall.Base.{
  ℕ, zero, suc, ℤ, pos, minus_one, is_minus_one, is_zero, Bool, not, ◌&&◌, if◌then◌else◌,
}
use rustwall.Exec.{Exec, pure, abort, exited, ◌>>=◌, ◌>>◌}
use rustwall.Smoltcp.{Smoltcp}
use rustwall.State.{State}
use rustwall.Client.{client_rx}
use rustwall.Harness.{
  Driver, Packet, test_externs, send_and_test_packet, receive_and_test_packet, set_ret,
}

-- The arrays of src/test_data.h.
pub record TestData : Type 0 where
  pub ping : Packet
  pub arp : Packet
  pub multicast_report : Packet
  pub udp_1 : Packet
  pub udp_frag1 : Packet
  pub udp_frag2 : Packet
  pub udp_frag3 : Packet
  pub udp_frag_5k_1 : Packet
  pub udp_frag_5k_2 : Packet
  pub udp_frag_5k_3 : Packet
  pub udp_frag_5k_4 : Packet

-- `exit(1)` unless the test is passed.
abbrev pub require : {S : Type 0} → Bool → Exec S (Unit {0})
require passed = if passed then pure tt else abort exited

-- `for (int i = 0; i < rounds; i++)`
unfoldable pub rounds : {S : Type 0} → ℕ → Exec S (Unit {0}) → Exec S (Unit {0})
rounds zero body = pure tt
rounds (suc n) body = do body; rounds n body

module _ {Frag Frags : Type 0} (net : Smoltcp Frag Frags) (fuel : ℕ) (d : TestData) where
  abbrev Test : Type 0
  Test = Exec (State Frags Driver) (Unit {0})

  -- Send, and fail unless the frame came out unchanged, or unless it did not.
  unfoldable pub sends : Packet → Test
  sends p = do same ← send_and_test_packet net fuel p; require same

  unfoldable pub sends_nothing : Packet → Test
  sends_nothing p = do same ← send_and_test_packet net fuel p; require (not same)

  unfoldable pub sends_some : Packet → Test
  sends_some p = do send_and_test_packet net fuel p; pure tt

  -- Receive, and fail unless the frame arrives with the value 0; unless none does, with -1; unless
  -- it is not this one.
  unfoldable pub receives : Packet → Test
  receives p = do
    answer ← receive_and_test_packet net fuel p
    require (answer.0 && is_zero answer.1)

  unfoldable pub receives_nothing : Packet → Test
  receives_nothing p = do
    answer ← receive_and_test_packet net fuel p
    require (not answer.0 && is_minus_one answer.1)

  unfoldable pub receives_other : Packet → Test
  receives_other p = do answer ← receive_and_test_packet net fuel p; require (not answer.0)

  unfoldable pub receives_some : Packet → Test
  receives_some p = do receive_and_test_packet net fuel p; pure tt

  -- Lines 175 to 290.
  unfoldable pub transmit_test : Test
  transmit_test = do
    sends d.ping
    sends d.arp
    sends_nothing d.multicast_report
    sends d.udp_1
    sends_some d.udp_frag1
    sends_some d.udp_frag2
    sends d.udp_frag3
    rounds 20 (do sends_some d.udp_frag1; sends_some d.udp_frag2; sends_some d.udp_frag3)
    sends_some d.udp_frag_5k_1
    sends_some d.udp_frag_5k_2
    sends_some d.udp_frag_5k_3
    sends d.udp_frag_5k_4
    rounds 20 (do
      sends_some d.udp_frag_5k_1
      sends_some d.udp_frag_5k_2
      sends_some d.udp_frag_5k_3
      sends_some d.udp_frag_5k_4
      sends d.ping)

  -- So many calls of `client_rx`, with what is left in `len` passed on.
  unfoldable pub drain_calls : ℕ → ℤ → Test
  drain_calls zero len = pure tt
  drain_calls (suc n) len = do answer ← client_rx net test_externs fuel len; drain_calls n answer.1

  -- Four calls with nothing to receive.
  unfoldable pub drain : Test
  unfolding drain_calls
  drain = do set_ret net fuel minus_one; drain_calls 4 (pos 0); set_ret net fuel (pos 0)

  -- Lines 292 to 381.
  unfoldable pub receive_test : Test
  receive_test = do
    receives d.ping
    receives d.arp
    receives_nothing d.multicast_report
    receives d.udp_1
    receives_nothing d.udp_frag1
    receives_nothing d.udp_frag2
    receives_other d.udp_frag3
    receives_some d.udp_1
    drain

  -- Lines 383 to 429.
  unfoldable pub fragment_rounds : Test
  fragment_rounds = rounds 20 (do
    receives_nothing d.udp_frag1
    receives_nothing d.udp_frag2
    receives_other d.udp_frag3
    drain)

  -- Lines 431 to 497.
  unfoldable pub large_fragment_rounds : Test
  large_fragment_rounds = rounds 20 (do
    receives_nothing d.udp_frag_5k_2
    receives_nothing d.udp_frag_5k_1
    receives_other d.udp_frag_5k_4
    receives_other d.udp_frag_5k_3
    drain
    receives d.ping)

  -- Lines 500 to 511, behind an `exit(1)`.
  unfoldable pub unreached_rounds : Test
  unreached_rounds =
      rounds 20 (do receives_some d.udp_frag1; receives_some d.udp_frag2; receives_some d.udp_frag3)

  unfoldable pub main : Test
  main = do
    transmit_test
    receive_test
    fragment_rounds
    large_fragment_rounds
    abort {A = Unit {0}} exited
    unreached_rounds
