-- ===== src/Harness/Verdict.antt =====
-- What the test program's exit status says.
use rustwall.Base.{ℕ}
use rustwall.Exec.{exited, abort}
use rustwall.Exec.Inversion.{NoReturn, after-NoReturn, before-NoReturn, abort-NoReturn}
use rustwall.Smoltcp.{Smoltcp}
use rustwall.Harness.Script.{
  TestData, main, transmit_test, receive_test, fragment_rounds, large_fragment_rounds,
  unreached_rounds,
}

-- Whatever smoltcp, the arrays and the firewall do, `main` of the tests never returns, and so never
-- reports success.
pub main-NoReturn :
    {Frag Frags : Type 0} (net : Smoltcp Frag Frags) (fuel : ℕ) (d : TestData)
    → NoReturn (main net fuel d)
unfolding main
main-NoReturn net fuel d = after-NoReturn (transmit_test net fuel d) _ (
    after-NoReturn (receive_test net fuel d) _ (
      after-NoReturn (fragment_rounds net fuel d) _ (
        after-NoReturn (large_fragment_rounds net fuel d) _ (
          before-NoReturn (abort exited) (λ _. unreached_rounds net fuel d)
            (abort-NoReturn (Unit {0}) exited)))))
