-- ===== src/Tests/Between.antt =====
-- Theorems on what the calls from C leave to one another, at the calls of Tests/Calls.
use rustwall.Base.{Bytes, ℕ, ℤ, some}
use rustwall.Exec.Keeps.{Keeps}
use rustwall.State.{rx, tx}
use rustwall.Buffer.Exchange.{kept_of}
use rustwall.Client.{client_tx, client_rx}
use rustwall.Client.Separation.{beside, client_calls-Separate}
use rustwall.Client.Stored.{Stored, Run-Stored}
use rustwall.Tests.Net.{stand_in}
use rustwall.Tests.Calls.{page, supply, written, some_calls}

client_calls-Separate_example :
    ((n : ℤ) → Keeps (beside Bytes ℕ tx) (client_tx stand_in supply n))
    × ((fuel : ℕ) (len : ℤ) → Keeps (beside Bytes ℕ rx) (client_rx stand_in supply fuel len))
client_calls-Separate_example = client_calls-Separate stand_in supply

Run-Stored_example : Stored (kept_of written)
Run-Stored_example = Run-Stored stand_in supply (some page) (some page) 2 written some_calls
