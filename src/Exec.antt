-- ===== src/Exec.antt =====
-- What a call of the Rust code comes to: a value, a `smoltcp::Error`, or no return at all. The state
-- comes back with a value and with an error, since what was written before an error stays written.
pub mod Keeps
pub mod Inversion
pub mod Safe
use rustwall.Base.{ℕ}

-- The errors that the source names; `library` stands for every other error of smoltcp.
pub data Error : Type 0 where
  fragmented fragment_set_full too_many_fragments dropped unrecognized : Error
  library : ℕ → Error

-- `smoltcp::Result`.
pub data Result {ℓ} (A : Type ℓ) : Type ℓ where
  ok : A → Result A
  err : Error → Result A

-- Why a call does not return: a failed `assert!`, index or overflow check; a second lock of a mutex
-- that is held; memory read or written outside its allocation; `exit` called by the C side; a loop
-- that has used up its rounds.
pub data Crash : Type 0 where
  panic deadlock fault exited hang : Crash

pub data Outcome (S A : Type 0) : Type 0 where
  ret : A → S → Outcome S A
  fail : Error → S → Outcome S A
  crash : Crash → Outcome S A

abbrev pub Exec : Type 0 → Type 0 → Type 0
Exec S A = S → Outcome S A

module _ {S A : Type 0} where
  abbrev pub pure : A → Exec S A
  pure a s = ret a s

  abbrev pub raise : Error → Exec S A
  raise e s = fail e s

  abbrev pub abort : Crash → Exec S A
  abort c s = crash c

  abbrev pub lift : Result A → Exec S A
  lift (ok a) s = ret a s
  lift (err e) s = fail e s

  abbrev pub gets : (S → A) → Exec S A
  gets f s = ret (f s) s

abbrev pub modify : {S : Type 0} → (S → S) → Exec S (Unit {0})
modify f s = ret tt (f s)

module _ {S A B : Type 0} where
  abbrev pub continue : Outcome S A → (A → Exec S B) → Outcome S B
  continue (ret a s) f = f a s
  continue (fail e s) f = fail e s
  continue (crash c) f = crash c

  infixl 10 ◌>>=◌ ◌>>◌
  abbrev pub ◌>>=◌ : Exec S A → (A → Exec S B) → Exec S B
  ◌>>=◌ m f s = continue (m s) f

  abbrev pub ◌>>◌ : Exec S A → Exec S B → Exec S B
  ◌>>◌ m n s = continue (m s) (λ _. n)
