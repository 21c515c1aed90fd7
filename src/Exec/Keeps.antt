-- ===== src/Exec/Keeps.antt =====
-- What a computation keeps, whether it returns or fails: a reflexive and transitive relation from
-- the state before it to the state after it, with one rule for each way to build a computation.
-- A frame says too whether the computation may be stuck, in a deadlock or a loop without rounds.
use rustwall.Base.{◌≡◌, refl, ◌∙◌, Bool, true, false, if◌then◌else◌}
use rustwall.Exec.{
  Outcome, ret, fail, crash, Exec, Error, Crash, Result, ok, err, pure, raise, abort, lift, gets,
  modify, continue, ◌>>=◌, ◌>>◌, panic, deadlock, fault, exited, hang,
}

pub record Frame (S : Type 0) : Type 1 where
  pub Rel : S → S → Type 0
  pub Rel_refl : (s : S) → Rel s s
  pub Rel_trans : (s t u : S) → Rel s t → Rel t u → Rel s u
  -- what a deadlock or a loop without rounds would prove
  pub Stuck : Type 0

-- A part of the state is the same after as before.
abbrev pub unchanged : {S B : Type 0} → (S → B) → Frame S
unchanged f = record {
  Rel = λ s t. f t ≡ f s;
  Rel_refl = λ s. refl;
  Rel_trans = λ s t u p q. q ∙ p;
  Stuck = Unit;
}

-- Nothing is said but that the computation is not stuck.
abbrev pub unstuck : (S : Type 0) → Frame S
unstuck S = record { Rel = λ s t. Unit; Rel_refl = λ s. tt; Rel_trans = λ s t u p q. tt; Stuck = ⊥ }

abbrev pub Allowed : Type 0 → Crash → Type 0
Allowed B deadlock = B
Allowed B hang = B
Allowed B _ = Unit

-- The state satisfies `P` where the computation ends, and a crash is one of those in `C`.
abbrev pub Ends : {S A : Type 0} → (Crash → Type 0) → (S → Type 0) → Outcome S A → Type 0
Ends C P (ret a t) = P t
Ends C P (fail e t) = P t
Ends C P (crash c) = C c

abbrev pub After : {S A : Type 0} → (S → Type 0) → Outcome S A → Type 0
After P o = Ends (λ _. Unit) P o

pub record Keeps {S A : Type 0} (F : Frame S) (m : Exec S A) : Type 0 where
  pub at : (s : S) → Ends (Allowed F.Stuck) (F.Rel s) (m s)

module _ {S A : Type 0} {F : Frame S} where
  pub Keeps-pure : (a : A) → Keeps F (pure a)
  Keeps-pure a = record { at = λ s. F.Rel_refl s }

  pub Keeps-raise : (e : Error) → Keeps F (raise {A = A} e)
  Keeps-raise e = record { at = λ s. F.Rel_refl s }

  pub Keeps-panic : Keeps F (abort {A = A} panic)
  Keeps-panic = record { at = λ s. tt }

  pub Keeps-fault : Keeps F (abort {A = A} fault)
  Keeps-fault = record { at = λ s. tt }

  pub Keeps-exited : Keeps F (abort {A = A} exited)
  Keeps-exited = record { at = λ s. tt }

  pub Keeps-stuck : (c : Crash) → F.Stuck → Keeps F (abort {A = A} c)
  Keeps-stuck c h = record { at = λ s. by_crash c }
    where
      by_crash : (c : Crash) → Allowed F.Stuck c
      by_crash deadlock = h
      by_crash hang = h
      by_crash panic = tt
      by_crash fault = tt
      by_crash exited = tt

  pub Keeps-gets : (f : S → A) → Keeps F (gets f)
  Keeps-gets f = record { at = λ s. F.Rel_refl s }

  pub Keeps-lift : (r : Result A) → Keeps F (lift r)
  Keeps-lift (ok a) = record { at = λ s. F.Rel_refl s }
  Keeps-lift (err e) = record { at = λ s. F.Rel_refl s }

  pub Keeps-if : (b : Bool) (m n : Exec S A) → Keeps F m → Keeps F n → Keeps F (if b then m else n)
  Keeps-if true m n km kn = km
  Keeps-if false m n km kn = kn

  -- With what the test says.
  pub Keeps-test :
      (b : Bool) (m n : Exec S A)
      → (b ≡ true → Keeps F m)
      → (b ≡ false → Keeps F n)
      → Keeps F (if b then m else n)
  Keeps-test true m n km kn = km refl
  Keeps-test false m n km kn = kn refl

pub Keeps-modify :
    {S : Type 0} {F : Frame S} (f : S → S) → ((s : S) → F.Rel s (f s)) → Keeps F (modify f)
Keeps-modify f h = record { at = h }

module _ {S A : Type 0} (F : Frame S) where
  pub Ends-trans :
      (s t : S) (o : Outcome S A)
      → F.Rel s t
      → Ends (Allowed F.Stuck) (F.Rel t) o
      → Ends (Allowed F.Stuck) (F.Rel s) o
  Ends-trans s t (ret a u) p q = F.Rel_trans s t u p q
  Ends-trans s t (fail e u) p q = F.Rel_trans s t u p q
  Ends-trans s t (crash c) p q = q

module _ {S A B : Type 0} {F : Frame S} where
  Ends-continue :
      (s : S) (o : Outcome S A) (f : A → Exec S B)
      → Ends (Allowed F.Stuck) (F.Rel s) o
      → ((a : A) → Keeps F (f a))
      → Ends (Allowed F.Stuck) (F.Rel s) (continue o f)
  Ends-continue s (ret a t) f p k = Ends-trans F s t (f a t) p ((k a).at t)
  Ends-continue s (fail e t) f p k = p
  Ends-continue s (crash c) f p k = p

  pub Keeps-bind :
      (m : Exec S A) (f : A → Exec S B) → Keeps F m → ((a : A) → Keeps F (f a)) → Keeps F (m >>= f)
  Keeps-bind m f km kf = record { at = λ s. Ends-continue s (m s) f (km.at s) kf }

  pub Keeps-then : (m : Exec S A) (n : Exec S B) → Keeps F m → Keeps F n → Keeps F (m >> n)
  Keeps-then m n km kn = record { at = λ s. Ends-continue s (m s) (λ _. n) (km.at s) (λ _. kn) }

pub Ends-weaken :
    {S A : Type 0} (C D : Crash → Type 0) (P Q : S → Type 0) (o : Outcome S A)
    → ((c : Crash) → C c → D c)
    → ((t : S) → P t → Q t)
    → Ends C P o
    → Ends D Q o
Ends-weaken C D P Q (ret a t) k h p = h t p
Ends-weaken C D P Q (fail e t) k h p = h t p
Ends-weaken C D P Q (crash c) k h p = k c p

Allowed-weaken : (B D : Type 0) → (B → D) → (c : Crash) → Allowed B c → Allowed D c
Allowed-weaken B D h deadlock p = h p
Allowed-weaken B D h hang p = h p
Allowed-weaken B D h panic p = tt
Allowed-weaken B D h fault p = tt
Allowed-weaken B D h exited p = tt

pub Keeps-weaken :
    {S A : Type 0} {F G : Frame S} {m : Exec S A}
    → ((s t : S) → F.Rel s t → G.Rel s t)
    → (F.Stuck → G.Stuck)
    → Keeps F m
    → Keeps G m
Keeps-weaken {F = F} {G = G} {m = m} h b k = record {
  at = λ s.
      Ends-weaken (Allowed F.Stuck) (Allowed G.Stuck) (F.Rel s) (G.Rel s) (m s)
        (Allowed-weaken F.Stuck G.Stuck b) (h s) (k.at s);
}

pub ruleset keeps_rules = (
  Keeps-pure, Keeps-raise, Keeps-panic, Keeps-fault, Keeps-exited, Keeps-gets, Keeps-lift, Keeps-if,
  Keeps-bind, Keeps-then,
)
