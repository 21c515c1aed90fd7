-- ===== src/Exec/Safe.antt =====
-- A predicate that a computation keeps, and the crashes that it may end in.
use rustwall.Base.{arith, Bool, true, false, if◌then◌else◌}
use rustwall.Exec.{
  Outcome, ret, fail, crash, Exec, Crash, deadlock, pure, gets, modify, continue, ◌>>=◌, ◌>>◌,
}
use rustwall.Exec.Keeps.{Frame, Keeps, Ends, Ends-weaken, Allowed}

-- From a state with `P`, `m` ends in one with `P` or crashes as `C` allows.
pub record Safe {S A : Type 0} (C : Crash → Type 0) (P : S → Type 0) (m : Exec S A) : Type 0 where
  pub at : (s : S) → P s → Ends C P (m s)

-- Every crash but a deadlock.
abbrev pub NoDeadlock : Crash → Type 0
NoDeadlock deadlock = ⊥
NoDeadlock _ = Unit

pub live-NoDeadlock : (c : Crash) → Allowed ⊥ c → NoDeadlock c
live-NoDeadlock c h = ground arith

module _ {S A B : Type 0} (C : Crash → Type 0) (P : S → Type 0) where
  pub Ends-continue :
      (o : Outcome S A) (f : A → Exec S B)
      → Ends C P o
      → ((a : A) (t : S) → P t → Ends C P (f a t))
      → Ends C P (continue o f)
  Ends-continue (ret a t) f p k = k a t p
  Ends-continue (fail e t) f p k = p
  Ends-continue (crash c) f p k = p

module _ {S A B : Type 0} {C : Crash → Type 0} {P : S → Type 0} where
  pub Safe-bind :
      (m : Exec S A) (f : A → Exec S B)
      → Safe C P m
      → ((a : A) → Safe C P (f a))
      → Safe C P (m >>= f)
  Safe-bind m f km kf = record {
    at = λ s h. Ends-continue C P (m s) f (km.at s h) (λ a. (kf a).at);
  }

  pub Safe-then : (m : Exec S A) (n : Exec S B) → Safe C P m → Safe C P n → Safe C P (m >> n)
  Safe-then m n km kn = record {
    at = λ s h. Ends-continue C P (m s) (λ _. n) (km.at s h) (λ _. kn.at);
  }

module _ {S A : Type 0} {C : Crash → Type 0} {P : S → Type 0} where
  pub Safe-pure : (a : A) → Safe C P (pure a)
  Safe-pure a = record { at = λ s h. h }

  pub Safe-gets : (f : S → A) → Safe C P (gets f)
  Safe-gets f = record { at = λ s h. h }

  pub Safe-if :
      (b : Bool) (m n : Exec S A) → Safe C P m → Safe C P n → Safe C P (if b then m else n)
  Safe-if true m n km kn = km
  Safe-if false m n km kn = kn

pub Safe-modify :
    {S : Type 0} {C : Crash → Type 0} {P : S → Type 0} (f : S → S)
    → ((s : S) → P s → P (f s))
    → Safe C P (modify f)
Safe-modify f h = record { at = h }

-- What a frame keeps is safe for the predicates that its relation carries along.
pub Safe-Keeps :
    {S A : Type 0} {C : Crash → Type 0} {P : S → Type 0} {F : Frame S} (m : Exec S A)
    → ((c : Crash) → Allowed F.Stuck c → C c)
    → ((s t : S) → F.Rel s t → P s → P t)
    → Keeps F m
    → Safe C P m
Safe-Keeps {C = C} {P = P} {F = F} m k h keeps = record {
  at = λ s p. Ends-weaken (Allowed F.Stuck) C (F.Rel s) P (m s) k (λ t r. h s t r p) (keeps.at s);
}

pub Safe-weaken :
    {S A : Type 0} {C D : Crash → Type 0} {P : S → Type 0} {m : Exec S A}
    → ((c : Crash) → C c → D c)
    → Safe C P m
    → Safe D P m
Safe-weaken {C = C} {D = D} {P = P} {m = m} k safe = record {
  at = λ s p. Ends-weaken C D P P (m s) k (λ t h. h) (safe.at s p);
}

-- Two predicates at once, with the crashes of the first.
pub Ends-both :
    {S A : Type 0} (C D : Crash → Type 0) (P Q : S → Type 0) (o : Outcome S A)
    → Ends C P o
    → Ends D Q o
    → Ends C (λ t. P t × Q t) o
Ends-both C D P Q (ret a t) p q = (p, q)
Ends-both C D P Q (fail e t) p q = (p, q)
Ends-both C D P Q (crash c) p q = p

pub ruleset safe_rules = (Safe-pure, Safe-gets, Safe-if, Safe-bind, Safe-then)
