-- ===== src/Exec/Inversion.antt =====
-- What a computation that returned did on the way.
use rustwall.Base.{◌≡◌, ◌≢◌, refl, ◌⊎◌, inl, inr, arith}
use rustwall.Exec.{
  Error, Outcome, ret, fail, crash, Exec, Result, ok, err, lift, continue, abort, Crash, ◌>>=◌,
  ◌>>◌,
}

module _ {S A B : Type 0} where
  pub continue-eq-ret :
      (o : Outcome S A) (f : A → Exec S B) {b : B} {t : S}
      → continue o f ≡ ret b t
      → (a : A) × (u : S) × (o ≡ ret a u) × (f a u ≡ ret b t)
  continue-eq-ret (ret a u) f h = (a, u, refl, h)
  continue-eq-ret (fail e u) f h = cc
  continue-eq-ret (crash c) f h = cc

module _ {S A : Type 0} where
  pub lift-eq-ret :
      (r : Result A) (s : S) {a : A} {t : S} → lift r s ≡ ret a t → (r ≡ ok a) × (t ≡ s)
  lift-eq-ret (ok a) s h = (ground arith, ground arith)
  lift-eq-ret (err e) s h = cc

pub Result-cases :
    {A : Type 0} (r : Result A) → ((a : A) × (r ≡ ok a)) ⊎ ((e : Error) × (r ≡ err e))
Result-cases (ok a) = inl (a, refl)
Result-cases (err e) = inr (e, refl)

abbrev pub NoReturn : {S A : Type 0} → Exec S A → Type 0
NoReturn {S} {A} m = (a : A) (s t : S) → m s ≢ ret a t

-- A sequence does not return if a part of it does not.
pub after-NoReturn : {S A B : Type 0} (m : Exec S A) (n : Exec S B) → NoReturn n → NoReturn (m >> n)
after-NoReturn m n h b s t e =
    let (a, u, _, last) = continue-eq-ret (m s) (λ _. n) e in h b u t last

pub before-NoReturn :
    {S A B : Type 0} (m : Exec S A) (n : A → Exec S B) → NoReturn m → NoReturn (m >>= n)
before-NoReturn m n h b s t e = let (a, u, first, _) = continue-eq-ret (m s) n e in h a s u first

pub abort-NoReturn : {S : Type 0} (A : Type 0) (c : Crash) → NoReturn (abort {S = S} {A = A} c)
abort-NoReturn A c a s t e = cc

pub ret-value : {S A : Type 0} {a b : A} {s t : S} → ret a s ≡ ret b t → a ≡ b
ret-value h = ground arith

pub ret-state : {S A : Type 0} {a b : A} {s t : S} → ret a s ≡ ret b t → s ≡ t
ret-state h = ground arith

pub continue-continue :
    {S A B C : Type 0} (o : Outcome S A) (f : A → Exec S B) (g : B → Exec S C)
    → continue (continue o f) g ≡ continue o (λ a. f a >>= g)
continue-continue (ret a s) f g = refl
continue-continue (fail e s) f g = refl
continue-continue (crash c) f g = refl
