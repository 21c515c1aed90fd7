-- ===== src/Ipv4/Offer.antt =====
-- `process_ipv4` on the fragments of a datagram, one frame after the other.
use rustwall.Base.{
  ℕ, suc, ◌+◌, ◌^◌, ◌<◌, ◌≡◌, refl, sym, ap, ◌∙◌, subst, Bytes, none, some, Option, List, [], ◌∷◌,
  ◌++◌, All, map, length, arith,
}
use mathlib.Core.List.{append-nil}
use rustwall.Exec.{Exec, Outcome, ret, fail, crash, fragmented, pure, continue, ◌>>=◌}
use rustwall.Exec.Inversion.{continue-eq-ret, ret-state}
use rustwall.Smoltcp.{Smoltcp}
use rustwall.Externs.{Filter}
use rustwall.State.{State, Side, fragments}
use rustwall.Reassembly.{process_ipv4_fragment}
use rustwall.Reassembly.Feed.{feed, answers_of}
use rustwall.Ipv4.{process_ipv4}
use rustwall.Ipv4.Fragmented.{
  IsFragmentFrame, ticked, later, fragments-ticked, ms-ticked, later-ticked, go_on, fragment_lem,
}

abbrev pub or_none : {S : Type 0} → Outcome S (List Bytes) → Outcome S (List Bytes)
or_none (ret frames s) = ret frames s
or_none (fail e s) = ret [] s
or_none (crash c) = crash c

module _ {Frag Frags W : Type 0} (net : Smoltcp Frag Frags) (side : Side) (filter : Filter W) where
  -- One frame after the other, each on its own: an error only ends the frame that it is about. What
  -- is let through.
  unfoldable pub offer : List Bytes → Exec (State Frags W) (List Bytes)
  offer [] = pure []
  offer (frame ∷ frames) = do
    first ← (λ s. or_none (process_ipv4 net side filter frame s))
    rest ← offer frames
    pure (first ++ rest)

-- The last of them, in front of which the first stands.
abbrev pub last_of : Bytes → List Bytes → Bytes
last_of p [] = p
last_of p (q ∷ ps) = last_of q ps

module _ {Frag Frags W : Type 0} (net : Smoltcp Frag Frags) (side : Side) (filter : Filter W) where
  alone :
      (o : Outcome (State Frags W) (List Bytes))
      → continue (or_none o) (λ first. pure (first ++ [])) ≡ or_none o
  alone (ret frames s) = ap (λ a. ret a s) (append-nil frames)
  alone (fail e s) = refl
  alone (crash c) = refl

  nothing : (o : Outcome (State Frags W) (List Bytes)) → continue o (λ rest. pure ([] ++ rest)) ≡ o
  nothing (ret frames s) = refl
  nothing (fail e s) = refl
  nothing (crash c) = refl

  feed-eq-ret :
      (p : Bytes) (ps : List Bytes) (ts : ℕ) (set set' : Frags) (a : Option Bytes)
      (rest : List (Option Bytes))
      → feed net ts (p ∷ ps) set ≡ ret (a ∷ rest) set'
      → (set1 : Frags) × (process_ipv4_fragment net p ts set ≡ ret a set1)
        × (feed net (suc ts) ps set1 ≡ ret rest set')
  unfolding feed
  feed-eq-ret p ps ts set set' a rest e =
      let (a', set1, first, e1) = continue-eq-ret (process_ipv4_fragment net p ts set) _ e in
      let (rest', set2, fed, e2) = continue-eq-ret (feed net (suc ts) ps set1) _ e1 in
      (set1, ground arith, ground arith)

  fed_none : (ts : ℕ) (set set' : Frags) → feed net ts [] set ≡ ret [] set' → set ≡ set'
  unfolding feed
  fed_none ts set set' e = ret-state e

  offer_cons :
      (frame : Bytes) (frames : List Bytes) (s : State Frags W)
      (o : Outcome (State Frags W) (List Bytes))
      → process_ipv4 net side filter frame s ≡ o
      → offer net side filter (frame ∷ frames) s
        ≡ continue
            (or_none o)
            (λ first. offer net side filter frames >>= λ rest. pure (first ++ rest))
  unfolding offer
  offer_cons frame frames s o e =
      ap
        (λ x.
          continue (or_none x)
            (λ first. offer net side filter frames >>= λ rest. pure (first ++ rest)))
        e

  offer_nil : (s : State Frags W) → offer net side filter [] s ≡ ret [] s
  unfolding offer
  offer_nil s = refl

  offer_one :
      (frame : Bytes) (s : State Frags W)
      → offer net side filter (frame ∷ []) s ≡ or_none (process_ipv4 net side filter frame s)
  unfolding offer
  offer_one frame s = alone _

  -- The frames of fragments that come back whole, one after the other: until the last one, nothing
  -- is let through; with that, what is made of the whole.
  pub offer_lem :
      (wrap : Bytes → Bytes) (p : Bytes) (ps : List Bytes) (whole : Bytes) (set' : Frags)
      (s : State Frags W)
      → All (λ q. IsFragmentFrame net (wrap q) q) (p ∷ ps)
      → s.ms + length (p ∷ ps) < 2 ^ 63
      → feed net (s.ms + 1) (p ∷ ps) (fragments side s) ≡ ret (answers_of whole (p ∷ ps)) set'
      → offer net side filter (map wrap (p ∷ ps)) s
        ≡ or_none (
            go_on net side filter (wrap (last_of p ps)) whole (later side (length (p ∷ ps)) set' s))
  offer_lem wrap p [] whole set' s (h, _) room e =
      let (set1, first, fed) =
        feed-eq-ret p [] (s.ms + 1) (fragments side s) set' (some whole) [] e in
      let first' : process_ipv4_fragment net p (s.ms + 1) (fragments side s)
          ≡ ret (some whole) set' =
        first ∙ ap (ret (some whole)) (fed_none _ set1 set' fed) in
      offer_one (wrap p) s
      ∙ ap or_none (fragment_lem net side filter (wrap p) p set' (some whole) s room h first')
  offer_lem wrap p (q ∷ ps) whole set' s (h, hs) room e =
      let (set1, first, fed) =
        feed-eq-ret p (q ∷ ps) (s.ms + 1) (fragments side s) set' none (answers_of whole (q ∷ ps))
          e in
      let clock : suc (s.ms + 1) ≡ (ticked side set1 s).ms + 1 =
        omega (arith, ms-ticked side set1 s) in
      let fed' : feed net ((ticked side set1 s).ms + 1) (q ∷ ps)
            (fragments side (ticked side set1 s))
          ≡ ret (answers_of whole (q ∷ ps)) set' =
        subst
          (λ n.
            feed net n (q ∷ ps) (fragments side (ticked side set1 s))
            ≡ ret (answers_of whole (q ∷ ps)) set')
          clock
          (subst
            (λ set. feed net (suc (s.ms + 1)) (q ∷ ps) set ≡ ret (answers_of whole (q ∷ ps)) set')
            (sym (fragments-ticked side set1 s)) fed) in
      offer_cons (wrap p) (map wrap (q ∷ ps)) s (fail fragmented (ticked side set1 s))
        (fragment_lem net side filter (wrap p) p set1 none s (omega (arith, room)) h first)
      ∙ nothing (offer net side filter (map wrap (q ∷ ps)) (ticked side set1 s))
      ∙ offer_lem wrap q ps whole set' (ticked side set1 s) hs
          (omega (arith, room, ms-ticked side set1 s)) fed'
      ∙ ap (λ t. or_none (go_on net side filter (wrap (last_of q ps)) whole t))
          (later-ticked side (suc (length ps)) set1 set' s)
