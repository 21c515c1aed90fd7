-- ===== src/Reassembly/Live.antt =====
-- The reassembly of fragments is never stuck.
use rustwall.Base.{ℕ, Bytes, Option, none, some, arith, Bool-cases, Option-cases, inl, inr}
use rustwall.Exec.{fragment_set_full, Outcome, ret, fail, crash}
use rustwall.Exec.Keeps.{Keeps, Ends, Allowed, unstuck, keeps_rules}
use rustwall.Smoltcp.{Smoltcp, Borrow}
use rustwall.Reassembly.{
  give_back, begin_fragment, add_fragment, assemble_front, assemble, use_fragment,
  process_ipv4_fragment,
}

module _ {Frag Frags A : Type 0} where
  give_back-live :
      (put : Frag → Frags) (o : Outcome Frag A)
      → Ends (Allowed ⊥) (λ _. Unit {0}) o
      → Ends (Allowed ⊥) (λ _. Unit {0}) (give_back put o)
  give_back-live put (ret a f) h = tt
  give_back-live put (fail e f) h = tt
  give_back-live put (crash c) h = h

module _ {Frag Frags : Type 0} (net : Smoltcp Frag Frags) where
  begin-live : (packet : Bytes) → Keeps (unstuck Frag) (begin_fragment net packet)
  unfolding begin_fragment
  begin-live packet = search keeps_rules depth 9

  add-live : (packet : Bytes) (ts : ℕ) → Keeps (unstuck Frag) (add_fragment net packet ts)
  unfolding add_fragment
  add-live packet ts = record { at = λ f. ground arith }

  front-live : (n : ℕ) → Keeps (unstuck Frag) (assemble_front net n)
  unfolding assemble_front
  front-live n = record { at = λ f. ground arith }

  assemble-live : Keeps (unstuck Frag) (assemble net)
  unfolding assemble
  assemble-live = record {
    at = λ f. elim (Bool-cases (net.check_contig_range f)) [
      | inl whole ↦ elim (Option-cases (net.front f)) [
        | inl nothing ↦ rw (whole, nothing) tt
        | inr (n, there) ↦ rw (whole, there) ((front-live n).at f)
      ]
      | inr partial ↦ rw partial tt
    ];
  }

  use_fragment-live : (packet : Bytes) (ts : ℕ) → Keeps (unstuck Frag) (use_fragment net packet ts)
  unfolding use_fragment
  use_fragment-live packet ts = search (keeps_rules, begin-live, add-live, assemble-live)

  pub process_ipv4_fragment-Live :
      (packet : Bytes) (ts : ℕ) → Keeps (unstuck Frags) (process_ipv4_fragment net packet ts)
  unfolding process_ipv4_fragment
  process_ipv4_fragment-Live packet ts = record {
    at = λ set.
        let got : Option (Borrow Frag Frags) × Frags =
          net.get_packet set (net.ip_ident packet) (net.ip_src_addr packet) (net.ip_dst_addr packet)
            ts in
        by_found got.1 got.0;
  }
    where
      by_found :
          (set : Frags) (found : Option (Borrow Frag Frags))
          → Ends
              (Allowed ⊥)
              (λ (_ : Frags). Unit {0})
              (elim found [
                | none ↦ fail fragment_set_full set
                | some b ↦ give_back b.give_back (use_fragment net packet ts b.fragment)
              ])
      by_found set none = tt
      by_found set (some b) =
          give_back-live b.give_back _ ((use_fragment-live packet ts).at b.fragment)
