-- ===== src/Reassembly/Slots.antt =====
-- What becomes of the slot that a fragment goes to.
use rustwall.Base.{
  ℕ, ◌+◌, ◌%◌, ◌^◌, ◌≡◌, ◌⊎◌, inl, inr, refl, sym, subst, Bytes, true, false, Option, none, some,
  length, ◌==◌, if◌then◌else◌, arith, Bool-cases, Option-cases,
}
use rustwall.Exec.{
  Result, ok, err, Error, Outcome, ret, fail, crash, panic, fragment_set_full, too_many_fragments,
}
use rustwall.Exec.Inversion.{Result-cases}
use rustwall.Smoltcp.{Smoltcp, Borrow}
use rustwall.Reassembly.{
  give_back, begin_fragment, add_fragment, assemble_front, assemble, use_fragment,
  process_ipv4_fragment,
}

module _ {Frag Frags : Type 0} (net : Smoltcp Frag Frags) where
  -- The slot before the fragment is added: a new one is started with the packet's identity, and the
  -- last fragment sets its length.
  abbrev pub begun : Bytes → Frag → Frag
  begun packet f =
      let mine =
        if net.is_empty f
        then net.start f (net.ip_ident packet) (net.ip_src_addr packet) (net.ip_dst_addr packet)
        else f in
      if net.ip_more_frags packet
      then mine
      else net.set_total_len mine (net.ip_frag_offset packet + net.ip_total_len packet)

  -- smoltcp's answer to the fragment, and the slot after it.
  abbrev pub adding : Bytes → ℕ → Frag → Result (Unit {0}) × Frag
  adding packet ts f =
      net.add (begun packet f) (net.ip_header_len packet) (net.ip_frag_offset packet)
        (length (net.ip_payload packet)) packet ts

  -- The first `n` bytes of a slot, with the length and the checksum of their header set.
  abbrev pub whole : ℕ → Frag → Frag
  whole n f =
      net.set_buffer f 0 n
        (net.ip_fill_checksum (net.ip_set_total_len (n % 2 ^ 16) (net.get_buffer f 0 n)))

  -- A whole packet came out of the slot `f`, and `g` is left of it.
  pub record Assembled (f : Frag) (bytes : Bytes) (g : Frag) : Type 0 where
    pub n : ℕ
    pub contiguous : net.check_contig_range f ≡ true
    pub front : net.front f ≡ some n
    pub header : net.ip_check_len (net.get_buffer f 0 n) ≡ ok tt
    pub content : bytes ≡ net.get_buffer (whole n f) 0 n
    pub size : length bytes ≡ n
    pub reset : g ≡ net.reset (whole n f)

  -- The slot `f` holds all of a packet whose header is wrong, and stays as it is.
  pub record Misheaded (f : Frag) (e : Error) (g : Frag) : Type 0 where
    pub n : ℕ
    pub contiguous : net.check_contig_range f ≡ true
    pub front : net.front f ≡ some n
    pub header : net.ip_check_len (net.get_buffer f 0 n) ≡ err e
    pub stays : g ≡ f

  -- The ways out after a fragment was added to a slot, which is then `f`.
  abbrev pub After : Frag → Outcome Frag (Option Bytes) → Type 0
  After f (ret (some bytes) g) = Assembled f bytes g
  After f (ret none g) = (g ≡ f) × ((net.check_contig_range f ≡ false) ⊎ (net.front f ≡ none))
  After f (fail e g) = Misheaded f e g
  After f (crash c) = c ≡ panic

  pub header_set :
      (n : ℕ) (f : Frag)
      → net.ip_check_len (net.get_buffer f 0 n) ≡ ok tt
      → assemble_front net n f ≡ (
          if length (net.get_buffer (whole n f) 0 n) == n
          then ret (some (net.get_buffer (whole n f) 0 n)) (net.reset (whole n f))
          else crash panic)
  unfolding assemble_front
  header_set n f header = ground arith

  header_wrong :
      (n : ℕ) (f : Frag) (e : Error)
      → net.ip_check_len (net.get_buffer f 0 n) ≡ err e
      → assemble_front net n f ≡ fail e f
  unfolding assemble_front
  header_wrong n f e header = ground arith

  by_header :
      (n : ℕ) (f : Frag)
      → net.check_contig_range f ≡ true
      → net.front f ≡ some n
      → After f (assemble_front net n f)
  by_header n f contiguous front = elim (Result-cases (net.ip_check_len (net.get_buffer f 0 n))) [
    | inl (_, header) ↦ elim (Bool-cases (length (net.get_buffer (whole n f) 0 n) == n)) [
      | inl size ↦
          rw (header_set n f header, size)
            (record {
              n = n;
              contiguous = contiguous;
              front = front;
              header = header;
              content = refl;
              size = ground arith;
              reset = refl;
            })
      | inr other ↦ rw (header_set n f header, other) refl
    ]
    | inr (e, header) ↦
        rw (header_wrong n f e header)
          (record { n = n; contiguous = contiguous; front = front; header = header; stays = refl })
  ]

  by_content : (f : Frag) → After f (assemble net f)
  unfolding assemble
  by_content f = elim (Bool-cases (net.check_contig_range f)) [
    | inl contiguous ↦ elim (Option-cases (net.front f)) [
      | inl nothing ↦ rw (contiguous, nothing) (refl, inr nothing)
      | inr (n, front) ↦ rw (contiguous, front) (by_header n f contiguous front)
    ]
    | inr partial ↦ rw partial (refl, inl partial)
  ]

  begin_lem : (packet : Bytes) (f : Frag) → begin_fragment net packet f ≡ ret tt (begun packet f)
  unfolding begin_fragment
  begin_lem packet f = elim (Bool-cases (net.is_empty f)) [
    | inl new ↦ elim (Bool-cases (net.ip_more_frags packet)) [
      | inl more ↦ simp (new, more)
      | inr last ↦ simp (new, last)
    ]
    | inr old ↦ elim (Bool-cases (net.ip_more_frags packet)) [
      | inl more ↦ simp (old, more)
      | inr last ↦ simp (old, last)
    ]
  ]

  -- The ways out of a call with a slot, by smoltcp's answer to the fragment.
  abbrev pub InSlot : Result (Unit {0}) → Frag → Outcome Frag (Option Bytes) → Type 0
  InSlot (ok _) g o = After g o
  InSlot (err x) g o = o ≡ fail too_many_fragments (net.reset g)

  pub taken_lem :
      (packet : Bytes) (ts : ℕ) (f : Frag)
      → (adding packet ts f).0 ≡ ok tt
      → use_fragment net packet ts f ≡ assemble net (adding packet ts f).1
  unfolding use_fragment add_fragment
  taken_lem packet ts f e = rw (begin_lem packet f) (ground arith)

  refused_lem :
      (packet : Bytes) (ts : ℕ) (f : Frag) (x : Error)
      → (adding packet ts f).0 ≡ err x
      → use_fragment net packet ts f ≡ fail too_many_fragments (net.reset (adding packet ts f).1)
  unfolding use_fragment add_fragment
  refused_lem packet ts f x e = rw (begin_lem packet f) (ground arith)

  by_adding :
      (packet : Bytes) (ts : ℕ) (f : Frag)
      → InSlot (adding packet ts f).0 (adding packet ts f).1 (use_fragment net packet ts f)
  by_adding packet ts f = elim (Result-cases (adding packet ts f).0) [
    | inl (_, taken) ↦
        subst (λ a. InSlot a (adding packet ts f).1 (use_fragment net packet ts f)) (sym taken)
          (subst (After (adding packet ts f).1) (sym (taken_lem packet ts f taken)) (by_content _))
    | inr (x, refused) ↦
        subst (λ a. InSlot a (adding packet ts f).1 (use_fragment net packet ts f)) (sym refused)
          (refused_lem packet ts f x refused)
  ]

  -- The ways out of the whole, by the slot that the set has for the fragment.
  abbrev pub Fate :
      Bytes → ℕ → Option (Borrow Frag Frags) → Frags → Outcome Frags (Option Bytes) → Type 0
  Fate packet ts none set o = o ≡ fail fragment_set_full set
  Fate packet ts (some slot) set o =
      (p : Outcome Frag (Option Bytes)) × (o ≡ give_back slot.give_back p)
      × InSlot (adding packet ts slot.fragment).0 (adding packet ts slot.fragment).1 p

  -- The set's answer to the fragment.
  abbrev pub slot_for : Bytes → ℕ → Frags → Option (Borrow Frag Frags) × Frags
  slot_for packet ts set =
      net.get_packet set (net.ip_ident packet) (net.ip_src_addr packet) (net.ip_dst_addr packet) ts

  full_lem :
      (packet : Bytes) (ts : ℕ) (set : Frags)
      → (slot_for packet ts set).0 ≡ none
      → process_ipv4_fragment net packet ts set ≡ fail fragment_set_full (slot_for packet ts set).1
  unfolding process_ipv4_fragment
  full_lem packet ts set e = ground arith

  pub found_lem :
      (packet : Bytes) (ts : ℕ) (set : Frags) (slot : Borrow Frag Frags)
      → (slot_for packet ts set).0 ≡ some slot
      → process_ipv4_fragment net packet ts set
        ≡ give_back slot.give_back (use_fragment net packet ts slot.fragment)
  unfolding process_ipv4_fragment
  found_lem packet ts set slot e = ground arith

  -- `process_ipv4_fragment` fails if the set has no slot for the fragment. A slot that refuses it is
  -- given back reset, and the call fails. A slot that takes it is given back with it, with no packet,
  -- unless it now holds all of one; then the call returns the packet, as long as the slot says, and
  -- gives the slot back reset, or panics; but if the packet's header is wrong the call fails and the
  -- slot stays.
  pub process_ipv4_fragment-Fate :
      (packet : Bytes) (ts : ℕ) (set : Frags)
      → Fate packet ts
          (slot_for packet ts set).0
          (slot_for packet ts set).1
          (process_ipv4_fragment net packet ts set)
  process_ipv4_fragment-Fate packet ts set = elim (Option-cases (slot_for packet ts set).0) [
    | inl full ↦
        subst
          (λ a.
            Fate packet ts a (slot_for packet ts set).1 (process_ipv4_fragment net packet ts set))
          (sym full) (full_lem packet ts set full)
    | inr (slot, found) ↦
        subst
          (λ a.
            Fate packet ts a (slot_for packet ts set).1 (process_ipv4_fragment net packet ts set))
          (sym found)
          (
            use_fragment net packet ts slot.fragment,
            found_lem packet ts set slot found,
            by_adding packet ts slot.fragment,
          )
  ]
