-- ===== src/Tests/Slots.antt =====
-- A stand-in for smoltcp's fragment sets: slots of a fixed size, found by addresses and identifier,
-- each of which takes the fragments of one packet in their order.
use rustwall.Base.{
  ℕ, suc, ◌+◌, ◌-◌, ◌≤◌, ◌≡◌, refl, ap, ◌∙◌, Bytes, Bool, true, false, Option, none, some, List, [],
  ◌∷◌, ◌++◌, ◌&&◌, ◌==◌, All, All-append, ◌⊎◌, inl, inr, leb, le→leb, if◌then◌else◌, length, take,
  drop, length-append, take_all, take_prefix, arith,
}
use mathlib.Core.List.{append_assoc}
use rustwall.Exec.{Result, ok, err, library}
use rustwall.Constants.{max_reassembled_fragment_size}
use rustwall.Smoltcp.{Smoltcp, Borrow, Ipv4Address}
use rustwall.Reassembly.SetLaws.{SlotLaws}
use rustwall.Tests.Net.{stand_in, payload, header_len, u16_at, length-put_u16}

pub record Key : Type 0 where
  pub id : ℕ
  pub src : Ipv4Address
  pub dst : Ipv4Address

-- A slot: how many bytes it has room for, whose packet it holds, how long that is in all once the
-- last fragment is known, whether it has its first fragment, and the header and the bytes so far.
pub record Slot : Type 0 where
  pub capacity : ℕ
  pub key : Option Key
  pub total : Option ℕ
  pub begun : Bool
  pub bytes : Bytes

abbrev pub blank : ℕ → Slot
blank n = record { capacity = n; key = none; total = none; begun = false; bytes = [] }

abbrev pub same_address : Ipv4Address → Ipv4Address → Bool
same_address a b =
    a.octet_0 == b.octet_0
    && (a.octet_1 == b.octet_1 && (a.octet_2 == b.octet_2 && a.octet_3 == b.octet_3))

abbrev pub same_key : Key → Key → Bool
same_key a b = a.id == b.id && (same_address a.src b.src && same_address a.dst b.dst)

abbrev pub is_for_key : Key → Option Key → Bool
is_for_key k none = false
is_for_key k (some j) = same_key k j

abbrev pub is_for : Key → Slot → Bool
is_for k f = is_for_key k f.key

abbrev pub is_unused : Option Key → Bool
is_unused none = true
is_unused (some k) = false

abbrev pub is_free : Slot → Bool
is_free f = is_unused f.key

abbrev is_full : Option ℕ → ℕ → Bool
is_full none n = false
is_full (some total) n = n == total

abbrev put : Slot → ℕ → ℕ → Bytes → Bytes → Result (Unit {0}) × Slot
put f hdr offset header content =
    if f.begun
    then if length f.bytes == hdr + offset && leb (length f.bytes + length content) f.capacity
      then (ok tt, record f { bytes = f.bytes ++ content })
      else (err (library 1), f)
    else if leb (hdr + length content) f.capacity
    then (ok tt, record f { begun = true; bytes = header ++ content })
    else (err (library 1), f)

abbrev Found : Type 0
Found = Option (Borrow Slot (List Slot))

abbrev under : Slot → Found → Found
under f none = none
under f (some b) = some (record { fragment = b.fragment; give_back = λ g. f ∷ b.give_back g })

abbrev find : (Slot → Bool) → List Slot → Found
find test [] = none
find test (f ∷ fs) =
    let rest = find test fs in
    if test f then some (record { fragment = f; give_back = λ g. g ∷ fs }) else under f rest

abbrev or_else : Found → Found → Found
or_else none b = b
or_else (some a) b = some a

-- The slot in use for the packet, or else the first that is free.
abbrev slot_for : Key → List Slot → Found
slot_for k set = or_else (find (is_for k) set) (find is_free set)

abbrev pub slotted : Smoltcp Slot (List Slot)
slotted = record {
  eth_check_len = stand_in.eth_check_len;
  eth_dst_addr = stand_in.eth_dst_addr;
  eth_ethertype = stand_in.eth_ethertype;
  eth_payload = stand_in.eth_payload;
  is_broadcast = stand_in.is_broadcast;
  is_multicast = stand_in.is_multicast;
  ip_check_len = stand_in.ip_check_len;
  ip_header_len = stand_in.ip_header_len;
  ip_total_len = stand_in.ip_total_len;
  ip_ident = stand_in.ip_ident;
  ip_more_frags = stand_in.ip_more_frags;
  ip_frag_offset = stand_in.ip_frag_offset;
  ip_protocol = stand_in.ip_protocol;
  ip_src_addr = stand_in.ip_src_addr;
  ip_dst_addr = stand_in.ip_dst_addr;
  ip_payload = stand_in.ip_payload;
  ip_parse = stand_in.ip_parse;
  ip_buffer_len = stand_in.ip_buffer_len;
  ip_emit = stand_in.ip_emit;
  ip_set_payload = stand_in.ip_set_payload;
  ip_set_ident = stand_in.ip_set_ident;
  ip_set_frag_offset = stand_in.ip_set_frag_offset;
  ip_set_more_frags = stand_in.ip_set_more_frags;
  ip_set_dont_frag = stand_in.ip_set_dont_frag;
  ip_set_total_len = stand_in.ip_set_total_len;
  ip_fill_checksum = stand_in.ip_fill_checksum;
  udp_check_len = stand_in.udp_check_len;
  udp_src_port = stand_in.udp_src_port;
  udp_dst_port = stand_in.udp_dst_port;
  udp_payload = stand_in.udp_payload;
  udp_parse = stand_in.udp_parse;
  udp_buffer_len = stand_in.udp_buffer_len;
  udp_emit = stand_in.udp_emit;
  udp_fill_checksum = stand_in.udp_fill_checksum;
  set_new = [];
  set_add = λ f set. set ++ f ∷ [];
  get_packet = λ set id src dst ts. (slot_for (record { id = id; src = src; dst = dst }) set, set);
  packet_new = λ b. blank (length b);
  is_empty = is_free;
  start = λ f id src dst. record f { key = some (record { id = id; src = src; dst = dst }) };
  set_total_len = λ f n. record f { total = some n };
  add = λ f hdr offset len p ts. put f hdr offset (take hdr p) (payload p);
  reset = λ f. blank f.capacity;
  check_contig_range = λ f. is_full f.total (length f.bytes);
  front = λ f. some (length f.bytes);
  get_buffer = λ f from to. take (to - from) (drop from f.bytes);
  set_buffer = λ f from to b. record f { bytes = take from f.bytes ++ b ++ drop to f.bytes };
}

find_at :
    (test : Slot → Bool) (before : List Slot) (f : Slot) (behind : List Slot)
    → All (λ x. test x ≡ false) before
    → test f ≡ true
    → find test (before ++ f ∷ behind)
      ≡ some (record { fragment = f; give_back = λ g. before ++ g ∷ behind })
find_at test [] f behind h e = rw e refl
find_at test (x ∷ before) f behind (h, hs) e = rw (h, find_at test before f behind hs e) refl

find-none :
    (test : Slot → Bool) (set : List Slot) → All (λ x. test x ≡ false) set → find test set ≡ none
find-none test [] h = refl
find-none test (x ∷ set) (h, hs) = rw (h, find-none test set hs) refl

same : (n : ℕ) → (n == n) ≡ true
same n = ground arith

minus_zero : (n : ℕ) → n - 0 ≡ n
minus_zero n = omega arith

equal : (a b : ℕ) → a ≡ b → (a == b) ≡ true
equal a b e = ground arith

same_address_refl : (a : Ipv4Address) → same_address a a ≡ true
same_address_refl a = rw (same a.octet_0, same a.octet_1, same a.octet_2, same a.octet_3) refl

same_key_refl : (k : Key) → same_key k k ≡ true
same_key_refl k = rw (same k.id, same_address_refl k.src, same_address_refl k.dst) refl

unused : (k : Key) (j : Option Key) → is_unused j ≡ true → is_for_key k j ≡ false
unused k none e = refl
unused k (some j) e = cc

module _ (id : ℕ) (src dst : Ipv4Address) where
  abbrev pub key_of : Key
  key_of = record { id = id; src = src; dst = dst }

  -- A free slot, of the size of the program's, and as a reset leaves it.
  pub record IsReady (f : Slot) : Type 0 where
    pub free : is_free f ≡ true
    pub size : f.capacity ≡ max_reassembled_fragment_size
    pub no_total : f.total ≡ none
    pub not_begun : f.begun ≡ false

  pub record IsTaken (f : Slot) : Type 0 where
    pub key : f.key ≡ some key_of
    pub begun : f.begun ≡ true

  -- The slot is the one in use for the packet, or the first that is free if none is in use for it.
  pub record Has (ts : ℕ) (set : List Slot) (f : Slot) : Type 0 where
    pub before : List Slot
    pub behind : List Slot
    pub split : set ≡ before ++ f ∷ behind
    pub others : All (λ x. is_for key_of x ≡ false) before
    pub here :
        IsTaken f
        ⊎ (IsReady f
            × All (λ x. is_free x ≡ false) before
            × All (λ x. is_for key_of x ≡ false) behind)

  pub record Holds (ts : ℕ) (f : Slot) (header content : Bytes) : Type 0 where
    pub taken : IsTaken f
    pub size : f.capacity ≡ max_reassembled_fragment_size
    pub no_total : f.total ≡ none
    pub bytes : f.bytes ≡ header ++ content

  not_ready : (f : Slot) → IsReady f → is_for key_of f ≡ false
  not_ready f r = unused key_of f.key r.free

  taken-match : (f : Slot) → IsTaken f → is_for key_of f ≡ true
  taken-match f h = rw h.key (same_key_refl key_of)

  slot_lem :
      (set before behind : List Slot) (f : Slot)
      → set ≡ before ++ f ∷ behind
      → All (λ x. is_for key_of x ≡ false) before
      → (IsTaken f
          ⊎ (IsReady f
              × All (λ x. is_free x ≡ false) before
              × All (λ x. is_for key_of x ≡ false) behind))
      → slot_for key_of set ≡ some (record { fragment = f; give_back = λ g. before ++ g ∷ behind })
  slot_lem set before behind f split others (inl taken) =
      rw (split, find_at (is_for key_of) before f behind others (taken-match f taken)) refl
  slot_lem set before behind f split others (inr (ready, busy, rest)) =
      rw
        (
          split,
          find-none (is_for key_of) (before ++ f ∷ behind) (
              All-append (λ x. is_for key_of x ≡ false) before (f ∷ behind) others
                (not_ready f ready, rest)),
          find_at is_free before f behind busy ready.free,
        )
        refl

  given_back :
      (ts : ℕ) (before behind : List Slot) (g : Slot) (header content : Bytes)
      → All (λ x. is_for key_of x ≡ false) before
      → Holds ts g header content
      → Has ts (before ++ g ∷ behind) g
  given_back ts before behind g header content others h = record {
    before = before;
    behind = behind;
    split = refl;
    others = others;
    here = inl h.taken;
  }

  put_next :
      (f : Slot) (hdr : ℕ) (first header content more : Bytes) (ts : ℕ) (n : Option ℕ)
      → Holds ts f header content
      → hdr ≡ length header
      → length (header ++ (content ++ more)) ≤ max_reassembled_fragment_size
      → put (record f { total = n }) hdr (length content) first more
        ≡ (ok tt, record f { total = n; bytes = f.bytes ++ more })
  put_next f hdr first header content more ts n h e fits =
      let size : length f.bytes ≡ hdr + length content =
        omega (arith, ap length h.bytes, length-append header content, e) in
      let room : hdr + length content + length more ≤ f.capacity = omega (
        arith,
        size,
        h.size,
        e,
        fits,
        length-append header (content ++ more),
        length-append content more,
      ) in
      rw (h.taken.begun, size, same (hdr + length content), le→leb _ _ room) refl

  is_ready : (ts : ℕ) (set : List Slot) (f : Slot) → Has ts set f → is_free f ≡ true → IsReady f
  is_ready ts set f h free = by_slot h.here
    where
      by_slot :
          IsTaken f
            ⊎ (IsReady f
                × All (λ x. is_free x ≡ false) h.before
                × All (λ x. is_for key_of x ≡ false) h.behind)
          → IsReady f
      by_slot (inl taken) =
          let used : is_free f ≡ false = ap is_unused taken.key in absurd (ground arith)
      by_slot (inr (ready, _, _)) = ready

  put_first :
      (f : Slot) (hdr : ℕ) (header more : Bytes)
      → IsReady f
      → hdr + length more ≤ max_reassembled_fragment_size
      → put (record f { key = some key_of }) hdr 0 header more
        ≡ (ok tt, record f { key = some key_of; begun = true; bytes = header ++ more })
  put_first f hdr header more h fits =
      rw (h.not_begun, h.size, le→leb (hdr + length more) max_reassembled_fragment_size fits) refl

  joined :
      (f : Slot) (header content more : Bytes) (ts : ℕ)
      → Holds ts f header content
      → f.bytes ++ more ≡ header ++ (content ++ more)
  joined f header content more ts h = ap (λ b. b ++ more) h.bytes ∙ append_assoc header content more

  all_of : (b c : Bytes) → b ≡ c → take (length c - 0) b ≡ c
  all_of b c e = rw (e, minus_zero (length c)) (take_all (length c) c (omega arith))

  pub slotted-SlotLaws : SlotLaws slotted id src dst Has Holds
  slotted-SlotLaws = record {
    found = λ set f ts h. (
      record { fragment = f; give_back = λ g. h.before ++ g ∷ h.behind },
      slot_lem set h.before h.behind f h.split h.others h.here,
      refl,
      λ g header content held. given_back (suc ts) h.before h.behind g header content h.others held,
    );
    in_use = λ f header content ts h. ap is_unused h.taken.key;
    add_first = λ set f packet ts h free header fits.
        let r = is_ready ts set f h free in
        (
          _,
          put_first f (header_len packet) (take (header_len packet) packet) (payload packet) r fits,
          record {
            taken = record { key = refl; begun = refl };
            size = r.size;
            no_total = r.no_total;
            bytes = refl;
          },
          ap (λ t. is_full t (length (take (header_len packet) packet ++ payload packet)))
              r.no_total,
        );
    add_next = λ f header content packet ts h e fits. (
      _,
      put_next f (header_len packet) _ header content (payload packet) ts f.total h e fits,
      record {
        taken = record { key = h.taken.key; begun = h.taken.begun };
        size = h.size;
        no_total = h.no_total;
        bytes = joined f header content (payload packet) ts h;
      },
      ap (λ t. is_full t (length (f.bytes ++ payload packet))) h.no_total,
    );
    add_last = λ f header content packet ts h e total fits.
        let whole = joined f header content (payload packet) ts h in
        (
          _,
          put_next f (header_len packet) _ header content (payload packet) ts
              (some (length content + u16_at packet 2)) h e fits,
          equal _ _ (
              omega (
                arith,
                total,
                ap length whole,
                length-append header (content ++ payload packet),
                length-append content (payload packet),
              )),
          ap (λ b. some (length b)) whole,
          all_of _ _ whole,
          λ bytes size. rw (minus_zero (length bytes)) (take_prefix bytes _),
        );
    total_len = λ n p. length-put_u16 2 n p;
    checksum = λ p. refl;
  }
