-- ===== src/Tests/InOrder.antt =====
-- Theorems on reassembly, with the ten slots that the program starts with.
use rustwall.Base.{
  ℕ, ◌+◌, ◌-◌, ◌*◌, ◌/◌, ◌%◌, ◌^◌, ◌<◌, ◌≤◌, ◌≡◌, refl, ap, ◌∙◌, Bytes, Bool, true, false, none,
  inr, List, [], ◌++◌, length, take, ◌==◌, if◌then◌else◌, length-append, take_prefix, le→leb,
  replicate, length-replicate, arith,
}
use rustwall.Exec.{ret, ok}
use rustwall.Smoltcp.{IpLaws}
use rustwall.State.{State, initial, initial_fragments}
use rustwall.Fragment.{choose_packet_id, fragment_large_udp_packet}
use rustwall.Fragment.Plan.{Piece}
use rustwall.Fragment.Loop.{emitted}
use rustwall.Reassembly.SetLaws.{Carries, finished}
use rustwall.Reassembly.Feed.{feed, answers_of}
use rustwall.Reassembly.RoundTrip.{IsPiece, first_header, fragments-Reassemble}
use rustwall.Constants.{max_reassembled_fragment_size, supported_fragments}
use rustwall.Tests.Slots.{Slot, blank, slotted, Has, Holds, slotted-SlotLaws}
use rustwall.Tests.Net.{stand_in-IpLaws}
use rustwall.Tests.Fragments.{here, there}

is_one : (n : ℕ) (b : Bool) → n ≡ (if b then 1 else 0) → (n == 1) ≡ b
is_one n true e = rw e refl
is_one n false e = rw e refl

-- The bits of the sixth byte, after the setters of the offset and of both flags.
flags : ℕ → Bool → ℕ
flags n more =
    let b = (0 + n / 8) / 256 in
    let c = b % 32 + b / 64 * 64 + (if more then 32 else 0) in c % 64 + c / 128 * 128 + 0

flags_more : (n : ℕ) (more : Bool) → n < 2 ^ 16 → flags n more / 32 % 2 ≡ (if more then 1 else 0)
unfolding flags
flags_more n true h = omega (arith, h)
flags_more n false h = omega (arith, h)

flags_offset :
    (n : ℕ) (more : Bool)
    → n < 2 ^ 16
    → n % 8 ≡ 0
    → 8 * ((256 * flags n more + (0 + n / 8) % 256) % 2 ^ 13) ≡ n
unfolding flags
flags_offset n true h k = omega (arith, h, k)
flags_offset n false h k = omega (arith, h, k)

payload_len : (n : ℕ) → 256 * ((20 + n) / 256) + (20 + n) % 256 - 20 ≡ n
payload_len n = omega arith

read_payload :
    (b rest : Bytes)
    → take (256 * ((20 + length b) / 256) + (20 + length b) % 256 - 20) (b ++ rest) ≡ b
read_payload b rest = ap (λ n. take n (b ++ rest)) (payload_len (length b)) ∙ take_prefix b rest

total : (n : ℕ) → 256 * ((20 + n) / 256) + (20 + n) % 256 ≡ 20 + n
total n = omega arith

pub emitted-Carries :
    (p : Piece) → IsPiece p → Carries slotted 5 here there p (emitted slotted here there 5 p)
unfolding flags
emitted-Carries p h = record {
  ident = refl;
  src_addr = refl;
  dst_addr = refl;
  more_frags = is_one _ p.more (flags_more p.offset p.more (omega (arith, h.fits)));
  frag_offset = flags_offset p.offset p.more (omega (arith, h.fits)) h.aligned;
  payload = read_payload p.payload _;
  header_len = refl;
  total_len = total (length p.payload);
  has_header = omega arith;
}

abbrev pub fresh : State (List Slot) (Unit {0})
fresh = initial slotted none none tt

abbrev pub ready_slot : Slot
ready_slot = blank max_reassembled_fragment_size

length-zeros :
    length (replicate {A = ℕ} max_reassembled_fragment_size 0) ≡ max_reassembled_fragment_size
length-zeros = length-replicate {A = ℕ} max_reassembled_fragment_size 0

all_ready : initial_fragments slotted supported_fragments ≡ replicate supported_fragments ready_slot
unfolding initial_fragments
all_ready = ap (λ n. replicate supported_fragments (blank n)) length-zeros

-- The first of the ten slots is free for the packet.
pub first_slot : (id : ℕ) (ts : ℕ) → Has id here there ts fresh.fragments_rx ready_slot
unfolding initial
first_slot id ts = record {
  before = [];
  behind = replicate 9 ready_slot;
  split = all_ready;
  others = tt;
  here = inr (
    record { free = refl; size = refl; no_total = refl; not_begun = refl },
    tt,
    (refl, (refl, (refl, (refl, (refl, (refl, (refl, (refl, (refl, tt))))))))),
  );
}

known_id : choose_packet_id slotted 5 fresh ≡ ret 5 fresh
unfolding choose_packet_id
known_id = refl

datagram : Bytes
datagram = replicate 3000 7

length-datagram : length datagram ≡ 3000
unfolding datagram
length-datagram = length-replicate {A = ℕ} 3000 7

pub long_enough : (b : Bytes) → 20 ≤ length b → slotted.ip_check_len b ≡ ok tt
long_enough b h = rw (le→leb 20 (length b) h) refl

pub slotted-IpLaws : IpLaws slotted
slotted-IpLaws = record {
  emit_payload = stand_in-IpLaws.emit_payload;
  ident_payload = stand_in-IpLaws.ident_payload;
}

fragments-Reassemble_example :
    (packets : List Bytes) × (fragment_large_udp_packet slotted datagram here there 5 fresh
      ≡ ret packets fresh)
    × ((set' : List Slot) × (feed slotted 0 packets fresh.fragments_rx
          ≡ ret
              (answers_of
                (finished slotted (first_header slotted 5 here there datagram ++ datagram))
                packets)
              set'))
fragments-Reassemble_example =
    fragments-Reassemble slotted 5 here there datagram (Has 5 here there) (Holds 5 here there)
      slotted-IpLaws (slotted-SlotLaws 5 here there) 5 0 fresh fresh fresh.fragments_rx ready_slot
      emitted-Carries (omega (arith, length-datagram)) (omega (arith, length-datagram)) known_id
      (first_slot 5 0) refl
      (long_enough (first_header slotted 5 here there datagram ++ datagram) (
        omega (
          arith,
          length-datagram,
          length-append (first_header slotted 5 here there datagram) datagram,
        )))
