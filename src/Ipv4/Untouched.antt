-- ===== src/Ipv4/Untouched.antt =====
-- What `process_ipv4` and the functions below it leave alone.
use rustwall.Base.{
  ltb, ltb→lt, arith, ◌+◌, ◌^◌, Bool-cases, inl, inr, true, ℕ, ℤ, pos, negsuc, ◌≡◌, refl, Bytes,
  List, [], ◌∷◌, Option, some, none, ◌++◌, take,
}
use rustwall.Exec.{Exec, Outcome, ret, fail, crash, fragmented}
use rustwall.Exec.Keeps.{
  Frame, Keeps, Ends, Allowed, unstuck, keeps_rules, Keeps-bind, Keeps-pure, Keeps-lift,
  Keeps-raise,
}
use rustwall.Constants.{ethernet_frame_payload}
use rustwall.Smoltcp.{Smoltcp, Ipv4Address, Ipv4Repr, IpProtocol, icmp, igmp, udp, other_protocol}
use rustwall.Externs.{Filter}
use rustwall.State.{
  State, Side, rx, tx, get_pseudorandom_packet_id, timestamp, set_fragments, fragments,
}
use rustwall.Reassembly.Live.{process_ipv4_fragment-Live}
use rustwall.Fragment.{choose_packet_id, fragment_large_udp_packet}
use rustwall.Fragment.Keeps.{slice_rules, small_packet-Keeps, large_packet-Keeps}
use rustwall.Udp.{call_external_firewall, assemble_udp, process_udp}
use rustwall.Ipv4.Aside.{Aside, outer_kept, CountsUp, CountsUp-refl, not_asked, ask}
use rustwall.Ipv4.{
  on_fragments, put_fragments, or_fragmented, reassemble, check_protocol, wrap_packets,
  enqueue_frames, process_ipv4,
}

-- One more, as the overflow check allows it.
counted : (w n : ℕ) → ltb (n + 1) (2 ^ w) ≡ true → CountsUp w n (n + 1)
counted w n h = record { up = omega arith; fits = λ p. ltb→lt _ _ h }

module _ {Frag Frags : Type 0} (net : Smoltcp Frag Frags) {S : Type 0} {F : Frame S} where
  wrap_packets-Keeps :
      (eth_packet : Bytes) (ps : List Bytes) → Keeps F (wrap_packets net eth_packet ps)
  unfolding wrap_packets
  wrap_packets-Keeps eth_packet [] = search keeps_rules
  wrap_packets-Keeps eth_packet (p ∷ ps) = Keeps-bind _ _ (Keeps-lift _) λ frame.
      Keeps-bind _ _ (wrap_packets-Keeps (take ethernet_frame_payload eth_packet ++ p) ps)
        λ frames. Keeps-pure _

  enqueue_frames-Keeps :
      (eth_packet : Bytes) (ps : List Bytes) → Keeps F (enqueue_frames net eth_packet ps)
  unfolding enqueue_frames
  enqueue_frames-Keeps eth_packet [] = search keeps_rules
  enqueue_frames-Keeps eth_packet (p ∷ ps) = wrap_packets-Keeps eth_packet (p ∷ ps)

module _ {Frags W : Type 0} (side : Side) (filter : Filter W) where
  get_packet_id-outer : Keeps (outer_kept Frags side filter) get_pseudorandom_packet_id
  unfolding get_pseudorandom_packet_id
  get_packet_id-outer = record {
    at = λ s. elim (Bool-cases (ltb (s.seed + 1) (2 ^ 16))) [
      | inl fits ↦ rw fits (record {
        same = refl;
        moves = record {
          asked = not_asked;
          others = refl;
          seed = counted 16 s.seed fits;
          ms = CountsUp-refl 63 s.ms;
        };
      })
      | inr full ↦ rw full tt
    ];
  }

  timestamp-outer : Keeps (outer_kept Frags side filter) timestamp
  unfolding timestamp
  timestamp-outer = record {
    at = λ s. elim (Bool-cases (ltb (s.ms + 1) (2 ^ 63))) [
      | inl fits ↦ rw fits (record {
        same = refl;
        moves = record {
          asked = not_asked;
          others = refl;
          seed = CountsUp-refl 16 s.seed;
          ms = counted 63 s.ms fits;
        };
      })
      | inr full ↦ rw full tt
    ];
  }

  set_fragments-outer :
      (set : Frags) (s : State Frags W) → Aside side filter s (set_fragments side set s)
  set_fragments-outer set s = by_side side
    where
      by_side : (d : Side) → Aside d filter s (set_fragments d set s)
      by_side rx = record {
        same = refl;
        moves = record {
          asked = not_asked;
          others = refl;
          seed = CountsUp-refl 16 s.seed;
          ms = CountsUp-refl 63 s.ms;
        };
      }
      by_side tx = record {
        same = refl;
        moves = record {
          asked = not_asked;
          others = refl;
          seed = CountsUp-refl 16 s.seed;
          ms = CountsUp-refl 63 s.ms;
        };
      }

  put_fragments-outer :
      {A : Type 0} (s : State Frags W) (o : Outcome Frags A)
      → Ends (Allowed ⊥) (λ _. Unit {0}) o
      → Ends (Allowed ⊥) (Aside side filter s) (put_fragments side s o)
  put_fragments-outer s (ret a set) h = set_fragments-outer set s
  put_fragments-outer s (fail e set) h = set_fragments-outer set s
  put_fragments-outer s (crash c) h = h

  on_fragments-outer :
      {A : Type 0} (m : Exec Frags A)
      → Keeps (unstuck Frags) m
      → Keeps (outer_kept Frags side filter) (on_fragments side m)
  on_fragments-outer m k = record {
    at = λ s. put_fragments-outer s (m (fragments side s)) (k.at (fragments side s));
  }

module _ {Frag Frags W : Type 0} (net : Smoltcp Frag Frags) (side : Side) (filter : Filter W) where
  choose_packet_id-outer : (id : ℕ) → Keeps (outer_kept Frags side filter) (choose_packet_id net id)
  unfolding choose_packet_id
  choose_packet_id-outer id = search (keeps_rules, get_packet_id-outer)

  fragment_large-outer :
      (udp_packet : Bytes) (src dst : Ipv4Address) (id : ℕ)
      → Keeps (outer_kept Frags side filter) (fragment_large_udp_packet net udp_packet src dst id)
  unfolding fragment_large_udp_packet
  fragment_large-outer udp_packet src dst id =
      search (keeps_rules, choose_packet_id-outer, small_packet-Keeps, large_packet-Keeps)

  or_fragmented-outer :
      (found : Option Bytes) → Keeps (outer_kept Frags side filter) (or_fragmented found)
  or_fragmented-outer none = Keeps-raise fragmented
  or_fragmented-outer (some p) = Keeps-pure p

  reassemble-outer :
      (packet payload : Bytes)
      → Keeps (outer_kept Frags side filter) (reassemble net side packet payload)
  unfolding reassemble
  reassemble-outer packet payload =
      search
        (
          keeps_rules, timestamp-outer, on_fragments-outer, or_fragmented-outer,
          process_ipv4_fragment-Live,
        )
        depth 9

  call_external_firewall-outer :
      (r : Ipv4Repr) (packet : Bytes)
      → Keeps (outer_kept Frags side filter) (call_external_firewall net filter r packet)
  unfolding call_external_firewall
  call_external_firewall-outer r packet = record {
    at = λ s. record {
      same = refl;
      moves = record {
        asked = ask not_asked _ _ _ _ _ _ _;
        others = refl;
        seed = CountsUp-refl 16 s.seed;
        ms = CountsUp-refl 63 s.ms;
      };
    };
  }

  assemble_udp-outer :
      (r : Ipv4Repr) (packet : Bytes) (n : ℤ) (mem : Bytes)
      → Keeps (outer_kept Frags side filter) (assemble_udp net r packet n mem)
  unfolding assemble_udp
  assemble_udp-outer r packet (negsuc n) mem = search keeps_rules
  assemble_udp-outer r packet (pos n) mem = search keeps_rules

  process_udp-outer :
      (r : Ipv4Repr) (payload : Bytes)
      → Keeps (outer_kept Frags side filter) (process_udp net filter r payload)
  unfolding process_udp
  process_udp-outer r payload =
      search (keeps_rules, call_external_firewall-outer, assemble_udp-outer) depth 9

  check_protocol-outer :
      (packet : Bytes) (r : Ipv4Repr) (p : IpProtocol)
      → Keeps (outer_kept Frags side filter) (check_protocol net filter packet r p)
  unfolding check_protocol
  check_protocol-outer packet r icmp = search keeps_rules
  check_protocol-outer packet r igmp = search keeps_rules
  check_protocol-outer packet r udp = search (keeps_rules, process_udp-outer, fragment_large-outer)
  check_protocol-outer packet r (other_protocol n) = search keeps_rules

  -- Whatever the frame, the external firewall and smoltcp do, `process_ipv4` leaves the shared
  -- buffers, the locks, both packet queues, the stored return values, the known address and the
  -- fragments of the other direction as they were, does nothing to the outside world but to ask the
  -- external firewall, and only counts the packet identifiers and the clock up, without wrapping
  -- around, whether it returns frames or an error; and it is never in a deadlock or an endless loop.
  pub process_ipv4-outer :
      (eth_packet : Bytes)
      → Keeps (outer_kept Frags side filter) (process_ipv4 net side filter eth_packet)
  unfolding process_ipv4
  process_ipv4-outer eth_packet =
      search (slice_rules, reassemble-outer, check_protocol-outer, enqueue_frames-Keeps) depth 20
