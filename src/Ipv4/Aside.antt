-- ===== src/Ipv4/Aside.antt =====
-- How a packet may change the state: what stays, and how the rest moves on.
use rustwall.Base.{ℕ, ℤ, ◌≤◌, ◌<◌, ◌^◌, ◌≡◌, refl, ◌∙◌, Bytes, Bool, List, Option, arith}
use rustwall.Exec.Keeps.{Frame}
use rustwall.Externs.{Filter}
use rustwall.State.{State, Pointer, Side, rx, tx}

-- All of the state but the fragment sets, the counters and the outside world.
pub record Outer : Type 0 where
  pub ethdriver_buf : Pointer
  pub client_buf : Pointer
  pub ethdriver_locked : Bool
  pub client_locked : Bool
  pub packets_rx : List Bytes
  pub packets_tx : List Bytes
  pub ret_client_rx : ℤ
  pub ret_client_tx : ℤ
  pub client_mac_address : Option Bytes

module _ {Frags W : Type 0} where
  abbrev pub outer : State Frags W → Outer
  outer s = record {
    ethdriver_buf = s.ethdriver_buf;
    client_buf = s.client_buf;
    ethdriver_locked = s.ethdriver_locked;
    client_locked = s.client_locked;
    packets_rx = s.packets_rx;
    packets_tx = s.packets_tx;
    ret_client_rx = s.ret_client_rx;
    ret_client_tx = s.ret_client_tx;
    client_mac_address = s.client_mac_address;
  }

-- The fragment sets, the counters and the outside world.
pub record Inner (Frags W : Type 0) : Type 0 where
  pub fragments_rx : Frags
  pub fragments_tx : Frags
  pub seed : ℕ
  pub ms : ℕ
  pub world : W

-- Of two things, the one of the other direction.
abbrev pub other : {A : Type 0} → Side → A → A → A
other rx of_rx of_tx = of_tx
other tx of_rx of_tx = of_rx

module _ {Frags W : Type 0} where
  abbrev pub inner : State Frags W → Inner Frags W
  inner s = record {
    fragments_rx = s.fragments_rx;
    fragments_tx = s.fragments_tx;
    seed = s.seed;
    ms = s.ms;
    world = s.world;
  }

  -- The fragments of the other direction.
  abbrev pub other_fragments : Side → Inner Frags W → Frags
  other_fragments side i = other side i.fragments_rx i.fragments_tx

-- `w'` is `w` after any number of calls of the external filter.
pub data Asked {W : Type 0} (filter : Filter W) (w : W) : W → Type 0 where
  not_asked : Asked filter w w
  ask :
      {v : W}
      → Asked filter w v
      → (src_addr src_port dst_addr dst_port len : ℕ) (mem : Bytes) (max_len : ℕ)
      → Asked filter w (filter src_addr src_port dst_addr dst_port len mem max_len v).2

pub Asked-trans :
    {W : Type 0} {filter : Filter W} {u v w : W}
    → Asked filter u v
    → Asked filter v w
    → Asked filter u w
Asked-trans p not_asked = p
Asked-trans p (ask q a b c d n mem m) = ask (Asked-trans p q) a b c d n mem m

-- A filter without a state leaves the outside world as it is.
abbrev pub Stateless : {W : Type 0} → Filter W → Type 0
Stateless {W} filter =
    (src_addr src_port dst_addr dst_port len : ℕ) (mem : Bytes) (max_len : ℕ) (w : W)
    → (filter src_addr src_port dst_addr dst_port len mem max_len w).2 ≡ w

pub Asked-same :
    {W : Type 0} {filter : Filter W} {v w : W} → Stateless filter → Asked filter v w → w ≡ v
Asked-same h not_asked = refl
Asked-same h (ask p a b c d n mem m) = h a b c d n mem m _ ∙ Asked-same h p

-- A counter of `w` bits counts up, and does not wrap around.
pub record CountsUp (w before after : ℕ) : Type 0 where
  pub up : before ≤ after
  pub fits : before < 2 ^ w → after < 2 ^ w

pub CountsUp-refl : (w n : ℕ) → CountsUp w n n
CountsUp-refl w n = record { up = omega arith; fits = λ h. h }

pub CountsUp-trans : (w a b c : ℕ) → CountsUp w a b → CountsUp w b c → CountsUp w a c
CountsUp-trans w a b c p q = record {
  up = omega (arith, p.up, q.up);
  fits = λ h. q.fits (p.fits h);
}

-- The outside world is changed by calls of the filter only, the fragments of the other direction
-- stay, and the `u16` and the `i64` that count do not wrap around.
pub record MovesOn {Frags W : Type 0} (side : Side) (filter : Filter W) (a b : Inner Frags W)
    : Type 0 where
  pub asked : Asked filter a.world b.world
  pub others : other_fragments side b ≡ other_fragments side a
  pub seed : CountsUp 16 a.seed b.seed
  pub ms : CountsUp 63 a.ms b.ms

module _ {Frags W : Type 0} (side : Side) (filter : Filter W) where
  pub MovesOn-refl : (a : Inner Frags W) → MovesOn side filter a a
  MovesOn-refl a = record {
    asked = not_asked;
    others = refl;
    seed = CountsUp-refl 16 a.seed;
    ms = CountsUp-refl 63 a.ms;
  }

  pub MovesOn-trans :
      (a b c : Inner Frags W)
      → MovesOn side filter a b
      → MovesOn side filter b c
      → MovesOn side filter a c
  MovesOn-trans a b c p q = record {
    asked = Asked-trans p.asked q.asked;
    others = q.others ∙ p.others;
    seed = CountsUp-trans 16 a.seed b.seed c.seed p.seed q.seed;
    ms = CountsUp-trans 63 a.ms b.ms c.ms p.ms q.ms;
  }

  -- `outer` is the same, and the rest moves on.
  pub record Aside (s t : State Frags W) : Type 0 where
    pub same : outer t ≡ outer s
    pub moves : MovesOn side filter (inner s) (inner t)

abbrev pub outer_kept : (Frags : Type 0) {W : Type 0} → Side → Filter W → Frame (State Frags W)
outer_kept Frags {W} side filter = record {
  Rel = Aside side filter;
  Rel_refl = λ s. record { same = refl; moves = MovesOn-refl side filter (inner s) };
  Rel_trans = λ s t u p q. record {
    same = q.same ∙ p.same;
    moves = MovesOn-trans side filter (inner s) (inner t) (inner u) p.moves q.moves;
  };
  Stuck = ⊥;
}
